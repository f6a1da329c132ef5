-- ===== src/Cli/Line.antt =====
-- apps/cli_args.cpp: a command line that is written from its parts, and what `parse` reads from it.
use gemini_cpp.Base.{
  ℕ, true, false, ◌==◌, List, [], ◌∷◌, ◌++◌, none, some, is_empty, ◌≡◌, refl, sym, ap, ◌∙◌, arith,
  All, append-nil, append_assoc,
}
use gemini_cpp.Base.Text.{Bytes, codes, equal, starts_with}
use gemini_cpp.Cli.{
  Spec, Args, no_args, has_name, split_value, plain, flag_word, value_word, needs_value,
  option_word, classify_word, with_plain, with_flag, with_value, parse_from, parse_args,
}

-- A part: an argument of its own, a flag, `--name=value`, or `--name value`.
pub data Item : Type 0 where
  word : Bytes → Item
  switch : Bytes → Item
  inline_value : Bytes → Bytes → Item
  next_value : Bytes → Bytes → Item

-- A name has a byte and no equals sign.
abbrev IsName : Bytes → Type 0
IsName name = (is_empty name ≡ false) × All (λ c. (c == b'=') ≡ false) name

abbrev TakesValue : Spec → Bytes → Type 0
TakesValue spec name =
    (has_name name spec.flags ≡ false) × (has_name name spec.value_options ≡ true)

abbrev pub IsItem : Spec → Item → Type 0
IsItem spec (word arg) = starts_with arg (codes "--") ≡ false
IsItem spec (switch name) = IsName name × (has_name name spec.flags ≡ true)
IsItem spec (inline_value name v) = IsName name × TakesValue spec name
IsItem spec (next_value name v) = IsName name × TakesValue spec name

abbrev option_of : Bytes → Bytes
option_of name = b'-' ∷ b'-' ∷ name

abbrev item_args : Item → List Bytes
item_args (word arg) = arg ∷ []
item_args (switch name) = option_of name ∷ []
item_args (inline_value name v) = option_of (name ++ b'=' ∷ v) ∷ []
item_args (next_value name v) = option_of name ∷ v ∷ []

unfoldable pub line_of : List Item → List Bytes → List Bytes
line_of [] rest = rest
line_of (i ∷ is_) rest = item_args i ++ line_of is_ rest

-- The flags of a line, the values with their names, and the arguments of their own, in order.
unfoldable pub flags_of : List Item → List Bytes
flags_of [] = []
flags_of (switch name ∷ is_) = name ∷ flags_of is_
flags_of (word arg ∷ is_) = flags_of is_
flags_of (inline_value name v ∷ is_) = flags_of is_
flags_of (next_value name v ∷ is_) = flags_of is_

unfoldable pub values_of : List Item → List (Bytes × Bytes)
values_of [] = []
values_of (inline_value name v ∷ is_) = (name, v) ∷ values_of is_
values_of (next_value name v ∷ is_) = (name, v) ∷ values_of is_
values_of (word arg ∷ is_) = values_of is_
values_of (switch name ∷ is_) = values_of is_

unfoldable pub words_of : List Item → List Bytes
words_of [] = []
words_of (word arg ∷ is_) = arg ∷ words_of is_
words_of (switch name ∷ is_) = words_of is_
words_of (inline_value name v ∷ is_) = words_of is_
words_of (next_value name v ∷ is_) = words_of is_

-- What was read before, and then these.
abbrev add_args : Args → List (Bytes × Bytes) → List Bytes → List Bytes → Args
add_args args vs fs ws = record {
  values = args.values ++ vs;
  flags = args.flags ++ fs;
  positional = args.positional ++ ws;
}

add_args-nothing : (args : Args) → add_args args [] [] [] ≡ args
add_args-nothing args =
    rw (append-nil args.values, append-nil args.flags, append-nil args.positional) refl

split_value-name :
    (name : Bytes) → All (λ c. (c == b'=') ≡ false) name → split_value name ≡ (name, none)
unfolding split_value
split_value-name [] h = refl
split_value-name (c ∷ s) (e, h) = rw e (ap (λ r. (c ∷ r.0, r.1)) (split_value-name s h))

split_value-both :
    (name v : Bytes)
    → All (λ c. (c == b'=') ≡ false) name
    → split_value (name ++ b'=' ∷ v) ≡ (name, some v)
unfolding split_value
split_value-both [] v h = refl
split_value-both (c ∷ s) v (e, h) = rw e (ap (λ r. (c ∷ r.0, r.1)) (split_value-both s v h))

classify_word-option :
    (spec : Spec) (c : ℕ) (s : Bytes)
    → classify_word spec false (option_of (c ∷ s)) ≡ option_word spec (split_value (c ∷ s))
unfolding classify_word equal starts_with
classify_word-option spec c s = refl

classify_word-flag :
    (spec : Spec) (name : Bytes)
    → IsItem spec (switch name)
    → classify_word spec false (option_of name) ≡ flag_word name
unfolding option_word
classify_word-flag spec [] (n, f) = absurd (ground (arith, n))
classify_word-flag spec (c ∷ s) (n, f) =
    classify_word-option spec c s ∙ ap (option_word spec) (split_value-name (c ∷ s) n.1) ∙ rw f refl

classify_word-needs :
    (spec : Spec) (name v : Bytes)
    → IsItem spec (next_value name v)
    → classify_word spec false (option_of name) ≡ needs_value name
unfolding option_word
classify_word-needs spec [] v (n, f) = absurd (ground (arith, n))
classify_word-needs spec (c ∷ s) v (n, (f, g)) =
    classify_word-option spec c s
    ∙ ap (option_word spec) (split_value-name (c ∷ s) n.1)
    ∙ rw (f, g) refl

classify_word-value :
    (spec : Spec) (name v : Bytes)
    → IsItem spec (inline_value name v)
    → classify_word spec false (option_of (name ++ b'=' ∷ v)) ≡ value_word name v
unfolding option_word
classify_word-value spec [] v (n, f) = absurd (ground (arith, n))
classify_word-value spec (c ∷ s) v (n, (f, g)) =
    classify_word-option spec c (s ++ b'=' ∷ v)
    ∙ ap (option_word spec) (split_value-both (c ∷ s) v n.1)
    ∙ rw (f, g) refl

classify_word-plain :
    (spec : Spec) (arg : Bytes)
    → starts_with arg (codes "--") ≡ false
    → classify_word spec false arg ≡ plain
unfolding classify_word
classify_word-plain spec arg h = rw h refl

parse_from-words :
    (spec : Spec) (ws : List Bytes) (args : Args)
    → parse_from spec true none ws args ≡ (none, add_args args [] [] ws)
unfolding parse_from classify_word
parse_from-words spec [] args = ap (λ a. (none, a)) (sym (add_args-nothing args))
parse_from-words spec (w ∷ ws) args =
    parse_from-words spec ws (with_plain w args) ∙ rw append_assoc refl

parse_from-items :
    (spec : Spec) (is_ : List Item) (ws : List Bytes) (args : Args)
    → All (IsItem spec) is_
    → parse_from spec false none (line_of is_ (codes "--" ∷ ws)) args
      ≡ (none, add_args args (values_of is_) (flags_of is_) (words_of is_ ++ ws))
unfolding line_of parse_from classify_word equal starts_with flags_of values_of words_of
parse_from-items spec [] ws args h = parse_from-words spec ws args
parse_from-items spec (word arg ∷ is_) ws args (h, hs) =
    rw (classify_word-plain spec arg h, parse_from)
      (parse_from-items spec is_ ws (with_plain arg args) hs ∙ rw append_assoc refl)
parse_from-items spec (switch name ∷ is_) ws args (h, hs) =
    rw (classify_word-flag spec name h, parse_from)
      (parse_from-items spec is_ ws (with_flag name args) hs ∙ rw append_assoc refl)
parse_from-items spec (inline_value name v ∷ is_) ws args (h, hs) =
    rw (classify_word-value spec name v h, parse_from)
      (parse_from-items spec is_ ws (with_value name v args) hs ∙ rw append_assoc refl)
parse_from-items spec (next_value name v ∷ is_) ws args (h, hs) =
    rw (classify_word-needs spec name v h, parse_from)
      (parse_from-items spec is_ ws (with_value name v args) hs ∙ rw append_assoc refl)

-- A command line that is written from flags, options with their values in either form, and other
-- arguments that do not begin with two dashes, then `--` and any arguments, is read back without an
-- error: the flags, the values and the positional arguments are those that were written, in order.
pub parse_args-line_of :
    (spec : Spec) (is_ : List Item) (ws : List Bytes)
    → All (IsItem spec) is_
    → parse_args spec (line_of is_ (codes "--" ∷ ws)) ≡ (
      none,
      record { values = values_of is_; flags = flags_of is_; positional = words_of is_ ++ ws },
    )
unfolding parse_args
parse_args-line_of spec is_ ws h = parse_from-items spec is_ ws no_args h
