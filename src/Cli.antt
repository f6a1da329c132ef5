-- ===== src/Cli.antt =====
-- apps/cli_args.hpp and apps/cli_args.cpp: the command line's arguments.
pub mod Line
use gemini_cpp.Base.{
  ℕ, Bool, true, false, not, ◌&&◌, ◌||◌, ◌==◌, ◌^◌, List, [], ◌∷◌, ◌++◌, Option, none, some,
  is_empty, if◌then◌else◌, drop, length, or_value,
}
use gemini_cpp.Base.Int.{ℤ}
use gemini_cpp.Base.Text.{Bytes, codes, equal, starts_with}
use gemini_cpp.Json.{FloatLib}
use gemini_cpp.Wire.ApiError.{from_chars}

pub record Spec : Type 0 where
  pub value_options : List Bytes
  pub flags : List Bytes

-- The multimap of values keeps the order of equal keys, and so does the list.
pub record Args : Type 0 where
  pub values : List (Bytes × Bytes)
  pub flags : List Bytes
  pub positional : List Bytes

abbrev pub no_args : Args
no_args = record { values = []; flags = []; positional = [] }

-- `contains` of a set of names.
unfoldable pub has_name : Bytes → List Bytes → Bool
unfolding equal
has_name name [] = false
has_name name (n ∷ ns) = equal n name || has_name name ns

-- The name, and the value after the first equals sign.
unfoldable pub split_value : Bytes → Bytes × Option Bytes
split_value [] = ([], none)
split_value (c ∷ s) =
    let (name, value) = split_value s in if c == b'=' then ([], some s) else (c ∷ name, value)

-- What an argument is.
pub data Word : Type 0 where
  plain : Word
  end_of_options : Word
  flag_word : Bytes → Word
  value_word : Bytes → Bytes → Word
  needs_value : Bytes → Word
  wrong : Bytes → Word

abbrev dashes : Bytes
dashes = codes "--"

unfoldable pub option_word : Spec → Bytes × Option Bytes → Word
unfolding has_name
option_word spec (name, value) =
    if has_name name spec.flags
    then elim value [
      | some v ↦ wrong (codes "option --" ++ (name ++ codes " does not take a value"))
      | none ↦ flag_word name
    ]
    else if has_name name spec.value_options
    then elim value [ some v ↦ value_word name v | none ↦ needs_value name ]
    else wrong (codes "unknown option --" ++ name)

unfoldable pub classify_word : Spec → Bool → Bytes → Word
unfolding option_word split_value starts_with equal
classify_word spec options_done arg =
    if options_done || (not (starts_with arg dashes) || equal arg (codes "-"))
    then plain
    else if equal arg dashes
    then end_of_options
    else option_word spec (split_value (drop 2 arg))

abbrev pub with_plain : Bytes → Args → Args
with_plain arg args = record args { positional = args.positional ++ arg ∷ [] }

abbrev pub with_flag : Bytes → Args → Args
with_flag name args = record args { flags = args.flags ++ name ∷ [] }

abbrev pub with_value : Bytes → Bytes → Args → Args
with_value name v args = record args { values = args.values ++ (name, v) ∷ [] }

-- The loop of `parse`: the message of the first error, and what was read. A name that waits for its
-- value takes the next argument, whatever it is.
unfoldable pub parse_from : Spec → Bool → Option Bytes → List Bytes → Args → Option Bytes × Args
unfolding classify_word
parse_from spec options_done none [] args = (none, args)
parse_from spec options_done (some name) [] args =
    (some (codes "option --" ++ (name ++ codes " requires a value")), args)
parse_from spec options_done (some name) (v ∷ rest) args =
    parse_from spec options_done none rest (with_value name v args)
parse_from spec options_done none (arg ∷ rest) args = elim (classify_word spec options_done arg) [
  | plain ↦ parse_from spec options_done none rest (with_plain arg args)
  | end_of_options ↦ parse_from spec true none rest args
  | flag_word name ↦ parse_from spec options_done none rest (with_flag name args)
  | value_word name v ↦ parse_from spec options_done none rest (with_value name v args)
  | needs_value name ↦ parse_from spec options_done (some name) rest args
  | wrong message ↦ (some message, args)
]

unfoldable pub parse_args : Spec → List Bytes → Option Bytes × Args
unfolding parse_from
parse_args spec argv = parse_from spec false none argv no_args

unfoldable pub flag : Args → Bytes → Bool
unfolding has_name
flag args name = has_name name args.flags

-- `equal_range` of a name.
unfoldable pub get_all : List (Bytes × Bytes) → Bytes → List Bytes
unfolding equal
get_all [] name = []
get_all ((n, v) ∷ values) name =
    let rest = get_all values name in if equal n name then v ∷ rest else rest

abbrev last_of : List Bytes → Option Bytes
last_of [] = none
last_of (v ∷ []) = some v
last_of (v ∷ w ∷ vs) = last_of (w ∷ vs)

unfoldable pub get : Args → Bytes → Option Bytes
unfolding get_all
get args name = last_of (get_all args.values name)

unfoldable pub get_or : Args → Bytes → Bytes → Bytes
unfolding get
get_or args name fallback = or_value (get args name) fallback

-- `get_int` into `out`: the message, if the value is no integer, and the new `out`.
unfoldable pub get_int : Args → Bytes → Option ℤ → Option Bytes × Option ℤ
unfolding get from_chars
get_int args name out = elim (get args name) [
  | none ↦ (none, out)
  | some v ↦ elim (from_chars (2 ^ 31) v) [
    | some (value, []) ↦ (none, some value)
    | _ ↦ (
      some (codes "--" ++ (name ++ (codes " expects an integer, got '" ++ (v ++ codes "'")))),
      out,
    )
  ]
]

-- `get_double` with `std::strtod`.
unfoldable pub get_double :
    (F : FloatLib) → Args → Bytes → Option F.Double → Option Bytes × Option F.Double
unfolding get
get_double F args name out = elim (get args name) [
  | none ↦ (none, out)
  | some v ↦
      let (value, read) = F.strtod v in
      (if is_empty v || not (read == length v)
        then (
          some (codes "--" ++ (name ++ (codes " expects a number, got '" ++ (v ++ codes "'")))),
          out,
        )
        else (none, some value))
]
