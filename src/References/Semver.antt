-- ===== src/References/Semver.antt =====
-- tasks/semver-compare/reference.hpp: the grammar of a version and the precedence of two.
pub mod Order
pub mod Total
pub mod Precedence
use gemini_cpp.Base.{
  ℕ, suc, zero, ◌+◌, Bool, true, false, not, ◌&&◌, ◌||◌, leb, ◌==◌, if◌then◌else◌, List, [], ◌∷◌,
  ◌++◌, Option, none, some, length, is_empty, take, drop, bind_option, ltb,
}
use gemini_cpp.Base.Text.{Bytes, is_digit}
use gemini_cpp.Base.Search.{find}
use gemini_cpp.References.Semver.Order.{Sign, less, same, more, or_else}

abbrev pub every {ℓ} : {A : Type ℓ} → (A → Bool) → List A → Bool
every p [] = true
every p (x ∷ xs) = let rest = every p xs in p x && rest

abbrev pub is_ident_char : ℕ → Bool
is_ident_char c = is_digit c || leb b'a' c && leb c b'z' || leb b'A' c && leb c b'Z' || c == b'-'

abbrev pub all_digits : Bytes → Bool
all_digits s = not (is_empty s) && every is_digit s

abbrev pub valid_number : Bytes → Bool
valid_number [] = false
valid_number (c ∷ s) = all_digits (c ∷ s) && (length (c ∷ s) == 1 || not (c == b'0'))

abbrev pub valid_ident : Bytes → Bool
valid_ident s = not (is_empty s) && every is_ident_char s

-- The search for the separator goes on from byte to byte; `part` is what it has passed since `start`.
abbrev pub split_from : ℕ → Bytes → Bytes → List Bytes
split_from sep part [] = part ∷ []
split_from sep part (c ∷ s) =
    let next = split_from sep [] s in
    let longer = split_from sep (part ++ c ∷ []) s in if c == sep then part ∷ next else longer

abbrev pub split : Bytes → ℕ → List Bytes
split s sep = split_from sep [] s

-- `size()` against `size()`.
abbrev pub compare_sizes : ℕ → ℕ → Sign
compare_sizes m n = if m == n then same else if ltb m n then less else more

-- The sign of `std::string_view::compare`: the bytes as unsigned numbers, then the lengths.
abbrev pub compare_bytes : Bytes → Bytes → Sign
compare_bytes [] [] = same
compare_bytes [] (d ∷ t) = less
compare_bytes (c ∷ s) [] = more
compare_bytes (c ∷ s) (d ∷ t) =
    let rest = compare_bytes s t in if c == d then rest else if ltb c d then less else more

abbrev pub compare_numbers : Bytes → Bytes → Sign
compare_numbers a b =
    if not (length a == length b)
    then if ltb (length a) (length b) then less else more
    else compare_bytes a b

pub record Version : Type 0 where
  pub core : List Bytes
  pub pre : List Bytes

-- A numeric identifier has no leading zero.
abbrev pub pre_ident : Bytes → Bool
pre_ident id = valid_ident id && not (all_digits id && not (valid_number id))

-- The text before `+`, if what follows is build metadata.
abbrev pub strip_build : Bytes → Option Bytes
strip_build v = elim (find v (b'+' ∷ [])) [
  | none ↦ some v
  | some plus ↦
      if every valid_ident (split (drop (suc plus) v) b'.') then some (take plus v) else none
]

-- The text before `-`, and the identifiers of the pre-release.
abbrev pub take_pre : Bytes → Option (Bytes × List Bytes)
take_pre v = elim (find v (b'-' ∷ [])) [
  | none ↦ some (v, [])
  | some dash ↦
      let ids = split (drop (suc dash) v) b'.' in
      if every pre_ident ids then some (take dash v, ids) else none
]

abbrev pub take_core : Bytes → List Bytes → Option Version
take_core v pre =
    let core = split v b'.' in
    if not (length core == 3)
    then none
    else if every valid_number core
    then some (record { core = core; pre = pre })
    else none

unfoldable pub parse_version : Bytes → Option Version
unfolding find
parse_version v =
    bind_option (strip_build v) (λ v. bind_option (take_pre v) (λ (v, pre). take_core v pre))

abbrev pub compare_ident : Bytes → Bytes → Sign
compare_ident x y =
    if all_digits x && all_digits y
    then compare_numbers x y
    else if all_digits x
    then less
    else if all_digits y
    then more
    else compare_bytes x y

-- A loop over the first n places of both lists, which returns the first result that is not 0.
abbrev pub first_difference : (Bytes → Bytes → Sign) → ℕ → List Bytes → List Bytes → Sign → Sign
first_difference f zero xs ys last = last
first_difference f (suc n) [] ys last = last
first_difference f (suc n) (x ∷ xs) [] last = last
first_difference f (suc n) (x ∷ xs) (y ∷ ys) last =
    let rest = first_difference f n xs ys last in or_else (f x y) rest

abbrev pub compare_pre : List Bytes → List Bytes → Sign
compare_pre a b =
    if is_empty a || is_empty b
    then if is_empty a && is_empty b then same else if is_empty a then more else less
    else first_difference compare_ident (if ltb (length b) (length a) then length b else length a) a
        b (compare_sizes (length a) (length b))

abbrev pub compare_versions : Version → Version → Sign
compare_versions a b = first_difference compare_numbers 3 a.core b.core (compare_pre a.pre b.pre)

abbrev pub compare_parsed : Option Version → Option Version → Option Sign
compare_parsed none b = none
compare_parsed (some a) none = none
compare_parsed (some a) (some b) = some (compare_versions a b)

-- `compare_semver`; the result is the sign -1, 0 or 1.
abbrev pub compare_semver : Bytes → Bytes → Option Sign
compare_semver a b = compare_parsed (parse_version a) (parse_version b)
