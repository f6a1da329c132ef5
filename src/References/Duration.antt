-- ===== src/References/Duration.antt =====
-- tasks/parse-duration/reference.hpp: durations such as 1h15m30.5s. The arithmetic is over two functions
-- that say what a 64-bit and a 128-bit unsigned number keep of a result.
pub mod Wide
pub mod Range
pub mod Enough
use gemini_cpp.Base.{
  ℕ, suc, zero, ◌+◌, ◌-◌, ◌*◌, ◌/◌, ◌%◌, ◌^◌, Bool, true, false, not, ◌&&◌, ◌||◌, ltb, ◌==◌,
  if◌then◌else◌, List, [], ◌∷◌, Option, none, some, length, is_empty, bind_option,
}
use gemini_cpp.Base.Int.{ℤ, pos, sub_ℕ}
use gemini_cpp.Base.Text.{Bytes, codes, equal, is_digit}

-- `kLimit`, the magnitude of the least 64-bit integer.
abbrev pub limit : ℕ
limit = 2 ^ 63

-- `unit_name`, and what follows it.
abbrev pub take_unit : Bytes → Bytes × Bytes
take_unit [] = ([], [])
take_unit (c ∷ s) =
    let (name, rest) = take_unit s in
    if not (c == b'.') && not (is_digit c) then (c ∷ name, rest) else ([], c ∷ s)

unfoldable pub unit_of : Bytes → Option ℕ
unfolding equal
unit_of name =
    if equal name (codes "ns")
    then some 1
    else if equal name (codes "us")
        || equal name (194 ∷ 181 ∷ b's' ∷ [])
        || equal name (206 ∷ 188 ∷ b's' ∷ [])
    then some 1000
    else if equal name (codes "ms")
    then some 1000000
    else if equal name (codes "s")
    then some 1000000000
    else if equal name (codes "m")
    then some 60000000000
    else if equal name (codes "h")
    then some 3600000000000
    else none

-- The digits after the point, of which those below 1ns are passed over; `any_digit` and what follows.
pub record Fraction : Type 0 where
  pub frac : ℕ
  pub scale : ℕ
  pub any_digit : Bool
  pub rest : Bytes

-- The range of the result is not the same on both sides of 0.
abbrev pub finish_total : Bool → ℕ → Option ℤ
finish_total true total = some (sub_ℕ 0 total)
finish_total false total = if total == limit then none else some (pos total)

module _ (w64 w128 : ℕ → ℕ) where
  abbrev pub take_whole_part : Bytes → ℕ → Bool → Option (ℕ × Bool × Bytes)
  take_whole_part [] whole any_digit = some (whole, any_digit, [])
  take_whole_part (c ∷ s) whole any_digit =
      let next = w128 (whole * 10 + (c - b'0')) in
      let rest = take_whole_part s next true in
      if not (is_digit c)
      then some (whole, any_digit, c ∷ s)
      else if ltb limit next
      then none
      else rest

  abbrev pub take_digits : Bytes → ℕ → ℕ → Bool → Fraction
  take_digits [] frac scale any_digit = record {
    frac = frac;
    scale = scale;
    any_digit = any_digit;
    rest = [];
  }
  take_digits (c ∷ s) frac scale any_digit =
      let kept = take_digits s (w64 (frac * 10 + (c - b'0'))) (w64 (scale * 10)) true in
      let passed = take_digits s frac scale true in
      if not (is_digit c)
      then record { frac = frac; scale = scale; any_digit = any_digit; rest = c ∷ s }
      else if ltb scale 1000000000000000000
      then kept
      else passed

  abbrev pub take_fraction : Bytes → Bool → Fraction
  take_fraction [] any_digit = record { frac = 0; scale = 1; any_digit = any_digit; rest = [] }
  take_fraction (c ∷ s) any_digit =
      if c == b'.'
      then take_digits s 0 1 any_digit
      else record { frac = 0; scale = 1; any_digit = any_digit; rest = c ∷ s }

  -- What a number with its unit adds to the total.
  abbrev pub amount : ℕ → ℕ → ℕ → ℕ → ℕ
  amount whole frac scale unit = w128 (w128 (whole * unit) + w128 (frac * unit) / scale)

  abbrev pub with_unit : ℕ → Fraction → Option (ℕ × Bytes)
  with_unit whole f =
      let (name, rest) = take_unit f.rest in
      if not f.any_digit
      then none
      else bind_option (unit_of name) (λ unit. some (amount whole f.frac f.scale unit, rest))

  abbrev pub take_component : Bytes → Option (ℕ × Bytes)
  take_component s =
      bind_option (take_whole_part s 0 false)
        (λ (whole, any_digit, rest). with_unit whole (take_fraction rest any_digit))

  -- The loop over what is left of the text.
  abbrev pub add_components : ℕ → ℕ → Bytes → Option ℕ
  add_components fuel total [] = some total
  add_components zero total (c ∷ s) = none
  add_components (suc fuel) total (c ∷ s) = bind_option (take_component (c ∷ s)) (λ (more, rest).
      let sum = w128 (total + more) in
      let result = add_components fuel sum rest in if ltb limit sum then none else result)

  abbrev pub after_sign : Bool → Bytes → Option ℤ
  after_sign negative s =
      if equal s (codes "0")
      then some (pos 0)
      else if is_empty s
      then none
      else bind_option (add_components (length s) 0 s) (finish_total negative)

  -- `parse_duration`, in nanoseconds.
  abbrev pub parse_with : Bytes → Option ℤ
  parse_with [] = after_sign false []
  parse_with (c ∷ s) =
      if c == b'+' || c == b'-' then after_sign (c == b'-') s else after_sign false (c ∷ s)

abbrev pub parse_duration : Bytes → Option ℤ
parse_duration = parse_with (λ n. n % 2 ^ 64) (λ n. n % 2 ^ 128)
