-- ===== src/References/Duration/Enough.antt =====
-- tasks/parse-duration/reference.hpp: the loop has fuel enough.
use gemini_cpp.Base.{
  ℕ, suc, zero, ◌+◌, ◌-◌, ◌*◌, ◌≤◌, ◌<◌, Bool, true, false, ltb, ◌==◌, if◌then◌else◌, Bool-cases,
  [], ◌∷◌, none, length, ◌≡◌, refl, ap, inl, inr, arith,
}
use gemini_cpp.Base.Text.{Bytes, is_digit}
use gemini_cpp.References.Duration.{
  limit, take_unit, Fraction, unit_of, take_whole_part, take_digits, take_fraction, with_unit,
  take_component, add_components,
}
use gemini_cpp.References.Duration.Wide.{
  Holds, no_claim, Holds-bind_option, Holds-mono, bind_option-pointwise,
}

-- A digit that was read is one byte less.
abbrev one : Bool → ℕ
one true = 1
one false = 0

take_unit-length : (s : Bytes) → length (take_unit s).1 ≤ length s
take_unit-length [] = omega arith
take_unit-length (c ∷ s) = ground (arith, take_unit-length s)

module _ (w64 w128 : ℕ → ℕ) where
  abbrev IsShorter : ℕ → ℕ × Bool × Bytes → Type 0
  IsShorter n (whole, any_digit, rest) = length rest + one any_digit ≤ n

  take_whole_part-IsShorter :
      (s : Bytes) (whole : ℕ) (any_digit : Bool)
      → Holds (IsShorter (length s + one any_digit)) (take_whole_part w64 w128 s whole any_digit)
  take_whole_part-IsShorter [] whole any_digit = omega arith
  take_whole_part-IsShorter (c ∷ s) whole any_digit = elim (Bool-cases (is_digit c)) [
    | inr d ↦ rw d (omega arith)
    | inl d ↦
        let next = w128 (whole * 10 + (c - b'0')) in
        elim (Bool-cases (ltb limit next)) [
          | inl over ↦ rw (d, over) tt
          | inr fits ↦
              rw (d, fits)
                (Holds-mono (IsShorter (length s + 1)) (IsShorter (suc (length s) + one any_digit))
                  (take_whole_part w64 w128 s next true) (λ (w, any, rest) h. omega (arith, h))
                  (take_whole_part-IsShorter s next true))
        ]
  ]

  digits-shorter :
      (s : Bytes) (frac scale : ℕ) (any_digit : Bool)
      → length (take_digits w64 w128 s frac scale any_digit).rest
          + one (take_digits w64 w128 s frac scale any_digit).any_digit
        ≤ length s + one any_digit
  digits-shorter [] frac scale any_digit = omega arith
  digits-shorter (c ∷ s) frac scale any_digit = elim (Bool-cases (is_digit c)) [
    | inr d ↦ rw d (omega arith)
    | inl d ↦ elim (Bool-cases (ltb scale 1000000000000000000)) [
      | inl more ↦
          rw (d, more)
            (omega (arith, digits-shorter s (w64 (frac * 10 + (c - b'0'))) (w64 (scale * 10)) true))
      | inr full ↦ rw (d, full) (omega (arith, digits-shorter s frac scale true))
    ]
  ]

  fraction-shorter :
      (s : Bytes) (any_digit : Bool)
      → length (take_fraction w64 w128 s any_digit).rest
          + one (take_fraction w64 w128 s any_digit).any_digit
        ≤ length s + one any_digit
  fraction-shorter [] any_digit = omega arith
  fraction-shorter (c ∷ s) any_digit = elim (Bool-cases (c == b'.')) [
    | inr d ↦ rw d (omega arith)
    | inl d ↦ rw d (omega (arith, digits-shorter s 0 1 any_digit))
  ]

  abbrev IsRest : ℕ → ℕ × Bytes → Type 0
  IsRest n (more, rest) = length rest < n

  with_unit-shorter :
      (n whole : ℕ) (f : Fraction)
      → length f.rest + one f.any_digit ≤ n
      → Holds (IsRest n) (with_unit w64 w128 whole f)
  with_unit-shorter n whole f h = elim (Bool-cases f.any_digit) [
    | inr without ↦ rw without tt
    | inl digits ↦
        let some_read : one f.any_digit ≡ 1 = rw digits refl in
        rw digits (
          Holds-bind_option (λ unit. Unit) (IsRest n) (unit_of (take_unit f.rest).0) _ (no_claim _)
            (λ unit u. omega (arith, h, some_read, take_unit-length f.rest)))
  ]

  component-shorter : (s : Bytes) → Holds (IsRest (length s)) (take_component w64 w128 s)
  component-shorter s =
      Holds-bind_option (IsShorter (length s + 0)) (IsRest (length s))
        (take_whole_part w64 w128 s 0 false) _ (take_whole_part-IsShorter s 0 false)
        (λ (whole, any_digit, rest) h.
          with_unit-shorter (length s) whole (take_fraction w64 w128 rest any_digit)
            (omega (arith, h, fraction-shorter rest any_digit)))

  agree :
      (m n total : ℕ) (s : Bytes)
      → length s ≤ m
      → length s ≤ n
      → add_components w64 w128 m total s ≡ add_components w64 w128 n total s
  agree m n total [] h k = refl
  agree zero n total (c ∷ s) h k = absurd (omega arith)
  agree (suc m) zero total (c ∷ s) h k = absurd (omega arith)
  agree (suc m) (suc n) total (c ∷ s) h k =
      bind_option-pointwise (IsRest (suc (length s))) (take_component w64 w128 (c ∷ s)) _ _
        (component-shorter (c ∷ s))
        (λ (more, rest) small.
          let same =
            agree m n (w128 (total + more)) rest (omega (arith, small)) (omega (arith, small)) in
          ap (λ o. if ltb limit (w128 (total + more)) then none else o) same)

  -- The loop of parse_duration goes round at most once for each byte that is left: with more fuel than that its result is
  -- the same.
  pub add_components-enough :
      (n total : ℕ) (s : Bytes)
      → length s ≤ n
      → add_components w64 w128 n total s ≡ add_components w64 w128 (length s) total s
  add_components-enough n total s h = agree n (length s) total s h (omega arith)
