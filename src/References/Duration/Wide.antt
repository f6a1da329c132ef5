-- ===== src/References/Duration/Wide.antt =====
-- tasks/parse-duration/reference.hpp: the arithmetic on 64 and on 128 bits.
use native.Mathlib.Nat.{mod-eq_of_lt, div-le_self, mul-le-mul}
use gemini_cpp.Base.{
  ℕ, suc, zero, ◌+◌, ◌-◌, ◌*◌, ◌/◌, ◌%◌, ◌^◌, ◌≤◌, ◌<◌, Bool, true, false, ltb, ◌==◌, if◌then◌else◌,
  Bool-cases, [], ◌∷◌, Option, none, some, bind_option, ◌≡◌, refl, ◌∙◌, ap, inl, inr, arith,
}
use gemini_cpp.Base.Text.{Bytes, is_digit}
use gemini_cpp.References.Duration.{
  limit, take_unit, unit_of, Fraction, take_whole_part, take_digits, take_fraction, amount,
  with_unit, take_component, add_components,
}

abbrev pub u64 : ℕ → ℕ
u64 n = n % 2 ^ 64

abbrev pub u128 : ℕ → ℕ
u128 n = n % 2 ^ 128

-- A number of any size.
abbrev pub unbounded : ℕ → ℕ
unbounded n = n

u128_id : (n : ℕ) → n < 2 ^ 128 → u128 n ≡ n
u128_id n h = mod-eq_of_lt h

u64_id : (n : ℕ) → n < 2 ^ 64 → u64 n ≡ n
u64_id n h = mod-eq_of_lt h

digit_lem : (c : ℕ) → is_digit c ≡ true → c - b'0' ≤ 9
digit_lem c h = ground arith

take_whole_part_exact :
    (s : Bytes) (whole : ℕ) (any_digit : Bool)
    → whole ≤ limit
    → take_whole_part u64 u128 s whole any_digit
      ≡ take_whole_part unbounded unbounded s whole any_digit
take_whole_part_exact [] whole any_digit h = refl
take_whole_part_exact (c ∷ s) whole any_digit h = elim (Bool-cases (is_digit c)) [
  | inr d ↦ rw d refl
  | inl d ↦
      let small : whole * 10 + (c - b'0') < 2 ^ 128 = omega (arith, digit_lem c d) in
      elim (Bool-cases (ltb limit (whole * 10 + (c - b'0')))) [
        | inl over ↦ rw (d, u128_id _ small, over) refl
        | inr fits ↦ rw (d, u128_id _ small, fits) (take_whole_part_exact s _ true (ground arith))
      ]
]

-- What holds of a result, if there is one.
abbrev pub Holds {ℓ} : {A : Type ℓ} → (A → Type 0) → Option A → Type 0
Holds P none = Unit
Holds P (some a) = P a

pub bind_option-pointwise {ℓ κ} :
    {A : Type ℓ} {B : Type κ} (P : A → Type 0) (o : Option A) (f g : A → Option B)
    → Holds P o
    → ((a : A) → P a → f a ≡ g a)
    → bind_option o f ≡ bind_option o g
bind_option-pointwise P none f g h e = refl
bind_option-pointwise P (some a) f g h e = e a h

pub Holds-bind_option {ℓ κ} :
    {A : Type ℓ} {B : Type κ} (P : A → Type 0) (Q : B → Type 0) (o : Option A) (f : A → Option B)
    → Holds P o
    → ((a : A) → P a → Holds Q (f a))
    → Holds Q (bind_option o f)
Holds-bind_option P Q none f h e = tt
Holds-bind_option P Q (some a) f h e = e a h

pub Holds-mono {ℓ} :
    {A : Type ℓ} (P Q : A → Type 0) (o : Option A) → ((a : A) → P a → Q a) → Holds P o → Holds Q o
Holds-mono P Q none f h = tt
Holds-mono P Q (some a) f h = f a h

pub no_claim {ℓ} : {A : Type ℓ} (o : Option A) → Holds (λ a. Unit) o
no_claim none = tt
no_claim (some a) = tt

abbrev IsWhole : ℕ × Bool × Bytes → Type 0
IsWhole (whole, any_digit, rest) = whole ≤ limit

take_whole_part-IsWhole :
    (s : Bytes) (whole : ℕ) (any_digit : Bool)
    → whole ≤ limit
    → Holds IsWhole (take_whole_part unbounded unbounded s whole any_digit)
take_whole_part-IsWhole [] whole any_digit h = h
take_whole_part-IsWhole (c ∷ s) whole any_digit h = elim (Bool-cases (is_digit c)) [
  | inr d ↦ rw d h
  | inl d ↦ elim (Bool-cases (ltb limit (whole * 10 + (c - b'0')))) [
    | inl over ↦ rw (d, over) tt
    | inr fits ↦
        rw (d, fits) (take_whole_part-IsWhole s (whole * 10 + (c - b'0')) true (ground arith))
  ]
]

-- The digits that are kept are a number below the scale.
record IsFraction (f : Fraction) : Type 0 where
  below : f.frac < f.scale
  scale_fits : f.scale < 10000000000000000000

take_digits_exact :
    (s : Bytes) (frac scale : ℕ) (any_digit : Bool)
    → frac < scale
    → scale < 10000000000000000000
    → ((take_digits u64 u128 s frac scale any_digit
          ≡ take_digits unbounded unbounded s frac scale any_digit)
        × IsFraction (take_digits unbounded unbounded s frac scale any_digit))
take_digits_exact [] frac scale any_digit h k = (refl, record { below = h; scale_fits = k })
take_digits_exact (c ∷ s) frac scale any_digit h k = elim (Bool-cases (is_digit c)) [
  | inr d ↦ rw d (refl, record { below = h; scale_fits = k })
  | inl d ↦ elim (Bool-cases (ltb scale 1000000000000000000)) [
    | inr full ↦ rw (d, full) (take_digits_exact s frac scale true h k)
    | inl more ↦
        let nine = digit_lem c d in
        let grown : frac * 10 + (c - b'0') < scale * 10 = omega (arith, nine) in
        let fits : scale * 10 < 10000000000000000000 = ground arith in
        rw
          (
            d,
            more,
            u64_id (frac * 10 + (c - b'0')) (omega (arith, grown, fits)),
            u64_id (scale * 10) (omega (arith, fits)),
          )
          (take_digits_exact s (frac * 10 + (c - b'0')) (scale * 10) true grown fits)
  ]
]

take_fraction_exact :
    (s : Bytes) (any_digit : Bool)
    → ((take_fraction u64 u128 s any_digit ≡ take_fraction unbounded unbounded s any_digit)
        × IsFraction (take_fraction unbounded unbounded s any_digit))
take_fraction_exact [] any_digit = (refl, record { below = omega arith; scale_fits = omega arith })
take_fraction_exact (c ∷ s) any_digit = elim (Bool-cases (c == b'.')) [
  | inl d ↦ rw d (take_digits_exact s 0 1 any_digit (omega arith) (omega arith))
  | inr d ↦ rw d (refl, record { below = omega arith; scale_fits = omega arith })
]

-- The greatest unit is an hour.
unit_bound : (name : Bytes) → Holds (λ unit. unit ≤ 3600000000000) (unit_of name)
unfolding unit_of
unit_bound name = ground arith

amount_exact :
    (whole frac scale unit : ℕ)
    → whole ≤ limit
    → frac < 10000000000000000000
    → unit ≤ 3600000000000
    → (amount u64 u128 whole frac scale unit ≡ amount unbounded unbounded whole frac scale unit)
      × (amount unbounded unbounded whole frac scale unit < 2 ^ 127)
amount_exact whole frac scale unit a b c =
    let x : whole * unit ≤ limit * 3600000000000 = mul-le-mul a c in
    let small : frac ≤ 10000000000000000000 = omega arith in
    let y : frac * unit ≤ 10000000000000000000 * 3600000000000 = mul-le-mul small c in
    let z = div-le_self (frac * unit) scale in
    let sum : whole * unit + frac * unit / scale < 2 ^ 127 = omega (arith, x, y, z) in
    (
      rw (u128_id (whole * unit) (omega (arith, x)), u128_id (frac * unit) (omega (arith, y)))
          (u128_id (whole * unit + frac * unit / scale) (omega (arith, sum))),
      sum,
    )

abbrev IsAmount : ℕ × Bytes → Type 0
IsAmount (more, rest) = more < 2 ^ 127

with_unit_exact :
    (whole : ℕ) (f : Fraction)
    → whole ≤ limit
    → IsFraction f
    → (with_unit u64 u128 whole f ≡ with_unit unbounded unbounded whole f)
      × Holds IsAmount (with_unit unbounded unbounded whole f)
with_unit_exact whole f a b =
    let unit_fits = unit_bound (take_unit f.rest).0 in
    elim (Bool-cases f.any_digit) [
      | inr without ↦ rw without (refl, tt)
      | inl digits ↦ rw digits (
        bind_option-pointwise (λ unit. unit ≤ 3600000000000) (unit_of (take_unit f.rest).0) _ _
            unit_fits
            (λ unit c.
              ap (λ n. some (n, (take_unit f.rest).1))
                (amount_exact whole f.frac f.scale unit a (omega (arith, b.below, b.scale_fits))
                  c).0),
        Holds-bind_option (λ unit. unit ≤ 3600000000000) IsAmount (unit_of (take_unit f.rest).0) _
            unit_fits
            (λ unit c.
              (amount_exact whole f.frac f.scale unit a (omega (arith, b.below, b.scale_fits))
                c).1),
      )
    ]

component_exact :
    (s : Bytes)
    → (take_component u64 u128 s ≡ take_component unbounded unbounded s)
      × Holds IsAmount (take_component unbounded unbounded s)
component_exact s =
    let small = take_whole_part-IsWhole s 0 false (omega arith) in
    (
      rw (take_whole_part_exact s 0 false (omega arith)) (
          bind_option-pointwise IsWhole (take_whole_part unbounded unbounded s 0 false) _ _ small
            (λ (whole, any_digit, rest) h.
              let (same, fits) = take_fraction_exact rest any_digit in
              ap (with_unit u64 u128 whole) same
              ∙ (with_unit_exact whole (take_fraction unbounded unbounded rest any_digit) h
                  fits).0)),
      Holds-bind_option IsWhole IsAmount (take_whole_part unbounded unbounded s 0 false) _ small
          (λ (whole, any_digit, rest) h.
            let (same, fits) = take_fraction_exact rest any_digit in
            (with_unit_exact whole (take_fraction unbounded unbounded rest any_digit) h fits).1),
    )

pub components_exact :
    (n total : ℕ) (s : Bytes)
    → total ≤ limit
    → add_components u64 u128 n total s ≡ add_components unbounded unbounded n total s
components_exact n total [] h = refl
components_exact zero total (c ∷ s) h = refl
components_exact (suc n) total (c ∷ s) h =
    let (same, fits) = component_exact (c ∷ s) in
    rw same (
      bind_option-pointwise IsAmount (take_component unbounded unbounded (c ∷ s)) _ _ fits
        (λ (more, rest) small.
          ap (λ sum. if ltb limit sum then none else add_components u64 u128 n sum rest)
            (u128_id (total + more) (omega (arith, small)))
          ∙ elim (Bool-cases (ltb limit (total + more))) [
            | inl over ↦ rw over refl
            | inr within ↦ rw within (components_exact n (total + more) rest (ground arith))
          ]))
