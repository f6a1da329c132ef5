-- ===== src/References/Duration/Range.antt =====
-- tasks/parse-duration/reference.hpp: no step wraps, and the result is a 64-bit number.
use gemini_cpp.Base.{
  ℕ, suc, zero, ◌+◌, ◌-◌, ◌^◌, ◌≤◌, Bool, true, false, ◌||◌, ltb, ◌==◌, if◌then◌else◌, Bool-cases,
  [], ◌∷◌, none, some, length, is_empty, bind_option, ◌≡◌, refl, sym, ◌∙◌, ap, subst, inl, inr,
  arith,
}
use gemini_cpp.Base.Int.{ℤ, pos, negsuc, ◌≤ℤ◌}
use gemini_cpp.Base.Text.{Bytes, codes, equal}
use gemini_cpp.References.Duration.{
  limit, take_component, add_components, finish_total, after_sign, parse_with, parse_duration,
}
use gemini_cpp.References.Duration.Wide.{
  u64, u128, unbounded, components_exact, Holds, no_claim, Holds-bind_option,
}

after_sign_exact :
    (negative : Bool) (s : Bytes)
    → after_sign u64 u128 negative s ≡ after_sign unbounded unbounded negative s
after_sign_exact negative s =
    ap
      (λ o.
        if equal s (codes "0")
        then some (pos 0)
        else if is_empty s
        then none
        else bind_option o (finish_total negative))
      (components_exact (length s) 0 s (omega arith))

-- The 64-bit and 128-bit arithmetic of parse_duration gives what the same code gives with numbers of any
-- size: no step wraps.
pub parse_duration-unbounded : (s : Bytes) → parse_duration s ≡ parse_with unbounded unbounded s
parse_duration-unbounded [] = refl
parse_duration-unbounded (c ∷ s) = elim (Bool-cases (c == b'+' || c == b'-')) [
  | inl sign ↦ rw sign (after_sign_exact (c == b'-') s)
  | inr plain ↦ rw plain (after_sign_exact false (c ∷ s))
]

components_bound :
    (n total : ℕ) (s : Bytes)
    → total ≤ limit
    → Holds (λ t. t ≤ limit) (add_components unbounded unbounded n total s)
components_bound n total [] h = h
components_bound zero total (c ∷ s) h = tt
components_bound (suc n) total (c ∷ s) h =
    Holds-bind_option (λ p. Unit) (λ t. t ≤ limit) (take_component unbounded unbounded (c ∷ s)) _
      (no_claim _)
      (λ (more, rest) u. elim (Bool-cases (ltb limit (total + more))) [
        | inl over ↦ rw over tt
        | inr within ↦ rw within (components_bound n (total + more) rest (ground arith))
      ])

abbrev pub IsInt64 : ℤ → Type 0
IsInt64 d = (negsuc (2 ^ 63 - 1) ≤ℤ d) × (d ≤ℤ pos (2 ^ 63 - 1))

finish_total-IsInt64 :
    (negative : Bool) (total : ℕ) → total ≤ limit → Holds IsInt64 (finish_total negative total)
finish_total-IsInt64 true total h = ground arith
finish_total-IsInt64 false total h = elim (Bool-cases (total == limit)) [
  | inl e ↦ rw e tt
  | inr e ↦ rw e (omega arith, ground arith)
]

after_sign-IsInt64 :
    (negative : Bool) (s : Bytes) → Holds IsInt64 (after_sign unbounded unbounded negative s)
after_sign-IsInt64 negative s = elim (Bool-cases (equal s (codes "0"))) [
  | inl z ↦ rw z (omega arith, omega arith)
  | inr n ↦ elim (Bool-cases (is_empty s)) [
    | inl e ↦ rw (n, e) tt
    | inr e ↦
        rw (n, e)
          (Holds-bind_option (λ t. t ≤ limit) IsInt64
            (add_components unbounded unbounded (length s) 0 s) _
            (components_bound (length s) 0 s (omega arith)) (finish_total-IsInt64 negative))
  ]
]

exact-IsInt64 : (s : Bytes) → Holds IsInt64 (parse_with unbounded unbounded s)
exact-IsInt64 [] = after_sign-IsInt64 false []
exact-IsInt64 (c ∷ s) = elim (Bool-cases (c == b'+' || c == b'-')) [
  | inl sign ↦ rw sign (after_sign-IsInt64 (c == b'-') s)
  | inr plain ↦ rw plain (after_sign-IsInt64 false (c ∷ s))
]

-- A duration that parse_duration returns is a signed 64-bit number of nanoseconds.
pub parse_duration-IsInt64 : (s : Bytes) (d : ℤ) → parse_duration s ≡ some d → IsInt64 d
parse_duration-IsInt64 s d h =
    subst (Holds IsInt64) (sym (parse_duration-unbounded s) ∙ h) (exact-IsInt64 s)
