-- ===== src/References/Semver/Precedence.antt =====
-- tasks/semver-compare/reference.hpp: `compare_semver` is a total order of the versions without their
-- build metadata.
use mathlib.Core.Option.{map}
use gemini_cpp.Base.{
  Option-cases, List, some, length, ◌≡◌, ◌↔◌, refl, sym, ◌∙◌, ap, inl, inr, arith,
}
use gemini_cpp.Base.Text.{Bytes}
use gemini_cpp.References.Semver.{
  Version, parse_version, strip_build, take_pre, take_core, compare_versions, compare_semver,
  compare_numbers, compare_pre,
}
use gemini_cpp.References.Semver.Order.{
  Sign, less, same, flip, or_else, lex, IsOrder, IsOrder-self, IsOrder-or_else, IsOrder-lex,
}
use gemini_cpp.References.Semver.Total.{
  first_difference-or_else, compare_numbers-IsOrder, compare_pre-IsOrder,
}

abbrev ranked : Version → Version → Sign
ranked v w = or_else (lex compare_numbers v.core w.core) (compare_pre v.pre w.pre)

ranked-IsOrder : IsOrder ranked
ranked-IsOrder =
    IsOrder-or_else (IsOrder-lex compare_numbers-IsOrder) compare_pre-IsOrder (λ v. v.core)
      (λ v. v.pre) (λ v w p q. cc)

compare_versions-ranked :
    (v w : Version) → length v.core ≡ 3 → length w.core ≡ 3 → compare_versions v w ≡ ranked v w
compare_versions-ranked v w a b = first_difference-or_else compare_numbers 3 v.core w.core _ a b

take_core-length :
    (s : Bytes) (pre : List Bytes) (v : Version) → take_core s pre ≡ some v → length v.core ≡ 3
take_core-length s pre v h = ground arith

parse_version-length : (s : Bytes) (v : Version) → parse_version s ≡ some v → length v.core ≡ 3
unfolding parse_version
parse_version-length s v h = elim (Option-cases (strip_build s)) [
  | inl a ↦ absurd (ground arith)
  | inr (t, a) ↦ elim (Option-cases (take_pre t)) [
    | inl b ↦ absurd (ground arith)
    | inr ((u, pre), b) ↦
        let step : parse_version s ≡ take_core u pre = rw (a, b) refl in
        take_core-length u pre v (sym step ∙ h)
  ]
]

compare_semver-ranked :
    (a b : Bytes) (v w : Version)
    → parse_version a ≡ some v
    → parse_version b ≡ some w
    → compare_semver a b ≡ some (ranked v w)
compare_semver-ranked a b v w p q =
    rw (p, q)
      (ap some
        (compare_versions-ranked v w (parse_version-length a v p) (parse_version-length b w q)))

-- A comparison with a result is one of two versions.
compared_versions :
    (a b : Bytes) (c : Sign)
    → compare_semver a b ≡ some c
    → (v : Version) × (w : Version) × (parse_version a ≡ some v)
      × (parse_version b ≡ some w)
      × (ranked v w ≡ c)
compared_versions a b c h = elim (Option-cases (parse_version a)) [
  | inl p ↦ absurd (ground arith)
  | inr (v, p) ↦ elim (Option-cases (parse_version b)) [
    | inl q ↦ absurd (ground arith)
    | inr (w, q) ↦
        let found : some (ranked v w) ≡ some c = sym (compare_semver-ranked a b v w p q) ∙ h in
        (v, w, p, q, cc found)
  ]
]

compare_semver-flip : (a b : Bytes) → compare_semver b a ≡ map flip (compare_semver a b)
compare_semver-flip a b = elim (Option-cases (parse_version a)) [
  | inl p ↦ elim (Option-cases (parse_version b)) [
    | inl q ↦ rw (p, q) refl
    | inr (w, q) ↦ rw (p, q) refl
  ]
  | inr (v, p) ↦ elim (Option-cases (parse_version b)) [
    | inl q ↦ rw (p, q) refl
    | inr (w, q) ↦
        compare_semver-ranked b a w v q p
        ∙ ap some (ranked-IsOrder.flips v w)
        ∙ ap (map flip) (sym (compare_semver-ranked a b v w p q))
  ]
]

compare_semver-same :
    (a b : Bytes)
    → (compare_semver a b ≡ some same)
      ↔ ((v : Version) × (parse_version a ≡ some v) × (parse_version b ≡ some v))
compare_semver-same a b = (
  λ h.
      let (v, w, p, q, e) = compared_versions a b same h in
      (v, p, q ∙ ap some (sym (ranked-IsOrder.tells v w e))),
  λ (v, p, q). compare_semver-ranked a b v v p q ∙ ap some (IsOrder-self ranked-IsOrder v),
)

compare_semver-less :
    (a b c : Bytes)
    → compare_semver a b ≡ some less
    → compare_semver b c ≡ some less
    → compare_semver a c ≡ some less
compare_semver-less a b c h k =
    let (u, v, p, q, e) = compared_versions a b less h in
    let (v', w, r, s, f) = compared_versions b c less k in
    let middle : v' ≡ v = cc in
    compare_semver-ranked a c u w p s ∙ ap some (ranked-IsOrder.chains u v w e (rw (← middle) f))

-- For any texts: with the two exchanged the result has the opposite sign, or there is again none. It is 0
-- exactly for versions with the same numbers and the same pre-release identifiers. A version before a
-- second one, which is before a third, is before the third.
pub compare_semver-IsTotalOrder :
    (a b c : Bytes)
    → (compare_semver b a ≡ map flip (compare_semver a b))
      × ((compare_semver a b ≡ some same)
          ↔ ((v : Version) × (parse_version a ≡ some v) × (parse_version b ≡ some v)))
      × (compare_semver a b ≡ some less
          → compare_semver b c ≡ some less
          → compare_semver a c ≡ some less)
compare_semver-IsTotalOrder a b c =
    (compare_semver-flip a b, compare_semver-same a b, compare_semver-less a b c)
