-- ===== src/Base/Search.antt =====
-- `std::string::find` from a position and `erase`, and a search that is resumed where the last one
-- stopped.
use Prim.Native.Nat.{ℕ, zero, suc, ◌+◌, ◌≤◌}
use mathlib.Core.Path.{◌≡◌, refl, ap}
use mathlib.Core.Logic.{inl, inr}
use mathlib.Core.Bool.{true, ◌&&◌}
use mathlib.Core.List.{[], ◌∷◌, ◌++◌}
use mathlib.Core.Option.{Option, none, some}
use native.Mathlib.Omega.{arith}
use gemini_cpp.Base.Tests.{◌==◌, if◌then◌else◌, Bool-cases, Option-cases}
use gemini_cpp.Base.Lists.{length}
use gemini_cpp.Base.Text.{Bytes, starts_with}

-- A position after one more byte.
abbrev next : Option ℕ → Option ℕ
next none = none
next (some i) = some (suc i)

unfoldable pub find : Bytes → Bytes → Option ℕ
unfolding starts_with
find [] p = if starts_with [] p then some 0 else none
find (x ∷ s) p = let rest = next (find s p) in if starts_with (x ∷ s) p then some 0 else rest

-- `s.find(p, from)`; a start past the end finds nothing.
unfoldable pub find_from : Bytes → Bytes → ℕ → Option ℕ
unfolding find
find_from s p zero = find s p
find_from [] p (suc from) = none
find_from (x ∷ s) p (suc from) = next (find_from s p from)

-- `s.erase(at, count)`.
unfoldable pub erase : Bytes → ℕ → ℕ → Bytes
erase s zero zero = s
erase [] at count = []
erase (x ∷ s) zero (suc count) = erase s zero count
erase (x ∷ s) (suc at) count = x ∷ erase s at count

starts_with-append :
    (s t p : Bytes) → length p ≤ length s → starts_with (s ++ t) p ≡ starts_with s p
unfolding starts_with
starts_with-append s t [] h = refl
starts_with-append [] t (c ∷ p) h = absurd (omega arith)
starts_with-append (x ∷ s) t (c ∷ p) h =
    ap (λ b. x == c && b) (starts_with-append s t p (omega arith))

starts_with-fits : (s p : Bytes) → starts_with s p ≡ true → length p ≤ length s
unfolding starts_with
starts_with-fits s [] h = omega arith
starts_with-fits [] (c ∷ p) h = absurd (ground arith)
starts_with-fits (x ∷ s) (c ∷ p) h = ground (arith, starts_with-fits s p)

-- What is found lies inside the text.
pub find-fits : (s p : Bytes) (i : ℕ) → find s p ≡ some i → i + length p ≤ length s
unfolding find
find-fits [] p i h = ground (arith, starts_with-fits [] p)
find-fits (x ∷ s) p i h = elim (Bool-cases (starts_with (x ∷ s) p)) [
  | inl here ↦ ground (arith, starts_with-fits (x ∷ s) p here)
  | inr there ↦ elim (Option-cases (find s p)) [
    | inl absent ↦ ground arith
    | inr (j, found) ↦ ground (arith, find-fits s p j found)
  ]
]

-- What is found stays found when the text grows at its end.
pub find-append : (s t p : Bytes) (i : ℕ) → find s p ≡ some i → find (s ++ t) p ≡ some i
unfolding find
find-append [] [] p i h = h
find-append [] (y ∷ t) [] i h = h
find-append [] (y ∷ t) (c ∷ p) i h = absurd (ground arith)
find-append (x ∷ s) t p i h = elim (Bool-cases (starts_with (x ∷ s) p)) [
  | inl here ↦ ground (arith, starts_with-append (x ∷ s) t p (starts_with-fits (x ∷ s) p here))
  | inr there ↦ elim (Option-cases (find s p)) [
    | inl absent ↦ ground arith
    | inr (j, found) ↦
        ground
          (arith, find-append s t p j found, find-fits s p j found, starts_with-append (x ∷ s) t p)
  ]
]

pub length-erase : (s : Bytes) (i n : ℕ) → length (erase s i n) ≤ length s
unfolding erase
length-erase s zero zero = omega arith
length-erase [] (suc i) n = omega arith
length-erase [] zero (suc n) = omega arith
length-erase (x ∷ s) zero (suc n) = omega (arith, length-erase s zero n)
length-erase (x ∷ s) (suc i) n = omega (arith, length-erase s i n)

pub erase-append :
    (s t : Bytes) (i n : ℕ) → i + n ≤ length s → erase (s ++ t) i n ≡ erase s i n ++ t
unfolding erase
erase-append s t zero zero h = refl
erase-append [] t (suc i) n h = absurd (omega arith)
erase-append [] t zero (suc n) h = absurd (omega arith)
erase-append (x ∷ s) t zero (suc n) h = erase-append s t zero n (omega arith)
erase-append (x ∷ s) t (suc i) n h = ap (◌∷◌ x) (erase-append s t i n (omega arith))

-- A text that was searched in vain and then grew is searched again from the first position that the
-- new bytes can reach.
pub find-resume :
    (s t p : Bytes) (from : ℕ)
    → find s p ≡ none
    → from + length p ≤ length s
    → find (s ++ t) p ≡ find_from (s ++ t) p from
unfolding find_from
find-resume s t p zero absent h = refl
find-resume [] t p (suc from) absent h = absurd (omega arith)
find-resume (x ∷ s) t p (suc from) absent h = elim (Bool-cases (starts_with (x ∷ s) p)) [
  | inl here ↦ absurd (ground arith)
  | inr there ↦ elim (Option-cases (find s p)) [
    | inl e ↦ ground (arith, find-resume s t p from e, starts_with-append (x ∷ s) t p)
    | inr (j, found) ↦ absurd (ground arith)
  ]
]
