-- ===== src/References/SpscQueue/Slots.antt =====
-- tasks/spsc-queue/reference.hpp: counters that lie close together have different slots, if the
-- capacity divides the range of the counters.
use Prim.Native.Nat.{◌∣◌}
use native.Mathlib.Nat.{mod-mod_of_dvd, div-add-mod, mul-le-mul_left}
use native.Mathlib.Decide.{dec_lt}
use gemini_cpp.Base.{ℕ, ◌+◌, ◌*◌, ◌/◌, ◌%◌, ◌≤◌, ◌<◌, ◌≡◌, ◌≢◌, sym, ◌∙◌, arith}
use gemini_cpp.References.SpscQueue.{size_mod, slot}

quotient_apart : (c a b x y r : ℕ) → x ≡ c * a + r → y ≡ c * b + r → x < y → x + c ≤ y
quotient_apart c a b x y r e f h = elim (dec_lt a b) [
  | yes p ↦ omega (arith, mul-le-mul_left c p)
  | no p ↦ let le : b ≤ a = omega arith in absurd (omega (arith, mul-le-mul_left c le))
]

module _ (capacity : ℕ) (divides : capacity ∣ size_mod) where
  -- The slot of the counter that `n` pushes or pops leave.
  abbrev pub place : ℕ → ℕ
  place n = slot capacity (n % size_mod)

  place_lem : (n : ℕ) → place n ≡ n % capacity
  place_lem n = mod-mod_of_dvd capacity n divides

  pub place_apart : (i j : ℕ) → i < j → j < i + capacity → place i ≢ place j
  place_apart i j lt near e =
      let same : i % capacity ≡ j % capacity = sym (place_lem i) ∙ e ∙ place_lem j in
      omega (
        arith,
        quotient_apart capacity (i / capacity) (j / capacity) i j (i % capacity)
            (sym (div-add-mod i capacity)) (rw same (sym (div-add-mod j capacity))) lt,
      )
