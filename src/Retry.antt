-- ===== src/Retry.antt =====
-- include/gemini/retry.hpp and src/retry.cpp: the delay before a retry. The random factor is drawn by
-- the caller's generator, which is a parameter with its state `W`.
use gemini_cpp.Base.{none, some, if◌then◌else◌}
use gemini_cpp.Base.Int.{ℤ, pos, min_ℤ, max_ℤ}
use gemini_cpp.Error.{Error}
use gemini_cpp.Json.{FloatLib}

pub record RetryPolicy (D : Type 0) : Type 0 where
  pub max_attempts : ℤ
  pub initial_backoff : ℤ
  pub max_backoff : ℤ
  pub multiplier : D
  pub jitter : D

module _ (F : FloatLib) {W : Type 0} (draw : F.Double → F.Double → W → F.Double × W) where
  open F use {Double, of_int, mul, pow, add, sub, lt, to_int}

  -- `std::min` and `std::max` on doubles.
  abbrev min_double : Double → Double → Double
  min_double a b = if lt b a then b else a

  abbrev max_double : Double → Double → Double
  max_double a b = if lt a b then b else a

  -- The delay before jitter.
  unfoldable pub capped : RetryPolicy Double → ℤ → Double
  capped p retry_index =
      min_double
        (mul (of_int p.initial_backoff) (pow p.multiplier (of_int (max_ℤ retry_index (pos 0)))))
        (of_int p.max_backoff)

  -- The jittered delay and the generator's next state.
  unfoldable pub jittered : RetryPolicy Double → Double → W → Double × W
  jittered p delay w =
      if lt (of_int (pos 0)) p.jitter
      then (let (factor, w') =
            draw (sub (of_int (pos 1)) p.jitter) (add (of_int (pos 1)) p.jitter) w in
          (mul delay factor, w'))
      else (delay, w)

  unfoldable pub delay_for : RetryPolicy Double → ℤ → Error → W → ℤ × W
  unfolding capped jittered
  delay_for p retry_index error w = elim error.retry_after [
    | some hint ↦ (min_ℤ hint p.max_backoff, w)
    | none ↦
        let (delay, w') = jittered p (capped p retry_index) w in
        (to_int (max_double delay (of_int (pos 0))), w')
  ]
