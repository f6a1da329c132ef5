-- ===== src/Client/Attempts/Counts.antt =====
-- `Client::with_retry` of src/client.cpp: how many attempts it makes, and what it counts.
use gemini_cpp.Base.{
  ℕ, ◌+◌, ◌%◌, ◌^◌, ◌≤◌, ◌<◌, Bool, List, [], ◌∷◌, ◌++◌, ◌≡◌, refl, sym, subst, ◌∙◌, ap, arith,
  Bool-cases, inl, inr, length, Option-cases, append_assoc, append-nil,
}
use gemini_cpp.Base.Int.{ℤ, pos, pos_part}
use gemini_cpp.Error.{Error, Result, ok, err, throws}
use gemini_cpp.Json.{FloatLib}
use gemini_cpp.Retry.{RetryPolicy, delay_for, jittered, capped}
use gemini_cpp.Client.{
  Host, ClientOptions, Env, Metrics, count_attempt, max_attempts, error_delay, with_retry,
}
use gemini_cpp.Client.Attempts.{
  max_attempts_pos, first, after_pause, IsRetried, Runs, stop, again, with_retry-Runs,
}

module _ (F : FloatLib) (H : Host F) (o : ClientOptions F.Double) {J T : Type 0}
    (attempt : Env H.World J → Result T × Env H.World J) (can_retry : Env H.World J → Bool) where
  -- An attempt itself counts and sleeps nothing.
  abbrev pub IsQuiet : Type 0
  IsQuiet =
      (s : Env H.World J) → ((attempt s).1.sleeps ≡ s.sleeps) × ((attempt s).1.metrics ≡ s.metrics)

  -- A reading of the outside world goes up by one at each attempt, and stays when a delay is drawn.
  abbrev pub IsCount : (H.World → ℕ) → Type 0
  IsCount calls =
      ((s : Env H.World J) → calls (attempt s).1.world ≡ calls s.world + 1)
      × ((lo hi : F.Double) (w : H.World) → calls (H.draw lo hi w).1 ≡ calls w)

  module _ (calls : H.World → ℕ) where
    -- From one state to another: `n` attempts, and a retry with a delay before each but the first F H o attempt can_retry.
    pub record Counted (n : ℕ) (s t : Env H.World J) : Type 0 where
      pub made : calls t.world ≡ calls s.world + n
      pub delays : List ℤ
      pub slept : t.sleeps ≡ s.sleeps ++ delays
      pub one_less : length delays + 1 ≡ n
      pub attempts : t.metrics.attempts ≡ (s.metrics.attempts + n) % 2 ^ 64
      pub retries : t.metrics.retries ≡ (s.metrics.retries + length delays) % 2 ^ 64

    jittered-calls :
        IsCount calls
        → (p : RetryPolicy F.Double) (delay : F.Double) (w : H.World)
        → calls (jittered F H.draw p delay w).1 ≡ calls w
    unfolding jittered
    jittered-calls count p delay w = elim (Bool-cases (F.lt (F.of_int (pos 0)) p.jitter)) [
      | inl e ↦ rw e (count.1 _ _ w)
      | inr e ↦ rw e refl
    ]

    delay_for-calls :
        IsCount calls
        → (p : RetryPolicy F.Double) (i : ℤ) (e : Error) (w : H.World)
        → calls (delay_for F H.draw p i e w).1 ≡ calls w
    unfolding delay_for
    delay_for-calls count p i e w = elim (Option-cases e.retry_after) [
      | inl h ↦ rw h (jittered-calls count p (capped F H.draw p i) w)
      | inr (hint, h) ↦ rw h refl
    ]

    delay-calls :
        IsCount calls
        → (i : ℕ) (out : Result T × Env H.World J)
        → calls (after_pause F H o attempt can_retry i out).world ≡ calls out.1.world
    delay-calls count i (ok t, s) = refl
    delay-calls count i (throws w, s) = refl
    delay-calls count i (err e, s) = delay_for-calls count o.retry (pos i) e s.world

    Counted-once :
        IsQuiet
        → IsCount calls
        → (s : Env H.World J) → s.metrics.retries < 2 ^ 64
        → Counted 1 s (first F H o attempt can_retry s).1
    Counted-once quiet count s h = record {
      made = count.0 (count_attempt s);
      delays = [];
      slept = (quiet (count_attempt s)).0 ∙ sym (append-nil s.sleeps);
      one_less = omega arith;
      attempts = ap (λ (m : Metrics). m.attempts) (quiet (count_attempt s)).1;
      retries = omega (arith, ap (λ (m : Metrics). m.retries) (quiet (count_attempt s)).1);
    }

    Counted-again :
        IsQuiet
        → IsCount calls
        → (i n : ℕ) (s t : Env H.World J) → s.metrics.retries < 2 ^ 64
        → Counted n (after_pause F H o attempt can_retry i (first F H o attempt can_retry s)) t
        → Counted (n + 1) s t
    Counted-again quiet count i n s t h c = record {
      made = omega (
        arith,
        c.made,
        delay-calls count i (first F H o attempt can_retry s),
        count.0 (count_attempt s),
      );
      delays =
          (error_delay F H o attempt i (first F H o attempt can_retry s).0
            (first F H o attempt can_retry s).1.world).0
          ∷ c.delays;
      slept =
          c.slept
          ∙ ap
              (λ l.
                (l
                  ++ (error_delay F H o attempt i (first F H o attempt can_retry s).0
                      (first F H o attempt can_retry s).1.world).0
                    ∷ [])
                ++ c.delays)
              (quiet (count_attempt s)).0
          ∙ append_assoc s.sleeps _ c.delays;
      one_less = omega (arith, c.one_less);
      attempts =
          omega (arith, c.attempts, ap (λ (m : Metrics). m.attempts) (quiet (count_attempt s)).1);
      retries =
          omega (arith, c.retries, ap (λ (m : Metrics). m.retries) (quiet (count_attempt s)).1);
    }

    IsRetried-lt :
        (i : ℕ) (out : Result T × Env H.World J)
        → IsRetried F H o attempt can_retry i out
        → i + 1 < pos_part (max_attempts F H o)
    IsRetried-lt i (ok t, s) h = elim h [ ]
    IsRetried-lt i (throws w, s) h = elim h [ ]
    IsRetried-lt i (err e, s) (_, h, _) = h

    Runs-Counted :
        IsQuiet
        → IsCount calls
        → {out : Result T × Env H.World J} {i : ℕ} {s : Env H.World J}
        → Runs F H o attempt can_retry out i s
        → i < pos_part (max_attempts F H o)
        → s.metrics.retries < 2 ^ 64
        → (n : ℕ) × Counted n s out.1 × (i + n ≤ pos_part (max_attempts F H o))
    Runs-Counted quiet count {s = s} (stop e q) lt h =
        (1, subst (λ r. Counted 1 s r.1) (sym q) (Counted-once quiet count s h), omega arith)
    Runs-Counted quiet count {i = i} {s = s} (again e r) lt h =
        let (n, c, le) =
          Runs-Counted quiet count r (IsRetried-lt i (first F H o attempt can_retry s) e)
            (omega arith) in
        (n + 1, Counted-again quiet count i n s _ h c, omega arith)

    -- If an attempt itself counts and sleeps nothing, and `calls` is a reading of the outside world that goes
    -- up by one at each attempt and stays when a delay is drawn, then for some number `n`, at least 1 and at
    -- most `max(1, max_attempts)`: `calls` goes up by `n`, so that `n` attempts are made; `with_retry` sleeps
    -- `n - 1` times, and its counters of attempts and of retries grow by `n` and `n - 1`, modulo 2^64.
    pub with_retry-Counted :
        IsQuiet
        → IsCount calls
        → (s : Env H.World J) → s.metrics.retries < 2 ^ 64
        → (n : ℕ) × Counted n s (with_retry F H o attempt can_retry s).1
          × (n ≤ pos_part (max_attempts F H o))
    with_retry-Counted quiet count s h =
        let (n, c, le) =
          Runs-Counted quiet count (with_retry-Runs F H o attempt can_retry s)
            (max_attempts_pos F H o) h in
        (n, c, omega arith)
