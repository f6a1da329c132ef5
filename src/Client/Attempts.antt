-- ===== src/Client/Attempts.antt =====
-- `Client::with_retry` of src/client.cpp: the loop, its bound, and what it counts.
pub mod Counts
use gemini_cpp.Base.{
  ℕ, zero, suc, ◌+◌, ◌-◌, ◌%◌, ◌^◌, ◌≤◌, ◌<◌, Bool, true, false, List, [], ◌∷◌, ◌++◌, ◌≡◌, refl,
  sym, subst, ◌∙◌, ap, arith, Bool-cases, ◌⊎◌, inl, inr, length, Option-cases, append_assoc,
  append-nil,
}
use gemini_cpp.Base.Int.{ℤ, pos, pos_part}
use gemini_cpp.Error.{Error, retryable, Result, ok, err, throws}
use gemini_cpp.Json.{FloatLib}
use gemini_cpp.Retry.{RetryPolicy, delay_for, jittered, capped}
use gemini_cpp.Client.{
  Host, ClientOptions, Env, Metrics, count_attempt, pause, max_attempts, gives_up, error_delay,
  retry_loop, with_retry,
}

module _ (F : FloatLib) (H : Host F) (o : ClientOptions F.Double) where
  pub max_attempts_pos : 0 < pos_part (max_attempts F H o)
  max_attempts_pos = ground arith

  module _ {J T : Type 0} (attempt : Env H.World J → Result T × Env H.World J)
      (can_retry : Env H.World J → Bool) where
    abbrev pub first : Env H.World J → Result T × Env H.World J
    first s = attempt (count_attempt s)

    abbrev returns : ℕ → Result T × Env H.World J → Bool
    returns i (r, s) = gives_up F H o attempt can_retry i r s

    abbrev pub after_pause : ℕ → Result T × Env H.World J → Env H.World J
    after_pause i (r, s) = pause (error_delay F H o attempt i r s.world) s

    -- The result of attempt number `i` is returned: it is no error, or one that is not transient, or
    -- it is the last attempt, or the caller does not allow another.
    abbrev pub IsFinal : ℕ → Result T × Env H.World J → Type 0
    IsFinal i (ok t, s) = Unit
    IsFinal i (throws w, s) = Unit
    IsFinal i (err e, s) =
        (retryable e ≡ false) ⊎ (pos_part (max_attempts F H o) ≤ i + 1) ⊎ (can_retry s ≡ false)

    -- Attempt number `i` is followed by another: it met a transient error, attempts are left, and the
    -- caller allows it.
    abbrev pub IsRetried : ℕ → Result T × Env H.World J → Type 0
    IsRetried i (ok t, s) = ⊥
    IsRetried i (throws w, s) = ⊥
    IsRetried i (err e, s) =
        (retryable e ≡ true) × (i + 1 < pos_part (max_attempts F H o)) × (can_retry s ≡ true)

    -- The loop without a bound of its own: `Runs out i s` if it comes to attempt `i` in state `s` and
    -- returns `out`.
    pub data Runs (out : Result T × Env H.World J) : ℕ → Env H.World J → Type 0 where
      stop : {i : ℕ} {s : Env H.World J} → IsFinal i (first s) → out ≡ first s → Runs out i s
      again :
          {i : ℕ} {s : Env H.World J}
          → IsRetried i (first s)
          → Runs out (i + 1) (after_pause i (first s))
          → Runs out i s

    last-IsFinal :
        (i : ℕ) (out : Result T × Env H.World J)
        → i + 1 ≡ pos_part (max_attempts F H o)
        → IsFinal i out
    last-IsFinal i (ok t, s) h = tt
    last-IsFinal i (throws w, s) h = tt
    last-IsFinal i (err e, s) h = inr (inl (omega arith))

    returns-IsFinal :
        (i : ℕ) (out : Result T × Env H.World J) → returns i out ≡ true → IsFinal i out
    returns-IsFinal i (ok t, s) h = tt
    returns-IsFinal i (throws w, s) h = tt
    returns-IsFinal i (err e, s) h = ground arith

    returns-IsRetried :
        (i : ℕ) (out : Result T × Env H.World J) → returns i out ≡ false → IsRetried i out
    returns-IsRetried i (ok t, s) h = cc
    returns-IsRetried i (throws w, s) h = cc
    returns-IsRetried i (err e, s) h = ground arith

    retry_loop-Runs :
        (left i : ℕ) (s : Env H.World J)
        → i + left + 1 ≡ pos_part (max_attempts F H o)
        → Runs (retry_loop F H o attempt can_retry left i s) i s
    unfolding retry_loop
    retry_loop-Runs zero i s h = stop (last-IsFinal i (first s) (omega arith)) refl
    retry_loop-Runs (suc left) i s h = elim (Bool-cases (returns i (first s))) [
      | inl e ↦ stop (returns-IsFinal i (first s) e) (rw (e, retry_loop))
      | inr e ↦ again (returns-IsRetried i (first s) e) (
          rw (e, retry_loop) (retry_loop-Runs left (i + 1) (after_pause i (first s)) (omega arith)))
    ]

    -- The loop of `with_retry` ends, and its result is that of a sequence of attempts: each but the
    -- last met a transient error with attempts left and the caller's leave, and was followed by one
    -- pause; the last is no error, or one that is not transient, or it is number `max_attempts`, or the
    -- caller forbids another.
    pub with_retry-Runs : (s : Env H.World J) → Runs (with_retry F H o attempt can_retry s) 0 s
    unfolding with_retry
    with_retry-Runs s =
        retry_loop-Runs (pos_part (max_attempts F H o) - 1) 0 s (omega (arith, max_attempts_pos))

    -- A property of every attempt that starts well is one of the result, if each retry starts well.
    pub Runs_rule :
        (Fresh : Env H.World J → Type 0) (Good : Result T × Env H.World J → Type 0)
        → ((s : Env H.World J) → Fresh s → Good (first s))
        → ((i : ℕ) (s : Env H.World J)
            → Fresh s
            → IsRetried i (first s)
            → Fresh (after_pause i (first s)))
        → {out : Result T × Env H.World J} {i : ℕ} {s : Env H.World J} → Runs out i s
        → Fresh s
        → Good out
    Runs_rule Fresh Good good again_fresh {s = s} (stop e q) f = subst Good (sym q) (good s f)
    Runs_rule Fresh Good good again_fresh {i = i} {s = s} (again e r) f =
        Runs_rule Fresh Good good again_fresh r (again_fresh i s f e)

    pub IsRetried-can_retry :
        (i : ℕ) (out : Result T × Env H.World J) → IsRetried i out → can_retry out.1 ≡ true
    IsRetried-can_retry i (ok t, s) h = elim h [ ]
    IsRetried-can_retry i (throws w, s) h = elim h [ ]
    IsRetried-can_retry i (err e, s) (_, _, h) = h

    -- A run determines what it returns.
    IsFinal-IsRetried :
        (i : ℕ) (out : Result T × Env H.World J) → IsFinal i out → IsRetried i out → ⊥
    IsFinal-IsRetried i (ok t, s) f r = r
    IsFinal-IsRetried i (throws w, s) f r = r
    IsFinal-IsRetried i (err e, s) f r = ground arith

    pub Runs-unique :
        {out out' : Result T × Env H.World J} {i : ℕ} {s : Env H.World J}
        → Runs out i s
        → Runs out' i s
        → out ≡ out'
    Runs-unique (stop f q) (stop f' q') = q ∙ sym q'
    Runs-unique {i = i} {s = s} (stop f q) (again e r) = absurd (IsFinal-IsRetried i (first s) f e)
    Runs-unique {i = i} {s = s} (again e r) (stop f q) = absurd (IsFinal-IsRetried i (first s) f e)
    Runs-unique (again e r) (again e' r') = Runs-unique r r'
