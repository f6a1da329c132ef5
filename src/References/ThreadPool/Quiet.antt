-- ===== src/References/ThreadPool/Quiet.antt =====
-- tasks/thread-pool/reference.hpp: the pool comes to rest, and then all jobs are done.
use gemini_cpp.Base.{
  ℕ, suc, ◌+◌, ◌-◌, ◌*◌, ◌≤◌, ◌<◌, Bool, true, false, List, [], ◌∷◌, some, if◌then◌else◌, ◌≡◌, refl,
  subst, ap, map, total, total-set, length-set, length, arith, ◌⊎◌,
}
use mathlib.Core.Option.{some-injective}
use gemini_cpp.References.ThreadPool.{
  Worker, ready, asleep, ending, exited, running, Waiter, wake, away, checking, blocked, returned,
  Shared, PoolState, is_idle, take_job, act, woken, check_idle, Step, work, notify, notify_none,
  notify_all, check, Reach, step,
}
use gemini_cpp.References.ThreadPool.Invariant.{Reach-IsSound}
use gemini_cpp.References.ThreadPool.Progress.{IsDone, progress}

-- A caller that tests the condition of `wait_idle` has a step to take.
abbrev patience : Waiter → ℕ
patience checking = 1
patience _ = 0

patience-wake : (b : Bool) (w : Waiter) → patience (if b then wake w else w) ≤ patience w + 1
patience-wake true away = omega arith
patience-wake true checking = omega arith
patience-wake true blocked = omega arith
patience-wake true returned = omega arith
patience-wake false w = omega arith

patience-tested : (b : Bool) → patience (if b then returned else blocked) ≡ 0
patience-tested true = refl
patience-tested false = refl

module _ {J : Type 0} where
  -- How many steps the pool can still take by itself.
  abbrev weight : Worker J → ℕ
  weight ready = 1
  weight (running j) = 4
  weight ending = 3
  weight asleep = 0
  weight exited = 0

  abbrev pub steps_left : PoolState J → ℕ
  steps_left p =
      4 * length p.shared.queue
      + total weight p.workers
      + 2 * p.signals
      + patience p.shared.waiter
      + (if p.broadcast then length p.workers + 1 else 0)

  abbrev cost : Worker J × Shared J → ℕ
  cost (w, s) = 4 * length s.queue + weight w + patience s.waiter

  take_job-lt :
      (queue : List J) (stopping : Bool) (s : Shared J)
      → s.queue ≡ queue
      → cost (take_job queue stopping s) < cost (ready, s)
  take_job-lt [] true s e = omega arith
  take_job-lt [] false s e = omega arith
  take_job-lt (j ∷ queue) stopping s e = omega (arith, ap length e)

  act-lt :
      (w : Worker J) (s : Shared J) (r : Worker J × Shared J)
      → act w s ≡ some r
      → cost r < cost (w, s)
  unfolding act
  act-lt ready s r e =
      subst (λ x. cost x < cost (ready, s)) (some-injective _ _ e)
        (take_job-lt s.queue s.stopping s refl)
  act-lt (running j) s r e =
      subst (λ x. cost x < cost (running j, s)) (some-injective _ _ e) (omega arith)
  act-lt ending s r e =
      subst (λ x. cost x < cost (ending, s)) (some-injective _ _ e)
        (omega (arith, patience-wake (is_idle (record s { active = s.active - 1 })) s.waiter))
  act-lt asleep s r e = absurd (ground arith)
  act-lt exited s r e = absurd (ground arith)

  weight-woken : (ws : List (Worker J)) → total weight (map woken ws) ≤ total weight ws + length ws
  weight-woken [] = omega arith
  weight-woken (ready ∷ ws) = omega (arith, weight-woken ws)
  weight-woken (asleep ∷ ws) = omega (arith, weight-woken ws)
  weight-woken (running j ∷ ws) = omega (arith, weight-woken ws)
  weight-woken (ending ∷ ws) = omega (arith, weight-woken ws)
  weight-woken (exited ∷ ws) = omega (arith, weight-woken ws)

  Step-lt : {p q : PoolState J} → Step p q → steps_left q < steps_left p
  unfolding check_idle
  Step-lt {p} (work i {w} {w'} {s} at e) =
      rw (length-set p.workers i w')
        (omega (arith, total-set weight p.workers i w' at, act-lt w p.shared (w', s) e))
  Step-lt {p} (notify i some_left at) =
      rw (length-set p.workers i ready) (omega (arith, total-set weight p.workers i ready at))
  Step-lt {p} (notify_none some_left awake) = omega arith
  Step-lt {p} (notify_all b) = rw b (omega (arith, weight-woken p.workers))
  Step-lt {p} (check c) = omega (arith, patience-tested (is_idle p.shared), ap patience c)

  -- `n` steps of the pool by itself.
  pub data Steps : ℕ → PoolState J → PoolState J → Type 0 where
    none_left : {p : PoolState J} → Steps 0 p p
    more : {n : ℕ} {p q r : PoolState J} → Step p q → Steps n q r → Steps (suc n) p r

  Steps-le : {n : ℕ} {p q : PoolState J} → Steps n p q → n + steps_left q ≤ steps_left p
  Steps-le none_left = omega arith
  Steps-le (more s r) = omega (arith, Step-lt s, Steps-le r)

  Steps-Reach :
      {threads n : ℕ} {p q : PoolState J} → Reach threads p → Steps n p q → Reach threads q
  Steps-Reach r none_left = r
  Steps-Reach r (more s rest) = Steps-Reach (step r s) rest

  -- From any reachable state, however the workers and the notifications interleave, the pool takes a
  -- bounded number of steps by itself; and it can take a further step, or all is done: no wake-up is
  -- lost.
  pub Steps-IsDone :
      {threads n : ℕ} {p q : PoolState J}
      → Reach threads p
      → Steps n p q
      → (n ≤ steps_left p) × (((t : PoolState J) × Step q t) ⊎ IsDone q)
  Steps-IsDone {q = q} r steps =
      (omega (arith, Steps-le steps), progress q (Reach-IsSound (Steps-Reach r steps)))
