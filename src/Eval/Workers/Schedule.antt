-- ===== src/Eval/Workers/Schedule.antt =====
-- src/eval/runner.cpp: every interleaving of the workers runs every task once.
use gemini_cpp.Base.{
  ℕ, suc, ◌+◌, ◌*◌, ◌≤◌, ltb, List, [], ◌∷◌, ◌++◌, ◌≡◌, sym, arith, if◌then◌else◌, ◌⊎◌, inl, inr,
  Bool-cases, ltb→lt, subst, length, length-append,
}
use gemini_cpp.Base.Int.{ℤ}
use gemini_cpp.Eval.Workers.{
  Phase, fetching, running, stopped, Pool, worker_count, start_pool, Step, take_task, no_task,
  report_task, Steps, here, later,
}
use gemini_cpp.Eval.Workers.Phases.{
  reports, runners, work, weights-append, runners-append, reports-append, stops, stops-append,
  AllStopped, IsActive-cases, runners-repeat_phase, stops-repeat_phase, weights-repeat_phase,
  length-repeat_phase, worker_count_pos,
}

module _ {R : Type 0} (n : ℕ) where
  -- Each step of a worker is one unit of the work.
  Step-work : (p q : Pool R) → Step n p q → work n p ≡ suc (work n q)
  Step-work _ _ (take_task before after i log lt) =
      omega
        (arith, weights-append before (fetching ∷ after), weights-append before (running i ∷ after))
  Step-work _ _ (no_task before after i log le) =
      omega
        (arith, weights-append before (fetching ∷ after), weights-append before (stopped ∷ after))
  Step-work _ _ (report_task before after next i r log) =
      omega
        (arith, weights-append before (running i ∷ after), weights-append before (fetching ∷ after))

  -- Every task below `next` was reported or is run by one worker, and no other is; a worker stops only
  -- when no task is left.
  abbrev IsFair : Pool R → Type 0
  IsFair p =
      ((i : ℕ)
        → reports i p.reported + runners i p.workers
          ≡ (if ltb i p.next then (if ltb i n then 1 else 0) else 0))
      × (1 ≤ stops p.workers → n ≤ p.next)
      × (1 ≤ length p.workers)

  Step-IsFair : (p q : Pool R) → Step n p q → IsFair p → IsFair q
  Step-IsFair _ _ (take_task before after i log lt) (h, s, l) = (
    λ j. ground (
      arith,
      h j,
      runners-append j before (fetching ∷ after),
      runners-append j before (running i ∷ after),
    ),
    λ e.
        omega (
          arith,
          s,
          stops-append before (fetching ∷ after),
          stops-append before (running i ∷ after),
        ),
    omega (
      arith,
      l,
      length-append before (fetching ∷ after),
      length-append before (running i ∷ after),
    ),
  )
  Step-IsFair _ _ (no_task before after i log le) (h, s, l) = (
    λ j. ground (
      arith,
      h j,
      runners-append j before (fetching ∷ after),
      runners-append j before (stopped ∷ after),
    ),
    λ e. omega arith,
    omega
        (arith, l, length-append before (fetching ∷ after), length-append before (stopped ∷ after)),
  )
  Step-IsFair _ _ (report_task before after next i r log) (h, s, l) = (
    λ j. ground (
      arith,
      h j,
      reports-append j log ((i, r) ∷ []),
      runners-append j before (fetching ∷ after),
      runners-append j before (running i ∷ after),
    ),
    λ e. s (
        omega (
          arith,
          e,
          stops-append before (fetching ∷ after),
          stops-append before (running i ∷ after),
        )),
    omega (
      arith,
      l,
      length-append before (fetching ∷ after),
      length-append before (running i ∷ after),
    ),
  )

  Steps-IsFair : (k : ℕ) (p q : Pool R) → Steps n k p q → IsFair p → IsFair q
  Steps-IsFair _ _ _ (here p) h = h
  Steps-IsFair _ _ _ (later p q r s more) h = Steps-IsFair _ q r more (Step-IsFair p q s h)

  Steps-work : (k : ℕ) (p q : Pool R) → Steps n k p q → k + work n q ≡ work n p
  Steps-work _ _ _ (here p) = omega arith
  Steps-work _ _ _ (later {k} p q r s more) = omega (arith, Step-work p q s, Steps-work k q r more)

  start-IsFair : R → (jobs : ℤ) → IsFair (start_pool {R = R} jobs n)
  unfolding start_pool
  start-IsFair r jobs = (
    λ i. ground (arith, runners-repeat_phase (worker_count jobs n) i),
    λ e. omega (arith, stops-repeat_phase (worker_count jobs n)),
    omega (arith, length-repeat_phase (worker_count jobs n), worker_count_pos jobs n),
  )

  fetch-Step :
      (before after : List Phase) (i : ℕ) (log : List (ℕ × R))
      → (q : Pool R) × Step n
          (record { next = i; workers = before ++ fetching ∷ after; reported = log })
          q
  fetch-Step before after i log = elim (Bool-cases (ltb i n)) [
    | inl e ↦ (_, take_task before after i log (ltb→lt i n e))
    | inr e ↦ (_, no_task before after i log (ground arith))
  ]

  -- A pool takes a step, or all its workers have stopped.
  progress : R → (p : Pool R) → AllStopped p.workers ⊎ ((q : Pool R) × Step n p q)
  progress r p = elim (IsActive-cases p.workers) [
    | inl s ↦ inl s
    | inr (before, after, inl e) ↦ inr (
        subst
          (λ ps.
            (q : Pool R) × Step n (record { next = p.next; workers = ps; reported = p.reported }) q)
          (sym e) (fetch-Step before after p.next p.reported))
    | inr (before, after, inr (i, e)) ↦ inr (
        subst
          (λ ps.
            (q : Pool R) × Step n (record { next = p.next; workers = ps; reported = p.reported }) q)
          (sym e) (_, report_task before after p.next i r p.reported))
  ]

  -- However the workers interleave, a run over `n` tasks has at most `2 * n` steps and one for each
  -- worker; and it can either take a further step, or every task was reported exactly once and
  -- nothing else was.
  pub schedule_lem :
      R
      → (jobs : ℤ) (k : ℕ) (q : Pool R) → Steps n k (start_pool jobs n) q
      → (k + work n q ≡ 2 * n + worker_count jobs n)
        × (((p : Pool R) × Step n q p)
            ⊎ ((i : ℕ) → reports i q.reported ≡ (if ltb i n then 1 else 0)))
  unfolding start_pool AllStopped
  schedule_lem r jobs k q steps =
      let (h, s, l) = Steps-IsFair k (start_pool jobs n) q steps (start-IsFair r jobs) in
      (
        omega (
          arith,
          Steps-work k (start_pool jobs n) q steps,
          weights-repeat_phase (worker_count jobs n),
        ),
        elim (progress r q) [
          | inr step ↦ inl step
          | inl (all, none) ↦ inr (λ i. ground (arith, h i, none i, s (omega (arith, all, l))))
        ],
      )
