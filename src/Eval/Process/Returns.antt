-- ===== src/Eval/Process/Returns.antt =====
-- `run_process` of src/eval/process.cpp: the call returns, if the system is not busy with its child for
-- ever; and it does not, if the child never stops writing.
use gemini_cpp.Base.{
  ℕ, zero, suc, ◌+◌, ◌*◌, ◌≤◌, ◌<◌, Bool, true, false, Option, none, some, is_empty, if◌then◌else◌,
  ◌≡◌, refl, sym, subst, arith, Bool-cases, ◌⊎◌, inl, inr,
}
use gemini_cpp.Base.Int.{ℤ, pos}
use gemini_cpp.Base.Text.{Bytes, codes}
use gemini_cpp.Error.{Error, make_error, invalid_argument}
use gemini_cpp.Eval.Outcome.{ProcessOptions, ProcessResult}
use gemini_cpp.Eval.Kernel.{Kernel, Status, Input, got, closed, blocked}
use gemini_cpp.Eval.Process.{
  Pump, buffer_size, first_deadline, after_reap, after_read, drain, after_pump, after_spawn,
  after_pipe, run_process, no_result,
}
use gemini_cpp.Eval.Process.Loops.{Pumped, pump-Pumped}
use gemini_cpp.Eval.Process.Timed.{Timed, left_ms, left_ms_later, left_ms_graced, left_ms_reset}
use gemini_cpp.Eval.Process.Ends.{Gives, budget_ms, left, Calm, pump-ends}
use gemini_cpp.Eval.Process.Reaps.{Dead, Dead-kept, cost-le, reap-ends}

given {ℓ} : {A : Type ℓ} (o : Option A) → Gives (λ _. Unit) o → (a : A) × (o ≡ some a)
given none h = elim h [ ]
given (some a) h = (a, refl)

module _ {W : Type 0} (K : Kernel W) (options : ProcessOptions) (C : Timed K) where
  -- What a run takes with `n` events to come: enough for each of its loops.
  abbrev pub enough_fuel : ℕ → ℕ
  enough_fuel n = n * (budget_ms K options C + 2) + budget_ms K options C + 1

  after_reap-ends :
      (start : ℤ) (out : Option ((Bytes ⊎ Status) × Pump W))
      → Gives (λ _. Unit) out
      → Gives (λ _. Unit) (after_reap K options start out)
  after_reap-ends start none h = h
  after_reap-ends start (some (inl text, p)) h = tt
  after_reap-ends start (some (inr status, p)) h = tt

  after_pump-ends :
      (start : ℤ) (fuel n : ℕ) (out : Option (Pump W))
      → enough_fuel n < fuel
      → Gives (Calm K options C n) out
      → Pumped K options start (Dead K options C) (Dead-kept K options C start) out
      → Gives (λ _. Unit) (after_pump K options start fuel out)
  after_pump-ends start fuel n none lt h dead = h
  after_pump-ends start fuel n (some p) lt h dead =
      let c = C.by_close p.world in
      let near = left_ms_later p.deadline _ _ c.later in
      after_reap-ends start _ (
        reap-ends K options C fuel (record p { world = K.close_input p.world }) n
          (omega (arith, h.0, near), omega (arith, h.1, c.fewer)) (λ k. c.stays (dead k))
          (omega (
            arith,
            h.0,
            near,
            cost-le K options C p.result.timed_out
                (left_ms p.deadline (C.time (K.close_input p.world))),
          )))

  first_lem : (t : ℕ) → left_ms (first_deadline options (pos t)) t ≤ budget_ms K options C
  first_lem t = elim (Bool-cases (is_empty options.start_marker)) [
    | inl e ↦ rw e (omega (arith, left_ms_reset t options.timeout_ms))
    | inr e ↦ rw e (left_ms_graced t options.timeout_ms options.startup_grace)
  ]

  first_fuel : (n b l fuel : ℕ) → l ≤ b → n * (b + 2) + b + 1 < fuel → n * (b + 1) + l < fuel
  first_fuel n b l fuel h k = grind arith

  after_spawn-ends :
      (t fuel n : ℕ) (spawned : Option Bytes × W)
      → enough_fuel n < fuel
      → t ≤ C.time spawned.1
      → C.events spawned.1 ≤ n
      → Gives (λ _. Unit) (after_spawn K options (pos t) fuel spawned)
  after_spawn-ends t fuel n (some text, w) lt later few = tt
  after_spawn-ends t fuel n (none, w) lt later few =
      let p : Pump W = record {
        result = no_result;
        deadline = first_deadline options (pos t);
        world = w;
      } in
      let near : left K options C p ≤ budget_ms K options C =
        omega (arith, first_lem t, left_ms_later (first_deadline options (pos t)) _ _ later) in
      after_pump-ends (pos t) fuel n _ lt
        (pump-ends K options C (pos t) fuel p n (near, few)
          (first_fuel n (budget_ms K options C) _ fuel near lt))
        (pump-Pumped K options (pos t) (Dead K options C) (Dead-kept K options C (pos t)) fuel p
          (λ e. absurd (ground arith)))

  after_pipe-ends :
      (t fuel n : ℕ) (opened : Option Bytes × W)
      → enough_fuel n < fuel
      → t ≤ C.time opened.1
      → C.events opened.1 ≤ n
      → Gives (λ _. Unit) (after_pipe K options (pos t) fuel opened)
  after_pipe-ends t fuel n (some text, w) lt later few = tt
  after_pipe-ends t fuel n (none, w) lt later few =
      let c = C.by_spawn options w in
      after_spawn-ends t fuel n (K.spawn options w) lt (omega (arith, c.later))
        (omega (arith, c.fewer))

  -- If the clock goes on, waits and sleeps take their time, and besides that a bounded number of
  -- events is to come (bytes, signals, and waits for a child that is killed), then the call returns:
  -- fuel above a bound by the events and by the timeout is enough.
  pub run_process-ends :
      (fuel : ℕ) (w : W)
      → enough_fuel (C.events w) < fuel
      → (out : (Error ⊎ ProcessResult) × W) × (run_process K options fuel w ≡ some out)
  unfolding run_process
  run_process-ends fuel w lt =
      given _
        (elim (is_empty options.argv)
          as (λ b.
            Gives (λ _. Unit)
              (if b
                then some (inl (make_error invalid_argument (codes "empty argv")), w)
                else after_pipe K options (K.clock w).0 fuel (K.open_pipe (K.clock w).1))) [
                  | true ↦ tt
                  | false ↦
                      subst
                        (λ now.
                          Gives (λ _. Unit)
                            (after_pipe K options now fuel (K.open_pipe (K.clock w).1)))
                        (sym (C.clock_reads w))
                        (after_pipe-ends (C.time (K.clock w).1) fuel (C.events w)
                          (K.open_pipe (K.clock w).1) lt (C.by_pipe (K.clock w).1).later
                          (omega (arith, (C.by_clock w).fewer, (C.by_pipe (K.clock w).1).fewer)))
                ])

-- A `read` that returns bytes.
abbrev pub Talks : {W : Type 0} → Input × W → Type 0
Talks (got c s, w) = Unit
Talks _ = ⊥

module _ {W : Type 0} (K : Kernel W) (options : ProcessOptions)
    (talks : (n : ℕ) (w : W) → Talks (K.read n w)) where
  after_read-Talks :
      (start : ℤ) (again : Pump W → Option (Bool × Pump W))
      → ((p : Pump W) → again p ≡ none)
      → (p : Pump W) (read : Input × W) → Talks read
      → after_read K options again start p read ≡ none
  after_read-Talks start again ih p (got c s, w) t = ih _
  after_read-Talks start again ih p (closed, w) t = elim t [ ]
  after_read-Talks start again ih p (Input.interrupted, w) t = elim t [ ]
  after_read-Talks start again ih p (blocked, w) t = elim t [ ]

  -- From a child that always has output ready, the inner loop never returns, whatever the deadline and
  -- the limit on the output are.
  pub drain_endless : (start : ℤ) (fuel : ℕ) (p : Pump W) → drain K options start fuel p ≡ none
  unfolding drain
  drain_endless start zero p = refl
  drain_endless start (suc fuel) p =
      after_read-Talks start (drain K options start fuel) (drain_endless start fuel) p _
        (talks buffer_size p.world)
