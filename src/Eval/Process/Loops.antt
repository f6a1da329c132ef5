-- ===== src/Eval/Process/Loops.antt =====
-- The three loops of `run_process` in src/eval/process.cpp: an invariant of their steps holds at
-- their end.
use gemini_cpp.Base.{
  ℕ, zero, suc, Bool, true, false, ◌==◌, ◌∷◌, Option, none, some, ◌⊎◌, if◌then◌else◌,
}
use gemini_cpp.Base.Int.{ℤ}
use gemini_cpp.Base.Text.{Bytes}
use gemini_cpp.Eval.Outcome.{ProcessOptions}
use gemini_cpp.Eval.Kernel.{
  Kernel, Polled, ready, expired, Input, got, closed, blocked, Status, Waited, reaped, running,
  remaining_ms,
}
use gemini_cpp.Eval.Process.{
  Pump, keep_bytes, after_read, drain, after_drain, after_poll, pump, kill_group, enforce,
  after_wait, reap, buffer_size,
}

module _ {W : Type 0} (K : Kernel W) (options : ProcessOptions) (start : ℤ) where
  -- A `read` has come back, and its bytes are stored.
  abbrev pub taken : Pump W → Input × W → Pump W
  taken p (got c s, w) = keep_bytes K options start (c ∷ s) (record p { world = w })
  taken p (_, w) = record p { world = w }

  pub record IsKept (P : Pump W → Type 0) : Type 0 where
    pub by_clock : (p : Pump W) → P p → P (record p { world = (K.clock p.world).1 })
    pub by_poll : (n : ℕ) (p : Pump W) → P p → P (record p { world = (K.poll n p.world).1 })
    pub by_read : (p : Pump W) → P p → P (taken p (K.read buffer_size p.world))
    pub by_kill : (p : Pump W) → P p → P (kill_group K options p)
    pub by_wait : (p : Pump W) → P p → P (record p { world = (K.wait_child p.world).1 })
    pub by_sleep : (p : Pump W) → P p → P (record p { world = K.sleep_ms 2 p.world })

  module _ (P : Pump W → Type 0) (kept : IsKept P) where
    abbrev pub Drained : Option (Bool × Pump W) → Type 0
    Drained none = Unit
    Drained (some (eof, p)) = P p

    abbrev pub Pumped : Option (Pump W) → Type 0
    Pumped none = Unit
    Pumped (some p) = P p

    abbrev pub Reaped : Option ((Bytes ⊎ Status) × Pump W) → Type 0
    Reaped none = Unit
    Reaped (some (_, p)) = P p

    after_read-Drained :
        (again : Pump W → Option (Bool × Pump W))
        → ((p : Pump W) → P p → Drained (again p))
        → (p : Pump W) (read : Input × W) → P (taken p read)
        → Drained (after_read K options again start p read)
    after_read-Drained again ih p (got c s, w) h = ih _ h
    after_read-Drained again ih p (closed, w) h = h
    after_read-Drained again ih p (Input.interrupted, w) h = ih _ h
    after_read-Drained again ih p (blocked, w) h = h

    pub drain-Drained : (fuel : ℕ) (p : Pump W) → P p → Drained (drain K options start fuel p)
    unfolding drain
    drain-Drained zero p h = tt
    drain-Drained (suc fuel) p h =
        after_read-Drained (drain K options start fuel) (drain-Drained fuel) p _ (kept.by_read p h)

    after_drain-Pumped :
        (again : Pump W → Option (Pump W))
        → ((p : Pump W) → P p → Pumped (again p))
        → (out : Option (Bool × Pump W)) → Drained out
        → Pumped (after_drain K options again out)
    after_drain-Pumped again ih none h = tt
    after_drain-Pumped again ih (some (true, p)) h = h
    after_drain-Pumped again ih (some (false, p)) h = ih p h

    after_poll-Pumped :
        (again : Pump W → Option (Pump W)) (inner : Pump W → Option (Bool × Pump W))
        → ((p : Pump W) → P p → Pumped (again p))
        → ((p : Pump W) → P p → Drained (inner p))
        → (p : Pump W) (polled : Polled × W) → P (record p { world = polled.1 })
        → Pumped (after_poll K options again inner p polled)
    after_poll-Pumped again inner ih jh p (ready, w) h = after_drain-Pumped again ih _ (jh _ h)
    after_poll-Pumped again inner ih jh p (expired, w) h = ih _ h
    after_poll-Pumped again inner ih jh p (Polled.interrupted, w) h = ih _ h
    after_poll-Pumped again inner ih jh p (Polled.failed, w) h = h

    pub pump-Pumped : (fuel : ℕ) (p : Pump W) → P p → Pumped (pump K options start fuel p)
    unfolding pump
    pump-Pumped zero p h = tt
    pump-Pumped (suc fuel) p h =
        let q = record p { world = (K.clock p.world).1 } in
        let wait = remaining_ms p.deadline (K.clock p.world).0 in
        elim (wait == 0)
          as (λ b. Pumped (elim b [
            | true ↦ some (kill_group K options q)
            | false ↦
                after_poll K options (pump K options start fuel) (drain K options start fuel) q
                  (K.poll wait q.world)
          ])) [
            | true ↦ kept.by_kill q (kept.by_clock p h)
            | false ↦
                after_poll-Pumped _ _ (pump-Pumped fuel) (drain-Drained fuel) q _
                  (kept.by_poll wait q (kept.by_clock p h))
          ]

    either : (b : Bool) {x y : Pump W} → P x → P y → P (if b then x else y)
    either true hx hy = hx
    either false hx hy = hy

    enforce_lem : (late : Bool) (p : Pump W) → P p → P (enforce K options late p)
    enforce_lem true p h = h
    enforce_lem false p h = either _ (kept.by_kill _ (kept.by_clock p h)) (kept.by_clock p h)

    after_wait-Reaped :
        (again : Pump W → Option ((Bytes ⊎ Status) × Pump W))
        → ((p : Pump W) → P p → Reaped (again p))
        → (p : Pump W) (waited : Waited × W) → P (record p { world = waited.1 })
        → Reaped (after_wait K options again p waited)
    after_wait-Reaped again ih p (reaped status, w) h = h
    after_wait-Reaped again ih p (Waited.failed text, w) h = h
    after_wait-Reaped again ih p (running, w) h = ih _ (kept.by_sleep _ (enforce_lem _ _ h))
    after_wait-Reaped again ih p (Waited.interrupted, w) h =
        ih _ (kept.by_sleep _ (enforce_lem _ _ h))

    pub reap-Reaped : (fuel : ℕ) (p : Pump W) → P p → Reaped (reap K options fuel p)
    unfolding reap
    reap-Reaped zero p h = tt
    reap-Reaped (suc fuel) p h =
        after_wait-Reaped (reap K options fuel) (reap-Reaped fuel) p _ (kept.by_wait p h)
