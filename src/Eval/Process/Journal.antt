-- ===== src/Eval/Process/Journal.antt =====
-- `run_process` of src/eval/process.cpp as a whole: its output, against all bytes that its calls of
-- `read` returned.
use gemini_cpp.Base.{
  ℕ, zero, suc, if◌then◌else◌, Bool, true, false, [], ◌∷◌, ◌++◌, Option, none, some, is_empty, ◌≡◌,
  refl, subst, sym, ◌∙◌, append-nil, ◌≤◌, ◌⊎◌, inl, inr, ltb, length, take, arith,
}
use gemini_cpp.Base.Int.{ℤ, pos}
use gemini_cpp.Base.Search.{find}
use gemini_cpp.Base.Text.{Bytes, codes}
use gemini_cpp.Error.{Error, make_error, invalid_argument}
use gemini_cpp.Eval.Outcome.{ProcessOptions, ProcessResult}
use gemini_cpp.Eval.Kernel.{Kernel, Input, got, closed, blocked, Status, exited, signaled, other}
use gemini_cpp.Eval.Process.{
  Pump, keep_bytes, store, if_found, buffer_size, complete, with_status, run_process, no_result,
  after_reap, after_pump, after_spawn, after_pipe,
}
use gemini_cpp.Eval.Process.Capture.{Captured, Marked, keep_bytes-Captured}
use gemini_cpp.Eval.Process.Loops.{taken, IsKept, Pumped, Reaped, pump-Pumped, reap-Reaped}

abbrev pub bytes_of : Input → Bytes
bytes_of (got c s) = c ∷ s
bytes_of _ = []

-- The bytes that were read from the pipe so far: a new child has a new pipe, `read` adds what it
-- returns, and no other call reads.
pub record Journal {W : Type 0} (K : Kernel W) : Type 0 where
  pub received : W → Bytes
  pub by_spawn : (o : ProcessOptions) (w : W) → received (K.spawn o w).1 ≡ []
  pub by_read : (n : ℕ) (w : W) → received (K.read n w).1 ≡ received w ++ bytes_of (K.read n w).0
  pub by_clock : (w : W) → received (K.clock w).1 ≡ received w
  pub by_poll : (n : ℕ) (w : W) → received (K.poll n w).1 ≡ received w
  pub by_close : (w : W) → received (K.close_input w) ≡ received w
  pub by_kill_all : (w : W) → received (K.kill_all w) ≡ received w
  pub by_kill_rest : (w : W) → received (K.kill_rest w) ≡ received w
  pub by_wait : (w : W) → received (K.wait_child w).1 ≡ received w
  pub by_sleep : (n : ℕ) (w : W) → received (K.sleep_ms n w) ≡ received w

take-nil : (n : ℕ) → take {A = ℕ} n [] ≡ []
take-nil zero = refl
take-nil (suc n) = refl

find-nil : (p : Bytes) → is_empty p ≡ false → find [] p ≡ none
unfolding find
find-nil [] h = absurd (ground arith)
find-nil (c ∷ p) h = refl

fresh : (options : ProcessOptions) → Captured options [] no_result
fresh options = record {
  bound = omega arith;
  plain = λ h. (sym (take-nil options.max_output_bytes), ground arith);
  marked = λ h fits. (refl, rw (find-nil options.start_marker h) (refl, refl));
}

module _ {W : Type 0} (K : Kernel W) (options : ProcessOptions) (J : Journal K) where
  abbrev Kept : Pump W → Type 0
  Kept p = Captured options (J.received p.world) p.result

  same : (r : ProcessResult) {v w : Bytes} → w ≡ v → Captured options v r → Captured options w r
  same r e h = subst (λ b. Captured options b r) (sym e) h

  if_found-received :
      (start : ℤ) (b : Bool) (found : Option ℕ) (p : Pump W)
      → J.received (if_found K options start b found p).world ≡ J.received p.world
  if_found-received start false found p = refl
  if_found-received start true none p = refl
  if_found-received start true (some at) p = J.by_clock p.world

  taken-Kept :
      (start : ℤ) (p : Pump W) (read : Input × W)
      → J.received read.1 ≡ J.received p.world ++ bytes_of read.0
      → Kept p
      → Kept (taken K options start p read)
  unfolding keep_bytes
  taken-Kept start p (got c s, w) e h =
      same (keep_bytes K options start (c ∷ s) (record p { world = w })).result
        (if_found-received start _ _ (store K options (c ∷ s) (record p { world = w })) ∙ e)
        (keep_bytes-Captured options K start (J.received p.world) (c ∷ s) (record p { world = w })
          h)
  taken-Kept start p (closed, w) e h = same p.result (e ∙ append-nil _) h
  taken-Kept start p (Input.interrupted, w) e h = same p.result (e ∙ append-nil _) h
  taken-Kept start p (blocked, w) e h = same p.result (e ∙ append-nil _) h

  flagged :
      (all : Bytes) (r : ProcessResult) (b : Bool)
      → Captured options all r
      → Captured options all (record r { timed_out = b })
  flagged all r b h = record { bound = h.bound; plain = h.plain; marked = h.marked }

  Kept-kept : (start : ℤ) → IsKept K options start Kept
  Kept-kept start = record {
    by_clock = λ p h. same p.result (J.by_clock p.world) h;
    by_poll = λ n p h. same p.result (J.by_poll n p.world) h;
    by_read =
        λ p h. taken-Kept start p (K.read buffer_size p.world) (J.by_read buffer_size p.world) h;
    by_kill = λ p h.
        same (record p.result { timed_out = true }) (J.by_kill_all p.world)
          (flagged (J.received p.world) p.result true h);
    by_wait = λ p h. same p.result (J.by_wait p.world) h;
    by_sleep = λ p h. same p.result (J.by_sleep 2 p.world) h;
  }

  -- A result holds an output that was captured; an error and an unfinished run say nothing.
  abbrev pub Finished : Option ((Error ⊎ ProcessResult) × W) → Type 0
  Finished none = Unit
  Finished (some (inl e, w)) = Unit
  Finished (some (inr r, w)) = Captured options (J.received w) r

  with_status-Captured :
      (all : Bytes) (status : Status) (r : ProcessResult)
      → Captured options all r
      → Captured options all (with_status K options status r)
  with_status-Captured all (exited n) r h = record {
    bound = h.bound;
    plain = h.plain;
    marked = h.marked;
  }
  with_status-Captured all (signaled n) r h = record {
    bound = h.bound;
    plain = h.plain;
    marked = h.marked;
  }
  with_status-Captured all other r h = h

  cleared :
      (all : Bytes) (b : Bool) (r : ProcessResult)
      → Captured options all r
      → Captured options all (if b then record r { term_signal = pos 0 } else r)
  cleared all true r h = record { bound = h.bound; plain = h.plain; marked = h.marked }
  cleared all false r h = h

  stopped-received : (b : Bool) (w : W) → J.received (if b then w else K.kill_rest w) ≡ J.received w
  stopped-received true w = refl
  stopped-received false w = J.by_kill_rest w

  complete-Captured :
      (start : ℤ) (status : Status) (p : Pump W)
      → Kept p
      → Captured options
          (J.received (complete K options start status p).1)
          (complete K options start status p).0
  unfolding complete
  complete-Captured start status p h =
      same (complete K options start status p).0
        (J.by_clock _ ∙ stopped-received p.result.timed_out p.world)
        (cleared (J.received p.world) _ _ (
          with_status-Captured (J.received p.world) status _
            (record { bound = h.bound; plain = h.plain; marked = h.marked })))

  after_reap-Finished :
      (start : ℤ) (out : Option ((Bytes ⊎ Status) × Pump W))
      → Reaped K options start Kept (Kept-kept start) out
      → Finished (after_reap K options start out)
  after_reap-Finished start none h = tt
  after_reap-Finished start (some (inl text, p)) h = tt
  after_reap-Finished start (some (inr status, p)) h = complete-Captured start status p h

  after_pump-Finished :
      (start : ℤ) (fuel : ℕ) (out : Option (Pump W))
      → Pumped K options start Kept (Kept-kept start) out
      → Finished (after_pump K options start fuel out)
  after_pump-Finished start fuel none h = tt
  after_pump-Finished start fuel (some p) h = after_reap-Finished start _ (
      reap-Reaped K options start Kept (Kept-kept start) fuel _
        (same p.result (J.by_close p.world) h))

  after_spawn-Finished :
      (start : ℤ) (fuel : ℕ) (spawned : Option Bytes × W)
      → J.received spawned.1 ≡ []
      → Finished (after_spawn K options start fuel spawned)
  after_spawn-Finished start fuel (some text, w) e = tt
  after_spawn-Finished start fuel (none, w) e =
      after_pump-Finished start fuel _ (
        pump-Pumped K options start Kept (Kept-kept start) fuel _
          (same no_result e (fresh options)))

  after_pipe-Finished :
      (start : ℤ) (fuel : ℕ) (opened : Option Bytes × W)
      → Finished (after_pipe K options start fuel opened)
  after_pipe-Finished start fuel (some text, w) = tt
  after_pipe-Finished start fuel (none, w) =
      after_spawn-Finished start fuel (K.spawn options w) (J.by_spawn options w)

  pub run_process-Captured : (fuel : ℕ) (w : W) → Finished (run_process K options fuel w)
  unfolding run_process
  run_process-Captured fuel w =
      elim (is_empty options.argv)
        as (λ b. Finished (
          if b
          then some (inl (make_error invalid_argument (codes "empty argv")), w)
          else after_pipe K options (K.clock w).0 fuel (K.open_pipe (K.clock w).1))) [
            | true ↦ tt
            | false ↦ after_pipe-Finished (K.clock w).0 fuel (K.open_pipe (K.clock w).1)
          ]

  -- A result of a run without a marker: the output is the first `max_output_bytes` of the bytes that
  -- were read, and it is marked as truncated exactly if there were more.
  pub run_process-plain :
      (fuel : ℕ) (w : W) {r : ProcessResult} {w' : W}
      → is_empty options.start_marker ≡ true
      → run_process K options fuel w ≡ some (inr r, w')
      → (r.output ≡ take options.max_output_bytes (J.received w'))
        × (r.output_truncated ≡ ltb options.max_output_bytes (length (J.received w')))
  run_process-plain fuel w h e = (subst Finished e (run_process-Captured fuel w)).plain h

  -- A result of a run with a marker, within the bound on the output: nothing is marked as truncated,
  -- the output is the bytes that were read without the first marker in them, wherever the calls of
  -- `read` cut them, and the start was noted exactly if there is a marker.
  pub run_process-Marked :
      (fuel : ℕ) (w : W) {r : ProcessResult} {w' : W}
      → is_empty options.start_marker ≡ false
      → run_process K options fuel w ≡ some (inr r, w')
      → length (J.received w') ≤ options.max_output_bytes
      → (r.output_truncated ≡ false)
        × Marked options (J.received w') r (find (J.received w') options.start_marker)
  run_process-Marked fuel w h e fits =
      (subst Finished e (run_process-Captured fuel w)).marked h fits
