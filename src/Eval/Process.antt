-- ===== src/Eval/Process.antt =====
-- src/eval/process.cpp: `run_process` over the calls that it makes of the operating system. A moment
-- is a number of nanoseconds, and the other times are milliseconds.
pub mod Capture
pub mod Loops
pub mod Journal
pub mod Timed
pub mod Ends
pub mod Reaps
pub mod Returns
use gemini_cpp.Base.{
  ℕ, zero, suc, ◌+◌, ◌-◌, ◌/◌, Bool, true, false, not, ◌||◌, ltb, leb, ◌==◌, [], ◌∷◌, ◌++◌, Option,
  none, some, is_empty, if◌then◌else◌, length, take, ◌⊎◌, inl, inr,
}
use gemini_cpp.Base.Int.{ℤ, pos, negsuc, ◌+ℤ◌, ◌-ℤ◌, ◌*ℤ◌, ltb_ℤ, min_ℤ, pos_part}
use gemini_cpp.Base.Search.{find_from, erase}
use gemini_cpp.Base.Text.{Bytes, codes}
use gemini_cpp.Error.{Error, make_error, invalid_argument, io}
use gemini_cpp.Eval.Kernel.{
  Kernel, Polled, ready, expired, Input, got, closed, blocked, Status, exited, signaled, other,
  Waited, reaped, running, to_ms, of_ms, remaining_ms,
}
use gemini_cpp.Eval.Outcome.{ProcessOptions, ProcessResult}

-- The local variables of the loops.
pub record Pump (W : Type 0) : Type 0 where
  pub result : ProcessResult
  pub deadline : ℤ
  pub world : W

abbrev pub no_result : ProcessResult
no_result = record {
  exit_code = negsuc 0;
  term_signal = pos 0;
  timed_out = false;
  output_truncated = false;
  output = [];
  duration = pos 0;
  startup = none;
}

abbrev pub buffer_size : ℕ
buffer_size = 16384

-- `await_marker && !result.startup`, from whether the marker is empty.
abbrev pub awaits_marker : Bool → Option ℤ → Bool
awaits_marker true startup = false
awaits_marker false none = true
awaits_marker false (some t) = false

module _ (options : ProcessOptions) where
  -- Where the marker can begin, if it was not in the first `before` bytes.
  abbrev pub search_start : ℕ → ℕ
  search_start before =
      if leb (length options.start_marker) before then before - length options.start_marker else 0

  abbrev pub first_deadline : ℤ → ℤ
  first_deadline start =
      let deadline = start +ℤ of_ms options.timeout_ms in
      if is_empty options.start_marker then deadline else deadline +ℤ of_ms options.startup_grace

module _ {W : Type 0} (K : Kernel W) (options : ProcessOptions) where
  -- The lambda `kill_group`.
  abbrev pub kill_group : Pump W → Pump W
  kill_group p = record p {
    result = record p.result { timed_out = true };
    world = K.kill_all p.world;
  }

  -- The marker was found at a position.
  abbrev pub start_clock : ℤ → ℕ → Pump W → Pump W
  start_clock start at p =
      let (now, w) = K.clock p.world in
      record {
        result = record p.result {
          startup = some (to_ms (now -ℤ start));
          output = erase p.result.output at (length options.start_marker);
        };
        deadline = now +ℤ of_ms options.timeout_ms;
        world = w;
      }

  abbrev pub if_found : ℤ → Bool → Option ℕ → Pump W → Pump W
  if_found start false found p = p
  if_found start true none p = p
  if_found start true (some at) p = start_clock start at p

  abbrev pub seek_marker : ℤ → ℕ → Pump W → Pump W
  seek_marker start before p =
      if_found start (awaits_marker (is_empty options.start_marker) p.result.startup)
        (find_from p.result.output options.start_marker (search_start options before)) p

  -- The bytes of one `read` are stored, as many as there is room for.
  abbrev pub store : Bytes → Pump W → Pump W
  store bytes p =
      let room = options.max_output_bytes - length p.result.output in
      record p {
        result = record p.result {
          output = p.result.output ++ take room bytes;
          output_truncated = p.result.output_truncated || ltb room (length bytes);
        };
      }

  unfoldable pub keep_bytes : ℤ → Bytes → Pump W → Pump W
  keep_bytes start bytes p = seek_marker start (length p.result.output) (store bytes p)

  -- What follows a `read`; `again` is the loop.
  abbrev pub after_read :
      (Pump W → Option (Bool × Pump W)) → ℤ → Pump W → Input × W → Option (Bool × Pump W)
  after_read again start p (got c s, w) = again (keep_bytes start (c ∷ s) (record p { world = w }))
  after_read again start p (closed, w) = some (true, record p { world = w })
  after_read again start p (Input.interrupted, w) = again (record p { world = w })
  after_read again start p (blocked, w) = some (false, record p { world = w })

  -- The inner loop: it reads until nothing is left, and says whether the pipe is closed.
  unfoldable pub drain : ℤ → ℕ → Pump W → Option (Bool × Pump W)
  drain start zero p = none
  drain start (suc fuel) p = after_read (drain start fuel) start p (K.read buffer_size p.world)

  abbrev pub after_drain : (Pump W → Option (Pump W)) → Option (Bool × Pump W) → Option (Pump W)
  after_drain again none = none
  after_drain again (some (true, p)) = some p
  after_drain again (some (false, p)) = again p

  -- What follows a `poll`, with the outer loop and the inner one.
  abbrev pub after_poll :
      (Pump W → Option (Pump W))
      → (Pump W → Option (Bool × Pump W))
      → Pump W
      → Polled × W
      → Option (Pump W)
  after_poll again inner p (ready, w) = after_drain again (inner (record p { world = w }))
  after_poll again inner p (expired, w) = again (record p { world = w })
  after_poll again inner p (Polled.interrupted, w) = again (record p { world = w })
  after_poll again inner p (Polled.failed, w) = some (record p { world = w })

  -- The outer loop: it waits for output until the pipe is closed or the time is over.
  unfoldable pub pump : ℤ → ℕ → Pump W → Option (Pump W)
  pump start zero p = none
  pump start (suc fuel) p =
      let (now, w) = K.clock p.world in
      let q = record p { world = w } in
      let wait = remaining_ms p.deadline now in
      elim (wait == 0) [
        | true ↦ some (kill_group q)
        | false ↦ after_poll (pump start fuel) (drain start fuel) q (K.poll wait w)
      ]

  -- Between two calls of `waitpid`: the deadline, and a short sleep.
  abbrev pub enforce : Bool → Pump W → Pump W
  enforce true p = p
  enforce false p =
      let (now, w) = K.clock p.world in
      let q = record p { world = w } in if not (ltb_ℤ now p.deadline) then kill_group q else q

  abbrev pub rest : Pump W → Pump W
  rest p = let q = enforce p.result.timed_out p in record q { world = K.sleep_ms 2 q.world }

  abbrev pub after_wait :
      (Pump W → Option ((Bytes ⊎ Status) × Pump W))
      → Pump W
      → Waited × W
      → Option ((Bytes ⊎ Status) × Pump W)
  after_wait again p (reaped status, w) = some (inr status, record p { world = w })
  after_wait again p (Waited.failed text, w) = some (inl text, record p { world = w })
  after_wait again p (running, w) = again (rest (record p { world = w }))
  after_wait again p (Waited.interrupted, w) = again (rest (record p { world = w }))

  -- The loop that waits for the child to end.
  unfoldable pub reap : ℕ → Pump W → Option ((Bytes ⊎ Status) × Pump W)
  reap zero p = none
  reap (suc fuel) p = after_wait (reap fuel) p (K.wait_child p.world)

  abbrev pub with_status : Status → ProcessResult → ProcessResult
  with_status (exited code) r = record r { exit_code = code }
  with_status (signaled signal) r = record r { term_signal = signal }
  with_status other r = r

  -- The child is reaped: strays are killed, and the result is completed.
  unfoldable pub complete : ℤ → Status → Pump W → ProcessResult × W
  complete start status p =
      let stopped = if p.result.timed_out then p.world else K.kill_rest p.world in
      let (now, w) = K.clock stopped in
      let r = with_status status (record p.result { duration = to_ms (now -ℤ start) }) in
      ((if r.timed_out then record r { term_signal = pos 0 } else r), w)

  abbrev pub io_error : Bytes → Bytes → Error
  io_error what text = make_error io (what ++ codes ": " ++ text)

  abbrev after_reap : ℤ → Option ((Bytes ⊎ Status) × Pump W) → Option ((Error ⊎ ProcessResult) × W)
  after_reap start none = none
  after_reap start (some (inl text, p)) = some (inl (io_error (codes "waitpid") text), p.world)
  after_reap start (some (inr status, p)) = let (r, w) = complete start status p in some (inr r, w)

  abbrev after_pump : ℤ → ℕ → Option (Pump W) → Option ((Error ⊎ ProcessResult) × W)
  after_pump start fuel none = none
  after_pump start fuel (some p) =
      after_reap start (reap fuel (record p { world = K.close_input p.world }))

  abbrev after_spawn : ℤ → ℕ → Option Bytes × W → Option ((Error ⊎ ProcessResult) × W)
  after_spawn start fuel (some text, w) = some (inl (io_error (codes "fork") text), K.close_pipe w)
  after_spawn start fuel (none, w) = after_pump start fuel (
      pump start fuel
        (record { result = no_result; deadline = first_deadline options start; world = w }))

  abbrev after_pipe : ℤ → ℕ → Option Bytes × W → Option ((Error ⊎ ProcessResult) × W)
  after_pipe start fuel (some text, w) = some (inl (io_error (codes "pipe") text), w)
  after_pipe start fuel (none, w) = after_spawn start fuel (K.spawn options w)

  -- Each of the three loops may take as many rounds as the fuel; `none` means that one did not end.
  unfoldable pub run_process : ℕ → W → Option ((Error ⊎ ProcessResult) × W)
  unfolding keep_bytes drain pump reap complete remaining_ms find_from erase ◌-ℤ◌ ◌+ℤ◌ ◌*ℤ◌
  run_process fuel w =
      if is_empty options.argv
      then some (inl (make_error invalid_argument (codes "empty argv")), w)
      else (let (start, w') = K.clock w in after_pipe start fuel (K.open_pipe w'))
