-- ===== src/Eval/Kernel.antt =====
-- src/eval/process.cpp: what `run_process` uses of the operating system, and its arithmetic of times.
-- A moment is a number of nanoseconds, and the other times are milliseconds.
use gemini_cpp.Base.{ℕ, ◌+◌, ◌-◌, ◌/◌, not, ltb, Option, if◌then◌else◌}
use gemini_cpp.Base.Int.{ℤ, pos, negsuc, ◌-ℤ◌, ◌*ℤ◌, ltb_ℤ, min_ℤ, pos_part}
use gemini_cpp.Base.Text.{Bytes}
use gemini_cpp.Eval.Outcome.{ProcessOptions}

-- How `poll` on the pipe comes back.
pub data Polled : Type 0 where
  ready expired interrupted failed : Polled

-- How `read` comes back; `blocked` is `EAGAIN` or another error but `EINTR`. Bytes that come are at
-- least one.
pub data Input : Type 0 where
  got : ℕ → Bytes → Input
  closed interrupted blocked : Input

-- How `waitpid` comes back for the child, and the status of one that ended.
pub data Status : Type 0 where
  exited signaled : ℤ → Status
  other : Status

pub data Waited : Type 0 where
  reaped : Status → Waited
  running interrupted : Waited
  failed : Bytes → Waited

-- What `run_process` uses of the operating system. The texts are those of `strerror`.
pub record Kernel (W : Type 0) : Type 0 where
  pub clock : W → ℤ × W
  pub open_pipe : W → Option Bytes × W
  pub close_pipe : W → W
  -- `fork`, and all that the child and the parent do before the loop
  pub spawn : ProcessOptions → W → Option Bytes × W
  pub poll : ℕ → W → Polled × W
  pub read : ℕ → W → Input × W
  pub close_input : W → W
  -- the two calls of `kill` in `kill_group`, and the one that ends what the child left behind
  pub kill_all : W → W
  pub kill_rest : W → W
  pub wait_child : W → Waited × W
  pub sleep_ms : ℕ → W → W

-- `duration_cast<milliseconds>`.
abbrev pub to_ms : ℤ → ℤ
to_ms (pos n) = pos (n / 1000000)
to_ms (negsuc n) = if ltb n 999999 then pos 0 else negsuc ((n + 1) / 1000000 - 1)

abbrev pub of_ms : ℤ → ℤ
of_ms t = t *ℤ pos 1000000

-- `remaining_ms` at the moment `now`.
unfoldable pub remaining_ms : ℤ → ℤ → ℕ
remaining_ms deadline now =
    let left = to_ms (deadline -ℤ now) in
    if not (ltb_ℤ (pos 0) left) then 0 else pos_part (min_ℤ left (pos 1000000))
