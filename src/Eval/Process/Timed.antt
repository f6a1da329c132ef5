-- ===== src/Eval/Process/Timed.antt =====
-- The time that is left in `run_process` of src/eval/process.cpp, and what its end rests on.
use gemini_cpp.Base.{ℕ, ◌+◌, ◌-◌, ◌*◌, ◌/◌, ◌≤◌, ◌<◌, Bool, true, List, ◌≡◌, arith}
use gemini_cpp.Base.Int.{ℤ, pos, negsuc, pos_part, ◌+ℤ◌, ◌-ℤ◌, ◌*ℤ◌, ltb_ℤ}
use gemini_cpp.Eval.Outcome.{ProcessOptions}
use gemini_cpp.Eval.Kernel.{
  Kernel, Polled, ready, expired, Input, got, Waited, running, remaining_ms, of_ms,
}

-- Time goes on, and nothing happens but what is counted.
pub record Later {W : Type 0} (time events : W → ℕ) (killed : W → Bool) (w w' : W) : Type 0 where
  pub later : time w ≤ time w'
  pub fewer : events w' ≤ events w
  pub stays : killed w ≡ true → killed w' ≡ true

-- What a kernel does in time. `events` counts what can still keep a loop busy besides time: bytes
-- that come, signals, and the rounds until a killed child is gone.
pub record Timed {W : Type 0} (K : Kernel W) : Type 0 where
  -- nanoseconds of the steady clock
  pub time : W → ℕ
  pub events : W → ℕ
  pub killed : W → Bool
  pub clock_reads : (w : W) → (K.clock w).0 ≡ pos (time (K.clock w).1)
  pub by_clock : (w : W) → Later time events killed w (K.clock w).1
  pub by_pipe : (w : W) → Later time events killed w (K.open_pipe w).1
  pub by_spawn : (o : ProcessOptions) (w : W) → Later time events killed w (K.spawn o w).1
  pub by_poll : (n : ℕ) (w : W) → Later time events killed w (K.poll n w).1
  pub by_read : (n : ℕ) (w : W) → Later time events killed w (K.read n w).1
  pub by_close : (w : W) → Later time events killed w (K.close_input w)
  pub by_kill : (w : W) → Later time events killed w (K.kill_all w)
  pub by_wait : (w : W) → Later time events killed w (K.wait_child w).1
  pub by_sleep : (n : ℕ) (w : W) → Later time events killed w (K.sleep_ms n w)
  -- `poll` and the sleep take the time that they are given
  pub expires :
      (n : ℕ) (w : W) → (K.poll n w).0 ≡ expired → time w + n * 1000000 ≤ time (K.poll n w).1
  pub sleeps : (n : ℕ) (w : W) → time w + n * 1000000 ≤ time (K.sleep_ms n w)
  -- all else that a loop goes on after is an event
  pub wakes : (n : ℕ) (w : W) → (K.poll n w).0 ≡ ready → events (K.poll n w).1 < events w
  pub poll_signal :
      (n : ℕ) (w : W) → (K.poll n w).0 ≡ Polled.interrupted → events (K.poll n w).1 < events w
  pub comes :
      (n : ℕ) (w : W) {c : ℕ} {s : List ℕ}
      → (K.read n w).0 ≡ got c s
      → events (K.read n w).1 < events w
  pub read_signal :
      (n : ℕ) (w : W) → (K.read n w).0 ≡ Input.interrupted → events (K.read n w).1 < events w
  pub wait_signal :
      (w : W) → (K.wait_child w).0 ≡ Waited.interrupted → events (K.wait_child w).1 < events w
  pub kills : (w : W) → killed (K.kill_all w) ≡ true
  pub dies :
      (w : W)
      → killed w ≡ true
      → (K.wait_child w).0 ≡ running
      → events (K.wait_child w).1 < events w

-- The milliseconds from `t` to the deadline, rounded up.
abbrev pub left_ms : ℤ → ℕ → ℕ
left_ms deadline t = (pos_part deadline - t + 999999) / 1000000

pub remaining-le : (deadline : ℤ) (t : ℕ) → remaining_ms deadline (pos t) ≤ left_ms deadline t
unfolding remaining_ms ◌-ℤ◌
remaining-le (pos d) t = ground arith
remaining-le (negsuc d) t = ground arith

pub left_ms_later : (deadline : ℤ) (t t' : ℕ) → t ≤ t' → left_ms deadline t' ≤ left_ms deadline t
left_ms_later deadline t t' h = omega arith

pub left_ms_passed :
    (deadline : ℤ) (n t t' : ℕ)
    → t + n * 1000000 ≤ t'
    → left_ms deadline t' ≤ left_ms deadline t - n
left_ms_passed deadline n t t' h = omega arith

pub left_ms_pos : (deadline : ℤ) (t : ℕ) → ltb_ℤ (pos t) deadline ≡ true → 0 < left_ms deadline t
left_ms_pos deadline t h = ground arith

pub pos_part-of_ms : (x : ℤ) → pos_part (of_ms x) ≡ pos_part x * 1000000
unfolding ◌*ℤ◌
pos_part-of_ms (pos n) = ground arith
pos_part-of_ms (negsuc n) = ground arith

pub pos_part_add : (a b : ℤ) → pos_part (a +ℤ b) ≤ pos_part a + pos_part b
unfolding ◌+ℤ◌
pos_part_add a b = ground arith

pub left_ms_reset : (t : ℕ) (x : ℤ) → left_ms (pos t +ℤ of_ms x) t ≤ pos_part x
left_ms_reset t x = omega (arith, pos_part_add (pos t) (of_ms x), pos_part-of_ms x)

pub left_ms_graced :
    (t : ℕ) (x y : ℤ) → left_ms (pos t +ℤ of_ms x +ℤ of_ms y) t ≤ pos_part x + pos_part y
left_ms_graced t x y = omega (
  arith,
  pos_part_add (pos t) (of_ms x),
  pos_part_add (pos t +ℤ of_ms x) (of_ms y),
  pos_part-of_ms x,
  pos_part-of_ms y,
)
