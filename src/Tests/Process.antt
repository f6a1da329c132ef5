-- ===== src/Tests/Process.antt =====
-- `run_process` of src/eval/process.cpp on a small kernel: a script of what the child writes.
use gemini_cpp.Base.{
  ℕ, zero, suc, ◌+◌, ◌*◌, ◌<◌, Bool, true, false, List, [], ◌∷◌, ◌++◌, Option, none, some, ◌≡◌,
  refl, sym, append-nil, arith, ◌⊎◌, inl, inr, take, ltb, length, ◌≤◌, ◌≢◌,
}
use gemini_cpp.Base.Int.{ℤ, pos}
use gemini_cpp.Base.Search.{find}
use gemini_cpp.Base.Text.{Bytes, codes}
use gemini_cpp.Error.{Error}
use gemini_cpp.Eval.Outcome.{ProcessOptions, ProcessResult}
use gemini_cpp.Eval.Kernel.{Kernel, Polled, ready, expired, Input, got, closed, reaped, exited}
use gemini_cpp.Eval.Process.{run_process, drain, no_result}
use gemini_cpp.Eval.Process.Capture.{Marked}
use gemini_cpp.Eval.Process.Journal.{Journal, bytes_of, run_process-plain, run_process-Marked}
use gemini_cpp.Eval.Process.Timed.{Timed, Later}
use gemini_cpp.Eval.Process.Returns.{run_process-ends, drain_endless}

record Sim : Type 0 where
  time : ℕ
  -- how often a call still returns at once
  steps : ℕ
  killed : Bool
  chunks : List Bytes
  received : Bytes

abbrev idle : ℕ → Sim → Sim
idle n w = record w { time = w.time + n * 1000000 }

abbrev poll_by : ℕ → ℕ → Sim → Polled × Sim
poll_by zero n w = (expired, idle n w)
poll_by (suc k) n w = (ready, record w { steps = k })

abbrev read_by : ℕ → List Bytes → Sim → Input × Sim
read_by (suc k) ((c ∷ s) ∷ more) w =
    (got c s, record w { steps = k; chunks = more; received = w.received ++ c ∷ s })
read_by _ _ w = (closed, w)

abbrev sim : Kernel Sim
sim = record {
  clock = λ w. (pos w.time, w);
  open_pipe = λ w. (none, w);
  close_pipe = λ w. w;
  spawn = λ o w. (none, record w { received = [] });
  poll = λ n w. poll_by w.steps n w;
  read = λ n w. read_by w.steps w.chunks w;
  close_input = λ w. w;
  kill_all = λ w. record w { killed = true };
  kill_rest = λ w. w;
  wait_child = λ w. (reaped (exited (pos 3)), w);
  sleep_ms = idle;
}

abbrev options : ProcessOptions
options = record {
  argv = codes "child" ∷ [];
  cwd = [];
  timeout_ms = pos 2;
  max_output_bytes = 5;
  memory_limit_bytes = none;
  start_marker = [];
  startup_grace = pos 1;
}

abbrev marked_options : ProcessOptions
marked_options = record options { start_marker = codes "go!"; max_output_bytes = 20 }

abbrev begin : List Bytes → Sim
begin chunks = record { time = 7; steps = 6; killed = false; chunks = chunks; received = [] }

abbrev result_of : Bool → Bytes → Option ℤ → ProcessResult
result_of truncated output startup = record no_result {
  exit_code = pos 3;
  output_truncated = truncated;
  output = output;
  startup = startup;
}

abbrev ended : Bytes → ℕ → Sim
ended received steps = record {
  time = 7;
  steps = steps;
  killed = false;
  chunks = [];
  received = received;
}

too_long :
    run_process sim options 40 (begin (codes "abc" ∷ codes "defg" ∷ []))
    ≡ some (inr (result_of true (codes "abcde") none), ended (codes "abcdefg") 3)
unfolding run_process
too_long = refl

-- The marker is cut into two reads.
cut_marker :
    run_process sim marked_options 40 (begin (codes "> g" ∷ codes "o!run" ∷ []))
    ≡ some (inr (result_of false (codes "> run") (some (pos 0))), ended (codes "> go!run") 3)
unfolding run_process
cut_marker = refl

read_by-received :
    (k : ℕ) (l : List Bytes) (w : Sim)
    → (read_by k l w).1.received ≡ w.received ++ bytes_of (read_by k l w).0
read_by-received zero [] w = sym (append-nil w.received)
read_by-received zero (s ∷ l) w = sym (append-nil w.received)
read_by-received (suc k) [] w = sym (append-nil w.received)
read_by-received (suc k) ([] ∷ l) w = sym (append-nil w.received)
read_by-received (suc k) ((c ∷ s) ∷ l) w = refl

poll_by-received : (k n : ℕ) (w : Sim) → (poll_by k n w).1.received ≡ w.received
poll_by-received zero n w = refl
poll_by-received (suc k) n w = refl

abbrev sim_journal : Journal sim
sim_journal = record {
  received = λ w. w.received;
  by_spawn = λ o w. refl;
  by_read = λ n w. read_by-received w.steps w.chunks w;
  by_clock = λ w. refl;
  by_poll = λ n w. poll_by-received w.steps n w;
  by_close = λ w. refl;
  by_kill_all = λ w. refl;
  by_kill_rest = λ w. refl;
  by_wait = λ w. refl;
  by_sleep = λ n w. refl;
}

abbrev LaterSim : Sim → Sim → Type 0
LaterSim = Later (λ w. w.time) (λ w. w.steps) (λ w. w.killed)

stay : (w : Sim) → LaterSim w w
stay w = record { later = omega arith; fewer = omega arith; stays = λ h. h }

poll_by-Later : (k n : ℕ) (w : Sim) → w.steps ≡ k → LaterSim w (poll_by k n w).1
poll_by-Later zero n w e = record { later = omega arith; fewer = omega arith; stays = λ h. h }
poll_by-Later (suc k) n w e = record { later = omega arith; fewer = omega arith; stays = λ h. h }

poll_by-ready :
    (k n : ℕ) (w : Sim)
    → w.steps ≡ k
    → (poll_by k n w).0 ≡ ready
    → (poll_by k n w).1.steps < w.steps
poll_by-ready zero n w e h = absurd (ground arith)
poll_by-ready (suc k) n w e h = omega arith

poll_by-expired :
    (k n : ℕ) (w : Sim)
    → (poll_by k n w).0 ≡ expired
    → w.time + n * 1000000 ≤ (poll_by k n w).1.time
poll_by-expired zero n w h = omega arith
poll_by-expired (suc k) n w h = absurd (ground arith)

poll_by-ne-interrupted : (k n : ℕ) (w : Sim) → (poll_by k n w).0 ≢ Polled.interrupted
poll_by-ne-interrupted zero n w h = ground arith
poll_by-ne-interrupted (suc k) n w h = ground arith

-- A `read` that returns bytes takes a step; any other changes nothing.
read_by-cases :
    (k : ℕ) (l : List Bytes) (w : Sim)
    → w.steps ≡ k
    → ((read_by k l w).0 ≢ Input.interrupted)
      × LaterSim w (read_by k l w).1
      × (((read_by k l w).0 ≡ closed) ⊎ ((read_by k l w).1.steps < w.steps))
read_by-cases zero [] w e = ((λ h. ground arith), stay w, inl refl)
read_by-cases zero (s ∷ l) w e = ((λ h. ground arith), stay w, inl refl)
read_by-cases (suc k) [] w e = ((λ h. ground arith), stay w, inl refl)
read_by-cases (suc k) ([] ∷ l) w e = ((λ h. ground arith), stay w, inl refl)
read_by-cases (suc k) ((c ∷ s) ∷ l) w e = (
  (λ h. ground arith),
  record { later = omega arith; fewer = omega arith; stays = λ h. h },
  inr (omega arith),
)

got_step : {i : Input} {n m c : ℕ} {s : Bytes} → (i ≡ closed) ⊎ (n < m) → i ≡ got c s → n < m
got_step (inl e) h = absurd (ground arith)
got_step (inr lt) h = lt

abbrev sim_timed : Timed sim
sim_timed = record {
  time = λ w. w.time;
  events = λ w. w.steps;
  killed = λ w. w.killed;
  clock_reads = λ w. refl;
  by_clock = stay;
  by_pipe = stay;
  by_spawn = λ o w. record { later = omega arith; fewer = omega arith; stays = λ h. h };
  by_poll = λ n w. poll_by-Later w.steps n w refl;
  by_read = λ n w. (read_by-cases w.steps w.chunks w refl).1;
  by_close = stay;
  by_kill = λ w. record { later = omega arith; fewer = omega arith; stays = λ h. refl };
  by_wait = stay;
  by_sleep = λ n w. record { later = omega arith; fewer = omega arith; stays = λ h. h };
  expires = λ n w h. poll_by-expired w.steps n w h;
  sleeps = λ n w. omega arith;
  wakes = λ n w h. poll_by-ready w.steps n w refl h;
  poll_signal = λ n w h. absurd (poll_by-ne-interrupted w.steps n w h);
  comes = λ n w h. got_step (read_by-cases w.steps w.chunks w refl).2 h;
  read_signal = λ n w h. absurd ((read_by-cases w.steps w.chunks w refl).0 h);
  wait_signal = λ w h. absurd (ground arith);
  kills = λ w. refl;
  dies = λ w k h. absurd (ground arith);
}

run_process-plain_example :
    (codes "abcde" ≡ take 5 (codes "abcdefg")) × (true ≡ ltb 5 (length (codes "abcdefg")))
run_process-plain_example =
    run_process-plain sim options sim_journal 40 (begin (codes "abc" ∷ codes "defg" ∷ [])) refl
      too_long

run_process-Marked_example :
    (false ≡ false)
    × Marked marked_options
        (codes "> go!run")
        (result_of false (codes "> run") (some (pos 0)))
        (find (codes "> go!run") (codes "go!"))
run_process-Marked_example =
    run_process-Marked sim marked_options sim_journal 40 (begin (codes "> g" ∷ codes "o!run" ∷ []))
      refl cut_marker (omega arith)

run_process-ends_example :
    (out : (Error ⊎ ProcessResult) × Sim) × (run_process sim options 40 (begin (codes "abc" ∷ []))
      ≡ some out)
run_process-ends_example =
    run_process-ends sim options sim_timed 40 (begin (codes "abc" ∷ [])) (omega arith)

abbrev talker : Kernel Sim
talker = record sim { read = λ n w. (got b'y' [], w) }

drain_endless_example :
    drain talker options
      (pos 0)
      100
      (record { result = no_result; deadline = pos 0; world = begin [] })
    ≡ none
drain_endless_example =
    drain_endless talker options (λ n w. tt) (pos 0) 100
      (record { result = no_result; deadline = pos 0; world = begin [] })
