-- ===== src/Tests/References/ThreadPool.antt =====
-- tasks/thread-pool/reference.hpp: two workers and one job.
use gemini_cpp.Base.{ℕ, ◌≤◌, false, [], ◌∷◌, ◌≡◌, refl, length, ◌⊎◌}
use gemini_cpp.References.ThreadPool.{
  PoolState, away, ready, running, new_pool, submit, Step, work, Reach, start, call, call_submit,
  act,
}
use gemini_cpp.References.ThreadPool.Progress.{IsDone, is_idle-done}
use gemini_cpp.References.ThreadPool.Quiet.{Steps, none_left, more, steps_left, Steps-IsDone}

abbrev pool : PoolState ℕ
pool = submit 7 (new_pool 2)

reached : Reach 2 pool
unfolding new_pool
reached = call start (call_submit 7 refl)

-- The job is taken by the second worker, and runs.
abbrev taken : PoolState ℕ
taken = record {
  shared = record {
    queue = [];
    active = 1;
    stopping = false;
    waiter = away;
    submitted = 7 ∷ [];
    started = 7 ∷ [];
    finished = [];
  };
  workers = ready ∷ running 7 ∷ [];
  signals = 1;
  broadcast = false;
}

taken-Steps : Steps 1 pool taken
unfolding act new_pool
taken-Steps = more (work 1 refl refl) none_left

Steps-IsDone_example : (1 ≤ steps_left pool) × (((t : PoolState ℕ) × Step taken t) ⊎ IsDone taken)
Steps-IsDone_example = Steps-IsDone reached taken-Steps

is_idle-done_example : ([] ≡ (new_pool {J = ℕ} 2).shared.submitted) × (length {A = ℕ} [] ≡ 0)
unfolding new_pool
is_idle-done_example = is_idle-done {threads = 2} {p = new_pool 2} start refl
