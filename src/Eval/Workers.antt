-- ===== src/Eval/Workers.antt =====
-- src/eval/runner.cpp: the workers of `Runner::run` as a step relation. A worker takes the next index by
-- an atomic `fetch_add`; it stops at the first index that is no task; and it reports a finished task
-- under a lock. `R` is the result of a task.
pub mod Phases
pub mod Schedule
use gemini_cpp.Base.{ℕ, zero, suc, ◌+◌, ◌≤◌, ◌<◌, leb, List, [], ◌∷◌, ◌++◌, if◌then◌else◌}
use gemini_cpp.Base.Int.{ℤ, pos_part}

pub data Phase : Type 0 where
  fetching : Phase
  running : ℕ → Phase
  stopped : Phase

-- `next`, the workers, and the tasks that were reported, with the results in their slots.
pub record Pool (R : Type 0) : Type 0 where
  pub next : ℕ
  pub workers : List Phase
  pub reported : List (ℕ × R)

abbrev pub repeat_phase : ℕ → Phase → List Phase
repeat_phase zero p = []
repeat_phase (suc n) p = p ∷ repeat_phase n p

-- `min(jobs, tasks.size())` threads, after the constructor's clamp of `jobs`, or the calling thread.
unfoldable pub worker_count : ℤ → ℕ → ℕ
worker_count jobs tasks =
    let wanted = if leb (pos_part jobs) 1 then 1 else pos_part jobs in
    let count = if leb wanted tasks then wanted else tasks in if leb count 1 then 1 else count

unfoldable pub start_pool : {R : Type 0} → ℤ → ℕ → Pool R
unfolding worker_count
start_pool jobs tasks = record {
  next = 0;
  workers = repeat_phase (worker_count jobs tasks) fetching;
  reported = [];
}

-- One step of one worker, with `n` tasks.
pub data Step {R : Type 0} (n : ℕ) : Pool R → Pool R → Type 0 where
  take_task :
      (before after : List Phase) (i : ℕ) (log : List (ℕ × R))
      → i < n
      → Step n
          (record { next = i; workers = before ++ fetching ∷ after; reported = log })
          (record { next = suc i; workers = before ++ running i ∷ after; reported = log })
  no_task :
      (before after : List Phase) (i : ℕ) (log : List (ℕ × R))
      → n ≤ i
      → Step n
          (record { next = i; workers = before ++ fetching ∷ after; reported = log })
          (record { next = suc i; workers = before ++ stopped ∷ after; reported = log })
  report_task :
      (before after : List Phase) (next i : ℕ) (r : R) (log : List (ℕ × R))
      → Step n
          (record { next = next; workers = before ++ running i ∷ after; reported = log })
          (record {
            next = next;
            workers = before ++ fetching ∷ after;
            reported = log ++ (i, r) ∷ [];
          })

-- Any number of steps.
pub data Steps {R : Type 0} (n : ℕ) : ℕ → Pool R → Pool R → Type 0 where
  here : (p : Pool R) → Steps n 0 p p
  later : {k : ℕ} (p q r : Pool R) → Step n p q → Steps n k q r → Steps n (suc k) p r
