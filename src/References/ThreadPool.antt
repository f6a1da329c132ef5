-- ===== src/References/ThreadPool.antt =====
-- tasks/thread-pool/reference.hpp: workers, callers of `submit`, one of `wait_idle` and the destructor,
-- interleaved. A step is one locked block, one job or one notification; a worker in `work_cv_.wait`
-- sleeps until it is notified, and tests its condition again then.
pub mod Sound
pub mod Invariant
pub mod Progress
pub mod Quiet
use gemini_cpp.Base.{
  ℕ, zero, suc, ◌+◌, ◌-◌, Bool, true, false, not, ◌&&◌, ◌==◌, List, [], ◌∷◌, ◌++◌, Option, none,
  some, is_empty, if◌then◌else◌, ◌≡◌, ◌≢◌, ◌<◌, map, get_elem?, set, replicate, total,
}

-- Where a worker stands in `worker_loop`: before its first locked block, waiting there, in the job,
-- before the second locked block, and after the loop.
pub data Worker (J : Type 0) : Type 0 where
  ready asleep ending exited : Worker J
  running : J → Worker J

-- The caller of `wait_idle`.
pub data Waiter : Type 0 where
  away checking blocked returned : Waiter

module _ {J : Type 0} where
  abbrev pub is_ready : Worker J → ℕ
  is_ready ready = 1
  is_ready _ = 0

  abbrev pub is_asleep : Worker J → ℕ
  is_asleep asleep = 1
  is_asleep _ = 0

  abbrev pub is_running : Worker J → ℕ
  is_running (running j) = 1
  is_running _ = 0

  abbrev pub is_busy : Worker J → ℕ
  is_busy (running j) = 1
  is_busy ending = 1
  is_busy _ = 0

  abbrev pub is_exited : Worker J → ℕ
  is_exited exited = 1
  is_exited _ = 0

-- `idle_cv_.notify_all()`.
abbrev pub wake : Waiter → Waiter
wake blocked = checking
wake w = w

-- What the mutex guards, and what happened so far: the jobs in the order of `submit`, in the order in
-- which workers took them, and in the order in which they ended.
pub record Shared (J : Type 0) : Type 0 where
  pub queue : List J
  pub active : ℕ
  pub stopping : Bool
  pub waiter : Waiter
  pub submitted : List J
  pub started : List J
  pub finished : List J

-- With the notifications that are still to be sent, of `notify_one` and of the destructor.
pub record PoolState (J : Type 0) : Type 0 where
  pub shared : Shared J
  pub workers : List (Worker J)
  pub signals : ℕ
  pub broadcast : Bool

module _ {J : Type 0} where
  abbrev pub no_jobs : Shared J
  no_jobs = record {
    queue = [];
    active = 0;
    stopping = false;
    waiter = away;
    submitted = [];
    started = [];
    finished = [];
  }

  unfoldable pub new_pool : ℕ → PoolState J
  new_pool threads = record {
    shared = no_jobs;
    workers = replicate (if threads == 0 then 1 else threads) ready;
    signals = 0;
    broadcast = false;
  }

  abbrev pub is_idle : Shared J → Bool
  is_idle s = is_empty s.queue && s.active == 0

  -- The first locked block, with the test of `work_cv_.wait`.
  abbrev pub take_job : List J → Bool → Shared J → Worker J × Shared J
  take_job [] true s = (exited, s)
  take_job [] false s = (asleep, s)
  take_job (j ∷ queue) stopping s =
      (running j, record s { queue = queue; active = s.active + 1; started = s.started ++ j ∷ [] })

  -- The second locked block.
  abbrev pub end_job : Shared J → Shared J
  end_job s =
      let s' = record s { active = s.active - 1 } in
      record s' { waiter = if is_idle s' then wake s'.waiter else s'.waiter }

  -- The next step of a worker; none if it sleeps or has left.
  unfoldable pub act : Worker J → Shared J → Option (Worker J × Shared J)
  act ready s = some (take_job s.queue s.stopping s)
  act (running j) s = some (ending, record s { finished = s.finished ++ j ∷ [] })
  act ending s = some (ready, end_job s)
  act asleep s = none
  act exited s = none

  -- The locked block of `submit`; `notify_one` comes later.
  abbrev pub submit : J → PoolState J → PoolState J
  submit j p = record p {
    shared = record p.shared {
      queue = p.shared.queue ++ j ∷ [];
      submitted = p.shared.submitted ++ j ∷ [];
    };
    signals = p.signals + 1;
  }

  -- The locked block of the destructor; `notify_all` comes later.
  abbrev pub stop : PoolState J → PoolState J
  stop p = record p { shared = record p.shared { stopping = true }; broadcast = true }

  abbrev pub woken : Worker J → Worker J
  woken asleep = ready
  woken w = w

  -- The test of `idle_cv_.wait`.
  unfoldable pub check_idle : Shared J → Shared J
  check_idle s = record s { waiter = if is_idle s then returned else blocked }

  -- What the pool does by itself.
  pub data Step (p : PoolState J) : PoolState J → Type 0 where
    work :
        (i : ℕ) {w w' : Worker J} {s : Shared J}
        → get_elem? p.workers i ≡ some w
        → act w p.shared ≡ some (w', s)
        → Step p (record p { shared = s; workers = set p.workers i w' })
    -- `notify_one` wakes one of the workers that sleep, or none if none does
    notify :
        (i : ℕ)
        → 0 < p.signals
        → get_elem? p.workers i ≡ some asleep
        → Step p (record p { workers = set p.workers i ready; signals = p.signals - 1 })
    notify_none :
        0 < p.signals
        → total is_asleep p.workers ≡ 0
        → Step p (record p { signals = p.signals - 1 })
    notify_all :
        p.broadcast ≡ true → Step p (record p { workers = map woken p.workers; broadcast = false })
    check : p.shared.waiter ≡ checking → Step p (record p { shared = check_idle p.shared })

  -- What its callers do. None calls it any more once the destructor runs.
  pub data Call (p : PoolState J) : PoolState J → Type 0 where
    call_submit : (j : J) → p.shared.stopping ≡ false → Call p (submit j p)
    call_stop : p.shared.stopping ≡ false → Call p (stop p)
    call_wait_idle :
        p.shared.stopping ≡ false
        → p.shared.waiter ≢ blocked
        → Call p (record p { shared = record p.shared { waiter = checking } })

  pub data Reach (threads : ℕ) : PoolState J → Type 0 where
    start : Reach threads (new_pool threads)
    step : {p q : PoolState J} → Reach threads p → Step p q → Reach threads q
    call : {p q : PoolState J} → Reach threads p → Call p q → Reach threads q
