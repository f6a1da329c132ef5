-- ===== src/References/ThreadPool/Sound.antt =====
-- tasks/thread-pool/reference.hpp: an invariant, and the steps of a worker keep it.
use gemini_cpp.Base.{
  ℕ, zero, suc, ◌+◌, ◌-◌, ◌≤◌, ◌<◌, Bool, true, false, ◌==◌, List, [], ◌∷◌, ◌++◌, Option, some,
  is_empty, if◌then◌else◌, ◌≡◌, refl, sym, subst, ◌&&◌, ◌∙◌, ap, get_elem?, set, total, total-set,
  length-set, length-replicate, total-replicate, length, length-append, arith, ◌⊎◌, inl, inr,
  append_assoc,
}
use mathlib.Core.Option.{some-injective}
use gemini_cpp.References.ThreadPool.{
  Worker, ready, asleep, ending, exited, running, Waiter, away, checking, blocked, returned,
  is_ready, is_asleep, is_running, is_busy, is_exited, Shared, PoolState, new_pool, wake, take_job,
  end_job, act,
}

module _ {J : Type 0} where
  abbrev pub count : (Worker J → ℕ) → PoolState J → ℕ
  count w p = total w p.workers

  pub record IsSound (p : PoolState J) : Type 0 where
    -- `active_` is the number of workers between the two locked blocks
    pub busy : p.shared.active ≡ count is_busy p
    -- jobs are taken in the order of `submit`
    pub in_order : p.shared.started ++ p.shared.queue ≡ p.shared.submitted
    pub ran : length p.shared.finished + count is_running p ≡ length p.shared.started
    -- no wake-up is lost
    pub heard : (count is_asleep p ≡ 0) ⊎ (length p.shared.queue ≤ p.signals + count is_ready p)
    pub told : p.shared.stopping ≡ true → (p.broadcast ≡ true) ⊎ (count is_asleep p ≡ 0)
    -- a worker leaves only once the queue is empty for good
    pub left : (count is_exited p ≡ 0) ⊎ ((p.shared.stopping ≡ true) × (length p.shared.queue ≡ 0))
    pub staffed : 0 < length p.workers
    -- the caller of `wait_idle` is blocked only while there is work
    pub waits : p.shared.waiter ≡ blocked → 0 < length p.shared.queue + p.shared.active

  pub new_pool-IsSound : (threads : ℕ) → IsSound (new_pool threads)
  unfolding new_pool
  new_pool-IsSound threads =
      let n = if threads == 0 then 1 else threads in
      record {
        busy = sym (total-replicate is_busy n ready refl);
        in_order = refl;
        ran = omega (arith, total-replicate is_running n ready refl);
        heard = inl (total-replicate is_asleep n ready refl);
        told = λ e. absurd (ground arith);
        left = inl (total-replicate is_exited n ready refl);
        staffed = ground (arith, length-replicate {A = Worker J} n ready);
        waits = λ e. absurd (ground arith);
      }

  -- One worker goes from `w` to `w'`, and the other counts stay.
  abbrev Moves : (Worker J → ℕ) → PoolState J → ℕ → Worker J → Worker J → Type 0
  Moves c p i w w' = total c (set p.workers i w') + c w ≡ count c p + c w'

  take-IsSound :
      (p : PoolState J) (i : ℕ) (queue : List J) (stopping : Bool)
      → get_elem? p.workers i ≡ some ready
      → p.shared.queue ≡ queue
      → p.shared.stopping ≡ stopping
      → IsSound p
      → let (w, s) = take_job queue stopping p.shared in
        IsSound (record p { shared = s; workers = set p.workers i w })
  take-IsSound p i [] true at e f h = record {
    busy = omega (arith, h.busy, total-set is_busy p.workers i exited at);
    in_order = h.in_order;
    ran = omega (arith, h.ran, total-set is_running p.workers i exited at);
    heard = inr (omega (arith, ap length e));
    told = ground (arith, total-set is_asleep p.workers i exited at);
    left = inr (f, omega (arith, ap length e));
    staffed = omega (arith, h.staffed, length-set p.workers i exited);
    waits = h.waits;
  }
  take-IsSound p i [] false at e f h = record {
    busy = omega (arith, h.busy, total-set is_busy p.workers i asleep at);
    in_order = h.in_order;
    ran = omega (arith, h.ran, total-set is_running p.workers i asleep at);
    heard = inr (omega (arith, ap length e));
    told = λ t. absurd (ground arith);
    left = ground (arith, total-set is_exited p.workers i asleep at);
    staffed = omega (arith, h.staffed, length-set p.workers i asleep);
    waits = h.waits;
  }
  take-IsSound p i (j ∷ queue) stopping at e f h = record {
    busy = omega (arith, h.busy, total-set is_busy p.workers i (running j) at);
    in_order =
        append_assoc p.shared.started (j ∷ []) queue
        ∙ ap (λ q. p.shared.started ++ q) (sym e)
        ∙ h.in_order;
    ran = omega (
      arith,
      h.ran,
      total-set is_running p.workers i (running j) at,
      length-append p.shared.started (j ∷ []),
    );
    heard = ground (
      arith,
      total-set is_asleep p.workers i (running j) at,
      total-set is_ready p.workers i (running j) at,
      ap length e,
    );
    told = ground (arith, total-set is_asleep p.workers i (running j) at);
    left = ground (arith, total-set is_exited p.workers i (running j) at, ap length e);
    staffed = omega (arith, h.staffed, length-set p.workers i (running j));
    waits = λ b. omega arith;
  }

  run-IsSound :
      (p : PoolState J) (i : ℕ) (j : J)
      → get_elem? p.workers i ≡ some (running j)
      → IsSound p
      → IsSound (record p {
        shared = record p.shared { finished = p.shared.finished ++ j ∷ [] };
        workers = set p.workers i ending;
      })
  run-IsSound p i j at h = record {
    busy = omega (arith, h.busy, total-set is_busy p.workers i ending at);
    in_order = h.in_order;
    ran = omega (
      arith,
      h.ran,
      total-set is_running p.workers i ending at,
      length-append p.shared.finished (j ∷ []),
    );
    heard = ground (
      arith,
      total-set is_asleep p.workers i ending at,
      total-set is_ready p.workers i ending at,
    );
    told = ground (arith, total-set is_asleep p.workers i ending at);
    left = ground (arith, total-set is_exited p.workers i ending at);
    staffed = omega (arith, h.staffed, length-set p.workers i ending);
    waits = h.waits;
  }

  idle_lem :
      (queue : List J) (active : ℕ) (w : Waiter)
      → (if is_empty queue && active == 0 then wake w else w) ≡ blocked
      → 0 < length queue + active
  idle_lem [] zero away e = absurd (ground arith)
  idle_lem [] zero checking e = absurd (ground arith)
  idle_lem [] zero blocked e = absurd (ground arith)
  idle_lem [] zero returned e = absurd (ground arith)
  idle_lem [] (suc n) w e = omega arith
  idle_lem (j ∷ queue) active w e = omega arith

  end-IsSound :
      (p : PoolState J) (i : ℕ)
      → get_elem? p.workers i ≡ some ending
      → IsSound p
      → IsSound (record p { shared = end_job p.shared; workers = set p.workers i ready })
  end-IsSound p i at h = record {
    busy = omega (arith, h.busy, total-set is_busy p.workers i ready at);
    in_order = h.in_order;
    ran = omega (arith, h.ran, total-set is_running p.workers i ready at);
    heard =
        ground (
          arith,
          total-set is_asleep p.workers i ready at,
          total-set is_ready p.workers i ready at,
        );
    told = ground (arith, total-set is_asleep p.workers i ready at);
    left = ground (arith, total-set is_exited p.workers i ready at);
    staffed = omega (arith, h.staffed, length-set p.workers i ready);
    waits = idle_lem p.shared.queue (p.shared.active - 1) p.shared.waiter;
  }

  by_result :
      (p : PoolState J) (i : ℕ) {w w' : Worker J} {s s' : Shared J}
      → ◌≡◌ {A = Option (Worker J × Shared J)} (some (w, s)) (some (w', s'))
      → IsSound (record p { shared = s; workers = set p.workers i w })
      → IsSound (record p { shared = s'; workers = set p.workers i w' })
  by_result p i e h =
      subst
        (λ (r : Worker J × Shared J).
          IsSound (record p { shared = r.1; workers = set p.workers i r.0 }))
        (some-injective _ _ e) h

  pub work-IsSound :
      (p : PoolState J) (i : ℕ) (w w' : Worker J) (s : Shared J)
      → get_elem? p.workers i ≡ some w
      → act w p.shared ≡ some (w', s)
      → IsSound p
      → IsSound (record p { shared = s; workers = set p.workers i w' })
  unfolding act
  work-IsSound p i ready w' s at e h =
      by_result p i e (take-IsSound p i p.shared.queue p.shared.stopping at refl refl h)
  work-IsSound p i (running j) w' s at e h = by_result p i e (run-IsSound p i j at h)
  work-IsSound p i ending w' s at e h = by_result p i e (end-IsSound p i at h)
  work-IsSound p i asleep w' s at e h = absurd (ground arith)
  work-IsSound p i exited w' s at e h = absurd (ground arith)
