-- ===== src/References/ThreadPool/Progress.antt =====
-- tasks/thread-pool/reference.hpp: a state in which the pool can do nothing by itself
-- is one in which all is done.
use gemini_cpp.Base.{
  ℕ, zero, suc, ◌+◌, ◌≤◌, true, false, ◌&&◌, ◌==◌, List, [], ◌∷◌, ◌++◌, some, is_empty, ◌≡◌, ◌≢◌,
  refl, sym, ◌∙◌, ap, get_elem?, total, length, arith, ◌⊎◌, inl, inr, append-nil, Bool-cases,
}
use gemini_cpp.References.ThreadPool.{
  Worker, ready, asleep, ending, exited, running, blocked, is_ready, is_asleep, is_running, is_busy,
  is_exited, Shared, PoolState, is_idle, act, Step, work, notify, notify_none, notify_all, Reach,
}
use gemini_cpp.References.ThreadPool.Invariant.{Reach-IsSound}
use gemini_cpp.References.ThreadPool.Sound.{count, IsSound}

module _ {J : Type 0} where
  -- A sleeping worker, if there is one.
  abbrev Found : List (Worker J) → Type 0
  Found ws = (total is_asleep ws ≡ 0) ⊎ ((i : ℕ) × (get_elem? ws i ≡ some asleep))

  found_later : (w : Worker J) (ws : List (Worker J)) → is_asleep w ≡ 0 → Found ws → Found (w ∷ ws)
  found_later w ws e (inl h) = inl (omega arith)
  found_later w ws e (inr (i, h)) = inr (suc i, h)

  find_asleep : (ws : List (Worker J)) → Found ws
  find_asleep [] = inl refl
  find_asleep (asleep ∷ ws) = inr (0, refl)
  find_asleep (ready ∷ ws) = found_later ready ws refl (find_asleep ws)
  find_asleep (running j ∷ ws) = found_later (running j) ws refl (find_asleep ws)
  find_asleep (ending ∷ ws) = found_later ending ws refl (find_asleep ws)
  find_asleep (exited ∷ ws) = found_later exited ws refl (find_asleep ws)

  -- Everybody is somewhere.
  places :
      (ws : List (Worker J))
      → total is_ready ws + total is_asleep ws + total is_busy ws + total is_exited ws ≡ length ws
  places [] = refl
  places (ready ∷ ws) = omega (arith, places ws)
  places (asleep ∷ ws) = omega (arith, places ws)
  places (running j ∷ ws) = omega (arith, places ws)
  places (ending ∷ ws) = omega (arith, places ws)
  places (exited ∷ ws) = omega (arith, places ws)

  pub running-le : (ws : List (Worker J)) → total is_running ws ≤ total is_busy ws
  running-le [] = omega arith
  running-le (ready ∷ ws) = omega (arith, running-le ws)
  running-le (asleep ∷ ws) = omega (arith, running-le ws)
  running-le (running j ∷ ws) = omega (arith, running-le ws)
  running-le (ending ∷ ws) = omega (arith, running-le ws)
  running-le (exited ∷ ws) = omega (arith, running-le ws)

  -- At rest: the queue is empty, every submitted job was taken in the order of `submit` and has ended,
  -- and the caller of `wait_idle` is not blocked; if the destructor runs, every worker has left.
  pub record IsDone (p : PoolState J) : Type 0 where
    pub no_queue : p.shared.queue ≡ []
    pub all_started : p.shared.started ≡ p.shared.submitted
    pub all_finished : length p.shared.finished ≡ length p.shared.submitted
    pub none_active : p.shared.active ≡ 0
    pub not_blocked : p.shared.waiter ≢ blocked
    pub all_left : p.shared.stopping ≡ true → count is_exited p ≡ length p.workers

  -- A worker that can go on, or nobody works.
  abbrev CanWork : Shared J → List (Worker J) → Type 0
  CanWork s ws =
      ((i : ℕ) × (w : Worker J) × (r : Worker J × Shared J) × (get_elem? ws i ≡ some w)
        × (act w s ≡ some r))
      ⊎ ((total is_ready ws ≡ 0) × (total is_busy ws ≡ 0))

  can_later :
      (s : Shared J) (w : Worker J) (ws : List (Worker J))
      → is_ready w ≡ 0
      → is_busy w ≡ 0
      → CanWork s ws
      → CanWork s (w ∷ ws)
  can_later s w ws e f (inl (i, u, r, at, a)) = inl (suc i, u, r, at, a)
  can_later s w ws e f (inr (h, k)) = inr (omega arith, omega arith)

  find_worker : (s : Shared J) (ws : List (Worker J)) → CanWork s ws
  unfolding act
  find_worker s [] = inr (refl, refl)
  find_worker s (ready ∷ ws) = inl (0, ready, _, refl, refl)
  find_worker s (running j ∷ ws) = inl (0, running j, _, refl, refl)
  find_worker s (ending ∷ ws) = inl (0, ending, _, refl, refl)
  find_worker s (asleep ∷ ws) = can_later s asleep ws refl refl (find_worker s ws)
  find_worker s (exited ∷ ws) = can_later s exited ws refl refl (find_worker s ws)

  empty_lem : (q : List J) → length q ≡ 0 → q ≡ []
  empty_lem [] h = refl
  empty_lem (j ∷ q) h = absurd (omega arith)

  find_signal :
      (p : PoolState J) (n : ℕ) → p.signals ≡ n → ((q : PoolState J) × Step p q) ⊎ (p.signals ≡ 0)
  find_signal p zero e = inr e
  find_signal p (suc n) e = elim (find_asleep p.workers) [
    | inl awake ↦ inl (_, notify_none (omega arith) awake)
    | inr (i, at) ↦ inl (_, notify i (omega arith) at)
  ]

  no_queue :
      (p : PoolState J)
      → IsSound p
      → p.signals ≡ 0
      → count is_ready p ≡ 0
      → count is_busy p ≡ 0
      → length p.shared.queue ≡ 0
  no_queue p h s r b = ground (arith, places p.workers)

  done_lem :
      (p : PoolState J)
      → IsSound p
      → p.signals ≡ 0
      → p.broadcast ≡ false
      → count is_ready p ≡ 0
      → count is_busy p ≡ 0
      → IsDone p
  done_lem p h s quiet r b =
      let q = empty_lem p.shared.queue (no_queue p h s r b) in
      let started : p.shared.started ≡ p.shared.submitted =
        sym (append-nil p.shared.started) ∙ ap (λ l. p.shared.started ++ l) (sym q) ∙ h.in_order in
      record {
        no_queue = q;
        all_started = started;
        all_finished = omega (arith, h.ran, running-le p.workers, ap length started);
        none_active = h.busy ∙ b;
        not_blocked = λ e. omega (arith, h.waits e, ap length q, h.busy);
        all_left = λ e. elim (h.told e) [
          | inl pending ↦ absurd (ground arith)
          | inr awake ↦ omega (arith, places p.workers)
        ];
      }

  -- A state that is not done has a next step.
  pub progress : (p : PoolState J) → IsSound p → ((q : PoolState J) × Step p q) ⊎ IsDone p
  progress p h = elim (find_signal p p.signals refl) [
    | inl next ↦ inl next
    | inr s ↦ elim (Bool-cases p.broadcast) [
      | inl b ↦ inl (_, notify_all b)
      | inr quiet ↦ elim (find_worker p.shared p.workers) [
        | inl (i, w, r, at, a) ↦ inl (_, work i at a)
        | inr (none_ready, none_busy) ↦ inr (done_lem p h s quiet none_ready none_busy)
      ]
    ]
  ]

  idle_parts :
      (queue : List J) (active : ℕ)
      → (is_empty queue && active == 0) ≡ true
      → (queue ≡ []) × (active ≡ 0)
  idle_parts [] active e = (refl, ground arith)
  idle_parts (j ∷ queue) active e = absurd (ground arith)

  -- When the condition of `wait_idle` holds, every job that was submitted has been taken, in order, and
  -- has ended.
  pub is_idle-done :
      {threads : ℕ} {p : PoolState J}
      → Reach threads p
      → is_idle p.shared ≡ true
      → (p.shared.started ≡ p.shared.submitted)
        × (length p.shared.finished ≡ length p.shared.submitted)
  is_idle-done {p = p} r e =
      let h = Reach-IsSound r in
      let (q, b) = idle_parts p.shared.queue p.shared.active e in
      let started : p.shared.started ≡ p.shared.submitted =
        sym (append-nil p.shared.started) ∙ ap (λ l. p.shared.started ++ l) (sym q) ∙ h.in_order in
      (started, omega (arith, h.ran, h.busy, running-le p.workers, ap length started))
