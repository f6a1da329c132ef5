-- ===== src/Eval/Process/Reaps.antt =====
-- `run_process` of src/eval/process.cpp: the wait for the child ends.
use gemini_cpp.Base.{
  ℕ, zero, suc, ◌+◌, ◌-◌, ◌*◌, ◌≤◌, ◌<◌, Bool, true, false, ◌∷◌, Option, none, some, if◌then◌else◌,
  ◌≡◌, refl, sym, subst, arith, Bool-cases, ◌⊎◌, inl, inr, not,
}
use gemini_cpp.Base.Int.{ℤ, ltb_ℤ}
use gemini_cpp.Base.Text.{Bytes}
use gemini_cpp.Eval.Outcome.{ProcessOptions}
use gemini_cpp.Eval.Kernel.{Kernel, Status, Waited, reaped, Input, got, closed, blocked, running}
use gemini_cpp.Eval.Process.{
  Pump, keep_bytes, store, if_found, kill_group, enforce, rest, after_wait, reap, buffer_size,
}
use gemini_cpp.Eval.Process.Loops.{IsKept, taken}
use gemini_cpp.Eval.Process.Timed.{
  Timed, Later, left_ms, left_ms_later, left_ms_passed, left_ms_pos,
}
use gemini_cpp.Eval.Process.Ends.{Gives, budget_ms, left, Calm}

module _ {W : Type 0} (K : Kernel W) (options : ProcessOptions) (C : Timed K) where
  -- A child whose time was over has been killed.
  abbrev pub Dead : Pump W → Type 0
  Dead p = p.result.timed_out ≡ true → C.killed p.world ≡ true

  if_found-Dead :
      (start : ℤ) (b : Bool) (found : Option ℕ) (p : Pump W)
      → Dead p
      → Dead (if_found K options start b found p)
  if_found-Dead start false found p h = h
  if_found-Dead start true none p h = h
  if_found-Dead start true (some at) p h = λ e. (C.by_clock p.world).stays (h e)

  taken-Dead :
      (start : ℤ) (p : Pump W) (read : Input × W)
      → (C.killed p.world ≡ true → C.killed read.1 ≡ true)
      → Dead p
      → Dead (taken K options start p read)
  unfolding keep_bytes
  taken-Dead start p (got c s, w) k h =
      if_found-Dead start _ _ (store K options (c ∷ s) (record p { world = w })) (λ e. k (h e))
  taken-Dead start p (closed, w) k h = λ e. k (h e)
  taken-Dead start p (Input.interrupted, w) k h = λ e. k (h e)
  taken-Dead start p (blocked, w) k h = λ e. k (h e)

  pub Dead-kept : (start : ℤ) → IsKept K options start Dead
  Dead-kept start = record {
    by_clock = λ p h e. (C.by_clock p.world).stays (h e);
    by_poll = λ n p h e. (C.by_poll n p.world).stays (h e);
    by_read = λ p h. taken-Dead start p _ (C.by_read buffer_size p.world).stays h;
    by_kill = λ p h e. C.kills p.world;
    by_wait = λ p h e. (C.by_wait p.world).stays (h e);
    by_sleep = λ p h e. (C.by_sleep 2 p.world).stays (h e);
  }

  -- The rounds until the child is gone: one for each event, and those until its deadline.
  abbrev pub cost : Bool → ℕ → ℕ
  cost true l = 0
  cost false l = l + 1

  abbrev pub rounds : ℕ → Pump W → ℕ
  rounds n p = n * (budget_ms K options C + 2) + cost p.result.timed_out (left K options C p)

  -- A pause of a child that still has time brings the deadline nearer, or kills it.
  abbrev Paused : Bool → Pump W → ℕ → Pump W → Type 0
  Paused b p n r =
      Calm K options C n r
      × Dead r
      × (cost r.result.timed_out (left K options C r) + cost b 0 ≤ cost b (left K options C p))

  abbrev slept : Pump W → Pump W
  slept q = record q { world = K.sleep_ms 2 q.world }

  slept-Paused :
      (p q : Pump W) (n : ℕ)
      → Calm K options C n p
      → q.deadline ≡ p.deadline
      → C.time p.world ≤ C.time q.world
      → C.events q.world ≤ C.events p.world
      → Dead q
      → (q.result.timed_out ≡ true) ⊎ ((q.result.timed_out ≡ false) × (0 < left K options C q))
      → Paused false p n (slept q)
  slept-Paused p q n h d t e dead over =
      let later = (C.by_sleep 2 q.world).later in
      let near : left K options C q ≤ left K options C p =
        subst (λ x. left_ms x (C.time q.world) ≤ left K options C p) (sym d)
          (left_ms_later p.deadline _ _ t) in
      let nearer : left K options C (slept q) ≤ left K options C q - 2 =
        left_ms_passed q.deadline 2 _ _ (C.sleeps 2 q.world) in
      (
        (omega (arith, h.0), omega (arith, h.1, (C.by_sleep 2 q.world).fewer)),
        (λ k. (C.by_sleep 2 q.world).stays (dead k)),
        elim over [ inl k ↦ rw k (omega arith) | inr (k, more) ↦ rw k (omega arith) ],
      )

  late_or_not :
      (b : Bool) (p x y : Pump W) (n : ℕ)
      → (b ≡ false → Paused false p n (slept x))
      → (b ≡ true → Paused false p n (slept y))
      → Paused false p n (slept (if not b then x else y))
  late_or_not true p x y n f g = g refl
  late_or_not false p x y n f g = f refl

  enforce-Paused :
      (b : Bool) (p : Pump W) (n : ℕ)
      → p.result.timed_out ≡ b
      → Calm K options C n p
      → Dead p
      → Paused b p n (slept (enforce K options b p))
  enforce-Paused true p n e h dead = (
    (
      omega (arith, h.0, left_ms_later p.deadline _ _ (C.by_sleep 2 p.world).later),
      omega (arith, h.1, (C.by_sleep 2 p.world).fewer),
    ),
    (λ k. (C.by_sleep 2 p.world).stays (dead k)),
    rw e (omega arith),
  )
  enforce-Paused false p n e h dead =
      let c = C.by_clock p.world in
      let w = (K.clock p.world).1 in
      let q = record p { world = w } in
      let k = C.by_kill w in
      late_or_not (ltb_ℤ (K.clock p.world).0 p.deadline) p (kill_group K options q) q n
        (λ _.
          slept-Paused p (kill_group K options q) n h refl (omega (arith, c.later, k.later))
            (omega (arith, c.fewer, k.fewer)) (λ _. C.kills w) (inl refl))
        (λ early.
          slept-Paused p q n h refl c.later c.fewer (λ t. c.stays (dead t))
            (inr (
              e,
              left_ms_pos p.deadline (C.time w)
                  (subst (λ now. ltb_ℤ now p.deadline ≡ true) (C.clock_reads p.world) early),
            )))

  abbrev Wait : Waited → W → W → Type 0
  Wait Waited.interrupted w w' = C.events w' < C.events w
  Wait running w w' = C.killed w ≡ true → C.events w' < C.events w
  Wait _ w w' = Unit

  wait_lem : (w : W) (i : Waited) → (K.wait_child w).0 ≡ i → Wait i w (K.wait_child w).1
  wait_lem w (reaped s) e = tt
  wait_lem w (Waited.failed t) e = tt
  wait_lem w Waited.interrupted e = C.wait_signal w e
  wait_lem w running e = λ k. C.dies w k e

  -- The loop from `q` on, with fewer rounds to come than `r`.
  abbrev Again : (Pump W → Option ((Bytes ⊎ Status) × Pump W)) → ℕ → Type 0
  Again again r =
      (q : Pump W) (m : ℕ)
      → Calm K options C m q
      → Dead q
      → rounds m q < r
      → Gives (λ _. Unit) (again q)

  pub cost-le : (b : Bool) (l : ℕ) → cost b l ≤ l + 1
  cost-le true l = omega arith
  cost-le false l = omega arith

  less_lem :
      (b : Bool) (l l' c r x : ℕ)
      → b ≡ false
      → c + cost b 0 ≤ cost b l'
      → l' ≤ l
      → x + cost b l ≤ r
      → x + c < r
  less_lem true l l' c r x e h k m = absurd (ground arith)
  less_lem false l l' c r x e h k m = omega arith

  fewer_lem : (n b l r c : ℕ) → 0 < n → l ≤ b + 1 → n * (b + 2) + c ≤ r → (n - 1) * (b + 2) + l < r
  fewer_lem zero b l r c h k e = absurd (omega arith)
  fewer_lem (suc n) b l r c h k e = grind arith

  -- An event is over, and the child goes on.
  event_over :
      (again : Pump W → Option ((Bytes ⊎ Status) × Pump W)) (n r c : ℕ)
      → Again again r
      → (q : Pump W) → Calm K options C (n - 1) q
      → Dead q
      → 0 < n
      → n * (budget_ms K options C + 2) + c ≤ r
      → Gives (λ _. Unit) (again (rest K options q))
  event_over again n r c ih q h dead some_left room =
      let (calm, dead', le) = enforce-Paused q.result.timed_out q (n - 1) refl h dead in
      ih _ (n - 1) calm dead' (
        fewer_lem n (budget_ms K options C) _ r c some_left
          (omega (arith, le, h.0, cost-le q.result.timed_out (left K options C q))) room)

  after_wait-ends :
      (again : Pump W → Option ((Bytes ⊎ Status) × Pump W)) (n r : ℕ)
      → Again again r
      → (p : Pump W) (waited : Waited × W) → Calm K options C n p
      → Dead p
      → rounds n p ≤ r
      → Later C.time C.events C.killed p.world waited.1
      → Wait waited.0 p.world waited.1
      → Gives (λ _. Unit) (after_wait K options again p waited)
  after_wait-ends again n r ih p (reaped s, w) h dead room later law = tt
  after_wait-ends again n r ih p (Waited.failed t, w) h dead room later law = tt
  after_wait-ends again n r ih p (running, w) h dead room later law =
      let near = left_ms_later p.deadline _ _ later.later in
      let dead_now : Dead (record p { world = w }) = λ k. later.stays (dead k) in
      elim (Bool-cases p.result.timed_out) [
        | inl e ↦
            event_over again n r _ ih (record p { world = w })
              (omega (arith, h.0, near), omega (arith, h.1, law (dead e))) dead_now
              (omega (arith, h.1, law (dead e))) room
        | inr e ↦
            let (calm, dead', le) =
              enforce-Paused p.result.timed_out (record p { world = w }) n refl
                (omega (arith, h.0, near), omega (arith, h.1, later.fewer)) dead_now in
            ih _ n calm dead' (less_lem _ _ _ _ r _ e le near room)
      ]
  after_wait-ends again n r ih p (Waited.interrupted, w) h dead room later law =
      event_over again n r _ ih (record p { world = w })
        (omega (arith, h.0, left_ms_later p.deadline _ _ later.later), omega (arith, h.1))
        (λ k. later.stays (dead k)) (omega (arith, h.1)) room

  pub reap-ends :
      (fuel : ℕ) (p : Pump W) (n : ℕ)
      → Calm K options C n p
      → Dead p
      → rounds n p < fuel
      → Gives (λ _. Unit) (reap K options fuel p)
  unfolding reap
  reap-ends zero p n h dead lt = absurd (omega arith)
  reap-ends (suc fuel) p n h dead lt =
      after_wait-ends (reap K options fuel) n fuel (λ q m k d less. reap-ends fuel q m k d less) p
        (K.wait_child p.world) h dead (omega arith) (C.by_wait p.world) (wait_lem p.world _ refl)
