-- ===== src/Eval/Process/Ends.antt =====
-- `run_process` of src/eval/process.cpp: it ends, if the system is not busy with its child for ever.
use gemini_cpp.Base.{
  ℕ, zero, suc, ◌+◌, ◌-◌, ◌*◌, ◌≤◌, ◌<◌, Bool, true, false, ◌==◌, ◌∷◌, Option, none, some, ◌≡◌,
  refl, sym, subst, arith,
}
use gemini_cpp.Base.Int.{ℤ, pos_part, ◌+ℤ◌}
use gemini_cpp.Base.Text.{Bytes}
use gemini_cpp.Eval.Outcome.{ProcessOptions}
use gemini_cpp.Eval.Kernel.{
  Kernel, Polled, ready, expired, Input, got, closed, blocked, remaining_ms, of_ms,
}
use gemini_cpp.Eval.Process.{
  Pump, keep_bytes, store, if_found, after_read, drain, after_drain, after_poll, pump, buffer_size,
}
use gemini_cpp.Eval.Process.Timed.{
  Timed, left_ms, remaining-le, left_ms_later, left_ms_passed, left_ms_reset,
}

-- The result is there, and it satisfies a predicate.
abbrev pub Gives {ℓ} : {A : Type ℓ} → (A → Type 0) → Option A → Type 0
Gives Q none = ⊥
Gives Q (some a) = Q a

pub Gives-mono {ℓ} :
    {A : Type ℓ} {P Q : A → Type 0} → ((a : A) → P a → Q a) → (o : Option A) → Gives P o → Gives Q o
Gives-mono f (some a) h = f a h
Gives-mono f none h = h

pub on_test {ℓ} :
    {A : Type ℓ} (P : A → Type 0) (b : Bool) (x y : Option A)
    → (b ≡ true → Gives P x)
    → (b ≡ false → Gives P y)
    → Gives P (elim b [ true ↦ x | false ↦ y ])
on_test P true x y f g = f refl
on_test P false x y f g = g refl

less_lem : (n b l r : ℕ) → 0 < n → l ≤ b → n * (b + 1) ≤ r → (n - 1) * (b + 1) + l < r
less_lem zero b l r h k e = absurd (omega arith)
less_lem (suc n) b l r h k e = grind arith

module _ {W : Type 0} (K : Kernel W) (options : ProcessOptions) (C : Timed K) where
  -- The longest time that the loops can still get, in milliseconds.
  abbrev pub budget_ms : ℕ
  budget_ms = pos_part options.timeout_ms + pos_part options.startup_grace

  abbrev pub left : Pump W → ℕ
  left p = left_ms p.deadline (C.time p.world)

  -- Within its time, and with at most so many events to come.
  abbrev pub Calm : ℕ → Pump W → Type 0
  Calm n p = (left p ≤ budget_ms) × (C.events p.world ≤ n)

  if_found-Calm :
      (start : ℤ) (b : Bool) (found : Option ℕ) (p : Pump W) (n : ℕ)
      → Calm n p
      → Calm n (if_found K options start b found p)
  if_found-Calm start false found p n h = h
  if_found-Calm start true none p n h = h
  if_found-Calm start true (some at) p n h = (
    subst
        (λ now. left_ms (now +ℤ of_ms options.timeout_ms) (C.time (K.clock p.world).1) ≤ budget_ms)
        (sym (C.clock_reads p.world))
        (omega (arith, left_ms_reset (C.time (K.clock p.world).1) options.timeout_ms)),
    omega (arith, (C.by_clock p.world).fewer, h.1),
  )

  keep_bytes-Calm :
      (start : ℤ) (s : Bytes) (p : Pump W) (n : ℕ)
      → Calm n p
      → Calm n (keep_bytes K options start s p)
  unfolding keep_bytes
  keep_bytes-Calm start s p n h = if_found-Calm start _ _ (store K options s p) n h

  -- What a call that comes back so costs, from the events before and after it.
  abbrev Read : Input → ℕ → ℕ → Type 0
  Read (got c s) e e' = e' < e
  Read Input.interrupted e e' = e' < e
  Read _ e e' = e' ≤ e

  read_lem :
      (n : ℕ) (w : W) (i : Input)
      → (K.read n w).0 ≡ i
      → Read i (C.events w) (C.events (K.read n w).1)
  read_lem n w (got c s) e = C.comes n w e
  read_lem n w closed e = (C.by_read n w).fewer
  read_lem n w Input.interrupted e = C.read_signal n w e
  read_lem n w blocked e = (C.by_read n w).fewer

  -- An event is over: the loop has one less to come.
  busy :
      (again : Pump W → Option (Bool × Pump W)) (n : ℕ)
      → ((q : Pump W) (m : ℕ) → Calm m q → m < n → Gives (λ r. Calm m r.1) (again q))
      → (q : Pump W) → Calm (n - 1) q
      → 0 < n
      → Gives (λ r. Calm n r.1) (again q)
  busy again n ih q h some_left =
      Gives-mono (λ r k. (k.0, omega (arith, k.1))) (again q) (ih q (n - 1) h (omega arith))

  after_read-ends :
      (start : ℤ) (again : Pump W → Option (Bool × Pump W)) (n : ℕ)
      → ((q : Pump W) (m : ℕ) → Calm m q → m < n → Gives (λ r. Calm m r.1) (again q))
      → (p : Pump W) (read : Input × W) → Calm n p
      → C.time p.world ≤ C.time read.1
      → Read read.0 (C.events p.world) (C.events read.1)
      → Gives (λ r. Calm n r.1) (after_read K options again start p read)
  after_read-ends start again n ih p (got c s, w) h t e =
      busy again n ih _
        (keep_bytes-Calm start (c ∷ s) (record p { world = w }) (n - 1)
          (omega (arith, h.0, left_ms_later p.deadline _ _ t), omega (arith, h.1)))
        (omega (arith, h.1))
  after_read-ends start again n ih p (closed, w) h t e =
      (omega (arith, h.0, left_ms_later p.deadline _ _ t), omega (arith, h.1))
  after_read-ends start again n ih p (Input.interrupted, w) h t e =
      busy again n ih _ (omega (arith, h.0, left_ms_later p.deadline _ _ t), omega (arith, h.1))
        (omega (arith, h.1))
  after_read-ends start again n ih p (blocked, w) h t e =
      (omega (arith, h.0, left_ms_later p.deadline _ _ t), omega (arith, h.1))

  drain-ends :
      (start : ℤ) (fuel : ℕ) (p : Pump W) (n : ℕ)
      → Calm n p
      → n < fuel
      → Gives (λ q. Calm n q.1) (drain K options start fuel p)
  unfolding drain
  drain-ends start zero p n h lt = absurd (omega arith)
  drain-ends start (suc fuel) p n h lt =
      after_read-ends start (drain K options start fuel) n
        (λ q m k less. drain-ends start fuel q m k (omega arith)) p _ h
        (C.by_read buffer_size p.world).later (read_lem buffer_size p.world _ refl)

  abbrev Poll : Polled → W → W → ℕ → Type 0
  Poll ready w w' n = C.events w' < C.events w
  Poll Polled.interrupted w w' n = C.events w' < C.events w
  Poll expired w w' n = C.time w + n * 1000000 ≤ C.time w'
  Poll Polled.failed w w' n = Unit

  poll_lem : (n : ℕ) (w : W) (i : Polled) → (K.poll n w).0 ≡ i → Poll i w (K.poll n w).1 n
  poll_lem n w ready e = C.wakes n w e
  poll_lem n w expired e = C.expires n w e
  poll_lem n w Polled.interrupted e = C.poll_signal n w e
  poll_lem n w Polled.failed e = tt

  -- `n` events and the time that is left, as a number of rounds.
  abbrev rounds : ℕ → Pump W → ℕ
  rounds n p = n * (budget_ms + 1) + left p

  passed :
      (n l l' r wait : ℕ)
      → n * (budget_ms + 1) + l ≤ r
      → 0 < wait
      → wait ≤ l
      → l' ≤ l - wait
      → n * (budget_ms + 1) + l' < r
  passed n l l' r wait room waits le law = omega arith

  -- The loop from `p` on, with fewer rounds to come than `r`.
  abbrev Again : (Pump W → Option (Pump W)) → ℕ → Type 0
  Again again r = (q : Pump W) (m : ℕ) → Calm m q → rounds m q < r → Gives (Calm m) (again q)

  woken :
      (again : Pump W → Option (Pump W)) (n r : ℕ)
      → Again again r
      → (q : Pump W) → Calm (n - 1) q
      → 0 < n
      → n * (budget_ms + 1) ≤ r
      → Gives (Calm n) (again q)
  woken again n r ih q h some_left room =
      Gives-mono (λ p k. (k.0, omega (arith, k.1))) (again q)
        (ih q (n - 1) h (less_lem n budget_ms (left q) r some_left h.0 room))

  after_drain-ends :
      (again : Pump W → Option (Pump W)) (n r : ℕ)
      → Again again r
      → 0 < n
      → n * (budget_ms + 1) ≤ r
      → (out : Option (Bool × Pump W)) → Gives (λ q. Calm (n - 1) q.1) out
      → Gives (Calm n) (after_drain K options again out)
  after_drain-ends again n r ih some_left room none h = elim h [ ]
  after_drain-ends again n r ih some_left room (some (true, p)) h = (h.0, omega (arith, h.1))
  after_drain-ends again n r ih some_left room (some (false, p)) h =
      woken again n r ih p h some_left room

  after_poll-ends :
      (start : ℤ) (again : Pump W → Option (Pump W)) (fuel n r wait : ℕ)
      → Again again r
      → (p : Pump W) (polled : Polled × W) → Calm n p
      → 0 < wait
      → wait ≤ left p
      → rounds n p ≤ r
      → n ≤ fuel
      → C.time p.world ≤ C.time polled.1
      → C.events polled.1 ≤ C.events p.world
      → Poll polled.0 p.world polled.1 wait
      → Gives (Calm n) (after_poll K options again (drain K options start fuel) p polled)
  after_poll-ends start again fuel n r wait ih p (ready, w) h waits le room enough t e law =
      after_drain-ends again n r ih (omega (arith, h.1)) (omega arith) _ (
        drain-ends start fuel _ (n - 1)
          (omega (arith, h.0, left_ms_later p.deadline _ _ t), omega (arith, h.1))
          (omega (arith, h.1)))
  after_poll-ends start again fuel n r wait ih p (expired, w) h waits le room enough t e law =
      ih _ n (omega (arith, h.0, left_ms_later p.deadline _ _ t), omega (arith, h.1))
        (passed n (left p) _ r wait room waits le (left_ms_passed p.deadline wait _ _ law))
  after_poll-ends start again fuel n r wait ih p (Polled.interrupted, w) h waits le room enough t e
        law =
      woken again n r ih _ (omega (arith, h.0, left_ms_later p.deadline _ _ t), omega (arith, h.1))
        (omega (arith, h.1)) (omega arith)
  after_poll-ends start again fuel n r wait ih p (Polled.failed, w) h waits le room enough t e law =
      (omega (arith, h.0, left_ms_later p.deadline _ _ t), omega (arith, h.1))

  enough_lem : (n b l fuel : ℕ) → n * (b + 1) + l < suc fuel → n ≤ fuel
  enough_lem n b l fuel h = grind arith

  pub pump-ends :
      (start : ℤ) (fuel : ℕ) (p : Pump W) (n : ℕ)
      → Calm n p
      → rounds n p < fuel
      → Gives (Calm n) (pump K options start fuel p)
  unfolding pump
  pump-ends start zero p n h lt = absurd (omega arith)
  pump-ends start (suc fuel) p n h lt =
      let w = (K.clock p.world).1 in
      let q = record p { world = w } in
      let wait = remaining_ms p.deadline (K.clock p.world).0 in
      let le : left q ≤ left p = left_ms_later p.deadline _ _ (C.by_clock p.world).later in
      let calm : Calm n q = (omega (arith, h.0), omega (arith, h.1, (C.by_clock p.world).fewer)) in
      on_test (Calm n) (wait == 0) _ _
        (λ over. (
          omega (arith, calm.0, left_ms_later p.deadline _ _ (C.by_kill w).later),
          omega (arith, calm.1, (C.by_kill w).fewer),
        ))
        (λ more.
          after_poll-ends start (pump K options start fuel) fuel n fuel wait
            (λ r m k less. pump-ends start fuel r m k less) q _ calm (ground arith)
            (subst (λ now. remaining_ms p.deadline now ≤ left q) (sym (C.clock_reads p.world))
              (remaining-le p.deadline (C.time w)))
            (omega (arith, le)) (enough_lem n budget_ms (left p) fuel lt) (C.by_poll wait w).later
            (C.by_poll wait w).fewer (poll_lem wait w _ refl))
