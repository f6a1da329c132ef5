-- ===== src/Eval/Workers/Phases.antt =====
-- src/eval/runner.cpp: what the phases of all workers add up to.
use gemini_cpp.Base.{
  ℕ, zero, suc, ◌+◌, ◌-◌, ◌*◌, ◌≤◌, ◌==◌, List, [], ◌∷◌, ◌++◌, ◌≡◌, refl, ap, arith, if◌then◌else◌,
  ◌⊎◌, inl, inr, length,
}
use gemini_cpp.Base.Int.{ℤ}
use gemini_cpp.Eval.Workers.{Phase, fetching, running, stopped, Pool, repeat_phase, worker_count}

-- How often a task was reported, and how many workers run it.
abbrev pub reports : {R : Type 0} → ℕ → List (ℕ × R) → ℕ
reports i [] = 0
reports i ((j, r) ∷ log) = (if i == j then 1 else 0) + reports i log

abbrev pub runs_it : ℕ → Phase → ℕ
runs_it i fetching = 0
runs_it i (running j) = if i == j then 1 else 0
runs_it i stopped = 0

abbrev pub runners : ℕ → List Phase → ℕ
runners i [] = 0
runners i (p ∷ ps) = runs_it i p + runners i ps

abbrev pub IsStopped : Phase → Type 0
IsStopped p = p ≡ stopped

-- How much a worker and the pool still have to do.
abbrev pub weight : Phase → ℕ
weight fetching = 1
weight (running i) = 2
weight stopped = 0

abbrev pub weights : List Phase → ℕ
weights [] = 0
weights (p ∷ ps) = weight p + weights ps

abbrev pub work : {R : Type 0} → ℕ → Pool R → ℕ
work n p = 2 * (n - p.next) + weights p.workers

pub weights-append : (ps qs : List Phase) → weights (ps ++ qs) ≡ weights ps + weights qs
weights-append [] qs = omega arith
weights-append (p ∷ ps) qs = omega (arith, weights-append ps qs)

pub runners-append :
    (i : ℕ) (ps qs : List Phase) → runners i (ps ++ qs) ≡ runners i ps + runners i qs
runners-append i [] qs = omega arith
runners-append i (p ∷ ps) qs = omega (arith, runners-append i ps qs)

pub reports-append :
    {R : Type 0} (i : ℕ) (log more : List (ℕ × R))
    → reports i (log ++ more) ≡ reports i log + reports i more
reports-append i [] more = omega arith
reports-append i ((j, r) ∷ log) more = omega (arith, reports-append i log more)

abbrev pub stops : List Phase → ℕ
stops [] = 0
stops (stopped ∷ ps) = suc (stops ps)
stops (fetching ∷ ps) = stops ps
stops (running i ∷ ps) = stops ps

pub stops-append : (ps qs : List Phase) → stops (ps ++ qs) ≡ stops ps + stops qs
stops-append [] qs = omega arith
stops-append (fetching ∷ ps) qs = stops-append ps qs
stops-append (running i ∷ ps) qs = stops-append ps qs
stops-append (stopped ∷ ps) qs = omega (arith, stops-append ps qs)

-- A worker that has something to do, if not all have stopped.
abbrev pub IsActive : List Phase → Type 0
IsActive ps =
    (before : List Phase) × (after : List Phase) × ((ps ≡ before ++ fetching ∷ after)
      ⊎ ((i : ℕ) × (ps ≡ before ++ running i ∷ after)))

unfoldable pub AllStopped : List Phase → Type 0
AllStopped ps = (stops ps ≡ length ps) × ((i : ℕ) → runners i ps ≡ 0)

pub after_stopped :
    (ps : List Phase)
    → AllStopped ps ⊎ IsActive ps
    → AllStopped (stopped ∷ ps) ⊎ IsActive (stopped ∷ ps)
unfolding AllStopped
after_stopped ps (inl (h, r)) = inl (omega arith, λ i. omega (arith, r i))
after_stopped ps (inr (before, after, inl e)) =
    inr (stopped ∷ before, after, inl (ap (◌∷◌ stopped) e))
after_stopped ps (inr (before, after, inr (i, e))) =
    inr (stopped ∷ before, after, inr (i, ap (◌∷◌ stopped) e))

pub IsActive-cases : (ps : List Phase) → AllStopped ps ⊎ IsActive ps
unfolding AllStopped
IsActive-cases [] = inl (refl, λ i. refl)
IsActive-cases (fetching ∷ ps) = inr ([], ps, inl refl)
IsActive-cases (running i ∷ ps) = inr ([], ps, inr (i, refl))
IsActive-cases (stopped ∷ ps) = after_stopped ps (IsActive-cases ps)

pub runners-repeat_phase : (k i : ℕ) → runners i (repeat_phase k fetching) ≡ 0
runners-repeat_phase zero i = refl
runners-repeat_phase (suc k) i = omega (arith, runners-repeat_phase k i)

pub stops-repeat_phase : (k : ℕ) → stops (repeat_phase k fetching) ≡ 0
stops-repeat_phase zero = refl
stops-repeat_phase (suc k) = stops-repeat_phase k

pub weights-repeat_phase : (k : ℕ) → weights (repeat_phase k fetching) ≡ k
weights-repeat_phase zero = refl
weights-repeat_phase (suc k) = omega (arith, weights-repeat_phase k)

pub length-repeat_phase : (k : ℕ) → length (repeat_phase k fetching) ≡ k
length-repeat_phase zero = refl
length-repeat_phase (suc k) = omega (arith, length-repeat_phase k)

pub worker_count_pos : (jobs : ℤ) (n : ℕ) → 1 ≤ worker_count jobs n
unfolding worker_count
worker_count_pos jobs n = ground arith
