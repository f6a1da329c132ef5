-- ===== src/Eval/Rounds/Attempts.antt =====
-- src/eval/runner.cpp: the attempts that a task's result holds.
use gemini_cpp.Base.{
  ℕ, zero, suc, ◌+◌, ◌≤◌, Bool, true, false, ◌||◌, List, [], ◌∷◌, ◌++◌, Option, none, some, length,
  ◌≡◌, refl, sym, ap, ◌∙◌, subst, arith, append_assoc, Bool-cases, inl, inr,
}
use gemini_cpp.Base.Int.{pos, pos_part}
use gemini_cpp.Base.Text.{Bytes}
use gemini_cpp.Error.{Result, ok, err, throws}
use gemini_cpp.Types.{GenerateResponse, UsageMetadata}
use gemini_cpp.Eval.Outcome.{
  Outcome, pass, compile_error, test_failure, timeout, crash, no_code, api_error, harness_error,
  Attempt, is_pass, TaskResult, RunnerOptions, Task,
}
use gemini_cpp.Eval.Runner.{EvalHost, build_prompt, build_repair_prompt}
use gemini_cpp.Eval.Rounds.{
  Log, is_done, take_turn, after_turn, rounds, round_count, last_outcome, collect_by, collect,
  conclude, run_in, run_task,
}
use gemini_cpp.Eval.Runner.Numbers.{evaluate-round, try_reply-round}

-- Attempts numbered from `k`, at most `left` of them: none but the last may end the rounds.
pub data Ladder : ℕ → ℕ → List Attempt → Type 0 where
  last_try : (k left : ℕ) (a : Attempt) → a.round ≡ k → Ladder k (suc left) (a ∷ [])
  next_try :
      (k left : ℕ) (a : Attempt) (more : List Attempt)
      → a.round ≡ k
      → is_pass a.outcome ≡ false
      → Ladder (k + 1) left more
      → Ladder k (suc left) (a ∷ more)

abbrev pub any_pass : List Attempt → Bool
any_pass [] = false
any_pass (a ∷ as_) = is_pass a.outcome || any_pass as_

module _ {J D W : Type 0} (E : EvalHost W) (options : RunnerOptions J D) where
  module _ {S : Type 0} (send : Bytes → S → W → Result (GenerateResponse J) × S × W) where
    -- What a round adds: its attempt, or the attempt of an API error, or nothing.
    abbrev Played : ℕ → List Attempt → Result Attempt × Log E options S → Type 0
    Played round before (ok a, l) = (l.attempts ≡ before ++ a ∷ []) × (a.round ≡ round)
    Played round before (err e, l) =
        (a : Attempt) × (l.attempts ≡ before ++ a ∷ []) × (a.round ≡ round)
    Played round before (throws what, l) = Unit

    take_turn-Played :
        (task : Task) (workdir : Bytes) (round : ℕ) (l : Log E options S)
        (out : Result (GenerateResponse J) × S × W)
        → Played round l.attempts (take_turn E options send task workdir round l out)
    unfolding take_turn
    take_turn-Played task workdir round l (throws what, chat, w) = tt
    take_turn-Played task workdir round l (err e, chat, w) = (_, refl, refl)
    take_turn-Played task workdir round l (ok r, chat, w) =
        (refl, try_reply-round E options task workdir round r w)

    -- The attempts that the rounds from `k` add, unless `send` threw.
    abbrev Climbed : ℕ → ℕ → List Attempt → Option Bytes × Log E options S → Type 0
    Climbed k left before (some what, l) = Unit
    Climbed k left before (none, l) =
        (more : List Attempt) × (l.attempts ≡ before ++ more) × Ladder k left more

    is_done-is_pass : (o : Outcome) → is_done E options o ≡ false → is_pass o ≡ false
    is_done-is_pass pass h = absurd (ground arith)
    is_done-is_pass compile_error h = refl
    is_done-is_pass test_failure h = refl
    is_done-is_pass timeout h = refl
    is_done-is_pass crash h = refl
    is_done-is_pass no_code h = refl
    is_done-is_pass api_error h = refl
    is_done-is_pass harness_error h = refl

    again-Climbed :
        (k left : ℕ) (before : List Attempt) (a : Attempt) (out : Option Bytes × Log E options S)
        → a.round ≡ k
        → is_pass a.outcome ≡ false
        → Climbed (k + 1) left (before ++ a ∷ []) out
        → Climbed k (suc left) before out
    again-Climbed k left before a (some what, l) r p h = tt
    again-Climbed k left before a (none, l) r p (more, e, ladder) =
        (a ∷ more, e ∙ append_assoc before (a ∷ []) more, next_try k left a more r p ladder)

    after_turn-Climbed :
        (k left : ℕ) (before : List Attempt)
        (again : Attempt → Log E options S → Option Bytes × Log E options S)
        (out : Result Attempt × Log E options S)
        → Played k before out
        → ((a : Attempt) (l : Log E options S)
            → l.attempts ≡ before ++ a ∷ []
            → a.round ≡ k
            → is_pass a.outcome ≡ false
            → Climbed k (suc left) before (again a l))
        → Climbed k (suc left) before (after_turn E options send again out)
    unfolding after_turn
    after_turn-Climbed k left before again (throws what, l) h next = tt
    after_turn-Climbed k left before again (err e, l) (a, g, r) next =
        (a ∷ [], g, last_try k left a r)
    after_turn-Climbed k left before again (ok a, l) (g, r) next =
        elim (Bool-cases (is_done E options a.outcome)) [
          | inl d ↦ rw (d, after_turn) (a ∷ [], g, last_try k left a r)
          | inr d ↦ rw (d, after_turn) (next a l g r (is_done-is_pass a.outcome d))
        ]

    rounds-Climbed :
        (left : ℕ) (task : Task) (workdir : Bytes) (k : ℕ) (message : Bytes) (l : Log E options S)
        → Climbed k
            (suc left)
            l.attempts
            (rounds E options send (suc left) task workdir k message l)
    unfolding rounds
    rounds-Climbed zero task workdir k message l =
        after_turn-Climbed k 0 l.attempts _ _
          (take_turn-Played task workdir k l (send message l.chat l.world))
          (λ a l' g r p. (a ∷ [], g, last_try k 0 a r))
    rounds-Climbed (suc left) task workdir k message l =
        after_turn-Climbed k (suc left) l.attempts _ _
          (take_turn-Played task workdir k l (send message l.chat l.world))
          (λ a l' g r p.
            again-Climbed k (suc left) l.attempts a
              (rounds E options send (suc left) task workdir (k + 1) (build_repair_prompt a) l') r p
              (subst
                (λ bs. Climbed (k + 1) (suc left) bs (
                  rounds E options send (suc left) task workdir (k + 1) (build_repair_prompt a) l'))
                g (rounds-Climbed left task workdir (k + 1) (build_repair_prompt a) l')))

    -- What `run_task` returns, unless `send` threw.
    abbrev pub IsTried : Result TaskResult × W → Type 0
    IsTried (ok r, w) =
        Ladder 0 (round_count E options send) r.attempts
        × (r.outcome ≡ last_outcome E options send r.attempts)
        × (length r.attempts ≤ round_count E options send)
        × (is_pass r.outcome ≡ any_pass r.attempts)
    IsTried (err e, w) = ⊥
    IsTried (throws what, w) = Unit

    Ladder-length : {k left : ℕ} {as_ : List Attempt} → Ladder k left as_ → length as_ ≤ left
    Ladder-length (last_try k left a r) = omega arith
    Ladder-length (next_try k left a more r p l) = omega (arith, Ladder-length l)

    Ladder-some : {k left : ℕ} {as_ : List Attempt} → Ladder k left as_ → 1 ≤ length as_
    Ladder-some (last_try k left a r) = omega arith
    Ladder-some (next_try k left a more r p l) = omega arith

    Ladder-any_pass :
        {k left : ℕ} {as_ : List Attempt}
        → Ladder k left as_
        → is_pass (last_outcome E options send as_) ≡ any_pass as_
    Ladder-any_pass (last_try k left a r) = ground arith
    Ladder-any_pass (next_try k left a [] r p l) = absurd (omega (arith, Ladder-some l))
    Ladder-any_pass (next_try k left a (b ∷ more) r p l) =
        Ladder-any_pass l ∙ ap (λ x. x || any_pass (b ∷ more)) (sym p)

    conclude-IsTried :
        (usage_of : S → UsageMetadata) (task : Task) (workdir : Bytes)
        (out : Option Bytes × Log E options S)
        → Climbed 0 (round_count E options send) [] out
        → IsTried (conclude E options send usage_of task workdir out)
    unfolding conclude
    conclude-IsTried usage_of task workdir (some what, l) h = tt
    conclude-IsTried usage_of task workdir (none, l) (more, e, ladder) =
        let ladder' = subst (Ladder 0 (round_count E options send)) (sym e) ladder in
        (ladder', refl, Ladder-length ladder', Ladder-any_pass ladder')

    collect_by-Climbed :
        (reference : Bool) (source : Option Bytes) (has_client : Bool) (task : Task)
        (workdir : Bytes) (chat : S) (w : W)
        → Climbed 0
            (round_count E options send)
            []
            (collect_by E options send reference source has_client task workdir chat w)
    unfolding collect_by
    collect_by-Climbed true none has_client task workdir chat w = (_, refl, last_try 0 _ _ refl)
    collect_by-Climbed true (some source) has_client task workdir chat w =
        (_, refl, last_try 0 _ _ (evaluate-round E options task source workdir 0 w))
    collect_by-Climbed false source false task workdir chat w = (_, refl, last_try 0 _ _ refl)
    collect_by-Climbed false source true task workdir chat w =
        rounds-Climbed (pos_part options.repair_rounds) task workdir 0 (build_prompt task)
          (record { attempts = []; latency = pos 0; chat = chat; world = w })

    run_in-IsTried :
        (check_header : Bytes) (has_client : Bool) (usage_of : S → UsageMetadata) (task : Task)
        (workdir : Bytes) (chat : S) (prepared : Option Bytes × W)
        → IsTried
            (run_in E options send check_header has_client usage_of task workdir chat prepared)
    unfolding run_in collect
    run_in-IsTried header has_client usage_of task workdir chat (some message, w) =
        (last_try 0 _ _ refl, refl, omega arith, refl)
    run_in-IsTried header has_client usage_of task workdir chat (none, w) =
        conclude-IsTried usage_of task workdir _ (
          collect_by-Climbed options.use_reference task.reference_source has_client task workdir
            chat w)

    -- `run_task` either passes on an exception of `send`, or returns a result with 1 to
    -- `repair_rounds + 1` attempts, numbered from 0. Its outcome is the last attempt's, no attempt before
    -- that one passed, and so the task passed exactly if any attempt did.
    pub run_task-IsTried :
        (check_header : Bytes) (has_client : Bool) (usage_of : S → UsageMetadata) (task : Task)
        (chat : S) (w : W)
        → IsTried (run_task E options send check_header has_client usage_of task chat w)
    unfolding run_task
    run_task-IsTried header has_client usage_of task chat w =
        run_in-IsTried header has_client usage_of task _ chat _
