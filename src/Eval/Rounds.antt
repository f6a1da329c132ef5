-- ===== src/Eval/Rounds.antt =====
-- src/eval/runner.cpp: the attempts of one task with their repairs. `send`, a turn of the chat session
-- that the task opens, is a parameter; the session's state is `S`.
pub mod Attempts
use gemini_cpp.Base.{
  ℕ, zero, suc, ◌+◌, Bool, true, false, not, List, [], ◌∷◌, ◌++◌, Option, none, some, if◌then◌else◌,
}
use gemini_cpp.Base.Int.{ℤ, pos, pos_part, ◌+ℤ◌}
use gemini_cpp.Base.Text.{Bytes, codes}
use gemini_cpp.Error.{Result, ok, err, throws, describe}
use gemini_cpp.Types.{GenerateResponse, UsageMetadata, no_usage}
use gemini_cpp.Eval.Outcome.{
  Outcome, pass, harness_error, api_error, Attempt, attempt_of, TaskResult, RunnerOptions, Task,
  join_path,
}
use gemini_cpp.Eval.Runner.{EvalHost, build_prompt, build_repair_prompt, evaluate, try_reply}

module _ {J D W : Type 0} (E : EvalHost W) (options : RunnerOptions J D) where
  -- `done`: no repair is asked for.
  abbrev pub is_done : Outcome → Bool
  is_done pass = true
  is_done harness_error = true
  is_done _ = false

  -- What the loop of `run_task` has collected.
  pub record Log (S : Type 0) : Type 0 where
    pub attempts : List Attempt
    pub latency : ℤ
    pub chat : S
    pub world : W

  module _ {S : Type 0} (send : Bytes → S → W → Result (GenerateResponse J) × S × W) where
    abbrev logged : Log S → Attempt → W → Log S
    logged l a w = record l { attempts = l.attempts ++ a ∷ []; world = w }

    -- What a round makes of the answer of `send`: an exception of `send` leaves at once, and an error
    -- is an attempt of its own.
    unfoldable pub take_turn :
        Task → Bytes → ℕ → Log S → Result (GenerateResponse J) × S × W → Result Attempt × Log S
    unfolding try_reply describe
    take_turn task workdir round l (throws what, chat, w) =
        (throws what, record l { chat = chat; world = w })
    take_turn task workdir round l (err e, chat, w) = (
      err e,
      logged (record l { latency = l.latency +ℤ E.elapsed_ms l.world w; chat = chat })
          (attempt_of round api_error (describe e)) w,
    )
    take_turn task workdir round l (ok r, chat, w) =
        let (a, w') = try_reply E options task workdir round r w in
        (
          ok a,
          logged (record l { latency = l.latency +ℤ E.elapsed_ms l.world w; chat = chat }) a w',
        )

    -- What ends the loop, and the next round otherwise.
    unfoldable pub after_turn :
        (Attempt → Log S → Option Bytes × Log S) → Result Attempt × Log S → Option Bytes × Log S
    after_turn again (throws what, l) = (some what, l)
    after_turn again (err e, l) = (none, l)
    after_turn again (ok a, l) = elim (is_done a.outcome) [ true ↦ (none, l) | false ↦ again a l ]

    -- The loop, with the number of rounds that are left: the exception of `send`, if there was one.
    unfoldable pub rounds : ℕ → Task → Bytes → ℕ → Bytes → Log S → Option Bytes × Log S
    unfolding take_turn after_turn build_repair_prompt
    rounds zero task workdir round message l = (none, l)
    rounds (suc left) task workdir round message l =
        after_turn (λ a l'. rounds left task workdir (round + 1) (build_repair_prompt a) l')
          (take_turn task workdir round l (send message l.chat l.world))

    -- The number of rounds, after the constructor's clamp.
    abbrev pub round_count : ℕ
    round_count = suc (pos_part options.repair_rounds)

    -- The outcome of `attempts.back()`.
    abbrev pub last_outcome : List Attempt → Outcome
    last_outcome [] = harness_error
    last_outcome (a ∷ []) = a.outcome
    last_outcome (a ∷ b ∷ more) = last_outcome (b ∷ more)

    -- The working directory with its two files; `check_header` is the text of `kCheckHeader`.
    unfoldable pub prepare : Bytes → Task → Bytes → W → Option Bytes × W
    unfolding join_path
    prepare check_header task workdir w =
        let (problem, w1) = E.create_directories workdir w in
        let (tests, w2) =
          E.write_file (join_path workdir (codes "tests.cpp")) task.test_source w1 in
        let (header, w3) = E.write_file (join_path workdir (codes "check.hpp")) check_header w2 in
        elim problem [
          | some message ↦ (some message, w1)
          | none ↦ elim tests [
            | false ↦ (some E.no_error, w2)
            | true ↦ elim header [ false ↦ (some E.no_error, w3) | true ↦ (none, w3) ]
          ]
        ]

    -- One attempt that needs no reply.
    abbrev single : S → Attempt → W → Option Bytes × Log S
    single chat a w = (none, record { attempts = a ∷ []; latency = pos 0; chat = chat; world = w })

    -- The attempts in a prepared directory: of the reference if it is to be used, and otherwise of the
    -- model's replies if there is a client.
    unfoldable pub collect_by :
        Bool → Option Bytes → Bool → Task → Bytes → S → W → Option Bytes × Log S
    unfolding rounds evaluate build_prompt
    collect_by true none has_client task workdir chat w =
        single chat (attempt_of 0 harness_error (codes "task has no reference.hpp")) w
    collect_by true (some source) has_client task workdir chat w =
        let (a, w') = evaluate E options task source workdir 0 w in single chat a w'
    collect_by false source false task workdir chat w =
        single chat (attempt_of 0 harness_error (codes "no model client configured")) w
    collect_by false source true task workdir chat w =
        rounds round_count task workdir 0 (build_prompt task)
          (record { attempts = []; latency = pos 0; chat = chat; world = w })

    unfoldable pub collect : Bool → Task → Bytes → S → W → Option Bytes × Log S
    unfolding collect_by
    collect has_client task workdir chat w =
        collect_by options.use_reference task.reference_source has_client task workdir chat w

    -- The end of `run_task`. The usage is the session's, which is zero for a session that sent nothing.
    unfoldable pub conclude :
        (S → UsageMetadata) → Task → Bytes → Option Bytes × Log S → Result TaskResult × W
    conclude usage_of task workdir (some what, l) = (throws what, l.world)
    conclude usage_of task workdir (none, l) = (
      ok (record {
        task_id = task.id;
        outcome = last_outcome l.attempts;
        attempts = l.attempts;
        usage = usage_of l.chat;
        model_latency = l.latency;
      }),
      if options.keep_workdirs then l.world else E.remove_all workdir l.world,
    )

    abbrev not_prepared : Task → Bytes → Bytes → TaskResult
    not_prepared task workdir message = record {
      task_id = task.id;
      outcome = harness_error;
      attempts =
          attempt_of 0 harness_error
            (codes "cannot prepare " ++ (workdir ++ (codes ": " ++ message)))
          ∷ [];
      usage = no_usage;
      model_latency = pos 0;
    }

    unfoldable pub run_in :
        Bytes
        → Bool
        → (S → UsageMetadata)
        → Task
        → Bytes
        → S
        → Option Bytes × W
        → Result TaskResult × W
    unfolding collect conclude
    run_in check_header has_client usage_of task workdir chat (some message, w) =
        (ok (not_prepared task workdir message), w)
    run_in check_header has_client usage_of task workdir chat (none, w) =
        conclude usage_of task workdir (collect has_client task workdir chat w)

    -- `run_task`; `chat` is the new session, and `has_client` says that `client_` is not null.
    unfoldable pub run_task :
        Bytes → Bool → (S → UsageMetadata) → Task → S → W → Result TaskResult × W
    unfolding prepare run_in join_path
    run_task check_header has_client usage_of task chat w =
        let (suffix, w') = E.unique_suffix w in
        let workdir = join_path options.work_root (task.id ++ b'-' ∷ suffix) in
        run_in check_header has_client usage_of task workdir chat
          (prepare check_header task workdir w')
