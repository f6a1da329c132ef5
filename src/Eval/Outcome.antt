-- ===== src/Eval/Outcome.antt =====
-- include/gemini/eval/runner.hpp, include/gemini/eval/task.hpp and include/gemini/eval/process.hpp: the
-- data of the evaluation. Times are milliseconds, and paths are strings.
use gemini_cpp.Base.{
  ℕ, ◌-◌, ◌/◌, Bool, true, false, not, ◌&&◌, ◌||◌, leb, List, [], ◌∷◌, ◌++◌, Option, is_empty,
  if◌then◌else◌, length, take, drop,
}
use gemini_cpp.Base.Int.{ℤ, pos, eqb_ℤ}
use gemini_cpp.Base.Text.{Bytes, codes, show, starts_with, back_is, contains}
use gemini_cpp.Types.{GenerationConfig, UsageMetadata}

pub data Outcome : Type 0 where
  pass compile_error test_failure timeout crash no_code api_error harness_error : Outcome

unfoldable pub outcome_name : Outcome → Bytes
outcome_name pass = codes "pass"
outcome_name compile_error = codes "compile_error"
outcome_name test_failure = codes "test_failure"
outcome_name timeout = codes "timeout"
outcome_name crash = codes "crash"
outcome_name no_code = codes "no_code"
outcome_name api_error = codes "api_error"
outcome_name harness_error = codes "harness_error"

-- `==` on outcomes, for one that passed.
abbrev pub is_pass : Outcome → Bool
is_pass pass = true
is_pass _ = false

pub record Attempt : Type 0 where
  pub round : ℕ
  pub outcome : Outcome
  pub detail : Bytes
  pub source : Bytes
  pub compile_time : ℤ
  pub run_time : ℤ

-- `Attempt{round, outcome, detail, {}, {}, {}}`.
abbrev pub attempt_of : ℕ → Outcome → Bytes → Attempt
attempt_of round outcome detail = record {
  round = round;
  outcome = outcome;
  detail = detail;
  source = [];
  compile_time = pos 0;
  run_time = pos 0;
}

pub record TaskResult : Type 0 where
  pub task_id : Bytes
  pub outcome : Outcome
  pub attempts : List Attempt
  pub usage : UsageMetadata
  pub model_latency : ℤ

abbrev pub first_passed : List Attempt → Bool
first_passed [] = false
first_passed (a ∷ more) = is_pass a.outcome

unfoldable pub passed_first_try : TaskResult → Bool
passed_first_try r = first_passed r.attempts

pub record RunnerOptions (J D : Type 0) : Type 0 where
  pub compiler : Bytes
  pub std_flag : Bytes
  pub extra_flags : List Bytes
  pub sanitize : Bool
  pub repair_rounds : ℤ
  pub jobs : ℤ
  pub work_root : Bytes
  pub keep_workdirs : Bool
  pub use_reference : Bool
  pub compile_timeout : ℤ
  pub startup_grace : ℤ
  pub max_log_bytes : ℕ
  pub generation : GenerationConfig J D

pub record Task : Type 0 where
  pub id : Bytes
  pub title : Bytes
  pub prompt : Bytes
  pub tags : List Bytes
  pub timeout_ms : ℤ
  pub dir : Bytes
  pub test_source : Bytes
  pub reference_source : Option Bytes

pub record ProcessOptions : Type 0 where
  pub argv : List Bytes
  pub cwd : Bytes
  pub timeout_ms : ℤ
  pub max_output_bytes : ℕ
  pub memory_limit_bytes : Option ℕ
  pub start_marker : Bytes
  pub startup_grace : ℤ

pub record ProcessResult : Type 0 where
  pub exit_code : ℤ
  pub term_signal : ℤ
  pub timed_out : Bool
  pub output_truncated : Bool
  pub output : Bytes
  pub duration : ℤ
  pub startup : Option ℤ

-- `ProcessResult::ok`.
abbrev pub finished_well : ProcessResult → Bool
finished_well r = not r.timed_out && (eqb_ℤ r.term_signal (pos 0) && eqb_ℤ r.exit_code (pos 0))

-- `operator/` of two paths.
unfoldable pub join_path : Bytes → Bytes → Bytes
unfolding starts_with
join_path dir name =
    if starts_with name (codes "/")
    then name
    else if is_empty dir || back_is b'/' dir
    then dir ++ name
    else dir ++ b'/' ∷ name

-- A long text keeps its head and a quarter of the bytes for its tail.
unfoldable pub truncate_log : Bytes → ℕ → Bytes
unfolding show
truncate_log text max_bytes =
    if leb (length text) max_bytes
    then text
    else take (max_bytes - max_bytes / 4) text
      ++ (codes "\n... ["
          ++ (show (length text - max_bytes)
              ++ (codes " bytes truncated] ...\n" ++ drop (length text - max_bytes / 4) text)))

unfoldable pub mentions_sanitizer : Bytes → Bool
unfolding contains
mentions_sanitizer output =
    contains output (codes "AddressSanitizer")
    || contains output (codes "UndefinedBehaviorSanitizer")
    || contains output (codes "runtime error:")
    || contains output (codes "LeakSanitizer")
