-- ===== src/Eval/Runner.antt =====
-- src/eval/runner.cpp: one attempt. Files, processes, the clock and the random suffix are a parameter
-- on a state `W`.
pub mod Numbers
use gemini_cpp.Base.{
  ℕ, zero, suc, ◌+◌, ◌*◌, Bool, true, false, not, ◌&&◌, ◌||◌, List, [], ◌∷◌, ◌++◌, Option, none,
  some, is_empty, if◌then◌else◌, or_value, ◌⊎◌, inl, inr,
}
use gemini_cpp.Base.Int.{ℤ, pos, pos_part, eqb_ℤ, ◌+ℤ◌, ◌-ℤ◌}
use gemini_cpp.Base.Text.{Bytes, codes, show, show_ℤ, starts_with}
use gemini_cpp.Error.{Result, ok, err, throws, Error, describe}
use gemini_cpp.Types.{GenerateResponse, UsageMetadata, no_usage, response_text, finish_reason_of}
use gemini_cpp.Eval.Extract.{extract_cpp_source}
use gemini_cpp.Eval.Outcome.{
  Outcome, pass, compile_error, test_failure, timeout, crash, no_code, api_error, harness_error,
  Attempt, attempt_of, TaskResult, RunnerOptions, Task, ProcessOptions, ProcessResult,
  finished_well, join_path, truncate_log, mentions_sanitizer,
}

-- What the harness uses of the operating system.
pub record EvalHost (W : Type 0) : Type 0 where
  -- writes a file: is the stream still good?
  pub write_file : Bytes → Bytes → W → Bool × W
  -- the message of an error code that is no error
  pub no_error : Bytes
  -- the message of the error code, if there is an error
  pub create_directories : Bytes → W → Option Bytes × W
  pub remove_all : Bytes → W → W
  pub run_process : ProcessOptions → W → (Error ⊎ ProcessResult) × W
  pub unique_suffix : W → Bytes × W
  pub elapsed_ms : W → W → ℤ
  -- `strsignal`
  pub signal_name : ℤ → Option Bytes

-- The text that `task.prompt` gets at its end, and the two sources that every task is given.
abbrev pub deliverable : Bytes
deliverable =
    codes "\n\nDeliverable: the complete contents of `solution.hpp` in a single ```cpp block. "
    ++ (codes "It will be compiled with `-std=c++20 -Wall -pthread` and exercised by hidden tests "
        ++ codes "that `#include \"solution.hpp\"`.")

abbrev pub start_marker : Bytes
start_marker = 30 ∷ codes "gemini-cpp:started\n"

unfoldable pub build_prompt : Task → Bytes
build_prompt task = task.prompt ++ deliverable

unfoldable pub failure_text : Outcome → Bytes
failure_text compile_error = codes "did not compile"
failure_text test_failure = codes "compiled but failed the hidden tests"
failure_text timeout = codes "timed out (possible deadlock, infinite loop or poor complexity)"
failure_text crash = codes "crashed or triggered a sanitizer error"
failure_text no_code = codes "did not contain a ```cpp code block"
failure_text _ = codes "failed"

unfoldable pub build_repair_prompt : Attempt → Bytes
unfolding failure_text
build_repair_prompt failed =
    codes "Your solution "
    ++ (failure_text failed.outcome
        ++ (codes ". Output:\n```text\n"
            ++ (failed.detail
                ++ codes
                    "\n```\nFix the problem and reply with the complete corrected solution.hpp in a single ```cpp block.")))

module _ {J D W : Type 0} (E : EvalHost W) (options : RunnerOptions J D) where
  unfoldable pub status_string : ProcessResult → Bytes
  status_string r =
      if r.timed_out
      then codes "timed out after " ++ (show_ℤ r.duration ++ codes " ms")
      else if not (eqb_ℤ r.term_signal (pos 0))
      then codes "killed by signal "
        ++ (show_ℤ r.term_signal ++ (elim (E.signal_name r.term_signal) [
          | none ↦ []
          | some name ↦ codes " (" ++ (name ++ codes ")")
        ]))
      else codes "exit code " ++ show_ℤ r.exit_code

  abbrev pub binary_name : ℕ → Bytes
  binary_name round = codes "test_bin_r" ++ show round

  unfoldable pub compile_options : Bytes → ℕ → ProcessOptions
  compile_options workdir round = record {
    argv =
        (options.compiler
          ∷ options.std_flag
          ∷ codes "-O1"
          ∷ codes "-g"
          ∷ codes "-Wall"
          ∷ codes "-pthread"
          ∷ codes "-I."
          ∷ [])
        ++ ((if options.sanitize
              then codes "-fsanitize=address,undefined"
                ∷ codes "-fno-omit-frame-pointer"
                ∷ codes "-fno-sanitize-recover=undefined"
                ∷ []
              else [])
            ++ (options.extra_flags ++ codes "tests.cpp" ∷ codes "-o" ∷ binary_name round ∷ []));
    cwd = workdir;
    timeout_ms = options.compile_timeout;
    max_output_bytes = 1048576;
    memory_limit_bytes = none;
    start_marker = [];
    startup_grace = pos 0;
  }

  unfoldable pub run_options : Task → Bytes → ℕ → ProcessOptions
  unfolding join_path
  run_options task workdir round = record {
    argv = join_path workdir (binary_name round) ∷ [];
    cwd = workdir;
    timeout_ms = task.timeout_ms;
    max_output_bytes = 1048576;
    memory_limit_bytes = if options.sanitize then none else some 2147483648;
    start_marker = start_marker;
    startup_grace = options.startup_grace;
  }

  -- The outcome of a test program that ran.
  unfoldable pub classify : ProcessResult → Outcome
  unfolding mentions_sanitizer
  classify ran =
      if finished_well ran
      then pass
      else if ran.timed_out
      then timeout
      else if not (eqb_ℤ ran.term_signal (pos 0)) || mentions_sanitizer ran.output
      then crash
      else test_failure

  abbrev with_outcome : Attempt → Outcome → Bytes → Attempt
  with_outcome a outcome detail = record a { outcome = outcome; detail = detail }

  -- `evaluate` once the program ran.
  unfoldable pub judge : Attempt → Error ⊎ ProcessResult → Attempt
  unfolding classify status_string truncate_log describe
  judge a (inl e) = with_outcome a harness_error (describe e)
  judge a (inr ran) = record a {
    run_time = ran.duration -ℤ or_value ran.startup (pos 0);
    outcome = classify ran;
    detail =
        if finished_well ran
        then []
        else truncate_log (status_string ran ++ b'\n' ∷ ran.output) options.max_log_bytes;
  }

  -- A finished compiler run: what stops the attempt, if anything does.
  unfoldable pub build_failure : ProcessResult → Option (Outcome × Bytes)
  unfolding status_string truncate_log starts_with
  build_failure built =
      if eqb_ℤ built.exit_code (pos 127) && starts_with built.output (codes "exec failed")
      then some (harness_error, codes "compiler not found: " ++ options.compiler)
      else if not (finished_well built)
      then some (
        compile_error,
        truncate_log
            ((if built.timed_out
                then codes "compiler " ++ (status_string built ++ b'\n' ∷ [])
                else [])
              ++ built.output)
            options.max_log_bytes,
      )
      else none

  -- The compiled program is run, unless the compiler failed.
  unfoldable pub run_tests : Task → Bytes → Attempt → Error ⊎ ProcessResult → W → Attempt × W
  unfolding build_failure judge run_options describe
  run_tests task workdir a (inl e) w = (with_outcome a harness_error (describe e), w)
  run_tests task workdir a (inr built) w =
      let timed = record a { compile_time = built.duration } in
      elim (build_failure built) [
        | some (outcome, detail) ↦ (with_outcome timed outcome detail, w)
        | none ↦
            let (ran, w') = E.run_process (run_options task workdir a.round) w in
            (judge timed ran, w')
      ]

  -- The source is written, and then compiled.
  unfoldable pub after_write : Task → Bytes → Attempt → Bool × W → Attempt × W
  unfolding run_tests compile_options
  after_write task workdir a (false, w) =
      (with_outcome a harness_error (codes "cannot write solution.hpp in " ++ workdir), w)
  after_write task workdir a (true, w) =
      let (built, w') = E.run_process (compile_options workdir a.round) w in
      run_tests task workdir a built w'

  unfoldable pub evaluate : Task → Bytes → Bytes → ℕ → W → Attempt × W
  unfolding after_write join_path
  evaluate task source workdir round w =
      after_write task workdir (record (attempt_of round harness_error []) { source = source })
        (E.write_file (join_path workdir (codes "solution.hpp")) source w)

  -- A reply as an attempt: code is evaluated.
  unfoldable pub try_reply : Task → Bytes → ℕ → GenerateResponse J → W → Attempt × W
  unfolding evaluate extract_cpp_source truncate_log
  try_reply task workdir round reply w =
      elim (extract_cpp_source (response_text reply.candidates)) [
        | some source ↦ evaluate task source workdir round w
        | none ↦ (
          attempt_of round no_code (
              truncate_log
                (codes "finish_reason="
                  ++ (finish_reason_of reply.candidates ++ b'\n' ∷ response_text reply.candidates))
                options.max_log_bytes),
          w,
        )
      ]
