-- ===== src/Tests/Eval.antt =====
-- src/eval on a small reply, and a task whose first solution fails.
use gemini_cpp.Base.{
  ℕ, All, map, length, ◌≤◌, ltb, ◌*◌, ◌⊎◌, arith, ◌==◌, ◌+◌, true, false, List, [], ◌∷◌, Option,
  none, some, if◌then◌else◌, ◌≡◌, refl, inr,
}
use gemini_cpp.Base.Int.{ℤ, pos}
use gemini_cpp.Base.Text.{Bytes, codes, equal}
use gemini_cpp.Error.{Result, ok}
use gemini_cpp.Types.{GenerateResponse, empty_response, model_content, no_usage}
use gemini_cpp.Json.{JsonLib}
use gemini_cpp.Json.Sample.{
  values, values_laws, int_value, Value, null_value, text_value, object_value, member, end,
}
use gemini_cpp.Eval.Tasks.{Entry, load_tasks}
use gemini_cpp.Eval.Tasks.Sorted.{AsLoaded, load_tasks-AsLoaded}
use gemini_cpp.Eval.Extract.{
  CodeBlock, find_code_blocks, extract_cpp_source, parse_fence, fence_at, is_closing, scan_line,
  pick, choose, split_lines,
}
use gemini_cpp.Eval.Extract.Blocks.{
  Piece, prose, block, reply_of, blocks_of, find_code_blocks-reply_of,
}
use gemini_cpp.Eval.Extract.Best.{is_cpp, is_untagged, IsBest, IsChoice, extract_cpp_source_lem}
use gemini_cpp.Eval.Outcome.{Outcome, outcome_name, RunnerOptions, Task, ProcessResult}
use gemini_cpp.Eval.Runner.{EvalHost}
use gemini_cpp.Eval.Workers.{
  Pool, running, Step, take_task, Steps, here, later, start_pool, worker_count,
}
use gemini_cpp.Eval.Workers.Phases.{reports, work}
use gemini_cpp.Eval.Workers.Schedule.{schedule_lem}
use gemini_cpp.Eval.Outcome.{TaskResult, pass, test_failure, attempt_of}
use gemini_cpp.Eval.Report.{count, all_outcomes, first_tries, passed, summary_line}
use gemini_cpp.Eval.Report.Counts.{sum, counts_lem}
use gemini_cpp.Eval.Report.{Report}
use gemini_cpp.Eval.Report.Printed.{report_json}
use gemini_cpp.Eval.Report.ReadBack.{read_report, at_path, report_json-read}
use gemini_cpp.Eval.Report.Cells.{IsCell, summary_line-IsCell}
use gemini_cpp.Eval.Rounds.{run_task}
use gemini_cpp.Eval.Rounds.Attempts.{IsTried, run_task-IsTried}

abbrev pieces : List Piece
pieces =
    prose (codes "Hi")
    ∷ block (codes "```cpp") (record { ch = b'`'; length = 3; info = codes "cpp" })
        (codes "int x;" ∷ []) (codes "```")
    ∷ []

abbrev reply : Bytes
reply = codes "Hi\n```cpp\nint x;\n```\n"

find_code_blocks-reply_of_example : find_code_blocks (reply_of pieces) ≡ blocks_of pieces
unfolding parse_fence fence_at is_closing
find_code_blocks-reply_of_example = find_code_blocks-reply_of pieces (
  (((refl, (refl, tt)), refl), refl),
  (
    (
      ((refl, (refl, (refl, (refl, (refl, (refl, tt)))))), refl),
      refl,
      ((((refl, (refl, (refl, (refl, (refl, (refl, tt)))))), refl), refl), tt),
      ((refl, (refl, (refl, tt))), refl),
      refl,
    ),
    tt,
  ),
)

extract-reply : extract_cpp_source reply ≡ some (codes "int x;\n")
unfolding extract_cpp_source scan_line equal pick choose split_lines
extract-reply = refl

extract_cpp_source_lem_example :
    let bs = find_code_blocks reply in
    (cpp : Option CodeBlock) × (untagged : Option CodeBlock) × IsBest is_cpp bs cpp
    × IsBest is_untagged bs untagged
    × IsChoice reply bs cpp untagged (extract_cpp_source reply)
extract_cpp_source_lem_example = extract_cpp_source_lem reply

-- The world counts the processes; the test program fails in the first round.
abbrev ended : ℤ → ProcessResult
ended code = record {
  exit_code = code;
  term_signal = pos 0;
  timed_out = false;
  output_truncated = false;
  output = [];
  duration = pos 3;
  startup = none;
}

abbrev host : EvalHost ℕ
host = record {
  write_file = λ path content w. (true, w);
  no_error = codes "Success";
  create_directories = λ path w. (none, w);
  remove_all = λ path w. w;
  run_process = λ o w. (inr (ended (if w == 1 then pos 1 else pos 0)), w + 1);
  unique_suffix = λ w. (codes "1-0-7", w);
  elapsed_ms = λ v w. pos 9;
  signal_name = λ s. none;
}

abbrev options : RunnerOptions Value ℤ
options = record {
  compiler = codes "c++";
  std_flag = codes "-std=c++20";
  extra_flags = [];
  sanitize = false;
  repair_rounds = pos 1;
  jobs = pos 1;
  work_root = codes "/tmp";
  keep_workdirs = false;
  use_reference = false;
  compile_timeout = pos 120000;
  startup_grace = pos 60000;
  max_log_bytes = 6000;
  generation = record {
    temperature = none;
    top_p = none;
    top_k = none;
    max_output_tokens = none;
    candidate_count = none;
    seed = none;
    thinking_budget = none;
    response_mime_type = none;
    response_schema = null_value;
    stop_sequences = [];
  };
}

abbrev task : Task
task = record {
  id = codes "t";
  title = [];
  prompt = codes "p";
  tags = [];
  timeout_ms = pos 10000;
  dir = [];
  test_source = [];
  reference_source = none;
}

abbrev answer : GenerateResponse Value
answer = record empty_response {
  candidates =
      record { content = model_content reply; finish_reason = codes "STOP"; index = pos 0 } ∷ [];
}

abbrev send : Bytes → ℕ → ℕ → Result (GenerateResponse Value) × ℕ × ℕ
send message chat w = (ok answer, chat + 1, w)

run_task-IsTried_example :
    IsTried host options send (run_task host options send [] true (λ s. no_usage) task 0 0)
run_task-IsTried_example = run_task-IsTried host options send [] true (λ s. no_usage) task 0 0

-- One worker and one task: the task is taken.
abbrev pool_after : Pool ℕ
pool_after = record { next = 1; workers = running 0 ∷ []; reported = [] }

one_step : Steps 1 1 (start_pool (pos 4) 1) pool_after
unfolding start_pool
one_step = later _ pool_after pool_after (take_task [] [] 0 [] (omega arith)) (here pool_after)

schedule_lem_example :
    (1 + work 1 pool_after ≡ 2 * 1 + worker_count (pos 4) 1)
    × (((p : Pool ℕ) × Step 1 pool_after p)
        ⊎ ((i : ℕ) → reports i pool_after.reported ≡ (if ltb i 1 then 1 else 0)))
schedule_lem_example = schedule_lem 1 7 (pos 4) 1 pool_after one_step

abbrev results : List TaskResult
results =
    record {
      task_id = codes "t";
      outcome = pass;
      attempts = attempt_of 0 test_failure (codes "x") ∷ attempt_of 1 pass [] ∷ [];
      usage = no_usage;
      model_latency = pos 0;
    }
    ∷ []

counts_lem_example :
    (sum (map (count results) all_outcomes) ≡ length results)
    × (first_tries results ≤ passed results)
counts_lem_example = counts_lem results (refl, tt)

summary_line-IsCell_example :
    All IsCell (summary_line (codes "a\nb error: |") 100)
    × (length (summary_line (codes "a\nb error: |") 100) ≤ 100 + 3)
summary_line-IsCell_example = summary_line-IsCell (codes "a\nb error: |") 100

-- Two directories with the same manifest.
abbrev manifest_lib : JsonLib ℤ
manifest_lib = record values {
  parse = λ s. some (object_value (member (codes "prompt") (text_value (codes "p")) end));
}

abbrev found : List Entry
found =
    record { path = codes "/t/b"; is_directory = true; has_task = true }
    ∷ record { path = codes "/t/a"; is_directory = true; has_task = true }
    ∷ []

load_tasks-AsLoaded_example :
    AsLoaded manifest_lib
      (λ j. [])
      (λ p. some p)
      found
      (load_tasks manifest_lib (λ j. []) (λ p. some p) (codes "/t") true (none, found))
load_tasks-AsLoaded_example =
    load_tasks-AsLoaded manifest_lib (λ j. []) (λ p. some p) (codes "/t") found

abbrev report : Report Value ℤ
report = record {
  model = codes "m";
  started_at = codes "2026-01-02T03:04:05Z";
  wall_time = pos 7;
  options = options;
  results = results;
}

report_json-read_example :
    (read_report values (report_json values report) ≡ some ((codes "t", pass) ∷ []))
    × ((o : Outcome)
        → at_path values
            (codes "summary" ∷ codes "outcomes" ∷ outcome_name o ∷ [])
            (report_json values report)
          ≡ some (int_value (pos (count results o))))
report_json-read_example = report_json-read values values_laws report
