-- ===== src/Eval/Report.antt =====
-- src/eval/report.cpp: the counts of a report and its Markdown table. `percent`, which formats a double,
-- is a parameter.
pub mod Counts
pub mod Cells
pub mod Printed
pub mod ReadBack
use gemini_cpp.Base.{
  ℕ, zero, suc, ◌+◌, Bool, true, false, not, ◌||◌, ◌==◌, leb, List, [], ◌∷◌, ◌++◌, if◌then◌else◌,
  is_empty, length, take, map,
}
use gemini_cpp.Base.Int.{ℤ, pos}
use gemini_cpp.Base.Text.{Bytes, codes, contains, show, show_ℤ}
use gemini_cpp.Types.{UsageMetadata, no_usage, add_usage}
use gemini_cpp.Eval.Extract.{split_lines}
use gemini_cpp.Eval.Outcome.{
  Outcome, pass, compile_error, test_failure, timeout, crash, no_code, api_error, harness_error,
  is_pass, Attempt, TaskResult, RunnerOptions, passed_first_try, outcome_name,
}

pub record Report (J D : Type 0) : Type 0 where
  pub model : Bytes
  pub started_at : Bytes
  pub wall_time : ℤ
  pub options : RunnerOptions J D
  pub results : List TaskResult

unfoldable pub all_outcomes : List Outcome
all_outcomes =
    pass ∷ compile_error ∷ test_failure ∷ timeout ∷ crash ∷ no_code ∷ api_error ∷ harness_error ∷ []

-- An outcome's number, and `==` by it.
abbrev number_of : Outcome → ℕ
number_of pass = 0
number_of compile_error = 1
number_of test_failure = 2
number_of timeout = 3
number_of crash = 4
number_of no_code = 5
number_of api_error = 6
number_of harness_error = 7

abbrev pub same_outcome : Outcome → Outcome → Bool
same_outcome o p = number_of o == number_of p

-- `Report::count`, `passed` and `passed_first_try`, on the results.
unfoldable pub count : List TaskResult → Outcome → ℕ
count [] o = 0
count (r ∷ rs) o = (if same_outcome r.outcome o then 1 else 0) + count rs o

unfoldable pub passed : List TaskResult → ℕ
unfolding count
passed rs = count rs pass

unfoldable pub first_tries : List TaskResult → ℕ
unfolding passed_first_try
first_tries [] = 0
first_tries (r ∷ rs) = (if passed_first_try r then 1 else 0) + first_tries rs

unfoldable pub total_from : UsageMetadata → List TaskResult → UsageMetadata
total_from total [] = total
total_from total (r ∷ rs) = total_from (add_usage total r.usage) rs

-- The lines of `summary_line` up to one that tells of a failure, and the first line that is not empty.
unfoldable pub tells_failure : Bytes → Bool
unfolding contains
tells_failure line =
    contains line (codes "error:")
    || contains line (codes "CHECK")
    || contains line (codes "Sanitizer")

unfoldable pub pick_line : Bytes → List Bytes → Bytes
unfolding tells_failure
pick_line first [] = first
pick_line first (l ∷ ls) =
    let rest = pick_line (if is_empty first then l else first) ls in
    if tells_failure l then l else rest

-- "…" in UTF-8.
abbrev pub ellipsis : Bytes
ellipsis = 226 ∷ 128 ∷ 166 ∷ []

abbrev pub cell_byte : ℕ → ℕ
cell_byte c = if c == b'|' then b'/' else if c == b'`' then b'\'' else c

unfoldable pub shorten : ℕ → Bytes → Bytes
shorten max line = if leb (length line) max then line else take max line ++ ellipsis

unfoldable pub summary_line : Bytes → ℕ → Bytes
unfolding pick_line shorten split_lines
summary_line text max = map cell_byte (shorten max (pick_line [] (split_lines text)))

-- The first attempt of a result that did not pass, for the last column.
unfoldable pub first_failure : List Attempt → Bytes
unfolding summary_line outcome_name
first_failure [] = []
first_failure (a ∷ more) =
    let rest = first_failure more in
    if is_pass a.outcome
    then rest
    else outcome_name a.outcome ++ (codes ": " ++ summary_line a.detail 100)

-- The row of a task; the marks are "✅ " and "❌ " in UTF-8.
unfoldable pub task_row : TaskResult → Bytes
unfolding first_failure outcome_name
task_row r =
    codes "| `"
    ++ (r.task_id
        ++ (codes "` | "
            ++ ((if is_pass r.outcome
                  then 226 ∷ 156 ∷ 133 ∷ b' ' ∷ []
                  else 226 ∷ 157 ∷ 140 ∷ b' ' ∷ [])
                ++ (outcome_name r.outcome
                    ++ (codes " | "
                        ++ (show (length r.attempts)
                            ++ (codes " | " ++ (first_failure r.attempts ++ codes " |\n"))))))))

abbrev task_rows : List TaskResult → Bytes
task_rows [] = []
task_rows (r ∷ rs) = task_row r ++ task_rows rs

abbrev share : (ℕ → ℕ → Bytes) → Bytes → ℕ → ℕ → Bytes
share percent title part whole =
    title
    ++ (show part
        ++ (codes "/" ++ (show whole ++ (codes " (" ++ (percent part whole ++ codes ") |\n")))))

-- `to_markdown`.
unfoldable pub to_markdown : {J D : Type 0} → (ℕ → ℕ → Bytes) → Report J D → Bytes
unfolding first_tries passed total_from task_row
to_markdown percent report =
    let n = length report.results in
    let usage = total_from no_usage report.results in
    (codes "# gemini-cpp eval report\n\n- **Model:** `" ++ (report.model ++ codes "`\n"))
    ++ ((codes "- **Started:** " ++ (report.started_at ++ codes "\n"))
        ++ ((codes "- **Wall time:** " ++ (show_ℤ report.wall_time ++ codes " ms\n"))
            ++ ((codes "- **Compiler:** `"
                  ++ (report.options.compiler
                      ++ (b' ' ∷ report.options.std_flag
                          ++ (codes "`"
                              ++ ((if report.options.sanitize then codes " with ASan+UBSan" else [])
                                  ++ codes "\n")))))
                ++ ((codes "- **Repair rounds:** "
                      ++ (show_ℤ report.options.repair_rounds
                          ++ codes "\n\n| Metric | Value |\n|---|---|\n"))
                    ++ (share percent (codes "| pass@1 | ") (first_tries report.results) n
                        ++ (share percent (codes "| pass after repair | ") (passed report.results) n
                            ++ ((codes "| prompt tokens | "
                                  ++ (show_ℤ usage.prompt_tokens ++ codes " |\n"))
                                ++ ((codes "| output tokens | "
                                      ++ (show_ℤ usage.candidates_tokens ++ codes " |\n\n"))
                                    ++ (codes
                                          "| Task | Outcome | Attempts | First failure |\n|---|---|---|---|\n"
                                        ++ task_rows report.results)))))))))
