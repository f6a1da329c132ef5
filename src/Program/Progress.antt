-- ===== src/Program/Progress.antt =====
-- apps/main.cpp: what `eval` tells on the error stream while it runs, and at its end.
use gemini_cpp.Base.{
  ℕ, zero, suc, not, ◌&&◌, ◌==◌, List, [], ◌∷◌, ◌++◌, if◌then◌else◌, is_empty, length,
}
use gemini_cpp.Base.Text.{Bytes, codes, show}
use gemini_cpp.Client.{Metrics}
use gemini_cpp.Eval.Outcome.{Attempt, TaskResult, is_pass, outcome_name}
use gemini_cpp.Program.Talk.{input_lines}

-- At most so many lines, with blanks before them.
abbrev indented : ℕ → List Bytes → Bytes
indented zero ls = []
indented (suc n) [] = []
indented (suc n) (l ∷ ls) = (codes "      " ++ (l ++ codes "\n")) ++ indented n ls

abbrev last_detail : List Attempt → Bytes
last_detail [] = []
last_detail (a ∷ []) = a.detail
last_detail (a ∷ b ∷ more) = last_detail (b ∷ more)

-- What the callback of `run` prints of a result: its number, and six lines of the last failure.
unfoldable pub progress_text : ℕ → ℕ → TaskResult → Bytes
unfolding input_lines outcome_name
progress_text done total r =
    (codes "["
      ++ (show done
          ++ (codes "/"
              ++ (show total
                  ++ (codes "] "
                      ++ (r.task_id
                          ++ (codes ": "
                              ++ ((27 ∷ (if is_pass r.outcome then codes "[32m" else codes "[31m"))
                                  ++ (outcome_name r.outcome
                                      ++ ((27 ∷ codes "[0m (")
                                          ++ (show (length r.attempts)
                                              ++ (codes " attempt"
                                                  ++ ((if length r.attempts == 1
                                                        then []
                                                        else codes "s")
                                                      ++ codes ")\n")))))))))))))
    ++ (if not (is_pass r.outcome) && not (is_empty r.attempts)
        then indented 6 (input_lines (last_detail r.attempts))
        else [])

unfoldable pub progress_from : ℕ → ℕ → List TaskResult → Bytes
unfolding progress_text
progress_from done total [] = []
progress_from done total (r ∷ rs) =
    progress_text (suc done) total r ++ progress_from (suc done) total rs

unfoldable pub metrics_line : Metrics → Bytes
metrics_line m =
    codes "[api] requests="
    ++ (show m.requests
        ++ (codes " attempts="
            ++ (show m.attempts
                ++ (codes " retries="
                    ++ (show m.retries
                        ++ (codes " failures="
                            ++ (show m.failures
                                ++ (codes " latency_ms="
                                    ++ (show m.total_latency_ms ++ codes "\n")))))))))
