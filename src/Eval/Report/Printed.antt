-- ===== src/Eval/Report/Printed.antt =====
-- src/eval/report.cpp: the JSON form of a report.
use gemini_cpp.Base.{List, [], ◌∷◌, length, map}
use gemini_cpp.Base.Int.{pos}
use gemini_cpp.Base.Text.{Bytes, codes}
use gemini_cpp.Json.{JsonLib}
use gemini_cpp.Types.{no_usage}
use gemini_cpp.Eval.Outcome.{Outcome, Attempt, TaskResult, passed_first_try, outcome_name}
use gemini_cpp.Eval.Report.{Report, all_outcomes, count, passed, first_tries, total_from}

module _ {D : Type 0} (L : JsonLib D) where
  open L use {Json, string, integer, boolean, array, object}

  unfoldable pub attempt_json : Attempt → Json
  attempt_json a = object (
      (codes "round", integer (pos a.round))
      ∷ (codes "outcome", string (outcome_name a.outcome))
      ∷ (codes "compile_ms", integer a.compile_time)
      ∷ (codes "run_ms", integer a.run_time)
      ∷ (codes "detail", string a.detail)
      ∷ (codes "source", string a.source)
      ∷ [])

  unfoldable pub result_json : TaskResult → Json
  unfolding attempt_json
  result_json r = object (
      (codes "task", string r.task_id)
      ∷ (codes "outcome", string (outcome_name r.outcome))
      ∷ (codes "passed_first_try", boolean (passed_first_try r))
      ∷ (codes "model_latency_ms", integer r.model_latency)
      ∷ (codes "prompt_tokens", integer r.usage.prompt_tokens)
      ∷ (codes "output_tokens", integer r.usage.candidates_tokens)
      ∷ (codes "attempts", array (map attempt_json r.attempts))
      ∷ [])

  unfoldable pub options_json : Report Json D → Json
  options_json report = object (
      (codes "compiler", string report.options.compiler)
      ∷ (codes "std", string report.options.std_flag)
      ∷ (codes "sanitize", boolean report.options.sanitize)
      ∷ (codes "repair_rounds", integer report.options.repair_rounds)
      ∷ (codes "jobs", integer report.options.jobs)
      ∷ [])

  unfoldable pub outcomes_json : List TaskResult → List Outcome → List (Bytes × Json)
  outcomes_json results [] = []
  outcomes_json results (o ∷ os) =
      (outcome_name o, integer (pos (count results o))) ∷ outcomes_json results os

  unfoldable pub summary_json : List TaskResult → Json
  unfolding outcomes_json
  summary_json results =
      let usage = total_from no_usage results in
      object (
        (codes "tasks", integer (pos (length results)))
        ∷ (codes "passed", integer (pos (passed results)))
        ∷ (codes "passed_first_try", integer (pos (first_tries results)))
        ∷ (codes "outcomes", object (outcomes_json results all_outcomes))
        ∷ (codes "prompt_tokens", integer usage.prompt_tokens)
        ∷ (codes "output_tokens", integer usage.candidates_tokens)
        ∷ (codes "thinking_tokens", integer usage.thoughts_tokens)
        ∷ [])

  -- `to_json`.
  unfoldable pub report_json : Report Json D → Json
  unfolding options_json summary_json result_json
  report_json report = object (
      (codes "model", string report.model)
      ∷ (codes "started_at", string report.started_at)
      ∷ (codes "wall_time_ms", integer report.wall_time)
      ∷ (codes "options", options_json report)
      ∷ (codes "summary", summary_json report.results)
      ∷ (codes "results", array (map result_json report.results))
      ∷ [])
