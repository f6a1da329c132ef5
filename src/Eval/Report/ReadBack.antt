-- ===== src/Eval/Report/ReadBack.antt =====
-- src/eval/report.cpp: what a reader gets from the JSON form of a report.
use gemini_cpp.Base.{List, [], ◌∷◌, Option, none, some, bind_option, if◌then◌else◌, map, ◌≡◌, refl}
use gemini_cpp.Base.Int.{pos}
use gemini_cpp.Base.Text.{Bytes, codes, equal}
use gemini_cpp.Json.{JsonLib, JsonLaws, find_member}
use gemini_cpp.Eval.Outcome.{
  Outcome, pass, compile_error, test_failure, timeout, crash, no_code, api_error, harness_error,
  TaskResult, outcome_name,
}
use gemini_cpp.Eval.Report.{Report, all_outcomes, count}
use gemini_cpp.Eval.Report.Printed.{report_json, result_json, summary_json, outcomes_json}

abbrev named_in : List Outcome → Bytes → Option Outcome
named_in [] name = none
named_in (o ∷ os) name = if equal (outcome_name o) name then some o else named_in os name

-- The outcome that has a name.
unfoldable pub outcome_named : Bytes → Option Outcome
unfolding outcome_name equal all_outcomes
outcome_named = named_in all_outcomes

outcome_named-outcome_name : (o : Outcome) → outcome_named (outcome_name o) ≡ some o
unfolding outcome_named
outcome_named-outcome_name pass = refl
outcome_named-outcome_name compile_error = refl
outcome_named-outcome_name test_failure = refl
outcome_named-outcome_name timeout = refl
outcome_named-outcome_name crash = refl
outcome_named-outcome_name no_code = refl
outcome_named-outcome_name api_error = refl
outcome_named-outcome_name harness_error = refl

module _ {D : Type 0} (L : JsonLib D) where
  open L use {Json, find, as_string, as_array, integer}

  -- The value at a path of keys.
  abbrev pub at_path : List Bytes → Json → Option Json
  at_path [] j = some j
  at_path (k ∷ ks) j = bind_option (find j k) (at_path ks)

  abbrev pub read_result : Json → Option (Bytes × Outcome)
  read_result j = bind_option (bind_option (at_path (codes "task" ∷ []) j) as_string) (λ id.
      bind_option
        (bind_option (bind_option (at_path (codes "outcome" ∷ []) j) as_string) outcome_named)
        (λ o. some (id, o)))

  abbrev pub read_each : List Json → Option (List (Bytes × Outcome))
  read_each [] = some []
  read_each (j ∷ js) =
      bind_option (read_result j) (λ r. bind_option (read_each js) (λ rs. some (r ∷ rs)))

  -- The ids of the tasks with their outcomes, which a reader finds under `results`.
  abbrev pub read_report : Json → Option (List (Bytes × Outcome))
  read_report j = bind_option (bind_option (at_path (codes "results" ∷ []) j) as_array) read_each

  module _ (laws : JsonLaws L) where
    read_result-result_json :
        (r : TaskResult) → read_result (result_json L r) ≡ some (r.task_id, r.outcome)
    unfolding result_json equal
    read_result-result_json r =
        rw
          (
            laws.find-object,
            laws.as_string-string,
            laws.find-object,
            laws.as_string-string,
            outcome_named-outcome_name r.outcome,
          )
          refl

    read_each-results :
        (rs : List TaskResult)
        → read_each (map (result_json L) rs) ≡ some (map (λ r. (r.task_id, r.outcome)) rs)
    read_each-results [] = refl
    read_each-results (r ∷ rs) = rw (read_result-result_json r, read_each-results rs) refl

    find_member-outcomes :
        (rs : List TaskResult) (o : Outcome)
        → find_member (outcomes_json L rs all_outcomes) (outcome_name o)
          ≡ some (integer (pos (count rs o)))
    unfolding outcomes_json all_outcomes outcome_name equal
    find_member-outcomes rs pass = refl
    find_member-outcomes rs compile_error = refl
    find_member-outcomes rs test_failure = refl
    find_member-outcomes rs timeout = refl
    find_member-outcomes rs crash = refl
    find_member-outcomes rs no_code = refl
    find_member-outcomes rs api_error = refl
    find_member-outcomes rs harness_error = refl

    -- From the JSON form of a report a reader gets the id and the outcome of every result, in order; and in
    -- its summary, under the name of any outcome, stands the number of results that have it.
    pub report_json-read :
        (report : Report Json D)
        → (read_report (report_json L report)
            ≡ some (map (λ r. (r.task_id, r.outcome)) report.results))
          × ((o : Outcome)
              → at_path
                  (codes "summary" ∷ codes "outcomes" ∷ outcome_name o ∷ [])
                  (report_json L report)
                ≡ some (integer (pos (count report.results o))))
    unfolding report_json summary_json equal
    report_json-read report = (
      rw (laws.find-object, laws.as_array-array) (read_each-results report.results),
      λ o.
          rw
            (
              laws.find-object,
              laws.find-object,
              laws.find-object,
              find_member-outcomes report.results o,
            )
            refl,
    )
