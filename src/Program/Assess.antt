-- ===== src/Program/Assess.antt =====
-- apps/main.cpp: the command `eval`. What one `Runner::run` gives, whose workers are Eval/Workers, is a
-- parameter: the results in the order in which they were reported, the report, and the client's state.
use gemini_cpp.Base.{
  ℕ, Bool, true, false, List, [], ◌∷◌, ◌++◌, Option, none, some, if◌then◌else◌, is_empty, length,
  or_value,
}
use gemini_cpp.Base.Int.{ℤ, pos}
use gemini_cpp.Base.Text.{Bytes, codes, show, show_ℤ}
use gemini_cpp.Error.{Result, ok, err, throws}
use gemini_cpp.Json.{FloatLib, JsonLib}
use gemini_cpp.Types.{GenerationConfig}
use gemini_cpp.Client.{Host, ClientOptions, Env}
use gemini_cpp.Cli.{Args, Spec, flag, get, get_or, get_all, get_int, get_double, has_name}
use gemini_cpp.Eval.Outcome.{Task, TaskResult, RunnerOptions}
use gemini_cpp.Eval.Report.{Report, passed, to_markdown}
use gemini_cpp.Eval.Report.Printed.{report_json}
use gemini_cpp.Eval.Tasks.{Entry, load_tasks}
use gemini_cpp.Program.{
  Shell, Finished, terminate, exit_ok, exit_failure, print, print_error, usage_error, unless_error,
  with_result, with_client, make_spec, with_args, make_client,
}
use gemini_cpp.Program.Progress.{progress_from, metrics_line}

unfoldable pub eval_spec : Spec
unfolding make_spec
eval_spec =
    make_spec
      (codes "tasks"
        ∷ codes "task"
        ∷ codes "jobs"
        ∷ codes "repair"
        ∷ codes "compiler"
        ∷ codes "std"
        ∷ codes "work-dir"
        ∷ codes "report-json"
        ∷ codes "report-md"
        ∷ codes "min-pass"
        ∷ [])
      (codes "sanitize" ∷ codes "reference" ∷ codes "keep" ∷ [])

-- `std::erase_if` of the tasks that `--task` does not name, if it names any.
abbrev pub keep_named : List Bytes → List Task → List Task
keep_named only [] = []
keep_named only (t ∷ ts) =
    let rest = keep_named only ts in if has_name t.id only then t ∷ rest else rest

abbrev pub select_tasks : List Bytes → List Task → List Task
select_tasks [] tasks = tasks
select_tasks (id ∷ ids) tasks = keep_named (id ∷ ids) tasks

-- `$CXX`, unless it is unset or empty.
abbrev default_compiler : (Bytes → Option Bytes) → Bytes
default_compiler getenv = elim (getenv (codes "CXX")) [
  | none ↦ codes "c++"
  | some cxx ↦ if is_empty cxx then codes "c++" else cxx
]

module _ (F : FloatLib) (L : JsonLib F.Double) (H : Host F) (defaults : ClientOptions F.Double)
    (runner_defaults : RunnerOptions L.Json F.Double) (getenv : Bytes → Option Bytes)
    -- the entries of a directory, if it is one, and the files in it
    (directory : Bytes → Bool × Option Bytes × List Entry) (read_file : Bytes → Option Bytes)
    (no_string : L.Json → Bytes)
    (run : Option (ClientOptions F.Double)
      → RunnerOptions L.Json F.Double
      → List Task
      → Env H.World L.Json
      → List TaskResult × Report L.Json F.Double × Env H.World L.Json)
    -- the text of a share, `dump(2)`, and is the rate of passed results at least a bound?
    (percent : ℕ → ℕ → Bytes) (dump_indented : L.Json → Result Bytes)
    (reaches : ℕ → ℕ → F.Double → Bool) where
  open L use {Json}

  -- The numbers of the command, after the common ones.
  unfoldable pub eval_numbers : Args → Option Bytes × Option ℤ × Option ℤ × Option F.Double
  unfolding get_int get_double
  eval_numbers args =
      let (e, jobs) = get_int args (codes "jobs") none in
      let (e', repair) = get_int args (codes "repair") none in
      let (e'', min_pass) = get_double F args (codes "min-pass") none in
      (
        elim e [ some m ↦ some m | none ↦ elim e' [ some m ↦ some m | none ↦ e'' ] ],
        jobs,
        repair,
        min_pass,
      )

  unfoldable pub eval_options :
      Args → GenerationConfig Json F.Double → Option ℤ → Option ℤ → RunnerOptions Json F.Double
  unfolding get_or get flag
  eval_options args config jobs repair = record runner_defaults {
    generation = config;
    jobs = or_value jobs (pos 1);
    repair_rounds = or_value repair (pos 0);
    sanitize = flag args (codes "sanitize");
    use_reference = flag args (codes "reference");
    keep_workdirs = flag args (codes "keep");
    compiler = get_or args (codes "compiler") (default_compiler getenv);
    std_flag = get_or args (codes "std") (codes "-std=c++20");
    work_root = or_value (get args (codes "work-dir")) runner_defaults.work_root;
  }

  unfoldable pub start_text :
      RunnerOptions Json F.Double → Option (ClientOptions F.Double) → ℕ → Bytes
  start_text options client n =
      codes "Evaluating "
      ++ (show n
          ++ (codes " task(s) with "
              ++ (elim client [ none ↦ codes "reference solutions" | some o ↦ o.model ]
                  ++ (codes " (jobs="
                      ++ (show_ℤ options.jobs
                          ++ (codes ", repair="
                              ++ (show_ℤ options.repair_rounds
                                  ++ ((if options.sanitize then codes ", sanitizers" else [])
                                      ++ codes ")\n"))))))))

  -- The files of `--report-md` and `--report-json`. The second is opened before the report is printed.
  unfoldable pub write_markdown : Args → Bytes → Shell H.World Json → Shell H.World Json
  unfolding get
  write_markdown args text s = elim (get args (codes "report-md")) [
    | none ↦ s
    | some path ↦ record s { files = s.files ++ (path, text) ∷ [] }
  ]

  abbrev pub write_file :
      Bytes → Result Bytes → Shell H.World Json → Option Bytes × Shell H.World Json
  write_file path (ok text) s =
      (none, record s { files = s.files ++ (path, text ++ codes "\n") ∷ [] })
  write_file path (throws w) s = (some w, record s { files = s.files ++ (path, []) ∷ [] })
  write_file path (err e) s = (none, s)

  unfoldable pub write_json :
      Args → Report Json F.Double → Shell H.World Json → Option Bytes × Shell H.World Json
  unfolding get report_json
  write_json args report s = elim (get args (codes "report-json")) [
    | none ↦ (none, s)
    | some path ↦ write_file path (dump_indented (report_json L report)) s
  ]

  -- The metrics of the client, if there is one, and the exit status.
  unfoldable pub end_eval :
      Option F.Double
      → Bool
      → Report Json F.Double
      → Option Bytes × Shell H.World Json
      → Finished H.World Json
  unfolding metrics_line passed
  end_eval min_pass client report (some w, s) = (terminate w, s)
  end_eval min_pass client report (none, s) = (
    if reaches (passed report.results) (length report.results)
          (or_value min_pass (F.of_int (pos 1)))
        then exit_ok
        else exit_failure,
    if client then print_error (metrics_line s.env.metrics) s else s,
  )

  -- The run, and its reports.
  unfoldable pub eval_run :
      Args
      → Option F.Double
      → RunnerOptions Json F.Double
      → Option (ClientOptions F.Double)
      → List Task
      → Shell H.World Json
      → Finished H.World Json
  unfolding start_text progress_from write_markdown write_json end_eval to_markdown
  eval_run args min_pass options client tasks s =
      let n = length tasks in
      let (reported, report, e) = run client options tasks s.env in
      let markdown = to_markdown percent report in
      let t = print markdown (
        print_error (start_text options client n ++ progress_from 0 n reported)
          (record s { env = e })) in
      end_eval min_pass (elim client [ none ↦ false | some o ↦ true ]) report
        (write_json args report (write_markdown args markdown t))

  abbrev pub eval_selected :
      Args
      → Option F.Double
      → RunnerOptions Json F.Double
      → List Task
      → Shell H.World Json
      → Finished H.World Json
  eval_selected args min_pass options [] s = usage_error (codes "no tasks selected") s
  eval_selected args min_pass options (t ∷ ts) s =
      if options.use_reference
      then eval_run args min_pass options none (t ∷ ts) s
      else with_result (make_client getenv defaults args)
          (λ o. eval_run args min_pass options (some o) (t ∷ ts) (with_client s)) s

  unfoldable pub eval_with :
      Args → GenerationConfig Json F.Double → Shell H.World Json → Finished H.World Json
  unfolding eval_numbers eval_options load_tasks get_all get_or make_client usage_error eval_run
  eval_with args config s =
      let (e, jobs, repair, min_pass) = eval_numbers args in
      let root = get_or args (codes "tasks") (codes "tasks") in
      let (is_directory, problem, entries) = directory root in
      unless_error e
        (with_result (load_tasks L no_string read_file root is_directory (problem, entries))
          (λ tasks.
            eval_selected args min_pass (eval_options args config jobs repair)
              (select_tasks (get_all args.values (codes "task")) tasks) s)
          s)
        s

  -- `cmd_eval`, on the words after the command.
  unfoldable pub cmd_eval : List Bytes → Shell H.World Json → Finished H.World Json
  unfolding with_args eval_with eval_spec
  cmd_eval words s = with_args F eval_spec runner_defaults.generation eval_with words s
