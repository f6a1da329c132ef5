-- ===== src/Program/Whole.antt =====
-- apps/main.cpp: `eval`, and the program with its five commands: one that ends with status 2 has refused.
use gemini_cpp.Base.{ℕ, Bool, List, [], ◌∷◌, Option, none, some, ◌≡◌, arith}
use gemini_cpp.Base.Int.{ℤ}
use gemini_cpp.Base.Text.{Bytes, codes}
use gemini_cpp.Error.{Result}
use gemini_cpp.Json.{FloatLib, JsonLib}
use gemini_cpp.Types.{GenerationConfig, GenerateResponse}
use gemini_cpp.Client.{Host, ClientOptions, Env}
use gemini_cpp.Tools.Expression.{MathLib}
use gemini_cpp.Cli.{Args, get_or, get_all}
use gemini_cpp.Eval.Outcome.{Task, TaskResult, RunnerOptions}
use gemini_cpp.Eval.Report.{Report}
use gemini_cpp.Eval.Tasks.{Entry, load_tasks}
use gemini_cpp.Program.{Shell, exit_usage, make_client, with_client}
use gemini_cpp.Program.Ask.{cmd_ask}
use gemini_cpp.Program.Talk.{cmd_chat}
use gemini_cpp.Program.Queries.{cmd_tokens, cmd_models}
use gemini_cpp.Program.Assess.{
  cmd_eval, eval_with, eval_selected, eval_run, end_eval, eval_spec, eval_numbers, eval_options,
  select_tasks,
}
use gemini_cpp.Program.Entry.{Commands, main}
use gemini_cpp.Program.Refusal.{
  Untouched, Refuses, other_end, usage_error-Refuses, unless_error-Refuses, with_result-Refuses,
  with_args-Refuses, if-Refuses, cmd_ask-Refuses, cmd_tokens-Refuses, cmd_models-Refuses,
}
use gemini_cpp.Program.Safety.{main-Refuses, cmd_chat-Refuses}

module _ (F : FloatLib) (L : JsonLib F.Double) (H : Host F) (defaults : ClientOptions F.Double)
    (runner_defaults : RunnerOptions L.Json F.Double) (getenv : Bytes → Option Bytes)
    (directory : Bytes → Bool × Option Bytes × List Entry) (read_file : Bytes → Option Bytes)
    (no_string : L.Json → Bytes)
    (run : Option (ClientOptions F.Double)
      → RunnerOptions L.Json F.Double
      → List Task
      → Env H.World L.Json
      → List TaskResult × Report L.Json F.Double × Env H.World L.Json)
    (percent : ℕ → ℕ → Bytes) (dump_indented : L.Json → Result Bytes)
    (reaches : ℕ → ℕ → F.Double → Bool) where
  open L use {Json}

  end_eval-Refuses :
      (s t : Shell H.World Json) (min_pass : Option F.Double) (client : Bool)
      (report : Report Json F.Double) (thrown : Option Bytes)
      → Refuses s (
          end_eval F L H defaults runner_defaults getenv directory read_file no_string run percent
            dump_indented reaches min_pass client report
            (thrown, t))
  unfolding end_eval
  end_eval-Refuses s t min_pass client report (some w) = other_end s _ (λ e. cc)
  end_eval-Refuses s t min_pass client report none = other_end s _ (λ e. ground arith)

  eval_run-Refuses :
      (s t : Shell H.World Json) (args : Args) (min_pass : Option F.Double)
      (options : RunnerOptions Json F.Double) (client : Option (ClientOptions F.Double))
      (tasks : List Task)
      → Refuses s (
          eval_run F L H defaults runner_defaults getenv directory read_file no_string run percent
            dump_indented reaches args min_pass options client tasks t)
  unfolding eval_run
  eval_run-Refuses s t args min_pass options client tasks =
      end_eval-Refuses s _ min_pass _ (run client options tasks t.env).1 _

  eval_selected-Refuses :
      (s t : Shell H.World Json) (args : Args) (min_pass : Option F.Double)
      (options : RunnerOptions Json F.Double) (tasks : List Task)
      → Untouched s t
      → Refuses s (
          eval_selected F L H defaults runner_defaults getenv directory read_file no_string run
            percent dump_indented reaches args min_pass options tasks t)
  eval_selected-Refuses s t args min_pass options [] h =
      usage_error-Refuses s t (codes "no tasks selected") h
  eval_selected-Refuses s t args min_pass options (x ∷ xs) h =
      if-Refuses s options.use_reference _ _
        (eval_run-Refuses s t args min_pass options none (x ∷ xs))
        (with_result-Refuses s t (make_client getenv defaults args) _
          (λ o. eval_run-Refuses s (with_client t) args min_pass options (some o) (x ∷ xs)))

  eval_with-Refuses :
      (s t : Shell H.World Json) (args : Args) (config : GenerationConfig Json F.Double)
      → Untouched s t
      → Refuses s (
          eval_with F L H defaults runner_defaults getenv directory read_file no_string run percent
            dump_indented reaches args config t)
  unfolding eval_with
  eval_with-Refuses s t args config h =
      let (e, jobs, repair, min_pass) =
        eval_numbers F L H defaults runner_defaults getenv directory read_file no_string run percent
          dump_indented reaches args in
      let options =
        eval_options F L H defaults runner_defaults getenv directory read_file no_string run percent
          dump_indented reaches args config jobs repair in
      let (is_directory, problem, entries) =
        directory (get_or args (codes "tasks") (codes "tasks")) in
      unless_error-Refuses s t _ _ h (
        with_result-Refuses s t
          (load_tasks L no_string read_file (get_or args (codes "tasks") (codes "tasks"))
            is_directory (problem, entries))
          _
          (λ tasks.
            eval_selected-Refuses s t args min_pass options
              (select_tasks (get_all args.values (codes "task")) tasks) h))

  cmd_eval-Refuses :
      (words : List Bytes) (s : Shell H.World Json)
      → Refuses s (
          cmd_eval F L H defaults runner_defaults getenv directory read_file no_string run percent
            dump_indented reaches words s)
  unfolding cmd_eval
  cmd_eval-Refuses words s =
      with_args-Refuses F eval_spec runner_defaults.generation
        (eval_with F L H defaults runner_defaults getenv directory read_file no_string run percent
          dump_indented reaches)
        words s (λ args c t. eval_with-Refuses s t args c)

  module _ (M : MathLib F.Double) (now : Shell H.World L.Json → Bytes × ℤ) (stdin : Bytes)
      (tty : Bool)
      (stop : List Bytes → List (GenerateResponse L.Json) → GenerateResponse L.Json → Bool)
      (interrupted : Bool) (row : Bytes → ℤ → ℤ → Bytes → Bytes) (pages : ℕ) where
    -- The commands that `main` knows.
    unfoldable pub program : Commands H.World Json
    unfolding cmd_ask cmd_chat cmd_tokens cmd_models cmd_eval
    program = record {
      ask = cmd_ask F L H defaults getenv stdin (stop []) interrupted;
      chat = cmd_chat F M L H defaults getenv now stdin tty stop;
      tokens = cmd_tokens F L H defaults getenv stdin;
      models = cmd_models F L H defaults getenv row pages;
      eval =
          cmd_eval F L H defaults runner_defaults getenv directory read_file no_string run percent
            dump_indented reaches;
    }

    -- A run of the program that ends with status 2, the status for wrong usage, leaves everything as it was
    -- but the error stream and the log's settings: the outside world, with the client's counters, the
    -- standard output, and the written files.
    pub main-Untouched :
        (version : Bytes) (words : List Bytes) (s : Shell H.World Json)
        → (main version program words s).0 ≡ exit_usage
        → Untouched s (main version program words s).1
    unfolding program
    main-Untouched version words s =
        (main-Refuses version program
          (record {
            ask = cmd_ask-Refuses F L H defaults getenv stdin (stop []) interrupted;
            chat = cmd_chat-Refuses F M L H defaults getenv now stdin tty stop;
            tokens = cmd_tokens-Refuses F L H defaults getenv stdin;
            models = cmd_models-Refuses F L H defaults getenv row pages;
            eval = cmd_eval-Refuses;
          })
          words s).untouched
