-- ===== src/Tests/Program.antt =====
-- apps/main.cpp with a model that answers nothing.
use gemini_cpp.Base.{
  ℕ, Bool, true, false, List, [], ◌∷◌, Option, none, some, ◌≡◌, refl, if◌then◌else◌,
}
use gemini_cpp.Base.Int.{ℤ, pos}
use gemini_cpp.Base.Text.{Bytes, codes, equal}
use gemini_cpp.Error.{ok}
use gemini_cpp.Json.Sample.{ints, Value}
use gemini_cpp.Types.{GenerateResponse, no_usage}
use gemini_cpp.Client.{ClientOptions, Env}
use gemini_cpp.Tools.{ToolRegistry}
use gemini_cpp.Chat.{ChatOptions, Session}
use gemini_cpp.Eval.Outcome.{RunnerOptions, Task, TaskResult}
use gemini_cpp.Eval.Tasks.{Entry}
use gemini_cpp.Eval.Report.{Report}
use gemini_cpp.Log.{initial_log}
use gemini_cpp.Program.{Shell, Exit, exit_usage, no_config}
use gemini_cpp.Program.Talk.{chat_loop, typed, quit, blank, input_lines}
use gemini_cpp.Program.Entry.{main}
use gemini_cpp.Program.Conversation.{Talked, nothing_said, chat_loop-Talked}
use gemini_cpp.Program.Refusal.{Untouched}
use gemini_cpp.Program.Whole.{program, main-Untouched}
use gemini_cpp.Tests.Client.{lib, host, options, start}
use gemini_cpp.Tests.Tools.{maths}

abbrev shell : Shell ℕ Value
shell = record { env = start; out = []; err = []; log = initial_log; files = [] }

abbrev getenv : Bytes → Option Bytes
getenv name = if equal name (codes "GEMINI_API_KEY") then some (codes "k") else none

abbrev now : Shell ℕ Value → Bytes × ℤ
now s = (codes "2026-01-02T03:04:05Z", pos 1767323045)

abbrev stop : List Bytes → List (GenerateResponse Value) → GenerateResponse Value → Bool
stop rest before chunk = false

abbrev chat_settings : ChatOptions Value ℤ
chat_settings = record {
  system_instruction = none;
  config = no_config lib;
  max_tool_rounds = pos 8;
}

abbrev no_tools : Option (ToolRegistry lib (Shell ℕ Value))
no_tools = none

abbrev new_session : Session Value
new_session = record { history = []; usage = no_usage }

chat_loop-Talked_example :
    Talked ints maths lib host options getenv now [] false stop options chat_settings no_tools (
      chat_loop ints maths lib host options getenv now [] false stop options chat_settings no_tools
        (codes "hi" ∷ codes "/usage" ∷ codes "/quit" ∷ [])
        new_session
        shell)
chat_loop-Talked_example =
    chat_loop-Talked ints maths lib host options getenv now [] false stop options chat_settings
      no_tools (codes "hi" ∷ codes "/usage" ∷ codes "/quit" ∷ []) new_session shell nothing_said

abbrev runner_options : RunnerOptions Value ℤ
runner_options = record {
  compiler = codes "c++";
  std_flag = codes "-std=c++20";
  extra_flags = [];
  sanitize = false;
  repair_rounds = pos 0;
  jobs = pos 1;
  work_root = codes "/tmp";
  keep_workdirs = false;
  use_reference = false;
  compile_timeout = pos 60000;
  startup_grace = pos 1000;
  max_log_bytes = 4000;
  generation = no_config lib;
}

abbrev directory : Bytes → Bool × Option Bytes × List Entry
directory path = (false, none, [])

abbrev run :
    Option (ClientOptions ℤ)
    → RunnerOptions Value ℤ
    → List Task
    → Env ℕ Value
    → List TaskResult × Report Value ℤ × Env ℕ Value
run client o tasks e =
    ([], record { model = []; started_at = []; wall_time = pos 0; options = o; results = [] }, e)

abbrev unknown_option : List Bytes
unknown_option = codes "tokens" ∷ codes "--bogus" ∷ []

main-Untouched_example :
    Untouched shell
      (main
        (codes "0.1.0")
        (program ints lib host options runner_options getenv directory
          (λ p. none)
          (λ j. [])
          run
          (λ n m. [])
          (λ j. ok [])
          (λ n m r. true)
          maths
          now
          []
          false
          stop
          false
          (λ n i o d. n)
          3)
        unknown_option
        shell).1
unfolding main program
main-Untouched_example =
    main-Untouched ints lib host options runner_options getenv directory (λ p. none) (λ j. []) run
      (λ n m. []) (λ j. ok []) (λ n m r. true) maths now [] false stop false (λ n i o d. n) 3
      (codes "0.1.0") unknown_option shell refl

-- The program on some words.
abbrev asked : List Bytes → Exit × Shell ℕ Value
asked words =
    main (codes "0.1.0")
      (program ints lib host options runner_options getenv directory (λ p. none) (λ j. []) run
        (λ n m. []) (λ j. ok []) (λ n m r. true) maths now [] false stop false (λ n i o d. n) 3)
      words shell

version_text : (asked (codes "version" ∷ codes "--help" ∷ [])).1.out ≡ codes "gemini-cpp 0.1.0\n"
unfolding main program
version_text = refl

ask_blank : (asked (codes "ask" ∷ codes " " ∷ [])).0 ≡ exit_usage
unfolding main program
ask_blank = refl

bad_level :
    (asked (codes "tokens" ∷ codes "--log-level" ∷ codes "loud" ∷ [])).1.err
    ≡ codes "gemini-cpp: invalid --log-level 'loud'\nRun 'gemini-cpp --help' for usage.\n"
unfolding main program
bad_level = refl

lines_of_input : input_lines (codes "a\n\nb") ≡ codes "a" ∷ [] ∷ codes "b" ∷ []
unfolding input_lines
lines_of_input = refl

quits : typed (codes "/quit") ≡ quit
unfolding typed
quits = refl

spaces : typed (codes " \t ") ≡ blank
unfolding typed
spaces = refl
