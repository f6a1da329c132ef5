-- ===== src/Program/Entry.antt =====
-- apps/main.cpp: `main`, which picks a command.
use gemini_cpp.Base.{◌||◌, List, [], ◌∷◌, ◌++◌, if◌then◌else◌}
use gemini_cpp.Base.Text.{Bytes, codes, equal}
use gemini_cpp.Cli.{has_name}
use gemini_cpp.Program.{Shell, Finished, exit_ok, exit_usage, print, print_error, usage_error}

-- The lines of `kUsage` after the first words and the version.
unfoldable pub usage_lines : List Bytes
usage_lines =
    codes " - C++ client and coding-agent eval harness for Google Gemini\n"
    ∷ codes "\n"
    ∷ codes "Usage:\n"
    ∷ codes
        "  gemini-cpp ask [options] [PROMPT...]     one-shot prompt (reads stdin if PROMPT is empty or -)\n"
    ∷ codes "  gemini-cpp chat [options]                interactive multi-turn chat\n"
    ∷ codes "  gemini-cpp tokens [options] [PROMPT...]  count tokens for a prompt\n"
    ∷ codes "  gemini-cpp models                        list models available to your API key\n"
    ∷ codes
        "  gemini-cpp eval [options]                have Gemini solve C++ tasks; compile & test the results\n"
    ∷ codes "\n"
    ∷ codes "Common options:\n"
    ∷ codes "  --model NAME            model to use (default: $GEMINI_MODEL or gemini-2.5-flash)\n"
    ∷ codes "  --system TEXT           system instruction\n"
    ∷ codes "  --temperature X         sampling temperature\n"
    ∷ codes "  --max-tokens N          maximum output tokens\n"
    ∷ codes
        "  --thinking-budget N     thinking token budget (0 disables thinking where supported)\n"
    ∷ codes "  --log-level LEVEL       debug | info | warn | error | off   (default: warn)\n"
    ∷ codes "  --log-json              emit logs as JSON lines on stderr\n"
    ∷ codes "\n"
    ∷ codes "ask:\n"
    ∷ codes "  --no-stream             wait for the full response instead of streaming\n"
    ∷ codes
        "  --json                  ask for a JSON response (responseMimeType=application/json)\n"
    ∷ codes "  --usage                 print token usage to stderr\n"
    ∷ codes "\n"
    ∷ codes "chat:\n"
    ∷ codes
        "  --tools                 enable built-in tools (get_current_time, evaluate_expression)\n"
    ∷ codes "  In-chat commands: /reset  /usage  /history  /exit\n"
    ∷ codes "\n"
    ∷ codes "eval:\n"
    ∷ codes "  --tasks DIR             task directory (default: ./tasks)\n"
    ∷ codes "  --task ID               only run this task (repeatable)\n"
    ∷ codes "  --jobs N                tasks to evaluate in parallel (default: 1)\n"
    ∷ codes "  --repair N              feed failures back to the model up to N times (default: 0)\n"
    ∷ codes "  --sanitize              build tests with AddressSanitizer + UBSan\n"
    ∷ codes
        "  --reference             evaluate each task's reference.hpp instead of calling the model\n"
    ∷ codes "  --compiler PATH         C++ compiler (default: $CXX or c++)\n"
    ∷ codes "  --std FLAG              language standard flag (default: -std=c++20)\n"
    ∷ codes "  --work-dir DIR          where per-task build directories are created\n"
    ∷ codes "  --keep                  keep build directories for inspection\n"
    ∷ codes "  --report-json FILE      write the full JSON report (includes sources and logs)\n"
    ∷ codes "  --report-md FILE        write a Markdown summary\n"
    ∷ codes "  --min-pass RATIO        exit 0 if the final pass rate is >= RATIO (default: 1.0)\n"
    ∷ codes "\n"
    ∷ codes "Environment:\n"
    ∷ codes
        "  GEMINI_API_KEY          API key (https://aistudio.google.com/apikey); GOOGLE_API_KEY also works\n"
    ∷ codes "  GEMINI_MODEL            default model\n"
    ∷ codes
        "  GEMINI_BASE_URL         API base URL (default: https://generativelanguage.googleapis.com/v1beta)\n"
    ∷ []

abbrev concat : List Bytes → Bytes
concat [] = []
concat (l ∷ ls) = l ++ concat ls

-- `kUsage`; the build gives the version.
unfoldable pub usage_text : Bytes → Bytes
unfolding usage_lines
usage_text version = codes "gemini-cpp " ++ (version ++ concat usage_lines)

-- The five commands, on the words that follow.
pub record Commands (W J : Type 0) : Type 0 where
  pub ask : List Bytes → Shell W J → Finished W J
  pub chat : List Bytes → Shell W J → Finished W J
  pub tokens : List Bytes → Shell W J → Finished W J
  pub models : List Bytes → Shell W J → Finished W J
  pub eval : List Bytes → Shell W J → Finished W J

module _ {W J : Type 0} (version : Bytes) (commands : Commands W J) where
  unfoldable pub run_command : Bytes → List Bytes → Shell W J → Finished W J
  unfolding usage_error equal
  run_command name words s =
      if equal name (codes "ask")
      then commands.ask words s
      else if equal name (codes "chat")
      then commands.chat words s
      else if equal name (codes "tokens")
      then commands.tokens words s
      else if equal name (codes "models")
      then commands.models words s
      else if equal name (codes "eval")
      then commands.eval words s
      else usage_error (codes "unknown command '" ++ (name ++ codes "'")) s

  -- `main`, on the words after the program's name.
  unfoldable pub main : List Bytes → Shell W J → Finished W J
  unfolding run_command usage_text equal has_name
  main [] s = (exit_usage, print_error (usage_text version) s)
  main (name ∷ words) s =
      if equal name (codes "--help") || (equal name (codes "-h") || equal name (codes "help"))
      then (exit_ok, print (usage_text version) s)
      else if equal name (codes "--version") || equal name (codes "version")
      then (exit_ok, print (codes "gemini-cpp " ++ (version ++ codes "\n")) s)
      else if has_name (codes "--help") words
      then (exit_ok, print (usage_text version) s)
      else run_command name words s
