-- ===== src/Program/Talk.antt =====
-- apps/main.cpp: the command `chat`. `stop` is when the printer sees Ctrl-C, for each line of the input.
use gemini_cpp.Base.{
  ℕ, Bool, ◌||◌, ◌==◌, List, [], ◌∷◌, ◌++◌, Option, none, some, is_empty, if◌then◌else◌,
}
use gemini_cpp.Base.Int.{ℤ, pos}
use gemini_cpp.Base.Text.{Bytes, codes, equal}
use gemini_cpp.Error.{Result, ok, err, throws, cancelled, describe}
use gemini_cpp.Json.{FloatLib, JsonLib}
use gemini_cpp.Types.{
  Content, FunctionCall, FunctionResponse, GenerationConfig, GenerateRequest, GenerateResponse,
  no_usage, role_name, parts_text,
}
use gemini_cpp.Client.{Host, ClientOptions}
use gemini_cpp.Client.Stream.{stream}
use gemini_cpp.Tools.{ToolRegistry}
use gemini_cpp.Tools.Expression.{MathLib}
use gemini_cpp.Tools.Builtin.{register_defaults}
use gemini_cpp.Chat.{ChatOptions, Session, send, reset}
use gemini_cpp.Cli.{Args, Spec, flag, get}
use gemini_cpp.Program.Output.{usage_line, printer, printed}
use gemini_cpp.Program.{
  Shell, Finished, Exit, terminate, exit_ok, print, print_error, with_result, with_client,
  make_spec, only_bytes, no_config, with_args, make_client,
}

abbrev longer_line : ℕ → List Bytes → List Bytes
longer_line c [] = (c ∷ []) ∷ []
longer_line c (l ∷ ls) = (c ∷ l) ∷ ls

-- `std::getline` until the end of the input.
unfoldable pub input_lines : Bytes → List Bytes
input_lines [] = []
input_lines (c ∷ s) =
    let rest = input_lines s in if c == b'\n' then [] ∷ rest else longer_line c rest

-- What a line of the input asks for.
pub data Typed : Type 0 where
  blank quit clear show_usage show_history message : Typed

unfoldable pub typed : Bytes → Typed
unfolding only_bytes equal
typed line =
    if only_bytes (codes " \t") line
    then blank
    else if equal line (codes "/exit") || equal line (codes "/quit")
    then quit
    else if equal line (codes "/reset")
    then clear
    else if equal line (codes "/usage")
    then show_usage
    else if equal line (codes "/history")
    then show_history
    else message

unfoldable pub chat_spec : Spec
unfolding make_spec
chat_spec = make_spec [] (codes "tools" ∷ [])

abbrev escape : Bytes → Bytes
escape s = 27 ∷ s

module _ (F : FloatLib) (M : MathLib F.Double) (L : JsonLib F.Double) (H : Host F)
    (defaults : ClientOptions F.Double) (getenv : Bytes → Option Bytes)
    (now : Shell H.World L.Json → Bytes × ℤ) (stdin : Bytes) (tty : Bool)
    (stop : List Bytes → List (GenerateResponse L.Json) → GenerateResponse L.Json → Bool) where
  open L use {Json, dump}

  -- What is printed after a text that can be printed, or the exception in flight.
  abbrev then_print :
      (Bytes → Bytes)
      → Result Bytes
      → Option Bytes × Shell H.World Json
      → Option Bytes × Shell H.World Json
  then_print f (ok text) (none, s) = (none, print_error (f text) s)
  then_print f (throws w) (none, s) = (some w, s)
  then_print f (err e) (none, s) = (none, s)
  then_print f r (some w, s) = (some w, s)

  -- The observer of the tools: what stands before a `dump()` that throws has been printed.
  unfoldable pub show_call :
      FunctionCall Json
      → FunctionResponse Json
      → Shell H.World Json
      → Option Bytes × Shell H.World Json
  show_call c r s =
      then_print (λ answer. answer ++ (escape (codes "[0m") ++ codes "\n")) (dump r.response)
        (then_print (λ args. args ++ codes ") = ") (dump c.args)
          (none, print_error (codes "  " ++ (escape (codes "[2m-> ") ++ (c.name ++ codes "("))) s))

  -- One streamed request, with what the printer prints of its chunks; `rest` are the lines to come.
  unfoldable pub ask_streamed :
      ClientOptions F.Double
      → List Bytes
      → GenerateRequest Json F.Double
      → Shell H.World Json
      → Result (GenerateResponse Json) × Shell H.World Json
  unfolding stream printed
  ask_streamed o rest request s =
      let (r, e) = stream F L H o (printer (stop rest)) request (record s.env { delivered = [] }) in
      (r, print (printed (stop rest) [] e.delivered) (record s { env = e }))

  unfoldable pub history_text : List (Content Json) → Bytes
  unfolding parts_text
  history_text [] = []
  history_text (c ∷ cs) =
      let text = parts_text c.parts in
      (role_name c.role
        ++ (codes ": "
            ++ (text ++ ((if is_empty text then codes "<tool data>" else []) ++ codes "\n"))))
      ++ history_text cs

  -- What the error stream tells of a reply.
  unfoldable pub reply_error : Result (GenerateResponse Json) → Bytes
  unfolding describe
  reply_error (ok r) = []
  reply_error (throws w) = []
  reply_error (err e) = elim e.code [
    | cancelled ↦ codes "[cancelled]\n"
    | _ ↦ codes "error: " ++ (describe e ++ codes "\n")
  ]

  abbrev pub prompt_text : Bytes → Bytes
  prompt_text name = if tty then escape (codes "[1m") ++ (name ++ escape (codes "[0m ")) else []

  module _ (o : ClientOptions F.Double) (options : ChatOptions Json F.Double)
      (tools : Option (ToolRegistry L (Shell H.World Json))) where
    abbrev pub Talking : Type 0
    Talking = Exit × Session Json × Shell H.World Json

    -- After the reply to a message: an exception ends the program.
    abbrev pub after_reply :
        (Session Json → Shell H.World Json → Talking)
        → Result (GenerateResponse Json) × Session Json × Shell H.World Json
        → Talking
    after_reply more (throws w, c, s) = (terminate w, c, s)
    after_reply more (err e, c, s) =
        more c (print_error (reply_error (err e)) (print (codes "\n") s))
    after_reply more (ok r, c, s) = more c (print (codes "\n") s)

    -- The body of the loop on a line, and `more` for the lines after it.
    abbrev pub chat_line :
        (Session Json → Shell H.World Json → Talking)
        → Bytes
        → List Bytes
        → Typed
        → Session Json
        → Shell H.World Json
        → Talking
    chat_line more line rest blank c s = more c s
    chat_line more line rest quit c s = (exit_ok, c, s)
    chat_line more line rest clear c s =
        more (reset c) (print_error (codes "[history cleared]\n") s)
    chat_line more line rest show_usage c s = more c (print_error (usage_line c.usage) s)
    chat_line more line rest show_history c s = more c (print_error (history_text c.history) s)
    chat_line more line rest message c s = after_reply more (
        send L (ask_streamed o rest) show_call options tools line c
          (print_error (prompt_text (codes "gemini>")) s))

    -- The loop over the lines.
    unfoldable pub chat_loop : List Bytes → Session Json → Shell H.World Json → Talking
    unfolding typed send reset ask_streamed show_call history_text usage_line
    chat_loop [] c s = (exit_ok, c, print_error (prompt_text (codes "you>")) s)
    chat_loop (line ∷ rest) c s =
        chat_line (λ c' s'. chat_loop rest c' s') line rest (typed line) c
          (print_error (prompt_text (codes "you>")) s)

  unfoldable pub welcome : ClientOptions F.Double → Bool → Bytes
  welcome o tools =
      if tty
      then codes "gemini-cpp chat with "
        ++ (o.model
            ++ ((if tools then codes " (tools enabled)" else [])
                ++ codes ". Ctrl-C cancels a reply, Ctrl-D or /exit quits.\n"))
      else []

  abbrev pub end_chat : Exit × Session Json × Shell H.World Json → Finished H.World Json
  end_chat (e, c, s) = (e, s)

  abbrev pub chat_options : Args → GenerationConfig Json F.Double → ChatOptions Json F.Double
  chat_options args config = record {
    system_instruction = get args (codes "system");
    config = config;
    max_tool_rounds = pos 8;
  }

  abbrev pub chat_tools : Args → Option (ToolRegistry L (Shell H.World Json))
  chat_tools args =
      if flag args (codes "tools") then some (register_defaults F M L now []) else none

  -- The loop of a new session.
  unfoldable pub run_chat :
      ClientOptions F.Double
      → Args
      → GenerationConfig Json F.Double
      → Shell H.World Json
      → Exit × Session Json × Shell H.World Json
  unfolding chat_loop welcome register_defaults flag
  run_chat o args config s =
      chat_loop o (chat_options args config) (chat_tools args) (input_lines stdin)
        (record { history = []; usage = no_usage })
        (print_error (welcome o (flag args (codes "tools"))) s)

  unfoldable pub chat_with :
      Args → GenerationConfig Json F.Double → Shell H.World Json → Finished H.World Json
  unfolding make_client run_chat
  chat_with args config s =
      with_result (make_client getenv defaults args)
        (λ o. end_chat (run_chat o args config (with_client s))) s

  -- `cmd_chat`, on the words after the command.
  unfoldable pub cmd_chat : List Bytes → Shell H.World Json → Finished H.World Json
  unfolding with_args chat_with chat_spec
  cmd_chat words s = with_args F chat_spec (no_config L) chat_with words s
