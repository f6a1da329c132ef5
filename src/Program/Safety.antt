-- ===== src/Program/Safety.antt =====
-- apps/main.cpp: a run that ends with status 2, of `chat`, of `eval` and of any command.
use gemini_cpp.Base.{Bool, ◌||◌, List, [], ◌∷◌, ◌++◌, Option, refl, arith, inl, inr}
use gemini_cpp.Base.Int.{ℤ}
use gemini_cpp.Base.Text.{Bytes, codes, equal}
use gemini_cpp.Json.{FloatLib, JsonLib}
use gemini_cpp.Types.{GenerationConfig, GenerateResponse, no_usage}
use gemini_cpp.Client.{Host, ClientOptions}
use gemini_cpp.Tools.Expression.{MathLib}
use gemini_cpp.Cli.{Args, has_name}
use gemini_cpp.Chat.{ChatOptions, Session}
use gemini_cpp.Tools.{ToolRegistry}
use gemini_cpp.Program.{Shell, Exit, print, make_client, with_client, no_config}
use gemini_cpp.Program.Talk.{
  chat_spec, cmd_chat, chat_with, end_chat, input_lines, chat_options, chat_tools, run_chat,
}
use gemini_cpp.Program.Conversation.{nothing_said, Talked, chat_loop-Talked}
use gemini_cpp.Program.Entry.{Commands, main, run_command, usage_text}
use gemini_cpp.Program.Refusal.{
  Refuses, other_end, exit_ok-Refuses, usage_error-Refuses, with_result-Refuses, with_args-Refuses,
  if-Refuses,
}

module _ {W J : Type 0} (version : Bytes) (commands : Commands W J) where
  -- Every command refuses its words before it does anything.
  pub record AllRefuse : Type 0 where
    pub ask : (words : List Bytes) (s : Shell W J) → Refuses s (commands.ask words s)
    pub chat : (words : List Bytes) (s : Shell W J) → Refuses s (commands.chat words s)
    pub tokens : (words : List Bytes) (s : Shell W J) → Refuses s (commands.tokens words s)
    pub models : (words : List Bytes) (s : Shell W J) → Refuses s (commands.models words s)
    pub eval : (words : List Bytes) (s : Shell W J) → Refuses s (commands.eval words s)

  run_command-Refuses :
      AllRefuse
      → (name : Bytes) (words : List Bytes) (s : Shell W J)
      → Refuses s (run_command version commands name words s)
  unfolding run_command
  run_command-Refuses h name words s = if-Refuses s (equal name (codes "ask")) _ _ (h.ask words s) (
      if-Refuses s (equal name (codes "chat")) _ _ (h.chat words s) (
        if-Refuses s (equal name (codes "tokens")) _ _ (h.tokens words s) (
          if-Refuses s (equal name (codes "models")) _ _ (h.models words s) (
            if-Refuses s (equal name (codes "eval")) _ _ (h.eval words s) (
              usage_error-Refuses s s (codes "unknown command '" ++ (name ++ codes "'"))
                (refl, refl, refl))))))

  pub main-Refuses :
      AllRefuse → (words : List Bytes) (s : Shell W J) → Refuses s (main version commands words s)
  unfolding main
  main-Refuses h [] s = record { untouched = λ e. (refl, refl, refl) }
  main-Refuses h (name ∷ words) s =
      if-Refuses s
        (equal name (codes "--help") || (equal name (codes "-h") || equal name (codes "help"))) _ _
        (exit_ok-Refuses s (print (usage_text version) s))
        (if-Refuses s (equal name (codes "--version") || equal name (codes "version")) _ _
          (exit_ok-Refuses s (print (codes "gemini-cpp " ++ (version ++ codes "\n")) s))
          (if-Refuses s (has_name (codes "--help") words) _ _
            (exit_ok-Refuses s (print (usage_text version) s))
            (run_command-Refuses h name words s)))

module _ (F : FloatLib) (M : MathLib F.Double) (L : JsonLib F.Double) (H : Host F)
    (defaults : ClientOptions F.Double) (getenv : Bytes → Option Bytes)
    (now : Shell H.World L.Json → Bytes × ℤ) (stdin : Bytes) (tty : Bool)
    (stop : List Bytes → List (GenerateResponse L.Json) → GenerateResponse L.Json → Bool) where
  open L use {Json}

  end_chat-Refuses :
      (s : Shell H.World Json) (o : ClientOptions F.Double) (options : ChatOptions Json F.Double)
      (tools : Option (ToolRegistry L (Shell H.World Json)))
      (out : Exit × Session Json × Shell H.World Json)
      → Talked F M L H defaults getenv now stdin tty stop o options tools out
      → Refuses s (end_chat F M L H defaults getenv now stdin tty stop out)
  end_chat-Refuses s o options tools (e, c, t) (inl (done, v)) =
      other_end s (e, t) (λ u. ground arith)
  end_chat-Refuses s o options tools (e, c, t) (inr (w, thrown)) = other_end s (e, t) (λ u. cc)

  run_chat-Talked :
      (o : ClientOptions F.Double) (args : Args) (config : GenerationConfig Json F.Double)
      (s : Shell H.World Json)
      → Talked F M L H defaults getenv now stdin tty stop o
          (chat_options F M L H defaults getenv now stdin tty stop args config)
          (chat_tools F M L H defaults getenv now stdin tty stop args)
          (run_chat F M L H defaults getenv now stdin tty stop o args config s)
  unfolding run_chat
  run_chat-Talked o args config s =
      chat_loop-Talked F M L H defaults getenv now stdin tty stop o _
        (chat_tools F M L H defaults getenv now stdin tty stop args) (input_lines stdin)
        (record { history = []; usage = no_usage }) _ nothing_said

  chat_with-Refuses :
      (s t : Shell H.World Json) (args : Args) (config : GenerationConfig Json F.Double)
      → Refuses s (chat_with F M L H defaults getenv now stdin tty stop args config t)
  unfolding chat_with
  chat_with-Refuses s t args config =
      with_result-Refuses s t (make_client getenv defaults args) _ (λ o.
        end_chat-Refuses s o (chat_options F M L H defaults getenv now stdin tty stop args config)
          (chat_tools F M L H defaults getenv now stdin tty stop args)
          (run_chat F M L H defaults getenv now stdin tty stop o args config (with_client t))
          (run_chat-Talked o args config (with_client t)))

  pub cmd_chat-Refuses :
      (words : List Bytes) (s : Shell H.World Json)
      → Refuses s (cmd_chat F M L H defaults getenv now stdin tty stop words s)
  unfolding cmd_chat
  cmd_chat-Refuses words s =
      with_args-Refuses F chat_spec (no_config L)
        (chat_with F M L H defaults getenv now stdin tty stop) words s
        (λ args c t h. chat_with-Refuses s t args c)
