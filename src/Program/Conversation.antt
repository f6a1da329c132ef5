-- ===== src/Program/Conversation.antt =====
-- apps/main.cpp and src/chat.cpp: what the history of `chat` is, whatever is typed.
use gemini_cpp.Base.{
  ℕ, Bool, List, [], ◌∷◌, ◌++◌, ◌<◌, Option, ◌≡◌, ◌⊎◌, inl, inr, refl, sym, subst,
}
use gemini_cpp.Base.Int.{ℤ, pos, pos_part, ◌+ℤ◌}
use gemini_cpp.Base.Text.{Bytes, codes}
use gemini_cpp.Error.{Result, ok, err, throws}
use gemini_cpp.Json.{FloatLib, JsonLib}
use gemini_cpp.Types.{model, Content, GenerateResponse, user_content}
use gemini_cpp.Client.{Host, ClientOptions}
use gemini_cpp.Tools.{ToolRegistry}
use gemini_cpp.Tools.Expression.{MathLib}
use gemini_cpp.Chat.{ChatOptions, Session, reset}
use gemini_cpp.Chat.Turns.{ToolTurns}
use gemini_cpp.Chat.History.{Sent, send-Sent}
use gemini_cpp.Program.{Shell, Exit, terminate, exit_ok, print_error}
use gemini_cpp.Program.Talk.{
  Typed, blank, quit, clear, show_usage, show_history, message, typed, show_call, ask_streamed,
  prompt_text, after_reply, chat_line, chat_loop,
}

-- Nothing, or a conversation with one more message that was answered: a line that is neither blank nor a
-- command, fewer than `n` rounds with tool calls and their results, and the answer in the model's role.
pub data Conversation {J : Type 0} (n : ℕ) : List (Content J) → Type 0 where
  nothing_said : Conversation n []
  answered :
      {h history : List (Content J)} (line : Bytes) (rounds : ℕ) (turns : List (Content J))
      (last : Content J)
      → Conversation n h
      → typed line ≡ message
      → ToolTurns rounds turns
      → rounds < n
      → last.role ≡ model
      → history ≡ (h ++ user_content line ∷ []) ++ (turns ++ last ∷ [])
      → Conversation n history

module _ (F : FloatLib) (M : MathLib F.Double) (L : JsonLib F.Double) (H : Host F)
    (defaults : ClientOptions F.Double) (getenv : Bytes → Option Bytes)
    (now : Shell H.World L.Json → Bytes × ℤ) (stdin : Bytes) (tty : Bool)
    (stop : List Bytes → List (GenerateResponse L.Json) → GenerateResponse L.Json → Bool)
    (o : ClientOptions F.Double) (options : ChatOptions L.Json F.Double)
    (tools : Option (ToolRegistry L (Shell H.World L.Json))) where
  open L use {Json}

  abbrev pub rounds_of : ℕ
  rounds_of = pos_part (options.max_tool_rounds +ℤ pos 1)

  -- The program is to go on or has ended well, or an exception has ended it.
  abbrev pub Talked : Exit × Session Json × Shell H.World Json → Type 0
  Talked out =
      ((out.0 ≡ exit_ok) × Conversation rounds_of out.1.history)
      ⊎ ((w : Bytes) × (out.0 ≡ terminate w))

  after_reply-Talked :
      (more : Session Json → Shell H.World Json → Exit × Session Json × Shell H.World Json)
      (line : Bytes) (rest : List Bytes) (h : List (Content Json))
      (out : Result (GenerateResponse Json) × Session Json × Shell H.World Json)
      → Conversation rounds_of h
      → typed line ≡ message
      → Sent L
          (ask_streamed F M L H defaults getenv now stdin tty stop o rest)
          (show_call F M L H defaults getenv now stdin tty stop)
          options
          tools
          line
          h
          out
      → ((c : Session Json) (s : Shell H.World Json)
          → Conversation rounds_of c.history
          → Talked (more c s))
      → Talked (after_reply F M L H defaults getenv now stdin tty stop o options tools more out)
  after_reply-Talked more line rest h (throws w, c, s) v t sent k = inr (w, refl)
  after_reply-Talked more line rest h (err e, c, s) v t sent k =
      k c _ (subst (Conversation rounds_of) (sym sent) v)
  after_reply-Talked more line rest h (ok r, c, s) v t (m, turns, last, ts, lt, e, f) k =
      k c _ (answered line m turns last v t ts lt f.0 e)

  chat_line-Talked :
      (more : Session Json → Shell H.World Json → Exit × Session Json × Shell H.World Json)
      (line : Bytes) (rest : List Bytes) (k : Typed) (c : Session Json) (s : Shell H.World Json)
      → Conversation rounds_of c.history
      → typed line ≡ k
      → ((c : Session Json) (s : Shell H.World Json)
          → Conversation rounds_of c.history
          → Talked (more c s))
      → Talked (
          chat_line F M L H defaults getenv now stdin tty stop o options tools more line rest k c s)
  unfolding reset
  chat_line-Talked more line rest blank c s v t k = k c s v
  chat_line-Talked more line rest quit c s v t k = inl (refl, v)
  chat_line-Talked more line rest clear c s v t k = k _ _ nothing_said
  chat_line-Talked more line rest show_usage c s v t k = k c _ v
  chat_line-Talked more line rest show_history c s v t k = k c _ v
  chat_line-Talked more line rest message c s v t k =
      let t' =
        print_error (prompt_text F M L H defaults getenv now stdin tty stop (codes "gemini>")) s in
      after_reply-Talked more line rest c.history _ v t
        (send-Sent L (ask_streamed F M L H defaults getenv now stdin tty stop o rest)
          (show_call F M L H defaults getenv now stdin tty stop) options tools line c t')
        k

  -- The loop of `chat` over any lines, from a conversation, whatever the client, the tools and Ctrl-C do:
  -- it ends with status 0 or by an exception. With status 0 the history is a conversation again: messages
  -- that are neither blank nor a command, each with its rounds of tool calls and its answer.
  pub chat_loop-Talked :
      (lines : List Bytes) (c : Session Json) (s : Shell H.World Json)
      → Conversation rounds_of c.history
      → Talked (chat_loop F M L H defaults getenv now stdin tty stop o options tools lines c s)
  unfolding chat_loop
  chat_loop-Talked [] c s v = inl (refl, v)
  chat_loop-Talked (line ∷ rest) c s v =
      chat_line-Talked _ line rest (typed line) c _ v refl (chat_loop-Talked rest)
