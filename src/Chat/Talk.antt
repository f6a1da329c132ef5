-- ===== src/Chat/Talk.antt =====
-- src/chat.cpp: `send` on the client. A reply is streamed if the caller gives a callback.
use gemini_cpp.Base.{Option, none, some}
use gemini_cpp.Base.Text.{Bytes}
use gemini_cpp.Error.{Result}
use gemini_cpp.Json.{FloatLib, JsonLib}
use gemini_cpp.Types.{FunctionCall, FunctionResponse, GenerateRequest, GenerateResponse}
use gemini_cpp.Client.{Host, ClientOptions, Env}
use gemini_cpp.Client.Calls.{generate}
use gemini_cpp.Client.Stream.{Callback, stream}
use gemini_cpp.Tools.{ToolRegistry}
use gemini_cpp.Chat.{ChatOptions, Session, send}

module _ (F : FloatLib) (L : JsonLib F.Double) (H : Host F) (o : ClientOptions F.Double) where
  open L use {Json}

  -- `on_chunk ? client_.stream(request, on_chunk) : client_.generate(request)`.
  unfoldable pub ask_client :
      Option (Callback F L)
      → GenerateRequest Json F.Double
      → Env H.World Json
      → Result (GenerateResponse Json) × Env H.World Json
  unfolding generate stream
  ask_client none request s = generate F L H o request s
  ask_client (some on_chunk) request s = stream F L H o on_chunk request s

  -- `send` of a session on this client; the observer is the one of `set_tool_observer`.
  unfoldable pub send_with :
      Option (Callback F L)
      → (observer : FunctionCall Json
          → FunctionResponse Json
          → Env H.World Json
          → Option Bytes × Env H.World Json)
      → (options : ChatOptions Json F.Double) → (tools : Option (ToolRegistry L (Env H.World Json)))
      → Bytes
      → Session Json
      → Env H.World Json
      → Result (GenerateResponse Json) × Session Json × Env H.World Json
  unfolding ask_client send
  send_with on_chunk observer options tools message session s =
      send L (ask_client on_chunk) observer options tools message session s
