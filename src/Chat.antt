-- ===== src/Chat.antt =====
-- include/gemini/chat.hpp and src/chat.cpp: a conversation with tool calls. The two calls of the client
-- that a session makes are an interface, which `Chat/Talk` fills.
pub mod Turns
pub mod History
pub mod Talk
use gemini_cpp.Base.{
  ℕ, zero, suc, Bool, true, false, not, ◌||◌, List, [], ◌∷◌, ◌++◌, Option, none, some, is_empty,
  if◌then◌else◌, take, length, or_value, map,
}
use gemini_cpp.Base.Int.{ℤ, pos, pos_part, ◌+ℤ◌}
use gemini_cpp.Base.Text.{Bytes, codes, show_ℤ}
use gemini_cpp.Error.{Result, ok, err, throws, Error, make_error, parse, invalid_argument}
use gemini_cpp.Json.{JsonLib}
use gemini_cpp.Types.{
  user, model, FunctionCall, FunctionResponse, Part, Content, GenerationConfig, GenerateRequest,
  GenerateResponse, UsageMetadata, no_usage, add_usage, user_content, response_part, parts_calls,
  function_calls, Candidate,
}
use gemini_cpp.Tools.{ToolRegistry, declarations, invoke}

pub record ChatOptions (J D : Type 0) : Type 0 where
  pub system_instruction : Option Bytes
  pub config : GenerationConfig J D
  pub max_tool_rounds : ℤ

-- `history_` and `usage_`.
pub record Session (J : Type 0) : Type 0 where
  pub history : List (Content J)
  pub usage : UsageMetadata

unfoldable pub reset : {J : Type 0} → Session J → Session J
reset s = record { history = []; usage = no_usage }

module _ {D : Type 0} (L : JsonLib D) {W : Type 0}
    -- `generate`, or `stream` with the caller's callback.
    (ask : GenerateRequest L.Json D → W → Result (GenerateResponse L.Json) × W)
    -- the observer, with the exception that it throws, if any
    (observer : FunctionCall L.Json → FunctionResponse L.Json → W → Option Bytes × W)
    (options : ChatOptions L.Json D) (tools : Option (ToolRegistry L W)) where
  open L use {Json, dump}

  unfoldable pub build_request : List (Content Json) → GenerateRequest Json D
  unfolding declarations
  build_request history = record {
    contents = history;
    system_instruction = elim options.system_instruction [
      | none ↦ none
      | some text ↦ some (user_content text)
    ];
    tools = elim tools [ none ↦ [] | some registry ↦ declarations L W registry ];
    config = options.config;
    safety_settings = [];
  }

  -- The rest of a round, unless the log line's `dump()` throws.
  unfoldable pub if_printed : {T : Type 0} → Result Bytes → Result T × W → W → Result T × W
  if_printed (ok text) rest w = rest
  if_printed (err e) rest w = (err e, w)
  if_printed (throws what) rest w = (throws what, w)

  unfoldable pub add_answer :
      FunctionResponse Json → Result (List (Part Json)) × W → Result (List (Part Json)) × W
  add_answer result (ok parts, w) = (ok (response_part result ∷ parts), w)
  add_answer result (err e, w) = (err e, w)
  add_answer result (throws what, w) = (throws what, w)

  -- The rest of a round, unless the observer throws.
  unfoldable pub if_observed : {T : Type 0} → Option Bytes × W → (W → Result T × W) → Result T × W
  if_observed (none, w) rest = rest w
  if_observed (some what, w) rest = (throws what, w)

  -- The loop over the calls of one reply.
  unfoldable pub run_calls :
      ToolRegistry L W → List (FunctionCall Json) → W → Result (List (Part Json)) × W
  unfolding if_printed if_observed add_answer
  run_calls registry [] w = (ok [], w)
  run_calls registry (c ∷ calls) w =
      let (result, w') = invoke L W registry c w in
      if_printed (dump c.args)
        (if_observed (observer c result w')
          (λ w''. add_answer result (run_calls registry calls w'')))
        w

  abbrev said : Session Json → Content Json → Session Json
  said s c = record s { history = s.history ++ c ∷ [] }

  abbrev reply_of : Content Json → Content Json
  reply_of c = record c { role = model }

  -- What a round does after the model's answer: it ends `send`, or it leads to the next round.
  pub data Round : Type 0 where
    done : Result (GenerateResponse Json) → Session Json → W → Round
    next : Session Json → W → Round

  -- A reply with calls, once the tools have run.
  unfoldable pub after_calls : Session Json → Result (List (Part Json)) × W → Round
  after_calls s (ok parts, w) = next (said s (record { role = user; parts = parts })) w
  after_calls s (err e, w) = done (err e) s w
  after_calls s (throws what, w) = done (throws what) s w

  unfoldable pub use_tools :
      Option (ToolRegistry L W)
      → List (FunctionCall Json)
      → GenerateResponse Json
      → Session Json
      → W
      → Round
  unfolding after_calls
  use_tools none calls r s w = done (ok r) s w
  use_tools (some registry) [] r s w = done (ok r) s w
  use_tools (some registry) (c ∷ calls) r s w = after_calls s (run_calls registry (c ∷ calls) w)

  unfoldable pub first_reply :
      List (Candidate Json) → GenerateResponse Json → Session Json → W → Round
  unfolding use_tools
  first_reply [] r s w = done (err (make_error parse (codes "response has no candidates"))) s w
  first_reply (c ∷ cs) r s w =
      use_tools tools (parts_calls c.content.parts) r (said s (reply_of c.content)) w

  unfoldable pub take_reply : Result (GenerateResponse Json) × W → Session Json → Round
  unfolding first_reply
  take_reply (ok r, w) s =
      first_reply r.candidates r (record s { usage = add_usage s.usage r.usage }) w
  take_reply (err e, w) s = done (err e) s w
  take_reply (throws what, w) s = done (throws what) s w

  abbrev pub too_many : Error
  too_many = make_error invalid_argument (
      codes "model exceeded max_tool_rounds ("
      ++ show_ℤ options.max_tool_rounds
      ++ codes ") without answering")

  abbrev pub Reply : Type 0
  Reply = Result (GenerateResponse Json) × Session Json × W

  -- The round's end, or the rest of the loop.
  unfoldable pub go_on : (Session Json → W → Reply) → Round → Reply
  go_on rest (done r s w) = (r, s, w)
  go_on rest (next s w) = rest s w

  -- The loop of `send`, with the number of rounds that are left.
  unfoldable pub talk : ℕ → Session Json → W → Reply
  unfolding build_request take_reply go_on
  talk zero s w = (err too_many, s, w)
  talk (suc left) s w =
      go_on (λ s' w'. talk left s' w') (take_reply (ask (build_request s.history) w) s)

  -- `rollback`, which only an error value reaches.
  unfoldable pub roll_back : ℕ → Reply → Reply
  roll_back checkpoint (err e, s, w) = (err e, record s { history = take checkpoint s.history }, w)
  roll_back checkpoint (ok r, s, w) = (ok r, s, w)
  roll_back checkpoint (throws what, s, w) = (throws what, s, w)

  -- `send`: rounds 0 to `max_tool_rounds`.
  unfoldable pub send : Bytes → Session Json → W → Reply
  unfolding talk roll_back
  send message s w =
      roll_back (length s.history)
        (talk (pos_part (options.max_tool_rounds +ℤ pos 1)) (said s (user_content message)) w)
