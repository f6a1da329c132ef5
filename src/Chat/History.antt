-- ===== src/Chat/History.antt =====
-- src/chat.cpp: what `send` does to the history, for every client and every set of tools.
use gemini_cpp.Base.{
  ℕ, zero, suc, List, [], ◌∷◌, ◌++◌, Option, none, some, take, length, ◌≡◌, refl, sym, ap, ◌∙◌,
  append-nil, append_assoc, take-length-append, arith, subst,
}
use gemini_cpp.Base.Int.{pos, pos_part, ◌+ℤ◌}
use gemini_cpp.Base.Text.{Bytes}
use gemini_cpp.Error.{Result, ok, err, throws}
use gemini_cpp.Json.{JsonLib}
use gemini_cpp.Types.{
  user, model, FunctionCall, FunctionResponse, Part, Content, GenerateRequest, GenerateResponse,
  add_usage, user_content, parts_calls, Candidate,
}
use gemini_cpp.Tools.{ToolRegistry, invoke}
use gemini_cpp.Chat.{
  ChatOptions, Session, Round, done, next, if_printed, if_observed, add_answer, run_calls,
  after_calls, use_tools, first_reply, take_reply, talk, go_on, roll_back, send, build_request,
  Reply,
}
use gemini_cpp.Chat.Turns.{
  Answers, no_calls, one_call, IsTurn, no_turns, IsFinal, Ended, Ended-turn,
}

module _ {D : Type 0} (L : JsonLib D) {W : Type 0}
    (ask : GenerateRequest L.Json D → W → Result (GenerateResponse L.Json) × W)
    (observer : FunctionCall L.Json → FunctionResponse L.Json → W → Option Bytes × W)
    (options : ChatOptions L.Json D) (tools : Option (ToolRegistry L W)) where
  open L use {Json, dump}

  abbrev AllAnswered : List (FunctionCall Json) → Result (List (Part Json)) × W → Type 0
  AllAnswered cs (ok ps, w) = Answers cs ps
  AllAnswered cs _ = Unit

  invoke-keeps :
      (registry : ToolRegistry L W) (c : FunctionCall Json) (w : W)
      → let r = (invoke L W registry c w).0 in (r.name ≡ c.name) × (r.id ≡ c.id)
  unfolding invoke
  invoke-keeps [] c w = (refl, refl)
  invoke-keeps (t ∷ tools) c w = ground (arith, invoke-keeps tools c w)

  if_printed-AllAnswered :
      (cs : List (FunctionCall Json)) (d : Result Bytes) (rest : Result (List (Part Json)) × W)
      (w : W)
      → AllAnswered cs rest
      → AllAnswered cs (if_printed L ask observer options tools d rest w)
  unfolding if_printed
  if_printed-AllAnswered cs (ok t) rest w h = h
  if_printed-AllAnswered cs (err e) rest w h = tt
  if_printed-AllAnswered cs (throws e) rest w h = tt

  add_answer-AllAnswered :
      (c : FunctionCall Json) (cs : List (FunctionCall Json)) (r : FunctionResponse Json)
      (rest : Result (List (Part Json)) × W)
      → (r.name ≡ c.name) × (r.id ≡ c.id)
      → AllAnswered cs rest
      → AllAnswered (c ∷ cs) (add_answer L ask observer options tools r rest)
  unfolding add_answer
  add_answer-AllAnswered c cs r (ok ps, w) k h = one_call (r, refl, k.0, k.1) h
  add_answer-AllAnswered c cs r (err e, w) k h = tt
  add_answer-AllAnswered c cs r (throws e, w) k h = tt

  if_observed-AllAnswered :
      (cs : List (FunctionCall Json)) (seen : Option Bytes × W)
      (rest : W → Result (List (Part Json)) × W)
      → ((w : W) → AllAnswered cs (rest w))
      → AllAnswered cs (if_observed L ask observer options tools seen rest)
  unfolding if_observed
  if_observed-AllAnswered cs (none, w) rest h = h w
  if_observed-AllAnswered cs (some what, w) rest h = tt

  run_calls-AllAnswered :
      (registry : ToolRegistry L W) (cs : List (FunctionCall Json)) (w : W)
      → AllAnswered cs (run_calls L ask observer options tools registry cs w)
  unfolding run_calls
  run_calls-AllAnswered registry [] w = no_calls
  run_calls-AllAnswered registry (c ∷ cs) w = if_printed-AllAnswered (c ∷ cs) (dump c.args) _ w (
      if_observed-AllAnswered (c ∷ cs) _ _ (λ v.
        add_answer-AllAnswered c cs _ _ (invoke-keeps registry c w)
          (run_calls-AllAnswered registry cs v)))

  -- A round from the history `h`: it ends `send`, or it adds a turn with tool calls.
  abbrev RoundFrom : List (Content Json) → Round L ask observer options tools → Type 0
  RoundFrom h (done r s w) = Ended 1 h (r, s, w)
  RoundFrom h (next s w) =
      (reply : Content Json) × (results : Content Json) × IsTurn reply results
      × (s.history ≡ h ++ reply ∷ results ∷ [])

  after_calls-RoundFrom :
      (h : List (Content Json)) (reply : Content Json) (s : Session Json)
      (out : Result (List (Part Json)) × W)
      → reply.role ≡ model
      → s.history ≡ h ++ reply ∷ []
      → AllAnswered (parts_calls reply.parts) out
      → RoundFrom h (after_calls L ask observer options tools s out)
  unfolding after_calls
  after_calls-RoundFrom h reply s (ok ps, w) m e a = (
    reply,
    record { role = user; parts = ps },
    (m, refl, a),
    ap (λ l. l ++ record { role = user; parts = ps } ∷ []) e ∙ append_assoc h (reply ∷ []) _,
  )
  after_calls-RoundFrom h reply s (err e, w) m g a = (reply ∷ [], g)
  after_calls-RoundFrom h reply s (throws e, w) m g a = (reply ∷ [], g)

  final :
      (h : List (Content Json)) (reply : Content Json) (r : GenerateResponse Json)
      (s : Session Json) (w : W)
      → s.history ≡ h ++ reply ∷ []
      → IsFinal r reply
      → Ended 1 h (ok r, s, w)
  final h reply r s w e f = (0, [], reply, no_turns, omega arith, e, f)

  use_tools-RoundFrom :
      (registry : Option (ToolRegistry L W)) (calls : List (FunctionCall Json))
      (h : List (Content Json)) (reply : Content Json) (r : GenerateResponse Json)
      (s : Session Json) (w : W)
      → calls ≡ parts_calls reply.parts
      → s.history ≡ h ++ reply ∷ []
      → IsFinal r reply
      → RoundFrom h (use_tools L ask observer options tools registry calls r s w)
  unfolding use_tools
  use_tools-RoundFrom none calls h reply r s w c e f = final h reply r s w e f
  use_tools-RoundFrom (some registry) [] h reply r s w c e f = final h reply r s w e f
  use_tools-RoundFrom (some registry) (x ∷ xs) h reply r s w c e f =
      after_calls-RoundFrom h reply s _ f.0 e (
        subst (λ cs. AllAnswered cs (run_calls L ask observer options tools registry (x ∷ xs) w)) c
          (run_calls-AllAnswered registry (x ∷ xs) w))

  first_reply-RoundFrom :
      (cs : List (Candidate Json)) (r : GenerateResponse Json) (s : Session Json) (w : W)
      → r.candidates ≡ cs
      → RoundFrom s.history (first_reply L ask observer options tools cs r s w)
  unfolding first_reply
  first_reply-RoundFrom [] r s w e = ([], sym (append-nil s.history))
  first_reply-RoundFrom (c ∷ cs) r s w e =
      use_tools-RoundFrom tools _ s.history (record c.content { role = model }) r _ w refl refl
        (refl, c, cs, e, refl)

  take_reply-RoundFrom :
      (out : Result (GenerateResponse Json) × W) (s : Session Json)
      → RoundFrom s.history (take_reply L ask observer options tools out s)
  unfolding take_reply
  take_reply-RoundFrom (ok r, w) s =
      first_reply-RoundFrom r.candidates r (record s { usage = add_usage s.usage r.usage }) w refl
  take_reply-RoundFrom (err e, w) s = ([], sym (append-nil s.history))
  take_reply-RoundFrom (throws e, w) s = ([], sym (append-nil s.history))

  go_on-Ended :
      (n : ℕ) (h : List (Content Json))
      (rest : Session Json → W → Reply L ask observer options tools)
      (round : Round L ask observer options tools)
      → RoundFrom h round
      → ((s : Session Json) (w : W) → Ended n s.history (rest s w))
      → Ended (suc n) h (go_on L ask observer options tools rest round)
  unfolding go_on
  go_on-Ended n h rest (done (ok r) s w) (m, turns, last, ts, lt, e, f) k =
      (m, turns, last, ts, omega arith, e, f)
  go_on-Ended n h rest (done (err e) s w) g k = g
  go_on-Ended n h rest (done (throws e) s w) g k = g
  go_on-Ended n h rest (next s w) (reply, results, t, e) k =
      Ended-turn n h reply results (rest s w) t (subst (λ l. Ended n l (rest s w)) e (k s w))

  talk-Ended :
      (n : ℕ) (s : Session Json) (w : W)
      → Ended n s.history (talk L ask observer options tools n s w)
  unfolding talk
  talk-Ended zero s w = ([], sym (append-nil s.history))
  talk-Ended (suc n) s w =
      go_on-Ended n s.history _ _
        (take_reply-RoundFrom (ask (build_request L ask observer options tools s.history) w) s)
        (talk-Ended n)

  -- What `send` leaves: after an error value the old history; after an exception the old history and
  -- more; after an answer the old history, the message, the rounds with tool calls, and the answer.
  abbrev pub Sent : Bytes → List (Content Json) → Reply L ask observer options tools → Type 0
  Sent message h (ok r, s, w) =
      Ended (pos_part (options.max_tool_rounds +ℤ pos 1)) (h ++ user_content message ∷ [])
        (ok r, s, w)
  Sent message h (err e, s, w) = s.history ≡ h
  Sent message h (throws what, s, w) =
      (more : List (Content Json)) × (s.history ≡ (h ++ user_content message ∷ []) ++ more)

  roll_back-Sent :
      (message : Bytes) (h : List (Content Json)) (out : Reply L ask observer options tools)
      → Ended (pos_part (options.max_tool_rounds +ℤ pos 1)) (h ++ user_content message ∷ []) out
      → Sent message h (roll_back L ask observer options tools (length h) out)
  unfolding roll_back
  roll_back-Sent message h (ok r, s, w) g = g
  roll_back-Sent message h (throws e, s, w) g = g
  roll_back-Sent message h (err e, s, w) (more, g) =
      ap (take (length h)) (g ∙ append_assoc h _ more) ∙ take-length-append h _

  -- `send`, with any client, any tools and any observer: after an error value the history is the one
  -- before the call. After an answer it has grown by the user's message, by fewer than
  -- `max_tool_rounds + 1` pairs of a model turn and a user turn that answers each of its calls, by
  -- name and id and in order, and by the answer's content in the model's role. An exception leaves
  -- the message and perhaps more behind.
  pub send-Sent :
      (message : Bytes) (s : Session Json) (w : W)
      → Sent message s.history (send L ask observer options tools message s w)
  unfolding send
  send-Sent message s w =
      roll_back-Sent message s.history _
        (talk-Ended _ (record s { history = s.history ++ user_content message ∷ [] }) w)
