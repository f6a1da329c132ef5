-- ===== src/Chat/Turns.antt =====
-- src/chat.cpp: the shapes of a history that `send` leaves.
use gemini_cpp.Base.{ℕ, suc, ◌<◌, List, [], ◌∷◌, ◌++◌, ◌≡◌, ◌∙◌, append_assoc, arith}
use gemini_cpp.Error.{Result, ok, err, throws}
use gemini_cpp.Types.{
  user, model, FunctionCall, FunctionResponse, Part, Content, GenerateResponse, response_part,
  parts_calls, Candidate,
}
use gemini_cpp.Chat.{Session}

module _ {J : Type 0} where
  -- A part that answers a call: its name and id are the call's.
  abbrev IsAnswer : FunctionCall J → Part J → Type 0
  IsAnswer c p =
      (r : FunctionResponse J) × (p ≡ response_part r) × (r.name ≡ c.name) × (r.id ≡ c.id)

  pub data Answers : List (FunctionCall J) → List (Part J) → Type 0 where
    no_calls : Answers [] []
    one_call :
        {c : FunctionCall J} {p : Part J} {cs : List (FunctionCall J)} {ps : List (Part J)}
        → IsAnswer c p
        → Answers cs ps
        → Answers (c ∷ cs) (p ∷ ps)

  -- A round that leads to another one adds a turn of the model, with calls, and one of the user, with
  -- their answers.
  abbrev pub IsTurn : Content J → Content J → Type 0
  IsTurn reply results =
      (reply.role ≡ model) × (results.role ≡ user) × Answers (parts_calls reply.parts) results.parts

  pub data ToolTurns : ℕ → List (Content J) → Type 0 where
    no_turns : ToolTurns 0 []
    turn :
        {n : ℕ} {rest : List (Content J)} (reply results : Content J)
        → IsTurn reply results
        → ToolTurns n rest
        → ToolTurns (suc n) (reply ∷ results ∷ rest)

  -- The last turn holds the answer: the parts of the first candidate, in the model's role.
  abbrev pub IsFinal : GenerateResponse J → Content J → Type 0
  IsFinal r last =
      (last.role ≡ model)
      × (c : Candidate J) × (cs : List (Candidate J)) × (r.candidates ≡ c ∷ cs)
      × (last.parts ≡ c.content.parts)

module _ {J W : Type 0} where
  -- How the history grew from `h`, in fewer than `n` rounds that call tools.
  abbrev pub Ended : ℕ → List (Content J) → Result (GenerateResponse J) × Session J × W → Type 0
  Ended n h (ok r, s, w) =
      (m : ℕ) × (turns : List (Content J)) × (last : Content J) × ToolTurns m turns
      × (m < n)
      × (s.history ≡ h ++ (turns ++ last ∷ []))
      × IsFinal r last
  Ended n h (err e, s, w) = (more : List (Content J)) × (s.history ≡ h ++ more)
  Ended n h (throws what, s, w) = (more : List (Content J)) × (s.history ≡ h ++ more)

  pub Ended-turn :
      (n : ℕ) (h : List (Content J)) (reply results : Content J)
      (out : Result (GenerateResponse J) × Session J × W)
      → IsTurn reply results
      → Ended n (h ++ reply ∷ results ∷ []) out
      → Ended (suc n) h out
  Ended-turn n h reply results (ok r, s, w) t (m, turns, last, ts, lt, e, f) = (
    suc m,
    reply ∷ results ∷ turns,
    last,
    turn reply results t ts,
    omega arith,
    e ∙ rw append_assoc,
    f,
  )
  Ended-turn n h reply results (err e, s, w) t (more, g) =
      (reply ∷ results ∷ more, g ∙ rw append_assoc)
  Ended-turn n h reply results (throws e, s, w) t (more, g) =
      (reply ∷ results ∷ more, g ∙ rw append_assoc)
