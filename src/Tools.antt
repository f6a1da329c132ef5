-- ===== src/Tools.antt =====
-- include/gemini/tools.hpp and src/tools.cpp: the registry of tools. A handler reads and changes a
-- state `W` outside of the program, and it may return an error or throw.
pub mod Expression
pub mod Evaluate
pub mod Builtin
use gemini_cpp.Base.{true, false, List, [], ◌∷◌, ◌++◌, map, if◌then◌else◌}
use gemini_cpp.Base.Text.{codes, equal}
use gemini_cpp.Error.{Result, ok, err, throws}
use gemini_cpp.Json.{JsonLib}
use gemini_cpp.Types.{FunctionCall, FunctionResponse, FunctionDeclaration}

module _ {D : Type 0} (L : JsonLib D) (W : Type 0) where
  open L use {Json, is_object, string, object}

  abbrev pub ToolHandler : Type 0
  ToolHandler = Json → W → Result Json × W

  abbrev pub ToolRegistry : Type 0
  ToolRegistry = List (FunctionDeclaration Json × ToolHandler)

  unfoldable pub add : FunctionDeclaration Json → ToolHandler → ToolRegistry → ToolRegistry
  add declaration handler tools = tools ++ (declaration, handler) ∷ []

  unfoldable pub declarations : ToolRegistry → List (FunctionDeclaration Json)
  declarations tools = map (λ t. t.0) tools

  -- The three ways a handler ends, as what the model is told.
  unfoldable pub outcome : Result Json → Json
  outcome (ok v) = if is_object v then v else object ((codes "result", v) ∷ [])
  outcome (err e) = object ((codes "error", string e.message) ∷ [])
  outcome (throws w) = object ((codes "error", string (codes "tool threw: " ++ w)) ∷ [])

  abbrev answer_to : FunctionCall Json → Json → FunctionResponse Json
  answer_to c body = record { name = c.name; response = body; id = c.id }

  -- The loop of `invoke` over the tools.
  unfoldable pub invoke : ToolRegistry → FunctionCall Json → W → FunctionResponse Json × W
  unfolding outcome
  invoke [] c w = (
    answer_to c (object ((codes "error", string (codes "unknown function: " ++ c.name)) ∷ [])),
    w,
  )
  invoke ((declaration, handler) ∷ tools) c w = elim (equal declaration.name c.name) [
    | false ↦ invoke tools c w
    | true ↦ let (r, w') = handler c.args w in (answer_to c (outcome r), w')
  ]
