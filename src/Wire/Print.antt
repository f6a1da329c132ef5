-- ===== src/Wire/Print.antt =====
-- src/serialization.cpp, to the wire: parts, messages and requests as JSON values. An object is given
-- by its members; the conditional ones come last, as the code adds them.
use gemini_cpp.Base.{
  Bool, true, false, not, ◌&&◌, List, [], ◌∷◌, ◌++◌, Option, none, some, is_empty, if◌then◌else◌,
  map,
}
use gemini_cpp.Base.Text.{Bytes, codes}
use gemini_cpp.Json.{JsonLib}
use gemini_cpp.Types.{
  FunctionCall, FunctionResponse, PartValue, text, call, response, Part, Content, role_name,
  FunctionDeclaration, GenerationConfig, SafetySetting, GenerateRequest,
}

-- `if (x) j[key] = f(*x)`.
abbrev pub optional : {A J : Type 0} → Bytes → (A → J) → Option A → List (Bytes × J)
optional k f none = []
optional k f (some a) = (k, f a) ∷ []

abbrev pub unless : {J : Type 0} → Bool → Bytes → J → List (Bytes × J)
unless true k v = []
unless false k v = (k, v) ∷ []

module _ {D : Type 0} (L : JsonLib D) where
  open L use {Json, is_null, is_empty_value, string, integer, number, boolean, array, object}

  unfoldable pub call_to_json : FunctionCall Json → Json
  call_to_json c = object (
      (codes "name", string c.name)
      ∷ (codes "args", c.args)
      ∷ unless (is_empty c.id) (codes "id") (string c.id))

  unfoldable pub response_to_json : FunctionResponse Json → Json
  response_to_json r = object (
      (codes "name", string r.name)
      ∷ (codes "response", r.response)
      ∷ unless (is_empty r.id) (codes "id") (string r.id))

  unfoldable pub value_members : PartValue Json → Bool → List (Bytes × Json)
  unfolding call_to_json response_to_json
  value_members (text s) thought =
      (codes "text", string s) ∷ unless (not thought) (codes "thought") (boolean true)
  value_members (call c) thought = (codes "functionCall", call_to_json c) ∷ []
  value_members (response r) thought = (codes "functionResponse", response_to_json r) ∷ []

  unfoldable pub part_to_json : Part Json → Json
  unfolding value_members
  part_to_json p = object (
      value_members p.value p.thought
      ++ unless (is_empty p.thought_signature) (codes "thoughtSignature")
          (string p.thought_signature))

  unfoldable pub parts_to_json : List (Part Json) → List Json
  parts_to_json [] = []
  parts_to_json (p ∷ ps) = part_to_json p ∷ parts_to_json ps

  unfoldable pub content_to_json : Content Json → Json
  content_to_json c = object (
      (codes "role", string (role_name c.role))
      ∷ (codes "parts", array (parts_to_json c.parts))
      ∷ [])

  unfoldable pub config_members : GenerationConfig Json D → List (Bytes × Json)
  config_members c =
      optional (codes "temperature") number c.temperature
      ++ (optional (codes "topP") number c.top_p
          ++ (optional (codes "topK") integer c.top_k
              ++ (optional (codes "maxOutputTokens") integer c.max_output_tokens
                  ++ (optional (codes "candidateCount") integer c.candidate_count
                      ++ (optional (codes "seed") integer c.seed
                          ++ (optional (codes "responseMimeType") string c.response_mime_type
                              ++ (unless (is_null c.response_schema) (codes "responseSchema")
                                    c.response_schema
                                  ++ (unless (is_empty c.stop_sequences) (codes "stopSequences")
                                        (array (map string c.stop_sequences))
                                      ++ optional (codes "thinkingConfig")
                                          (λ n. object ((codes "thinkingBudget", integer n) ∷ []))
                                          c.thinking_budget))))))))

  unfoldable pub declaration_to_json : FunctionDeclaration Json → Json
  declaration_to_json d = object (
      (codes "name", string d.name)
      ∷ (codes "description", string d.description)
      ∷ (if not (is_null d.parameters) && not (is_empty_value d.parameters)
          then (codes "parameters", d.parameters) ∷ []
          else []))

  unfoldable pub setting_to_json : SafetySetting → Json
  setting_to_json s =
      object ((codes "category", string s.category) ∷ (codes "threshold", string s.threshold) ∷ [])

  unfoldable pub request_members : GenerateRequest Json D → List (Bytes × Json)
  unfolding content_to_json parts_to_json config_members declaration_to_json setting_to_json
  request_members r =
      (codes "contents", array (map content_to_json r.contents))
      ∷ (optional (codes "systemInstruction")
            (λ c. object ((codes "parts", array (parts_to_json c.parts)) ∷ [])) r.system_instruction
          ++ (unless (is_empty r.tools) (codes "tools") (
                array (
                  object
                    ((codes "functionDeclarations", array (map declaration_to_json r.tools)) ∷ [])
                  ∷ []))
              ++ (unless (is_empty (config_members r.config)) (codes "generationConfig")
                    (object (config_members r.config))
                  ++ unless (is_empty r.safety_settings) (codes "safetySettings")
                      (array (map setting_to_json r.safety_settings)))))

  unfoldable pub request_to_json : GenerateRequest Json D → Json
  unfolding request_members
  request_to_json r = object (request_members r)
