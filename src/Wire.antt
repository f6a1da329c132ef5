-- ===== src/Wire.antt =====
-- src/serialization.cpp, from the wire: JSON values into parts, messages, responses and model lists.
pub mod Print
pub mod ApiError
pub mod RoundTrip
pub mod Parts
use gemini_cpp.Base.{
  ℕ, suc, ◌+◌, Bool, true, false, not, ◌||◌, List, [], ◌∷◌, ◌++◌, Option, none, some, is_empty,
  if◌then◌else◌, take, map, bind_option, or_value,
}
use gemini_cpp.Base.Int.{ℤ, pos, to_i32}
use gemini_cpp.Base.Text.{Bytes, codes, equal}
use gemini_cpp.Error.{Result, ok, err, throws, ◌>>=◌, Error, make_error, parse}
use gemini_cpp.Json.{JsonLib}
use gemini_cpp.Types.{
  Role, user, model, FunctionCall, FunctionResponse, PartValue, text, call, response, Part, Content,
  UsageMetadata, no_usage, Candidate, GenerateResponse,
}

pub record ModelInfo : Type 0 where
  pub name : Bytes
  pub display_name : Bytes
  pub description : Bytes
  pub input_token_limit : ℤ
  pub output_token_limit : ℤ
  pub supported_methods : List Bytes

abbrev pub unsupported : Bytes
unsupported = codes "unsupported part kind"

module _ {D : Type 0} (L : JsonLib D) where
  open L use {Json, find, is_object, as_string, as_int, as_array, get_bool, object}

  abbrev pub string_at : Json → Bytes → Option Bytes
  string_at j k = bind_option (find j k) as_string

  -- `string_or` and `int_or`.
  unfoldable pub string_or : Json → Bytes → Bytes → Bytes
  string_or j k fallback = or_value (string_at j k) fallback

  unfoldable pub int_or : Json → Bytes → ℤ → ℤ
  int_or j k fallback = or_value (bind_option (find j k) as_int) fallback

  -- `find(key)` where `is_object()`, and where `is_array()`.
  abbrev pub object_at : Json → Bytes → Option Json
  object_at j k = bind_option (find j k) (λ v. if is_object v then some v else none)

  abbrev pub array_at : Json → Bytes → Option (List Json)
  array_at j k = bind_option (find j k) as_array

  -- `j.value(key, false)`, which throws where the member is no Boolean.
  abbrev pub bool_or : Json → Bytes → Bool → Result Bool
  bool_or j k fallback = elim (find j k) [ none ↦ ok fallback | some v ↦ get_bool v ]

  unfoldable pub parse_call : Json → Bytes → Result (Part Json)
  unfolding string_or
  parse_call f signature =
      let name = string_or f (codes "name") [] in
      if is_empty name
      then err (make_error parse (codes "functionCall without name"))
      else ok (record {
        value = call (record {
          name = name;
          args = or_value (find f (codes "args")) (object []);
          id = string_or f (codes "id") [];
        });
        thought = false;
        thought_signature = signature;
      })

  unfoldable pub parse_response : Json → Bytes → Part Json
  unfolding string_or
  parse_response r signature = record {
    value = response (record {
      name = string_or r (codes "name") [];
      response = or_value (find r (codes "response")) (object []);
      id = string_or r (codes "id") [];
    });
    thought = false;
    thought_signature = signature;
  }

  -- The three tests of `parse_part`, in their order.
  unfoldable pub parse_kind :
      Json → Bytes → Option Bytes → Option Json → Option Json → Result (Part Json)
  unfolding parse_call parse_response
  parse_kind j signature (some s) f r = do
    thought ← bool_or j (codes "thought") false
    ok (record { value = text s; thought = thought; thought_signature = signature })
  parse_kind j signature none (some f) r = parse_call f signature
  parse_kind j signature none none (some r) = ok (parse_response r signature)
  parse_kind j signature none none none = err (make_error parse unsupported)

  unfoldable pub parse_part : Json → Result (Part Json)
  unfolding parse_kind string_or
  parse_part j =
      if not (is_object j)
      then err (make_error parse (codes "part is not an object"))
      else parse_kind j (string_or j (codes "thoughtSignature") []) (string_at j (codes "text"))
          (object_at j (codes "functionCall")) (object_at j (codes "functionResponse"))

  -- The loop of `parse_content`: a part of an unknown kind is skipped.
  keep_part : Result (Part Json) → List (Part Json) → Result (List (Part Json))
  keep_part (ok p) parts = ok (parts ++ p ∷ [])
  keep_part (err e) parts = if equal e.message unsupported then ok parts else err e
  keep_part (throws w) parts = throws w

  unfoldable pub parse_parts : List Json → List (Part Json) → Result (List (Part Json))
  unfolding keep_part
  parse_parts [] parts = ok parts
  parse_parts (j ∷ js) parts = do parts' ← keep_part (parse_part j) parts; parse_parts js parts'

  unfoldable pub parse_content : Json → Result (Content Json)
  unfolding string_or
  parse_content j = if not (is_object j) then ok (record { role = model; parts = [] }) else do
    parts ← parse_parts (or_value (array_at j (codes "parts")) []) []
    ok (record {
      role =
          if equal (string_or j (codes "role") (codes "model")) (codes "user") then user else model;
      parts = parts;
    })

  -- One round of the loop over "candidates".
  unfoldable pub parse_candidate : ℤ → Json → Result (Candidate Json)
  unfolding int_or string_or
  parse_candidate position j = do
    content ← elim (find j (codes "content")) [
      | none ↦ ok (record { role = model; parts = [] })
      | some c ↦ parse_content c
    ]
    ok (record {
      content = content;
      finish_reason = string_or j (codes "finishReason") [];
      index = to_i32 (int_or j (codes "index") position);
    })

  unfoldable pub parse_candidates : ℕ → List Json → Result (List (Candidate Json))
  parse_candidates position [] = ok []
  parse_candidates position (j ∷ js) = do
    c ← parse_candidate (pos position) j
    cs ← parse_candidates (position + 1) js
    ok (c ∷ cs)

  unfoldable pub parse_usage : Json → UsageMetadata
  unfolding int_or
  parse_usage u = record {
    prompt_tokens = int_or u (codes "promptTokenCount") (pos 0);
    candidates_tokens = int_or u (codes "candidatesTokenCount") (pos 0);
    thoughts_tokens = int_or u (codes "thoughtsTokenCount") (pos 0);
    total_tokens = int_or u (codes "totalTokenCount") (pos 0);
  }

  -- `blockReason` of the feedback, if it is not empty.
  unfoldable pub parse_feedback : Json → Option Bytes
  unfolding string_or
  parse_feedback fb =
      let reason = string_or fb (codes "blockReason") [] in
      if is_empty reason then none else some reason

  -- `parse_generate_response` of a JSON value.
  unfoldable pub parse_generate_response : Json → Result (GenerateResponse Json)
  unfolding string_or
  parse_generate_response j =
      if not (is_object j)
      then err (make_error parse (codes "response is not a JSON object"))
      else do
        candidates ← parse_candidates 0 (or_value (array_at j (codes "candidates")) [])
        ok (record {
          candidates = candidates;
          usage = elim (object_at j (codes "usageMetadata")) [
            | none ↦ no_usage
            | some u ↦ parse_usage u
          ];
          model_version = string_or j (codes "modelVersion") [];
          response_id = string_or j (codes "responseId") [];
          prompt_block_reason = bind_option (object_at j (codes "promptFeedback")) parse_feedback;
        })

  -- `parse_generate_response` of a response body.
  unfoldable pub parse_generate_body : Bytes → Result (GenerateResponse Json)
  parse_generate_body body = elim (L.parse body) [
    | none ↦ err (make_error parse (codes "invalid JSON in response: " ++ take 200 body))
    | some j ↦ parse_generate_response j
  ]

  abbrev pub strings : List Json → List Bytes
  strings [] = []
  strings (j ∷ js) = elim (as_string j) [ none ↦ strings js | some s ↦ s ∷ strings js ]

  unfoldable pub parse_model : Json → ModelInfo
  unfolding string_or int_or
  parse_model m = record {
    name = string_or m (codes "name") [];
    display_name = string_or m (codes "displayName") [];
    description = string_or m (codes "description") [];
    input_token_limit = int_or m (codes "inputTokenLimit") (pos 0);
    output_token_limit = int_or m (codes "outputTokenLimit") (pos 0);
    supported_methods = strings (or_value (array_at m (codes "supportedGenerationMethods")) []);
  }

  -- `parse_model_list`: the models and the next page's token.
  unfoldable pub parse_model_list : Bytes → Result (List ModelInfo × Bytes)
  unfolding string_or parse_model
  parse_model_list body = elim (L.parse body) [
    | none ↦ err (make_error parse (codes "invalid JSON in model list"))
    | some j ↦
        if not (is_object j)
        then err (make_error parse (codes "invalid JSON in model list"))
        else ok (
          map parse_model (or_value (array_at j (codes "models")) []),
          string_or j (codes "nextPageToken") [],
        )
  ]
