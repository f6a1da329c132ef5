-- ===== src/Types.antt =====
-- include/gemini/types.hpp and src/types.cpp: messages, requests and responses, and how a streamed
-- chunk is folded into an aggregate response. `J` stands for `nlohmann::json`, `D` for `double`.
pub mod Merge
pub mod Compact
use gemini_cpp.Base.{
  Bool, true, false, not, ◌&&◌, ◌||◌, List, [], ◌∷◌, ◌++◌, Option, none, some, is_empty,
  if◌then◌else◌,
}
use gemini_cpp.Base.Int.{ℤ, pos, ◌+ℤ◌, eqb_ℤ}
use gemini_cpp.Base.Text.{Bytes, codes}

pub data Role : Type 0 where
  user model : Role

abbrev pub role_name : Role → Bytes
role_name model = codes "model"
role_name user = codes "user"

pub record FunctionCall (J : Type 0) : Type 0 where
  pub name : Bytes
  pub args : J
  pub id : Bytes

pub record FunctionResponse (J : Type 0) : Type 0 where
  pub name : Bytes
  pub response : J
  pub id : Bytes

pub data PartValue (J : Type 0) : Type 0 where
  text : Bytes → PartValue J
  call : FunctionCall J → PartValue J
  response : FunctionResponse J → PartValue J

pub record Part (J : Type 0) : Type 0 where
  pub value : PartValue J
  pub thought : Bool
  pub thought_signature : Bytes

pub record Content (J : Type 0) : Type 0 where
  pub role : Role
  pub parts : List (Part J)

pub record FunctionDeclaration (J : Type 0) : Type 0 where
  pub name : Bytes
  pub description : Bytes
  pub parameters : J

pub record GenerationConfig (J D : Type 0) : Type 0 where
  pub temperature : Option D
  pub top_p : Option D
  pub top_k : Option ℤ
  pub max_output_tokens : Option ℤ
  pub candidate_count : Option ℤ
  pub seed : Option ℤ
  pub thinking_budget : Option ℤ
  pub response_mime_type : Option Bytes
  pub response_schema : J
  pub stop_sequences : List Bytes

pub record SafetySetting : Type 0 where
  pub category : Bytes
  pub threshold : Bytes

pub record GenerateRequest (J D : Type 0) : Type 0 where
  pub contents : List (Content J)
  pub system_instruction : Option (Content J)
  pub tools : List (FunctionDeclaration J)
  pub config : GenerationConfig J D
  pub safety_settings : List SafetySetting

pub record UsageMetadata : Type 0 where
  pub prompt_tokens : ℤ
  pub candidates_tokens : ℤ
  pub thoughts_tokens : ℤ
  pub total_tokens : ℤ

pub record Candidate (J : Type 0) : Type 0 where
  pub content : Content J
  pub finish_reason : Bytes
  pub index : ℤ

pub record GenerateResponse (J : Type 0) : Type 0 where
  pub candidates : List (Candidate J)
  pub usage : UsageMetadata
  pub model_version : Bytes
  pub response_id : Bytes
  pub prompt_block_reason : Option Bytes

abbrev pub no_usage : UsageMetadata
no_usage = record {
  prompt_tokens = pos 0;
  candidates_tokens = pos 0;
  thoughts_tokens = pos 0;
  total_tokens = pos 0;
}

-- `UsageMetadata::operator+=`.
unfoldable pub add_usage : UsageMetadata → UsageMetadata → UsageMetadata
add_usage a b = record {
  prompt_tokens = a.prompt_tokens +ℤ b.prompt_tokens;
  candidates_tokens = a.candidates_tokens +ℤ b.candidates_tokens;
  thoughts_tokens = a.thoughts_tokens +ℤ b.thoughts_tokens;
  total_tokens = a.total_tokens +ℤ b.total_tokens;
}

-- `if (chunk.x) x = chunk.x`.
abbrev pub or_else : Option Bytes → Option Bytes → Option Bytes
or_else (some a) b = some a
or_else none b = b

-- `==` on flags.
abbrev pub same : Bool → Bool → Bool
same true b = b
same false b = not b

module _ {J : Type 0} where
  abbrev pub text_part : Bytes → Part J
  text_part s = record { value = text s; thought = false; thought_signature = [] }

  abbrev pub response_part : FunctionResponse J → Part J
  response_part r = record { value = response r; thought = false; thought_signature = [] }

  -- `Content::user` and `Content::model`.
  abbrev pub user_content : Bytes → Content J
  user_content s = record { role = user; parts = text_part s ∷ [] }

  abbrev pub model_content : Bytes → Content J
  model_content s = record { role = model; parts = text_part s ∷ [] }

  abbrev pub text_of : PartValue J → Bool → Bytes
  text_of (text s) false = s
  text_of _ thought = []

  -- `Content::text`, on the parts.
  unfoldable pub parts_text : List (Part J) → Bytes
  parts_text [] = []
  parts_text (p ∷ ps) = text_of p.value p.thought ++ parts_text ps

  abbrev pub call_of : PartValue J → List (FunctionCall J)
  call_of (call c) = c ∷ []
  call_of _ = []

  unfoldable pub parts_calls : List (Part J) → List (FunctionCall J)
  parts_calls [] = []
  parts_calls (p ∷ ps) = call_of p.value ++ parts_calls ps

  -- `GenerateResponse::text`, `function_calls` and `finish_reason`: of the first candidate.
  unfoldable pub response_text : List (Candidate J) → Bytes
  response_text [] = []
  response_text (c ∷ cs) = parts_text c.content.parts

  unfoldable pub function_calls : List (Candidate J) → List (FunctionCall J)
  function_calls [] = []
  function_calls (c ∷ cs) = parts_calls c.content.parts

  unfoldable pub finish_reason_of : List (Candidate J) → Bytes
  finish_reason_of [] = []
  finish_reason_of (c ∷ cs) = c.finish_reason

  -- The condition under which `append_part` glues two text parts.
  abbrev pub glues : Part J → Part J → Bool
  glues last incoming =
      same last.thought incoming.thought
      && (is_empty last.thought_signature || is_empty incoming.thought_signature)

  abbrev join_values : PartValue J → PartValue J → Option Bytes
  join_values (text a) (text b) = some (a ++ b)
  join_values _ _ = none

  -- What `append_part` leaves in place of the last part.
  unfoldable pub glue : Part J → Part J → List (Part J)
  glue last incoming = elim (join_values last.value incoming.value) [
    | none ↦ last ∷ incoming ∷ []
    | some ab ↦
        if glues last incoming
        then record last {
          value = text ab;
          thought_signature =
              if is_empty last.thought_signature
              then incoming.thought_signature
              else last.thought_signature;
        }
          ∷ []
        else last ∷ incoming ∷ []
  ]

  unfoldable pub append_part : List (Part J) → Part J → List (Part J)
  append_part [] incoming = incoming ∷ []
  append_part (last ∷ []) incoming = glue last incoming
  append_part (p ∷ q ∷ ps) incoming = p ∷ append_part (q ∷ ps) incoming

  unfoldable pub append_parts : List (Part J) → List (Part J) → List (Part J)
  append_parts ps [] = ps
  append_parts ps (p ∷ more) = append_parts (append_part ps p) more

  -- One round of the loop in `merge`, on the candidate that `find_if` found or that was pushed.
  unfoldable pub absorb : Candidate J → Candidate J → Candidate J
  absorb c incoming = record c {
    content = record c.content { parts = append_parts c.content.parts incoming.content.parts };
    finish_reason =
        if is_empty incoming.finish_reason then c.finish_reason else incoming.finish_reason;
  }

  abbrev pub fresh : ℤ → Candidate J
  fresh i = record { content = record { role = model; parts = [] }; finish_reason = []; index = i }

  unfoldable pub merge_candidate : List (Candidate J) → Candidate J → List (Candidate J)
  merge_candidate [] incoming = absorb (fresh incoming.index) incoming ∷ []
  merge_candidate (c ∷ cs) incoming =
      if eqb_ℤ c.index incoming.index
      then absorb c incoming ∷ cs
      else c ∷ merge_candidate cs incoming

  unfoldable pub merge_candidates : List (Candidate J) → List (Candidate J) → List (Candidate J)
  merge_candidates cs [] = cs
  merge_candidates cs (c ∷ more) = merge_candidates (merge_candidate cs c) more

  -- `GenerateResponse::merge`.
  unfoldable pub merge : GenerateResponse J → GenerateResponse J → GenerateResponse J
  merge r chunk = record {
    candidates = merge_candidates r.candidates chunk.candidates;
    usage =
        if not (eqb_ℤ chunk.usage.total_tokens (pos 0))
          || not (eqb_ℤ chunk.usage.prompt_tokens (pos 0))
        then chunk.usage
        else r.usage;
    model_version = if is_empty chunk.model_version then r.model_version else chunk.model_version;
    response_id = if is_empty chunk.response_id then r.response_id else chunk.response_id;
    prompt_block_reason = or_else chunk.prompt_block_reason r.prompt_block_reason;
  }

  abbrev pub empty_response : GenerateResponse J
  empty_response = record {
    candidates = [];
    usage = no_usage;
    model_version = [];
    response_id = [];
    prompt_block_reason = none;
  }
