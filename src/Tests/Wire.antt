-- ===== src/Tests/Wire.antt =====
-- src/serialization.cpp over the sample JSON values.
use gemini_cpp.Base.{
  ℕ, ◌*◌, ◌<◌, ◌^◌, All, List, none, true, false, [], ◌∷◌, some, ◌++◌, ◌≡◌, ◌↔◌, refl,
}
use gemini_cpp.Base.Int.{ℤ, pos, negsuc}
use gemini_cpp.Base.Text.{codes, equal}
use gemini_cpp.Error.{ok, err, throws, retryable, make_error, parse}
use gemini_cpp.Json.{JsonLib, find_member}
use gemini_cpp.Json.Sample.{
  ints, values, values_laws, Value, text_value, int_value, object_value, member, end,
}
use gemini_cpp.Types.{user, text, call, response, Part, Content}
use gemini_cpp.Wire.{string_or, parse_part, parse_parts, parse_content}
use gemini_cpp.Wire.Print.{content_to_json}
use gemini_cpp.Wire.Parts.{
  Reads, done, keep, skip, text_part, response_part, no_name, parse_parts_lem, parse_part-throws,
}
use gemini_cpp.Wire.RoundTrip.{parse_content-content_to_json}
use gemini_cpp.Wire.ApiError.{from_chars, parse_api_error}
use gemini_cpp.Wire.ApiError.Hints.{
  IsTransient, IsHint, number_of, written, to_i64-IsInt64, parse_api_error_lem,
}

abbrev question : Content Value
question = record {
  role = user;
  parts =
      record { value = text (codes "hi"); thought = true; thought_signature = codes "s" }
      ∷ record {
        value = call (record { name = codes "f"; args = int_value (pos 3); id = codes "7" });
        thought = false;
        thought_signature = [];
      }
      ∷ [];
}

abbrev text_json : Value
text_json = object_value (member (codes "text") (text_value (codes "a")) end)

abbrev image_json : Value
image_json = object_value (member (codes "inlineData") (int_value (pos 1)) end)

abbrev nameless_json : Value
nameless_json = object_value (member (codes "functionCall") (object_value end) end)

abbrev odd_thought : Value
odd_thought = object_value (
    member (codes "text") (text_value (codes "a"))
      (member (codes "thought") (text_value (codes "yes")) end))

abbrev text_a : Part Value
text_a = record { value = text (codes "a"); thought = false; thought_signature = [] }

from_chars-42 : from_chars 128 (codes "-42 s") ≡ some (negsuc 41, codes " s")
unfolding from_chars
from_chars-42 = refl

parse_content-content_to_json_example :
    parse_content values (content_to_json values question) ≡ ok question
parse_content-content_to_json_example =
    parse_content-content_to_json values values_laws question (tt, ((refl, refl), tt))

abbrev answer_json : Value
answer_json = object_value (
    member (codes "functionResponse")
      (object_value (member (codes "name") (text_value (codes "f")) end)) end)

abbrev answer_f : Part Value
answer_f = record {
  value = response (record { name = codes "f"; response = object_value end; id = [] });
  thought = false;
  thought_signature = [];
}

Reads-three : Reads values (text_json ∷ image_json ∷ answer_json ∷ []) (text_a ∷ answer_f ∷ [])
unfolding equal string_or
Reads-three =
    keep refl (text_part refl refl)
      (skip refl (refl, refl, refl) (keep refl (response_part refl refl refl) done))

parse_parts_lem_example :
    (parse_parts values (text_json ∷ image_json ∷ answer_json ∷ []) []
      ≡ ok (text_a ∷ answer_f ∷ []))
    × (parse_parts values ((text_json ∷ image_json ∷ answer_json ∷ []) ++ nameless_json ∷ []) []
        ≡ err (make_error parse (codes "functionCall without name")))
unfolding equal
parse_parts_lem_example =
    parse_parts_lem values nameless_json [] Reads-three (no_name refl refl refl refl)

parse_part-throws_example :
    (v : Value) × (values.find odd_thought (codes "thought") ≡ some v)
    × (values.get_bool v ≡ throws [])
unfolding parse_part equal
parse_part-throws_example = parse_part-throws values odd_thought refl

-- A library to which no body is JSON.
abbrev no_json : JsonLib ℤ
no_json = record values { parse = λ s. none }

parse_api_error_lem_example :
    let e = parse_api_error ints no_json (pos 429) [] ((codes "retry-after", codes "7") ∷ []) in
    ((retryable e ≡ true) ↔ IsTransient (pos 429) e.api_status)
    × IsHint e.retry_after
    × ((d : ℕ) (ds : List ℕ)
        → All (λ c. c < 10) (d ∷ ds)
        → number_of 0 (d ∷ ds) * 1000 < 2 ^ 63
        → find_member ((codes "retry-after", codes "7") ∷ []) (codes "retry-after")
          ≡ some (written (d ∷ ds))
        → no_json.parse [] ≡ none
        → e.retry_after ≡ some (pos (number_of 0 (d ∷ ds) * 1000)))
parse_api_error_lem_example =
    parse_api_error_lem ints no_json to_i64-IsInt64 (pos 429) []
      ((codes "retry-after", codes "7") ∷ [])

seven_seconds :
    (parse_api_error ints values (pos 429) [] ((codes "retry-after", codes "7") ∷ [])).retry_after
    ≡ some (pos 7000)
unfolding parse_api_error equal from_chars
seven_seconds = refl

-- The greatest number of seconds overflows as milliseconds.
overflowing :
    (parse_api_error ints values
      (pos 429)
      []
      ((codes "retry-after", codes "9223372036854775807") ∷ [])).retry_after
    ≡ some (negsuc 999)
unfolding parse_api_error equal from_chars
overflowing = refl
