-- ===== src/Json.antt =====
-- What the program takes from outside src/ and include/: `double` arithmetic with `std::strtod`, and
-- the JSON library nlohmann::json. Both are parameters of the model. `JsonLaws` states the documented
-- behaviour that some theorems rest on; Json/Sample.antt has values that meet it.
pub mod Sample
use gemini_cpp.Base.{ℕ, Bool, true, false, List, [], ◌∷◌, Option, none, some, ◌≡◌, if◌then◌else◌}
use gemini_cpp.Base.Int.{ℤ}
use gemini_cpp.Base.Text.{Bytes, equal}
use gemini_cpp.Error.{Result, ok}

-- `double`; `strtod` also gives the number of characters that it read, and `to_int` is a cast to a signed
-- 64-bit integer, of which C++ does not say what it gives out of range.
pub record FloatLib : Type 1 where
  pub Double : Type 0
  pub of_int : ℤ → Double
  pub mul : Double → Double → Double
  pub pow : Double → Double → Double
  pub add : Double → Double → Double
  pub sub : Double → Double → Double
  pub lt : Double → Double → Bool
  pub ceil : Double → Double
  pub is_finite : Double → Bool
  pub to_int : Double → ℤ
  pub strtod : Bytes → Double × ℕ

-- `nlohmann::json`. `find` gives none for `end()`, also on a value that is no object; `parse` gives
-- none for a discarded value; `dump` and `get_bool` may throw. `as_int` is `get<int64_t>` where
-- `is_number_integer` holds, and `as_string`, `as_array` likewise.
pub record JsonLib (D : Type 0) : Type 1 where
  pub Json : Type 0
  pub parse : Bytes → Option Json
  pub dump : Json → Result Bytes
  pub find : Json → Bytes → Option Json
  pub is_object : Json → Bool
  pub is_null : Json → Bool
  pub is_empty_value : Json → Bool
  pub as_string : Json → Option Bytes
  pub as_int : Json → Option ℤ
  pub as_array : Json → Option (List Json)
  pub get_bool : Json → Result Bool
  pub null : Json
  pub string : Bytes → Json
  pub integer : ℤ → Json
  pub number : D → Json
  pub boolean : Bool → Json
  pub array : List Json → Json
  pub object : List (Bytes × Json) → Json

abbrev pub find_member : {A : Type 0} → List (Bytes × A) → Bytes → Option A
find_member [] k = none
find_member ((j, v) ∷ ms) k = if equal j k then some v else find_member ms k

-- Reading back what was built. The program builds objects with distinct keys.
pub record JsonLaws {D : Type 0} (L : JsonLib D) : Type 0 where
  pub as_string-string : (s : Bytes) → L.as_string (L.string s) ≡ some s
  pub as_array-array : (js : List L.Json) → L.as_array (L.array js) ≡ some js
  pub get_bool-boolean : (b : Bool) → L.get_bool (L.boolean b) ≡ ok b
  pub is_object-object : (ms : List (Bytes × L.Json)) → L.is_object (L.object ms) ≡ true
  pub find-object :
      (ms : List (Bytes × L.Json)) (k : Bytes) → L.find (L.object ms) k ≡ find_member ms k
