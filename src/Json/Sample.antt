-- ===== src/Json/Sample.antt =====
-- A concrete JSON value type and a concrete number type that meet the assumptions of Json.antt.
use gemini_cpp.Base.{
  ℕ, zero, suc, Bool, true, false, List, [], ◌∷◌, Option, none, some, ◌≡◌, refl, ap, if◌then◌else◌,
}
use gemini_cpp.Base.Int.{ℤ, pos, negsuc, ltb_ℤ, ◌+ℤ◌, ◌-ℤ◌, ◌*ℤ◌, to_i64}
use gemini_cpp.Base.Text.{Bytes, equal}
use gemini_cpp.Error.{Result, ok, throws}
use gemini_cpp.Json.{FloatLib, JsonLib, JsonLaws, find_member}

abbrev power : ℤ → ℕ → ℤ
power a zero = pos 1
power a (suc n) = a *ℤ power a n

-- Integers for doubles; a negative power is 0, `strtod` reads no number, and `to_int` wraps.
unfoldable pub pow_ℤ : ℤ → ℤ → ℤ
pow_ℤ a (pos n) = power a n
pow_ℤ a (negsuc n) = pos 0

abbrev pub ints : FloatLib
ints = record {
  Double = ℤ;
  of_int = λ n. n;
  mul = λ a b. a *ℤ b;
  pow = pow_ℤ;
  add = λ a b. a +ℤ b;
  sub = λ a b. a -ℤ b;
  lt = ltb_ℤ;
  ceil = λ a. a;
  is_finite = λ a. true;
  to_int = to_i64;
  strtod = λ s. (pos 0, 0);
}

mutual
  pub data Value : Type 0 where
    null_value : Value
    text_value : Bytes → Value
    int_value : ℤ → Value
    bool_value : Bool → Value
    array_value : Items → Value
    object_value : Members → Value

  pub data Items : Type 0 where
    nil : Items
    cons : Value → Items → Items

  pub data Members : Type 0 where
    end : Members
    member : Bytes → Value → Members → Members

abbrev items : List Value → Items
items [] = nil
items (v ∷ vs) = cons v (items vs)

abbrev to_list : Items → List Value
to_list nil = []
to_list (cons v vs) = v ∷ to_list vs

abbrev members : List (Bytes × Value) → Members
members [] = end
members ((k, v) ∷ ms) = member k v (members ms)

abbrev find_in : Members → Bytes → Option Value
find_in end k = none
find_in (member j v ms) k = if equal j k then some v else find_in ms k

abbrev find_value : Value → Bytes → Option Value
find_value (object_value ms) k = find_in ms k
find_value _ k = none

abbrev is_object_value : Value → Bool
is_object_value (object_value ms) = true
is_object_value _ = false

abbrev is_null_value : Value → Bool
is_null_value null_value = true
is_null_value _ = false

abbrev string_of : Value → Option Bytes
string_of (text_value s) = some s
string_of _ = none

abbrev int_of : Value → Option ℤ
int_of (int_value n) = some n
int_of _ = none

abbrev array_of : Value → Option (List Value)
array_of (array_value vs) = some (to_list vs)
array_of _ = none

abbrev bool_of : Value → Result Bool
bool_of (bool_value b) = ok b
bool_of _ = throws []

-- `parse` reads any text as a string.
abbrev pub values : JsonLib ℤ
values = record {
  Json = Value;
  parse = λ s. some (text_value s);
  dump = λ v. ok [];
  find = find_value;
  is_object = is_object_value;
  is_null = is_null_value;
  is_empty_value = is_null_value;
  as_string = string_of;
  as_int = int_of;
  as_array = array_of;
  get_bool = bool_of;
  null = null_value;
  string = text_value;
  integer = int_value;
  number = int_value;
  boolean = bool_value;
  array = λ vs. array_value (items vs);
  object = λ ms. object_value (members ms);
}

to_list-items : (vs : List Value) → to_list (items vs) ≡ vs
to_list-items [] = refl
to_list-items (v ∷ vs) = ap (◌∷◌ v) (to_list-items vs)

find_in-members :
    (ms : List (Bytes × Value)) (k : Bytes) → find_in (members ms) k ≡ find_member ms k
find_in-members [] k = refl
find_in-members ((j, v) ∷ ms) k = ap (λ r. if equal j k then some v else r) (find_in-members ms k)

pub values_laws : JsonLaws values
values_laws = record {
  as_string-string = λ s. refl;
  as_array-array = λ vs. ap some (to_list-items vs);
  get_bool-boolean = λ b. refl;
  is_object-object = λ ms. refl;
  find-object = find_in-members;
}
