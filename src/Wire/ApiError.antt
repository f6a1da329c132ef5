-- ===== src/Wire/ApiError.antt =====
-- src/serialization.cpp: an HTTP error response as an `Error`. The headers are a list of pairs with
-- lower-cased names.
pub mod Hints
use gemini_cpp.Base.{
  ℕ, suc, ◌+◌, ◌-◌, ◌*◌, ◌^◌, Bool, true, false, not, ◌&&◌, ◌||◌, ◌==◌, ltb, leb, List, [], ◌∷◌,
  ◌++◌, Option, none, some, is_empty, if◌then◌else◌, take, length, bind_option, or_value,
}
use gemini_cpp.Base.Int.{ℤ, pos, negsuc, eqb_ℤ, ltb_ℤ, to_i64}
use gemini_cpp.Base.Text.{Bytes, codes, equal, ends_with, back_is, pop_back, is_digit, show_ℤ}
use gemini_cpp.Error.{
  ErrorCode, timeout, invalid_argument, unauthenticated, not_found, rate_limited, server, http,
  Error,
}
use gemini_cpp.Json.{FloatLib, JsonLib, find_member}
use gemini_cpp.Wire.{string_or, object_at, array_at}

abbrev pub Headers : Type 0
Headers = List (Bytes × Bytes)

unfoldable pub code_for_status : ℤ → Bytes → ErrorCode
code_for_status status api =
    if equal api (codes "RESOURCE_EXHAUSTED")
    then rate_limited
    else if equal api (codes "DEADLINE_EXCEEDED")
    then timeout
    else if eqb_ℤ status (pos 400)
    then invalid_argument
    else if eqb_ℤ status (pos 401) || eqb_ℤ status (pos 403)
    then unauthenticated
    else if eqb_ℤ status (pos 404)
    then not_found
    else if eqb_ℤ status (pos 408)
    then timeout
    else if eqb_ℤ status (pos 429)
    then rate_limited
    else if not (ltb_ℤ status (pos 500)) && not (ltb_ℤ (pos 599) status)
    then server
    else http

-- The digits that `from_chars` reads, as a value and their number.
unfoldable pub read_digits : ℕ → ℕ → Bytes → ℕ × ℕ × Bytes
read_digits value count [] = (value, count, [])
read_digits value count (c ∷ s) = elim (is_digit c) [
  | true ↦ read_digits (value * 10 + (c - b'0')) (count + 1) s
  | false ↦ (value, count, c ∷ s)
]

-- `std::from_chars` into a signed integer whose least value is `-limit`: the value and what is left,
-- or none for no digits and for a value out of range.
abbrev in_range : Bool → ℕ → ℕ × ℕ × Bytes → Option (ℤ × Bytes)
in_range negative limit (value, count, rest) =
    if count == 0
    then none
    else if negative
    then (if leb value limit
        then some ((if value == 0 then pos 0 else negsuc (value - 1)), rest)
        else none)
    else if ltb value limit
    then some (pos value, rest)
    else none

unfoldable pub from_chars : ℕ → Bytes → Option (ℤ × Bytes)
unfolding read_digits
from_chars limit [] = none
from_chars limit (c ∷ s) =
    if c == b'-'
    then in_range true limit (read_digits 0 0 s)
    else in_range false limit (read_digits 0 0 (c ∷ s))

-- `ec == errc{} && seconds >= 0`, and the seconds as milliseconds, in 64 bits: the product can overflow,
-- which C++ leaves undefined and which wraps here.
seconds_hint : Option (ℤ × Bytes) → Option ℤ
seconds_hint (some (pos seconds, rest)) = some (to_i64 (pos (seconds * 1000)))
seconds_hint _ = none

module _ (F : FloatLib) (L : JsonLib F.Double) where
  open L use {Json, is_object, as_array}

  -- Milliseconds of "30s" or "1.5s". The cast `to_int` is undefined in C++ if the product is out of range,
  -- and may then be any 64-bit number.
  unfoldable pub parse_proto_duration : Bytes → Option ℤ
  parse_proto_duration s =
      if ltb (length s) 2 || not (back_is b's' s)
      then none
      else let (seconds, read) = F.strtod (pop_back s) in
        (if not (read == length (pop_back s))
            || not (F.is_finite seconds)
            || F.lt seconds (F.of_int (pos 0))
          then none
          else some (F.to_int (F.ceil (F.mul seconds (F.of_int (pos 1000))))))

  -- The loop over "details": the last RetryInfo sets the hint.
  unfoldable pub retry_info : List Json → Option ℤ → Option ℤ
  unfolding parse_proto_duration string_or
  retry_info [] hint = hint
  retry_info (d ∷ ds) hint = retry_info ds (
      if ends_with (string_or L d (codes "@type") []) (codes "google.rpc.RetryInfo")
      then parse_proto_duration (string_or L d (codes "retryDelay") [])
      else hint)

  -- `Retry-After` in seconds, at the start of the header's value.
  unfoldable pub retry_header : Headers → Option ℤ
  unfolding from_chars seconds_hint
  retry_header headers =
      bind_option (find_member headers (codes "retry-after"))
        (λ v. seconds_hint (from_chars (2 ^ 63) v))

  -- A streaming error is an array around the object.
  abbrev front_of : Json → Json
  front_of j = elim (as_array j) [ some (x ∷ xs) ↦ x | _ ↦ j ]

  -- The message, the RPC status and the hint of the error object.
  abbrev error_fields : Bytes → Json → Bytes × Bytes × Option ℤ
  error_fields message e = (
    let m = string_or L e (codes "message") [] in if is_empty m then message else m,
    string_or L e (codes "status") [],
    retry_info (or_value (array_at L e (codes "details")) []) none,
  )

  -- What the body gives, on top of the message "HTTP <status>".
  unfoldable pub body_fields : Bytes → Bytes → Option Json → Bytes × Bytes × Option ℤ
  unfolding string_or retry_info
  body_fields message body none =
      (if not (is_empty body) then message ++ (codes ": " ++ take 300 body) else message, [], none)
  body_fields message body (some j) =
      if is_object j
      then elim (object_at L j (codes "error")) [
        | none ↦ (message, [], none)
        | some e ↦ error_fields message e
      ]
      else (
        if not (is_empty body) then message ++ (codes ": " ++ take 300 body) else message,
        [],
        none,
      )

  unfoldable pub parse_api_error : ℤ → Bytes → Headers → Error
  unfolding body_fields retry_header code_for_status
  parse_api_error status body headers =
      let (message, api_status, hint) =
        body_fields (codes "HTTP " ++ show_ℤ status) body
          (bind_option (L.parse body) (λ j. some (front_of j))) in
      record {
        code = code_for_status status api_status;
        message = message;
        http_status = status;
        api_status = api_status;
        retry_after = elim hint [ some ms ↦ some ms | none ↦ retry_header headers ];
      }
