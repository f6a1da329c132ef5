-- ===== src/Wire/ApiError/Hints.antt =====
-- What an error response of src/serialization.cpp tells the retry loop: whether to retry, and when.
use gemini_cpp.Base.{
  ℕ, ◌+◌, ◌<◌, ◌==◌, All, length, map, refl, ◌∙◌, ◌^◌, ◌%◌, ◌-◌, ◌*◌, ltb, Bool, true, false, List,
  [], ◌∷◌, Option, none, some, if◌then◌else◌, ◌≡◌, ◌↔◌, ◌⊎◌, inl, inr, arith, Bool-cases,
  Option-cases, or_value, ◌++◌,
}
use gemini_cpp.Base.Int.{ℤ, pos, negsuc, ◌≤ℤ◌, to_i64}
use gemini_cpp.Base.Text.{Bytes, codes, equal, is_digit, ends_with, pop_back, show_ℤ}
use gemini_cpp.Error.{is_retryable, retryable}
use gemini_cpp.Json.{FloatLib, JsonLib, find_member}
use gemini_cpp.Wire.{string_or, object_at, array_at}
use gemini_cpp.Wire.ApiError.{
  Headers, code_for_status, retry_header, seconds_hint, from_chars, retry_info,
  parse_proto_duration, body_fields, read_digits, parse_api_error,
}

-- The statuses that stand for a transient failure.
abbrev pub IsTransient : ℤ → Bytes → Type 0
IsTransient status api =
    (equal api (codes "RESOURCE_EXHAUSTED") ≡ true)
    ⊎ ((equal api (codes "DEADLINE_EXCEEDED") ≡ true)
        ⊎ ((status ≡ pos 408) ⊎ ((status ≡ pos 429) ⊎ ((pos 500 ≤ℤ status) × (status ≤ℤ pos 599)))))

retryable_code :
    (status : ℤ) (api : Bytes)
    → is_retryable (code_for_status status api) ≡ true
    → IsTransient status api
unfolding is_retryable code_for_status
retryable_code (pos n) api h = ground arith
retryable_code (negsuc n) api h = ground arith

transient_code :
    (status : ℤ) (api : Bytes)
    → IsTransient status api
    → is_retryable (code_for_status status api) ≡ true
unfolding is_retryable code_for_status
transient_code status api h = ground arith

abbrev pub IsInt64 : ℤ → Type 0
IsInt64 n = (negsuc (2 ^ 63 - 1) ≤ℤ n) × (n ≤ℤ pos (2 ^ 63 - 1))

pub to_i64-IsInt64 : (n : ℤ) → IsInt64 (to_i64 n)
to_i64-IsInt64 (pos n) = elim (Bool-cases (ltb (n % 2 ^ 64) (2 ^ 63))) [
  | inl e ↦ rw e (ground arith)
  | inr e ↦ rw e (ground arith)
]
to_i64-IsInt64 (negsuc n) = elim (Bool-cases (ltb (n % 2 ^ 64) (2 ^ 63))) [
  | inl e ↦ rw e (ground arith)
  | inr e ↦ rw e (ground arith)
]

-- The cast of a double gives a signed 64-bit number, also where C++ does not say which.
abbrev pub Casts : FloatLib → Type 0
Casts F = (x : F.Double) → IsInt64 (F.to_int x)

abbrev pub IsHint : Option ℤ → Type 0
IsHint none = Unit
IsHint (some ms) = IsInt64 ms

either_IsHint : (b : Bool) (h k : Option ℤ) → IsHint h → IsHint k → IsHint (if b then h else k)
either_IsHint true h k hn kn = hn
either_IsHint false h k hn kn = kn

seconds-IsHint : (r : Option (ℤ × Bytes)) → IsHint (seconds_hint r)
unfolding seconds_hint
seconds-IsHint none = tt
seconds-IsHint (some (pos n, rest)) = to_i64-IsInt64 (pos (n * 1000))
seconds-IsHint (some (negsuc n, rest)) = tt

-- The number that decimal digits stand for, after others that stand for `v`, and their text.
abbrev pub number_of : ℕ → List ℕ → ℕ
number_of v [] = v
number_of v (d ∷ ds) = number_of (v * 10 + d) ds

abbrev pub written : List ℕ → Bytes
written ds = map (λ d. b'0' + d) ds

read_digits-written :
    (ds : List ℕ) (v n : ℕ)
    → All (λ d. d < 10) ds
    → read_digits v n (written ds) ≡ (number_of v ds, n + length ds, [])
unfolding read_digits
read_digits-written [] v n h = ground arith
read_digits-written (d ∷ ds) v n (lt, h) =
    let digit : is_digit (b'0' + d) ≡ true = ground arith in
    let value : v * 10 + (b'0' + d - b'0') ≡ v * 10 + d = omega arith in
    let count : n + 1 + length ds ≡ n + length (d ∷ ds) = omega arith in
    rw (digit, read_digits)
      (read_digits-written ds (v * 10 + (b'0' + d - b'0')) (n + 1) h ∙ rw (value, count) refl)

from_chars-written :
    (d : ℕ) (ds : List ℕ) (bound : ℕ)
    → All (λ c. c < 10) (d ∷ ds)
    → number_of 0 (d ∷ ds) < bound
    → from_chars bound (written (d ∷ ds)) ≡ some (pos (number_of 0 (d ∷ ds)), [])
unfolding from_chars
from_chars-written d ds bound h lt =
    let no_sign : (b'0' + d == b'-') ≡ false = ground arith in
    let some_digits : (0 + length (d ∷ ds) == 0) ≡ false = ground arith in
    let small : ltb (number_of 0 (d ∷ ds)) bound ≡ true = ground arith in
    rw (no_sign, read_digits-written (d ∷ ds) 0 0 h, some_digits, small) refl

seconds-written :
    (d : ℕ) (ds : List ℕ)
    → All (λ c. c < 10) (d ∷ ds)
    → number_of 0 (d ∷ ds) * 1000 < 2 ^ 63
    → seconds_hint (from_chars (2 ^ 63) (written (d ∷ ds)))
      ≡ some (pos (number_of 0 (d ∷ ds) * 1000))
unfolding seconds_hint
seconds-written d ds h lt =
    let whole : number_of 0 (d ∷ ds) * 1000 % 2 ^ 64 ≡ number_of 0 (d ∷ ds) * 1000 = omega arith in
    let small : ltb (number_of 0 (d ∷ ds) * 1000) (2 ^ 63) ≡ true = ground arith in
    rw (from_chars-written d ds (2 ^ 63) h (omega arith), whole, small) refl

module _ (F : FloatLib) (L : JsonLib F.Double) where
  open L use {Json}

  parse_api_error-retryable :
      (status : ℤ) (body : Bytes) (headers : Headers)
      → let e = parse_api_error F L status body headers in
        (retryable e ≡ true) ↔ IsTransient status e.api_status
  unfolding parse_api_error
  parse_api_error-retryable status body headers = (retryable_code status _, transient_code status _)

  -- With a body that is no JSON, the hint is the header's.
  parse_api_error-header :
      (status : ℤ) (body : Bytes) (headers : Headers) (d : ℕ) (ds : List ℕ)
      → All (λ c. c < 10) (d ∷ ds)
      → number_of 0 (d ∷ ds) * 1000 < 2 ^ 63
      → find_member headers (codes "retry-after") ≡ some (written (d ∷ ds))
      → L.parse body ≡ none
      → (parse_api_error F L status body headers).retry_after
        ≡ some (pos (number_of 0 (d ∷ ds) * 1000))
  unfolding parse_api_error body_fields retry_header
  parse_api_error-header status body headers d ds h lt value no_json =
      rw (no_json, parse_api_error) (rw (value, retry_header) (seconds-written d ds h lt))

  module _ (casts : Casts F) where
    parse_proto_duration-IsHint : (s : Bytes) → IsHint (parse_proto_duration F L s)
    unfolding parse_proto_duration
    parse_proto_duration-IsHint s =
        ground (arith, casts (F.ceil (F.mul (F.strtod (pop_back s)).0 (F.of_int (pos 1000)))))

    retry_info-IsHint :
        (ds : List Json) (hint : Option ℤ) → IsHint hint → IsHint (retry_info F L ds hint)
    unfolding retry_info
    retry_info-IsHint [] hint h = h
    retry_info-IsHint (d ∷ ds) hint h = retry_info-IsHint ds _ (
        either_IsHint (ends_with (string_or L d (codes "@type") []) (codes "google.rpc.RetryInfo"))
          (parse_proto_duration F L (string_or L d (codes "retryDelay") [])) hint
          (parse_proto_duration-IsHint (string_or L d (codes "retryDelay") [])) h)

    retry_header-IsHint : (headers : Headers) → IsHint (retry_header F L headers)
    unfolding retry_header
    retry_header-IsHint headers = elim (Option-cases (find_member headers (codes "retry-after"))) [
      | inl e ↦ rw e tt
      | inr (v, e) ↦ rw e (seconds-IsHint (from_chars (2 ^ 63) v))
    ]

    body_fields-IsHint :
        (message body : Bytes) (j : Option Json) → IsHint (body_fields F L message body j).2
    unfolding body_fields
    body_fields-IsHint message body none = tt
    body_fields-IsHint message body (some j) = elim (Bool-cases (L.is_object j)) [
      | inr e ↦ rw e tt
      | inl e ↦ elim (Option-cases (object_at L j (codes "error"))) [
        | inl n ↦ rw (e, n) tt
        | inr (v, n) ↦
            rw (e, n) (retry_info-IsHint (or_value (array_at L v (codes "details")) []) none tt)
      ]
    ]

    choose-IsHint :
        (h k : Option ℤ) → IsHint h → IsHint k → IsHint (elim h [ some ms ↦ some ms | none ↦ k ])
    choose-IsHint none k hn kn = kn
    choose-IsHint (some ms) k hn kn = hn

    parse_api_error-IsHint :
        (status : ℤ) (body : Bytes) (headers : Headers)
        → IsHint (parse_api_error F L status body headers).retry_after
    unfolding parse_api_error
    parse_api_error-IsHint status body headers =
        choose-IsHint _ _ (body_fields-IsHint (codes "HTTP " ++ show_ℤ status) body _)
          (retry_header-IsHint headers)

    -- If the cast of a double gives a signed 64-bit number, as its type says: an API error is retried exactly
    -- for a transient status, which are the RPC statuses RESOURCE_EXHAUSTED and DEADLINE_EXCEEDED, and
    -- HTTP 408, 429 and 500 to 599; its hint, from the body or the header, is a signed 64-bit number of
    -- milliseconds; and for a body that is no JSON and a Retry-After header of decimal digits it is 1000 times
    -- their number, if that is less than 2^63.
    pub parse_api_error_lem :
        (status : ℤ) (body : Bytes) (headers : Headers)
        → let e = parse_api_error F L status body headers in
          ((retryable e ≡ true) ↔ IsTransient status e.api_status)
          × IsHint e.retry_after
          × ((d : ℕ) (ds : List ℕ)
              → All (λ c. c < 10) (d ∷ ds)
              → number_of 0 (d ∷ ds) * 1000 < 2 ^ 63
              → find_member headers (codes "retry-after") ≡ some (written (d ∷ ds))
              → L.parse body ≡ none
              → e.retry_after ≡ some (pos (number_of 0 (d ∷ ds) * 1000)))
    parse_api_error_lem status body headers = (
      parse_api_error-retryable status body headers,
      parse_api_error-IsHint status body headers,
      parse_api_error-header status body headers,
    )
