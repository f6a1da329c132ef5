-- ===== src/Error.antt =====
-- include/gemini/error.hpp and src/error.cpp: error categories, the error record, `Result`.
use gemini_cpp.Base.{Bool, true, false, not, ◌||◌, ◌++◌, [], Option, none, is_empty, if◌then◌else◌}
use gemini_cpp.Base.Int.{ℤ, pos, eqb_ℤ}
use gemini_cpp.Base.Text.{Bytes, codes, show_ℤ}

pub data ErrorCode : Type 0 where
  transport timeout cancelled invalid_argument unauthenticated not_found rate_limited : ErrorCode
  server http parse blocked config io : ErrorCode

pub record Error : Type 0 where
  pub code : ErrorCode
  pub message : Bytes
  pub http_status : ℤ
  pub api_status : Bytes
  -- milliseconds
  pub retry_after : Option ℤ

-- How a call that returns `std::expected<T, Error>` ends: with a value, with an error value, or by
-- an exception of a library that it calls, given with its `what()`.
pub data Result {ℓ} (A : Type ℓ) : Type ℓ where
  ok : A → Result A
  err : Error → Result A
  throws : Bytes → Result A

infixl 5 ◌>>=◌
abbrev pub ◌>>=◌ {ℓ κ} : {A : Type ℓ} {B : Type κ} → Result A → (A → Result B) → Result B
ok a >>= f = f a
err e >>= f = err e
throws w >>= f = throws w

abbrev pub make_error : ErrorCode → Bytes → Error
make_error code message = record {
  code = code;
  message = message;
  http_status = pos 0;
  api_status = [];
  retry_after = none;
}

unfoldable pub to_string : ErrorCode → Bytes
to_string transport = codes "transport"
to_string timeout = codes "timeout"
to_string cancelled = codes "cancelled"
to_string invalid_argument = codes "invalid_argument"
to_string unauthenticated = codes "unauthenticated"
to_string not_found = codes "not_found"
to_string rate_limited = codes "rate_limited"
to_string server = codes "server"
to_string http = codes "http"
to_string parse = codes "parse"
to_string blocked = codes "blocked"
to_string config = codes "config"
to_string io = codes "io"

unfoldable pub is_retryable : ErrorCode → Bool
is_retryable transport = true
is_retryable timeout = true
is_retryable rate_limited = true
is_retryable server = true
is_retryable _ = false

-- `Error::retryable`.
abbrev pub retryable : Error → Bool
retryable e = is_retryable e.code

-- The text between the parentheses of `describe`.
status_text : ℤ → Bytes → Bytes
status_text status api =
    (if not (eqb_ℤ status (pos 0)) then codes "HTTP " ++ show_ℤ status else [])
    ++ (if not (is_empty api)
        then (if not (eqb_ℤ status (pos 0)) then codes " " else []) ++ api
        else [])

unfoldable pub describe : Error → Bytes
unfolding to_string status_text
describe e =
    (codes "[" ++ to_string e.code ++ codes "] " ++ e.message)
    ++ (if not (eqb_ℤ e.http_status (pos 0)) || not (is_empty e.api_status)
        then codes " (" ++ status_text e.http_status e.api_status ++ codes ")"
        else [])
