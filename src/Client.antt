-- ===== src/Client.antt =====
-- include/gemini/client.hpp, include/gemini/transport.hpp and src/client.cpp: the API client over a
-- transport. The process outside the client is a state `World`, which the transport, the random
-- generator and the clock read and change. Logging is left out.
pub mod Calls
pub mod Models
pub mod Stream
pub mod Attempts
pub mod Delivery
pub mod Once
use gemini_cpp.Base.{
  ℕ, zero, suc, ◌+◌, ◌-◌, ◌%◌, ◌^◌, Bool, true, false, not, ◌||◌, List, [], ◌∷◌, ◌++◌, Option, none,
  some, is_empty, if◌then◌else◌, ◌==◌, ◌&&◌, drop,
}
use gemini_cpp.Base.Int.{ℤ, pos, pos_part, ltb_ℤ, max_ℤ, to_u64, ◌+ℤ◌}
use gemini_cpp.Base.Text.{Bytes, codes, equal, starts_with, back_is, pop_back}
use gemini_cpp.Error.{
  Result, ok, err, throws, ◌>>=◌, Error, make_error, retryable, config, invalid_argument, blocked,
  parse,
}
use gemini_cpp.Json.{FloatLib, JsonLib}
use gemini_cpp.Sse.{SseParser, new, feed, finish}
use gemini_cpp.Sse.Chunks.{feed_all}
use gemini_cpp.Types.{GenerateRequest, GenerateResponse, merge, empty_response}
use gemini_cpp.Wire.{ModelInfo, parse_generate_body, parse_model_list}
use gemini_cpp.Wire.Print.{request_to_json, request_members}
use gemini_cpp.Wire.ApiError.{Headers, parse_api_error}
use gemini_cpp.Retry.{RetryPolicy, delay_for}

pub record HttpRequest : Type 0 where
  pub method : Bytes
  pub url : Bytes
  pub headers : Headers
  pub body : Bytes
  pub timeout : ℤ

pub record HttpResponse : Type 0 where
  pub status : ℤ
  pub headers : Headers
  pub body : Bytes

-- What `send_streaming` does: it hands over `chunks` until the callback returns false, and returns
-- `cancelled` if that happens and `completed` otherwise.
pub record Streamed : Type 0 where
  pub chunks : List Bytes
  pub completed : Result HttpResponse
  pub cancelled : Result HttpResponse

-- A `Transport`, the generator behind `dist(rng)`, and the milliseconds between two moments.
pub record Host (F : FloatLib) : Type 1 where
  pub World : Type 0
  pub send : HttpRequest → World → Result HttpResponse × World
  pub send_streaming : HttpRequest → World → Streamed × World
  pub draw : F.Double → F.Double → World → F.Double × World
  pub elapsed_ms : World → World → ℤ

pub record ClientOptions (D : Type 0) : Type 0 where
  pub api_key : Bytes
  pub model : Bytes
  pub base_url : Bytes
  pub timeout : ℤ
  pub retry : RetryPolicy D

pub record Metrics : Type 0 where
  pub requests : ℕ
  pub attempts : ℕ
  pub retries : ℕ
  pub failures : ℕ
  pub prompt_tokens : ℕ
  pub output_tokens : ℕ
  pub total_latency_ms : ℕ

-- `fetch_add` on a `std::uint64_t`.
abbrev pub add64 : ℕ → ℕ → ℕ
add64 a b = (a + b) % 2 ^ 64

-- The client with its surroundings: the delays that were slept, the chunks that the caller's stream
-- callback was given, and the flag `delivered_any` of `stream`.
pub record Env (W J : Type 0) : Type 0 where
  pub world : W
  pub metrics : Metrics
  pub sleeps : List ℤ
  pub delivered : List (GenerateResponse J)
  pub delivered_any : Bool

-- `while (base_url.ends_with('/')) base_url.pop_back()`.
abbrev trim_slashes : Bytes → Bytes
trim_slashes [] = []
trim_slashes (c ∷ s) =
    let rest = trim_slashes s in if c == b'/' && is_empty rest then [] else c ∷ rest

-- The constructor; the default of `sleeper` is to sleep, which `Env.sleeps` records.
unfoldable pub new_client : {D : Type 0} → ClientOptions D → ClientOptions D
unfolding starts_with
new_client o = record o {
  model = if starts_with o.model (codes "models/") then drop 7 o.model else o.model;
  base_url = trim_slashes o.base_url;
}

-- `ClientOptions::from_env` on the environment: an unset and an empty variable count alike.
abbrev env_or : (Bytes → Option Bytes) → Bytes → Bytes → Bytes
env_or getenv name fallback = elim (getenv name) [
  | none ↦ fallback
  | some value ↦ if is_empty value then fallback else value
]

unfoldable pub from_env :
    {D : Type 0} → (Bytes → Option Bytes) → ClientOptions D → Result (ClientOptions D)
from_env getenv defaults =
    let key = env_or getenv (codes "GEMINI_API_KEY") (env_or getenv (codes "GOOGLE_API_KEY") []) in
    if is_empty key
    then err (
        make_error config
          (codes "no API key: set GEMINI_API_KEY (get one at https://aistudio.google.com/apikey)"))
    else ok (record defaults {
      api_key = key;
      model = env_or getenv (codes "GEMINI_MODEL") defaults.model;
      base_url = env_or getenv (codes "GEMINI_BASE_URL") defaults.base_url;
    })

module _ {W J : Type 0} where
  abbrev pub count_request : Env W J → Env W J
  count_request s = record s {
    metrics = record s.metrics { requests = add64 s.metrics.requests 1 };
  }

  abbrev pub count_attempt : Env W J → Env W J
  count_attempt s = record s {
    metrics = record s.metrics { attempts = add64 s.metrics.attempts 1 };
  }

  abbrev pub count_failure : Env W J → Env W J
  count_failure s = record s {
    metrics = record s.metrics { failures = add64 s.metrics.failures 1 };
  }

  -- What `with_retry` does between two attempts.
  abbrev pub pause : ℤ × W → Env W J → Env W J
  pause (delay, w) s = record s {
    world = w;
    metrics = record s.metrics { retries = add64 s.metrics.retries 1 };
    sleeps = s.sleeps ++ delay ∷ [];
  }

module _ (F : FloatLib) (H : Host F) (o : ClientOptions F.Double) where
  abbrev pub max_attempts : ℤ
  max_attempts = max_ℤ (pos 1) o.retry.max_attempts

  module _ {J T : Type 0} (attempt : Env H.World J → Result T × Env H.World J) where
    -- The condition of the `return` in `with_retry`, after attempt number `i`.
    abbrev pub gives_up : (Env H.World J → Bool) → ℕ → Result T → Env H.World J → Bool
    gives_up can_retry i (ok t) s = true
    gives_up can_retry i (throws w) s = true
    gives_up can_retry i (err e) s =
        not (retryable e) || not (ltb_ℤ (pos (i + 1)) max_attempts) || not (can_retry s)

    abbrev pub error_delay : ℕ → Result T → H.World → ℤ × H.World
    error_delay i (err e) w = delay_for F H.draw o.retry (pos i) e w
    error_delay i _ w = (pos 0, w)

    -- The loop of `with_retry`, with the number of attempts that may follow this one.
    unfoldable pub retry_loop :
        (Env H.World J → Bool) → ℕ → ℕ → Env H.World J → Result T × Env H.World J
    retry_loop can_retry zero i s = attempt (count_attempt s)
    retry_loop can_retry (suc left) i s =
        let (r, s') = attempt (count_attempt s) in
        elim (gives_up can_retry i r s') [
          | true ↦ (r, s')
          | false ↦ retry_loop can_retry left (i + 1) (pause (error_delay i r s'.world) s')
        ]

    unfoldable pub with_retry : (Env H.World J → Bool) → Env H.World J → Result T × Env H.World J
    unfolding retry_loop
    with_retry can_retry s = retry_loop can_retry (pos_part max_attempts - 1) 0 s
