-- ===== src/Tests/Client.antt =====
-- src/client.cpp with a transport that fails once.
use gemini_cpp.Base.{
  ℕ, ◌≡◌, ◌==◌, ◌+◌, ◌≤◌, true, false, [], ◌∷◌, none, some, if◌then◌else◌, refl, arith,
}
use gemini_cpp.Base.Int.{ℤ, pos, pos_part, ◌*ℤ◌}
use gemini_cpp.Base.Text.{Bytes, codes, equal}
use gemini_cpp.Error.{Result, ok, err, make_error, server, Error, is_retryable}
use gemini_cpp.Json.{JsonLib}
use gemini_cpp.Json.Sample.{
  ints, pow_ℤ, values, Value, array_value, text_value, cons, nil, member, null_value, object_value,
  end,
}
use gemini_cpp.Types.{GenerateRequest, user_content}
use gemini_cpp.Client.{Host, ClientOptions, Env, Metrics, max_attempts, with_retry, HttpResponse}
use gemini_cpp.Client.{count_request, count_attempt, pause}
use gemini_cpp.Client.Models.{list_models}
use gemini_cpp.Client.Models.Pages.{Lists, last_page, next_page, list_models-Lists}
use gemini_cpp.Wire.{ModelInfo, parse_model_list}
use gemini_cpp.Retry.{delay_for, jittered, capped}
use gemini_cpp.Client.Attempts.{Runs, stop, again, with_retry-Runs}
use gemini_cpp.Client.Attempts.Counts.{Counted, with_retry-Counted}
use gemini_cpp.Client.Stream.{Callback, stream}
use gemini_cpp.Client.Once.{IsDelivery, stream-IsDelivery}

-- Every body is an empty response.
abbrev pub lib : JsonLib ℤ
lib = record values { parse = λ s. some (object_value end) }

abbrev unavailable : Error
unavailable = make_error server (codes "overloaded")

abbrev pub answer : HttpResponse
answer = record { status = pos 200; headers = []; body = [] }

-- The world counts the requests, and the first one fails.
abbrev pub host : Host ints
host = record {
  World = ℕ;
  send = λ r w. (if w == 0 then err unavailable else ok answer, w + 1);
  send_streaming = λ r w. (
    record {
      chunks = if w == 0 then [] else codes "data: {" ∷ codes "}\n\n" ∷ [];
      completed = if w == 0 then err unavailable else ok answer;
      cancelled = err unavailable;
    },
    w + 1,
  );
  draw = λ lo hi w. (lo, w);
  elapsed_ms = λ v w. pos 5;
}

abbrev pub options : ClientOptions ℤ
options = record {
  api_key = codes "k";
  model = codes "m";
  base_url = codes "u";
  timeout = pos 1000;
  retry = record {
    max_attempts = pos 3;
    initial_backoff = pos 500;
    max_backoff = pos 30000;
    multiplier = pos 2;
    jitter = pos 0;
  };
}

abbrev pub no_metrics : Metrics
no_metrics = record {
  requests = 0;
  attempts = 0;
  retries = 0;
  failures = 0;
  prompt_tokens = 0;
  output_tokens = 0;
  total_latency_ms = 0;
}

abbrev pub start : Env ℕ Value
start = record {
  world = 0;
  metrics = no_metrics;
  sleeps = [];
  delivered = [];
  delivered_any = false;
}

abbrev request : GenerateRequest Value ℤ
request = record {
  contents = user_content (codes "hi") ∷ [];
  system_instruction = none;
  tools = [];
  config = record {
    temperature = none;
    top_p = none;
    top_k = none;
    max_output_tokens = none;
    candidate_count = none;
    seed = none;
    thinking_budget = none;
    response_mime_type = none;
    response_schema = null_value;
    stop_sequences = [];
  };
  safety_settings = [];
}

abbrev always : Callback ints lib
always seen chunk = true

stream-IsDelivery_example :
    IsDelivery ints lib always host options (stream ints lib host options always request start)
stream-IsDelivery_example = stream-IsDelivery ints lib always host options request start refl

-- An attempt that fails while the world is 0.
abbrev attempt : Env ℕ Value → Result ℕ × Env ℕ Value
attempt s = (if s.world == 0 then err unavailable else ok 7, record s { world = s.world + 1 })

with_retry-Runs_example :
    Runs ints host options attempt
      (λ _. true)
      (with_retry ints host options attempt (λ _. true) start)
      0
      start
with_retry-Runs_example = with_retry-Runs ints host options attempt (λ _. true) start

with_retry-Counted_example :
    (n : ℕ) × Counted ints host options attempt
      (λ _. true)
      (λ w. w)
      n
      start
      (with_retry ints host options attempt (λ _. true) start).1
    × (n ≤ pos_part (max_attempts ints host options))
with_retry-Counted_example =
    with_retry-Counted ints host options attempt (λ _. true) (λ w. w) (λ s. (refl, refl))
      ((λ s. refl), (λ lo hi w. refl)) start (omega arith)

-- A body is read as a page with one model of its name, and names itself as the next page's token.
abbrev page_lib : JsonLib ℤ
page_lib = record values {
  parse = λ s. some (
      object_value (
        member (codes "models")
          (array_value (cons (object_value (member (codes "name") (text_value s) end)) nil))
          (member (codes "nextPageToken") (text_value s) end)));
}

-- The first request gets a page that names a next one, the second fails, and the third gets the last page
-- if its URL has the token of the first.
abbrev paged : Host ints
paged = record host {
  send = λ r w. (
    if w == 1
        then err unavailable
        else ok (record {
          status = pos 200;
          headers = [];
          body =
              if equal r.url (codes "u/models?pageSize=100")
              then codes "t"
              else if equal r.url (codes "u/models?pageSize=100&pageToken=t")
              then []
              else codes "x";
        }),
    w + 1,
  );
}

abbrev model_named : Bytes → ModelInfo
model_named name = record {
  name = name;
  display_name = [];
  description = [];
  input_token_limit = pos 0;
  output_token_limit = pos 0;
  supported_methods = [];
}

abbrev after_first : Env ℕ Value
after_first = record (count_attempt (count_request start)) { world = 1 }

abbrev after_failure : Env ℕ Value
after_failure = record (count_attempt after_first) { world = 2 }

abbrev after_second : Env ℕ Value
after_second = record (count_attempt (pause (pos 500, 2) after_failure)) { world = 3 }

two_pages :
    Lists ints page_lib paged options 2
      (count_request start)
      []
      (ok (model_named (codes "t") ∷ model_named [] ∷ []), after_second)
unfolding parse_model_list equal is_retryable delay_for jittered capped ◌*ℤ◌ pow_ℤ
two_pages =
    next_page 1 (count_request start) after_first after_second [] (model_named (codes "t") ∷ [])
      b't' [] (ok (model_named [] ∷ [])) (stop tt refl)
      (last_page after_first after_second (codes "t") (model_named [] ∷ [])
        (again {i = 0} {s = after_first} (refl, omega arith, refl) (stop tt refl)))

list_models-Lists_example :
    list_models ints page_lib paged options 5 start
    ≡ some (ok (model_named (codes "t") ∷ model_named [] ∷ []), after_second)
list_models-Lists_example =
    list_models-Lists ints page_lib paged options 2 5 start
      (ok (model_named (codes "t") ∷ model_named [] ∷ []), after_second) refl two_pages
      (omega arith)
