-- ===== src/Client/Calls.antt =====
-- src/client.cpp: the unary calls `generate` and `count_tokens`, and what all calls share.
use gemini_cpp.Base.{
  Bool, true, false, not, ◌||◌, [], ◌∷◌, ◌++◌, Option, none, some, is_empty, if◌then◌else◌,
  bind_option,
}
use gemini_cpp.Base.Int.{ℤ, pos, ltb_ℤ, to_u64, ◌+ℤ◌}
use gemini_cpp.Base.Text.{Bytes, codes}
use gemini_cpp.Error.{
  Result, ok, err, throws, ◌>>=◌, Error, make_error, config, invalid_argument, blocked, parse,
}
use gemini_cpp.Json.{FloatLib, JsonLib}
use gemini_cpp.Types.{GenerateRequest, GenerateResponse}
use gemini_cpp.Wire.{parse_generate_body}
use gemini_cpp.Wire.Print.{request_to_json, request_members}
use gemini_cpp.Wire.ApiError.{parse_api_error}
use gemini_cpp.Client.{
  HttpRequest, HttpResponse, Host, ClientOptions, Env, add64, count_request, count_failure,
  with_retry,
}

module _ (F : FloatLib) (L : JsonLib F.Double) where
  open L use {Json}

  unfoldable pub check_http : Result HttpResponse → Result HttpResponse
  check_http (ok r) =
      if ltb_ℤ r.status (pos 200) || not (ltb_ℤ r.status (pos 300))
      then err (parse_api_error F L r.status r.body r.headers)
      else ok r
  check_http (err e) = err e
  check_http (throws w) = throws w

  -- `check_blocked`, on the reason and on `candidates.empty()`.
  abbrev pub blocked_by :
      Option Bytes → Bool → GenerateResponse Json → Result (GenerateResponse Json)
  blocked_by (some reason) true r = err (make_error blocked (codes "prompt blocked: " ++ reason))
  blocked_by _ empty r = ok r

  unfoldable pub check_blocked : Result (GenerateResponse Json) → Result (GenerateResponse Json)
  check_blocked (ok r) = blocked_by r.prompt_block_reason (is_empty r.candidates) r
  check_blocked (err e) = err e
  check_blocked (throws w) = throws w

  module _ (H : Host F) (o : ClientOptions F.Double) where
    unfoldable pub endpoint : Bytes → Bool → Bytes
    endpoint method sse =
        (o.base_url ++ (codes "/models/" ++ (o.model ++ (codes ":" ++ method))))
        ++ (if sse then codes "?alt=sse" else [])

    unfoldable pub make_request : Bytes → Bytes → HttpRequest
    make_request url body = record {
      method = codes "POST";
      url = url;
      headers =
          (codes "Content-Type", codes "application/json")
          ∷ (codes "x-goog-api-key", o.api_key)
          ∷ [];
      body = body;
      timeout = o.timeout;
    }

    -- `validate`: none if the request may be sent.
    unfoldable pub validate : GenerateRequest Json F.Double → Option Error
    validate request =
        if is_empty o.api_key
        then some (make_error config (codes "API key is empty"))
        else if is_empty o.model
        then some (make_error config (codes "model name is empty"))
        else if is_empty request.contents
        then some (make_error invalid_argument (codes "request has no contents"))
        else none

    -- `record`: latency, and tokens or a failure.
    unfoldable pub record_result :
        H.World → Result (GenerateResponse Json) → Env H.World Json → Env H.World Json
    record_result start result s =
        let m = record s.metrics {
          total_latency_ms = add64 s.metrics.total_latency_ms (to_u64 (H.elapsed_ms start s.world));
        } in
        elim result [
          | ok r ↦ record s {
            metrics = record m {
              prompt_tokens = add64 m.prompt_tokens (to_u64 r.usage.prompt_tokens);
              output_tokens =
                  add64 m.output_tokens
                    (to_u64 (r.usage.candidates_tokens +ℤ r.usage.thoughts_tokens));
            };
          }
          | err e ↦ count_failure (record s { metrics = m })
          | throws w ↦ s
        ]

    -- One attempt of a unary call: send, check the status, read the body.
    unfoldable pub unary_attempt :
        {T : Type 0}
        → HttpRequest
        → (Bytes → Result T)
        → Env H.World Json
        → Result T × Env H.World Json
    unfolding check_http
    unary_attempt request read s =
        let (response, w) = H.send request s.world in
        (do r ← check_http response; read r.body, record s { world = w })

    -- The rest of a call after `dump()`, which may throw.
    abbrev pub with_body :
        {T : Type 0}
        → (Bytes → Env H.World Json → Result T × Env H.World Json)
        → Result Bytes
        → Env H.World Json
        → Result T × Env H.World Json
    with_body rest (ok body) s = rest body s
    with_body rest (err e) s = (err e, s)
    with_body rest (throws w) s = (throws w, s)

    -- `generate` once the request is valid and its body is printed.
    unfoldable pub generate_body :
        Bytes → Env H.World Json → Result (GenerateResponse Json) × Env H.World Json
    unfolding check_blocked record_result unary_attempt make_request endpoint
    generate_body body s =
        let request = make_request (endpoint (codes "generateContent") false) body in
        let (r, s') =
          with_retry F H o (unary_attempt request (parse_generate_body L)) (λ _. true) s in
        let result = check_blocked r in (result, record_result s.world result s')

    unfoldable pub generate :
        GenerateRequest Json F.Double
        → Env H.World Json
        → Result (GenerateResponse Json) × Env H.World Json
    unfolding validate generate_body
    generate request s =
        let s' = count_request s in
        elim (validate request) [
          | some e ↦ (err e, s')
          | none ↦ with_body generate_body (L.dump (request_to_json L request)) s'
        ]

    abbrev read_total : Bytes → Result ℤ
    read_total body =
        elim (bind_option (bind_option (L.parse body) (λ j. L.find j (codes "totalTokens")))
          L.as_int) [
            | some n ↦ ok n
            | none ↦ err (make_error parse (codes "countTokens response missing totalTokens"))
          ]

    -- `if (!result) failures += 1`.
    abbrev note_failure : {T : Type 0} → Result T × Env H.World Json → Result T × Env H.World Json
    note_failure (err e, s) = (err e, count_failure s)
    note_failure r = r

    unfoldable pub count_tokens :
        GenerateRequest Json F.Double → Env H.World Json → Result ℤ × Env H.World Json
    unfolding validate unary_attempt make_request endpoint
    count_tokens request s =
        let s' = count_request s in
        let inner = L.object (
          request_members L request
          ++ (codes "model", L.string (codes "models/" ++ o.model)) ∷ []) in
        elim (validate request) [
          | some e ↦ (err e, s')
          | none ↦
              with_body
                (λ body t. note_failure (
                  with_retry F H o
                    (unary_attempt (make_request (endpoint (codes "countTokens") false) body)
                      read_total)
                    (λ _. true) t))
                (L.dump (L.object ((codes "generateContentRequest", inner) ∷ []))) s'
        ]
