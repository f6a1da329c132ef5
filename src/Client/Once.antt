-- ===== src/Client/Once.antt =====
-- `Client::stream` of src/client.cpp as a whole: no chunk of a stream reaches the caller twice.
use gemini_cpp.Base.{
  Bool, true, false, not, List, [], Option, none, some, is_empty, ◌≡◌, refl, sym, subst, ap, ◌⊎◌,
  inl, inr, Option-cases,
}
use gemini_cpp.Base.Text.{Bytes, codes}
use gemini_cpp.Error.{Result, ok, err, throws}
use gemini_cpp.Json.{FloatLib, JsonLib}
use gemini_cpp.Types.{GenerateRequest, GenerateResponse}
use gemini_cpp.Wire.Print.{request_to_json}
use gemini_cpp.Client.{HttpRequest, Host, ClientOptions, Env, count_request, with_retry}
use gemini_cpp.Client.Calls.{
  blocked_by, with_body, check_blocked, record_result, validate, make_request, endpoint,
}
use gemini_cpp.Client.Stream.{Callback, stream_attempt, stream_body, stream}
use gemini_cpp.Client.Delivery.{IsMerged, IsFresh, retry-IsOneAttempt}

module _ (F : FloatLib) (L : JsonLib F.Double) (on_chunk : Callback F L) where
  open L use {Json}

  blocked_by-IsMerged :
      (reason : Option Bytes) (empty : Bool) (r : GenerateResponse Json)
      (chunks : List (GenerateResponse Json))
      → IsMerged F L on_chunk (ok r) chunks
      → IsMerged F L on_chunk (blocked_by F L reason empty r) chunks
  blocked_by-IsMerged (some reason) true r chunks h = tt
  blocked_by-IsMerged (some reason) false r chunks h = h
  blocked_by-IsMerged none empty r chunks h = h

  check_blocked-IsMerged :
      (r : Result (GenerateResponse Json)) (chunks : List (GenerateResponse Json))
      → IsMerged F L on_chunk r chunks
      → IsMerged F L on_chunk (check_blocked F L r) chunks
  unfolding check_blocked
  check_blocked-IsMerged (ok r) chunks h =
      blocked_by-IsMerged r.prompt_block_reason (is_empty r.candidates) r chunks h
  check_blocked-IsMerged (err e) chunks h = tt
  check_blocked-IsMerged (throws w) chunks h = tt

  module _ (H : Host F) (o : ClientOptions F.Double) where
    record_result-delivered :
        (w : H.World) (r : Result (GenerateResponse Json)) (s : Env H.World Json)
        → (record_result F L H o w r s).delivered ≡ s.delivered
    unfolding record_result
    record_result-delivered w (ok r) s = refl
    record_result-delivered w (err e) s = refl
    record_result-delivered w (throws x) s = refl

    -- What the caller was given is what one attempt gives to a caller that had nothing.
    abbrev pub IsOnce : List (GenerateResponse Json) → Type 0
    IsOnce chunks =
        (request : HttpRequest) × (t : Env H.World Json) × IsFresh F L on_chunk H o request t
        × ((stream_attempt F L H o on_chunk request t).1.delivered ≡ chunks)

    abbrev pub IsDelivery : Result (GenerateResponse Json) × Env H.World Json → Type 0
    IsDelivery (r, s) =
        IsMerged F L on_chunk r s.delivered × ((s.delivered ≡ []) ⊎ IsOnce s.delivered)

    stream_body-IsDelivery :
        (body : Bytes) (s : Env H.World Json)
        → s.delivered ≡ []
        → IsDelivery (stream_body F L H o on_chunk body s)
    unfolding stream_body
    stream_body-IsDelivery body s h =
        let request =
          make_request F L H o (endpoint F L H o (codes "streamGenerateContent") true) body in
        let (clean, (t, fresh, e)) =
          retry-IsOneAttempt F L on_chunk H o request (record s { delivered_any = false })
            (h, refl) in
        let out =
          with_retry F H o (stream_attempt F L H o on_chunk request) (λ t. not t.delivered_any)
            (record s { delivered_any = false }) in
        let same = record_result-delivered s.world (check_blocked F L out.0) out.1 in
        subst (λ d. IsMerged F L on_chunk (check_blocked F L out.0) d × ((d ≡ []) ⊎ IsOnce d))
          (sym same)
          (
            check_blocked-IsMerged out.0 out.1.delivered clean.1,
            inr (
              request,
              t,
              fresh,
              ap (λ (x : Result (GenerateResponse Json) × Env H.World Json). x.1.delivered) e,
            ),
          )

    with_body-IsDelivery :
        (d : Result Bytes) (s : Env H.World Json)
        → s.delivered ≡ []
        → IsDelivery (with_body F L H o (stream_body F L H o on_chunk) d s)
    with_body-IsDelivery (ok body) s h = stream_body-IsDelivery body s h
    with_body-IsDelivery (err e) s h = (tt, inl h)
    with_body-IsDelivery (throws w) s h = (tt, inl h)

    -- `stream`, called with nothing delivered yet: a successful result is the merge of exactly the
    -- chunks that the callback was given, in order; and however often the call was retried, the
    -- callback was given no chunk, or those that one attempt delivers to a caller that had none.
    pub stream-IsDelivery :
        (request : GenerateRequest Json F.Double) (s : Env H.World Json)
        → s.delivered ≡ []
        → IsDelivery (stream F L H o on_chunk request s)
    unfolding stream
    stream-IsDelivery request s h = elim (Option-cases (validate F L H o request)) [
      | inr (e, v) ↦ rw (v, stream) (tt, inl h)
      | inl v ↦
          rw (v, stream)
            (with_body-IsDelivery (L.dump (request_to_json L request)) (count_request s) h)
    ]
