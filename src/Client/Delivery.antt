-- ===== src/Client/Delivery.antt =====
-- What the caller of `stream` in src/client.cpp sees: its callback is given the chunks of one attempt
-- only, and a successful result is the merge of just those chunks.
use gemini_cpp.Base.{
  Bool, true, false, not, List, [], Option, none, some, ◌≡◌, refl, arith, Bool-cases, inl, inr,
}
use gemini_cpp.Base.Text.{Bytes, codes, equal}
use gemini_cpp.Error.{Result, ok, err, throws, Error}
use gemini_cpp.Json.{FloatLib, JsonLib}
use gemini_cpp.Sse.{SseParser, new, finish}
use gemini_cpp.Sse.Chunks.{feed_all}
use gemini_cpp.Sse.Invariant.{feed_all-keeps, finish-keeps}
use gemini_cpp.Types.{GenerateResponse, empty_response}
use gemini_cpp.Types.Merge.{stream_from, stream_from-concat}
use gemini_cpp.Wire.{parse_generate_body}
use gemini_cpp.Client.{
  HttpRequest, HttpResponse, Host, ClientOptions, Env, with_retry, count_attempt,
}
use gemini_cpp.Client.Attempts.{Runs_rule, IsRetried-can_retry, with_retry-Runs}
use gemini_cpp.Client.Stream.{
  Sink, Callback, take_chunk, on_event, conclude, conclude_by, settle, stream_attempt, open_sink,
}

-- The aggregate is the merge of the chunks that were delivered, and the flag tells whether any was.
pub record IsFaithful {J : Type 0} (k : Sink J) : Type 0 where
  pub merged : k.aggregate ≡ stream_from empty_response k.delivered
  pub flagged : k.delivered_any ≡ false → k.delivered ≡ []

unflagged : (b : Bool) → not b ≡ true → b ≡ false
unflagged true h = cc
unflagged false h = refl

module _ (F : FloatLib) (L : JsonLib F.Double) (on_chunk : Callback F L) where
  open L use {Json}

  take_chunk-IsFaithful :
      (r : Result (GenerateResponse Json)) (k : Sink Json)
      → IsFaithful k
      → IsFaithful (take_chunk F L on_chunk r k).0
  unfolding take_chunk
  take_chunk-IsFaithful (err e) k h = record { merged = h.merged; flagged = h.flagged }
  take_chunk-IsFaithful (throws w) k h = record { merged = h.merged; flagged = h.flagged }
  take_chunk-IsFaithful (ok c) k h = ground (arith, stream_from-concat k.delivered empty_response c)

  on_event-IsFaithful :
      (payload : Bytes) (k : Sink Json)
      → IsFaithful k
      → IsFaithful (on_event F L on_chunk payload k).0
  unfolding on_event
  on_event-IsFaithful payload k h = elim (Bool-cases (equal payload (codes "[DONE]"))) [
    | inl e ↦ rw e h
    | inr e ↦ rw e (take_chunk-IsFaithful (parse_generate_body L payload) k h)
  ]

  -- A result and the sink behind it.
  abbrev pub IsMerged : Result (GenerateResponse Json) → List (GenerateResponse Json) → Type 0
  IsMerged (ok a) chunks = a ≡ stream_from empty_response chunks
  IsMerged _ chunks = Unit

  settle-IsMerged :
      (w : Option Bytes) (e : Option Error) (k : Sink Json)
      → IsFaithful k
      → IsMerged (settle F L w e (ok k.aggregate)) k.delivered
  settle-IsMerged (some w) e k h = tt
  settle-IsMerged none (some e) k h = tt
  settle-IsMerged none none k h = h.merged

  abbrev IsConcluded : Result (GenerateResponse Json) × Sink Json → Type 0
  IsConcluded (r, k) = IsFaithful k × IsMerged r k.delivered

  conclude-IsConcluded :
      (p : SseParser (Sink Json)) (w : Option Bytes) (e : Option Error) (stopped : Bool)
      (r : Result HttpResponse)
      → IsFaithful p.event.env
      → IsConcluded (conclude_by F L on_chunk p w e stopped r)
  unfolding conclude_by
  conclude-IsConcluded p (some w) e stopped r h = (h, tt)
  conclude-IsConcluded p none (some e) stopped r h = (h, tt)
  conclude-IsConcluded p none none true r h = (h, h.merged)
  conclude-IsConcluded p none none false (err e) h = (h, tt)
  conclude-IsConcluded p none none false (throws w) h = (h, tt)
  conclude-IsConcluded p none none false (ok r) h =
      let t = finish-keeps (on_event F L on_chunk) IsFaithful on_event-IsFaithful p h in
      (t, settle-IsMerged _ _ (finish (on_event F L on_chunk) p).0.event.env t)

  module _ (H : Host F) (o : ClientOptions F.Double) (request : HttpRequest) where
    abbrev pub attempt : Env H.World Json → Result (GenerateResponse Json) × Env H.World Json
    attempt = stream_attempt F L H o on_chunk request

    -- The caller has been given no chunk.
    abbrev pub IsFresh : Env H.World Json → Type 0
    IsFresh s = (s.delivered ≡ []) × (s.delivered_any ≡ false)

    -- What an attempt leaves.
    abbrev pub IsClean : Result (GenerateResponse Json) × Env H.World Json → Type 0
    IsClean (r, s) = (s.delivered_any ≡ false → s.delivered ≡ []) × IsMerged r s.delivered

    open_sink-IsFaithful : (s : Env H.World Json) → IsFresh s → IsFaithful (open_sink F L H o s)
    unfolding stream_from
    open_sink-IsFaithful s h = record { merged = rw h.0; flagged = λ _. h.0 }

    attempt-IsClean : (s : Env H.World Json) → IsFresh s → IsClean (attempt s)
    unfolding stream_attempt conclude
    attempt-IsClean s h =
        let (reply, w) = H.send_streaming request s.world in
        let fed = feed_all (on_event F L on_chunk) (new (open_sink F L H o s)) reply.chunks in
        let (k, m) = conclude-IsConcluded fed.0 _ _ _ _ (
          feed_all-keeps (on_event F L on_chunk) IsFaithful on_event-IsFaithful reply.chunks
            (new (open_sink F L H o s)) (open_sink-IsFaithful s h)) in
        (k.flagged, m)

    -- The caller has seen what one attempt delivers to a caller that had seen nothing.
    abbrev pub IsOneAttempt : Result (GenerateResponse Json) × Env H.World Json → Type 0
    IsOneAttempt out = IsClean out × ((t : Env H.World Json) × IsFresh t × (attempt t ≡ out))

    pub retry-IsOneAttempt :
        (s : Env H.World Json)
        → IsFresh s
        → IsOneAttempt (with_retry F H o attempt (λ t. not t.delivered_any) s)
    retry-IsOneAttempt s =
        Runs_rule F H o attempt (λ t. not t.delivered_any) IsFresh IsOneAttempt
          (λ t f. (attempt-IsClean (count_attempt t) f, (count_attempt t, f, refl)))
          (λ i t f e.
            let idle = unflagged _ (
              IsRetried-can_retry F H o attempt (λ t. not t.delivered_any) i
                (attempt (count_attempt t)) e) in
            ((attempt-IsClean (count_attempt t) f).0 idle, idle))
          (with_retry-Runs F H o attempt (λ t. not t.delivered_any) s)
