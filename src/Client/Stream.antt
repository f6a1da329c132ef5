-- ===== src/Client/Stream.antt =====
-- src/client.cpp: `stream`. The caller's callback answers from the chunks that it was given before and
-- the new one; no callback is one that always answers true. An exception of the parser leaves the
-- attempt at once; the callback itself throws none.
use gemini_cpp.Base.{Bool, true, false, not, List, [], ◌∷◌, ◌++◌, Option, none, some, if◌then◌else◌}
use gemini_cpp.Base.Text.{Bytes, codes, equal}
use gemini_cpp.Error.{Result, ok, err, throws, Error}
use gemini_cpp.Json.{FloatLib, JsonLib}
use gemini_cpp.Sse.{SseParser, new, finish}
use gemini_cpp.Sse.Chunks.{feed_all}
use gemini_cpp.Types.{GenerateRequest, GenerateResponse, merge, empty_response}
use gemini_cpp.Wire.{parse_generate_body}
use gemini_cpp.Wire.Print.{request_to_json}
use gemini_cpp.Client.{
  HttpRequest, HttpResponse, Host, ClientOptions, Env, count_request, with_retry,
}
use gemini_cpp.Client.Calls.{
  check_http, check_blocked, endpoint, make_request, validate, with_body, record_result,
}

-- The variables that the event handler of `stream` captures, and the exception in flight.
pub record Sink (J : Type 0) : Type 0 where
  pub aggregate : GenerateResponse J
  pub parse_error : Option Error
  pub caller_stopped : Bool
  pub thrown : Option Bytes
  pub delivered : List (GenerateResponse J)
  pub delivered_any : Bool

module _ (F : FloatLib) (L : JsonLib F.Double) where
  open L use {Json}

  abbrev pub Callback : Type 0
  Callback = List (GenerateResponse Json) → GenerateResponse Json → Bool

  -- The handler on one parsed event.
  unfoldable pub take_chunk :
      Callback → Result (GenerateResponse Json) → Sink Json → Sink Json × Bool
  take_chunk on_chunk (err e) s = (record s { parse_error = some e }, false)
  take_chunk on_chunk (throws w) s = (record s { thrown = some w }, false)
  take_chunk on_chunk (ok chunk) s =
      let s' = record s {
        aggregate = merge s.aggregate chunk;
        delivered = s.delivered ++ chunk ∷ [];
        delivered_any = true;
      } in
      if on_chunk s.delivered chunk
      then (s', true)
      else (record s' { caller_stopped = true }, false)

  unfoldable pub on_event : Callback → Bytes → Sink Json → Sink Json × Bool
  unfolding take_chunk
  on_event on_chunk payload s =
      if equal payload (codes "[DONE]")
      then (s, true)
      else take_chunk on_chunk (parse_generate_body L payload) s

  abbrev pub sink_of : SseParser (Sink Json) × Bool → Sink Json
  sink_of r = r.0.event.env

  -- An exception first, then a parse error.
  abbrev pub settle :
      Option Bytes → Option Error → Result (GenerateResponse Json) → Result (GenerateResponse Json)
  settle (some w) e r = throws w
  settle none (some e) r = err e
  settle none none r = r

  -- The end of the attempt: the exception, `parse_error`, `caller_stopped`, and the checked response,
  -- after which the rest of the buffer is parsed. The sink is the one that the attempt leaves.
  unfoldable pub conclude_by :
      Callback
      → SseParser (Sink Json)
      → Option Bytes
      → Option Error
      → Bool
      → Result HttpResponse
      → Result (GenerateResponse Json) × Sink Json
  conclude_by on_chunk p (some w) e stopped r = (throws w, p.event.env)
  conclude_by on_chunk p none (some e) stopped r = (err e, p.event.env)
  conclude_by on_chunk p none none true r = (ok p.event.env.aggregate, p.event.env)
  conclude_by on_chunk p none none false (err e) = (err e, p.event.env)
  conclude_by on_chunk p none none false (throws w) = (throws w, p.event.env)
  conclude_by on_chunk p none none false (ok r) =
      let t = sink_of (finish (on_event on_chunk) p) in
      (settle t.thrown t.parse_error (ok t.aggregate), t)

  unfoldable pub conclude :
      Callback
      → SseParser (Sink Json)
      → Result HttpResponse
      → Result (GenerateResponse Json) × Sink Json
  unfolding conclude_by check_http
  conclude on_chunk parser response =
      let s = parser.event.env in
      conclude_by on_chunk parser s.thrown s.parse_error s.caller_stopped (check_http F L response)

  module _ (H : Host F) (o : ClientOptions F.Double) where
    abbrev pub open_sink : Env H.World Json → Sink Json
    open_sink s = record {
      aggregate = empty_response;
      parse_error = none;
      caller_stopped = false;
      thrown = none;
      delivered = s.delivered;
      delivered_any = s.delivered_any;
    }

    abbrev pub close_sink : H.World → Sink Json → Env H.World Json → Env H.World Json
    close_sink w k s = record s {
      world = w;
      delivered = k.delivered;
      delivered_any = k.delivered_any;
    }

    unfoldable pub stream_attempt :
        Callback
        → HttpRequest
        → Env H.World Json
        → Result (GenerateResponse Json) × Env H.World Json
    unfolding on_event conclude feed_all
    stream_attempt on_chunk request s =
        let (reply, w) = H.send_streaming request s.world in
        let fed = feed_all (on_event on_chunk) (new (open_sink s)) reply.chunks in
        let (r, k) = conclude on_chunk fed.0 (if fed.1 then reply.completed else reply.cancelled) in
        (r, close_sink w k s)

    unfoldable pub stream_body :
        Callback → Bytes → Env H.World Json → Result (GenerateResponse Json) × Env H.World Json
    unfolding stream_attempt check_blocked record_result make_request endpoint
    stream_body on_chunk body s =
        let request =
          make_request F L H o (endpoint F L H o (codes "streamGenerateContent") true) body in
        let (r, s') =
          with_retry F H o (stream_attempt on_chunk request) (λ t. not t.delivered_any)
            (record s { delivered_any = false }) in
        let result = check_blocked F L r in (result, record_result F L H o s.world result s')

    unfoldable pub stream :
        Callback
        → GenerateRequest Json F.Double
        → Env H.World Json
        → Result (GenerateResponse Json) × Env H.World Json
    unfolding stream_body validate
    stream on_chunk request s =
        let s' = count_request s in
        elim (validate F L H o request) [
          | some e ↦ (err e, s')
          | none ↦ with_body F L H o (stream_body on_chunk) (L.dump (request_to_json L request)) s'
        ]
