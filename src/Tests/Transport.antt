-- ===== src/Tests/Transport.antt =====
-- src/curl_transport.cpp on one transfer.
use gemini_cpp.Base.{
  arith, ℕ, true, not, is_empty, List, [], ◌∷◌, ◌++◌, some, ◌≡◌, refl, length, ltb,
}
use gemini_cpp.Base.Int.{pos}
use gemini_cpp.Base.Text.{Bytes, codes, equal, starts_with}
use gemini_cpp.Error.{ok, err, make_error, cancelled}
use gemini_cpp.Client.{HttpRequest}
use gemini_cpp.Transport.{header, body, Exchange, Curl, ChunkCallback, on_header, perform, code_ok}
use gemini_cpp.Transport.Parser.{feed_chunk, HasPartialLine, feed_chunk-IsSteady}
use gemini_cpp.Sse.{new, process_line, split_colon}
use gemini_cpp.Sse.Encode.{collect}
use gemini_cpp.Transport.HeaderLine.{header_line, lookup, on_header-line, IsName}
use gemini_cpp.Transport.Streaming.{send_streaming, deliver, perform-deliver}

abbrev exchange : Exchange
exchange = record {
  events =
      header (codes "HTTP/2 200\r\n")
      ∷ header (codes "Content-Type:  text/plain \r\n")
      ∷ body (pos 200) (codes "one")
      ∷ body (pos 200) (codes "two")
      ∷ body (pos 200) (codes "three")
      ∷ [];
  at_end = record { code = code_ok; status = pos 200; error_buffer = []; error_text = [] };
  status_at_stop = pos 200;
}

abbrev curl : Curl ℕ
curl = record {
  handle = λ w. (true, w);
  append_header = λ h w. (true, w);
  transfer = λ t w. (exchange, w);
}

abbrev request : HttpRequest
request = record {
  method = codes "POST";
  url = codes "http://localhost";
  headers = (codes "a", codes "b") ∷ [];
  body = codes "{}";
  timeout = pos 2500;
}

-- The callback keeps what it is given, and stops at a limit.
abbrev keep : ℕ → ChunkCallback (List Bytes)
keep limit k s = (ltb (length k) limit, k ++ s ∷ [])

stops : perform curl (some (keep 1)) request [] 0 ≡ (
  err (make_error cancelled (codes "request cancelled by caller")),
  codes "one" ∷ codes "two" ∷ [],
  0,
)
unfolding perform
stops = refl

goes_on : perform curl (some (keep 9)) request [] 0 ≡ (
  ok (record {
    status = pos 200;
    headers = (codes "content-type", codes "text/plain") ∷ [];
    body = [];
  }),
  codes "one" ∷ codes "two" ∷ codes "three" ∷ [],
  0,
)
unfolding perform
goes_on = refl

-- An event stream with an empty chunk in it.
abbrev event_stream : Curl ℕ
event_stream = record curl {
  transfer = λ t w. (
    record exchange {
      events =
          header (codes "HTTP/2 200\r\n")
          ∷ body (pos 200) (codes "data: one\n\nda")
          ∷ body (pos 200) []
          ∷ body (pos 200) (codes "ta: two\n\n")
          ∷ [];
    },
    w,
  );
}

perform-deliver_example :
    perform event_stream (some (feed_chunk collect)) request (new []) 0
    ≡ deliver event_stream request
        (feed_chunk collect)
        (new [])
        (send_streaming event_stream request 0)
perform-deliver_example =
    perform-deliver event_stream request (feed_chunk collect) (HasPartialLine collect)
      (feed_chunk-IsSteady collect) (new []) 0 tt

both_events :
    (perform event_stream (some (feed_chunk collect)) request (new []) 0).1.event.env
    ≡ codes "one" ∷ codes "two" ∷ []
unfolding perform feed_chunk process_line split_colon equal
both_events = refl

-- A callback that answers false for no bytes does not stop the transfer.
not_stopped :
    (perform event_stream (some (λ k s. (not (is_empty s), k ++ s ∷ []))) request [] 0).1
    ≡ codes "data: one\n\nda" ∷ [] ∷ codes "ta: two\n\n" ∷ []
unfolding perform
not_stopped = refl

retry-IsName : IsName (codes "Retry-After")
retry-IsName = ground arith

on_header-line_example :
    lookup
      (codes "retry-after")
      (on_header
        (header_line (codes "Retry-After") (codes " ") (codes "7") (codes "\r\n"))
        (record { status = pos 0; headers = []; body = [] })).headers
    ≡ some (codes "7")
unfolding starts_with equal
on_header-line_example =
    on_header-line (codes "Retry-After") (codes " ") (codes "7") (codes "\r\n")
      (codes "retry-after") (record { status = pos 0; headers = []; body = [] }) retry-IsName refl
      (refl, tt) refl refl (refl, (refl, tt))
