-- ===== src/Transport/Parser.antt =====
-- src/client.cpp and src/curl_transport.cpp: the callback of `stream`, which feeds the parser, on a transfer.
use gemini_cpp.Base.{Bool, ap}
use gemini_cpp.Base.Text.{Bytes}
use gemini_cpp.Sse.{SseParser, feed}
use gemini_cpp.Sse.Chunks.{NoNewline, feed_nil, feed_buffer}
use gemini_cpp.Transport.{ChunkCallback}
use gemini_cpp.Transport.Streaming.{IsSteady}

module _ {H : Type 0} (handler : Bytes → H → H × Bool) where
  -- `[&](std::string_view bytes) { return parser.feed(bytes); }`
  unfoldable pub feed_chunk : ChunkCallback (SseParser H)
  unfolding feed
  feed_chunk p bytes = let (q, more) = feed handler p bytes in (more, q)

  abbrev pub HasPartialLine : SseParser H → Type 0
  HasPartialLine p = NoNewline p.buffer

  pub feed_chunk-IsSteady : IsSteady feed_chunk HasPartialLine
  unfolding feed_chunk
  feed_chunk-IsSteady = record {
    keeps = λ p bytes g h. feed_buffer handler p bytes h;
    goes_on = λ p g. ap (λ (r : SseParser H × Bool). r.1) (feed_nil handler p g);
  }
