-- ===== src/Tests/Sse.antt =====
-- src/sse.cpp on small streams.
use gemini_cpp.Base.{true, List, [], ◌∷◌, ◌≡◌, refl}
use gemini_cpp.Base.Text.{Bytes, codes, equal}
use gemini_cpp.Sse.{new, process_line, split_colon, feed, finish}
use gemini_cpp.Sse.Chunks.{feed_all, Agree, feed_all-flatten}
use gemini_cpp.Sse.Encode.{Payload, collect, encode, encode_all, delivered, feed_all-encode}
use mathlib.Core.List.{flatten}

abbrev stream_text : Bytes
stream_text = codes "data: {\"a\"\ndata: :1}\n\ndata: x\n\n"

abbrev pieces : List Bytes
pieces = codes "da" ∷ codes "ta: {\"a\"\nda" ∷ codes "ta: :1}\n\ndata: x\n" ∷ codes "\n" ∷ []

abbrev events : List Payload
events =
    record { first = codes "{\"a\""; more = codes ":1}" ∷ [] }
    ∷ record { first = codes "x"; more = [] }
    ∷ []

encode-events : encode_all events ≡ stream_text
unfolding encode_all encode
encode-events = refl

feed_all-pieces :
    (feed_all collect (new []) pieces).0.event.env ≡ codes "{\"a\"\n:1}" ∷ codes "x" ∷ []
unfolding feed_all feed split_colon process_line equal
feed_all-pieces = refl

-- A comment, a carriage return, an unused field, and an event that only `finish` ends.
finish_unended :
    (finish collect (feed collect (new []) (codes ": ping\r\nid: 4\ndata:y\r\n")).0).0.event.env
    ≡ codes "y" ∷ []
unfolding finish feed split_colon process_line equal
finish_unended = refl

feed_all-flatten_example :
    Agree collect (feed_all collect (new []) pieces) (feed collect (new []) (flatten pieces))
feed_all-flatten_example = feed_all-flatten collect (new []) pieces tt

feed_all-encode_example :
    (feed_all collect (new []) pieces ≡ (delivered events, true))
    × (finish collect (feed_all collect (new []) pieces).0 ≡ (delivered events, true))
unfolding flatten encode_all encode
feed_all-encode_example =
    feed_all-encode events pieces
      (
        (((refl, (refl, (refl, (refl, tt)))), refl), (((refl, (refl, (refl, tt))), refl), tt)),
        ((((refl, tt), refl), tt), tt),
      )
      refl
