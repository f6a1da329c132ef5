-- ===== src/Sse/Encode.antt =====
-- A server's side of the event stream that src/sse.cpp reads, and the round trip through the parser.
use mathlib.Core.List.{flatten}
use gemini_cpp.Base.{
  Bool, true, false, List, [], ◌∷◌, ◌++◌, ◌≡◌, refl, ap, ◌∙◌, append-nil, append_assoc, map,
  if◌then◌else◌, All,
}
use gemini_cpp.Base.Text.{Bytes, codes, back_is, equal}
use gemini_cpp.Sse.{
  Event, SseParser, new, dispatch, process_line, split_colon, strip_cr, scan, feed, finish,
}
use gemini_cpp.Sse.Chunks.{NoNewline, scan_newline, scan-NoNewline, feed_all, feed_all-flatten}

-- A line of a payload: no newline inside and no carriage return at its end.
abbrev IsLine : Bytes → Type 0
IsLine l = NoNewline l × (back_is b'\r' l ≡ false)

-- The payload of an event is its first line and the others.
pub record Payload : Type 0 where
  pub first : Bytes
  pub more : List Bytes

abbrev IsPayload : Payload → Type 0
IsPayload e = IsLine e.first × All IsLine e.more

-- The payload as the handler gets it.
abbrev join_from : Bytes → List Bytes → Bytes
join_from acc [] = acc
join_from acc (l ∷ ls) = join_from ((acc ++ b'\n' ∷ []) ++ l) ls

abbrev pub joined : Payload → Bytes
joined e = join_from e.first e.more

abbrev data_line : Bytes → Bytes
data_line l = codes "data: " ++ (l ++ b'\n' ∷ [])

abbrev data_lines : List Bytes → Bytes
data_lines [] = []
data_lines (l ∷ ls) = data_line l ++ data_lines ls

unfoldable pub encode : Payload → Bytes
encode e = data_line e.first ++ (data_lines e.more ++ b'\n' ∷ [])

unfoldable pub encode_all : List Payload → Bytes
encode_all [] = []
encode_all (e ∷ es) = encode e ++ encode_all es

-- A handler that keeps every payload and never stops.
abbrev pub collect : Bytes → List Bytes → List Bytes × Bool
collect payload log = (log ++ payload ∷ [], true)

abbrev pub idle : List Bytes → Event (List Bytes)
idle log = record { env = log; payload = []; has_data = false }

-- One data line adds to the payload.
abbrev added : Event (List Bytes) → Bytes → Event (List Bytes)
added p l = record p {
  payload = (if p.has_data then p.payload ++ b'\n' ∷ [] else p.payload) ++ l;
  has_data = true;
}

prefix-NoNewline : (l : Bytes) → NoNewline l → NoNewline (codes "data: " ++ l)
prefix-NoNewline l h = (refl, (refl, (refl, (refl, (refl, (refl, h))))))

strip_cr_data : (l : Bytes) → IsLine l → strip_cr (codes "data: " ++ l) ≡ codes "data: " ++ l
strip_cr_data [] h = refl
strip_cr_data (c ∷ s) h = rw h.1

process_data :
    (p : Event (List Bytes)) (l : Bytes)
    → process_line collect p (codes "data: " ++ l) ≡ (added p l, true)
unfolding process_line split_colon equal
process_data p l = refl

scan-data_line :
    (p : Event (List Bytes)) (l rest : Bytes)
    → IsLine l
    → scan collect p [] (data_line l ++ rest) ≡ scan collect (added p l) [] rest
scan-data_line p l rest h =
    ap (λ t. scan collect p [] (codes "data: " ++ t)) (append_assoc l (b'\n' ∷ []) rest)
    ∙ scan-NoNewline collect (codes "data: " ++ l) p [] (b'\n' ∷ rest) (prefix-NoNewline l h.0)
    ∙ scan_newline collect p (codes "data: " ++ l) rest
    ∙ simp (strip_cr_data l h, process_data p l)

scan-data_lines :
    (ls : List Bytes) (log : List Bytes) (acc rest : Bytes)
    → All IsLine ls
    → scan collect (record { env = log; payload = acc; has_data = true }) [] (data_lines ls ++ rest)
      ≡ scan collect (record { env = log; payload = join_from acc ls; has_data = true }) [] rest
scan-data_lines [] log acc rest h = refl
scan-data_lines (l ∷ ls) log acc rest h =
    ap (scan collect (record { env = log; payload = acc; has_data = true }) [])
      (append_assoc (data_line l) (data_lines ls) rest)
    ∙ scan-data_line _ l (data_lines ls ++ rest) h.0
    ∙ scan-data_lines ls log ((acc ++ b'\n' ∷ []) ++ l) rest h.1

-- The blank line dispatches.
scan_blank :
    (log : List Bytes) (payload rest : Bytes)
    → scan collect (record { env = log; payload = payload; has_data = true }) [] (b'\n' ∷ rest)
      ≡ scan collect (idle (log ++ payload ∷ [])) [] rest
unfolding scan process_line
scan_blank log payload rest = refl

scan-encode :
    (e : Payload) (log : List Bytes) (rest : Bytes)
    → IsPayload e
    → scan collect (idle log) [] (encode e ++ rest)
      ≡ scan collect (idle (log ++ joined e ∷ [])) [] rest
unfolding encode
scan-encode e log rest h =
    ap (scan collect (idle log) []) (append_assoc (data_line e.first) _ rest)
    ∙ scan-data_line (idle log) e.first _ h.0
    ∙ ap (scan collect (added (idle log) e.first) []) (append_assoc (data_lines e.more) _ rest)
    ∙ scan-data_lines e.more log e.first (b'\n' ∷ rest) h.1
    ∙ scan_blank log (joined e) rest

scan-encode_all :
    (es : List Payload) (log : List Bytes)
    → All IsPayload es
    → scan collect (idle log) [] (encode_all es)
      ≡ (record { event = idle (log ++ map joined es); buffer = [] }, true)
unfolding encode_all
scan-encode_all [] log h = rw append-nil (unfold scan in refl)
scan-encode_all (e ∷ es) log h =
    scan-encode e log (encode_all es) h.0
    ∙ scan-encode_all es (log ++ joined e ∷ []) h.1
    ∙ rw append_assoc

abbrev pub delivered : List Payload → SseParser (List Bytes)
delivered es = record { event = idle (map joined es); buffer = [] }

feed_all_delivered :
    (es : List Payload) (cs : List Bytes)
    → All IsPayload es
    → flatten cs ≡ encode_all es
    → feed_all collect (new []) cs ≡ (delivered es, true)
feed_all_delivered es cs h e =
    let whole : feed collect (new []) (flatten cs) ≡ (delivered es, true) =
      ap (feed collect (new [])) e ∙ unfold feed in scan-encode_all es [] h in
    let agree = feed_all-flatten collect (new []) cs tt in
    agree.2 (agree.0 ∙ ap (λ r. r.1) whole) ∙ whole

-- However a well-formed stream of events is cut into chunks, the handler gets the payload of every
-- event, once and in order, no handler call stops the parser, and `finish` has nothing left to
-- dispatch.
pub feed_all-encode :
    (es : List Payload) (cs : List Bytes)
    → All IsPayload es
    → flatten cs ≡ encode_all es
    → (feed_all collect (new []) cs ≡ (delivered es, true))
      × (finish collect (feed_all collect (new []) cs).0 ≡ (delivered es, true))
unfolding finish dispatch
feed_all-encode es cs h e =
    let fed = feed_all_delivered es cs h e in (fed, ap (λ r. finish collect r.0) fed)
