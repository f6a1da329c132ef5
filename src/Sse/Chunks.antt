-- ===== src/Sse/Chunks.antt =====
-- `SseParser::feed` of src/sse.cpp does not depend on how the bytes are split into chunks.
use mathlib.Core.List.{flatten}
use gemini_cpp.Base.{
  ℕ, Bool, true, false, ◌==◌, List, [], ◌∷◌, ◌++◌, ◌≡◌, refl, sym, ap, ◌∙◌, subst, arith,
  append-nil, append_assoc,
}
use gemini_cpp.Base.Text.{Bytes}
use gemini_cpp.Sse.{Event, SseParser, process_line, strip_cr, scan, feed}

abbrev pub NoNewline : Bytes → Type 0
NoNewline [] = Unit
NoNewline (c ∷ s) = ((c == b'\n') ≡ false) × NoNewline s

NoNewline-concat :
    (s : Bytes) (c : ℕ) → NoNewline s → (c == b'\n') ≡ false → NoNewline (s ++ c ∷ [])
NoNewline-concat [] c h e = (e, tt)
NoNewline-concat (x ∷ s) c h e = (h.0, NoNewline-concat s c h.1 e)

module _ {H : Type 0} (handler : Bytes → H → H × Bool) where
  -- What more bytes do to an outcome of `scan`.
  abbrev go_on : SseParser H × Bool → Bytes → SseParser H × Bool
  go_on (q, true) more = scan handler q.event q.buffer more
  go_on (q, false) more = (record q { buffer = q.buffer ++ more }, false)

  pub scan_newline :
      (p : Event H) (line rest : Bytes)
      → scan handler p line (b'\n' ∷ rest) ≡ elim (process_line handler p (strip_cr line)).1 [
        | true ↦ scan handler (process_line handler p (strip_cr line)).0 [] rest
        | false ↦
            (record { event = (process_line handler p (strip_cr line)).0; buffer = rest }, false)
      ]
  unfolding scan
  scan_newline p line rest = refl

  -- Bytes without a newline only grow the line.
  pub scan-NoNewline :
      (s : Bytes) (p : Event H) (line rest : Bytes)
      → NoNewline s
      → scan handler p line (s ++ rest) ≡ scan handler p (line ++ s) rest
  unfolding scan
  scan-NoNewline [] p line rest h = rw append-nil
  scan-NoNewline (c ∷ s) p line rest h =
      rw (h.0, scan) (scan-NoNewline s p (line ++ c ∷ []) rest h.1 ∙ rw append_assoc)

  scan-append :
      (s : Bytes) (p : Event H) (line more : Bytes)
      → scan handler p line (s ++ more) ≡ go_on (scan handler p line s) more
  unfolding scan
  scan-append [] p line more = refl
  scan-append (c ∷ s) p line more = ground (
    arith,
    scan-append s p (line ++ c ∷ []) more,
    scan-append s (process_line handler p (strip_cr line)).0 [] more,
  )

  -- When the scan goes on, the buffer is an unfinished line.
  scan_buffer :
      (s : Bytes) (p : Event H) (line : Bytes)
      → NoNewline line
      → (scan handler p line s).1 ≡ true
      → NoNewline (scan handler p line s).0.buffer
  unfolding scan
  scan_buffer [] p line h e = h
  scan_buffer (c ∷ s) p line h e = ground (
    arith,
    scan_buffer s p (line ++ c ∷ []),
    NoNewline-concat line c h,
    scan_buffer s (process_line handler p (strip_cr line)).0 [] tt,
  )

  -- What a call of `feed` does after another one: it goes on where that one stopped, or, once the
  -- handler has asked to stop, the bytes only wait in the buffer.
  abbrev pub resume : SseParser H × Bool → Bytes → SseParser H × Bool
  resume (q, true) more = feed handler q more
  resume (q, false) more = (record q { buffer = q.buffer ++ more }, false)

  resume-go_on :
      (r : SseParser H × Bool) (more : Bytes)
      → (r.1 ≡ true → NoNewline r.0.buffer)
      → go_on r more ≡ resume r more
  unfolding feed
  resume-go_on (q, true) more h = sym (scan-NoNewline q.buffer q.event [] more (h refl))
  resume-go_on (q, false) more h = refl

  -- Feeding bytes in one call is the same as feeding any first part of them and then the rest.
  pub feed-append :
      (p : SseParser H) (a b : Bytes) → feed handler p (a ++ b) ≡ resume (feed handler p a) b
  unfolding feed
  feed-append p a b =
      ap (scan handler p.event []) (sym (append_assoc p.buffer a b))
      ∙ scan-append (p.buffer ++ a) p.event [] b
      ∙ resume-go_on (feed handler p a) b (scan_buffer (p.buffer ++ a) p.event [] tt)

  -- A transport that calls `feed` for each chunk until it returns false.
  unfoldable pub feed_all : SseParser H → List Bytes → SseParser H × Bool
  feed_all p [] = (p, true)
  feed_all p (c ∷ cs) = let r = feed handler p c in elim r.1 [ true ↦ feed_all r.0 cs | false ↦ r ]

  -- The outcomes agree on the answer and on what was dispatched, and wholly if no handler stopped.
  abbrev pub Agree : SseParser H × Bool → SseParser H × Bool → Type 0
  Agree r w = (r.1 ≡ w.1) × (r.0.event ≡ w.0.event) × (r.1 ≡ true → r ≡ w)

  pub feed_nil : (p : SseParser H) → NoNewline p.buffer → feed handler p [] ≡ (p, true)
  unfolding feed scan
  feed_nil p h = scan-NoNewline p.buffer p.event [] [] h

  pub feed_buffer :
      (p : SseParser H) (c : Bytes)
      → (feed handler p c).1 ≡ true
      → NoNewline (feed handler p c).0.buffer
  unfolding feed
  feed_buffer p c = scan_buffer (p.buffer ++ c) p.event [] tt

  Agree-resume :
      (r : SseParser H × Bool) (cs : List Bytes)
      → (r.1 ≡ true → Agree (feed_all r.0 cs) (feed handler r.0 (flatten cs)))
      → Agree (elim r.1 [ true ↦ feed_all r.0 cs | false ↦ r ]) (resume r (flatten cs))
  Agree-resume (q, true) cs h = h refl
  Agree-resume (q, false) cs h = (refl, refl, λ e. cc)

  -- A parser with no whole line in its buffer gives the same answer and dispatches the same events
  -- to the handler, however the bytes are cut into chunks; if no handler stops it, its state is
  -- the same too.
  pub feed_all-flatten :
      (p : SseParser H) (cs : List Bytes)
      → NoNewline p.buffer
      → Agree (feed_all p cs) (feed handler p (flatten cs))
  unfolding feed_all flatten
  feed_all-flatten p [] h = subst (Agree (p, true)) (sym (feed_nil p h)) (refl, refl, λ _. refl)
  feed_all-flatten p (c ∷ cs) h =
      subst (Agree (feed_all p (c ∷ cs))) (sym (feed-append p c (flatten cs))) (
        Agree-resume (feed handler p c) cs
          (λ e. feed_all-flatten (feed handler p c).0 cs (feed_buffer p c e)))
