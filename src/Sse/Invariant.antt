-- ===== src/Sse/Invariant.antt =====
-- What an event handler of src/sse.cpp keeps true of its state, the whole parser keeps true.
use gemini_cpp.Base.{
  Bool, true, false, not, ◌==◌, List, [], ◌∷◌, ◌++◌, is_empty, if◌then◌else◌, Bool-cases, inl, inr,
}
use gemini_cpp.Base.Text.{Bytes, codes, equal}
use gemini_cpp.Sse.{
  Event, SseParser, dispatch, take_field, process_line, split_colon, strip_cr, scan, feed, finish,
}
use gemini_cpp.Sse.Chunks.{feed_all}

module _ {H : Type 0} (handler : Bytes → H → H × Bool) (P : H → Type 0)
    (keep : (payload : Bytes) (env : H) → P env → P (handler payload env).0) where
  dispatch-keeps : (p : Event H) → P p.env → P (dispatch handler p).0.env
  unfolding dispatch
  dispatch-keeps p h = elim (Bool-cases p.has_data) [
    | inl e ↦ rw e (keep p.payload p.env h)
    | inr e ↦ rw e h
  ]

  take_field-keeps : (p : Event H) (f : Bytes × Bytes) → P p.env → P (take_field handler p f).env
  unfolding take_field
  take_field-keeps p (f, v) h = elim (Bool-cases (equal f (codes "data"))) [
    | inl e ↦ rw e h
    | inr e ↦ rw e h
  ]

  process_line-keeps :
      (p : Event H) (line : Bytes) → P p.env → P (process_line handler p line).0.env
  unfolding process_line
  process_line-keeps p [] h = dispatch-keeps p h
  process_line-keeps p (c ∷ s) h = elim (Bool-cases (c == b':')) [
    | inl e ↦ rw e h
    | inr e ↦ rw e (take_field-keeps p (split_colon (c ∷ s)) h)
  ]

  scan-keeps :
      (s : Bytes) (p : Event H) (line : Bytes) → P p.env → P (scan handler p line s).0.event.env
  unfolding scan
  scan-keeps [] p line h = h
  scan-keeps (c ∷ s) p line h = elim (Bool-cases (c == b'\n')) [
    | inl new ↦
        rw (new, scan)
          (go (process_line handler p (strip_cr line)) (process_line-keeps p (strip_cr line) h)
            (λ q. scan-keeps s q []))
    | inr old ↦ rw (old, scan) (scan-keeps s p (line ++ c ∷ []) h)
  ]
    where
      go :
          (r : Event H × Bool)
          → P r.0.env
          → ((q : Event H) → P q.env → P (scan handler q [] s).0.event.env)
          → let next : SseParser H × Bool = elim r.1 [
            | true ↦ scan handler r.0 [] s
            | false ↦ (record { event = r.0; buffer = s }, false)
          ] in
            P next.0.event.env
      go (q, true) h next = next q h
      go (q, false) h next = h

  pub feed-keeps :
      (p : SseParser H) (bytes : Bytes) → P p.event.env → P (feed handler p bytes).0.event.env
  unfolding feed
  feed-keeps p bytes = scan-keeps (p.buffer ++ bytes) p.event []

  flush-keeps :
      (r : Event H × Bool)
      → P r.0.env
      → let out : SseParser H × Bool =
          (let d = dispatch handler r.0 in
            (if not r.1
              then (record { event = r.0; buffer = [] }, false)
              else (record { event = d.0; buffer = [] }, d.1))) in
        P out.0.event.env
  flush-keeps (p, true) h = dispatch-keeps p h
  flush-keeps (p, false) h = h

  -- An invariant of the handler's state is one of `finish`.
  pub finish-keeps : (p : SseParser H) → P p.event.env → P (finish handler p).0.event.env
  unfolding finish
  finish-keeps p h = elim (Bool-cases (is_empty p.buffer)) [
    | inl e ↦ rw e (dispatch-keeps p.event h)
    | inr e ↦ rw e (
        flush-keeps (process_line handler p.event (strip_cr p.buffer))
          (process_line-keeps p.event (strip_cr p.buffer) h))
  ]

  feed_all_from :
      (r : SseParser H × Bool) (cs : List Bytes)
      → P r.0.event.env
      → ((q : SseParser H) → P q.event.env → P (feed_all handler q cs).0.event.env)
      → let next : SseParser H × Bool = elim r.1 [ true ↦ feed_all handler r.0 cs | false ↦ r ] in
        P next.0.event.env
  feed_all_from (q, true) cs h next = next q h
  feed_all_from (q, false) cs h next = h

  -- An invariant of the handler's state is one of a whole transfer.
  pub feed_all-keeps :
      (cs : List Bytes) (p : SseParser H) → P p.event.env → P (feed_all handler p cs).0.event.env
  unfolding feed_all
  feed_all-keeps [] p h = h
  feed_all-keeps (c ∷ cs) p h =
      feed_all_from (feed handler p c) cs (feed-keeps p c h) (λ q. feed_all-keeps cs q)
