-- ===== src/Sse.antt =====
-- src/sse.cpp: the incremental parser of server-sent events. The event handler is a function on a
-- state of its own, which it returns together with "go on".
pub mod Chunks
pub mod Encode
pub mod Invariant
use gemini_cpp.Base.{ℕ, Bool, true, false, not, ◌==◌, List, [], ◌∷◌, ◌++◌, if◌then◌else◌, is_empty}
use gemini_cpp.Base.Text.{Bytes, codes, equal, back_is, pop_back}

-- What `process_line` and `dispatch` read and write: the handler's state, `data_`, `has_data_`.
pub record Event (H : Type 0) : Type 0 where
  pub env : H
  pub payload : Bytes
  pub has_data : Bool

pub record SseParser (H : Type 0) : Type 0 where
  pub event : Event H
  pub buffer : Bytes

-- `field = substr(0, colon)` and `value = substr(colon + 1)`, or the whole line and nothing.
unfoldable pub split_colon : Bytes → Bytes × Bytes
split_colon [] = ([], [])
split_colon (c ∷ s) = if c == b':' then ([], s) else (c ∷ (split_colon s).0, (split_colon s).1)

abbrev pub drop_space : Bytes → Bytes
drop_space [] = []
drop_space (c ∷ s) = if c == b' ' then s else c ∷ s

-- A carriage return before the newline belongs to the line end.
abbrev pub strip_cr : Bytes → Bytes
strip_cr line = if back_is b'\r' line then pop_back line else line

module _ {H : Type 0} (handler : Bytes → H → H × Bool) where
  unfoldable pub dispatch : Event H → Event H × Bool
  dispatch p =
      if not p.has_data
      then (p, true)
      else let (env', go) = handler p.payload p.env in
        (record { env = env'; payload = []; has_data = false }, go)

  -- The branch for a line with a field name.
  unfoldable pub take_field : Event H → Bytes × Bytes → Event H
  take_field p (field, value) =
      if equal field (codes "data")
      then record p {
        payload = (if p.has_data then p.payload ++ b'\n' ∷ [] else p.payload) ++ drop_space value;
        has_data = true;
      }
      else p

  unfoldable pub process_line : Event H → Bytes → Event H × Bool
  unfolding dispatch take_field
  process_line p [] = dispatch p
  process_line p (c ∷ s) =
      if c == b':' then (p, true) else (take_field p (split_colon (c ∷ s)), true)

  -- The loop of `feed`: `line` holds what stands between `start` and the byte under the scan.
  unfoldable pub scan : Event H → Bytes → Bytes → SseParser H × Bool
  scan p line [] = (record { event = p; buffer = line }, true)
  scan p line (c ∷ rest) = elim (c == b'\n') [
    | true ↦
        let r = process_line p (strip_cr line) in
        elim r.1 [
          | true ↦ scan r.0 [] rest
          | false ↦ (record { event = r.0; buffer = rest }, false)
        ]
    | false ↦ scan p (line ++ c ∷ []) rest
  ]

  unfoldable pub feed : SseParser H → Bytes → SseParser H × Bool
  unfolding scan
  feed p bytes = scan p.event [] (p.buffer ++ bytes)

  unfoldable pub finish : SseParser H → SseParser H × Bool
  finish p =
      if not (is_empty p.buffer)
      then (let r = process_line p.event (strip_cr p.buffer) in
          let d = dispatch r.0 in
          (if not r.1
            then (record { event = r.0; buffer = [] }, false)
            else (record { event = d.0; buffer = [] }, d.1)))
      else let d = dispatch p.event in (record p { event = d.0 }, d.1)

-- The constructor.
abbrev pub new : {H : Type 0} → H → SseParser H
new env = record { event = record { env = env; payload = []; has_data = false }; buffer = [] }
