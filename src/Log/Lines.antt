-- ===== src/Log/Lines.antt =====
-- src/logging.cpp: which logged texts are one line.
use gemini_cpp.Base.{
  Bool, false, not, ◌&&◌, ◌||◌, ◌==◌, List, [], ◌∷◌, ◌++◌, if◌then◌else◌, ◌≡◌, refl, ◌∙◌, arith,
  inl, inr, Bool-cases,
}
use gemini_cpp.Base.Text.{Bytes}
use gemini_cpp.Json.{JsonLib}
use gemini_cpp.Log.{
  Level, debug_level, info_level, warn_level, error_level, off_level, Log, Field, level_name, upper,
  needs_quotes, fields_text, text_line, c_string, write_log,
}

-- A byte that ends a line, or the text that `fputs` writes.
abbrev pub breaks : Bytes → Bool
breaks [] = false
breaks (c ∷ s) = c == b'\n' || c == 0 || breaks s

breaks-append : (s t : Bytes) → breaks (s ++ t) ≡ (breaks s || breaks t)
breaks-append [] t = refl
breaks-append (c ∷ s) t = ground (arith, breaks-append s t)

c_string_whole : (s : Bytes) → breaks s ≡ false → c_string (s ++ b'\n' ∷ []) ≡ s ++ b'\n' ∷ []
unfolding c_string
c_string_whole [] h = refl
c_string_whole (c ∷ s) h = ground (arith, c_string_whole s)

upper-breaks : (l : Level) → breaks (upper (level_name l)) ≡ false
unfolding level_name
upper-breaks debug_level = refl
upper-breaks info_level = refl
upper-breaks warn_level = refl
upper-breaks error_level = refl
upper-breaks off_level = refl

-- Does a value break the line that stands without quotes?
abbrev pub bare_breaks : List Field → Bool
bare_breaks [] = false
bare_breaks ((k, v) ∷ fields) = (not (needs_quotes v) && breaks v) || bare_breaks fields

abbrev pub Keys : List Field → Type 0
Keys [] = Unit
Keys ((k, v) ∷ fields) = (breaks k ≡ false) × Keys fields

module _ (quote : Bytes → Bytes) (quoted : (v : Bytes) → breaks (quote v) ≡ false) where
  fields_text-breaks :
      (fields : List Field) → Keys fields → breaks (fields_text quote fields) ≡ bare_breaks fields
  unfolding fields_text
  fields_text-breaks [] h = refl
  fields_text-breaks ((k, v) ∷ fields) (h, hs) =
      let value = if needs_quotes v then quote v else v in
      let rest = fields_text-breaks fields hs in
      breaks-append (b' ' ∷ k ++ (b'=' ∷ value)) (fields_text quote fields)
      ∙ (rw (breaks-append k (b'=' ∷ value), h, rest)
          (elim (Bool-cases (needs_quotes v)) [
            | inl q ↦ rw (q, quoted v) refl
            | inr q ↦ rw q refl
          ]))

  text_line-breaks :
      (now event : Bytes) (l : Level) (fields : List Field)
      → breaks now ≡ false
      → breaks event ≡ false
      → Keys fields
      → breaks (text_line quote now l event fields) ≡ bare_breaks fields
  unfolding text_line
  text_line-breaks now event l fields n e k =
      breaks-append now _
      ∙ (rw
          (
            n,
            breaks-append (upper (level_name l)) (b' ' ∷ event ++ fields_text quote fields),
            upper-breaks l,
            breaks-append event (fields_text quote fields),
            e,
          )
          (fields_text-breaks fields k))

module _ {D : Type 0} (L : JsonLib D) (dump_replaced : L.Json → Bytes) where
  -- In text mode, where the printed JSON string of any value, the timestamp, the event and the keys have no
  -- newline and no zero byte: the text of a line has one exactly if a value has one that
  -- stands without quotes, and if none has, then this text and a newline are what is written.
  pub write_log-line :
      ((v : Bytes) → breaks (dump_replaced (L.string v)) ≡ false)
      → (g : Log) (now event : Bytes) (l : Level) (fields : List Field) → g.json ≡ false
      → breaks now ≡ false
      → breaks event ≡ false
      → Keys fields
      → (breaks (text_line (λ v. dump_replaced (L.string v)) now l event fields)
          ≡ bare_breaks fields)
        × (bare_breaks fields ≡ false
            → write_log L dump_replaced g now l event fields
              ≡ text_line (λ v. dump_replaced (L.string v)) now l event fields ++ b'\n' ∷ [])
  unfolding write_log
  write_log-line quoted g now event l fields m n e k =
      let line =
        text_line-breaks (λ v. dump_replaced (L.string v)) quoted now event l fields n e k in
      (line, λ none_bare. rw m (c_string_whole _ (line ∙ none_bare)))
