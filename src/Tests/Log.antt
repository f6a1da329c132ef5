-- ===== src/Tests/Log.antt =====
-- src/logging.cpp: lines of the log.
use gemini_cpp.Base.{false, [], ◌∷◌, List, ◌++◌, ◌≡◌, refl, none}
use gemini_cpp.Base.Text.{Bytes, codes}
use gemini_cpp.Json.Sample.{values, Value}
use gemini_cpp.Log.{
  info_level, warn_level, Field, initial_log, parse_level, text_line, write_log, log_at,
}
use gemini_cpp.Log.Lines.{breaks, bare_breaks, write_log-line}

-- A printed value is two quotes.
abbrev dump_replaced : Value → Bytes
dump_replaced v = codes "\"\""

abbrev now : Bytes
now = codes "2026-01-02T03:04:05.006Z"

abbrev fields : List Field
fields = (codes "tool", codes "add") ∷ (codes "error", codes "not found") ∷ []

line_lem :
    write_log values dump_replaced initial_log now warn_level (codes "tool_failed") fields
    ≡ codes "2026-01-02T03:04:05.006Z WARN tool_failed tool=add error=\"\"\n"
unfolding write_log
line_lem = refl

below_level : log_at values dump_replaced initial_log now info_level (codes "tool_call") fields ≡ []
unfolding log_at
below_level = refl

-- A newline alone asks for no quotes, and then makes two lines.
bare_newline :
    write_log values dump_replaced initial_log now warn_level
      (codes "e")
      ((codes "tool", codes "a\nb") ∷ [])
    ≡ codes "2026-01-02T03:04:05.006Z WARN e tool=a\nb\n"
unfolding write_log
bare_newline = refl

unknown_level : parse_level (codes "WARN") ≡ none
unfolding parse_level
unknown_level = refl

write_log-line_example :
    (breaks (text_line (λ v. codes "\"\"") now warn_level (codes "e") fields) ≡ bare_breaks fields)
    × (bare_breaks fields ≡ false
        → write_log values dump_replaced initial_log now warn_level (codes "e") fields
          ≡ text_line (λ v. codes "\"\"") now warn_level (codes "e") fields ++ codes "\n")
write_log-line_example =
    write_log-line values dump_replaced (λ v. refl) initial_log now (codes "e") warn_level fields
      refl refl refl (refl, (refl, tt))
