-- ===== src/Log.antt =====
-- include/gemini/logging.hpp and src/logging.cpp: the level of the log, and the text of a line. The
-- timestamp, which the C library formats, is a parameter, and so is `dump` with replaced bytes.
pub mod Levels
pub mod Lines
use gemini_cpp.Base.{
  ℕ, ◌+◌, ◌-◌, Bool, true, false, not, ◌&&◌, ◌||◌, ◌==◌, leb, List, [], ◌∷◌, ◌++◌, Option, none,
  some, if◌then◌else◌, is_empty, map,
}
use gemini_cpp.Base.Text.{Bytes, codes, equal}
use gemini_cpp.Json.{JsonLib}

pub data Level : Type 0 where
  debug_level info_level warn_level error_level off_level : Level

-- The value of an enumerator, by which levels are compared.
abbrev pub rank : Level → ℕ
rank debug_level = 0
rank info_level = 1
rank warn_level = 2
rank error_level = 3
rank off_level = 4

unfoldable pub level_name : Level → Bytes
level_name debug_level = codes "debug"
level_name info_level = codes "info"
level_name warn_level = codes "warn"
level_name error_level = codes "error"
level_name off_level = codes "off"

-- The loop of `parse_level` over the levels; `out` is set only if it returns true.
unfoldable pub first_named : Bytes → List Level → Option Level
unfolding level_name equal
first_named text [] = none
first_named text (l ∷ ls) =
    let rest = first_named text ls in if equal text (level_name l) then some l else rest

unfoldable pub parse_level : Bytes → Option Level
unfolding first_named
parse_level text =
    first_named text (debug_level ∷ info_level ∷ warn_level ∷ error_level ∷ off_level ∷ [])

-- `g_level` and `g_json`.
pub record Log : Type 0 where
  pub level : Level
  pub json : Bool

abbrev pub initial_log : Log
initial_log = record { level = warn_level; json = false }

abbrev pub set_level : Level → Log → Log
set_level l g = record g { level = l }

abbrev pub set_json : Bool → Log → Log
set_json enabled g = record g { json = enabled }

abbrev pub enabled : Level → Log → Bool
enabled l g = not (rank l == 4) && leb (rank g.level) (rank l)

abbrev mem_byte : ℕ → Bytes → Bool
mem_byte c [] = false
mem_byte c (d ∷ set) = c == d || mem_byte c set

-- `find_first_of` does not give `npos`.
unfoldable pub has_any : Bytes → Bytes → Bool
has_any set [] = false
has_any set (c ∷ s) = mem_byte c set || has_any set s

unfoldable pub needs_quotes : Bytes → Bool
unfolding has_any
needs_quotes v = is_empty v || has_any (b' ' ∷ b'\t' ∷ b'"' ∷ b'=' ∷ []) v

abbrev pub Field : Type 0
Field = Bytes × Bytes

-- `c - ('a' - 'A')`, on the letters of a level's name.
abbrev pub upper : Bytes → Bytes
upper s = map (λ c. c - (b'a' - b'A')) s

-- What `std::fputs` writes of a `std::string`: the bytes before the first zero byte.
unfoldable pub c_string : Bytes → Bytes
c_string [] = []
c_string (c ∷ s) = let rest = c_string s in if c == 0 then [] else c ∷ rest

-- `j[k] = v` on an object.
unfoldable pub set_member : {A : Type 0} → List (Bytes × A) → Bytes → A → List (Bytes × A)
unfolding equal
set_member [] k v = (k, v) ∷ []
set_member ((j, w) ∷ ms) k v =
    let rest = set_member ms k v in if equal j k then (j, v) ∷ ms else (j, w) ∷ rest

module _ (quote : Bytes → Bytes) where
  -- The fields of a line, where `quote v` is `json(v).dump` with bytes replaced that are no UTF-8.
  unfoldable pub fields_text : List Field → Bytes
  unfolding needs_quotes
  fields_text [] = []
  fields_text ((k, v) ∷ fields) =
      (b' ' ∷ k ++ (b'=' ∷ (if needs_quotes v then quote v else v))) ++ fields_text fields

  unfoldable pub text_line : Bytes → Level → Bytes → List Field → Bytes
  unfolding fields_text level_name
  text_line now l event fields =
      now ++ (b' ' ∷ upper (level_name l) ++ (b' ' ∷ event ++ fields_text fields))

module _ {D : Type 0} (L : JsonLib D) (dump_replaced : L.Json → Bytes) where
  abbrev set_fields : List (Bytes × L.Json) → List Field → List (Bytes × L.Json)
  set_fields ms [] = ms
  set_fields ms ((k, v) ∷ fields) = set_fields (set_member ms k (L.string v)) fields

  unfoldable pub json_line : Bytes → Level → Bytes → List Field → Bytes
  unfolding set_member level_name
  json_line now l event fields = dump_replaced (
      L.object (
        set_fields
          ((codes "ts", L.string now)
            ∷ (codes "level", L.string (level_name l))
            ∷ (codes "event", L.string event)
            ∷ [])
          fields))

  -- `write`: what is added to the standard error stream.
  unfoldable pub write_log : Log → Bytes → Level → Bytes → List Field → Bytes
  unfolding json_line text_line c_string
  write_log g now l event fields = c_string (
      (if g.json
        then json_line now l event fields
        else text_line (λ v. dump_replaced (L.string v)) now l event fields)
      ++ b'\n' ∷ [])

  -- `debug`, `info`, `warn` and `error`.
  unfoldable pub log_at : Log → Bytes → Level → Bytes → List Field → Bytes
  unfolding write_log
  log_at g now l event fields = if enabled l g then write_log g now l event fields else []
