-- ===== src/Log/Levels.antt =====
-- src/logging.cpp: the names of the levels.
use gemini_cpp.Base.{List, [], ◌∷◌, some, ◌≡◌, ◌↔◌, refl, sym, ◌∙◌, ap, arith, inl, inr, Bool-cases}
use gemini_cpp.Base.Text.{Bytes, equal, equal_sound}
use gemini_cpp.Log.{
  Level, debug_level, info_level, warn_level, error_level, off_level, level_name, first_named,
  parse_level,
}

first_named_lem :
    (text : Bytes) (ls : List Level) (l : Level)
    → first_named text ls ≡ some l
    → text ≡ level_name l
unfolding first_named
first_named_lem text [] l h = absurd (ground arith)
first_named_lem text (m ∷ ls) l h = elim (Bool-cases (equal text (level_name m))) [
  | inl here ↦
      let first : some m ≡ some l = sym (rw here refl) ∙ h in
      equal_sound text (level_name m) here ∙ ap level_name (cc first)
  | inr there ↦ first_named_lem text ls l (sym (rw there refl) ∙ h)
]

parsed_name : (l : Level) → parse_level (level_name l) ≡ some l
unfolding parse_level
parsed_name debug_level = refl
parsed_name info_level = refl
parsed_name warn_level = refl
parsed_name error_level = refl
parsed_name off_level = refl

-- A text is read as a level exactly if it is the level's name.
pub parse_level-level_name :
    (text : Bytes) (l : Level) → (parse_level text ≡ some l) ↔ (text ≡ level_name l)
unfolding parse_level
parse_level-level_name text l = (
  first_named_lem text (debug_level ∷ info_level ∷ warn_level ∷ error_level ∷ off_level ∷ []) l,
  λ e. ap parse_level e ∙ parsed_name l,
)
