-- ===== src/Program/Output.antt =====
-- apps/main.cpp: what is printed of a reply.
use gemini_cpp.Base.{Bool, not, List, [], ◌∷◌, ◌++◌, if◌then◌else◌}
use gemini_cpp.Base.Int.{pos, eqb_ℤ}
use gemini_cpp.Base.Text.{Bytes, codes, show_ℤ}
use gemini_cpp.Types.{GenerateResponse, UsageMetadata, response_text}

-- `print_usage_line`.
unfoldable pub usage_line : UsageMetadata → Bytes
usage_line u =
    codes "[tokens] prompt="
    ++ (show_ℤ u.prompt_tokens
        ++ (codes " output="
            ++ (show_ℤ u.candidates_tokens
                ++ ((if eqb_ℤ u.thoughts_tokens (pos 0)
                      then []
                      else codes " thinking=" ++ show_ℤ u.thoughts_tokens)
                    ++ (codes " total=" ++ (show_ℤ u.total_tokens ++ codes "\n"))))))

-- `stdout_printer`: the chunks are printed up to the first at which Ctrl-C was seen. `stop` says
-- whether it was, from the chunks before and the new one.
module _ {J : Type 0} (stop : List (GenerateResponse J) → GenerateResponse J → Bool) where
  abbrev pub printer : List (GenerateResponse J) → GenerateResponse J → Bool
  printer before chunk = not (stop before chunk)

  -- What the printer printed of the chunks that it was given.
  unfoldable pub printed : List (GenerateResponse J) → List (GenerateResponse J) → Bytes
  unfolding response_text
  printed before [] = []
  printed before (c ∷ cs) =
      (if stop before c then [] else response_text c.candidates) ++ printed (before ++ c ∷ []) cs
