-- ===== src/Tests/Cli.antt =====
-- apps/cli_args.cpp on a small command line.
use gemini_cpp.Base.{[], ◌∷◌, none, some, ◌≡◌, refl}
use gemini_cpp.Base.Text.{codes, equal, starts_with}
use gemini_cpp.Cli.{Spec, parse_args, get, has_name}
use gemini_cpp.Cli.Line.{
  word, switch, inline_value, next_value, line_of, flags_of, values_of, words_of,
  parse_args-line_of,
}

abbrev spec : Spec
spec = record { value_options = codes "m" ∷ []; flags = codes "v" ∷ [] }

parse_args-missing :
    (parse_args spec (codes "--m" ∷ [])).0 ≡ some (codes "option --m requires a value")
unfolding parse_args
parse_args-missing = refl

get-last :
    get (parse_args spec (codes "--m=a" ∷ codes "--m" ∷ codes "--x" ∷ [])).1 (codes "m")
    ≡ some (codes "--x")
unfolding parse_args get
get-last = refl

parse_args-line_of_example :
    parse_args spec (
      line_of
        (word (codes "run")
          ∷ switch (codes "v")
          ∷ inline_value (codes "m") (codes "a")
          ∷ next_value (codes "m") (codes "--b")
          ∷ [])
        (codes "--" ∷ codes "--c" ∷ []))
    ≡ (
      none,
      record {
        values = (codes "m", codes "a") ∷ (codes "m", codes "--b") ∷ [];
        flags = codes "v" ∷ [];
        positional = codes "run" ∷ codes "--c" ∷ [];
      },
    )
unfolding has_name equal starts_with values_of flags_of words_of
parse_args-line_of_example =
    parse_args-line_of spec
      (word (codes "run")
        ∷ switch (codes "v")
        ∷ inline_value (codes "m") (codes "a")
        ∷ next_value (codes "m") (codes "--b")
        ∷ [])
      (codes "--c" ∷ [])
      (
        refl,
        (
          ((refl, (refl, tt)), refl),
          (((refl, (refl, tt)), (refl, refl)), (((refl, (refl, tt)), (refl, refl)), tt)),
        ),
      )
