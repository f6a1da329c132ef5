-- ===== src/Tests/Tools.antt =====
-- src/tools.cpp on small expressions, with integers for doubles.
use gemini_cpp.Base.{◌∷◌, [], ◌++◌, ◌≡◌, refl}
use gemini_cpp.Base.Int.{ℤ, pos, ◌-ℤ◌, ◌+ℤ◌, ◌*ℤ◌, eqb_ℤ}
use gemini_cpp.Base.Text.{codes, show}
use gemini_cpp.Error.{ok, err, make_error, invalid_argument}
use gemini_cpp.Json.{FloatLib}
use gemini_cpp.Json.Sample.{ints}
use gemini_cpp.Wire.ApiError.{read_digits}
use gemini_cpp.Tools.Expression.{MathLib}
use gemini_cpp.Tools.Evaluate.{evaluate_expression, expr_op, term_op, term, level}
use gemini_cpp.Tools.Evaluate.Progress.{Shrinks}
use gemini_cpp.Tools.Evaluate.Loops.{IsFuelled, level_lem}

-- `strtod` of the digits at the start.
abbrev numbers : FloatLib
numbers = record ints { strtod = λ s. let r = read_digits 0 0 s in (pos r.0, r.1) }

abbrev pub maths : MathLib ℤ
maths = record {
  is_zero = λ a. eqb_ℤ a (pos 0);
  neg = λ a. pos 0 -ℤ a;
  div = λ a b. a;
  fmod = λ a b. a;
  pi = pos 3;
  e = pos 2;
  sqrt = λ a. a;
  fabs = λ a. a;
  sin = λ a. a;
  cos = λ a. a;
  tan = λ a. a;
  exp = λ a. a;
  floor = λ a. a;
  log = λ a. a;
  log10 = λ a. a;
}

level_lem_example :
    Shrinks numbers maths 5 (level numbers maths 5 2).0
    × Shrinks numbers maths 5 (level numbers maths 5 2).1
    × IsFuelled numbers maths 5
        (expr_op numbers maths 5)
        (term numbers maths 5 (level numbers maths 5 2).1)
    × IsFuelled numbers maths 5 (term_op numbers maths 5) (level numbers maths 5 2).1
level_lem_example = level_lem numbers maths 5 2

evaluates : evaluate_expression numbers maths (codes "2+3*(4-1)") ≡ ok (pos 11)
unfolding evaluate_expression read_digits ◌+ℤ◌ ◌*ℤ◌ ◌-ℤ◌
evaluates = refl

-- The message for 2×3 has one byte of the two that the sign has.
half_a_character :
    evaluate_expression numbers maths (b'2' ∷ 195 ∷ 151 ∷ b'3' ∷ [])
    ≡ err (
        make_error invalid_argument
          (codes "unexpected character '" ++ (195 ∷ codes "' at position 1")))
unfolding evaluate_expression read_digits show
half_a_character = refl
