-- ===== src/Tools/Evaluate.antt =====
-- src/tools.cpp: the levels of the evaluator's grammar that call themselves. `depth_` counts the calls of
-- `expr` and `unary` that are open; here a level knows how many more may be opened. A loop over operators
-- has the text's length as fuel, which Tools/Evaluate/Progress shows to be enough.
pub mod Progress
pub mod Loops
use gemini_cpp.Base.{
  ℕ, zero, suc, Bool, true, false, not, ◌||◌, ltb, List, [], ◌∷◌, ◌++◌, if◌then◌else◌, length,
}
use gemini_cpp.Base.Text.{Bytes, codes}
use gemini_cpp.Error.{Result, ok, err, throws, ◌>>=◌, make_error, invalid_argument}
use gemini_cpp.Json.{FloatLib}
use gemini_cpp.Tools.Expression.{MathLib, Parser, skip_space, accept, fail, power}

module _ (F : FloatLib) (M : MathLib F.Double) (total : ℕ) where
  open F use {Double, mul, add, sub, is_finite}

  -- The operator that the loop of `term`, and that of `expr`, accepts first.
  pub data Op : Type 0 where
    times divide modulo plus minus : Op

  abbrev pub Found : Type 0
  Found = List Op × Bytes

  abbrev pub or_else_op : Op → Bool × Bytes → Found → Found
  or_else_op op (true, rest) other = (op ∷ [], rest)
  or_else_op op (false, rest) other = other

  unfoldable pub term_op : Bytes → Found
  term_op s =
      or_else_op times (accept b'*' s)
        (or_else_op divide (accept b'/' s) (or_else_op modulo (accept b'%' s) ([], skip_space s)))

  unfoldable pub expr_op : Bytes → Found
  expr_op s = or_else_op plus (accept b'+' s) (or_else_op minus (accept b'-' s) ([], skip_space s))

  -- An operator on two values; the position of a failure is after the second.
  unfoldable pub apply_op : Op → Double → Double × Bytes → Result (Double × Bytes)
  apply_op times x (y, rest) = ok (mul x y, rest)
  apply_op divide x (y, rest) =
      if M.is_zero y then fail F M total (codes "division by zero") rest else ok (M.div x y, rest)
  apply_op modulo x (y, rest) =
      if M.is_zero y then fail F M total (codes "division by zero") rest else ok (M.fmod x y, rest)
  apply_op plus x (y, rest) = ok (add x y, rest)
  apply_op minus x (y, rest) = ok (sub x y, rest)

  -- One round of a `while` loop of `term` or `expr`.
  unfoldable pub op_step :
      Parser F M total
      → (Double × Bytes → Result (Double × Bytes))
      → Double
      → Found
      → Result (Double × Bytes)
  unfolding apply_op
  op_step operand again x ([], rest) = ok (x, rest)
  op_step operand again x (op ∷ ops, rest) = do
    rhs ← operand rest
    value ← apply_op op x rhs
    again value

  -- The loop: operands and operators, from the left.
  unfoldable pub op_loop :
      (Bytes → Found) → Parser F M total → ℕ → Double × Bytes → Result (Double × Bytes)
  unfolding op_step
  op_loop find operand zero lhs = ok lhs
  op_loop find operand (suc fuel) (x, s) =
      op_step operand (λ value. op_loop find operand fuel value) x (find s)

  abbrev pub chain : (Bytes → Found) → Parser F M total → Parser F M total
  chain find operand s = do lhs ← operand s; op_loop find operand (length lhs.1) lhs

  unfoldable pub term : Parser F M total → Parser F M total
  unfolding op_loop term_op
  term unary = chain term_op unary

  abbrev pub negated : Result (Double × Bytes) → Result (Double × Bytes)
  negated (ok (x, rest)) = ok (M.neg x, rest)
  negated (err e) = err e
  negated (throws what) = throws what

  abbrev pub signed :
      Parser F M total → Parser F M total → Bool × Bytes → Bool × Bytes → Result (Double × Bytes)
  signed unary operand (true, rest) plus_sign = negated (unary rest)
  signed unary operand (false, s) (true, rest) = unary rest
  signed unary operand (false, s) (false, rest) = operand rest

  -- `expr` and `unary` when so many more of their calls may be open.
  unfoldable pub level : ℕ → Parser F M total × Parser F M total
  unfolding term op_loop expr_op power
  level zero = (
    λ s. fail F M total (codes "expression nested too deeply") s,
    λ s. fail F M total (codes "expression nested too deeply") s,
  )
  level (suc depth) =
      let (expr, unary) = level depth in
      (
        λ s. chain expr_op (term unary) s,
        λ s. signed unary (power F M total expr unary) (accept b'-' s) (accept b'+' s),
      )

  unfoldable pub end_of_text : Double → Bytes → Result Double
  end_of_text x [] =
      if not (is_finite x) then fail F M total (codes "result is not a finite number") [] else ok x
  end_of_text x (c ∷ s) = fail F M total (codes "unexpected character '" ++ (c ∷ codes "'")) (c ∷ s)

  -- `parse`, with `kMaxDepth` 200.
  unfoldable pub parse_expression : Bytes → Result Double
  unfolding level end_of_text
  parse_expression text = do value ← (level 200).0 text; end_of_text value.0 (skip_space value.1)

unfoldable pub evaluate_expression : (F : FloatLib) → MathLib F.Double → Bytes → Result F.Double
unfolding parse_expression
evaluate_expression F M text =
    if ltb 4096 (length text)
    then err (make_error invalid_argument (codes "expression too long"))
    else parse_expression F M (length text) text
