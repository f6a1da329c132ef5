-- ===== src/Tools/Expression.antt =====
-- src/tools.cpp: the arithmetic evaluator among the built-in tools. A parser takes the text that is left
-- and returns its value with the text after it; a failure names the position in the whole text.
use gemini_cpp.Base.{
  ℕ, ◌-◌, Bool, true, false, ◌&&◌, ◌||◌, ◌==◌, leb, [], ◌∷◌, ◌++◌, Option, none, some,
  if◌then◌else◌, length, ◌⊎◌, inl, inr,
}
use gemini_cpp.Base.Int.{pos}
use gemini_cpp.Base.Text.{Bytes, codes, equal, is_digit, show}
use gemini_cpp.Error.{Result, ok, err, ◌>>=◌, make_error, invalid_argument}
use gemini_cpp.Json.{FloatLib}

-- What the evaluator uses of <cmath>, besides `FloatLib`.
pub record MathLib (D : Type 0) : Type 0 where
  pub is_zero : D → Bool
  pub neg : D → D
  pub div : D → D → D
  pub fmod : D → D → D
  pub pi : D
  pub e : D
  pub sqrt : D → D
  pub fabs : D → D
  pub sin : D → D
  pub cos : D → D
  pub tan : D → D
  pub exp : D → D
  pub floor : D → D
  pub log : D → D
  pub log10 : D → D

abbrev pub is_letter : ℕ → Bool
is_letter c = leb b'a' c && leb c b'z' || leb b'A' c && leb c b'Z'

-- `skip_space`.
abbrev pub skip_space : Bytes → Bytes
skip_space [] = []
skip_space (c ∷ s) = if c == b' ' || c == 9 then skip_space s else c ∷ s

-- `accept` of a character: was it there? The space before it is skipped either way.
abbrev pub accept_first : ℕ → Bytes → Bool × Bytes
accept_first c [] = (false, [])
accept_first c (x ∷ s) = if x == c then (true, s) else (false, x ∷ s)

abbrev pub accept : ℕ → Bytes → Bool × Bytes
accept c s = accept_first c (skip_space s)

-- The characters at the start that a test accepts, and the rest.
abbrev pub span_of : (ℕ → Bool) → Bytes → Bytes × Bytes
span_of test [] = ([], [])
span_of test (c ∷ s) =
    let (a, rest) = span_of test s in if test c then (c ∷ a, rest) else ([], c ∷ s)

abbrev pub sign_of : Bytes → Bytes × Bytes
sign_of [] = ([], [])
sign_of (c ∷ s) = if c == b'+' || c == b'-' then (c ∷ [], s) else ([], c ∷ s)

abbrev pub starts_digit : Bytes → Bool
starts_digit [] = false
starts_digit (c ∷ s) = is_digit c

-- An exponent, if one with a digit follows.
abbrev pub exponent_of : Bytes → Bytes × Bytes
exponent_of [] = ([], [])
exponent_of (c ∷ s) =
    let (sign, digits) = sign_of s in
    let (ds, rest) = span_of is_digit digits in
    if (c == b'e' || c == b'E') && starts_digit digits
    then (c ∷ (sign ++ ds), rest)
    else ([], c ∷ s)

-- The token of `number`, and what follows it.
unfoldable pub number_token : Bytes → Bytes × Bytes
number_token s =
    let (mantissa, rest) = span_of (λ c. is_digit c || c == b'.') s in
    let (exponent, rest') = exponent_of rest in (mantissa ++ exponent, rest')

module _ (F : FloatLib) (M : MathLib F.Double) (total : ℕ) where
  open F use {Double, of_int, mul, pow, add, sub, lt, ceil, is_finite, strtod}

  abbrev pub Parser : Type 0
  Parser = Bytes → Result (Double × Bytes)

  -- `fail`, where the text after the position is left.
  abbrev pub fail : {T : Type 0} → Bytes → Bytes → Result T
  fail message rest = err (
      make_error invalid_argument
        (message ++ (codes " at position " ++ show (total - length rest))))

  abbrev pub quoted : Bytes → Bytes → Bytes
  quoted what name = what ++ (codes " '" ++ (name ++ codes "'"))

  -- `number`: the token was read to its end, or the failure is at its start.
  unfoldable pub read_number : Bool → Bytes → Double × Bytes → Bytes → Result (Double × Bytes)
  read_number true token value start = ok value
  read_number false token value start = fail (quoted (codes "malformed number") token) start

  unfoldable pub number : Parser
  unfolding number_token read_number
  number s =
      let (token, rest) = number_token s in
      let (value, read) = strtod token in read_number (read == length token) token (value, rest) s

  -- The value of a function by its name, or the message of a failure.
  unfoldable pub named_function : Bytes → Double → Bytes ⊎ Double
  unfolding equal
  named_function name x =
      if equal name (codes "sqrt")
      then (if lt x (of_int (pos 0)) then inl (codes "sqrt of negative number") else inr (M.sqrt x))
      else if equal name (codes "abs")
      then inr (M.fabs x)
      else if equal name (codes "sin")
      then inr (M.sin x)
      else if equal name (codes "cos")
      then inr (M.cos x)
      else if equal name (codes "tan")
      then inr (M.tan x)
      else if equal name (codes "exp")
      then inr (M.exp x)
      else if equal name (codes "floor")
      then inr (M.floor x)
      else if equal name (codes "ceil")
      then inr (ceil x)
      else if equal name (codes "log") || equal name (codes "log10")
      then (if lt x (of_int (pos 0)) || M.is_zero x
          then inl (codes "log of non-positive number")
          else inr (if equal name (codes "log") then M.log x else M.log10 x))
      else inl (quoted (codes "unknown function") name)

  unfoldable pub at_rest : Bytes ⊎ Double → Bytes → Result (Double × Bytes)
  at_rest (inl message) rest = fail message rest
  at_rest (inr x) rest = ok (x, rest)

  unfoldable pub close_paren : Double → Bool × Bytes → Result (Double × Bytes)
  close_paren x (true, rest) = ok (x, rest)
  close_paren x (false, rest) = fail (codes "expected ')'") rest

  -- `expr` in parentheses, after the opening one.
  unfoldable pub closed : Parser → Parser
  unfolding close_paren
  closed expr s = do inner ← expr s; close_paren inner.0 (accept b')' inner.1)

  -- `identifier`, whose name has been read: a constant or a call.
  unfoldable pub call_or_fail : Parser → Bytes → Bool × Bytes → Result (Double × Bytes)
  unfolding named_function at_rest closed
  call_or_fail expr name (false, rest) = fail (quoted (codes "unknown identifier") name) rest
  call_or_fail expr name (true, rest) = do
    arg ← closed expr rest
    at_rest (named_function name arg.0) arg.1

  unfoldable pub constant : Bytes → Option Double
  unfolding equal
  constant name =
      if equal name (codes "pi")
      then some M.pi
      else if equal name (codes "e")
      then some M.e
      else none

  unfoldable pub constant_or_call : Parser → Bytes → Bytes → Option Double → Result (Double × Bytes)
  unfolding call_or_fail
  constant_or_call expr name rest (some x) = ok (x, rest)
  constant_or_call expr name rest none = call_or_fail expr name (accept b'(' rest)

  unfoldable pub identifier : Parser → Parser
  unfolding constant constant_or_call
  identifier expr s =
      let (name, rest) = span_of (λ c. is_letter c || is_digit c) s in
      constant_or_call expr name rest (constant name)

  -- `primary` on its first character: is it a parenthesis, the start of a number, a letter?
  unfoldable pub primary_by : Bool → Bool → Bool → Parser → ℕ → Parser
  unfolding number identifier closed
  primary_by true numeric letter expr c s = closed expr s
  primary_by false true letter expr c s = number (c ∷ s)
  primary_by false false true expr c s = identifier expr (c ∷ s)
  primary_by false false false expr c s =
      fail (quoted (codes "unexpected character") (c ∷ [])) (c ∷ s)

  unfoldable pub primary_at : Parser → Parser
  unfolding primary_by
  primary_at expr [] = fail (codes "unexpected end of expression") []
  primary_at expr (c ∷ s) = primary_by (c == b'(') (is_digit c || c == b'.') (is_letter c) expr c s

  unfoldable pub primary : Parser → Parser
  unfolding primary_at
  primary expr s = primary_at expr (skip_space s)

  -- `power`, with `unary` for the exponent.
  unfoldable pub raise : Parser → Double → Bool × Bytes → Result (Double × Bytes)
  raise unary base (false, rest) = ok (base, rest)
  raise unary base (true, rest) = do exponent ← unary rest; ok (pow base exponent.0, exponent.1)

  unfoldable pub power : Parser → Parser → Parser
  unfolding primary raise
  power expr unary s = do base ← primary expr s; raise unary base.0 (accept b'^' base.1)
