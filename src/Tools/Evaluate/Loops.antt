-- ===== src/Tools/Evaluate/Loops.antt =====
-- src/tools.cpp: the loops of the evaluator over operators end by themselves.
use gemini_cpp.Base.{
  ℕ, zero, suc, ◌≤◌, ◌<◌, Bool, true, false, [], ◌∷◌, length, ◌≡◌, refl, sym, ap, ◌∙◌, arith,
  if◌then◌else◌,
}
use gemini_cpp.Base.Text.{Bytes}
use gemini_cpp.Error.{Result, ok, ◌>>=◌}
use gemini_cpp.Json.{FloatLib}
use gemini_cpp.Tools.Expression.{MathLib, Parser, accept}
use gemini_cpp.Tools.Evaluate.{
  Op, times, divide, modulo, plus, minus, Found, or_else_op, term_op, expr_op, apply_op, op_step,
  op_loop, chain, term, negated, signed, level,
}
use gemini_cpp.Tools.Evaluate.Progress.{
  Less, left, failed, thrown, Less-bind, Less-mono, Shrinks, Leaves, accept-Leaves,
  skip_space-length, power-Shrinks,
}

module _ (F : FloatLib) (M : MathLib F.Double) (total : ℕ) where
  open F use {Double}

  -- An operator leaves less text, and no operator leaves at most the text.
  abbrev FoundIn : ℕ → Found F M total → Type 0
  FoundIn n ([], rest) = length rest ≤ n
  FoundIn n (op ∷ ops, rest) = length rest < n

  abbrev pub IsFinder : (Bytes → Found F M total) → Type 0
  IsFinder find = (find [] ≡ ([], [])) × ((s : Bytes) → FoundIn (length s) (find s))

  or_else_op-FoundIn :
      (n : ℕ) (op : Op F M total) (a : Bool × Bytes) (other : Found F M total)
      → Leaves n a
      → FoundIn n other
      → FoundIn n (or_else_op F M total op a other)
  or_else_op-FoundIn n op (true, rest) other h k = h
  or_else_op-FoundIn n op (false, rest) other h k = k

  term_op-IsFinder : IsFinder (term_op F M total)
  unfolding term_op
  term_op-IsFinder = (
    refl,
    λ s. or_else_op-FoundIn (length s) times _ _ (accept-Leaves b'*' s) (
        or_else_op-FoundIn (length s) divide _ _ (accept-Leaves b'/' s)
          (or_else_op-FoundIn (length s) modulo _ _ (accept-Leaves b'%' s) (skip_space-length s))),
  )

  expr_op-IsFinder : IsFinder (expr_op F M total)
  unfolding expr_op
  expr_op-IsFinder = (
    refl,
    λ s.
        or_else_op-FoundIn (length s) plus _ _ (accept-Leaves b'+' s)
          (or_else_op-FoundIn (length s) minus _ _ (accept-Leaves b'-' s) (skip_space-length s)),
  )

  if-Less :
      (n : ℕ) (b : Bool) {r t : Result (Double × Bytes)}
      → Less n r
      → Less n t
      → Less n (if b then r else t)
  if-Less n true h k = h
  if-Less n false h k = k

  apply_op-Less :
      (n : ℕ) (op : Op F M total) (x y : Double) (rest : Bytes)
      → length rest < n
      → Less n (apply_op F M total op x (y, rest))
  unfolding apply_op
  apply_op-Less n times x y rest h = left h
  apply_op-Less n divide x y rest h = if-Less n (M.is_zero y) failed (left h)
  apply_op-Less n modulo x y rest h = if-Less n (M.is_zero y) failed (left h)
  apply_op-Less n plus x y rest h = left h
  apply_op-Less n minus x y rest h = left h

  bind-Less :
      {m n : ℕ} {r : Result (Double × Bytes)} (f : Double × Bytes → Result (Double × Bytes))
      → Less m r
      → ((x : Double) (rest : Bytes) → length rest < m → Less n (f (x, rest)))
      → Less n (r >>= f)
  bind-Less f (left h) k = k _ _ h
  bind-Less f failed k = failed
  bind-Less f thrown k = thrown

  bind-cong :
      {m : ℕ} {r : Result (Double × Bytes)} (f g : Double × Bytes → Result (Double × Bytes))
      → Less m r
      → ((x : Double) (rest : Bytes) → length rest < m → f (x, rest) ≡ g (x, rest))
      → (r >>= f) ≡ (r >>= g)
  bind-cong f g (left h) k = k _ _ h
  bind-cong f g failed k = refl
  bind-cong f g thrown k = refl

  op_step-Less :
      (operand : Parser F M total) (again : Double × Bytes → Result (Double × Bytes)) (n m : ℕ)
      (x : Double) (found : Found F M total)
      → Shrinks F M total operand
      → m < n
      → FoundIn m found
      → ((y : Double) (rest : Bytes) → length rest < m → Less n (again (y, rest)))
      → Less n (op_step F M total operand again x found)
  unfolding op_step
  op_step-Less operand again n m x ([], rest) h lt f k = left (omega arith)
  op_step-Less operand again n m x (op ∷ ops, rest) h lt f k =
      bind-Less _ (Less-mono f (Less-mono (omega arith) (h rest)))
        (λ y r lr. bind-Less _ (apply_op-Less m op x y r lr) k)

  op_step-cong :
      (operand : Parser F M total) (f g : Double × Bytes → Result (Double × Bytes)) (m : ℕ)
      (x : Double) (found : Found F M total)
      → Shrinks F M total operand
      → FoundIn m found
      → ((y : Double) (rest : Bytes) → length rest < m → f (y, rest) ≡ g (y, rest))
      → op_step F M total operand f x found ≡ op_step F M total operand g x found
  unfolding op_step
  op_step-cong operand f g m x ([], rest) h o k = refl
  op_step-cong operand f g m x (op ∷ ops, rest) h o k =
      bind-cong _ _ (Less-mono (omega arith) (h rest))
        (λ y r lr. bind-cong f g (apply_op-Less m op x y r lr) k)

  op_loop-Less :
      (find : Bytes → Found F M total) (operand : Parser F M total) (fuel n : ℕ) (x : Double)
      (s : Bytes)
      → IsFinder find
      → Shrinks F M total operand
      → length s < n
      → Less n (op_loop F M total find operand fuel (x, s))
  unfolding op_loop
  op_loop-Less find operand zero n x s i h lt = left lt
  op_loop-Less find operand (suc fuel) n x s i h lt =
      op_step-Less operand _ n (length s) x (find s) h lt (i.1 s)
        (λ y r lr. op_loop-Less find operand fuel n y r i h (omega arith))

  chain-Shrinks :
      (find : Bytes → Found F M total) (operand : Parser F M total)
      → IsFinder find
      → Shrinks F M total operand
      → Shrinks F M total (chain F M total find operand)
  chain-Shrinks find operand i h s =
      Less-bind _ (h s) (λ x r lr. op_loop-Less find operand (length r) (length s) x r i h lr)

  -- The loop of a parser that consumes text: any fuel from the text's length on gives the same.
  abbrev pub IsFuelled : (Bytes → Found F M total) → Parser F M total → Type 0
  IsFuelled find operand =
      (k : ℕ) (x : Double) (s : Bytes)
      → length s ≤ k
      → op_loop F M total find operand k (x, s) ≡ op_loop F M total find operand (length s) (x, s)

  op_loop-nothing :
      (find : Bytes → Found F M total) (operand : Parser F M total) (k : ℕ) (x : Double)
      → find [] ≡ ([], [])
      → op_loop F M total find operand k (x, []) ≡ ok (x, [])
  unfolding op_loop op_step
  op_loop-nothing find operand zero x e = refl
  op_loop-nothing find operand (suc k) x e =
      ap (op_step F M total operand (λ v. op_loop F M total find operand k v) x) e

  op_loop-any :
      (find : Bytes → Found F M total) (operand : Parser F M total) (k l : ℕ) (x : Double)
      (s : Bytes)
      → IsFinder find
      → Shrinks F M total operand
      → length s ≤ k
      → length s ≤ l
      → op_loop F M total find operand k (x, s) ≡ op_loop F M total find operand l (x, s)
  unfolding op_loop
  op_loop-any find operand k l x [] i h lk ll =
      op_loop-nothing find operand k x i.0 ∙ sym (op_loop-nothing find operand l x i.0)
  op_loop-any find operand zero l x (c ∷ s) i h lk ll = absurd (omega arith)
  op_loop-any find operand (suc k) zero x (c ∷ s) i h lk ll = absurd (omega arith)
  op_loop-any find operand (suc k) (suc l) x (c ∷ s) i h lk ll =
      op_step-cong operand _ _ (suc (length s)) x (find (c ∷ s)) h (i.1 (c ∷ s))
        (λ y r lr. op_loop-any find operand k l y r i h (omega arith) (omega arith))

  negated-Less : {n : ℕ} {r : Result (Double × Bytes)} → Less n r → Less n (negated F M total r)
  negated-Less (left h) = left h
  negated-Less failed = failed
  negated-Less thrown = thrown

  signed-Less :
      (unary operand : Parser F M total) (n : ℕ) (a b : Bool × Bytes)
      → Shrinks F M total unary
      → Shrinks F M total operand
      → Leaves n a
      → Leaves n b
      → Less n (signed F M total unary operand a b)
  signed-Less unary operand n (true, rest) b h k la lb =
      negated-Less (Less-mono (omega arith) (h rest))
  signed-Less unary operand n (false, s) (true, rest) h k la lb = Less-mono (omega arith) (h rest)
  signed-Less unary operand n (false, s) (false, rest) h k la lb = Less-mono lb (k rest)

  level-Shrinks :
      (depth : ℕ)
      → Shrinks F M total (level F M total depth).0 × Shrinks F M total (level F M total depth).1
  unfolding level term
  level-Shrinks zero = (λ s. failed, λ s. failed)
  level-Shrinks (suc depth) =
      let (h, k) = level-Shrinks depth in
      (
        chain-Shrinks _ _ expr_op-IsFinder (chain-Shrinks _ _ term_op-IsFinder k),
        λ s.
            signed-Less _ _ (length s) (accept b'-' s) (accept b'+' s) k
              (power-Shrinks F M total _ _ h k) (accept-Leaves b'-' s) (accept-Leaves b'+' s),
      )

  -- At every depth, `expr` and `unary` leave less text when they succeed; and the loops of `expr` and
  -- `term` end by themselves: with any fuel from the length of the text on they give the same.
  pub level_lem :
      (depth : ℕ)
      → Shrinks F M total (level F M total depth).0
        × Shrinks F M total (level F M total depth).1
        × IsFuelled (expr_op F M total) (term F M total (level F M total depth).1)
        × IsFuelled (term_op F M total) (level F M total depth).1
  unfolding term
  level_lem depth =
      let (h, k) = level-Shrinks depth in
      (
        h,
        k,
        λ n x s le.
            op_loop-any _ _ n (length s) x s expr_op-IsFinder (chain-Shrinks _ _ term_op-IsFinder k)
              le (omega arith),
        λ n x s le. op_loop-any _ _ n (length s) x s term_op-IsFinder k le (omega arith),
      )
