-- ===== src/Tools/Evaluate/Progress.antt =====
-- src/tools.cpp: each parser of the evaluator consumes text, so its loops end by themselves.
use gemini_cpp.Base.{
  ℕ, suc, ◌≤◌, ◌<◌, Bool, true, false, ◌||◌, ◌&&◌, ◌==◌, [], ◌∷◌, ◌⊎◌, Option, none, some, length,
  ◌≡◌, refl, ap, arith, Bool-cases, inl, inr, if◌then◌else◌,
}
use gemini_cpp.Base.Text.{Bytes, is_digit}
use gemini_cpp.Error.{Result, ok, err, throws, ◌>>=◌, Error}
use gemini_cpp.Json.{FloatLib}
use gemini_cpp.Tools.Expression.{
  MathLib, Parser, is_letter, skip_space, accept_first, accept, span_of, sign_of, starts_digit,
  exponent_of, number_token, read_number, number, named_function, at_rest, constant,
  constant_or_call, close_paren, closed, call_or_fail, identifier, primary_by, primary_at, primary,
  raise, power,
}

pub skip_space-length : (s : Bytes) → length (skip_space s) ≤ length s
skip_space-length [] = omega arith
skip_space-length (c ∷ s) = ground (arith, skip_space-length s)

-- What an accepted character leaves is shorter, and what a refusal leaves is not longer.
abbrev pub Leaves : ℕ → Bool × Bytes → Type 0
Leaves n (true, rest) = length rest < n
Leaves n (false, rest) = length rest ≤ n

accept_first-Leaves : (c : ℕ) (s : Bytes) (n : ℕ) → length s ≤ n → Leaves n (accept_first c s)
accept_first-Leaves c [] n h = h
accept_first-Leaves c (x ∷ s) n h = elim (Bool-cases (x == c)) [
  | inl e ↦ rw e (omega arith)
  | inr e ↦ rw e h
]

pub accept-Leaves : (c : ℕ) (s : Bytes) → Leaves (length s) (accept c s)
accept-Leaves c s = accept_first-Leaves c (skip_space s) (length s) (skip_space-length s)

span_of-length : (test : ℕ → Bool) (s : Bytes) → length (span_of test s).1 ≤ length s
span_of-length test [] = omega arith
span_of-length test (c ∷ s) = elim (Bool-cases (test c)) [
  | inl e ↦ rw e (omega (arith, span_of-length test s))
  | inr e ↦ rw e (omega arith)
]

span_of-some :
    (test : ℕ → Bool) (c : ℕ) (s : Bytes)
    → test c ≡ true
    → length (span_of test (c ∷ s)).1 ≤ length s
span_of-some test c s e = rw e (span_of-length test s)

sign_of-length : (s : Bytes) → length (sign_of s).1 ≤ length s
sign_of-length [] = omega arith
sign_of-length (c ∷ s) = elim (Bool-cases (c == b'+' || c == b'-')) [
  | inl e ↦ rw e (omega arith)
  | inr e ↦ rw e (omega arith)
]

exponent_of-length : (s : Bytes) → length (exponent_of s).1 ≤ length s
exponent_of-length [] = omega arith
exponent_of-length (c ∷ s) =
    elim (Bool-cases ((c == b'e' || c == b'E') && starts_digit (sign_of s).1)) [
      | inl e ↦ rw e (omega (arith, span_of-length is_digit (sign_of s).1, sign_of-length s))
      | inr e ↦ rw e (omega arith)
    ]

-- A failure, or a value with less text after it than `n`.
pub data Less {D : Type 0} (n : ℕ) : Result (D × Bytes) → Type 0 where
  left : {x : D} {rest : Bytes} → length rest < n → Less n (ok (x, rest))
  failed : {e : Error} → Less n (err e)
  thrown : {what : Bytes} → Less n (throws what)

module _ {D : Type 0} where
  pub Less-bind :
      {n : ℕ} {m : Result (D × Bytes)} (f : D × Bytes → Result (D × Bytes))
      → Less n m
      → ((x : D) (rest : Bytes) → length rest < n → Less n (f (x, rest)))
      → Less n (m >>= f)
  Less-bind f (left h) k = k _ _ h
  Less-bind f failed k = failed
  Less-bind f thrown k = thrown

  pub Less-mono : {m n : ℕ} {r : Result (D × Bytes)} → m ≤ n → Less m r → Less n r
  Less-mono le (left h) = left (omega arith)
  Less-mono le failed = failed
  Less-mono le thrown = thrown

  Less-if :
      {n : ℕ} (b : Bool) {r t : Result (D × Bytes)}
      → Less n r
      → Less n t
      → Less n (if b then r else t)
  Less-if true h k = h
  Less-if false h k = k

refused : (n : ℕ) (a : Bool × Bytes) (m : ℕ) → a.0 ≡ false → m < n → Leaves m a → length a.1 < n
refused n (true, rest) m e lt h = omega arith
refused n (false, rest) m e lt h = omega arith

Leaves-mono : (m n : ℕ) (a : Bool × Bytes) → m ≤ n → Leaves m a → Leaves n a
Leaves-mono m n (true, rest) le h = omega arith
Leaves-mono m n (false, rest) le h = omega arith

module _ (F : FloatLib) (M : MathLib F.Double) (total : ℕ) where
  open F use {Double}

  abbrev pub Shrinks : Parser F M total → Type 0
  Shrinks p = (s : Bytes) → Less (length s) (p s)

  close_paren-Less :
      (n : ℕ) (x : Double) (a : Bool × Bytes) → Leaves n a → Less n (close_paren F M total x a)
  unfolding close_paren
  close_paren-Less n x (true, rest) h = left h
  close_paren-Less n x (false, rest) h = failed

  closed-Shrinks : (expr : Parser F M total) → Shrinks expr → Shrinks (closed F M total expr)
  unfolding closed
  closed-Shrinks expr h s = Less-bind _ (h s) (λ x rest lt.
      close_paren-Less (length s) x (accept b')' rest) (
        Leaves-mono (length rest) (length s) (accept b')' rest) (omega arith)
          (accept-Leaves b')' rest)))

  read_number-Less :
      (n : ℕ) (b : Bool) (token : Bytes) (x : Double) (rest start : Bytes)
      → length rest < n
      → Less n (read_number F M total b token (x, rest) start)
  unfolding read_number
  read_number-Less n true token x rest start h = left h
  read_number-Less n false token x rest start h = failed

  number-Less :
      (c : ℕ) (s : Bytes)
      → (is_digit c || c == b'.') ≡ true
      → Less (suc (length s)) (number F M total (c ∷ s))
  unfolding number number_token
  number-Less c s e = read_number-Less (suc (length s)) _ _ _ _ (c ∷ s) (
      omega (
        arith,
        exponent_of-length (span_of (λ d. is_digit d || d == b'.') (c ∷ s)).1,
        span_of-some (λ d. is_digit d || d == b'.') c s e,
      ))

  at_rest-Less :
      (n : ℕ) (v : Bytes ⊎ Double) (rest : Bytes)
      → length rest < n
      → Less n (at_rest F M total v rest)
  unfolding at_rest
  at_rest-Less n (inl message) rest h = failed
  at_rest-Less n (inr x) rest h = left h

  call_or_fail-Less :
      (expr : Parser F M total) (n : ℕ) (name : Bytes) (a : Bool × Bytes)
      → Shrinks expr
      → Leaves n a
      → Less n (call_or_fail F M total expr name a)
  unfolding call_or_fail
  call_or_fail-Less expr n name (false, rest) h le = failed
  call_or_fail-Less expr n name (true, rest) h lt =
      Less-bind _ (Less-mono (omega arith) (closed-Shrinks expr h rest))
        (λ x r lr. at_rest-Less n (named_function F M total name x) r lr)

  constant_or_call-Less :
      (expr : Parser F M total) (n : ℕ) (name rest : Bytes) (v : Option Double)
      → Shrinks expr
      → length rest < n
      → Less n (constant_or_call F M total expr name rest v)
  unfolding constant_or_call
  constant_or_call-Less expr n name rest (some x) h lt = left lt
  constant_or_call-Less expr n name rest none h lt =
      call_or_fail-Less expr n name (accept b'(' rest) h
        (Leaves-mono (length rest) n (accept b'(' rest) (omega arith) (accept-Leaves b'(' rest))

  identifier-Less :
      (expr : Parser F M total) (c : ℕ) (s : Bytes)
      → Shrinks expr
      → (is_letter c || is_digit c) ≡ true
      → Less (suc (length s)) (identifier F M total expr (c ∷ s))
  unfolding identifier
  identifier-Less expr c s h e =
      let named = span_of (λ d. is_letter d || is_digit d) (c ∷ s) in
      constant_or_call-Less expr (suc (length s)) named.0 named.1 (constant F M total named.0) h
        (omega (arith, span_of-some (λ d. is_letter d || is_digit d) c s e))

  primary_by-Less :
      (paren numeric letter : Bool) (expr : Parser F M total) (c : ℕ) (s : Bytes)
      → Shrinks expr
      → (is_digit c || c == b'.') ≡ numeric
      → is_letter c ≡ letter
      → Less (suc (length s)) (primary_by F M total paren numeric letter expr c s)
  unfolding primary_by
  primary_by-Less true numeric letter expr c s h d l =
      Less-mono (omega arith) (closed-Shrinks expr h s)
  primary_by-Less false true letter expr c s h d l = number-Less c s d
  primary_by-Less false false true expr c s h d l =
      identifier-Less expr c s h (ap (λ b. b || is_digit c) l)
  primary_by-Less false false false expr c s h d l = failed

  primary_at-Shrinks :
      (expr : Parser F M total) → Shrinks expr → Shrinks (primary_at F M total expr)
  unfolding primary_at
  primary_at-Shrinks expr h [] = failed
  primary_at-Shrinks expr h (c ∷ s) = primary_by-Less (c == b'(') _ _ expr c s h refl refl

  raise-Less :
      (unary : Parser F M total) (n : ℕ) (x : Double) (a : Bool × Bytes)
      → Shrinks unary
      → Leaves n a
      → (a.0 ≡ false → length a.1 < n)
      → Less n (raise F M total unary x a)
  unfolding raise
  raise-Less unary n x (false, rest) h le k = left (k refl)
  raise-Less unary n x (true, rest) h lt k =
      Less-bind _ (Less-mono (omega arith) (h rest)) (λ y r lr. left lr)

  accept-after :
      (unary : Parser F M total) (n : ℕ) (x : Double) (c : ℕ) (rest : Bytes)
      → Shrinks unary
      → length rest < n
      → Less n (raise F M total unary x (accept c rest))
  accept-after unary n x c rest h lt =
      raise-Less unary n x (accept c rest) h
        (Leaves-mono (length rest) n (accept c rest) (omega arith) (accept-Leaves c rest))
        (λ e. refused n (accept c rest) (length rest) e lt (accept-Leaves c rest))

  pub power-Shrinks :
      (expr unary : Parser F M total)
      → Shrinks expr
      → Shrinks unary
      → Shrinks (power F M total expr unary)
  unfolding power primary
  power-Shrinks expr unary h k s =
      Less-bind _ (Less-mono (skip_space-length s) (primary_at-Shrinks expr h (skip_space s)))
        (λ x rest lt. accept-after unary (length s) x b'^' rest k lt)
