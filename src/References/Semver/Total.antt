-- ===== src/References/Semver/Total.antt =====
-- tasks/semver-compare/reference.hpp: the comparisons of numbers, of identifiers and of pre-releases are
-- total orders.
use gemini_cpp.Base.{
  ℕ, suc, zero, ◌≤◌, if◌then◌else◌, Bool-cases, List, [], ◌∷◌, length, is_empty, ◌≡◌, refl, sym,
  ◌∙◌, ap, ◌⊎◌, inl, inr, arith,
}
use gemini_cpp.Base.Text.{Bytes}
use gemini_cpp.References.Semver.{
  all_digits, compare_sizes, compare_bytes, compare_numbers, compare_ident, first_difference,
  compare_pre,
}
use gemini_cpp.References.Semver.Order.{
  Sign, less, same, more, flip, or_else, lex, IsOrder, IsOrder-or_else, IsOrder-lex,
}

pub IsOrder-pointwise {ℓ} :
    {A : Type ℓ} {f g : A → A → Sign} → ((x y : A) → g x y ≡ f x y) → IsOrder f → IsOrder g
IsOrder-pointwise {g = g} e h = record {
  flips = λ x y. e y x ∙ h.flips x y ∙ ap flip (sym (e x y));
  tells = λ x y p. h.tells x y (sym (e x y) ∙ p);
  chains = λ x y z p q. e x z ∙ h.chains x y z (sym (e x y) ∙ p) (sym (e y z) ∙ q);
}

compare_sizes-IsOrder : IsOrder compare_sizes
compare_sizes-IsOrder = record {
  flips = λ m n. ground arith;
  tells = λ m n h. ground arith;
  chains = λ l m n h k. ground arith;
}

compare_bytes-lex : (s t : Bytes) → compare_bytes s t ≡ lex compare_sizes s t
compare_bytes-lex [] [] = refl
compare_bytes-lex [] (d ∷ t) = refl
compare_bytes-lex (c ∷ s) [] = refl
compare_bytes-lex (c ∷ s) (d ∷ t) = ground (arith, compare_bytes-lex s t)

compare_bytes-IsOrder : IsOrder compare_bytes
compare_bytes-IsOrder = IsOrder-pointwise compare_bytes-lex (IsOrder-lex compare_sizes-IsOrder)

pub compare_numbers-IsOrder : IsOrder compare_numbers
compare_numbers-IsOrder =
    IsOrder-pointwise (λ s t. ground arith)
      (IsOrder-or_else compare_sizes-IsOrder compare_bytes-IsOrder length (λ s. s) (λ s t p q. q))

-- A numeric identifier is less than any other, and of the numeric ones the shorter is less.
abbrev kind : Bytes → ℕ
kind s = if all_digits s then 0 else 1

abbrev size_rank : Bytes → ℕ
size_rank s = if all_digits s then length s else 0

compare_ident-ranks :
    (x y : Bytes)
    → compare_ident x y
      ≡ or_else
          (compare_sizes (kind x) (kind y))
          (or_else (compare_sizes (size_rank x) (size_rank y)) (compare_bytes x y))
compare_ident-ranks x y = elim (Bool-cases (all_digits x)) [
  | inl a ↦ elim (Bool-cases (all_digits y)) [
    | inl b ↦ rw (a, b) (ground arith)
    | inr b ↦ rw (a, b) refl
  ]
  | inr a ↦ elim (Bool-cases (all_digits y)) [ inl b ↦ rw (a, b) refl | inr b ↦ rw (a, b) refl ]
]

pub compare_ident-IsOrder : IsOrder compare_ident
compare_ident-IsOrder = IsOrder-pointwise compare_ident-ranks (
    IsOrder-or_else compare_sizes-IsOrder
      (IsOrder-or_else compare_sizes-IsOrder compare_bytes-IsOrder size_rank (λ s. s)
        (λ s t p q. q))
      kind (λ s. s) (λ s t p q. q))

compare_sizes-suc : (m n : ℕ) → compare_sizes (suc m) (suc n) ≡ compare_sizes m n
compare_sizes-suc m n = ground arith

-- Up to the end of the shorter list, and then by their sizes.
first_difference-lex :
    (f : Bytes → Bytes → Sign) (n : ℕ) (xs ys : List Bytes) (last : Sign)
    → n ≤ length xs
    → n ≤ length ys
    → (n ≡ length xs) ⊎ (n ≡ length ys)
    → last ≡ compare_sizes (length xs) (length ys)
    → first_difference f n xs ys last ≡ lex f xs ys
first_difference-lex f zero [] [] last a b c e = e
first_difference-lex f zero [] (y ∷ ys) last a b c e = ground arith
first_difference-lex f zero (x ∷ xs) [] last a b c e = ground arith
first_difference-lex f zero (x ∷ xs) (y ∷ ys) last a b c e = absurd (ground arith)
first_difference-lex f (suc n) [] ys last a b c e = absurd (omega arith)
first_difference-lex f (suc n) (x ∷ xs) [] last a b c e = absurd (omega arith)
first_difference-lex f (suc n) (x ∷ xs) (y ∷ ys) last a b c e =
    let rest =
      first_difference-lex f n xs ys last (omega arith) (omega arith) (ground arith)
        (e ∙ compare_sizes-suc (length xs) (length ys)) in
    ap (or_else (f x y)) rest

or_else_assoc : (c d e : Sign) → or_else c (or_else d e) ≡ or_else (or_else c d) e
or_else_assoc less d e = refl
or_else_assoc same d e = refl
or_else_assoc more d e = refl

-- Over the whole of two lists that are equally long.
pub first_difference-or_else :
    (f : Bytes → Bytes → Sign) (n : ℕ) (xs ys : List Bytes) (last : Sign)
    → length xs ≡ n
    → length ys ≡ n
    → first_difference f n xs ys last ≡ or_else (lex f xs ys) last
first_difference-or_else f zero [] [] last a b = refl
first_difference-or_else f zero [] (y ∷ ys) last a b = absurd (omega arith)
first_difference-or_else f zero (x ∷ xs) ys last a b = absurd (omega arith)
first_difference-or_else f (suc n) [] ys last a b = absurd (omega arith)
first_difference-or_else f (suc n) (x ∷ xs) [] last a b = absurd (omega arith)
first_difference-or_else f (suc n) (x ∷ xs) (y ∷ ys) last a b =
    let rest = first_difference-or_else f n xs ys last (omega arith) (omega arith) in
    ap (or_else (f x y)) rest ∙ or_else_assoc (f x y) (lex f xs ys) last

-- A version without a pre-release comes after the others.
abbrev release : List Bytes → ℕ
release pre = if is_empty pre then 1 else 0

compare_pre-ranks :
    (a b : List Bytes)
    → compare_pre a b ≡ or_else (compare_sizes (release a) (release b)) (lex compare_ident a b)
compare_pre-ranks [] [] = refl
compare_pre-ranks [] (y ∷ ys) = refl
compare_pre-ranks (x ∷ xs) [] = refl
compare_pre-ranks (x ∷ xs) (y ∷ ys) =
    first_difference-lex compare_ident _ (x ∷ xs) (y ∷ ys) _ (ground arith) (ground arith)
      (ground arith) refl

pub compare_pre-IsOrder : IsOrder compare_pre
compare_pre-IsOrder = IsOrder-pointwise compare_pre-ranks (
    IsOrder-or_else compare_sizes-IsOrder (IsOrder-lex compare_ident-IsOrder) release (λ p. p)
      (λ a b p q. q))
