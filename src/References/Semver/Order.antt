-- ===== src/References/Semver/Order.antt =====
-- tasks/semver-compare/reference.hpp: three-way comparisons, and when one is a total order.
use gemini_cpp.Base.{List, [], ◌∷◌, ◌≡◌, refl, sym, ◌∙◌, ◌⊎◌, inl, inr}

-- The results -1, 0 and 1.
pub data Sign : Type 0 where
  less same more : Sign

abbrev pub flip : Sign → Sign
flip less = more
flip same = same
flip more = less

-- The second comparison decides where the first does not.
abbrev pub or_else : Sign → Sign → Sign
or_else less d = less
or_else same d = d
or_else more d = more

module _ {ℓ} {A : Type ℓ} where
  pub record IsOrder (f : A → A → Sign) : Type ℓ where
    pub flips : (x y : A) → f y x ≡ flip (f x y)
    pub tells : (x y : A) → f x y ≡ same → x ≡ y
    pub chains : (x y z : A) → f x y ≡ less → f y z ≡ less → f x z ≡ less

  -- Lists by their first difference; a list that ends first is less.
  abbrev pub lex : (A → A → Sign) → List A → List A → Sign
  lex f [] [] = same
  lex f [] (y ∷ ys) = less
  lex f (x ∷ xs) [] = more
  lex f (x ∷ xs) (y ∷ ys) = let rest = lex f xs ys in or_else (f x y) rest

flip-or_else : (c d : Sign) → flip (or_else c d) ≡ or_else (flip c) (flip d)
flip-or_else less d = refl
flip-or_else same d = refl
flip-or_else more d = refl

pub or_else-same : (c d : Sign) → or_else c d ≡ same → (c ≡ same) × (d ≡ same)
or_else-same same d h = (refl, h)
or_else-same less d h = absurd (cc)
or_else-same more d h = absurd (cc)

pub or_else-less : (c d : Sign) → or_else c d ≡ less → (c ≡ less) ⊎ ((c ≡ same) × (d ≡ less))
or_else-less less d h = inl refl
or_else-less same d h = inr (refl, h)
or_else-less more d h = absurd (cc)

self : (s : Sign) → s ≡ flip s → s ≡ same
self same h = refl
self less h = absurd (cc)
self more h = absurd (cc)

pub IsOrder-self {ℓ} : {A : Type ℓ} {f : A → A → Sign} → IsOrder f → (x : A) → f x x ≡ same
IsOrder-self h x = self _ (h.flips x x)

or_else-chain {ℓ} :
    {A : Type ℓ} {f : A → A → Sign}
    → IsOrder f
    → (x y z : A) (c d e : Sign) → (c ≡ less → d ≡ less → e ≡ less)
    → or_else (f x y) c ≡ less
    → or_else (f y z) d ≡ less
    → or_else (f x z) e ≡ less
or_else-chain {f = f} h x y z c d e more_of p q = elim (or_else-less (f x y) c p) [
  | inl a ↦ elim (or_else-less (f y z) d q) [
    | inl b ↦ rw (h.chains x y z a b) refl
    | inr (b, k) ↦ rw (← h.tells y z b, a) refl
  ]
  | inr (a, m) ↦ elim (or_else-less (f y z) d q) [
    | inl b ↦ rw (h.tells x y a, b) refl
    | inr (b, k) ↦ rw (h.tells x y a ∙ h.tells y z b, IsOrder-self h z) (more_of m k)
  ]
]

-- Two comparisons, one after the other, of a value that both tell apart.
pub IsOrder-or_else {ℓ κ μ} :
    {V : Type ℓ} {A : Type κ} {B : Type μ} {f : A → A → Sign} {g : B → B → Sign}
    → IsOrder f
    → IsOrder g
    → (p : V → A) (q : V → B) → ((v w : V) → p v ≡ p w → q v ≡ q w → v ≡ w)
    → IsOrder (λ v w. or_else (f (p v) (p w)) (g (q v) (q w)))
IsOrder-or_else {f = f} {g} hf hg p q both = record {
  flips = λ v w. rw (hf.flips (p v) (p w), hg.flips (q v) (q w)) (sym (flip-or_else _ _));
  tells = λ v w h. let (a, b) = or_else-same _ _ h in both v w (hf.tells _ _ a) (hg.tells _ _ b);
  chains = λ u v w. or_else-chain hf _ _ _ _ _ _ (hg.chains _ _ _);
}

module _ {ℓ} {A : Type ℓ} {f : A → A → Sign} (h : IsOrder f) where
  lex-flip : (xs ys : List A) → lex f ys xs ≡ flip (lex f xs ys)
  lex-flip [] [] = refl
  lex-flip [] (y ∷ ys) = refl
  lex-flip (x ∷ xs) [] = refl
  lex-flip (x ∷ xs) (y ∷ ys) = rw (h.flips x y, lex-flip xs ys) (sym (flip-or_else _ _))

  lex-same : (xs ys : List A) → lex f xs ys ≡ same → xs ≡ ys
  lex-same [] [] e = refl
  lex-same [] (y ∷ ys) e = absurd (cc)
  lex-same (x ∷ xs) [] e = absurd (cc)
  lex-same (x ∷ xs) (y ∷ ys) e =
      let (a, b) = or_else-same _ _ e in rw (h.tells x y a, lex-same xs ys b) refl

  lex-less : (xs ys zs : List A) → lex f xs ys ≡ less → lex f ys zs ≡ less → lex f xs zs ≡ less
  lex-less [] [] zs e k = absurd (cc)
  lex-less [] (y ∷ ys) [] e k = absurd (cc)
  lex-less [] (y ∷ ys) (z ∷ zs) e k = refl
  lex-less (x ∷ xs) [] zs e k = absurd (cc)
  lex-less (x ∷ xs) (y ∷ ys) [] e k = absurd (cc)
  lex-less (x ∷ xs) (y ∷ ys) (z ∷ zs) e k = or_else-chain h x y z _ _ _ (lex-less xs ys zs) e k

  pub IsOrder-lex : IsOrder (lex f)
  IsOrder-lex = record { flips = lex-flip; tells = lex-same; chains = lex-less }
