-- ===== src/References/SpscQueue/Counters.antt =====
-- tasks/spsc-queue/reference.hpp: what each thread knows of the counters.
use Prim.Native.Nat.{◌∣◌}
use gemini_cpp.Base.{
  ℕ, suc, ◌+◌, ◌%◌, ◌≤◌, ◌<◌, false, ◌==◌, List, [], ◌∷◌, ◌++◌, Option, some, ◌≡◌, ◌≢◌, refl, ◌∙◌,
  arith, length, get_elem?, length-append, get_elem?_grown, Bool-cases, inl, inr,
}
use gemini_cpp.References.SpscQueue.{
  size_mod, inc_size, sub_size, Producer, loaded_tail, has_room, constructed, Consumer, loaded_head,
  has_item, took, write,
}
use gemini_cpp.References.SpscQueue.Slots.{place}

pub room_lem :
    (p q c tail head : ℕ)
    → tail ≡ p % size_mod
    → head ≡ q % size_mod
    → q ≤ p
    → p ≤ q + c
    → c < size_mod
    → (sub_size tail head == c) ≡ false
    → p < q + c
room_lem p q c tail head t h le near small e = ground arith

pub found_lem :
    (p q head tail : ℕ)
    → head ≡ q % size_mod
    → tail ≡ p % size_mod
    → q ≤ p
    → (head == tail) ≡ false
    → q < p
found_lem p q head tail h t le e = elim (Bool-cases (p == q)) [
  | inl same ↦ absurd (ground arith)
  | inr apart ↦ ground arith
]

pub next_lem : (n m : ℕ) → m ≡ n + 1 → suc n ≡ m
next_lem n m h = omega arith

pub inc_size_lem : (n : ℕ) → inc_size (n % size_mod) ≡ (n + 1) % size_mod
inc_size_lem n = omega arith

module _ {T : Type 0} where
  pub write_self : (i : ℕ) (v : Option T) (slots : ℕ → Option T) → write i v slots i ≡ v
  write_self i v slots = ground arith

  pub write_ne :
      (i j : ℕ) (v : Option T) (slots : ℕ → Option T) → i ≢ j → write i v slots j ≡ slots j
  write_ne i j v slots h = elim (Bool-cases (i == j)) [
    | inl e ↦ absurd (h (ground arith))
    | inr e ↦ rw e refl
  ]

  -- A consumer that took an item has emptied the first slot.
  abbrev pub gone : Consumer T → ℕ
  gone (took v head) = 1
  gone _ = 0

  abbrev pub Popping : List T → ℕ → Consumer T → Type 0
  Popping pushed q Consumer.resting = Unit
  Popping pushed q (loaded_head head) = head ≡ q % size_mod
  Popping pushed q (has_item head) = (head ≡ q % size_mod) × (q < length pushed)
  Popping pushed q (took v head) =
      (head ≡ q % size_mod) × (q < length pushed) × (get_elem? pushed q ≡ some v)

  pub Popping-grown :
      (pushed : List T) (v : T) (q : ℕ) (c : Consumer T)
      → Popping pushed q c
      → Popping (pushed ++ v ∷ []) q c
  Popping-grown pushed v q Consumer.resting h = tt
  Popping-grown pushed v q (loaded_head head) h = h
  Popping-grown pushed v q (has_item head) (t, lt) =
      (t, omega (arith, length-append pushed (v ∷ [])))
  Popping-grown pushed v q (took u head) (t, lt, e) =
      (t, omega (arith, length-append pushed (v ∷ [])), get_elem?_grown pushed (v ∷ []) q e)

  module _ (capacity : ℕ) (divides : capacity ∣ size_mod) where
    -- What the producer knows, from the numbers of pushes and pops.
    abbrev pub Pushing : (ℕ → Option T) → ℕ → ℕ → Producer T → Type 0
    Pushing slots p q Producer.resting = Unit
    Pushing slots p q (loaded_tail v tail) = tail ≡ p % size_mod
    Pushing slots p q (has_room v tail) = (tail ≡ p % size_mod) × (p < q + capacity)
    Pushing slots p q (constructed v tail) =
        (tail ≡ p % size_mod) × (p < q + capacity) × (slots (place capacity divides p) ≡ some v)

    pub Pushing-kept :
        (slots slots' : ℕ → Option T) (p q : ℕ) (c : Producer T)
        → (p < q + capacity → slots' (place capacity divides p) ≡ slots (place capacity divides p))
        → Pushing slots p q c
        → Pushing slots' p q c
    Pushing-kept slots slots' p q Producer.resting k h = tt
    Pushing-kept slots slots' p q (loaded_tail v tail) k h = h
    Pushing-kept slots slots' p q (has_room v tail) k h = h
    Pushing-kept slots slots' p q (constructed v tail) k (t, near, e) = (t, near, k near ∙ e)

    pub Pushing-more :
        (slots : ℕ → Option T) (p q q' : ℕ) (c : Producer T)
        → q ≤ q'
        → Pushing slots p q c
        → Pushing slots p q' c
    Pushing-more slots p q q' Producer.resting le h = tt
    Pushing-more slots p q q' (loaded_tail v tail) le h = h
    Pushing-more slots p q q' (has_room v tail) le (t, near) = (t, omega arith)
    Pushing-more slots p q q' (constructed v tail) le (t, near, e) = (t, omega arith, e)
