-- ===== src/References/SpscQueue.antt =====
-- tasks/spsc-queue/reference.hpp: one producer and one consumer, a shared access at a time. The
-- accesses are interleaved, which the acquire and release orders of the code allow for.
pub mod Slots
pub mod Counters
pub mod Invariant
pub mod Fifo
use gemini_cpp.Base.{
  ℕ, ◌+◌, ◌-◌, ◌%◌, ◌^◌, Bool, true, false, ◌==◌, List, [], ◌∷◌, ◌++◌, Option, none, some,
  if◌then◌else◌, ◌≡◌,
}

-- A `std::size_t` that wraps.
abbrev pub size_mod : ℕ
size_mod = 2 ^ 64

abbrev pub inc_size : ℕ → ℕ
inc_size n = (n + 1) % size_mod

abbrev pub sub_size : ℕ → ℕ → ℕ
sub_size a b = (a + size_mod - b) % size_mod

-- Where the producer stands in `try_push`, with its local variables.
pub data Producer (T : Type 0) : Type 0 where
  resting : Producer T
  loaded_tail : T → ℕ → Producer T
  has_room : T → ℕ → Producer T
  constructed : T → ℕ → Producer T

-- Where the consumer stands in `try_pop`; an item that was moved out is in its hands.
pub data Consumer (T : Type 0) : Type 0 where
  resting : Consumer T
  loaded_head : ℕ → Consumer T
  has_item : ℕ → Consumer T
  took : T → ℕ → Consumer T

-- The atomics and the slots, in which an object lives or none does; and what was pushed and popped so
-- far, in the order in which the stores of `tail_` and `head_` made it so.
pub record Spsc (T : Type 0) : Type 0 where
  pub head : ℕ
  pub tail : ℕ
  pub slots : ℕ → Option T
  pub producer : Producer T
  pub consumer : Consumer T
  pub pushed : List T
  pub popped : List T

abbrev pub write : {T : Type 0} → ℕ → Option T → (ℕ → Option T) → ℕ → Option T
write i v slots j = if i == j then v else slots j

-- The index of `slot`, in objects.
abbrev pub slot : ℕ → ℕ → ℕ
slot capacity counter = counter % capacity

module _ {T : Type 0} where
  abbrev pub empty_queue : Spsc T
  empty_queue = record {
    head = 0;
    tail = 0;
    slots = λ i. none;
    producer = Producer.resting;
    consumer = Consumer.resting;
    pushed = [];
    popped = [];
  }

  module _ (capacity : ℕ) where
    -- One access of `try_push` or `try_pop`.
    pub data Step (s : Spsc T) : Spsc T → Type 0 where
      begin_push :
          (v : T)
          → s.producer ≡ Producer.resting
          → Step s (record s { producer = loaded_tail v s.tail })
      full :
          {v : T} {tail : ℕ}
          → s.producer ≡ loaded_tail v tail
          → sub_size tail s.head ≡ capacity
          → Step s (record s { producer = Producer.resting })
      room :
          {v : T} {tail : ℕ}
          → s.producer ≡ loaded_tail v tail
          → (sub_size tail s.head == capacity) ≡ false
          → Step s (record s { producer = has_room v tail })
      construct :
          {v : T} {tail : ℕ}
          → s.producer ≡ has_room v tail
          → Step s (record s {
            slots = write (slot capacity tail) (some v) s.slots;
            producer = constructed v tail;
          })
      publish :
          {v : T} {tail : ℕ}
          → s.producer ≡ constructed v tail
          → Step s (record s {
            tail = inc_size tail;
            producer = Producer.resting;
            pushed = s.pushed ++ v ∷ [];
          })
      begin_pop :
          s.consumer ≡ Consumer.resting → Step s (record s { consumer = loaded_head s.head })
      empty :
          {head : ℕ}
          → s.consumer ≡ loaded_head head
          → head ≡ s.tail
          → Step s (record s { consumer = Consumer.resting })
      found :
          {head : ℕ}
          → s.consumer ≡ loaded_head head
          → (head == s.tail) ≡ false
          → Step s (record s { consumer = has_item head })
      -- the object is moved out and destroyed; the code has no such object if the slot is empty
      take_item :
          {head : ℕ} {v : T}
          → s.consumer ≡ has_item head
          → s.slots (slot capacity head) ≡ some v
          → Step s
              (record s { slots = write (slot capacity head) none s.slots; consumer = took v head })
      release :
          {head : ℕ} {v : T}
          → s.consumer ≡ took v head
          → Step s (record s {
            head = inc_size head;
            consumer = Consumer.resting;
            popped = s.popped ++ v ∷ [];
          })

    pub data Reach : Spsc T → Type 0 where
      start : Reach empty_queue
      step : {s t : Spsc T} → Reach s → Step s t → Reach t
