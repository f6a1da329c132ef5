-- ===== src/References/SpscQueue/Invariant.antt =====
-- tasks/spsc-queue/reference.hpp: what holds of the queue between two accesses, and the accesses that
-- change a slot or a counter.
use Prim.Native.Nat.{◌∣◌}
use gemini_cpp.Base.{
  ℕ, ◌+◌, ◌%◌, ◌≤◌, ◌<◌, ◌==◌, [], ◌∷◌, ◌++◌, none, some, ◌≡◌, sym, subst, ◌∙◌, ap, arith, length,
  get_elem?, take, length-append, get_elem?-append, get_elem?_last, take_grown, take_next,
  Bool-cases, inl, inr,
}
use gemini_cpp.References.SpscQueue.{
  size_mod, inc_size, Producer, has_room, constructed, Consumer, has_item, took, Spsc, write, slot,
}
use gemini_cpp.References.SpscQueue.Slots.{place, place_apart}
use gemini_cpp.References.SpscQueue.Counters.{
  next_lem, inc_size_lem, write_self, write_ne, gone, Pushing, Popping, Popping-grown, Pushing-kept,
  Pushing-more,
}

module _ {T : Type 0} where
  module _ (capacity : ℕ) (divides : capacity ∣ size_mod) where
    pub record IsFifo (s : Spsc T) : Type 0 where
      pub head_is : s.head ≡ length s.popped % size_mod
      pub tail_is : s.tail ≡ length s.pushed % size_mod
      pub behind : length s.popped ≤ length s.pushed
      pub within : length s.pushed ≤ length s.popped + capacity
      pub in_order : s.popped ≡ take (length s.popped) s.pushed
      pub pushing : Pushing capacity divides s.slots (length s.pushed) (length s.popped) s.producer
      pub popping : Popping s.pushed (length s.popped) s.consumer
      pub live :
          (i : ℕ)
          → length s.popped + gone s.consumer ≤ i
          → i < length s.pushed
          → s.slots (place capacity divides i) ≡ get_elem? s.pushed i

    pub construct-IsFifo :
        (s : Spsc T) (v : T) (tail : ℕ)
        → s.producer ≡ has_room v tail
        → IsFifo s
        → IsFifo (record s {
          slots = write (slot capacity tail) (some v) s.slots;
          producer = constructed v tail;
        })
    construct-IsFifo s v tail e h =
        let (t, near) =
          subst (Pushing capacity divides s.slots (length s.pushed) (length s.popped)) e
            h.pushing in
        record {
          head_is = h.head_is;
          tail_is = h.tail_is;
          behind = h.behind;
          within = h.within;
          in_order = h.in_order;
          pushing = (
            t,
            near,
            rw t (write_self (place capacity divides (length s.pushed)) (some v) s.slots),
          );
          popping = h.popping;
          live = λ i le lt.
              rw t (
                write_ne (place capacity divides (length s.pushed)) (place capacity divides i)
                  (some v) s.slots
                  (λ same.
                    place_apart capacity divides i (length s.pushed) lt (omega arith) (sym same)))
              ∙ h.live i le lt;
        }

    pub publish-IsFifo :
        (s : Spsc T) (v : T) (tail : ℕ)
        → s.producer ≡ constructed v tail
        → IsFifo s
        → IsFifo (record s {
          tail = inc_size tail;
          producer = Producer.resting;
          pushed = s.pushed ++ v ∷ [];
        })
    publish-IsFifo s v tail e h =
        let (t, near, last) =
          subst (Pushing capacity divides s.slots (length s.pushed) (length s.popped)) e
            h.pushing in
        let n = length-append s.pushed (v ∷ []) in
        record {
          head_is = h.head_is;
          tail_is = rw (t, n) (inc_size_lem (length s.pushed));
          behind = omega (arith, n, h.behind);
          within = omega (arith, n);
          in_order = h.in_order ∙ sym (take_grown (length s.popped) s.pushed (v ∷ []) h.behind);
          pushing = tt;
          popping = Popping-grown s.pushed v (length s.popped) s.consumer h.popping;
          live = λ i le lt. elim (Bool-cases (i == length s.pushed)) [
            | inl same ↦
                let here : i ≡ length s.pushed = ground arith in
                rw here (last ∙ sym (get_elem?_last s.pushed v))
            | inr other ↦
                let below : i < length s.pushed = ground (arith, n) in
                h.live i le below ∙ sym (get_elem?-append s.pushed (v ∷ []) i below)
          ];
        }

    pub take_item-IsFifo :
        (s : Spsc T) (v : T) (head : ℕ)
        → s.consumer ≡ has_item head
        → s.slots (slot capacity head) ≡ some v
        → IsFifo s
        → IsFifo
            (record s { slots = write (slot capacity head) none s.slots; consumer = took v head })
    take_item-IsFifo s v head e item h =
        let (t, some_left) = subst (Popping s.pushed (length s.popped)) e h.popping in
        let first : s.slots (place capacity divides (length s.popped))
            ≡ get_elem? s.pushed (length s.popped) =
          h.live (length s.popped) (rw e (omega arith)) some_left in
        record {
          head_is = h.head_is;
          tail_is = h.tail_is;
          behind = h.behind;
          within = h.within;
          in_order = h.in_order;
          pushing =
              Pushing-kept capacity divides s.slots (write (slot capacity head) none s.slots)
                (length s.pushed) (length s.popped) s.producer
                (λ near. rw t (
                  write_ne (place capacity divides (length s.popped))
                    (place capacity divides (length s.pushed)) none s.slots
                    (place_apart capacity divides (length s.popped) (length s.pushed) some_left
                      near)))
                h.pushing;
          popping = (t, some_left, sym first ∙ (rw (← t) item));
          live = λ i le lt.
              rw t (
                write_ne (place capacity divides (length s.popped)) (place capacity divides i) none
                  s.slots
                  (place_apart capacity divides (length s.popped) i (omega arith)
                    (omega (arith, h.within))))
              ∙ h.live i (rw e (omega arith)) lt;
        }

    pub release-IsFifo :
        (s : Spsc T) (v : T) (head : ℕ)
        → s.consumer ≡ took v head
        → IsFifo s
        → IsFifo (record s {
          head = inc_size head;
          consumer = Consumer.resting;
          popped = s.popped ++ v ∷ [];
        })
    release-IsFifo s v head e h =
        let (t, some_left, first) = subst (Popping s.pushed (length s.popped)) e h.popping in
        let n = length-append s.popped (v ∷ []) in
        record {
          head_is = rw (t, n) (inc_size_lem (length s.popped));
          tail_is = h.tail_is;
          behind = omega (arith, n);
          within = omega (arith, n, h.within);
          in_order =
              ap (λ l. l ++ v ∷ []) h.in_order
              ∙ sym (take_next (length s.popped) s.pushed first)
              ∙ ap (λ k. take k s.pushed) (next_lem (length s.popped) _ n);
          pushing =
              Pushing-more capacity divides s.slots (length s.pushed) (length s.popped) _ s.producer
                (omega (arith, n)) h.pushing;
          popping = tt;
          live = λ i le lt. h.live i (rw e (omega (arith, n, le))) lt;
        }
