-- ===== src/References/SpscQueue/Fifo.antt =====
-- tasks/spsc-queue/reference.hpp: the queue is first in, first out, at every interleaving.
use Prim.Native.Nat.{◌∣◌}
use gemini_cpp.Base.{
  ℕ, ◌≤◌, ◌<◌, ◌++◌, some, ◌≡◌, refl, subst, ◌∙◌, ap, arith, length, get_elem?, drop, take-drop,
  length-drop, get_elem?_inside,
}
use gemini_cpp.References.SpscQueue.{
  size_mod, Consumer, loaded_head, has_item, took, Spsc, slot, Step, begin_push, full, room,
  construct, publish, begin_pop, empty, found, take_item, release, Reach, start, step,
}
use gemini_cpp.References.SpscQueue.Counters.{room_lem, found_lem, Pushing, Popping}
use gemini_cpp.References.SpscQueue.Invariant.{
  IsFifo, construct-IsFifo, publish-IsFifo, take_item-IsFifo, release-IsFifo,
}

module _ {T : Type 0} where
  module _ (capacity : ℕ) (divides : capacity ∣ size_mod) (small : capacity < size_mod) where
    -- A consumer that saw an item finds the oldest one that was not popped.
    abbrev pub Ready : Spsc T → Consumer T → Type 0
    Ready s (has_item head) =
        (v : T) × (s.slots (slot capacity head) ≡ some v)
        × (get_elem? s.pushed (length s.popped) ≡ some v)
    Ready s _ = Unit

    ready_lem :
        (s : Spsc T) → IsFifo capacity divides s → (c : Consumer T) → s.consumer ≡ c → Ready s c
    ready_lem s h Consumer.resting e = tt
    ready_lem s h (loaded_head head) e = tt
    ready_lem s h (took v head) e = tt
    ready_lem s h (has_item head) e =
        let (t, some_left) = subst (Popping s.pushed (length s.popped)) e h.popping in
        let (v, first) = get_elem?_inside s.pushed (length s.popped) some_left in
        (v, rw t (h.live (length s.popped) (rw e (omega arith)) some_left ∙ first), first)

    Step-IsFifo :
        {s t : Spsc T} → Step capacity s t → IsFifo capacity divides s → IsFifo capacity divides t
    Step-IsFifo {s} (begin_push v e) h = record {
      head_is = h.head_is;
      tail_is = h.tail_is;
      behind = h.behind;
      within = h.within;
      in_order = h.in_order;
      pushing = h.tail_is;
      popping = h.popping;
      live = h.live;
    }
    Step-IsFifo {s} (full e f) h = record {
      head_is = h.head_is;
      tail_is = h.tail_is;
      behind = h.behind;
      within = h.within;
      in_order = h.in_order;
      pushing = tt;
      popping = h.popping;
      live = h.live;
    }
    Step-IsFifo {s} (room {v} {tail} e f) h =
        let t =
          subst (Pushing capacity divides s.slots (length s.pushed) (length s.popped)) e
            h.pushing in
        record {
          head_is = h.head_is;
          tail_is = h.tail_is;
          behind = h.behind;
          within = h.within;
          in_order = h.in_order;
          pushing = (t, room_lem _ _ _ _ _ t h.head_is h.behind h.within small f);
          popping = h.popping;
          live = h.live;
        }
    Step-IsFifo {s} (construct {v} {tail} e) h = construct-IsFifo capacity divides s v tail e h
    Step-IsFifo {s} (publish {v} {tail} e) h = publish-IsFifo capacity divides s v tail e h
    Step-IsFifo {s} (begin_pop e) h = record {
      head_is = h.head_is;
      tail_is = h.tail_is;
      behind = h.behind;
      within = h.within;
      in_order = h.in_order;
      pushing = h.pushing;
      popping = h.head_is;
      live = λ i le lt. h.live i (rw e le) lt;
    }
    Step-IsFifo {s} (empty e f) h = record {
      head_is = h.head_is;
      tail_is = h.tail_is;
      behind = h.behind;
      within = h.within;
      in_order = h.in_order;
      pushing = h.pushing;
      popping = tt;
      live = λ i le lt. h.live i (rw e le) lt;
    }
    Step-IsFifo {s} (found {head} e f) h =
        let t = subst (Popping s.pushed (length s.popped)) e h.popping in
        record {
          head_is = h.head_is;
          tail_is = h.tail_is;
          behind = h.behind;
          within = h.within;
          in_order = h.in_order;
          pushing = h.pushing;
          popping = (t, found_lem _ _ _ _ t h.tail_is h.behind f);
          live = λ i le lt. h.live i (rw e le) lt;
        }
    Step-IsFifo {s} (take_item {head} {v} e item) h =
        take_item-IsFifo capacity divides s v head e item h
    Step-IsFifo {s} (release {head} {v} e) h = release-IsFifo capacity divides s v head e h

    Reach-IsFifo : {s : Spsc T} → Reach capacity s → IsFifo capacity divides s
    Reach-IsFifo start = record {
      head_is = refl;
      tail_is = refl;
      behind = omega arith;
      within = omega arith;
      in_order = refl;
      pushing = tt;
      popping = tt;
      live = λ i le lt. absurd (omega arith);
    }
    Reach-IsFifo (step r st) = Step-IsFifo st (Reach-IsFifo r)

    -- For a capacity that divides 2^64 and is less: at every interleaving of one producer and one
    -- consumer, what was popped is a beginning of what was pushed, in order; between them are at most as
    -- many items as the capacity; and a consumer that saw an item finds the oldest of these in its slot.
    pub Reach-fifo :
        {s : Spsc T}
        → Reach capacity s
        → (s.popped ++ drop (length s.popped) s.pushed ≡ s.pushed)
          × (length (drop (length s.popped) s.pushed) ≤ capacity)
          × Ready s s.consumer
    Reach-fifo {s} r =
        let h = Reach-IsFifo r in
        (
          ap (λ l. l ++ drop (length s.popped) s.pushed) h.in_order
              ∙ take-drop (length s.popped) s.pushed,
          omega (arith, length-drop (length s.popped) s.pushed, h.within),
          ready_lem s h s.consumer refl,
        )
