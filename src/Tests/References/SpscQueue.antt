-- ===== src/Tests/References/SpscQueue.antt =====
-- tasks/spsc-queue/reference.hpp: one item on its way.
use Prim.Native.Nat.{◌∣◌}
use native.Mathlib.Nat.{dvd_iff_mod-eq-zero}
use gemini_cpp.Base.{ℕ, ◌-◌, ◌≤◌, [], ◌∷◌, ◌++◌, none, some, ◌≡◌, refl, arith, length, drop}
use gemini_cpp.References.SpscQueue.{
  size_mod, inc_size, slot, Spsc, Producer, has_item, write, begin_push, room, construct, publish,
  begin_pop, found, Reach, start, step,
}
use gemini_cpp.References.SpscQueue.Fifo.{Ready, Reach-fifo}

divides : 4 ∣ size_mod
divides = (dvd_iff_mod-eq-zero 4).1 refl

-- An item was pushed, and the consumer has seen it.
abbrev seen : Spsc ℕ
seen = record {
  head = 0;
  tail = 1;
  slots = write (slot 4 0) (some 9) (λ i. none);
  producer = Producer.resting;
  consumer = has_item 0;
  pushed = 9 ∷ [];
  popped = [];
}

seen-Reach : Reach 4 seen
seen-Reach =
    step
      (step
        (step (step (step (step start (begin_push 9 refl)) (room refl refl)) (construct refl))
          (publish refl))
        (begin_pop refl))
      (found refl refl)

Reach-fifo_example :
    ([] ++ 9 ∷ [] ≡ seen.pushed)
    × (length (drop 0 seen.pushed) ≤ 4)
    × Ready 4 divides (omega arith) seen seen.consumer
Reach-fifo_example = Reach-fifo 4 divides (omega arith) seen-Reach

-- With a capacity that does not divide 2^64, two neighbouring counters share a slot at the wrap.
wrap_collision : slot 3 (size_mod - 1) ≡ slot 3 (inc_size (size_mod - 1))
wrap_collision = refl
