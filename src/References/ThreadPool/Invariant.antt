-- ===== src/References/ThreadPool/Invariant.antt =====
-- tasks/thread-pool/reference.hpp: what holds in every reachable state.
use gemini_cpp.Base.{
  ℕ, zero, suc, ◌+◌, ◌<◌, ◌==◌, List, [], ◌∷◌, ◌++◌, is_empty, if◌then◌else◌, ◌≡◌, refl, sym, ◌&&◌,
  ◌∙◌, ap, map, total, total-set, length-set, length, length-append, arith, inl, inr, append_assoc,
}
use gemini_cpp.References.ThreadPool.{
  Worker, ready, asleep, ending, exited, running, blocked, returned, is_ready, is_asleep,
  is_running, is_busy, is_exited, PoolState, woken, check_idle, Step, work, notify, notify_none,
  notify_all, check, Call, call_submit, call_stop, call_wait_idle, Reach, start, step, call,
}
use gemini_cpp.References.ThreadPool.Sound.{IsSound, new_pool-IsSound, work-IsSound}

module _ {J : Type 0} where
  check_lem :
      (queue : List J) (active : ℕ)
      → (if is_empty queue && active == 0 then returned else blocked) ≡ blocked
      → 0 < length queue + active
  check_lem [] zero e = absurd (ground arith)
  check_lem [] (suc n) e = omega arith
  check_lem (j ∷ queue) active e = omega arith

  total-woken :
      (c : Worker J → ℕ)
      → c asleep ≡ 0
      → c ready ≡ 0
      → (ws : List (Worker J)) → total c (map woken ws) ≡ total c ws
  total-woken c h k [] = refl
  total-woken c h k (asleep ∷ ws) = omega (arith, total-woken c h k ws)
  total-woken c h k (ready ∷ ws) = omega (arith, total-woken c h k ws)
  total-woken c h k (running j ∷ ws) = omega (arith, total-woken c h k ws)
  total-woken c h k (ending ∷ ws) = omega (arith, total-woken c h k ws)
  total-woken c h k (exited ∷ ws) = omega (arith, total-woken c h k ws)

  length-woken : (ws : List (Worker J)) → length (map woken ws) ≡ length ws
  length-woken [] = refl
  length-woken (w ∷ ws) = omega (arith, length-woken ws)

  none_asleep : (ws : List (Worker J)) → total is_asleep (map woken ws) ≡ 0
  none_asleep [] = refl
  none_asleep (asleep ∷ ws) = omega (arith, none_asleep ws)
  none_asleep (ready ∷ ws) = omega (arith, none_asleep ws)
  none_asleep (running j ∷ ws) = omega (arith, none_asleep ws)
  none_asleep (ending ∷ ws) = omega (arith, none_asleep ws)
  none_asleep (exited ∷ ws) = omega (arith, none_asleep ws)

  Step-IsSound : {p q : PoolState J} → Step p q → IsSound p → IsSound q
  unfolding check_idle
  Step-IsSound {p} (work i {w} {w'} {s} at e) h = work-IsSound p i w w' s at e h
  Step-IsSound {p} (notify i some_left at) h = record {
    busy = omega (arith, h.busy, total-set is_busy p.workers i ready at);
    in_order = h.in_order;
    ran = omega (arith, h.ran, total-set is_running p.workers i ready at);
    heard =
        ground (
          arith,
          total-set is_asleep p.workers i ready at,
          total-set is_ready p.workers i ready at,
        );
    told = ground (arith, total-set is_asleep p.workers i ready at);
    left = ground (arith, total-set is_exited p.workers i ready at);
    staffed = omega (arith, h.staffed, length-set p.workers i ready);
    waits = h.waits;
  }
  Step-IsSound {p} (notify_none some_left awake) h = record {
    busy = h.busy;
    in_order = h.in_order;
    ran = h.ran;
    heard = inl awake;
    told = h.told;
    left = h.left;
    staffed = h.staffed;
    waits = h.waits;
  }
  Step-IsSound {p} (notify_all b) h = record {
    busy = h.busy ∙ sym (total-woken is_busy refl refl p.workers);
    in_order = h.in_order;
    ran = omega (arith, h.ran, total-woken is_running refl refl p.workers);
    heard = inl (none_asleep p.workers);
    told = λ t. inr (none_asleep p.workers);
    left = ground (arith, total-woken is_exited refl refl p.workers);
    staffed = omega (arith, h.staffed, length-woken p.workers);
    waits = h.waits;
  }
  Step-IsSound {p} (check c) h = record {
    busy = h.busy;
    in_order = h.in_order;
    ran = h.ran;
    heard = h.heard;
    told = h.told;
    left = h.left;
    staffed = h.staffed;
    waits = check_lem p.shared.queue p.shared.active;
  }

  Call-IsSound : {p q : PoolState J} → Call p q → IsSound p → IsSound q
  Call-IsSound {p} (call_submit j live) h = record {
    busy = h.busy;
    in_order =
        sym (append_assoc p.shared.started p.shared.queue (j ∷ []))
        ∙ ap (λ q. q ++ j ∷ []) h.in_order;
    ran = h.ran;
    heard = ground (arith, length-append p.shared.queue (j ∷ []));
    told = h.told;
    left = ground arith;
    staffed = h.staffed;
    waits = λ b. omega (arith, length-append p.shared.queue (j ∷ []));
  }
  Call-IsSound {p} (call_stop live) h = record {
    busy = h.busy;
    in_order = h.in_order;
    ran = h.ran;
    heard = h.heard;
    told = λ t. inl refl;
    left = ground arith;
    staffed = h.staffed;
    waits = h.waits;
  }
  Call-IsSound {p} (call_wait_idle live free) h = record {
    busy = h.busy;
    in_order = h.in_order;
    ran = h.ran;
    heard = h.heard;
    told = h.told;
    left = h.left;
    staffed = h.staffed;
    waits = λ e. absurd (ground arith);
  }

  -- The invariant holds in every reachable state.
  pub Reach-IsSound : {threads : ℕ} {p : PoolState J} → Reach threads p → IsSound p
  Reach-IsSound {threads} start = new_pool-IsSound threads
  Reach-IsSound (step r s) = Step-IsSound s (Reach-IsSound r)
  Reach-IsSound (call r c) = Call-IsSound c (Reach-IsSound r)
