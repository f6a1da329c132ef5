-- ===== src/Eval/Process/Capture.antt =====
-- `run_process` of src/eval/process.cpp: the output that it keeps, against the bytes that were read.
use gemini_cpp.Base.{
  ℕ, ◌+◌, ◌-◌, ◌≤◌, Bool, true, false, ltb, ◌++◌, Option, none, some, is_empty, length, take, ◌≡◌,
  ap, subst, sym, refl, arith, Bool-cases, inl, inr, leb, leb→le, ◌||◌, ◌∙◌,
}
use Prim.Native.Nat.{min}
use gemini_cpp.Base.{length-append, length-take, take-append, take_whole}
use gemini_cpp.Base.Int.{ℤ}
use gemini_cpp.Base.Search.{
  find, find_from, erase, length-erase, erase-append, find-append, find-fits, find-resume,
}
use gemini_cpp.Base.Text.{Bytes}
use gemini_cpp.Eval.Outcome.{ProcessOptions, ProcessResult}
use gemini_cpp.Eval.Kernel.{Kernel}
use gemini_cpp.Eval.Process.{
  Pump, keep_bytes, search_start, awaits_marker, store, seek_marker, if_found,
}

over_lem : (m a b : ℕ) → (ltb m a || ltb (m - min m a) b) ≡ ltb m (a + b)
over_lem m a b = ground arith

flag_lem : (b : Bool) (m n : ℕ) → b ≡ false → n ≤ m → (b || ltb m n) ≡ false
flag_lem b m n h k = ground arith

module _ (options : ProcessOptions) where
  -- What the marker leaves of the bytes `all`, and whether its moment was noted.
  abbrev pub Marked : Bytes → ProcessResult → Option ℕ → Type 0
  Marked all r none = (r.output ≡ all) × (r.startup ≡ none)
  Marked all r (some i) =
      (r.output ≡ erase all i (length options.start_marker)) × ((t : ℤ) × (r.startup ≡ some t))

  -- The output of a child that wrote `all`: it stays within the bound. Without a marker it is the
  -- first bytes of `all`, and the flag says whether there were more. With a marker, and within the
  -- bound, it is `all` without the first marker in it.
  pub record Captured (all : Bytes) (r : ProcessResult) : Type 0 where
    pub bound : length r.output ≤ options.max_output_bytes
    pub plain :
        is_empty options.start_marker ≡ true
        → (r.output ≡ take options.max_output_bytes all)
          × (r.output_truncated ≡ ltb options.max_output_bytes (length all))
    pub marked :
        is_empty options.start_marker ≡ false
        → length all ≤ options.max_output_bytes
        → (r.output_truncated ≡ false) × Marked all r (find all options.start_marker)

  Marked-le :
      (all : Bytes) (r : ProcessResult) (found : Option ℕ)
      → Marked all r found
      → length r.output ≤ length all
  Marked-le all r none (output, _) = omega (arith, ap length output)
  Marked-le all r (some i) (output, _) =
      omega (arith, ap length output, length-erase all i (length options.start_marker))

  -- An output that was extended by all bytes that came is searched for the marker.
  Marked-resume :
      (all more : Bytes)
      → find all options.start_marker ≡ none
      → find (all ++ more) options.start_marker
        ≡ find_from (all ++ more) options.start_marker (search_start options (length all))
  unfolding find_from
  Marked-resume all more absent =
      elim (Bool-cases (leb (length options.start_marker) (length all))) [
        | inl fits ↦
            rw fits
              (find-resume all more options.start_marker _ absent (omega (arith, leb→le _ _ fits)))
        | inr short ↦ rw short refl
      ]

  module _ {W : Type 0} (K : Kernel W) (start : ℤ) where
    -- The search takes nothing but the marker, and does not touch the flag.
    if_found_lem :
        (b : Bool) (found : Option ℕ) (p : Pump W)
        → (length (if_found K options start b found p).result.output ≤ length p.result.output)
          × ((if_found K options start b found p).result.output_truncated
              ≡ p.result.output_truncated)
    if_found_lem false found p = (omega arith, refl)
    if_found_lem true none p = (omega arith, refl)
    if_found_lem true (some at) p = (length-erase p.result.output at _, refl)

    seek_marker-plain :
        (before : ℕ) (p : Pump W)
        → is_empty options.start_marker ≡ true
        → (seek_marker K options start before p).result ≡ p.result
    seek_marker-plain before p plain = rw plain

    if_found-seen :
        (b : Bool) (found : Option ℕ) (p : Pump W) {startup : Option ℤ} {t : ℤ}
        → startup ≡ some t
        → (if_found K options start (awaits_marker b startup) found p).result ≡ p.result
    if_found-seen true found p seen = refl
    if_found-seen false found p seen = rw seen

    if_found-Marked :
        (b : Bool) (found : Option ℕ) (all : Bytes) (p : Pump W)
        → b ≡ true
        → p.result.output ≡ all
        → p.result.startup ≡ none
        → Marked all (if_found K options start b found p).result found
    if_found-Marked false found all p e output early = absurd (ground arith)
    if_found-Marked true none all p e output early = (output, early)
    if_found-Marked true (some i) all p e output early =
        (ap (λ s. erase s i (length options.start_marker)) output, (_, refl))

    seek_marker-Marked :
        (all more : Bytes) (p : Pump W)
        → is_empty options.start_marker ≡ false
        → find all options.start_marker ≡ none
        → p.result.output ≡ all ++ more
        → p.result.startup ≡ none
        → Marked
            (all ++ more)
            (seek_marker K options start (length all) p).result
            (find (all ++ more) options.start_marker)
    seek_marker-Marked all more p marked absent output early =
        let e : find_from p.result.output options.start_marker (search_start options (length all))
            ≡ find (all ++ more) options.start_marker =
          rw output (sym (Marked-resume all more absent)) in
        subst (λ f. Marked (all ++ more) (seek_marker K options start (length all) p).result f) e
          (if_found-Marked _ _ (all ++ more) p (rw (marked, early) refl) output early)

    store-plain :
        (all bytes : Bytes) (p : Pump W)
        → p.result.output ≡ take options.max_output_bytes all
        → p.result.output_truncated ≡ ltb options.max_output_bytes (length all)
        → ((store K options bytes p).result.output ≡ take options.max_output_bytes (all ++ bytes))
          × ((store K options bytes p).result.output_truncated
              ≡ ltb options.max_output_bytes (length (all ++ bytes)))
    store-plain all bytes p h k = (
      rw h (sym (take-append options.max_output_bytes all bytes)),
      rw (h, k, length-append, length-take)
          (over_lem options.max_output_bytes (length all) (length bytes)),
    )

    store-fits :
        (bytes : Bytes) (p : Pump W)
        → length bytes + length p.result.output ≤ options.max_output_bytes
        → (store K options bytes p).result.output ≡ p.result.output ++ bytes
    store-fits bytes p room = ap (λ s. p.result.output ++ s) (take_whole bytes _ (omega arith))

    -- All bytes fit, so the marker is sought in all that came, unless it was seen before.
    keep_bytes-Marked :
        (all bytes : Bytes) (p : Pump W) (found : Option ℕ)
        → is_empty options.start_marker ≡ false
        → length bytes + length p.result.output ≤ options.max_output_bytes
        → find all options.start_marker ≡ found
        → Marked all p.result found
        → Marked
            (all ++ bytes)
            (keep_bytes K options start bytes p).result
            (find (all ++ bytes) options.start_marker)
    unfolding keep_bytes
    keep_bytes-Marked all bytes p none marked room e (output, early) =
        subst
          (λ n.
            Marked (all ++ bytes) (seek_marker K options start n (store K options bytes p)).result
              (find (all ++ bytes) options.start_marker))
          (ap length (sym output))
          (seek_marker-Marked all bytes (store K options bytes p) marked e
            (store-fits bytes p room ∙ ap (λ s. s ++ bytes) output) early)
    keep_bytes-Marked all bytes p (some i) marked room e (output, (t, seen)) =
        let same = if_found-seen _ _ (store K options bytes p) seen in
        subst (λ f. Marked (all ++ bytes) (keep_bytes K options start bytes p).result f)
          (sym (find-append all bytes options.start_marker i e))
          (
            ap (λ (r : ProcessResult). r.output) same
                ∙ store-fits bytes p room
                ∙ ap (λ s. s ++ bytes) output
                ∙ sym (erase-append all bytes i _ (find-fits all options.start_marker i e)),
            (t, ap (λ (r : ProcessResult). r.startup) same ∙ seen),
          )

    fits_lem :
        (all bytes : Bytes) (p : Pump W)
        → length (all ++ bytes) ≤ options.max_output_bytes
        → length p.result.output ≤ length all
        → length bytes + length p.result.output ≤ options.max_output_bytes
    fits_lem all bytes p h k = omega (arith, length-append all bytes)

    pub keep_bytes-Captured :
        (all bytes : Bytes) (p : Pump W)
        → Captured all p.result
        → Captured (all ++ bytes) (keep_bytes K options start bytes p).result
    unfolding keep_bytes
    keep_bytes-Captured all bytes p c = record {
      bound = omega (
        arith,
        c.bound,
        (if_found_lem _ _ (store K options bytes p)).0,
        length-append p.result.output
            (take (options.max_output_bytes - length p.result.output) bytes),
        length-take (options.max_output_bytes - length p.result.output) bytes,
      );
      plain = λ h.
          let (output, flag) = store-plain all bytes p (c.plain h).0 (c.plain h).1 in
          rw (seek_marker-plain (length p.result.output) (store K options bytes p) h)
            (output, flag);
      marked = λ h fits.
          let (flag, seen) = c.marked h (omega (arith, length-append all bytes)) in
          let room = fits_lem all bytes p fits (Marked-le all p.result _ seen) in
          (
            (if_found_lem _ _ (store K options bytes p)).1
                ∙ flag_lem _ _ _ flag (omega (arith, room)),
            keep_bytes-Marked all bytes p _ h (omega (arith, room)) refl seen,
          );
    }
