-- ===== src/Eval/Report/Cells.antt =====
-- src/eval/report.cpp: the line that stands in a cell of the Markdown table.
use gemini_cpp.Base.{
  ℕ, zero, suc, ◌+◌, ◌≤◌, Bool, true, false, ◌==◌, leb, List, [], ◌∷◌, if◌then◌else◌, is_empty,
  length, take, map, ◌≡◌, refl, All, All-append, Bool-cases, inl, inr, arith, length-append,
  length-take,
}
use gemini_cpp.Base.Text.{Bytes}
use gemini_cpp.Eval.Extract.{split_lines, cons_head}
use gemini_cpp.Eval.Report.{pick_line, tells_failure, ellipsis, cell_byte, shorten, summary_line}

abbrev IsInLine : ℕ → Type 0
IsInLine c = (c == b'\n') ≡ false

-- A byte that ends no cell and no line, and opens no code.
abbrev pub IsCell : ℕ → Type 0
IsCell c = ((c == b'\n') ≡ false) × ((c == b'|') ≡ false) × ((c == b'`') ≡ false)

cons_head-lines :
    (c : ℕ) (ls : List Bytes)
    → IsInLine c
    → All (All IsInLine) ls
    → All (All IsInLine) (cons_head c ls)
cons_head-lines c [] h k = ((h, tt), tt)
cons_head-lines c (l ∷ ls) h (k, ks) = ((h, k), ks)

split_lines-lines : (s : Bytes) → All (All IsInLine) (split_lines s)
unfolding split_lines
split_lines-lines [] = (tt, tt)
split_lines-lines (c ∷ s) = elim (Bool-cases (c == b'\n')) [
  | inl e ↦ rw (e, split_lines) (tt, split_lines-lines s)
  | inr e ↦ rw (e, split_lines) (cons_head-lines c (split_lines s) e (split_lines-lines s))
]

if-line :
    (b : Bool) (s t : Bytes) → All IsInLine s → All IsInLine t → All IsInLine (if b then s else t)
if-line true s t h k = h
if-line false s t h k = k

pick_line-line :
    (first : Bytes) (ls : List Bytes)
    → All IsInLine first
    → All (All IsInLine) ls
    → All IsInLine (pick_line first ls)
unfolding pick_line
pick_line-line first [] h k = h
pick_line-line first (l ∷ ls) h (k, ks) = if-line (tells_failure l) l _ k (
    pick_line-line (if is_empty first then l else first) ls (if-line (is_empty first) l first k h)
      ks)

take-line : (n : ℕ) (s : Bytes) → All IsInLine s → All IsInLine (take n s)
take-line zero s h = tt
take-line (suc n) [] h = tt
take-line (suc n) (c ∷ s) (h, hs) = (h, take-line n s hs)

shorten-line : (max : ℕ) (s : Bytes) → All IsInLine s → All IsInLine (shorten max s)
unfolding shorten
shorten-line max s h =
    if-line (leb (length s) max) s _ h
      (All-append IsInLine (take max s) ellipsis (take-line max s h) (refl, (refl, (refl, tt))))

cell_byte-IsCell : (c : ℕ) → IsInLine c → IsCell (cell_byte c)
cell_byte-IsCell c h = ground arith

map-cell_byte : (s : Bytes) → All IsInLine s → All IsCell (map cell_byte s)
map-cell_byte [] h = tt
map-cell_byte (c ∷ s) (h, hs) = (cell_byte-IsCell c h, map-cell_byte s hs)

length-map : (s : Bytes) → length (map cell_byte s) ≡ length s
length-map [] = refl
length-map (c ∷ s) = omega (arith, length-map s)

shorten-length : (max : ℕ) (s : Bytes) → length (shorten max s) ≤ max + 3
unfolding shorten
shorten-length max s = elim (Bool-cases (leb (length s) max)) [
  | inl e ↦ rw (e, shorten) (ground arith)
  | inr e ↦ rw (e, shorten) (omega (arith, length-append (take max s) ellipsis, length-take max s))
]

-- The summary of any log fits a cell of a Markdown table: it has no newline, no bar and no backtick, and
-- at most three bytes more than the limit.
pub summary_line-IsCell :
    (text : Bytes) (max : ℕ)
    → All IsCell (summary_line text max) × (length (summary_line text max) ≤ max + 3)
unfolding summary_line
summary_line-IsCell text max =
    let line = pick_line [] (split_lines text) in
    (
      map-cell_byte (shorten max line) (
          shorten-line max line (pick_line-line [] (split_lines text) tt (split_lines-lines text))),
      omega (arith, length-map (shorten max line), shorten-length max line),
    )
