-- ===== src/Eval/Extract.antt =====
-- include/gemini/eval/code_extract.hpp and src/eval/code_extract.cpp: fenced code blocks in a Markdown
-- reply, and the C++ source among them.
pub mod Blocks
pub mod Best
use gemini_cpp.Base.{
  ℕ, zero, suc, ◌+◌, Bool, true, false, not, ◌&&◌, ◌||◌, ◌==◌, ltb, leb, List, [], ◌∷◌, ◌++◌,
  Option, none, some, is_empty, if◌then◌else◌, length, reverse,
}
use gemini_cpp.Base.Text.{Bytes, codes, equal, contains}
use gemini_cpp.Sse.{strip_cr}

pub record Fence : Type 0 where
  pub ch : ℕ
  pub length : ℕ
  pub info : Bytes

pub record CodeBlock : Type 0 where
  pub language : Bytes
  pub code : Bytes
  pub terminated : Bool

-- `std::isspace` and `std::tolower` in the C locale.
abbrev pub is_space : ℕ → Bool
is_space c = c == 32 || (leb 9 c && leb c 13)

abbrev pub to_lower : ℕ → ℕ
to_lower c = if leb b'A' c && leb c b'Z' then c + 32 else c

-- At most `n` spaces of indentation are skipped.
abbrev pub skip_indent : ℕ → Bytes → Bytes
skip_indent zero s = s
skip_indent (suc n) [] = []
skip_indent (suc n) (c ∷ s) = if c == b' ' then skip_indent n s else c ∷ s

-- The length of a run of `ch`, and what follows it.
abbrev pub run_of : ℕ → Bytes → ℕ × Bytes
run_of ch [] = (0, [])
run_of ch (c ∷ s) = let (n, rest) = run_of ch s in if c == ch then (suc n, rest) else (0, c ∷ s)

abbrev pub trim_front : Bytes → Bytes
trim_front [] = []
trim_front (c ∷ s) = if is_space c then trim_front s else c ∷ s

-- `substr(0, find_first_of(" \t{"))`, in lower case.
abbrev pub first_word : Bytes → Bytes
first_word [] = []
first_word (c ∷ s) =
    let rest = first_word s in if c == b' ' || (c == 9 || c == b'{') then [] else to_lower c ∷ rest

-- `parse_fence` after the indentation: at least three backticks or tildes.
unfoldable pub fence_at : Bytes → Option Fence
fence_at [] = none
fence_at (c ∷ s) =
    if not (c == b'`') && not (c == b'~')
    then none
    else let (n, rest) = run_of c (c ∷ s) in
      (if ltb n 3
        then none
        else some (record { ch = c; length = n; info = first_word (trim_front rest) }))

unfoldable pub parse_fence : Bytes → Option Fence
unfolding fence_at
parse_fence line = fence_at (skip_indent 3 line)

unfoldable pub is_closing : Bytes → Fence → Bool
is_closing line fence =
    let (n, rest) = run_of fence.ch (skip_indent 3 line) in
    if ltb n fence.length then false else is_empty (trim_front rest)

unfoldable pub is_cpp_language : Bytes → Bool
unfolding equal
is_cpp_language lang =
    equal lang (codes "cpp")
    || equal lang (codes "c++")
    || equal lang (codes "cc")
    || equal lang (codes "cxx")
    || equal lang (codes "hpp")
    || equal lang (codes "hxx")
    || equal lang (codes "h")
    || equal lang (codes "c")

unfoldable pub looks_like_code : Bytes → Bool
unfolding contains
looks_like_code text =
    contains text (codes "#include")
    || contains text (codes "#pragma once")
    || contains text (codes "template <")
    || contains text (codes "template<")

unfoldable pub trim : Bytes → Bytes
trim s = reverse (trim_front (reverse (trim_front s)))

-- What stands between two newlines; the text after the last one counts, even if it is empty.
abbrev pub cons_head : ℕ → List Bytes → List Bytes
cons_head c [] = (c ∷ []) ∷ []
cons_head c (l ∷ ls) = (c ∷ l) ∷ ls

unfoldable pub split_lines : Bytes → List Bytes
split_lines [] = [] ∷ []
split_lines (c ∷ s) = let rest = split_lines s in if c == b'\n' then [] ∷ rest else cons_head c rest

-- The variables of `find_code_blocks`: the open fence with its block so far, and the blocks.
pub record Scan : Type 0 where
  pub open_block : Option (Fence × CodeBlock)
  pub blocks : List CodeBlock

abbrev opened : Fence → CodeBlock
opened f = record { language = f.info; code = []; terminated = true }

-- The body of the loop, on a line without its carriage return.
unfoldable pub scan_line : Scan → Bytes → Scan
unfolding parse_fence is_closing
scan_line s line = elim s.open_block [
  | none ↦ elim (parse_fence line) [
    | none ↦ s
    | some fence ↦ record s { open_block = some (fence, opened fence) }
  ]
  | some (fence, current) ↦
      if is_closing line fence
      then record { open_block = none; blocks = s.blocks ++ current ∷ [] }
      else record s {
        open_block = some (fence, record current { code = current.code ++ (line ++ b'\n' ∷ []) });
      }
]

unfoldable pub scan_lines : Scan → List Bytes → Scan
unfolding scan_line
scan_lines s [] = s
scan_lines s (l ∷ ls) = scan_lines (scan_line s (strip_cr l)) ls

-- A block that the reply breaks off in is kept.
unfoldable pub close_scan : Scan → List CodeBlock
close_scan s = elim s.open_block [
  | none ↦ s.blocks
  | some (fence, current) ↦ s.blocks ++ record current { terminated = false } ∷ []
]

abbrev pub nothing_open : List CodeBlock → Scan
nothing_open blocks = record { open_block = none; blocks = blocks }

unfoldable pub find_code_blocks : Bytes → List CodeBlock
unfolding split_lines scan_lines close_scan
find_code_blocks markdown = close_scan (scan_lines (nothing_open []) (split_lines markdown))

-- `best == nullptr || block.code.size() > best->code.size()`.
abbrev pub longer : Option CodeBlock → CodeBlock → Option CodeBlock
longer none b = some b
longer (some best) b = if ltb (length best.code) (length b.code) then some b else some best

-- The two pointers of `extract_cpp_source` after a block: is it blank, tagged as C++, without a tag?
abbrev pub Bests : Type 0
Bests = Option CodeBlock × Option CodeBlock

abbrev pub note_block : Bool → Bool → Bool → CodeBlock → Bests → Bests
note_block true cpp empty b bests = bests
note_block false true empty b (cpp, untagged) = (longer cpp b, untagged)
note_block false false true b (cpp, untagged) = (cpp, longer untagged b)
note_block false false false b bests = bests

unfoldable pub pick : Bests → List CodeBlock → Bests
unfolding trim is_cpp_language
pick bests [] = bests
pick bests (b ∷ bs) =
    pick
      (note_block (is_empty (trim b.code)) (is_cpp_language b.language) (is_empty b.language) b
        bests)
      bs

unfoldable pub choose : Bytes → List CodeBlock → Bests → Option Bytes
unfolding looks_like_code trim
choose reply blocks (some b, untagged) = some b.code
choose reply blocks (none, some b) = some b.code
choose reply blocks (none, none) =
    if is_empty blocks && looks_like_code reply then some (trim reply ++ b'\n' ∷ []) else none

unfoldable pub extract_cpp_source : Bytes → Option Bytes
unfolding find_code_blocks pick choose
extract_cpp_source reply =
    let blocks = find_code_blocks reply in choose reply blocks (pick (none, none) blocks)
