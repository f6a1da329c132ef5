-- ===== src/Eval/Extract/Blocks.antt =====
-- src/eval/code_extract.cpp: a reply that is written as text lines and fenced blocks, and the blocks that
-- `find_code_blocks` reads from it.
use gemini_cpp.Base.{
  true, false, ◌==◌, List, [], ◌∷◌, ◌++◌, none, some, ◌≡◌, refl, sym, ap, ◌∙◌, append-nil,
  append_assoc, if◌then◌else◌, All, All-append, All-map,
}
use gemini_cpp.Base.Text.{Bytes, back_is, pop_back}
use gemini_cpp.Eval.Extract.{
  Fence, CodeBlock, parse_fence, fence_at, is_closing, split_lines, cons_head, Scan, scan_line,
  scan_lines, close_scan, nothing_open, find_code_blocks,
}

-- A line holds no newline, and no carriage return at its end.
abbrev pub IsUncut : Bytes → Type 0
IsUncut l = All (λ c. (c == b'\n') ≡ false) l × (back_is b'\r' l ≡ false)

-- A piece of a reply: a line of text, or a block with its opening line, its code and its closing line.
pub data Piece : Type 0 where
  prose : Bytes → Piece
  block : (opening : Bytes) → (fence : Fence) → (lines : List Bytes) → (closing : Bytes) → Piece

-- Text opens no block; the opening line is the fence's; no line of the code closes the block, and the
-- closing line does.
abbrev pub IsPiece : Piece → Type 0
IsPiece (prose l) = IsUncut l × (parse_fence l ≡ none)
IsPiece (block opening fence lines closing) =
    IsUncut opening
    × (parse_fence opening ≡ some fence)
    × All (λ l. IsUncut l × (is_closing l fence ≡ false)) lines
    × IsUncut closing
    × (is_closing closing fence ≡ true)

abbrev pub with_newline : Bytes → Bytes
with_newline l = l ++ b'\n' ∷ []

abbrev pub unlines : List Bytes → Bytes
unlines [] = []
unlines (l ∷ ls) = with_newline l ++ unlines ls

abbrev piece_lines : Piece → List Bytes
piece_lines (prose l) = l ∷ []
piece_lines (block opening fence lines closing) = opening ∷ (lines ++ closing ∷ [])

abbrev reply_lines : List Piece → List Bytes
reply_lines [] = []
reply_lines (p ∷ ps) = piece_lines p ++ reply_lines ps

unfoldable pub reply_of : List Piece → Bytes
reply_of ps = unlines (reply_lines ps)

unfoldable pub blocks_of : List Piece → List CodeBlock
blocks_of [] = []
blocks_of (prose l ∷ ps) = blocks_of ps
blocks_of (block opening fence lines closing ∷ ps) =
    record { language = fence.info; code = unlines lines; terminated = true } ∷ blocks_of ps

split_lines-line :
    (l rest : Bytes)
    → All (λ c. (c == b'\n') ≡ false) l
    → split_lines (with_newline l ++ rest) ≡ l ∷ split_lines rest
unfolding split_lines
split_lines-line [] rest h = refl
split_lines-line (c ∷ l) rest (e, h) = rw e (ap (cons_head c) (split_lines-line l rest h))

-- The state inside a block.
abbrev inside : Fence → CodeBlock → List CodeBlock → Scan
inside fence current blocks = record { open_block = some (fence, current); blocks = blocks }

abbrev with_code : CodeBlock → Bytes → CodeBlock
with_code b code = record b { code = code }

scan_lines-uncut :
    (s : Scan) (l : Bytes) (ls : List Bytes)
    → IsUncut l
    → scan_lines s (l ∷ ls) ≡ scan_lines (scan_line s l) ls
unfolding scan_lines
scan_lines-uncut s l ls h = ap (λ b. scan_lines (scan_line s (if b then pop_back l else l)) ls) h.1

scan_line-code :
    (l : Bytes) (fence : Fence) (current : CodeBlock) (blocks : List CodeBlock)
    → is_closing l fence ≡ false
    → scan_line (inside fence current blocks) l
      ≡ inside fence (with_code current (current.code ++ with_newline l)) blocks
unfolding scan_line
scan_line-code l fence current blocks h = rw h refl

scan_line-closing :
    (l : Bytes) (fence : Fence) (current : CodeBlock) (blocks : List CodeBlock)
    → is_closing l fence ≡ true
    → scan_line (inside fence current blocks) l ≡ nothing_open (blocks ++ current ∷ [])
unfolding scan_line
scan_line-closing l fence current blocks h = rw h refl

scan_line-opening :
    (l : Bytes) (fence : Fence) (blocks : List CodeBlock)
    → parse_fence l ≡ some fence
    → scan_line (nothing_open blocks) l
      ≡ inside fence (record { language = fence.info; code = []; terminated = true }) blocks
unfolding scan_line
scan_line-opening l fence blocks h = rw (h, scan_line) refl

scan_line-prose :
    (l : Bytes) (blocks : List CodeBlock)
    → parse_fence l ≡ none
    → scan_line (nothing_open blocks) l ≡ nothing_open blocks
unfolding scan_line
scan_line-prose l blocks h = rw (h, scan_line) refl

-- The lines of a block's code are added to it.
scan_lines-code :
    (lines rest : List Bytes) (fence : Fence) (current : CodeBlock) (blocks : List CodeBlock)
    → All (λ l. IsUncut l × (is_closing l fence ≡ false)) lines
    → scan_lines (inside fence current blocks) (lines ++ rest)
      ≡ scan_lines (inside fence (with_code current (current.code ++ unlines lines)) blocks) rest
scan_lines-code [] rest fence current blocks h =
    ap (λ c. scan_lines (inside fence (with_code current c) blocks) rest)
      (sym (append-nil current.code))
scan_lines-code (l ∷ lines) rest fence current blocks ((u, n), h) =
    scan_lines-uncut (inside fence current blocks) l (lines ++ rest) u
    ∙ ap (λ s. scan_lines s (lines ++ rest)) (scan_line-code l fence current blocks n)
    ∙ scan_lines-code lines rest fence (with_code current (current.code ++ with_newline l)) blocks h
    ∙ ap (λ c. scan_lines (inside fence (with_code current c) blocks) rest)
        (append_assoc current.code (with_newline l) (unlines lines))

scan_lines-piece :
    (p : Piece) (rest : List Bytes) (blocks : List CodeBlock)
    → IsPiece p
    → scan_lines (nothing_open blocks) (piece_lines p ++ rest)
      ≡ scan_lines (nothing_open (blocks ++ blocks_of (p ∷ []))) rest
unfolding blocks_of
scan_lines-piece (prose l) rest blocks (u, n) =
    scan_lines-uncut (nothing_open blocks) l rest u
    ∙ ap (λ s. scan_lines s rest) (scan_line-prose l blocks n)
    ∙ ap (λ bs. scan_lines (nothing_open bs) rest) (sym (append-nil blocks))
scan_lines-piece (block opening fence lines closing) rest blocks (u, o, h, v, c) =
    ap (λ ls. scan_lines (nothing_open blocks) (opening ∷ ls))
      (append_assoc lines (closing ∷ []) rest)
    ∙ scan_lines-uncut (nothing_open blocks) opening (lines ++ closing ∷ rest) u
    ∙ ap (λ s. scan_lines s (lines ++ closing ∷ rest)) (scan_line-opening opening fence blocks o)
    ∙ scan_lines-code lines (closing ∷ rest) fence _ blocks h
    ∙ scan_lines-uncut _ closing rest v
    ∙ ap (λ s. scan_lines s rest) (scan_line-closing closing fence _ blocks c)

blocks_of-cons :
    (p : Piece) (ps : List Piece) → blocks_of (p ∷ []) ++ blocks_of ps ≡ blocks_of (p ∷ ps)
unfolding blocks_of
blocks_of-cons (prose l) ps = refl
blocks_of-cons (block opening fence lines closing) ps = refl

scan_lines-reply :
    (ps : List Piece) (rest : List Bytes) (blocks : List CodeBlock)
    → All IsPiece ps
    → scan_lines (nothing_open blocks) (reply_lines ps ++ rest)
      ≡ scan_lines (nothing_open (blocks ++ blocks_of ps)) rest
unfolding blocks_of
scan_lines-reply [] rest blocks h =
    ap (λ bs. scan_lines (nothing_open bs) rest) (sym (append-nil blocks))
scan_lines-reply (p ∷ ps) rest blocks (h, hs) =
    ap (scan_lines (nothing_open blocks)) (append_assoc (piece_lines p) (reply_lines ps) rest)
    ∙ scan_lines-piece p (reply_lines ps ++ rest) blocks h
    ∙ scan_lines-reply ps rest (blocks ++ blocks_of (p ∷ [])) hs
    ∙ ap (λ bs. scan_lines (nothing_open bs) rest)
        (append_assoc blocks (blocks_of (p ∷ [])) (blocks_of ps)
          ∙ ap (λ bs. blocks ++ bs) (blocks_of-cons p ps))

split_lines-unlines : (ls : List Bytes) → All IsUncut ls → split_lines (unlines ls) ≡ ls ++ [] ∷ []
unfolding split_lines
split_lines-unlines [] h = refl
split_lines-unlines (l ∷ ls) (u, h) =
    split_lines-line l (unlines ls) u.0 ∙ ap (◌∷◌ l) (split_lines-unlines ls h)

reply_lines-IsUncut : (ps : List Piece) → All IsPiece ps → All IsUncut (reply_lines ps)
reply_lines-IsUncut [] h = tt
reply_lines-IsUncut (prose l ∷ ps) ((u, n), h) = (u, reply_lines-IsUncut ps h)
reply_lines-IsUncut (block opening fence lines closing ∷ ps) ((u, o, k, v, c), h) = (
  u,
  All-append IsUncut (lines ++ closing ∷ []) (reply_lines ps)
      (All-append IsUncut lines (closing ∷ []) (All-map _ IsUncut lines (λ l x. x.0) k) (v, tt))
      (reply_lines-IsUncut ps h),
)

-- From a reply that is written as lines of text and closed blocks, `find_code_blocks` reads exactly these
-- blocks, in order, with the fence's language and the code line for line.
pub find_code_blocks-reply_of :
    (ps : List Piece) → All IsPiece ps → find_code_blocks (reply_of ps) ≡ blocks_of ps
unfolding find_code_blocks reply_of scan_lines scan_line close_scan parse_fence fence_at
find_code_blocks-reply_of ps h =
    ap (λ ls. close_scan (scan_lines (nothing_open []) ls))
      (split_lines-unlines (reply_lines ps) (reply_lines-IsUncut ps h))
    ∙ ap close_scan (scan_lines-reply ps ([] ∷ []) [] h)
