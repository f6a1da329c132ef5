-- ===== src/Transport/HeaderLine.antt =====
-- `on_header` of src/curl_transport.cpp: a header line that is written out is read back.
use gemini_cpp.Base.{
  ℕ, Bool, true, false, not, ◌||◌, ◌==◌, [], ◌∷◌, ◌++◌, Option, none, some, is_empty, if◌then◌else◌,
  map, ◌≡◌, refl, ap, arith, Bool-cases, inl, inr, ◌∙◌,
}
use gemini_cpp.Base.Text.{Bytes, codes, equal, equal_iff, starts_with}
use gemini_cpp.Wire.ApiError.{Headers}
use gemini_cpp.Client.{HttpResponse}
use gemini_cpp.Transport.{set_header, to_lower, trim_left, trim_right, split_name, on_header}

-- `find` in the map of headers.
abbrev pub lookup : Bytes → Headers → Option Bytes
lookup k [] = none
lookup k ((j, v) ∷ rest) = if equal j k then some v else lookup k rest

lookup-set_header :
    (k name value : Bytes) (h : Headers)
    → lookup k (set_header name value h) ≡ (if equal name k then some value else lookup k h)
unfolding set_header
lookup-set_header k name value [] = refl
lookup-set_header k name value ((j, v) ∷ h) =
    ground
      (arith, equal_iff j name, equal_iff name k, equal_iff j k, lookup-set_header k name value h)

-- No colon in it.
abbrev pub IsName : Bytes → Type 0
IsName [] = Unit
IsName (c ∷ s) = ((c == b':') ≡ false) × IsName s

split_name-append :
    (name value : Bytes) → IsName name → split_name (name ++ b':' ∷ value) ≡ some (name, value)
unfolding split_name
split_name-append [] value h = refl
split_name-append (c ∷ name) value h = rw (h.0, split_name-append name value h.1) refl

abbrev is_blank : ℕ → Bool
is_blank c = c == b' ' || c == 9

abbrev is_tail : ℕ → Bool
is_tail c = c == 13 || c == 10 || c == b' '

-- A value has no blank at its front, and neither a space nor a line end at its back.
abbrev pub front_ok : Bytes → Bool
front_ok [] = true
front_ok (c ∷ s) = not (c == b' ' || c == 9)

abbrev pub back_ok : Bytes → Bool
back_ok [] = true
back_ok (c ∷ []) = not (c == 13 || c == 10 || c == b' ')
back_ok (c ∷ d ∷ s) = back_ok (d ∷ s)

abbrev pub Blanks : Bytes → Type 0
Blanks [] = Unit
Blanks (c ∷ s) = ((c == b' ' || c == 9) ≡ true) × Blanks s

trim_left-Blanks : (blanks s : Bytes) → Blanks blanks → trim_left (blanks ++ s) ≡ trim_left s
trim_left-Blanks [] s h = refl
trim_left-Blanks (c ∷ blanks) s h = rw h.0 (trim_left-Blanks blanks s h.1)

trim_front_whole : (s : Bytes) → front_ok s ≡ true → trim_left s ≡ s
trim_front_whole [] h = refl
trim_front_whole (c ∷ s) h = ground arith

abbrev pub Ends : Bytes → Type 0
Ends [] = Unit
Ends (c ∷ s) = ((c == 13 || c == 10 || c == b' ') ≡ true) × Ends s

trim_back_all : (s : Bytes) → Ends s → trim_right s ≡ []
trim_back_all [] h = refl
trim_back_all (c ∷ s) h = rw (trim_back_all s h.1, h.0) refl

trim_right-Ends : (s ends : Bytes) → back_ok s ≡ true → Ends ends → trim_right (s ++ ends) ≡ s
trim_right-Ends [] ends h e = trim_back_all ends e
trim_right-Ends (c ∷ []) ends h e = rw (trim_back_all ends e) (ground arith)
trim_right-Ends (c ∷ d ∷ s) ends h e = rw (trim_right-Ends (d ∷ s) ends h e) refl

-- The front of a value that is followed by line ends, or of no value.
front-append :
    (s ends : Bytes) → front_ok s ≡ true → is_empty s ≡ false → trim_left (s ++ ends) ≡ s ++ ends
front-append [] ends h k = absurd (ground arith)
front-append (c ∷ s) ends h k = ground arith

trim_left-Ends : (ends : Bytes) → Ends ends → Ends (trim_left ends)
trim_left-Ends [] e = tt
trim_left-Ends (c ∷ ends) e = elim (Bool-cases (c == b' ' || c == 9)) [
  | inl blank ↦ rw blank (trim_left-Ends ends e.1)
  | inr other ↦ rw other e
]

trim_lem :
    (value ends : Bytes)
    → front_ok value ≡ true
    → back_ok value ≡ true
    → Ends ends
    → trim_right (trim_left (value ++ ends)) ≡ value
trim_lem [] ends f b e = trim_back_all (trim_left ends) (trim_left-Ends ends e)
trim_lem (c ∷ value) ends f b e =
    ap trim_right (front-append (c ∷ value) ends f refl) ∙ trim_right-Ends (c ∷ value) ends b e

abbrev pub header_line : Bytes → Bytes → Bytes → Bytes → Bytes
header_line name blanks value ends = name ++ b':' ∷ (blanks ++ (value ++ ends))

-- A header line is stored under its name in lower case, and without the blanks around its value;
-- every other header stays as it was. The name has no colon and the line does not begin like a status
-- line, and
-- the value neither begins with a blank nor ends with a space or a line end.
pub on_header-line :
    (name blanks value ends k : Bytes) (r : HttpResponse)
    → IsName name
    → starts_with (header_line name blanks value ends) (codes "HTTP/") ≡ false
    → Blanks blanks
    → front_ok value ≡ true
    → back_ok value ≡ true
    → Ends ends
    → lookup k (on_header (header_line name blanks value ends) r).headers
      ≡ (if equal (map to_lower name) k then some value else lookup k r.headers)
unfolding on_header
on_header-line name blanks value ends k r n s b f e t =
    rw
      (
        s,
        split_name-append name (blanks ++ (value ++ ends)) n,
        trim_left-Blanks blanks (value ++ ends) b,
        trim_lem value ends f e t,
      )
      (lookup-set_header k (map to_lower name) value r.headers)
