-- ===== src/Wire/Parts.antt =====
-- `parse_part` and `parse_content` of src/serialization.cpp on parts that the library does not know or
-- that are malformed.
use gemini_cpp.Base.{
  ℕ, Bool, true, false, List, [], ◌∷◌, ◌++◌, Option, none, some, ◌≡◌, refl, sym, ◌∙◌, ap, arith,
  append_assoc, append-nil, or_value, Option-cases, Bool-cases, inl, inr,
}
use gemini_cpp.Base.Text.{Bytes, codes, equal}
use gemini_cpp.Error.{Result, ok, err, throws, ◌>>=◌, make_error, parse}
use gemini_cpp.Json.{JsonLib}
use gemini_cpp.Types.{Part, text, call, response}
use gemini_cpp.Wire.{
  unsupported, string_at, object_at, string_or, bool_or, parse_call, parse_response, parse_kind,
  parse_part, parse_parts, keep_part,
}

module _ {D : Type 0} (L : JsonLib D) where
  open L use {Json, find, get_bool, is_object}

  abbrev signature_of : Json → Bytes
  signature_of j = string_or L j (codes "thoughtSignature") []

  -- What a well-formed part of a known kind holds: a text with the flag of a thought, a call with a name,
  -- or a response to a call.
  pub data IsPart (j : Json) : Part Json → Type 0 where
    text_part :
        {s : Bytes} {thought : Bool}
        → string_at L j (codes "text") ≡ some s
        → bool_or L j (codes "thought") false ≡ ok thought
        → IsPart j
            (record { value = text s; thought = thought; thought_signature = signature_of j })
    call_part :
        {f : Json} {c : ℕ} {name : Bytes}
        → string_at L j (codes "text") ≡ none
        → object_at L j (codes "functionCall") ≡ some f
        → string_at L f (codes "name") ≡ some (c ∷ name)
        → IsPart j (record {
          value = call (record {
            name = c ∷ name;
            args = or_value (find f (codes "args")) (L.object []);
            id = string_or L f (codes "id") [];
          });
          thought = false;
          thought_signature = signature_of j;
        })
    response_part :
        {r : Json}
        → string_at L j (codes "text") ≡ none
        → object_at L j (codes "functionCall") ≡ none
        → object_at L j (codes "functionResponse") ≡ some r
        → IsPart j (record {
          value = response (record {
            name = string_or L r (codes "name") [];
            response = or_value (find r (codes "response")) (L.object []);
            id = string_or L r (codes "id") [];
          });
          thought = false;
          thought_signature = signature_of j;
        })

  -- No text, no call and no response.
  abbrev IsUnknown : Json → Type 0
  IsUnknown j =
      (string_at L j (codes "text") ≡ none)
      × (object_at L j (codes "functionCall") ≡ none)
      × (object_at L j (codes "functionResponse") ≡ none)

  -- A part that is no object, and a call without a name, with the message of its error.
  pub data IsMalformed (j : Json) : Bytes → Type 0 where
    no_object : is_object j ≡ false → IsMalformed j (codes "part is not an object")
    no_name :
        {f : Json}
        → is_object j ≡ true
        → string_at L j (codes "text") ≡ none
        → object_at L j (codes "functionCall") ≡ some f
        → or_value (string_at L f (codes "name")) [] ≡ []
        → IsMalformed j (codes "functionCall without name")

  -- The parts that are to be kept of a list of JSON values.
  pub data Reads : List Json → List (Part Json) → Type 0 where
    done : Reads [] []
    keep :
        {j : Json} {p : Part Json} {js : List Json} {ps : List (Part Json)}
        → is_object j ≡ true
        → IsPart j p
        → Reads js ps
        → Reads (j ∷ js) (p ∷ ps)
    skip :
        {j : Json} {js : List Json} {ps : List (Part Json)}
        → is_object j ≡ true
        → IsUnknown j
        → Reads js ps
        → Reads (j ∷ js) ps

  parse_part-IsPart :
      {j : Json} {p : Part Json} → is_object j ≡ true → IsPart j p → parse_part L j ≡ ok p
  unfolding parse_part
  parse_part-IsPart o (text_part s t) = rw (o, s, parse_kind) (rw t refl)
  parse_part-IsPart o (call_part s f n) =
      rw (o, s, f, parse_kind, parse_call) (rw (string_or, n) refl)
  parse_part-IsPart o (response_part s f r) = rw (o, s, f, r, parse_kind, parse_response) refl

  parse_part-IsUnknown :
      {j : Json}
      → is_object j ≡ true
      → IsUnknown j
      → parse_part L j ≡ err (make_error parse unsupported)
  unfolding parse_part
  parse_part-IsUnknown o (s, f, r) = rw (o, s, f, r, parse_kind) refl

  parse_part-IsMalformed :
      {j : Json} {m : Bytes} → IsMalformed j m → parse_part L j ≡ err (make_error parse m)
  unfolding parse_part
  parse_part-IsMalformed (no_object o) = rw o refl
  parse_part-IsMalformed (no_name o s f n) =
      rw (o, s, f, parse_kind, parse_call) (rw (string_or, n) refl)

  malformed-known : {j : Json} {m : Bytes} → IsMalformed j m → equal m unsupported ≡ false
  unfolding equal
  malformed-known (no_object o) = refl
  malformed-known (no_name o s f n) = refl

  parse_parts-Reads :
      {js : List Json} {ps : List (Part Json)} (before : List (Part Json)) (rest : List Json)
      → Reads js ps
      → parse_parts L (js ++ rest) before ≡ parse_parts L rest (before ++ ps)
  unfolding parse_parts keep_part equal
  parse_parts-Reads before rest done = rw append-nil
  parse_parts-Reads before rest (keep {p} {ps} o k r) =
      rw (parse_part-IsPart o k, parse_parts)
        (parse_parts-Reads (before ++ p ∷ []) rest r ∙ rw append_assoc)
  parse_parts-Reads before rest (skip o u r) =
      rw (parse_part-IsUnknown o u, parse_parts) (parse_parts-Reads before rest r)

  -- Of a list of parts, objects without a text, a call and a response are skipped, and the texts, the named
  -- calls and the responses are kept in order, with what they hold. If such a list is followed by a part
  -- that is no object or a call without a name, then the whole list is an error with its message.
  pub parse_parts_lem :
      {js : List Json} {ps : List (Part Json)} {m : Bytes} (bad : Json) (rest : List Json)
      → Reads js ps
      → IsMalformed bad m
      → (parse_parts L js [] ≡ ok ps)
        × (parse_parts L (js ++ bad ∷ rest) [] ≡ err (make_error parse m))
  unfolding parse_parts keep_part
  parse_parts_lem {js} bad rest r b = (
    ap (λ t. parse_parts L t []) (sym (append-nil js)) ∙ parse_parts-Reads [] [] r,
    parse_parts-Reads [] (bad ∷ rest) r
        ∙ rw (parse_part-IsMalformed b, parse_parts) (rw (malformed-known b, parse_parts)),
  )

  abbrev FromThought : Json → Bytes → Type 0
  FromThought j w = (v : Json) × (find j (codes "thought") ≡ some v) × (get_bool v ≡ throws w)

  bool_or-throws :
      (j : Json) (f : Bool → Part Json) {w : Bytes}
      → (do b ← bool_or L j (codes "thought") false; ok (f b)) ≡ throws w
      → FromThought j w
  bool_or-throws j f h = elim (Option-cases (find j (codes "thought"))) [
    | inl e ↦ absurd (cc (rw (e, bool_or) at h))
    | inr (v, e) ↦ (v, e, only (get_bool v) (rw (e, bool_or) at h))
  ]
    where
      only : (r : Result Bool) {w : Bytes} → (do b ← r; ok (f b)) ≡ throws w → r ≡ throws w
      only (ok b) h = cc
      only (err e) h = cc
      only (throws x) h = cc

  parse_kind-throws :
      (j : Json) (g : Bytes) (s : Option Bytes) (f r : Option Json) {w : Bytes}
      → parse_kind L j g s f r ≡ throws w
      → FromThought j w
  unfolding parse_kind
  parse_kind-throws j g (some s) f r h = bool_or-throws j _ h
  parse_kind-throws j g none (some f) r h = absurd (ground arith)
  parse_kind-throws j g none none (some r) h = cc
  parse_kind-throws j g none none none h = cc

  -- The only exception of `parse_part` is the one of `get<bool>` on the member "thought".
  pub parse_part-throws :
      (j : Json) {w : Bytes}
      → parse_part L j ≡ throws w
      → (v : Json) × (find j (codes "thought") ≡ some v) × (get_bool v ≡ throws w)
  unfolding parse_part
  parse_part-throws j h = elim (Bool-cases (L.is_object j)) [
    | inl e ↦ parse_kind-throws j _ _ _ _ (rw e at h)
    | inr e ↦ absurd (cc (rw e at h))
  ]
