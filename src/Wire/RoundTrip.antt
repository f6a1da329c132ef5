-- ===== src/Wire/RoundTrip.antt =====
-- Messages survive the wire: what src/serialization.cpp prints, it parses back.
use gemini_cpp.Base.{
  Bool, true, false, List, [], ◌∷◌, ◌++◌, is_empty, if◌then◌else◌, ◌≡◌, refl, sym, ap, ◌∙◌, subst,
  All, append_assoc, append-nil,
}
use gemini_cpp.Base.Text.{Bytes, codes, equal}
use gemini_cpp.Error.{ok}
use gemini_cpp.Json.{JsonLib, JsonLaws}
use gemini_cpp.Types.{Role, user, model, PartValue, text, call, response, Part, Content, role_name}
use gemini_cpp.Wire.{bool_or, parse_part, parse_parts, parse_content}
use gemini_cpp.Wire.Print.{part_to_json, parts_to_json, content_to_json}

module _ {D : Type 0} (L : JsonLib D) (laws : JsonLaws L) where
  open L use {Json, object, string}

  -- The thought flag is written for text only, and a call needs a name.
  abbrev pub IsPrintable : PartValue Json → Bool → Type 0
  IsPrintable (text s) thought = Unit
  IsPrintable (call c) thought = (is_empty c.name ≡ false) × (thought ≡ false)
  IsPrintable (response r) thought = thought ≡ false

  abbrev part : PartValue Json → Bool → Bytes → Part Json
  part v t g = record { value = v; thought = t; thought_signature = g }

  abbrev Survives : PartValue Json → Bool → Bytes → Type 0
  Survives v t g = parse_part L (part_to_json L (part v t g)) ≡ ok (part v t g)

  text-Survives : (s : Bytes) (t : Bool) (g : Bytes) → Survives (text s) t g
  unfolding parse_part part_to_json equal
  text-Survives s true [] = simp (
    bool_or, laws.find-object, laws.as_string-string, laws.is_object-object, laws.get_bool-boolean,
  )
  text-Survives s false [] =
      simp (bool_or, laws.find-object, laws.as_string-string, laws.is_object-object)
  text-Survives s true (x ∷ g) = simp (
    bool_or, laws.find-object, laws.as_string-string, laws.is_object-object, laws.get_bool-boolean,
  )
  text-Survives s false (x ∷ g) =
      simp (bool_or, laws.find-object, laws.as_string-string, laws.is_object-object)

  call-Survives :
      (n : Bytes) (a : Json) (i g : Bytes)
      → is_empty n ≡ false
      → Survives (call (record { name = n; args = a; id = i })) false g
  unfolding parse_part part_to_json equal
  call-Survives [] a i g h = cc
  call-Survives (x ∷ n) a [] [] h =
      simp (laws.find-object, laws.as_string-string, laws.is_object-object)
  call-Survives (x ∷ n) a [] (y ∷ g) h =
      simp (laws.find-object, laws.as_string-string, laws.is_object-object)
  call-Survives (x ∷ n) a (z ∷ i) [] h =
      simp (laws.find-object, laws.as_string-string, laws.is_object-object)
  call-Survives (x ∷ n) a (z ∷ i) (y ∷ g) h =
      simp (laws.find-object, laws.as_string-string, laws.is_object-object)

  response-Survives :
      (n : Bytes) (a : Json) (i g : Bytes)
      → Survives (response (record { name = n; response = a; id = i })) false g
  unfolding parse_part part_to_json equal
  response-Survives n a [] [] =
      simp (laws.find-object, laws.as_string-string, laws.is_object-object)
  response-Survives n a [] (y ∷ g) =
      simp (laws.find-object, laws.as_string-string, laws.is_object-object)
  response-Survives n a (z ∷ i) [] =
      simp (laws.find-object, laws.as_string-string, laws.is_object-object)
  response-Survives n a (z ∷ i) (y ∷ g) =
      simp (laws.find-object, laws.as_string-string, laws.is_object-object)

  parse-part_to_json :
      (v : PartValue Json) (t : Bool) (g : Bytes) → IsPrintable v t → Survives v t g
  parse-part_to_json (text s) t g h = text-Survives s t g
  parse-part_to_json (call c) t g h =
      subst (λ t. Survives (call c) t g) (sym h.1) (call-Survives c.name c.args c.id g h.0)
  parse-part_to_json (response r) t g h =
      subst (λ t. Survives (response r) t g) (sym h) (response-Survives r.name r.response r.id g)

  abbrev pub IsPrintablePart : Part Json → Type 0
  IsPrintablePart p = IsPrintable p.value p.thought

  parse_parts-print :
      (ps done : List (Part Json))
      → All IsPrintablePart ps
      → parse_parts L (parts_to_json L ps) done ≡ ok (done ++ ps)
  unfolding parse_parts parts_to_json
  parse_parts-print [] done h = rw append-nil
  parse_parts-print (p ∷ ps) done h =
      rw (parse-part_to_json p.value p.thought p.thought_signature h.0, parse_parts)
        (parse_parts-print ps (done ++ p ∷ []) h.1 ∙ rw append_assoc)

  read_role : (r : Role) → (if equal (role_name r) (codes "user") then user else model) ≡ r
  unfolding equal
  read_role user = refl
  read_role model = refl

  -- A message whose calls have names, and whose only thoughts are texts, is read back as it was
  -- sent: role, parts, ids and thought signatures.
  pub parse_content-content_to_json :
      (c : Content Json)
      → All IsPrintablePart c.parts
      → parse_content L (content_to_json L c) ≡ ok c
  unfolding parse_content content_to_json equal
  parse_content-content_to_json c h =
      simp
        (
          laws.find-object,
          laws.as_string-string,
          laws.is_object-object,
          laws.as_array-array,
          parse_parts-print c.parts [] h,
        )
        (ap (λ r. ok (record { role = r; parts = c.parts })) (read_role c.role))
