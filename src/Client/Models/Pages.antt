-- ===== src/Client/Models/Pages.antt =====
-- src/client.cpp: which pages `list_models` asks for, and what it makes of them.
use mathlib.Core.Path.{fun_ext}
use gemini_cpp.Base.{
  ℕ, zero, suc, ◌≤◌, arith, true, false, List, [], ◌∷◌, ◌++◌, some, is_empty, if◌then◌else◌, ◌≡◌,
  refl, ap, ◌∙◌, append_assoc, append-nil, not, ◌&&◌, Bool-cases, inl, inr,
}
use gemini_cpp.Base.Int.{pos, ltb_ℤ}
use gemini_cpp.Base.Text.{Bytes, codes}
use gemini_cpp.Error.{Result, ok, err, throws, ◌>>=◌, Error}
use gemini_cpp.Json.{FloatLib, JsonLib}
use gemini_cpp.Wire.{ModelInfo, parse_model_list}
use gemini_cpp.Wire.ApiError.{parse_api_error}
use gemini_cpp.Client.Attempts.{Runs, with_retry-Runs, Runs-unique}
use gemini_cpp.Client.{
  HttpRequest, HttpResponse, Host, ClientOptions, Env, count_request, count_failure, with_retry,
}
use gemini_cpp.Client.Calls.{check_http, make_request, unary_attempt}
use gemini_cpp.Client.Models.{page_url, get_page, after_page, list_pages, list_models, Listing}

-- What was collected before a result.
abbrev pub prepend : List ModelInfo → Result (List ModelInfo) → Result (List ModelInfo)
prepend all (ok models) = ok (all ++ models)
prepend all (err e) = err e
prepend all (throws w) = throws w

module _ (F : FloatLib) (L : JsonLib F.Double) (H : Host F) (o : ClientOptions F.Double) where
  open L use {Json}

  -- The request for a page, written out: the token of the page before it stands in the URL.
  abbrev pub address : Bytes → Bytes
  address [] = o.base_url ++ codes "/models?pageSize=100"
  address (c ∷ token) = o.base_url ++ (codes "/models?pageSize=100&pageToken=" ++ c ∷ token)

  abbrev pub wanted : Bytes → HttpRequest
  wanted token = record {
    method = codes "GET";
    url = address token;
    headers =
        (codes "Content-Type", codes "application/json") ∷ (codes "x-goog-api-key", o.api_key) ∷ [];
    body = [];
    timeout = o.timeout;
  }

  -- A page is read from a response of success.
  abbrev pub page_in : Result HttpResponse → Result (List ModelInfo × Bytes)
  page_in (ok r) =
      if not (ltb_ℤ r.status (pos 200)) && ltb_ℤ r.status (pos 300)
      then parse_model_list L r.body
      else err (parse_api_error F L r.status r.body r.headers)
  page_in (err e) = err e
  page_in (throws w) = throws w

  abbrev pub fetch : Bytes → Env H.World Json → Result (List ModelInfo × Bytes) × Env H.World Json
  fetch token s =
      let (reply, w) = H.send (wanted token) s.world in (page_in reply, record s { world = w })

  -- The attempts at the page of a token end so.
  abbrev pub Fetched :
      Bytes → Env H.World Json → Result (List ModelInfo × Bytes) × Env H.World Json → Type 0
  Fetched token s out = Runs F H o (fetch token) (λ _. true) out 0 s

  page_url-address : (token : Bytes) → page_url F L H o token ≡ address token
  unfolding page_url
  page_url-address [] = append-nil (o.base_url ++ codes "/models?pageSize=100")
  page_url-address (c ∷ token) =
      append_assoc o.base_url (codes "/models?pageSize=100") (codes "&pageToken=" ++ c ∷ token)

  page_in_lem :
      (r : Result HttpResponse) → (do a ← check_http F L r; parse_model_list L a.body) ≡ page_in r
  unfolding check_http
  page_in_lem (ok r) = elim (Bool-cases (ltb_ℤ r.status (pos 200))) [
    | inl e ↦ rw e refl
    | inr e ↦ elim (Bool-cases (ltb_ℤ r.status (pos 300))) [
      | inl f ↦ rw (e, f) refl
      | inr f ↦ rw (e, f) refl
    ]
  ]
  page_in_lem (err e) = refl
  page_in_lem (throws w) = refl

  get_page-Fetched :
      (token : Bytes) (s : Env H.World Json)
      (out : Result (List ModelInfo × Bytes) × Env H.World Json)
      → Fetched token s out
      → get_page F L H o token s ≡ out
  unfolding get_page unary_attempt make_request
  get_page-Fetched token s out h =
      let same : (t : Env H.World Json)
          → unary_attempt F L H o
              (record (make_request F L H o (page_url F L H o token) []) { method = codes "GET" })
              (parse_model_list L) t
            ≡ fetch token t =
        λ t. rw (page_url-address token) (
          ap (λ r. (r, record t { world = (H.send (wanted token) t.world).1 }))
            (page_in_lem (H.send (wanted token) t.world).0)) in
      ap
        (λ (a : Env H.World Json → Result (List ModelInfo × Bytes) × Env H.World Json).
          with_retry F H o a (λ _. true) s)
        (fun_ext same)
      ∙ Runs-unique F H o (fetch token) (λ _. true)
          (with_retry-Runs F H o (fetch token) (λ _. true) s) h

  -- The listing without a loop or fuel: `n` pages are fetched from the state `s` and the token, each with
  -- the token that stood in the page before it, and they end with the result and the state.
  pub data Lists : ℕ → Env H.World Json → Bytes → Listing F L H o → Type 0 where
    last_page :
        (s t : Env H.World Json) (token : Bytes) (models : List ModelInfo)
        → Fetched token s (ok (models, []), t)
        → Lists (suc zero) s token (ok models, t)
    failed_page :
        (s t : Env H.World Json) (token : Bytes) (e : Error)
        → Fetched token s (err e, t)
        → Lists (suc zero) s token (err e, count_failure t)
    thrown_page :
        (s t : Env H.World Json) (token w : Bytes)
        → Fetched token s (throws w, t)
        → Lists (suc zero) s token (throws w, t)
    next_page :
        (n : ℕ) (s t u : Env H.World Json) (token : Bytes) (models : List ModelInfo) (c : ℕ)
        (next : Bytes) (r : Result (List ModelInfo))
        → Fetched token s (ok (models, c ∷ next), t)
        → Lists n t (c ∷ next) (r, u)
        → Lists (suc n) s token (prepend models r, u)

  prepend_twice :
      (all models : List ModelInfo) (r : Result (List ModelInfo))
      → prepend (all ++ models) r ≡ prepend all (prepend models r)
  prepend_twice all models (ok ms) = ap ok (append_assoc all models ms)
  prepend_twice all models (err e) = refl
  prepend_twice all models (throws w) = refl

  list_pages-Lists :
      (n : ℕ) (s : Env H.World Json) (token : Bytes) (out : Listing F L H o) (all : List ModelInfo)
      (fuel : ℕ)
      → Lists n s token out
      → n ≤ fuel
      → list_pages F L H o fuel token all s ≡ some (prepend all out.0, out.1)
  unfolding list_pages after_page
  list_pages-Lists _ _ _ _ all zero (last_page s t token models e) le = absurd (omega arith)
  list_pages-Lists _ _ _ _ all zero (failed_page s t token er e) le = absurd (omega arith)
  list_pages-Lists _ _ _ _ all zero (thrown_page s t token w e) le = absurd (omega arith)
  list_pages-Lists _ _ _ _ all zero (next_page m s t u token models c next r e l) le =
      absurd (omega arith)
  list_pages-Lists _ _ _ _ all (suc fuel) (last_page s t token models e) le =
      rw (get_page-Fetched token s _ e, list_pages) refl
  list_pages-Lists _ _ _ _ all (suc fuel) (failed_page s t token er e) le =
      rw (get_page-Fetched token s _ e, list_pages) refl
  list_pages-Lists _ _ _ _ all (suc fuel) (thrown_page s t token w e) le =
      rw (get_page-Fetched token s _ e, list_pages) refl
  list_pages-Lists _ _ _ _ all (suc fuel) (next_page m s t u token models c next r e l) le =
      rw (get_page-Fetched token s _ e, list_pages)
        (list_pages-Lists m t (c ∷ next) (r, u) (all ++ models) fuel l (omega arith)
          ∙ ap (λ x. some (x, u)) (prepend_twice all models r))

  prepend_nothing : (r : Result (List ModelInfo)) → prepend [] r ≡ r
  prepend_nothing (ok ms) = refl
  prepend_nothing (err e) = refl
  prepend_nothing (throws w) = refl

  -- `list_models` with a key, and with at least as many pages of fuel as the server has: the result is
  -- the models of all pages in order, or the first error, which counts as a failure. A page is what the
  -- attempts at a GET of `<base_url>/models?pageSize=100` come to, with `&pageToken=` and the token that
  -- stood in the page before it, if there is one.
  pub list_models-Lists :
      (n fuel : ℕ) (s : Env H.World Json) (out : Listing F L H o)
      → is_empty o.api_key ≡ false
      → Lists n (count_request s) [] out
      → n ≤ fuel
      → list_models F L H o fuel s ≡ some out
  unfolding list_models
  list_models-Lists n fuel s out k l le = rw k (
      list_pages-Lists n (count_request s) [] out [] fuel l le
      ∙ ap (λ x. some (x, out.1)) (prepend_nothing out.0))
