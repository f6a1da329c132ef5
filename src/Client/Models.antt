-- ===== src/Client/Models.antt =====
-- src/client.cpp: `list_models`, which asks for pages until one names no next page, and `generate` of a
-- prompt. A server may name a next page for ever, so the loop has fuel: the greatest number of pages.
pub mod Pages
use mathlib.Core.Path.{fun_ext}
use gemini_cpp.Base.{
  ℕ, zero, suc, ◌≤◌, arith, true, false, List, [], ◌∷◌, ◌++◌, Option, none, some, is_empty,
  if◌then◌else◌, ◌≡◌, refl, ap, ◌∙◌, append_assoc, append-nil, not, ◌&&◌, Bool-cases, inl, inr,
}
use gemini_cpp.Base.Int.{pos, ltb_ℤ}
use gemini_cpp.Base.Text.{Bytes, codes}
use gemini_cpp.Error.{Result, ok, err, throws, ◌>>=◌, Error, make_error, config}
use gemini_cpp.Json.{FloatLib, JsonLib}
use gemini_cpp.Types.{GenerateResponse, GenerationConfig, user_content}
use gemini_cpp.Wire.{ModelInfo, parse_model_list}
use gemini_cpp.Wire.ApiError.{parse_api_error}
use gemini_cpp.Client.Attempts.{Runs, with_retry-Runs, Runs-unique}
use gemini_cpp.Client.{
  HttpRequest, HttpResponse, Host, ClientOptions, Env, count_request, count_failure, with_retry,
}
use gemini_cpp.Client.Calls.{check_http, make_request, unary_attempt, generate}

module _ (F : FloatLib) (L : JsonLib F.Double) (H : Host F) (o : ClientOptions F.Double) where
  open L use {Json}

  -- The URL of a page; the token of the first page is empty.
  unfoldable pub page_url : Bytes → Bytes
  page_url token =
      (o.base_url ++ codes "/models?pageSize=100")
      ++ (if is_empty token then [] else codes "&pageToken=" ++ token)

  -- One page, with its retries: the models and the next page's token.
  unfoldable pub get_page :
      Bytes → Env H.World Json → Result (List ModelInfo × Bytes) × Env H.World Json
  unfolding page_url make_request unary_attempt
  get_page token s =
      with_retry F H o
        (unary_attempt F L H o
          (record (make_request F L H o (page_url token) []) { method = codes "GET" })
          (parse_model_list L))
        (λ _. true) s

  abbrev pub Listing : Type 0
  Listing = Result (List ModelInfo) × Env H.World Json

  -- The body of the loop, after the page was read.
  unfoldable pub after_page :
      (Bytes → List ModelInfo → Env H.World Json → Option Listing)
      → List ModelInfo
      → Result (List ModelInfo × Bytes) × Env H.World Json
      → Option Listing
  after_page again all (ok (models, []), s) = some (ok (all ++ models), s)
  after_page again all (ok (models, c ∷ token), s) = again (c ∷ token) (all ++ models) s
  after_page again all (err e, s) = some (err e, count_failure s)
  after_page again all (throws w, s) = some (throws w, s)

  unfoldable pub list_pages : ℕ → Bytes → List ModelInfo → Env H.World Json → Option Listing
  unfolding after_page get_page
  list_pages zero token all s = none
  list_pages (suc fuel) token all s =
      after_page (λ token' all' s'. list_pages fuel token' all' s') all (get_page token s)

  unfoldable pub list_models : ℕ → Env H.World Json → Option Listing
  unfolding list_pages
  list_models fuel s =
      if is_empty o.api_key
      then some (err (make_error config (codes "API key is empty")), count_request s)
      else list_pages fuel [] [] (count_request s)

  -- `generate` of a prompt, as one message of the user, with the default `config`.
  unfoldable pub generate_prompt :
      GenerationConfig Json F.Double
      → Bytes
      → Env H.World Json
      → Result (GenerateResponse Json) × Env H.World Json
  unfolding generate
  generate_prompt defaults prompt s =
      generate F L H o
        (record {
          contents = user_content prompt ∷ [];
          system_instruction = none;
          tools = [];
          config = defaults;
          safety_settings = [];
        })
        s
