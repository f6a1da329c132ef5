-- ===== src/Program/Refusal.antt =====
-- apps/main.cpp: a run that ends with status 2 has refused its words before it did anything.
use gemini_cpp.Base.{
  ℕ, Bool, true, false, List, ◌++◌, Option, none, some, if◌then◌else◌, ◌≡◌, refl, arith,
}
use gemini_cpp.Base.Int.{ℤ}
use gemini_cpp.Base.Text.{Bytes, codes, show_ℤ}
use gemini_cpp.Error.{Result, ok, err, throws, Error}
use gemini_cpp.Json.{FloatLib, JsonLib}
use gemini_cpp.Types.{GenerationConfig, GenerateResponse}
use gemini_cpp.Client.{Host, ClientOptions, Env}
use gemini_cpp.Client.Calls.{count_tokens}
use gemini_cpp.Client.Models.{list_models}
use gemini_cpp.Cli.{Args, Spec, parse_args, flag}
use gemini_cpp.Program.{
  Shell, Finished, exit_ok, exit_usage, print, usage_error, api_error, unless_error, with_result,
  with_args, make_client, only_bytes, prompt_from, with_client, apply_common, no_config,
}
use gemini_cpp.Program.Ask.{ask_spec, ask_prompt, cmd_ask, ask_with, end_ask}
use gemini_cpp.Program.Queries.{
  tokens_request, model_rows, tokens_spec, models_spec, cmd_tokens, tokens_with, cmd_models,
  models_with, take_result, take_listing,
}
use gemini_cpp.Wire.{ModelInfo}

module _ {W J : Type 0} where
  -- The environment, the output and the files are as they were.
  abbrev pub Untouched : Shell W J → Shell W J → Type 0
  Untouched s t = (t.env ≡ s.env) × (t.out ≡ s.out) × (t.files ≡ s.files)

  pub record Refuses (s : Shell W J) (r : Finished W J) : Type 0 where
    pub untouched : r.0 ≡ exit_usage → Untouched s r.1

  -- A run that ends in another way.
  pub other_end : (s : Shell W J) (r : Finished W J) → (r.0 ≡ exit_usage → ⊥) → Refuses s r
  other_end s r h = record { untouched = λ e. absurd (h e) }

  pub exit_ok-Refuses : (s t : Shell W J) → Refuses s (exit_ok, t)
  exit_ok-Refuses s t = other_end s _ (λ e. ground arith)

  pub usage_error-Refuses :
      (s t : Shell W J) (problem : Bytes) → Untouched s t → Refuses s (usage_error problem t)
  unfolding usage_error
  usage_error-Refuses s t problem h = record { untouched = λ e. h }

  pub api_error-Refuses : (s t : Shell W J) (error : Error) → Refuses s (api_error error t)
  unfolding api_error
  api_error-Refuses s t error = other_end s _ (λ e. ground arith)

  pub unless_error-Refuses :
      (s t : Shell W J) (problem : Option Bytes) (rest : Finished W J)
      → Untouched s t
      → Refuses s rest
      → Refuses s (unless_error problem rest t)
  unless_error-Refuses s t none rest h k = k
  unless_error-Refuses s t (some problem) rest h k = usage_error-Refuses s t problem h

  pub with_result-Refuses :
      {A : Type 0} (s t : Shell W J) (r : Result A) (rest : A → Finished W J)
      → ((a : A) → Refuses s (rest a))
      → Refuses s (with_result r rest t)
  with_result-Refuses s t (ok a) rest k = k a
  with_result-Refuses s t (err error) rest k = api_error-Refuses s t error
  with_result-Refuses s t (throws w) rest k = other_end s _ (λ e. cc)

pub with_args-Refuses :
    (F : FloatLib) {W J : Type 0} (spec : Spec) (config : GenerationConfig J F.Double)
    (rest : Args → GenerationConfig J F.Double → Shell W J → Finished W J) (words : List Bytes)
    (s : Shell W J)
    → ((args : Args) (c : GenerationConfig J F.Double) (t : Shell W J)
        → Untouched s t
        → Refuses s (rest args c t))
    → Refuses s (with_args F spec config rest words s)
unfolding with_args
with_args-Refuses F spec config rest words s k =
    let (e, args) = parse_args spec words in
    let (e', c, g) = apply_common F args config s.log in
    let t = record s { log = g } in
    unless_error-Refuses s s e (unless_error e' (rest args c t) t) (refl, refl, refl)
      (unless_error-Refuses s t e' (rest args c t) (refl, refl, refl)
        (k args c t (refl, refl, refl)))

pub if-Refuses :
    {W J : Type 0} (s : Shell W J) (b : Bool) (r q : Finished W J)
    → Refuses s r
    → Refuses s q
    → Refuses s (if b then r else q)
if-Refuses s true r q h k = h
if-Refuses s false r q h k = k

module _ (F : FloatLib) (L : JsonLib F.Double) (H : Host F) (defaults : ClientOptions F.Double)
    (getenv : Bytes → Option Bytes) where
  open L use {Json}

  module _ (stdin : Bytes) (stop : List (GenerateResponse L.Json) → GenerateResponse L.Json → Bool)
      (interrupted : Bool) where
    end_ask-Refuses :
        (s : Shell H.World Json) (args : Args)
        (out : Result (GenerateResponse Json) × Shell H.World Json)
        → Refuses s (end_ask F L H defaults getenv stdin stop interrupted args out)
    unfolding end_ask
    end_ask-Refuses s args (ok r, t) = exit_ok-Refuses s _
    end_ask-Refuses s args (err error, t) = api_error-Refuses s (print (codes "\n") t) error
    end_ask-Refuses s args (throws w, t) = other_end s _ (λ e. cc)

    ask_with-Refuses :
        (s t : Shell H.World Json) (args : Args) (config : GenerationConfig Json F.Double)
        (prompt : Bytes)
        → Refuses s (ask_with F L H defaults getenv stdin stop interrupted args config prompt t)
    unfolding ask_with
    ask_with-Refuses s t args config prompt =
        with_result-Refuses s t (make_client getenv defaults args) _ (λ o. end_ask-Refuses s args _)

    ask_prompt-Refuses :
        (s t : Shell H.World Json) (args : Args) (config : GenerationConfig Json F.Double)
        → Untouched s t
        → Refuses s (ask_prompt F L H defaults getenv stdin stop interrupted args config t)
    unfolding ask_prompt
    ask_prompt-Refuses s t args config h =
        if-Refuses s (only_bytes (codes " \t\r\n") (prompt_from args.positional stdin)) _ _
          (usage_error-Refuses s t (codes "empty prompt") h)
          (ask_with-Refuses s t args config (prompt_from args.positional stdin))

    pub cmd_ask-Refuses :
        (words : List Bytes) (s : Shell H.World Json)
        → Refuses s (cmd_ask F L H defaults getenv stdin stop interrupted words s)
    unfolding cmd_ask
    cmd_ask-Refuses words s =
        with_args-Refuses F ask_spec (no_config L)
          (ask_prompt F L H defaults getenv stdin stop interrupted) words s
          (λ args c t. ask_prompt-Refuses s t args c)

  take_result-Refuses :
      {A : Type 0} (s t : Shell H.World Json) (r : Result A × Env H.World Json)
      (rest : A → Shell H.World Json → Finished H.World Json)
      → ((a : A) (u : Shell H.World Json) → Refuses s (rest a u))
      → Refuses s (take_result F L H defaults getenv r rest t)
  take_result-Refuses s t (r, e) rest k = with_result-Refuses s _ r _ (λ a. k a _)

  tokens_with-Refuses :
      (s t : Shell H.World Json) (args : Args) (prompt : Bytes)
      → Refuses s (tokens_with F L H defaults getenv args prompt t)
  unfolding tokens_with
  tokens_with-Refuses s t args prompt =
      with_result-Refuses s t (make_client getenv defaults args) _ (λ o.
        take_result-Refuses s (with_client t)
          (count_tokens F L H o (tokens_request F L H defaults getenv args prompt)
            (with_client t).env)
          (λ n u. (exit_ok, print (show_ℤ n ++ codes "\n") u))
          (λ n u. exit_ok-Refuses s (print (show_ℤ n ++ codes "\n") u)))

  pub cmd_tokens-Refuses :
      (stdin : Bytes) (words : List Bytes) (s : Shell H.World Json)
      → Refuses s (cmd_tokens F L H defaults getenv stdin words s)
  unfolding cmd_tokens
  cmd_tokens-Refuses stdin words s =
      with_args-Refuses F tokens_spec (no_config L)
        (λ args c t. tokens_with F L H defaults getenv args (prompt_from args.positional stdin) t)
        words s (λ args c t h. tokens_with-Refuses s t args (prompt_from args.positional stdin))

  module _ (row : Bytes → ℤ → ℤ → Bytes → Bytes) where
    take_listing-Refuses :
        (s t : Shell H.World Json) (out : Option (Result (List ModelInfo) × Env H.World Json))
        (all : Bool)
        → Refuses s (take_listing F L H defaults getenv row out all t)
    take_listing-Refuses s t none all = other_end s _ (λ e. cc)
    take_listing-Refuses s t (some r) all =
        take_result-Refuses s t r
          (λ ms u. (exit_ok, print (model_rows F L H defaults getenv row all ms) u))
          (λ ms u. exit_ok-Refuses s (print (model_rows F L H defaults getenv row all ms) u))

    models_with-Refuses :
        (s t : Shell H.World Json) (pages : ℕ) (args : Args)
        → Refuses s (models_with F L H defaults getenv row pages args t)
    unfolding models_with
    models_with-Refuses s t pages args =
        with_result-Refuses s t (make_client getenv defaults args) _ (λ o.
          take_listing-Refuses s (with_client t) (list_models F L H o pages (with_client t).env)
            (flag args (codes "all")))

    pub cmd_models-Refuses :
        (pages : ℕ) (words : List Bytes) (s : Shell H.World Json)
        → Refuses s (cmd_models F L H defaults getenv row pages words s)
    unfolding cmd_models
    cmd_models-Refuses pages words s =
        with_args-Refuses F models_spec (no_config L)
          (λ args c t. models_with F L H defaults getenv row pages args t) words s
          (λ args c t h. models_with-Refuses s t pages args)
