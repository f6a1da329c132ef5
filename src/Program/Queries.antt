-- ===== src/Program/Queries.antt =====
-- apps/main.cpp: the commands `tokens` and `models`. `row` is the format of `printf` for a model.
use gemini_cpp.Base.{
  ℕ, Bool, not, ◌&&◌, List, [], ◌∷◌, ◌++◌, Option, none, some, if◌then◌else◌, drop,
}
use gemini_cpp.Base.Int.{ℤ}
use gemini_cpp.Base.Text.{Bytes, codes, starts_with, show_ℤ}
use gemini_cpp.Error.{Result}
use gemini_cpp.Json.{FloatLib, JsonLib}
use gemini_cpp.Types.{GenerateRequest, user_content}
use gemini_cpp.Client.{Host, ClientOptions, Env}
use gemini_cpp.Client.Calls.{count_tokens}
use gemini_cpp.Client.Models.{list_models}
use gemini_cpp.Wire.{ModelInfo}
use gemini_cpp.Cli.{Args, Spec, flag, has_name}
use gemini_cpp.Program.{
  Shell, Finished, endless, exit_ok, print, with_result, with_client, make_spec, no_config,
  with_args, make_client, prompt_from,
}
use gemini_cpp.Program.Ask.{system_of}

unfoldable pub tokens_spec : Spec
unfolding make_spec
tokens_spec = make_spec [] []

unfoldable pub models_spec : Spec
unfolding make_spec
models_spec = make_spec [] (codes "all" ∷ [])

module _ (F : FloatLib) (L : JsonLib F.Double) (H : Host F) (defaults : ClientOptions F.Double)
    (getenv : Bytes → Option Bytes) where
  open L use {Json}

  unfoldable pub tokens_request : Args → Bytes → GenerateRequest Json F.Double
  tokens_request args prompt = record {
    contents = user_content prompt ∷ [];
    system_instruction = system_of args;
    tools = [];
    config = no_config L;
    safety_settings = [];
  }

  -- A result of the client, with the client's state put back.
  abbrev pub take_result :
      {A : Type 0}
      → Result A × Env H.World Json
      → (A → Shell H.World Json → Finished H.World Json)
      → Shell H.World Json
      → Finished H.World Json
  take_result (r, e) rest s = let t = record s { env = e } in with_result r (λ a. rest a t) t

  unfoldable pub tokens_with : Args → Bytes → Shell H.World Json → Finished H.World Json
  unfolding make_client count_tokens tokens_request
  tokens_with args prompt s =
      with_result (make_client getenv defaults args)
        (λ o.
          let t = with_client s in
          take_result (count_tokens F L H o (tokens_request args prompt) t.env)
            (λ n u. (exit_ok, print (show_ℤ n ++ codes "\n") u)) t)
        s

  -- `cmd_tokens`, on the words after the command.
  unfoldable pub cmd_tokens : Bytes → List Bytes → Shell H.World Json → Finished H.World Json
  unfolding with_args tokens_with prompt_from tokens_spec
  cmd_tokens stdin words s =
      with_args F tokens_spec (no_config L)
        (λ args c t. tokens_with args (prompt_from args.positional stdin) t) words s

  module _ (row : Bytes → ℤ → ℤ → Bytes → Bytes) where
    unfoldable pub model_row : ModelInfo → Bytes
    unfolding starts_with
    model_row m =
        row (if starts_with m.name (codes "models/") then drop 7 m.name else m.name)
          m.input_token_limit m.output_token_limit m.display_name

    -- The models that generate, or all.
    unfoldable pub model_rows : Bool → List ModelInfo → Bytes
    unfolding model_row has_name
    model_rows all [] = []
    model_rows all (m ∷ ms) =
        (if not (has_name (codes "generateContent") m.supported_methods) && not all
          then []
          else model_row m)
        ++ model_rows all ms

    abbrev pub take_listing :
        Option (Result (List ModelInfo) × Env H.World Json)
        → Bool
        → Shell H.World Json
        → Finished H.World Json
    take_listing none all s = (endless, s)
    take_listing (some r) all s = take_result r (λ ms t. (exit_ok, print (model_rows all ms) t)) s

    unfoldable pub models_with : ℕ → Args → Shell H.World Json → Finished H.World Json
    unfolding make_client list_models model_rows flag
    models_with pages args s =
        with_result (make_client getenv defaults args)
          (λ o.
            let t = with_client s in
            take_listing (list_models F L H o pages t.env) (flag args (codes "all")) t)
          s

    -- `cmd_models`; `pages` bounds the pages that are asked for.
    unfoldable pub cmd_models : ℕ → List Bytes → Shell H.World Json → Finished H.World Json
    unfolding with_args models_with models_spec
    cmd_models pages words s =
        with_args F models_spec (no_config L) (λ args c t. models_with pages args t) words s
