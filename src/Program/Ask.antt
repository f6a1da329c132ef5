-- ===== src/Program/Ask.antt =====
-- apps/main.cpp: the command `ask`. `stop` is when the printer sees Ctrl-C, and `interrupted` whether it
-- was pressed when the reply has ended.
use gemini_cpp.Base.{Bool, true, false, List, [], ◌∷◌, ◌++◌, Option, none, some, if◌then◌else◌}
use gemini_cpp.Base.Text.{Bytes, codes, equal}
use gemini_cpp.Error.{Result, ok, err, throws}
use gemini_cpp.Json.{FloatLib, JsonLib}
use gemini_cpp.Types.{
  Content, GenerationConfig, GenerateRequest, GenerateResponse, user_content, response_text,
  finish_reason_of,
}
use gemini_cpp.Client.{Host, ClientOptions}
use gemini_cpp.Client.Calls.{generate}
use gemini_cpp.Client.Stream.{stream}
use gemini_cpp.Cli.{Args, Spec, flag, get}
use gemini_cpp.Program.Output.{usage_line, printer, printed}
use gemini_cpp.Program.{
  Shell, Finished, terminate, exit_ok, print, print_error, usage_error, api_error, with_result,
  with_client, make_spec, only_bytes, no_config, with_args, make_client, prompt_from,
}

unfoldable pub ask_spec : Spec
unfolding make_spec
ask_spec = make_spec [] (codes "no-stream" ∷ codes "json" ∷ codes "usage" ∷ [])

abbrev pub system_of : {J : Type 0} → Args → Option (Content J)
system_of args = elim (get args (codes "system")) [ none ↦ none | some t ↦ some (user_content t) ]

module _ (F : FloatLib) (L : JsonLib F.Double) (H : Host F) (defaults : ClientOptions F.Double)
    (getenv : Bytes → Option Bytes) (stdin : Bytes)
    (stop : List (GenerateResponse L.Json) → GenerateResponse L.Json → Bool)
    (interrupted : Bool) where
  open L use {Json}

  -- What is printed of a whole response.
  abbrev pub reply_text : Result (GenerateResponse Json) → Bytes
  reply_text (ok r) = response_text r.candidates
  reply_text _ = []

  unfoldable pub ask_request :
      Args → GenerationConfig Json F.Double → Bytes → GenerateRequest Json F.Double
  ask_request args config prompt = record {
    contents = user_content prompt ∷ [];
    system_instruction = system_of args;
    tools = [];
    config =
        if flag args (codes "json")
        then record config { response_mime_type = some (codes "application/json") }
        else config;
    safety_settings = [];
  }

  -- `generate`, or `stream` with the printer, with what is printed of the reply.
  unfoldable pub get_reply :
      ClientOptions F.Double
      → Bool
      → GenerateRequest Json F.Double
      → Shell H.World Json
      → Result (GenerateResponse Json) × Shell H.World Json
  unfolding generate stream printed
  get_reply o true request s =
      let (r, e) = generate F L H o request s.env in
      (r, print (reply_text r) (record s { env = e }))
  get_reply o false request s =
      let (r, e) = stream F L H o (printer stop) request s.env in
      (r, print (printed stop [] e.delivered) (record s { env = e }))

  unfoldable pub reply_notes : Args → GenerateResponse Json → Bytes
  unfolding usage_line
  reply_notes args r =
      (if interrupted then codes "[interrupted]\n" else [])
      ++ ((if equal (finish_reason_of r.candidates) (codes "MAX_TOKENS")
            then codes "[truncated: hit max output tokens]\n"
            else [])
          ++ (if flag args (codes "usage") then usage_line r.usage else []))

  -- The end of the command, after the reply.
  unfoldable pub end_ask :
      Args → Result (GenerateResponse Json) × Shell H.World Json → Finished H.World Json
  unfolding api_error reply_notes
  end_ask args (throws w, s) = (terminate w, s)
  end_ask args (err e, s) = api_error e (print (codes "\n") s)
  end_ask args (ok r, s) = (exit_ok, print_error (reply_notes args r) (print (codes "\n") s))

  unfoldable pub ask_with :
      Args → GenerationConfig Json F.Double → Bytes → Shell H.World Json → Finished H.World Json
  unfolding make_client get_reply end_ask ask_request
  ask_with args config prompt s =
      with_result (make_client getenv defaults args)
        (λ o. end_ask args (
          get_reply o (flag args (codes "no-stream")) (ask_request args config prompt)
            (with_client s)))
        s

  -- The prompt may be blank.
  unfoldable pub ask_prompt :
      Args → GenerationConfig Json F.Double → Shell H.World Json → Finished H.World Json
  unfolding prompt_from only_bytes usage_error ask_with
  ask_prompt args config s =
      let prompt = prompt_from args.positional stdin in
      if only_bytes (codes " \t\r\n") prompt
      then usage_error (codes "empty prompt") s
      else ask_with args config prompt s

  -- `cmd_ask`, on the words after the command.
  unfoldable pub cmd_ask : List Bytes → Shell H.World Json → Finished H.World Json
  unfolding with_args ask_prompt ask_spec
  cmd_ask words s = with_args F ask_spec (no_config L) ask_prompt words s
