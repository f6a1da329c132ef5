-- ===== src/Program.antt =====
-- apps/main.cpp: the command line front-end. A command reads its words and the process around it, a
-- `Shell`, and leaves another; what the library logs to the error stream is left out.
pub mod Output
pub mod Ask
pub mod Talk
pub mod Queries
pub mod Progress
pub mod Assess
pub mod Entry
pub mod Conversation
pub mod Refusal
pub mod Safety
pub mod Whole
use gemini_cpp.Base.{
  ℕ, zero, Bool, true, false, not, ◌&&◌, ◌||◌, ◌==◌, List, [], ◌∷◌, ◌++◌, Option, none, some,
  is_empty, if◌then◌else◌,
}
use gemini_cpp.Base.Int.{ℤ, pos, eqb_ℤ}
use gemini_cpp.Base.Text.{Bytes, codes, equal, show_ℤ}
use gemini_cpp.Error.{Result, ok, err, throws, ◌>>=◌, Error, describe}
use gemini_cpp.Json.{FloatLib, JsonLib}
use gemini_cpp.Types.{GenerationConfig, GenerateResponse, UsageMetadata, response_text}
use gemini_cpp.Client.{ClientOptions, Host, Env, Metrics, new_client, from_env}
use gemini_cpp.Cli.{Args, Spec, parse_args, flag, get, get_int, get_double}
use gemini_cpp.Log.{Log, parse_level, set_level, set_json}

-- How the process ends: with an exit status, by an exception that nothing catches, or not at all, where
-- a server names a next page for ever.
pub data Exit : Type 0 where
  status : ℕ → Exit
  terminate : Bytes → Exit
  endless : Exit

abbrev pub exit_ok : Exit
exit_ok = status 0

abbrev pub exit_failure : Exit
exit_failure = status 1

abbrev pub exit_usage : Exit
exit_usage = status 2

-- The client with its surroundings, the two output streams, the settings of the log, and the files that
-- were written.
pub record Shell (W J : Type 0) : Type 0 where
  pub env : Env W J
  pub out : Bytes
  pub err : Bytes
  pub log : Log
  pub files : List (Bytes × Bytes)

abbrev pub Finished : Type 0 → Type 0 → Type 0
Finished W J = Exit × Shell W J

module _ {W J : Type 0} where
  abbrev pub print : Bytes → Shell W J → Shell W J
  print text s = record s { out = s.out ++ text }

  abbrev pub print_error : Bytes → Shell W J → Shell W J
  print_error text s = record s { err = s.err ++ text }

  unfoldable pub usage_error : Bytes → Shell W J → Finished W J
  usage_error message s = (
    exit_usage,
    print_error
        (codes "gemini-cpp: " ++ (message ++ codes "\nRun 'gemini-cpp --help' for usage.\n")) s,
  )

  unfoldable pub api_error : Error → Shell W J → Finished W J
  unfolding describe
  api_error e s = (exit_failure, print_error (codes "gemini-cpp: " ++ (describe e ++ codes "\n")) s)

  -- `if (auto err = ...) return usage_error(*err)`.
  abbrev pub unless_error : Option Bytes → Finished W J → Shell W J → Finished W J
  unless_error none rest s = rest
  unless_error (some message) rest s = usage_error message s

  -- `if (!result) return api_error(result.error())`.
  abbrev pub with_result : {A : Type 0} → Result A → (A → Finished W J) → Shell W J → Finished W J
  with_result (ok a) rest s = rest a
  with_result (err e) rest s = api_error e s
  with_result (throws w) rest s = (terminate w, s)

  -- The metrics and the callback's flag of a client that was made just now.
  abbrev pub with_client : Shell W J → Shell W J
  with_client s = record s {
    env = record {
      world = s.env.world;
      metrics = record {
        requests = 0;
        attempts = 0;
        retries = 0;
        failures = 0;
        prompt_tokens = 0;
        output_tokens = 0;
        total_latency_ms = 0;
      };
      sleeps = [];
      delivered = [];
      delivered_any = false;
    };
  }

-- `make_spec`.
unfoldable pub make_spec : List Bytes → List Bytes → Spec
make_spec values flags = record {
  value_options =
      values
      ++ (codes "model"
          ∷ codes "system"
          ∷ codes "temperature"
          ∷ codes "max-tokens"
          ∷ codes "thinking-budget"
          ∷ codes "log-level"
          ∷ []);
  flags = flags ++ (codes "log-json" ∷ codes "help" ∷ []);
}

abbrev byte_in : ℕ → Bytes → Bool
byte_in c [] = false
byte_in c (d ∷ ds) = c == d || byte_in c ds

-- `find_first_not_of(set) == npos`.
unfoldable pub only_bytes : Bytes → Bytes → Bool
only_bytes set [] = true
only_bytes set (c ∷ s) = byte_in c set && only_bytes set s

-- `--log-level` and `--log-json`.
unfoldable pub apply_log : Args → Log → Option Bytes × Log
unfolding get flag parse_level
apply_log args g =
    let with_json = λ (h : Log). set_json (flag args (codes "log-json")) h in
    elim (get args (codes "log-level")) [
      | none ↦ (none, with_json g)
      | some level ↦ elim (parse_level level) [
        | none ↦ (some (codes "invalid --log-level '" ++ (level ++ codes "'")), g)
        | some l ↦ (none, with_json (set_level l g))
      ]
    ]

-- `GenerationConfig{}`.
abbrev pub no_config : {D : Type 0} (L : JsonLib D) → GenerationConfig L.Json D
no_config L = record {
  temperature = none;
  top_p = none;
  top_k = none;
  max_output_tokens = none;
  candidate_count = none;
  seed = none;
  thinking_budget = none;
  response_mime_type = none;
  response_schema = L.null;
  stop_sequences = [];
}

-- A step that is taken if there was no error.
abbrev pub after : {A : Type 0} → Option Bytes × A → (A → Option Bytes × A) → Option Bytes × A
after (none, a) f = f a
after (some message, a) f = (some message, a)

module _ (F : FloatLib) {J : Type 0} where
  -- The numbers of `apply_common`; an option that is wrong leaves the earlier ones set.
  unfoldable pub apply_numbers :
      Args → GenerationConfig J F.Double → Option Bytes × GenerationConfig J F.Double
  unfolding get_double get_int
  apply_numbers args config =
      let (e, t) = get_double F args (codes "temperature") config.temperature in
      after (e, record config { temperature = t })
        (λ c.
          let (e', n) = get_int args (codes "max-tokens") c.max_output_tokens in
          after (e', record c { max_output_tokens = n })
            (λ d.
              let (e'', b) = get_int args (codes "thinking-budget") d.thinking_budget in
              (e'', record d { thinking_budget = b })))

  -- `apply_common`: the message of the first error, the configuration and the log's settings.
  unfoldable pub apply_common :
      Args → GenerationConfig J F.Double → Log → Option Bytes × GenerationConfig J F.Double × Log
  unfolding apply_log apply_numbers
  apply_common args config g =
      let (e, h) = apply_log args g in
      elim e [
        | some message ↦ (some message, config, h)
        | none ↦ let (e', c) = apply_numbers args config in (e', c, h)
      ]

-- How every command begins: its words are parsed, and the common options are applied.
unfoldable pub with_args :
    (F : FloatLib)
    → {W J : Type 0} → Spec
    → GenerationConfig J F.Double
    → (Args → GenerationConfig J F.Double → Shell W J → Finished W J)
    → List Bytes
    → Shell W J
    → Finished W J
unfolding parse_args apply_common usage_error
with_args F spec config rest words s =
    let (e, args) = parse_args spec words in
    let (e', c, g) = apply_common F args config s.log in
    let t = record s { log = g } in unless_error e (unless_error e' (rest args c t) t) s

-- `make_client`: the environment, and `--model`.
unfoldable pub make_client :
    {D : Type 0} → (Bytes → Option Bytes) → ClientOptions D → Args → Result (ClientOptions D)
unfolding new_client from_env get
make_client getenv defaults args = do
  o ← from_env getenv defaults
  ok (new_client (elim (get args (codes "model")) [ none ↦ o | some m ↦ record o { model = m } ]))

abbrev join_words : Bytes → List Bytes → Bytes
join_words prompt [] = prompt
join_words prompt (w ∷ ws) =
    join_words ((if is_empty prompt then prompt else prompt ++ b' ' ∷ []) ++ w) ws

-- `prompt_from`: the words, or the standard input.
unfoldable pub prompt_from : List Bytes → Bytes → Bytes
unfolding equal
prompt_from [] stdin = stdin
prompt_from (w ∷ []) stdin = if equal w (codes "-") then stdin else join_words [] (w ∷ [])
prompt_from (w ∷ v ∷ ws) stdin = join_words [] (w ∷ v ∷ ws)
