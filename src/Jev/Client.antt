-- ===== src/Jev/Client.antt =====
-- armin-core/extraction/src/jev.rs: which relay serves the Jev service, and `JevClient`. What the network
-- answers is a function of the attempt's number.
pub mod Retries
pub mod Shortens
pub mod FromEnv
use Prim.Native.Char.{code}
use armin.Prelude.{
  ℕ, zero, suc, ◌+◌, ◌*◌, ◌%◌, ◌^◌, String, Bool, true, false, not, ◌&&◌, ◌||◌, Option, none, some,
  List, [], ◌∷◌, ◌++◌, is_some, leb, if◌then◌else◌, ◌==◌, String_Eq, ℕ_Eq,
}
use armin.Prelude.Results.{Result, ok, err, ◌>>=◌}
use armin.Text.{Unicode, is_blank}
use armin.Tools.{to_ascii_lowercase}
use armin.Engine.{fetch_add}
use armin.Engine.Config.{Env}
use armin.Engine.Import.{trim, trim_start_by, trim_end_by}
use armin.Jev.{Answers, truncate_for_log}

pub data JevProvider : Type 0 where
  typesafe openrouter : JevProvider

-- `Result<Option<JevProvider>, String>`; an error is the value that is not known
abbrev pub known_provider : String → Result String (Option JevProvider)
known_provider v =
    if v == "typesafe"
    then ok (some typesafe)
    else if v == "openrouter"
    then ok (some openrouter)
    else err v

abbrev pub detected : Bool → Bool → Option JevProvider
detected has_typesafe_key has_openrouter_key =
    if has_typesafe_key then some typesafe else if has_openrouter_key then some openrouter else none

-- `strip_suffix`, for a suffix that is not empty
unfoldable pub without_suffix : String → String → String
without_suffix p String.[] = ""
without_suffix p (String.◌∷◌ c s) =
    let rest = without_suffix p s in if String.◌∷◌ c s == p then "" else String.◌∷◌ c rest

unfoldable pub trim_slashes : String → String
unfolding trim_end_by
trim_slashes = trim_end_by (λ c. code c == b'/')

pub record JevClient : Type 0 where
  pub provider : JevProvider
  pub api_key : String
  pub base_url : String
  pub model : String
  pub calls : ℕ
  pub input_tokens : ℕ
  pub output_tokens : ℕ

unfoldable pub new_client : JevProvider → String → String → String → JevClient
unfolding trim_slashes
new_client provider api_key base_url model = record {
  provider = provider;
  api_key = api_key;
  base_url = trim_slashes base_url;
  model = model;
  calls = 0;
  input_tokens = 0;
  output_tokens = 0;
}

-- `unwrap_or_else`
abbrev pub or_default : Option String → String → String
or_default none d = d
or_default (some s) d = s

abbrev pub first_key : Option String → Option String → Option String
first_key none b = b
first_key (some a) b = some a

abbrev pub default_base : JevProvider → String
default_base typesafe = "https://api.typesafe.ai"
default_base openrouter = "https://openrouter.ai/api"

abbrev pub default_model : JevProvider → String
default_model typesafe = "jev-1.13.0"
default_model openrouter = "jev-latest"

abbrev pub base_name : JevProvider → String
base_name typesafe = "TYPESAFE_BASE_URL"
base_name openrouter = "ARMIN_JEV_BASE_URL"

abbrev pub required : Option String → String → Result String String
required none missing = err missing
required (some key) missing = ok key

abbrev pub some_provider : Option JevProvider → Result String JevProvider
some_provider none = err "no API key for Jev extraction"
some_provider (some provider) = ok provider

module _ ⦃u : Unicode⦄ where
  -- a value that is not blank
  abbrev pub filled : Option String → Option String
  filled none = none
  filled (some v) = if is_blank v then none else some v

  abbrev pub resolve_explicit : Option String → Bool → Bool → Result String (Option JevProvider)
  resolve_explicit none has_typesafe_key has_openrouter_key =
      ok (detected has_typesafe_key has_openrouter_key)
  resolve_explicit (some v) has_typesafe_key has_openrouter_key =
      known_provider (to_ascii_lowercase (trim v))

  unfoldable pub resolve_provider : Option String → Bool → Bool → Result String (Option JevProvider)
  unfolding to_ascii_lowercase trim_start_by trim_end_by
  resolve_provider explicit has_typesafe_key has_openrouter_key =
      resolve_explicit (filled explicit) has_typesafe_key has_openrouter_key

  unfoldable pub normalize_jev_base : String → String
  unfolding without_suffix trim_slashes trim_start_by trim_end_by
  normalize_jev_base base = without_suffix "/v1" (trim_slashes (trim base))

  abbrev pub normalized_base : Option String → Option String
  normalized_base none = none
  normalized_base (some base) = some (normalize_jev_base base)

  abbrev pub typesafe_key : Env → Option String
  typesafe_key env =
      first_key (filled (env "TYPESAFE_AI_API_KEY")) (filled (env "TYPESAFE_API_KEY"))

  abbrev pub openrouter_key : Env → Option String
  openrouter_key env = filled (env "OPENROUTER_API_KEY")

  abbrev pub key_of : Env → JevProvider → Option String
  key_of env typesafe = typesafe_key env
  key_of env openrouter = openrouter_key env

  abbrev pub missing_key : JevProvider → String
  missing_key typesafe = "no TypeSafe API key: set TYPESAFE_AI_API_KEY"
  missing_key openrouter = "no OpenRouter API key: set OPENROUTER_API_KEY"

  unfoldable pub client_from_env : Env → Result String JevClient
  unfolding resolve_provider normalize_jev_base new_client
  client_from_env env = do
    resolved ←
        resolve_provider (env "ARMIN_JEV_PROVIDER") (is_some (typesafe_key env))
          (is_some (openrouter_key env))
    provider ← some_provider resolved
    api_key ← required (key_of env provider) (missing_key provider)
    ok (
        new_client provider api_key
          (or_default (normalized_base (env (base_name provider))) (default_base provider))
          (or_default (filled (env "ARMIN_JEV_MODEL")) (default_model provider)))

pub record JevResponse : Type 0 where
  pub answers : Answers
  pub used_input : ℕ
  pub used_output : ℕ

-- what an attempt gives: no response, or a status with the body's text and what it parses as
pub data Reply : Type 0 where
  no_reply : Reply
  reply : (status : ℕ) (text : String) (parsed : Option JevResponse) → Reply

pub data JevError : Type 0 where
  api_error : (status : ℕ) (text : String) → JevError
  unparsed : JevError
  exhausted_retries : JevError

abbrev pub is_retryable : ℕ → Bool
is_retryable status = status == 429 || status == 529 || leb 500 status && leb status 599

abbrev pub is_success : ℕ → Bool
is_success status = leb 200 status && leb status 299

-- the meters after a response
abbrev pub metered : JevClient → JevResponse → JevClient
metered client resp = record client {
  calls = fetch_add client.calls 1;
  input_tokens = fetch_add client.input_tokens resp.used_input;
  output_tokens = fetch_add client.output_tokens resp.used_output;
}

abbrev pub Asked : Type 0
Asked = JevClient × Result JevError JevResponse

-- an attempt that is not repeated
abbrev pub settled : JevClient → ℕ → String → Option JevResponse → Asked
settled client status text parsed =
    if is_success status
    then (elim parsed [
      | none ↦ (client, err unparsed)
      | some resp ↦ (metered client resp, ok resp)
    ])
    else (client, err (api_error status (truncate_for_log text 300)))

-- the milliseconds that are waited, and the outcome
abbrev pub Waited : Type 0
Waited = List ℕ × Asked

abbrev pub waited : List ℕ → Waited → Waited
waited waits (more, asked) = (waits ++ more, asked)

-- before an attempt but the first: the wait, and the next one
abbrev pub backoff : ℕ → ℕ → List ℕ × ℕ
backoff zero delay = ([], delay)
backoff (suc attempt) delay = (delay ∷ [], delay * 2)

-- the loop from an attempt, with the attempts that are left
unfoldable pub attempts : ℕ → ℕ → ℕ → (ℕ → Reply) → JevClient → Waited
unfolding fetch_add truncate_for_log
attempts zero attempt delay replies client = ([], (client, err exhausted_retries))
attempts (suc left) attempt delay replies client =
    let rest = attempts left (suc attempt) (backoff attempt delay).1 replies client in
    waited (backoff attempt delay).0 (elim (replies attempt) [
      | no_reply ↦ rest
      | reply status text parsed ↦
          if is_retryable status then rest else ([], settled client status text parsed)
    ])

unfoldable pub ask : (ℕ → Reply) → JevClient → Waited
unfolding attempts
ask = attempts 3 0 500
