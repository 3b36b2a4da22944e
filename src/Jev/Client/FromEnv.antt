-- ===== src/Jev/Client/FromEnv.antt =====
-- armin-core/extraction/src/jev.rs, `from_env`: which client the environment gives.

use Prim.Native.String.{◌++◌ as concat}
use armin.Prelude.{
  ◌≡◌, refl, ap, sym, ◌∙◌, ◌≢◌, ◌⊎◌, eq_iff, subst, inl, inr, String, true, false, Option, none,
  some, is_some, String_Eq, ℕ_Eq, arith, Option-cases,
}
use armin.Prelude.Results.{Result, ok, err, Result-cases}
use armin.Text.{Unicode, is_blank}
use armin.Engine.Config.{Env}
use armin.Tools.{to_ascii_lowercase}
use armin.Engine.Import.{trim}
use armin.Jev.Client.Shortens.{Shortens, shorten, trim_slashes-last}
use armin.Jev.Client.{
  normalize_jev_base, detected, known_provider, JevProvider, typesafe, openrouter, JevClient,
  trim_slashes, new_client, filled, resolve_provider, normalized_base, or_default, default_base,
  default_model, base_name, key_of, typesafe_key, openrouter_key, client_from_env,
}

-- how `ARMIN_JEV_PROVIDER` names a relay
abbrev pub provider_name : JevProvider → String
provider_name typesafe = "typesafe"
provider_name openrouter = "openrouter"

same_client : (c d : JevClient) → ◌≡◌ {A = Result String JevClient} (ok c) (ok d) → c ≡ d
same_client c d e = ap (λ (r : Result String JevClient). elim r [ ok x ↦ x | err x ↦ c ]) e

same_found :
    (o p : Option JevProvider) → ◌≡◌ {A = Result String (Option JevProvider)} (ok o) (ok p) → o ≡ p
same_found o p e =
    ap (λ (r : Result String (Option JevProvider)). elim r [ ok x ↦ x | err x ↦ o ]) e

known_provider-name :
    (v : String) (p : JevProvider) → known_provider v ≡ ok (some p) → v ≡ provider_name p
known_provider-name v typesafe e = ground (arith, eq_iff v "typesafe", eq_iff v "openrouter")
known_provider-name v openrouter e = ground (arith, eq_iff v "typesafe", eq_iff v "openrouter")

module _ ⦃u : Unicode⦄ where
  abbrev asked_provider : Env → Result String (Option JevProvider)
  asked_provider env =
      resolve_provider (env "ARMIN_JEV_PROVIDER") (is_some (typesafe_key env))
        (is_some (openrouter_key env))

  -- the variable's value is not blank; or it has no value, or a blank one
  abbrev pub HasValue : Option String → String → Type 0
  HasValue o v = (o ≡ some v) × (is_blank v ≡ false)

  abbrev pub HasNoValue : Option String → Type 0
  HasNoValue o = (v : String) → o ≡ some v → is_blank v ≡ true

  filled-HasValue : (o : Option String) (v : String) → filled o ≡ some v → HasValue o v
  filled-HasValue none v e = absurd (ground (arith, e))
  filled-HasValue (some w) v e = ground (arith, e)

  filled-HasNoValue : (o : Option String) → filled o ≡ none → HasNoValue o
  filled-HasNoValue none e v q = absurd (ground (arith, q))
  filled-HasNoValue (some w) e v q =
      let same : w ≡ v = ground (arith, q) in rw (sym same) (ground (arith, e))

  -- a relay's key in the environment
  abbrev pub HasKey : Env → JevProvider → String → Type 0
  HasKey env typesafe key =
      HasValue (env "TYPESAFE_AI_API_KEY") key
      ⊎ (HasNoValue (env "TYPESAFE_AI_API_KEY") × HasValue (env "TYPESAFE_API_KEY") key)
  HasKey env openrouter key = HasValue (env "OPENROUTER_API_KEY") key

  key_of-HasKey :
      (env : Env) (p : JevProvider) (key : String) → key_of env p ≡ some key → HasKey env p key
  key_of-HasKey env openrouter key e = filled-HasValue (env "OPENROUTER_API_KEY") key e
  key_of-HasKey env typesafe key e = elim (Option-cases (filled (env "TYPESAFE_AI_API_KEY"))) [
    | inl t ↦ inr (
      filled-HasNoValue (env "TYPESAFE_AI_API_KEY") t,
      filled-HasValue (env "TYPESAFE_API_KEY") key (rw t at e),
    )
    | inr (w, t) ↦ inl (filled-HasValue (env "TYPESAFE_AI_API_KEY") key (t ∙ (rw t at e)))
  ]

  HasKey-key_of :
      (env : Env) (key : String) → HasKey env typesafe key → is_some (typesafe_key env) ≡ true
  HasKey-key_of env key (inl (e, b)) = rw e (ground (arith, b))
  HasKey-key_of env key (inr (no_key, (e, b))) =
      elim (Option-cases (filled (env "TYPESAFE_AI_API_KEY"))) [
        | inl t ↦ rw t (rw e (ground (arith, b)))
        | inr (w, t) ↦ rw t refl
      ]

  -- of the relays that have a key, TypeSafe is the first
  abbrev pub HasFirstKey : Env → JevProvider → Type 0
  HasFirstKey env typesafe = (key : String) × HasKey env typesafe key
  HasFirstKey env openrouter =
      ((key : String) → ¬ HasKey env typesafe key) × ((key : String) × HasKey env openrouter key)

  -- the relay that the environment asks for, or else the first one that it has a key of
  abbrev pub Asks : Env → JevProvider → Type 0
  Asks env p =
      ((v : String) × HasValue (env "ARMIN_JEV_PROVIDER") v
        × (to_ascii_lowercase (trim v) ≡ provider_name p))
      ⊎ (HasNoValue (env "ARMIN_JEV_PROVIDER") × HasFirstKey env p)

  detected-HasFirstKey :
      (env : Env) (p : JevProvider)
      → detected (is_some (typesafe_key env)) (is_some (openrouter_key env)) ≡ some p
      → HasFirstKey env p
  detected-HasFirstKey env typesafe e = elim (Option-cases (typesafe_key env)) [
    | inl t ↦ absurd (ground (arith, t, e))
    | inr (key, t) ↦ (key, key_of-HasKey env typesafe key t)
  ]
  detected-HasFirstKey env openrouter e = (
    λ key has. let there = HasKey-key_of env key has in absurd (ground (arith, there, e)),
    elim (Option-cases (openrouter_key env)) [
      | inl t ↦ absurd (ground (arith, t, e))
      | inr (key, t) ↦ (key, key_of-HasKey env openrouter key t)
    ],
  )

  resolve_provider-Asks :
      (env : Env) (p : JevProvider)
      → resolve_provider
          (env "ARMIN_JEV_PROVIDER")
          (is_some (typesafe_key env))
          (is_some (openrouter_key env))
        ≡ ok (some p)
      → Asks env p
  unfolding resolve_provider
  resolve_provider-Asks env p e = elim (Option-cases (filled (env "ARMIN_JEV_PROVIDER"))) [
    | inr (v, t) ↦
        inl (v, filled-HasValue (env "ARMIN_JEV_PROVIDER") v t, known_provider-name _ p (rw t at e))
    | inl t ↦ inr (
      filled-HasNoValue (env "ARMIN_JEV_PROVIDER") t,
      detected-HasFirstKey env p (
          same_found (detected (is_some (typesafe_key env)) (is_some (openrouter_key env))) (some p)
            (rw t at e)),
    )
  ]

  -- a value of the environment that is not blank, or else the default
  abbrev pub IsFrom : Option String → String → String → Type 0
  IsFrom o d v = HasValue o v ⊎ (HasNoValue o × (v ≡ d))

  -- the value of the environment, shortened, or else the default
  abbrev pub IsBase : Option String → String → String → Type 0
  IsBase o d base =
      ((b : String) × (o ≡ some b) × Shortens (trim b) base) ⊎ ((o ≡ none) × (base ≡ d))

  abbrev pub HasBase : Env → JevProvider → String → Type 0
  HasBase env typesafe base = IsBase (env "TYPESAFE_BASE_URL") "https://api.typesafe.ai" base
  HasBase env openrouter base = IsBase (env "ARMIN_JEV_BASE_URL") "https://openrouter.ai/api" base

  abbrev pub HasModel : Env → JevProvider → String → Type 0
  HasModel env typesafe model = IsFrom (env "ARMIN_JEV_MODEL") "jev-1.13.0" model
  HasModel env openrouter model = IsFrom (env "ARMIN_JEV_MODEL") "jev-latest" model

  IsFrom-or_default : (o : Option String) (d : String) → IsFrom o d (or_default (filled o) d)
  IsFrom-or_default o d = elim (Option-cases (filled o)) [
    | inl t ↦ rw t (inr (filled-HasNoValue o t, refl))
    | inr (v, t) ↦ rw t (inl (filled-HasValue o v t))
  ]

  IsBase-or_default :
      (o : Option String) (d : String)
      → trim_slashes d ≡ d
      → IsBase o d (trim_slashes (or_default (normalized_base o) d))
  unfolding normalize_jev_base
  IsBase-or_default none d e = inr (refl, e)
  IsBase-or_default (some b) d e = inl (b, refl, shorten (trim b))

  -- a client for the environment, which has made no request
  pub record IsFor (env : Env) (client : JevClient) : Type 0 where
    pub provider : Asks env client.provider
    pub key : HasKey env client.provider client.api_key
    pub base : HasBase env client.provider client.base_url
    pub no_slash : (t : String) → client.base_url ≢ concat t "/"
    pub model : HasModel env client.provider client.model
    pub unused : (client.calls ≡ 0) × (client.input_tokens ≡ 0) × (client.output_tokens ≡ 0)

  new_client-HasBase :
      (env : Env) (p : JevProvider)
      → HasBase env p
          (trim_slashes (or_default (normalized_base (env (base_name p))) (default_base p)))
  unfolding trim_slashes
  new_client-HasBase env typesafe =
      IsBase-or_default (env "TYPESAFE_BASE_URL") "https://api.typesafe.ai" refl
  new_client-HasBase env openrouter =
      IsBase-or_default (env "ARMIN_JEV_BASE_URL") "https://openrouter.ai/api" refl

  new_client-HasModel :
      (env : Env) (p : JevProvider)
      → HasModel env p (or_default (filled (env "ARMIN_JEV_MODEL")) (default_model p))
  new_client-HasModel env typesafe = IsFrom-or_default (env "ARMIN_JEV_MODEL") "jev-1.13.0"
  new_client-HasModel env openrouter = IsFrom-or_default (env "ARMIN_JEV_MODEL") "jev-latest"

  -- A client that the environment gives talks to the relay that `ARMIN_JEV_PROVIDER` names or, where
  -- that is unset or blank, to the first relay that has a key. It has that relay's key, which is not
  -- blank; the base that the relay's variable gives, without the white space around it and without the
  -- slashes, the `/v1` and the slashes at its end, or the relay's default; the model that
  -- `ARMIN_JEV_MODEL` gives or, where that is unset or blank, the relay's default. The base ends in no
  -- slash, and the meters are at zero.
  pub client_from_env_lem :
      (env : Env) (client : JevClient) → client_from_env env ≡ ok client → IsFor env client
  unfolding client_from_env new_client
  client_from_env_lem env client e = elim (Result-cases (asked_provider env)) [
    | inr (x, r) ↦ absurd (ground (arith, rw r at e))
    | inl (none, r) ↦ absurd (ground (arith, rw r at e))
    | inl (some provider, r) ↦ elim (Option-cases (key_of env provider)) [
      | inl k ↦ absurd (ground (arith, rw (r, k) at e))
      | inr (key, k) ↦
          let base =
            or_default (normalized_base (env (base_name provider))) (default_base provider) in
          let model = or_default (filled (env "ARMIN_JEV_MODEL")) (default_model provider) in
          let same : new_client provider key base model ≡ client =
            same_client (new_client provider key base model) client (rw (r, k) at e) in
          subst (IsFor env) same (record {
            provider = resolve_provider-Asks env provider r;
            key = key_of-HasKey env provider key k;
            base = new_client-HasBase env provider;
            no_slash = trim_slashes-last base;
            model = new_client-HasModel env provider;
            unused = (refl, refl, refl);
          })
    ]
  ]
