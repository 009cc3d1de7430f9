-- ===== src/Platform/Settings.antt =====
-- packages/python/sentinel_common/config.py, in the settings that the services read.
use sentinel_keyvault.Common.{
  ℕ, ◌≡◌, Bool, Option, none, some, List, [], ◌∷◌, map, Text, strip, split, nonempty,
}

pub record Settings : Type 0 where
  pub entra_audience : Option Text
  pub entra_authority_host : Text
  pub microsoft_client_id : Option Text
  pub microsoft_client_secret : Option Text
  pub microsoft_redirect_uri : Text
  pub frontend_url : Text
  pub session_cookie_name : Text
  pub session_cookie_domain : Option Text
  pub session_cookie_secure : Bool
  pub session_ttl_seconds : ℕ
  pub session_signing_key : Option Text
  pub token_encryption_key : Option Text
  pub allowed_tenants : List Text
  pub cors_origins : List Text
  pub internal_api_token : Option Text
  pub bootstrap_tenant_id : Option Text
  pub bootstrap_tenant_name : Text
  pub bootstrap_admin_object_id : Option Text
  pub bootstrap_admin_name : Text
  pub login_blob_account_url : Option Text

-- The value of an environment variable or a setting that is not a text.
pub data Raw {ℓ} (A : Type ℓ) : Type ℓ where
  text : Text → Raw A
  value : A → Raw A

-- `none` is Python's `None`.
unfoldable pub empty_url_is_none {ℓ} : {A : Type ℓ} → Raw A → Option (Raw A)
empty_url_is_none (text t) = elim (strip t) [ [] ↦ none | c ∷ cs ↦ some (text t) ]
empty_url_is_none (value v) = some (value v)

unfoldable pub split_csv : Raw (List Text) → List Text
split_csv (text t) = nonempty (map strip (split 44 t))
split_csv (value v) = v

-- `a or b` on an optional text, where both may be absent: a text that is empty counts as absent.
abbrev pub present : Option Text → Option Text
present none = none
present (some []) = none
present (some (c ∷ cs)) = some (c ∷ cs)

pub present-some : (o : Option Text) {t : Text} → present o ≡ some t → o ≡ some t
present-some none e = absurd (cc)
present-some (some []) e = absurd (cc)
present-some (some (c ∷ cs)) e = e
