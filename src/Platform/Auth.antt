-- ===== src/Platform/Auth.antt =====
-- `EntraTokenValidator` of packages/python/sentinel_common/auth.py.
pub mod Validate
mod Tests
use sentinel_keyvault.Common.{
  ℕ, ◌≡◌, Bool, true, false, ◌&&◌, ◌||◌, not, Option, none, some, List, [], ◌∷◌, ◌++◌, Text, codes,
  text_eq, text_in, text_or_else, get, rstrip, words, any, leb, ◌==◌, if◌then◌else◌,
}
use sentinel_keyvault.Platform.Json.{Json, Items, Fields, field_value}
use sentinel_keyvault.Platform.Reply.{Reply, reply, refused, raised, ◌>>=◌, ◌>>◌, check, require}
use sentinel_keyvault.Platform.Settings.{Settings, present}
use sentinel_keyvault.Platform.Jwt.{Claim, number, value, Claims, Checks, Jwt}
use sentinel_keyvault.Platform.Python.{
  Python, str_of, truthy, display_name_of, text_claim, str_or_empty, set_of,
}

pub record TokenPrincipal : Type 0 where
  pub entra_tenant_id : ℕ
  pub entra_object_id : ℕ
  pub display_name : Text
  pub principal_name : Option Text
  pub scopes : List Text
  pub roles : List Json
  pub claims : Claims

-- The handler of `KeyError`, `ValueError` and `PyJWTError`.
abbrev pub invalid_token {ℓ} : {A : Type ℓ} → Reply A
invalid_token = refused 401 (Json.str (codes "Invalid Microsoft Entra access token"))

abbrev pub tenant_not_allowed {ℓ} : {A : Type ℓ} → Reply A
tenant_not_allowed = refused 403 (Json.str (codes "Tenant is not allowed"))

-- `not allowed_tenants or tenant in allowed_tenants`
abbrev pub is_allowed : List Text → Text → Bool
is_allowed [] tenant = true
is_allowed (t ∷ ts) tenant = text_in tenant (t ∷ ts)

-- `audience or self._settings.entra_audience`, if there is one.
abbrev pub audience_of : Settings → Option Text → Option Text
audience_of settings audience = elim (present audience) [
  | some a ↦ some a
  | none ↦ present settings.entra_audience
]

-- `self._jwks.get_signing_key`, whose exceptions are of the class `PyJWTError` too.
abbrev pub SigningKeys : Type 0
SigningKeys = Claim → Option Text

module _ (jwt : Jwt) (keys : SigningKeys) (python : Python) (settings : Settings) where
  abbrev pub issuer_of : ℕ → Text
  issuer_of tenant_id =
      rstrip b'/' settings.entra_authority_host
      ++ (codes "/" ++ (python.print_uuid tenant_id ++ codes "/v2.0"))

  abbrev pub checks_for : ℕ → Text → Checks
  checks_for tenant_id audience = record {
    algorithm = codes "RS256";
    audience = audience;
    issuer = issuer_of tenant_id;
    leeway = 60;
    required = codes "exp" ∷ codes "iat" ∷ codes "nbf" ∷ codes "tid" ∷ codes "oid" ∷ [];
  }

  -- `UUID(str(claims[name]))`
  abbrev pub uuid_claim : Text → Claims → Reply ℕ
  uuid_claim name claims = do
    claim ← require invalid_token (get name claims)
    require invalid_token (python.uuid (str_of python claim))

  abbrev pub built : ℕ → Claims → ℕ → List Json → TokenPrincipal
  built tenant_id verified object_id roles = record {
    entra_tenant_id = tenant_id;
    entra_object_id = object_id;
    display_name =
        display_name_of python (truthy (get (codes "name") verified))
          (truthy (get (codes "preferred_username") verified));
    principal_name = text_claim (get (codes "preferred_username") verified);
    scopes = words (str_or_empty python (get (codes "scp") verified));
    roles = roles;
    claims = verified;
  }

  abbrev pub principal_of : ℕ → Claims → Reply TokenPrincipal
  principal_of tenant_id verified = do
    object_id ← uuid_claim (codes "oid") verified
    roles ← require raised (set_of (get (codes "roles") verified))
    reply (built tenant_id verified object_id roles)

  -- What follows the check of the tenant.
  abbrev pub verify : ℕ → Text → Text → Claims → ℕ → Reply TokenPrincipal
  verify now token audience header tenant_id = do
    kid ← require invalid_token (get (codes "kid") header)
    key ← require invalid_token (keys kid)
    verified ← require invalid_token (jwt.decode now token key (checks_for tenant_id audience))
    principal_of tenant_id verified

  abbrev pub admit : ℕ → Text → Text → Claims → ℕ → Reply TokenPrincipal
  admit now token audience header tenant_id = do
    check (is_allowed settings.allowed_tenants (python.print_uuid tenant_id)) tenant_not_allowed
    verify now token audience header tenant_id

  -- `EntraTokenValidator.validate`
  unfoldable pub validate : ℕ → Text → Option Text → Reply TokenPrincipal
  validate now token audience = do
    expected ← require raised (audience_of settings audience)
    header ← require invalid_token (jwt.header token)
    claims ← require invalid_token (jwt.unverified token)
    tenant_id ← uuid_claim (codes "tid") claims
    admit now token expected header tenant_id
