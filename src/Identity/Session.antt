-- ===== src/Identity/Session.antt =====
-- apps/identity-service/src/sentinel_identity/session.py: the tokens of sessions, and the
-- encryption of refresh tokens. Times are in seconds.
pub mod Lifetime
mod Tests
use sentinel_keyvault.Common.{ℕ, ◌+◌, ◌≡◌, Option, none, some, List, [], ◌∷◌, Text, codes, get}
use sentinel_keyvault.Platform.Json.{Json}
use sentinel_keyvault.Platform.Reply.{Reply, reply, refused, raised, ◌>>=◌, require}
use sentinel_keyvault.Platform.Settings.{Settings, present}
use sentinel_keyvault.Platform.Jwt.{Claim, number, value, claim_text, Claims, Checks, Jwt}
use sentinel_keyvault.Platform.Python.{Python}

pub record SessionClaims : Type 0 where
  pub user_id : ℕ
  pub tenant_id : ℕ
  pub entra_tenant_id : ℕ
  pub entra_object_id : ℕ

abbrev pub invalid_session {ℓ} : {A : Type ℓ} → Reply A
invalid_session = refused 401 (Json.str (codes "Invalid or expired Sentinel session"))

-- `_signing_key`
abbrev pub signing_key : Settings → Reply Text
signing_key settings = require raised (present settings.session_signing_key)

abbrev pub session_checks : Checks
session_checks = record {
  algorithm = codes "HS256";
  audience = codes "sentinel-services";
  issuer = codes "sentinel-identity";
  leeway = 0;
  required =
      codes "sub"
      ∷ codes "tenant_id"
      ∷ codes "tid"
      ∷ codes "oid"
      ∷ codes "exp"
      ∷ codes "iat"
      ∷ codes "nbf"
      ∷ [];
}

module _ (python : Python) where
  abbrev pub payload_of : Settings → ℕ → SessionClaims → Claims
  payload_of settings now claims =
      (codes "sub", claim_text (python.print_uuid claims.user_id))
      ∷ (codes "tenant_id", claim_text (python.print_uuid claims.tenant_id))
      ∷ (codes "tid", claim_text (python.print_uuid claims.entra_tenant_id))
      ∷ (codes "oid", claim_text (python.print_uuid claims.entra_object_id))
      ∷ (codes "iat", number now)
      ∷ (codes "nbf", number now)
      ∷ (codes "exp", number (now + settings.session_ttl_seconds))
      ∷ (codes "iss", claim_text (codes "sentinel-identity"))
      ∷ (codes "aud", claim_text (codes "sentinel-services"))
      ∷ []

  -- `UUID(claim)`: a value that is not a text raises an exception that `decode` does not catch.
  abbrev pub uuid_of : Claim → Reply ℕ
  uuid_of (value (Json.str t)) = require invalid_session (python.uuid t)
  uuid_of _ = raised

  abbrev pub session_of : Claims → Reply SessionClaims
  session_of payload = do
    sub ← require invalid_session (get (codes "sub") payload)
    user_id ← uuid_of sub
    tenant ← require invalid_session (get (codes "tenant_id") payload)
    tenant_id ← uuid_of tenant
    tid ← require invalid_session (get (codes "tid") payload)
    entra_tenant_id ← uuid_of tid
    oid ← require invalid_session (get (codes "oid") payload)
    entra_object_id ← uuid_of oid
    reply record {
      user_id = user_id;
      tenant_id = tenant_id;
      entra_tenant_id = entra_tenant_id;
      entra_object_id = entra_object_id;
    }

  module _ (jwt : Jwt) (settings : Settings) where
    -- `SessionCodec.encode`
    unfoldable pub encode : ℕ → SessionClaims → Reply Text
    encode now claims = do
      key ← signing_key settings
      reply (jwt.encode (payload_of settings now claims) key session_checks.algorithm)

    -- `SessionCodec.decode`
    unfoldable pub decode : ℕ → Text → Reply SessionClaims
    decode now token = do
      key ← signing_key settings
      payload ← require invalid_session (jwt.decode now token key session_checks)
      session_of payload

-- `Fernet` of the library cryptography: key and text, `none` for a malformed key or, where a text
-- is decrypted, one that was not encrypted with the key.
pub record Fernet : Type 0 where
  pub encrypt : Text → Text → Option Text
  pub decrypt : Text → Text → Option Text

abbrev pub encryption_key : Settings → Reply Text
encryption_key settings = require raised (present settings.token_encryption_key)

module _ (fernet : Fernet) (settings : Settings) where
  -- `TokenCipher.encrypt`
  unfoldable pub encrypt : Text → Reply Text
  encrypt text = do key ← encryption_key settings; require raised (fernet.encrypt key text)

  -- `TokenCipher.decrypt`
  unfoldable pub decrypt : Text → Reply Text
  decrypt text = do key ← encryption_key settings; require raised (fernet.decrypt key text)
