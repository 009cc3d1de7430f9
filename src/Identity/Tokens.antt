-- ===== src/Identity/Tokens.antt =====
-- The internal endpoint of apps/identity-service/src/sentinel_identity/main.py that gives the other
-- services an access token for Azure in a user's name.
mod Callers
mod Storing
pub mod Rotation
pub mod Status
mod Tests
use sentinel_keyvault.Common.{
  ℕ, Bool, true, false, ◌&&◌, Option, none, some, List, [], ◌∷◌, ◌++◌, Text, codes, text_or_else,
  if◌then◌else◌,
}
use sentinel_keyvault.Platform.Json.{Json, Fields, field_value}
use sentinel_keyvault.Platform.Reply.{Reply, reply, refused, raised, ◌>>=◌, ◌>>◌, check, require}
use sentinel_keyvault.Platform.Settings.{Settings, present}
use sentinel_keyvault.Identity.Models.{Tenant, User, OAuthConnection, Store}
use sentinel_keyvault.Identity.Repository.{
  get_tenant_by_id, get_user_by_id, get_oauth_connection, upsert_oauth_connection,
}
use sentinel_keyvault.Identity.Session.{Fernet, encrypt, decrypt}
use sentinel_keyvault.Identity.Microsoft.{Post, scopes, refresh}
use sentinel_keyvault.Identity.SignIn.{compare_digest, text_field}

pub record AzureAccessTokenResponse : Type 0 where
  pub access_token : Text
  pub expires_in : ℕ

-- The guard of the internal endpoint.
abbrev pub internal_guard : Settings → Option Text → Reply (Unit {0})
internal_guard settings x_internal_token = do
  token ←
      require (refused 401 (Json.str (codes "Invalid internal credential")))
        (present settings.internal_api_token)
  same ← compare_digest (text_or_else x_internal_token []) token
  check same (refused 401 (Json.str (codes "Invalid internal credential")))

abbrev pub no_connection {ℓ} : {A : Type ℓ} → Reply A
no_connection =
    refused 409 (Json.str (codes "User has no active delegated Microsoft OAuth connection"))

-- The rows that the refresh needs.
abbrev pub active_connection : ℕ → ℕ → Store → Reply OAuthConnection
active_connection tenant_id user_id store = do
  tenant ← require no_connection (get_tenant_by_id tenant_id store.tenants)
  user ← require no_connection (get_user_by_id tenant_id user_id store.users)
  check user.is_active no_connection
  require no_connection (get_oauth_connection tenant_id user_id store.connections)

-- `int` of a value that is a natural number or the text of one; `none` is an exception.
module _ (int : Json → Option ℕ) (fernet : Fernet) (settings : Settings) where
  abbrev pub expires_in_of : Fields → Reply ℕ
  expires_in_of tokens = elim (field_value (codes "expires_in") tokens) [
    | none ↦ reply 3600
    | some v ↦ require raised (int v)
  ]

  -- Microsoft's answer for the connection's refresh token.
  abbrev pub refreshed : Post → OAuthConnection → Reply Fields
  refreshed post connection = do
    refresh_token ← decrypt fernet settings connection.encrypted_refresh_token
    refresh settings post refresh_token connection.token_authority

  -- A refresh token of the answer takes the place of the stored one.
  abbrev pub rotated : ℕ → ℕ → OAuthConnection → Store → Option Text → Reply Store
  rotated now tenant_id connection store none = reply store
  rotated now tenant_id connection store (some token) = do
    encrypted ← encrypt fernet settings token
    let (connections, next_id) =
        upsert_oauth_connection now tenant_id connection.user_id encrypted scopes
          connection.token_authority store.connections store.next_id
    reply record store { connections = connections; next_id = next_id }

  -- The transaction, with the tables that it leaves if it commits.
  abbrev pub exchange :
      Post → ℕ → ℕ → Store → OAuthConnection → Reply (AzureAccessTokenResponse × Store)
  exchange post now tenant_id store connection = do
    tokens ← refreshed post connection
    access_token ←
        require (refused 502 (Json.str (codes "Microsoft token refresh failed")))
          (text_field (codes "access_token") tokens)
    after ← rotated now tenant_id connection store (text_field (codes "refresh_token") tokens)
    expires_in ← expires_in_of tokens
    reply (record { access_token = access_token; expires_in = expires_in }, after)

  unfoldable pub issue :
      Post → ℕ → ℕ → ℕ → Option Text → Store → Reply (AzureAccessTokenResponse × Store)
  issue post now tenant_id user_id x_internal_token store = do
    internal_guard settings x_internal_token
    connection ← active_connection tenant_id user_id store
    exchange post now tenant_id store connection

  -- `delegated_azure_token`: what raises is rolled back.
  unfoldable pub delegated_azure_token :
      Post → ℕ → ℕ → ℕ → Option Text → Store → Reply AzureAccessTokenResponse × Store
  unfolding issue
  delegated_azure_token post now tenant_id user_id x_internal_token store =
      elim (issue post now tenant_id user_id x_internal_token store) [
        | reply (answer, after) ↦ (reply answer, after)
        | refused status detail ↦ (refused status detail, store)
        | raised ↦ (raised, store)
      ]
