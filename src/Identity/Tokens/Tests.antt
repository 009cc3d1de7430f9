-- ===== src/Identity/Tokens/Tests.antt =====
-- A call for a user whose connection is renewed.
use sentinel_keyvault.Common.{ℕ, ◌≡◌, refl, true, Option, none, some, List, [], ◌∷◌, Text, codes}
use sentinel_keyvault.Platform.Json.{Json, Fields}
use sentinel_keyvault.Platform.Reply.{reply}
use sentinel_keyvault.Platform.Samples.{settings}
use sentinel_keyvault.Identity.Models.{Tenant, User, OAuthConnection, Store}
use sentinel_keyvault.Identity.Models.TenantStatus.{active, suspended}
use sentinel_keyvault.Identity.Repository.{get_tenant_by_id, get_user_by_id, get_oauth_connection}
use sentinel_keyvault.Identity.Session.{Fernet, encrypt, decrypt}
use sentinel_keyvault.Identity.Microsoft.{Exchange, answered, refresh}
use sentinel_keyvault.Identity.SignIn.{text_field}
use sentinel_keyvault.Identity.Tokens.{AzureAccessTokenResponse, issue, delegated_azure_token}
use sentinel_keyvault.Identity.Tokens.Storing.{Deciphers, Stores, next_token}
use sentinel_keyvault.Identity.Tokens.Callers.{MayHave}
use sentinel_keyvault.Identity.Tokens.Rotation.{Refreshed, delegated_azure_token_lem}
use sentinel_keyvault.Identity.Tokens.Status.{all_in}

-- A cipher that marks a text.
abbrev unmark : Text → Option Text
unmark [] = none
unmark (c ∷ s) = some s

abbrev fernet : Fernet
fernet = record { encrypt = λ key text. some (1 ∷ text); decrypt = λ key text. unmark text }

fernet-Deciphers : Deciphers fernet
fernet-Deciphers key text encrypted e = let same : 1 ∷ text ≡ encrypted = cc in rw (← same) refl

abbrev int : Json → Option ℕ
int j = some 60

abbrev post : Text → List (Text × Text) → Exchange
post url form = answered 200 (
    some (
      Json.obj (
        Fields.field (codes "access_token") (Json.str (codes "azure"))
          (Fields.field (codes "refresh_token") (Json.str (codes "new")) Fields.end))))

abbrev tenant : Tenant
tenant = record {
  id = 1;
  entra_tenant_id = 5;
  identity_scope_key = codes "tenant";
  account_type = codes "organization";
  display_name = codes "t";
  status = active;
  consented_at = none;
  version = 1;
}

abbrev user : User
user = record {
  id = 2;
  tenant_id = 1;
  entra_object_id = 6;
  principal_name = none;
  display_name = codes "u";
  email = none;
  is_active = true;
  last_login_at = 3;
  version = 1;
}

abbrev connection : OAuthConnection
connection = record {
  id = 3;
  tenant_id = 1;
  user_id = 2;
  provider = codes "microsoft";
  token_authority = codes "common";
  scopes = codes "openid";
  encrypted_refresh_token = 1 ∷ codes "old";
  last_refreshed_at = none;
}

abbrev store : Store
store = record {
  tenants = tenant ∷ [];
  users = user ∷ [];
  roles = [];
  permissions = [];
  role_permissions = [];
  user_roles = [];
  connections = connection ∷ [];
  next_id = 4;
}

abbrev token : AzureAccessTokenResponse
token = record { access_token = codes "azure"; expires_in = 3600 }

abbrev after : Store
after = (delegated_azure_token int fernet settings post 10 1 2 (some (codes "internal")) store).1

delegated_azure_token_lem_example :
    (settings.internal_api_token ≡ some (codes "internal"))
    × ((c : OAuthConnection) × (refresh_token : Text) × (tokens : Fields) × MayHave 1 2 store c
        × Refreshed int fernet settings post c refresh_token tokens (codes "azure")
        × Stores int fernet settings 1 2 c
            (next_token (text_field (codes "refresh_token") tokens) refresh_token)
            store
            after)
unfolding delegated_azure_token issue get_tenant_by_id get_user_by_id get_oauth_connection encrypt
    decrypt refresh
delegated_azure_token_lem_example =
    (delegated_azure_token_lem int fernet settings post 10 1 2 store fernet-Deciphers (tt, tt)
        (some (codes "internal"))).0
      token refl

suspended_tenant :
    (delegated_azure_token int fernet settings post 10 1 2
      (some (codes "internal"))
      (all_in suspended store)).0
    ≡ reply token
unfolding delegated_azure_token issue get_tenant_by_id get_user_by_id get_oauth_connection encrypt
    decrypt refresh
suspended_tenant = refl
