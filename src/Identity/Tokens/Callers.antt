-- ===== src/Identity/Tokens/Callers.antt =====
-- The guards of `delegated_azure_token`: who may be given an access token.
use sentinel_keyvault.Common.{
  ℕ, ◌≡◌, sym, ap, ◌∙◌, Bool, true, Option, some, [], Text, codes, text_or_else,
}
use sentinel_keyvault.Platform.Json.{Json}
use sentinel_keyvault.Platform.Reply.{
  Reply, reply, refused, ◌>>=◌, check, require, >>=-eq-reply, check-eq-reply, require-eq-reply,
}
use sentinel_keyvault.Platform.Settings.{Settings, present, present-some}
use sentinel_keyvault.Identity.Models.{Tenant, User, OAuthConnection, Store}
use sentinel_keyvault.Identity.Repository.{get_tenant_by_id, get_user_by_id, get_oauth_connection}
use sentinel_keyvault.Identity.SignIn.{compare_digest}
use sentinel_keyvault.Identity.SignIn.Identified.{compare_digest-eq}
use sentinel_keyvault.Identity.Tokens.{internal_guard, no_connection, active_connection}

-- The caller brings the configured token.
pub internal_guard-token :
    (settings : Settings) (x : Option Text) {u : Unit {0}}
    → internal_guard settings x ≡ reply u
    → settings.internal_api_token ≡ some (text_or_else x [])
internal_guard-token settings x e =
    let bad : Reply (Unit {0}) = refused 401 (Json.str (codes "Invalid internal credential")) in
    let known = present settings.internal_api_token in
    let last = λ (same : Bool). check same bad in
    let first = λ (token : Text). compare_digest (text_or_else x []) token >>= last in
    let invalid : Reply Text = refused 401 (Json.str (codes "Invalid internal credential")) in
    let (token, k, e1) = >>=-eq-reply (require invalid known) first e in
    let (same, c, e2) = >>=-eq-reply (compare_digest (text_or_else x []) token) last e1 in
    let equal =
      compare_digest-eq (text_or_else x []) token (rw (check-eq-reply same _ _ e2) at c) in
    present-some settings.internal_api_token (require-eq-reply _ _ known k) ∙ ap some (sym equal)

-- The rows that let the user have a token: the tenant, in any status, and the active user with a
-- connection.
abbrev pub MayHave : ℕ → ℕ → Store → OAuthConnection → Type 0
MayHave tenant_id user_id store connection =
    (tenant : Tenant) × (user : User) × (get_tenant_by_id tenant_id store.tenants ≡ some tenant)
    × (get_user_by_id tenant_id user_id store.users ≡ some user)
    × (user.is_active ≡ true)
    × (get_oauth_connection tenant_id user_id store.connections ≡ some connection)

pub active_connection-MayHave :
    (tenant_id user_id : ℕ) (store : Store) (connection : OAuthConnection)
    → active_connection tenant_id user_id store ≡ reply connection
    → MayHave tenant_id user_id store connection
active_connection-MayHave tenant_id user_id store connection e =
    let held = get_oauth_connection tenant_id user_id store.connections in
    let third = λ (_ : Unit {0}). require no_connection held in
    let second = λ (user : User). check user.is_active no_connection >>= third in
    let first = λ (tenant : Tenant).
      require no_connection (get_user_by_id tenant_id user_id store.users) >>= second in
    let (tenant, t, e1) =
      >>=-eq-reply (require no_connection (get_tenant_by_id tenant_id store.tenants)) first e in
    let (user, u, e2) =
      >>=-eq-reply (require no_connection (get_user_by_id tenant_id user_id store.users)) second
        e1 in
    let (_, a, e3) = >>=-eq-reply (check user.is_active no_connection) third e2 in
    (
      tenant,
      user,
      require-eq-reply _ _ (get_tenant_by_id tenant_id store.tenants) t,
      require-eq-reply _ _ (get_user_by_id tenant_id user_id store.users) u,
      check-eq-reply user.is_active _ _ a,
      require-eq-reply _ _ held e3,
    )
