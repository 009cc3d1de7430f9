-- ===== src/Identity/Tokens/Status.antt =====
-- The status of the tenant, at the endpoint that gives access tokens.
use sentinel_keyvault.Common.{
  ℕ, inl, inr, ◌≡◌, refl, sym, ◌∙◌, Option, none, some, List, [], ◌∷◌, map, Text, codes, ◌==◌,
  Bool-cases,
}
use sentinel_keyvault.Platform.Json.{Json}
use sentinel_keyvault.Platform.Reply.{
  Reply, reply, refused, raised, ◌>>=◌, check, require, Reply-cases,
}
use sentinel_keyvault.Platform.Settings.{Settings}
use sentinel_keyvault.Identity.Models.{Tenant, TenantStatus, User, OAuthConnection, Store}
use sentinel_keyvault.Identity.Repository.{get_tenant_by_id, get_user_by_id, get_oauth_connection}
use sentinel_keyvault.Identity.Session.{Fernet, encrypt}
use sentinel_keyvault.Identity.Microsoft.{Post}
use sentinel_keyvault.Identity.SignIn.{text_field}
use sentinel_keyvault.Identity.Tokens.{
  AzureAccessTokenResponse, internal_guard, no_connection, active_connection, expires_in_of,
  refreshed, rotated, exchange, issue, delegated_azure_token,
}

abbrev pub in_status : TenantStatus → Tenant → Tenant
in_status status t = record t { status = status }

-- The tables with every tenant in the status.
abbrev pub all_in : TenantStatus → Store → Store
all_in status store = record store { tenants = map (in_status status) store.tenants }

-- The answer of a transaction, without the tables.
abbrev answer : {A : Type 0} → Reply (A × Store) → Reply A
answer (reply (a, s)) = reply a
answer (refused s d) = refused s d
answer raised = raised

answer->>= :
    {A B : Type 0} (m : Reply A) (f g : A → Reply (B × Store))
    → ((a : A) → answer (f a) ≡ answer (g a))
    → answer (m >>= f) ≡ answer (m >>= g)
answer->>= (reply a) f g h = h a
answer->>= (refused s d) f g h = refl
answer->>= raised f g h = refl

-- A look-up that was successful still is.
tenant-all_in :
    {A : Type 0} (status : TenantStatus) (id : ℕ) (ts : List Tenant) (e : Reply Tenant)
    (f : Reply A)
    → (require e (get_tenant_by_id id (map (in_status status) ts)) >>= λ _. f)
      ≡ (require e (get_tenant_by_id id ts) >>= λ _. f)
unfolding get_tenant_by_id
tenant-all_in status id [] e f = refl
tenant-all_in status id (t ∷ ts) e f = elim (Bool-cases (t.id == id)) [
  | inl h ↦ rw h refl
  | inr h ↦ rw h (tenant-all_in status id ts e f)
]

active-all_in :
    (status : TenantStatus) (tenant_id user_id : ℕ) (store : Store)
    → active_connection tenant_id user_id (all_in status store)
      ≡ active_connection tenant_id user_id store
active-all_in status tenant_id user_id store =
    let held = get_oauth_connection tenant_id user_id store.connections in
    tenant-all_in status tenant_id store.tenants no_connection (
      require no_connection (get_user_by_id tenant_id user_id store.users) >>= λ (user : User).
      check user.is_active no_connection >>= λ (_ : Unit {0}). require no_connection held)

module _ (int : Json → Option ℕ) (fernet : Fernet) (settings : Settings) (post : Post)
    (now tenant_id user_id : ℕ) (store : Store) (status : TenantStatus) where
  rotated-all_in :
      (connection : OAuthConnection) (fresh : Option Text)
      (f g : Store → Reply (AzureAccessTokenResponse × Store))
      → ((s t : Store) → answer (f s) ≡ answer (g t))
      → answer
          (rotated int fernet settings now tenant_id connection (all_in status store) fresh >>= f)
        ≡ answer (rotated int fernet settings now tenant_id connection store fresh >>= g)
  rotated-all_in connection none f g h = h (all_in status store) store
  rotated-all_in connection (some token) f g h =
      elim (Reply-cases (encrypt fernet settings token)) [
        | inl (encrypted, e) ↦ rw (e, rotated) (h _ _)
        | inr (inl (s, d, e)) ↦ rw (e, rotated) refl
        | inr (inr e) ↦ rw (e, rotated) refl
      ]

  exchange-all_in :
      (connection : OAuthConnection)
      → answer (exchange int fernet settings post now tenant_id (all_in status store) connection)
        ≡ answer (exchange int fernet settings post now tenant_id store connection)
  exchange-all_in connection =
      answer->>= (refreshed int fernet settings post connection) _ _ (λ tokens.
        answer->>=
          (require (refused 502 (Json.str (codes "Microsoft token refresh failed")))
            (text_field (codes "access_token") tokens))
          _ _
          (λ token.
            rotated-all_in connection (text_field (codes "refresh_token") tokens) _ _
              (λ s t. answer->>= (expires_in_of int fernet settings tokens) _ _ (λ n. refl))))

  delegated-answer :
      (x : Option Text) (s : Store)
      → (delegated_azure_token int fernet settings post now tenant_id user_id x s).0
        ≡ answer (issue int fernet settings post now tenant_id user_id x s)
  unfolding delegated_azure_token
  delegated-answer x s =
      elim (Reply-cases (issue int fernet settings post now tenant_id user_id x s)) [
        | inl ((a, t), e) ↦ rw (e, delegated_azure_token) refl
        | inr (inl (c, d, e)) ↦ rw (e, delegated_azure_token) refl
        | inr (inr e) ↦ rw (e, delegated_azure_token) refl
      ]

  issue-all_in :
      (x : Option Text)
      → answer (issue int fernet settings post now tenant_id user_id x (all_in status store))
        ≡ answer (issue int fernet settings post now tenant_id user_id x store)
  unfolding issue
  issue-all_in x = rw (active-all_in status tenant_id user_id store) (
      answer->>= (internal_guard settings x) _ _
        (λ u. answer->>= (active_connection tenant_id user_id store) _ _ exchange-all_in))

  -- The endpoint gives the same answer whatever the status of the tenants is: to put a tenant's
  -- status to suspended, or to any other, does not stop its users' access tokens.
  pub delegated_azure_token_ignores_status :
      (x : Option Text)
      → (delegated_azure_token int fernet settings post now tenant_id user_id x
          (all_in status store)).0
        ≡ (delegated_azure_token int fernet settings post now tenant_id user_id x store).0
  delegated_azure_token_ignores_status x =
      delegated-answer x (all_in status store) ∙ (issue-all_in x ∙ sym (delegated-answer x store))
