-- ===== src/Identity/Service/Guards.antt =====
-- Who is let in.
use sentinel_keyvault.Common.{
  ℕ, ◌≡◌, sym, ap, ◌∙◌, inl, inr, Text, refl, true, some, Bool-cases, Option-cases,
}
use sentinel_keyvault.Platform.Auth.{TokenPrincipal}
use sentinel_keyvault.Identity.Models.{Tenant, User, Store, is_active_status}
use sentinel_keyvault.Identity.Account.{identity_scope_key}
use sentinel_keyvault.Identity.Permissions.{effective_permissions}
use sentinel_keyvault.Identity.Repository.{
  get_tenant_by_scope_key, get_tenant_by_id, get_user_by_id, synchronize_user,
}
use sentinel_keyvault.Identity.Service.{
  ResolvedIdentity, resolved, denied, Denial, session_identity, resolve_session, identity_of,
  resolve_and_sync,
}

-- A session is resolved only for an active user and an active tenant that the tables hold under the
-- session's own ids, and its permissions are those in force for them.
pub resolve_session_guards :
    (now tenant_id user_id : ℕ) (store : Store) (identity : ResolvedIdentity)
    → resolve_session now tenant_id user_id store ≡ resolved identity
    → (get_user_by_id tenant_id user_id store.users ≡ some identity.user)
      × (get_tenant_by_id tenant_id store.tenants ≡ some identity.tenant)
      × (identity.user.is_active ≡ true)
      × (is_active_status identity.tenant.status ≡ true)
      × (identity.permissions
          ≡ effective_permissions now tenant_id user_id store.permissions store.role_permissions
              store.roles store.user_roles)
unfolding resolve_session
resolve_session_guards now tenant_id user_id store identity e =
    elim (Option-cases (get_user_by_id tenant_id user_id store.users)) [
      | inl n ↦ absurd (cc)
      | inr (user, n) ↦ elim (Bool-cases user.is_active) [
        | inr off ↦
            let q : denied Denial.session_user_not_active ≡ resolved identity =
              rw off at (rw (n, resolve_session) at e) in
            absurd (cc)
        | inl on ↦ elim (Option-cases (get_tenant_by_id tenant_id store.tenants)) [
          | inl m ↦
              let q : denied Denial.tenant_not_active ≡ resolved identity =
                rw (m, resolve_session) at (rw on at (rw (n, resolve_session) at e)) in
              absurd (cc)
          | inr (tenant, m) ↦ elim (Bool-cases (is_active_status tenant.status)) [
            | inr off ↦
                let q : denied Denial.tenant_not_active ≡ resolved identity =
                  rw off at
                    (rw (m, resolve_session) at (rw on at (rw (n, resolve_session) at e))) in
                absurd (cc)
            | inl act ↦
                let found = session_identity now tenant_id user_id tenant user store in
                let q : resolved found ≡ resolved identity =
                  rw act at
                    (rw (m, resolve_session) at (rw on at (rw (n, resolve_session) at e))) in
                let same : found ≡ identity = cc in
                (
                  n ∙ ap (λ i. some i.user) same,
                  m ∙ ap (λ i. some i.tenant) same,
                  ap (λ i. i.user.is_active) (sym same) ∙ on,
                  ap (λ i. is_active_status i.tenant.status) (sym same) ∙ act,
                  ap (λ i. i.permissions) (sym same),
                )
          ]
        ]
      ]
    ]

-- A token is resolved only for an active tenant of the tables with the token's scope key and for a
-- user who is active once synchronized; where the token is refused the tables stay as they were.
pub resolve_and_sync_guards :
    (print : ℕ → Text) (now : ℕ) (principal : TokenPrincipal) (store : Store)
    → ((identity : ResolvedIdentity)
        → (resolve_and_sync print now principal store).0 ≡ resolved identity
        → (get_tenant_by_scope_key
              (identity_scope_key print principal.entra_tenant_id principal.entra_object_id)
              store.tenants
            ≡ some identity.tenant)
          × (is_active_status identity.tenant.status ≡ true)
          × (identity.user
              ≡ (synchronize_user now identity.tenant.id principal.entra_object_id
                  principal.display_name principal.principal_name store.users store.next_id).0)
          × (identity.user.is_active ≡ true))
      × ((d : Denial)
          → (resolve_and_sync print now principal store).0 ≡ denied d
          → (resolve_and_sync print now principal store).1 ≡ store)
unfolding resolve_and_sync
resolve_and_sync_guards print now principal store =
    elim (Option-cases (
      get_tenant_by_scope_key
        (identity_scope_key print principal.entra_tenant_id principal.entra_object_id)
        store.tenants)) [
          | inl n ↦ rw (n, resolve_and_sync) (λ identity e. absurd (cc), λ d e. refl)
          | inr (tenant, n) ↦ elim (Bool-cases (is_active_status tenant.status)) [
            | inr off ↦ rw (n, resolve_and_sync) (rw off (λ identity e. absurd (cc), λ d e. refl))
            | inl on ↦
                let user =
                  (synchronize_user now tenant.id principal.entra_object_id principal.display_name
                    principal.principal_name store.users store.next_id).0 in
                elim (Bool-cases user.is_active) [
                  | inr out ↦
                      rw (n, resolve_and_sync)
                        (rw on (rw out (λ identity e. absurd (cc), λ d e. refl)))
                  | inl act ↦
                      rw (n, resolve_and_sync)
                        (rw on (
                          rw act
                            (λ identity e. synced identity tenant on act e, λ d e. absurd (cc))))
                ]
          ]
        ]
  where
    synced_user : ℕ → User
    synced_user id =
        (synchronize_user now id principal.entra_object_id principal.display_name
          principal.principal_name store.users store.next_id).0

    synced :
        (identity : ResolvedIdentity) (tenant : Tenant)
        → is_active_status tenant.status ≡ true
        → (synced_user tenant.id).is_active ≡ true
        → resolved (identity_of now tenant (synced_user tenant.id) store) ≡ resolved identity
        → (some tenant ≡ some identity.tenant)
          × (is_active_status identity.tenant.status ≡ true)
          × (identity.user ≡ synced_user identity.tenant.id)
          × (identity.user.is_active ≡ true)
    synced identity tenant on act e =
        let same : identity_of now tenant (synced_user tenant.id) store ≡ identity = cc in
        (
          ap (λ i. some i.tenant) same,
          ap (λ i. is_active_status i.tenant.status) (sym same) ∙ on,
          ap (λ i. i.user) (sym same) ∙ ap (λ i. synced_user i.tenant.id) same,
          ap (λ i. i.user.is_active) (sym same) ∙ act,
        )
