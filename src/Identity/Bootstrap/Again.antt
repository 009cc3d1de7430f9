-- ===== src/Identity/Bootstrap/Again.antt =====
-- A second start of the service adds nothing.
use sentinel_keyvault.Common.{
  ℕ, ◌≡◌, refl, sym, ap, ◌∙◌, Option, none, some, List, Text, text_eq_refl, ==-refl, find,
}
use sentinel_keyvault.Platform.Reply.{reply, >>=-eq-reply, reply->>=}
use sentinel_keyvault.Platform.Settings.{Settings}
use sentinel_keyvault.Identity.Models.{Tenant, Role, Permission, Store}
use sentinel_keyvault.Identity.Account.{identity_scope_key}
use sentinel_keyvault.Identity.Repository.{is_role, is_user, grant_each, assign_role}
use sentinel_keyvault.Identity.Bootstrap.{
  all_permissions, ensure, has_scope, new_tenant, admin_name, new_role, new_user, configured,
  admin_step, tenant_step, tenant_of, with_tenant, with_admin, bootstrap_admin, seeded,
  bootstrap_identity,
}
use sentinel_keyvault.Identity.Bootstrap.Rows.{
  ensure-find, ensure-found, ensure_permissions-Found, Found-ensure_permissions,
}
use sentinel_keyvault.Identity.Bootstrap.Grants.{
  grant_each-Granted, Granted-grant_each, assign_role-assigned, assigned-assign_role,
}

module _ (print : ℕ → Text) (parse : Text → Option ℕ) (settings : Settings) where
  with_tenant-again :
      (ps : List Permission) (entra : ℕ) (store final : Store)
      → let (tenant, role, after) = with_tenant print parse settings ps entra store in
        final.tenants ≡ after.tenants
        → final.roles ≡ after.roles
        → final.role_permissions ≡ after.role_permissions
        → with_tenant print parse settings ps entra final ≡ (tenant, role, final)
  unfolding with_tenant
  with_tenant-again ps entra store final t r g =
      let key = identity_scope_key print entra 0 in
      let tenant = (tenant_of print parse settings entra store).0 in
      let next = (tenant_of print parse settings entra store).2 in
      let role = (ensure (is_role tenant.id admin_name) (new_role tenant.id) store.roles next).0 in
      let found : find (has_scope key) final.tenants ≡ some tenant = rw t (
        ensure-find (has_scope key) (new_tenant entra key settings.bootstrap_tenant_name)
          store.tenants store.next_id (λ id. text_eq_refl key)) in
      let held : find (is_role tenant.id admin_name) final.roles ≡ some role = rw r (
        ensure-find (is_role tenant.id admin_name) (new_role tenant.id) store.roles next
          (λ id. rw (==-refl tenant.id) (text_eq_refl admin_name))) in
      let given : grant_each role.id ps final.role_permissions ≡ final.role_permissions = rw g (
        Granted-grant_each role.id ps (grant_each role.id ps store.role_permissions)
          (grant_each-Granted role.id ps store.role_permissions)) in
      rw
        (ensure-found (has_scope key) (new_tenant entra key settings.bootstrap_tenant_name)
          final.tenants final.next_id found)
        (rw
          (ensure-found (is_role tenant.id admin_name) (new_role tenant.id) final.roles
            final.next_id held)
          (rw given refl))

  with_admin-again :
      (now later object_id tenant_id role_id : ℕ) (store final : Store)
      → let after = with_admin print parse settings now object_id tenant_id role_id store in
        final.users ≡ after.users
        → final.user_roles ≡ after.user_roles
        → with_admin print parse settings later object_id tenant_id role_id final ≡ final
  unfolding with_admin
  with_admin-again now later object_id tenant_id role_id store final u a =
      let make = new_user now tenant_id object_id settings.bootstrap_admin_name in
      let user = (ensure (is_user tenant_id object_id) make store.users store.next_id).0 in
      let found : find (is_user tenant_id object_id) final.users ≡ some user = rw u (
        ensure-find (is_user tenant_id object_id) make store.users store.next_id
          (λ id. rw (==-refl tenant_id, ==-refl object_id) refl)) in
      let given : assign_role later tenant_id user.id role_id final.user_roles ≡ final.user_roles =
        rw a (
          assigned-assign_role later tenant_id user.id role_id _
            (assign_role-assigned now tenant_id user.id role_id store.user_roles)) in
      rw
        (ensure-found (is_user tenant_id object_id)
          (new_user later tenant_id object_id settings.bootstrap_admin_name) final.users
          final.next_id found)
        (rw given refl)

  admin_step-again :
      (now later : ℕ) (tenant : Tenant) (role : Role) (store : Store) (object_id : Option ℕ)
      → let after = admin_step print parse settings now tenant role store object_id in
        (after.permissions ≡ store.permissions)
        × (after.tenants ≡ store.tenants)
        × (after.roles ≡ store.roles)
        × (after.role_permissions ≡ store.role_permissions)
        × (admin_step print parse settings later tenant role after object_id ≡ after)
  unfolding with_admin
  admin_step-again now later tenant role store none = (refl, refl, refl, refl, refl)
  admin_step-again now later tenant role store (some object_id) = (
    refl,
    refl,
    refl,
    refl,
    with_admin-again now later object_id tenant.id role.id store _ refl refl,
  )

  bootstrap_admin-again :
      (now later : ℕ) (tenant : Tenant) (role : Role) (store after : Store)
      → bootstrap_admin print parse settings now tenant role store ≡ reply after
      → (after.permissions ≡ store.permissions)
        × (after.tenants ≡ store.tenants)
        × (after.roles ≡ store.roles)
        × (after.role_permissions ≡ store.role_permissions)
        × (bootstrap_admin print parse settings later tenant role after ≡ reply after)
  bootstrap_admin-again now later tenant role store after e =
      let last = λ (t : ℕ) (s : Store) (o : Option ℕ).
        reply (admin_step print parse settings t tenant role s o) in
      let id = configured print parse settings settings.bootstrap_admin_object_id in
      let (object_id, c, f) = >>=-eq-reply id (last now store) e in
      let (p, t, r, g, again) = admin_step-again now later tenant role store object_id in
      let same : admin_step print parse settings now tenant role store object_id ≡ after = cc in
      (
        rw (← same) p,
        rw (← same) t,
        rw (← same) r,
        rw (← same) g,
        reply->>= id (last later after) object_id c (rw (← same) (ap reply again)),
      )

  with_tenant-permissions :
      (ps : List Permission) (entra : ℕ) (store : Store)
      → (with_tenant print parse settings ps entra store).2.permissions ≡ store.permissions
  unfolding with_tenant
  with_tenant-permissions ps entra store = refl

  tenant_step-again :
      (now later : ℕ) (ps : List Permission) (store after : Store) (entra : Option ℕ)
      → tenant_step print parse settings now ps store entra ≡ reply after
      → (after.permissions ≡ store.permissions)
        × (tenant_step print parse settings later ps after entra ≡ reply after)
  tenant_step-again now later ps store after none e =
      let same : store ≡ after = cc in (ap (λ s. s.permissions) (sym same), refl)
  tenant_step-again now later ps store after (some entra) e =
      let (tenant, role, made) = with_tenant print parse settings ps entra store in
      let (p, t, r, g, again) = bootstrap_admin-again now later tenant role made after e in
      (
        p ∙ with_tenant-permissions ps entra store,
        rw (with_tenant-again ps entra store after t r g) again,
      )

  -- A later start with the same settings, on the tables that the first one left, leaves them as
  -- they are.
  pub bootstrap_identity_again :
      (now later : ℕ) (store after : Store)
      → bootstrap_identity print parse settings now store ≡ reply after
      → bootstrap_identity print parse settings later after ≡ reply after
  unfolding bootstrap_identity
  bootstrap_identity_again now later store after e =
      let ps = (seeded print parse settings store).0 in
      let id = configured print parse settings settings.bootstrap_tenant_id in
      let last = λ (t : ℕ) (s : Store) (o : Option ℕ). tenant_step print parse settings t ps s o in
      let (entra, c, f) = >>=-eq-reply id (last now (seeded print parse settings store).1) e in
      let (p, again) =
        tenant_step-again now later ps (seeded print parse settings store).1 after entra f in
      let found =
        Found-ensure_permissions all_permissions ps after.permissions after.next_id
          (rw p (ensure_permissions-Found all_permissions store.permissions store.next_id)) in
      rw found (reply->>= id (last later after) entra c again)
