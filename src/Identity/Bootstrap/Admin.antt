-- ===== src/Identity/Bootstrap/Admin.antt =====
-- What `bootstrap_identity` gives to the configured administrator.
use sentinel_keyvault.Common.{
  ℕ, ◌≡◌, refl, sym, ap, ◌∙◌, inl, inr, true, Option, none, some, List, [], ◌∷◌, Text, text_eq_refl,
  text_eq→eq, ==-refl, find-Has, any, All, All-Has, All-append_one, Has, arith, Bool-cases,
}
use sentinel_keyvault.Platform.Reply.{reply, reply->>=}
use sentinel_keyvault.Platform.Settings.{Settings}
use sentinel_keyvault.Identity.Models.{Tenant, User, Permission, RolePermission, UserRole, Store}
use sentinel_keyvault.Identity.Account.{identity_scope_key}
use sentinel_keyvault.Identity.Repository.{
  is_grant, is_role, is_user, is_assignment, grant_each, assign_role,
}
use sentinel_keyvault.Identity.Permissions.{effective_permissions}
use sentinel_keyvault.Identity.Permissions.Effective.{Holds, effective_permissions_lem, any-Has}
use sentinel_keyvault.Identity.Bootstrap.{
  all_permissions, ensure, has_scope, is_permission, new_tenant, admin_name, new_role, new_user,
  configured, admin_step, tenant_step, tenant_of, with_tenant, with_admin, seeded,
  bootstrap_identity,
}
use sentinel_keyvault.Identity.Bootstrap.Rows.{ensure-find, Found, ensure_permissions-Found}
use sentinel_keyvault.Identity.Bootstrap.Grants.{Granted, grant_each-Granted, assign_role-assigned}

-- No assignment of a role expires.
abbrev pub Lasting : List UserRole → Type 0
Lasting = All (λ a. a.expires_at ≡ none)

assign_role-Lasting :
    (now tenant_id user_id role_id : ℕ) (assignments : List UserRole)
    → Lasting assignments
    → Lasting (assign_role now tenant_id user_id role_id assignments)
unfolding assign_role
assign_role-Lasting now tenant_id user_id role_id assignments h =
    elim (Bool-cases (any (is_assignment tenant_id user_id role_id) assignments)) [
      | inl e ↦ rw e h
      | inr e ↦ rw e (All-append_one (λ a. a.expires_at ≡ none) assignments h refl)
    ]

-- A permission of the list has a row, and the row is granted.
Found-Granted :
    (items : List (Text × Text)) (ps rows : List Permission) (role_id : ℕ)
    (grants : List RolePermission) (name d : Text)
    → Found items ps rows
    → Granted role_id ps grants
    → Has (name, d) items
    → (p : Permission) × Has p rows × (p.name ≡ name) × (any (is_grant role_id p.id) grants ≡ true)
Found-Granted [] ps rows role_id grants name d f g m = absurd m
Found-Granted ((n, c) ∷ rest) [] rows role_id grants name d f g m = absurd f
Found-Granted ((n, c) ∷ rest) (p ∷ ps) rows role_id grants name d f g (inl e) =
    let (k, t) = find-Has (is_permission n) rows f.0 in
    let same : name ≡ n = ap (λ (x : Text × Text). x.0) e in
    (p, k, text_eq→eq p.name n t ∙ sym same, g.0)
Found-Granted ((n, c) ∷ rest) (p ∷ ps) rows role_id grants name d f g (inr m) =
    Found-Granted rest ps rows role_id grants name d f.1 g.1 m

Holds-assigned :
    (later tenant_id user_id role_id : ℕ) (assignments : List UserRole)
    → any (is_assignment tenant_id user_id role_id) assignments ≡ true
    → Lasting assignments
    → Holds later tenant_id user_id assignments role_id
Holds-assigned later tenant_id user_id role_id assignments e h =
    let (a, m, t) = any-Has (is_assignment tenant_id user_id role_id) assignments e in
    let none' : a.expires_at ≡ none = All-Has (λ a. a.expires_at ≡ none) assignments h m in
    (a, m, ground arith, ground arith, ground arith, rw none' tt)

module _ (print : ℕ → Text) (parse : Text → Option ℕ) (settings : Settings) where
  -- The tenant and the user of these ids are in the tables, and the user has the permission.
  abbrev pub IsPermitted : ℕ → ℕ → ℕ → Text → Store → Type 0
  IsPermitted later entra_tenant_id object_id name s =
      (tenant : Tenant) × (user : User) × (p : Permission) × Has tenant s.tenants
      × (tenant.identity_scope_key ≡ identity_scope_key print entra_tenant_id 0)
      × Has user s.users
      × (user.tenant_id ≡ tenant.id)
      × (user.entra_object_id ≡ object_id)
      × (p.name ≡ name)
      × Has p (
          effective_permissions later tenant.id user.id s.permissions s.role_permissions s.roles
            s.user_roles)

  with_admin-IsPermitted :
      (now later entra object_id : ℕ) (ps : List Permission) (store : Store) (name d : Text)
      → Lasting store.user_roles
      → Found all_permissions ps store.permissions
      → Has (name, d) all_permissions
      → let (tenant, role, made) = with_tenant print parse settings ps entra store in
        IsPermitted later entra object_id name
          (with_admin print parse settings now object_id tenant.id role.id made)
  unfolding with_tenant with_admin
  with_admin-IsPermitted now later entra object_id ps store name d lasting f m =
      let key = identity_scope_key print entra 0 in
      let tenant = (tenant_of print parse settings entra store).0 in
      let next = (tenant_of print parse settings entra store).2 in
      let (role, roles, next') =
        ensure (is_role tenant.id admin_name) (new_role tenant.id) store.roles next in
      let make = new_user now tenant.id object_id settings.bootstrap_admin_name in
      let (user, users, _) = ensure (is_user tenant.id object_id) make store.users next' in
      let grants = grant_each role.id ps store.role_permissions in
      let assignments = assign_role now tenant.id user.id role.id store.user_roles in
      let (t, tk) = find-Has (has_scope key) (tenant_of print parse settings entra store).1 (
        ensure-find (has_scope key) (new_tenant entra key settings.bootstrap_tenant_name)
          store.tenants store.next_id (λ id. text_eq_refl key)) in
      let (r, _) = find-Has (is_role tenant.id admin_name) roles (
        ensure-find (is_role tenant.id admin_name) (new_role tenant.id) store.roles next
          (λ id. rw (==-refl tenant.id) (text_eq_refl admin_name))) in
      let (u, uk) = find-Has (is_user tenant.id object_id) users (
        ensure-find (is_user tenant.id object_id) make store.users next'
          (λ id. rw (==-refl tenant.id, ==-refl object_id) refl)) in
      let (p, pm, pn, granted) =
        Found-Granted all_permissions ps store.permissions role.id grants name d f
          (grant_each-Granted role.id ps store.role_permissions) m in
      let (g, gm, gk) = any-Has (is_grant role.id p.id) grants granted in
      let holds =
        Holds-assigned later tenant.id user.id role.id assignments
          (assign_role-assigned now tenant.id user.id role.id store.user_roles)
          (assign_role-Lasting now tenant.id user.id role.id store.user_roles lasting) in
      (
        tenant,
        user,
        p,
        t,
        text_eq→eq _ _ tk,
        u,
        ground arith,
        ground arith,
        pn,
        (effective_permissions_lem later tenant.id user.id store.permissions grants roles
              assignments p).1
            (pm, (g, role, gm, r, ground arith, ground arith, holds)),
      )

  -- Where no assignment expires, after a start with a configured tenant and administrator this user
  -- of this tenant has every permission of the list, whatever was in the tables before.
  pub bootstrap_identity_permits :
      (now later entra object_id : ℕ) (store after : Store) (name d : Text)
      → bootstrap_identity print parse settings now store ≡ reply after
      → configured print parse settings settings.bootstrap_tenant_id ≡ reply (some entra)
      → configured print parse settings settings.bootstrap_admin_object_id ≡ reply (some object_id)
      → Lasting store.user_roles
      → Has (name, d) all_permissions
      → IsPermitted later entra object_id name after
  unfolding bootstrap_identity
  bootstrap_identity_permits now later entra object_id store after name d e t a lasting m =
      let (ps, store') = seeded print parse settings store in
      let (tenant, role, made) = with_tenant print parse settings ps entra store' in
      let final = with_admin print parse settings now object_id tenant.id role.id made in
      let admin =
        λ (o : Option ℕ). reply (admin_step print parse settings now tenant role made o) in
      let start = λ (o : Option ℕ). tenant_step print parse settings now ps store' o in
      let run : bootstrap_identity print parse settings now store ≡ reply final =
        reply->>= (configured print parse settings settings.bootstrap_tenant_id) start (some entra)
          t
          (reply->>= (configured print parse settings settings.bootstrap_admin_object_id) admin
            (some object_id) a refl) in
      let same : final ≡ after = cc (run, e) in
      rw (← same) (
        with_admin-IsPermitted now later entra object_id ps store' name d lasting
          (ensure_permissions-Found all_permissions store.permissions store.next_id) m)
