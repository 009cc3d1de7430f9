-- ===== src/Identity/Service/Onboarding.antt =====
-- What a sign-in gives to whom.
use sentinel_keyvault.Common.{
  ℕ, suc, ◌≡◌, refl, sym, ap, ◌∙◌, true, false, ◌⊎◌, inl, inr, some, List, [], ◌∷◌, ◌++◌, arith,
  Text, codes, text_eq→eq, ◌==◌, any, find, find-Has, select, select-Has, Has, append_one-Has,
  Has-append_last, Bool-cases, Option-cases, if◌then◌else◌,
}
use sentinel_keyvault.Platform.Auth.{TokenPrincipal}
use sentinel_keyvault.Identity.Models.{Tenant, Role, Permission, RolePermission, UserRole, Store}
use sentinel_keyvault.Identity.Account.{identity_scope_key}
use sentinel_keyvault.Identity.Repository.{
  get_tenant_by_scope_key, get_or_create_tenant, count_users, is_role, get_or_create_role, is_grant,
  grant_each, has_name, grant_permissions, is_assignment, assign_role,
}
use sentinel_keyvault.Identity.Service.{
  Connection, permission_names, tenant_step, user_step, is_first, role_step, onboard_oauth_user,
  role_name, role_description,
}

suc_not_zero : (n : ℕ) → (suc n == 0) ≡ false
suc_not_zero n = ground arith

assign_role-Has :
    (now tenant_id user_id role_id : ℕ) (assignments : List UserRole) (a : UserRole)
    → Has a (assign_role now tenant_id user_id role_id assignments)
    → Has a assignments
      ⊎ ((a.tenant_id ≡ tenant_id) × (a.user_id ≡ user_id) × (a.role_id ≡ role_id))
unfolding assign_role
assign_role-Has now tenant_id user_id role_id assignments a m =
    elim (Bool-cases (any (is_assignment tenant_id user_id role_id) assignments)) [
      | inl e ↦ inl (rw e at m)
      | inr e ↦ elim (append_one-Has assignments _ a (rw e at m)) [
        | inl k ↦ inl k
        | inr q ↦ inr (ap (λ x. x.tenant_id) q, ap (λ x. x.user_id) q, ap (λ x. x.role_id) q)
      ]
    ]

grant_each-Has :
    (role_id : ℕ) (ps : List Permission) (grants : List RolePermission) (g : RolePermission)
    → Has g (grant_each role_id ps grants)
    → Has g grants
      ⊎ ((p : Permission) × Has p ps × (g.permission_id ≡ p.id) × (g.role_id ≡ role_id))
unfolding grant_each
grant_each-Has role_id [] grants g m = inl m
grant_each-Has role_id (p ∷ ps) grants g m =
    let next =
      if any (is_grant role_id p.id) grants
      then grants
      else grants ++ record { role_id = role_id; permission_id = p.id } ∷ [] in
    elim (grant_each-Has role_id ps next g m) [
      | inr (q, k, e, f) ↦ inr (q, inr k, e, f)
      | inl k ↦ elim (Bool-cases (any (is_grant role_id p.id) grants)) [
        | inl t ↦ inl (rw t at k)
        | inr t ↦ elim (append_one-Has grants _ g (rw t at k)) [
          | inl old ↦ inl old
          | inr q ↦ inr (p, inl refl, ap (λ x. x.permission_id) q, ap (λ x. x.role_id) q)
        ]
      ]
    ]

get_or_create_role-named :
    (tenant_id : ℕ) (name description : Text) (roles : List Role) (next_id : ℕ)
    → Has
        (get_or_create_role tenant_id name description roles next_id).0
        (get_or_create_role tenant_id name description roles next_id).1
      × ((get_or_create_role tenant_id name description roles next_id).0.name ≡ name)
      × ((get_or_create_role tenant_id name description roles next_id).0.tenant_id ≡ tenant_id)
unfolding get_or_create_role
get_or_create_role-named tenant_id name description roles next_id =
    elim (Option-cases (find (is_role tenant_id name) roles)) [
      | inl e ↦ rw (e, get_or_create_role) (Has-append_last roles _, refl, refl)
      | inr (role, e) ↦
          let (m, t) = find-Has (is_role tenant_id name) roles e in
          rw (e, get_or_create_role) (m, named role t, of role t)
    ]
  where
    named : (role : Role) → is_role tenant_id name role ≡ true → role.name ≡ name
    named role t = ground (arith, text_eq→eq role.name name)

    of : (role : Role) → is_role tenant_id name role ≡ true → role.tenant_id ≡ tenant_id
    of role t = ground arith

grant_permissions-Has :
    (role_id : ℕ) (names : List Text) (ps : List Permission) (grants : List RolePermission)
    (g : RolePermission)
    → Has g (grant_permissions role_id names ps grants)
    → Has g grants
      ⊎ ((p : Permission) × Has p ps
          × (has_name names p ≡ true)
          × (g.permission_id ≡ p.id)
          × (g.role_id ≡ role_id))
unfolding grant_permissions
grant_permissions-Has role_id names ps grants g m =
    elim (grant_each-Has role_id (select (has_name names) ps) grants g m) [
      | inl k ↦ inl k
      | inr (p, k, e, f) ↦ let (h, t) = select-Has (has_name names) ps k in inr (p, h, t, e, f)
    ]

module _ (print : ℕ → Text) (now : ℕ) (principal : TokenPrincipal) (connection : Connection)
    (store : Store) where
  -- The tenant that is there already keeps its id, and is not new.
  known_tenant :
      (t : Tenant)
      → get_tenant_by_scope_key
          (identity_scope_key print principal.entra_tenant_id principal.entra_object_id)
          store.tenants
        ≡ some t
      → ((tenant_step print now principal connection store).0.id ≡ t.id)
        × ((tenant_step print now principal connection store).1 ≡ false)
  unfolding get_or_create_tenant
  known_tenant t e = rw (e, get_or_create_tenant) (refl, refl)

  not_first :
      (t : Tenant) (n : ℕ)
      → get_tenant_by_scope_key
          (identity_scope_key print principal.entra_tenant_id principal.entra_object_id)
          store.tenants
        ≡ some t
      → count_users t.id store.users ≡ suc n
      → is_first print now principal connection store ≡ false
  not_first t n e c =
      let (id, old) = known_tenant t e in
      let users : count_users (tenant_step print now principal connection store).0.id store.users
          ≡ suc n =
        ap (λ i. count_users i store.users) id ∙ c in
      rw (old, users) (suc_not_zero n)

  -- A sign-in to a tenant of Sentinel that has users already adds no role but Reader, and to no user
  -- but the one who signs in: an assignment that was not there is of the role named Reader of this
  -- tenant to this user, and a grant that was not there gives that role one of Reader's permissions.
  pub onboard_oauth_user_adds :
      (t : Tenant) (n : ℕ)
      → get_tenant_by_scope_key
          (identity_scope_key print principal.entra_tenant_id principal.entra_object_id)
          store.tenants
        ≡ some t
      → count_users t.id store.users ≡ suc n
      → let (identity, after) = onboard_oauth_user print now principal connection store in
        (r : Role) × Has r after.roles
        × (r.name ≡ codes "Reader")
        × (r.tenant_id ≡ t.id)
        × ((a : UserRole)
            → Has a after.user_roles
            → Has a store.user_roles
              ⊎ ((a.tenant_id ≡ t.id) × (a.user_id ≡ identity.user.id) × (a.role_id ≡ r.id)))
        × ((g : RolePermission)
            → Has g after.role_permissions
            → Has g store.role_permissions
              ⊎ ((p : Permission) × Has p store.permissions
                  × (has_name (permission_names false) p ≡ true)
                  × (g.permission_id ≡ p.id)
                  × (g.role_id ≡ r.id)))
  onboard_oauth_user_adds t n e c =
      let first = is_first print now principal connection store in
      let tenant = (tenant_step print now principal connection store).0 in
      let user = (user_step print now principal connection store).0 in
      let role = (role_step print now principal connection store).0 in
      let later = not_first t n e c in
      let id = (known_tenant t e).0 in
      let (held, name, of) =
        get_or_create_role-named tenant.id (role_name first) (role_description first) store.roles
          (user_step print now principal connection store).2 in
      (
        role,
        held,
        name ∙ ap role_name later,
        of ∙ id,
        λ a m. elim (assign_role-Has now tenant.id user.id role.id store.user_roles a m) [
          | inl k ↦ inl k
          | inr (p, q, s) ↦ inr (p ∙ id, q, s)
        ],
        λ g m.
            elim (grant_permissions-Has role.id (permission_names first) store.permissions
              store.role_permissions g m) [
                | inl k ↦ inl k
                | inr (p, h, s, u, v) ↦
                    inr (p, h, ap (λ b. has_name (permission_names b) p) (sym later) ∙ s, u, v)
              ],
      )
