-- ===== src/Identity/Bootstrap/Grants.antt =====
-- The grants and assignments that `bootstrap_identity` adds where there is none.
use sentinel_keyvault.Common.{
  ℕ, ◌≡◌, inl, inr, refl, Bool, true, List, [], ◌∷◌, ◌++◌, ==-refl, any, Bool-cases,
}
use sentinel_keyvault.Identity.Models.{Permission, RolePermission, UserRole}
use sentinel_keyvault.Identity.Repository.{is_grant, is_assignment, grant_each, assign_role}

any-append_one :
    {A : Type 0} (q : A → Bool) (xs : List A) (y : A)
    → any q xs ≡ true
    → any q (xs ++ y ∷ []) ≡ true
any-append_one q [] y e = absurd (cc)
any-append_one q (x ∷ xs) y e = elim (Bool-cases (q x)) [
  | inl t ↦ rw t refl
  | inr t ↦ rw t (any-append_one q xs y (rw t at e))
]

any-append_last :
    {A : Type 0} (q : A → Bool) (xs : List A) (y : A) → q y ≡ true → any q (xs ++ y ∷ []) ≡ true
any-append_last q [] y e = rw e refl
any-append_last q (x ∷ xs) y e = elim (Bool-cases (q x)) [
  | inl t ↦ rw t refl
  | inr t ↦ rw t (any-append_last q xs y e)
]

-- The permissions are granted to the role.
abbrev pub Granted : ℕ → List Permission → List RolePermission → Type 0
Granted role_id [] grants = Unit
Granted role_id (p ∷ ps) grants =
    (any (is_grant role_id p.id) grants ≡ true) × Granted role_id ps grants

grant_each-keeps :
    (role_id : ℕ) (ps : List Permission) (grants : List RolePermission) (q : RolePermission → Bool)
    → any q grants ≡ true
    → any q (grant_each role_id ps grants) ≡ true
unfolding grant_each
grant_each-keeps role_id [] grants q e = e
grant_each-keeps role_id (p ∷ ps) grants q e =
    elim (Bool-cases (any (is_grant role_id p.id) grants)) [
      | inl t ↦ rw t (grant_each-keeps role_id ps grants q e)
      | inr t ↦ rw t (grant_each-keeps role_id ps _ q (any-append_one q grants _ e))
    ]

pub grant_each-Granted :
    (role_id : ℕ) (ps : List Permission) (grants : List RolePermission)
    → Granted role_id ps (grant_each role_id ps grants)
unfolding grant_each
grant_each-Granted role_id [] grants = tt
grant_each-Granted role_id (p ∷ ps) grants =
    elim (Bool-cases (any (is_grant role_id p.id) grants)) [
      | inl t ↦ rw t (grant_each-keeps role_id ps grants _ t, grant_each-Granted role_id ps grants)
      | inr t ↦
          let added : RolePermission = record { role_id = role_id; permission_id = p.id } in
          let own : is_grant role_id p.id added ≡ true = rw (==-refl role_id, ==-refl p.id) refl in
          rw t (
            grant_each-keeps role_id ps (grants ++ added ∷ []) (is_grant role_id p.id)
                (any-append_last (is_grant role_id p.id) grants added own),
            grant_each-Granted role_id ps (grants ++ added ∷ []),
          )
    ]

pub Granted-grant_each :
    (role_id : ℕ) (ps : List Permission) (grants : List RolePermission)
    → Granted role_id ps grants
    → grant_each role_id ps grants ≡ grants
unfolding grant_each
Granted-grant_each role_id [] grants g = refl
Granted-grant_each role_id (p ∷ ps) grants g = rw g.0 (Granted-grant_each role_id ps grants g.1)

pub assign_role-assigned :
    (now tenant_id user_id role_id : ℕ) (assignments : List UserRole)
    → any
        (is_assignment tenant_id user_id role_id)
        (assign_role now tenant_id user_id role_id assignments)
      ≡ true
unfolding assign_role
assign_role-assigned now tenant_id user_id role_id assignments =
    elim (Bool-cases (any (is_assignment tenant_id user_id role_id) assignments)) [
      | inl e ↦ rw e e
      | inr e ↦ rw e (
          any-append_last (is_assignment tenant_id user_id role_id) assignments _
            (rw (==-refl tenant_id, ==-refl user_id, ==-refl role_id) refl))
    ]

pub assigned-assign_role :
    (now tenant_id user_id role_id : ℕ) (assignments : List UserRole)
    → any (is_assignment tenant_id user_id role_id) assignments ≡ true
    → assign_role now tenant_id user_id role_id assignments ≡ assignments
unfolding assign_role
assigned-assign_role now tenant_id user_id role_id assignments e = rw e refl
