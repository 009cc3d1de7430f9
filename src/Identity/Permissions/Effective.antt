-- ===== src/Identity/Permissions/Effective.antt =====
-- What a user may do: the permissions of the roles in force.
use sentinel_keyvault.Common.{
  text_le, ℕ, sym, ◌≡◌, ◌<◌, ◌↔◌, refl, Bool, true, false, ◌&&◌, inl, inr, Option, none, some, List,
  [], ◌∷◌, arith, ltb→lt, ◌==◌, ==→eq, ==-refl, any, select, Has, Has-select, select-Has,
  order_by-Has, Has-order_by, Bool-cases,
}
use sentinel_keyvault.Identity.Models.{Role, Permission, RolePermission, UserRole}
use sentinel_keyvault.Identity.Permissions.{in_force, assigns, grants_to, effective_permissions}

pub any-Has :
    {A : Type 0} (p : A → Bool) (xs : List A) → any p xs ≡ true → (x : A) × Has x xs × (p x ≡ true)
any-Has p [] e = absurd (cc)
any-Has p (x ∷ xs) e = elim (Bool-cases (p x)) [
  | inl t ↦ (x, inl refl, t)
  | inr t ↦ let (y, m, u) = any-Has p xs (rw t at e) in (y, inr m, u)
]

Has-any :
    {A : Type 0} (p : A → Bool) (xs : List A) (x : A) → Has x xs → p x ≡ true → any p xs ≡ true
Has-any p [] x m t = absurd m
Has-any p (y ∷ xs) x (inl q) t = let u : p y ≡ true = rw (← q) t in rw u refl
Has-any p (y ∷ xs) x (inr m) t = elim (Bool-cases (p y)) [
  | inl u ↦ rw u refl
  | inr u ↦ rw u (Has-any p xs x m t)
]

-- An assignment with no expiry, or with one that is yet to come.
abbrev pub Unexpired : ℕ → Option ℕ → Type 0
Unexpired now none = Unit
Unexpired now (some t) = now < t

in_force-Unexpired : (now : ℕ) (o : Option ℕ) → in_force now o ≡ true → Unexpired now o
in_force-Unexpired now none e = tt
in_force-Unexpired now (some t) e = ltb→lt now t e

Unexpired-in_force : (now : ℕ) (o : Option ℕ) → Unexpired now o → in_force now o ≡ true
Unexpired-in_force now none h = refl
Unexpired-in_force now (some t) h = ground arith

-- The role is assigned to the user in the tenant, and the assignment is in force at `now`.
abbrev pub Holds : ℕ → ℕ → ℕ → List UserRole → ℕ → Type 0
Holds now tenant_id user_id assignments role_id =
    (a : UserRole) × Has a assignments
    × (a.tenant_id ≡ tenant_id)
    × (a.user_id ≡ user_id)
    × (a.role_id ≡ role_id)
    × Unexpired now a.expires_at

assigns-fields :
    (now tenant_id user_id role_id : ℕ) (a : UserRole)
    → assigns now tenant_id user_id role_id a ≡ true
    → (a.tenant_id ≡ tenant_id)
      × (a.user_id ≡ user_id)
      × (a.role_id ≡ role_id)
      × (in_force now a.expires_at ≡ true)
assigns-fields now tenant_id user_id role_id a e = ground arith

fields-assigns :
    (now tenant_id user_id role_id : ℕ) (a : UserRole)
    → a.tenant_id ≡ tenant_id
    → a.user_id ≡ user_id
    → a.role_id ≡ role_id
    → in_force now a.expires_at ≡ true
    → assigns now tenant_id user_id role_id a ≡ true
fields-assigns now tenant_id user_id role_id a t u r f = ground arith

both : (a b : Bool) → (a && b) ≡ true → (a ≡ true) × (b ≡ true)
both true b e = (refl, e)
both false b e = absurd (cc)

-- A user has a permission exactly if some role of the tables is assigned to the user in this
-- tenant, by an assignment that has not expired, and the permission is granted to that role.
pub effective_permissions_lem :
    (now tenant_id user_id : ℕ) (permissions : List Permission) (grants : List RolePermission)
    (roles : List Role) (assignments : List UserRole) (p : Permission)
    → Has p (effective_permissions now tenant_id user_id permissions grants roles assignments) ↔ (
        Has p permissions
        × ((g : RolePermission) × (r : Role) × Has g grants
            × Has r roles
            × (g.permission_id ≡ p.id)
            × (g.role_id ≡ r.id)
            × Holds now tenant_id user_id assignments r.id))
unfolding effective_permissions
effective_permissions_lem now tenant_id user_id permissions grants roles assignments p = (
  (λ m.
      let kept =
        select (λ p. any (grants_to now tenant_id user_id roles assignments p.id) grants)
          permissions in
      let (h, t) =
        select-Has (λ p. any (grants_to now tenant_id user_id roles assignments p.id) grants)
          permissions (order_by-Has (λ p q. text_le p.name q.name) kept p m) in
      let (g, k, e) = any-Has (grants_to now tenant_id user_id roles assignments p.id) grants t in
      let (same, ex) = both (g.permission_id == p.id) _ e in
      let (r, l, f) =
        any-Has (λ r. r.id == g.role_id && any (assigns now tenant_id user_id r.id) assignments)
          roles ex in
      let (role, ay) = both (r.id == g.role_id) _ f in
      let (a, n, w) = any-Has (assigns now tenant_id user_id r.id) assignments ay in
      let (t1, t2, t3, t4) = assigns-fields now tenant_id user_id r.id a w in
      (
        h,
        (
          g,
          r,
          k,
          l,
          ==→eq g.permission_id p.id same,
          sym (==→eq r.id g.role_id role),
          (a, n, t1, t2, t3, in_force-Unexpired now a.expires_at t4),
        ),
      )),
  (λ (h, (g, r, k, l, same, role, (a, n, t1, t2, t3, t4))).
      let kept =
        select (λ p. any (grants_to now tenant_id user_id roles assignments p.id) grants)
          permissions in
      let w =
        fields-assigns now tenant_id user_id r.id a t1 t2 t3
          (Unexpired-in_force now a.expires_at t4) in
      let ay = Has-any (assigns now tenant_id user_id r.id) assignments a n w in
      let f : (r.id == g.role_id && any (assigns now tenant_id user_id r.id) assignments) ≡ true =
        rw (role, ==-refl r.id, ay) refl in
      let ex =
        Has-any (λ r. r.id == g.role_id && any (assigns now tenant_id user_id r.id) assignments)
          roles r l f in
      let e : grants_to now tenant_id user_id roles assignments p.id g ≡ true =
        rw (same, ==-refl p.id, ex) refl in
      let t = Has-any (grants_to now tenant_id user_id roles assignments p.id) grants g k e in
      Has-order_by (λ p q. text_le p.name q.name) kept p
        (Has-select (λ p. any (grants_to now tenant_id user_id roles assignments p.id) grants)
          permissions h t)),
)
