-- ===== src/Identity/Access/Permits.antt =====
-- Whom another service lets in on the word of the identity service.
use sentinel_keyvault.Common.{
  text_le, ℕ, ◌≡◌, ◌⊎◌, inl, inr, refl, sym, ap, ◌∙◌, Bool, true, some, List, [], ◌∷◌, Text,
  text_in, text_in-Has, Has-text_in, get, find-Has, ◌&&◌, ◌==◌, ==→eq, arith, Has, order_by,
  order_by-Has, Has-order_by, Bool-cases, if◌then◌else◌,
}
use Prim.Native.Nat.{◌/◌}
use sentinel_keyvault.Platform.Reply.{Reply, reply}
use sentinel_keyvault.Platform.Settings.{Settings, present}
use sentinel_keyvault.Platform.Jwt.{Jwt}
use sentinel_keyvault.Platform.Python.{Python}
use sentinel_keyvault.Platform.Actor.{ActorContext, get_actor, require_permission}
use sentinel_keyvault.Platform.Auth.{SigningKeys}
use sentinel_keyvault.Identity.Models.{Tenant, User, Permission, Store, is_active_status}
use sentinel_keyvault.Identity.Permissions.{names_of, effective_permissions}
use sentinel_keyvault.Identity.Repository.{get_user_by_id, get_tenant_by_id}
use sentinel_keyvault.Identity.Service.{
  ResolvedIdentity, Resolution, resolved, Denial, denied, session_identity, resolve_session,
}
use sentinel_keyvault.Identity.Service.Guards.{resolve_session_guards}
use sentinel_keyvault.Identity.Session.{SessionClaims, decode}
use sentinel_keyvault.Identity.Access.{
  answer_of, Credentials, get_identity, profile_of, profile_answer,
}

names_of-Has :
    (ps : List Permission) (name : Text)
    → Has name (names_of ps)
    → (p : Permission) × Has p ps × (p.name ≡ name)
names_of-Has [] name m = absurd m
names_of-Has (p ∷ ps) name (inl e) = (p, inl refl, sym e)
names_of-Has (p ∷ ps) name (inr m) = let (q, k, e) = names_of-Has ps name m in (q, inr k, e)

Has-names_of : (ps : List Permission) (p : Permission) → Has p ps → Has p.name (names_of ps)
Has-names_of [] p m = absurd m
Has-names_of (q ∷ ps) p (inl e) = inl (ap (λ x. x.name) e)
Has-names_of (q ∷ ps) p (inr m) = inr (Has-names_of ps p m)

-- The actor that another service has of the identity.
abbrev pub acting : ℕ → ResolvedIdentity → ActorContext
acting correlation_id identity = record {
  tenant_id = identity.tenant.id;
  entra_tenant_id = identity.tenant.entra_tenant_id;
  actor_id = identity.user.id;
  entra_object_id = identity.user.entra_object_id;
  display_name = identity.user.display_name;
  principal_name = identity.user.principal_name;
  permissions = order_by text_le (names_of identity.permissions);
  correlation_id = correlation_id;
}

module _ (permission : Text) (correlation_id : ℕ) where
  -- The check of another service, on the outcome of `get_identity`.
  abbrev pub attempt : Reply ResolvedIdentity → Reply ActorContext
  attempt outcome =
      require_permission permission (get_actor correlation_id (profile_answer outcome))

  attempt-permission :
      (identity : ResolvedIdentity) (actor : ActorContext)
      → attempt (reply identity) ≡ reply actor
      → ((p : Permission) × Has p identity.permissions × (p.name ≡ permission))
        × (actor ≡ acting correlation_id identity)
  unfolding require_permission get_actor profile_of
  attempt-permission identity actor e =
      let names = order_by text_le (names_of identity.permissions) in
      elim (Bool-cases (text_in permission names)) [
        | inr out ↦ let q = rw out at e in absurd (cc)
        | inl held ↦
            let q : reply (acting correlation_id identity) ≡ reply actor = rw held at e in
            (
              names_of-Has identity.permissions permission (
                  order_by-Has text_le (names_of identity.permissions) permission
                    (text_in-Has permission names held)),
              cc,
            )
      ]

  permission-attempt :
      (identity : ResolvedIdentity) (p : Permission)
      → Has p identity.permissions
      → p.name ≡ permission
      → attempt (reply identity) ≡ reply (acting correlation_id identity)
  unfolding require_permission get_actor profile_of
  permission-attempt identity p m e =
      let held = Has-text_in permission (order_by text_le (names_of identity.permissions)) (
        Has-order_by text_le (names_of identity.permissions) permission
          (rw (← e) (Has-names_of identity.permissions p m))) in
      rw held refl

  attempt-denied :
      (d : Denial) (actor : ActorContext) → ¬ attempt (answer_of (denied d)) ≡ reply actor
  unfolding require_permission get_actor
  attempt-denied Denial.not_onboarded actor e = cc
  attempt-denied Denial.tenant_not_active actor e = cc
  attempt-denied Denial.user_disabled actor e = cc
  attempt-denied Denial.session_user_not_active actor e = cc

Resolution-cases :
    (r : Resolution)
    → ((identity : ResolvedIdentity) × (r ≡ resolved identity)) ⊎ ((d : Denial) × (r ≡ denied d))
Resolution-cases (resolved identity) = inl (identity, refl)
Resolution-cases (denied d) = inr (d, refl)

-- The user and the tenant of the session are there and active, and a permission of that name is
-- among those in force.
abbrev pub MayAct : ℕ → Text → SessionClaims → Store → Type 0
MayAct now permission claims store =
    (user : User) × (tenant : Tenant) × (p : Permission) × (get_user_by_id claims.tenant_id
        claims.user_id store.users
      ≡ some user)
    × (get_tenant_by_id claims.tenant_id store.tenants ≡ some tenant)
    × (user.is_active ≡ true)
    × (is_active_status tenant.status ≡ true)
    × Has p (
        effective_permissions now claims.tenant_id claims.user_id store.permissions
          store.role_permissions store.roles store.user_roles)
    × (p.name ≡ permission)

on_true : {A : Type 0} (b : Bool) (x y : A) → b ≡ true → (if b then x else y) ≡ x
on_true b x y e = rw e refl

MayAct-resolved :
    (now : ℕ) (tenant_id user_id : ℕ) (store : Store) (user : User) (tenant : Tenant)
    → get_user_by_id tenant_id user_id store.users ≡ some user
    → get_tenant_by_id tenant_id store.tenants ≡ some tenant
    → user.is_active ≡ true
    → is_active_status tenant.status ≡ true
    → resolve_session now tenant_id user_id store
      ≡ resolved (session_identity now tenant_id user_id tenant user store)
unfolding resolve_session
MayAct-resolved now tenant_id user_id store user tenant u t a s =
    rw (u, resolve_session)
      (on_true user.is_active _ _ a
        ∙ rw (t, resolve_session) (on_true (is_active_status tenant.status) _ _ s))

found_ids :
    (tenant_id user_id : ℕ) (store : Store) (user : User) (tenant : Tenant)
    → get_user_by_id tenant_id user_id store.users ≡ some user
    → get_tenant_by_id tenant_id store.tenants ≡ some tenant
    → (tenant.id ≡ tenant_id) × (user.id ≡ user_id)
unfolding get_user_by_id get_tenant_by_id
found_ids tenant_id user_id store user tenant u t =
    let hit =
      (find-Has (λ (u : User). u.tenant_id == tenant_id && u.id == user_id) store.users u).1 in
    let home = (find-Has (λ (t : Tenant). t.id == tenant_id) store.tenants t).1 in
    (==→eq tenant.id tenant_id home, ground arith)

module _ (jwt : Jwt) (keys : SigningKeys) (python : Python) (settings : Settings)
    (now correlation_id : ℕ) (permission : Text) (store : Store) (credentials : Credentials)
    (token : Text) (claims : SessionClaims)
    (cookie : present (get settings.session_cookie_name credentials.cookies) ≡ some token)
    (valid : decode python jwt settings (now / 1000000) token ≡ reply claims) where
  outcome-session :
      (get_identity jwt keys python settings now credentials store).0
      ≡ answer_of (resolve_session now claims.tenant_id claims.user_id store)
  unfolding get_identity
  outcome-session = rw (cookie, get_identity) (rw valid refl)

  -- A request that brings a valid session's token passes the check of a permission in another
  -- service exactly if the session's user and tenant are there and active and the user has the
  -- permission in force; and the service then acts for the session's own tenant and user.
  pub permits_lem :
      let answer =
        attempt permission correlation_id
          (get_identity jwt keys python settings now credentials store).0 in
      ((actor : ActorContext)
        → answer ≡ reply actor
        → MayAct now permission claims store
          × (actor.tenant_id ≡ claims.tenant_id)
          × (actor.actor_id ≡ claims.user_id))
      × (MayAct now permission claims store → (actor : ActorContext) × (answer ≡ reply actor))
  permits_lem = rw outcome-session (passed, passes)
    where
      passed :
          (actor : ActorContext)
          → attempt permission correlation_id
              (answer_of (resolve_session now claims.tenant_id claims.user_id store))
            ≡ reply actor
          → MayAct now permission claims store
            × (actor.tenant_id ≡ claims.tenant_id)
            × (actor.actor_id ≡ claims.user_id)
      passed actor e =
          elim (Resolution-cases (resolve_session now claims.tenant_id claims.user_id store)) [
            | inr (d, r) ↦ absurd (attempt-denied permission correlation_id d actor (rw r at e))
            | inl (identity, r) ↦
                let (u, t, a, s, ps) =
                  resolve_session_guards now claims.tenant_id claims.user_id store identity r in
                let ((p, m, n), same) =
                  attempt-permission permission correlation_id identity actor (rw r at e) in
                let (home, own) =
                  found_ids claims.tenant_id claims.user_id store identity.user identity.tenant u
                    t in
                (
                  (identity.user, identity.tenant, p, u, t, a, s, rw (← ps) m, n),
                  ap (λ x. x.tenant_id) same ∙ home,
                  ap (λ x. x.actor_id) same ∙ own,
                )
          ]

      passes :
          MayAct now permission claims store
          → (actor : ActorContext) × (attempt permission correlation_id
                (answer_of (resolve_session now claims.tenant_id claims.user_id store))
              ≡ reply actor)
      passes (user, tenant, p, u, t, a, s, m, n) =
          let identity = session_identity now claims.tenant_id claims.user_id tenant user store in
          (
            acting correlation_id identity,
            rw (MayAct-resolved now claims.tenant_id claims.user_id store user tenant u t a s)
                (permission-attempt permission correlation_id identity p m n),
          )
