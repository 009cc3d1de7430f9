-- ===== src/Identity/SignIn/Guards.antt =====
-- What the handler `callback` does for a sign-in.
use sentinel_keyvault.Common.{
  ℕ, suc, ◌≡◌, inl, inr, refl, Bool, none, [], ◌∷◌, ◌++◌, Text, codes, get, Option-cases,
}
use Prim.Native.Nat.{◌/◌}
use sentinel_keyvault.Platform.Json.{Json}
use sentinel_keyvault.Platform.Reply.{reply, refused, raised, >>=-eq-reply, Reply-cases}
use sentinel_keyvault.Platform.Settings.{Settings, present}
use sentinel_keyvault.Platform.Outbox.{OutboxRecord, enqueue_audit}
use sentinel_keyvault.Platform.Jwt.{Jwt}
use sentinel_keyvault.Platform.Python.{Python}
use sentinel_keyvault.Platform.Auth.{SigningKeys, TokenPrincipal}
use sentinel_keyvault.Identity.Models.{Store}
use sentinel_keyvault.Identity.Account.{refresh_authority}
use sentinel_keyvault.Identity.Service.{ResolvedIdentity, onboard_oauth_user}
use sentinel_keyvault.Identity.Session.{encode, Fernet}
use sentinel_keyvault.Identity.Microsoft.{Post, scopes}
use sentinel_keyvault.Identity.Storage.{Creation}
use sentinel_keyvault.Identity.Login.{Response, tenant_cookie}
use sentinel_keyvault.Identity.SignIn.{
  Callback, World, authenticate, sign_in, recorded, claims_of, signed_in_response, respond,
  callback,
}
use sentinel_keyvault.Identity.SignIn.Identified.{Authenticated, authenticate-Authenticated}

module _ (jwt : Jwt) (keys : SigningKeys) (python : Python) (fernet : Fernet)
    (settings : Settings) where
  -- The tables that a sign-in leaves: the onboarded user's, with two more keys used.
  abbrev pub onboarding : ℕ → Callback → TokenPrincipal → Text → Store → ResolvedIdentity × Store
  onboarding now request principal encrypted store =
      onboard_oauth_user python.print_uuid now principal
        record {
          tenant_display_name = none;
          encrypted_refresh_token = encrypted;
          scopes = scopes;
          token_authority =
              refresh_authority python.print_uuid principal.entra_tenant_id
                (get tenant_cookie request.cookies);
        }
        store

  encode_never_refused :
      (now : ℕ) (identity : ResolvedIdentity) (s : ℕ) (d : Json)
      → ¬ respond jwt keys python fernet settings now identity ≡ refused s d
  unfolding encode
  encode_never_refused now identity s d e =
      elim (Option-cases (present settings.session_signing_key)) [
        | inl k ↦ let q : raised ≡ refused s d = rw (k, encode) at e in absurd (cc)
        | inr (key, k) ↦ let q = rw (k, encode) at e in absurd (cc)
      ]

  recorded-keeps :
      (creation : Creation) (uploaded : Bool) (now id : ℕ) (identity : ResolvedIdentity)
      (world : World)
      → let after =
          recorded jwt keys python fernet settings creation uploaded now id identity world in
        (after.store ≡ world.store) × (after.outbox ≡ world.outbox)
  recorded-keeps creation uploaded now id identity world = elim (Option-cases world.recorder) [
    | inl e ↦ rw e (refl, refl)
    | inr (r, e) ↦ rw e (refl, refl)
  ]

  module _ (post : Post) (creation : Creation) (uploaded : Bool) (now : ℕ) (request : Callback)
      (world : World) where
    -- The sign-in of the principal, and the answer with a new session's token.
    abbrev pub SignedIn : TokenPrincipal → Text → Response → World → Type 0
    SignedIn principal encrypted response after =
        let (identity, store) = onboarding now request principal encrypted world.store in
        (after.store ≡ record store { next_id = suc (suc store.next_id) })
        × ((row : OutboxRecord) × (after.outbox ≡ world.outbox ++ row ∷ [])
            × (row.tenant_id ≡ identity.tenant.id)
            × (row.payload.action ≡ codes "identity.login")
            × (row.payload.actor_id ≡ python.print_uuid identity.user.id))
        × ((token : Text) × (encode python jwt settings (now / 1000000)
                (claims_of jwt keys python fernet settings identity)
              ≡ reply token)
            × (response ≡ signed_in_response jwt keys python fernet settings token))

    replied :
        (principal : TokenPrincipal) (encrypted : Text) (response : Response)
        → let (identity, after) =
            sign_in jwt keys python fernet settings now request (principal, encrypted) world in
          respond jwt keys python fernet settings now identity ≡ reply response
          → SignedIn principal encrypted response (
              recorded jwt keys python fernet settings creation uploaded now request.correlation_id
                identity after)
    unfolding enqueue_audit
    replied principal encrypted response e =
        let (identity, after) =
          sign_in jwt keys python fernet settings now request (principal, encrypted) world in
        let (st, out) =
          recorded-keeps creation uploaded now request.correlation_id identity after in
        let (token, t, f) =
          >>=-eq-reply
            (encode python jwt settings (now / 1000000)
              (claims_of jwt keys python fernet settings identity))
            (λ (t : Text). reply (signed_in_response jwt keys python fernet settings t)) e in
        (st, (_, out, refl, refl, refl), (token, t, cc))

    -- A sign-in is answered only where the browser brings the state that the request names and the
    -- verifier of its login, and Microsoft's answer for the code and this verifier has a valid id
    -- token, of the tenant that the login asked for if it asked for one, and a refresh token. Then
    -- the tables are those of the onboarding, the outbox has one more record, the login of this user,
    -- and the answer's cookie is the token of a session of the user. Whatever is refused leaves the
    -- tables, the outbox and the recorded logins as they were.
    pub callback_lem :
        let (answer, after) =
          callback jwt keys python fernet settings post creation uploaded now request world in
        ((response : Response)
          → answer ≡ reply response
          → (principal : TokenPrincipal) × (encrypted : Text) × Authenticated jwt keys python fernet
              settings post now request principal encrypted
            × SignedIn principal encrypted response after)
        × ((s : ℕ) (d : Json) → answer ≡ refused s d → after ≡ world)
    unfolding callback
    callback_lem =
        elim (Reply-cases (authenticate jwt keys python fernet settings post now request)) [
          | inl ((principal, encrypted), a) ↦
              rw (a, callback)
                (
                  λ response e. (
                    principal,
                    encrypted,
                    authenticate-Authenticated jwt keys python fernet settings post now request
                        principal encrypted a,
                    replied principal encrypted response e,
                  ),
                  λ s d e. absurd (
                      encode_never_refused now
                        (sign_in jwt keys python fernet settings now request (principal, encrypted)
                          world).0
                        s d e),
                )
          | inr (inl (s, d, a)) ↦ rw (a, callback) (λ response e. absurd (cc), λ s d e. refl)
          | inr (inr a) ↦ rw (a, callback) (λ response e. absurd (cc), λ s d e. refl)
        ]
