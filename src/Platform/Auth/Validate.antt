-- ===== src/Platform/Auth/Validate.antt =====
-- What is known of the principal that `EntraTokenValidator.validate` returns.
use sentinel_keyvault.Common.{
  ℕ, ◌≡◌, ◌⊎◌, refl, sym, ap, ◌∙◌, inl, inr, true, Option, some, List, [], ◌∷◌, Text, codes,
  text_in-Has, get, Has,
}
use sentinel_keyvault.Platform.Json.{Json}
use sentinel_keyvault.Platform.Reply.{
  reply, raised, ◌>>=◌, check, require, >>=-eq-reply, check-eq-reply, require-eq-reply,
  require_raised-eq-reply,
}
use sentinel_keyvault.Platform.Settings.{Settings}
use sentinel_keyvault.Platform.Jwt.{Claim, Claims, Jwt, Agrees}
use sentinel_keyvault.Platform.Python.{Python, set_of}
use sentinel_keyvault.Platform.Auth.{
  TokenPrincipal, SigningKeys, is_allowed, invalid_token, tenant_not_allowed, audience_of,
  checks_for, uuid_claim, built, principal_of, verify, admit, validate,
}

is_allowed-Has : (ts : List Text) (t : Text) → is_allowed ts t ≡ true → (ts ≡ []) ⊎ Has t ts
is_allowed-Has [] t e = inl refl
is_allowed-Has (s ∷ ts) t e = inr (text_in-Has t (s ∷ ts) e)

module _ (jwt : Jwt) (keys : SigningKeys) (python : Python) (settings : Settings) where
  principal_of-fields :
      (tenant_id : ℕ) (verified : Claims) (principal : TokenPrincipal)
      → principal_of jwt keys python settings tenant_id verified ≡ reply principal
      → (principal.entra_tenant_id ≡ tenant_id)
        × (uuid_claim jwt keys python settings (codes "oid") verified
            ≡ reply principal.entra_object_id)
        × (principal.claims ≡ verified)
  principal_of-fields tenant_id verified principal e =
      let (object_id, o, f) =
        >>=-eq-reply (uuid_claim jwt keys python settings (codes "oid") verified)
          (λ (id : ℕ).
            require raised (set_of (get (codes "roles") verified)) >>= λ (roles : List Json).
            reply (built jwt keys python settings tenant_id verified id roles))
          e in
      let (roles, r, g) =
        >>=-eq-reply (require raised (set_of (get (codes "roles") verified)))
          (λ (roles : List Json).
            reply (built jwt keys python settings tenant_id verified object_id roles))
          f in
      let same : built jwt keys python settings tenant_id verified object_id roles ≡ principal =
        cc in
      (
        ap (λ p. p.entra_tenant_id) (sym same),
        o ∙ ap (λ p. reply p.entra_object_id) same,
        ap (λ p. p.claims) (sym same),
      )

  -- The signature and the claims of the token were verified for the tenant and the audience, with
  -- the key that the token's header names.
  abbrev pub Verified : ℕ → Text → Text → TokenPrincipal → Type 0
  Verified now token audience principal =
      (header : Claims) × (kid : Claim) × (key : Text) × (jwt.header token ≡ some header)
      × (get (codes "kid") header ≡ some kid)
      × (keys kid ≡ some key)
      × (jwt.decode now token key
            (checks_for jwt keys python settings principal.entra_tenant_id audience)
          ≡ some principal.claims)

  verify-Verified :
      (now : ℕ) (token audience : Text) (header : Claims) (tenant_id : ℕ)
      (principal : TokenPrincipal)
      → jwt.header token ≡ some header
      → verify jwt keys python settings now token audience header tenant_id ≡ reply principal
      → Verified now token audience principal
        × (principal.entra_tenant_id ≡ tenant_id)
        × (uuid_claim jwt keys python settings (codes "oid") principal.claims
            ≡ reply principal.entra_object_id)
  verify-Verified now token audience header tenant_id principal head e =
      let check = checks_for jwt keys python settings tenant_id audience in
      let last = λ (c : Claims). principal_of jwt keys python settings tenant_id c in
      let third = λ (k : Text). require invalid_token (jwt.decode now token k check) >>= last in
      let second = λ (k : Claim). require invalid_token (keys k) >>= third in
      let (kid, k, e1) = >>=-eq-reply (require invalid_token (get (codes "kid") header)) second e in
      let (key, s, e2) = >>=-eq-reply (require invalid_token (keys kid)) third e1 in
      let (claims, v, e3) =
        >>=-eq-reply (require invalid_token (jwt.decode now token key check)) last e2 in
      let (t, o, c) = principal_of-fields tenant_id claims principal e3 in
      (
        (
          header,
          kid,
          key,
          head,
          require-eq-reply _ _ (get (codes "kid") header) k,
          require-eq-reply _ _ (keys kid) s,
          rw (t, c) (require-eq-reply _ _ (jwt.decode now token key check) v),
        ),
        t,
        rw c o,
      )

  -- A principal is returned only for a tenant that the settings allow, where they list any; for a
  -- token that was verified by the key that its header names, as issued by that very tenant's
  -- authority for the audience; and, where verification does not change the claims, the tenant and
  -- the object are those of the verified claims.
  pub validate_lem :
      (now : ℕ) (token : Text) (audience : Option Text) (principal : TokenPrincipal)
      → Agrees jwt
      → validate jwt keys python settings now token audience ≡ reply principal
      → ((settings.allowed_tenants ≡ [])
          ⊎ Has (python.print_uuid principal.entra_tenant_id) settings.allowed_tenants)
        × ((expected : Text) × (audience_of settings audience ≡ some expected)
            × Verified now token expected principal)
        × (uuid_claim jwt keys python settings (codes "tid") principal.claims
            ≡ reply principal.entra_tenant_id)
        × (uuid_claim jwt keys python settings (codes "oid") principal.claims
            ≡ reply principal.entra_object_id)
  unfolding validate
  validate_lem now token audience principal agrees e =
      let expect = audience_of settings audience in
      let fourth =
        λ (a : Text) (h : Claims) (t : ℕ). admit jwt keys python settings now token a h t in
      let third = λ (a : Text) (h c : Claims).
        uuid_claim jwt keys python settings (codes "tid") c >>= fourth a h in
      let second =
        λ (a : Text) (h : Claims). require invalid_token (jwt.unverified token) >>= third a h in
      let first = λ (a : Text). require invalid_token (jwt.header token) >>= second a in
      let (expected, x, e1) = >>=-eq-reply (require raised expect) first e in
      let (header, h, e2) =
        >>=-eq-reply (require invalid_token (jwt.header token)) (second expected) e1 in
      let (claims, c, e3) =
        >>=-eq-reply (require invalid_token (jwt.unverified token)) (third expected header) e2 in
      let (tenant_id, t, e4) =
        >>=-eq-reply (uuid_claim jwt keys python settings (codes "tid") claims)
          (fourth expected header) e3 in
      let allowed = is_allowed settings.allowed_tenants (python.print_uuid tenant_id) in
      let (u, b, e5) =
        >>=-eq-reply (check allowed tenant_not_allowed)
          (λ (_ : Unit {0}). verify jwt keys python settings now token expected header tenant_id)
          e4 in
      let (v, id, o) =
        verify-Verified now token expected header tenant_id principal
          (require-eq-reply _ _ (jwt.header token) h) e5 in
      let (_, _, key, _, _, _, d) = v in
      let same = agrees.verified now token key _ principal.claims d in
      let claimed : claims ≡ principal.claims =
        cc (require-eq-reply _ _ (jwt.unverified token) c, same) in
      (
        rw id (
            is_allowed-Has settings.allowed_tenants (python.print_uuid tenant_id)
              (check-eq-reply allowed _ _ b)),
        (expected, require_raised-eq-reply expect x, v),
        rw (← claimed) (rw id t),
        o,
      )
