-- ===== src/Identity/SignIn/Identified.antt =====
-- What the handler `callback` requires of a sign-in.
use sentinel_keyvault.Common.{
  ℕ, ◌≡◌, ap, ◌∙◌, Bool, true, false, Option, none, some, [], ◌∷◌, Text, codes, text_eq, text_eq→eq,
  get, if◌then◌else◌,
}
use Prim.Native.Nat.{◌/◌}
use sentinel_keyvault.Platform.Json.{Json, Fields}
use sentinel_keyvault.Platform.Reply.{
  Reply, reply, refused, raised, ◌>>=◌, check, require, >>=-eq-reply, check-eq-reply,
  require-eq-reply,
}
use sentinel_keyvault.Platform.Settings.{Settings, present, present-some}
use sentinel_keyvault.Platform.Jwt.{Jwt}
use sentinel_keyvault.Platform.Python.{Python}
use sentinel_keyvault.Platform.Auth.{SigningKeys, TokenPrincipal, validate}
use sentinel_keyvault.Identity.Session.{Fernet, encrypt}
use sentinel_keyvault.Identity.Microsoft.{Post, exchange_code}
use sentinel_keyvault.Identity.Login.{state_cookie, verifier_cookie, tenant_cookie}
use sentinel_keyvault.Identity.SignIn.{
  Callback, compare_digest, invalid_state, checked_verifier, text_field, missing_tokens,
  is_requested, identified, authenticate,
}

pub compare_digest-eq : (s t : Text) → compare_digest s t ≡ reply true → s ≡ t
compare_digest-eq s t e = text_eq→eq s t (same (_) e)
  where
    same :
        (b : Bool) → (if b then reply (text_eq s t) else raised) ≡ reply true → text_eq s t ≡ true
    same true q = cc
    same false q = absurd (cc)

-- The browser that asks brings the state that the login gave it, and the verifier.
checked_verifier-cookies :
    (request : Callback) (verifier : Text)
    → checked_verifier request ≡ reply verifier
    → (get state_cookie request.cookies ≡ some request.state)
      × (get verifier_cookie request.cookies ≡ some verifier)
checked_verifier-cookies request verifier e =
    let known = present (get state_cookie request.cookies) in
    let last = require invalid_state (present (get verifier_cookie request.cookies)) in
    let second = λ (same : Bool). check same invalid_state >>= λ (_ : Unit {0}). last in
    let first = λ (expected : Text). compare_digest expected request.state >>= second in
    let (expected, x, e1) = >>=-eq-reply (require invalid_state known) first e in
    let (same, c, e2) = >>=-eq-reply (compare_digest expected request.state) second e1 in
    let (u, b, e3) = >>=-eq-reply (check same invalid_state) (λ (_ : Unit {0}). last) e2 in
    let equal = compare_digest-eq expected request.state (rw (check-eq-reply same _ _ b) at c) in
    (
      present-some (get state_cookie request.cookies) (require-eq-reply _ _ known x)
          ∙ ap some equal,
      present-some (get verifier_cookie request.cookies) (require-eq-reply _ _ _ e3),
    )

-- The tenant that the login asked for, if it asked for one.
abbrev pub Requested : Option Text → Text → Type 0
Requested none tenant = Unit
Requested (some []) tenant = Unit
Requested (some (c ∷ cs)) tenant = tenant ≡ c ∷ cs

is_requested-Requested :
    (requested : Option Text) (tenant : Text)
    → is_requested requested tenant ≡ true
    → Requested requested tenant
is_requested-Requested none tenant e = tt
is_requested-Requested (some []) tenant e = tt
is_requested-Requested (some (c ∷ cs)) tenant e = text_eq→eq tenant (c ∷ cs) e

module _ (jwt : Jwt) (keys : SigningKeys) (python : Python) (fernet : Fernet)
    (settings : Settings) where
  -- The answer of Microsoft has a valid id token of the requested tenant for this application, and
  -- a refresh token, which is encrypted.
  abbrev pub Identified : ℕ → Option Text → Fields → TokenPrincipal → Text → Type 0
  Identified now requested tokens principal encrypted =
      (id_token : Text) × (refresh_token : Text) × (text_field (codes "id_token") tokens
        ≡ some id_token)
      × (text_field (codes "refresh_token") tokens ≡ some refresh_token)
      × (validate jwt keys python settings (now / 1000000) id_token settings.microsoft_client_id
          ≡ reply principal)
      × Requested requested (python.print_uuid principal.entra_tenant_id)
      × (encrypt fernet settings refresh_token ≡ reply encrypted)

  identified-Identified :
      (now : ℕ) (requested : Option Text) (tokens : Fields) (principal : TokenPrincipal)
      (encrypted : Text)
      → identified jwt keys python fernet settings now requested tokens
        ≡ reply (principal, encrypted)
      → Identified now requested tokens principal encrypted
  identified-Identified now requested tokens principal encrypted e =
      let valid = λ (t : Text).
        validate jwt keys python settings (now / 1000000) t settings.microsoft_client_id in
      let is_right =
        λ (p : TokenPrincipal). is_requested requested (python.print_uuid p.entra_tenant_id) in
      let wrong : Reply (Unit {0}) =
        refused 401 (Json.str (codes "Authenticated tenant does not match request")) in
      let sixth : TokenPrincipal → Text → Reply (TokenPrincipal × Text) = λ p c. reply (p, c) in
      let fifth =
        λ (r : Text) (p : TokenPrincipal) (_ : Unit {0}). encrypt fernet settings r >>= sixth p in
      let fourth = λ (r : Text) (p : TokenPrincipal). check (is_right p) wrong >>= fifth r p in
      let third = λ (i r : Text). valid i >>= fourth r in
      let second = λ (i a : Text).
        require missing_tokens (text_field (codes "refresh_token") tokens) >>= third i in
      let first = λ (i : Text).
        require missing_tokens (text_field (codes "access_token") tokens) >>= second i in
      let (id_token, i, e1) =
        >>=-eq-reply (require missing_tokens (text_field (codes "id_token") tokens)) first e in
      let (access, a, e2) =
        >>=-eq-reply (require missing_tokens (text_field (codes "access_token") tokens))
          (second id_token) e1 in
      let (refresh_token, r, e3) =
        >>=-eq-reply (require missing_tokens (text_field (codes "refresh_token") tokens))
          (third id_token) e2 in
      let (p, v, e4) = >>=-eq-reply (valid id_token) (fourth refresh_token) e3 in
      let (u, b, e5) = >>=-eq-reply (check (is_right p) wrong) (fifth refresh_token p) e4 in
      let (c, x, e6) = >>=-eq-reply (encrypt fernet settings refresh_token) (sixth p) e5 in
      let same : p ≡ principal = cc in
      let cipher : c ≡ encrypted = cc in
      (
        id_token,
        refresh_token,
        require-eq-reply _ _ (text_field (codes "id_token") tokens) i,
        require-eq-reply _ _ (text_field (codes "refresh_token") tokens) r,
        rw (← same) v,
        rw (← same) (
            is_requested-Requested requested (python.print_uuid p.entra_tenant_id)
              (check-eq-reply (is_right p) _ _ b)),
        rw (← cipher) x,
      )

  -- The browser brings the state and the verifier of its login, and Microsoft's answer for the code
  -- and that verifier identifies the user.
  abbrev pub Authenticated : Post → ℕ → Callback → TokenPrincipal → Text → Type 0
  Authenticated post now request principal encrypted =
      (verifier : Text) × (tokens : Fields) × (get state_cookie request.cookies
        ≡ some request.state)
      × (get verifier_cookie request.cookies ≡ some verifier)
      × (exchange_code settings post request.code verifier (get tenant_cookie request.cookies)
          ≡ reply tokens)
      × Identified now (get tenant_cookie request.cookies) tokens principal encrypted

  pub authenticate-Authenticated :
      (post : Post) (now : ℕ) (request : Callback) (principal : TokenPrincipal) (encrypted : Text)
      → authenticate jwt keys python fernet settings post now request ≡ reply (principal, encrypted)
      → Authenticated post now request principal encrypted
  unfolding authenticate
  authenticate-Authenticated post now request principal encrypted e =
      let requested = get tenant_cookie request.cookies in
      let second = λ (t : Fields). identified jwt keys python fernet settings now requested t in
      let first = λ (v : Text). exchange_code settings post request.code v requested >>= second in
      let (verifier, v, e1) = >>=-eq-reply (checked_verifier request) first e in
      let (tokens, t, e2) =
        >>=-eq-reply (exchange_code settings post request.code verifier requested) second e1 in
      let (s, c) = checked_verifier-cookies request verifier v in
      (verifier, tokens, s, c, t, identified-Identified now requested tokens principal encrypted e2)
