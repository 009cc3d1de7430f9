-- ===== src/Identity/Session/Lifetime.antt =====
-- How long a session's token is accepted.
use sentinel_keyvault.Common.{
  Bool, ℕ, ◌+◌, ◌≡◌, ◌≤◌, ◌<◌, refl, true, false, none, some, Text, codes, ltb, leb, le→leb,
  if◌then◌else◌, arith,
}
use sentinel_keyvault.Platform.Reply.{reply, require, ◌>>=◌}
use sentinel_keyvault.Platform.Settings.{Settings, present}
use sentinel_keyvault.Platform.Jwt.{Jwt, is_valid_at, ReadsBack}
use sentinel_keyvault.Platform.Python.{Python}
use sentinel_keyvault.Identity.Session.{
  SessionClaims, payload_of, session_checks, invalid_session, session_of, encode, decode,
}

lt-ltb : (a b : ℕ) → a < b → ltb a b ≡ true
lt-ltb a b h = ground arith

le-ltb : (a b : ℕ) → b ≤ a → ltb a b ≡ false
le-ltb a b h = ground arith

add_0 : (n : ℕ) → n + 0 ≡ n
add_0 n = omega arith

module _ (python : Python) (settings : Settings) where
  payload-is_valid_at :
      (now later : ℕ) (claims : SessionClaims)
      → now ≤ later
      → is_valid_at later session_checks (payload_of python settings now claims)
        ≡ ltb later (now + settings.session_ttl_seconds)
  payload-is_valid_at now later claims h =
      let e = now + settings.session_ttl_seconds in
      let begun : leb now (later + 0) ≡ true = le→leb now (later + 0) (omega arith) in
      rw (add_0 e) (rw begun (ground arith))

  payload-session_of :
      ((n : ℕ) → python.uuid (python.print_uuid n) ≡ some n)
      → (now : ℕ) (claims : SessionClaims)
      → session_of python (payload_of python settings now claims) ≡ reply claims
  payload-session_of parse now claims = rw (parse claims.user_id) (
      rw (parse claims.tenant_id)
        (rw (parse claims.entra_tenant_id) (rw (parse claims.entra_object_id) refl)))

  module _ (jwt : Jwt) (parse : (n : ℕ) → python.uuid (python.print_uuid n) ≡ some n) (now : ℕ)
      (claims : SessionClaims) (reads : ReadsBack jwt (payload_of python settings now claims)) where
    branches :
        (b : Bool)
        → (require invalid_session
              (if b then some (payload_of python settings now claims) else none)
            >>= session_of python)
          ≡ (if b then reply claims else invalid_session)
    branches true = payload-session_of parse now claims
    branches false = refl

    decode-at :
        (key : Text)
        → present settings.session_signing_key ≡ some key
        → (later : ℕ) → now ≤ later
        → decode python jwt settings later
            (jwt.encode (payload_of python settings now claims) key (codes "HS256"))
          ≡ (if ltb later (now + settings.session_ttl_seconds)
              then reply claims
              else invalid_session)
    unfolding decode
    decode-at key k later h =
        rw (k, decode)
          (rw (reads.read_back later key session_checks, payload-is_valid_at now later claims h)
            (branches (ltb later (now + settings.session_ttl_seconds))))

    -- Where a signing key is set, UUIDs are read as they are printed and the token library reads
    -- back the session's token: a token is made, and at any later time it is decoded to the claims
    -- that it was made of if fewer seconds have passed than the settings give to a session, and is
    -- refused with status 401 if not.
    pub decode-encode :
        (key : Text)
        → present settings.session_signing_key ≡ some key
        → (token : Text) × (encode python jwt settings now claims ≡ reply token)
          × ((later : ℕ)
              → now ≤ later
              → (later < now + settings.session_ttl_seconds
                  → decode python jwt settings later token ≡ reply claims)
                × (now + settings.session_ttl_seconds ≤ later
                    → decode python jwt settings later token ≡ invalid_session))
    unfolding encode
    decode-encode key k = (
      jwt.encode (payload_of python settings now claims) key (codes "HS256"),
      rw (k, encode) refl,
      λ later h. (
        λ young. rw (decode-at key k later h) (rw (lt-ltb _ _ young) refl),
        λ old. rw (decode-at key k later h) (rw (le-ltb _ _ old) refl),
      ),
    )
