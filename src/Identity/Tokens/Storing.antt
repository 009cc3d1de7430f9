-- ===== src/Identity/Tokens/Storing.antt =====
-- How `delegated_azure_token` replaces the stored refresh token.
use sentinel_keyvault.Common.{
  ℕ, ◌≡◌, inl, inr, refl, sym, ◌∙◌, true, false, Option, none, some, Text, arith, find-Has,
  find-write, find-write_other, Distinct, Bool-cases, Option-cases,
}
use sentinel_keyvault.Platform.Json.{Json}
use sentinel_keyvault.Platform.Reply.{
  Reply, reply, raised, require, >>=-eq-reply, require_raised-eq-reply,
}
use sentinel_keyvault.Platform.Settings.{Settings, present}
use sentinel_keyvault.Identity.Models.{OAuthConnection, Store}
use sentinel_keyvault.Identity.Repository.{
  get_oauth_connection, is_connection, upsert_oauth_connection, join_scopes,
}
use sentinel_keyvault.Identity.Session.{Fernet, encrypt, decrypt}
use sentinel_keyvault.Identity.Microsoft.{scopes}
use sentinel_keyvault.Identity.Tokens.{rotated}

abbrev pub connection_id : OAuthConnection → ℕ
connection_id c = c.id

-- The cipher reads what it wrote.
abbrev pub Deciphers : Fernet → Type 0
Deciphers fernet =
    (key text encrypted : Text)
    → fernet.encrypt key text ≡ some encrypted
    → fernet.decrypt key encrypted ≡ some text

is_connection-fields :
    (tenant_id user_id : ℕ) (c : OAuthConnection)
    → is_connection tenant_id user_id c ≡ true
    → (c.tenant_id ≡ tenant_id) × (c.user_id ≡ user_id)
is_connection-fields tenant_id user_id c e = (ground arith, ground arith)

-- The refresh token to use next: the new one, if there is one.
abbrev pub next_token : Option Text → Text → Text
next_token none old = old
next_token (some new) old = new

-- A connection of one user is no other user's.
is_connection-other :
    (tenant_id user_id t u : ℕ) (c : OAuthConnection)
    → is_connection tenant_id user_id c ≡ true
    → ¬ ((t ≡ tenant_id) × (u ≡ user_id))
    → is_connection t u c ≡ false
is_connection-other tenant_id user_id t u c e n = elim (Bool-cases (is_connection t u c)) [
  | inr f ↦ f
  | inl f ↦
      let (a, b) = is_connection-fields tenant_id user_id c e in
      let (a', b') = is_connection-fields t u c f in absurd (n (sym a' ∙ a, sym b' ∙ b))
]

module _ (int : Json → Option ℕ) (fernet : Fernet) (settings : Settings) where
  encrypt-decrypt :
      (text encrypted : Text)
      → Deciphers fernet
      → encrypt fernet settings text ≡ reply encrypted
      → decrypt fernet settings encrypted ≡ reply text
  unfolding encrypt decrypt
  encrypt-decrypt text encrypted d e = elim (Option-cases (present settings.token_encryption_key)) [
    | inl n ↦ let q : raised ≡ reply encrypted = rw (n, encrypt) at e in absurd (cc)
    | inr (key, k) ↦
        let q : require raised (fernet.encrypt key text) ≡ reply encrypted = rw (k, encrypt) at e in
        let c = d key text encrypted (require_raised-eq-reply (fernet.encrypt key text) q) in
        rw (k, decrypt) (rw c refl)
  ]

  -- The connection of the user after the call: its refresh token is the one to use next.
  abbrev pub Stores : ℕ → ℕ → OAuthConnection → Text → Store → Store → Type 0
  Stores tenant_id user_id connection next store after =
      ((c : OAuthConnection) × (get_oauth_connection tenant_id user_id after.connections ≡ some c)
        × (decrypt fernet settings c.encrypted_refresh_token ≡ reply next)
        × (c.token_authority ≡ connection.token_authority))
      × ((t u : ℕ)
          → ¬ ((t ≡ tenant_id) × (u ≡ user_id))
          → get_oauth_connection t u after.connections ≡ get_oauth_connection t u store.connections)
      × (after.tenants ≡ store.tenants)
      × (after.users ≡ store.users)

  module _ (now tenant_id user_id : ℕ) (store : Store) (connection : OAuthConnection)
      (held : get_oauth_connection tenant_id user_id store.connections ≡ some connection)
      (distinct : Distinct connection_id store.connections) where
    mine : is_connection tenant_id user_id connection ≡ true
    unfolding get_oauth_connection
    mine = (find-Has (is_connection tenant_id user_id) store.connections held).1

    upsert-Stores :
        (encrypted next : Text)
        → decrypt fernet settings encrypted ≡ reply next
        → let (connections, next_id) =
            upsert_oauth_connection now tenant_id user_id encrypted scopes
              connection.token_authority store.connections store.next_id in
          Stores tenant_id user_id connection next store
            (record store { connections = connections; next_id = next_id })
    unfolding get_oauth_connection upsert_oauth_connection
    upsert-Stores encrypted next d =
        let renewed = record connection {
          scopes = join_scopes scopes;
          encrypted_refresh_token = encrypted;
          last_refreshed_at = some now;
        } in
        rw (held, upsert_oauth_connection)
          (
            (
              renewed,
              find-write connection_id (is_connection tenant_id user_id) connection renewed refl
                  store.connections distinct held mine,
              d,
              refl,
            ),
            λ t u n.
                let other = is_connection-other tenant_id user_id t u connection mine n in
                find-write_other connection_id (is_connection t u) connection renewed refl
                  store.connections distinct
                  (find-Has (is_connection tenant_id user_id) store.connections held).0 other other,
            refl,
            refl,
          )

    pub rotated-Stores :
        (refresh_token : Text) (fresh : Option Text) (after : Store)
        → Deciphers fernet
        → decrypt fernet settings connection.encrypted_refresh_token ≡ reply refresh_token
        → rotated int fernet settings now tenant_id connection store fresh ≡ reply after
        → Stores tenant_id user_id connection (next_token fresh refresh_token) store after
    rotated-Stores refresh_token none after deciphers d e =
        let same : store ≡ after = cc in
        rw (← same) ((connection, held, d, refl), λ t u n. refl, refl, refl)
    rotated-Stores refresh_token (some token) after deciphers d e =
        let written = λ (encrypted : Text).
          upsert_oauth_connection now tenant_id connection.user_id encrypted scopes
            connection.token_authority store.connections store.next_id in
        let last : Text → Reply Store =
          λ c. reply record store { connections = (written c).0; next_id = (written c).1 } in
        let (encrypted, x, e1) = >>=-eq-reply (encrypt fernet settings token) last e in
        let ours = (is_connection-fields tenant_id user_id connection mine).1 in
        let same : record store {
          connections = (written encrypted).0;
          next_id = (written encrypted).1;
        }
            ≡ after =
          cc in
        rw (← same)
          (rw ours (upsert-Stores encrypted token (encrypt-decrypt token encrypted deciphers x)))
