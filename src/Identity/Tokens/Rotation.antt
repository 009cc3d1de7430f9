-- ===== src/Identity/Tokens/Rotation.antt =====
-- `delegated_azure_token`: who is given an access token, and what becomes of the stored refresh token.
use sentinel_keyvault.Common.{
  ℕ, ◌≡◌, inl, inr, refl, ap, ◌∙◌, Option, some, [], Text, codes, text_or_else, Distinct,
}
use sentinel_keyvault.Platform.Json.{Json, Fields}
use sentinel_keyvault.Platform.Reply.{
  Reply, reply, refused, raised, ◌>>=◌, require, >>=-eq-reply, require-eq-reply, Reply-cases,
}
use sentinel_keyvault.Platform.Settings.{Settings}
use sentinel_keyvault.Identity.Models.{TenantStatus, OAuthConnection, Store}
use sentinel_keyvault.Identity.Repository.{get_oauth_connection}
use sentinel_keyvault.Identity.Session.{Fernet, decrypt}
use sentinel_keyvault.Identity.Microsoft.{Post, refresh}
use sentinel_keyvault.Identity.SignIn.{text_field}
use sentinel_keyvault.Identity.Tokens.Status.{all_in, delegated_azure_token_ignores_status}
use sentinel_keyvault.Identity.Tokens.{
  AzureAccessTokenResponse, internal_guard, active_connection, expires_in_of, refreshed, rotated,
  exchange, issue, delegated_azure_token,
}
use sentinel_keyvault.Identity.Tokens.Storing.{
  connection_id, Deciphers, next_token, Stores, rotated-Stores,
}
use sentinel_keyvault.Identity.Tokens.Callers.{
  internal_guard-token, MayHave, active_connection-MayHave,
}

replied-parts :
    (access_token : Text) (expires_in : ℕ) (store : Store) (answer : AzureAccessTokenResponse)
    (after : Store)
    → ◌≡◌ {A = Reply (AzureAccessTokenResponse × Store)}
        (reply (record { access_token = access_token; expires_in = expires_in }, store))
        (reply (answer, after))
    → (access_token ≡ answer.access_token) × (store ≡ after)
replied-parts access_token expires_in store answer after e = (cc, cc)

module _ (int : Json → Option ℕ) (fernet : Fernet) (settings : Settings) where
  -- Microsoft's answer to the connection's refresh token has the access token.
  abbrev pub Refreshed : Post → OAuthConnection → Text → Fields → Text → Type 0
  Refreshed post connection refresh_token tokens access_token =
      (decrypt fernet settings connection.encrypted_refresh_token ≡ reply refresh_token)
      × (refresh settings post refresh_token connection.token_authority ≡ reply tokens)
      × (text_field (codes "access_token") tokens ≡ some access_token)

  module _ (post : Post) (now tenant_id user_id : ℕ) (store : Store) (deciphers : Deciphers fernet)
      (distinct : Distinct connection_id store.connections) where
    exchange-Stores :
        (connection : OAuthConnection) (answer : AzureAccessTokenResponse) (after : Store)
        → get_oauth_connection tenant_id user_id store.connections ≡ some connection
        → exchange int fernet settings post now tenant_id store connection ≡ reply (answer, after)
        → (refresh_token : Text) × (tokens : Fields) × Refreshed post connection refresh_token
            tokens answer.access_token
          × Stores int fernet settings tenant_id user_id connection
              (next_token (text_field (codes "refresh_token") tokens) refresh_token)
              store
              after
    exchange-Stores connection answer after held e =
        let fresh = λ (t : Fields). text_field (codes "refresh_token") t in
        let access = λ (t : Fields). text_field (codes "access_token") t in
        let fourth : Text → Store → ℕ → Reply (AzureAccessTokenResponse × Store) =
          λ a s n. reply (record { access_token = a; expires_in = n }, s) in
        let third = λ (t : Fields) (a : Text) (s : Store).
          expires_in_of int fernet settings t >>= fourth a s in
        let second = λ (t : Fields) (a : Text).
          rotated int fernet settings now tenant_id connection store (fresh t) >>= third t a in
        let failed : Reply Text = refused 502 (Json.str (codes "Microsoft token refresh failed")) in
        let first = λ (t : Fields). require failed (access t) >>= second t in
        let (tokens, t, e1) =
          >>=-eq-reply (refreshed int fernet settings post connection) first e in
        let (token, a, e2) = >>=-eq-reply (require failed (access tokens)) (second tokens) e1 in
        let (written, w, e3) =
          >>=-eq-reply (rotated int fernet settings now tenant_id connection store (fresh tokens))
            (third tokens token) e2 in
        let (n, x, e4) =
          >>=-eq-reply (expires_in_of int fernet settings tokens) (fourth token written) e3 in
        let (refresh_token, d, r) =
          >>=-eq-reply (decrypt fernet settings connection.encrypted_refresh_token)
            (λ (t : Text). refresh settings post t connection.token_authority) t in
        let (given, tables) = replied-parts token n written answer after e4 in
        (
          refresh_token,
          tokens,
          (d, r, require-eq-reply _ _ (access tokens) a ∙ ap some given),
          rw (← tables) (
              rotated-Stores int fernet settings now tenant_id user_id store connection held
                distinct refresh_token (fresh tokens) written deciphers d w),
        )

    issue-Stores :
        (x : Option Text) (answer : AzureAccessTokenResponse) (after : Store)
        → issue int fernet settings post now tenant_id user_id x store ≡ reply (answer, after)
        → (settings.internal_api_token ≡ some (text_or_else x []))
          × ((connection : OAuthConnection) × (refresh_token : Text) × (tokens : Fields) × MayHave
                tenant_id user_id store connection
              × Refreshed post connection refresh_token tokens answer.access_token
              × Stores int fernet settings tenant_id user_id connection
                  (next_token (text_field (codes "refresh_token") tokens) refresh_token)
                  store
                  after)
    unfolding issue
    issue-Stores x answer after e =
        let last =
          λ (c : OAuthConnection). exchange int fernet settings post now tenant_id store c in
        let first = λ (_ : Unit {0}). active_connection tenant_id user_id store >>= last in
        let (u, g, e1) = >>=-eq-reply (internal_guard settings x) first e in
        let (connection, c, e2) =
          >>=-eq-reply (active_connection tenant_id user_id store) last e1 in
        let may = active_connection-MayHave tenant_id user_id store connection c in
        let (_, _, _, _, _, held) = may in
        let (refresh_token, tokens, r, s) = exchange-Stores connection answer after held e2 in
        (internal_guard-token settings x g, (connection, refresh_token, tokens, may, r, s))

    given :
        (x : Option Text)
        → let (answer, after) =
            delegated_azure_token int fernet settings post now tenant_id user_id x store in
          (token : AzureAccessTokenResponse)
          → answer ≡ reply token
          → (settings.internal_api_token ≡ some (text_or_else x []))
            × ((connection : OAuthConnection) × (refresh_token : Text) × (tokens : Fields) × MayHave
                  tenant_id user_id store connection
                × Refreshed post connection refresh_token tokens token.access_token
                × Stores int fernet settings tenant_id user_id connection
                    (next_token (text_field (codes "refresh_token") tokens) refresh_token)
                    store
                    after)
    unfolding delegated_azure_token
    given x = elim (Reply-cases (issue int fernet settings post now tenant_id user_id x store)) [
      | inl ((answer, after), e) ↦
          rw (e, delegated_azure_token)
            (λ token q.
              let same : answer ≡ token = cc in rw (← same) (issue-Stores x answer after e))
      | inr (inl (s, d, e)) ↦ rw (e, delegated_azure_token) (λ token q. absurd (cc))
      | inr (inr e) ↦ rw (e, delegated_azure_token) (λ token q. absurd (cc))
    ]

    refusal :
        (x : Option Text)
        → let (answer, after) =
            delegated_azure_token int fernet settings post now tenant_id user_id x store in
          (s : ℕ) (d : Json) → answer ≡ refused s d → after ≡ store
    unfolding delegated_azure_token
    refusal x = elim (Reply-cases (issue int fernet settings post now tenant_id user_id x store)) [
      | inl ((answer, after), e) ↦ rw (e, delegated_azure_token) (λ s d q. absurd (cc))
      | inr (inl (s, d, e)) ↦ rw (e, delegated_azure_token) (λ s d q. refl)
      | inr (inr e) ↦ rw (e, delegated_azure_token) (λ s d q. refl)
    ]

    failure :
        (x : Option Text)
        → let (answer, after) =
            delegated_azure_token int fernet settings post now tenant_id user_id x store in
          answer ≡ raised → after ≡ store
    unfolding delegated_azure_token
    failure x = elim (Reply-cases (issue int fernet settings post now tenant_id user_id x store)) [
      | inl ((answer, after), e) ↦ rw (e, delegated_azure_token) (λ q. absurd (cc))
      | inr (inl (s, d, e)) ↦ rw (e, delegated_azure_token) (λ q. refl)
      | inr (inr e) ↦ rw (e, delegated_azure_token) (λ q. refl)
    ]

    -- Where the cipher reads what it wrote and connections have distinct keys: an access token is
    -- given only to a caller with the configured internal token, for an active user of a tenant of the
    -- tables, in whatever status, with a connection, and it is the one that Microsoft answers to the
    -- connection's refresh token. Afterwards the user's connection holds the refresh token of that
    -- answer, or the old one where it has none, for the same authority, and every other connection
    -- and all tenants and users are as they were. A call that fails changes nothing. And the answer
    -- is the same whatever the status of the tenants is: to suspend a tenant does not stop it.
    pub delegated_azure_token_lem :
        (x : Option Text)
        → let (answer, after) =
            delegated_azure_token int fernet settings post now tenant_id user_id x store in
          ((token : AzureAccessTokenResponse)
            → answer ≡ reply token
            → (settings.internal_api_token ≡ some (text_or_else x []))
              × ((connection : OAuthConnection) × (refresh_token : Text) × (tokens : Fields)
                  × MayHave tenant_id user_id store connection
                  × Refreshed post connection refresh_token tokens token.access_token
                  × Stores int fernet settings tenant_id user_id connection
                      (next_token (text_field (codes "refresh_token") tokens) refresh_token)
                      store
                      after))
          × ((s : ℕ) (d : Json) → answer ≡ refused s d → after ≡ store)
          × (answer ≡ raised → after ≡ store)
          × ((status : TenantStatus)
              → (delegated_azure_token int fernet settings post now tenant_id user_id x
                  (all_in status store)).0
                ≡ answer)
    delegated_azure_token_lem x =
        let statuses = λ (status : TenantStatus).
          delegated_azure_token_ignores_status int fernet settings post now tenant_id user_id store
            status x in
        (given x, refusal x, failure x, statuses)
