-- ===== src/Identity/Session/Tests.antt =====
-- A session's token while it is young and when it has expired.
use sentinel_keyvault.Common.{ℕ, ◌+◌, ◌≡◌, ◌≤◌, ◌<◌, refl, Text, codes}
use sentinel_keyvault.Platform.Reply.{reply}
use sentinel_keyvault.Platform.Samples.{settings, python, jwt, jwt-ReadsBack}
use sentinel_keyvault.Identity.Session.{SessionClaims, payload_of, invalid_session, encode, decode}
use sentinel_keyvault.Identity.Session.Lifetime.{decode-encode}

abbrev claims : SessionClaims
claims = record { user_id = 2; tenant_id = 1; entra_tenant_id = 5; entra_object_id = 6 }

decode-encode_example :
    (token : Text) × (encode python
        (jwt (payload_of python settings 100 claims))
        settings
        100
        claims
      ≡ reply token)
    × ((later : ℕ)
        → 100 ≤ later
        → (later < 100 + 28800
            → decode python (jwt (payload_of python settings 100 claims)) settings later token
              ≡ reply claims)
          × (100 + 28800 ≤ later
              → decode python (jwt (payload_of python settings 100 claims)) settings later token
                ≡ invalid_session))
decode-encode_example =
    decode-encode python settings (jwt (payload_of python settings 100 claims)) (λ n. refl) 100
      claims (jwt-ReadsBack (payload_of python settings 100 claims)) (codes "signing") refl
