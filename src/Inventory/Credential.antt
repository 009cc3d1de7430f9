-- ===== src/Inventory/Credential.antt =====
-- `IdentityDelegatedCredential` of apps/inventory-service/src/sentinel_inventory/azure.py. Times are
-- in microseconds, an expiry in seconds.
use sentinel_keyvault.Common.{
  ℕ, ◌+◌, ◌*◌, Bool, Option, none, some, [], Text, ltb, text_or_else, if◌then◌else◌,
}
use Prim.Native.Nat.{◌/◌}
use sentinel_keyvault.Platform.Reply.{Reply, reply, raised}
use sentinel_keyvault.Platform.Settings.{Settings}

pub record AccessToken : Type 0 where
  pub token : Text
  pub expires_on : ℕ

-- What the identity service answers to the header `X-Internal-Token`: an error, or the fields
-- `access_token` and `expires_in` of its body and the time at which the answer is there.
pub data TokenAnswer : Type 0 where
  failed : TokenAnswer
  given : (access_token : Text) (expires_in : Option ℕ) (at : ℕ) → TokenAnswer

abbrev pub fetched : Text → Option ℕ → ℕ → AccessToken
fetched access_token none at = record { token = access_token; expires_on = at / 1000000 + 3600 }
fetched access_token (some n) at = record { token = access_token; expires_on = at / 1000000 + n }

-- More than 300 seconds are left.
abbrev pub is_fresh : ℕ → AccessToken → Bool
is_fresh now t = ltb (now + 300 * 1000000) (t.expires_on * 1000000)

-- The request to the identity service, with what is cached afterwards.
abbrev pub fetch :
    (Text → TokenAnswer) → Settings → Option AccessToken → Reply AccessToken × Option AccessToken
fetch post settings cached = elim (post (text_or_else settings.internal_api_token [])) [
  | failed ↦ (raised, cached)
  | given access_token expires_in at ↦
      (reply (fetched access_token expires_in at), some (fetched access_token expires_in at))
]

-- `get_token`
unfoldable pub get_token :
    (Text → TokenAnswer)
    → Settings
    → ℕ
    → Option AccessToken
    → Reply AccessToken × Option AccessToken
get_token post settings now none = fetch post settings none
get_token post settings now (some t) =
    if is_fresh now t then (reply t, some t) else fetch post settings (some t)

-- `close`
abbrev pub close : Option AccessToken → Option AccessToken
close cached = none
