-- ===== src/Identity/Microsoft.antt =====
-- apps/identity-service/src/sentinel_identity/microsoft.py: the requests to Microsoft's OAuth
-- endpoints. The texts that are put into a URL are ASCII.
use sentinel_keyvault.Common.{
  ℕ, ◌+◌, ◌-◌, Bool, ◌&&◌, ◌||◌, Option, some, List, [], ◌∷◌, ◌++◌, Text, codes, text_or_else,
  rstrip, leb, ltb, ◌==◌, if◌then◌else◌,
}
use Prim.Native.Nat.{◌/◌, ◌%◌}
use sentinel_keyvault.Platform.Json.{Json, Fields}
use sentinel_keyvault.Platform.Reply.{Reply, reply, refused, raised, ◌>>=◌, require}
use sentinel_keyvault.Platform.Settings.{Settings, present}
use sentinel_keyvault.Identity.Repository.{join_scopes}

-- What `client.post` gives: an exception, or a status and the JSON of the body, if it is JSON.
pub data Exchange : Type 0 where
  unreachable : Exchange
  answered : ℕ → Option Json → Exchange

-- The token endpoint: URL and form.
abbrev pub Post : Type 0
Post = Text → List (Text × Text) → Exchange

abbrev hex : ℕ → ℕ
hex n = if ltb n 10 then b'0' + n else b'A' + (n - 10)

abbrev is_unreserved : ℕ → Bool
is_unreserved c =
    (leb b'a' c && leb c b'z')
    || (leb b'A' c && leb c b'Z')
    || (leb b'0' c && leb c b'9')
    || c == b'_'
    || c == b'.'
    || c == b'-'
    || c == b'~'

quote_plus : Text → Text
quote_plus [] = []
quote_plus (c ∷ s) =
    (if is_unreserved c
      then c ∷ []
      else if c == b' '
      then b'+' ∷ []
      else b'%' ∷ hex (c / 16) ∷ hex (c % 16) ∷ [])
    ++ quote_plus s

-- `urllib.parse.urlencode`
unfoldable pub urlencode : List (Text × Text) → Text
unfolding quote_plus
urlencode [] = []
urlencode ((k, v) ∷ []) = quote_plus k ++ (codes "=" ++ quote_plus v)
urlencode ((k, v) ∷ p ∷ rest) =
    quote_plus k ++ (codes "=" ++ (quote_plus v ++ (codes "&" ++ urlencode (p ∷ rest))))

-- `LOGIN_SCOPES` and `ARM_SCOPES`
abbrev pub scopes : List Text
scopes =
    codes "openid"
    ∷ codes "profile"
    ∷ codes "email"
    ∷ codes "offline_access"
    ∷ codes "https://management.azure.com/user_impersonation"
    ∷ []

-- The body of an answer; a body that is no object fails at the first look-up in it.
abbrev pub payload_of : ℕ → Option Json → Reply Fields
payload_of status body =
    if leb 400 status
    then require raised body >>= refused 401
    else elim body [ some (Json.obj fields) ↦ reply fields | _ ↦ raised ]

module _ (settings : Settings) where
  -- `_client_id`
  abbrev pub client_id : Reply Text
  client_id = require raised (present settings.microsoft_client_id)

  -- `_client_secret`
  abbrev pub client_secret : Reply Text
  client_secret = require raised (present settings.microsoft_client_secret)

  abbrev pub authority : Option Text → Text
  authority tenant_id =
      rstrip b'/' settings.entra_authority_host
      ++ (codes "/" ++ text_or_else tenant_id (codes "common"))

  unfoldable pub authorization_url : Text → Text → Option Text → Reply Text
  authorization_url state challenge tenant_id = do
    id ← client_id
    reply (
        authority tenant_id
        ++ (codes "/oauth2/v2.0/authorize?"
            ++ urlencode (
                (codes "client_id", id)
                ∷ (codes "response_type", codes "code")
                ∷ (codes "redirect_uri", settings.microsoft_redirect_uri)
                ∷ (codes "response_mode", codes "query")
                ∷ (codes "scope", join_scopes scopes)
                ∷ (codes "state", state)
                ∷ (codes "code_challenge", challenge)
                ∷ (codes "code_challenge_method", codes "S256")
                ∷ (codes "prompt", codes "select_account")
                ∷ [])))

  -- `_token_request`
  unfoldable pub token_request : Post → Option Text → List (Text × Text) → Reply Fields
  token_request post tenant_id form =
      elim (post (authority tenant_id ++ codes "/oauth2/v2.0/token") form) [
        | unreachable ↦ raised
        | answered status body ↦ payload_of status body
      ]

  unfoldable pub exchange_code : Post → Text → Text → Option Text → Reply Fields
  unfolding token_request
  exchange_code post code verifier tenant_id = do
    id ← client_id
    secret ← client_secret
    token_request post tenant_id (
        (codes "client_id", id)
        ∷ (codes "client_secret", secret)
        ∷ (codes "grant_type", codes "authorization_code")
        ∷ (codes "code", code)
        ∷ (codes "redirect_uri", settings.microsoft_redirect_uri)
        ∷ (codes "code_verifier", verifier)
        ∷ (codes "scope", join_scopes scopes)
        ∷ [])

  unfoldable pub refresh : Post → Text → Text → Reply Fields
  unfolding token_request
  refresh post refresh_token tenant_id = do
    id ← client_id
    secret ← client_secret
    token_request post (some tenant_id) (
        (codes "client_id", id)
        ∷ (codes "client_secret", secret)
        ∷ (codes "grant_type", codes "refresh_token")
        ∷ (codes "refresh_token", refresh_token)
        ∷ (codes "scope", join_scopes scopes)
        ∷ [])
