-- ===== src/Identity/Login.antt =====
-- The handlers `login` and `logout` of apps/identity-service/src/sentinel_identity/main.py, and the
-- cookies of a sign-in. The random texts are arguments.
use sentinel_keyvault.Common.{ℕ, Bool, true, Option, none, some, List, [], ◌∷◌, Text, codes}
use sentinel_keyvault.Platform.Reply.{Reply, reply, ◌>>=◌}
use sentinel_keyvault.Platform.Settings.{Settings}
use sentinel_keyvault.Identity.Microsoft.{authorization_url}

-- A `Set-Cookie` header; a cookie without a domain is the host's own.
pub data Cookie : Type 0 where
  set_cookie :
      (name value : Text) (max_age : ℕ) (httponly secure : Bool) (samesite : Text)
      (domain : Option Text) (path : Text)
      → Cookie
  delete_cookie : (name : Text) (domain : Option Text) (path : Text) → Cookie

-- The status, the header `Location` and the cookies of an answer.
pub record Response : Type 0 where
  pub status : ℕ
  pub location : Option Text
  pub cookies : List Cookie

-- `_oauth_cookie`
abbrev pub oauth_cookie : Settings → Text → Text → Cookie
oauth_cookie settings name value =
    set_cookie name value 600 true settings.session_cookie_secure (codes "lax") none (codes "/")

abbrev pub state_cookie : Text
state_cookie = codes "sentinel_oauth_state"

abbrev pub verifier_cookie : Text
verifier_cookie = codes "sentinel_pkce_verifier"

abbrev pub tenant_cookie : Text
tenant_cookie = codes "sentinel_oauth_tenant"

abbrev pub host_delete : Text → Cookie
host_delete name = delete_cookie name none (codes "/")

-- The cookies of a login, and the URL that it answers.
pub record Login : Type 0 where
  pub cookies : List Cookie
  pub authorization_url : Text

-- `challenge_of` is the challenge of PKCE: the SHA-256 of the verifier in URL-safe base64.
unfoldable pub login : (ℕ → Text) → (Text → Text) → Settings → Text → Text → Option ℕ → Reply Login
login print challenge_of settings state verifier tenant = elim tenant [
  | none ↦ do
    url ← authorization_url settings state (challenge_of verifier) none
    reply record {
      cookies =
          oauth_cookie settings state_cookie state
          ∷ oauth_cookie settings verifier_cookie verifier
          ∷ host_delete tenant_cookie
          ∷ [];
      authorization_url = url;
    }
  | some id ↦ do
    url ← authorization_url settings state (challenge_of verifier) (some (print id))
    reply record {
      cookies =
          oauth_cookie settings state_cookie state
          ∷ oauth_cookie settings verifier_cookie verifier
          ∷ oauth_cookie settings tenant_cookie (print id)
          ∷ [];
      authorization_url = url;
    }
]

unfoldable pub logout : Settings → Response
logout settings = record {
  status = 200;
  location = none;
  cookies =
      delete_cookie settings.session_cookie_name settings.session_cookie_domain (codes "/") ∷ [];
}
