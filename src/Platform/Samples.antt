-- ===== src/Platform/Samples.antt =====
-- Settings, and stand-ins for the libraries, with which the tests run.
use sentinel_keyvault.Common.{
  ℕ, ◌≡◌, refl, Bool, true, false, Option, none, some, [], ◌∷◌, ◌++◌, Text, codes, if◌then◌else◌,
}
use sentinel_keyvault.Platform.Settings.{Settings}
use sentinel_keyvault.Platform.Jwt.{number, claim_text, Claims, Jwt, is_valid_at, ReadsBack, Agrees}
use sentinel_keyvault.Platform.Python.{Python}
use sentinel_keyvault.Platform.Auth.{SigningKeys}

-- A UUID is printed as one character.
abbrev pub print : ℕ → Text
print n = n ∷ []

abbrev pub parse : Text → Option ℕ
parse [] = none
parse (c ∷ []) = some c
parse (c ∷ d ∷ s) = none

abbrev pub settings : Settings
settings = record {
  entra_audience = none;
  entra_authority_host = codes "https://login/";
  microsoft_client_id = some (codes "cid");
  microsoft_client_secret = some (codes "secret");
  microsoft_redirect_uri = codes "http://a/auth/callback";
  frontend_url = codes "http://a";
  session_cookie_name = codes "sid";
  session_cookie_domain = none;
  session_cookie_secure = false;
  session_ttl_seconds = 28800;
  session_signing_key = some (codes "signing");
  token_encryption_key = some (codes "encryption");
  allowed_tenants = print 5 ∷ [];
  cors_origins = codes "http://a/" ∷ codes "http://b" ∷ [];
  internal_api_token = some (codes "internal");
  bootstrap_tenant_id = some (print 5);
  bootstrap_tenant_name = codes "t";
  bootstrap_admin_object_id = some (print 6);
  bootstrap_admin_name = codes "n";
  login_blob_account_url = none;
}

abbrev pub python : Python
python = record { uuid = parse; print_uuid = print; print_number = print; print_json = λ j. [] }

-- A token library all of whose tokens have these claims.
abbrev pub jwt : Claims → Jwt
jwt claims = record {
  header = λ token. some ((codes "kid", claim_text (codes "k")) ∷ []);
  unverified = λ token. some claims;
  decode = λ now token key checks. if is_valid_at now checks claims then some claims else none;
  encode = λ claims key algorithm. codes "token";
}

abbrev pub keys : SigningKeys
keys kid = some (codes "key")

-- The claims of an id token of the user 6 of the tenant 5.
abbrev pub id_claims : Claims
id_claims =
    (codes "tid", claim_text (print 5))
    ∷ (codes "oid", claim_text (print 6))
    ∷ (codes "name", claim_text (codes "n"))
    ∷ (codes "iat", number 50)
    ∷ (codes "nbf", number 50)
    ∷ (codes "exp", number 1000)
    ∷ (codes "iss", claim_text (codes "https://login/" ++ (print 5 ++ codes "/v2.0")))
    ∷ (codes "aud", claim_text (codes "cid"))
    ∷ []

pub jwt-Agrees : (claims : Claims) → Agrees (jwt claims)
jwt-Agrees claims = record {
  verified = λ now token key checks c e. agree c (is_valid_at now checks claims) e;
}
  where
    agree :
        (c : Claims) (b : Bool) → (if b then some claims else none) ≡ some c → some claims ≡ some c
    agree c true e = e
    agree c false e = absurd (cc)

pub jwt-ReadsBack : (claims : Claims) → ReadsBack (jwt claims) claims
jwt-ReadsBack claims = record { read_back = λ now key checks. refl }
