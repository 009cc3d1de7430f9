-- ===== src/Identity/SignIn/Tests.antt =====
-- A sign-in whose state matches the login's, and one whose state does not.
use sentinel_keyvault.Common.{◌≡◌, refl, true, none, some, List, [], ◌∷◌, Text, codes, rstrip}
use sentinel_keyvault.Platform.Json.{Json, Fields}
use sentinel_keyvault.Platform.Samples.{settings, python, jwt, keys, id_claims}
use sentinel_keyvault.Platform.Auth.{TokenPrincipal, validate}
use sentinel_keyvault.Identity.Session.{Fernet, encrypt, encode}
use sentinel_keyvault.Identity.Microsoft.{Exchange, answered, exchange_code}
use sentinel_keyvault.Identity.Storage.{made}
use sentinel_keyvault.Identity.Login.{Response, state_cookie, verifier_cookie}
use sentinel_keyvault.Identity.SignIn.{
  Callback, World, invalid_state, authenticate, callback, signed_in_response,
}
use sentinel_keyvault.Identity.SignIn.Identified.{Authenticated}
use sentinel_keyvault.Identity.SignIn.Guards.{SignedIn, callback_lem}

abbrev fernet : Fernet
fernet = record { encrypt = λ key text. some text; decrypt = λ key text. some text }

abbrev text_of : Text → Fields → Fields
text_of name = Fields.field name (Json.str (codes "x"))

abbrev post : Text → List (Text × Text) → Exchange
post url form = answered 200 (
    some (
      Json.obj (
        text_of (codes "id_token")
          (text_of (codes "access_token") (text_of (codes "refresh_token") Fields.end)))))

abbrev request : Text → Callback
request state = record {
  cookies = (state_cookie, codes "s") ∷ (verifier_cookie, codes "v") ∷ [];
  code = codes "c";
  state = state;
  correlation_id = 9;
}

abbrev world : World
world = record {
  store = record {
    tenants = [];
    users = [];
    roles = [];
    permissions = [];
    role_permissions = [];
    user_roles = [];
    connections = [];
    next_id = 1;
  };
  outbox = [];
  recorder = none;
}

wrong_state :
    callback
      (jwt id_claims)
      keys
      python
      fernet
      settings
      post
      made
      true
      100000000
      (request (codes "z"))
      world
    ≡ (invalid_state, world)
unfolding callback authenticate
wrong_state = refl

abbrev response : Response
response = signed_in_response (jwt id_claims) keys python fernet settings (codes "token")

abbrev after : World
after =
    (callback (jwt id_claims) keys python fernet settings post made true 100000000
      (request (codes "s")) world).1

callback_lem_example :
    (who : TokenPrincipal) × (encrypted : Text) × Authenticated
      (jwt id_claims)
      keys
      python
      fernet
      settings
      post
      100000000
      (request (codes "s"))
      who
      encrypted
    × SignedIn
        (jwt id_claims)
        keys
        python
        fernet
        settings
        post
        made
        true
        100000000
        (request (codes "s"))
        world
        who
        encrypted
        response
        after
unfolding callback authenticate exchange_code validate encrypt encode rstrip
callback_lem_example =
    (callback_lem (jwt id_claims) keys python fernet settings post made true 100000000
        (request (codes "s")) world).0
      response refl
