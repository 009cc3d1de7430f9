-- ===== src/Identity/SignIn.antt =====
-- The handler `callback` of apps/identity-service/src/sentinel_identity/main.py. The
-- library functions and the answers of Microsoft and of the storage account are arguments. A time
-- is in microseconds.
pub mod Identified
pub mod Guards
mod Tests
use sentinel_keyvault.Common.{
  ℕ, suc, ◌+◌, Bool, true, false, ◌&&◌, ◌||◌, not, Option, none, some, List, [], ◌∷◌, ◌++◌, Text,
  codes, text_eq, get, rstrip, ltb, if◌then◌else◌,
}
use Prim.Native.Nat.{◌/◌}
use sentinel_keyvault.Platform.Json.{Json, Fields, field_value}
use sentinel_keyvault.Platform.Reply.{Reply, reply, refused, raised, ◌>>=◌, ◌>>◌, check, require}
use sentinel_keyvault.Platform.Settings.{Settings, present}
use sentinel_keyvault.Platform.Events.{AuditEvent}
use sentinel_keyvault.Platform.Outbox.{OutboxRecord, enqueue_audit}
use sentinel_keyvault.Platform.Jwt.{Jwt}
use sentinel_keyvault.Platform.Python.{Python}
use sentinel_keyvault.Platform.Auth.{SigningKeys, TokenPrincipal, validate}
use sentinel_keyvault.Identity.Models.{Tenant, User, Store}
use sentinel_keyvault.Identity.Account.{refresh_authority}
use sentinel_keyvault.Identity.Service.{ResolvedIdentity, Connection, onboard_oauth_user}
use sentinel_keyvault.Identity.Session.{SessionClaims, encode, Fernet, encrypt}
use sentinel_keyvault.Identity.Microsoft.{Post, scopes, authorization_url, exchange_code}
use sentinel_keyvault.Identity.Storage.{Recorder, Creation, record_login}
use sentinel_keyvault.Identity.Login.{
  Response, set_cookie, state_cookie, verifier_cookie, tenant_cookie, host_delete,
}

-- The request of a callback: its cookies, its query and its correlation id.
pub record Callback : Type 0 where
  pub cookies : List (Text × Text)
  pub code : Text
  pub state : Text
  pub correlation_id : ℕ

-- The database, the outbox and the recorder of logins, where one is configured.
pub record World : Type 0 where
  pub store : Store
  pub outbox : List OutboxRecord
  pub recorder : Option Recorder

abbrev is_ascii : Text → Bool
is_ascii [] = true
is_ascii (c ∷ s) = ltb c 128 && is_ascii s

-- `secrets.compare_digest`, which raises a `TypeError` where a text is not ASCII.
abbrev pub compare_digest : Text → Text → Reply Bool
compare_digest s t = if is_ascii s && is_ascii t then reply (text_eq s t) else raised

abbrev pub invalid_state {ℓ} : {A : Type ℓ} → Reply A
invalid_state = refused 401 (Json.str (codes "Invalid OAuth state"))

-- The check of the state, and the verifier.
abbrev pub checked_verifier : Callback → Reply Text
checked_verifier request = do
  expected ← require invalid_state (present (get state_cookie request.cookies))
  same ← compare_digest expected request.state
  check same invalid_state
  require invalid_state (present (get verifier_cookie request.cookies))

-- A value that is a text and not empty.
abbrev pub text_field : Text → Fields → Option Text
text_field name fields = elim (field_value name fields) [
  | some (Json.str t) ↦ present (some t)
  | _ ↦ none
]

abbrev pub missing_tokens {ℓ} : {A : Type ℓ} → Reply A
missing_tokens = refused 401 (Json.str (codes "Microsoft did not return required tokens"))

-- `not requested_tenant or str(principal.entra_tenant_id) == requested_tenant`
abbrev pub is_requested : Option Text → Text → Bool
is_requested none tenant = true
is_requested (some []) tenant = true
is_requested (some (c ∷ cs)) tenant = text_eq tenant (c ∷ cs)

module _ (jwt : Jwt) (keys : SigningKeys) (python : Python) (fernet : Fernet)
    (settings : Settings) where
  -- What the sign-in takes from Microsoft's answer: the principal, and the refresh token.
  abbrev pub identified : ℕ → Option Text → Fields → Reply (TokenPrincipal × Text)
  identified now requested tokens = do
    id_token ← require missing_tokens (text_field (codes "id_token") tokens)
    access_token ← require missing_tokens (text_field (codes "access_token") tokens)
    refresh_token ← require missing_tokens (text_field (codes "refresh_token") tokens)
    principal ←
        validate jwt keys python settings (now / 1000000) id_token settings.microsoft_client_id
    check (is_requested requested (python.print_uuid principal.entra_tenant_id))
        (refused 401 (Json.str (codes "Authenticated tenant does not match request")))
    encrypted ← encrypt fernet settings refresh_token
    reply (principal, encrypted)

  -- The handler before its transaction.
  unfoldable pub authenticate : Post → ℕ → Callback → Reply (TokenPrincipal × Text)
  authenticate post now request = do
    verifier ← checked_verifier request
    tokens ← exchange_code settings post request.code verifier (get tenant_cookie request.cookies)
    identified now (get tenant_cookie request.cookies) tokens

  abbrev pub login_event : ℕ → ℕ → ℕ → ResolvedIdentity → AuditEvent
  login_event event_id now correlation_id identity = record {
    event = record {
      specversion = codes "1.0";
      id = event_id;
      source = codes "identity-service";
      type = codes "identity.user-synchronized.v1";
      subject = codes "user/" ++ python.print_uuid identity.user.id;
      time = now;
      datacontenttype = codes "application/json";
      tenant_id = identity.tenant.id;
      correlation_id = correlation_id;
      payload = Json.obj (
          Fields.field (codes "authentication") (Json.str (codes "authorization_code_pkce"))
            Fields.end);
    };
    actor_type = codes "user";
    actor_id = python.print_uuid identity.user.id;
    action = codes "identity.login";
    entity_type = codes "user";
    entity_id = some (python.print_uuid identity.user.id);
    outcome = codes "succeeded";
  }

  -- The transaction: the user's onboarding and its audit event.
  abbrev pub sign_in : ℕ → Callback → TokenPrincipal × Text → World → ResolvedIdentity × World
  sign_in now request (principal, encrypted) world =
      let (identity, store) =
        onboard_oauth_user python.print_uuid now principal
          record {
            tenant_display_name = none;
            encrypted_refresh_token = encrypted;
            scopes = scopes;
            token_authority =
                refresh_authority python.print_uuid principal.entra_tenant_id
                  (get tenant_cookie request.cookies);
          }
          world.store in
      (
        identity,
        record world {
          store = record store { next_id = suc (suc store.next_id) };
          outbox =
              enqueue_audit (suc store.next_id) now (codes "audit")
                (login_event store.next_id now request.correlation_id identity) world.outbox;
        },
      )

  -- The recording of the login, whose exceptions are logged.
  abbrev pub recorded : Creation → Bool → ℕ → ℕ → ResolvedIdentity → World → World
  recorded creation uploaded now correlation_id identity world = elim world.recorder [
    | none ↦ world
    | some r ↦ record world {
      recorder = some (record_login creation uploaded now correlation_id identity r).1;
    }
  ]

  abbrev pub claims_of : ResolvedIdentity → SessionClaims
  claims_of identity = record {
    user_id = identity.user.id;
    tenant_id = identity.tenant.id;
    entra_tenant_id = identity.tenant.entra_tenant_id;
    entra_object_id = identity.user.entra_object_id;
  }

  abbrev pub signed_in_response : Text → Response
  signed_in_response token = record {
    status = 302;
    location = some (rstrip b'/' settings.frontend_url ++ codes "/");
    cookies =
        set_cookie settings.session_cookie_name token settings.session_ttl_seconds true
          settings.session_cookie_secure (codes "lax") settings.session_cookie_domain (codes "/")
        ∷ host_delete state_cookie
        ∷ host_delete verifier_cookie
        ∷ host_delete tenant_cookie
        ∷ [];
  }

  abbrev pub respond : ℕ → ResolvedIdentity → Reply Response
  respond now identity = do
    token ← encode python jwt settings (now / 1000000) (claims_of identity)
    reply (signed_in_response token)

  -- `creation` and `uploaded` are what the storage account does.
  unfoldable pub callback : Post → Creation → Bool → ℕ → Callback → World → Reply Response × World
  callback post creation uploaded now request world = elim (authenticate post now request) [
    | refused status detail ↦ (refused status detail, world)
    | raised ↦ (raised, world)
    | reply authenticated ↦
        let (identity, after) = sign_in now request authenticated world in
        (respond now identity, recorded creation uploaded now request.correlation_id identity after)
  ]
