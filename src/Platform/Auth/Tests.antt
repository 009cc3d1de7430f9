-- ===== src/Platform/Auth/Tests.antt =====
-- A token of Entra that is accepted, and one of a tenant that is not allowed.
use sentinel_keyvault.Common.{◌≡◌, ◌⊎◌, refl, none, some, [], ◌∷◌, Text, codes, words, rstrip, Has}
use sentinel_keyvault.Platform.Reply.{reply}
use sentinel_keyvault.Platform.Auth.{
  TokenPrincipal, validate, tenant_not_allowed, audience_of, uuid_claim,
}
use sentinel_keyvault.Platform.Auth.Validate.{Verified, validate_lem}
use sentinel_keyvault.Platform.Samples.{settings, python, jwt, keys, id_claims, jwt-Agrees, print}

abbrev principal : TokenPrincipal
principal = record {
  entra_tenant_id = 5;
  entra_object_id = 6;
  display_name = codes "n";
  principal_name = none;
  scopes = [];
  roles = [];
  claims = id_claims;
}

accepted :
    validate (jwt id_claims) keys python settings 100 (codes "token") (some (codes "cid"))
    ≡ reply principal
unfolding validate words rstrip
accepted = refl

other_tenant :
    validate
      (jwt id_claims)
      keys
      python
      (record settings { allowed_tenants = print 7 ∷ [] })
      100
      (codes "token")
      (some (codes "cid"))
    ≡ tenant_not_allowed
unfolding validate
other_tenant = refl

validate_lem_example :
    ((settings.allowed_tenants ≡ []) ⊎ Has (print 5) settings.allowed_tenants)
    × ((expected : Text) × (audience_of settings (some (codes "cid")) ≡ some expected)
        × Verified (jwt id_claims) keys python settings 100 (codes "token") expected principal)
    × (uuid_claim (jwt id_claims) keys python settings (codes "tid") id_claims ≡ reply 5)
    × (uuid_claim (jwt id_claims) keys python settings (codes "oid") id_claims ≡ reply 6)
validate_lem_example =
    validate_lem (jwt id_claims) keys python settings 100 (codes "token") (some (codes "cid"))
      principal (jwt-Agrees id_claims) accepted
