-- ===== src/Identity/Bootstrap/Tests.antt =====
-- Two starts of the service on empty tables.
use sentinel_keyvault.Common.{◌≡◌, refl, [], inl, inr, codes}
use sentinel_keyvault.Platform.Reply.{Reply, reply}
use sentinel_keyvault.Platform.Samples.{settings, print, parse}
use sentinel_keyvault.Identity.Models.{Store}
use sentinel_keyvault.Identity.Bootstrap.{bootstrap_identity}
use sentinel_keyvault.Identity.Bootstrap.Again.{bootstrap_identity_again}
use sentinel_keyvault.Identity.Bootstrap.Admin.{IsPermitted, bootstrap_identity_permits}

abbrev empty : Store
empty = record {
  tenants = [];
  users = [];
  roles = [];
  permissions = [];
  role_permissions = [];
  user_roles = [];
  connections = [];
  next_id = 1;
}

abbrev stored : Reply Store → Store
stored (reply s) = s
stored _ = empty

abbrev started : Store
started = stored (bootstrap_identity print parse settings 10 empty)

bootstrap_identity_again_example :
    bootstrap_identity print parse settings 20 started ≡ reply started
unfolding bootstrap_identity
bootstrap_identity_again_example =
    bootstrap_identity_again print parse settings 10 20 empty started refl

bootstrap_identity_permits_example :
    IsPermitted print parse settings 30 5 6 (codes "identity.roles.read") started
unfolding bootstrap_identity
bootstrap_identity_permits_example =
    bootstrap_identity_permits print parse settings 10 30 5 6 empty started
      (codes "identity.roles.read") (codes "Read roles and permissions") refl refl refl tt
      (inr (inl refl))
