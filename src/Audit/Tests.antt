-- ===== src/Audit/Tests.antt =====
-- The properties of the audit log at a few events, with a toy hash.
use sentinel_keyvault.Common.{
  ℕ, ◌≡◌, refl, Option, none, some, List, [], ◌∷◌, ◌++◌, arith, Text, codes, IsOrdered,
}
use sentinel_keyvault.Platform.Json.{Json}
use sentinel_keyvault.Platform.Events.{AuditEvent}
use sentinel_keyvault.Audit.Models.{AuditLog, Evidence, evidence}
use sentinel_keyvault.Audit.Ingest.{Tables, ingest, new_log, user_of, latest, activity_of}
use sentinel_keyvault.Audit.Chain.{IsChain, IsUnique, of_tenant}
use sentinel_keyvault.Audit.History.{Delivery, deliver, deliver_all, deliver_all-IsChain}
use sentinel_keyvault.Audit.Redelivery.{ingest_again}
use sentinel_keyvault.Audit.Tamper.{AllAgree, last_hash_determines}
use sentinel_keyvault.Audit.Fork.{ingest_forks}
use sentinel_keyvault.Audit.Search.{Filters, is_newer, search}
use sentinel_keyvault.Audit.Search.Exact.{search_lem}

-- A hash that determines what it is made from.
data Digest : Type 0 where
  first : Evidence → Digest
  next : Evidence → Digest → Digest

abbrev digest : Evidence → Option Digest → Digest
digest e none = first e
digest e (some d) = next e d

digest_injective :
    (a b : Evidence) (p q : Option Digest) → digest a p ≡ digest b q → (a ≡ b) × (p ≡ q)
digest_injective a b none none e = (cc, refl)
digest_injective a b none (some q) e = absurd (cc)
digest_injective a b (some p) none e = absurd (cc)
digest_injective a b (some p) (some q) e = (cc, cc)

abbrev event : ℕ → AuditEvent
event id = record {
  event = record {
    specversion = codes "1.0";
    id = id;
    source = codes "test";
    type = codes "t.v1";
    subject = codes "s";
    time = id;
    datacontenttype = codes "application/json";
    tenant_id = 1;
    correlation_id = 9;
    payload = Json.null;
  };
  actor_type = codes "service";
  actor_id = codes "u";
  action = codes "a";
  entity_type = codes "e";
  entity_id = none;
  outcome = codes "ok";
}

abbrev no_uuid : Text → Option ℕ
no_uuid t = none

abbrev empty : Tables Digest
empty = record { logs = []; activity = [] }

abbrev delivery : ℕ → ℕ → Delivery
delivery id now = record { id = id; activity_id = id; now = now; event = event id }

abbrev two_deliveries : List Delivery
two_deliveries = delivery 1 10 ∷ delivery 2 20 ∷ []

abbrev row : ℕ → ℕ → Option Digest → AuditLog Digest
row id now previous = new_log digest id now (event id) previous

abbrev grown : ℕ → ℕ → Option Digest → Tables Digest → Tables Digest
grown id now previous t = record {
  logs = t.logs ++ row id now previous ∷ [];
  activity = t.activity ++ activity_of id (event id) none ∷ [];
}

deliver_all-IsChain_example :
    IsChain digest none (of_tenant 1 (deliver_all no_uuid digest two_deliveries empty).logs)
    × IsUnique (deliver_all no_uuid digest two_deliveries empty).logs
deliver_all-IsChain_example =
    deliver_all-IsChain no_uuid digest two_deliveries 1 (omega arith, (omega arith, tt))

ingest_again_example :
    ingest no_uuid digest 8 8 30 (event 1) (grown 1 10 none empty)
    ≡ some (row 1 10 none, grown 1 10 none empty)
unfolding ingest user_of latest
ingest_again_example =
    ingest_again no_uuid digest 1 8 1 8 10 30 (event 1) empty (grown 1 10 none empty)
      (row 1 10 none) refl

abbrev first_hash : Digest
first_hash = digest (evidence (event 1)) none

-- The deliveries again, with rows that were ingested at other times.
last_hash_determines_example :
    AllAgree
      (row 1 11 none ∷ row 2 21 (some first_hash) ∷ [])
      (of_tenant 1 (deliver_all no_uuid digest two_deliveries empty).logs)
unfolding deliver_all deliver ingest user_of latest
last_hash_determines_example =
    last_hash_determines no_uuid digest digest_injective two_deliveries 1
      (row 1 11 none ∷ row 2 21 (some first_hash) ∷ []) (omega arith, (omega arith, tt))
      (refl, refl, (refl, refl, tt)) refl

abbrev late : Tables Digest
late = grown 1 30 none empty

ingest_forks_example :
    ((row 2 10 (some first_hash)).previous_hash ≡ some first_hash)
    × ((row 3 20 (some first_hash)).previous_hash ≡ some first_hash)
unfolding ingest user_of latest
ingest_forks_example =
    ingest_forks no_uuid digest 2 3 2 3 10 20 (event 2) (event 3) late
      (grown 2 10 (some first_hash) late)
      (grown 3 20 (some first_hash) (grown 2 10 (some first_hash) late)) (row 1 30 none)
      (row 2 10 (some first_hash)) (row 3 20 (some first_hash)) refl refl (omega arith) refl refl
      refl refl

abbrev everything : Filters
everything = record {
  start = none;
  end = none;
  actor_id = some (codes "");
  action = none;
  entity_type = none;
  entity_id = none;
  outcome = none;
  correlation_id = none;
}

search_lem_example : IsOrdered is_newer (search 1 everything 5 late.logs)
search_lem_example = (search_lem 1 5 everything late.logs).0
