-- ===== src/Operations/Tests.antt =====
-- The property of the operations at a request for an action of the catalog.
use sentinel_keyvault.Common.{ℕ, List, [], ◌∷◌, Text, codes}
use sentinel_keyvault.Platform.Json.{Json}
use sentinel_keyvault.Operations.{OperationCreate}
use sentinel_keyvault.Operations.Drafts.{IsSound, run, run_drafts}

abbrev request : OperationCreate
request = record {
  tenant_id = 1;
  actor_id = 2;
  correlation_id = 9;
  idempotency_key = codes "key";
  assessment_id = 5;
  assessment_input_hash = codes "sha256:00";
  action_type = codes "azure.vm.start";
  target_resource_id = 6;
  parameters = Json.null;
  reason = codes "maintenance";
}

abbrev print : ℕ → Text
print n = n ∷ []

abbrev requests : List (ℕ × ℕ × OperationCreate)
requests = (7, 10, request) ∷ (8, 11, request) ∷ []

run_drafts_example :
    IsSound (run print requests (record { operations = []; outbox = []; next_id = 1 }))
run_drafts_example = run_drafts print requests 1
