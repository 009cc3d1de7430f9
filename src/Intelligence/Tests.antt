-- ===== src/Intelligence/Tests.antt =====
-- The properties of the assessments at a single request and a single rule.
use sentinel_keyvault.Common.{ℕ, ◌≡◌, true, none, some, [], ◌∷◌, Text, codes}
use sentinel_keyvault.Platform.Json.{Json}
use sentinel_keyvault.Intelligence.{
  Canonical, AssessmentCreate, Tables, create_assessment, get_assessment,
}
use sentinel_keyvault.Intelligence.Lookup.{create_assessment_lookup}
use sentinel_keyvault.Intelligence.Risk.{
  ℤ, AssessmentInput, RiskFinding, RiskRule, evaluate, evaluate_lem, level_of, total,
}

abbrev request : AssessmentCreate
request = record {
  tenant_id = 1;
  actor_id = 2;
  correlation_id = 9;
  action_type = codes "azure.vm.stop";
  target_resource_id = 6;
  parameters = Json.null;
}

abbrev hash : Canonical → Text
hash c = c.action_type

abbrev print : ℕ → Text
print n = n ∷ []

abbrev empty : Tables
empty = record { assessments = []; outbox = []; next_id = 1 }

create_assessment_lookup_example :
    get_assessment 1 1 (create_assessment hash print 7 10 request empty).1
    ≡ some (create_assessment hash print 7 10 request empty).0
create_assessment_lookup_example = (create_assessment_lookup hash print 7 10 request empty tt).0

abbrev finding : RiskFinding
finding = record {
  rule_id = codes "r";
  score = ℤ.pos 80;
  severity = codes "high";
  title = codes "t";
  description = codes "d";
  evidence = Json.null;
  remediation = none;
}

abbrev rule : RiskRule
rule = record {
  rule_id = codes "r";
  version = codes "1";
  supports = λ i. true;
  evaluate = λ i. some finding;
}

abbrev input : AssessmentInput
input = record {
  action_type = codes "azure.vm.stop";
  target_resource_id = codes "x";
  parameters = Json.null;
  dependency_count = ℤ.pos 3;
  environment = none;
  recoverable = true;
}

evaluate_lem_example :
    (evaluate (rule ∷ rule ∷ []) input).1 ≡ level_of (total (evaluate (rule ∷ rule ∷ []) input).2)
evaluate_lem_example = (evaluate_lem (rule ∷ rule ∷ []) input).2
