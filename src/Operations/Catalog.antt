-- ===== src/Operations/Catalog.antt =====
-- apps/operations-service/src/sentinel_operations/domain.py. A parameter schema is a `Json` value.
use sentinel_keyvault.Common.{Bool, false, List, [], ◌∷◌, Text, codes}
use sentinel_keyvault.Platform.Json.{Json, Items, Fields}
use sentinel_keyvault.Platform.Json.Json.{str, bool, number, arr, obj}
use sentinel_keyvault.Platform.Json.Items.{nil, cons}
use sentinel_keyvault.Platform.Json.Fields.{end, field}

pub record ActionDefinition : Type 0 where
  pub action_type : Text
  pub display_name : Text
  pub required_permission : Text
  pub azure_permissions : List Text
  pub destructive : Bool
  pub enabled : Bool
  pub parameter_schema : Json

abbrev type_of : Text → Json
type_of name = obj (field (codes "type") (str name) end)

abbrev closed : Fields
closed = field (codes "additionalProperties") (bool false) end

abbrev object_of : Fields → Json
object_of rest = obj (field (codes "type") (str (codes "object")) rest)

abbrev required : Items → Fields → Fields
required names rest = field (codes "required") (arr names) rest

abbrev properties : Fields → Fields → Fields
properties schemas rest = field (codes "properties") (obj schemas) rest

abbrev deployment_schema : Fields → Fields
deployment_schema rest =
    field (codes "namespace") (type_of (codes "string"))
      (field (codes "deployment") (type_of (codes "string")) rest)

-- None of the actions is destructive, and none is enabled.
abbrev disabled : Text → Text → Text → Json → ActionDefinition
disabled action_type display_name azure_permission schema = record {
  action_type = action_type;
  display_name = display_name;
  required_permission = codes "operations.execute";
  azure_permissions = azure_permission ∷ [];
  destructive = false;
  enabled = false;
  parameter_schema = schema;
}

abbrev pub action_catalog : List ActionDefinition
action_catalog =
    disabled (codes "azure.vm.start") (codes "Start virtual machine")
      (codes "Microsoft.Compute/virtualMachines/start/action") (object_of closed)
    ∷ disabled (codes "azure.vm.stop") (codes "Stop virtual machine")
        (codes "Microsoft.Compute/virtualMachines/deallocate/action") (object_of closed)
    ∷ disabled (codes "azure.vm.restart") (codes "Restart virtual machine")
        (codes "Microsoft.Compute/virtualMachines/restart/action") (object_of closed)
    ∷ disabled (codes "kubernetes.deployment.restart") (codes "Restart AKS deployment")
        (codes "kubernetes:apps/deployments/patch")
        (object_of (
          required (cons (str (codes "namespace")) (cons (str (codes "deployment")) nil))
            (properties (deployment_schema end) closed)))
    ∷ disabled (codes "kubernetes.deployment.scale") (codes "Scale AKS deployment")
        (codes "kubernetes:apps/deployments/scale/patch")
        (object_of (
          required
            (cons (str (codes "namespace"))
              (cons (str (codes "deployment")) (cons (str (codes "replicas")) nil)))
            (properties
              (deployment_schema (
                field (codes "replicas")
                  (obj (
                    field (codes "type") (str (codes "integer"))
                      (field (codes "minimum") (number (codes "0")) end)))
                  end))
              closed)))
    ∷ disabled (codes "azure.keyvault.secret.rotate") (codes "Rotate Key Vault secret")
        (codes "Microsoft.KeyVault/vaults/secrets/setSecret/action")
        (object_of (required (cons (str (codes "secret_name")) nil) closed))
    ∷ disabled (codes "azure.resource.tags.patch") (codes "Update resource tags")
        (codes "Microsoft.Resources/tags/write")
        (object_of (required (cons (str (codes "tags")) nil) closed))
    ∷ []
