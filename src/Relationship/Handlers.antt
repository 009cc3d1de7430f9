-- ===== src/Relationship/Handlers.antt =====
-- The handlers of apps/relationship-service/src/sentinel_relationship/main.py. `get_actor` is the
-- outcome of that dependency. A handler that raises leaves the tables as they were.
use sentinel_keyvault.Common.{ℕ, Option, some, List, [], ◌∷◌, ◌++◌, Text, codes, length}
use sentinel_keyvault.Platform.Json.{Json, Fields}
use sentinel_keyvault.Platform.Events.{AuditEvent}
use sentinel_keyvault.Platform.Outbox.{OutboxRecord, enqueue_audit}
use sentinel_keyvault.Platform.Reply.{Reply, reply, ◌>>=◌, ◌>>◌}
use sentinel_keyvault.Platform.Settings.{Settings}
use sentinel_keyvault.Platform.Actor.{ActorContext, require_permission, check_internal}
use sentinel_keyvault.Relationship.Models.{
  ResourceNode, Relationship, Direction, GraphQuery, GraphResponse,
}
use sentinel_keyvault.Relationship.Queries.{Decimal, list_edges}
use sentinel_keyvault.Relationship.Edges.{ResourceProjectionEvent, project_and_extract, rebuild_all}
use sentinel_keyvault.Relationship.Graph

-- `read_relationships`, of the outcome of `get_actor`
abbrev pub read_relationships : Reply ActorContext → Reply ActorContext
read_relationships = require_permission (codes "relationships.read")

pub record RelationshipResponse : Type 0 where
  pub id : ℕ
  pub source_resource_id : ℕ
  pub target_resource_id : ℕ
  pub relationship_type : Text
  pub dependency_strength : Text
  pub confidence : ℕ
  pub evidence : Fields

abbrev pub response_of : Relationship → RelationshipResponse
response_of r = record {
  id = r.id;
  source_resource_id = r.source_resource_id;
  target_resource_id = r.target_resource_id;
  relationship_type = r.relationship_type;
  dependency_strength = r.dependency_strength;
  confidence = r.confidence;
  evidence = r.evidence;
}

abbrev pub responses : List Relationship → List RelationshipResponse
responses [] = []
responses (r ∷ rs) = response_of r ∷ responses rs

-- The handler `relationships`
unfoldable pub relationships :
    Reply ActorContext
    → Option ℕ
    → Direction
    → Option Text
    → Decimal
    → List Relationship
    → Reply (List RelationshipResponse)
relationships get_actor resource_id direction relationship_type minimum_confidence rows = do
  actor ← read_relationships get_actor
  reply (
      responses (
        list_edges actor.tenant_id resource_id direction relationship_type minimum_confidence rows))

-- `print` is Python's `str` of a UUID, and `digits` that of a number.
module _ (print : ℕ → Text) (digits : ℕ → Text) where
  abbrev pub graph_event : ℕ → ℕ → ActorContext → GraphQuery → GraphResponse → AuditEvent
  graph_event event_id now actor query result = record {
    event = record {
      specversion = codes "1.0";
      id = event_id;
      source = codes "relationship-service";
      type = codes "relationships.graph-queried.v1";
      subject = codes "resource/" ++ print query.root_resource_id;
      time = now;
      datacontenttype = codes "application/json";
      tenant_id = actor.tenant_id;
      correlation_id = actor.correlation_id;
      payload = Json.obj (
          Fields.field (codes "node_count") (Json.number (digits (length result.nodes))) (
            Fields.field (codes "edge_count") (Json.number (digits (length result.edges)))
              Fields.end));
    };
    actor_type = codes "user";
    actor_id = print actor.actor_id;
    action = codes "relationships.graph.read";
    entity_type = codes "resource";
    entity_id = some (print query.root_resource_id);
    outcome = codes "succeeded";
  }

  -- The handler `graph`: its answer, and the outbox with the audit event.
  unfoldable pub graph :
      ℕ
      → ℕ
      → ℕ
      → Reply ActorContext
      → GraphQuery
      → List ResourceNode
      → List Relationship
      → List OutboxRecord
      → Reply (GraphResponse × List OutboxRecord)
  graph event_id row_id now get_actor query nodes rows outbox = do
    actor ← read_relationships get_actor
    let result = Graph.graph nodes rows actor.tenant_id query
    reply (
      result,
      enqueue_audit row_id now (codes "audit") (graph_event event_id now actor query result) outbox,
    )

-- The handler `graph_get`, whose query has no types.
unfoldable pub graph_get :
    Reply ActorContext
    → ℕ
    → Direction
    → ℕ
    → ℕ
    → List ResourceNode
    → List Relationship
    → Reply GraphResponse
graph_get get_actor root_resource_id direction max_depth max_nodes nodes rows = do
  actor ← read_relationships get_actor
  reply (
      Graph.graph nodes rows actor.tenant_id record {
        root_resource_id = root_resource_id;
        direction = direction;
        max_depth = max_depth;
        max_nodes = max_nodes;
        relationship_types = [];
      })

-- The handler `project_resource`
unfoldable pub project_resource :
    Settings
    → ℕ
    → (ℕ → ℕ)
    → ℕ
    → ResourceProjectionEvent
    → Option Text
    → List ResourceNode
    → List Relationship
    → Reply (List ResourceNode × List Relationship)
project_resource settings id uuid4 now event x_internal_token nodes rows = do
  check_internal settings x_internal_token
  let (nodes', rows', changed) = project_and_extract id uuid4 now event nodes rows
  reply (nodes', rows')

-- The handler `rebuild_relationships`
unfoldable pub rebuild_relationships :
    Settings
    → ℕ
    → (ℕ → ℕ → ℕ)
    → ℕ
    → Option Text
    → List ResourceNode
    → List Relationship
    → Reply (List Relationship)
rebuild_relationships settings tenant_id uuid4 now x_internal_token nodes rows = do
  check_internal settings x_internal_token
  let (rows', changed) = rebuild_all tenant_id uuid4 now nodes rows
  reply rows'
