-- ===== src/Lib.antt =====
-- Sentinel Keyvault: a verification library for the services of the repository, which keep an
-- inventory of Azure resources, the graph of their relationships, users and their permissions, an
-- audit log, assessments of changes and drafts of operations. Each service is a FastAPI application
-- over its own tables; they meet in the outbox (a service writes an audit record in its own
-- transaction, and a worker delivers it to the audit service) and in the inventory worker (which
-- posts every resource to the relationship service and then asks it to rebuild its edges).
--
-- Which file models which part:
--   Common        lists as tables, keys, ordering, sets, texts and Boolean tests.
--   Platform      packages/python/sentinel_common: events.py in Events, audit.py and the loop body of
--                 outbox_worker.py in Outbox (enqueue_audit, claim_outbox, relay), config.py in
--                 Settings, the middleware of http.py in Http (dispatch of the guard against
--                 cross-site requests, correlation_id), auth.py in Auth (validate) and, with
--                 context.py, in Actor (get_actor, require_permission). Json holds the values of JSON
--                 columns, Reply what a handler returns or raises, Jwt what PyJWT is taken to do,
--                 Python what is taken of Python's conversions, Samples what tests use.
--   Relationship  apps/relationship-service: models.py and schemas.py in Models, the queries of
--                 repository.py in Queries, extractors.py in Extract, upsert_node, rebuild_edges and
--                 their callers in Edges, RelationshipService.graph in Graph, main.py in Handlers.
--   Audit         apps/audit-service: models.py in Models, AuditRepository.ingest in Ingest and
--                 search in Search, main.py in Handlers. History delivers sequences of events, and
--                 Relay joins the worker, HttpAuditPublisher.publish and ingest_event.
--   Inventory     apps/inventory-service: models.py in Models, the queries of repository.py in
--                 Listing, its upserts in Upsert, its sync jobs in Jobs, azure.py in Azure and
--                 Credential, worker.py in Worker, schemas.py in Responses, main.py in Handlers.
--   Operations    apps/operations-service: domain.py in Catalog, the handlers of main.py beside it.
--   Identity      apps/identity-service: models.py in Models, account.py in Account, the methods of
--                 repository.py in Repository and Permissions, IdentityService in Service, session.py in
--                 Session, microsoft.py in Microsoft, storage.py in Storage, bootstrap.py in Bootstrap, and
--                 main.py in Login (login, logout), SignIn (callback), Tokens (delegated_azure_token) and
--                 Access (the profile and the roles, with get_identity of dependencies.py).
--   Intelligence  apps/change-intelligence-service: the handlers of main.py, and domain.py in Risk.
--
-- A request passes through the parts in this order: the middleware of Platform.Http; get_identity in
-- the identity service, which reads the session's cookie or validates a token; in another service
-- get_actor, which asks the identity service for the profile; require_permission; and the handler.
--
-- How state is modelled: a table is the list of its rows, and a handler or a method is a function from
-- the tables to its answer and the tables after its transaction. A transaction that raises is `none`
-- or an answer of its own, and leaves the tables as they were. UUIDs and times are natural numbers;
-- texts are lists of code points, with the case mapping of ASCII. What a call reads from outside,
-- such as the time, a fresh key, the rows that other transactions hold, an answer of Azure or of
-- another service, is an argument. Hashing, UUID parsing and printing, base64, PyJWT
-- and Fernet are parameters, and a theorem names what it takes them to do.
-- Workers of the outbox are taken one at a time in Audit.Relay. In Platform.Outbox.Workers and Lease
-- the claim and the settlement are separate transactions, and settle_held writes the columns that the
-- worker changes, to a row that another worker may have changed in the meantime.
-- An order that the database leaves open, that of rows equal under ORDER BY, is fixed by the model.
--
-- Fuel: the traversal of the graph recurs on max_depth, as the source's loop does; the walk over the
-- pages of a listing and the loop over Azure's pages take the number of their requests, and the
-- theorems about them say how many are enough.
--
-- Not modelled: logging, CORS, the timing header, the health endpoints and the database set-up, which
-- configure libraries; the choice of an Azure credential and the name of a login's blob; the checks of
-- query parameters that the framework makes from their declarations; the migrations, the web front end
-- and the infrastructure.
pub mod Common
pub mod Platform
pub mod Relationship
pub mod Audit
pub mod Inventory
pub mod Operations
pub mod Intelligence
pub mod Identity
