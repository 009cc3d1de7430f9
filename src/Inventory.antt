-- ===== src/Inventory.antt =====
-- apps/inventory-service: the inventory of Azure resources, its queries, and the worker that fills it.
mod Models
mod Listing
mod Upsert
mod Jobs
mod Azure
mod Worker
mod Responses
mod Handlers
mod Credential
mod Tests
