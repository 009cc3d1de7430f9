-- ===== src/Relationship.antt =====
-- apps/relationship-service: the graph of resources, its extraction and its traversal.
pub mod Models
pub mod Queries
pub mod Extract
pub mod Edges
pub mod Graph
mod Handlers
