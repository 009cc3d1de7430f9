-- ===== src/Identity.antt =====
-- apps/identity-service: tenants, users, roles and permissions, and who gets which.
mod Models
mod Account
pub mod Repository
pub mod Permissions
pub mod Service
pub mod Session
mod Microsoft
mod Storage
mod Login
pub mod SignIn
pub mod Tokens
pub mod Access
pub mod Bootstrap
mod Tests
