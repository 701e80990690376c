-- ===== src/Http.antt =====
-- The HTTP handlers: requests to services, and their results and errors to replies.
pub mod Response
pub mod Gateway
pub mod Statuses
pub mod Vault
pub mod Missing
