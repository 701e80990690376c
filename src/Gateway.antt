-- ===== src/Gateway.antt =====
-- The access gateway: sessions and just-in-time grants
-- (backend/internal/service/gateway_service.go, backend/internal/domain/gateway.go).
pub mod Types
pub mod Grants
pub mod Sessions
pub mod Access
pub mod Reach
pub mod Final
pub mod Ended
pub mod Outcomes
