-- ===== src/Roles.antt =====
-- Roles (backend/internal/service/role_service.go, backend/internal/domain/role.go).
pub mod Types
pub mod Service
pub mod Laws
pub mod System
