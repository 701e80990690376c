-- ===== src/Permissions.antt =====
-- Permissions (backend/internal/service/permission_service.go, backend/internal/domain/permission.go).
pub mod Types
pub mod Service
pub mod Laws
