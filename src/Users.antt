-- ===== src/Users.antt =====
-- The user directory (backend/internal/service/user_service.go, backend/internal/domain/user.go).
pub mod Types
pub mod Service
pub mod Membership
pub mod Lifecycle
