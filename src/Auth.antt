-- ===== src/Auth.antt =====
-- Authentication: sessions, refresh tokens, MFA challenges and the identity provider's users
-- (backend/internal/service/auth_service.go, user_sync_service.go, backend/internal/domain/auth.go).
pub mod Types
pub mod Sync
pub mod Tokens
pub mod Mfa
pub mod Service
pub mod Tracked
pub mod Kept
pub mod Revocation
pub mod Runs
pub mod Challenges
pub mod Rotation
pub mod SignIn
