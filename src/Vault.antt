-- ===== src/Vault.antt =====
-- The vault: secrets under envelope encryption, leases of credentials, and their rotation
-- (backend/internal/service/vault_service.go, kms_provider.go, backend/internal/domain/vault.go).
pub mod Types
pub mod Xor
pub mod Kms
pub mod Wrapping
pub mod Random
pub mod Secrets
pub mod Envelope
pub mod Leases
pub mod Rotation
pub mod Kept
pub mod Runs
pub mod Revoked
pub mod Policies
pub mod Due
pub mod Overflow
pub mod Settled
pub mod Valid
