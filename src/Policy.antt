-- ===== src/Policy.antt =====
-- The policy engine (backend/internal/service/policy_service.go, context_resolver_service.go,
-- backend/internal/domain/policy.go).
pub mod Value
pub mod Types
pub mod Context
pub mod Conditions
pub mod Evaluate
pub mod Store
pub mod Change
pub mod Decision
pub mod Evaluation
pub mod Patterns
pub mod Operators
pub mod Versions
pub mod Effects
pub mod Runs
pub mod History
pub mod Rollback
