-- ===== src/Groups.antt =====
-- Group to role mappings (backend/internal/service/group_mapping_service.go,
-- backend/internal/domain/group_mapping.go), over the role and the user services.
pub mod Types
pub mod Service
pub mod Grants
