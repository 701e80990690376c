-- ===== src/Groups/Types.antt =====
-- The mapping service with the two services that it points to, its responses and errors
-- (backend/internal/domain/group_mapping.go).
use bonipam.Common.{ℕ, String, List}
use bonipam.Go.Map.{Map}
use bonipam.Roles.Types.{RoleError, RoleService}
use bonipam.Users.Types.{UserError, UserService}

-- A `map[string]struct{}` is a map to `Unit`.
abbrev pub Set : Type 0
Set = Map (Unit {0})

-- The services that `roleService` and `userService` point to are part of the state.
pub record GroupMappingService : Type 0 where
  pub mappings : Map Set
  pub role_service : RoleService
  pub user_service : UserService

pub record GroupRoleMapping : Type 0 where
  pub group_id : String
  pub role_ids : List String

pub record GroupRoleActionResponse : Type 0 where
  pub group_id : String
  pub role_ids : List String
  pub updated_users : ℕ

-- The errors of group_mapping_service.go, and those that it passes on.
pub data GroupError : Type 0 where
  group_and_role_required group_id_required mapping_not_found : GroupError
  role_error : RoleError → GroupError
  user_error : UserError → GroupError
