-- ===== src/Roles/Types.antt =====
-- Roles, requests and errors (backend/internal/domain/role.go). A slice that may be nil is an Option.
use bonipam.Common.{String, Bool, Option, List}
use bonipam.Go.Map.{Map}
use bonipam.Go.Time.{Time}

pub record Role : Type 0 where
  pub id : String
  pub name : String
  pub description : String
  pub permissions : Option (List String)
  pub is_system : Bool
  pub created_at : Time
  pub updated_at : Time

pub record CreateRoleRequest : Type 0 where
  pub name : String
  pub description : String
  pub permissions : Option (List String)
  pub is_system : Bool

pub record UpdateRoleRequest : Type 0 where
  pub description : String
  pub permissions : Option (List String)

-- The errors of role_service.go, one for each message.
pub data RoleError : Type 0 where
  role_name_required role_name_exists role_not_found system_role : RoleError

pub record RoleService : Type 0 where
  pub roles : Map Role
