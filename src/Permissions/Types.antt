-- ===== src/Permissions/Types.antt =====
-- Permissions, requests and errors (backend/internal/domain/permission.go). A map that may be nil
-- is an Option.
use bonipam.Common.{String, Option}
use bonipam.Go.Map.{Map}
use bonipam.Go.Time.{Time}

pub record Permission : Type 0 where
  pub id : String
  pub resource : String
  pub action : String
  pub constraints : Option (Map String)
  pub created_at : Time
  pub updated_at : Time

pub record CreatePermissionRequest : Type 0 where
  pub resource : String
  pub action : String
  pub constraints : Option (Map String)

pub record UpdatePermissionRequest : Type 0 where
  pub constraints : Option (Map String)

-- The errors of permission_service.go, one for each message.
pub data PermissionError : Type 0 where
  resource_and_action_required permission_exists permission_not_found : PermissionError

pub record PermissionService : Type 0 where
  pub permissions : Map Permission
