-- ===== src/Users/Types.antt =====
-- Users, requests and errors (backend/internal/domain/user.go). A nil slice and an empty one are the
-- same where the code makes no difference; where it tests for nil the field is an Option.
use bonipam.Common.{String, Option, List}
use bonipam.Go.Map.{Map}
use bonipam.Go.Time.{Time}

pub record User : Type 0 where
  pub id : String
  pub external_id : String
  pub email : String
  pub display_name : String
  pub groups : List String
  pub roles : List String
  pub status : String
  pub created_at : Time
  pub updated_at : Time
  pub deleted_at : Option Time

pub record CreateUserRequest : Type 0 where
  pub external_id : String
  pub email : String
  pub display_name : String
  pub groups : List String

pub record UpdateUserRequest : Type 0 where
  pub display_name : String
  pub groups : Option (List String)
  pub status : String

-- The errors of user_service.go, one for each message.
pub data UserError : Type 0 where
  email_and_name_required email_exists group_id_required : UserError
  user_not_found user_already_deleted user_not_deleted : UserError

pub record UserService : Type 0 where
  pub users : Map User
