-- ===== src/Assets/Types.antt =====
-- The state of the asset service, its requests, results and errors (asset_service.go,
-- backend/internal/domain/asset.go).
use bonipam.Common.{ℕ, String, Bool, Option, List}
use bonipam.Common.Int.{ℤ}
use bonipam.Go.Map.{Map}
use bonipam.Go.Time.{Time}
use bonipam.Policy.Value.{Value}

pub data AssetTransferStatus : Type 0 where
  pending approved rejected : AssetTransferStatus

pub record Asset : Type 0 where
  pub id : String
  pub name : String
  pub asset_type : String
  pub host : String
  pub port : ℤ
  pub environment : String
  pub owner : String
  pub criticality : String
  pub groups : List String
  pub connection_metadata : Map Value
  pub created_at : Time
  pub updated_at : Time

pub record CreateAssetRequest : Type 0 where
  pub name : String
  pub asset_type : String
  pub host : String
  pub port : ℤ
  pub environment : String
  pub owner : String
  pub criticality : String
  pub groups : List String
  pub connection_metadata : Map Value

pub record UpdateAssetTaggingRequest : Type 0 where
  pub environment : String
  pub owner : String
  pub criticality : String
  pub groups : List String

pub record TestAssetConnectionResult : Type 0 where
  pub asset_id : String
  pub status : String
  pub latency_ms : ℤ
  pub checked_at : Time
  pub message : String
  pub protocol : String
  pub timeout_used_s : ℤ

pub record AssignAssetOwnerRequest : Type 0 where
  pub owner : String
  pub assigned_by : String
  pub reason : String

pub record RequestAssetOwnershipTransferRequest : Type 0 where
  pub new_owner : String
  pub requested_by : String
  pub reason : String

pub record ReviewAssetOwnershipTransferRequest : Type 0 where
  pub approves : Bool
  pub reviewed_by : String
  pub comment : String

pub record AssetOwnershipTransfer : Type 0 where
  pub id : String
  pub asset_id : String
  pub from_owner : String
  pub to_owner : String
  pub requested_by : String
  pub reviewed_by : String
  pub reason : String
  pub comment : String
  pub status : AssetTransferStatus
  pub requested_at : Time
  pub reviewed_at : Option Time

pub record AssetAuditEvent : Type 0 where
  pub id : String
  pub asset_id : String
  pub event_type : String
  pub actor : String
  pub message : String
  pub metadata : Map Value
  pub timestamp : Time

-- The errors of asset_service.go, one for each message.
pub data AssetError : Type 0 where
  asset_fields_required port_out_of_range : AssetError
  metadata_required ssh_username_required auth_method_required : AssetError
  auth_method_not_text auth_method_unknown engine_required engine_not_text engine_unknown :
      AssetError
  database_required database_username_required : AssetError
  unsupported_asset_type : String → AssetError
  environment_unknown criticality_unknown asset_name_exists asset_not_found : AssetError
  precheck_failed : AssetError → AssetError
  assignment_fields_required transfer_fields_required no_current_owner same_owner : AssetError
  reviewed_by_required transfer_not_found transfer_already_reviewed : AssetError
  csv_header_failed csv_row_failed no_assets_provided metadata_json_invalid : AssetError
  csv_column_missing port_text_invalid : String → AssetError

pub record AssetImportRequest : Type 0 where
  pub assets : List CreateAssetRequest
  pub csv_data : String

-- Why an imported row was skipped or failed.
pub data ImportReason : Type 0 where
  name_required duplicate_with_existing duplicate_within_payload : ImportReason
  creation_failed : AssetError → ImportReason

pub record AssetImportIssue : Type 0 where
  pub index : ℕ
  pub name : String
  pub reason : ImportReason

pub record AssetImportResult : Type 0 where
  pub total_rows : ℕ
  pub imported : List Asset
  pub skipped : List AssetImportIssue
  pub failed : List AssetImportIssue

pub record AssetService : Type 0 where
  pub assets : Map Asset
  pub ownership_transfers : Map AssetOwnershipTransfer
  pub audit_events : Map (List AssetAuditEvent)
