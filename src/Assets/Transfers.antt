-- ===== src/Assets/Transfers.antt =====
-- The owners of assets, the transfers between them and the audit log (asset_service.go).
use Prim.Native.String.{◌++◌ as append}
use bonipam.Common.{
  String, Bool, true, false, ◌||◌, none, some, List, [], ◌∷◌, ◌++◌, ◌==◌, if◌then◌else◌, ok, err,
}
use bonipam.Common.Lists.{filter}
use bonipam.Go.Map.{Map, get, put, values, or_else}
use bonipam.Go.Sort.{sort_slice}
use bonipam.Go.Text.{trim_space, equal_fold}
use bonipam.Go.Time.{Time, before}
use bonipam.Policy.Value.{Value}
use bonipam.Policy.Value.Value.{str}
use bonipam.Assets.Types.{
  Asset, AssetOwnershipTransfer, AssetTransferStatus, pending, approved, rejected, AssetAuditEvent,
  AssignAssetOwnerRequest, RequestAssetOwnershipTransferRequest,
  ReviewAssetOwnershipTransferRequest, AssetService, asset_not_found, assignment_fields_required,
  transfer_fields_required, no_current_owner, same_owner, reviewed_by_required, transfer_not_found,
  transfer_already_reviewed,
}
use bonipam.Assets.Service.{Outcome}

-- The uuid and the time of an audit event.
pub record EventDraws : Type 0 where
  pub uuid : String
  pub at : Time

unfoldable pub audit_event :
    String → String → String → String → Map Value → EventDraws → AssetAuditEvent
audit_event asset_id event_type actor message metadata draws = record {
  id = append "evt-" draws.uuid;
  asset_id = asset_id;
  event_type = event_type;
  actor = actor;
  message = message;
  metadata = metadata;
  timestamp = draws.at;
}

-- recordAuditEventLocked
unfoldable pub record_audit_event : AssetService → AssetAuditEvent → AssetService
record_audit_event s event = record s {
  audit_events =
      put s.audit_events event.asset_id
        (or_else (get s.audit_events event.asset_id) [] ++ event ∷ []);
}

unfoldable pub owned_asset : Asset → String → Time → Asset
owned_asset asset owner now = record asset { owner = owner; updated_at = now }

unfoldable pub assigned_event :
    String → Asset → String → String → String → EventDraws → AssetAuditEvent
assigned_event asset_id asset owner assigned_by reason draws =
    audit_event asset_id "owner_assigned" assigned_by "asset owner assigned"
      (("from_owner", str asset.owner) ∷ ("to_owner", str owner) ∷ ("reason", str reason) ∷ [])
      draws

unfoldable pub assign_owner :
    AssetService → String → AssignAssetOwnerRequest → Time → EventDraws → Outcome Asset
assign_owner s asset_id req now draws =
    let owner = trim_space req.owner in
    let assigned_by = trim_space req.assigned_by in
    if owner == "" || assigned_by == ""
    then (err assignment_fields_required, s)
    else elim (get s.assets asset_id) [
      | none ↦ (err asset_not_found, s)
      | some asset ↦ (
        ok (owned_asset asset owner now),
        record_audit_event
            (record s { assets = put s.assets asset_id (owned_asset asset owner now) })
            (assigned_event asset_id asset owner assigned_by (trim_space req.reason) draws),
      )
    ]

unfoldable pub new_transfer :
    String → Asset → RequestAssetOwnershipTransferRequest → String → Time → AssetOwnershipTransfer
new_transfer asset_id asset req uuid now = record {
  id = append "trf-" uuid;
  asset_id = asset_id;
  from_owner = asset.owner;
  to_owner = trim_space req.new_owner;
  requested_by = trim_space req.requested_by;
  reviewed_by = "";
  reason = trim_space req.reason;
  comment = "";
  status = pending;
  requested_at = now;
  reviewed_at = none;
}

unfoldable pub requested_event : String → AssetOwnershipTransfer → EventDraws → AssetAuditEvent
requested_event asset_id transfer draws =
    audit_event asset_id "ownership_transfer_requested" transfer.requested_by
      "ownership transfer requested"
      (("transfer_id", str transfer.id)
        ∷ ("from_owner", str transfer.from_owner)
        ∷ ("to_owner", str transfer.to_owner)
        ∷ [])
      draws

unfoldable pub request_ownership_transfer :
    AssetService
    → String
    → RequestAssetOwnershipTransferRequest
    → String
    → Time
    → EventDraws
    → Outcome AssetOwnershipTransfer
request_ownership_transfer s asset_id req uuid now draws =
    if trim_space req.new_owner == "" || trim_space req.requested_by == ""
    then (err transfer_fields_required, s)
    else elim (get s.assets asset_id) [
      | none ↦ (err asset_not_found, s)
      | some asset ↦
          if trim_space asset.owner == ""
          then (err no_current_owner, s)
          else if equal_fold asset.owner (trim_space req.new_owner)
          then (err same_owner, s)
          else let transfer = new_transfer asset_id asset req uuid now in
            (
              ok transfer,
              record_audit_event
                  (record s {
                    ownership_transfers = put s.ownership_transfers transfer.id transfer;
                  })
                  (requested_event asset_id transfer draws),
            )
    ]

abbrev pub is_pending : AssetTransferStatus → Bool
is_pending pending = true
is_pending approved = false
is_pending rejected = false

unfoldable pub reviewed_transfer :
    AssetOwnershipTransfer → Bool → String → String → Time → AssetOwnershipTransfer
reviewed_transfer transfer approves reviewed_by comment now = record transfer {
  reviewed_by = reviewed_by;
  comment = comment;
  reviewed_at = some now;
  status = if approves then approved else rejected;
}

unfoldable pub reviewed_event : AssetOwnershipTransfer → Bool → EventDraws → AssetAuditEvent
reviewed_event transfer approves draws =
    audit_event transfer.asset_id
      (if approves then "ownership_transfer_approved" else "ownership_transfer_rejected")
      transfer.reviewed_by
      (if approves then "ownership transfer approved" else "ownership transfer rejected")
      (("transfer_id", str transfer.id)
        ∷ ("from_owner", str transfer.from_owner)
        ∷ ("to_owner", str transfer.to_owner)
        ∷ ("comment", str transfer.comment)
        ∷ [])
      draws

-- The asset that an approval writes, under the asset's own id.
unfoldable pub hand_over :
    AssetService → Asset → AssetOwnershipTransfer → Bool → Time → AssetService
hand_over s asset transfer approves now =
    if approves
    then record s { assets = put s.assets asset.id (owned_asset asset transfer.to_owner now) }
    else s

unfoldable pub finish_review :
    AssetService
    → String
    → AssetOwnershipTransfer
    → Bool
    → Time
    → EventDraws
    → Outcome AssetOwnershipTransfer
finish_review s transfer_id transfer approves now draws = elim (get s.assets transfer.asset_id) [
  | none ↦ (err asset_not_found, s)
  | some asset ↦
      let handed = hand_over s asset transfer approves now in
      (
        ok transfer,
        record_audit_event
            (record handed {
              ownership_transfers = put handed.ownership_transfers transfer_id transfer;
            })
            (reviewed_event transfer approves draws),
      )
]

unfoldable pub review_ownership_transfer :
    AssetService
    → String
    → ReviewAssetOwnershipTransferRequest
    → Time
    → EventDraws
    → Outcome AssetOwnershipTransfer
review_ownership_transfer s transfer_id req now draws =
    let reviewed_by = trim_space req.reviewed_by in
    if reviewed_by == ""
    then (err reviewed_by_required, s)
    else elim (get s.ownership_transfers transfer_id) [
      | none ↦ (err transfer_not_found, s)
      | some transfer ↦ elim (is_pending transfer.status) [
        | false ↦ (err transfer_already_reviewed, s)
        | true ↦
            finish_review s transfer_id
              (reviewed_transfer transfer req.approves reviewed_by (trim_space req.comment) now)
              req.approves now draws
      ]
    ]

unfoldable pub requested_before : AssetOwnershipTransfer → AssetOwnershipTransfer → Bool
requested_before a b = before a.requested_at b.requested_at

unfoldable pub list_ownership_transfers : AssetService → String → List AssetOwnershipTransfer
list_ownership_transfers s asset_id =
    sort_slice requested_before
      (filter (λ transfer. transfer.asset_id == asset_id) (values s.ownership_transfers))

unfoldable pub list_asset_audit_events : AssetService → String → List AssetAuditEvent
list_asset_audit_events s asset_id = or_else (get s.audit_events asset_id) []
