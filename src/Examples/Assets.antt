-- ===== src/Examples/Assets.antt =====
-- An asset, a transfer of it and an import (backend/internal/service/asset_service.go), and what the theorems
-- say of them.
use mathlib.Core.Path.{subst}
use Prim.Native.String.{◌++◌ as append}
use bonipam.Policy.Value.{str, Value}
use bonipam.Assets.Types.{
  approved, Asset, CreateAssetRequest, AssetOwnershipTransfer, AssetAuditEvent,
  TestAssetConnectionResult, pending, ReviewAssetOwnershipTransferRequest, AssetService,
}
use bonipam.Common.{◌≡◌, refl, true, none, some, List, [], ◌∷◌, ◌++◌, ok, ◌==◌, if◌then◌else◌}
use bonipam.Common.Int.{pos, ◌≤ℤ◌}
use bonipam.Go.Map.{Map, get, put}
use bonipam.Go.Text.{trim_space, to_lower, equal_fold}
use bonipam.Policy.Value.Value.{str}
use bonipam.Assets.Metadata.{clean}
use bonipam.Assets.Service.{new_asset_service, create_asset, test_connection, is_failing_host}
use bonipam.Assets.Transfers.{EventDraws, review_ownership_transfer, list_asset_audit_events}
use bonipam.Assets.Valid.{HasValidAssets}
use bonipam.Assets.Kept.{TransferFollows}
use bonipam.Assets.Runs.{Step, Reach, Reach-HasValidAssets, Reach-keeps_history}
use bonipam.Assets.Probe.{test_connection-answers}
use bonipam.Assets.Review.{review_ownership_transfer-exact}

abbrev bastion_request : CreateAssetRequest
bastion_request = record {
  name = " Bastion";
  asset_type = "SSH";
  host = "bastion.local";
  port = pos 0;
  environment = "prod";
  owner = "ann";
  criticality = "high";
  groups = "Edge" ∷ "edge " ∷ [];
  connection_metadata = ("Username", str "root") ∷ ("auth_method", str "Key ") ∷ [];
}

abbrev stocked : AssetService
stocked = (create_asset new_asset_service bastion_request "1" (pos 1)).1

Reach-HasValidAssets_example :
    HasValidAssets (create_asset new_asset_service bastion_request "1" (pos 1)).1.assets
unfolding new_asset_service get
Reach-HasValidAssets_example =
    Reach-HasValidAssets stocked
      (Reach.next Reach.here (Step.create bastion_request "1" (pos 1) refl))

abbrev pub bastion : Asset
bastion = record {
  id = "ast-1";
  name = "Bastion";
  asset_type = "ssh";
  host = "bastion.local";
  port = pos 22;
  environment = "prod";
  owner = "ann";
  criticality = "high";
  groups = "edge" ∷ [];
  connection_metadata = ("username", str "root") ∷ ("auth_method", str "key") ∷ [];
  created_at = pos 1;
  updated_at = pos 1;
}

abbrev pub inventory : AssetService
inventory = record { assets = ("ast-1", bastion) ∷ []; ownership_transfers = []; audit_events = [] }

stocked-inventory : stocked ≡ inventory
unfolding new_asset_service create_asset bonipam.Assets.Service.build_asset trim_space clean
    to_lower bonipam.Assets.Service.port_of bonipam.Assets.Service.default_port_for_type
    bonipam.Assets.Metadata.validate_connection_metadata bonipam.Assets.Metadata.validate_ssh
    bonipam.Assets.Metadata.has_key get bonipam.Assets.Metadata.normalize_keys put
    bonipam.Policy.Value.as_text bonipam.Assets.Tagging.normalize_asset_tagging
    bonipam.Assets.Tagging.is_environment bonipam.Assets.Tagging.is_criticality
    bonipam.Assets.Service.insert_asset bonipam.Assets.Tagging.normalize_groups
    bonipam.Go.Map.any_entry bonipam.Go.Once.has bonipam.Go.Once.push_all bonipam.Go.Once.push_new
    equal_fold
stocked-inventory = refl

pub inventory-HasValidAssets : HasValidAssets inventory.assets
unfolding new_asset_service get
inventory-HasValidAssets =
    subst (λ s. HasValidAssets s.assets) stocked-inventory
      (Reach-HasValidAssets stocked
        (Reach.next Reach.here (Step.create bastion_request "1" (pos 1) refl)))

test_connection-answers_example :
    (r : TestAssetConnectionResult) × (test_connection inventory "ast-1" (pos 99) (pos 5) ≡ ok r)
    × (r.asset_id ≡ "ast-1")
    × (pos 1 ≤ℤ r.timeout_used_s)
    × (r.timeout_used_s ≤ℤ pos 15)
    × (pos 10 ≤ℤ r.latency_ms)
    × (r.latency_ms ≤ℤ pos 129)
    × ((r.status == "failed") ≡ is_failing_host (clean "bastion.local"))
unfolding get
test_connection-answers_example =
    test_connection-answers inventory "ast-1" bastion (pos 99) (pos 5) inventory-HasValidAssets refl

abbrev transfer : AssetOwnershipTransfer
transfer = record {
  id = "trf-1";
  asset_id = "ast-1";
  from_owner = "ann";
  to_owner = "bob";
  requested_by = "bob";
  reviewed_by = "";
  reason = "";
  comment = "";
  status = pending;
  requested_at = pos 3;
  reviewed_at = none;
}

abbrev asked : AssetService
asked = record {
  assets = ("ast-1", bastion) ∷ [];
  ownership_transfers = ("trf-1", transfer) ∷ [];
  audit_events = [];
}

abbrev approval : ReviewAssetOwnershipTransferRequest
approval = record { approves = true; reviewed_by = " eve"; comment = "" }

abbrev event_draws : EventDraws
event_draws = record { uuid = "e"; at = pos 8 }

review_ownership_transfer-exact_example :
    (x' : AssetOwnershipTransfer) × (x' ≡ record transfer {
      reviewed_by = trim_space " eve";
      comment = trim_space "";
      reviewed_at = some (pos 7);
      status = approved;
    })
    × ((review_ownership_transfer asked "trf-1" approval (pos 7) event_draws).0 ≡ ok x')
    × (get
          (review_ownership_transfer asked "trf-1" approval
            (pos 7)
            event_draws).1.ownership_transfers
          "trf-1"
        ≡ some x')
    × (get (review_ownership_transfer asked "trf-1" approval (pos 7) event_draws).1.assets "ast-1"
        ≡ (if true
            then if "ast-1" == "ast-1"
              then some (record bastion { owner = "bob"; updated_at = pos 7 })
              else get (asked).assets "ast-1"
            else get (asked).assets "ast-1"))
    × (list_asset_audit_events
          (review_ownership_transfer asked "trf-1" approval (pos 7) event_draws).1
          "ast-1"
        ≡ list_asset_audit_events asked "ast-1"
          ++ record {
            id = append "evt-" event_draws.uuid;
            asset_id = "ast-1";
            event_type = "ownership_transfer_approved";
            actor = trim_space " eve";
            message = "ownership transfer approved";
            metadata =
                ("transfer_id", str transfer.id)
                ∷ ("from_owner", str transfer.from_owner)
                ∷ ("to_owner", str transfer.to_owner)
                ∷ ("comment", str (trim_space ""))
                ∷ [];
            timestamp = event_draws.at;
          }
            ∷ [])
unfolding get trim_space
review_ownership_transfer-exact_example =
    review_ownership_transfer-exact asked "trf-1" "ast-1" transfer bastion approval (pos 7)
      event_draws inventory-HasValidAssets refl refl refl refl

Reach-keeps_history_example :
    (x' : AssetOwnershipTransfer) × (get
        (review_ownership_transfer asked "trf-1" approval (pos 7) event_draws).1.ownership_transfers
        "trf-1"
      ≡ some x')
    × TransferFollows transfer x'
    × (more : List AssetAuditEvent) × (list_asset_audit_events
          (review_ownership_transfer asked "trf-1" approval (pos 7) event_draws).1
          "ast-1"
        ≡ list_asset_audit_events asked "ast-1" ++ more)
unfolding get
Reach-keeps_history_example =
    Reach-keeps_history "trf-1" "ast-1" transfer
      (Reach.next Reach.here (Step.review "trf-1" approval (pos 7) event_draws))
      inventory-HasValidAssets refl
