-- ===== src/Assets/Owners.antt =====
-- What assigning and transferring owners keeps of the assets and of the transfers
-- (asset_service.go: AssignOwner, RequestOwnershipTransfer and ReviewOwnershipTransfer).
use bonipam.Common.{
  String, Bool, ◌≡◌, refl, ◌||◌, some, arith, ◌==◌, Option-cases, Bool-cases, inl, inr,
}
use bonipam.Go.Map.{Map, get, put}
use bonipam.Go.Text.{trim_space}
use bonipam.Go.Time.{Time}
use bonipam.Assets.Types.{
  Asset, AssetOwnershipTransfer, AssignAssetOwnerRequest, RequestAssetOwnershipTransferRequest,
  ReviewAssetOwnershipTransferRequest, AssetService,
}
use bonipam.Assets.Transfers.{
  EventDraws, record_audit_event, owned_asset, assign_owner, request_ownership_transfer, is_pending,
  reviewed_transfer, hand_over, finish_review, review_ownership_transfer,
}
use bonipam.Assets.Valid.{IsValidAsset, HasValidAssets, change-HasValidAssets}

owned_asset-IsValidAsset :
    (a : Asset) (owner : String) (now : Time)
    → IsValidAsset a
    → IsValidAsset (owned_asset a owner now)
unfolding owned_asset
owned_asset-IsValidAsset a owner now v = record {
  named = v.named;
  trimmed = v.trimmed;
  hosted = v.hosted;
  port_in_range = v.port_in_range;
  metadata = v.metadata;
  tagged = v.tagged;
}

own-HasValidAssets :
    (m : Map Asset) (k : String) (a : Asset) (owner : String) (now : Time)
    → get m k ≡ some a
    → HasValidAssets m
    → HasValidAssets (put m k (owned_asset a owner now))
unfolding owned_asset
own-HasValidAssets m k a owner now at v =
    change-HasValidAssets m k a (owned_asset a owner now) at refl refl
      (owned_asset-IsValidAsset a owner now (v.valid k a at).1) v

own_at-HasValidAssets :
    (m : Map Asset) (j k : String) (a : Asset) (owner : String) (now : Time)
    → j ≡ k
    → get m k ≡ some a
    → HasValidAssets m
    → HasValidAssets (put m j (owned_asset a owner now))
own_at-HasValidAssets m j k a owner now same at v =
    rw same (own-HasValidAssets m k a owner now at v)

pub assign_owner-HasValidAssets :
    (s : AssetService) (asset_id : String) (req : AssignAssetOwnerRequest) (now : Time)
    (draws : EventDraws)
    → HasValidAssets s.assets
    → HasValidAssets (assign_owner s asset_id req now draws).1.assets
unfolding assign_owner record_audit_event
assign_owner-HasValidAssets s asset_id req now draws v =
    elim (Bool-cases (trim_space req.owner == "" || trim_space req.assigned_by == "")) [
      | inl missing ↦ rw (missing, assign_owner) v
      | inr given ↦ elim (Option-cases (get s.assets asset_id)) [
        | inl unknown ↦ rw (given, unknown, assign_owner) v
        | inr (a, at) ↦
            rw (given, at, assign_owner)
              (own-HasValidAssets s.assets asset_id a (trim_space req.owner) now at v)
      ]
    ]

pub request_ownership_transfer-assets :
    (s : AssetService) (asset_id : String) (req : RequestAssetOwnershipTransferRequest)
    (uuid : String) (now : Time) (draws : EventDraws)
    → (request_ownership_transfer s asset_id req uuid now draws).1.assets ≡ s.assets
unfolding request_ownership_transfer record_audit_event
request_ownership_transfer-assets s asset_id req uuid now draws = ground arith

finish_review-HasValidAssets :
    (s : AssetService) (transfer_id : String) (t : AssetOwnershipTransfer) (approves : Bool)
    (now : Time) (draws : EventDraws)
    → HasValidAssets s.assets
    → HasValidAssets (finish_review s transfer_id t approves now draws).1.assets
unfolding finish_review hand_over record_audit_event
finish_review-HasValidAssets s transfer_id t approves now draws v =
    elim (Option-cases (get s.assets t.asset_id)) [
      | inl unknown ↦ rw (unknown, finish_review) v
      | inr (a, at) ↦
          let (id, valid) = v.valid t.asset_id a at in
          elim (Bool-cases approves) [
            | inl approving ↦
                rw (at, approving, finish_review)
                  (own_at-HasValidAssets s.assets a.id t.asset_id a t.to_owner now id at v)
            | inr rejecting ↦ rw (at, rejecting, finish_review) v
          ]
    ]

pub review_ownership_transfer-HasValidAssets :
    (s : AssetService) (transfer_id : String) (req : ReviewAssetOwnershipTransferRequest)
    (now : Time) (draws : EventDraws)
    → HasValidAssets s.assets
    → HasValidAssets (review_ownership_transfer s transfer_id req now draws).1.assets
unfolding review_ownership_transfer
review_ownership_transfer-HasValidAssets s transfer_id req now draws v =
    elim (Bool-cases (trim_space req.reviewed_by == "")) [
      | inl missing ↦ rw (missing, review_ownership_transfer) v
      | inr given ↦ elim (Option-cases (get s.ownership_transfers transfer_id)) [
        | inl unknown ↦ rw (given, unknown, review_ownership_transfer) v
        | inr (t, at) ↦ elim (Bool-cases (is_pending t.status)) [
          | inr reviewed ↦ rw (given, at, reviewed, review_ownership_transfer) v
          | inl open_transfer ↦
              rw (given, at, open_transfer, review_ownership_transfer)
                (finish_review-HasValidAssets s transfer_id
                  (reviewed_transfer t req.approves (trim_space req.reviewed_by)
                    (trim_space req.comment) now)
                  req.approves now draws v)
        ]
      ]
    ]
