-- ===== src/Assets/Runs.antt =====
-- The runs of the asset service: its operations as steps.
use Prim.Native.String.{◌++◌ as append}
use bonipam.Common.{String, ◌≡◌, none, some, List, ◌++◌, arith}
use bonipam.Go.Map.{get}
use bonipam.Go.Time.{Time}
use bonipam.Assets.Types.{
  Asset, AssetOwnershipTransfer, AssetAuditEvent, AssignAssetOwnerRequest, CreateAssetRequest,
  UpdateAssetTaggingRequest, RequestAssetOwnershipTransferRequest,
  ReviewAssetOwnershipTransferRequest, AssetService,
}
use bonipam.Assets.Service.{new_asset_service, create_asset, update_asset_tagging}
use bonipam.Assets.Transfers.{
  EventDraws, assign_owner, request_ownership_transfer, review_ownership_transfer,
  list_asset_audit_events,
}
use bonipam.Assets.Valid.{
  HasValidAssets, create_asset-HasValidAssets, update_asset_tagging-HasValidAssets,
}
use bonipam.Assets.Owners.{
  assign_owner-HasValidAssets, request_ownership_transfer-assets,
  review_ownership_transfer-HasValidAssets,
}
use bonipam.Assets.Kept.{AssetFollows, TransferFollows, Effects, Effects-refl, Effects-trans}
use bonipam.Assets.Steps.{
  create_asset-Effects, update_asset_tagging-Effects, assign_owner-Effects,
  request_ownership_transfer-Effects, review_ownership_transfer-Effects,
}

-- One call of an operation that changes the service. The uuid of a new asset or transfer is not in
-- use. ImportAssets is a sequence of calls of CreateAsset.
pub data Step (s : AssetService) : AssetService → Type 0 where
  create :
      (req : CreateAssetRequest) (uuid : String) (now : Time)
      → get s.assets (append "ast-" uuid) ≡ none
      → Step s (create_asset s req uuid now).1
  tag :
      (asset_id : String) (req : UpdateAssetTaggingRequest) (now : Time)
      → Step s (update_asset_tagging s asset_id req now).1
  assign :
      (asset_id : String) (req : AssignAssetOwnerRequest) (now : Time) (draws : EventDraws)
      → Step s (assign_owner s asset_id req now draws).1
  request :
      (asset_id : String) (req : RequestAssetOwnershipTransferRequest) (uuid : String) (now : Time)
      (draws : EventDraws)
      → get s.ownership_transfers (append "trf-" uuid) ≡ none
      → Step s (request_ownership_transfer s asset_id req uuid now draws).1
  review :
      (transfer_id : String) (req : ReviewAssetOwnershipTransferRequest) (now : Time)
      (draws : EventDraws)
      → Step s (review_ownership_transfer s transfer_id req now draws).1

pub data Reach (s : AssetService) : AssetService → Type 0 where
  here : Reach s s
  next : {t u : AssetService} → Reach s t → Step t u → Reach s u

Step-HasValidAssets :
    {s t : AssetService} → Step s t → HasValidAssets s.assets → HasValidAssets t.assets
Step-HasValidAssets {s} (create req uuid now unused) v =
    create_asset-HasValidAssets s req uuid now v
Step-HasValidAssets {s} (tag asset_id req now) v =
    update_asset_tagging-HasValidAssets s asset_id req now v
Step-HasValidAssets {s} (assign asset_id req now draws) v =
    assign_owner-HasValidAssets s asset_id req now draws v
Step-HasValidAssets {s} (request asset_id req uuid now draws unused) v =
    rw (request_ownership_transfer-assets s asset_id req uuid now draws) v
Step-HasValidAssets {s} (review transfer_id req now draws) v =
    review_ownership_transfer-HasValidAssets s transfer_id req now draws v

Reach-keeps_valid :
    {s t : AssetService} → Reach s t → HasValidAssets s.assets → HasValidAssets t.assets
Reach-keeps_valid here v = v
Reach-keeps_valid (next r st) v = Step-HasValidAssets st (Reach-keeps_valid r v)

-- In every service that is reached from the empty one, each asset stands under its id, has a trimmed
-- name, a host, a port from 1 to 65535, known tags and the metadata that its type asks for, and no two
-- assets have one name, whatever its case.
pub Reach-HasValidAssets : (s : AssetService) → Reach new_asset_service s → HasValidAssets s.assets
unfolding new_asset_service get
Reach-HasValidAssets s r = Reach-keeps_valid r (record {
  keys = tt;
  valid = λ k a at. absurd (ground arith);
  unique = λ j k a b at_j at_k same. absurd (ground arith);
})

Step-Effects : {s t : AssetService} → Step s t → HasValidAssets s.assets → Effects s t
Step-Effects {s} (create req uuid now unused) v = create_asset-Effects s req uuid now unused
Step-Effects {s} (tag asset_id req now) v = update_asset_tagging-Effects s asset_id req now
Step-Effects {s} (assign asset_id req now draws) v = assign_owner-Effects s asset_id req now draws
Step-Effects {s} (request asset_id req uuid now draws unused) v =
    request_ownership_transfer-Effects s asset_id req uuid now draws unused
Step-Effects {s} (review transfer_id req now draws) v =
    review_ownership_transfer-Effects s transfer_id req now draws v

Reach-Effects : {s t : AssetService} → Reach s t → HasValidAssets s.assets → Effects s t
Reach-Effects {s} here v = Effects-refl s
Reach-Effects {s} {t = u} (next {t = t} r st) v =
    Effects-trans s t u (Reach-Effects r v) (Step-Effects st (Reach-keeps_valid r v))

Reach-AssetFollows :
    {s t : AssetService} (k : String) (a : Asset)
    → Reach s t
    → HasValidAssets s.assets
    → get s.assets k ≡ some a
    → (a' : Asset) × (get t.assets k ≡ some a') × AssetFollows a a'
Reach-AssetFollows k a r v at = (Reach-Effects r v).assets k a at

-- Over any run from a service with valid assets: a transfer stays under its id, for the same asset,
-- owners and requester, and does not change once it is reviewed, and the audit log of an asset only
-- grows at its end.
pub Reach-keeps_history :
    {s t : AssetService} (k asset_id : String) (x : AssetOwnershipTransfer)
    → Reach s t
    → HasValidAssets s.assets
    → get s.ownership_transfers k ≡ some x
    → (x' : AssetOwnershipTransfer) × (get t.ownership_transfers k ≡ some x')
      × TransferFollows x x'
      × (more : List AssetAuditEvent) × (list_asset_audit_events t asset_id
          ≡ list_asset_audit_events s asset_id ++ more)
Reach-keeps_history k asset_id x r v at =
    let e = Reach-Effects r v in
    let (x', at', follows) = e.transfers k x at in
    let (more, grown) = e.log asset_id in (x', at', follows, more, grown)
