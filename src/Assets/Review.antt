-- ===== src/Assets/Review.antt =====
-- The review of an ownership transfer (asset_service.go: ReviewOwnershipTransfer).
use Prim.Native.String.{◌++◌ as append}
use bonipam.Common.{
  ap, eq_refl, String, Bool, ◌≡◌, refl, true, false, some, [], ◌∷◌, ◌++◌, arith, eq_iff, ◌==◌,
  if◌then◌else◌, ok,
}
use bonipam.Go.Map.{get, get-put, or_else}
use bonipam.Go.Text.{trim_space}
use bonipam.Go.Time.{Time}
use bonipam.Assets.Types.{
  Asset, pending, approved, rejected, AssetOwnershipTransfer, ReviewAssetOwnershipTransferRequest,
  AssetAuditEvent, AssetService,
}
use bonipam.Assets.Transfers.{
  EventDraws, audit_event, record_audit_event, owned_asset, is_pending, reviewed_transfer,
  reviewed_event, hand_over, finish_review, review_ownership_transfer, list_asset_audit_events,
}
use bonipam.Policy.Value.{str}
use bonipam.Assets.Valid.{HasValidAssets}

list_asset_audit_events-record :
    (s : AssetService) (e : AssetAuditEvent)
    → list_asset_audit_events (record_audit_event s e) e.asset_id
      ≡ list_asset_audit_events s e.asset_id ++ e ∷ []
unfolding list_asset_audit_events record_audit_event
list_asset_audit_events-record s e = ground (
  arith,
  eq_refl e.asset_id,
  get-put s.audit_events e.asset_id e.asset_id
      (or_else (get s.audit_events e.asset_id) [] ++ e ∷ []),
)

finish_review-exact :
    (s : AssetService) (id k : String) (t : AssetOwnershipTransfer) (a : Asset) (approves : Bool)
    (now : Time) (draws : EventDraws)
    → get s.assets t.asset_id ≡ some a
    → a.id ≡ t.asset_id
    → ((finish_review s id t approves now draws).0 ≡ ok t)
      × (get (finish_review s id t approves now draws).1.ownership_transfers id ≡ some t)
      × (get (finish_review s id t approves now draws).1.assets k ≡ (
          if approves
          then if t.asset_id == k then some (owned_asset a t.to_owner now) else get s.assets k
          else get s.assets k))
      × (list_asset_audit_events (finish_review s id t approves now draws).1 t.asset_id
          ≡ list_asset_audit_events s t.asset_id ++ reviewed_event t approves draws ∷ [])
unfolding finish_review hand_over record_audit_event list_asset_audit_events reviewed_event
    audit_event
finish_review-exact s id k t a true now draws at same =
    let e = reviewed_event t true draws in
    (
      rw (at, finish_review) refl,
      rw (at, finish_review) (ground (arith, eq_refl id, get-put s.ownership_transfers id id t)),
      rw (at, finish_review)
          (ground (
            arith,
            same,
            eq_iff a.id k,
            eq_iff t.asset_id k,
            get-put s.assets a.id k (owned_asset a t.to_owner now),
          )),
      rw (at, finish_review) (list_asset_audit_events-record s e),
    )
finish_review-exact s id k t a false now draws at same = (
  rw (at, finish_review) refl,
  rw (at, finish_review) (ground (arith, eq_refl id, get-put s.ownership_transfers id id t)),
  rw (at, finish_review) refl,
  rw (at, finish_review) (list_asset_audit_events-record s (reviewed_event t false draws)),
)

-- ReviewOwnershipTransfer by a named reviewer, of a pending transfer of a stored asset, in a service with
-- valid assets: it returns and stores the transfer with the trimmed reviewer and comment, the time of the
-- review and the status that the review gives it, and all else as it was; the asset gets the new owner and
-- the time of the review exactly if the review approves, and every other asset is as it was; and one event
-- is added at the end of the asset's log, with the outcome, the reviewer, the transfer, its two owners and
-- the comment.
pub review_ownership_transfer-exact :
    (s : AssetService) (id k : String) (x : AssetOwnershipTransfer) (a : Asset)
    (req : ReviewAssetOwnershipTransferRequest) (now : Time) (draws : EventDraws)
    → HasValidAssets s.assets
    → get s.ownership_transfers id ≡ some x
    → x.status ≡ pending
    → get s.assets x.asset_id ≡ some a
    → (trim_space req.reviewed_by == "") ≡ false
    → (x' : AssetOwnershipTransfer) × (x' ≡ record x {
      reviewed_by = trim_space req.reviewed_by;
      comment = trim_space req.comment;
      reviewed_at = some now;
      status = if req.approves then approved else rejected;
    })
      × ((review_ownership_transfer s id req now draws).0 ≡ ok x')
      × (get (review_ownership_transfer s id req now draws).1.ownership_transfers id ≡ some x')
      × (get (review_ownership_transfer s id req now draws).1.assets k ≡ (
          if req.approves
          then if x.asset_id == k
            then some (record a { owner = x.to_owner; updated_at = now })
            else get s.assets k
          else get s.assets k))
      × (list_asset_audit_events (review_ownership_transfer s id req now draws).1 x.asset_id
          ≡ list_asset_audit_events s x.asset_id
            ++ record {
              id = append "evt-" draws.uuid;
              asset_id = x.asset_id;
              event_type =
                  if req.approves
                  then "ownership_transfer_approved"
                  else "ownership_transfer_rejected";
              actor = trim_space req.reviewed_by;
              message =
                  if req.approves
                  then "ownership transfer approved"
                  else "ownership transfer rejected";
              metadata =
                  ("transfer_id", str x.id)
                  ∷ ("from_owner", str x.from_owner)
                  ∷ ("to_owner", str x.to_owner)
                  ∷ ("comment", str (trim_space req.comment))
                  ∷ [];
              timestamp = draws.at;
            }
              ∷ [])
unfolding review_ownership_transfer reviewed_transfer owned_asset reviewed_event audit_event
review_ownership_transfer-exact s id k x a req now draws v found waiting at named =
    let unreviewed = ap is_pending waiting in
    let x' =
      reviewed_transfer x req.approves (trim_space req.reviewed_by) (trim_space req.comment) now in
    let opened : review_ownership_transfer s id req now draws
        ≡ finish_review s id x' req.approves now draws =
      rw (named, found, unreviewed, review_ownership_transfer) refl in
    let (returned, stored, owned, logged) =
      finish_review-exact s id k x' a req.approves now draws at (v.valid x.asset_id a at).0 in
    (x', refl, rw opened returned, rw opened stored, rw opened owned, rw opened logged)
