-- ===== src/Assets/Steps.antt =====
-- What each operation leaves of the assets, the transfers and the audit log (asset_service.go).
use Prim.Native.String.{◌++◌ as append}
use bonipam.Common.{
  String, Bool, ◌≡◌, refl, ap, ◌∙◌, true, false, ◌||◌, none, some, arith, ◌==◌, ok, Option-cases,
  Bool-cases, Result-cases, inl, inr,
}
use bonipam.Go.Map.{get, put, any_entry}
use bonipam.Go.Keeps.{Keeps-put, Keeps-put_new}
use bonipam.Go.Text.{trim_space, equal_fold}
use bonipam.Go.Time.{Time}
use bonipam.Assets.Types.{
  Asset, AssetOwnershipTransfer, AssetAuditEvent, AssignAssetOwnerRequest, CreateAssetRequest,
  UpdateAssetTaggingRequest, RequestAssetOwnershipTransferRequest,
  ReviewAssetOwnershipTransferRequest, AssetService,
}
use bonipam.Assets.Tagging.{normalize_asset_tagging}
use bonipam.Assets.Service.{
  build_asset, insert_asset, create_asset, tagged_asset, tag_asset, update_asset_tagging,
}
use bonipam.Assets.Transfers.{
  EventDraws, record_audit_event, owned_asset, assigned_event, assign_owner, new_transfer,
  requested_event, request_ownership_transfer, is_pending, reviewed_transfer, reviewed_event,
  hand_over, finish_review, review_ownership_transfer,
}
use bonipam.Assets.Valid.{HasValidAssets}
use bonipam.Assets.Kept.{
  AssetFollows, AssetFollows-refl, AssetFollows-tagged_asset, AssetFollows-owned_asset,
  TransferFollows, TransferFollows-refl, TransferFollows-reviewed_transfer, Effects, Effects-refl,
  Effects-trans, write_asset-Effects, write_transfer-Effects, record_audit_event-Effects,
}

-- An asset or a transfer is written, and an event is recorded.
logged-Effects :
    (s t : AssetService) (e : AssetAuditEvent) → Effects s t → Effects s (record_audit_event t e)
logged-Effects s t e written =
    Effects-trans s t (record_audit_event t e) written (record_audit_event-Effects t e)

own-Effects :
    (s : AssetService) (k : String) (a : Asset) (owner : String) (now : Time)
    → get s.assets k ≡ some a
    → Effects s (record s { assets = put s.assets k (owned_asset a owner now) })
own-Effects s k a owner now at =
    let a' = owned_asset a owner now in
    write_asset-Effects s (put s.assets k a') (
      Keeps-put AssetFollows s.assets k a a' AssetFollows-refl at
        (AssetFollows-owned_asset a owner now))

module _ (s : AssetService) where
  build_asset-id :
      (req : CreateAssetRequest) (uuid : String) (now : Time) (a : Asset)
      → build_asset req uuid now ≡ ok a
      → a.id ≡ append "ast-" uuid
  unfolding build_asset
  build_asset-id req uuid now a built = ground arith

  pub create_asset-Effects :
      (req : CreateAssetRequest) (uuid : String) (now : Time)
      → get s.assets (append "ast-" uuid) ≡ none
      → Effects s (create_asset s req uuid now).1
  unfolding create_asset insert_asset
  create_asset-Effects req uuid now unused = elim (Result-cases (build_asset req uuid now)) [
    | inr (e, refused) ↦ rw (refused, create_asset) (Effects-refl s)
    | inl (a, built) ↦
        let free_id : get s.assets a.id ≡ none =
          ap (λ k. get s.assets k) (build_asset-id req uuid now a built) ∙ unused in
        elim (Bool-cases (any_entry (λ _ existing. equal_fold existing.name a.name) s.assets)) [
          | inl taken ↦ rw (built, taken, create_asset, insert_asset) (Effects-refl s)
          | inr free ↦
              rw (built, free, create_asset, insert_asset)
                (write_asset-Effects s (put s.assets a.id a)
                  (Keeps-put_new AssetFollows s.assets a.id a AssetFollows-refl free_id))
        ]
  ]

  pub update_asset_tagging-Effects :
      (asset_id : String) (req : UpdateAssetTaggingRequest) (now : Time)
      → Effects s (update_asset_tagging s asset_id req now).1
  unfolding update_asset_tagging tag_asset
  update_asset_tagging-Effects asset_id req now =
      elim (Result-cases
        (normalize_asset_tagging req.environment req.owner req.criticality req.groups)) [
          | inr (e, refused) ↦ rw (refused, update_asset_tagging) (Effects-refl s)
          | inl (tags, normalized) ↦ elim (Option-cases (get s.assets asset_id)) [
            | inl missing ↦
                rw (normalized, missing, update_asset_tagging, tag_asset) (Effects-refl s)
            | inr (a, at) ↦
                let a' = tagged_asset a tags now in
                rw (normalized, at, update_asset_tagging, tag_asset)
                  (write_asset-Effects s (put s.assets asset_id a') (
                    Keeps-put AssetFollows s.assets asset_id a a' AssetFollows-refl at
                      (AssetFollows-tagged_asset a tags now)))
          ]
        ]

  pub assign_owner-Effects :
      (asset_id : String) (req : AssignAssetOwnerRequest) (now : Time) (draws : EventDraws)
      → Effects s (assign_owner s asset_id req now draws).1
  unfolding assign_owner
  assign_owner-Effects asset_id req now draws =
      elim (Bool-cases (trim_space req.owner == "" || trim_space req.assigned_by == "")) [
        | inl missing ↦ rw (missing, assign_owner) (Effects-refl s)
        | inr given ↦ elim (Option-cases (get s.assets asset_id)) [
          | inl unknown ↦ rw (given, unknown, assign_owner) (Effects-refl s)
          | inr (a, at) ↦
              let owner = trim_space req.owner in
              let e =
                assigned_event asset_id a owner (trim_space req.assigned_by) (trim_space req.reason)
                  draws in
              rw (given, at, assign_owner)
                (logged-Effects s
                  (record s { assets = put s.assets asset_id (owned_asset a owner now) }) e
                  (own-Effects s asset_id a owner now at))
        ]
      ]

  pub request_ownership_transfer-Effects :
      (asset_id : String) (req : RequestAssetOwnershipTransferRequest) (uuid : String) (now : Time)
      (draws : EventDraws)
      → get s.ownership_transfers (append "trf-" uuid) ≡ none
      → Effects s (request_ownership_transfer s asset_id req uuid now draws).1
  unfolding request_ownership_transfer new_transfer
  request_ownership_transfer-Effects asset_id req uuid now draws unused =
      elim (Bool-cases (trim_space req.new_owner == "" || trim_space req.requested_by == "")) [
        | inl missing ↦ rw (missing, request_ownership_transfer) (Effects-refl s)
        | inr given ↦ elim (Option-cases (get s.assets asset_id)) [
          | inl unknown ↦ rw (given, unknown, request_ownership_transfer) (Effects-refl s)
          | inr (a, at) ↦ elim (Bool-cases (trim_space a.owner == "")) [
            | inl unowned ↦ rw (given, at, unowned, request_ownership_transfer) (Effects-refl s)
            | inr owned ↦ elim (Bool-cases (equal_fold a.owner (trim_space req.new_owner))) [
              | inl same ↦ rw (given, at, owned, same, request_ownership_transfer) (Effects-refl s)
              | inr differs ↦
                  let t = new_transfer asset_id a req uuid now in
                  rw (given, at, owned, differs, request_ownership_transfer)
                    (logged-Effects s
                      (record s { ownership_transfers = put s.ownership_transfers t.id t })
                      (requested_event asset_id t draws)
                      (write_transfer-Effects s (put s.ownership_transfers t.id t) (
                        Keeps-put_new TransferFollows s.ownership_transfers t.id t
                          TransferFollows-refl unused)))
            ]
          ]
        ]
      ]

  hand_over-Effects :
      (a : Asset) (t : AssetOwnershipTransfer) (approves : Bool) (now : Time)
      → get s.assets a.id ≡ some a
      → Effects s (hand_over s a t approves now)
  unfolding hand_over
  hand_over-Effects a t true now at = own-Effects s a.id a t.to_owner now at
  hand_over-Effects a t false now at = Effects-refl s

  hand_over-transfers :
      (a : Asset) (t : AssetOwnershipTransfer) (approves : Bool) (now : Time)
      → (hand_over s a t approves now).ownership_transfers ≡ s.ownership_transfers
  unfolding hand_over
  hand_over-transfers a t true now = refl
  hand_over-transfers a t false now = refl

  finish_review-Effects :
      (transfer_id : String) (old t : AssetOwnershipTransfer) (approves : Bool) (now : Time)
      (draws : EventDraws)
      → HasValidAssets s.assets
      → get s.ownership_transfers transfer_id ≡ some old
      → TransferFollows old t
      → Effects s (finish_review s transfer_id t approves now draws).1
  unfolding finish_review
  finish_review-Effects transfer_id old t approves now draws v found follows =
      elim (Option-cases (get s.assets t.asset_id)) [
        | inl unknown ↦ rw (unknown, finish_review) (Effects-refl s)
        | inr (a, at) ↦
            let at_id : get s.assets a.id ≡ some a =
              ap (λ k. get s.assets k) (v.valid t.asset_id a at).0 ∙ at in
            let handed = hand_over s a t approves now in
            let still : get handed.ownership_transfers transfer_id ≡ some old =
              ap (λ m. get m transfer_id) (hand_over-transfers a t approves now) ∙ found in
            let written = put handed.ownership_transfers transfer_id t in
            let kept =
              Keeps-put TransferFollows handed.ownership_transfers transfer_id old t
                TransferFollows-refl still follows in
            rw (at, finish_review)
              (logged-Effects s (record handed { ownership_transfers = written })
                (reviewed_event t approves draws)
                (Effects-trans s handed (record handed { ownership_transfers = written })
                  (hand_over-Effects a t approves now at_id)
                  (write_transfer-Effects handed written kept)))
      ]

  pub review_ownership_transfer-Effects :
      (transfer_id : String) (req : ReviewAssetOwnershipTransferRequest) (now : Time)
      (draws : EventDraws)
      → HasValidAssets s.assets
      → Effects s (review_ownership_transfer s transfer_id req now draws).1
  unfolding review_ownership_transfer
  review_ownership_transfer-Effects transfer_id req now draws v =
      let reviewer = trim_space req.reviewed_by in
      elim (Bool-cases (reviewer == "")) [
        | inl missing ↦ rw (missing, review_ownership_transfer) (Effects-refl s)
        | inr given ↦ elim (Option-cases (get s.ownership_transfers transfer_id)) [
          | inl unknown ↦ rw (given, unknown, review_ownership_transfer) (Effects-refl s)
          | inr (t, at) ↦ elim (Bool-cases (is_pending t.status)) [
            | inr reviewed ↦ rw (given, at, reviewed, review_ownership_transfer) (Effects-refl s)
            | inl open_transfer ↦
                let comment = trim_space req.comment in
                rw (given, at, open_transfer, review_ownership_transfer)
                  (finish_review-Effects transfer_id t
                    (reviewed_transfer t req.approves reviewer comment now) req.approves now draws v
                    at
                    (TransferFollows-reviewed_transfer t req.approves reviewer comment now
                      open_transfer))
          ]
        ]
      ]
