-- ===== src/Assets/Kept.antt =====
-- What the operations leave of an asset, of a transfer and of the audit log (asset_service.go).
use bonipam.Common.{
  String, Bool, ◌≡◌, refl, ap, ◌∙◌, true, List, [], ◌∷◌, ◌++◌, arith, eq_iff, ◌==◌, Bool-cases, inl,
  inr, ◌⊎◌,
}
use bonipam.Go.Map.{Map, get, get-put, or_else}
use bonipam.Go.Keeps.{Keeps, Keeps-same, Keeps-trans}
use bonipam.Go.Time.{Time}
use bonipam.Assets.Types.{Asset, AssetOwnershipTransfer, AssetAuditEvent, AssetService}
use bonipam.Assets.Tagging.{Tagging}
use bonipam.Assets.Service.{tagged_asset}
use bonipam.Assets.Transfers.{
  record_audit_event, owned_asset, is_pending, reviewed_transfer, list_asset_audit_events,
}

-- The asset is the same but for its tags, its owner and the time of its last change.
pub record AssetFollows (a a' : Asset) : Type 0 where
  pub id : a'.id ≡ a.id
  pub name : a'.name ≡ a.name
  pub asset_type : a'.asset_type ≡ a.asset_type
  pub host : a'.host ≡ a.host
  pub port : a'.port ≡ a.port
  pub connection_metadata : a'.connection_metadata ≡ a.connection_metadata
  pub created_at : a'.created_at ≡ a.created_at

-- The transfer is the same but for its review, and it is the same once it is reviewed.
pub record TransferFollows (t t' : AssetOwnershipTransfer) : Type 0 where
  pub id : t'.id ≡ t.id
  pub asset_id : t'.asset_id ≡ t.asset_id
  pub from_owner : t'.from_owner ≡ t.from_owner
  pub to_owner : t'.to_owner ≡ t.to_owner
  pub requested_by : t'.requested_by ≡ t.requested_by
  pub requested_at : t'.requested_at ≡ t.requested_at
  pub final : (t' ≡ t) ⊎ (is_pending t.status ≡ true)

pub AssetFollows-refl : (a : Asset) → AssetFollows a a
AssetFollows-refl a = record {
  id = refl;
  name = refl;
  asset_type = refl;
  host = refl;
  port = refl;
  connection_metadata = refl;
  created_at = refl;
}

AssetFollows-trans : (a b c : Asset) → AssetFollows a b → AssetFollows b c → AssetFollows a c
AssetFollows-trans a b c p q = ground (arith, p, q)

pub TransferFollows-refl : (t : AssetOwnershipTransfer) → TransferFollows t t
TransferFollows-refl t = record {
  id = refl;
  asset_id = refl;
  from_owner = refl;
  to_owner = refl;
  requested_by = refl;
  requested_at = refl;
  final = inl refl;
}

TransferFollows-trans :
    (t u v : AssetOwnershipTransfer)
    → TransferFollows t u
    → TransferFollows u v
    → TransferFollows t v
TransferFollows-trans t u v p q = ground (arith, p, q)

-- What one or more operations do.
pub record Effects (s t : AssetService) : Type 0 where
  pub assets : Keeps AssetFollows s.assets t.assets
  pub transfers : Keeps TransferFollows s.ownership_transfers t.ownership_transfers
  pub log :
      (k : String)
      → (more : List AssetAuditEvent) × (list_asset_audit_events t k
          ≡ list_asset_audit_events s k ++ more)

append_nil : (xs : List AssetAuditEvent) → xs ≡ xs ++ []
append_nil [] = refl
append_nil (x ∷ xs) = ap (λ ys. x ∷ ys) (append_nil xs)

append_assoc : (xs ys zs : List AssetAuditEvent) → (xs ++ ys) ++ zs ≡ xs ++ (ys ++ zs)
append_assoc [] ys zs = refl
append_assoc (x ∷ xs) ys zs = ap (λ l. x ∷ l) (append_assoc xs ys zs)

pub Effects-refl : (s : AssetService) → Effects s s
Effects-refl s = record {
  assets = Keeps-same AssetFollows s.assets s.assets AssetFollows-refl refl;
  transfers =
      Keeps-same TransferFollows s.ownership_transfers s.ownership_transfers TransferFollows-refl
        refl;
  log = λ k. ([], append_nil (list_asset_audit_events s k));
}

pub Effects-trans : (s t u : AssetService) → Effects s t → Effects t u → Effects s u
Effects-trans s t u p q = record {
  assets = Keeps-trans AssetFollows s.assets t.assets u.assets AssetFollows-trans p.assets q.assets;
  transfers =
      Keeps-trans TransferFollows s.ownership_transfers t.ownership_transfers u.ownership_transfers
        TransferFollows-trans p.transfers q.transfers;
  log = λ k.
      let (more, first) = p.log k in
      let (rest, second) = q.log k in
      (
        more ++ rest,
        second ∙ ap (λ l. l ++ rest) first ∙ append_assoc (list_asset_audit_events s k) more rest,
      );
}

pub write_asset-Effects :
    (s : AssetService) (m : Map Asset)
    → Keeps AssetFollows s.assets m
    → Effects s (record s { assets = m })
unfolding list_asset_audit_events
write_asset-Effects s m kept = record {
  assets = kept;
  transfers = (Effects-refl s).transfers;
  log = (Effects-refl s).log;
}

pub write_transfer-Effects :
    (s : AssetService) (m : Map AssetOwnershipTransfer)
    → Keeps TransferFollows s.ownership_transfers m
    → Effects s (record s { ownership_transfers = m })
unfolding list_asset_audit_events
write_transfer-Effects s m kept = record {
  assets = (Effects-refl s).assets;
  transfers = kept;
  log = (Effects-refl s).log;
}

pub record_audit_event-Effects :
    (s : AssetService) (e : AssetAuditEvent) → Effects s (record_audit_event s e)
unfolding record_audit_event list_asset_audit_events
record_audit_event-Effects s e = record {
  assets = (Effects-refl s).assets;
  transfers = (Effects-refl s).transfers;
  log = λ k. elim (Bool-cases (e.asset_id == k)) [
    | inl this ↦ (
      e ∷ [],
      ground (
        arith,
        eq_iff e.asset_id k,
        get-put s.audit_events e.asset_id k (or_else (get s.audit_events e.asset_id) [] ++ e ∷ []),
      ),
    )
    | inr other ↦ (
      [],
      ground (
        arith,
        append_nil (list_asset_audit_events s k),
        get-put s.audit_events e.asset_id k (or_else (get s.audit_events e.asset_id) [] ++ e ∷ []),
      ),
    )
  ];
}

pub AssetFollows-tagged_asset :
    (a : Asset) (tags : Tagging) (now : Time) → AssetFollows a (tagged_asset a tags now)
unfolding tagged_asset
AssetFollows-tagged_asset a tags now = record {
  id = refl;
  name = refl;
  asset_type = refl;
  host = refl;
  port = refl;
  connection_metadata = refl;
  created_at = refl;
}

pub AssetFollows-owned_asset :
    (a : Asset) (owner : String) (now : Time) → AssetFollows a (owned_asset a owner now)
unfolding owned_asset
AssetFollows-owned_asset a owner now = record {
  id = refl;
  name = refl;
  asset_type = refl;
  host = refl;
  port = refl;
  connection_metadata = refl;
  created_at = refl;
}

pub TransferFollows-reviewed_transfer :
    (t : AssetOwnershipTransfer) (approves : Bool) (reviewed_by comment : String) (now : Time)
    → is_pending t.status ≡ true
    → TransferFollows t (reviewed_transfer t approves reviewed_by comment now)
unfolding reviewed_transfer
TransferFollows-reviewed_transfer t approves reviewed_by comment now unreviewed = record {
  id = refl;
  asset_id = refl;
  from_owner = refl;
  to_owner = refl;
  requested_by = refl;
  requested_at = refl;
  final = inr unreviewed;
}
