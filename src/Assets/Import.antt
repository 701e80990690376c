-- ===== src/Assets/Import.antt =====
-- Assets are imported (asset_service.go: ImportAssets).
use bonipam.Common.{ℕ, suc, String, List, [], ◌∷◌, ◌++◌, ◌==◌, if◌then◌else◌, ok, err}
use bonipam.Common.Lists.{length}
use bonipam.Go.Map.{values}
use bonipam.Go.Once.{has}
use bonipam.Go.Time.{Time}
use bonipam.Assets.Types.{
  Asset, CreateAssetRequest, AssetImportRequest, AssetImportResult, AssetImportIssue, ImportReason,
  name_required, duplicate_with_existing, duplicate_within_payload, creation_failed,
  no_assets_provided, AssetService,
}
use bonipam.Assets.Metadata.{clean}
use bonipam.Assets.Service.{Outcome, create_asset}
use bonipam.Assets.Rows.{Decoders, to_import_rows}

-- A map[string]struct{} is the list of its keys.
unfoldable pub names_of : List Asset → List String
names_of [] = []
names_of (asset ∷ assets) = clean asset.name ∷ names_of assets

unfoldable pub existing_asset_names : AssetService → List String
existing_asset_names s = names_of (values s.assets)

-- What the loop keeps: the service, the two sets of names, and the result so far.
pub record Progress : Type 0 where
  pub service : AssetService
  pub existing_names : List String
  pub batch_names : List String
  pub imported : List Asset
  pub skipped : List AssetImportIssue
  pub failed : List AssetImportIssue

unfoldable pub skip_row : Progress → ℕ → String → ImportReason → Progress
skip_row p idx name reason = record p {
  skipped = p.skipped ++ record { index = idx; name = name; reason = reason } ∷ [];
}

unfoldable pub fail_row : Progress → ℕ → String → ImportReason → Progress
fail_row p idx name reason = record p {
  failed = p.failed ++ record { index = idx; name = name; reason = reason } ∷ [];
}

unfoldable pub accept_row : Progress → String → Asset → AssetService → Progress
accept_row p normalized_name asset service = record p {
  service = service;
  existing_names = normalized_name ∷ p.existing_names;
  batch_names = normalized_name ∷ p.batch_names;
  imported = p.imported ++ asset ∷ [];
}

-- One round of the loop.
unfoldable pub import_row : Progress → ℕ → CreateAssetRequest → String → Time → Progress
import_row p idx row uuid now =
    let normalized_name = clean row.name in
    if normalized_name == ""
    then fail_row p idx "" name_required
    else if has p.existing_names normalized_name
    then skip_row p idx row.name duplicate_with_existing
    else if has p.batch_names normalized_name
    then skip_row p idx row.name duplicate_within_payload
    else let (created, service) = create_asset p.service row uuid now in
      elim created [
        | err e ↦ fail_row p idx row.name (creation_failed e)
        | ok asset ↦ accept_row p normalized_name asset service
      ]

-- The loop; `uuids` and `clock` give what CreateAsset draws for the row at an index.
unfoldable pub import_rows :
    Progress → ℕ → List CreateAssetRequest → (ℕ → String) → (ℕ → Time) → Progress
import_rows p idx [] uuids clock = p
import_rows p idx (row ∷ rows) uuids clock =
    import_rows (import_row p idx row (uuids idx) (clock idx)) (suc idx) rows uuids clock

unfoldable pub start_import : AssetService → Progress
start_import s = record {
  service = s;
  existing_names = existing_asset_names s;
  batch_names = [];
  imported = [];
  skipped = [];
  failed = [];
}

unfoldable pub finish_import : ℕ → Progress → Outcome AssetImportResult
finish_import total p = (
  ok (record { total_rows = total; imported = p.imported; skipped = p.skipped; failed = p.failed }),
  p.service,
)

unfoldable pub import_assets :
    Decoders
    → AssetService
    → AssetImportRequest
    → (ℕ → String)
    → (ℕ → Time)
    → Outcome AssetImportResult
import_assets d s req uuids clock = elim (to_import_rows d req) [
  | err e ↦ (err e, s)
  | ok [] ↦ (err no_assets_provided, s)
  | ok (row ∷ rows) ↦
      finish_import (length (row ∷ rows)) (import_rows (start_import s) 0 (row ∷ rows) uuids clock)
]
