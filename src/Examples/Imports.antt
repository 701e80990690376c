-- ===== src/Examples/Imports.antt =====
-- An import of two rows (backend/internal/service/asset_service.go), and what the theorems say of it.
use Prim.Native.String as Text
use Prim.Native.String.{char_at, ◌++◌ as append}
use text.Mathlib.TextLemmas.{cons-append, nil-append}
use bonipam.Go.Text.Ascii.{is_ascii}
use bonipam.Assets.Batch.{HasAsciiNames}
use bonipam.Common.{
  ◌∙◌, sym, ℕ, zero, suc, ◌+◌, String, ◌≡◌, ◌≢◌, refl, ap, Bool-cases, none, [], ◌∷◌, ok, ◌==◌,
  arith, eq_iff, inl, inr,
}
use bonipam.Common.Int.{pos}
use bonipam.Common.Lists.{length, All}
use bonipam.Go.Map.{Map, get, put}
use bonipam.Go.Text.{trim_space, to_lower, equal_fold}
use bonipam.Go.Time.{Time}
use bonipam.Policy.Value.{Value}
use bonipam.Policy.Value.Value.{str}
use bonipam.Assets.Types.{
  Asset, CreateAssetRequest, AssetImportRequest, AssetImportResult, duplicate_with_existing,
  creation_failed, asset_name_exists,
}
use bonipam.Assets.Metadata.{clean}
use bonipam.Assets.Service.{new_asset_service, create_asset, test_connection, is_failing_host}
use bonipam.Assets.Rows.{Decoders, to_import_rows}
use bonipam.Assets.Import.{import_assets}
use bonipam.Assets.Each.{create_each}
use bonipam.Assets.Whole.{HasFreshIds, id_at, import_assets-create_each, import_assets-reports}
use bonipam.Examples.Assets.{bastion, inventory, inventory-HasValidAssets}

-- Two rows with one name, of which only the first is stored.
abbrev ledger_request : CreateAssetRequest
ledger_request = record {
  name = "ledger";
  asset_type = "database";
  host = "db.local";
  port = pos 5432;
  environment = "";
  owner = "";
  criticality = "";
  groups = [];
  connection_metadata =
      ("engine", str "postgres") ∷ ("database", str "l") ∷ ("username", str "app") ∷ [];
}

abbrev batch : AssetImportRequest
batch = record { assets = ledger_request ∷ ledger_request ∷ []; csv_data = "" }

abbrev decoders : Decoders
decoders = record { read_csv = λ text. []; atoi = λ text. none; unmarshal_object = λ text. none }

-- The uuid of the n-th row is n letters and two more.
row_ids : ℕ → String
row_ids zero = "22"
row_ids (suc n) = Text.◌∷◌ (char_at "2" 0) (row_ids n)

size : String → ℕ
size Text.[] = 0
size (Text.◌∷◌ c s) = suc (size s)

size-append : (s t : String) → size (append s t) ≡ size s + size t
unfolding size
size-append Text.[] t = rw (nil-append t) (ground arith)
size-append (Text.◌∷◌ c s) t = rw (cons-append c s t) (ground (arith, size-append s t))

size-row_ids : (n : ℕ) → size (row_ids n) ≡ n + 2
unfolding size row_ids
size-row_ids zero = refl
size-row_ids (suc n) = ground (arith, size-row_ids n)

size-id_at : (n : ℕ) → size (id_at row_ids n) ≡ n + 6
unfolding size
size-id_at n = ground (arith, size-append "ast-" (row_ids n), size-row_ids n)

abbrev dated : ℕ → Time
dated n = pos (n + 5)

inventory-HasFreshIds : HasFreshIds inventory row_ids 0
unfolding get size
inventory-HasFreshIds = record {
  unused = λ i above. elim (Bool-cases ("ast-1" == id_at row_ids i)) [
    | inr other ↦ rw other refl
    | inl same ↦
        let as_long = ap size ((eq_iff "ast-1" (id_at row_ids i)).0 same) in
        absurd (ground (arith, as_long, size-id_at i))
  ];
  distinct = λ i j same. ground (arith, ap size same, size-id_at i, size-id_at j);
}

inventory-HasAsciiNames : HasAsciiNames inventory.assets
unfolding get is_ascii
inventory-HasAsciiNames k a at = elim (Bool-cases ("ast-1" == k)) [
  | inl same ↦
      let e : bastion ≡ a = ground (arith, at, same) in ap (λ x. is_ascii x.name) (sym e) ∙ refl
  | inr other ↦ absurd (ground (arith, at, other))
]

import_assets-create_each_example :
    (import_assets decoders inventory batch row_ids dated).1
    ≡ create_each inventory 0 (ledger_request ∷ ledger_request ∷ []) row_ids dated
unfolding to_import_rows is_ascii
import_assets-create_each_example =
    import_assets-create_each decoders inventory batch row_ids dated
      (ledger_request ∷ ledger_request ∷ []) inventory-HasValidAssets inventory-HasFreshIds
      inventory-HasAsciiNames (refl, (refl, tt)) refl

abbrev ledger : Asset
ledger = record {
  id = "ast-22";
  name = "ledger";
  asset_type = "database";
  host = "db.local";
  port = pos 5432;
  environment = "";
  owner = "";
  criticality = "";
  groups = [];
  connection_metadata =
      ("engine", str "postgres") ∷ ("database", str "l") ∷ ("username", str "app") ∷ [];
  created_at = pos 5;
  updated_at = pos 5;
}

abbrev batch_result : AssetImportResult
batch_result = record {
  total_rows = 2;
  imported = ledger ∷ [];
  skipped = record { index = 1; name = "ledger"; reason = duplicate_with_existing } ∷ [];
  failed = [];
}

batch_imported : (import_assets decoders inventory batch row_ids dated).0 ≡ ok batch_result
unfolding import_assets to_import_rows bonipam.Assets.Import.finish_import
    bonipam.Assets.Import.import_rows bonipam.Assets.Import.import_row
    bonipam.Assets.Import.skip_row bonipam.Assets.Import.accept_row
    bonipam.Assets.Import.start_import bonipam.Assets.Import.existing_asset_names
    bonipam.Assets.Import.names_of bonipam.Go.Map.values create_asset
    bonipam.Assets.Service.build_asset trim_space clean to_lower bonipam.Assets.Service.port_of
    bonipam.Assets.Service.default_port_for_type
    bonipam.Assets.Metadata.validate_connection_metadata bonipam.Assets.Metadata.validate_database
    bonipam.Assets.Metadata.has_key get bonipam.Assets.Metadata.normalize_keys put
    bonipam.Policy.Value.as_text bonipam.Assets.Tagging.normalize_asset_tagging
    bonipam.Assets.Tagging.is_environment bonipam.Assets.Tagging.is_criticality
    bonipam.Assets.Service.insert_asset bonipam.Assets.Tagging.normalize_groups
    bonipam.Go.Map.any_entry bonipam.Go.Once.has bonipam.Go.Once.push_all bonipam.Go.Once.push_new
    equal_fold row_ids
batch_imported = refl

import_assets-reports_example :
    (2 ≡ length (ledger_request ∷ ledger_request ∷ []))
    × (2
        ≡ length (batch_result).imported
          + length (batch_result).skipped
          + length (batch_result).failed)
    × All (λ i. i.reason ≡ duplicate_with_existing) (batch_result).skipped
    × All (λ i. i.reason ≢ creation_failed asset_name_exists) (batch_result).failed
unfolding to_import_rows is_ascii
import_assets-reports_example =
    import_assets-reports decoders inventory batch row_ids dated batch_result
      (ledger_request ∷ ledger_request ∷ []) inventory-HasValidAssets inventory-HasFreshIds
      inventory-HasAsciiNames (refl, (refl, tt)) refl batch_imported
