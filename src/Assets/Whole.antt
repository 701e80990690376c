-- ===== src/Assets/Whole.antt =====
-- An import as a whole (asset_service.go: ImportAssets).
use Prim.Native.String.{◌++◌ as append}
use bonipam.Common.{
  true, ℕ, suc, ◌+◌, ◌≤◌, String, ◌≡◌, ◌≢◌, refl, ap, ◌∙◌, none, List, [], ◌∷◌, arith, eq_iff, ok,
  Result-cases, inl, inr,
}
use bonipam.Common.Lists.{length-push, length, All}
use bonipam.Go.Map.{get, get-put}
use bonipam.Go.Time.{Time}
use bonipam.Assets.Types.{
  CreateAssetRequest, AssetImportRequest, AssetImportResult, name_required, duplicate_with_existing,
  duplicate_within_payload, creation_failed, AssetService, asset_name_exists,
}
use bonipam.Assets.Service.{create_asset}
use bonipam.Assets.Rows.{Decoders, to_import_rows}
use bonipam.Assets.Import.{
  Progress, skip_row, fail_row, accept_row, import_row, import_rows, start_import, finish_import,
  import_assets,
}
use bonipam.Assets.Valid.{HasValidAssets}
use bonipam.Go.Text.Ascii.{is_ascii}
use bonipam.Assets.Batch.{HasAsciiNames, create_asset-kept, create_asset-written}
use bonipam.Assets.Each.{
  IsImporting, create_each, start_import-IsImporting, import_row-service, import_row-IsImporting,
}

abbrev pub id_at : (ℕ → String) → ℕ → String
id_at uuids i = append "ast-" (uuids i)

-- The ids of the rows from `idx` on are not in use, and no two rows have one id.
pub record HasFreshIds (s : AssetService) (uuids : ℕ → String) (idx : ℕ) : Type 0 where
  pub unused : (i : ℕ) → idx ≤ i → get s.assets (id_at uuids i) ≡ none
  pub distinct : (i j : ℕ) → id_at uuids i ≡ id_at uuids j → i ≡ j

create_asset-unused :
    (s : AssetService) (req : CreateAssetRequest) (uuid : String) (now : Time) (k : String)
    → k ≢ append "ast-" uuid
    → get s.assets k ≡ none
    → get (create_asset s req uuid now).1.assets k ≡ none
create_asset-unused s req uuid now k other unused =
    elim (Result-cases (create_asset s req uuid now).0) [
      | inr (e, failed) ↦ rw (create_asset-kept s req uuid now e failed) unused
      | inl (a, created) ↦
          rw (create_asset-written s req uuid now a created).0 (
            ground
              (arith, get-put s.assets (append "ast-" uuid) k a, eq_iff (append "ast-" uuid) k))
    ]

create_asset-HasFreshIds :
    (s : AssetService) (req : CreateAssetRequest) (uuids : ℕ → String) (idx : ℕ) (now : Time)
    → HasFreshIds s uuids idx
    → HasFreshIds (create_asset s req (uuids idx) now).1 uuids (suc idx)
create_asset-HasFreshIds s req uuids idx now f = record {
  unused = λ i above.
      create_asset-unused s req (uuids idx) now (id_at uuids i)
        (λ same. ground (arith, f.distinct i idx same)) (f.unused i (ground arith));
  distinct = f.distinct;
}

import_rows-create_each :
    (p : Progress) (idx : ℕ) (rows : List CreateAssetRequest) (uuids : ℕ → String)
    (clock : ℕ → Time)
    → IsImporting p
    → HasFreshIds p.service uuids idx
    → All (λ row. is_ascii row.name ≡ true) rows
    → ((import_rows p idx rows uuids clock).service ≡ create_each p.service idx rows uuids clock)
      × IsImporting (import_rows p idx rows uuids clock)
unfolding import_rows create_each
import_rows-create_each p idx [] uuids clock importing f ascii = (refl, importing)
import_rows-create_each p idx (row ∷ rows) uuids clock importing f (given, ascii) =
    let unused = f.unused idx (ground arith) in
    let same = import_row-service p importing idx row (uuids idx) (clock idx) given unused in
    let later = create_asset-HasFreshIds p.service row uuids idx (clock idx) f in
    let (rest, done) =
      import_rows-create_each (import_row p idx row (uuids idx) (clock idx)) (suc idx) rows uuids
        clock (import_row-IsImporting p importing idx row (uuids idx) (clock idx) given unused)
        (rw same later) ascii in
    (rest ∙ ap (λ t. create_each t (suc idx) rows uuids clock) same, done)

-- The rows that are imported, skipped or failed.
abbrev counted : Progress → ℕ
counted p = length p.imported + length p.skipped + length p.failed

import_row-counted :
    (p : Progress) (idx : ℕ) (row : CreateAssetRequest) (uuid : String) (now : Time)
    → counted (import_row p idx row uuid now) ≡ suc (counted p)
unfolding import_row skip_row fail_row accept_row
import_row-counted p idx row uuid now =
    elim (Result-cases (create_asset p.service row uuid now).0) [
      | inl (a, created) ↦ ground (
        arith,
        length-push p.imported a,
        length-push p.skipped
            (record { index = idx; name = row.name; reason = duplicate_with_existing }),
        length-push p.skipped
            (record { index = idx; name = row.name; reason = duplicate_within_payload }),
        length-push p.failed (record { index = idx; name = ""; reason = name_required }),
      )
      | inr (e, failed) ↦ ground (
        arith,
        length-push p.skipped
            (record { index = idx; name = row.name; reason = duplicate_with_existing }),
        length-push p.skipped
            (record { index = idx; name = row.name; reason = duplicate_within_payload }),
        length-push p.failed (record { index = idx; name = ""; reason = name_required }),
        length-push p.failed (record { index = idx; name = row.name; reason = creation_failed e }),
      )
    ]

import_rows-counted :
    (p : Progress) (idx : ℕ) (rows : List CreateAssetRequest) (uuids : ℕ → String)
    (clock : ℕ → Time)
    → counted (import_rows p idx rows uuids clock) ≡ length rows + counted p
unfolding import_rows
import_rows-counted p idx [] uuids clock = ground arith
import_rows-counted p idx (row ∷ rows) uuids clock =
    let p' = import_row p idx row (uuids idx) (clock idx) in
    ground (
      arith,
      import_rows-counted p' (suc idx) rows uuids clock,
      import_row-counted p idx row (uuids idx) (clock idx),
    )

module _ (d : Decoders) (s : AssetService) (req : AssetImportRequest) (uuids : ℕ → String)
    (clock : ℕ → Time) where
  -- ImportAssets on readable rows, when the assets are valid, the new ids are not in use and the names of
  -- the assets and of the rows are ASCII: it leaves the service that creating its rows one after the
  -- other leaves, the rows it passes over included.
  pub import_assets-create_each :
      (rows : List CreateAssetRequest)
      → HasValidAssets s.assets
      → HasFreshIds s uuids 0
      → HasAsciiNames s.assets
      → All (λ row. is_ascii row.name ≡ true) rows
      → to_import_rows d req ≡ ok rows
      → (import_assets d s req uuids clock).1 ≡ create_each s 0 rows uuids clock
  unfolding import_assets finish_import create_each start_import
  import_assets-create_each [] v f stored given read = rw (read, import_assets) refl
  import_assets-create_each (row ∷ rows) v f stored given read =
      rw (read, import_assets)
        (import_rows-create_each (start_import s) 0 (row ∷ rows) uuids clock
          (start_import-IsImporting s v stored) f given).0

  import_assets-returns :
      (r : AssetImportResult) (rows : List CreateAssetRequest)
      → to_import_rows d req ≡ ok rows
      → (import_assets d s req uuids clock).0 ≡ ok r
      → (r.total_rows ≡ length rows)
        × (r.imported ≡ (import_rows (start_import s) 0 rows uuids clock).imported)
        × (r.skipped ≡ (import_rows (start_import s) 0 rows uuids clock).skipped)
        × (r.failed ≡ (import_rows (start_import s) 0 rows uuids clock).failed)
  unfolding import_assets finish_import
  import_assets-returns r [] read finished = absurd (ground arith)
  import_assets-returns r (row ∷ rows) read finished =
      (ground arith, ground arith, ground arith, ground arith)

  -- ImportAssets when it returns a result for readable rows, the assets are valid, the new ids are not in
  -- use and the names of the assets and of the rows are ASCII: the total is the number of the rows, and
  -- each is counted as imported, skipped or failed; every skipped row is reported as a duplicate of a stored
  -- asset, one that the same import has stored included, and no row fails because its name is taken.
  pub import_assets-reports :
      (r : AssetImportResult) (rows : List CreateAssetRequest)
      → HasValidAssets s.assets
      → HasFreshIds s uuids 0
      → HasAsciiNames s.assets
      → All (λ row. is_ascii row.name ≡ true) rows
      → to_import_rows d req ≡ ok rows
      → (import_assets d s req uuids clock).0 ≡ ok r
      → (r.total_rows ≡ length rows)
        × (r.total_rows ≡ length r.imported + length r.skipped + length r.failed)
        × All (λ i. i.reason ≡ duplicate_with_existing) r.skipped
        × All (λ i. i.reason ≢ creation_failed asset_name_exists) r.failed
  unfolding import_assets finish_import start_import
  import_assets-reports r rows v f stored given read finished =
      let p = import_rows (start_import s) 0 rows uuids clock in
      let done =
        (import_rows-create_each (start_import s) 0 rows uuids clock
          (start_import-IsImporting s v stored) f given).1 in
      let total = import_rows-counted (start_import s) 0 rows uuids clock in
      let (all_rows, same_imported, same_skipped, same_failed) =
        import_assets-returns r rows read finished in
      (
        all_rows,
        ground (arith, all_rows, same_imported, same_skipped, same_failed, total),
        rw same_skipped done.skipped,
        rw same_failed done.failed,
      )
