-- ===== src/Assets/Each.antt =====
-- An import is the creation of its rows in turn (asset_service.go: ImportAssets and CreateAsset).
use Prim.Native.String.{◌++◌ as append}
use bonipam.Common.{
  ℕ, suc, String, ◌≡◌, ◌≢◌, refl, sym, ap, ◌∙◌, true, none, List, [], ◌∷◌, arith, ◌==◌, ok,
  Bool-cases, Result-cases, inl, inr,
}
use bonipam.Common.Lists.{All, All-append}
use bonipam.Go.Map.{Map, get, put, get-put, any_entry}
use bonipam.Go.Keys.{any_entry-put_new}
use bonipam.Go.Once.{has}
use bonipam.Go.Text.Ascii.{is_ascii, trim_space-is_ascii}
use bonipam.Go.Time.{Time}
use bonipam.Assets.Types.{
  Asset, CreateAssetRequest, ImportReason, name_required, duplicate_with_existing, creation_failed,
  AssetService, asset_name_exists,
}
use bonipam.Assets.Metadata.{clean}
use bonipam.Assets.Cleaned.{clean-trim_space}
use bonipam.Assets.Service.{create_asset}
use bonipam.Assets.Import.{
  existing_asset_names, Progress, skip_row, fail_row, accept_row, import_row, start_import,
}
use bonipam.Assets.Valid.{HasValidAssets, create_asset-HasValidAssets}
use bonipam.Assets.Batch.{
  HasAsciiNames, is_named, has-names_of, create_asset-kept, create_asset-nameless,
  create_asset-taken, create_asset-free, create_asset-written, build_asset-names,
}

put-HasAsciiNames :
    (m : Map Asset) (k : String) (a : Asset)
    → HasAsciiNames m
    → is_ascii a.name ≡ true
    → HasAsciiNames (put m k a)
put-HasAsciiNames m k a ascii given j b at = elim (Bool-cases (k == j)) [
  | inl same ↦
      let e : a ≡ b = ground (arith, get-put m k j a) in ap (λ x. is_ascii x.name) (sym e) ∙ given
  | inr other ↦ ascii j b (ground (arith, get-put m k j a))
]

-- What the loop knows between two rows.
pub record IsImporting (p : Progress) : Type 0 where
  pub valid : HasValidAssets p.service.assets
  pub ascii : HasAsciiNames p.service.assets
  pub known : (n : String) → has p.existing_names n ≡ any_entry (is_named n) p.service.assets
  pub covered : (n : String) → has p.batch_names n ≡ true → has p.existing_names n ≡ true
  pub skipped : All (λ i. i.reason ≡ duplicate_with_existing) p.skipped
  pub failed : All (λ i. i.reason ≢ creation_failed asset_name_exists) p.failed

-- The rows, created one after the other.
unfoldable pub create_each :
    AssetService → ℕ → List CreateAssetRequest → (ℕ → String) → (ℕ → Time) → AssetService
create_each s idx [] uuids clock = s
create_each s idx (row ∷ rows) uuids clock =
    create_each (create_asset s row (uuids idx) (clock idx)).1 (suc idx) rows uuids clock

pub start_import-IsImporting :
    (s : AssetService)
    → HasValidAssets s.assets
    → HasAsciiNames s.assets
    → IsImporting (start_import s)
unfolding start_import existing_asset_names has
start_import-IsImporting s v ascii = record {
  valid = v;
  ascii = ascii;
  known = has-names_of s.assets;
  covered = λ n h. absurd (ground arith);
  skipped = tt;
  failed = tt;
}

module _ (p : Progress) (importing : IsImporting p) where
  skip_row-IsImporting :
      (idx : ℕ) (name : String) → IsImporting (skip_row p idx name duplicate_with_existing)
  unfolding skip_row
  skip_row-IsImporting idx name = record {
    valid = importing.valid;
    ascii = importing.ascii;
    known = importing.known;
    covered = importing.covered;
    skipped =
        All-append (λ i. i.reason ≡ duplicate_with_existing) p.skipped
          (record { index = idx; name = name; reason = duplicate_with_existing } ∷ [])
          importing.skipped (refl, tt);
    failed = importing.failed;
  }

  fail_row-IsImporting :
      (idx : ℕ) (name : String) (reason : ImportReason)
      → reason ≢ creation_failed asset_name_exists
      → IsImporting (fail_row p idx name reason)
  unfolding fail_row
  fail_row-IsImporting idx name reason other = record {
    valid = importing.valid;
    ascii = importing.ascii;
    known = importing.known;
    covered = importing.covered;
    skipped = importing.skipped;
    failed =
        All-append (λ i. i.reason ≢ creation_failed asset_name_exists) p.failed
          (record { index = idx; name = name; reason = reason } ∷ []) importing.failed (other, tt);
  }

  accept_row-IsImporting :
      (row : CreateAssetRequest) (uuid : String) (now : Time) (a : Asset)
      → is_ascii row.name ≡ true
      → get p.service.assets (append "ast-" uuid) ≡ none
      → (create_asset p.service row uuid now).0 ≡ ok a
      → IsImporting (accept_row p (clean row.name) a (create_asset p.service row uuid now).1)
  unfolding accept_row has
  accept_row-IsImporting row uuid now a given unused created =
      let (written, name) = create_asset-written p.service row uuid now a created in
      let cleaned : clean a.name ≡ clean row.name = ap clean name ∙ clean-trim_space row.name in
      record {
        valid = create_asset-HasValidAssets p.service row uuid now importing.valid;
        ascii = rw written (
            put-HasAsciiNames p.service.assets (append "ast-" uuid) a importing.ascii
              (rw name (trim_space-is_ascii row.name given)));
        known = λ n. rw written (
            ground (
              arith,
              cleaned,
              importing.known n,
              any_entry-put_new (is_named n) p.service.assets (append "ast-" uuid) a unused,
            ));
        covered = λ n h. ground (arith, importing.covered n);
        skipped = importing.skipped;
        failed = importing.failed;
      }

-- One round of the loop.
module _ (p : Progress) (importing : IsImporting p) (idx : ℕ) (row : CreateAssetRequest)
    (uuid : String) (now : Time) (given : is_ascii row.name ≡ true)
    (unused : get p.service.assets (append "ast-" uuid) ≡ none) where
  pub import_row-service :
      (import_row p idx row uuid now).service ≡ (create_asset p.service row uuid now).1
  unfolding import_row skip_row fail_row accept_row
  import_row-service = elim (Bool-cases (clean row.name == "")) [
    | inl empty ↦ rw (empty, import_row) (sym (create_asset-nameless p.service row uuid now empty))
    | inr named ↦ elim (Bool-cases (has p.existing_names (clean row.name))) [
      | inl taken ↦
          let full = sym (importing.known (clean row.name)) ∙ taken in
          rw (named, taken, import_row)
            (sym (
              create_asset-taken p.service row uuid now given importing.ascii importing.valid full))
      | inr free ↦ elim (Bool-cases (has p.batch_names (clean row.name))) [
        | inl again ↦ absurd (ground (arith, importing.covered (clean row.name)))
        | inr fresh ↦ elim (Result-cases (create_asset p.service row uuid now).0) [
          | inl (a, created) ↦ rw (named, free, fresh, created, import_row) refl
          | inr (e, failed) ↦
              rw (named, free, fresh, failed, import_row)
                (sym (create_asset-kept p.service row uuid now e failed))
        ]
      ]
    ]
  ]

  pub import_row-IsImporting : IsImporting (import_row p idx row uuid now)
  unfolding import_row
  import_row-IsImporting = elim (Bool-cases (clean row.name == "")) [
    | inl empty ↦
        rw (empty, import_row)
          (fail_row-IsImporting p importing idx "" name_required (λ same. ground arith))
    | inr named ↦ elim (Bool-cases (has p.existing_names (clean row.name))) [
      | inl taken ↦ rw (named, taken, import_row) (skip_row-IsImporting p importing idx row.name)
      | inr free ↦ elim (Bool-cases (has p.batch_names (clean row.name))) [
        | inl again ↦ absurd (ground (arith, importing.covered (clean row.name)))
        | inr fresh ↦ elim (Result-cases (create_asset p.service row uuid now).0) [
          | inl (a, created) ↦
              rw (named, free, fresh, created, import_row)
                (accept_row-IsImporting p importing row uuid now a given unused created)
          | inr (e, failed) ↦
              let open_name = sym (importing.known (clean row.name)) ∙ free in
              let built =
                create_asset-free p.service row uuid now e given importing.ascii importing.valid
                  open_name failed in
              rw (named, free, fresh, failed, import_row)
                (fail_row-IsImporting p importing idx row.name (creation_failed e)
                  (λ same. build_asset-names row uuid now (ground (arith, built))))
        ]
      ]
    ]
  ]
