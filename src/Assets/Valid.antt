-- ===== src/Assets/Valid.antt =====
-- What holds of every stored asset, and that creating and changing assets keeps it (asset_service.go).
use bonipam.Common.{
  String, ◌≡◌, refl, true, false, some, List, [], arith, eq_iff, ◌==◌, ok, Option-cases, Bool-cases,
  Result-cases, inl, inr, map,
}
use bonipam.Go.Map.{Map, get, put, get-put, any_entry, any_entry_miss}
use bonipam.Go.Keys.{HasDistinctKeys, put-HasDistinctKeys}
use bonipam.Go.Once.{Distinct, push_all-Distinct}
use bonipam.Go.Text.{trim_space, equal_fold}
use bonipam.Go.Text.Lowered.{equal_fold_comm}
use bonipam.Go.Text.Trimmed.{trim_space_twice}
use bonipam.Go.Time.{Time}
use bonipam.Assets.Types.{Asset, CreateAssetRequest, UpdateAssetTaggingRequest, AssetService}
use bonipam.Assets.Metadata.{clean, validate_connection_metadata}
use bonipam.Assets.Tagging.{
  Tagging, is_environment, is_criticality, normalize_groups, normalize_asset_tagging,
}
use bonipam.Assets.Service.{
  is_port, build_asset, insert_asset, create_asset, tagged_asset, tag_asset, update_asset_tagging,
}
use bonipam.Assets.Checked.{IsChecked, validate_connection_metadata-IsChecked}

pub record IsTagged (environment criticality : String) (groups : List String) : Type 0 where
  pub environment_known : is_environment environment ≡ true
  pub criticality_known : is_criticality criticality ≡ true
  pub groups_distinct : Distinct groups

pub record IsValidAsset (a : Asset) : Type 0 where
  pub named : (a.name == "") ≡ false
  pub trimmed : trim_space a.name ≡ a.name
  pub hosted : (a.host == "") ≡ false
  pub port_in_range : is_port a.port ≡ true
  pub metadata : IsChecked a.asset_type a.connection_metadata
  pub tagged : IsTagged a.environment a.criticality a.groups

-- The assets of the service: each is valid and stands under its id, and no two have one name.
pub record HasValidAssets (m : Map Asset) : Type 0 where
  pub keys : HasDistinctKeys m
  pub valid : (k : String) (a : Asset) → get m k ≡ some a → (a.id ≡ k) × IsValidAsset a
  pub unique :
      (j k : String) (a b : Asset)
      → get m j ≡ some a
      → get m k ≡ some b
      → equal_fold a.name b.name ≡ true
      → j ≡ k

-- A new asset whose name no stored one has.
put-HasValidAssets :
    (m : Map Asset) (a : Asset)
    → IsValidAsset a
    → any_entry (λ _ existing. equal_fold existing.name a.name) m ≡ false
    → HasValidAssets m
    → HasValidAssets (put m a.id a)
put-HasValidAssets m a valid free v =
    let miss = any_entry_miss (λ _ existing. equal_fold existing.name a.name) m in
    record {
      keys = put-HasDistinctKeys m a.id a v.keys;
      valid = λ k b at. ground (arith, get-put m a.id k a, eq_iff a.id k, v.valid k b, valid);
      unique = λ j k b c at_j at_k same. ground (
        arith,
        get-put m a.id j a,
        get-put m a.id k a,
        eq_iff a.id j,
        eq_iff a.id k,
        v.unique j k b c,
        miss j b free,
        miss k c free,
        equal_fold_comm a.name c.name,
      );
    }

-- A stored asset that changes and keeps its id and its name.
pub change-HasValidAssets :
    (m : Map Asset) (k : String) (a a' : Asset)
    → get m k ≡ some a
    → a'.id ≡ a.id
    → a'.name ≡ a.name
    → IsValidAsset a'
    → HasValidAssets m
    → HasValidAssets (put m k a')
change-HasValidAssets m k a a' at same_id same_name valid v = record {
  keys = put-HasDistinctKeys m k a' v.keys;
  valid = λ j b at'.
      ground (arith, get-put m k j a', eq_iff k j, v.valid j b, v.valid k a at, valid, same_id);
  unique = λ i j b c at_i at_j same. ground (
    arith,
    get-put m k i a',
    get-put m k j a',
    eq_iff k i,
    eq_iff k j,
    v.unique i j b c,
    v.unique i j a c,
    v.unique i j b a,
    at,
    same_name,
  );
}

normalize_asset_tagging-IsTagged :
    (environment owner criticality : String) (groups : List String) (tags : Tagging)
    → normalize_asset_tagging environment owner criticality groups ≡ ok tags
    → IsTagged tags.environment tags.criticality tags.groups
unfolding normalize_asset_tagging normalize_groups
normalize_asset_tagging-IsTagged environment owner criticality groups tags accepted = record {
  environment_known = ground arith;
  criticality_known = ground arith;
  groups_distinct = ground (arith, push_all-Distinct [] (map clean groups) tt);
}

build_asset-IsValidAsset :
    (req : CreateAssetRequest) (uuid : String) (now : Time) (a : Asset)
    → build_asset req uuid now ≡ ok a
    → IsValidAsset a
unfolding build_asset
build_asset-IsValidAsset req uuid now a built =
    let asset_type = clean req.asset_type in
    elim (Result-cases (validate_connection_metadata asset_type req.connection_metadata)) [
      | inr (e, refused) ↦ absurd (ground arith)
      | inl (m, accepted) ↦
          elim (Result-cases
            (normalize_asset_tagging req.environment req.owner req.criticality req.groups)) [
              | inr (e, refused) ↦ absurd (ground arith)
              | inl (tags, normalized) ↦
                  let checked =
                    validate_connection_metadata-IsChecked asset_type req.connection_metadata m
                      accepted in
                  let tagged =
                    normalize_asset_tagging-IsTagged req.environment req.owner req.criticality
                      req.groups tags normalized in
                  let same_type : a.asset_type ≡ asset_type = ground arith in
                  let same_metadata : a.connection_metadata ≡ m = ground arith in
                  let same_environment : a.environment ≡ tags.environment = ground arith in
                  let same_criticality : a.criticality ≡ tags.criticality = ground arith in
                  let same_groups : a.groups ≡ tags.groups = ground arith in
                  record {
                    named = ground arith;
                    trimmed = ground (arith, trim_space_twice req.name);
                    hosted = ground arith;
                    port_in_range = ground arith;
                    metadata = rw (same_type, same_metadata) checked;
                    tagged = rw (same_environment, same_criticality, same_groups) tagged;
                  }
            ]
    ]

pub create_asset-HasValidAssets :
    (s : AssetService) (req : CreateAssetRequest) (uuid : String) (now : Time)
    → HasValidAssets s.assets
    → HasValidAssets (create_asset s req uuid now).1.assets
unfolding create_asset insert_asset
create_asset-HasValidAssets s req uuid now v = elim (Result-cases (build_asset req uuid now)) [
  | inr (e, refused) ↦ rw (refused, create_asset) v
  | inl (a, built) ↦
      elim (Bool-cases (any_entry (λ _ existing. equal_fold existing.name a.name) s.assets)) [
        | inl taken ↦ rw (built, taken, create_asset, insert_asset) v
        | inr free ↦
            rw (built, free, create_asset, insert_asset)
              (put-HasValidAssets s.assets a (build_asset-IsValidAsset req uuid now a built) free v)
      ]
]

tagged_asset-IsValidAsset :
    (a : Asset) (tags : Tagging) (now : Time)
    → IsTagged tags.environment tags.criticality tags.groups
    → IsValidAsset a
    → IsValidAsset (tagged_asset a tags now)
unfolding tagged_asset
tagged_asset-IsValidAsset a tags now tagged v = record {
  named = v.named;
  trimmed = v.trimmed;
  hosted = v.hosted;
  port_in_range = v.port_in_range;
  metadata = v.metadata;
  tagged = tagged;
}

pub update_asset_tagging-HasValidAssets :
    (s : AssetService) (asset_id : String) (req : UpdateAssetTaggingRequest) (now : Time)
    → HasValidAssets s.assets
    → HasValidAssets (update_asset_tagging s asset_id req now).1.assets
unfolding update_asset_tagging tag_asset tagged_asset
update_asset_tagging-HasValidAssets s asset_id req now v =
    elim (Result-cases
      (normalize_asset_tagging req.environment req.owner req.criticality req.groups)) [
        | inr (e, refused) ↦ rw (refused, update_asset_tagging) v
        | inl (tags, normalized) ↦ elim (Option-cases (get s.assets asset_id)) [
          | inl missing ↦ rw (normalized, missing, update_asset_tagging, tag_asset) v
          | inr (a, at) ↦
              let tagged =
                normalize_asset_tagging-IsTagged req.environment req.owner req.criticality
                  req.groups tags normalized in
              rw (normalized, at, update_asset_tagging, tag_asset)
                (change-HasValidAssets s.assets asset_id a (tagged_asset a tags now) at refl refl
                  (tagged_asset-IsValidAsset a tags now tagged (v.valid asset_id a at).1) v)
        ]
      ]
