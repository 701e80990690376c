-- ===== src/Assets/Batch.antt =====
-- An import is the creation of its rows in turn (asset_service.go: ImportAssets and CreateAsset).
use Prim.Native.String.{◌++◌ as append}
use bonipam.Common.{
  String, some, Bool, ◌≡◌, ◌≢◌, refl, sym, ap, ◌∙◌, true, false, List, [], ◌∷◌, arith, ◌==◌, ok,
  err, Result-cases, inl, inr,
}
use bonipam.Go.Map.{Map, get, put, any_entry, values}
use bonipam.Go.Keys.{any_entry-agree}
use bonipam.Go.Once.{has}
use bonipam.Go.Text.{trim_space, equal_fold}
use bonipam.Go.Text.Ascii.{is_ascii, trim_space-is_ascii, equal_fold-is_ascii}
use bonipam.Go.Text.Lowered.{to_lower-empty}
use bonipam.Go.Time.{Time}
use bonipam.Assets.Types.{Asset, CreateAssetRequest, AssetService, AssetError, asset_name_exists}
use bonipam.Policy.Value.{Value}
use bonipam.Assets.Metadata.{
  clean, normalize_keys, validate_ssh, validate_database, validate_connection_metadata,
}
use bonipam.Assets.Tagging.{normalize_asset_tagging}
use bonipam.Assets.Service.{build_asset, insert_asset, create_asset}
use bonipam.Assets.Import.{names_of}
use bonipam.Assets.Valid.{HasValidAssets}

abbrev pub is_named : String → String → Asset → Bool
is_named n k a = clean a.name == n

pub has-names_of :
    (m : Map Asset) (n : String) → has (names_of (values m)) n ≡ any_entry (is_named n) m
unfolding has names_of values any_entry
has-names_of [] n = refl
has-names_of ((k, a) ∷ m) n = ground (arith, has-names_of m n)

-- The name of a built asset, and the test for it among valid assets.
build_asset-name :
    (req : CreateAssetRequest) (uuid : String) (now : Time) (a : Asset)
    → build_asset req uuid now ≡ ok a
    → (a.name ≡ trim_space req.name) × (a.id ≡ append "ast-" uuid)
unfolding build_asset
build_asset-name req uuid now a built = (ground arith, ground arith)

-- The names of the stored assets are ASCII.
abbrev pub HasAsciiNames : Map Asset → Type 0
HasAsciiNames m = (k : String) (a : Asset) → get m k ≡ some a → is_ascii a.name ≡ true

taken_by_name :
    (m : Map Asset) (n name : String)
    → name ≡ trim_space n
    → is_ascii n ≡ true
    → HasAsciiNames m
    → HasValidAssets m
    → any_entry (λ _ existing. equal_fold existing.name name) m ≡ any_entry (is_named (clean n)) m
unfolding clean
taken_by_name m n name same given ascii v =
    any_entry-agree (λ _ existing. equal_fold existing.name name) (is_named (clean n)) m v.keys
      (λ k a at.
        rw (same, (v.valid k a at).1.trimmed)
          (equal_fold-is_ascii a.name (trim_space n) (ascii k a at) (trim_space-is_ascii n given)))

pub create_asset-kept :
    (s : AssetService) (req : CreateAssetRequest) (uuid : String) (now : Time) (e : AssetError)
    → (create_asset s req uuid now).0 ≡ err e
    → (create_asset s req uuid now).1 ≡ s
unfolding create_asset insert_asset
create_asset-kept s req uuid now e failed = ground arith

-- A row whose name is empty or taken is not created.
pub create_asset-nameless :
    (s : AssetService) (req : CreateAssetRequest) (uuid : String) (now : Time)
    → (clean req.name == "") ≡ true
    → (create_asset s req uuid now).1 ≡ s
unfolding create_asset build_asset clean
create_asset-nameless s req uuid now empty = ground (arith, to_lower-empty (trim_space req.name))

pub create_asset-taken :
    (s : AssetService) (req : CreateAssetRequest) (uuid : String) (now : Time)
    → is_ascii req.name ≡ true
    → HasAsciiNames s.assets
    → HasValidAssets s.assets
    → any_entry (is_named (clean req.name)) s.assets ≡ true
    → (create_asset s req uuid now).1 ≡ s
unfolding create_asset insert_asset
create_asset-taken s req uuid now given ascii v taken =
    elim (Result-cases (build_asset req uuid now)) [
      | inr (e, refused) ↦ rw (refused, create_asset) refl
      | inl (a, built) ↦
          let named = (build_asset-name req uuid now a built).0 in
          let full = taken_by_name s.assets req.name a.name named given ascii v ∙ taken in
          rw (built, full, create_asset, insert_asset) refl
    ]

-- A row whose name is free: what is created, and no error about the name.
pub create_asset-free :
    (s : AssetService) (req : CreateAssetRequest) (uuid : String) (now : Time) (e : AssetError)
    → is_ascii req.name ≡ true
    → HasAsciiNames s.assets
    → HasValidAssets s.assets
    → any_entry (is_named (clean req.name)) s.assets ≡ false
    → (create_asset s req uuid now).0 ≡ err e
    → build_asset req uuid now ≡ err e
unfolding create_asset insert_asset
create_asset-free s req uuid now e given ascii v free failed =
    elim (Result-cases (build_asset req uuid now)) [
      | inr (e', refused) ↦ ground arith
      | inl (a, built) ↦
          let named = (build_asset-name req uuid now a built).0 in
          let open_name = taken_by_name s.assets req.name a.name named given ascii v ∙ free in
          absurd (ground arith)
    ]

-- What CreateAsset writes when it succeeds.
pub create_asset-written :
    (s : AssetService) (req : CreateAssetRequest) (uuid : String) (now : Time) (a : Asset)
    → (create_asset s req uuid now).0 ≡ ok a
    → ((create_asset s req uuid now).1 ≡ record s { assets = put s.assets (append "ast-" uuid) a })
      × (a.name ≡ trim_space req.name)
unfolding create_asset insert_asset
create_asset-written s req uuid now a created = elim (Result-cases (build_asset req uuid now)) [
  | inr (e, refused) ↦ absurd (ground arith)
  | inl (b, built) ↦
      let (name, id) = build_asset-name req uuid now b built in
      let same : b ≡ a = ground arith in
      (ground (arith, same, ap (λ x. x.id) same, id), ap (λ x. x.name) (sym same) ∙ name)
]

-- No check before the lock is about the names of other assets.
validate_ssh-names : (m : Map Value) → validate_ssh m ≢ err asset_name_exists
unfolding validate_ssh
validate_ssh-names m same = ground arith

validate_database-names : (m : Map Value) → validate_database m ≢ err asset_name_exists
unfolding validate_database
validate_database-names m same = ground arith

validate-names :
    (t : String) (m : Map Value) → validate_connection_metadata t m ≢ err asset_name_exists
unfolding validate_connection_metadata
validate-names t [] same = ground arith
validate-names t (entry ∷ m) same =
    let n = normalize_keys [] (entry ∷ m) in
    ground (arith, validate_ssh-names n, validate_database-names n)

normalize_asset_tagging-names :
    (environment owner criticality : String) (groups : List String)
    → normalize_asset_tagging environment owner criticality groups ≢ err asset_name_exists
unfolding normalize_asset_tagging
normalize_asset_tagging-names environment owner criticality groups same = ground arith

pub build_asset-names :
    (req : CreateAssetRequest) (uuid : String) (now : Time)
    → build_asset req uuid now ≢ err asset_name_exists
unfolding build_asset
build_asset-names req uuid now same = ground (
  arith,
  validate-names (clean req.asset_type) req.connection_metadata,
  normalize_asset_tagging-names req.environment req.owner req.criticality req.groups,
)
