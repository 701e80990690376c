-- ===== src/Assets/Service.antt =====
-- Assets are created, listed, read, tagged and tested (asset_service.go).
use Prim.Native.Char.{Char, code}
use Prim.Native.String as Text
use Prim.Native.String.{◌++◌ as append}
use bonipam.Common.{
  ℕ, zero, suc, ◌+◌, ◌%◌, String, Bool, ◌||◌, ◌&&◌, not, none, some, List, [], ◌==◌, ltb,
  if◌then◌else◌, Result, ok, err,
}
use bonipam.Common.Int.{ℤ, pos, negsuc, ◌+ℤ◌, ltb_ℤ, leb_ℤ, eq_ℤ}
use bonipam.Common.Lists.{filter}
use bonipam.Go.Map.{get, put, any_entry, values}
use bonipam.Go.Sort.{sort_slice}
use bonipam.Go.Text.{trim_space, to_lower, equal_fold, contains_text}
use bonipam.Go.Time.{Time, before}
use bonipam.Assets.Types.{
  Asset, CreateAssetRequest, UpdateAssetTaggingRequest, TestAssetConnectionResult, AssetService,
  AssetError, asset_fields_required, port_out_of_range, asset_name_exists, asset_not_found,
  precheck_failed,
}
use bonipam.Assets.Metadata.{clean, validate_connection_metadata}
use bonipam.Assets.Tagging.{Tagging, normalize_asset_tagging, contains_string}

unfoldable pub new_asset_service : AssetService
new_asset_service = record { assets = []; ownership_transfers = []; audit_events = [] }

-- What a method returns, and the service it leaves.
abbrev pub Outcome : Type 0 → Type 0
Outcome A = Result AssetError A × AssetService

unfoldable pub default_port_for_type : String → ℤ
default_port_for_type asset_type =
    if asset_type == "ssh" then pos 22 else if asset_type == "database" then pos 5432 else pos 0

unfoldable pub port_of : String → ℤ → ℤ
port_of asset_type port = if eq_ℤ port (pos 0) then default_port_for_type asset_type else port

abbrev pub is_port : ℤ → Bool
is_port port = not (leb_ℤ port (pos 0) || ltb_ℤ (pos 65535) port)

-- What CreateAsset checks before it takes the lock, and the asset it builds from the uuid and the time.
unfoldable pub build_asset : CreateAssetRequest → String → Time → Result AssetError Asset
build_asset req uuid now =
    let asset_type = clean req.asset_type in
    let port = port_of asset_type req.port in
    if trim_space req.name == "" || asset_type == "" || trim_space req.host == ""
    then err asset_fields_required
    else if not (is_port port)
    then err port_out_of_range
    else elim (validate_connection_metadata asset_type req.connection_metadata) [
      | err e ↦ err e
      | ok metadata ↦
          elim (normalize_asset_tagging req.environment req.owner req.criticality req.groups) [
            | err e ↦ err e
            | ok tags ↦ ok (record {
              id = append "ast-" uuid;
              name = trim_space req.name;
              asset_type = asset_type;
              host = trim_space req.host;
              port = port;
              environment = tags.environment;
              owner = tags.owner;
              criticality = tags.criticality;
              groups = tags.groups;
              connection_metadata = metadata;
              created_at = now;
              updated_at = now;
            })
          ]
    ]

-- The part under the lock.
unfoldable pub insert_asset : AssetService → Asset → Outcome Asset
insert_asset s asset =
    if any_entry (λ _ existing. equal_fold existing.name asset.name) s.assets
    then (err asset_name_exists, s)
    else (ok asset, record s { assets = put s.assets asset.id asset })

unfoldable pub create_asset : AssetService → CreateAssetRequest → String → Time → Outcome Asset
create_asset s req uuid now = elim (build_asset req uuid now) [
  | err e ↦ (err e, s)
  | ok asset ↦ insert_asset s asset
]

unfoldable pub is_listed : String → String → String → String → Asset → Bool
is_listed environment owner criticality group asset =
    not (not (environment == "") && not (asset.environment == environment))
    && not (not (owner == "") && not (to_lower asset.owner == owner))
    && not (not (criticality == "") && not (asset.criticality == criticality))
    && not (not (group == "") && not (contains_string asset.groups group))

unfoldable pub created_before : Asset → Asset → Bool
created_before a b = before a.created_at b.created_at

unfoldable pub list_assets : AssetService → String → String → String → String → List Asset
list_assets s environment owner criticality group = sort_slice created_before (
    filter (is_listed (clean environment) (clean owner) (clean criticality) (clean group))
      (values s.assets))

unfoldable pub get_asset : AssetService → String → Result AssetError Asset
get_asset s asset_id = elim (get s.assets asset_id) [
  | none ↦ err asset_not_found
  | some asset ↦ ok asset
]

unfoldable pub tagged_asset : Asset → Tagging → Time → Asset
tagged_asset asset tags now = record asset {
  environment = tags.environment;
  owner = tags.owner;
  criticality = tags.criticality;
  groups = tags.groups;
  updated_at = now;
}

unfoldable pub tag_asset : AssetService → String → Tagging → Time → Outcome Asset
tag_asset s asset_id tags now = elim (get s.assets asset_id) [
  | none ↦ (err asset_not_found, s)
  | some asset ↦ (
    ok (tagged_asset asset tags now),
    record s { assets = put s.assets asset_id (tagged_asset asset tags now) },
  )
]

unfoldable pub update_asset_tagging :
    AssetService → String → UpdateAssetTaggingRequest → Time → Outcome Asset
update_asset_tagging s asset_id req now =
    elim (normalize_asset_tagging req.environment req.owner req.criticality req.groups) [
      | err e ↦ (err e, s)
      | ok tags ↦ tag_asset s asset_id tags now
    ]

-- len of a text: its bytes in UTF-8.
utf8_width : Char → ℕ
utf8_width c =
    if ltb (code c) 0x80
    then 1
    else if ltb (code c) 0x800
    then 2
    else if ltb (code c) 0x10000
    then 3
    else 4

unfoldable pub byte_length : String → ℕ
unfolding utf8_width
byte_length Text.[] = 0
byte_length (Text.◌∷◌ c s) = utf8_width c + byte_length s

abbrev negated : ℤ → ℤ
negated (pos zero) = pos zero
negated (pos (suc n)) = negsuc n
negated (negsuc n) = pos (suc n)

-- Go's remainder: it has the sign of the dividend.
abbrev remainder : ℤ → ℕ → ℤ
remainder (pos n) k = pos (n % k)
remainder (negsuc n) k = negated (pos (suc n % k))

unfoldable pub simulate_latency : String → ℤ → ℤ → ℤ
unfolding ◌+ℤ◌
simulate_latency host port timeout_seconds =
    let seed = pos (byte_length (trim_space host)) +ℤ port +ℤ timeout_seconds in
    let positive = if ltb_ℤ seed (pos 0) then negated seed else seed in
    pos 10 +ℤ remainder positive 120

unfoldable pub timeout_used : ℤ → ℤ
timeout_used timeout_seconds =
    let least = if leb_ℤ timeout_seconds (pos 0) then pos 3 else timeout_seconds in
    if ltb_ℤ (pos 15) least then pos 15 else least

unfoldable pub is_failing_host : String → Bool
is_failing_host host =
    host == ""
    || contains_text host "invalid"
    || contains_text host "unreachable"
    || contains_text host "blocked"

unfoldable pub connection_result : Asset → ℤ → Time → TestAssetConnectionResult
connection_result asset timeout now =
    let failure = is_failing_host (clean asset.host) in
    record {
      asset_id = asset.id;
      status = if failure then "failed" else "ok";
      latency_ms = simulate_latency asset.host asset.port timeout;
      checked_at = now;
      message = if failure then "connection test failed" else "connection test passed";
      protocol = if asset.asset_type == "" then "unknown" else asset.asset_type;
      timeout_used_s = timeout;
    }

unfoldable pub test_connection :
    AssetService → String → ℤ → Time → Result AssetError TestAssetConnectionResult
test_connection s asset_id timeout_seconds now = elim (get s.assets asset_id) [
  | none ↦ err asset_not_found
  | some asset ↦ elim (validate_connection_metadata asset.asset_type asset.connection_metadata) [
    | err e ↦ err (precheck_failed e)
    | ok metadata ↦ ok (connection_result asset (timeout_used timeout_seconds) now)
  ]
]
