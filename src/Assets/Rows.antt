-- ===== src/Assets/Rows.antt =====
-- The rows of an import (asset_service.go: toImportRows, csvValue and splitGroups). The reader of
-- encoding/csv, strconv.Atoi and json.Unmarshal are parameters.
use Prim.Native.Char.{code}
use Prim.Native.String as Text
use bonipam.Common.{
  ℕ, zero, suc, ◌≡◌, refl, String, Option, none, some, List, [], ◌∷◌, ◌==◌, nat_eq, if◌then◌else◌,
  Result, ok, err,
}
use bonipam.Common.Int.{ℤ, pos}
use bonipam.Go.Map.{Map, get, put}
use bonipam.Go.Text.{trim_space}
use bonipam.Policy.Value.{Value}
use bonipam.Policy.Value.Value.{str}
use bonipam.Assets.Types.{
  CreateAssetRequest, AssetImportRequest, AssetError, csv_header_failed, csv_row_failed,
  csv_column_missing, port_text_invalid, metadata_json_invalid,
}
use bonipam.Assets.Metadata.{clean, has_key}

-- `read_csv` gives what the calls of Read return until io.EOF: a record, or `none` for an error. `atoi`
-- and `unmarshal_object` give none for an error.
pub record Decoders : Type 0 where
  pub read_csv : String → List (Option (List String))
  pub atoi : String → Option ℤ
  pub unmarshal_object : String → Option (Map Value)

-- The loop that notes the column of each header; of two columns with one name the later one counts.
unfoldable pub columns_from : ℕ → List String → Map ℕ → Map ℕ
columns_from i [] col = col
columns_from i (header ∷ headers) col = columns_from (suc i) headers (put col (clean header) i)

element_at : List String → ℕ → String
element_at [] i = ""
element_at (x ∷ xs) zero = x
element_at (x ∷ xs) (suc i) = element_at xs i

unfoldable pub csv_value : List String → Map ℕ → String → String
unfolding element_at
csv_value fields columns key = elim (get columns key) [
  | none ↦ ""
  | some index ↦ trim_space (element_at fields index)
]

-- strings.Split at "|": the text before the first bar, and the parts after it.
split_parts : String → String × List String
split_parts Text.[] = ("", [])
split_parts (Text.◌∷◌ c s) =
    let (part, parts) = split_parts s in
    if nat_eq (code c) b'|' then ("", part ∷ parts) else (Text.◌∷◌ c part, parts)

split_bars : String → List String
unfolding split_parts
split_bars s = let (part, parts) = split_parts s in part ∷ parts

keep_trimmed : List String → List String
keep_trimmed [] = []
keep_trimmed (part ∷ parts) =
    let rest = keep_trimmed parts in if trim_space part == "" then rest else trim_space part ∷ rest

unfoldable pub split_groups : String → List String
unfolding split_bars keep_trimmed
split_groups raw = if trim_space raw == "" then [] else keep_trimmed (split_bars raw)

split_groups_bars : split_groups " web |  |db|" ≡ "web" ∷ "db" ∷ []
unfolding split_groups trim_space
split_groups_bars = refl

-- The metadata that stands in columns of its own.
put_column : List String → Map ℕ → String → Map Value → Map Value
put_column fields col key metadata =
    let value = csv_value fields col key in
    if value == "" then metadata else put metadata key (str value)

unfoldable pub column_metadata : List String → Map ℕ → Map Value
unfolding put_column
column_metadata fields col = put_column fields col "database" (
    put_column fields col "engine"
      (put_column fields col "auth_method" (put_column fields col "username" [])))

unfoldable pub row_port : Decoders → List String → Map ℕ → Result AssetError ℤ
row_port d fields col =
    let raw = csv_value fields col "port" in
    if trim_space raw == ""
    then ok (pos 0)
    else elim (d.atoi (trim_space raw)) [ none ↦ err (port_text_invalid raw) | some port ↦ ok port ]

unfoldable pub row_metadata : Decoders → List String → Map ℕ → Result AssetError (Map Value)
row_metadata d fields col =
    let raw = csv_value fields col "connection_metadata" in
    if trim_space raw == ""
    then ok (column_metadata fields col)
    else elim (d.unmarshal_object raw) [
      | none ↦ err metadata_json_invalid
      | some metadata ↦ ok metadata
    ]

unfoldable pub to_row : Decoders → List String → Map ℕ → Result AssetError CreateAssetRequest
to_row d fields col = elim (row_port d fields col) [
  | err e ↦ err e
  | ok port ↦ elim (row_metadata d fields col) [
    | err e ↦ err e
    | ok metadata ↦ ok (record {
      name = csv_value fields col "name";
      asset_type = csv_value fields col "type";
      host = csv_value fields col "host";
      port = port;
      environment = csv_value fields col "environment";
      owner = csv_value fields col "owner";
      criticality = csv_value fields col "criticality";
      groups = split_groups (csv_value fields col "groups");
      connection_metadata = metadata;
    })
  ]
]

-- The loop over the records, up to io.EOF or the first error.
unfoldable pub to_rows :
    Decoders → Map ℕ → List (Option (List String)) → Result AssetError (List CreateAssetRequest)
to_rows d col [] = ok []
to_rows d col (none ∷ reads) = err csv_row_failed
to_rows d col (some fields ∷ reads) =
    let rest = to_rows d col reads in
    elim (to_row d fields col) [
      | err e ↦ err e
      | ok row ↦ elim rest [ err e ↦ err e | ok rows ↦ ok (row ∷ rows) ]
    ]

first_missing : Map ℕ → List String → Option String
first_missing col [] = none
first_missing col (field ∷ fields) =
    let rest = first_missing col fields in if has_key col field then rest else some field

unfoldable pub read_rows :
    Decoders → List (Option (List String)) → Result AssetError (List CreateAssetRequest)
unfolding first_missing
read_rows d [] = err csv_header_failed
read_rows d (none ∷ reads) = err csv_header_failed
read_rows d (some headers ∷ reads) =
    let col = columns_from 0 headers [] in
    let rows = to_rows d col reads in
    elim (first_missing col ("name" ∷ "type" ∷ "host" ∷ [])) [
      | some field ↦ err (csv_column_missing field)
      | none ↦ rows
    ]

unfoldable pub to_import_rows :
    Decoders → AssetImportRequest → Result AssetError (List CreateAssetRequest)
to_import_rows d req = elim req.assets [
  | row ∷ rows ↦ ok (row ∷ rows)
  | [] ↦
      let csv_data = trim_space req.csv_data in
      if csv_data == "" then ok [] else read_rows d (d.read_csv csv_data)
]
