-- ===== src/Assets/Metadata.antt =====
-- The connection metadata of an asset (asset_service.go: validateConnectionMetadata).
use bonipam.Common.{
  String, Bool, ◌&&◌, not, none, some, [], ◌∷◌, ◌==◌, if◌then◌else◌, Result, ok, err, is_some,
}
use bonipam.Go.Map.{Map, get, put}
use bonipam.Go.Text.{trim_space, to_lower}
use bonipam.Policy.Value.{Value, as_text}
use bonipam.Policy.Value.Value.{str}
use bonipam.Assets.Types.{
  AssetError, metadata_required, ssh_username_required, auth_method_required, auth_method_not_text,
  auth_method_unknown, engine_required, engine_not_text, engine_unknown, database_required,
  database_username_required, unsupported_asset_type,
}

unfoldable pub clean : String → String
clean s = to_lower (trim_space s)

-- The loop that copies the metadata under trimmed keys in lower case; where two keys become one, the
-- later one in the order of the `range` stays.
unfoldable pub normalize_keys : Map Value → Map Value → Map Value
normalize_keys normalized [] = normalized
normalize_keys normalized ((key, value) ∷ rest) =
    normalize_keys (put normalized (clean key) value) rest

unfoldable pub has_key : {V : Type 0} → Map V → String → Bool
has_key m k = is_some (get m k)

unfoldable pub validate_ssh : Map Value → Result AssetError (Map Value)
validate_ssh normalized =
    if not (has_key normalized "username")
    then err ssh_username_required
    else elim (get normalized "auth_method") [
      | none ↦ err auth_method_required
      | some raw ↦ elim (as_text raw) [
        | none ↦ err auth_method_not_text
        | some text ↦
            let auth_method = clean text in
            if not (auth_method == "password") && not (auth_method == "key")
            then err auth_method_unknown
            else ok (put normalized "auth_method" (str auth_method))
      ]
    ]

unfoldable pub validate_database : Map Value → Result AssetError (Map Value)
validate_database normalized = elim (get normalized "engine") [
  | none ↦ err engine_required
  | some raw ↦ elim (as_text raw) [
    | none ↦ err engine_not_text
    | some text ↦
        let engine = clean text in
        if not (engine == "postgres") && not (engine == "mysql") && not (engine == "mssql")
        then err engine_unknown
        else let checked = put normalized "engine" (str engine) in
          if not (has_key checked "database")
          then err database_required
          else if not (has_key checked "username")
          then err database_username_required
          else ok checked
  ]
]

unfoldable pub validate_connection_metadata : String → Map Value → Result AssetError (Map Value)
validate_connection_metadata asset_type [] = err metadata_required
validate_connection_metadata asset_type (entry ∷ rest) =
    let normalized = normalize_keys [] (entry ∷ rest) in
    if asset_type == "ssh"
    then validate_ssh normalized
    else if asset_type == "database"
    then validate_database normalized
    else err (unsupported_asset_type asset_type)
