-- ===== src/Assets/Tagging.antt =====
-- The tags of an asset (asset_service.go: normalizeAssetTagging and containsString).
use bonipam.Common.{String, Bool, ◌||◌, not, List, [], ◌==◌, if◌then◌else◌, Result, ok, err, map}
use bonipam.Common.Lists.{any}
use bonipam.Go.Once.{push_all}
use bonipam.Go.Text.{trim_space, to_lower}
use bonipam.Assets.Types.{AssetError, environment_unknown, criticality_unknown}
use bonipam.Assets.Metadata.{clean}

pub record Tagging : Type 0 where
  pub environment : String
  pub owner : String
  pub criticality : String
  pub groups : List String

unfoldable pub is_environment : String → Bool
is_environment e = e == "" || e == "dev" || e == "staging" || e == "prod"

unfoldable pub is_criticality : String → Bool
is_criticality c = c == "" || c == "low" || c == "medium" || c == "high" || c == "critical"

-- The loop over the groups: each one trimmed and in lower case, once, unless it is empty.
unfoldable pub normalize_groups : List String → List String
normalize_groups groups = push_all [] (map clean groups)

unfoldable pub normalize_asset_tagging :
    String → String → String → List String → Result AssetError Tagging
normalize_asset_tagging environment owner criticality groups =
    if not (is_environment (clean environment))
    then err environment_unknown
    else if not (is_criticality (clean criticality))
    then err criticality_unknown
    else ok (record {
      environment = clean environment;
      owner = trim_space owner;
      criticality = clean criticality;
      groups = normalize_groups groups;
    })

unfoldable pub contains_string : List String → String → Bool
contains_string values target = any (λ value. to_lower value == target) values
