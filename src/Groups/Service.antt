-- ===== src/Groups/Service.antt =====
-- The operations of group_mapping_service.go. `clock` is what time.Now() returns while the user with a
-- given id is visited.
use bonipam.Common.{
  String, ◌||◌, none, some, List, [], ◌∷◌, ◌==◌, if◌then◌else◌, nat_eq, Result, ok, err,
}
use bonipam.Common.Lists.{length}
use bonipam.Go.Map.{get, put, delete, keys, or_else}
use bonipam.Go.Sort.{sort_slice}
use bonipam.Go.Text.{trim_space, text_less}
use bonipam.Go.Time.{Time}
use bonipam.Roles.Types.{RoleService}
use bonipam.Roles.Service.{get_role}
use bonipam.Users.Service.{reconcile_group_membership, apply_role_mapping}
use bonipam.Groups.Types.{
  Set, GroupMappingService, GroupRoleMapping, GroupRoleActionResponse, GroupError,
  group_and_role_required, group_id_required, mapping_not_found, role_error, user_error,
}

abbrev pub Outcome : Type 0 → Type 0
Outcome A = Result GroupError A × GroupMappingService

unfoldable pub map_keys : Set → List String
map_keys input = sort_slice text_less (keys input)

-- s.mappings[groupID], which is a nil map where nothing is stored: a nil map reads as an empty one.
abbrev pub mapping_of : GroupMappingService → String → Set
mapping_of s group_id = or_else (get s.mappings group_id) []

unfoldable pub role_names_for_ids : RoleService → List String → List String
role_names_for_ids roles [] = []
role_names_for_ids roles (role_id ∷ rest) =
    let names = role_names_for_ids roles rest in
    elim (get_role roles role_id) [ ok role ↦ role.name ∷ names | err _ ↦ names ]

-- The last part of three operations: the roles of the group are applied to the users.
unfoldable pub apply_roles :
    GroupMappingService → String → List String → (String → Time) → Outcome GroupRoleActionResponse
apply_roles s group_id role_ids clock =
    let names = role_names_for_ids s.role_service role_ids in
    let (updated_users, users) = apply_role_mapping s.user_service group_id names clock in
    (
      ok (record { group_id = group_id; role_ids = role_ids; updated_users = updated_users }),
      record s { user_service = users },
    )

unfoldable pub assign_role :
    GroupMappingService → String → String → (String → Time) → Outcome GroupRoleActionResponse
assign_role s group_id role_id clock =
    let group = trim_space group_id in
    let role = trim_space role_id in
    if group == "" || role == ""
    then (err group_and_role_required, s)
    else elim (get_role s.role_service role) [
      | err e ↦ (err (role_error e), s)
      | ok _ ↦
          let ids = put (mapping_of s group) role tt in
          apply_roles (record s { mappings = put s.mappings group ids }) group (map_keys ids) clock
    ]

-- A group with no role left is taken out of the map.
unfoldable pub without_role : GroupMappingService → String → Set → GroupMappingService
without_role s group ids =
    if nat_eq (length ids) 0
    then record s { mappings = delete s.mappings group }
    else record s { mappings = put s.mappings group ids }

unfoldable pub unassign_role :
    GroupMappingService → String → String → (String → Time) → Outcome GroupRoleActionResponse
unassign_role s group_id role_id clock =
    let group = trim_space group_id in
    let role = trim_space role_id in
    if group == "" || role == ""
    then (err group_and_role_required, s)
    else elim (get s.mappings group) [
      | none ↦ (err mapping_not_found, s)
      | some mapped ↦
          let ids = delete mapped role in
          apply_roles (without_role s group ids) group (map_keys ids) clock
    ]

unfoldable pub get_group_roles : GroupMappingService → String → Result GroupError GroupRoleMapping
get_group_roles s group_id =
    let group = trim_space group_id in
    if group == ""
    then err group_id_required
    else let role_ids = map_keys (mapping_of s group) in
      if nat_eq (length role_ids) 0
      then err mapping_not_found
      else ok (record { group_id = group; role_ids = role_ids })

-- `clock` serves the reconciliation, `clock'` the application of the roles after it.
unfoldable pub reconcile_group_members :
    GroupMappingService
    → String
    → List String
    → (String → Time)
    → (String → Time)
    → Outcome GroupRoleActionResponse
reconcile_group_members s group_id member_user_ids clock clock' =
    let group = trim_space group_id in
    if group == ""
    then (err group_id_required, s)
    else let (result, users) =
        reconcile_group_membership s.user_service group member_user_ids clock in
      elim result [
        | err e ↦ (err (user_error e), record s { user_service = users })
        | ok _ ↦
            apply_roles (record s { user_service = users }) group (map_keys (mapping_of s group))
              clock'
      ]
