-- ===== src/Examples/Access.antt =====
-- Roles, permissions and group mappings (backend/internal/service/role_service.go,
-- permission_service.go, group_mapping_service.go), and what the theorems say of them.
use bonipam.Common.{◌≡◌, refl, true, false, none, some, [], ◌∷◌, arith, eq_iff}
use bonipam.Common.Int.{pos}
use bonipam.Go.Map.{get, put, values, keys}
use bonipam.Go.Text.{trim_space}
use bonipam.Examples.{differ}
use bonipam.Examples.Users.{ann, staff, noon}
use bonipam.Users.Types.{User}
use bonipam.Users.Service.{contains}
use bonipam.Roles.Types.{Role, RoleService, CreateRoleRequest}
use bonipam.Roles.Service.{create_role, delete_role, get_role}
use bonipam.Roles.Laws as Roles
use bonipam.Roles.Laws.{HasUniqueNames, Reach-HasUniqueNames, dedupe-exact}
use bonipam.Roles.System.{HasSystemRole, Reach-HasSystemRole}
use bonipam.Permissions.Types.{Permission, PermissionService, CreatePermissionRequest}
use bonipam.Permissions.Service.{create_permission}
use bonipam.Permissions.Laws as Permissions
use bonipam.Permissions.Laws.{HasUniquePairs, Reach-HasUniquePairs, delete_permission-exact}
use bonipam.Groups.Types.{GroupMappingService}
use bonipam.Groups.Service.{assign_role, unassign_role}
use bonipam.Groups.Grants.{assign_role-exact, unassign_role-keeps_member_roles}

abbrev viewer : Role
viewer = record {
  id = "rol-1";
  name = "Viewer";
  description = "";
  permissions = some ("read" ∷ []);
  is_system = true;
  created_at = pos 1;
  updated_at = pos 1;
}

abbrev role_store : RoleService
role_store = record { roles = ("rol-1", viewer) ∷ [] }

abbrev auditor_request : CreateRoleRequest
auditor_request = record {
  name = " Auditor";
  description = "";
  permissions = none;
  is_system = false;
}

role_store-HasUniqueNames : HasUniqueNames role_store
unfolding get
role_store-HasUniqueNames j k a b at_j at_k same =
    ground (arith, eq_iff "rol-1" j, eq_iff "rol-1" k)

Reach-HasUniqueNames_example : HasUniqueNames (create_role role_store auditor_request "2" (pos 2)).1
unfolding get
Reach-HasUniqueNames_example =
    Reach-HasUniqueNames {s = role_store}
      (Roles.Reach.next Roles.Reach.here (Roles.Step.create auditor_request "2" (pos 2) refl))
      role_store-HasUniqueNames

Reach-HasSystemRole_example : HasSystemRole (delete_role role_store "rol-1").1 "rol-1" "Viewer"
unfolding get
Reach-HasSystemRole_example =
    Reach-HasSystemRole {s = role_store} "rol-1" "Viewer"
      (Roles.Reach.next Roles.Reach.here (Roles.Step.remove "rol-1")) (viewer, refl, refl, refl)

abbrev read_vault : Permission
read_vault = record {
  id = "prm-1";
  resource = "vault";
  action = "read";
  constraints = none;
  created_at = pos 1;
  updated_at = pos 1;
}

abbrev permission_store : PermissionService
permission_store = record { permissions = ("prm-1", read_vault) ∷ [] }

abbrev write_vault : CreatePermissionRequest
write_vault = record { resource = "Vault "; action = "write"; constraints = none }

permission_store-HasUniquePairs : HasUniquePairs permission_store
unfolding get
permission_store-HasUniquePairs j k a b at_j at_k same_resource same_action =
    ground (arith, eq_iff "prm-1" j, eq_iff "prm-1" k)

Reach-HasUniquePairs_example :
    HasUniquePairs (create_permission permission_store write_vault "2" (pos 2)).1
Reach-HasUniquePairs_example =
    Reach-HasUniquePairs {s = permission_store}
      (Permissions.Reach.next Permissions.Reach.here
        (Permissions.Step.create write_vault "2" (pos 2)))
      permission_store-HasUniquePairs

abbrev mappings : GroupMappingService
mappings = record {
  mappings = ("ops", ("rol-1", tt) ∷ []) ∷ [];
  role_service = role_store;
  user_service = staff;
}

assign_role-exact_example :
    (u' : User) × (get (assign_role mappings "ops" "rol-1" noon).1.user_service.users "usr-1"
      ≡ some u')
    × (contains u'.roles (trim_space "Viewer") ≡ contains ann.groups (trim_space "ops"))
    × (u'.groups ≡ ann.groups)
unfolding get assign_role trim_space get_role bonipam.Groups.Service.apply_roles
    bonipam.Groups.Service.map_keys bonipam.Users.Service.apply_role_mapping
    bonipam.Go.Sort.sort_slice bonipam.Go.Map.count_updates keys
    bonipam.Users.Service.map_user_roles put bonipam.Users.Service.equal_slices contains
    bonipam.Users.Service.add_roles bonipam.Groups.Service.role_names_for_ids
    bonipam.Users.Service.remove_roles bonipam.Users.Service.remove_value
assign_role-exact_example =
    assign_role-exact mappings "ops" "rol-1" noon
      (record { group_id = "ops"; role_ids = "rol-1" ∷ []; updated_users = 0 }) "usr-1" ann refl
      refl viewer refl refl (differ (trim_space "Viewer") "" refl)

unassign_role-keeps_member_roles_example :
    (u' : User) × (get (unassign_role mappings "ops" "rol-1" noon).1.user_service.users "usr-1"
      ≡ some u')
    × (contains u'.roles "Viewer" ≡ true)
unfolding get unassign_role trim_space bonipam.Groups.Service.apply_roles
    bonipam.Groups.Service.map_keys bonipam.Users.Service.apply_role_mapping
    bonipam.Go.Sort.sort_slice bonipam.Go.Map.count_updates keys bonipam.Groups.Service.without_role
    bonipam.Go.Map.delete bonipam.Users.Service.map_user_roles bonipam.Users.Service.equal_slices
    contains bonipam.Users.Service.add_roles bonipam.Groups.Service.role_names_for_ids
    bonipam.Users.Service.remove_roles
unassign_role-keeps_member_roles_example =
    unassign_role-keeps_member_roles mappings "ops" "rol-1" noon
      (record { group_id = "ops"; role_ids = []; updated_users = 0 }) "usr-1" ann refl refl "Viewer"
      refl refl refl
