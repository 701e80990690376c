-- ===== src/Roles/Service.antt =====
-- The operations of role_service.go. `id` is what uuid.NewString() returns, `now` what time.Now()
-- returns.
use Prim.Native.String.{◌++◌ as append}
use bonipam.Common.{
  String, Bool, Option, none, some, List, [], map, ◌==◌, if◌then◌else◌, is_some, Result, ok, err,
}
use bonipam.Go.Map.{get, put, delete, any_entry, values}
use bonipam.Go.Once.{push_all}
use bonipam.Go.Sort.{sort_slice}
use bonipam.Go.Text.{trim_space, to_lower}
use bonipam.Go.Time.{Time, before}
use bonipam.Roles.Types.{
  Role, CreateRoleRequest, UpdateRoleRequest, RoleError, role_name_required, role_name_exists,
  role_not_found, system_role, RoleService,
}

abbrev pub Outcome : Type 0 → Type 0
Outcome A = Result RoleError A × RoleService

-- dedupe(nil) is nil.
unfoldable pub dedupe : Option (List String) → Option (List String)
dedupe none = none
dedupe (some values) = some (push_all [] (map trim_space values))

-- The role that CreateRole stores.
unfoldable pub new_role : CreateRoleRequest → String → String → Time → Role
new_role req name id now = record {
  id = append "rol-" id;
  name = name;
  description = trim_space req.description;
  permissions = dedupe req.permissions;
  is_system = req.is_system;
  created_at = now;
  updated_at = now;
}

unfoldable pub create_role : RoleService → CreateRoleRequest → String → Time → Outcome Role
create_role s req id now =
    let name = trim_space (to_lower req.name) in
    if name == ""
    then (err role_name_required, s)
    else if any_entry (λ k existing. existing.name == name) s.roles
    then (err role_name_exists, s)
    else let role = new_role req name id now in
      (ok role, record s { roles = put s.roles (append "rol-" id) role })

unfoldable pub created_before : Role → Role → Bool
created_before a b = before a.created_at b.created_at

unfoldable pub list_roles : RoleService → List Role
list_roles s = sort_slice created_before (values s.roles)

unfoldable pub get_role : RoleService → String → Result RoleError Role
get_role s role_id = elim (get s.roles role_id) [ none ↦ err role_not_found | some role ↦ ok role ]

-- The role that UpdateRole writes back.
unfoldable pub updated_role : Role → UpdateRoleRequest → Time → Role
updated_role role req now = record role {
  description = if req.description == "" then role.description else trim_space req.description;
  permissions = if is_some req.permissions then dedupe req.permissions else role.permissions;
  updated_at = now;
}

unfoldable pub update_role : RoleService → String → UpdateRoleRequest → Time → Outcome Role
update_role s role_id req now = elim (get s.roles role_id) [
  | none ↦ (err role_not_found, s)
  | some role ↦
      let role' = updated_role role req now in
      (ok role', record s { roles = put s.roles role_id role' })
]

unfoldable pub delete_role : RoleService → String → Outcome Unit
delete_role s role_id = elim (get s.roles role_id) [
  | none ↦ (err role_not_found, s)
  | some role ↦
      if role.is_system
      then (err system_role, s)
      else (ok tt, record s { roles = delete s.roles role_id })
]
