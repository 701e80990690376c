-- ===== src/Permissions/Service.antt =====
-- The operations of permission_service.go. `id` is what uuid.NewString() returns, `now` what
-- time.Now() returns.
use Prim.Native.String.{◌++◌ as append}
use bonipam.Common.{
  String, Bool, ◌&&◌, ◌||◌, none, some, List, ◌==◌, if◌then◌else◌, is_some, Result, ok, err,
}
use bonipam.Go.Map.{get, put, delete, any_entry, values}
use bonipam.Go.Sort.{sort_slice}
use bonipam.Go.Text.{trim_space, to_lower, text_less}
use bonipam.Go.Time.{Time}
use bonipam.Permissions.Types.{
  Permission, CreatePermissionRequest, UpdatePermissionRequest, PermissionError,
  resource_and_action_required, permission_exists, permission_not_found, PermissionService,
}

abbrev pub Outcome : Type 0 → Type 0
Outcome A = Result PermissionError A × PermissionService

-- The permission that CreatePermission stores.
unfoldable pub new_permission :
    CreatePermissionRequest → String → String → String → Time → Permission
new_permission req resource action id now = record {
  id = append "prm-" id;
  resource = resource;
  action = action;
  constraints = req.constraints;
  created_at = now;
  updated_at = now;
}

unfoldable pub create_permission :
    PermissionService → CreatePermissionRequest → String → Time → Outcome Permission
create_permission s req id now =
    let resource = trim_space (to_lower req.resource) in
    let action = trim_space (to_lower req.action) in
    if resource == "" || action == ""
    then (err resource_and_action_required, s)
    else if any_entry (λ k existing. existing.resource == resource && existing.action == action)
        s.permissions
    then (err permission_exists, s)
    else let perm = new_permission req resource action id now in
      (ok perm, record s { permissions = put s.permissions (append "prm-" id) perm })

unfoldable pub listed_before : Permission → Permission → Bool
listed_before a b =
    if a.resource == b.resource
    then text_less a.action b.action
    else text_less a.resource b.resource

unfoldable pub list_permissions : PermissionService → List Permission
list_permissions s = sort_slice listed_before (values s.permissions)

unfoldable pub get_permission : PermissionService → String → Result PermissionError Permission
get_permission s permission_id = elim (get s.permissions permission_id) [
  | none ↦ err permission_not_found
  | some permission ↦ ok permission
]

-- The permission that UpdatePermission writes back.
unfoldable pub updated_permission : Permission → UpdatePermissionRequest → Time → Permission
updated_permission permission req now = record permission {
  constraints = if is_some req.constraints then req.constraints else permission.constraints;
  updated_at = now;
}

unfoldable pub update_permission :
    PermissionService → String → UpdatePermissionRequest → Time → Outcome Permission
update_permission s permission_id req now = elim (get s.permissions permission_id) [
  | none ↦ (err permission_not_found, s)
  | some permission ↦
      let permission' = updated_permission permission req now in
      (ok permission', record s { permissions = put s.permissions permission_id permission' })
]

unfoldable pub delete_permission : PermissionService → String → Outcome Unit
delete_permission s permission_id = elim (get s.permissions permission_id) [
  | none ↦ (err permission_not_found, s)
  | some _ ↦ (ok tt, record s { permissions = delete s.permissions permission_id })
]

unfoldable pub exists : PermissionService → String → Bool
exists s permission_id = is_some (get s.permissions permission_id)
