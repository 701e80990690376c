-- ===== src/Users/Service.antt =====
-- The operations of user_service.go. `id` is what uuid.NewString() returns; a `now` is what time.Now()
-- returns, and `clock` what it returns while the user with a given id is visited.
use Prim.Native.String.{◌++◌ as append}
use bonipam.Common.{
  ℕ, String, Bool, true, false, ◌&&◌, ◌||◌, not, Option, none, some, List, [], ◌∷◌, ◌++◌, map, ◌==◌,
  if◌then◌else◌, is_some, Result, ok, err,
}
use bonipam.Common.Lists.{filter}
use bonipam.Go.Map.{get, put, any_entry, values, or_else, update_entries, count_updates}
use bonipam.Go.Sort.{sort_slice}
use bonipam.Go.Text.{trim_space}
use bonipam.Go.Time.{Time, before}
use bonipam.Users.Types.{
  User, CreateUserRequest, UpdateUserRequest, UserError, email_and_name_required, email_exists,
  group_id_required, user_not_found, user_already_deleted, user_not_deleted, UserService,
}

abbrev pub Outcome : Type 0 → Type 0
Outcome A = Result UserError A × UserService

abbrev pub is_deleted : User → Bool
is_deleted user = is_some user.deleted_at

unfoldable pub contains : List String → String → Bool
contains [] target = false
contains (value ∷ rest) target = value == target || contains rest target

unfoldable pub remove_value : List String → String → List String
remove_value [] target = []
remove_value (value ∷ rest) target =
    let filtered = remove_value rest target in
    if value == target then filtered else value ∷ filtered

unfoldable pub equal_slices : List String → List String → Bool
equal_slices [] [] = true
equal_slices [] (y ∷ ys) = false
equal_slices (x ∷ xs) [] = false
equal_slices (x ∷ xs) (y ∷ ys) = x == y && equal_slices xs ys

-- A new service holds one user, the administrator.
unfoldable pub new_user_service : Time → Time → UserService
new_user_service created updated =
    let admin : User = record {
      id = "usr-admin-001";
      external_id = "";
      email = "admin@bonipam.local";
      display_name = "System Administrator";
      groups = "admin" ∷ "security-ops" ∷ [];
      roles = "SuperAdmin" ∷ [];
      status = "active";
      created_at = created;
      updated_at = updated;
      deleted_at = none;
    } in
    record { users = put [] "usr-admin-001" admin }

-- The user that CreateUser stores.
unfoldable pub new_user : CreateUserRequest → String → Time → User
new_user req id now = record {
  id = append "usr-" id;
  external_id = req.external_id;
  email = req.email;
  display_name = req.display_name;
  groups = req.groups;
  roles = [];
  status = "active";
  created_at = now;
  updated_at = now;
  deleted_at = none;
}

unfoldable pub takes_email : String → String → User → Bool
takes_email email user_id existing = existing.email == email && not (is_deleted existing)

unfoldable pub create_user : UserService → CreateUserRequest → String → Time → Outcome User
create_user s req id now =
    if req.email == "" || req.display_name == ""
    then (err email_and_name_required, s)
    else if any_entry (takes_email req.email) s.users
    then (err email_exists, s)
    else let user = new_user req id now in
      (ok user, record s { users = put s.users (append "usr-" id) user })

-- What the loop of ReconcileGroupMembership writes back for one user, if anything.
unfoldable pub reconcile_user : String → List String → (String → Time) → String → User → Option User
reconcile_user group_id member_set clock user_id user =
    if is_deleted user
    then none
    else let should_be_member = contains member_set user_id in
      let has_group = contains user.groups group_id in
      if should_be_member && not has_group
      then some (record user { groups = user.groups ++ group_id ∷ []; updated_at = clock user_id })
      else if not should_be_member && has_group
      then some
          (record user { groups = remove_value user.groups group_id; updated_at = clock user_id })
      else none

unfoldable pub reconcile_group_membership :
    UserService → String → List String → (String → Time) → Outcome ℕ
reconcile_group_membership s group_id member_user_ids clock =
    let group = trim_space group_id in
    if group == ""
    then (err group_id_required, s)
    else let visit = reconcile_user group (map trim_space member_user_ids) clock in
      (ok (count_updates visit s.users), record s { users = update_entries visit s.users })

-- The loops over roleNames of ApplyRoleMapping, for a member and for another user.
unfoldable pub add_roles : List String → List String → List String
add_roles roles [] = roles
add_roles roles (name ∷ names) =
    let role = trim_space name in
    add_roles (if not (role == "") && not (contains roles role) then roles ++ role ∷ [] else roles)
      names

unfoldable pub remove_roles : List String → List String → List String
remove_roles roles [] = roles
remove_roles roles (name ∷ names) = remove_roles (remove_value roles (trim_space name)) names

-- What the loop of ApplyRoleMapping writes back for one user, if anything.
unfoldable pub map_user_roles : String → List String → (String → Time) → String → User → Option User
map_user_roles group_id role_names clock user_id user =
    if is_deleted user
    then none
    else let roles =
        if contains user.groups group_id
        then add_roles user.roles role_names
        else remove_roles user.roles role_names in
      if not (equal_slices user.roles roles)
      then some (record user { roles = roles; updated_at = clock user_id })
      else none

unfoldable pub apply_role_mapping :
    UserService → String → List String → (String → Time) → ℕ × UserService
apply_role_mapping s group_id role_names clock =
    let group = trim_space group_id in
    if group == ""
    then (0, s)
    else let visit = map_user_roles group role_names clock in
      (count_updates visit s.users, record s { users = update_entries visit s.users })

unfoldable pub created_before : User → User → Bool
created_before a b = before a.created_at b.created_at

unfoldable pub list_users : UserService → Bool → List User
list_users s include_deleted =
    sort_slice created_before (filter (λ u. include_deleted || not (is_deleted u)) (values s.users))

unfoldable pub get_user : UserService → String → Bool → Result UserError User
get_user s user_id include_deleted = elim (get s.users user_id) [
  | none ↦ err user_not_found
  | some user ↦ if not include_deleted && is_deleted user then err user_not_found else ok user
]

-- The user that UpdateUser writes back.
unfoldable pub updated_user : User → UpdateUserRequest → Time → User
updated_user user req now = record user {
  display_name = if req.display_name == "" then user.display_name else req.display_name;
  groups = or_else req.groups user.groups;
  status = if req.status == "" then user.status else req.status;
  updated_at = now;
}

unfoldable pub update_user : UserService → String → UpdateUserRequest → Time → Outcome User
update_user s user_id req now = elim (get s.users user_id) [
  | none ↦ (err user_not_found, s)
  | some user ↦
      if is_deleted user
      then (err user_not_found, s)
      else let user' = updated_user user req now in
        (ok user', record s { users = put s.users user_id user' })
]

unfoldable pub deleted_user : User → Time → User
deleted_user user now = record user { status = "deleted"; updated_at = now; deleted_at = some now }

unfoldable pub soft_delete_user : UserService → String → Time → Outcome User
soft_delete_user s user_id now = elim (get s.users user_id) [
  | none ↦ (err user_not_found, s)
  | some user ↦
      if is_deleted user
      then (err user_already_deleted, s)
      else let user' = deleted_user user now in
        (ok user', record s { users = put s.users user_id user' })
]

unfoldable pub restored_user : User → Time → User
restored_user user now = record user { status = "active"; updated_at = now; deleted_at = none }

unfoldable pub restore_user : UserService → String → Time → Outcome User
restore_user s user_id now = elim (get s.users user_id) [
  | none ↦ (err user_not_found, s)
  | some user ↦
      if not (is_deleted user)
      then (err user_not_deleted, s)
      else let user' = restored_user user now in
        (ok user', record s { users = put s.users user_id user' })
]
