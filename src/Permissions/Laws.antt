-- ===== src/Permissions/Laws.antt =====
-- What the permission operations keep: no two permissions for one resource and action.
use Prim.Native.String.{◌++◌ as append}
use bonipam.Common.{
  String, ◌≡◌, false, ◌&&◌, none, some, ◌==◌, arith, eq_iff, ok, err, Option-cases, inl, inr,
  if◌then◌else◌,
}
use bonipam.Go.Map.{get, get-put, get-delete, any_entry_miss}
use bonipam.Go.Text.{trim_space, to_lower}
use bonipam.Go.Time.{Time}
use bonipam.Permissions.Types.{
  Permission, CreatePermissionRequest, UpdatePermissionRequest, permission_not_found,
  PermissionService,
}
use bonipam.Permissions.Service.{
  new_permission, create_permission, get_permission, updated_permission, update_permission,
  delete_permission, exists,
}

-- One call of an operation that changes the permissions.
pub data Step (s : PermissionService) : PermissionService → Type 0 where
  create :
      (req : CreatePermissionRequest) (id : String) (now : Time)
      → Step s (create_permission s req id now).1
  update :
      (permission_id : String) (req : UpdatePermissionRequest) (now : Time)
      → Step s (update_permission s permission_id req now).1
  remove : (permission_id : String) → Step s (delete_permission s permission_id).1

pub data Reach (s : PermissionService) : PermissionService → Type 0 where
  here : Reach s s
  next : {t u : PermissionService} → Reach s t → Step t u → Reach s u

abbrev pub HasUniquePairs : PermissionService → Type 0
HasUniquePairs s =
    (j k : String) (a b : Permission)
    → get s.permissions j ≡ some a
    → get s.permissions k ≡ some b
    → a.resource ≡ b.resource
    → a.action ≡ b.action
    → j ≡ k

create-HasUniquePairs :
    (s : PermissionService) (req : CreatePermissionRequest) (id : String) (now : Time)
    → HasUniquePairs s
    → HasUniquePairs (create_permission s req id now).1
unfolding create_permission new_permission
create-HasUniquePairs s req id now unique j k a b at_j at_k same_resource same_action =
    let resource = trim_space (to_lower req.resource) in
    let action = trim_space (to_lower req.action) in
    let key = append "prm-" id in
    let perm = new_permission req resource action id now in
    let clash = λ (_ : String) (existing : Permission).
      existing.resource == resource && existing.action == action in
    ground (
      arith,
      get-put s.permissions key j perm,
      get-put s.permissions key k perm,
      eq_iff key j,
      eq_iff key k,
      eq_iff a.resource resource,
      eq_iff b.resource resource,
      eq_iff a.action action,
      eq_iff b.action action,
      any_entry_miss clash s.permissions j a,
      any_entry_miss clash s.permissions k b,
      unique j k a b,
    )

update-HasUniquePairs :
    (s : PermissionService) (permission_id : String) (req : UpdatePermissionRequest) (now : Time)
    → HasUniquePairs s
    → HasUniquePairs (update_permission s permission_id req now).1
unfolding update_permission updated_permission
update-HasUniquePairs s permission_id req now unique j k a b at_j at_k same_resource same_action =
    elim (Option-cases (get s.permissions permission_id)) [
      | inl missing ↦ ground (arith, unique j k a b)
      | inr (p, at) ↦ ground (
        arith,
        get-put s.permissions permission_id j (updated_permission p req now),
        get-put s.permissions permission_id k (updated_permission p req now),
        eq_iff permission_id j,
        eq_iff permission_id k,
        unique j k a b,
        unique permission_id k p b,
        unique j permission_id a p,
      )
    ]

delete-HasUniquePairs :
    (s : PermissionService) (permission_id : String)
    → HasUniquePairs s
    → HasUniquePairs (delete_permission s permission_id).1
unfolding delete_permission
delete-HasUniquePairs s permission_id unique j k a b at_j at_k same_resource same_action = ground (
  arith,
  get-delete s.permissions permission_id j,
  get-delete s.permissions permission_id k,
  eq_iff permission_id j,
  eq_iff permission_id k,
  unique j k a b,
)

-- Over any run of the permission service no two permissions come to be for one resource and action.
pub Reach-HasUniquePairs :
    {s t : PermissionService} → Reach s t → HasUniquePairs s → HasUniquePairs t
Reach-HasUniquePairs here h = h
Reach-HasUniquePairs (next {t} r (create req id now)) h =
    create-HasUniquePairs t req id now (Reach-HasUniquePairs r h)
Reach-HasUniquePairs (next {t} r (update permission_id req now)) h =
    update-HasUniquePairs t permission_id req now (Reach-HasUniquePairs r h)
Reach-HasUniquePairs (next {t} r (remove permission_id)) h =
    delete-HasUniquePairs t permission_id (Reach-HasUniquePairs r h)

-- A deletion that succeeds makes the permission unknown to `exists`, to a lookup and to a second
-- deletion, and leaves every other permission.
pub delete_permission-exact :
    (s : PermissionService) (k : String)
    → (delete_permission s k).0 ≡ ok tt
    → (exists (delete_permission s k).1 k ≡ false)
      × (get_permission (delete_permission s k).1 k ≡ err permission_not_found)
      × ((delete_permission (delete_permission s k).1 k).0 ≡ err permission_not_found)
      × ((j : String)
          → get (delete_permission s k).1.permissions j
            ≡ (if k == j then none else get s.permissions j))
unfolding delete_permission exists get_permission
delete_permission-exact s k done = (
  ground (arith, get-delete s.permissions k k, eq_iff k k),
  ground (arith, get-delete s.permissions k k, eq_iff k k),
  ground (arith, get-delete s.permissions k k, eq_iff k k),
  λ j. ground (arith, get-delete s.permissions k j),
)
