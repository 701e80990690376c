-- ===== src/Roles/Laws.antt =====
-- What the role operations keep: distinct names, and the system roles.
use Prim.Native.String.{◌++◌ as append}
use bonipam.Common.{
  String, ◌≡◌, refl, ◌&&◌, not, none, some, List, [], map, ◌==◌, arith, eq_iff, Option-cases, inl,
  inr,
}
use bonipam.Go.Map.{get, get-put, get-delete, any_entry_miss}
use bonipam.Go.Once.{has, Distinct, push_all, has-push_all, push_all-Distinct}
use bonipam.Go.Text.{trim_space, to_lower}
use bonipam.Go.Time.{Time}
use bonipam.Roles.Types.{Role, CreateRoleRequest, UpdateRoleRequest, RoleService}
use bonipam.Roles.Service.{dedupe, new_role, create_role, updated_role, update_role, delete_role}

-- One call of an operation that changes the roles. The uuid of a new role is not in use.
pub data Step (s : RoleService) : RoleService → Type 0 where
  create :
      (req : CreateRoleRequest) (id : String) (now : Time)
      → get s.roles (append "rol-" id) ≡ none
      → Step s (create_role s req id now).1
  update :
      (role_id : String) (req : UpdateRoleRequest) (now : Time)
      → Step s (update_role s role_id req now).1
  remove : (role_id : String) → Step s (delete_role s role_id).1

pub data Reach (s : RoleService) : RoleService → Type 0 where
  here : Reach s s
  next : {t u : RoleService} → Reach s t → Step t u → Reach s u

abbrev pub HasUniqueNames : RoleService → Type 0
HasUniqueNames s =
    (j k : String) (a b : Role)
    → get s.roles j ≡ some a
    → get s.roles k ≡ some b
    → a.name ≡ b.name
    → j ≡ k

create-HasUniqueNames :
    (s : RoleService) (req : CreateRoleRequest) (id : String) (now : Time)
    → HasUniqueNames s
    → HasUniqueNames (create_role s req id now).1
unfolding create_role new_role
create-HasUniqueNames s req id now unique j k a b at_j at_k same =
    let name = trim_space (to_lower req.name) in
    let key = append "rol-" id in
    let role = new_role req name id now in
    ground (
      arith,
      get-put s.roles key j role,
      get-put s.roles key k role,
      eq_iff key j,
      eq_iff key k,
      eq_iff a.name name,
      eq_iff b.name name,
      any_entry_miss (λ _ existing. existing.name == name) s.roles j a,
      any_entry_miss (λ _ existing. existing.name == name) s.roles k b,
      unique j k a b,
    )

update-HasUniqueNames :
    (s : RoleService) (role_id : String) (req : UpdateRoleRequest) (now : Time)
    → HasUniqueNames s
    → HasUniqueNames (update_role s role_id req now).1
unfolding update_role updated_role
update-HasUniqueNames s role_id req now unique j k a b at_j at_k same =
    elim (Option-cases (get s.roles role_id)) [
      | inl missing ↦ ground (arith, unique j k a b)
      | inr (r, at) ↦ ground (
        arith,
        get-put s.roles role_id j (updated_role r req now),
        get-put s.roles role_id k (updated_role r req now),
        eq_iff role_id j,
        eq_iff role_id k,
        unique j k a b,
        unique role_id k r b,
        unique j role_id a r,
      )
    ]

delete-HasUniqueNames :
    (s : RoleService) (role_id : String)
    → HasUniqueNames s
    → HasUniqueNames (delete_role s role_id).1
unfolding delete_role
delete-HasUniqueNames s role_id unique j k a b at_j at_k same = ground (
  arith,
  get-delete s.roles role_id j,
  get-delete s.roles role_id k,
  eq_iff role_id j,
  eq_iff role_id k,
  unique j k a b,
)

-- Over any run of the role service no two roles come to share a name.
pub Reach-HasUniqueNames : {s t : RoleService} → Reach s t → HasUniqueNames s → HasUniqueNames t
Reach-HasUniqueNames here h = h
Reach-HasUniqueNames (next {t} r (create req id now unused)) h =
    create-HasUniqueNames t req id now (Reach-HasUniqueNames r h)
Reach-HasUniqueNames (next {t} r (update role_id req now)) h =
    update-HasUniqueNames t role_id req now (Reach-HasUniqueNames r h)
Reach-HasUniqueNames (next {t} r (remove role_id)) h =
    delete-HasUniqueNames t role_id (Reach-HasUniqueNames r h)

-- The permissions of a stored role: the trimmed texts of the request that are not empty, each once.
pub dedupe-exact :
    (values : List String)
    → (result : List String) × (dedupe (some values) ≡ some result)
      × Distinct result
      × ((v : String) → has result v ≡ (not (v == "") && has (map trim_space values) v))
unfolding dedupe
dedupe-exact values =
    let trimmed = map trim_space values in
    (
      push_all [] trimmed,
      refl,
      push_all-Distinct [] trimmed tt,
      λ v. unfold has in has-push_all [] trimmed v,
    )
