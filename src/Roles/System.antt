-- ===== src/Roles/System.antt =====
-- A system role cannot be removed.
use Prim.Native.String.{◌++◌ as append}
use bonipam.Common.{
  String, ◌≡◌, true, none, some, ◌==◌, arith, eq_iff, Option-cases, inl, inr, Bool-cases,
}
use bonipam.Go.Map.{get, get-put, get-delete}
use bonipam.Go.Text.{trim_space, to_lower}
use bonipam.Go.Time.{Time}
use bonipam.Roles.Types.{Role, CreateRoleRequest, UpdateRoleRequest, RoleService}
use bonipam.Roles.Service.{new_role, create_role, updated_role, update_role, delete_role}
use bonipam.Roles.Laws.{create, update, remove, Reach, here, next}

-- A system role with its name stands at `k`.
abbrev pub HasSystemRole : RoleService → String → String → Type 0
HasSystemRole s k name =
    (role : Role) × (get s.roles k ≡ some role) × (role.is_system ≡ true) × (role.name ≡ name)

create-HasSystemRole :
    (s : RoleService) (req : CreateRoleRequest) (id : String) (now : Time) (k name : String)
    → get s.roles (append "rol-" id) ≡ none
    → HasSystemRole s k name
    → HasSystemRole (create_role s req id now).1 k name
unfolding create_role
create-HasSystemRole s req id now k name unused (role, at, system, named) = (
  role,
  ground (
    arith,
    eq_iff (append "rol-" id) k,
    get-put s.roles (append "rol-" id) k (new_role req (trim_space (to_lower req.name)) id now),
  ),
  system,
  named,
)

update-HasSystemRole :
    (s : RoleService) (role_id : String) (req : UpdateRoleRequest) (now : Time) (k name : String)
    → HasSystemRole s k name
    → HasSystemRole (update_role s role_id req now).1 k name
unfolding update_role updated_role
update-HasSystemRole s role_id req now k name (role, at, system, named) =
    elim (Option-cases (get s.roles role_id)) [
      | inl missing ↦ (role, ground arith, system, named)
      | inr (r, at_r) ↦
          let written = get-put s.roles role_id k (updated_role r req now) in
          elim (Bool-cases (role_id == k)) [
            | inl same ↦ (
              updated_role r req now,
              ground (arith, written),
              ground (arith, eq_iff role_id k),
              ground (arith, eq_iff role_id k),
            )
            | inr other ↦ (role, ground (arith, written), system, named)
          ]
    ]

delete-HasSystemRole :
    (s : RoleService) (role_id k name : String)
    → HasSystemRole s k name
    → HasSystemRole (delete_role s role_id).1 k name
unfolding delete_role
delete-HasSystemRole s role_id k name (role, at, system, named) =
    (role, ground (arith, eq_iff role_id k, get-delete s.roles role_id k), system, named)

-- Over any run of the role service a system role stays under its id, with its name.
pub Reach-HasSystemRole :
    {s t : RoleService} (k name : String)
    → Reach s t
    → HasSystemRole s k name
    → HasSystemRole t k name
Reach-HasSystemRole k name here h = h
Reach-HasSystemRole k name (next {t} r (create req id now unused)) h =
    create-HasSystemRole t req id now k name unused (Reach-HasSystemRole k name r h)
Reach-HasSystemRole k name (next {t} r (update role_id req now)) h =
    update-HasSystemRole t role_id req now k name (Reach-HasSystemRole k name r h)
Reach-HasSystemRole k name (next {t} r (remove role_id)) h =
    delete-HasSystemRole t role_id k name (Reach-HasSystemRole k name r h)
