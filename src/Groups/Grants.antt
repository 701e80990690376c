-- ===== src/Groups/Grants.antt =====
-- What assigning and unassigning a role does to the users, member by member.
use bonipam.Common.{
  String, ◌≡◌, ◌≢◌, refl, true, false, ◌||◌, some, List, [], ◌∷◌, map, ◌==◌, arith, eq_iff, eq_refl,
  ok, Result-cases, Option-cases, inl, inr, ◌∙◌,
}
use bonipam.Go.Map.{get, put, keys, delete}
use bonipam.Go.Sort.{sort_slice, insert}
use bonipam.Go.Text.{trim_space, text_less}
use bonipam.Go.Text.Trimmed.{trim_space_twice}
use bonipam.Go.Time.{Time}
use bonipam.Roles.Types.{Role, RoleService}
use bonipam.Roles.Service.{get_role}
use bonipam.Users.Types.{User}
use bonipam.Users.Service.{is_deleted, contains, apply_role_mapping}
use bonipam.Users.Membership.{apply_role_mapping-exact}
use bonipam.Groups.Types.{Set, GroupMappingService, GroupRoleActionResponse}
use bonipam.Groups.Service.{
  map_keys, mapping_of, role_names_for_ids, apply_roles, assign_role, without_role, unassign_role,
}

contains-insert :
    (x : String) (xs : List String) (v : String)
    → contains (insert text_less x xs) v ≡ (x == v || contains xs v)
unfolding contains insert
contains-insert x [] v = ground arith
contains-insert x (y ∷ ys) v = ground (arith, contains-insert x ys v)

contains-sort_slice :
    (xs : List String) (v : String) → contains (sort_slice text_less xs) v ≡ contains xs v
unfolding contains sort_slice
contains-sort_slice [] v = refl
contains-sort_slice (x ∷ xs) v =
    ground (arith, contains-insert x (sort_slice text_less xs) v, contains-sort_slice xs v)

contains-keys-put : (ids : Set) (k : String) → contains (keys (put ids k tt)) k ≡ true
unfolding contains keys put
contains-keys-put [] k = ground (arith, eq_iff k k)
contains-keys-put ((j, u) ∷ ids) k = ground (arith, eq_iff k k, eq_iff j k, contains-keys-put ids k)

contains-map_keys-put : (ids : Set) (k : String) → contains (map_keys (put ids k tt)) k ≡ true
unfolding map_keys
contains-map_keys-put ids k = contains-sort_slice _ k ∙ contains-keys-put ids k

-- The name of a role that is found stands among the names for the ids.
contains-role_names :
    (roles : RoleService) (ids : List String) (k : String) (role : Role)
    → get_role roles k ≡ ok role
    → contains ids k ≡ true
    → contains (map trim_space (role_names_for_ids roles ids)) (trim_space role.name) ≡ true
unfolding contains role_names_for_ids
contains-role_names roles [] k role found h = cc
contains-role_names roles (id ∷ ids) k role found h =
    ground (
      arith,
      eq_iff id k,
      eq_refl (trim_space role.name),
      contains-role_names roles ids k role found,
    )

module _ (s : GroupMappingService) (group_id role_id : String) (clock : String → Time) where
  assign_role-users :
      (r : GroupRoleActionResponse)
      → (assign_role s group_id role_id clock).0 ≡ ok r
      → (assign_role s group_id role_id clock).1.user_service
        ≡ (apply_role_mapping s.user_service
            (trim_space group_id)
            (role_names_for_ids s.role_service
              (map_keys (put (mapping_of s (trim_space group_id)) (trim_space role_id) tt)))
            clock).1
  unfolding assign_role apply_roles
  assign_role-users r h = ground arith

  assign_role-found :
      (r : GroupRoleActionResponse)
      → (assign_role s group_id role_id clock).0 ≡ ok r
      → (trim_space group_id ≢ "")
        × ((role : Role) × (get_role s.role_service (trim_space role_id) ≡ ok role))
  unfolding assign_role
  assign_role-found r h = elim (Result-cases (get_role s.role_service (trim_space role_id))) [
    | inl (role, found) ↦ (ground (arith, eq_iff (trim_space group_id) ""), (role, found))
    | inr (e, missing) ↦ absurd (ground arith)
  ]

  unassign_role-users :
      (r : GroupRoleActionResponse)
      → (unassign_role s group_id role_id clock).0 ≡ ok r
      → (g : trim_space group_id ≢ "") × (names : List String) × ((unassign_role s group_id role_id
            clock).1.user_service
          ≡ (apply_role_mapping s.user_service (trim_space group_id) names clock).1)
  unfolding unassign_role apply_roles without_role
  unassign_role-users r h = elim (Option-cases (get s.mappings (trim_space group_id))) [
    | inl missing ↦ absurd (ground arith)
    | inr (mapped, at) ↦ (
      ground (arith, eq_iff (trim_space group_id) ""),
      role_names_for_ids s.role_service (map_keys (delete mapped (trim_space role_id))),
      ground arith,
    )
  ]

module _ (s : GroupMappingService) (group_id role_id : String) (clock : String → Time)
    (r : GroupRoleActionResponse) (k : String) (u : User) (at : get s.user_service.users k ≡ some u)
    (live : is_deleted u ≡ false) where
  -- After a role with a name that is not blank is assigned to a group, a user that is not deleted has
  -- the trimmed name of the role exactly if it is in the group: a member gets it, and another user
  -- loses it, wherever it had it from. The user's groups are as before.
  pub assign_role-exact :
      (role : Role)
      → (assign_role s group_id role_id clock).0 ≡ ok r
      → get_role s.role_service (trim_space role_id) ≡ ok role
      → trim_space role.name ≢ ""
      → (u' : User) × (get (assign_role s group_id role_id clock).1.user_service.users k ≡ some u')
        × (contains u'.roles (trim_space role.name) ≡ contains u.groups (trim_space group_id))
        × (u'.groups ≡ u.groups)
  assign_role-exact role done found named =
      let g = trim_space group_id in
      let ids = map_keys (put (mapping_of s g) (trim_space role_id) tt) in
      let names = role_names_for_ids s.role_service ids in
      let given : trim_space g ≢ "" =
        rw trim_space_twice (assign_role-found s group_id role_id clock r done).0 in
      let (u', at', roles, groups, alive) =
        apply_role_mapping-exact s.user_service g names clock k u given at live in
      (
        u',
        rw (assign_role-users s group_id role_id clock r done) at',
        ground (
          arith,
          roles (trim_space role.name),
          trim_space_twice group_id,
          eq_iff (trim_space role.name) "",
          contains-role_names s.role_service ids (trim_space role_id) role found
              (contains-map_keys-put (mapping_of s g) (trim_space role_id)),
        ),
        groups,
      )

  -- Unassigning a role takes no role from a member of the group: each role that a member had before,
  -- the unassigned one included, it has after.
  pub unassign_role-keeps_member_roles :
      (name : String)
      → (unassign_role s group_id role_id clock).0 ≡ ok r
      → contains u.groups (trim_space group_id) ≡ true
      → contains u.roles name ≡ true
      → (u' : User) × (get (unassign_role s group_id role_id clock).1.user_service.users k
          ≡ some u')
        × (contains u'.roles name ≡ true)
  unassign_role-keeps_member_roles name done member had =
      let (given, names, users) = unassign_role-users s group_id role_id clock r done in
      let (u', at', roles, groups, alive) =
        apply_role_mapping-exact s.user_service (trim_space group_id) names clock k u
          (rw trim_space_twice given) at live in
      (u', rw users at', ground (arith, roles name, trim_space_twice group_id))
