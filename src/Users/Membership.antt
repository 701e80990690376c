-- ===== src/Users/Membership.antt =====
-- What the two loops over all users do: group membership and mapped roles, user by user.
use mathlib.Core.Option
use bonipam.Common.{
  String, ◌≡◌, ◌≢◌, refl, true, false, ◌&&◌, ◌||◌, not, Option, none, some, List, [], ◌∷◌, ◌++◌,
  map, ◌==◌, arith, eq_iff, eq_refl, if◌then◌else◌, ok, ap, ◌∙◌, Bool-cases, inl, inr,
}
use bonipam.Go.Map.{Map, get, or_else, update_entries, get-update_entries, count_updates_again}
use bonipam.Go.Text.{trim_space}
use bonipam.Go.Time.{Time}
use bonipam.Users.Types.{User, UserService}
use bonipam.Users.Service.{
  is_deleted, contains, remove_value, equal_slices, reconcile_user, reconcile_group_membership,
  add_roles, remove_roles, map_user_roles, apply_role_mapping,
}

contains-append :
    (xs : List String) (y target : String)
    → contains (xs ++ y ∷ []) target ≡ (contains xs target || y == target)
unfolding contains
contains-append [] y target = ground arith
contains-append (x ∷ xs) y target = ground (arith, contains-append xs y target)

contains-remove_value :
    (xs : List String) (y target : String)
    → contains (remove_value xs y) target ≡ (contains xs target && not (y == target))
unfolding contains remove_value
contains-remove_value [] y target = refl
contains-remove_value (x ∷ xs) y target =
    ground (arith, contains-remove_value xs y target, eq_iff x y, eq_iff x target, eq_iff y target)

contains-add_roles :
    (roles names : List String) (r : String)
    → contains (add_roles roles names) r
      ≡ (contains roles r || (not (r == "") && contains (map trim_space names) r))
unfolding add_roles contains
contains-add_roles roles [] r = ground arith
contains-add_roles roles (name ∷ names) r =
    let role = trim_space name in
    let added =
      if not (role == "") && not (contains roles role) then roles ++ role ∷ [] else roles in
    ground (
      arith,
      contains-add_roles added names r,
      contains-append roles role r,
      eq_iff role "",
      eq_iff role r,
      eq_iff r "",
    )

contains-remove_roles :
    (roles names : List String) (r : String)
    → contains (remove_roles roles names) r
      ≡ (contains roles r && not (contains (map trim_space names) r))
unfolding remove_roles contains
contains-remove_roles roles [] r = ground arith
contains-remove_roles roles (name ∷ names) r = ground (
  arith,
  contains-remove_roles (remove_value roles (trim_space name)) names r,
  contains-remove_value roles (trim_space name) r,
)

equal_slices-eq : (xs ys : List String) → equal_slices xs ys ≡ true → xs ≡ ys
unfolding equal_slices
equal_slices-eq [] [] h = refl
equal_slices-eq [] (y ∷ ys) h = cc
equal_slices-eq (x ∷ xs) [] h = cc
equal_slices-eq (x ∷ xs) (y ∷ ys) h = ground (arith, eq_iff x y, equal_slices-eq xs ys)

equal_slices_self : (xs : List String) → equal_slices xs xs ≡ true
unfolding equal_slices
equal_slices_self [] = refl
equal_slices_self (x ∷ xs) = ground (arith, eq_refl x, equal_slices_self xs)

-- What a visit of reconciliation leaves of a live user.
module _ (g : String) (members : List String) (clock : String → Time) (k : String) (u : User)
    (live : is_deleted u ≡ false) where
  reconcile_user-groups :
      (h : String)
      → contains (or_else (reconcile_user g members clock k u) u).groups h
        ≡ (if g == h then contains members k else contains u.groups h)
  unfolding reconcile_user
  reconcile_user-groups h =
      ground (arith, contains-append u.groups g h, contains-remove_value u.groups g h, eq_iff g h)

  reconcile_user-rest :
      ((or_else (reconcile_user g members clock k u) u).roles ≡ u.roles)
      × ((or_else (reconcile_user g members clock k u) u).deleted_at ≡ none)
  unfolding reconcile_user
  reconcile_user-rest = ground arith

  map_user_roles-roles :
      (r : String)
      → contains (or_else (map_user_roles g members clock k u) u).roles r ≡ (
          if contains u.groups g
          then contains u.roles r || (not (r == "") && contains (map trim_space members) r)
          else contains u.roles r && not (contains (map trim_space members) r))
  unfolding map_user_roles
  map_user_roles-roles r = ground (
    arith,
    contains-add_roles u.roles members r,
    contains-remove_roles u.roles members r,
    equal_slices-eq u.roles (add_roles u.roles members),
    equal_slices-eq u.roles (remove_roles u.roles members),
  )

  map_user_roles-rest :
      ((or_else (map_user_roles g members clock k u) u).groups ≡ u.groups)
      × ((or_else (map_user_roles g members clock k u) u).deleted_at ≡ none)
  unfolding map_user_roles
  map_user_roles-rest = ground arith

  -- A second visit, at whatever time, has nothing to write.
  reconcile_user-settled :
      (later : String → Time)
      → reconcile_user g members later k (or_else (reconcile_user g members clock k u) u) ≡ none
  unfolding reconcile_user
  reconcile_user-settled later =
      ground (arith, contains-append u.groups g g, contains-remove_value u.groups g g, eq_iff g g)

reconcile_user_twice :
    (g : String) (members : List String) (clock later : String → Time) (k : String) (u : User)
    → reconcile_user g members later k (or_else (reconcile_user g members clock k u) u) ≡ none
reconcile_user_twice g members clock later k u = elim (Bool-cases (is_deleted u)) [
  | inl deleted ↦ unfold reconcile_user in ground arith
  | inr live ↦ reconcile_user-settled g members clock k u live later
]

get-visited :
    (f : String → User → Option User) (m : Map User) (k : String) (u : User)
    → get m k ≡ some u
    → get (update_entries f m) k ≡ some (or_else (f k u) u)
get-visited f m k u h = get-update_entries f m k ∙ ap (Option.map (λ v. or_else (f k v) v)) h

-- After a reconciliation with a group that is not blank, a user that is not deleted is in that group
-- exactly if the trimmed member ids name it, is in every other group as before, and has its roles.
pub reconcile_group_membership-exact :
    (s : UserService) (group_id : String) (members : List String) (clock : String → Time)
    (k : String) (u : User)
    → trim_space group_id ≢ ""
    → get s.users k ≡ some u
    → is_deleted u ≡ false
    → (u' : User) × (get (reconcile_group_membership s group_id members clock).1.users k ≡ some u')
      × ((h : String)
          → contains u'.groups h ≡ (
              if trim_space group_id == h
              then contains (map trim_space members) k
              else contains u.groups h))
      × (u'.roles ≡ u.roles)
      × (u'.deleted_at ≡ none)
unfolding reconcile_group_membership
reconcile_group_membership-exact s group_id members clock k u given at live =
    let g = trim_space group_id in
    let ids = map trim_space members in
    (
      or_else (reconcile_user g ids clock k u) u,
      ground (arith, eq_iff g "", get-visited (reconcile_user g ids clock) s.users k u at),
      reconcile_user-groups g ids clock k u live,
      (reconcile_user-rest g ids clock k u live).0,
      (reconcile_user-rest g ids clock k u live).1,
    )

-- After roles are mapped for a group that is not blank, a user that is not deleted has, as a member
-- of the group, its roles and the trimmed names that are not empty, and else its roles without
-- those names; its groups are as before.
pub apply_role_mapping-exact :
    (s : UserService) (group_id : String) (role_names : List String) (clock : String → Time)
    (k : String) (u : User)
    → trim_space group_id ≢ ""
    → get s.users k ≡ some u
    → is_deleted u ≡ false
    → (u' : User) × (get (apply_role_mapping s group_id role_names clock).1.users k ≡ some u')
      × ((r : String)
          → contains u'.roles r ≡ (
              if contains u.groups (trim_space group_id)
              then contains u.roles r || (not (r == "") && contains (map trim_space role_names) r)
              else contains u.roles r && not (contains (map trim_space role_names) r)))
      × (u'.groups ≡ u.groups)
      × (u'.deleted_at ≡ none)
unfolding apply_role_mapping
apply_role_mapping-exact s group_id names clock k u given at live =
    let g = trim_space group_id in
    (
      or_else (map_user_roles g names clock k u) u,
      ground (arith, eq_iff g "", get-visited (map_user_roles g names clock) s.users k u at),
      map_user_roles-roles g names clock k u live,
      (map_user_roles-rest g names clock k u live).0,
      (map_user_roles-rest g names clock k u live).1,
    )

-- A second reconciliation with the same group and members, at any time, changes no user.
reconcile_group_membership_again :
    (s : UserService) (group_id : String) (members : List String) (clock later : String → Time)
    → trim_space group_id ≢ ""
    → (reconcile_group_membership
        (reconcile_group_membership s group_id members clock).1
        group_id
        members
        later).0
      ≡ ok 0
unfolding reconcile_group_membership
reconcile_group_membership_again s group_id members clock later given =
    let g = trim_space group_id in
    let ids = map trim_space members in
    ground (
      arith,
      eq_iff g "",
      count_updates_again (reconcile_user g ids clock) (reconcile_user g ids later) s.users
          (λ k u. reconcile_user_twice g ids clock later k u),
    )
