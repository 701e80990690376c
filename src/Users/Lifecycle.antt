-- ===== src/Users/Lifecycle.antt =====
-- Creation, soft deletion and restoration, and the emails of the users that are not deleted.
use mathlib.Core.List.{Perm}
use bonipam.Common.{String, ◌≡◌, ◌≢◌, true, false, ◌||◌, not, some, arith, eq_iff, ok, err, Bool}
use bonipam.Common.Lists.{filter}
use bonipam.Go.Map.{get, get-put, any_entry_miss, values}
use bonipam.Go.Sort.{sort_slice-perm, sort_slice-InOrder, InOrder, IsWeakOrder}
use bonipam.Go.Time.{Time}
use bonipam.Users.Types.{User, CreateUserRequest, UpdateUserRequest, user_not_found, UserService}
use bonipam.Users.Service.{
  is_deleted, new_user, takes_email, create_user, update_user, deleted_user, soft_delete_user,
  restored_user, restore_user, get_user, list_users, created_before,
}
use Prim.Native.String.{◌++◌ as append}

-- No two users that are not deleted share an email.
abbrev pub HasUniqueEmails : UserService → Type 0
HasUniqueEmails s =
    (j k : String) (u v : User)
    → get s.users j ≡ some u
    → get s.users k ≡ some v
    → is_deleted u ≡ false
    → is_deleted v ≡ false
    → u.email ≡ v.email
    → j ≡ k

-- Emails stay unique over a creation.
pub create_user-HasUniqueEmails :
    (s : UserService) (req : CreateUserRequest) (id : String) (now : Time)
    → HasUniqueEmails s
    → HasUniqueEmails (create_user s req id now).1
unfolding create_user new_user takes_email
create_user-HasUniqueEmails s req id now unique j k u v at_j at_k live_u live_v same =
    let key = append "usr-" id in
    ground (
      arith,
      get-put s.users key j (new_user req id now),
      get-put s.users key k (new_user req id now),
      eq_iff key j,
      eq_iff key k,
      eq_iff u.email req.email,
      eq_iff v.email req.email,
      any_entry_miss (takes_email req.email) s.users j u,
      any_entry_miss (takes_email req.email) s.users k v,
      unique j k u v,
    )

-- A restoration makes a live user with the email of another one, if that one took the email while
-- the first was deleted: the emails are then not unique.
pub restore_user-not-HasUniqueEmails :
    (s : UserService) (j k : String) (u v : User) (now : Time)
    → get s.users j ≡ some u
    → get s.users k ≡ some v
    → is_deleted u ≡ true
    → is_deleted v ≡ false
    → u.email ≡ v.email
    → ¬ HasUniqueEmails (restore_user s j now).1
unfolding restore_user restored_user
restore_user-not-HasUniqueEmails s j k u v now at_j at_k gone live same unique =
    let differ : j ≢ k = λ e. ground (arith) in
    let restored = restored_user u now in
    differ (
      unique j k restored v (ground (arith, get-put s.users j j restored, eq_iff j j))
        (ground (arith, get-put s.users j k restored, eq_iff j k)) (ground arith) live
        (ground arith))

-- Deleting a user and restoring it gives the user back under its id, with the status "active" and
-- the time of the restoration, and all else as before.
restore_user-soft_delete_user :
    (s : UserService) (k : String) (u : User) (deleted restored : Time)
    → get s.users k ≡ some u
    → is_deleted u ≡ false
    → (restore_user (soft_delete_user s k deleted).1 k restored).0
      ≡ ok (record u { status = "active"; updated_at = restored })
unfolding restore_user soft_delete_user restored_user deleted_user
restore_user-soft_delete_user s k u deleted restored at live =
    ground (arith, get-put s.users k k (deleted_user u deleted), eq_iff k k)

-- A deleted user is not found, neither by a lookup that leaves out deleted users nor by an update.
get_user-soft_delete_user :
    (s : UserService) (k : String) (u : User) (deleted now : Time) (req : UpdateUserRequest)
    → get s.users k ≡ some u
    → is_deleted u ≡ false
    → (get_user (soft_delete_user s k deleted).1 k false ≡ err user_not_found)
      × ((update_user (soft_delete_user s k deleted).1 k req now).0 ≡ err user_not_found)
      × ((u' : User) × (get_user (soft_delete_user s k deleted).1 k true ≡ ok u'))
unfolding soft_delete_user deleted_user get_user update_user
get_user-soft_delete_user s k u deleted now req at live = (
  ground (arith, get-put s.users k k (deleted_user u deleted), eq_iff k k),
  ground (arith, get-put s.users k k (deleted_user u deleted), eq_iff k k),
  (
    deleted_user u deleted,
    ground (arith, get-put s.users k k (deleted_user u deleted), eq_iff k k),
  ),
)

created_before-IsWeakOrder : IsWeakOrder created_before
unfolding created_before
created_before-IsWeakOrder = record {
  asym = λ x y h. ground arith;
  trans = λ x y z h k. ground arith;
}

-- A listing holds each stored user once, less the deleted ones where these are not asked for, in the
-- order of creation.
pub list_users-exact :
    (s : UserService) (include_deleted : Bool)
    → Perm
        (list_users s include_deleted)
        (filter (λ u. include_deleted || not (is_deleted u)) (values s.users))
      × InOrder created_before (list_users s include_deleted)
unfolding list_users
list_users-exact s include_deleted =
    (sort_slice-perm created_before _, sort_slice-InOrder created_before-IsWeakOrder _)
