-- ===== src/Examples/Users.antt =====
-- Two users (backend/internal/service/user_service.go), and what the theorems say of them.
use bonipam.Common.{String, ◌≡◌, refl, none, some, [], ◌∷◌, map, ◌==◌, if◌then◌else◌, arith, eq_iff}
use bonipam.Common.Int.{pos}
use bonipam.Go.Map.{get}
use bonipam.Go.Text.{trim_space}
use bonipam.Go.Time.{Time}
use bonipam.Examples.{differ}
use bonipam.Users.Types.{User, UserService, UpdateUserRequest, CreateUserRequest}
use bonipam.Users.Service.{
  contains, reconcile_group_membership, create_user, restore_user, deleted_user,
}
use bonipam.Users.Membership.{reconcile_group_membership-exact}
use bonipam.Users.Lifecycle.{
  HasUniqueEmails, create_user-HasUniqueEmails, restore_user-not-HasUniqueEmails,
}

abbrev pub ann : User
ann = record {
  id = "usr-1";
  external_id = "";
  email = "ann@example.com";
  display_name = "Ann";
  groups = "ops" ∷ "dev" ∷ [];
  roles = "Viewer" ∷ [];
  status = "active";
  created_at = pos 1;
  updated_at = pos 1;
  deleted_at = none;
}

abbrev bob : User
bob = record {
  id = "usr-2";
  external_id = "";
  email = "bob@example.com";
  display_name = "Bob";
  groups = [];
  roles = "Auditor" ∷ [];
  status = "active";
  created_at = pos 2;
  updated_at = pos 2;
  deleted_at = none;
}

abbrev pub staff : UserService
staff = record { users = ("usr-1", ann) ∷ ("usr-2", bob) ∷ [] }

abbrev pub noon : String → Time
noon user_id = pos 12

reconcile_group_membership-exact_example :
    (u' : User) × (get
        (reconcile_group_membership staff " ops" ("usr-2 " ∷ []) noon).1.users
        "usr-1"
      ≡ some u')
    × ((h : String)
        → contains u'.groups h ≡ (
            if trim_space " ops" == h
            then contains (map trim_space ("usr-2 " ∷ [])) "usr-1"
            else contains ann.groups h))
    × (u'.roles ≡ ann.roles)
    × (u'.deleted_at ≡ none)
unfolding trim_space get
reconcile_group_membership-exact_example =
    reconcile_group_membership-exact staff " ops" ("usr-2 " ∷ []) noon "usr-1" ann
      (differ (trim_space " ops") "" refl) refl refl

abbrev cleo_request : CreateUserRequest
cleo_request = record {
  external_id = "";
  email = "cleo@example.com";
  display_name = "Cleo";
  groups = [];
}

abbrev only_ann : UserService
only_ann = record { users = ("usr-1", ann) ∷ [] }

only_ann-HasUniqueEmails : HasUniqueEmails only_ann
unfolding get
only_ann-HasUniqueEmails j k u v at_j at_k live_u live_v same =
    ground (arith, eq_iff "usr-1" j, eq_iff "usr-1" k)

create_user-HasUniqueEmails_example :
    HasUniqueEmails (create_user only_ann cleo_request "3" (pos 3)).1
create_user-HasUniqueEmails_example =
    create_user-HasUniqueEmails only_ann cleo_request "3" (pos 3) only_ann-HasUniqueEmails

-- Ann was deleted, and another user took her email.
abbrev second_ann : User
second_ann = record bob { email = "ann@example.com" }

abbrev reused : UserService
reused = record { users = ("usr-1", deleted_user ann (pos 5)) ∷ ("usr-2", second_ann) ∷ [] }

restore_user-not-HasUniqueEmails_example : ¬ HasUniqueEmails (restore_user reused "usr-1" (pos 6)).1
unfolding get deleted_user
restore_user-not-HasUniqueEmails_example =
    restore_user-not-HasUniqueEmails reused "usr-1" "usr-2" (deleted_user ann (pos 5)) second_ann
      (pos 6) refl refl refl refl refl

abbrev rename_ann : UpdateUserRequest
rename_ann = record { display_name = "Anna"; groups = none; status = "" }
