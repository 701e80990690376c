-- ===== src/Auth/SignIn.antt =====
-- Who signs in with an email and a password (auth_service.go, Login).
use bonipam.Common.{
  String, Bool, ◌≡◌, ◌∙◌, refl, false, true, some, List, [], ◌∷◌, ◌==◌, ◌||◌, ◌&&◌, not, eq_iff, ok,
  Option-cases, Bool-cases, inl, inr, arith,
}
use bonipam.Common.Lists.{any, any-perm, filter}
use bonipam.Go.Map.{values}
use bonipam.Users.Types.{User, UserService}
use bonipam.Users.Service.{list_users, is_deleted}
use bonipam.Users.Lifecycle.{list_users-exact}
use bonipam.Auth.Types.{AuthService, AuthSession, LoginRequest, Crypto, Draws}
use bonipam.Auth.Service.{login, find_by_email}
use bonipam.Auth.Challenges.{user_id-issue_session}

found_passes :
    (p : User → Bool) (users : List User) (email : String) (u : User)
    → any p users ≡ false
    → find_by_email users email ≡ some u
    → (p u ≡ false) × (u.email ≡ email)
unfolding find_by_email
found_passes p [] email u none_does found = absurd (cc)
found_passes p (x ∷ users) email u none_does found = elim (Bool-cases (x.email == email)) [
  | inl this ↦ (ground arith, ground (arith, eq_iff x.email email))
  | inr other ↦ found_passes p users email u (ground arith) (ground arith)
]

filtered_passes :
    (users : List User) → any is_deleted (filter (λ u. false || not (is_deleted u)) users) ≡ false
filtered_passes [] = refl
filtered_passes (u ∷ users) = ground (arith, filtered_passes users)

-- If Login gives a session, then the session is that of a listed user with the email of the request
-- who is not deleted, the password is not empty, and it is "admin123" if that user is the
-- administrator.
pub login-finds_user :
    (crypto : Crypto) (s : AuthService) (req : LoginRequest) (user_service : UserService)
    (draws : Draws) (session : AuthSession)
    → (login crypto s req user_service draws).0 ≡ ok session
    → (u : User) × (find_by_email (list_users user_service false) req.email ≡ some u)
      × (u.email ≡ req.email)
      × (is_deleted u ≡ false)
      × (session.user_id ≡ u.id)
      × ((req.password == "") ≡ false)
      × ((not (u.email == "admin@bonipam.local") || req.password == "admin123") ≡ true)
unfolding login
login-finds_user crypto s req user_service draws session h =
    elim (Bool-cases (req.email == "" || req.password == "")) [
      | inl missing ↦ absurd (cc (rw (missing, login) at h))
      | inr given ↦ elim (Option-cases (find_by_email (list_users user_service false) req.email)) [
        | inl unknown ↦ absurd (cc (rw (given, unknown, login) at h))
        | inr (u, at) ↦
            elim (Bool-cases
              (u.email == "admin@bonipam.local" && not (req.password == "admin123"))) [
                | inl wrong ↦ absurd (cc (rw (given, at, wrong, login) at h))
                | inr right ↦
                    let (live, same) =
                      found_passes is_deleted (list_users user_service false) req.email u
                        (any-perm is_deleted (list_users-exact user_service false).0
                          ∙ filtered_passes (values user_service.users))
                        at in
                    (
                      u,
                      at,
                      same,
                      live,
                      user_id-issue_session crypto s u.id draws session
                          (rw (given, at, right, login) at h),
                      ground arith,
                      ground arith,
                    )
              ]
      ]
    ]
