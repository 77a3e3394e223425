-- ===== src/Access/Users.antt =====
-- app/user_store.py: the table of users. Nothing that it returns carries a password's hash.
use mathlib.Core.Option.{some-injective}
use enterprise_agentops.Base.{
  ap, ◌∙◌, ◌↔◌, ℕ, ◌≡◌, refl, String, Bool, true, false, not, Option, none, some, List, [], ◌∷◌,
  ◌++◌, if◌then◌else◌,
}
use enterprise_agentops.Base.Table.{find}
use enterprise_agentops.Results.{Result, ok, ◌>>=◌}
use enterprise_agentops.Access.Identity.{Role, User}
use enterprise_agentops.Access.Security.{Libraries, hash_password, verify_password}

-- `UserRecord`
pub record UserRow : Type 0 where
  pub user_id : String
  pub email : String
  pub display_name : String
  pub password_hash : String
  pub role : Role
  pub active : Bool
  pub created_at : ℕ

abbrev pub to_user : UserRow → User
to_user r = record {
  user_id = r.user_id;
  email = r.email;
  display_name = r.display_name;
  role = r.role;
  active = r.active;
  created_at = r.created_at;
}

abbrev pub user_key : UserRow → String
user_key r = r.user_id

abbrev pub email_key : UserRow → String
email_key r = r.email

abbrev pub user_of : Option UserRow → Option User
user_of none = none
user_of (some r) = some (to_user r)

unfoldable pub get_user : String → List UserRow → Option User
get_user user_id users = user_of (find user_key user_id users)

module _ (libraries : Libraries) where
  -- `email.strip().lower()`
  abbrev pub normalise : String → String
  normalise email = libraries.lower (libraries.strip email)

  unfoldable pub get_by_email : String → List UserRow → Option User
  get_by_email email users = user_of (find email_key (normalise email) users)

  -- By the row of the email
  abbrev pub check_password : String → Option UserRow → Option User
  check_password password none = none
  check_password password (some r) =
      if not (verify_password libraries password r.password_hash)
      then none
      else if not r.active
      then none
      else some (to_user r)

  unfoldable pub authenticate : String → String → List UserRow → Option User
  authenticate email password users =
      check_password password (find email_key (normalise email) users)

  -- `create`, with the uuid and the time that it reads, and the variable for the rounds
  unfoldable pub create_user :
      String
      → ℕ
      → Option String
      → String
      → String
      → String
      → Role
      → Bool
      → List UserRow
      → Result (User × List UserRow)
  create_user user_id now rounds email display_name password role active users = do
    hash ← hash_password libraries rounds password
    let row : UserRow = record {
      user_id = user_id;
      email = normalise email;
      display_name = display_name;
      password_hash = hash;
      role = role;
      active = active;
      created_at = now;
    }
    ok (to_user row, users ++ row ∷ [])

module _ (libraries : Libraries) where
  -- The row of a login: it has the email, the password fits its hash, and it is active.
  abbrev pub IsLogin : String → String → List UserRow → User → Type 0
  IsLogin email password users u =
      (r : UserRow) × (find email_key (normalise libraries email) users ≡ some r)
      × (verify_password libraries password r.password_hash ≡ true)
      × (r.active ≡ true)
      × (to_user r ≡ u)

  check-IsLogin :
      (password : String) (r : UserRow) (u : User) (v a : Bool)
      → (if not v then none else if not a then none else some (to_user r)) ≡ some u
      → (v ≡ true) × (a ≡ true) × (to_user r ≡ u)
  check-IsLogin password r u true true e = (refl, refl, some-injective _ _ e)
  check-IsLogin password r u true false e = cc
  check-IsLogin password r u false a e = cc

  login_goes :
      (r : UserRow) (v a : Bool)
      → v ≡ true
      → a ≡ true
      → (if not v then none else if not a then none else some (to_user r)) ≡ some (to_user r)
  login_goes r true true e f = refl
  login_goes r true false e f = cc
  login_goes r false a e f = cc

  found-IsLogin :
      (email password : String) (users : List UserRow) (u : User) (o : Option UserRow)
      → find email_key (normalise libraries email) users ≡ o
      → check_password libraries password o ≡ some u
      → IsLogin email password users u
  found-IsLogin email password users u none f e = cc
  found-IsLogin email password users u (some r) f e =
      let (fits, active, same) =
        check-IsLogin password r u (verify_password libraries password r.password_hash) r.active
          e in
      (r, f, fits, active, same)

  -- A login succeeds exactly where the first row with the normalised email has a hash that the password fits and is
  -- active; it gives that row's user.
  pub authenticate_lem :
      (email password : String) (users : List UserRow) (u : User)
      → (authenticate libraries email password users ≡ some u) ↔ IsLogin email password users u
  unfolding authenticate
  authenticate_lem email password users u = (
    λ e.
        found-IsLogin email password users u (find email_key (normalise libraries email) users) refl
          e,
    λ (r, f, fits, active, same).
        ap (check_password libraries password) f
        ∙ (login_goes r (verify_password libraries password r.password_hash) r.active fits active
            ∙ ap some same),
  )
