-- ===== src/Access/Callers.antt =====
-- Whom a route lets through: an active user that a valid token names, with the permission that is asked for.
use enterprise_agentops.Base.{
  ℕ, ◌≡◌, refl, sym, ap, ◌∙◌, String, ◌<>◌, Bool, true, false, not, Bool-cases, inl, inr, ◌⊎◌,
  Option, none, some, List, if◌then◌else◌,
}
use enterprise_agentops.Exceptions.{Exception}
use enterprise_agentops.Access.Identity.{
  Permission, permission_value, User, can, require_permission,
}
use enterprise_agentops.Access.Security.{Libraries, read_token}
use enterprise_agentops.Access.Users.{UserRow, get_user}
use enterprise_agentops.Access.Routes.{
  Response, bearer_token, current_user, requires, permitted, requires_of, user_of_token,
  active_user, user_of_subject,
}

-- The header carries a token that names the user, who is stored and active.
abbrev pub Authentic : Libraries → List UserRow → Option String → User → Type 0
Authentic libraries users header u =
    (token : String) × (user_id : String) × (bearer_token libraries header ≡ Response.value token)
    × (read_token libraries token ≡ some user_id)
    × (get_user user_id users ≡ some u)
    × (u.active ≡ true)

module _ (libraries : Libraries) (users : List UserRow) where
  value-injective : {A : Type 0} (a b : A) → Response.value a ≡ Response.value b → a ≡ b
  value-injective a b e = cc e

  gate :
      (b : Bool) (v u : User)
      → v.active ≡ b
      → (if not b then Response.http 403 "This account is deactivated." else Response.value v)
        ≡ Response.value u
      → (v ≡ u) × (u.active ≡ true)
  gate true v u a e =
      let same = value-injective v u e in (same, ap (λ (x : User). x.active) (sym same) ∙ a)
  gate false v u a e = cc

  active_user-value :
      (found : Option User) (u : User)
      → active_user libraries found ≡ Response.value u
      → (found ≡ some u) × (u.active ≡ true)
  active_user-value none u e = cc
  active_user-value (some v) u e =
      let (same, active) = gate v.active v u refl e in (ap some same, active)

  subject-Authentic :
      (header : Option String) (u : User) (token : String) (o : Option String)
      → bearer_token libraries header ≡ Response.value token
      → read_token libraries token ≡ o
      → user_of_subject libraries users o ≡ Response.value u
      → Authentic libraries users header u
  subject-Authentic header u token none b r e = cc
  subject-Authentic header u token (some user_id) b r e =
      let (found, active) = active_user-value (get_user user_id users) u e in
      (token, user_id, b, r, found, active)

  token-Authentic :
      (header : Option String) (u : User) (r : Response String)
      → bearer_token libraries header ≡ r
      → user_of_token libraries users r ≡ Response.value u
      → Authentic libraries users header u
  token-Authentic header u (Response.value token) b e =
      subject-Authentic header u token (read_token libraries token) b refl e
  token-Authentic header u (Response.http status detail) b e = cc
  token-Authentic header u (Response.raised x) b e = cc

  pub current_user-Authentic :
      (header : Option String) (u : User)
      → current_user libraries users header ≡ Response.value u
      → Authentic libraries users header u
  unfolding current_user
  current_user-Authentic header u e =
      token-Authentic header u (bearer_token libraries header) refl e

  -- The user is let through with the permission.
  abbrev pub Allows : Option String → Permission → Type 0
  Allows header p = (u : User) × Authentic libraries users header u × (can u p ≡ true)

  permitted-value :
      (p : Permission) (v u : User)
      → permitted libraries v (require_permission v p) ≡ Response.value u
      → (v ≡ u) × (can u p ≡ true)
  unfolding require_permission
  permitted-value p v u e = elim (Bool-cases (can v p)) [
    | inl a ↦
        let same : v ≡ u = value-injective v u (rw a at e) in
        (same, ap (λ (x : User). can x p) (sym same) ∙ a)
    | inr a ↦
        let refused : Response.http 403
              ("This action requires the " <> (permission_value p <> " permission."))
            ≡ Response.value u =
          rw a at e in
        cc refused
  ]

  requires-Allows :
      (header : Option String) (p : Permission) (r : Response User) (u : User)
      → current_user libraries users header ≡ r
      → requires_of libraries p r ≡ Response.value u
      → (Authentic libraries users header u) × (can u p ≡ true)
  requires-Allows header p (Response.value v) u c e =
      let (same, may) = permitted-value p v u e in
      (current_user-Authentic header u (c ∙ ap Response.value same), may)
  requires-Allows header p (Response.http status detail) u c e = cc
  requires-Allows header p (Response.raised x) u c e = cc

  -- A route that needs a permission, by what it does for a user
  pub allowed_or_same :
      {S : Type 0} (header : Option String) (p : Permission) (r : Response User)
      (go : Response User → S) (s : S)
      → requires libraries p users header ≡ r
      → ((status : ℕ) (detail : String) → go (Response.http status detail) ≡ s)
      → ((x : Exception) → go (Response.raised x) ≡ s)
      → Allows header p ⊎ (go r ≡ s)
  unfolding requires
  allowed_or_same header p (Response.value u) go s e refused failed =
      let (known, may) = requires-Allows header p (current_user libraries users header) u refl e in
      inl (u, known, may)
  allowed_or_same header p (Response.http status detail) go s e refused failed =
      inr (refused status detail)
  allowed_or_same header p (Response.raised x) go s e refused failed = inr (failed x)
