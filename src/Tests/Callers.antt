-- ===== src/Tests/Callers.antt =====
-- The theorems about callers, at the demo: the approver decides on the demo's approval, and the operator may not.
use enterprise_agentops.Base.{
  ℕ, ◌≤◌, ◌≡◌, ◌≢◌, refl, String, str_eq, true, false, none, some, List, [], ◌∷◌, ◌⊎◌, ◌↔◌,
  if◌then◌else◌, arith,
}
use enterprise_agentops.Base.Table.{find}
use enterprise_agentops.Values.{text, end, field, get}
use enterprise_agentops.Storage.{Storage, Approval}
use enterprise_agentops.ApprovalStore
use enterprise_agentops.Exec.{◌>>=◌}
use enterprise_agentops.Access.Identity.{
  ensure_can_resolve_approval, permission_value, Role, Permission, User, can, rank, has_permission,
  has_permission-rank,
}
use enterprise_agentops.Access.Security.{
  ℤ, Libraries, verify_password, bcrypt_rounds, read_token, bcrypt_rounds_bounds,
}
use enterprise_agentops.Access.Users.{
  UserRow, get_user, authenticate, IsLogin, authenticate_lem, to_user,
}
use enterprise_agentops.Access.Routes.{
  Response, Call, answer, current_user, bearer_token, resolve_approval,
}
use enterprise_agentops.Access.Callers.{Authentic}
use enterprise_agentops.Access.Guarded.{Untouched, needed, routes_guarded, dangerous_guarded}
use enterprise_agentops.Tests.Sample.{agent, empty, parked_approval}

-- A token is the id of its user, and a hash is the password.
abbrev libraries : Libraries
libraries = record {
  int = λ s. if str_eq s "20" then some (ℤ.pos 20) else none;
  decode = λ t. some (field "sub" (text t) end);
  checkpw = λ password hash. some (str_eq password hash);
  hashpw = λ password rounds. password;
  strip = λ s. s;
  lower = λ s. s;
}

abbrev person : String → Role → UserRow
person id role = record {
  user_id = id;
  email = id;
  display_name = id;
  password_hash = "secret";
  role = role;
  active = true;
  created_at = 0;
}

abbrev users : List UserRow
users = person "olga" Role.operator ∷ person "ada" Role.approver ∷ []

abbrev wiped : Approval
wiped = record parked_approval { risk = "DANGEROUS" }

abbrev parked : Approval → Storage ℕ
parked row = record empty { approvals = row ∷ [] }

routes_guarded_example :
    ((u : User) × (p : Permission) × Authentic libraries users (some "Bearer ada") u
      × (needed (Call.decide "u4" false) (parked parked_approval) ≡ some p)
      × (can u p ≡ true))
    ⊎ Untouched (parked parked_approval) (
        answer libraries users agent
          (some "Bearer ada")
          (Call.decide "u4" false)
          (parked parked_approval))
routes_guarded_example =
    routes_guarded libraries users agent (some "Bearer ada") (Call.decide "u4" false)
      (parked parked_approval)

wiped_is_found : find ApprovalStore.key "u4" (parked wiped).approvals ≡ some wiped
unfolding find
wiped_is_found = refl

other_risk : wiped.risk ≢ "WRITE"
other_risk e = cc e

dangerous_guarded_example :
    ((u : User) × Authentic libraries users (some "Bearer ada") u × (u.role ≡ Role.admin))
    ⊎ Untouched
        (parked wiped)
        (answer libraries users agent (some "Bearer ada") (Call.decide "u4" true) (parked wiped))
dangerous_guarded_example =
    dangerous_guarded libraries users agent (some "Bearer ada") "u4" true (parked wiped) wiped
      wiped_is_found other_risk

-- The operator is known, and may not decide.
operator_denied :
    (resolve_approval libraries users agent
      (some "Bearer olga")
      "u4"
      false
      (parked parked_approval)).0
    ≡ Response.http 403 "Resolving a WRITE approval requires the APPROVE_WRITE permission."
unfolding resolve_approval current_user bearer_token read_token get get_user find ApprovalStore.get
    ◌>>=◌ ensure_can_resolve_approval has_permission permission_value
operator_denied = refl

has_permission-rank_example : has_permission Role.admin Permission.run_agent ≡ true
unfolding rank has_permission
has_permission-rank_example =
    has_permission-rank Role.operator Role.admin Permission.run_agent (omega arith) refl

bcrypt_rounds_bounds_example :
    (4 ≤ bcrypt_rounds libraries (some "20")) × (bcrypt_rounds libraries (some "20") ≤ 16)
bcrypt_rounds_bounds_example = bcrypt_rounds_bounds libraries (some "20")

authenticate_lem_example :
    (authenticate libraries "ada" "secret" users ≡ some (to_user (person "ada" Role.approver)))
    ↔ IsLogin libraries "ada" "secret" users (to_user (person "ada" Role.approver))
authenticate_lem_example =
    authenticate_lem libraries "ada" "secret" users (to_user (person "ada" Role.approver))

approver_logs_in :
    authenticate libraries "ada" "secret" users ≡ some (to_user (person "ada" Role.approver))
unfolding authenticate find verify_password
approver_logs_in = refl
