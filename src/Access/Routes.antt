-- ===== src/Access/Routes.antt =====
-- app/auth.py, and the routes of app/main.py that start a run, decide on an approval and sweep the runs, up to what
-- the approvals' route does after the decision (`settle_confirmed_send`).
use Prim.Native.String.{len, slice}
use package.text.Mathlib.Text.{find?}
use enterprise_agentops.Base.{
  ℕ, ◌+◌, String, ◌<>◌, str_eq, Bool, not, ◌||◌, Option, none, some, List, if◌then◌else◌,
}
use enterprise_agentops.Values.{Fields, text, end, field}
use enterprise_agentops.Exceptions.{Exception}
use enterprise_agentops.Results.{Result, ok, err}
use enterprise_agentops.Storage.{Approval, Storage}
use enterprise_agentops.ApprovalStore
use enterprise_agentops.AuditStore.{record_event}
use enterprise_agentops.Agent.Service.{AgentService, Outcome, Resolution}
use enterprise_agentops.Agent.Entry
use enterprise_agentops.Reconciliation
use enterprise_agentops.Reconciliation.{Reconciled}
use enterprise_agentops.Access.Identity.{
  Permission, role_value, permission_value, User, PermissionDenied, require_permission,
  ensure_can_resolve_approval,
}
use enterprise_agentops.Access.Security.{Libraries, read_token}
use enterprise_agentops.Access.Users.{UserRow, get_user}

-- What a route gives: its value, an `HTTPException`, or another exception
pub data Response (A : Type 0) : Type 0 where
  value : A → Response A
  http : (status_code : ℕ) (detail : String) → Response A
  raised : Exception → Response A

abbrev pub unauthenticated : {A : Type 0} → Response A
unauthenticated = Response.http 401 "Not authenticated."

module _ (libraries : Libraries) where
  abbrev accept_token : String → String → Response String
  accept_token scheme token =
      if not (str_eq (libraries.lower scheme) (libraries.lower "Bearer"))
        || str_eq (libraries.strip token) ""
      then unauthenticated
      else Response.value (libraries.strip token)

  abbrev split_header : String → Response String
  split_header header = elim (find? header " ") [
    | none ↦ accept_token header ""
    | some i ↦ accept_token (slice header 0 i) (slice header (i + 1) (len header))
  ]

  -- `bearer_token`, by the header `Authorization`
  unfoldable pub bearer_token : Option String → Response String
  bearer_token none = split_header ""
  bearer_token (some header) = split_header header

  abbrev pub active_user : Option User → Response User
  active_user none = unauthenticated
  active_user (some user) =
      if not user.active
      then Response.http 403 "This account is deactivated."
      else Response.value user

  abbrev pub user_of_subject : List UserRow → Option String → Response User
  user_of_subject users none = unauthenticated
  user_of_subject users (some user_id) = active_user (get_user user_id users)

  abbrev pub user_of_token : List UserRow → Response String → Response User
  user_of_token users (Response.value token) = user_of_subject users (read_token libraries token)
  user_of_token users (Response.http status detail) = Response.http status detail
  user_of_token users (Response.raised e) = Response.raised e

  unfoldable pub current_user : List UserRow → Option String → Response User
  current_user users header = user_of_token users (bearer_token header)

  abbrev pub permitted : User → Option PermissionDenied → Response User
  permitted user none = Response.value user
  permitted user (some denied) = Response.http 403 denied.detail

  abbrev pub requires_of : Permission → Response User → Response User
  requires_of permission (Response.value user) = permitted user (require_permission user permission)
  requires_of permission (Response.http status detail) = Response.http status detail
  requires_of permission (Response.raised e) = Response.raised e

  -- `requires`
  unfoldable pub requires : Permission → List UserRow → Option String → Response User
  requires permission users header = requires_of permission (current_user users header)

abbrev response_of : {A : Type 0} → Result A → Response A
response_of (ok a) = Response.value a
response_of (err e) = Response.raised e

-- `except ValueError` of the approvals' route
abbrev decision_of : Result Resolution → Response Resolution
decision_of (ok a) = Response.value a
decision_of (err (Exception.value_error name detail)) = Response.http 404 detail
decision_of (err e) = Response.raised e

module _ {Outside : Type 0} (libraries : Libraries) (users : List UserRow)
    (agent : AgentService Outside) where
  abbrev pub run_as : String → Response User → Storage Outside → Response Outcome × Storage Outside
  run_as content (Response.value user) s =
      let (r, s') = Entry.run agent (some user.user_id) content s in (response_of r, s')
  run_as content (Response.http status detail) s = (Response.http status detail, s)
  run_as content (Response.raised e) s = (Response.raised e, s)

  -- `run_agent`
  unfoldable pub run_agent :
      Option String → String → Storage Outside → Response Outcome × Storage Outside
  run_agent header content = run_as content (requires libraries Permission.run_agent users header)

  abbrev pub denial : String → Approval → User → PermissionDenied → Fields
  denial approval_id row user denied = field "approval_id" (text approval_id) (
      field "tool" (text row.tool) (
        field "risk" (text row.risk) (
          field "required_permission" (text (permission_value denied.permission))
            (field "role" (text (role_value user.role)) end))))

  -- Once the permission is known
  abbrev pub decide_as :
      String
      → Bool
      → User
      → Approval
      → Option PermissionDenied
      → Storage Outside
      → Response Resolution × Storage Outside
  decide_as approval_id approved user row none s =
      let (r, s') = Entry.resolve_approval agent (some user.user_id) approval_id approved s in
      (decision_of r, s')
  decide_as approval_id approved user row (some denied) s =
      let (r, s') =
        record_event agent.host "AUTHORIZATION_DENIED" (denial approval_id row user denied)
          (some row.run_id) (some user.user_id) s in
      (Response.http 403 denied.detail, s')

  abbrev pub decide_found_as :
      String
      → Bool
      → User
      → Option Approval
      → Storage Outside
      → Response Resolution × Storage Outside
  decide_found_as approval_id approved user none s =
      (Response.http 404 ("Unknown approval ID: " <> approval_id), s)
  decide_found_as approval_id approved user (some row) s =
      decide_as approval_id approved user row (ensure_can_resolve_approval user row.risk) s

  abbrev pub approval_of : Result (Option Approval) → Option Approval
  approval_of (ok found) = found
  approval_of (err e) = none

  abbrev pub decide_by :
      String → Bool → Response User → Storage Outside → Response Resolution × Storage Outside
  decide_by approval_id approved (Response.value user) s =
      let (found, s') = ApprovalStore.get agent.host approval_id s in
      decide_found_as approval_id approved user (approval_of found) s'
  decide_by approval_id approved (Response.http status detail) s = (Response.http status detail, s)
  decide_by approval_id approved (Response.raised e) s = (Response.raised e, s)

  -- `resolve_approval`
  unfoldable pub resolve_approval :
      Option String → String → Bool → Storage Outside → Response Resolution × Storage Outside
  resolve_approval header approval_id approved =
      decide_by approval_id approved (current_user libraries users header)

  abbrev pub sweep_as :
      ℕ → Response User → Storage Outside → Response (List Reconciled) × Storage Outside
  sweep_as stale_after_seconds (Response.value user) s =
      let (r, s') = Reconciliation.reconcile agent.host stale_after_seconds none s in
      (response_of r, s')
  sweep_as stale_after_seconds (Response.http status detail) s = (Response.http status detail, s)
  sweep_as stale_after_seconds (Response.raised e) s = (Response.raised e, s)

  -- `reconcile_runs`
  unfoldable pub reconcile_runs :
      Option String → ℕ → Storage Outside → Response (List Reconciled) × Storage Outside
  reconcile_runs header stale_after_seconds =
      sweep_as stale_after_seconds (requires libraries Permission.reconcile_runs users header)

-- A call of one of the routes
pub data Call : Type 0 where
  run : (content : String) → Call
  decide : (approval_id : String) (approved : Bool) → Call
  sweep : (stale_after_seconds : ℕ) → Call

-- The storage after a call with a header
unfoldable pub answer :
    {Outside : Type 0}
    → Libraries
    → List UserRow
    → AgentService Outside
    → Option String
    → Call
    → Storage Outside
    → Storage Outside
answer libraries users agent header (Call.run content) s =
    (run_agent libraries users agent header content s).1
answer libraries users agent header (Call.decide approval_id approved) s =
    (resolve_approval libraries users agent header approval_id approved s).1
answer libraries users agent header (Call.sweep seconds) s =
    (reconcile_runs libraries users agent header seconds s).1
