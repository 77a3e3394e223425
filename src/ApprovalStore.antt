-- ===== src/ApprovalStore.antt =====
-- app/approval_store.py: approvals are created, looked up and resolved, and never deleted.
use enterprise_agentops.Base.{String, ◌<>◌, Bool, Option, none, some, [], ◌∷◌, ◌++◌, if◌then◌else◌}
use enterprise_agentops.Base.Table.{find, update}
use enterprise_agentops.Values.{Fields}
use enterprise_agentops.Exceptions.{Exception}
use enterprise_agentops.Columns.{fields_column}
use enterprise_agentops.Exec.{Exec, pure, raise, lift, gets, modify, ◌>>=◌, ◌>>◌}
use enterprise_agentops.Storage.{pending, approved, rejected, Approval, Storage}
use enterprise_agentops.Storage.Host.{Host, utc_now, new_uuid}

abbrev pub key : Approval → String
key r = r.approval_id

abbrev pub unknown_approval : String → Exception
unknown_approval approval_id =
    Exception.value_error "ValueError" ("Unknown approval ID: " <> approval_id)

module _ {Outside : Type 0} (host : Host) where
  unfoldable pub create :
      String → Fields → String → String → String → Option String → Exec (Storage Outside) Approval
  create tool arguments risk run_id tool_call_id requested_by_user_id = do
    approval_id ← new_uuid host
    column ← lift (fields_column arguments)
    timestamp ← utc_now host
    let row : Approval = record {
      approval_id = approval_id;
      run_id = run_id;
      requested_by_user_id = requested_by_user_id;
      resolved_by_user_id = none;
      tool_call_id = tool_call_id;
      tool = tool;
      arguments = column;
      risk = risk;
      status = pending;
      created_at = timestamp;
      resolved_at = none;
      decision = none;
    }
    modify (λ s. record s { approvals = s.approvals ++ row ∷ [] })
    pure row

  unfoldable pub get : String → Exec (Storage Outside) (Option Approval)
  get approval_id = gets (λ s. find key approval_id s.approvals)

  unfoldable pub write_decision :
      String → Bool → Option String → Option Approval → Exec (Storage Outside) Unit
  write_decision approval_id is_approved resolved_by_user_id none =
      raise (unknown_approval approval_id)
  write_decision approval_id is_approved resolved_by_user_id (some _) = do
    let status = if is_approved then approved else rejected
    timestamp ← utc_now host
    modify (λ s. record s {
      approvals =
          update key approval_id
            (λ r. record r {
              status = status;
              decision = some status;
              resolved_by_user_id = resolved_by_user_id;
              resolved_at = some timestamp;
            })
            s.approvals;
    })

  unfoldable pub resolve : String → Bool → Option String → Exec (Storage Outside) Unit
  unfolding write_decision get
  resolve approval_id is_approved resolved_by_user_id = do
    found ← get approval_id
    write_decision approval_id is_approved resolved_by_user_id found
