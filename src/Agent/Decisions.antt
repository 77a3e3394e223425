-- ===== src/Agent/Decisions.antt =====
-- `resolve_approval` of app/agent.py on an approval that is PENDING, and on one that is not.
use enterprise_agentops.Base.{
  ℕ, ◌+◌, ◌≡◌, ◌≢◌, refl, String, Bool, true, false, Option, some, List, [], ◌∷◌, if◌then◌else◌,
}
use enterprise_agentops.Base.Table.{find, update, find-append, find-update_self}
use enterprise_agentops.Protocol.{ModelMessage, deserialise_conversation}
use enterprise_agentops.Results.{ok, err}
use enterprise_agentops.Exec.{◌>>=◌}
use enterprise_agentops.Storage.{
  ApprovalStatus, pending, approved, rejected, Run, Approval, Storage,
}
use enterprise_agentops.Storage.Host.{utc_now}
use enterprise_agentops.RunStore
use enterprise_agentops.ApprovalStore
use enterprise_agentops.ApprovalStore.{unknown_approval}
use enterprise_agentops.Agent.Service.{AgentService}
use enterprise_agentops.Agent.Entry.{
  already_resolved, reject, execute_approved, approve, approve_run, decide, decide_found,
  resolve_approval,
}
use enterprise_agentops.Agent.Invariants.Rules.{StoresKeep, CallsKeep}
use enterprise_agentops.Agent.Invariants.Tables.{TablesKeep, TablesKeep-StoresKeep, run_key}
use enterprise_agentops.Agent.Invariants.Calls.{execute-Keeps, inside-CallsKeep}
use enterprise_agentops.Agent.Invariants.Entry.{deny-Keeps, grant-Keeps}

-- The row as `resolve` writes it, at the n-th reading of the clock
abbrev pub decided : Option String → Bool → ℕ → Approval → Approval
decided u b now row = record row {
  status = if b then approved else rejected;
  decision = some (if b then approved else rejected);
  resolved_by_user_id = u;
  resolved_at = some now;
}

-- A row that is found stays as it is under every operation but `resolve`.
pub found-TablesKeep :
    {Outside : Type 0} (id : String) (row : Approval)
    → TablesKeep {Outside = Outside} (λ s. find ApprovalStore.key id s.approvals ≡ some row)
found-TablesKeep id row = record {
  logs = record {
    counters = λ s a b c h. h;
    add_step = λ s r e h. h;
    add_event = λ s r e h. h;
    add_model_execution = λ s r h. h;
    add_tool_execution = λ s r h. h;
  };
  add_run = λ s r h. h;
  write_run = λ s k f e h. h;
  add_approval = λ s r e h. find-append ApprovalStore.key id s.approvals (r ∷ []) row h;
}

-- What the agent needs of a stored run to go on with it: its row, and a conversation that reads back
abbrev pub IsReadable : {Outside : Type 0} → String → Storage Outside → Type 0
IsReadable run_id s =
    (r : Run) × (c : List ModelMessage) × (find run_key run_id s.runs ≡ some r)
    × (deserialise_conversation r.conversation ≡ ok c)

module _ {Outside : Type 0} (agent : AgentService Outside) (u : Option String) (id : String) where
  decide_refused :
      (b : Bool) (s : Storage Outside) (row : Approval) (t : ApprovalStatus)
      → t ≢ pending
      → decide agent u id b row t s ≡ (err (already_resolved id t), s)
  unfolding decide ◌>>=◌
  decide_refused b s row ApprovalStatus.pending ne = absurd (ne refl)
  decide_refused b s row ApprovalStatus.approved ne = refl
  decide_refused b s row ApprovalStatus.rejected ne = refl

  -- A decision on an approval that is not PENDING is refused with a ValueError that names its status, and
  -- changes nothing.
  pub resolve_approval_refused :
      (b : Bool) (s : Storage Outside) (row : Approval)
      → find ApprovalStore.key id s.approvals ≡ some row
      → row.status ≢ pending
      → resolve_approval agent u id b s ≡ (err (already_resolved id row.status), s)
  unfolding resolve_approval decide_found ApprovalStore.get ◌>>=◌
  resolve_approval_refused b s row e ne =
      rw (e, decide_found) (decide_refused b s row row.status ne)

  module _ (s : Storage Outside) (row : Approval)
      (e : find ApprovalStore.key id s.approvals ≡ some row) where
    -- The storage once the decision is written
    abbrev pub resolved : Bool → Storage Outside
    resolved b = record s {
      approvals =
          update ApprovalStore.key id (decided u b (agent.host.now s.clock_readings)) s.approvals;
      clock_readings = s.clock_readings + 1;
    }

    pub resolve_lem : (b : Bool) → ApprovalStore.resolve agent.host id b u s ≡ (ok tt, resolved b)
    unfolding ApprovalStore.resolve ApprovalStore.write_decision ApprovalStore.get utc_now ◌>>=◌
    resolve_lem b = rw (e, ApprovalStore.write_decision)

    abbrev IsDecided : Bool → Storage Outside → Type 0
    IsDecided b t =
        find ApprovalStore.key id t.approvals
        ≡ some (decided u b (agent.host.now s.clock_readings) row)

    find-resolved : (b : Bool) → IsDecided b (resolved b)
    find-resolved b = find-update_self ApprovalStore.key id _ s.approvals row refl e

    stores : (b : Bool) → StoresKeep agent (IsDecided b)
    stores b = TablesKeep-StoresKeep agent (found-TablesKeep id _)

    calls : (b : Bool) → CallsKeep agent (IsDecided b)
    calls b = inside-CallsKeep (IsDecided b) (λ t o h. h) agent

    denied : IsDecided false (reject agent u id row s).1
    unfolding reject ◌>>=◌
    denied =
        rw resolve_lem
          ((deny-Keeps agent (stores false) (calls false) u id row).at _ (find-resolved false))

    granted : (c : List ModelMessage) → IsDecided true (execute_approved agent u id row c s).1
    unfolding execute_approved ◌>>=◌
    granted c = rw resolve_lem (
        (grant-Keeps agent (stores true) (calls true) u id row
            (λ x.
              execute-Keeps (IsDecided true) (λ t o h. h) agent.tools row.tool row.arguments true x)
            c).at
          _ (find-resolved true))

    decide_recorded :
        (b : Bool) (t : ApprovalStatus)
        → t ≡ pending
        → (b ≡ true → IsReadable row.run_id s)
        → IsDecided b (decide agent u id b row t s).1
    unfolding decide approve approve_run RunStore.get_run ◌>>=◌
    decide_recorded false ApprovalStatus.pending p h = denied
    decide_recorded true ApprovalStatus.pending p h =
        let (r, c, found, reads) = h refl in rw (found, approve_run, reads) (granted c)
    decide_recorded b ApprovalStatus.approved p h = cc
    decide_recorded b ApprovalStatus.rejected p h = cc

  -- A decision on a PENDING approval, an approval of a run that is stored with a readable conversation or a
  -- rejection of any, is recorded: afterwards, however the call ends, the approval's row holds the decision,
  -- the actor and the time, and is otherwise as it was.
  pub resolve_approval_recorded :
      (b : Bool) (s : Storage Outside) (row : Approval)
      → find ApprovalStore.key id s.approvals ≡ some row
      → row.status ≡ pending
      → (b ≡ true → IsReadable row.run_id s)
      → find ApprovalStore.key id (resolve_approval agent u id b s).1.approvals
        ≡ some (decided u b (agent.host.now s.clock_readings) row)
  unfolding resolve_approval decide_found ApprovalStore.get ◌>>=◌
  resolve_approval_recorded b s row e p h =
      rw (e, decide_found) (decide_recorded s row e b row.status p h)
