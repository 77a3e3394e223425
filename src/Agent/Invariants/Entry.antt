-- ===== src/Agent/Invariants/Entry.antt =====
-- The entry points keep what the stores and the calls keep. A decision also wants the row that it
-- resolves, and an approved execution.
use enterprise_agentops.Base.Table.{find}
use enterprise_agentops.Base.{
  ◌≡◌, refl, String, Bool, true, false, Option, none, some, List, [], ◌∷◌,
}
use enterprise_agentops.Values.{Value, Fields}
use enterprise_agentops.Protocol.{ToolCall, ModelMessage}
use enterprise_agentops.Exceptions.{Exception}
use enterprise_agentops.Results.{Result, ok, err}
use enterprise_agentops.Exec.{◌>>=◌}
use enterprise_agentops.Exec.Triple.{
  Keeps, keeps_rules, Keeps-bind, Keeps-gets, Keeps-lift, Keeps-raise,
}
use enterprise_agentops.Storage.{ApprovalStatus, Run, Approval, Storage}
use enterprise_agentops.Storage.Host.{Stopwatch}
use enterprise_agentops.RunStore
use enterprise_agentops.ApprovalStore
use enterprise_agentops.ToolRegistry.{ExecutionContext, execute}
use enterprise_agentops.Agent.Invariants.Rules.{
  StoresKeep, CallsKeep, abort-Keeps, fail_tool-Keeps, park-Keeps, record_execution-Keeps,
  record_tool_execution-Keeps, request_tool-Keeps, timed-Keeps,
}
use enterprise_agentops.Agent.Invariants.Loop.{drive-Keeps}
use enterprise_agentops.Agent.Service.{AgentService}
use enterprise_agentops.Agent.Entry.{
  run, request_action, settle_request, reject, deny, grant, resume_with, settle_failure,
  settle_success, settle_approved, execute_approved, approve, approve_run, decide, decide_found,
  resolve_approval,
}

module _ {Outside : Type 0} (agent : AgentService Outside) {P : Storage Outside → Type 0}
    (stores : StoresKeep agent P) (calls : CallsKeep agent P) (u : Option String) where
  pub run-Keeps : (m : String) → Keeps P (run agent u m)
  unfolding run
  run-Keeps m =
      search
        (keeps_rules, stores.create_run, stores.save_conversation, (drive-Keeps agent stores calls))

  settle_request-Keeps :
      (r : String) (c : ToolCall) (w : Stopwatch) (o : Result Value)
      → Keeps P (settle_request agent u r c (w, o))
  unfolding settle_request
  settle_request-Keeps r c w (err (Exception.approval_required n a k)) =
      park-Keeps agent stores r [] c n a k [] u
  settle_request-Keeps r c w (err (Exception.unexpected n m)) =
      search (keeps_rules, record_tool_execution-Keeps agent stores, abort-Keeps agent stores)
  settle_request-Keeps r c w (err e) =
      search
        (
          keeps_rules,
          record_tool_execution-Keeps agent stores,
          fail_tool-Keeps agent stores,
          stores.fail,
        )
        depth 7
  settle_request-Keeps r c w (ok v) =
      search
        (
          keeps_rules,
          record_tool_execution-Keeps agent stores,
          record_execution-Keeps agent stores,
          stores.complete,
        )
        depth 7

  pub request_action-Keeps :
      (t : String) (a : Fields) (m : String) → Keeps P (request_action agent u t a m)
  unfolding request_action
  request_action-Keeps t a m = Keeps-bind _ _ (stores.create_run m u) (λ r.
      Keeps-bind _ _ (stores.save_conversation r _) (λ _.
        Keeps-bind _ _ (request_tool-Keeps agent stores r _ u) (λ _.
          Keeps-bind _ _ (timed-Keeps agent stores _ (calls.execute t a _))
            (λ (w, o). settle_request-Keeps r _ w o))))

  module _ (id : String) (row : Approval) where
    pub deny-Keeps : Keeps P (deny agent u id row)
    unfolding deny
    deny-Keeps = search (keeps_rules, stores.record_event, stores.add_step, stores.cancel) depth 8

    reject-Keeps :
        Keeps P (ApprovalStore.resolve agent.host id false u) → Keeps P (reject agent u id row)
    unfolding reject
    reject-Keeps k = Keeps-bind _ _ k (λ _. deny-Keeps)

    settle_failure-Keeps :
        (r : String) (c : List ModelMessage) (t : ToolCall) (m : String)
        → Keeps P (settle_failure agent u r c t m)
    unfolding settle_failure resume_with
    settle_failure-Keeps r [] t m = search (keeps_rules, stores.fail)
    settle_failure-Keeps r (x ∷ c) t m = drive-Keeps agent stores calls r u _ _

    settle_success-Keeps :
        (r : String) (c : List ModelMessage) (t : ToolCall) (v : Value)
        → Keeps P (settle_success agent u r c t v)
    unfolding settle_success resume_with
    settle_success-Keeps r [] t v = search (keeps_rules, stores.complete)
    settle_success-Keeps r (x ∷ c) t v = drive-Keeps agent stores calls r u _ _

    settle_approved-Keeps :
        (c : List ModelMessage) (t : ToolCall) (w : Stopwatch) (o : Result Value)
        → Keeps P (settle_approved agent u id row c t (w, o))
    unfolding settle_approved
    settle_approved-Keeps c t w (err (Exception.value_error n m)) =
        search
          (
            keeps_rules,
            record_tool_execution-Keeps agent stores,
            fail_tool-Keeps agent stores,
            settle_failure-Keeps,
          )
          depth 8
    settle_approved-Keeps c t w (err (Exception.type_error n m)) =
        search
          (
            keeps_rules,
            record_tool_execution-Keeps agent stores,
            fail_tool-Keeps agent stores,
            settle_failure-Keeps,
          )
          depth 8
    settle_approved-Keeps c t w (err e) =
        search (keeps_rules, record_tool_execution-Keeps agent stores, abort-Keeps agent stores)
          depth 8
    settle_approved-Keeps c t w (ok v) =
        search
          (
            keeps_rules,
            record_tool_execution-Keeps agent stores,
            record_execution-Keeps agent stores,
            settle_success-Keeps,
          )
          depth 8

    module _
        (executed : (c : Option ExecutionContext)
          → Keeps P (execute agent.tools row.tool row.arguments true c)) where
      pub grant-Keeps : (c : List ModelMessage) → Keeps P (grant agent u id row c)
      unfolding grant
      grant-Keeps c = Keeps-bind _ _ (stores.resume _) (λ _.
          Keeps-bind _ _ (stores.record_event _ _ _ _) (λ _.
            Keeps-bind _ _ (stores.add_step _ _ _ _ _ _) (λ _.
              Keeps-bind _ _ (timed-Keeps agent stores _ (executed _))
                (λ (w, o). settle_approved-Keeps c _ w o))))

      module _ (resolved : Keeps P (ApprovalStore.resolve agent.host id true u)) where
        approve_run-Keeps : (o : Option Run) → Keeps P (approve_run agent u id row o)
        unfolding approve_run execute_approved
        approve_run-Keeps none = Keeps-raise _
        approve_run-Keeps (some r) =
            Keeps-bind _ _ (Keeps-lift _) (λ c. Keeps-bind _ _ resolved (λ _. grant-Keeps c))

        approve-Keeps : Keeps P (approve agent u id row)
        unfolding approve RunStore.get_run
        approve-Keeps = Keeps-bind _ _ (Keeps-gets _) approve_run-Keeps

  module _ (id : String)
      (resolved : (b : Bool) → Keeps P (ApprovalStore.resolve agent.host id b u)) where
    decide-Keeps :
        (row : Approval) (b : Bool) (t : ApprovalStatus)
        → ((c : Option ExecutionContext)
            → Keeps P (execute agent.tools row.tool row.arguments true c))
        → Keeps P (decide agent u id b row t)
    unfolding decide
    decide-Keeps row true ApprovalStatus.pending k = approve-Keeps id row k (resolved true)
    decide-Keeps row false ApprovalStatus.pending k = reject-Keeps id row (resolved false)
    decide-Keeps row b _ k = Keeps-raise _

    decide_found-Keeps :
        (o : Option Approval) (b : Bool)
        → ((row : Approval)
            → o ≡ some row
            → (c : Option ExecutionContext)
            → Keeps P (execute agent.tools row.tool row.arguments true c))
        → Keeps P (decide_found agent u id b o)
    unfolding decide_found
    decide_found-Keeps none b k = Keeps-raise _
    decide_found-Keeps (some row) b k = decide-Keeps row b row.status (k row refl)

    pub resolve_approval-Keeps :
        (b : Bool) (s : Storage Outside)
        → ((row : Approval)
            → find ApprovalStore.key id s.approvals ≡ some row
            → (c : Option ExecutionContext)
            → Keeps P (execute agent.tools row.tool row.arguments true c))
        → P s
        → P (resolve_approval agent u id b s).1
    unfolding resolve_approval ApprovalStore.get ◌>>=◌
    resolve_approval-Keeps b s k h = (decide_found-Keeps _ b k).at s h
