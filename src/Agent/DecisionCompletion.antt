-- ===== src/Agent/DecisionCompletion.antt =====
-- A decision on an approval returns: the approved action is executed, the loop goes on and ends, and nothing on the way
-- raises.
use enterprise_agentops.Base.{
  ◌≡◌, refl, String, Bool, true, false, Option, none, some, List, [], ◌∷◌,
}
use enterprise_agentops.Base.Table.{find}
use enterprise_agentops.Values.{Value, null, is_json, is_json_fields}
use enterprise_agentops.Protocol.{ToolCall, ModelMessage, deserialise_conversation}
use enterprise_agentops.Exceptions.{Exception}
use enterprise_agentops.Results.{Result, ok, err}
use enterprise_agentops.Exec.{Exec, pure, ◌>>=◌, ◌>>◌}
use enterprise_agentops.Exec.Triple.{Post}
use enterprise_agentops.Storage.{ApprovalStatus, pending, Run, Approval, Storage}
use enterprise_agentops.Storage.Host.{Stopwatch}
use enterprise_agentops.RunStore
use enterprise_agentops.ApprovalStore
use enterprise_agentops.Agent.Service.{AgentService, TraceEntry, Outcome, Resolution}
use enterprise_agentops.Agent.Recording.{record_tool_execution, fail_tool, abort}
use enterprise_agentops.Agent.Entry.{
  approval_outcome, deny, reject, resume_with, settle_failure, settle_success, settle_approved,
  grant, execute_approved, approve, approve_run, decide, decide_found, resolve_approval,
}
use enterprise_agentops.Agent.Invariants.Tables.{run_key}
use enterprise_agentops.Agent.Plain.{PlainCall, PlainResult, All-snoc, PlainMessage}
use enterprise_agentops.Agent.SafeWrites.{
  IsStored, Safe, Safe-bind, Safe-pure, apply-Safe, record_event-Safe, add_step-Safe,
}
use enterprise_agentops.Agent.SafeMethods.{
  timed-Safe, record_tool_execution-Safe, record_execution-Safe, fail_tool-Safe, abort-Safe,
}
use enterprise_agentops.Agent.SafeCalls.{IsReliable, execute-plain}
use enterprise_agentops.Agent.SafeLoop.{Plain, drive-Safe}
use enterprise_agentops.Agent.Decisions.{resolved, resolve_lem}

-- The resolution answers the decision.
abbrev pub Answers : String → Bool → Approval → Resolution → Type 0
Answers id b row o = (o.approval_id ≡ id) × (o.approved ≡ b) × (o.tool ≡ row.tool)

module _ {Outside : Type 0} (agent : AgentService Outside) (reliable : IsReliable agent)
    (u : Option String) (id : String) (row : Approval)
    (plain : is_json_fields row.arguments ≡ true) where
  deny-Safe : Safe row.run_id (deny agent u id row) (Answers id false row)
  unfolding deny is_json RunStore.cancel
  deny-Safe = Safe-bind _ (record_event-Safe agent.host _ _ _ _ _ (rw plain refl)) (λ _ _.
      Safe-bind _ (add_step-Safe agent.host _ _ _ _ _ _ plain refl refl) (λ _ _.
        Safe-bind _ (apply-Safe agent.host _ _ (λ _. refl))
          (λ _ _. Safe-pure _ _ (refl, refl, refl))))

  abbrev Going : Exec (Storage Outside) Outcome → Type 0
  Going m = Safe row.run_id m (λ _. Unit)

  resume_with-Safe :
      (c : List ModelMessage) (t : ToolCall) (x : String) (l : List TraceEntry)
      → Plain c
      → Going (resume_with agent u row.run_id c t x l)
  unfolding resume_with
  resume_with-Safe c t x l h =
      drive-Safe agent reliable row.run_id u _ l (All-snoc PlainMessage c _ h tt)

  settle_failure-Safe :
      (c : List ModelMessage) (t : ToolCall) (x : String)
      → Plain c
      → Going (settle_failure agent u row.run_id c t x)
  unfolding settle_failure RunStore.fail
  settle_failure-Safe [] t x h =
      Safe-bind _ (apply-Safe agent.host _ _ (λ _. refl)) (λ _ _. Safe-pure _ _ tt)
  settle_failure-Safe (m ∷ ms) t x h = resume_with-Safe (m ∷ ms) t x [] h

  settle_success-Safe :
      (c : List ModelMessage) (t : ToolCall) (v : Value)
      → Plain c
      → Going (settle_success agent u row.run_id c t v)
  unfolding settle_success RunStore.complete
  settle_success-Safe [] t v h =
      Safe-bind _ (apply-Safe agent.host _ _ (λ _. refl)) (λ _ _. Safe-pure _ _ tt)
  settle_success-Safe (m ∷ ms) t v h = resume_with-Safe (m ∷ ms) t _ _ h

  answers :
      (v : Value) {m : Exec (Storage Outside) Outcome}
      → Going m
      → Safe row.run_id (m >>= λ o. pure (approval_outcome id row.tool v o)) (Answers id true row)
  answers v k = Safe-bind _ k (λ o _. Safe-pure _ _ (refl, refl, refl))

  fails :
      (c : List ModelMessage) (t : ToolCall) (w : Stopwatch) (e : Exception) (k m : String)
      → Plain c
      → PlainCall t
      → Safe row.run_id
          (do
            record_tool_execution agent row.run_id t w null (some e)
            failure ← fail_tool agent row.run_id t k m none
            outcome ← settle_failure agent u row.run_id c t failure
            pure (approval_outcome id row.tool null outcome))
          (Answers id true row)
  fails c t w e k m h p = Safe-bind _ (record_tool_execution-Safe agent _ t w _ _) (λ _ _.
      Safe-bind _ (fail_tool-Safe agent _ t k m none p)
        (λ x _. answers null (settle_failure-Safe c t x h)))

  aborts :
      (t : ToolCall) (w : Stopwatch) (e : Exception)
      → PlainCall t
      → Safe row.run_id
          (do
            record_tool_execution agent row.run_id t w null (some e)
            outcome ← abort agent row.run_id t e [] u
            pure (approval_outcome id row.tool null outcome))
          (Answers id true row)
  aborts t w e p =
      Safe-bind _ (record_tool_execution-Safe agent _ t w _ _)
        (λ _ _. answers null (abort-Safe agent _ t e [] u p))

  settle_approved-Safe :
      (c : List ModelMessage) (t : ToolCall) (w : Stopwatch) (o : Result Value)
      → Plain c
      → PlainCall t
      → PlainResult o
      → Safe row.run_id (settle_approved agent u id row c t (w, o)) (Answers id true row)
  unfolding settle_approved
  settle_approved-Safe c t w (err (Exception.value_error n m)) h p q = fails c t w _ _ _ h p
  settle_approved-Safe c t w (err (Exception.type_error n m)) h p q = fails c t w _ _ _ h p
  settle_approved-Safe c t w (err (Exception.unexpected n m)) h p q = aborts t w _ p
  settle_approved-Safe c t w (err (Exception.approval_required n a k)) h p q = aborts t w _ p
  settle_approved-Safe c t w (ok v) h p q =
      Safe-bind _ (record_tool_execution-Safe agent _ t w _ _) (λ _ _.
        Safe-bind _ (record_execution-Safe agent _ t v u p q)
          (λ _ _. answers v (settle_success-Safe c t v h)))

  grant-Safe :
      (c : List ModelMessage)
      → Plain c
      → Safe row.run_id (grant agent u id row c) (Answers id true row)
  unfolding grant RunStore.resume is_json
  grant-Safe c h = Safe-bind _ (apply-Safe agent.host _ _ (λ _. refl)) (λ _ _.
      Safe-bind _ (record_event-Safe agent.host _ _ _ _ _ (rw plain refl)) (λ _ _.
        Safe-bind _ (add_step-Safe agent.host _ _ _ _ _ _ plain refl refl) (λ _ _.
          Safe-bind _
            (timed-Safe agent _ _ PlainResult
              (λ s q. execute-plain agent _ reliable row.tool row.arguments true _ s plain q))
            (λ (w, o) q. settle_approved-Safe c _ w o h plain q))))

  abbrev Resolves : Bool → Result Resolution × Storage Outside → Type 0
  Resolves b x = (o : Resolution) × (x.0 ≡ ok o) × Answers id b row o

  resolves :
      (b : Bool) (x : Result Resolution × Storage Outside)
      → Post (λ o s. IsStored row.run_id s × Answers id b row o) (λ _ _. ⊥) x
      → Resolves b x
  resolves b (ok o, s) h = (o, refl, h.1)
  resolves b (err e, s) h = absurd h

  module _ (s : Storage Outside) (e : find ApprovalStore.key id s.approvals ≡ some row) (r : Run)
      (c : List ModelMessage) (found : find run_key row.run_id s.runs ≡ some r)
      (reads : deserialise_conversation r.conversation ≡ ok c) (h : Plain c) where
    decide_returns :
        (b : Bool) (t : ApprovalStatus) → t ≡ pending → Resolves b (decide agent u id b row t s)
    unfolding decide reject approve approve_run execute_approved RunStore.get_run ◌>>=◌
    decide_returns false ApprovalStatus.pending p =
        rw (resolve_lem agent u id s row e)
          (resolves false _ (deny-Safe.at (resolved agent u id s row e false) (r, found)))
    decide_returns true ApprovalStatus.pending p =
        rw (found, approve_run, reads, resolve_lem agent u id s row e)
          (resolves true _ ((grant-Safe c h).at (resolved agent u id s row e true) (r, found)))
    decide_returns b ApprovalStatus.approved p = cc
    decide_returns b ApprovalStatus.rejected p = cc

    -- Where the model answers with arguments that `json.dumps` accepts and every tool returns or raises with such
    -- values, a decision on a PENDING approval with such arguments, of a run that is stored with a conversation
    -- that reads back as messages with such arguments, returns a resolution that names the approval, the decision
    -- and the tool.
    pub resolve_approval_returns :
        (b : Bool)
        → row.status ≡ pending
        → (o : Resolution) × ((resolve_approval agent u id b s).0 ≡ ok o) × Answers id b row o
    unfolding resolve_approval decide_found ApprovalStore.get ◌>>=◌
    resolve_approval_returns b p = rw (e, decide_found) (decide_returns b row.status p)
