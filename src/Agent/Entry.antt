-- ===== src/Agent/Entry.antt =====
-- app/agent.py: the entry points of `AgentService`: `run`, `request_action` and `resolve_approval`.
use enterprise_agentops.Base.{
  String, ◌<>◌, Bool, true, false, Option, none, some, List, [], ◌∷◌, ◌++◌, if◌then◌else◌,
}
use enterprise_agentops.Values.{Value, Fields, null, text, nil, end, field}
use enterprise_agentops.Protocol.{
  ToolCall, ModelMessage, user_message, tool_result_message, serialise_conversation,
  deserialise_conversation,
}
use enterprise_agentops.Exceptions.{Exception, type_name, message}
use enterprise_agentops.Results.{Result, ok, err}
use enterprise_agentops.Exec.{Exec, pure, raise, lift, ◌>>=◌, ◌>>◌}
use enterprise_agentops.Storage.{
  completed, failed, cancelled, StepType, ApprovalStatus, Run, Approval, Storage,
}
use enterprise_agentops.Storage.Host.{Stopwatch}
use enterprise_agentops.RunStore
use enterprise_agentops.RunStore.{add_step, unknown_run}
use enterprise_agentops.ApprovalStore
use enterprise_agentops.ApprovalStore.{unknown_approval}
use enterprise_agentops.AuditStore.{record_event}
use enterprise_agentops.ToolRegistry.{execute}
use enterprise_agentops.Agent.Service.{
  AgentService, TraceEntry, Outcome, Resolution, direct_action_answer, direct_action_failed_answer,
  approval_denied_answer, serialise_tool_result,
}
use enterprise_agentops.Agent.Recording.{
  finished, timed, record_tool_execution, record_execution, fail_tool, request_tool, park, abort,
}
use enterprise_agentops.Agent.Loop.{drive, run_context}

abbrev trace_of : ToolCall → Value → List TraceEntry
trace_of call result = record { tool = call.name; arguments = call.arguments; result = result } ∷ []

-- `approval_outcome`
abbrev pub approval_outcome : String → String → Value → Outcome → Resolution
approval_outcome approval_id tool result outcome = record {
  approval_id = approval_id;
  approved = true;
  tool = tool;
  result = result;
  run_id = outcome.run_id;
  run_status = outcome.status;
  answer = outcome.answer;
  trace = outcome.trace;
  approval_required = outcome.approval_required;
}

abbrev pub already_resolved : String → ApprovalStatus → Exception
already_resolved approval_id status =
    Exception.value_error "ValueError"
      ("Approval " <> (approval_id <> (" was already resolved as " <> status_text status)))
  where
    status_text : ApprovalStatus → String
    status_text ApprovalStatus.pending = "PENDING."
    status_text ApprovalStatus.approved = "APPROVED."
    status_text ApprovalStatus.rejected = "REJECTED."

-- `{"approval_id": …, "tool": …, "arguments": …}`
abbrev decision_details : String → Approval → Fields
decision_details approval_id pending =
    field "approval_id" (text approval_id)
      (field "tool" (text pending.tool) (field "arguments" (Value.dict pending.arguments) end))

-- `not conversation`
abbrev pub is_direct : List ModelMessage → Bool
is_direct [] = true
is_direct (_ ∷ _) = false

module _ {Outside : Type 0} (agent : AgentService Outside) (actor : Option String) where
  unfoldable pub run : String → Exec (Storage Outside) Outcome
  run content = do
    run_id ← RunStore.create_run agent.host content actor
    RunStore.save_conversation agent.host run_id
        (serialise_conversation (user_message content ∷ []))
    drive agent run_id actor (user_message content ∷ []) []

  -- The direct action failed on an argument error.
  abbrev fail_direct : String → Exec (Storage Outside) Outcome
  fail_direct run_id = do
    RunStore.fail agent.host run_id direct_action_failed_answer
    pure (finished run_id failed direct_action_failed_answer [])

  unfoldable pub settle_request :
      String → ToolCall → Stopwatch × Result Value → Exec (Storage Outside) Outcome
  settle_request run_id call (watch, err (Exception.approval_required tool arguments risk)) =
      park agent run_id [] call tool arguments risk [] actor
  settle_request run_id call (watch, err (Exception.unexpected name reason)) = do
    record_tool_execution agent run_id call watch null (some (Exception.unexpected name reason))
    abort agent run_id call (Exception.unexpected name reason) [] actor
  settle_request run_id call (watch, err recoverable) = do
    record_tool_execution agent run_id call watch null (some recoverable)
    fail_tool agent run_id call (type_name recoverable) (message recoverable) actor
    fail_direct run_id
  settle_request run_id call (watch, ok result) = do
    record_tool_execution agent run_id call watch result none
    record_execution agent run_id call result actor
    RunStore.complete agent.host run_id direct_action_answer
    pure (finished run_id completed direct_action_answer (trace_of call result))

  unfoldable pub request_action : String → Fields → String → Exec (Storage Outside) Outcome
  unfolding settle_request
  request_action tool arguments summary = do
    run_id ← RunStore.create_run agent.host summary actor
    RunStore.save_conversation agent.host run_id nil
    let call : ToolCall = record {
      id = "direct-" <> run_id;
      name = tool;
      arguments = arguments;
      argument_error = none;
    }
    request_tool agent run_id call actor
    measured ← timed agent (execute agent.tools tool arguments false (run_context run_id))
    settle_request run_id call measured

  -- `reject`, once the decision is recorded
  unfoldable pub deny : String → Approval → Exec (Storage Outside) Resolution
  deny approval_id pending = do
    record_event agent.host "APPROVAL_DENIED" (decision_details approval_id pending)
        (some pending.run_id) actor
    add_step agent.host pending.run_id StepType.approval_denied (some pending.tool)
        (Value.dict pending.arguments) null null
    RunStore.cancel agent.host pending.run_id approval_denied_answer
    pure (record {
      approval_id = approval_id;
      approved = false;
      tool = pending.tool;
      result = null;
      run_id = pending.run_id;
      run_status = cancelled;
      answer = approval_denied_answer;
      trace = [];
      approval_required = none;
    })

  unfoldable pub reject : String → Approval → Exec (Storage Outside) Resolution
  reject approval_id pending = do
    ApprovalStore.resolve agent.host approval_id false actor
    deny approval_id pending

  -- After the approved execution: `direct` ends the run, and otherwise the loop goes on.
  unfoldable pub resume_with :
      String
      → List ModelMessage
      → ToolCall
      → String
      → List TraceEntry
      → Exec (Storage Outside) Outcome
  resume_with run_id conversation call content trace =
      drive agent run_id actor (conversation ++ tool_result_message call.id call.name content ∷ [])
        trace

  unfoldable pub settle_failure :
      String → List ModelMessage → ToolCall → String → Exec (Storage Outside) Outcome
  settle_failure run_id [] call failure = fail_direct run_id
  settle_failure run_id (m ∷ ms) call failure = resume_with run_id (m ∷ ms) call failure []

  unfoldable pub settle_success :
      String → List ModelMessage → ToolCall → Value → Exec (Storage Outside) Outcome
  settle_success run_id [] call result = do
    RunStore.complete agent.host run_id direct_action_answer
    pure (finished run_id completed direct_action_answer (trace_of call result))
  settle_success run_id (m ∷ ms) call result =
      resume_with run_id (m ∷ ms) call (serialise_tool_result agent.host result)
        (trace_of call result)

  -- An `ApprovalRequired` that the tool itself raises is an unexpected exception here. The recoverable
  -- failure is audited with no actor.
  unfoldable pub settle_approved :
      String
      → Approval
      → List ModelMessage
      → ToolCall
      → Stopwatch × Result Value
      → Exec (Storage Outside) Resolution
  unfolding settle_failure settle_success resume_with
  settle_approved approval_id pending conversation call
        (watch, err (Exception.value_error name reason)) =
      do
        record_tool_execution agent pending.run_id call watch null
            (some (Exception.value_error name reason))
        failure ← fail_tool agent pending.run_id call name reason none
        outcome ← settle_failure pending.run_id conversation call failure
        pure (approval_outcome approval_id pending.tool null outcome)
  settle_approved approval_id pending conversation call
        (watch, err (Exception.type_error name reason)) =
      do
        record_tool_execution agent pending.run_id call watch null
            (some (Exception.type_error name reason))
        failure ← fail_tool agent pending.run_id call name reason none
        outcome ← settle_failure pending.run_id conversation call failure
        pure (approval_outcome approval_id pending.tool null outcome)
  settle_approved approval_id pending conversation call (watch, err exc) = do
    record_tool_execution agent pending.run_id call watch null (some exc)
    outcome ← abort agent pending.run_id call exc [] actor
    pure (approval_outcome approval_id pending.tool null outcome)
  settle_approved approval_id pending conversation call (watch, ok result) = do
    record_tool_execution agent pending.run_id call watch result none
    record_execution agent pending.run_id call result actor
    outcome ← settle_success pending.run_id conversation call result
    pure (approval_outcome approval_id pending.tool result outcome)

  -- `approve`, once the decision is recorded
  unfoldable pub grant : String → Approval → List ModelMessage → Exec (Storage Outside) Resolution
  unfolding settle_approved
  grant approval_id pending conversation = do
    RunStore.resume agent.host pending.run_id
    record_event agent.host "APPROVAL_GRANTED" (decision_details approval_id pending)
        (some pending.run_id) actor
    add_step agent.host pending.run_id StepType.approval_granted (some pending.tool)
        (Value.dict pending.arguments) null null
    let call : ToolCall = record {
      id = pending.tool_call_id;
      name = pending.tool;
      arguments = pending.arguments;
      argument_error = none;
    }
    measured ← timed agent (
        execute agent.tools pending.tool pending.arguments true
          (some (record { run_id = some pending.run_id; approval_id = some approval_id })))
    settle_approved approval_id pending conversation call measured

  -- `approve`, from where the run is found and its conversation is read
  unfoldable pub execute_approved :
      String → Approval → List ModelMessage → Exec (Storage Outside) Resolution
  execute_approved approval_id pending conversation = do
    ApprovalStore.resolve agent.host approval_id true actor
    grant approval_id pending conversation

  unfoldable pub approve_run : String → Approval → Option Run → Exec (Storage Outside) Resolution
  approve_run approval_id pending none = raise (unknown_run pending.run_id)
  approve_run approval_id pending (some found) = do
    conversation ← lift (deserialise_conversation found.conversation)
    execute_approved approval_id pending conversation

  unfoldable pub approve : String → Approval → Exec (Storage Outside) Resolution
  unfolding approve_run
  approve approval_id pending = do
    found ← RunStore.get_run agent.host pending.run_id
    approve_run approval_id pending found

  -- `if pending.status != "PENDING"`, then the decision
  unfoldable pub decide :
      String → Bool → Approval → ApprovalStatus → Exec (Storage Outside) Resolution
  decide approval_id approved row ApprovalStatus.pending =
      if approved then approve approval_id row else reject approval_id row
  decide approval_id approved row status = raise (already_resolved approval_id status)

  unfoldable pub decide_found : String → Bool → Option Approval → Exec (Storage Outside) Resolution
  decide_found approval_id approved none = raise (unknown_approval approval_id)
  decide_found approval_id approved (some row) = decide approval_id approved row row.status

  unfoldable pub resolve_approval : String → Bool → Exec (Storage Outside) Resolution
  unfolding decide_found decide
  resolve_approval approval_id approved = do
    found ← ApprovalStore.get agent.host approval_id
    decide_found approval_id approved found
