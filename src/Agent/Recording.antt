-- ===== src/Agent/Recording.antt =====
-- app/agent.py: the parts of `AgentService` that measure and record.
use enterprise_agentops.Base.{
  String, ◌<>◌, Bool, true, false, Option, none, some, List, if◌then◌else◌,
}
use enterprise_agentops.Values.{Value, Fields, null, text, dict, end, field}
use enterprise_agentops.Protocol.{
  ToolCall, ModelUsage, ModelResponse, ModelMessage, serialise_conversation,
}
use enterprise_agentops.Exceptions.{Exception, ToolRisk, type_name, message}
use enterprise_agentops.Results.{Result, ok, err}
use enterprise_agentops.Exec.{Exec, pure, raise, attempt, ◌>>=◌, ◌>>◌}
use enterprise_agentops.Storage.{
  ExecutionStatus, waiting_for_approval, failed, RunStatus, StepType, Storage,
}
use enterprise_agentops.Storage.Host.{Stopwatch, start, stop}
use enterprise_agentops.RunStore
use enterprise_agentops.RunStore.{add_step}
use enterprise_agentops.ApprovalStore
use enterprise_agentops.AuditStore.{record_event}
use enterprise_agentops.Observability.{record_model, record_tool}
use enterprise_agentops.ToolRegistry.{definitions, risk_value}
use enterprise_agentops.Agent.Service.{
  AgentService, TraceEntry, Outcome, agent_failed_answer, tool_failure_output, or_none,
}

-- `finished`
abbrev pub finished : String → RunStatus → String → List TraceEntry → Outcome
finished run_id status answer trace = record {
  run_id = run_id;
  status = status;
  answer = answer;
  trace = trace;
  approval_required = none;
}

-- `{"tool": …, "arguments": …}`, before further fields
abbrev pub call_details : ToolCall → Fields → Fields
call_details call rest =
    field "tool" (text call.name) (field "arguments" (dict call.arguments) rest)

-- `{"error_type": …, "error": …}`
abbrev pub error_fields : String → String → Fields
error_fields error_type error =
    field "error_type" (text error_type) (field "error" (text error) end)

abbrev error_value : Option Exception → Value
unfolding type_name message
error_value none = null
error_value (some e) = dict (error_fields (type_name e) (message e))

abbrev is_raised : Option Exception → Bool
is_raised none = false
is_raised (some _) = true

module _ {Outside : Type 0} (agent : AgentService Outside) where
  -- `with watch:` around a block, in a `try`
  unfoldable pub timed :
      {A : Type 0} → Exec (Storage Outside) A → Exec (Storage Outside) (Stopwatch × Result A)
  timed m = do
    begun ← start agent.host
    r ← attempt m
    watch ← stop agent.host begun
    pure (watch, r)

  unfoldable pub record_model_execution :
      String
      → Stopwatch
      → ExecutionStatus
      → Option String
      → Option ModelUsage
      → Option String
      → Option String
      → Option String
      → Exec (Storage Outside) Unit
  record_model_execution run_id watch status model usage provider_request_id error_type
        error_message =
      if agent.has_model_executions
      then record_model agent.host run_id agent.provider_name model status watch usage
          (agent.estimate agent.provider_name model usage) provider_request_id error_type
          error_message
      else pure tt

  unfoldable pub record_tool_execution :
      String → ToolCall → Stopwatch → Value → Option Exception → Exec (Storage Outside) Unit
  unfolding error_value
  record_tool_execution run_id call watch result exc =
      if agent.has_tool_executions
      then record_tool agent.host run_id call.name call.id
          (if is_raised exc then ExecutionStatus.failed else ExecutionStatus.completed) watch
          (dict call.arguments) (if is_raised exc then null else result) (error_value exc)
      else pure tt

  unfoldable pub ask_model : List ModelMessage → Exec (Storage Outside) ModelResponse
  ask_model conversation s =
      let (r, outside) =
        agent.generate_with_tools conversation (definitions agent.tools) s.outside in
      (r, record s { outside = outside })

  unfoldable pub settle_model :
      String → Stopwatch × Result ModelResponse → Exec (Storage Outside) ModelResponse
  settle_model run_id (watch, err e) = do
    record_model_execution run_id watch ExecutionStatus.failed none none none (some (type_name e))
        (some (message e))
    raise e
  settle_model run_id (watch, ok response) = do
    record_model_execution run_id watch ExecutionStatus.completed response.model_name response.usage
        response.provider_request_id none none
    pure response

  unfoldable pub call_model : String → List ModelMessage → Exec (Storage Outside) ModelResponse
  unfolding timed ask_model settle_model
  call_model run_id conversation = do
    measured ← timed (ask_model conversation)
    settle_model run_id measured

  unfoldable pub record_execution :
      String → ToolCall → Value → Option String → Exec (Storage Outside) Unit
  record_execution run_id call result actor = do
    record_event agent.host "TOOL_EXECUTED" (call_details call (field "result" result end))
        (some run_id) actor
    add_step agent.host run_id StepType.tool_executed (some call.name) (dict call.arguments) result
        null
    pure tt

  unfoldable pub fail_tool :
      String → ToolCall → String → String → Option String → Exec (Storage Outside) String
  fail_tool run_id call error_type error actor = do
    record_event agent.host "TOOL_FAILED"
        (field "tool" (text call.name)
          (field "arguments" (or_none call.arguments) (error_fields error_type error)))
        (some run_id) actor
    add_step agent.host run_id StepType.tool_failed (some call.name) (or_none call.arguments) null
        (dict (error_fields error_type error))
    pure (tool_failure_output agent.host error_type error)

  unfoldable pub save : String → List ModelMessage → Exec (Storage Outside) Unit
  save run_id conversation =
      RunStore.save_conversation agent.host run_id (serialise_conversation conversation)

  -- The audit event and the step that a requested call leaves before it is executed
  unfoldable pub request_tool : String → ToolCall → Option String → Exec (Storage Outside) Unit
  request_tool run_id call actor = do
    record_event agent.host "TOOL_REQUESTED" (call_details call end) (some run_id) actor
    add_step agent.host run_id StepType.tool_requested (some call.name) (dict call.arguments) null
        null
    pure tt

  unfoldable pub park :
      String
      → List ModelMessage
      → ToolCall
      → String
      → Fields
      → ToolRisk
      → List TraceEntry
      → Option String
      → Exec (Storage Outside) Outcome
  park run_id conversation call tool arguments risk trace actor = do
    RunStore.await_approval agent.host run_id (serialise_conversation conversation)
    pending ← ApprovalStore.create agent.host tool arguments (risk_value risk) run_id call.id actor
    record_event agent.host "APPROVAL_REQUIRED"
        (field "approval_id" (text pending.approval_id) (
          field "tool" (text pending.tool)
            (field "arguments" (dict pending.arguments) (field "risk" (text pending.risk) end))))
        (some run_id) actor
    add_step agent.host run_id StepType.approval_required (some pending.tool)
        (dict pending.arguments) null null
    pure (record {
      run_id = run_id;
      status = waiting_for_approval;
      answer = "Approval required before executing " <> (tool <> ".");
      trace = trace;
      approval_required = some (record {
        approval_id = pending.approval_id;
        run_id = run_id;
        tool = pending.tool;
        arguments = pending.arguments;
        risk = pending.risk;
      });
    })

  unfoldable pub abort :
      String
      → ToolCall
      → Exception
      → List TraceEntry
      → Option String
      → Exec (Storage Outside) Outcome
  abort run_id call exc trace actor = do
    record_event agent.host "AGENT_FAILED"
        (call_details call (error_fields (type_name exc) (message exc))) (some run_id) actor
    RunStore.fail agent.host run_id agent_failed_answer
    pure (finished run_id failed agent_failed_answer trace)
