-- ===== src/Agent/Loop.antt =====
-- app/agent.py: `drive`, the bounded loop of one tool call to an iteration. `next` is the rest of the
-- loop, which a branch that says `continue` or falls through runs.
use enterprise_agentops.Base.{
  ℕ, zero, suc, String, false, Option, none, some, List, [], ◌∷◌, ◌++◌, length,
}
use enterprise_agentops.Values.{Value, null, number, dict, list, end, field, of_option}
use enterprise_agentops.Protocol.{
  ToolCall, ModelResponse, ModelMessage, first_tool_call, assistant_message, tool_result_message,
  calls_to_dicts,
}
use enterprise_agentops.Exceptions.{Exception, type_name, message}
use enterprise_agentops.Results.{Result, ok, err}
use enterprise_agentops.Exec.{Exec, pure, ◌>>=◌, ◌>>◌}
use enterprise_agentops.Storage.{completed, failed, StepType, Storage}
use enterprise_agentops.Storage.Host.{Stopwatch}
use enterprise_agentops.RunStore
use enterprise_agentops.RunStore.{add_step}
use enterprise_agentops.AuditStore.{record_event}
use enterprise_agentops.ToolRegistry.{ExecutionContext, execute}
use enterprise_agentops.Agent.Service.{
  AgentService, TraceEntry, Outcome, max_iterations_answer, serialise_tool_result, decimal,
}
use enterprise_agentops.Agent.Recording.{
  finished, timed, call_model, record_tool_execution, record_execution, fail_tool, save,
  request_tool, park, abort,
}

-- `response.text or ""`
abbrev pub answer_of : ModelResponse → String
answer_of response = elim response.content [ none ↦ "" | some t ↦ t ]

abbrev pub invalid_arguments_error : String
invalid_arguments_error = "InvalidToolArguments"

-- The result of the MODEL_RESPONSE step
abbrev response_value : ModelResponse → Value
response_value response = dict (
    field "text" (of_option response.content)
      (field "tool_calls" (list (calls_to_dicts response.tool_calls)) end))

-- `ExecutionContext(run_id=run_id)`
abbrev pub run_context : String → Option ExecutionContext
run_context run_id = some (record { run_id = some run_id; approval_id = none })

module _ {Outside : Type 0} (agent : AgentService Outside) (run_id : String)
    (actor : Option String) where
  abbrev pub Next : Type 0
  Next = List ModelMessage → List TraceEntry → Exec (Storage Outside) Outcome

  -- A tool result is appended and saved, and the loop goes on.
  unfoldable pub answer_call :
      Next
      → List ModelMessage
      → ToolCall
      → String
      → List TraceEntry
      → Exec (Storage Outside) Outcome
  answer_call next conversation call content trace = do
    let extended = conversation ++ tool_result_message call.id call.name content ∷ []
    save agent run_id extended
    next extended trace

  -- The handlers of `execute`, and what follows where it returned
  unfoldable pub settle_call :
      Next
      → List ModelMessage
      → ToolCall
      → List TraceEntry
      → Stopwatch × Result Value
      → Exec (Storage Outside) Outcome
  settle_call next conversation call trace
        (watch, err (Exception.approval_required tool arguments risk)) =
      park agent run_id conversation call tool arguments risk trace actor
  settle_call next conversation call trace (watch, err (Exception.unexpected name reason)) = do
    record_tool_execution agent run_id call watch null (some (Exception.unexpected name reason))
    abort agent run_id call (Exception.unexpected name reason) trace actor
  settle_call next conversation call trace (watch, err recoverable) = do
    record_tool_execution agent run_id call watch null (some recoverable)
    failure ← fail_tool agent run_id call (type_name recoverable) (message recoverable) actor
    answer_call next conversation call failure trace
  settle_call next conversation call trace (watch, ok result) = do
    record_tool_execution agent run_id call watch result none
    record_execution agent run_id call result actor
    let entry : TraceEntry = record {
      tool = call.name;
      arguments = call.arguments;
      result = result;
    }
    answer_call next conversation call (serialise_tool_result agent.host result)
        (trace ++ entry ∷ [])

  -- One tool call, with the assistant's message already in the conversation
  unfoldable pub handle_call :
      Next
      → List ModelMessage
      → ToolCall
      → List TraceEntry
      → Option String
      → Exec (Storage Outside) Outcome
  handle_call next conversation call trace (some argument_error) = do
    failure ← fail_tool agent run_id call invalid_arguments_error argument_error actor
    answer_call next conversation call failure trace
  handle_call next conversation call trace none = do
    request_tool agent run_id call actor
    measured ← timed agent (execute agent.tools call.name call.arguments false (run_context run_id))
    settle_call next conversation call trace measured

  unfoldable pub take_turn :
      Next
      → List ModelMessage
      → List TraceEntry
      → ModelResponse
      → Option ToolCall
      → Exec (Storage Outside) Outcome
  take_turn next conversation trace response none = do
    RunStore.complete agent.host run_id (answer_of response)
    pure (finished run_id completed (answer_of response) trace)
  take_turn next conversation trace response (some call) =
      handle_call next (conversation ++ assistant_message response.content (call ∷ []) ∷ []) call
        trace call.argument_error

  -- The body of the `for`
  unfoldable pub iteration : Next → Next
  unfolding take_turn handle_call settle_call answer_call
  iteration next conversation trace = do
    response ← call_model agent run_id conversation
    add_step agent.host run_id StepType.model_response none null (response_value response) null
    take_turn next conversation trace response (first_tool_call response)

  -- What follows the `for`
  unfoldable pub exhausted : List TraceEntry → Exec (Storage Outside) Outcome
  exhausted trace = do
    let answer = max_iterations_answer agent.max_iterations
    record_event agent.host "AGENT_MAX_ITERATIONS"
        (field "max_iterations" (number (decimal agent.max_iterations))
          (field "tool_calls" (number (decimal (length trace))) end))
        (some run_id) actor
    RunStore.fail agent.host run_id answer
    pure (finished run_id failed answer trace)

  -- The loop, by the number of iterations that are left
  unfoldable pub iterate : ℕ → Next
  unfolding iteration exhausted
  iterate zero conversation trace = exhausted trace
  iterate (suc n) conversation trace = iteration (iterate n) conversation trace

  unfoldable pub drive : List ModelMessage → List TraceEntry → Exec (Storage Outside) Outcome
  unfolding iterate
  drive conversation trace = iterate agent.max_iterations conversation trace
