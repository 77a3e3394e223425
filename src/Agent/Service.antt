-- ===== src/Agent/Service.antt =====
-- app/agent.py: what `AgentService` holds, what its methods return, and its texts.
use enterprise_agentops.Base.{
  ℕ, zero, suc, ◌/◌, ◌%◌, String, ◌<>◌, Bool, Option, List, ltb, ◌==◌, if◌then◌else◌,
}
use enterprise_agentops.Values.{Value, Fields, null, text, dict, end, field, is_json}
use enterprise_agentops.Protocol.{ToolDefinition, ModelUsage, ModelResponse, ModelMessage}
use enterprise_agentops.Exceptions.{Exception}
use enterprise_agentops.Results.{Result, ok, err}
use enterprise_agentops.Storage.{RunStatus}
use enterprise_agentops.Storage.Host.{Host}
use enterprise_agentops.ToolRegistry.{Tool}

-- The model provider and the price list are given to the constructor, as is the number of
-- iterations; the two stores of metrics are optional.
pub record AgentService (Outside : Type 0) : Type 0 where
  pub host : Host
  pub generate_with_tools :
      List ModelMessage → List ToolDefinition → Outside → Result ModelResponse × Outside
  pub tools : List (Tool Outside)
  pub max_iterations : ℕ
  pub has_model_executions : Bool
  pub has_tool_executions : Bool
  pub estimate : String → Option String → Option ModelUsage → Option ℕ
  pub provider_name : String

-- The decimal digit of a number below ten
digit : ℕ → String
digit n =
    if n == 0
    then "0"
    else if n == 1
    then "1"
    else if n == 2
    then "2"
    else if n == 3
    then "3"
    else if n == 4
    then "4"
    else if n == 5
    then "5"
    else if n == 6
    then "6"
    else if n == 7
    then "7"
    else if n == 8
    then "8"
    else "9"

-- The decimal text of a number, on fuel that exceeds the number of its digits
decimal_from : ℕ → ℕ → String
decimal_from zero n = ""
decimal_from (suc fuel) n =
    let higher = decimal_from fuel (n / 10) in
    if ltb n 10 then digit n else higher <> digit (n % 10)

abbrev pub decimal : ℕ → String
unfolding decimal_from digit
decimal n = decimal_from (suc n) n

-- The constructor refuses a loop that could not run once.
abbrev pub construct : {Outside : Type 0} → AgentService Outside → Result (AgentService Outside)
construct agent =
    if ltb agent.max_iterations 1
    then err (
        Exception.value_error "ValueError"
          ("max_iterations must be at least 1, got " <> (decimal agent.max_iterations <> ".")))
    else ok agent

-- An entry of `trace`
pub record TraceEntry : Type 0 where
  pub tool : String
  pub arguments : Fields
  pub result : Value

-- The dict under `approval_required`
pub record ApprovalRequest : Type 0 where
  pub approval_id : String
  pub run_id : String
  pub tool : String
  pub arguments : Fields
  pub risk : String

-- The dict that `run`, `request_action` and `drive` return
pub record Outcome : Type 0 where
  pub run_id : String
  pub status : RunStatus
  pub answer : String
  pub trace : List TraceEntry
  pub approval_required : Option ApprovalRequest

-- The dict that `resolve_approval` returns
pub record Resolution : Type 0 where
  pub approval_id : String
  pub approved : Bool
  pub tool : String
  pub result : Value
  pub run_id : String
  pub run_status : RunStatus
  pub answer : String
  pub trace : List TraceEntry
  pub approval_required : Option ApprovalRequest

-- The answers, as app/agent.py spells them
unfoldable pub max_iterations_answer : ℕ → String
max_iterations_answer n =
    "Stopped after reaching the maximum of "
    <> (decimal n <> " reasoning iterations without producing a final answer.")

abbrev pub agent_failed_answer : String
agent_failed_answer =
    "The agent stopped because a tool failed unexpectedly. The failure has been recorded in the audit log."

abbrev pub approval_denied_answer : String
approval_denied_answer = "The requested action was not approved, so nothing was executed."

abbrev pub direct_action_answer : String
direct_action_answer = "The approved action was executed."

abbrev pub direct_action_failed_answer : String
direct_action_failed_answer =
    "The approved action could not be executed. The failure has been recorded in the audit log."

-- `serialise_tool_result`
unfoldable pub serialise_tool_result : Host → Value → String
serialise_tool_result host result = if is_json result then host.dumps result else host.str result

-- `tool_failure_output`
unfoldable pub tool_failure_output : Host → String → String → String
tool_failure_output host error_type message = host.dumps (
    dict (
      field "error" (dict (field "type" (text error_type) (field "message" (text message) end)))
        end))

-- `call.arguments or None`
abbrev pub or_none : Fields → Value
or_none end = null
or_none fs = dict fs
