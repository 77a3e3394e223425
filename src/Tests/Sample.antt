-- ===== src/Tests/Sample.antt =====
-- The demo of README.md: an agent that reads a migration batch and asks to restart it. What lies outside is
-- the number of restarts.
use enterprise_agentops.Base.{
  ℕ, ◌+◌, String, true, false, Option, none, some, List, [], ◌∷◌, length, ltb, if◌then◌else◌,
}
use enterprise_agentops.Values.{Fields, text, number, end, field}
use enterprise_agentops.Protocol.{
  ToolCall, ModelResponse, ModelMessage, user_message, assistant_message, tool_result_message,
}
use enterprise_agentops.Exceptions.{read, write}
use enterprise_agentops.Results.{ok}
use enterprise_agentops.Storage.{Storage, Approval, pending, waiting_for_approval, completed}
use enterprise_agentops.Storage.Host.{Host}
use enterprise_agentops.ToolRegistry.{Tool}
use enterprise_agentops.Agent.Service.{AgentService, Outcome}

abbrev uuid : ℕ → String
uuid n =
    if ltb n 1
    then "u0"
    else if ltb n 2
    then "u1"
    else if ltb n 3
    then "u2"
    else if ltb n 4
    then "u3"
    else "u4"

abbrev pub host : Host
host = record {
  now = λ n. 1000 + n;
  monotonic_ns = λ n. n;
  uuid4 = uuid;
  dumps = λ v. "json";
  str = λ v. "object";
  iso = λ t. "time";
  request_id = some "request";
  actor_source = "UI";
  instance_id = "instance";
}

abbrev pub batch : Fields
batch = field "batch" (number "43") end

abbrev pub get_migration : Tool ℕ
get_migration = record {
  name = "get_migration";
  description = "";
  function = λ a c o. (ok (text "failed"), o);
  parameters = end;
  risk = read;
  model_callable = true;
  wants_context = false;
}

abbrev pub restart_migration : Tool ℕ
restart_migration = record {
  name = "restart_migration";
  description = "";
  function = λ a c o. (ok (text "restarted"), o + 1);
  parameters = end;
  risk = write;
  model_callable = true;
  wants_context = true;
}

abbrev says : Option String → List ToolCall → ModelResponse
says t calls = record {
  content = t;
  tool_calls = calls;
  usage = none;
  model_name = none;
  provider_request_id = none;
}

abbrev call : String → String → ToolCall
call id name = record { id = id; name = name; arguments = batch; argument_error = none }

abbrev calls : String → String → ModelResponse
calls id name = says none (call id name ∷ [])

-- The model reads first, then asks for the restart, then answers.
abbrev pub reply : ℕ → ModelResponse
reply n =
    if ltb n 2
    then calls "c1" "get_migration"
    else if ltb n 4
    then calls "c2" "restart_migration"
    else says (some "I restarted batch 43.") []

abbrev pub agent : AgentService ℕ
agent = record {
  host = host;
  generate_with_tools = λ c d o. (ok (reply (length c)), o);
  tools = get_migration ∷ restart_migration ∷ [];
  max_iterations = 10;
  has_model_executions = true;
  has_tool_executions = true;
  estimate = λ p m u. none;
  provider_name = "openai";
}

abbrev pub empty : Storage ℕ
empty = record {
  runs = [];
  steps = [];
  approvals = [];
  audit_events = [];
  model_executions = [];
  tool_executions = [];
  clock_readings = 0;
  monotonic_readings = 0;
  uuids = 0;
  outside = 0;
}

-- Where the demo's run stops for its approval: what it returns, the approval, and the conversation.
abbrev pub parked_outcome : Outcome
parked_outcome = record {
  run_id = "u0";
  status = waiting_for_approval;
  answer = "Approval required before executing restart_migration.";
  trace = record { tool = "get_migration"; arguments = batch; result = text "failed" } ∷ [];
  approval_required = some (record {
    approval_id = "u4";
    run_id = "u0";
    tool = "restart_migration";
    arguments = batch;
    risk = "WRITE";
  });
}

abbrev pub parked_approval : Approval
parked_approval = record {
  approval_id = "u4";
  run_id = "u0";
  requested_by_user_id = some "olga";
  resolved_by_user_id = none;
  tool_call_id = "c2";
  tool = "restart_migration";
  arguments = batch;
  risk = "WRITE";
  status = pending;
  created_at = 1017;
  resolved_at = none;
  decision = none;
}

abbrev pub parked_conversation : List ModelMessage
parked_conversation =
    user_message "Investigate batch 43"
    ∷ assistant_message none (call "c1" "get_migration" ∷ [])
    ∷ tool_result_message "c1" "get_migration" "json"
    ∷ assistant_message none (call "c2" "restart_migration" ∷ [])
    ∷ []

-- What a direct request for the read ends with
abbrev pub direct_outcome : Outcome
direct_outcome = record {
  run_id = "u0";
  status = completed;
  answer = "The approved action was executed.";
  trace = record { tool = "get_migration"; arguments = batch; result = text "failed" } ∷ [];
  approval_required = none;
}
