-- ===== src/Tests/Demo.antt =====
-- The demo of README.md, computed as far as the approval that it waits for.
use enterprise_agentops.Base.{ℕ, ◌≡◌, refl, sym, some}
use mathlib.Core.Path.{subst}
use enterprise_agentops.Base.Table.{find, update}
use enterprise_agentops.Results.{Result, ok}
use enterprise_agentops.Exec.{◌>>=◌}
use enterprise_agentops.Values.{get, is_json, is_json_fields, is_json_items}
use enterprise_agentops.Columns.{fields_column, items_column, to_column, dump}
use enterprise_agentops.Exceptions.{type_name, message}
use enterprise_agentops.Protocol.{
  serialise_conversation, message_to_dict, calls_to_dicts, call_to_dict, first_tool_call,
}
use enterprise_agentops.Storage.{Storage}
use enterprise_agentops.Storage.Host.{utc_now, new_uuid, start, stop, perf_ns, duration_ms}
use enterprise_agentops.RunStore.{
  create_run, get_run, apply, write_run, save_conversation, add_step, await_approval, complete,
  fail, step_numbers,
}
use enterprise_agentops.ApprovalStore
use enterprise_agentops.AuditStore.{record_event}
use enterprise_agentops.Observability
use enterprise_agentops.Observability.{record_model, record_tool, failures_so_far}
use enterprise_agentops.ToolRegistry.{
  risk_value, definitions, call_function, execute_tool, execute_found, execute,
}
use enterprise_agentops.Agent.Service.{
  Outcome, max_iterations_answer, serialise_tool_result, tool_failure_output,
}
use enterprise_agentops.Agent.Recording.{
  timed, record_model_execution, record_tool_execution, ask_model, settle_model, call_model,
  record_execution, fail_tool, save, request_tool, park, abort,
}
use enterprise_agentops.Agent.Loop.{
  answer_call, settle_call, handle_call, take_turn, iteration, exhausted, iterate, drive,
}
use enterprise_agentops.Agent.Entry.{run, request_action, settle_request}
use enterprise_agentops.Tests.Sample.{
  agent, empty, batch, parked_outcome, parked_approval, parked_conversation, direct_outcome,
}
use enterprise_agentops.Agent.Invariants.Tables.{run_key}
use enterprise_agentops.Protocol.{deserialise_conversation}
use enterprise_agentops.Storage.{Run}
use enterprise_agentops.Agent.Decisions.{IsReadable}
use enterprise_agentops.Protocol.RoundTrip.{deserialise_conversation-serialise_conversation}

abbrev pub asked : Result Outcome × Storage ℕ
asked = run agent (some "olga") "Investigate batch 43" empty

abbrev pub read_directly : Result Outcome × Storage ℕ
read_directly = request_action agent (some "olga") "get_migration" batch "Look at batch 43" empty

-- The run, computed
demo : Result Outcome × Storage ℕ
unfolding run ◌>>=◌ create_run utc_now new_uuid save_conversation items_column is_json_items
    serialise_conversation message_to_dict calls_to_dicts apply find drive call_model start perf_ns
    stop answer_call exhausted handle_call iterate iteration settle_call take_turn abort ask_model
    fail_tool park record_execution record_model_execution record_tool_execution request_tool save
    settle_model timed max_iterations_answer serialise_tool_result tool_failure_output
    ApprovalStore.create record_event update dump fields_column to_column message type_name
    Observability.dump failures_so_far record_model record_tool call_to_dict first_tool_call
    add_step await_approval complete fail get_run step_numbers write_run duration_ms call_function
    definitions execute execute_found execute_tool risk_value get is_json is_json_fields
demo = asked

asked-demo : asked ≡ demo
unfolding demo run ◌>>=◌ create_run utc_now new_uuid save_conversation items_column is_json_items
    serialise_conversation message_to_dict calls_to_dicts apply find drive call_model start perf_ns
    stop answer_call exhausted handle_call iterate iteration settle_call take_turn abort ask_model
    fail_tool park record_execution record_model_execution record_tool_execution request_tool save
    settle_model timed max_iterations_answer serialise_tool_result tool_failure_output
    ApprovalStore.create record_event update dump fields_column to_column message type_name
    Observability.dump failures_so_far record_model record_tool call_to_dict first_tool_call
    add_step await_approval complete fail get_run step_numbers write_run duration_ms call_function
    definitions execute execute_found execute_tool risk_value get is_json is_json_fields
asked-demo = refl

pub asked_returns : asked.0 ≡ ok parked_outcome
unfolding demo
asked_returns = subst (λ x. x.0 ≡ ok parked_outcome) (sym asked-demo) refl

pub find-asked : find ApprovalStore.key "u4" asked.1.approvals ≡ some parked_approval
unfolding demo find
find-asked =
    subst (λ x. find ApprovalStore.key "u4" x.1.approvals ≡ some parked_approval) (sym asked-demo)
      refl

pub stored-asked :
    (r : Run) × (find run_key "u0" asked.1.runs ≡ some r)
    × (deserialise_conversation r.conversation ≡ ok parked_conversation)
unfolding demo find serialise_conversation call_to_dict calls_to_dicts message_to_dict
stored-asked =
    subst
      (λ x.
        (r : Run) × (find run_key "u0" x.1.runs ≡ some r)
        × (deserialise_conversation r.conversation ≡ ok parked_conversation))
      (sym asked-demo)
      (_, refl, deserialise_conversation-serialise_conversation parked_conversation)

pub IsReadable-asked : IsReadable "u0" asked.1
IsReadable-asked = let (r, found, reads) = stored-asked in (r, parked_conversation, found, reads)

pub read_directly_returns : read_directly.0 ≡ ok direct_outcome
unfolding request_action settle_request run ◌>>=◌ create_run utc_now new_uuid save_conversation
    items_column is_json_items serialise_conversation message_to_dict calls_to_dicts apply find
    drive call_model start perf_ns stop answer_call exhausted handle_call iterate iteration
    settle_call take_turn abort ask_model fail_tool park record_execution record_model_execution
    record_tool_execution request_tool save settle_model timed max_iterations_answer
    serialise_tool_result tool_failure_output ApprovalStore.create record_event update dump
    fields_column to_column message type_name Observability.dump failures_so_far record_model
    record_tool call_to_dict first_tool_call add_step await_approval complete fail get_run
    step_numbers write_run duration_ms call_function definitions execute execute_found execute_tool
    risk_value get is_json is_json_fields
read_directly_returns = refl
