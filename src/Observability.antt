-- ===== src/Observability.antt =====
-- app/observability_store.py: one row for each model call and each tool execution.
use enterprise_agentops.Base.{
  ℕ, ◌+◌, String, str_eq, Bool, true, false, ◌&&◌, Option, none, some, List, [], ◌∷◌, ◌++◌, map,
  select, length, maximum, if◌then◌else◌,
}
use enterprise_agentops.Values.{Value, null, text, is_json}
use enterprise_agentops.Protocol.{ModelUsage}
use enterprise_agentops.Exec.{Exec, gets, modify, ◌>>=◌}
use enterprise_agentops.Storage.{ExecutionStatus, ModelExecution, ToolExecution, Storage}
use enterprise_agentops.Storage.Host.{Host, Stopwatch, duration_ms, new_uuid}

-- `dump`: a value that `json.dumps` rejects is stored as its `str()`.
unfoldable pub dump : Host → Value → Option Value
dump host null = none
dump host v = if is_json v then some v else some (text (host.str v))

-- `usage.… if usage else None`
abbrev count_of : Option ModelUsage → (ModelUsage → Option ℕ) → Option ℕ
count_of none field = none
count_of (some usage) field = field usage

abbrev is_failed : ExecutionStatus → Bool
is_failed ExecutionStatus.failed = true
is_failed ExecutionStatus.completed = false

-- `failures_so_far`, over the rows of the table
unfoldable pub failures_so_far : String → String → List ToolExecution → ℕ
failures_so_far run_id tool_name rows = length (
    select
      (λ (r : ToolExecution).
        str_eq r.run_id run_id && str_eq r.tool_name tool_name && is_failed r.status)
      rows)

module _ {Outside : Type 0} (host : Host) where
  -- `ModelExecutionStore.record`
  unfoldable pub record_model :
      String
      → String
      → Option String
      → ExecutionStatus
      → Stopwatch
      → Option ModelUsage
      → Option ℕ
      → Option String
      → Option String
      → Option String
      → Exec (Storage Outside) Unit
  record_model run_id provider model status watch usage cost provider_request_id error_type
        error_message =
      do
        id ← new_uuid host
        modify (λ s.
            let sequences =
              map (λ (r : ModelExecution). r.sequence)
                (select (λ (r : ModelExecution). str_eq r.run_id run_id) s.model_executions) in
            let row : ModelExecution = record {
              model_execution_id = id;
              run_id = run_id;
              sequence = maximum sequences + 1;
              provider = provider;
              model = model;
              provider_request_id = provider_request_id;
              status = status;
              started_at = watch.started_at;
              completed_at = watch.completed_at;
              duration_ms = duration_ms watch;
              input_tokens = count_of usage (λ u. u.input_tokens);
              output_tokens = count_of usage (λ u. u.output_tokens);
              total_tokens = count_of usage (λ u. u.total_tokens);
              cached_input_tokens = count_of usage (λ u. u.cached_input_tokens);
              reasoning_tokens = count_of usage (λ u. u.reasoning_tokens);
              estimated_cost = cost;
              error_type = error_type;
              error_message = error_message;
            } in
            record s { model_executions = s.model_executions ++ row ∷ [] })

  -- `ToolExecutionStore.record`, which numbers the retry itself
  unfoldable pub record_tool :
      String
      → String
      → String
      → ExecutionStatus
      → Stopwatch
      → Value
      → Value
      → Value
      → Exec (Storage Outside) Unit
  unfolding dump
  record_tool run_id tool_name tool_call_id status watch arguments result error = do
    attempt ← gets (λ s. failures_so_far run_id tool_name s.tool_executions)
    id ← new_uuid host
    let row : ToolExecution = record {
      tool_execution_id = id;
      run_id = run_id;
      tool_call_id = tool_call_id;
      tool_name = tool_name;
      status = status;
      started_at = watch.started_at;
      completed_at = watch.completed_at;
      duration_ms = duration_ms watch;
      retry_number = attempt;
      arguments = dump host arguments;
      result = dump host result;
      error = dump host error;
    }
    modify (λ s. record s { tool_executions = s.tool_executions ++ row ∷ [] })
