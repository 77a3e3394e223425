-- ===== src/Storage.antt =====
-- app/db_models.py: the rows of the agent's tables, and all that one process reads and writes while
-- it serves a run. A status is its enum, a timestamp (UTC ISO text, ordered as its instant) is a
-- number of microseconds, and a JSON column is the value that its text stands for.
pub mod Host
use enterprise_agentops.Base.{ℕ, String, Option, List}
use enterprise_agentops.Values.{Value, Items, Fields}

-- `RunStatus` of app/run_store.py
pub data RunStatus : Type 0 where
  running waiting_for_approval completed failed cancelled : RunStatus

-- `StepType` of app/run_store.py
pub data StepType : Type 0 where
  model_response tool_requested tool_executed tool_failed : StepType
  approval_required approval_granted approval_denied run_reconciled : StepType

-- `ApprovalStatus` of app/approval_store.py
pub data ApprovalStatus : Type 0 where
  pending approved rejected : ApprovalStatus

-- `ExecutionStatus` of app/observability_store.py
pub data ExecutionStatus : Type 0 where
  completed failed : ExecutionStatus

-- `RunRecord`
pub record Run : Type 0 where
  pub run_id : String
  pub status : RunStatus
  pub requested_by_user_id : Option String
  pub user_message : String
  pub final_answer : Option String
  pub conversation : Items
  pub created_at : ℕ
  pub updated_at : ℕ

-- `RunStepRecord`
pub record RunStep : Type 0 where
  pub run_id : String
  pub step_number : ℕ
  pub step_type : StepType
  pub tool_name : Option String
  pub arguments : Option Value
  pub result : Option Value
  pub error : Option Value
  pub created_at : ℕ

-- `ApprovalRecord`; `risk` is a text column, as the authorization policy reads it
pub record Approval : Type 0 where
  pub approval_id : String
  pub run_id : String
  pub requested_by_user_id : Option String
  pub resolved_by_user_id : Option String
  pub tool_call_id : String
  pub tool : String
  pub arguments : Fields
  pub risk : String
  pub status : ApprovalStatus
  pub created_at : ℕ
  pub resolved_at : Option ℕ
  pub decision : Option ApprovalStatus

-- `AuditEventRecord`
pub record AuditEvent : Type 0 where
  pub id : ℕ
  pub run_id : Option String
  pub actor_user_id : Option String
  pub event_type : String
  pub details : Fields
  pub request_id : Option String
  pub actor_source : String
  pub instance_id : String

-- `ModelExecutionRecord`; a cost is in millionths of a dollar, since it is rounded to six places
pub record ModelExecution : Type 0 where
  pub model_execution_id : String
  pub run_id : String
  pub sequence : ℕ
  pub provider : String
  pub model : Option String
  pub provider_request_id : Option String
  pub status : ExecutionStatus
  pub started_at : ℕ
  pub completed_at : ℕ
  pub duration_ms : ℕ
  pub input_tokens : Option ℕ
  pub output_tokens : Option ℕ
  pub total_tokens : Option ℕ
  pub cached_input_tokens : Option ℕ
  pub reasoning_tokens : Option ℕ
  pub estimated_cost : Option ℕ
  pub error_type : Option String
  pub error_message : Option String

-- `ToolExecutionRecord`
pub record ToolExecution : Type 0 where
  pub tool_execution_id : String
  pub run_id : String
  pub tool_call_id : String
  pub tool_name : String
  pub status : ExecutionStatus
  pub started_at : ℕ
  pub completed_at : ℕ
  pub duration_ms : ℕ
  pub retry_number : ℕ
  pub arguments : Option Value
  pub result : Option Value
  pub error : Option Value

-- The tables, the number of readings taken of each clock and of uuid4, and everything that the
-- tools and the model reach: providers, mail, other tables.
pub record Storage (Outside : Type 0) : Type 0 where
  pub runs : List Run
  pub steps : List RunStep
  pub approvals : List Approval
  pub audit_events : List AuditEvent
  pub model_executions : List ModelExecution
  pub tool_executions : List ToolExecution
  pub clock_readings : ℕ
  pub monotonic_readings : ℕ
  pub uuids : ℕ
  pub outside : Outside
