-- ===== src/Agent/Invariants/Rules.antt =====
-- What a predicate on the storage has to survive to be an invariant of the agent, and the parts of
-- `AgentService` that record.
use enterprise_agentops.Base.{ℕ, String, false, Option, List}
use enterprise_agentops.Values.{Value, Items, Fields}
use enterprise_agentops.Protocol.{ToolCall, ModelMessage, ModelUsage}
use enterprise_agentops.Exceptions.{Exception, ToolRisk}
use enterprise_agentops.Exec.{Exec}
use enterprise_agentops.Exec.Triple.{Keeps, keeps_rules, Keeps-bind, Keeps-attempt, Keeps-pure}
use enterprise_agentops.Storage.{StepType, ExecutionStatus, Storage}
use enterprise_agentops.Storage.Host.{Stopwatch, utc_now, perf_ns, start, stop}
use enterprise_agentops.RunStore
use enterprise_agentops.ApprovalStore
use enterprise_agentops.AuditStore.{record_event}
use enterprise_agentops.Observability.{record_model, record_tool}
use enterprise_agentops.ToolRegistry.{ExecutionContext, execute}
use enterprise_agentops.Agent.Service.{AgentService, TraceEntry}
use enterprise_agentops.Agent.Recording.{
  ask_model, timed, record_model_execution, record_tool_execution, record_execution, fail_tool,
  save, request_tool, park, abort,
}

-- The writes of the stores
pub record StoresKeep {Outside : Type 0} (agent : AgentService Outside)
    (P : Storage Outside → Type 0) : Type 0 where
  pub clock : Keeps P (utc_now agent.host)
  pub monotonic : Keeps P (perf_ns agent.host)
  pub create_run : (m : String) (u : Option String) → Keeps P (RunStore.create_run agent.host m u)
  pub save_conversation :
      (r : String) (c : Items) → Keeps P (RunStore.save_conversation agent.host r c)
  pub await_approval : (r : String) (c : Items) → Keeps P (RunStore.await_approval agent.host r c)
  pub resume : (r : String) → Keeps P (RunStore.resume agent.host r)
  pub complete : (r a : String) → Keeps P (RunStore.complete agent.host r a)
  pub fail : (r a : String) → Keeps P (RunStore.fail agent.host r a)
  pub cancel : (r a : String) → Keeps P (RunStore.cancel agent.host r a)
  pub add_step :
      (r : String) (t : StepType) (n : Option String) (a b c : Value)
      → Keeps P (RunStore.add_step agent.host r t n a b c)
  pub create_approval :
      (t : String) (a : Fields) (k r c : String) (u : Option String)
      → Keeps P (ApprovalStore.create agent.host t a k r c u)
  pub record_event :
      (t : String) (d : Fields) (r u : Option String) → Keeps P (record_event agent.host t d r u)
  pub record_model :
      (r p : String) (m : Option String) (t : ExecutionStatus) (w : Stopwatch)
      (u : Option ModelUsage) (c : Option ℕ) (i x y : Option String)
      → Keeps P (record_model agent.host r p m t w u c i x y)
  pub record_tool :
      (r n c : String) (t : ExecutionStatus) (w : Stopwatch) (x y z : Value)
      → Keeps P (record_tool agent.host r n c t w x y z)

-- The calls that leave the agent with no approval: to the model, and to tools
pub record CallsKeep {Outside : Type 0} (agent : AgentService Outside)
    (P : Storage Outside → Type 0) : Type 0 where
  pub ask_model : (c : List ModelMessage) → Keeps P (ask_model agent c)
  pub execute :
      (n : String) (a : Fields) (c : Option ExecutionContext)
      → Keeps P (execute agent.tools n a false c)

module _ {Outside : Type 0} (agent : AgentService Outside) {P : Storage Outside → Type 0}
    (stores : StoresKeep agent P) where
  pub start-Keeps : Keeps P (start {Outside = Outside} agent.host)
  unfolding start
  start-Keeps = search (keeps_rules, stores.clock, stores.monotonic) depth 12

  pub stop-Keeps : (t : ℕ × ℕ) → Keeps P (stop {Outside = Outside} agent.host t)
  unfolding stop
  stop-Keeps (a, b) = search (keeps_rules, stores.clock, stores.monotonic) depth 12

  pub timed-Keeps :
      {A : Type 0} (m : Exec (Storage Outside) A) → Keeps P m → Keeps P (timed agent m)
  unfolding timed
  timed-Keeps {A} m k = Keeps-bind _ _ start-Keeps (λ b.
      Keeps-bind _ _ (Keeps-attempt m k) (λ r. Keeps-bind _ _ (stop-Keeps b) (λ w. Keeps-pure _)))

  pub record_model_execution-Keeps :
      (r : String) (w : Stopwatch) (t : ExecutionStatus) (m : Option String) (u : Option ModelUsage)
      (i x y : Option String)
      → Keeps P (record_model_execution agent r w t m u i x y)
  unfolding record_model_execution
  record_model_execution-Keeps r w t m u i x y = search (keeps_rules, stores.record_model)

  pub record_tool_execution-Keeps :
      (r : String) (c : ToolCall) (w : Stopwatch) (v : Value) (e : Option Exception)
      → Keeps P (record_tool_execution agent r c w v e)
  unfolding record_tool_execution
  record_tool_execution-Keeps r c w v e = search (keeps_rules, stores.record_tool)

  pub record_execution-Keeps :
      (r : String) (c : ToolCall) (v : Value) (u : Option String)
      → Keeps P (record_execution agent r c v u)
  unfolding record_execution
  record_execution-Keeps r c v u = search (keeps_rules, stores.record_event, stores.add_step)

  pub fail_tool-Keeps :
      (r : String) (c : ToolCall) (e m : String) (u : Option String)
      → Keeps P (fail_tool agent r c e m u)
  unfolding fail_tool
  fail_tool-Keeps r c e m u = search (keeps_rules, stores.record_event, stores.add_step)

  pub save-Keeps : (r : String) (c : List ModelMessage) → Keeps P (save agent r c)
  unfolding save
  save-Keeps r c = stores.save_conversation r _

  pub request_tool-Keeps :
      (r : String) (c : ToolCall) (u : Option String) → Keeps P (request_tool agent r c u)
  unfolding request_tool
  request_tool-Keeps r c u = search (keeps_rules, stores.record_event, stores.add_step)

  pub park-Keeps :
      (r : String) (c : List ModelMessage) (t : ToolCall) (n : String) (a : Fields) (k : ToolRisk)
      (l : List TraceEntry) (u : Option String)
      → Keeps P (park agent r c t n a k l u)
  unfolding park
  park-Keeps r c t n a k l u =
      search
        (
          keeps_rules, stores.await_approval, stores.create_approval, stores.record_event,
          stores.add_step,
        )
        depth 8

  pub abort-Keeps :
      (r : String) (c : ToolCall) (e : Exception) (l : List TraceEntry) (u : Option String)
      → Keeps P (abort agent r c e l u)
  unfolding abort
  abort-Keeps r c e l u = search (keeps_rules, stores.record_event, stores.fail)
