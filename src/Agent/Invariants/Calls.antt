-- ===== src/Agent/Invariants/Calls.antt =====
-- A predicate on the agent's own tables alone is kept by every call that leaves the agent.
use enterprise_agentops.Base.{String, Bool, false, Option, none, some, List}
use enterprise_agentops.Base.Table.{find}
use enterprise_agentops.Values.{Fields}
use enterprise_agentops.Exec.Triple.{Keeps, keeps_rules, Keeps-raise}
use enterprise_agentops.Storage.{Storage}
use enterprise_agentops.ToolRegistry.{
  Tool, tool_name, ExecutionContext, call_function, execute_tool, execute_found, execute,
}
use enterprise_agentops.Agent.Service.{AgentService}
use enterprise_agentops.Agent.Recording.{ask_model}
use enterprise_agentops.Agent.Invariants.Rules.{CallsKeep}

module _ {Outside : Type 0} (P : Storage Outside → Type 0)
    (inside : (s : Storage Outside) (o : Outside) → P s → P (record s { outside = o })) where
  called :
      (t : Tool Outside) (a : Fields) (c : Option ExecutionContext) → Keeps P (call_function t a c)
  unfolding call_function
  called t a c = record { at = λ s h. inside s _ h }

  executed :
      (n : String) (o : Option (Tool Outside)) (a : Fields) (b : Bool) (c : Option ExecutionContext)
      → Keeps P (execute_found n o a b c)
  unfolding execute_found execute_tool
  executed n none a b c = Keeps-raise _
  executed n (some t) a b c = search (keeps_rules, called)

  pub execute-Keeps :
      (tools : List (Tool Outside)) (n : String) (a : Fields) (b : Bool)
      (c : Option ExecutionContext)
      → Keeps P (execute tools n a b c)
  unfolding execute
  execute-Keeps tools n a b c = executed n (find tool_name n tools) a b c

  pub inside-CallsKeep : (agent : AgentService Outside) → CallsKeep agent P
  unfolding ask_model
  inside-CallsKeep agent = record {
    ask_model = λ c. record { at = λ s h. inside s _ h };
    execute = λ n a c. execute-Keeps agent.tools n a false c;
  }
