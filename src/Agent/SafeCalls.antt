-- ===== src/Agent/SafeCalls.antt =====
-- The model's and the tools' calls do not raise for a run that is stored, where the model answers and the tools return
-- what `json.dumps` accepts.
use enterprise_agentops.Base.{
  ◌≡◌, refl, sym, String, Bool, true, Option, none, some, List, All, Bool-cases, inl, inr, not,
  ◌&&◌,
}
use mathlib.Core.Path.{subst}
use enterprise_agentops.Base.Table.{All-find}
use enterprise_agentops.Values.{Value, Fields, is_json_fields}
use enterprise_agentops.Protocol.{ModelResponse, ModelMessage, ToolDefinition}
use enterprise_agentops.Results.{Result, ok, err}
use enterprise_agentops.Exec.{◌>>=◌}
use enterprise_agentops.Storage.{Storage}
use enterprise_agentops.Storage.Host.{Stopwatch}
use enterprise_agentops.ToolRegistry.{
  Tool, tool_name, ExecutionContext, is_read, has_context_argument, call_function, execute_tool,
  execute_found, execute,
}
use enterprise_agentops.Agent.Service.{AgentService}
use enterprise_agentops.Agent.Recording.{ask_model, settle_model, call_model}
use enterprise_agentops.Agent.Plain.{PlainCall, PlainResult}
use enterprise_agentops.Agent.SafeWrites.{IsStored, Safe, Safe-bind, Safe-pure}
use enterprise_agentops.Agent.SafeMethods.{timed-Safe, record_model_execution-Safe}

-- The model answers, with arguments that `json.dumps` accepts, and so are the results of the tools, which may raise.
pub record IsReliable {Outside : Type 0} (agent : AgentService Outside) : Type 0 where
  pub model :
      (c : List ModelMessage) (d : List ToolDefinition) (o : Outside)
      → (r : ModelResponse) × ((agent.generate_with_tools c d o).0 ≡ ok r)
        × All PlainCall r.tool_calls
  pub tools :
      All
        (λ (t : Tool Outside).
          (a : Fields) (c : Option ExecutionContext) (o : Outside)
          → PlainResult (t.function a c o).0)
        agent.tools

-- The model's answer, and what a tool that is found gives
module _ {Outside : Type 0} (agent : AgentService Outside) (run_id : String)
    (reliable : IsReliable agent) where
  abbrev Answers : Result ModelResponse → Type 0
  Answers (ok r) = All PlainCall r.tool_calls
  Answers (err e) = ⊥

  answered :
      (o : Result ModelResponse) (r : ModelResponse)
      → o ≡ ok r
      → All PlainCall r.tool_calls
      → Answers o
  answered o r e h = subst Answers (sym e) h

  settle_model-Safe :
      (w : Stopwatch) (o : Result ModelResponse)
      → Answers o
      → Safe run_id (settle_model agent run_id (w, o)) (λ r. All PlainCall r.tool_calls)
  unfolding settle_model
  settle_model-Safe w (ok r) h =
      Safe-bind run_id (record_model_execution-Safe agent run_id w _ _ _ _ _ _)
        (λ _ _. Safe-pure run_id r h)
  settle_model-Safe w (err e) h = absurd h

  pub call_model-Safe :
      (c : List ModelMessage)
      → Safe run_id (call_model agent run_id c) (λ r. All PlainCall r.tool_calls)
  unfolding call_model ask_model
  call_model-Safe c =
      Safe-bind run_id
        (timed-Safe agent run_id (ask_model agent c) Answers
          (λ s h. let (r, e, plain) = reliable.model c _ s.outside in (h, answered _ r e plain)))
        (λ (w, o) h. settle_model-Safe w o h)

  call_function-plain :
      (t : Tool Outside) (a : Fields) (c : Option ExecutionContext) (s : Storage Outside)
      → ((a : Fields) (c : Option ExecutionContext) (o : Outside)
          → PlainResult (t.function a c o).0)
      → IsStored run_id s
      → IsStored run_id (call_function t a c s).1 × PlainResult (call_function t a c s).0
  unfolding call_function
  call_function-plain t a c s h q = (q, h a c s.outside)

  abbrev Gives : Result Value × Storage Outside → Type 0
  Gives (r, s) = IsStored run_id s × PlainResult r

  execute_tool-plain :
      (n : String) (t : Tool Outside) (a : Fields) (b : Bool) (c : Option ExecutionContext)
      (s : Storage Outside)
      → ((a : Fields) (c : Option ExecutionContext) (o : Outside)
          → PlainResult (t.function a c o).0)
      → is_json_fields a ≡ true
      → IsStored run_id s
      → Gives (execute_tool n t a b c s)
  unfolding execute_tool ◌>>=◌
  execute_tool-plain n t a b c s h ha q = elim (Bool-cases (not (is_read t.risk) && not b)) [
    | inl e ↦ rw e (q, ha)
    | inr e ↦ rw e (elim (Bool-cases (not t.wants_context)) [
      | inl w ↦ rw w (call_function-plain t a none s h q)
      | inr w ↦ rw w (elim (Bool-cases (has_context_argument a)) [
        | inl x ↦ rw x (q, tt)
        | inr x ↦ rw x (call_function-plain t a _ s h q)
      ])
    ])
  ]

  execute_found-plain :
      (n : String) (o : Option (Tool Outside)) (a : Fields) (b : Bool) (c : Option ExecutionContext)
      (s : Storage Outside)
      → ((t : Tool Outside)
          → o ≡ some t
          → (a : Fields) (c : Option ExecutionContext) (o : Outside)
          → PlainResult (t.function a c o).0)
      → is_json_fields a ≡ true
      → IsStored run_id s
      → Gives (execute_found n o a b c s)
  unfolding execute_found ◌>>=◌
  execute_found-plain n none a b c s h ha q = (q, tt)
  execute_found-plain n (some t) a b c s h ha q = execute_tool-plain n t a b c s (h t refl) ha q

  pub execute-plain :
      (n : String) (a : Fields) (b : Bool) (c : Option ExecutionContext) (s : Storage Outside)
      → is_json_fields a ≡ true
      → IsStored run_id s
      → IsStored run_id (execute agent.tools n a b c s).1
        × PlainResult (execute agent.tools n a b c s).0
  unfolding execute
  execute-plain n a b c s ha q =
      execute_found-plain n _ a b c s (λ t e. All-find tool_name _ n agent.tools t reliable.tools e)
        ha q
