-- ===== src/Agent/SafeMethods.antt =====
-- The recording methods of app/agent.py do not raise for a run that is stored and data that `json.dumps` accepts.
use enterprise_agentops.Base.{◌≡◌, refl, String, true, Option, List, All}
use enterprise_agentops.Values.{Value, Fields, end, field, is_json, is_json_fields}
use enterprise_agentops.Protocol.{ToolCall, ModelUsage, ModelMessage}
use enterprise_agentops.Exceptions.{Exception, ToolRisk}
use enterprise_agentops.Results.{Result}
use enterprise_agentops.Exec.{Exec, attempt, ◌>>=◌}
use enterprise_agentops.Exec.Triple.{Triple-if}
use enterprise_agentops.Storage.{ExecutionStatus, Storage}
use enterprise_agentops.Storage.Host.{Stopwatch, new_uuid}
use enterprise_agentops.RunStore
use enterprise_agentops.Observability.{record_model, record_tool}
use enterprise_agentops.Agent.Service.{AgentService, TraceEntry, or_none}
use enterprise_agentops.Agent.Recording.{
  timed, record_model_execution, record_tool_execution, record_execution, fail_tool, save,
  request_tool, park, abort,
}
use enterprise_agentops.Agent.Plain.{PlainCall, PlainMessage, is_json-serialise_conversation}
use enterprise_agentops.Agent.SafeWrites.{
  IsStored, Safe, Safe-bind, Safe-pure, start-Safe, stop-Safe, apply-Safe, save_conversation-Safe,
  await_approval-Safe, record_event-Safe, add_step-Safe, create-Safe,
}

is_json-or_none : (fs : Fields) → is_json_fields fs ≡ true → is_json (or_none fs) ≡ true
unfolding is_json
is_json-or_none end h = refl
is_json-or_none (field k v fs) h = h

module _ {Outside : Type 0} (agent : AgentService Outside) (run_id : String) where
  attempt-Safe :
      {A : Type 0} (m : Exec (Storage Outside) A) (Q : Result A → Type 0)
      → ((s : Storage Outside) → IsStored run_id s → IsStored run_id (m s).1 × Q (m s).0)
      → Safe run_id (attempt m) Q
  unfolding ◌>>=◌
  attempt-Safe m Q k = record { at = λ s h. k s h }

  pub timed-Safe :
      {A : Type 0} (m : Exec (Storage Outside) A) (Q : Result A → Type 0)
      → ((s : Storage Outside) → IsStored run_id s → IsStored run_id (m s).1 × Q (m s).0)
      → Safe run_id (timed agent m) (λ x. Q x.1)
  unfolding timed
  timed-Safe m Q k = Safe-bind run_id (start-Safe agent.host run_id) (λ b _.
      Safe-bind run_id (attempt-Safe m Q k) (λ r q.
        Safe-bind run_id (stop-Safe agent.host run_id b) (λ w _. Safe-pure run_id (w, r) q)))

  pub record_model_execution-Safe :
      (w : Stopwatch) (t : ExecutionStatus) (m : Option String) (u : Option ModelUsage)
      (p e x : Option String)
      → Safe run_id (record_model_execution agent run_id w t m u p e x) (λ _. Unit)
  unfolding record_model_execution record_model new_uuid ◌>>=◌
  record_model_execution-Safe w t m u p e x =
      Triple-if agent.has_model_executions _ _ (record { at = λ s h. (h, tt) })
        (record { at = λ s h. (h, tt) })

  pub record_tool_execution-Safe :
      (c : ToolCall) (w : Stopwatch) (v : Value) (e : Option Exception)
      → Safe run_id (record_tool_execution agent run_id c w v e) (λ _. Unit)
  unfolding record_tool_execution record_tool new_uuid ◌>>=◌
  record_tool_execution-Safe c w v e =
      Triple-if agent.has_tool_executions _ _ (record { at = λ s h. (h, tt) })
        (record { at = λ s h. (h, tt) })

  pub record_execution-Safe :
      (c : ToolCall) (v : Value) (u : Option String)
      → PlainCall c
      → is_json v ≡ true
      → Safe run_id (record_execution agent run_id c v u) (λ _. Unit)
  unfolding record_execution is_json
  record_execution-Safe c v u hc hv =
      Safe-bind run_id (record_event-Safe agent.host run_id _ _ _ _ (rw (hc, hv) refl)) (λ _ _.
        Safe-bind run_id (add_step-Safe agent.host run_id _ _ _ _ _ hc hv refl)
          (λ _ _. Safe-pure run_id tt tt))

  pub fail_tool-Safe :
      (c : ToolCall) (e m : String) (u : Option String)
      → PlainCall c
      → Safe run_id (fail_tool agent run_id c e m u) (λ _. Unit)
  unfolding fail_tool is_json
  fail_tool-Safe c e m u h =
      Safe-bind run_id
        (record_event-Safe agent.host run_id _ _ _ _ (rw (is_json-or_none c.arguments h) refl))
        (λ _ _.
          Safe-bind run_id
            (add_step-Safe agent.host run_id _ _ _ _ _ (is_json-or_none c.arguments h) refl refl)
            (λ _ _. Safe-pure run_id _ tt))

  pub request_tool-Safe :
      (c : ToolCall) (u : Option String)
      → PlainCall c
      → Safe run_id (request_tool agent run_id c u) (λ _. Unit)
  unfolding request_tool is_json
  request_tool-Safe c u h =
      Safe-bind run_id (record_event-Safe agent.host run_id _ _ _ _ (rw h refl)) (λ _ _.
        Safe-bind run_id (add_step-Safe agent.host run_id _ _ _ _ _ h refl refl)
          (λ _ _. Safe-pure run_id tt tt))

  pub save-Safe :
      (c : List ModelMessage) → All PlainMessage c → Safe run_id (save agent run_id c) (λ _. Unit)
  unfolding save
  save-Safe c h = save_conversation-Safe agent.host run_id _ (is_json-serialise_conversation c h)

  pub park-Safe :
      (c : List ModelMessage) (t : ToolCall) (n : String) (a : Fields) (k : ToolRisk)
      (l : List TraceEntry) (u : Option String)
      → All PlainMessage c
      → is_json_fields a ≡ true
      → Safe run_id (park agent run_id c t n a k l u) (λ _. Unit)
  unfolding park is_json
  park-Safe c t n a k l u hc ha =
      Safe-bind run_id
        (await_approval-Safe agent.host run_id _ (is_json-serialise_conversation c hc))
        (λ _ _. Safe-bind run_id (create-Safe agent.host run_id n a _ _ u ha) (λ p hp.
          Safe-bind run_id (record_event-Safe agent.host run_id _ _ _ _ (rw hp refl)) (λ _ _.
            Safe-bind run_id (add_step-Safe agent.host run_id _ _ _ _ _ hp refl refl)
              (λ _ _. Safe-pure run_id _ tt))))

  pub abort-Safe :
      (c : ToolCall) (e : Exception) (l : List TraceEntry) (u : Option String)
      → PlainCall c
      → Safe run_id (abort agent run_id c e l u) (λ _. Unit)
  unfolding abort is_json RunStore.fail
  abort-Safe c e l u h =
      Safe-bind run_id (record_event-Safe agent.host run_id _ _ _ _ (rw h refl)) (λ _ _.
        Safe-bind run_id (apply-Safe agent.host run_id _ (λ _. refl))
          (λ _ _. Safe-pure run_id _ tt))
