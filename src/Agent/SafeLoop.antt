-- ===== src/Agent/SafeLoop.antt =====
-- The loop returns for a run that is stored: it ends within its iterations and nothing on the way raises.
use mathlib.Core.Path.{subst}
use enterprise_agentops.Base.{
  ℕ, zero, suc, ◌≡◌, refl, String, false, Option, none, some, List, [], ◌∷◌, All,
}
use enterprise_agentops.Values.{Value, is_json}
use enterprise_agentops.Protocol.{ToolCall, ModelMessage, ModelResponse, first_tool_call}
use enterprise_agentops.Exceptions.{Exception}
use enterprise_agentops.Results.{Result, ok, err}
use enterprise_agentops.Exec.{Exec, ◌>>=◌, ◌>>◌}
use enterprise_agentops.Storage.{Storage}
use enterprise_agentops.Storage.Host.{Stopwatch}
use enterprise_agentops.RunStore
use enterprise_agentops.RunStore.{create_run}
use enterprise_agentops.Agent.Service.{AgentService, TraceEntry, Outcome}
use enterprise_agentops.Agent.Recording.{record_tool_execution, fail_tool}
use enterprise_agentops.Agent.Loop.{
  answer_call, settle_call, handle_call, take_turn, iteration, exhausted, iterate, drive, Next,
}
use enterprise_agentops.Agent.Plain.{
  PlainCall, PlainMessage, PlainResult, is_json-of_option, is_json-calls_to_dicts, All-snoc,
}
use enterprise_agentops.Agent.SafeWrites.{
  Safe, Safe-bind, Safe-pure, apply-Safe, record_event-Safe, add_step-Safe,
}
use enterprise_agentops.Agent.SafeCalls.{IsReliable, call_model-Safe, execute-plain}
use enterprise_agentops.Agent.SafeMethods.{
  timed-Safe, record_tool_execution-Safe, record_execution-Safe, fail_tool-Safe, request_tool-Safe,
  save-Safe, park-Safe, abort-Safe,
}

abbrev first : List ToolCall → Option ToolCall
first [] = none
first (t ∷ _) = some t

first_lem : (r : ModelResponse) → first r.tool_calls ≡ first_tool_call r
unfolding first_tool_call
first_lem r = go r.tool_calls
  where
    go : (ts : List ToolCall) → first ts ≡ elim ts [ [] ↦ none | t ∷ _ ↦ some t ]
    go [] = refl
    go (t ∷ ts) = refl

abbrev pub Plain : List ModelMessage → Type 0
Plain = All PlainMessage

module _ {Outside : Type 0} (agent : AgentService Outside) (reliable : IsReliable agent)
    (id : String) (u : Option String) where
  abbrev pub Returning : Exec (Storage Outside) Outcome → Type 0
  Returning m = Safe id m (λ _. Unit)

  module _ (next : Next agent id u)
      (rest : (c : List ModelMessage) (l : List TraceEntry) → Plain c → Returning (next c l)) where
    answer_call-Safe :
        (c : List ModelMessage) (t : ToolCall) (x : String) (l : List TraceEntry)
        → Plain c
        → Returning (answer_call agent id u next c t x l)
    unfolding answer_call
    answer_call-Safe c t x l h =
        let plain = All-snoc PlainMessage c _ h tt in
        Safe-bind id (save-Safe agent id _ plain) (λ _ _. rest _ l plain)

    -- A recoverable failure goes back to the model.
    recover :
        (c : List ModelMessage) (t : ToolCall) (l : List TraceEntry) (w : Stopwatch) (e : Exception)
        (k m : String)
        → Plain c
        → PlainCall t
        → Returning (do
          record_tool_execution agent id t w Value.null (some e)
          failure ← fail_tool agent id t k m u
          answer_call agent id u next c t failure l)
    recover c t l w e k m h p = Safe-bind id (record_tool_execution-Safe agent id t w _ _) (λ _ _.
        Safe-bind id (fail_tool-Safe agent id t k m u p) (λ x _. answer_call-Safe c t x l h))

    settle_call-Safe :
        (c : List ModelMessage) (t : ToolCall) (l : List TraceEntry) (w : Stopwatch)
        (o : Result Value)
        → Plain c
        → PlainCall t
        → PlainResult o
        → Returning (settle_call agent id u next c t l (w, o))
    unfolding settle_call
    settle_call-Safe c t l w (err (Exception.approval_required n a k)) h p q =
        park-Safe agent id c t n a k l u h q
    settle_call-Safe c t l w (err (Exception.unexpected n m)) h p q =
        Safe-bind id (record_tool_execution-Safe agent id t w _ _)
          (λ _ _. abort-Safe agent id t _ l u p)
    settle_call-Safe c t l w (err (Exception.value_error n m)) h p q = recover c t l w _ _ _ h p
    settle_call-Safe c t l w (err (Exception.type_error n m)) h p q = recover c t l w _ _ _ h p
    settle_call-Safe c t l w (ok v) h p q =
        Safe-bind id (record_tool_execution-Safe agent id t w _ _) (λ _ _.
          Safe-bind id (record_execution-Safe agent id t v u p q)
            (λ _ _. answer_call-Safe c t _ _ h))

    handle_call-Safe :
        (c : List ModelMessage) (t : ToolCall) (l : List TraceEntry) (e : Option String)
        → Plain c
        → PlainCall t
        → Returning (handle_call agent id u next c t l e)
    unfolding handle_call
    handle_call-Safe c t l (some e) h p =
        Safe-bind id (fail_tool-Safe agent id t _ e u p) (λ x _. answer_call-Safe c t x l h)
    handle_call-Safe c t l none h p = Safe-bind id (request_tool-Safe agent id t u p) (λ _ _.
        Safe-bind id
          (timed-Safe agent id _ PlainResult
            (λ s q. execute-plain agent id reliable t.name t.arguments false _ s p q))
          (λ (w, o) q. settle_call-Safe c t l w o h p q))

    take_turn-Safe :
        (c : List ModelMessage) (l : List TraceEntry) (r : ModelResponse) (ts : List ToolCall)
        → Plain c
        → All PlainCall ts
        → Returning (take_turn agent id u next c l r (first ts))
    unfolding take_turn RunStore.complete
    take_turn-Safe c l r [] h p =
        Safe-bind id (apply-Safe agent.host id _ (λ _. refl)) (λ _ _. Safe-pure id _ tt)
    take_turn-Safe c l r (t ∷ ts) h p =
        handle_call-Safe _ t l t.argument_error (All-snoc PlainMessage c _ h (p.0, tt)) p.0

    iteration-Safe :
        (c : List ModelMessage) (l : List TraceEntry)
        → Plain c
        → Returning (iteration agent id u next c l)
    unfolding iteration is_json
    iteration-Safe c l h = Safe-bind id (call_model-Safe agent id reliable c) (λ r p.
        Safe-bind id
          (add_step-Safe agent.host id _ _ _ _ _ refl
            (rw (is_json-of_option r.content, is_json-calls_to_dicts r.tool_calls p) refl) refl)
          (λ _ _.
            subst (λ x. Returning (take_turn agent id u next c l r x)) (first_lem r)
              (take_turn-Safe c l r r.tool_calls h p)))

  exhausted-Safe : (l : List TraceEntry) → Returning (exhausted agent id u l)
  unfolding exhausted RunStore.fail is_json
  exhausted-Safe l =
      Safe-bind id (record_event-Safe agent.host id _ _ _ _ refl)
        (λ _ _. Safe-bind id (apply-Safe agent.host id _ (λ _. refl)) (λ _ _. Safe-pure id _ tt))

  iterate-Safe :
      (n : ℕ) (c : List ModelMessage) (l : List TraceEntry)
      → Plain c
      → Returning (iterate agent id u n c l)
  unfolding iterate
  iterate-Safe zero c l h = exhausted-Safe l
  iterate-Safe (suc n) c l h = iteration-Safe (iterate agent id u n) (iterate-Safe n) c l h

  pub drive-Safe :
      (c : List ModelMessage) (l : List TraceEntry) → Plain c → Returning (drive agent id u c l)
  unfolding drive
  drive-Safe c l h = iterate-Safe _ c l h
