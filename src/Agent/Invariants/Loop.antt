-- ===== src/Agent/Invariants/Loop.antt =====
-- The loop keeps what the stores and the calls keep.
use enterprise_agentops.Base.{ℕ, zero, suc, String, Option, none, some, List}
use enterprise_agentops.Values.{Value}
use enterprise_agentops.Protocol.{ToolCall, ModelResponse, ModelMessage}
use enterprise_agentops.Exceptions.{Exception}
use enterprise_agentops.Results.{Result, ok, err}
use enterprise_agentops.Exec.Triple.{Keeps, keeps_rules, Keeps-bind}
use enterprise_agentops.Storage.{Storage}
use enterprise_agentops.Storage.Host.{Stopwatch}
use enterprise_agentops.Agent.Invariants.Rules.{
  StoresKeep, CallsKeep, abort-Keeps, fail_tool-Keeps, park-Keeps, record_execution-Keeps,
  record_model_execution-Keeps, record_tool_execution-Keeps, request_tool-Keeps, save-Keeps,
  timed-Keeps,
}
use enterprise_agentops.Agent.Service.{AgentService, TraceEntry}
use enterprise_agentops.Agent.Recording.{settle_model, call_model}
use enterprise_agentops.Agent.Loop.{
  answer_call, settle_call, handle_call, take_turn, iteration, exhausted, iterate, drive, Next,
}

module _ {Outside : Type 0} (agent : AgentService Outside) {P : Storage Outside → Type 0}
    (stores : StoresKeep agent P) (calls : CallsKeep agent P) where
  settle_model-Keeps :
      (r : String) (w : Stopwatch) (o : Result ModelResponse)
      → Keeps P (settle_model agent r (w, o))
  unfolding settle_model
  settle_model-Keeps r w (ok v) = search (keeps_rules, (record_model_execution-Keeps agent stores))
  settle_model-Keeps r w (err e) = search (keeps_rules, (record_model_execution-Keeps agent stores))

  call_model-Keeps : (r : String) (c : List ModelMessage) → Keeps P (call_model agent r c)
  unfolding call_model
  call_model-Keeps r c =
      Keeps-bind _ _ ((timed-Keeps agent stores) _ (calls.ask_model c))
        (λ (w, o). settle_model-Keeps r w o)

  module _ (r : String) (u : Option String) where
    module _ (next : Next agent r u)
        (rest : (c : List ModelMessage) (l : List TraceEntry) → Keeps P (next c l)) where
      answer_call-Keeps :
          (c : List ModelMessage) (t : ToolCall) (a : String) (l : List TraceEntry)
          → Keeps P (answer_call agent r u next c t a l)
      unfolding answer_call
      answer_call-Keeps c t a l = search (keeps_rules, (save-Keeps agent stores), rest)

      settle_call-Keeps :
          (c : List ModelMessage) (t : ToolCall) (l : List TraceEntry) (w : Stopwatch)
          (o : Result Value)
          → Keeps P (settle_call agent r u next c t l (w, o))
      unfolding settle_call
      settle_call-Keeps c t l w (err (Exception.approval_required n a k)) =
          (park-Keeps agent stores) r c t n a k l u
      settle_call-Keeps c t l w (err (Exception.unexpected n m)) =
          search
            (keeps_rules, (record_tool_execution-Keeps agent stores), (abort-Keeps agent stores))
      settle_call-Keeps c t l w (err e) = search (
        keeps_rules,
        (record_tool_execution-Keeps agent stores),
        (fail_tool-Keeps agent stores),
        answer_call-Keeps,
      )
      settle_call-Keeps c t l w (ok v) = search (
        keeps_rules,
        (record_tool_execution-Keeps agent stores),
        (record_execution-Keeps agent stores),
        answer_call-Keeps,
      )

      handle_call-Keeps :
          (c : List ModelMessage) (t : ToolCall) (l : List TraceEntry) (e : Option String)
          → Keeps P (handle_call agent r u next c t l e)
      unfolding handle_call
      handle_call-Keeps c t l (some e) =
          search (keeps_rules, (fail_tool-Keeps agent stores), answer_call-Keeps)
      handle_call-Keeps c t l none = Keeps-bind _ _ ((request_tool-Keeps agent stores) r t u) (λ _.
          Keeps-bind _ _ ((timed-Keeps agent stores) _ (calls.execute _ _ _))
            (λ (w, o). settle_call-Keeps c t l w o))

      take_turn-Keeps :
          (c : List ModelMessage) (l : List TraceEntry) (m : ModelResponse) (t : Option ToolCall)
          → Keeps P (take_turn agent r u next c l m t)
      unfolding take_turn
      take_turn-Keeps c l m none = search (keeps_rules, stores.complete)
      take_turn-Keeps c l m (some t) = handle_call-Keeps _ t l _

      iteration-Keeps :
          (c : List ModelMessage) (l : List TraceEntry) → Keeps P (iteration agent r u next c l)
      unfolding iteration
      iteration-Keeps c l = search (keeps_rules, call_model-Keeps, stores.add_step, take_turn-Keeps)

    exhausted-Keeps : (l : List TraceEntry) → Keeps P (exhausted agent r u l)
    unfolding exhausted
    exhausted-Keeps l = search (keeps_rules, stores.record_event, stores.fail)

    iterate-Keeps :
        (n : ℕ) (c : List ModelMessage) (l : List TraceEntry) → Keeps P (iterate agent r u n c l)
    unfolding iterate
    iterate-Keeps zero c l = exhausted-Keeps l
    iterate-Keeps (suc n) c l = iteration-Keeps (iterate agent r u n) (iterate-Keeps n) c l

    pub drive-Keeps : (c : List ModelMessage) (l : List TraceEntry) → Keeps P (drive agent r u c l)
    unfolding drive
    drive-Keeps c l = iterate-Keeps _ c l
