-- ===== src/Agent/Outcomes.antt =====
-- Every way through the loop and through the entry points that returns leaves the run settled.
use enterprise_agentops.Base.{ℕ, zero, suc, ◌≡◌, String, Option, none, some, List, []}
use enterprise_agentops.Values.{Value, Fields}
use enterprise_agentops.Protocol.{ToolCall, ModelMessage, ModelResponse}
use enterprise_agentops.Exceptions.{Exception}
use enterprise_agentops.Results.{Result, ok, err}
use enterprise_agentops.Exec.Triple.{Triple-ok}
use enterprise_agentops.Storage.{Storage}
use enterprise_agentops.Storage.Host.{Stopwatch}
use enterprise_agentops.Agent.Service.{AgentService, TraceEntry, Outcome}
use enterprise_agentops.Agent.Loop.{
  answer_call, settle_call, handle_call, take_turn, iteration, exhausted, iterate, drive, Next,
}
use enterprise_agentops.Agent.Entry.{run, request_action, settle_request}
use enterprise_agentops.Agent.Settlement.{
  Returns, IsSettled, Returns-bind, ends, completes, abort-settles, park-settles,
}

module _ {Outside : Type 0} (agent : AgentService Outside) (id : String) (u : Option String) where
  module _ (next : Next agent id u)
      (rest : (c : List ModelMessage) (l : List TraceEntry) → Returns (next c l) IsSettled) where
    answer_call-settles :
        (c : List ModelMessage) (t : ToolCall) (a : String) (l : List TraceEntry)
        → Returns (answer_call agent id u next c t a l) IsSettled
    unfolding answer_call
    answer_call-settles c t a l = Returns-bind _ _ (λ _. rest _ l)

    settle_call-settles :
        (c : List ModelMessage) (t : ToolCall) (l : List TraceEntry) (w : Stopwatch)
        (o : Result Value)
        → Returns (settle_call agent id u next c t l (w, o)) IsSettled
    unfolding settle_call
    settle_call-settles c t l w (err (Exception.approval_required n a k)) =
        park-settles agent id c t n a k l u
    settle_call-settles c t l w (err (Exception.unexpected n m)) =
        Returns-bind _ _ (λ _. abort-settles agent id t _ l u)
    settle_call-settles c t l w (err e) =
        Returns-bind _ _ (λ _. Returns-bind _ _ (λ f. answer_call-settles c t f l))
    settle_call-settles c t l w (ok v) =
        Returns-bind _ _ (λ _. Returns-bind _ _ (λ _. answer_call-settles c t _ _))

    handle_call-settles :
        (c : List ModelMessage) (t : ToolCall) (l : List TraceEntry) (e : Option String)
        → Returns (handle_call agent id u next c t l e) IsSettled
    unfolding handle_call
    handle_call-settles c t l (some e) = Returns-bind _ _ (λ f. answer_call-settles c t f l)
    handle_call-settles c t l none =
        Returns-bind _ _ (λ _. Returns-bind _ _ (λ (w, o). settle_call-settles c t l w o))

    take_turn-settles :
        (c : List ModelMessage) (l : List TraceEntry) (m : ModelResponse) (t : Option ToolCall)
        → Returns (take_turn agent id u next c l m t) IsSettled
    unfolding take_turn
    take_turn-settles c l m none = completes agent id _ l
    take_turn-settles c l m (some t) = handle_call-settles _ t l _

    iteration-settles :
        (c : List ModelMessage) (l : List TraceEntry)
        → Returns (iteration agent id u next c l) IsSettled
    unfolding iteration
    iteration-settles c l =
        Returns-bind _ _ (λ m. Returns-bind _ _ (λ _. take_turn-settles c l m _))

  exhausted-settles : (l : List TraceEntry) → Returns (exhausted agent id u l) IsSettled
  unfolding exhausted
  exhausted-settles l = Returns-bind _ _ (λ _. ends agent id _ l)

  iterate-settles :
      (n : ℕ) (c : List ModelMessage) (l : List TraceEntry)
      → Returns (iterate agent id u n c l) IsSettled
  unfolding iterate
  iterate-settles zero c l = exhausted-settles l
  iterate-settles (suc n) c l = iteration-settles (iterate agent id u n) (iterate-settles n) c l

  drive-settles :
      (c : List ModelMessage) (l : List TraceEntry) → Returns (drive agent id u c l) IsSettled
  unfolding drive
  drive-settles c l = iterate-settles _ c l

module _ {Outside : Type 0} (agent : AgentService Outside) (u : Option String) where
  run-Returns : (m : String) → Returns (run agent u m) IsSettled
  unfolding run
  run-Returns m = Returns-bind _ _ (λ r. Returns-bind _ _ (λ _. drive-settles agent r u _ []))

  settle_request-settles :
      (id : String) (c : ToolCall) (w : Stopwatch) (o : Result Value)
      → Returns (settle_request agent u id c (w, o)) IsSettled
  unfolding settle_request
  settle_request-settles id c w (err (Exception.approval_required n a k)) =
      park-settles agent id [] c n a k [] u
  settle_request-settles id c w (err (Exception.unexpected n m)) =
      Returns-bind _ _ (λ _. abort-settles agent id c _ [] u)
  settle_request-settles id c w (err e) =
      Returns-bind _ _ (λ _. Returns-bind _ _ (λ _. ends agent id _ []))
  settle_request-settles id c w (ok v) =
      Returns-bind _ _ (λ _. Returns-bind _ _ (λ _. completes agent id _ _))

  request_action-Returns :
      (t : String) (a : Fields) (m : String) → Returns (request_action agent u t a m) IsSettled
  unfolding request_action
  request_action-Returns t a m = Returns-bind _ _ (λ r.
      Returns-bind _ _
        (λ _. Returns-bind _ _ (λ _. Returns-bind _ _ (λ (w, o). settle_request-settles r _ w o))))

  -- A run that returns is settled: the outcome's status is the one stored, and it is COMPLETED or FAILED with the
  -- outcome's answer stored and nothing to approve, or WAITING_FOR_APPROVAL with the PENDING approval that
  -- the outcome names as the last row of the table. No run that returns is left RUNNING.
  pub run_settles :
      (m : String) (s : Storage Outside) (o : Outcome)
      → (run agent u m s).0 ≡ ok o
      → IsSettled o (run agent u m s).1
  run_settles m s o e = Triple-ok (run-Returns m) s tt e

  -- The same of a request for one action.
  pub request_action_settles :
      (t : String) (a : Fields) (m : String) (s : Storage Outside) (o : Outcome)
      → (request_action agent u t a m s).0 ≡ ok o
      → IsSettled o (request_action agent u t a m s).1
  request_action_settles t a m s o e = Triple-ok (request_action-Returns t a m) s tt e
