-- ===== src/Agent/Completion.antt =====
-- A run and a request for one action return, whatever the storage.
use enterprise_agentops.Base.{◌≡◌, refl, String, true, false, Option, some, [], ◌∷◌}
use enterprise_agentops.Base.Table.{find-append_self}
use enterprise_agentops.Values.{Value, null, nil, Fields, is_json, is_json_fields}
use enterprise_agentops.Protocol.{ToolCall, user_message}
use enterprise_agentops.Exceptions.{Exception}
use enterprise_agentops.Results.{Result, ok, err}
use enterprise_agentops.Exec.{Exec, pure, ◌>>=◌, ◌>>◌}
use enterprise_agentops.Exec.Triple.{Triple, Triple-bind, Triple-weaken, Post}
use enterprise_agentops.Storage.{Storage, failed}
use enterprise_agentops.Storage.Host.{Stopwatch, utc_now, new_uuid}
use enterprise_agentops.RunStore
use enterprise_agentops.RunStore.{create_run}
use enterprise_agentops.Agent.Service.{direct_action_failed_answer, AgentService, Outcome}
use enterprise_agentops.Agent.Recording.{finished, record_tool_execution, fail_tool}
use enterprise_agentops.Agent.Entry.{run, request_action, settle_request}
use enterprise_agentops.Agent.Invariants.Tables.{run_key}
use enterprise_agentops.Agent.Settlement.{IsSettled}
use enterprise_agentops.Agent.Outcomes.{run_settles, request_action_settles}
use enterprise_agentops.Agent.SafeLoop.{Plain, drive-Safe}
use enterprise_agentops.Agent.Plain.{PlainCall, PlainResult, is_json-serialise_conversation}
use enterprise_agentops.Agent.SafeWrites.{
  IsStored, Safe, Safe-bind, Safe-pure, apply-Safe, save_conversation-Safe,
}
use enterprise_agentops.Agent.SafeCalls.{IsReliable, execute-plain}
use enterprise_agentops.Agent.SafeMethods.{
  timed-Safe, record_tool_execution-Safe, record_execution-Safe, fail_tool-Safe, request_tool-Safe,
  park-Safe, abort-Safe,
}

module _ {Outside : Type 0} where
  -- Whatever the storage, `m` returns.
  abbrev Total : {A : Type 0} → Exec (Storage Outside) A → Type 0
  Total m = Triple (λ _. Unit) m (λ _ _. Unit) (λ _ _. ⊥)

  value_of :
      {A : Type 0} (o : Result A × Storage Outside)
      → Post (λ _ _. Unit) (λ _ _. ⊥) o
      → (a : A) × (o.0 ≡ ok a)
  value_of (ok a, s) h = (a, refl)
  value_of (err e, s) h = absurd h

  create_run-stores :
      (agent : AgentService Outside) (m : String) (u : Option String)
      → Triple (λ _. Unit) (create_run {Outside = Outside} agent.host m u) IsStored (λ _ _. ⊥)
  unfolding create_run utc_now new_uuid ◌>>=◌
  create_run-stores agent m u = record { at = λ s h. find-append_self run_key _ s.runs _ refl }

  -- What follows the creation of a run returns if it does so for any run that is stored.
  started :
      (agent : AgentService Outside) (m : String) (u : Option String)
      {f : String → Exec (Storage Outside) Outcome}
      → ((id : String) → Safe id (f id) (λ _. Unit))
      → Total (create_run agent.host m u >>= f)
  started agent m u k =
      Triple-bind IsStored (create_run-stores agent m u)
        (λ id. Triple-weaken (λ s h. h) (λ a s h. tt) (λ e s h. h) (k id))

module _ {Outside : Type 0} (agent : AgentService Outside) (u : Option String)
    (reliable : IsReliable agent) where
  run-Total : (m : String) → Total (run agent u m)
  unfolding run
  run-Total m =
      let plain : Plain (user_message m ∷ []) = (tt, tt) in
      started agent m u (λ id.
        Safe-bind id
          (save_conversation-Safe agent.host id _
            (is_json-serialise_conversation (user_message m ∷ []) plain))
          (λ _ _. drive-Safe agent reliable id u _ [] plain))

  fails_direct :
      (id : String) (c : ToolCall) (w : Stopwatch) (e : Exception) (k m : String)
      → PlainCall c
      → Safe id
          (do
            record_tool_execution agent id c w null (some e)
            fail_tool agent id c k m u
            RunStore.fail agent.host id direct_action_failed_answer
            pure (finished id failed direct_action_failed_answer []))
          (λ _. Unit)
  unfolding RunStore.fail
  fails_direct id c w e k m p = Safe-bind id (record_tool_execution-Safe agent id c w _ _) (λ _ _.
      Safe-bind id (fail_tool-Safe agent id c k m u p)
        (λ _ _. Safe-bind id (apply-Safe agent.host id _ (λ _. refl)) (λ _ _. Safe-pure id _ tt)))

  settle_request-Safe :
      (id : String) (c : ToolCall) (w : Stopwatch) (o : Result Value)
      → PlainCall c
      → PlainResult o
      → Safe id (settle_request agent u id c (w, o)) (λ _. Unit)
  unfolding settle_request RunStore.complete
  settle_request-Safe id c w (err (Exception.approval_required n a k)) p q =
      park-Safe agent id [] c n a k [] u tt q
  settle_request-Safe id c w (err (Exception.unexpected n m)) p q =
      Safe-bind id (record_tool_execution-Safe agent id c w _ _)
        (λ _ _. abort-Safe agent id c _ [] u p)
  settle_request-Safe id c w (err (Exception.value_error n m)) p q = fails_direct id c w _ _ _ p
  settle_request-Safe id c w (err (Exception.type_error n m)) p q = fails_direct id c w _ _ _ p
  settle_request-Safe id c w (ok v) p q =
      Safe-bind id (record_tool_execution-Safe agent id c w _ _) (λ _ _.
        Safe-bind id (record_execution-Safe agent id c v u p q)
          (λ _ _. Safe-bind id (apply-Safe agent.host id _ (λ _. refl)) (λ _ _. Safe-pure id _ tt)))

  request_action-Total :
      (t : String) (a : Fields) (m : String)
      → is_json_fields a ≡ true
      → Total (request_action agent u t a m)
  unfolding request_action is_json
  request_action-Total t a m p = started agent m u (λ id.
      Safe-bind id (save_conversation-Safe agent.host id nil refl) (λ _ _.
        Safe-bind id (request_tool-Safe agent id _ u p) (λ _ _.
          Safe-bind id
            (timed-Safe agent id _ PlainResult
              (λ s q. execute-plain agent id reliable t a false _ s p q))
            (λ (w, o) q. settle_request-Safe id _ w o p q))))

  -- Where the model answers with arguments that `json.dumps` accepts, and every tool returns or raises with such
  -- values, a run returns an outcome, whatever the message and the storage, and it is settled: the outcome's status is
  -- the one that is stored, and it is COMPLETED or FAILED with its answer stored, or WAITING_FOR_APPROVAL with a
  -- PENDING approval.
  pub run_returns :
      (m : String) (s : Storage Outside)
      → (o : Outcome) × ((run agent u m s).0 ≡ ok o) × IsSettled o (run agent u m s).1
  run_returns m s =
      let (o, e) = value_of (run agent u m s) ((run-Total m).at s tt) in
      (o, e, run_settles agent u m s o e)

  -- Where the agent is reliable in the same way, a request for one action with arguments that `json.dumps` accepts
  -- returns an outcome, whatever the storage, and it is settled as a run is.
  pub request_action_returns :
      (t : String) (a : Fields) (m : String) (s : Storage Outside)
      → is_json_fields a ≡ true
      → (o : Outcome) × ((request_action agent u t a m s).0 ≡ ok o)
        × IsSettled o (request_action agent u t a m s).1
  request_action_returns t a m s p =
      let (o, e) =
        value_of (request_action agent u t a m s) ((request_action-Total t a m p).at s tt) in
      (o, e, request_action_settles agent u t a m s o e)
