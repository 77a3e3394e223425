-- ===== src/Agent/Settlement.antt =====
-- How a run that returns is left in the tables.
use enterprise_agentops.Base.{
  ℕ, ◌≡◌, refl, String, Option, none, some, List, [], ◌∷◌, ◌++◌, Option-cases, Bool-cases, inl, inr,
}
use enterprise_agentops.Base.Table.{find, find-update_self}
use enterprise_agentops.Values.{Fields, is_json_fields}
use enterprise_agentops.Columns.{fields_column}
use enterprise_agentops.Protocol.{ToolCall, ModelMessage}
use enterprise_agentops.Exceptions.{Exception, ToolRisk}
use enterprise_agentops.Results.{Result, ok, err}
use enterprise_agentops.Exec.{Exec, pure, ◌>>=◌, ◌>>◌}
use enterprise_agentops.Exec.Triple.{
  Keeps, Post, Triple, Triple-bind, Triple-pure, Triple-Keeps, Triple-weaken,
}
use enterprise_agentops.Storage.{
  RunStatus, running, waiting_for_approval, completed, failed, cancelled, Run, Approval, pending,
  Storage,
}
use enterprise_agentops.Storage.Host.{Host, utc_now, new_uuid}
use enterprise_agentops.RunStore
use enterprise_agentops.ApprovalStore
use enterprise_agentops.Agent.Service.{AgentService, TraceEntry, Outcome, ApprovalRequest}
use enterprise_agentops.Agent.Recording.{finished, park, abort}
use enterprise_agentops.Agent.Invariants.Tables.{
  run_key, LogsKeep, add_step-Keeps, record_event-Keeps,
}

-- Anything may hold before, and after a raise.
abbrev pub Returns :
    {Outside A : Type 0} → Exec (Storage Outside) A → (A → Storage Outside → Type 0) → Type 0
Returns m Q = Triple (λ _. Unit) m Q (λ _ _. Unit)

-- The request is that of the last approval, which is PENDING and the run's own.
abbrev pub IsAwaiting : {Outside : Type 0} → String → ApprovalRequest → Storage Outside → Type 0
IsAwaiting run_id request s =
    (before : List Approval) × (row : Approval) × (s.approvals ≡ before ++ row ∷ [])
    × (row.status ≡ pending)
    × (row.run_id ≡ run_id)
    × (request ≡ record {
      approval_id = row.approval_id;
      run_id = run_id;
      tool = row.tool;
      arguments = row.arguments;
      risk = row.risk;
    })

-- How a run of the status may have ended: COMPLETED or FAILED with its answer stored and nothing to
-- approve, or WAITING_FOR_APPROVAL with an approval to decide. It is never left RUNNING.
abbrev pub Ending : {Outside : Type 0} → RunStatus → Run → Outcome → Storage Outside → Type 0
Ending completed r o s = (r.final_answer ≡ some o.answer) × (o.approval_required ≡ none)
Ending failed r o s = (r.final_answer ≡ some o.answer) × (o.approval_required ≡ none)
Ending waiting_for_approval r o s =
    (request : ApprovalRequest) × (o.approval_required ≡ some request)
    × IsAwaiting o.run_id request s
Ending running r o s = ⊥
Ending cancelled r o s = ⊥

-- What the outcome says of the run is what is stored of it.
abbrev pub IsSettled : {Outside : Type 0} → Outcome → Storage Outside → Type 0
IsSettled o s =
    (r : Run) × (find run_key o.run_id s.runs ≡ some r)
    × (r.status ≡ o.status)
    × Ending o.status r o s

module _ {Outside A : Type 0} where
  any-Post : (o : Result A × Storage Outside) → Post (λ _ _. Unit) (λ _ _. Unit) o
  any-Post (ok a, s) = tt
  any-Post (err e, s) = tt

  -- Only the last action counts.
  pub Returns-bind :
      {B : Type 0} (m : Exec (Storage Outside) A) (f : A → Exec (Storage Outside) B)
      {Q : B → Storage Outside → Type 0}
      → ((a : A) → Returns (f a) Q)
      → Returns (m >>= f) Q
  Returns-bind m f k = Triple-bind (λ _ _. Unit) (record { at = λ s _. any-Post (m s) }) k

module _ {Outside : Type 0} (host : Host) (run_id : String) (f : Run → Run)
    (keys : (r : Run) → run_key (f r) ≡ run_key r) where
  abbrev Applied : Storage Outside → Type 0
  Applied s =
      (r : Run) × (t : ℕ) × (find run_key run_id s.runs ≡ some (record (f r) { updated_at = t }))

  -- `apply` returns only if the run is stored, and then its row is changed.
  apply-Returns : Returns (RunStore.apply host run_id f) (λ _. Applied)
  unfolding RunStore.apply RunStore.write_run RunStore.get_run utc_now ◌>>=◌
  apply-Returns = record {
    at = λ s _. elim (Option-cases (find run_key run_id s.runs)) [
      | inl e ↦ rw (e, RunStore.write_run) tt
      | inr (r, e) ↦
          rw (e, RunStore.write_run)
            (r, host.now s.clock_readings, find-update_self run_key run_id _ s.runs r (keys r) e)
    ];
  }

module _ {Outside : Type 0} (agent : AgentService Outside) where
  pub ends :
      (run_id answer : String) (trace : List TraceEntry)
      → Returns {Outside = Outside}
          (do RunStore.fail agent.host run_id answer; pure (finished run_id failed answer trace))
          IsSettled
  unfolding RunStore.fail
  ends run_id answer trace =
      Triple-bind _ (apply-Returns agent.host run_id _ (λ _. refl))
        (λ _. Triple-pure _ (λ s (r, t, e). (_, e, refl, (refl, refl))))

  pub completes :
      (run_id answer : String) (trace : List TraceEntry)
      → Returns {Outside = Outside}
          (do
            RunStore.complete agent.host run_id answer
            pure (finished run_id completed answer trace))
          IsSettled
  unfolding RunStore.complete
  completes run_id answer trace =
      Triple-bind _ (apply-Returns agent.host run_id _ (λ _. refl))
        (λ _. Triple-pure _ (λ s (r, t, e). (_, e, refl, (refl, refl))))

  pub abort-settles :
      (run_id : String) (c : ToolCall) (e : Exception) (trace : List TraceEntry) (u : Option String)
      → Returns (abort agent run_id c e trace u) IsSettled
  unfolding abort
  abort-settles run_id c e trace u = Returns-bind _ _ (λ _. ends run_id _ trace)

  -- What is left of `park` keeps what is known of the run and of its approval.
  abbrev Parked : String → Approval → Storage Outside → Type 0
  Parked run_id row s =
      ((r : Run) × (find run_key run_id s.runs ≡ some r) × (r.status ≡ waiting_for_approval))
      × (before : List Approval) × (s.approvals ≡ before ++ row ∷ [])
      × (row.status ≡ pending)
      × (row.run_id ≡ run_id)

  Parked-LogsKeep : (run_id : String) (row : Approval) → LogsKeep (Parked run_id row)
  Parked-LogsKeep run_id row = record {
    counters = λ s a b c h. h;
    add_step = λ s r e h. h;
    add_event = λ s r e h. h;
    add_model_execution = λ s r h. h;
    add_tool_execution = λ s r h. h;
  }

  weakened :
      {A : Type 0} {P : Storage Outside → Type 0} {m : Exec (Storage Outside) A}
      → Keeps P m
      → Triple P m (λ _. P) (λ _ _. Unit)
  weakened k = Triple-weaken (λ s h. h) (λ a s h. h) (λ e s h. tt) (Triple-Keeps k)

  create-parks :
      (run_id : String) (t : String) (a : Fields) (k c : String) (u : Option String)
      → Triple
          (λ s.
            (r : Run) × (find run_key run_id s.runs ≡ some r) × (r.status ≡ waiting_for_approval))
          (ApprovalStore.create agent.host t a k run_id c u)
          (Parked run_id)
          (λ _ _. Unit)
  unfolding ApprovalStore.create fields_column new_uuid utc_now ◌>>=◌
  create-parks run_id t a k c u = record {
    at = λ s h. elim (Bool-cases (is_json_fields a)) [
      | inl e ↦ rw e (h, s.approvals, refl, refl, refl)
      | inr e ↦ rw e tt
    ];
  }

  pub park-settles :
      (run_id : String) (c : List ModelMessage) (t : ToolCall) (n : String) (a : Fields)
      (k : ToolRisk) (l : List TraceEntry) (u : Option String)
      → Returns (park agent run_id c t n a k l u) IsSettled
  unfolding park RunStore.await_approval
  park-settles run_id c t n a k l u =
      Triple-bind
        (λ _ s.
          (r : Run) × (find run_key run_id s.runs ≡ some r) × (r.status ≡ waiting_for_approval))
        (Returns-bind _ _ (λ _.
          Triple-weaken (λ s h. h) (λ _ s (r, t, e). (_, e, refl)) (λ e s h. h)
            (apply-Returns agent.host run_id _ (λ _. refl))))
        (λ _. Triple-bind _ (create-parks run_id n a _ _ u) (λ row.
          Triple-bind _
            (weakened (record_event-Keeps agent.host (Parked-LogsKeep run_id row) _ _ _ _))
            (λ _.
              Triple-bind _
                (weakened (add_step-Keeps agent.host (Parked-LogsKeep run_id row) _ _ _ _ _ _))
                (λ _. Triple-pure _ (λ s ((r, found, status), before, last, is_pending, own).
                  (r, found, status, (_, refl, (before, row, last, is_pending, own, refl))))))))
