-- ===== src/Agent/Invariants/Tables.antt =====
-- The stores write each table in one way, so a predicate that survives those writes is kept by every
-- store operation.
use enterprise_agentops.Base.{
  ℕ, ◌+◌, ◌≡◌, refl, String, Bool, Option, none, some, [], ◌∷◌, ◌++◌, map, maximum,
}
use enterprise_agentops.Base.Table.{update}
use enterprise_agentops.Values.{Value, Fields}
use enterprise_agentops.Columns.{dump}
use enterprise_agentops.Results.{Result, ok, err}
use enterprise_agentops.Exec.{pure, lift, gets, modify, ◌>>=◌, ◌>>◌}
use enterprise_agentops.Exec.Triple.{
  Keeps, keeps_rules, Keeps-bind, Keeps-modify, Keeps-lift, Keeps-gets,
}
use enterprise_agentops.Storage.{
  StepType, Run, RunStep, Approval, pending, AuditEvent, ModelExecution, ToolExecution, Storage,
}
use enterprise_agentops.Storage.Host.{Host, utc_now, perf_ns, new_uuid}
use enterprise_agentops.RunStore
use enterprise_agentops.RunStore.{step_numbers}
use enterprise_agentops.ApprovalStore
use enterprise_agentops.AuditStore.{record_event}
use enterprise_agentops.Observability.{record_model, record_tool}
use enterprise_agentops.Agent.Service.{AgentService}
use enterprise_agentops.Agent.Invariants.Rules.{StoresKeep}

abbrev pub run_key : Run → String
run_key r = r.run_id

-- The clocks and the tables that are only ever appended to
pub record LogsKeep {Outside : Type 0} (P : Storage Outside → Type 0) : Type 0 where
  pub counters :
      (s : Storage Outside) (a b c : ℕ)
      → P s
      → P (record s { clock_readings = a; monotonic_readings = b; uuids = c })
  pub add_step :
      (s : Storage Outside) (r : RunStep)
      → r.step_number ≡ maximum (step_numbers r.run_id s.steps) + 1
      → P s
      → P (record s { steps = s.steps ++ r ∷ [] })
  pub add_event :
      (s : Storage Outside) (r : AuditEvent)
      → r.id ≡ maximum (map (λ (e : AuditEvent). e.id) s.audit_events) + 1
      → P s
      → P (record s { audit_events = s.audit_events ++ r ∷ [] })
  pub add_model_execution :
      (s : Storage Outside) (r : ModelExecution)
      → P s
      → P (record s { model_executions = s.model_executions ++ r ∷ [] })
  pub add_tool_execution :
      (s : Storage Outside) (r : ToolExecution)
      → P s
      → P (record s { tool_executions = s.tool_executions ++ r ∷ [] })

-- The runs and the approvals too
pub record TablesKeep {Outside : Type 0} (P : Storage Outside → Type 0) : Type 0 where
  pub logs : LogsKeep P
  pub add_run : (s : Storage Outside) (r : Run) → P s → P (record s { runs = s.runs ++ r ∷ [] })
  pub write_run :
      (s : Storage Outside) (k : String) (f : Run → Run)
      → ((r : Run) → run_key (f r) ≡ run_key r)
      → P s
      → P (record s { runs = update run_key k f s.runs })
  pub add_approval :
      (s : Storage Outside) (r : Approval)
      → r.status ≡ pending
      → P s
      → P (record s { approvals = s.approvals ++ r ∷ [] })

module _ {Outside : Type 0} (host : Host) {P : Storage Outside → Type 0} (logs : LogsKeep P) where
  pub utc_now-Keeps : Keeps P (utc_now {Outside = Outside} host)
  unfolding utc_now ◌>>=◌
  utc_now-Keeps = record { at = λ s h. logs.counters s _ _ _ h }

  pub perf_ns-Keeps : Keeps P (perf_ns {Outside = Outside} host)
  unfolding perf_ns ◌>>=◌
  perf_ns-Keeps = record { at = λ s h. logs.counters s _ _ _ h }

  pub new_uuid-Keeps : Keeps P (new_uuid {Outside = Outside} host)
  unfolding new_uuid ◌>>=◌
  new_uuid-Keeps = record { at = λ s h. logs.counters s _ _ _ h }

  pub add_step-Keeps :
      (r : String) (t : StepType) (n : Option String) (a b c : Value)
      → Keeps P (RunStore.add_step host r t n a b c)
  unfolding RunStore.add_step ◌>>=◌ utc_now
  add_step-Keeps r t n a b c = record { at = λ s h. go s h (dump a) (dump b) (dump c) }
    where
      go :
          (s : Storage Outside)
          → P s
          → (x y z : Result (Option Value))
          → P
              ((do
                used ← gets (λ q. step_numbers r q.steps)
                x' ← lift x
                y' ← lift y
                z' ← lift z
                timestamp ← utc_now host
                let row : RunStep = record {
                  run_id = r;
                  step_number = maximum used + 1;
                  step_type = t;
                  tool_name = n;
                  arguments = x';
                  result = y';
                  error = z';
                  created_at = timestamp;
                }
                modify (λ q. record q { steps = q.steps ++ row ∷ [] })
                pure (maximum used + 1))
                s).1
      go s h (err e) y z = h
      go s h (ok x) (err e) z = h
      go s h (ok x) (ok y) (err e) = h
      go s h (ok x) (ok y) (ok z) = logs.add_step _ _ refl (logs.counters s _ _ _ h)

  pub record_event-Keeps :
      (t : String) (d : Fields) (r u : Option String) → Keeps P (record_event host t d r u)
  unfolding record_event
  record_event-Keeps t d r u =
      Keeps-bind _ _ (Keeps-lift _) (λ c. Keeps-modify _ (λ s h. logs.add_event s _ refl h))

module _ {Outside : Type 0} (host : Host) {P : Storage Outside → Type 0}
    (tables : TablesKeep P) where
  open tables use {logs}

  create_run-Keeps : (m : String) (u : Option String) → Keeps P (RunStore.create_run host m u)
  unfolding RunStore.create_run
  create_run-Keeps m u = Keeps-bind _ _ (utc_now-Keeps host logs) (λ t.
      Keeps-bind _ _ (new_uuid-Keeps host logs) (λ r.
        Keeps-bind _ _ (Keeps-modify _ (λ s h. tables.add_run s _ h)) (λ _. search keeps_rules)))

  module _ (k : String) (f : Run → Run) (keys : (r : Run) → run_key (f r) ≡ run_key r) where
    write_run-Keeps : (o : Option Run) → Keeps P (RunStore.write_run host k f o)
    unfolding RunStore.write_run
    write_run-Keeps none = search keeps_rules
    write_run-Keeps (some r) =
        Keeps-bind _ _ (utc_now-Keeps host logs)
          (λ t. Keeps-modify _ (λ s h. tables.write_run s k _ keys h))

    pub apply-Keeps : Keeps P (RunStore.apply host k f)
    unfolding RunStore.apply RunStore.get_run
    apply-Keeps = search (keeps_rules, write_run-Keeps)

  create_approval-Keeps :
      (t : String) (a : Fields) (k r c : String) (u : Option String)
      → Keeps P (ApprovalStore.create host t a k r c u)
  unfolding ApprovalStore.create
  create_approval-Keeps t a k r c u = Keeps-bind _ _ (new_uuid-Keeps host logs) (λ i.
      Keeps-bind _ _ (Keeps-lift _) (λ d. Keeps-bind _ _ (utc_now-Keeps host logs) (λ n.
        Keeps-bind _ _ (Keeps-modify _ (λ s h. tables.add_approval s _ refl h))
          (λ _. search keeps_rules))))

-- Every operation of the stores that the agent calls, but `resolve`, keeps the predicate.
pub TablesKeep-StoresKeep :
    {Outside : Type 0} (agent : AgentService Outside) {P : Storage Outside → Type 0}
    → TablesKeep P
    → StoresKeep agent P
unfolding RunStore.save_conversation RunStore.await_approval RunStore.resume RunStore.complete
    RunStore.fail RunStore.cancel record_model record_tool
TablesKeep-StoresKeep agent tables = record {
  clock = utc_now-Keeps host tables.logs;
  monotonic = perf_ns-Keeps host tables.logs;
  create_run = create_run-Keeps host tables;
  save_conversation =
      λ r c. Keeps-bind _ _ (Keeps-lift _) (λ x. apply-Keeps host tables r _ (λ _. refl));
  await_approval =
      λ r c. Keeps-bind _ _ (Keeps-lift _) (λ x. apply-Keeps host tables r _ (λ _. refl));
  resume = λ r. apply-Keeps host tables r _ (λ _. refl);
  complete = λ r a. apply-Keeps host tables r _ (λ _. refl);
  fail = λ r a. apply-Keeps host tables r _ (λ _. refl);
  cancel = λ r a. apply-Keeps host tables r _ (λ _. refl);
  add_step = add_step-Keeps host tables.logs;
  create_approval = create_approval-Keeps host tables;
  record_event = record_event-Keeps host tables.logs;
  record_model = λ r p m t w u c i x y.
      Keeps-bind _ _ (new_uuid-Keeps host tables.logs)
        (λ _. Keeps-modify _ (λ s. tables.logs.add_model_execution s _));
  record_tool = λ r n c t w x y z. Keeps-bind _ _ (Keeps-gets _) (λ _.
      Keeps-bind _ _ (new_uuid-Keeps host tables.logs)
        (λ _. Keeps-modify _ (λ s. tables.logs.add_tool_execution s _)));
}
  where
    open agent use {host}

module _ {Outside : Type 0} (agent : AgentService Outside) {P : Storage Outside → Type 0}
    (tables : TablesKeep P) (k : String)
    (decided : (s : Storage Outside) (f : Approval → Approval)
      → ((r : Approval) → ApprovalStore.key (f r) ≡ ApprovalStore.key r)
      → P s
      → P (record s { approvals = update ApprovalStore.key k f s.approvals })) where
  write_decision-Keeps :
      (b : Bool) (u : Option String) (o : Option Approval)
      → Keeps P (ApprovalStore.write_decision agent.host k b u o)
  unfolding ApprovalStore.write_decision
  write_decision-Keeps b u none = search keeps_rules
  write_decision-Keeps b u (some _) =
      Keeps-bind _ _ (utc_now-Keeps agent.host tables.logs)
        (λ n. Keeps-modify _ (λ s. decided s _ (λ _. refl)))

  -- `resolve` keeps what survives a change of the one approval.
  pub resolve-Keeps :
      (b : Bool) (u : Option String) → Keeps P (ApprovalStore.resolve agent.host k b u)
  unfolding ApprovalStore.resolve ApprovalStore.get
  resolve-Keeps b u = Keeps-bind _ _ (Keeps-gets _) (write_decision-Keeps b u)
