-- ===== src/Agent/SafeWrites.antt =====
-- The stores' writes do not raise for a run that is stored and data that `json.dumps` accepts.
use enterprise_agentops.Base.{ℕ, ◌≡◌, refl, String, true, Option, none, some}
use enterprise_agentops.Base.Table.{find, find-update_self}
use enterprise_agentops.Values.{Value, Items, Fields, is_json, is_json_fields, is_json_items}
use enterprise_agentops.Columns.{dump, to_column, fields_column, items_column}
use enterprise_agentops.Results.{ok}
use enterprise_agentops.Exec.{Exec, pure, ◌>>=◌}
use enterprise_agentops.Exec.Triple.{Triple, Triple-bind, Triple-pure}
use enterprise_agentops.Storage.{StepType, Run, Storage}
use enterprise_agentops.Storage.Host.{Host, utc_now, perf_ns, new_uuid, start, stop}
use enterprise_agentops.RunStore
use enterprise_agentops.RunStore.{add_step}
use enterprise_agentops.ApprovalStore
use enterprise_agentops.AuditStore.{record_event}
use enterprise_agentops.Agent.Invariants.Tables.{run_key}

-- The run is stored.
abbrev pub IsStored : {Outside : Type 0} → String → Storage Outside → Type 0
IsStored run_id s = (r : Run) × (find run_key run_id s.runs ≡ some r)

-- From a storage that has the run, `m` returns a value with `Q`, and the run is still stored.
abbrev pub Safe : {Outside A : Type 0} → String → Exec (Storage Outside) A → (A → Type 0) → Type 0
Safe run_id m Q = Triple (IsStored run_id) m (λ a s. IsStored run_id s × Q a) (λ _ _. ⊥)

module _ {Outside A B : Type 0} (run_id : String) where
  pub Safe-bind :
      {m : Exec (Storage Outside) A} {f : A → Exec (Storage Outside) B} {Q : A → Type 0}
      {R : B → Type 0}
      → Safe run_id m Q
      → ((a : A) → Q a → Safe run_id (f a) R)
      → Safe run_id (m >>= f) R
  Safe-bind {Q} m f =
      Triple-bind (λ a s. IsStored run_id s × Q a) m
        (λ a. record { at = λ s (h, q). (f a q).at s h })

module _ {Outside A : Type 0} (run_id : String) where
  pub Safe-pure : {Q : A → Type 0} (a : A) → Q a → Safe {Outside = Outside} run_id (pure a) Q
  Safe-pure a q = Triple-pure a (λ s h. (h, q))

pub dump_plain : (v : Value) → is_json v ≡ true → (o : Option Value) × (dump v ≡ ok o)
unfolding dump to_column
dump_plain Value.null h = (none, refl)
dump_plain (Value.bool b) h = (some (Value.bool b), rw h refl)
dump_plain (Value.number n) h = (some (Value.number n), rw h refl)
dump_plain (Value.text t) h = (some (Value.text t), rw h refl)
dump_plain (Value.list xs) h = (some (Value.list xs), rw h refl)
dump_plain (Value.dict fs) h = (some (Value.dict fs), rw h refl)
dump_plain (Value.object o) h = (some (Value.object o), rw h refl)

module _ {Outside : Type 0} (host : Host) (run_id : String) where
  abbrev pub Writes : Exec (Storage Outside) Unit → Type 0
  Writes m = Safe run_id m (λ _. Unit)

  pub start-Safe : Safe {Outside = Outside} run_id (start host) (λ _. Unit)
  unfolding start utc_now perf_ns ◌>>=◌
  start-Safe = record { at = λ s h. (h, tt) }

  pub stop-Safe : (t : ℕ × ℕ) → Safe {Outside = Outside} run_id (stop host t) (λ _. Unit)
  unfolding stop utc_now perf_ns ◌>>=◌
  stop-Safe t = record { at = λ s h. (h, tt) }

  pub apply-Safe :
      (f : Run → Run)
      → ((r : Run) → run_key (f r) ≡ run_key r)
      → Writes (RunStore.apply host run_id f)
  unfolding RunStore.apply RunStore.write_run RunStore.get_run utc_now ◌>>=◌
  apply-Safe f keys = record {
    at = λ s (r, e).
        rw (e, RunStore.write_run) ((_, find-update_self run_key run_id _ s.runs r (keys r) e), tt);
  }

  pub save_conversation-Safe :
      (c : Items) → is_json_items c ≡ true → Writes (RunStore.save_conversation host run_id c)
  unfolding RunStore.save_conversation items_column ◌>>=◌
  save_conversation-Safe c h = rw h (record { at = λ s e. (apply-Safe _ (λ _. refl)).at s e })

  pub await_approval-Safe :
      (c : Items) → is_json_items c ≡ true → Writes (RunStore.await_approval host run_id c)
  unfolding RunStore.await_approval items_column ◌>>=◌
  await_approval-Safe c h = rw h (record { at = λ s e. (apply-Safe _ (λ _. refl)).at s e })

  pub record_event-Safe :
      (k : String) (d : Fields) (r u : Option String)
      → is_json_fields d ≡ true
      → Writes (record_event host k d r u)
  unfolding record_event fields_column ◌>>=◌
  record_event-Safe k d r u h = rw h (record { at = λ s e. (e, tt) })

  pub add_step-Safe :
      (t : StepType) (n : Option String) (a v e : Value)
      → is_json a ≡ true
      → is_json v ≡ true
      → is_json e ≡ true
      → Safe {Outside = Outside} run_id (add_step host run_id t n a v e) (λ _. Unit)
  unfolding add_step utc_now ◌>>=◌
  add_step-Safe t n a v e ha hv he =
      rw ((dump_plain a ha).1, (dump_plain v hv).1, (dump_plain e he).1)
        (record { at = λ s h. (h, tt) })

  pub create-Safe :
      (n : String) (a : Fields) (k c : String) (u : Option String)
      → is_json_fields a ≡ true
      → Safe {Outside = Outside} run_id
          (ApprovalStore.create host n a k run_id c u)
          (λ p. is_json_fields p.arguments ≡ true)
  unfolding ApprovalStore.create fields_column new_uuid utc_now ◌>>=◌
  create-Safe n a k c u h = rw h (record { at = λ s e. (e, h) })
