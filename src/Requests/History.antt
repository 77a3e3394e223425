-- ===== src/Requests/History.antt =====
-- The records of the service: they are appended to and never changed, and steps and events are numbered
-- without a gap.
use enterprise_agentops.Base.{
  ℕ, ◌+◌, ◌≡◌, sym, ap, String, str_eq, List, [], ◌∷◌, ◌++◌, map, length, maximum, count_up,
  count_up_next, select, select-append, eq_iff, if◌then◌else◌, Bool-cases, inl, inr,
}
use mathlib.Core.List.{append-nil, append_assoc, map-append}
use enterprise_agentops.Base.Table.{map-update}
use enterprise_agentops.Storage.{RunStep, AuditEvent, Storage}
use enterprise_agentops.RunStore.{step_numbers}
use enterprise_agentops.ApprovalStore
use enterprise_agentops.Agent.Service.{AgentService}
use enterprise_agentops.Agent.Invariants.Tables.{run_key}
use enterprise_agentops.Requests.{Request, serve}
use enterprise_agentops.Requests.Invariants.{IsStable, serve_stable}

-- `ys` is `xs` with further elements behind it.
abbrev pub Extends {ℓ} : {A : Type ℓ} → List A → List A → Type ℓ
Extends {A} xs ys = (rest : List A) × (ys ≡ xs ++ rest)

Extends-self {ℓ} : {A : Type ℓ} (xs : List A) → Extends xs xs
Extends-self xs = ([], sym (append-nil xs))

Extends-more {ℓ} : {A : Type ℓ} (xs ys : List A) (a : A) → Extends xs ys → Extends xs (ys ++ a ∷ [])
Extends-more xs ys a (rest, e) = (rest ++ a ∷ [], rw e (append_assoc xs rest (a ∷ [])))

-- What a storage keeps of an earlier one: every step, event and measurement, and the identity and order of the
-- runs and the approvals.
abbrev pub Continues : {Outside : Type 0} → Storage Outside → Storage Outside → Type 0
Continues s t =
    Extends s.audit_events t.audit_events
    × Extends s.steps t.steps
    × Extends s.model_executions t.model_executions
    × Extends s.tool_executions t.tool_executions
    × Extends (map run_key s.runs) (map run_key t.runs)
    × Extends (map ApprovalStore.key s.approvals) (map ApprovalStore.key t.approvals)

-- Each write leaves all but one table alone.
Continues-IsStable : {Outside : Type 0} (s : Storage Outside) → IsStable (Continues s)
Continues-IsStable s = record {
  tables = record {
    logs = record {
      counters = λ t a b c h. h;
      add_step = λ t r e h. (h.0, Extends-more _ _ _ h.1, h.2, h.3, h.4, h.5);
      add_event = λ t r e h. (Extends-more _ _ _ h.0, h.1, h.2, h.3, h.4, h.5);
      add_model_execution = λ t r h. (h.0, h.1, Extends-more _ _ _ h.2, h.3, h.4, h.5);
      add_tool_execution = λ t r h. (h.0, h.1, h.2, Extends-more _ _ _ h.3, h.4, h.5);
    };
    add_run = λ t r h.
        (h.0, h.1, h.2, h.3, rw (map-append run_key t.runs (r ∷ [])) (Extends-more _ _ _ h.4), h.5);
    write_run = λ t k f e h. (h.0, h.1, h.2, h.3, rw (map-update run_key k f t.runs e) h.4, h.5);
    add_approval = λ t r e h. (
      h.0,
      h.1,
      h.2,
      h.3,
      h.4,
      rw (map-append ApprovalStore.key t.approvals (r ∷ [])) (Extends-more _ _ _ h.5),
    );
  };
  decided = λ k t f e h.
      (h.0, h.1, h.2, h.3, h.4, rw (map-update ApprovalStore.key k f t.approvals e) h.5);
  inside = λ t o h. h;
}

-- The numbers of every run's steps, and the ids of the events, are 1, 2, 3, … in the order of the table.
abbrev event_ids : List AuditEvent → List ℕ
event_ids = map (λ (e : AuditEvent). e.id)

abbrev pub IsNumbered : {Outside : Type 0} → Storage Outside → Type 0
IsNumbered s =
    ((run_id : String)
      → step_numbers run_id s.steps ≡ count_up (length (step_numbers run_id s.steps)))
    × (event_ids s.audit_events ≡ count_up (length (event_ids s.audit_events)))

step_numbers-append :
    (run_id : String) (steps : List RunStep) (r : RunStep)
    → step_numbers run_id (steps ++ r ∷ []) ≡ (
        if str_eq r.run_id run_id
        then step_numbers run_id steps ++ r.step_number ∷ []
        else step_numbers run_id steps)
unfolding step_numbers
step_numbers-append run_id steps r = elim (Bool-cases (str_eq r.run_id run_id)) [
  | inl e ↦ rw (select-append _ steps (r ∷ []), e) (map-append _ (select _ steps) (r ∷ []))
  | inr e ↦ rw (select-append _ steps (r ∷ []), e) (ap (map _) (append-nil _))
]

numbered_step :
    (run_id : String) (steps : List RunStep) (r : RunStep)
    → r.step_number ≡ maximum (step_numbers r.run_id steps) + 1
    → ((k : String) → step_numbers k steps ≡ count_up (length (step_numbers k steps)))
    → step_numbers run_id (steps ++ r ∷ [])
      ≡ count_up (length (step_numbers run_id (steps ++ r ∷ [])))
numbered_step run_id steps r e h =
    rw (step_numbers-append run_id steps r) (elim (Bool-cases (str_eq r.run_id run_id)) [
      | inl q ↦
          rw (q, e, (eq_iff r.run_id run_id).0 q)
            (count_up_next (step_numbers run_id steps) (h run_id))
      | inr q ↦ rw q (h run_id)
    ])

numbered_event :
    (es : List AuditEvent) (r : AuditEvent)
    → r.id ≡ maximum (event_ids es) + 1
    → event_ids es ≡ count_up (length (event_ids es))
    → event_ids (es ++ r ∷ []) ≡ count_up (length (event_ids (es ++ r ∷ [])))
numbered_event es r e h =
    rw (map-append (λ (x : AuditEvent). x.id) es (r ∷ []), e) (count_up_next (event_ids es) h)

IsNumbered-IsStable : {Outside : Type 0} → IsStable {Outside = Outside} IsNumbered
IsNumbered-IsStable = record {
  tables = record {
    logs = record {
      counters = λ t a b c h. h;
      add_step = λ t r e h. (λ k. numbered_step k t.steps r e h.0, h.1);
      add_event = λ t r e h. (h.0, numbered_event t.audit_events r e h.1);
      add_model_execution = λ t r h. h;
      add_tool_execution = λ t r h. h;
    };
    add_run = λ t r h. h;
    write_run = λ t k f e h. h;
    add_approval = λ t r e h. h;
  };
  decided = λ k t f e h. h;
  inside = λ t o h. h;
}

module _ {Outside : Type 0} (agent : AgentService Outside) (seconds : ℕ) (rs : List Request)
    (s : Storage Outside) where
  -- Whatever requests are served, and however they end, the audit events, the steps and the measurements that
  -- were there are still there, unchanged and in their order before the new ones, and no run and no
  -- approval is gone or has moved.
  pub serve-Continues : Continues s (serve agent seconds rs s)
  serve-Continues = serve_stable agent seconds (Continues-IsStable s) rs s (
    Extends-self _,
    Extends-self _,
    Extends-self _,
    Extends-self _,
    Extends-self _,
    Extends-self _,
  )

  -- Steps and events stay numbered without a gap: where each run's steps are numbered 1, 2, 3, … in the order
  -- of the table and so are the audit events, they are so after any requests.
  pub serve-IsNumbered : IsNumbered s → IsNumbered (serve agent seconds rs s)
  serve-IsNumbered h = serve_stable agent seconds IsNumbered-IsStable rs s h
