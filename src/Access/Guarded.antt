-- ===== src/Access/Guarded.antt =====
-- The three routes of Access/Routes, and what a call of them needs.
use mathlib.Core.Option.{some-injective}
use enterprise_agentops.Base.{
  ◌≡◌, ◌≢◌, refl, sym, ap, ◌∙◌, String, Bool, true, Bool-cases, inl, inr, ◌⊎◌, Option, none, some,
  List,
}
use enterprise_agentops.Base.Table.{find}
use enterprise_agentops.Values.{Fields, is_json_fields}
use enterprise_agentops.Columns.{fields_column}
use enterprise_agentops.Exec.{◌>>=◌}
use enterprise_agentops.AuditStore.{record_event}
use enterprise_agentops.Storage.{Approval, Storage}
use enterprise_agentops.ApprovalStore
use enterprise_agentops.Agent.Service.{AgentService}
use enterprise_agentops.Access.Identity.{
  Role, Permission, User, PermissionDenied, can, permission_for_risk, ensure_can_resolve_approval,
  risk_needs_admin,
}
use enterprise_agentops.Access.Security.{Libraries}
use enterprise_agentops.Access.Users.{UserRow}
use enterprise_agentops.Access.Routes.{
  Response, current_user, requires, decide_found_as, run_agent, run_as, resolve_approval, decide_by,
  decide_as, reconcile_runs, sweep_as, Call, answer,
}
use enterprise_agentops.Access.Callers.{Authentic, current_user-Authentic, allowed_or_same}

-- Two storages differ in the audit log alone.
abbrev pub Untouched : {Outside : Type 0} → Storage Outside → Storage Outside → Type 0
Untouched s s' = record s' { audit_events = s.audit_events } ≡ s

abbrev needed_for : Option Approval → Option Permission
needed_for none = none
needed_for (some row) = some (permission_for_risk row.risk)

-- The permission that a call needs
unfoldable pub needed : {Outside : Type 0} → Call → Storage Outside → Option Permission
needed (Call.run content) s = some Permission.run_agent
needed (Call.decide approval_id approved) s =
    needed_for (find ApprovalStore.key approval_id s.approvals)
needed (Call.sweep seconds) s = some Permission.reconcile_runs

some-none : {A : Type 0} {a : A} → some a ≡ none → ⊥
some-none e = cc e

module _ {Outside : Type 0} (libraries : Libraries) (users : List UserRow)
    (agent : AgentService Outside) where
  record_event-Untouched :
      (event : String) (details : Fields) (run_id user_id : Option String) (s : Storage Outside)
      → Untouched s (record_event agent.host event details run_id user_id s).1
  unfolding record_event ◌>>=◌ fields_column
  record_event-Untouched event details run_id user_id s =
      elim (Bool-cases (is_json_fields details)) [ inl e ↦ rw e refl | inr e ↦ rw e refl ]

  resolver-can :
      (u : User) (risk : String)
      → ensure_can_resolve_approval u risk ≡ none
      → can u (permission_for_risk risk) ≡ true
  unfolding ensure_can_resolve_approval
  resolver-can u risk e = elim (Bool-cases (can u (permission_for_risk risk))) [
    | inl a ↦ a
    | inr a ↦ absurd (some-none (rw a at e))
  ]

  decide_as-can :
      (id : String) (b : Bool) (s : Storage Outside) (u : User) (row : Approval)
      (o : Option PermissionDenied)
      → ensure_can_resolve_approval u row.risk ≡ o
      → (can u (permission_for_risk row.risk) ≡ true)
        ⊎ Untouched s (decide_as libraries users agent id b u row o s).1
  decide_as-can id b s u row none e = inl (resolver-can u row.risk e)
  decide_as-can id b s u row (some denied) e =
      inr (record_event-Untouched "AUTHORIZATION_DENIED" _ (some row.run_id) (some u.user_id) s)

  decide_found-can :
      (id : String) (b : Bool) (s : Storage Outside) (u : User) (o : Option Approval)
      → find ApprovalStore.key id s.approvals ≡ o
      → ((p : Permission) × (needed (Call.decide id b) s ≡ some p) × (can u p ≡ true))
        ⊎ Untouched s (decide_found_as libraries users agent id b u o s).1
  unfolding needed
  decide_found-can id b s u none e = inr refl
  decide_found-can id b s u (some row) e =
      elim (decide_as-can id b s u row (ensure_can_resolve_approval u row.risk) refl) [
        | inl may ↦ inl (permission_for_risk row.risk, ap needed_for e, may)
        | inr same ↦ inr same
      ]

  decide_by-Guarded :
      (header : Option String) (id : String) (b : Bool) (s : Storage Outside) (r : Response User)
      → current_user libraries users header ≡ r
      → ((u : User) × (p : Permission) × Authentic libraries users header u
          × (needed (Call.decide id b) s ≡ some p)
          × (can u p ≡ true))
        ⊎ Untouched s (decide_by libraries users agent id b r s).1
  unfolding ApprovalStore.get ◌>>=◌
  decide_by-Guarded header id b s (Response.value u) e =
      elim (decide_found-can id b s u (find ApprovalStore.key id s.approvals) refl) [
        | inl (p, n, may) ↦ inl (u, p, current_user-Authentic libraries users header u e, n, may)
        | inr same ↦ inr same
      ]
  decide_by-Guarded header id b s (Response.http status detail) e = inr refl
  decide_by-Guarded header id b s (Response.raised x) e = inr refl

  -- Whatever a caller sends, with whatever header: either the header carries a token that is accepted and names a
  -- stored, active user whose role has the permission that the call needs, or the call changes nothing but the audit
  -- log. For a decision, the permission is that of the risk of the approval.
  pub routes_guarded :
      (header : Option String) (call : Call) (s : Storage Outside)
      → ((u : User) × (p : Permission) × Authentic libraries users header u
          × (needed call s ≡ some p)
          × (can u p ≡ true))
        ⊎ Untouched s (answer libraries users agent header call s)
  unfolding answer needed run_agent reconcile_runs resolve_approval
  routes_guarded header (Call.run content) s =
      elim (allowed_or_same libraries users header Permission.run_agent
        (requires libraries Permission.run_agent users header)
        (λ r. (run_as libraries users agent content r s).1) s refl (λ _ _. refl) (λ _. refl)) [
          | inl (u, known, may) ↦ inl (u, Permission.run_agent, known, refl, may)
          | inr same ↦
              inr (ap (λ (x : Storage Outside). record x { audit_events = s.audit_events }) same)
        ]
  routes_guarded header (Call.sweep seconds) s =
      elim (allowed_or_same libraries users header Permission.reconcile_runs
        (requires libraries Permission.reconcile_runs users header)
        (λ r. (sweep_as libraries users agent seconds r s).1) s refl (λ _ _. refl) (λ _. refl)) [
          | inl (u, known, may) ↦ inl (u, Permission.reconcile_runs, known, refl, may)
          | inr same ↦
              inr (ap (λ (x : Storage Outside). record x { audit_events = s.audit_events }) same)
        ]
  routes_guarded header (Call.decide id b) s =
      decide_by-Guarded header id b s (current_user libraries users header) refl

  -- A decision on an approval whose risk is not WRITE changes nothing but the audit log, unless an active ADMIN sends
  -- it.
  pub dangerous_guarded :
      (header : Option String) (id : String) (b : Bool) (s : Storage Outside) (row : Approval)
      → find ApprovalStore.key id s.approvals ≡ some row
      → row.risk ≢ "WRITE"
      → ((u : User) × Authentic libraries users header u × (u.role ≡ Role.admin))
        ⊎ Untouched s (answer libraries users agent header (Call.decide id b) s)
  unfolding needed
  dangerous_guarded header id b s row found risk =
      elim (routes_guarded header (Call.decide id b) s) [
        | inl (u, p, known, n, may) ↦
            let same : permission_for_risk row.risk ≡ p =
              some-injective _ _ (sym (ap needed_for found) ∙ n) in
            inl (u, known, risk_needs_admin row.risk u risk (ap (can u) same ∙ may))
        | inr same ↦ inr same
      ]
