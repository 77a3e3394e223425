-- ===== src/Requests/Invariants.antt =====
-- What every request keeps, every sequence of requests keeps.
use enterprise_agentops.Base.{◌≡◌, ℕ, String, Bool, true, Option, none, some, List, [], ◌∷◌}
use enterprise_agentops.Base.Table.{update}
use enterprise_agentops.Exec.Triple.{Keeps, keeps_rules, Keeps-bind, Keeps-pure, Keeps-gets}
use enterprise_agentops.Storage.{Run, Approval, Storage}
use enterprise_agentops.RunStore
use enterprise_agentops.RunStore.{list_stale_running}
use enterprise_agentops.ApprovalStore
use enterprise_agentops.Reconciliation
use enterprise_agentops.Agent.Service.{AgentService}
use enterprise_agentops.Agent.Entry
use enterprise_agentops.Agent.Invariants.Rules.{StoresKeep, CallsKeep}
use enterprise_agentops.Agent.Invariants.Tables.{TablesKeep, TablesKeep-StoresKeep, resolve-Keeps}
use enterprise_agentops.Agent.Invariants.Calls.{execute-Keeps, inside-CallsKeep}
use enterprise_agentops.Agent.Invariants.Entry.{
  run-Keeps, request_action-Keeps, resolve_approval-Keeps,
}
use enterprise_agentops.Requests.{Request, handle, serve}

-- A predicate on the agent's tables that survives each write of a table
pub record IsStable {Outside : Type 0} (P : Storage Outside → Type 0) : Type 0 where
  pub tables : TablesKeep P
  pub decided :
      (k : String) (s : Storage Outside) (f : Approval → Approval)
      → ((r : Approval) → ApprovalStore.key (f r) ≡ ApprovalStore.key r)
      → P s
      → P (record s { approvals = update ApprovalStore.key k f s.approvals })
  pub inside : (s : Storage Outside) (o : Outside) → P s → P (record s { outside = o })

module _ {Outside : Type 0} (agent : AgentService Outside) (seconds : ℕ)
    {P : Storage Outside → Type 0} where
  module _ (stores : StoresKeep agent P) where
    reconcile_run-Keeps :
        (id : String) (o : Option Run)
        → Keeps P (Reconciliation.reconcile_run agent.host seconds id o)
    unfolding Reconciliation.reconcile_run
    reconcile_run-Keeps id none = search keeps_rules
    reconcile_run-Keeps id (some r) =
        search (keeps_rules, stores.add_step, stores.record_event, stores.fail) depth 7

    sweep-Keeps : (ids : List String) → Keeps P (Reconciliation.sweep agent.host seconds ids)
    unfolding Reconciliation.sweep RunStore.get_run
    sweep-Keeps [] = search keeps_rules
    sweep-Keeps (id ∷ ids) = Keeps-bind _ _ (Keeps-gets _) (λ o.
        Keeps-bind _ _ (reconcile_run-Keeps id o)
          (λ x. Keeps-bind _ _ (sweep-Keeps ids) (λ y. Keeps-pure _)))

    pub reconcile-Keeps : (t : Option ℕ) → Keeps P (Reconciliation.reconcile agent.host seconds t)
    unfolding Reconciliation.reconcile list_stale_running
    reconcile-Keeps none =
        Keeps-bind _ _ stores.clock (λ t. Keeps-bind _ _ (Keeps-gets _) sweep-Keeps)
    reconcile-Keeps (some t) = search (keeps_rules, sweep-Keeps)

  module _ (stores : StoresKeep agent P) (calls : CallsKeep agent P)
      (decisions : (u : Option String) (id : String) (b : Bool)
        → Keeps P (Entry.resolve_approval agent u id b)) where
    handle-Keeps : (r : Request) → Keeps P (handle agent seconds r)
    unfolding handle
    handle-Keeps (Request.run u m) = search (keeps_rules, run-Keeps agent stores calls)
    handle-Keeps (Request.request_action u t a m) =
        search (keeps_rules, request_action-Keeps agent stores calls)
    handle-Keeps (Request.resolve_approval u id b) = search (keeps_rules, decisions)
    handle-Keeps (Request.reconcile t) = search (keeps_rules, reconcile-Keeps stores)

    pub serve_kept : (rs : List Request) (s : Storage Outside) → P s → P (serve agent seconds rs s)
    unfolding serve
    serve_kept [] s h = h
    serve_kept (r ∷ rs) s h = serve_kept rs (handle agent seconds r s).1 ((handle-Keeps r).at s h)

  module _ (stable : IsStable P) where
    stable_stores : StoresKeep agent P
    stable_stores = TablesKeep-StoresKeep agent stable.tables

    stable_calls : CallsKeep agent P
    stable_calls = inside-CallsKeep P stable.inside agent

    resolve_approval-stable :
        (u : Option String) (id : String) (b : Bool) → Keeps P (Entry.resolve_approval agent u id b)
    resolve_approval-stable u id b = record {
      at = λ s h.
          resolve_approval-Keeps agent stable_stores stable_calls u id
            (λ c. resolve-Keeps agent stable.tables id (stable.decided id) c u) b s
            (λ row e c. execute-Keeps P stable.inside agent.tools row.tool row.arguments true c) h;
    }

    pub serve_stable :
        (rs : List Request) (s : Storage Outside) → P s → P (serve agent seconds rs s)
    serve_stable = serve_kept stable_stores stable_calls resolve_approval-stable
