-- ===== src/Requests/Decided.antt =====
-- A decision on an approval of app/approval_store.py, and the requests after it.
use mathlib.Core.Path.{subst}
use enterprise_agentops.Base.{
  ℕ, ◌≡◌, ◌≢◌, sym, ◌∙◌, String, str_eq, eq_iff, Bool, true, false, Bool-cases, inl, inr, Option,
  some, List, if◌then◌else◌,
}
use enterprise_agentops.Base.Table.{find, find-update_ne}
use enterprise_agentops.Results.{err}
use enterprise_agentops.Exec.Triple.{Keeps}
use enterprise_agentops.Storage.{pending, approved, rejected, Approval, Storage}
use enterprise_agentops.ApprovalStore
use enterprise_agentops.Agent.Service.{AgentService}
use enterprise_agentops.Agent.Entry.{already_resolved, resolve_approval}
use enterprise_agentops.Agent.Invariants.Rules.{StoresKeep, CallsKeep}
use enterprise_agentops.Agent.Invariants.Tables.{TablesKeep-StoresKeep, resolve-Keeps}
use enterprise_agentops.Agent.Invariants.Calls.{execute-Keeps, inside-CallsKeep}
use enterprise_agentops.Agent.Invariants.Entry.{resolve_approval-Keeps}
use enterprise_agentops.Agent.Decisions.{
  decided, found-TablesKeep, IsReadable, resolve_approval_refused, resolve_approval_recorded,
}
use enterprise_agentops.Requests.{Request, serve}
use enterprise_agentops.Requests.Invariants.{serve_kept}

module _ {Outside : Type 0} (agent : AgentService Outside) (id : String) (row : Approval)
    (settled : row.status ≢ pending) where
  abbrev Stands : Storage Outside → Type 0
  Stands s = find ApprovalStore.key id s.approvals ≡ some row

  stores : StoresKeep agent Stands
  stores = TablesKeep-StoresKeep agent (found-TablesKeep id row)

  calls : CallsKeep agent Stands
  calls = inside-CallsKeep Stands (λ t o h. h) agent

  -- A decision on this approval is refused, and one on another does not touch its row.
  resolve_approval-Stands :
      (u : Option String) (j : String) (b : Bool) → Keeps Stands (resolve_approval agent u j b)
  resolve_approval-Stands u j b = record {
    at = λ s h. elim (Bool-cases (str_eq j id)) [
      | inl e ↦
          subst (λ x. Stands (resolve_approval agent u x b s).1) (sym ((eq_iff j id).0 e))
            (rw (resolve_approval_refused agent u id b s row h settled) h)
      | inr e ↦
          resolve_approval-Keeps agent stores calls u j
            (λ c.
              resolve-Keeps agent (found-TablesKeep id row) j
                (λ t f keeps k. find-update_ne ApprovalStore.key id j f t.approvals keeps e ∙ k) c
                u)
            b s (λ r f c. execute-Keeps Stands (λ t o k. k) agent.tools r.tool r.arguments true c) h
    ];
  }

  serve-Stands :
      (seconds : ℕ) (rs : List Request) (s : Storage Outside)
      → Stands s
      → Stands (serve agent seconds rs s)
  serve-Stands seconds = serve_kept agent seconds stores calls resolve_approval-Stands

not_pending : (b : Bool) → (if b then approved else rejected) ≢ pending
not_pending true = λ q. cc
not_pending false = λ q. cc

-- After a decision on a PENDING approval (an approval of a run that is stored with a readable conversation, or a
-- rejection of any), and after any requests that are served in between, every decision on the approval, by anyone and
-- either way, is refused with a ValueError that names the first decision, and changes nothing.
pub resolve_approval_once :
    {Outside : Type 0} (agent : AgentService Outside) (seconds : ℕ) (u v : Option String)
    (id : String) (b c : Bool) (rs : List Request) (s : Storage Outside) (row : Approval)
    → find ApprovalStore.key id s.approvals ≡ some row
    → row.status ≡ pending
    → (b ≡ true → IsReadable row.run_id s)
    → let s' = serve agent seconds rs (resolve_approval agent u id b s).1 in
      resolve_approval agent v id c s'
      ≡ (err (already_resolved id (if b then approved else rejected)), s')
resolve_approval_once agent seconds u v id b c rs s row e p h =
    let row' = decided u b (agent.host.now s.clock_readings) row in
    resolve_approval_refused agent v id c _ row'
      (serve-Stands agent id row' (not_pending b) seconds rs _
        (resolve_approval_recorded agent u id b s row e p h))
      (not_pending b)
