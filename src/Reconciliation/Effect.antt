-- ===== src/Reconciliation/Effect.antt =====
-- The sweep of app/reconciliation.py ends exactly the runs that are stale.
use enterprise_agentops.Base.{
  ℕ, ◌≡◌, String, str_eq, Bool, true, false, ◌||◌, some, List, [], ◌∷◌, map,
}
use enterprise_agentops.Storage.{failed, Run, Storage}
use enterprise_agentops.Storage.Host.{Host}
use enterprise_agentops.RunStore
use enterprise_agentops.Agent.Invariants.Tables.{run_key}
use enterprise_agentops.Reconciliation.{reconciled_answer}

abbrev member : String → List String → Bool
member k [] = false
member k (j ∷ js) = str_eq j k || member k js

-- No two runs have one id.
abbrev pub IsDistinct : List Run → Type 0
IsDistinct [] = Unit
IsDistinct (r ∷ rs) = (member r.run_id (map run_key rs) ≡ false) × IsDistinct rs

-- The row as the sweep leaves it, at a moment
abbrev pub swept : Bool → ℕ → Run → Run
swept false t r = r
swept true t r = record r { status = failed; final_answer = some reconciled_answer; updated_at = t }
