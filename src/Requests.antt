-- ===== src/Requests.antt =====
-- The service as its routes in app/main.py use it: requests are served one after the other, and an exception
-- ends the request that raised it, with the storage as it is then.
pub mod Invariants
pub mod History
pub mod Decided
use enterprise_agentops.Base.{ℕ, String, Bool, Option, List, [], ◌∷◌}
use enterprise_agentops.Values.{Fields}
use enterprise_agentops.Exec.{Exec, ◌>>=◌, ◌>>◌, pure}
use enterprise_agentops.Storage.{Storage}
use enterprise_agentops.Agent.Service.{AgentService}
use enterprise_agentops.Agent.Entry
use enterprise_agentops.Reconciliation

pub data Request : Type 0 where
  run : (actor : Option String) (content : String) → Request
  request_action :
      (actor : Option String) (tool : String) (arguments : Fields) (summary : String) → Request
  resolve_approval : (actor : Option String) (approval_id : String) (approved : Bool) → Request
  reconcile : (at : Option ℕ) → Request

module _ {Outside : Type 0} (agent : AgentService Outside) (stale_after_seconds : ℕ) where
  unfoldable pub handle : Request → Exec (Storage Outside) Unit
  handle (run actor content) = do Entry.run agent actor content; pure tt
  handle (request_action actor tool arguments summary) = do
    Entry.request_action agent actor tool arguments summary
    pure tt
  handle (resolve_approval actor approval_id approved) = do
    Entry.resolve_approval agent actor approval_id approved
    pure tt
  handle (reconcile at) = do Reconciliation.reconcile agent.host stale_after_seconds at; pure tt

  unfoldable pub serve : List Request → Storage Outside → Storage Outside
  serve [] s = s
  serve (r ∷ rs) s = serve rs (handle r s).1
