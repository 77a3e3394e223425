-- ===== src/Reconciliation.antt =====
-- app/reconciliation.py: the sweep that fails the runs which a crashed process left RUNNING.
pub mod Effect
use enterprise_agentops.Base.{
  ℕ, ◌-◌, ◌*◌, String, ◌<>◌, ◌||◌, Option, none, some, List, [], ◌∷◌, ◌++◌, ltb, if◌then◌else◌,
}
use enterprise_agentops.Values.{Value, Fields, null, text, number, dict, end, field}
use enterprise_agentops.Exceptions.{Exception}
use enterprise_agentops.Results.{Result, ok, err}
use enterprise_agentops.Exec.{Exec, pure, ◌>>=◌, ◌>>◌}
use enterprise_agentops.Storage.{
  RunStatus, running, waiting_for_approval, completed, failed, cancelled, StepType, Run, Storage,
}
use enterprise_agentops.Storage.Host.{Host, utc_now}
use enterprise_agentops.RunStore
use enterprise_agentops.RunStore.{add_step, list_stale_running}
use enterprise_agentops.AuditStore.{record_event}
use enterprise_agentops.Agent.Service.{decimal}

abbrev pub reconciled_answer : String
reconciled_answer = "Run interrupted before completion"

-- `RunStatus.value`
unfoldable pub status_value : RunStatus → String
status_value running = "RUNNING"
status_value waiting_for_approval = "WAITING_FOR_APPROVAL"
status_value completed = "COMPLETED"
status_value failed = "FAILED"
status_value cancelled = "CANCELLED"

-- `validate_stale_after`, for an integer
abbrev pub validate_stale_after : ℕ → Result ℕ
validate_stale_after seconds =
    if ltb seconds 1 || ltb 86400 seconds
    then err (
        Exception.value_error "ValueError"
          ("stale_after_seconds must be between 1 and 86400, got " <> (decimal seconds <> ".")))
    else ok seconds

-- An entry of the summary
pub record Reconciled : Type 0 where
  pub run_id : String
  pub previous_status : RunStatus
  pub status : RunStatus
  pub reason : String

-- `cutoff`, of a moment
unfoldable pub cutoff : ℕ → ℕ → ℕ
cutoff stale_after_seconds moment = moment - stale_after_seconds * 1000000

unfoldable pub details : Host → ℕ → Run → Fields
unfolding status_value
details host stale_after_seconds r = field "reason" (text reconciled_answer) (
    field "previous_status" (text (status_value r.status)) (
      field "stale_after_seconds" (number (decimal stale_after_seconds))
        (field "last_updated_at" (text (host.iso r.updated_at)) end)))

module _ {Outside : Type 0} (host : Host) (stale_after_seconds : ℕ) where
  -- One turn of the loop, by whether the run is still stored
  unfoldable pub reconcile_run : String → Option Run → Exec (Storage Outside) (List Reconciled)
  reconcile_run run_id none = pure []
  reconcile_run run_id (some r) = do
    add_step host run_id StepType.run_reconciled none null null
        (dict (details host stale_after_seconds r))
    record_event host "RUN_RECONCILED" (details host stale_after_seconds r) (some run_id) none
    RunStore.fail host run_id reconciled_answer
    pure (
        record {
          run_id = run_id;
          previous_status = running;
          status = failed;
          reason = reconciled_answer;
        }
        ∷ [])

  unfoldable pub sweep : List String → Exec (Storage Outside) (List Reconciled)
  sweep [] = pure []
  sweep (run_id ∷ rest) = do
    found ← RunStore.get_run host run_id
    entry ← reconcile_run run_id found
    entries ← sweep rest
    pure (entry ++ entries)

  abbrev moment : Option ℕ → Exec (Storage Outside) ℕ
  moment none = utc_now host
  moment (some t) = pure t

  -- `reconcile`, at a given moment or now
  unfoldable pub reconcile : Option ℕ → Exec (Storage Outside) (List Reconciled)
  reconcile at = do
    t ← moment at
    run_ids ← list_stale_running (cutoff stale_after_seconds t)
    sweep run_ids
