-- ===== src/PricingCleanup/Console.antt =====
-- app/pricing_cleanup.py: `overdue`, `open_records`, `workload` and `to_payload`, which the console reads.
use enterprise_agentops.Base.{
  ℕ, ◌+◌, ◌-◌, ◌*◌, String, Bool, true, false, ◌&&◌, Option, none, some, List, [], ◌∷◌, leb, ltb,
  select, sort_by, if◌then◌else◌,
}
use enterprise_agentops.Values.{Value, Fields, text, number, bool, null, end, field, of_option}
use enterprise_agentops.Storage.Host.{Host}
use enterprise_agentops.PricingCleanup.Record.{CleanupState, state_value, is_active, Cleanup}
use enterprise_agentops.PricingCleanup.Store.{World}

-- `state in _OVERDUE_STATES`
abbrev pub is_overdue_state : CleanupState → Bool
is_overdue_state CleanupState.active = true
is_overdue_state CleanupState.claimed = true
is_overdue_state CleanupState.delete_started = true
is_overdue_state _ = false

-- `state in _NEEDS_A_PERSON`
abbrev pub needs_a_person : CleanupState → Bool
needs_a_person CleanupState.delete_started = true
needs_a_person CleanupState.needs_review = true
needs_a_person CleanupState.unknown_cleanup_state = true
needs_a_person _ = false

-- `state in wanted`
abbrev pub is_open : CleanupState → Bool
is_open CleanupState.cleaned_up = false
is_open CleanupState.vanished = false
is_open CleanupState.manually_resolved = false
is_open _ = true

abbrev microseconds_per_hour : ℕ
microseconds_per_hour = 3600000000

module _ {Outside : Type 0} where
  unfoldable pub overdue : ℕ → ℕ → World Outside → List Cleanup
  overdue now grace_hours w =
      sort_by (λ (r : Cleanup). r.cleanup_at)
        (select
          (λ (r : Cleanup).
            is_overdue_state r.state
            && leb r.cleanup_at (now - grace_hours * microseconds_per_hour))
          w.rows)

  unfoldable pub open_records : World Outside → List Cleanup
  open_records w =
      sort_by (λ (r : Cleanup). r.cleanup_at) (select (λ (r : Cleanup). is_open r.state) w.rows)

-- What `workload` counts while it goes through the open rows. Those that need a person are picked out afterwards.
pub record Workload : Type 0 where
  pub pending_write : ℕ
  pub active : ℕ
  pub due_now : ℕ
  pub claimed : ℕ
  pub delete_started : ℕ
  pub needs_review : ℕ
  pub unknown_cleanup_state : ℕ
  pub oldest_overdue_at : Option ℕ

abbrev pub nothing_counted : Workload
nothing_counted = record {
  pending_write = 0;
  active = 0;
  due_now = 0;
  claimed = 0;
  delete_started = 0;
  needs_review = 0;
  unknown_cleanup_state = 0;
  oldest_overdue_at = none;
}

-- `counts[record.state] += 1`; a row of another state is not open
abbrev pub count_state : CleanupState → Workload → Workload
count_state CleanupState.pending_write c = record c { pending_write = c.pending_write + 1 }
count_state CleanupState.active c = record c { active = c.active + 1 }
count_state CleanupState.claimed c = record c { claimed = c.claimed + 1 }
count_state CleanupState.delete_started c = record c { delete_started = c.delete_started + 1 }
count_state CleanupState.needs_review c = record c { needs_review = c.needs_review + 1 }
count_state CleanupState.unknown_cleanup_state c = record c {
  unknown_cleanup_state = c.unknown_cleanup_state + 1;
}
count_state _ c = c

abbrev pub older : Option ℕ → ℕ → Bool
older none t = true
older (some oldest) t = ltb t oldest

abbrev pub count_due : ℕ → Cleanup → Workload → Workload
count_due now r c =
    if is_active r.state && leb r.cleanup_at now then record c { due_now = c.due_now + 1 } else c

abbrev pub count_overdue : ℕ → Cleanup → Workload → Workload
count_overdue now r c =
    if (leb r.cleanup_at now && is_overdue_state r.state) && older c.oldest_overdue_at r.cleanup_at
    then record c { oldest_overdue_at = some r.cleanup_at }
    else c

abbrev pub count_all : ℕ → Workload → List Cleanup → Workload
count_all now c [] = c
count_all now c (r ∷ rs) =
    count_all now (count_overdue now r (count_due now r (count_state r.state c))) rs

-- `workload`, without the age of the oldest in hours, and with the rows that need a person
unfoldable pub workload : {Outside : Type 0} → ℕ → World Outside → Workload × List Cleanup
workload now w =
    let records = open_records w in
    (
      count_all now nothing_counted records,
      select (λ (r : Cleanup). needs_a_person r.state) records,
    )

abbrev price : Option String → Value
price none = null
price (some p) = number p

module _ (host : Host) where
  abbrev time : Option ℕ → Value
  time none = null
  time (some t) = text (host.iso t)

  unfoldable pub to_payload : Cleanup → Fields
  to_payload r = field "id" (text r.id) (
      field "listing_id" (text r.listing_id) (
        field "stay_date" (text r.stay_date) (
          field "old_price" (price r.old_price) (
            field "new_price" (number r.new_price) (
              field "currency" (text r.currency) (
                field "state" (text (state_value r.state)) (
                  field "adopted" (bool r.adopted) (
                    field "approval_id" (of_option r.approval_id) (
                      field "run_id" (of_option r.run_id) (
                        field "marker" (of_option r.marker) (
                          field "reason_sent" (of_option r.reason_sent) (
                            field "provider_created_at" (of_option r.provider_created_at) (
                              field "created_at" (text (host.iso r.created_at)) (
                                field "cleanup_at" (text (host.iso r.cleanup_at)) (
                                  field "resolved_at" (time r.resolved_at) (
                                    field "resolution" (of_option r.resolution) (
                                      field "manual_resolution" (of_option r.manual_resolution) (
                                        field "resolved_by_user_id"
                                          (of_option r.resolved_by_user_id)
                                          (field "manually_resolved_at"
                                            (time r.manually_resolved_at) end)))))))))))))))))))
