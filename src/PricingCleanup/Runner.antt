-- ===== src/PricingCleanup/Runner.antt =====
-- app/pricing_cleanup_runner.py: `run_once` and its parts. A `continue` or a `return` ends its branch.
use enterprise_agentops.Base.{
  ℕ, String, ◌<>◌, str_eq, Bool, true, false, Option, none, some, List, [], ◌∷◌, ◌++◌, length,
  select, if◌then◌else◌,
}
use enterprise_agentops.Values.{Value, Fields, bool, text, end, field, get, of_option}
use enterprise_agentops.PricingCleanup.Record.{CleanupState, state_value, Cleanup}
use enterprise_agentops.PricingCleanup.Ownership.{Numbers, OwnershipCheck, check_ownership}
use enterprise_agentops.PricingCleanup.Program.{
  Action, Program, return, raise, perform, ◌>>=◌, ◌>>◌, call,
}
use enterprise_agentops.PricingCleanup.WriteClient.{
  WriteOutcome, Removal, override_for, remove_override,
}

pub record CleanupOutcome : Type 0 where
  pub record_id : String
  pub listing_id : String
  pub stay_date : String
  pub state : CleanupState
  pub detail : String
  pub deleted : Bool
  pub committed : Bool

-- `CleanupOutcome.reported_state`
unfoldable pub reported_state : CleanupOutcome → String
reported_state o = if o.committed then state_value o.state else "OWNERSHIP_LOST"

-- `summarise`: how many rows were processed, for how many a DELETE was attempted, and how many have the state
unfoldable pub deleted_count : List CleanupOutcome → ℕ
deleted_count outcomes = length (select (λ (o : CleanupOutcome). o.deleted) outcomes)

unfoldable pub by_state : String → List CleanupOutcome → ℕ
by_state state outcomes =
    length (select (λ (o : CleanupOutcome). str_eq (reported_state o) state) outcomes)

-- `_record_audit`
unfoldable pub record_audit : String → Cleanup → Fields → Program Unit
record_audit event row extra = call (
    Action.audit event
      (field "cleanup_id" (text row.id) (
        field "listing_id" (text row.listing_id) (
          field "stay_date" (text row.stay_date)
            (field "approval_id" (of_option row.approval_id) extra))))
      row.run_id)

abbrev pub outcome_of : Cleanup → CleanupState → String → Bool → Bool → CleanupOutcome
outcome_of row state detail deleted committed = record {
  record_id = row.id;
  listing_id = row.listing_id;
  stay_date = row.stay_date;
  state = state;
  detail = detail;
  deleted = deleted;
  committed = committed;
}

-- The audit event of `_resolve`, by whether the verdict was written
unfoldable pub announce : Cleanup → String → CleanupState → String → Bool → Bool → Program Unit
unfolding record_audit
announce row token state detail deleted true = record_audit "PRICING_CLEANUP" row (
    field "state" (text (state_value state))
      (field "detail" (text detail) (field "deleted" (bool deleted) end)))
announce row token state detail deleted false = record_audit "PRICING_CLEANUP_STALE_OWNER" row (
    field "attempted_state" (text (state_value state)) (
      field "provider_delete_attempted" (bool deleted) (
        field "detail" (text detail) (
          field "claim_token" (text token) (
            field "ownership"
              (text
                "the claim was gone before this verdict could be written; the row was not changed by this process")
              end)))))

-- `_resolve`
unfoldable pub resolve : Cleanup → String → CleanupState → String → Bool → Program CleanupOutcome
unfolding announce
resolve row token state detail deleted =
    perform (Action.resolve row.id state detail token) λ committed. do
      announce row token state detail deleted committed
      return (outcome_of row state detail deleted committed)

-- `self._store.release`, and an outcome that leaves the row ACTIVE
unfoldable pub put_down : Cleanup → String → String → Program CleanupOutcome
put_down row token detail =
    perform (Action.release row.id token)
      λ _. return (outcome_of row CleanupState.active detail false true)

-- The handlers of `remove_override`, and what follows its return
unfoldable pub settle : Cleanup → String → Removal → Program CleanupOutcome
unfolding put_down resolve
settle row token (Removal.disabled reason) = put_down row token reason
settle row token Removal.unavailable =
    resolve row token CleanupState.unknown_cleanup_state
      "PriceLabs did not answer the removal. It may already be gone. Check before doing anything else — this is not retried."
      true
settle row token (Removal.result WriteOutcome.confirmed_applied message) =
    resolve row token CleanupState.cleaned_up message true
settle row token (Removal.result WriteOutcome.unknown_write_state message) =
    resolve row token CleanupState.unknown_cleanup_state message true
settle row token (Removal.result WriteOutcome.confirmed_failed message) =
    resolve row token CleanupState.needs_review ("the removal did not take effect: " <> message)
      true

-- After `begin_delete`
unfoldable pub delete : Cleanup → String → Bool → Bool → Program CleanupOutcome
unfolding settle remove_override record_audit
delete row token automation false = do
  record_audit "PRICING_CLEANUP_STALE_OWNER" row (
      field "attempted_state" (text (state_value CleanupState.delete_started)) (
        field "provider_delete_attempted" (bool false) (
          field "detail"
            (text
              "the claim was gone before the delete boundary could be taken, so no removal was sent and the row was not changed by this process")
            (field "claim_token" (text token)
              (field "ownership" (text "lost before the provider was called") end)))))
  return (
      outcome_of row CleanupState.delete_started
        "ownership was lost before the delete boundary; nothing was sent to PriceLabs" false false)
delete row token automation true = do
  removal ← remove_override row automation
  settle row token removal

abbrev pub switched_off_text : String
switched_off_text = "pricing writes are switched off for this listing; nothing was sent"

-- `if not (writes_enabled() and bands.automation_enabled)`, then the fence
unfoldable pub fence : Cleanup → String → Bool → Bool → Program CleanupOutcome
unfolding put_down delete
fence row token true true =
    perform (Action.begin_delete row.id token) λ crossed. delete row token true crossed
fence row token automation enabled = put_down row token switched_off_text

-- `now or datetime.now(UTC)`
unfoldable pub moment : Option ℕ → Program ℕ
moment none = call Action.now
moment (some t) = return t

module _ (numbers : Numbers) where
  -- After the ownership check. `writes_enabled` is read first, which changes nothing.
  unfoldable pub proceed : Cleanup → String → Bool → Option OwnershipCheck → Program CleanupOutcome
  unfolding fence resolve
  proceed row token automation none = raise
  proceed row token automation (some check) =
      if check.owned
      then perform Action.writes_enabled (λ enabled. fence row token automation enabled)
      else resolve row token CleanupState.needs_review ("not removed: " <> check.reason) false

  -- After the read of the override
  unfoldable pub examine : Cleanup → String → Bool → Option (Option Fields) → Program CleanupOutcome
  unfolding proceed put_down resolve
  examine row token automation none =
      put_down row token "PriceLabs could not be read; nothing was sent"
  examine row token automation (some none) =
      resolve row token CleanupState.vanished
        "the override was already gone; the date is back on dynamic pricing" false
  examine row token automation (some (some override)) =
      proceed row token automation (check_ownership numbers row (some override))

  -- `_process`, from where the bands are read
  unfoldable pub process_with : Cleanup → String → Option Bool → Program CleanupOutcome
  unfolding examine override_for resolve
  process_with row token none =
      resolve row token CleanupState.needs_review "this listing has no owner-approved bands" false
  process_with row token (some automation) = do
    override ← override_for row
    examine row token automation override

  unfoldable pub process : Cleanup → String → Program CleanupOutcome
  unfolding process_with
  process row token =
      perform (Action.bands_for row.listing_id) λ bands. process_with row token bands

  abbrev pub found_text : Option (Option Fields) → (Option Value → String) → String
  found_text none show = "PriceLabs could not be read"
  found_text (some none) show = "the override is no longer at PriceLabs"
  found_text (some (some override)) show =
      "an override for " <> (show (get "price" override) <> " is still in place")

  abbrev expired_text : String → String
  expired_text found =
      "a cleanup claim expired without being released, so it is unknown whether its removal was sent. On checking, "
      <> (found
          <> ". Nothing was deleted: an expired claim is not permission to try again. This needs a person.")

  -- `_reconcile`, from where the provider was read
  unfoldable pub settle_expired : Cleanup → String → Option String → Program CleanupOutcome
  unfolding resolve record_audit
  settle_expired row detail (some token) = resolve row token CleanupState.needs_review detail false
  settle_expired row detail none =
      let invariant =
        detail <> " It also reached CLAIMED with no claim token, which should be impossible." in
      perform (Action.resolve_unclaimed row.id CleanupState.needs_review invariant) λ committed. do
        record_audit (if committed then "PRICING_CLEANUP" else "PRICING_CLEANUP_STALE_OWNER") row (
            field "state" (text (state_value CleanupState.needs_review)) (
              field "attempted_state" (text (state_value CleanupState.needs_review)) (
                field "provider_delete_attempted" (bool false) (
                  field "detail" (text invariant) (
                    field "invariant_violation" (text "CLAIMED row carried no claim token") end)))))
        return (outcome_of row CleanupState.needs_review invariant false committed)

  module _ (show : Option Value → String) where
    unfoldable pub reconcile : Cleanup → Program CleanupOutcome
    unfolding settle_expired override_for
    reconcile row = do
      override ← override_for row
      settle_expired row (expired_text (found_text override show)) row.claim_token

    unfoldable pub reconcile_all : List Cleanup → Program (List CleanupOutcome)
    unfolding reconcile
    reconcile_all [] = return []
    reconcile_all (row ∷ rows) = do
      outcome ← reconcile row
      outcomes ← reconcile_all rows
      return (outcome ∷ outcomes)

    -- A row that is claimed by another is skipped.
    unfoldable pub process_claimed : Cleanup → String → Bool → Program (List CleanupOutcome)
    unfolding process
    process_claimed row token false = return []
    process_claimed row token true = do outcome ← process row token; return (outcome ∷ [])

    unfoldable pub process_all : Option ℕ → List Cleanup → Program (List CleanupOutcome)
    unfolding process_claimed moment
    process_all now [] = return []
    process_all now (row ∷ rows) = perform Action.new_token λ token. do
      t ← moment now
      claimed ← call (Action.claim row.id token t)
      outcomes ← process_claimed row token claimed
      rest ← process_all now rows
      return (outcomes ++ rest)

    -- `run_once(now)`
    unfoldable pub run_once : Option ℕ → Program (List CleanupOutcome)
    unfolding reconcile_all process_all moment
    run_once now = do
      t ← moment now
      expired ← call (Action.expired_claims t)
      reconciled ← reconcile_all expired
      t' ← moment now
      rows ← call (Action.due t')
      processed ← process_all now rows
      return (reconciled ++ processed)
