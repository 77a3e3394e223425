-- ===== src/PricingCleanup/WriteClient.antt =====
-- `remove_override` of app/connectors/pricelabs/write_client.py, by what it reads, sends and reads back, and the read of
-- an override that the runner shares with it.
use enterprise_agentops.Base.{
  String, str_eq, Bool, true, false, Option, none, some, List, [], ◌∷◌, if◌then◌else◌,
}
use enterprise_agentops.Results.{Answer}
use enterprise_agentops.Values.{Value, Fields, bool, text, list, dict, nil, cons, end, field, get}
use enterprise_agentops.PricingCleanup.Record.{Cleanup}
use enterprise_agentops.PricingCleanup.Program.{Action, Program, return, raise, perform, ◌>>=◌}

pub data WriteOutcome : Type 0 where
  confirmed_applied confirmed_failed unknown_write_state : WriteOutcome

-- How `remove_override` ends: by `PricingWritesDisabled`, by `PriceLabsUnavailable`, or with a result
pub data Removal : Type 0 where
  disabled : (reason : String) → Removal
  unavailable : Removal
  result : (outcome : WriteOutcome) (message : String) → Removal

abbrev is_text : Option Value → String → Bool
is_text (some (Value.text s)) t = str_eq s t
is_text _ t = false

-- The first override of the date
unfoldable pub override_of : String → List Fields → Option Fields
override_of stay_date [] = none
override_of stay_date (row ∷ rows) =
    if is_text (get "date" row) stay_date then some row else override_of stay_date rows

abbrev pub find_override : Cleanup → Answer (List Fields) → Program (Option (Option Fields))
find_override row (Answer.answered rows) = return (some (override_of row.stay_date rows))
find_override row Answer.refused = return none
find_override row Answer.raised = raise

-- `_override_for`; nothing where the provider could not be read
unfoldable pub override_for : Cleanup → Program (Option (Option Fields))
override_for row = perform (Action.overrides row.listing_id row.pms) (find_override row)

abbrev pub unread_text : String
unread_text =
    "The change was sent but could not be read back. It may already be live. Check PriceLabs before doing anything else — do not retry."

abbrev pub removed_text : String
removed_text =
    "Pricing override cleaned up: PriceLabs accepted and persisted the removal (verified by re-reading), and the date is back under dynamic pricing. No reservation, guest rate or availability was touched — this changes only the PriceLabs pricing override for that date. If the date is sellable, the channel rate follows on the next PriceLabs refresh."

abbrev pub refused_text : String
refused_text = "PriceLabs refused the change; nothing was altered."

abbrev pub mismatch_text : String
mismatch_text =
    "PriceLabs accepted the change but the re-read does not match. Check PriceLabs before doing anything else — do not retry."

-- `_verify`, where no override is expected
abbrev pub verify : Bool → Option (Option Fields) → Removal
verify acknowledged none = Removal.result WriteOutcome.unknown_write_state unread_text
verify acknowledged (some none) = Removal.result WriteOutcome.confirmed_applied removed_text
verify acknowledged (some (some after)) =
    if acknowledged
    then Removal.result WriteOutcome.unknown_write_state mismatch_text
    else Removal.result WriteOutcome.confirmed_failed refused_text

abbrev delete_body : Cleanup → Fields
delete_body row =
    field "overrides" (list (cons (dict (field "date" (text row.stay_date) end)) nil))
      (field "pms" (text row.pms) (field "update_children" (bool false) end))

-- From the reply to the request. One that was not answered may have been applied.
abbrev pub read_back : Cleanup → Answer Bool → Program Removal
read_back row (Answer.answered acknowledged) = do
  after ← override_for row
  return (verify acknowledged after)
read_back row Answer.refused = do after ← override_for row; return (verify true after)
read_back row Answer.raised = raise

-- From the first read of `remove_override`
unfoldable pub send_removal : Cleanup → Option (Option Fields) → Program Removal
unfolding override_for
send_removal row none = return Removal.unavailable
send_removal row (some before) = perform (Action.send_delete row (delete_body row)) (read_back row)

-- `_guard`, by what `writes_enabled` says
unfoldable pub guarded : Cleanup → Bool → Bool → Program Removal
unfolding send_removal override_for
guarded row automation false =
    return (Removal.disabled "ENABLE_PRICING_WRITES is not enabled; no price was changed.")
guarded row false true =
    return
      (Removal.disabled "Pricing automation is not enabled for this listing; no price was changed.")
guarded row true true = do before ← override_for row; send_removal row before

unfoldable pub remove_override : Cleanup → Bool → Program Removal
unfolding guarded
remove_override row automation =
    perform Action.writes_enabled λ enabled. guarded row automation enabled
