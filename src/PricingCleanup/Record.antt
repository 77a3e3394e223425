-- ===== src/PricingCleanup/Record.antt =====
-- app/pricing_cleanup.py: the states of a cleanup, and the row of app/db_models.py. A timestamp of this system is a
-- number of microseconds; a price is the literal of its float, and a provider's timestamp is its text.
use enterprise_agentops.Base.{
  ℕ, ◌+◌, ◌-◌, ◌*◌, String, Bool, true, false, Option, leb, if◌then◌else◌,
}

pub data CleanupState : Type 0 where
  pending_write active claimed delete_started : CleanupState
  cleaned_up vanished needs_review unknown_cleanup_state manually_resolved : CleanupState

-- `state in TERMINAL_STATES`
abbrev pub is_terminal : CleanupState → Bool
is_terminal CleanupState.cleaned_up = true
is_terminal CleanupState.vanished = true
is_terminal CleanupState.needs_review = true
is_terminal CleanupState.unknown_cleanup_state = true
is_terminal CleanupState.manually_resolved = true
is_terminal CleanupState.pending_write = false
is_terminal CleanupState.active = false
is_terminal CleanupState.claimed = false
is_terminal CleanupState.delete_started = false

-- `state in MANUALLY_RESOLVABLE_STATES`
abbrev pub is_manually_resolvable : CleanupState → Bool
is_manually_resolvable CleanupState.needs_review = true
is_manually_resolvable CleanupState.unknown_cleanup_state = true
is_manually_resolvable _ = false

-- `state == 'PENDING_WRITE'` and the like, of the `WHERE` clauses
abbrev pub is_pending_write : CleanupState → Bool
is_pending_write CleanupState.pending_write = true
is_pending_write _ = false

abbrev pub is_active : CleanupState → Bool
is_active CleanupState.active = true
is_active _ = false

abbrev pub is_claimed : CleanupState → Bool
is_claimed CleanupState.claimed = true
is_claimed _ = false

-- `CleanupState.value`
unfoldable pub state_value : CleanupState → String
state_value CleanupState.pending_write = "PENDING_WRITE"
state_value CleanupState.active = "ACTIVE"
state_value CleanupState.claimed = "CLAIMED"
state_value CleanupState.delete_started = "DELETE_STARTED"
state_value CleanupState.cleaned_up = "CLEANED_UP"
state_value CleanupState.vanished = "VANISHED"
state_value CleanupState.needs_review = "NEEDS_REVIEW"
state_value CleanupState.unknown_cleanup_state = "UNKNOWN_CLEANUP_STATE"
state_value CleanupState.manually_resolved = "MANUALLY_RESOLVED"

-- `PricingCleanupRecord`
pub record Cleanup : Type 0 where
  pub id : String
  pub listing_id : String
  pub pms : String
  pub stay_date : String
  pub old_price : Option String
  pub new_price : String
  pub currency : String
  pub marker : Option String
  pub reason_sent : Option String
  pub adopted : Bool
  pub approval_id : Option String
  pub run_id : Option String
  pub created_at : ℕ
  pub provider_created_at : Option String
  pub cleanup_at : ℕ
  pub state : CleanupState
  pub resolved_at : Option ℕ
  pub resolution : Option String
  pub claim_token : Option String
  pub claimed_at : Option ℕ
  pub lease_until : Option ℕ
  pub manual_resolution : Option String
  pub resolved_by_user_id : Option String
  pub manually_resolved_at : Option ℕ

abbrev pub cleanup_key : Cleanup → String
cleanup_key r = r.id

abbrev pub microseconds_per_day : ℕ
microseconds_per_day = 86400000000

-- `default_cleanup_at`: the first moment of the stay's date less two days, and at most seven days after the creation
abbrev pub default_cleanup_at : ℕ → ℕ → ℕ
default_cleanup_at stay_midnight created =
    let clear_of_arrival = stay_midnight - 2 * microseconds_per_day in
    let latest = created + 7 * microseconds_per_day in
    if leb clear_of_arrival latest then clear_of_arrival else latest

-- `CLAIM_LEASE_SECONDS`, in microseconds
abbrev pub claim_lease : ℕ
claim_lease = 900000000
