-- ===== src/PricingSession.antt =====
-- app/pricing_session.py: the owner's window for sending pricing changes. The slot of the process holds at most one
-- session; a method is given the moments that it reads.
pub mod Window
pub mod Promise
use enterprise_agentops.Base.{
  ℕ, ◌+◌, ◌-◌, ◌*◌, ◌/◌, String, str_eq, Bool, true, false, ◌&&◌, ◌||◌, Option, none, some, List,
  [], ◌∷◌, ltb, if◌then◌else◌,
}
use enterprise_agentops.Exceptions.{Exception}
use enterprise_agentops.Results.{Result, ok, err}
use enterprise_agentops.Access.Security.{ℤ}

abbrev pub max_session_minutes : ℕ
max_session_minutes = 30

abbrev pub microseconds_per_minute : ℕ
microseconds_per_minute = 60000000

-- `PricingSession`; `listing_ids` lists a frozenset
pub record PricingSession : Type 0 where
  pub id : String
  pub started_by_user_id : String
  pub started_at : ℕ
  pub expires_at : ℕ
  pub listing_ids : List String

abbrev pub contains : String → List String → Bool
contains k [] = false
contains k (l ∷ ls) = str_eq l k || contains k ls

-- `PricingSession.active`
abbrev pub is_live : ℕ → PricingSession → Bool
is_live now session = ltb now session.expires_at

unfoldable pub covers : String → ℕ → PricingSession → Bool
covers listing_id now session = is_live now session && contains listing_id session.listing_ids

-- Whole seconds; `-` stops at 0, as the `max` does
unfoldable pub remaining_seconds : ℕ → PricingSession → ℕ
remaining_seconds now session = (session.expires_at - now) / 1000000

-- `PricingSessionStore.active`, by what the slot holds
unfoldable pub active : ℕ → Option PricingSession → Option PricingSession × Option PricingSession
active now none = (none, none)
active now (some session) =
    if is_live now session then (some session, some session) else (none, none)

abbrev pub minutes_of : ℤ → Option ℕ
minutes_of (ℤ.negsuc n) = none
minutes_of (ℤ.pos n) = if ltb n 1 || ltb max_session_minutes n then none else some n

abbrev refuse : String → Option PricingSession → Result PricingSession × Option PricingSession
refuse text slot = (err (Exception.value_error "ValueError" text), slot)

-- `strip` is Python's; the uuid is the one that it draws
module _ (strip : String → String) where
  abbrev pub open_window :
      String
      → List String
      → String
      → Option ℕ
      → ℕ
      → Option PricingSession
      → Result PricingSession × Option PricingSession
  open_window uuid listing_ids user none now slot =
      refuse "A pricing session may last 1 to 30 minutes." slot
  open_window uuid listing_ids user (some minutes) now slot =
      let session : PricingSession = record {
        id = uuid;
        started_by_user_id = user;
        started_at = now;
        expires_at = now + minutes * microseconds_per_minute;
        listing_ids = listing_ids;
      } in
      (ok session, some session)

  unfoldable pub start :
      String
      → List String
      → String
      → ℤ
      → ℕ
      → Option PricingSession
      → Result PricingSession × Option PricingSession
  start uuid [] user duration now slot =
      refuse "A pricing session must name at least one listing." slot
  start uuid (l ∷ ls) user duration now slot =
      if str_eq (strip user) ""
      then refuse "A pricing session must record who opened it." slot
      else open_window uuid (l ∷ ls) user (minutes_of duration) now slot

-- `end`
unfoldable pub close : Option PricingSession → Option PricingSession × Option PricingSession
close slot = (slot, none)

abbrev covered : String → ℕ → Option PricingSession → Bool
covered listing_id now none = false
covered listing_id now (some session) = covers listing_id now session

-- `permits`, whose two checks read the clock one after the other where no moment is given
unfoldable pub permits : String → ℕ → ℕ → Option PricingSession → Bool × Option PricingSession
unfolding covers
permits listing_id now now' slot =
    let (session, slot') = active now slot in (covered listing_id now' session, slot')
