-- ===== src/PricingCleanup/Ownership.antt =====
-- app/pricing_cleanup.py: `marker_of` and `check_ownership`. The provider's override is the dict that its API sends.
-- `float`, `round` and the `:.0f` format are Python's.
use Prim.Native.String.{len, slice}
use package.text.Mathlib.Text.{starts_with, find?}
use enterprise_agentops.Base.{
  String, ◌<>◌, str_eq, Bool, true, false, not, ◌&&◌, Option, none, some, if◌then◌else◌,
}
use enterprise_agentops.Results.{Answer}
use enterprise_agentops.Values.{Value, Fields, text, get}
use enterprise_agentops.PricingCleanup.Record.{Cleanup}

pub record Numbers : Type 0 where
  -- `float(v)`: refused by a TypeError or a ValueError, raised by any other exception
  pub float : Value → Answer String
  -- `round(x) == round(y)`, where both return: neither an infinity nor NaN can be rounded
  pub same_round : String → String → Option Bool
  -- `f"{x:.0f}"`
  pub whole : String → String
  -- `bool(v)`, of a value that is no text
  pub truth : Value → Bool
  -- `v == w`, of two values that are not both texts
  pub equal : Value → Value → Bool

abbrev is_true : Numbers → Option Value → Bool
is_true numbers none = false
is_true numbers (some (Value.text s)) = not (str_eq s "")
is_true numbers (some v) = numbers.truth v

-- A key that is missing reads as `None`.
abbrev or_null : Option Value → Value
or_null none = Value.null
or_null (some v) = v

abbrev values_equal : Numbers → Value → Value → Bool
values_equal numbers (Value.text s) (Value.text t) = str_eq s t
values_equal numbers v w = numbers.equal v w

abbrev is_same : Numbers → Option Value → Option Value → Bool
is_same numbers v w = values_equal numbers (or_null v) (or_null w)

-- `OwnershipCheck`
pub record OwnershipCheck : Type 0 where
  pub owned : Bool
  pub reason : String

abbrev pub marker_prefix : String
marker_prefix = "AGENTGUARD:"

abbrev text_of : Option Value → Option String
text_of (some (Value.text s)) = some s
text_of _ = none

-- The text before the first colon, if there is one and it is not empty
abbrev token_of : String → Option String
token_of rest = elim (find? rest ":") [
  | none ↦ none
  | some i ↦ let token = slice rest 0 i in if str_eq token "" then none else some token
]

abbrev pub marker_of : Option String → Option String
marker_of none = none
marker_of (some reason) =
    if starts_with reason marker_prefix
    then token_of (slice reason (len marker_prefix) (len reason))
    else none

abbrev refuse : String → Option OwnershipCheck
refuse reason = some (record { owned = false; reason = reason })

-- `not s`
abbrev pub is_blank : Option String → Bool
is_blank none = true
is_blank (some s) = str_eq s ""

abbrev same_text : Option String → Option String → Bool
same_text none none = true
same_text (some s) (some t) = str_eq s t
same_text _ _ = false

-- `float(None)` raises a TypeError.
abbrev price_of : Numbers → Option Value → Answer String
price_of numbers none = Answer.refused
price_of numbers (some v) = numbers.float v

module _ (numbers : Numbers) (record_ : Cleanup) (override : Fields) where
  abbrev created : Option Value
  created = get "created_at" override

  abbrev check_times : Option OwnershipCheck
  check_times =
      if not record_.adopted && is_blank record_.provider_created_at
      then refuse "the record has no provider creation time to verify against"
      else if not (is_blank record_.provider_created_at)
          && not (same_text (text_of created) record_.provider_created_at)
      then refuse "the override was created at a different time than recorded"
      else if is_true numbers created && not (is_same numbers (get "updated_at" override) created)
      then refuse "the override has been modified since it was created"
      else some (record { owned = true; reason = "marker, price and timestamps all match" })

  -- By whether the rounded prices are equal
  abbrev check_rounded : String → Option Bool → Option OwnershipCheck
  check_rounded price none = none
  check_rounded price (some true) = check_times
  check_rounded price (some false) = refuse (
      "price is now "
      <> (numbers.whole price <> (", not the " <> (numbers.whole record_.new_price <> " written"))))

  abbrev check_price : Answer String → Option OwnershipCheck
  check_price Answer.raised = none
  check_price Answer.refused = refuse "the override has no readable price"
  check_price (Answer.answered price) =
      check_rounded price (numbers.same_round price record_.new_price)

  abbrev check_marker : Option String → Option OwnershipCheck
  check_marker none = refuse "the override carries no AgentGuard marker"
  check_marker (some found) =
      if same_text (some found) record_.marker
      then check_price (price_of numbers (get "price" override))
      else refuse "the override carries a marker belonging to a different record"

-- `check_ownership`; nothing where an exception leaves it
unfoldable pub check_ownership : Numbers → Cleanup → Option Fields → Option OwnershipCheck
check_ownership numbers row none = refuse "the override is no longer present"
check_ownership numbers row (some override) =
    if row.adopted
    then check_price numbers row override (price_of numbers (get "price" override))
    else check_marker numbers row override (marker_of (text_of (get "reason" override)))
