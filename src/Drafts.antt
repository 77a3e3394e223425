-- ===== src/Drafts.antt =====
-- app/drafts.py: what was worked out about a conversation, one row for each state of it. A state is its fingerprint. The
-- time that a method reads is an argument of it, and the hex digest
-- of SHA-256 is a parameter.
pub mod Histories
pub mod Rows
pub mod Kept
pub mod Later
use Prim.Native.String.{slice}
use enterprise_agentops.Base.{
  ℕ, ◌+◌, String, ◌<>◌, str_eq, Bool, true, false, not, ◌&&◌, ◌||◌, Option, none, some, List, [],
  ◌∷◌, ◌++◌, map, maximum, length, select, ltb, if◌then◌else◌,
}
use enterprise_agentops.Base.Table.{find, update}
use enterprise_agentops.Exceptions.{Exception}
use enterprise_agentops.Results.{Result, ok, err}

pub data DraftStatus : Type 0 where
  draft_ready edited no_reply_needed needs_human_review sent discarded : DraftStatus

-- `DraftStatus.value`
unfoldable pub draft_status_value : DraftStatus → String
draft_status_value DraftStatus.draft_ready = "DRAFT_READY"
draft_status_value DraftStatus.edited = "EDITED"
draft_status_value DraftStatus.no_reply_needed = "NO_REPLY_NEEDED"
draft_status_value DraftStatus.needs_human_review = "NEEDS_HUMAN_REVIEW"
draft_status_value DraftStatus.sent = "SENT"
draft_status_value DraftStatus.discarded = "DISCARDED"

-- `status in SENDABLE_STATUSES`
abbrev pub is_sendable : DraftStatus → Bool
is_sendable DraftStatus.draft_ready = true
is_sendable DraftStatus.edited = true
is_sendable _ = false

abbrev pub needs_review : DraftStatus → Bool
needs_review DraftStatus.needs_human_review = true
needs_review _ = false

-- `ConversationDraftRecord`, and `ConversationDraft`, which leaves out its number alone
pub record Draft : Type 0 where
  pub id : ℕ
  pub draft_ref : String
  pub conversation_ref : String
  pub property_slug : Option String
  pub fingerprint : String
  pub subject : Option String
  pub content : Option String
  pub status : DraftStatus
  pub detail : Option String
  pub source_run_id : Option String
  pub created_at : ℕ
  pub updated_at : ℕ
  pub edited_at : Option ℕ
  pub sent_at : Option ℕ

abbrev pub draft_key : Draft → String
draft_key d = d.draft_ref

abbrev pub has_text : Option String → Bool
has_text none = false
has_text (some s) = not (str_eq s "")

-- `is_current`
unfoldable pub is_current : Draft → Option String → Bool
is_current d none = true
is_current d (some current) = str_eq current "" || str_eq current d.fingerprint

unfoldable pub carries_text : Draft → Bool
carries_text d = has_text d.content && (is_sendable d.status || needs_review d.status)

-- `is_settled`: every status but the review is settled by itself
unfoldable pub is_settled : Draft → Bool
is_settled d = if needs_review d.status then has_text d.content else true

-- What `status_for` gives: STALE, or the status that is stored
pub data Shown : Type 0 where
  stale : Shown
  stored : DraftStatus → Shown

unfoldable pub status_for : Draft → Option String → Shown
status_for d current =
    if carries_text d && not (is_current d current) then Shown.stale else Shown.stored d.status

abbrev pub pair_of : Option String → Option String → Option (String × String)
pair_of none message = none
pair_of (some subject) none = none
pair_of (some subject) (some message) =
    if str_eq subject "" || str_eq message "" then none else some (subject, message)

unfoldable pub sendable_text : Draft → Option (String × String)
sendable_text d = if is_sendable d.status then pair_of d.subject d.content else none

-- `ATTENTION_BY_STATUS.get(status, fallback)`
abbrev pub attention_by_status : Bool → Shown → Bool
attention_by_status fallback Shown.stale = true
attention_by_status fallback (Shown.stored DraftStatus.needs_human_review) = true
attention_by_status fallback (Shown.stored DraftStatus.draft_ready) = true
attention_by_status fallback (Shown.stored DraftStatus.edited) = true
attention_by_status fallback (Shown.stored DraftStatus.no_reply_needed) = false
attention_by_status fallback (Shown.stored DraftStatus.sent) = false
attention_by_status fallback (Shown.stored DraftStatus.discarded) = fallback

abbrev pub is_stale : Shown → Bool
is_stale Shown.stale = true
is_stale (Shown.stored s) = false

-- Whether the provider's status is `needs_attention`
abbrev pub by_provider : Option String → Bool
by_provider none = false
by_provider (some s) = str_eq s "needs_attention"

unfoldable pub operator_attention_for : Option Draft → Option String → Option String → Bool
operator_attention_for none current provider_status = by_provider provider_status
operator_attention_for (some d) current provider_status =
    let status = status_for d current in
    if is_stale status
    then true
    else if not (is_current d current)
    then by_provider provider_status
    else attention_by_status (by_provider provider_status) status

abbrev unknown_draft : String → Exception
unknown_draft draft_ref =
    Exception.value_error "ValueError" ("Unknown draft_ref: '" <> (draft_ref <> "'"))

-- `status in (SENT, DISCARDED)`
abbrev pub is_closed : DraftStatus → Bool
is_closed DraftStatus.sent = true
is_closed DraftStatus.discarded = true
is_closed _ = false

-- `value if value is not None else old`
abbrev pub or_old : Option String → Option String → Option String
or_old none old = old
or_old (some s) old = some s

abbrev pub set_outcome :
    DraftStatus → Option String → Option String → Option String → Option String → ℕ → Draft → Draft
set_outcome status subject content detail source_run_id now d = record d {
  status = status;
  subject = subject;
  content = content;
  detail = detail;
  source_run_id = source_run_id;
  updated_at = now;
}

abbrev pub set_edited : Option String → Option String → ℕ → Draft → Draft
set_edited subject content now d = record d {
  subject = or_old subject d.subject;
  content = or_old content d.content;
  status = DraftStatus.edited;
  edited_at = some now;
  updated_at = now;
}

abbrev pub set_sent : ℕ → Draft → Draft
set_sent now d = record d { status = DraftStatus.sent; sent_at = some now; updated_at = now }

-- The row with the ref, as it is once it is changed
abbrev pub write_draft : String → (Draft → Draft) → Draft → List Draft → Result Draft × List Draft
write_draft draft_ref change d ds = (ok (change d), update draft_key draft_ref change ds)

module _ (hexdigest : String → String) where
  -- `draft_ref_for`
  abbrev pub draft_ref_for : String → String → String
  draft_ref_for conversation_ref fingerprint =
      "dr-" <> slice (hexdigest (conversation_ref <> ("\u{1f}" <> fingerprint))) 0 32

  abbrev pub new_draft :
      String
      → String
      → DraftStatus
      → Option String
      → Option String
      → Option String
      → Option String
      → Option String
      → ℕ
      → List Draft
      → Draft
  new_draft conversation_ref fingerprint status property_slug subject content detail source_run_id
        now ds =
      record {
        id = maximum (map (λ (d : Draft). d.id) ds) + 1;
        draft_ref = draft_ref_for conversation_ref fingerprint;
        conversation_ref = conversation_ref;
        property_slug = property_slug;
        fingerprint = fingerprint;
        subject = subject;
        content = content;
        status = status;
        detail = detail;
        source_run_id = source_run_id;
        created_at = now;
        updated_at = now;
        edited_at = none;
        sent_at = none;
      }

  -- By the row of the state, if there is one
  abbrev pub record_found :
      String
      → String
      → DraftStatus
      → Option String
      → Option String
      → Option String
      → Option String
      → Option String
      → ℕ
      → Option Draft
      → List Draft
      → (Draft × Bool) × List Draft
  record_found conversation_ref fingerprint status property_slug subject content detail
        source_run_id now none ds =
      let d =
        new_draft conversation_ref fingerprint status property_slug subject content detail
          source_run_id now ds in
      ((d, true), ds ++ d ∷ [])
  record_found conversation_ref fingerprint status property_slug subject content detail
        source_run_id now (some old) ds =
      let change = set_outcome status subject content detail source_run_id now in
      if not (needs_review old.status) then ((old, false), ds) else (
        (change old, false),
        update draft_key (draft_ref_for conversation_ref fingerprint) change ds,
      )

  unfoldable pub record_outcome :
      String
      → String
      → DraftStatus
      → Option String
      → Option String
      → Option String
      → Option String
      → Option String
      → ℕ
      → List Draft
      → (Draft × Bool) × List Draft
  record_outcome conversation_ref fingerprint status property_slug subject content detail
        source_run_id now ds =
      record_found conversation_ref fingerprint status property_slug subject content detail
        source_run_id now (find draft_key (draft_ref_for conversation_ref fingerprint) ds) ds

  unfoldable pub for_state : String → String → List Draft → Option Draft
  for_state conversation_ref fingerprint =
      find draft_key (draft_ref_for conversation_ref fingerprint)

abbrev pub edit_found :
    String
    → Option String
    → Option String
    → ℕ
    → Option Draft
    → List Draft
    → Result Draft × List Draft
edit_found draft_ref subject content now none ds = (err (unknown_draft draft_ref), ds)
edit_found draft_ref subject content now (some d) ds =
    if is_closed d.status
    then (
      err (
          Exception.value_error "ValueError"
            ("A " <> (draft_status_value d.status <> " draft cannot be edited."))),
      ds,
    )
    else write_draft draft_ref (set_edited subject content now) d ds

unfoldable pub edit :
    String → Option String → Option String → ℕ → List Draft → Result Draft × List Draft
edit draft_ref subject content now ds =
    edit_found draft_ref subject content now (find draft_key draft_ref ds) ds

abbrev pub overwrite :
    String → (Draft → Draft) → Option Draft → List Draft → Result Draft × List Draft
overwrite draft_ref change none ds = (err (unknown_draft draft_ref), ds)
overwrite draft_ref change (some d) ds = write_draft draft_ref change d ds

abbrev pub set_replaced :
    DraftStatus → Option String → Option String → Option String → Option String → ℕ → Draft → Draft
set_replaced status subject content detail source_run_id now d =
    record (set_outcome status subject content detail source_run_id now d) { edited_at = none }

unfoldable pub replace :
    String
    → DraftStatus
    → Option String
    → Option String
    → Option String
    → Option String
    → ℕ
    → List Draft
    → Result Draft × List Draft
replace draft_ref status subject content detail source_run_id now ds =
    overwrite draft_ref (set_replaced status subject content detail source_run_id now)
      (find draft_key draft_ref ds) ds

unfoldable pub mark_sent : String → ℕ → List Draft → Result Draft × List Draft
mark_sent draft_ref now ds = overwrite draft_ref (set_sent now) (find draft_key draft_ref ds) ds

-- `ORDER BY id DESC LIMIT 1`
abbrev pub newest : Option Draft → List Draft → Option Draft
newest best [] = best
newest none (d ∷ ds) = newest (some d) ds
newest (some b) (d ∷ ds) = newest (if ltb b.id d.id then some d else some b) ds

unfoldable pub current_for : String → List Draft → Option Draft
current_for conversation_ref ds =
    newest none (select (λ (d : Draft). str_eq d.conversation_ref conversation_ref) ds)
