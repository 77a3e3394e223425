-- ===== src/Tests/Replies.antt =====
-- The theorems about drafts, at one conversation.
use enterprise_agentops.Base.{
  ◌≡◌, ◌≢◌, refl, String, str_eq, eq_iff, true, false, none, some, List, All, [], ◌∷◌,
}
use enterprise_agentops.Base.Table.{find, update}
use enterprise_agentops.Exceptions.{Exception}
use enterprise_agentops.Results.{ok, err}
use enterprise_agentops.Drafts.{
  DraftStatus, Draft, Shown, status_for, sendable_text, operator_attention_for, record_outcome,
  mark_sent, edit, set_sent,
}
use enterprise_agentops.Drafts.Histories.{sendable_goes_stale}
use enterprise_agentops.Drafts.Later.{Spares, edit-mark_sent, record_outcome_once}
use enterprise_agentops.Drafts.Rows.{Write, IsTidy, apply_all, apply_all-IsTidy}

abbrev digest : String → String
digest s = s

abbrev draft : Draft
draft = record {
  id = 1;
  draft_ref = "dr-c1\u{1f}f1";
  conversation_ref = "c1";
  property_slug = none;
  fingerprint = "f1";
  subject = some "Late checkout";
  content = some "Noon is fine.";
  status = DraftStatus.draft_ready;
  detail = none;
  source_run_id = none;
  created_at = 5;
  updated_at = 5;
  edited_at = none;
  sent_at = none;
}

draft_is_sendable : sendable_text draft ≡ some ("Late checkout", "Noon is fine.")
unfolding sendable_text
draft_is_sendable = refl

differ : (s t : String) → str_eq s t ≡ false → s ≢ t
differ s t h e = cc (h, (eq_iff s t).1 e)

sendable_goes_stale_example :
    (status_for draft (some "f2") ≡ Shown.stale)
    × (operator_attention_for (some draft) (some "f2") none ≡ true)
sendable_goes_stale_example =
    sendable_goes_stale draft ("Late checkout", "Noon is fine.") "f2" none draft_is_sendable
      (differ "f2" "" refl) (differ "f2" "f1" refl)

draft_is_sent :
    mark_sent "dr-c1\u{1f}f1" 9 (draft ∷ []) ≡ (ok (set_sent 9 draft), set_sent 9 draft ∷ [])
unfolding mark_sent find update
draft_is_sent = refl

-- The conversation is processed again, the draft is edited, and another draft is regenerated.
abbrev in_between : List Write
in_between =
    Write.records "c1" "f1" DraftStatus.needs_human_review none none none none none 10
    ∷ Write.replaces "dr-c2\u{1f}f7" DraftStatus.draft_ready none none none none 11
    ∷ []

spared : All (Spares "dr-c1\u{1f}f1") in_between
spared = (tt, (differ "dr-c2\u{1f}f7" "dr-c1\u{1f}f1" refl, tt))

edits_too : List Write
edits_too = Write.edits "dr-c1\u{1f}f1" none (some "Two is fine.") 10 ∷ in_between

edit-mark_sent_example :
    let after = apply_all digest edits_too (set_sent 9 draft ∷ []) in
    edit "dr-c1\u{1f}f1" none (some "One is fine.") 12 after
    ≡ (err (Exception.value_error "ValueError" "A SENT draft cannot be edited."), after)
unfolding edits_too
edit-mark_sent_example =
    edit-mark_sent digest "dr-c1\u{1f}f1" 9 12 none (some "One is fine.") (draft ∷ [])
      (set_sent 9 draft ∷ []) (set_sent 9 draft) edits_too draft_is_sent (tt, spared)

record_outcome_once_example :
    let first =
      record_outcome digest "c1" "f1" DraftStatus.draft_ready none
        (some "Late checkout")
        (some "Noon is fine.")
        none
        none
        5
        [] in
    let after = apply_all digest in_between first.1 in
    record_outcome digest "c1" "f1" DraftStatus.no_reply_needed none none none none none 18 after
    ≡ ((first.0.0, false), after)
record_outcome_once_example =
    record_outcome_once digest "c1" "f1" DraftStatus.draft_ready DraftStatus.no_reply_needed none
      (some "Late checkout") (some "Noon is fine.") none none none none none none none 5 18 []
      in_between refl spared

apply_all-IsTidy_example : IsTidy digest (
    apply_all digest
      (Write.records "c1" "f2" DraftStatus.draft_ready none none none none none 7
        ∷ Write.sends "dr-c1\u{1f}f1" 9
        ∷ [])
      (draft ∷ []))
unfolding find
apply_all-IsTidy_example =
    apply_all-IsTidy digest
      (Write.records "c1" "f2" DraftStatus.draft_ready none none none none none 7
        ∷ Write.sends "dr-c1\u{1f}f1" 9
        ∷ [])
      (draft ∷ []) ((refl, tt), (refl, tt))
