-- ===== src/Drafts/Later.antt =====
-- What holds of a draft of app/drafts.py after any sequence of writes, for this conversation or another.
use mathlib.Core.Path.{subst}
use enterprise_agentops.Base.{
  ℕ, ◌≡◌, ◌≢◌, refl, ap, ◌∙◌, String, false, inl, Option, none, some, List, [], ◌∷◌, All,
}
use enterprise_agentops.Base.Table.{find, find-update_self}
use enterprise_agentops.Exceptions.{Exception}
use enterprise_agentops.Results.{ok, err}
use enterprise_agentops.Drafts.{
  DraftStatus, draft_status_value, needs_review, is_closed, Draft, draft_key, set_sent,
  draft_ref_for, record_found, record_outcome, edit, overwrite, mark_sent,
}
use enterprise_agentops.Drafts.Histories.{stored_for, kept_for}
use enterprise_agentops.Drafts.Rows.{Write, records, edits, replaces, sends, apply_all}
use enterprise_agentops.Drafts.Kept.{Row, Bears, apply_all-Row}

-- Nobody edits, regenerates or sends the draft; the conversations may be processed.
abbrev pub Spares : String → Write → Type 0
Spares ref (records _ _ _ _ _ _ _ _ _) = Unit
Spares ref (edits r _ _ _) = r ≢ ref
Spares ref (replaces r _ _ _ _ _ _) = r ≢ ref
Spares ref (sends r _) = r ≢ ref

-- Nobody regenerates the draft.
abbrev pub Leaves : String → Write → Type 0
Leaves ref (replaces r _ _ _ _ _ _) = r ≢ ref
Leaves ref (records _ _ _ _ _ _ _ _ _) = Unit
Leaves ref (edits _ _ _ _) = Unit
Leaves ref (sends _ _) = Unit

weaken : {A : Type 0} (P Q : A → Type 0) (xs : List A) → ((x : A) → P x → Q x) → All P xs → All Q xs
weaken P Q [] k h = tt
weaken P Q (x ∷ xs) k h = (k x h.0, weaken P Q xs k h.1)

Spares-Bears : (ref : String) (P : Draft → Type 0) (w : Write) → Spares ref w → Bears ref P w
Spares-Bears ref P (records _ _ _ _ _ _ _ _ _) h = tt
Spares-Bears ref P (edits _ _ _ _) h = λ d p e. absurd (h e)
Spares-Bears ref P (replaces _ _ _ _ _ _ _) h = λ d p e. absurd (h e)
Spares-Bears ref P (sends _ _) h = λ d p e. absurd (h e)

abbrev IsSent : Draft → Type 0
IsSent d = d.status ≡ DraftStatus.sent

Leaves-Bears : (ref : String) (w : Write) → Leaves ref w → Bears ref IsSent w
Leaves-Bears ref (records _ _ _ _ _ _ _ _ _) h = tt
Leaves-Bears ref (edits _ _ _ _) h = λ d p e. inl (ap is_closed p)
Leaves-Bears ref (replaces _ _ _ _ _ _ _) h = λ d p e. absurd (h e)
Leaves-Bears ref (sends _ _) h = λ d p e. refl

overwrite-set_sent :
    (ref : String) (now : ℕ) (ds ds' : List Draft) (d : Draft) (o : Option Draft)
    → find draft_key ref ds ≡ o
    → overwrite ref (set_sent now) o ds ≡ (ok d, ds')
    → Row ref IsSent ds'
overwrite-set_sent ref now ds ds' d none f e = absurd (refused_or (ap (λ x. x.0) e))
  where
    refused_or : {x : Exception} {a : Draft} → err x ≡ ok a → ⊥
    refused_or q = cc q
overwrite-set_sent ref now ds ds' d (some r) f e =
    subst (Row ref IsSent) (ap (λ x. x.1) e)
      (set_sent now r, find-update_self draft_key ref (set_sent now) ds r refl f, refl)

edit_refused :
    (ref : String) (subject content : Option String) (now : ℕ) (ds : List Draft)
    → Row ref IsSent ds
    → edit ref subject content now ds
      ≡ (err (Exception.value_error "ValueError" "A SENT draft cannot be edited."), ds)
unfolding edit draft_status_value
edit_refused ref subject content now ds (d, found, p) = rw (found, p) refl

module _ (hexdigest : String → String) where
  -- Once a draft is marked as sent, and as long as it is not regenerated, no edit of it goes through, and an edit leaves
  -- the drafts as they are: whatever is processed, edited and sent, and whatever other drafts are regenerated, in
  -- between.
  pub edit-mark_sent :
      (draft_ref : String) (now later : ℕ) (subject content : Option String) (ds ds' : List Draft)
      (d : Draft) (ws : List Write)
      → mark_sent draft_ref now ds ≡ (ok d, ds')
      → All (Leaves draft_ref) ws
      → let ds'' = apply_all hexdigest ws ds' in
        edit draft_ref subject content later ds''
        ≡ (err (Exception.value_error "ValueError" "A SENT draft cannot be edited."), ds'')
  unfolding mark_sent
  edit-mark_sent draft_ref now later subject content ds ds' d ws e h =
      edit_refused draft_ref subject content later _ (
        apply_all-Row draft_ref IsSent hexdigest (λ x p. ap needs_review p) ws ds'
          (weaken _ _ ws (Leaves-Bears draft_ref) h)
          (overwrite-set_sent draft_ref now ds ds' d (find draft_key draft_ref ds) refl e))

  -- What is stored for a state, where it is not to be reviewed, is what every later processing of the state gets back,
  -- whatever that one concludes, and it leaves the drafts as they are: whatever else is processed, and whatever other
  -- drafts are edited, regenerated and sent, in between.
  pub record_outcome_once :
      (conversation_ref fingerprint : String) (status status' : DraftStatus)
      (property_slug subject content detail source_run_id : Option String)
      (property_slug' subject' content' detail' source_run_id' : Option String) (now now' : ℕ)
      (ds : List Draft) (ws : List Write)
      → needs_review status ≡ false
      → All (Spares (draft_ref_for hexdigest conversation_ref fingerprint)) ws
      → let first =
          record_outcome hexdigest conversation_ref fingerprint status property_slug subject content
            detail source_run_id now ds in
        let ds' = apply_all hexdigest ws first.1 in
        record_outcome hexdigest conversation_ref fingerprint status' property_slug' subject'
          content' detail' source_run_id' now' ds'
        ≡ ((first.0.0, false), ds')
  unfolding record_outcome
  record_outcome_once conversation_ref fingerprint status status' property_slug subject content
        detail source_run_id property_slug' subject' content' detail' source_run_id' now now' ds ws
        n h =
      let ref = draft_ref_for hexdigest conversation_ref fingerprint in
      let (f, k) =
        stored_for hexdigest conversation_ref fingerprint status property_slug subject content
          detail source_run_id now ds (find draft_key ref ds) refl n in
      let first =
        record_found hexdigest conversation_ref fingerprint status property_slug subject content
          detail source_run_id now (find draft_key ref ds) ds in
      let (d, found, same) =
        apply_all-Row ref (λ x. x ≡ first.0.0) hexdigest
          (λ x p. ap (λ (y : Draft). needs_review y.status) p ∙ k) ws first.1
          (weaken _ _ ws (Spares-Bears ref (λ x. x ≡ first.0.0)) h) (first.0.0, f, refl) in
      kept_for hexdigest conversation_ref fingerprint status' property_slug' subject' content'
        detail' source_run_id' now' _ first.0.0 (found ∙ ap some same) k
