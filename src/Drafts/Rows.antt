-- ===== src/Drafts/Rows.antt =====
-- The table of app/drafts.py has one row for each state of a conversation, after any sequence of writes.
use enterprise_agentops.Base.{
  ℕ, ◌≡◌, refl, ap, ◌∙◌, String, str_eq, eq_iff, false, Bool-cases, inl, inr, Option, none, some,
  List, [], ◌∷◌, ◌++◌, All, arith,
}
use enterprise_agentops.Base.Table.{find, update, find-append_none}
use enterprise_agentops.Drafts.{
  DraftStatus, Draft, draft_key, needs_review, is_closed, draft_ref_for, set_replaced, set_sent,
  record_found, record_outcome, edit_found, edit, overwrite, replace, mark_sent,
}

pub data Write : Type 0 where
  records :
      (conversation_ref fingerprint : String) (status : DraftStatus)
      (property_slug subject content detail source_run_id : Option String) (now : ℕ)
      → Write
  edits : (draft_ref : String) (subject content : Option String) (now : ℕ) → Write
  replaces :
      (draft_ref : String) (status : DraftStatus)
      (subject content detail source_run_id : Option String) (now : ℕ)
      → Write
  sends : (draft_ref : String) (now : ℕ) → Write

-- No two rows have one ref.
abbrev pub IsDistinct : List Draft → Type 0
IsDistinct [] = Unit
IsDistinct (d ∷ ds) = (find draft_key d.draft_ref ds ≡ none) × IsDistinct ds

update-none :
    (j k : String) (f : Draft → Draft) (ds : List Draft)
    → ((d : Draft) → (f d).draft_ref ≡ d.draft_ref)
    → find draft_key k ds ≡ none
    → find draft_key k (update draft_key j f ds) ≡ none
unfolding find update
update-none j k f [] keeps h = refl
update-none j k f (d ∷ ds) keeps h = ground (arith, update-none j k f ds keeps, keeps d)

update-IsDistinct :
    (j : String) (f : Draft → Draft) (ds : List Draft)
    → ((d : Draft) → (f d).draft_ref ≡ d.draft_ref)
    → IsDistinct ds
    → IsDistinct (update draft_key j f ds)
unfolding update
update-IsDistinct j f [] keeps h = tt
update-IsDistinct j f (d ∷ ds) keeps h = elim (Bool-cases (str_eq d.draft_ref j)) [
  | inl e ↦ rw e (ap (λ k. find draft_key k ds) (keeps d) ∙ h.0, h.1)
  | inr e ↦ rw e (update-none j d.draft_ref f ds keeps h.0, update-IsDistinct j f ds keeps h.1)
]

rest-none :
    (k : String) (d : Draft) (ds : List Draft)
    → find draft_key k (d ∷ ds) ≡ none
    → (str_eq d.draft_ref k ≡ false) × (find draft_key k ds ≡ none)
unfolding find
rest-none k d ds h = (ground arith, ground arith)

other-none :
    (d x : Draft)
    → str_eq d.draft_ref x.draft_ref ≡ false
    → find draft_key d.draft_ref (x ∷ []) ≡ none
unfolding find
other-none d x h = ground (arith, eq_iff d.draft_ref x.draft_ref, eq_iff x.draft_ref d.draft_ref)

append-IsDistinct :
    (ds : List Draft) (x : Draft)
    → find draft_key x.draft_ref ds ≡ none
    → IsDistinct ds
    → IsDistinct (ds ++ x ∷ [])
unfolding find
append-IsDistinct [] x h d = (refl, tt)
append-IsDistinct (y ∷ ds) x h d =
    let (ne, none_there) = rest-none x.draft_ref y ds h in
    (
      find-append_none draft_key y.draft_ref ds (x ∷ []) d.0 ∙ other-none y x ne,
      append-IsDistinct ds x none_there d.1,
    )

module _ (hexdigest : String → String) where
  unfoldable pub apply : Write → List Draft → List Draft
  apply
        (records conversation_ref fingerprint status property_slug subject content detail
          source_run_id now)
        ds =
      (record_outcome hexdigest conversation_ref fingerprint status property_slug subject content
        detail source_run_id now ds).1
  apply (edits draft_ref subject content now) ds = (edit draft_ref subject content now ds).1
  apply (replaces draft_ref status subject content detail source_run_id now) ds =
      (replace draft_ref status subject content detail source_run_id now ds).1
  apply (sends draft_ref now) ds = (mark_sent draft_ref now ds).1

  unfoldable pub apply_all : List Write → List Draft → List Draft
  apply_all [] ds = ds
  apply_all (w ∷ ws) ds = apply_all ws (apply w ds)

  -- A row's ref is that of its state.
  abbrev pub IsKeyed : List Draft → Type 0
  IsKeyed ds =
      All (λ (d : Draft). d.draft_ref ≡ draft_ref_for hexdigest d.conversation_ref d.fingerprint) ds

  abbrev pub IsTidy : List Draft → Type 0
  IsTidy ds = IsDistinct ds × IsKeyed ds

  append-IsKeyed :
      (ds : List Draft) (x : Draft)
      → x.draft_ref ≡ draft_ref_for hexdigest x.conversation_ref x.fingerprint
      → IsKeyed ds
      → IsKeyed (ds ++ x ∷ [])
  append-IsKeyed [] x e h = (e, tt)
  append-IsKeyed (y ∷ ds) x e h = (h.0, append-IsKeyed ds x e h.1)

  update-IsKeyed :
      (j : String) (f : Draft → Draft) (ds : List Draft)
      → ((d : Draft)
          → d.draft_ref ≡ draft_ref_for hexdigest d.conversation_ref d.fingerprint
          → (f d).draft_ref ≡ draft_ref_for hexdigest (f d).conversation_ref (f d).fingerprint)
      → IsKeyed ds
      → IsKeyed (update draft_key j f ds)
  unfolding update
  update-IsKeyed j f [] keeps h = tt
  update-IsKeyed j f (d ∷ ds) keeps h = elim (Bool-cases (str_eq d.draft_ref j)) [
    | inl e ↦ rw e (keeps d h.0, h.1)
    | inr e ↦ rw e (h.0, update-IsKeyed j f ds keeps h.1)
  ]

  record_found-IsTidy :
      (conversation_ref fingerprint : String) (status : DraftStatus)
      (property_slug subject content detail source_run_id : Option String) (now : ℕ)
      (o : Option Draft) (ds : List Draft)
      → find draft_key (draft_ref_for hexdigest conversation_ref fingerprint) ds ≡ o
      → IsTidy ds
      → IsTidy
          (record_found hexdigest conversation_ref fingerprint status property_slug subject content
            detail source_run_id now o ds).1
  record_found-IsTidy conversation_ref fingerprint status property_slug subject content detail
        source_run_id now none ds f h =
      (append-IsDistinct ds _ f h.0, append-IsKeyed ds _ refl h.1)
  record_found-IsTidy conversation_ref fingerprint status property_slug subject content detail
        source_run_id now (some old) ds f h =
      elim (Bool-cases (needs_review old.status)) [
        | inl e ↦
            rw e (update-IsDistinct _ _ ds (λ d. refl) h.0, update-IsKeyed _ _ ds (λ d k. k) h.1)
        | inr e ↦ rw e h
      ]

  edit_found-IsTidy :
      (draft_ref : String) (subject content : Option String) (now : ℕ) (o : Option Draft)
      (ds : List Draft)
      → IsTidy ds
      → IsTidy (edit_found draft_ref subject content now o ds).1
  edit_found-IsTidy draft_ref subject content now none ds h = h
  edit_found-IsTidy draft_ref subject content now (some d) ds h =
      elim (Bool-cases (is_closed d.status)) [
        | inl e ↦ rw e h
        | inr e ↦
            rw e (update-IsDistinct _ _ ds (λ d. refl) h.0, update-IsKeyed _ _ ds (λ d k. k) h.1)
      ]

  overwrite-IsTidy :
      (draft_ref : String) (f : Draft → Draft) (o : Option Draft) (ds : List Draft)
      → ((d : Draft) → (f d).draft_ref ≡ d.draft_ref)
      → ((d : Draft)
          → d.draft_ref ≡ draft_ref_for hexdigest d.conversation_ref d.fingerprint
          → (f d).draft_ref ≡ draft_ref_for hexdigest (f d).conversation_ref (f d).fingerprint)
      → IsTidy ds
      → IsTidy (overwrite draft_ref f o ds).1
  overwrite-IsTidy draft_ref f none ds keeps keyed h = h
  overwrite-IsTidy draft_ref f (some d) ds keeps keyed h =
      (update-IsDistinct draft_ref f ds keeps h.0, update-IsKeyed draft_ref f ds keyed h.1)

  apply-IsTidy : (w : Write) (ds : List Draft) → IsTidy ds → IsTidy (apply w ds)
  unfolding apply record_outcome edit replace mark_sent
  apply-IsTidy
        (records conversation_ref fingerprint status property_slug subject content detail
          source_run_id now)
        ds h =
      record_found-IsTidy conversation_ref fingerprint status property_slug subject content detail
        source_run_id now (find draft_key (draft_ref_for hexdigest conversation_ref fingerprint) ds)
        ds refl h
  apply-IsTidy (edits draft_ref subject content now) ds h =
      edit_found-IsTidy draft_ref subject content now (find draft_key draft_ref ds) ds h
  apply-IsTidy (replaces draft_ref status subject content detail source_run_id now) ds h =
      overwrite-IsTidy draft_ref (set_replaced status subject content detail source_run_id now)
        (find draft_key draft_ref ds) ds (λ d. refl) (λ d k. k) h
  apply-IsTidy (sends draft_ref now) ds h =
      overwrite-IsTidy draft_ref (set_sent now) (find draft_key draft_ref ds) ds (λ d. refl)
        (λ d k. k) h

  -- Where no two drafts have one ref, and each ref is that of its state, it is so after any sequence of processings,
  -- edits, regenerations and sends.
  pub apply_all-IsTidy : (ws : List Write) (ds : List Draft) → IsTidy ds → IsTidy (apply_all ws ds)
  unfolding apply_all
  apply_all-IsTidy [] ds h = h
  apply_all-IsTidy (w ∷ ws) ds h = apply_all-IsTidy ws (apply w ds) (apply-IsTidy w ds h)
