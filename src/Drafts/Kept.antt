-- ===== src/Drafts/Kept.antt =====
-- One row of the table of app/drafts.py, and the writes around it.
use mathlib.Core.Path.{subst}
use mathlib.Core.Option.{some-injective}
use enterprise_agentops.Base.{
  ℕ, ◌≡◌, refl, sym, ap, ◌∙◌, String, str_eq, eq_iff, Bool-cases, true, false, inl, inr, ◌⊎◌,
  Option, none, some, List, [], ◌∷◌, All,
}
use enterprise_agentops.Base.Table.{find, update, find-append, find-update_self, find-update_ne}
use enterprise_agentops.Drafts.{
  DraftStatus, needs_review, is_closed, Draft, draft_key, set_edited, set_sent, set_replaced,
  set_outcome, draft_ref_for, record_found, record_outcome, edit_found, edit, overwrite, replace,
  mark_sent,
}
use enterprise_agentops.Drafts.Rows.{Write, records, edits, replaces, sends, apply, apply_all}

-- The row with the ref is there, and `P` holds of it.
abbrev pub Row : String → (Draft → Type 0) → List Draft → Type 0
Row ref P ds = (d : Draft) × (find draft_key ref ds ≡ some d) × P d

-- A write of the row with the ref, if it writes it, keeps `P`.
abbrev pub Bears : String → (Draft → Type 0) → Write → Type 0
Bears ref P (records _ _ _ _ _ _ _ _ _) = Unit
Bears ref P (edits r subject content now) =
    (d : Draft) → P d → r ≡ ref → (is_closed d.status ≡ true) ⊎ P (set_edited subject content now d)
Bears ref P (replaces r status subject content detail source_run_id now) =
    (d : Draft) → P d → r ≡ ref → P (set_replaced status subject content detail source_run_id now d)
Bears ref P (sends r now) = (d : Draft) → P d → r ≡ ref → P (set_sent now d)

module _ (ref : String) (P : Draft → Type 0) where
  update-Row :
      (r : String) (f : Draft → Draft) (ds : List Draft) (d old : Draft)
      → ((x : Draft) → (f x).draft_ref ≡ x.draft_ref)
      → find draft_key r ds ≡ some old
      → find draft_key ref ds ≡ some d
      → P d
      → (r ≡ ref → d ≡ old → P (f d))
      → Row ref P (update draft_key r f ds)
  update-Row r f ds d old keeps there found p k = elim (Bool-cases (str_eq r ref)) [
    | inl e ↦
        let same : r ≡ ref = (eq_iff r ref).0 e in
        let here : find draft_key r ds ≡ some d = ap (λ x. find draft_key x ds) same ∙ found in
        (
          f d,
          subst (λ x. find draft_key x (update draft_key r f ds) ≡ some (f d)) same
              (find-update_self draft_key r f ds d (keeps d) here),
          k same (some-injective _ _ (sym here ∙ there)),
        )
    | inr e ↦ (d, find-update_ne draft_key ref r f ds keeps e ∙ found, p)
  ]

  overwrite-Row :
      (r : String) (f : Draft → Draft) (o : Option Draft) (ds : List Draft)
      → ((x : Draft) → (f x).draft_ref ≡ x.draft_ref)
      → find draft_key r ds ≡ o
      → ((d : Draft) → P d → r ≡ ref → P (f d))
      → Row ref P ds
      → Row ref P (overwrite r f o ds).1
  overwrite-Row r f none ds keeps e k h = h
  overwrite-Row r f (some old) ds keeps e k (d, found, p) =
      update-Row r f ds d old keeps e found p (λ same _. k d p same)

  edit_found-Row :
      (r : String) (subject content : Option String) (now : ℕ) (o : Option Draft) (ds : List Draft)
      → find draft_key r ds ≡ o
      → Bears ref P (edits r subject content now)
      → Row ref P ds
      → Row ref P (edit_found r subject content now o ds).1
  edit_found-Row r subject content now none ds e k h = h
  edit_found-Row r subject content now (some old) ds e k (d, found, p) =
      elim (Bool-cases (is_closed old.status)) [
        | inl c ↦ rw c (d, found, p)
        | inr c ↦ rw c (
            update-Row r (set_edited subject content now) ds d old (λ x. refl) e found p
              (λ same at. elim (k d p same) [
                | inl closed ↦
                    absurd
                      (true_false (sym closed ∙ (ap (λ (x : Draft). is_closed x.status) at ∙ c)))
                | inr q ↦ q
              ]))
      ]
    where
      true_false : true ≡ false → ⊥
      true_false q = cc q

  module _ (hexdigest : String → String)
      (settled : (d : Draft) → P d → needs_review d.status ≡ false) where
    -- A processing does not write a row that is settled.
    record_found-Row :
        (conversation_ref fingerprint : String) (status : DraftStatus)
        (property_slug subject content detail source_run_id : Option String) (now : ℕ)
        (o : Option Draft) (ds : List Draft)
        → find draft_key (draft_ref_for hexdigest conversation_ref fingerprint) ds ≡ o
        → Row ref P ds
        → Row ref P
            (record_found hexdigest conversation_ref fingerprint status property_slug subject
              content detail source_run_id now o ds).1
    record_found-Row conversation_ref fingerprint status property_slug subject content detail
          source_run_id now none ds e (d, found, p) =
        (d, find-append draft_key ref ds _ d found, p)
    record_found-Row conversation_ref fingerprint status property_slug subject content detail
          source_run_id now (some old) ds e (d, found, p) =
        elim (Bool-cases (needs_review old.status)) [
          | inl n ↦ rw n (
              update-Row (draft_ref_for hexdigest conversation_ref fingerprint)
                (set_outcome status subject content detail source_run_id now) ds d old (λ x. refl) e
                found p
                (λ same at. absurd (
                  false_true
                    (sym (settled d p) ∙ (ap (λ (x : Draft). needs_review x.status) at ∙ n)))))
          | inr n ↦ rw n (d, found, p)
        ]
      where
        false_true : false ≡ true → ⊥
        false_true q = cc q

    apply-Row :
        (w : Write) (ds : List Draft)
        → Bears ref P w
        → Row ref P ds
        → Row ref P (apply hexdigest w ds)
    unfolding apply record_outcome edit replace mark_sent
    apply-Row
          (records conversation_ref fingerprint status property_slug subject content detail
            source_run_id now)
          ds k h =
        record_found-Row conversation_ref fingerprint status property_slug subject content detail
          source_run_id now _ ds refl h
    apply-Row (edits r subject content now) ds k h =
        edit_found-Row r subject content now _ ds refl k h
    apply-Row (replaces r status subject content detail source_run_id now) ds k h =
        overwrite-Row r _ _ ds (λ x. refl) refl k h
    apply-Row (sends r now) ds k h = overwrite-Row r _ _ ds (λ x. refl) refl k h

    pub apply_all-Row :
        (ws : List Write) (ds : List Draft)
        → All (Bears ref P) ws
        → Row ref P ds
        → Row ref P (apply_all hexdigest ws ds)
    unfolding apply_all
    apply_all-Row [] ds k h = h
    apply_all-Row (w ∷ ws) ds k h =
        apply_all-Row ws (apply hexdigest w ds) k.1 (apply-Row w ds k.0 h)
