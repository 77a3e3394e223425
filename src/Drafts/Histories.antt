-- ===== src/Drafts/Histories.antt =====
-- app/drafts.py: what a draft is shown as, and one processing of a state after another.
use enterprise_agentops.Base.{
  ℕ, ◌≡◌, ◌≢◌, refl, ap, ◌∙◌, String, str_eq, eq_iff, Bool, true, false, not, ◌||◌, Bool-cases, inl,
  inr, Option, none, some, List, [], ◌∷◌, if◌then◌else◌, arith,
}
use enterprise_agentops.Base.Table.{find, find-append_none, find-update_self}
use enterprise_agentops.Drafts.{
  DraftStatus, is_sendable, needs_review, Draft, draft_key, has_text, is_current, carries_text,
  Shown, status_for, pair_of, sendable_text, operator_attention_for, draft_ref_for, record_found,
  record_outcome,
}

neither_empty :
    {A : Type 0} (a b : Bool) (x p : A) → (if a || b then none else some x) ≡ some p → b ≡ false
neither_empty a false x p e = refl
neither_empty true true x p e = cc
neither_empty false true x p e = cc

pair_of-has_text :
    (s c : Option String) (p : String × String) → pair_of s c ≡ some p → has_text c ≡ true
pair_of-has_text none c p e = cc
pair_of-has_text (some s) none p e = cc
pair_of-has_text (some s) (some c) p e =
    ap not (neither_empty (str_eq s "") (str_eq c "") (s, c) p e)

never : {A : Type 0} {a : A} → none ≡ some a → ⊥
never e = cc e

-- A text that could be sent is not empty, and its status is one of those that go stale.
sendable-carries_text :
    (d : Draft) (p : String × String) → sendable_text d ≡ some p → carries_text d ≡ true
unfolding sendable_text carries_text
sendable-carries_text d p e = elim (Bool-cases (is_sendable d.status)) [
  | inl s ↦ rw (s, pair_of-has_text d.subject d.content p (rw s at e)) refl
  | inr s ↦ absurd (never (rw s at e))
]

other_state :
    (d : Draft) (current : String)
    → current ≢ ""
    → current ≢ d.fingerprint
    → is_current d (some current) ≡ false
unfolding is_current
other_state d current nonempty ne = ground (arith, eq_iff current "", eq_iff current d.fingerprint)

-- A draft that could be sent is shown as STALE, and asks for the operator, as soon as the conversation has another
-- state than the one that it answers.
pub sendable_goes_stale :
    (d : Draft) (p : String × String) (current : String) (provider_status : Option String)
    → sendable_text d ≡ some p
    → current ≢ ""
    → current ≢ d.fingerprint
    → (status_for d (some current) ≡ Shown.stale)
      × (operator_attention_for (some d) (some current) provider_status ≡ true)
unfolding status_for operator_attention_for
sendable_goes_stale d p current provider_status e nonempty ne =
    let c = sendable-carries_text d p e in
    let o = other_state d current nonempty ne in (rw (c, o) refl, rw (c, o) refl)

module _ (hexdigest : String → String) where
  find_one : (k : String) (x : Draft) → draft_key x ≡ k → find draft_key k (x ∷ []) ≡ some x
  unfolding find
  find_one k x e = rw ((eq_iff (draft_key x) k).1 e) refl

  -- The row that a processing gives back is the one that is stored for the state.
  pub stored_for :
      (conversation_ref fingerprint : String) (status : DraftStatus)
      (property_slug subject content detail source_run_id : Option String) (now : ℕ)
      (ds : List Draft) (o : Option Draft)
      → find draft_key (draft_ref_for hexdigest conversation_ref fingerprint) ds ≡ o
      → needs_review status ≡ false
      → let first =
          record_found hexdigest conversation_ref fingerprint status property_slug subject content
            detail source_run_id now o ds in
        (find draft_key (draft_ref_for hexdigest conversation_ref fingerprint) first.1
          ≡ some first.0.0)
        × (needs_review first.0.0.status ≡ false)
  stored_for conversation_ref fingerprint status property_slug subject content detail source_run_id
        now ds none f n =
      let ref = draft_ref_for hexdigest conversation_ref fingerprint in
      (find-append_none draft_key ref ds _ f ∙ find_one ref _ refl, n)
  stored_for conversation_ref fingerprint status property_slug subject content detail source_run_id
        now ds (some old) f n =
      let ref = draft_ref_for hexdigest conversation_ref fingerprint in
      elim (Bool-cases (needs_review old.status)) [
        | inl e ↦ rw e (find-update_self draft_key ref _ ds old refl f, n)
        | inr e ↦ rw e (f, e)
      ]

  pub kept_for :
      (conversation_ref fingerprint : String) (status : DraftStatus)
      (property_slug subject content detail source_run_id : Option String) (now : ℕ)
      (ds : List Draft) (d : Draft)
      → find draft_key (draft_ref_for hexdigest conversation_ref fingerprint) ds ≡ some d
      → needs_review d.status ≡ false
      → record_outcome hexdigest conversation_ref fingerprint status property_slug subject content
          detail source_run_id now ds
        ≡ ((d, false), ds)
  unfolding record_outcome
  kept_for conversation_ref fingerprint status property_slug subject content detail source_run_id
        now ds d f n =
      rw (f, n) refl
