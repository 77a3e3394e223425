-- ===== src/PricingCleanup/Outsiders.antt =====
-- What the passes hold of a row stays sound with every write of the rest of the program.
use mathlib.Core.Path.{subst}
use enterprise_agentops.Base.{
  ℕ, ◌+◌, ◌≤◌, ◌≡◌, refl, sym, ap, ◌∙◌, String, str_eq, Bool, true, not, ◌&&◌, Option, none, some,
  [], ◌∷◌, ◌++◌, Bool-cases, inl, inr, ◌⊎◌, arith,
}
use enterprise_agentops.Base.Table.{find, find-append, find-append_none}
use enterprise_agentops.Storage.Host.{Host}
use enterprise_agentops.PricingCleanup.Record.{
  CleanupState, is_terminal, is_manually_resolvable, is_pending_write, Cleanup, cleanup_key,
}
use enterprise_agentops.PricingCleanup.Store.{
  World, row_of, write, compare_and_set, record_reason_sent, record_manual_resolution,
  record_intent, adopt, mark_active, resolve_anyway, is_missing, was_modified, set_manual,
  set_active, set_resolved, tick, draw, now_of,
}
use enterprise_agentops.PricingCleanup.Permits.{Permit}
use enterprise_agentops.PricingCleanup.View.{View, Sound}
use enterprise_agentops.PricingCleanup.Writes.{write-elim, compare_and_set-elim}
use enterprise_agentops.PricingCleanup.Surroundings.{
  noted, confirmed, resolved_anyway, resolved_manually, drawn_elsewhere, added,
}
use enterprise_agentops.PricingCleanup.Kept.{view_of, Kept}

module _ {Outside : Type 0} (uuid4 : ℕ → String) (id : String) (w : World Outside) (by : ℕ → ℕ)
    (owner : Option ℕ) (permits : ℕ → Permit)
    (sound : Sound uuid4 (view_of id w by owner) permits) where
  -- The row is another one in `u`, which is otherwise as it was.
  row_is :
      (j : String) (f : Cleanup → Cleanup) (o : Option Cleanup)
      → row_of id (write j f w) ≡ o
      → Sound uuid4 (record (view_of id w by owner) { row = o }) permits
      → Kept uuid4 id (write j f w) permits
  row_is j f o e h = (
    by,
    owner,
    subst (λ x. Sound uuid4 (record (view_of id w by owner) { row = x }) permits) (sym e) h,
  )

  -- A write by the key of a row that is there
  written :
      (j : String) (f : Cleanup → Cleanup) (r : Cleanup)
      → ((x : Cleanup) → (f x).id ≡ x.id)
      → row_of j w ≡ some r
      → (row_of id w ≡ some r
          → Sound uuid4 (record (view_of id w by owner) { row = some (f r) }) permits)
      → Kept uuid4 id (write j f w) permits
  written j f r keeps found effect =
      write-elim id j f w keeps (λ u. Kept uuid4 id u permits) r found
        (λ e same. row_is j f _ same sound) (λ e at row. row_is j f _ row (effect at))

  set_outside :
      (j : String) (m : Cleanup → Bool) (f : Cleanup → Cleanup)
      → ((x : Cleanup) → (f x).id ≡ x.id)
      → ((r : Cleanup)
          → m r ≡ true
          → row_of id w ≡ some r
          → Sound uuid4 (record (view_of id w by owner) { row = some (f r) }) permits)
      → Kept uuid4 id (compare_and_set j m f w).1 permits
  set_outside j m f keeps effect =
      compare_and_set-elim id j f w keeps m (λ res. Kept uuid4 id res.1 permits) (by, owner, sound)
        (λ e same. row_is j f _ same sound) (λ r e h at row. row_is j f _ row (effect r h at))

  pub record_reason_sent-Kept :
      (j reason : String) → Kept uuid4 id (record_reason_sent j reason w).1 permits
  unfolding record_reason_sent
  record_reason_sent-Kept j reason =
      set_outside j (λ r. is_pending_write r.state) (λ r. record r { reason_sent = some reason })
        (λ _. refl) (λ r h at. noted uuid4 (view_of id w by owner) permits sound r at reason h)

find_added :
    (id : String) (x : Cleanup)
    → (find cleanup_key id (x ∷ []) ≡ none) ⊎ (find cleanup_key id (x ∷ []) ≡ some x)
unfolding find
find_added id x = elim (Bool-cases (str_eq x.id id)) [
  | inl e ↦ rw e (inr refl)
  | inr e ↦ rw e (inl refl)
]

more : (n : ℕ) → n ≤ n + 1
more n = omega arith

module _ {Outside : Type 0} (uuid4 : ℕ → String) (host : Host) (id : String) (w : World Outside)
    (by : ℕ → ℕ) (owner : Option ℕ) (permits : ℕ → Permit)
    (sound : Sound uuid4 (view_of id w by owner) permits) where
  pub record_manual_resolution-Kept :
      (j text user : String) → Kept uuid4 id (record_manual_resolution host j text user w).1 permits
  unfolding record_manual_resolution
  record_manual_resolution-Kept j text user =
      set_outside uuid4 id (tick host w) by owner permits sound j
        (λ r. is_manually_resolvable r.state) (set_manual text user (now_of host w)) (λ _. refl)
        (λ r h at.
          resolved_manually uuid4 (view_of id w by owner) permits sound r at text user
            (now_of host w) h)

  pub resolve_anyway-Kept :
      (j : String) (state : CleanupState) (text : String) (r : Cleanup)
      → row_of j w ≡ some r
      → is_terminal state ≡ true
      → Kept uuid4 id (resolve_anyway host j state text w) permits
  unfolding resolve_anyway
  resolve_anyway-Kept j state text r found h =
      written uuid4 id (tick host w) by owner permits sound j
        (set_resolved state text (now_of host w)) r (λ _. refl) found
        (λ at.
          resolved_anyway uuid4 (view_of id w by owner) permits sound r at state text
            (now_of host w) h)

  -- The row that is confirmed is still PENDING_WRITE.
  pub mark_active-Kept :
      (j : String) (created : Option String) (reason : String) (updated : Option String)
      (r : Cleanup)
      → row_of j w ≡ some r
      → r.state ≡ CleanupState.pending_write
      → Kept uuid4 id (mark_active host j created reason updated w).1 permits
  unfolding mark_active
  mark_active-Kept j created reason updated r found p =
      elim (Bool-cases (not r.adopted && is_missing created)) [
        | inl e ↦ rw (found, e) (resolve_anyway-Kept j CleanupState.needs_review _ r found refl)
        | inr e ↦ elim (Bool-cases (not r.adopted && was_modified updated created)) [
          | inl f ↦
              rw (found, e, f) (resolve_anyway-Kept j CleanupState.needs_review _ r found refl)
          | inr f ↦
              rw (found, e, f)
                (written uuid4 id w by owner permits sound j (set_active created reason) r
                  (λ _. refl) found
                  (λ at.
                    confirmed uuid4 (view_of id w by owner) permits sound r at created reason
                      (ap is_pending_write p)))
        ]
      ]

  abbrev appended : Cleanup → View
  appended x = record (view_of id w by owner) { row = find cleanup_key id (w.rows ++ x ∷ []) }

  append-Sound :
      (x : Cleanup) (o : Option Cleanup)
      → row_of id w ≡ o
      → x.claim_token ≡ none
      → Sound uuid4 (appended x) permits
  append-Sound x (some r) at n =
      subst (λ y. Sound uuid4 (record (view_of id w by owner) { row = y }) permits)
        (at ∙ sym (find-append cleanup_key id w.rows (x ∷ []) r at)) sound
  append-Sound x none at n =
      let e = find-append_none cleanup_key id w.rows (x ∷ []) at in
      elim (find_added id x) [
        | inl f ↦
            subst (λ y. Sound uuid4 (record (view_of id w by owner) { row = y }) permits)
              (at ∙ sym (e ∙ f)) sound
        | inr f ↦
            subst (λ y. Sound uuid4 (record (view_of id w by owner) { row = y }) permits)
              (sym (e ∙ f)) (added uuid4 (view_of id w by owner) permits sound x at n)
      ]

  appended-Kept :
      (x : Cleanup)
      → x.claim_token ≡ none
      → Kept uuid4 id (record (draw host (tick host w)) { rows = w.rows ++ x ∷ [] }) permits
  appended-Kept x n = (
    by,
    owner,
    drawn_elsewhere uuid4 (appended x) permits (append-Sound x (row_of id w) refl n)
        (w.storage.uuids + 1) (more w.storage.uuids),
  )

  -- A new row has no token.
  pub record_intent-Kept :
      (listing_id pms stay_date : String) (old_price : Option String) (new_price currency : String)
      (cleanup_at : ℕ) (approval_id run_id : Option String)
      → Kept uuid4 id
          (record_intent host listing_id pms stay_date old_price new_price currency cleanup_at
            approval_id run_id w).1
          permits
  unfolding record_intent
  record_intent-Kept listing_id pms stay_date old_price new_price currency cleanup_at approval_id
        run_id =
      appended-Kept _ refl

  pub adopt-Kept :
      (listing_id pms stay_date new_price currency : String) (cleanup_at : ℕ)
      (provider_created_at approval_id run_id : Option String) (resolution : String)
      → Kept uuid4 id
          (adopt host listing_id pms stay_date new_price currency cleanup_at provider_created_at
            approval_id run_id resolution w).1
          permits
  unfolding adopt
  adopt-Kept listing_id pms stay_date new_price currency cleanup_at provider_created_at approval_id
        run_id resolution =
      appended-Kept _ refl
