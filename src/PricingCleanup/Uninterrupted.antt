-- ===== src/PricingCleanup/Uninterrupted.antt =====
-- What the processing of a claimed row leaves, where nothing happens beside it.
use mathlib.Core.Path.{subst}
use mathlib.Core.Option.{some-injective}
use enterprise_agentops.Base.{
  ◌≡◌, refl, sym, ap, ◌∙◌, String, eq_iff, Bool, true, false, ◌&&◌, Bool-cases, inl, inr, ◌⊎◌,
  Option, none, some, ◌≢◌, List,
}
use enterprise_agentops.Base.Table.{find, find-update_self}
use enterprise_agentops.Results.{Answer}
use enterprise_agentops.Values.{Fields}
use enterprise_agentops.Storage.Host.{Host}
use enterprise_agentops.PricingCleanup.Record.{
  CleanupState, is_terminal, is_claimed, Cleanup, cleanup_key,
}
use enterprise_agentops.PricingCleanup.Ownership.{Numbers, OwnershipCheck, check_ownership}
use enterprise_agentops.PricingCleanup.Store
use enterprise_agentops.PricingCleanup.Store.{
  World, row_of, write, compare_and_set, holds, claimed_by, same_token, set_released, set_resolved,
  set_delete_started, tick, now_of,
}
use enterprise_agentops.PricingCleanup.Program.{Program, return, ◌>>=◌, ◌>>◌, Provider, run}
use enterprise_agentops.PricingCleanup.WriteClient.{
  WriteOutcome, Removal, override_of, find_override, override_for, remove_override,
}
use enterprise_agentops.PricingCleanup.Runner.{
  CleanupOutcome, record_audit, outcome_of, announce, resolve, put_down, switched_off_text, settle,
  delete, fence, proceed, examine, process_with, process,
}
use enterprise_agentops.PricingCleanup.Answered.{
  resume, run-bind, IsAnswered, remove_override-Removes,
}

-- A compare and set that matches
hit :
    {Outside : Type 0} (id : String) (m : Cleanup → Bool) (f : Cleanup → Cleanup)
    (w : World Outside) (r : Cleanup)
    → row_of id w ≡ some r
    → m r ≡ true
    → compare_and_set id m f w ≡ (true, write id f w)
unfolding compare_and_set
hit id m f w r at h = rw (at, h) refl

token_fits : (o : Option String) (t : String) → o ≡ some t → same_token o t ≡ true
token_fits none t e = cc e
token_fits (some s) t e = (eq_iff s t).1 (some-injective _ _ e)

both_hold : {a b : Bool} → a ≡ true → b ≡ true → (a && b) ≡ true
both_hold e f = rw (e, f) refl

module _ {Outside : Type 0} (host : Host) (provider : Provider Outside) (row : Cleanup)
    (token : String) where
  -- The row of the table has the token.
  abbrev pub Held : World Outside → Type 0
  Held w = (r : Cleanup) × (row_of row.id w ≡ some r) × (r.claim_token ≡ some token)

  -- The row is as the outcome says, active again or settled, and nobody has a claim on it.
  abbrev pub IsDone : CleanupOutcome → World Outside → Type 0
  IsDone o w =
      (r : Cleanup) × (row_of row.id w ≡ some r)
      × (r.state ≡ o.state)
      × (r.claim_token ≡ none)
      × (o.committed ≡ true)
      × ((o.state ≡ CleanupState.active) ⊎ (is_terminal o.state ≡ true))

  -- The program returns an outcome, and the row is as that says.
  abbrev pub Done : Option CleanupOutcome × World Outside → Type 0
  Done end = (o : CleanupOutcome) × (end.0 ≡ some o) × IsDone o end.1

  resume-Done :
      {A : Type 0} (f : A → Program CleanupOutcome) (end : Option A × World Outside) (a : A)
      → end.0 ≡ some a
      → Done (run host provider (f a) end.1)
      → Done (resume host provider f end)
  resume-Done f (some b, w) a e h =
      subst (λ x. Done (run host provider (f x) w)) (sym (some-injective _ _ e)) h
  resume-Done f (none, w) a e h = cc e

  resolve-Done :
      (w : World Outside) (state : CleanupState) (detail : String) (b : Bool)
      → is_terminal state ≡ true
      → Held w
      → Done (run host provider (resolve row token state detail b) w)
  unfolding run resolve announce record_audit ◌>>=◌ Store.resolve
  resolve-Done w state detail b h (r, at, t) =
      let f = set_resolved state detail (now_of host w) in
      subst
        (λ (res : Bool × World Outside). Done (
          run host provider
            (announce row token state detail b res.0
              >> return (outcome_of row state detail b res.0))
            res.1))
        (sym (hit row.id (holds token) f (tick host w) r at (token_fits r.claim_token token t)))
        (
          outcome_of row state detail b true,
          refl,
          (f r, find-update_self cleanup_key row.id f w.rows r refl at, refl, refl, refl, inr h),
        )

  put_down-Done :
      (w : World Outside) (detail : String)
      → Held w
      → Done (run host provider (put_down row token detail) w)
  unfolding run put_down Store.release
  put_down-Done w detail (r, at, t) =
      rw (hit row.id (holds token) set_released w r at (token_fits r.claim_token token t)) (
        outcome_of row CleanupState.active detail false true,
        refl,
        (
          set_released r,
          find-update_self cleanup_key row.id set_released w.rows r refl at,
          refl,
          refl,
          refl,
          inl refl,
        ),
      )

  settle-Done :
      (w : World Outside) (removal : Removal)
      → Held w
      → Done (run host provider (settle row token removal) w)
  unfolding settle
  settle-Done w (Removal.disabled reason) h = put_down-Done w reason h
  settle-Done w Removal.unavailable h = resolve-Done w _ _ true refl h
  settle-Done w (Removal.result WriteOutcome.confirmed_applied m) h = resolve-Done w _ _ true refl h
  settle-Done w (Removal.result WriteOutcome.unknown_write_state m) h =
      resolve-Done w _ _ true refl h
  settle-Done w (Removal.result WriteOutcome.confirmed_failed m) h = resolve-Done w _ _ true refl h

  module _ (answers : IsAnswered host provider row) where
    delete-Done :
        (b : Bool) (w : World Outside)
        → Held w
        → Done (run host provider (delete row token b true) w)
    unfolding delete
    delete-Done b w (r, at, t) =
        let (removal, e, same) = remove_override-Removes host provider row answers b w in
        subst Done (sym (run-bind host provider (remove_override row b) _ w)) (
          resume-Done _ _ removal e
            (settle-Done _ removal (r, ap (find cleanup_key row.id) same ∙ at, t)))

  -- The row is claimed under the token.
  abbrev pub IsClaimed : World Outside → Type 0
  IsClaimed w =
      (r : Cleanup) × (row_of row.id w ≡ some r)
      × (r.state ≡ CleanupState.claimed)
      × (r.claim_token ≡ some token)

  module _ (answers : IsAnswered host provider row) where
    fence-Done :
        (b c : Bool) (w : World Outside)
        → IsClaimed w
        → Done (run host provider (fence row token b c) w)
    unfolding run fence Store.begin_delete
    fence-Done true true w (r, at, s, t) =
        subst
          (λ (res : Bool × World Outside).
            Done (run host provider (delete row token true res.0) res.1))
          (sym (
            hit row.id (claimed_by token) set_delete_started w r at
              (both_hold (ap is_claimed s) (token_fits r.claim_token token t))))
          (delete-Done answers true _ (
            set_delete_started r,
            find-update_self cleanup_key row.id set_delete_started w.rows r refl at,
            t,
          ))
    fence-Done true false w (r, at, s, t) = put_down-Done w switched_off_text (r, at, t)
    fence-Done false c w (r, at, s, t) = put_down-Done w switched_off_text (r, at, t)

    module _ (numbers : Numbers) where
      proceed-Done :
          (b : Bool) (c : Option OwnershipCheck) (w : World Outside)
          → c ≢ none
          → IsClaimed w
          → Done (run host provider (proceed numbers row token b c) w)
      unfolding run proceed
      proceed-Done b none w ne h = absurd (ne refl)
      proceed-Done b (some c) w ne (r, at, s, t) = elim (Bool-cases c.owned) [
        | inl e ↦ rw e (fence-Done b _ w (r, at, s, t))
        | inr e ↦ rw e (resolve-Done w _ _ false refl (r, at, t))
      ]

      -- The check of what was read raises nothing.
      abbrev Checks : Option (Option Fields) → Type 0
      Checks o = (x : Fields) → o ≡ some (some x) → check_ownership numbers row (some x) ≢ none

      examine-Done :
          (b : Bool) (o : Option (Option Fields)) (w : World Outside)
          → Checks o
          → IsClaimed w
          → Done (run host provider (examine numbers row token b o) w)
      unfolding examine
      examine-Done b none w k (r, at, s, t) = put_down-Done w _ (r, at, t)
      examine-Done b (some none) w k (r, at, s, t) = resolve-Done w _ _ false refl (r, at, t)
      examine-Done b (some (some o)) w k h = proceed-Done b _ w (k o refl) h

      -- The ownership check of an override that the provider gives for the row's date raises nothing.
      abbrev pub IsChecked : Type 0
      IsChecked =
          (o : Outside) (rows : List Fields) (x : Fields)
          → (provider.overrides row.listing_id row.pms o).0 ≡ Answer.answered rows
          → override_of row.stay_date rows ≡ some x
          → check_ownership numbers row (some x) ≢ none

      module _ (checked : IsChecked) where
        examine_found-Done :
            (b : Bool) (o : Outside) (r : Answer (List Fields)) (w : World Outside)
            → (provider.overrides row.listing_id row.pms o).0 ≡ r
            → r ≢ Answer.raised
            → IsClaimed w
            → Done (run host provider (find_override row r >>= examine numbers row token b) w)
        unfolding ◌>>=◌
        examine_found-Done b o (Answer.answered rows) w e ne h =
            examine-Done b _ w (λ x f. checked o rows x e (some-injective _ _ f)) h
        examine_found-Done b o Answer.refused w e ne h = examine-Done b none w (λ x f. cc f) h
        examine_found-Done b o Answer.raised w e ne h = absurd (ne refl)

        process_with-Done :
            (b : Option Bool) (w : World Outside)
            → IsClaimed w
            → Done (run host provider (process_with numbers row token b) w)
        unfolding run process_with override_for ◌>>=◌
        process_with-Done none w (r, at, s, t) = resolve-Done w _ _ false refl (r, at, t)
        process_with-Done (some b) w h =
            examine_found-Done b w.storage.outside _ _ refl (answers.reads w.storage.outside) h

        -- The processing of a row that is claimed under the token of the pass, with nothing beside it, returns an outcome
        -- and leaves the row as that says: ACTIVE again or settled, never CLAIMED or DELETE_STARTED, without a claim on
        -- it, and the outcome is committed. That is so whatever the provider replies, where its calls for the row raise
        -- nothing but PriceLabsUnavailable, and the price of no override that it gives for the row's date makes the
        -- ownership check raise, as an infinity and NaN do.
        pub process-IsDone :
            (w : World Outside)
            → IsClaimed w
            → (o : CleanupOutcome) × ((run host provider (process numbers row token) w).0 ≡ some o)
              × IsDone o (run host provider (process numbers row token) w).1
        unfolding run process
        process-IsDone w h = process_with-Done _ w h
