-- ===== src/PricingCleanup/Proven.antt =====
-- What a pass knows when it sends a DELETE, whatever happens beside it.
use mathlib.Core.Option.{some-injective}
use enterprise_agentops.Base.{
  ℕ, ◌≡◌, refl, sym, ap, String, Bool, true, false, Option, none, some, List, [], ◌∷◌, Bool-cases,
  inl, inr, ◌⊎◌,
}
use enterprise_agentops.Results.{Answer}
use enterprise_agentops.Values.{Value, Fields, cons, nil, field, end, get}
use enterprise_agentops.PricingCleanup.Record.{CleanupState, Cleanup}
use enterprise_agentops.PricingCleanup.Ownership.{Numbers, OwnershipCheck, check_ownership}
use enterprise_agentops.PricingCleanup.Program.{
  Action, Reply, Program, return, raise, perform, ◌>>=◌, ◌>>◌,
}
use enterprise_agentops.PricingCleanup.WriteClient.{
  WriteOutcome, Removal, override_of, find_override, override_for, send_removal, guarded, read_back,
  remove_override,
}
use enterprise_agentops.PricingCleanup.Runner.{
  record_audit, announce, resolve, put_down, switched_off_text, settle, delete, fence, proceed,
  examine, process_with, process, settle_expired, reconcile, reconcile_all, process_claimed, moment,
  process_all, run_once,
}

-- The actions of a pass and their replies, the last one first
pub data Event : Type 0 where
  event : (x : Action) → Reply x → Event

abbrev pub Happened : Event → List Event → Type 0
Happened e [] = ⊥
Happened e (f ∷ h) = (e ≡ f) ⊎ Happened e h

abbrev Claimed : List Event → Cleanup → String → Type 0
Claimed h row token = (t : ℕ) × Happened (event (Action.claim row.id token t) true) h

-- The override passes the check.
abbrev IsOwned : Numbers → Cleanup → Fields → Type 0
IsOwned numbers row override =
    (c : OwnershipCheck) × (check_ownership numbers row (some override) ≡ some c) × (c.owned ≡ true)

abbrev Owned : Numbers → List Event → Cleanup → Type 0
Owned numbers h row =
    (rows : List Fields) × (override : Fields) × Happened
      (event (Action.overrides row.listing_id row.pms) (Answer.answered rows)) h
    × (override_of row.stay_date rows ≡ some override)
    × IsOwned numbers row override

abbrev Automated : List Event → Cleanup → Bool → Type 0
Automated h row automation = Happened (event (Action.bands_for row.listing_id) (some automation)) h

-- The pass claimed the row, found the override that the row owns, had the owner's leave and the switch on, and crossed
-- the fence under its claim.
abbrev pub Proven : Numbers → List Event → Cleanup → Type 0
Proven numbers h row =
    (token : String) × Claimed h row token
    × Owned numbers h row
    × Automated h row true
    × Happened (event Action.writes_enabled true) h
    × Happened (event (Action.begin_delete row.id token) true) h

-- The body of the request names the row's date, and no other, and the row's channel.
abbrev pub Targets : Cleanup → Fields → Type 0
Targets row body =
    (get "overrides" body
      ≡ some (Value.list (cons (Value.dict (field "date" (Value.text row.stay_date) end)) nil)))
    × (get "pms" body ≡ some (Value.text row.pms))
    × (get "update_children" body ≡ some (Value.bool false))

abbrev Before : Numbers → List Event → Action → Type 0
Before numbers h (Action.send_delete row body) = Proven numbers h row × Targets row body
Before numbers h _ = Unit

module _ (numbers : Numbers) where
  -- Every DELETE of the program is proven by what happened before it.
  unfoldable pub Sends : {A : Type 0} → List Event → Program A → Type 0
  Sends h (return a) = Unit
  Sends h raise = Unit
  Sends h (perform x k) = Before numbers h x × ((r : Reply x) → Sends (event x r ∷ h) (k r))

  Sends-bind :
      {A B : Type 0} (h : List Event) (m : Program A) (f : A → Program B)
      → Sends h m
      → ((g : List Event) (a : A) → Sends g (f a))
      → Sends h (m >>= f)
  unfolding Sends ◌>>=◌
  Sends-bind h (return a) f s k = k h a
  Sends-bind h raise f s k = tt
  Sends-bind h (perform x g) f s k = (s.0, λ r. Sends-bind (event x r ∷ h) (g r) f (s.1 r) k)

  override_for-Sends :
      {A : Type 0} (h : List Event) (row : Cleanup) (f : Option (Option Fields) → Program A)
      → ((r : Answer (List Fields))
          → Sends
              (event (Action.overrides row.listing_id row.pms) r ∷ h)
              (find_override row r >>= f))
      → Sends h (override_for row >>= f)
  unfolding Sends ◌>>=◌ override_for
  override_for-Sends h row f k = (tt, k)

  found-Sends :
      {A : Type 0} (h : List Event) (row : Cleanup) (f : Option (Option Fields) → Program A)
      (r : Answer (List Fields))
      → ((o : Option (Option Fields)) → Sends h (f o))
      → Sends h (find_override row r >>= f)
  unfolding Sends ◌>>=◌
  found-Sends h row f (Answer.answered rows) k = k _
  found-Sends h row f Answer.refused k = k _
  found-Sends h row f Answer.raised k = tt

  read_back-Sends : (h : List Event) (row : Cleanup) (r : Answer Bool) → Sends h (read_back row r)
  unfolding Sends
  read_back-Sends h row (Answer.answered b) =
      override_for-Sends h row _ (λ r. found-Sends _ row _ r (λ _. tt))
  read_back-Sends h row Answer.refused =
      override_for-Sends h row _ (λ r. found-Sends _ row _ r (λ _. tt))
  read_back-Sends h row Answer.raised = tt

  announce-Sends :
      {A : Type 0} (h : List Event) (row : Cleanup) (token : String) (state : CleanupState)
      (detail : String) (b c : Bool) (a : A)
      → Sends h (announce row token state detail b c >> return a)
  unfolding Sends ◌>>=◌ announce record_audit
  announce-Sends h row token state detail b true a = (tt, λ _. tt)
  announce-Sends h row token state detail b false a = (tt, λ _. tt)

  resolve-Sends :
      (h : List Event) (row : Cleanup) (token : String) (state : CleanupState) (detail : String)
      (b : Bool)
      → Sends h (resolve row token state detail b)
  unfolding Sends resolve
  resolve-Sends h row token state detail b =
      (tt, λ r. announce-Sends _ row token state detail b r _)

  put_down-Sends :
      (h : List Event) (row : Cleanup) (token detail : String) → Sends h (put_down row token detail)
  unfolding Sends put_down
  put_down-Sends h row token detail = (tt, λ r. tt)

  settle-Sends :
      (h : List Event) (row : Cleanup) (token : String) (r : Removal) → Sends h (settle row token r)
  unfolding settle
  settle-Sends h row token (Removal.disabled reason) = put_down-Sends h row token reason
  settle-Sends h row token Removal.unavailable = resolve-Sends h row token _ _ true
  settle-Sends h row token (Removal.result WriteOutcome.confirmed_applied m) =
      resolve-Sends h row token _ _ true
  settle-Sends h row token (Removal.result WriteOutcome.unknown_write_state m) =
      resolve-Sends h row token _ _ true
  settle-Sends h row token (Removal.result WriteOutcome.confirmed_failed m) =
      resolve-Sends h row token _ _ true

  Owned-later :
      (h : List Event) (e : Event) (row : Cleanup) → Owned numbers h row → Owned numbers (e ∷ h) row
  Owned-later h e row (rows, o, at, found, owned) = (rows, o, inr at, found, owned)

  later :
      (h : List Event) (e : Event) (row : Cleanup)
      → Proven numbers h row
      → Proven numbers (e ∷ h) row
  later h e row (token, (t, c), o, a, w, b) =
      (token, (t, inr c), Owned-later h e row o, inr a, inr w, inr b)

  send_removal-Sends :
      (h : List Event) (row : Cleanup) (r : Option (Option Fields))
      → Proven numbers h row
      → Sends h (send_removal row r)
  unfolding Sends send_removal get
  send_removal-Sends h row none p = tt
  send_removal-Sends h row (some before) p =
      ((p, (refl, refl, refl)), λ answer. read_back-Sends _ row answer)

  guarded-Sends :
      (h : List Event) (row : Cleanup) (b c : Bool)
      → Proven numbers h row
      → Sends h (guarded row b c)
  unfolding Sends guarded
  guarded-Sends h row true true p =
      override_for-Sends h row _
        (λ r. found-Sends _ row _ r (λ o. send_removal-Sends _ row o (later h _ row p)))
  guarded-Sends h row false true p = tt
  guarded-Sends h row b false p = tt

  remove_override-Sends :
      (h : List Event) (row : Cleanup) (b : Bool)
      → Proven numbers h row
      → Sends h (remove_override row b)
  unfolding Sends remove_override
  remove_override-Sends h row b p = (tt, λ enabled. guarded-Sends _ row b enabled (later h _ row p))

  delete-Sends :
      (h : List Event) (row : Cleanup) (token : String) (b c : Bool)
      → (c ≡ true → Proven numbers h row)
      → Sends h (delete row token b c)
  unfolding Sends delete record_audit ◌>>=◌
  delete-Sends h row token b false p = (tt, λ _. tt)
  delete-Sends h row token b true p =
      Sends-bind h (remove_override row b) _ (remove_override-Sends h row b (p refl))
        (λ g r. settle-Sends g row token r)

  fence-Sends :
      (h : List Event) (row : Cleanup) (token : String) (b c : Bool)
      → Claimed h row token
      → Owned numbers h row
      → Automated h row b
      → Happened (event Action.writes_enabled c) h
      → Sends h (fence row token b c)
  unfolding Sends fence
  fence-Sends h row token true true (t, claimed) owned automated enabled = (
    tt,
    λ r. delete-Sends _ row token true r (λ e. (
      token,
      (t, inr claimed),
      Owned-later h _ row owned,
      inr automated,
      inr enabled,
      inl (ap (event (Action.begin_delete row.id token)) (sym e)),
    )),
  )
  fence-Sends h row token true false claimed owned automated enabled =
      put_down-Sends h row token switched_off_text
  fence-Sends h row token false c claimed owned automated enabled =
      put_down-Sends h row token switched_off_text

  proceed-Sends :
      (h : List Event) (row : Cleanup) (token : String) (b : Bool) (o : Option OwnershipCheck)
      → Claimed h row token
      → ((c : OwnershipCheck) → o ≡ some c → c.owned ≡ true → Owned numbers h row)
      → Automated h row b
      → Sends h (proceed numbers row token b o)
  unfolding Sends proceed
  proceed-Sends h row token b none claimed owned automated = tt
  proceed-Sends h row token b (some c) (t, claimed) owned automated = elim (Bool-cases c.owned) [
    | inl e ↦ rw e (
      tt,
      λ enabled.
          fence-Sends _ row token b enabled (t, inr claimed) (Owned-later h _ row (owned c refl e))
            (inr automated) (inl refl),
    )
    | inr e ↦ rw e (resolve-Sends h row token _ _ false)
  ]

  examine-Sends :
      (h : List Event) (row : Cleanup) (token : String) (b : Bool) (r : Option (Option Fields))
      → Claimed h row token
      → ((o : Fields) → r ≡ some (some o) → IsOwned numbers row o → Owned numbers h row)
      → Automated h row b
      → Sends h (examine numbers row token b r)
  unfolding examine
  examine-Sends h row token b none claimed owned automated = put_down-Sends h row token _
  examine-Sends h row token b (some none) claimed owned automated =
      resolve-Sends h row token _ _ false
  examine-Sends h row token b (some (some o)) claimed owned automated =
      proceed-Sends h row token b _ claimed (λ c e y. owned o refl (c, e, y)) automated

  -- The override that is examined is the one that was read.
  examine_found-Sends :
      (h : List Event) (row : Cleanup) (token : String) (b : Bool) (r : Answer (List Fields))
      → Claimed h row token
      → Automated h row b
      → Happened (event (Action.overrides row.listing_id row.pms) r) h
      → Sends h (find_override row r >>= examine numbers row token b)
  unfolding Sends ◌>>=◌
  examine_found-Sends h row token b (Answer.answered rows) claimed automated read =
      examine-Sends h row token b _ claimed
        (λ o e owned. (rows, o, read, some-injective _ _ e, owned)) automated
  examine_found-Sends h row token b Answer.refused claimed automated read =
      examine-Sends h row token b none claimed (λ o e owned. cc e) automated
  examine_found-Sends h row token b Answer.raised claimed automated read = tt

  process_with-Sends :
      (h : List Event) (row : Cleanup) (token : String) (b : Option Bool)
      → Claimed h row token
      → Happened (event (Action.bands_for row.listing_id) b) h
      → Sends h (process_with numbers row token b)
  unfolding process_with
  process_with-Sends h row token none claimed automated = resolve-Sends h row token _ _ false
  process_with-Sends h row token (some b) (t, claimed) automated =
      override_for-Sends h row _
        (λ r. examine_found-Sends _ row token b r (t, inr claimed) (inr automated) (inl refl))

  process-Sends :
      (h : List Event) (row : Cleanup) (token : String)
      → Claimed h row token
      → Sends h (process numbers row token)
  unfolding Sends process
  process-Sends h row token (t, claimed) =
      (tt, λ b. process_with-Sends _ row token b (t, inr claimed) (inl refl))

  settle_expired-Sends :
      (h : List Event) (row : Cleanup) (detail : String) (t : Option String)
      → Sends h (settle_expired numbers row detail t)
  unfolding Sends settle_expired record_audit ◌>>=◌
  settle_expired-Sends h row detail (some t) = resolve-Sends h row t _ detail false
  settle_expired-Sends h row detail none = (tt, λ r. (tt, λ _. tt))

  moment-Sends :
      {A : Type 0} (h : List Event) (now : Option ℕ) (f : ℕ → Program A)
      → ((g : List Event) (t : ℕ) → Sends g (f t))
      → Sends h (moment now >>= f)
  unfolding Sends ◌>>=◌ moment
  moment-Sends h none f k = (tt, λ t. k _ t)
  moment-Sends h (some t) f k = k h t

  module _ (show : Option Value → String) where
    reconcile-Sends : (h : List Event) (row : Cleanup) → Sends h (reconcile numbers show row)
    unfolding reconcile
    reconcile-Sends h row =
        override_for-Sends h row _
          (λ r. found-Sends _ row _ r (λ o. settle_expired-Sends _ row _ _))

    reconcile_all-Sends :
        (h : List Event) (rows : List Cleanup) → Sends h (reconcile_all numbers show rows)
    unfolding Sends reconcile_all
    reconcile_all-Sends h [] = tt
    reconcile_all-Sends h (row ∷ rows) =
        Sends-bind h _ _ (reconcile-Sends h row)
          (λ g o. Sends-bind g _ _ (reconcile_all-Sends g rows) (λ _ _. tt))

    process_claimed-Sends :
        (h : List Event) (row : Cleanup) (token : String) (b : Bool)
        → (b ≡ true → Claimed h row token)
        → Sends h (process_claimed numbers show row token b)
    unfolding Sends process_claimed
    process_claimed-Sends h row token false p = tt
    process_claimed-Sends h row token true p =
        Sends-bind h _ _ (process-Sends h row token (p refl)) (λ _ _. tt)

    process_all-Sends :
        (h : List Event) (now : Option ℕ) (rows : List Cleanup)
        → Sends h (process_all numbers show now rows)
    unfolding Sends process_all ◌>>=◌
    process_all-Sends h now [] = tt
    process_all-Sends h now (row ∷ rows) = (
      tt,
      λ token. moment-Sends _ now _ (λ g t. (
        tt,
        λ r.
            Sends-bind _ _ _
              (process_claimed-Sends _ row token r
                (λ e. (t, inl (ap (event (Action.claim row.id token t)) (sym e)))))
              (λ f o. Sends-bind f _ _ (process_all-Sends f now rows) (λ _ _. tt)),
      )),
    )

    -- Whatever the table, the provider and the other passes reply, a pass sends a DELETE for a row only after it has
    -- itself claimed the row, read the owner's bands with automation on, read an override for the row's date that
    -- passes the ownership check, found the switch for writes on, and crossed the fence under the token of its claim; and
    -- the body of the DELETE names that date, and no other, and the row's channel.
    pub deletes_proven : (now : Option ℕ) → Sends [] (run_once numbers show now)
    unfolding Sends run_once ◌>>=◌
    deletes_proven now = moment-Sends [] now _ (λ h t. (
      tt,
      λ expired. Sends-bind _ _ _ (reconcile_all-Sends _ expired) (λ g o.
          moment-Sends g now _
            (λ f t'. (tt, λ rows. Sends-bind _ _ _ (process_all-Sends _ now rows) (λ _ _. tt)))),
    ))
