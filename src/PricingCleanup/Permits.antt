-- ===== src/PricingCleanup/Permits.antt =====
-- What a pass may do to one row: a discipline of permits, which `run_once` keeps whatever the table and the provider
-- reply.
use enterprise_agentops.Base.{
  ℕ, ◌≡◌, refl, String, str_eq, Bool, true, false, ◌&&◌, Option, none, some, List, [], ◌∷◌,
  if◌then◌else◌, Bool-cases, inl, inr, ◌⊎◌,
}
use enterprise_agentops.Results.{Answer}
use enterprise_agentops.Values.{Value, Fields}
use enterprise_agentops.PricingCleanup.Record.{CleanupState, is_terminal, Cleanup}
use enterprise_agentops.PricingCleanup.Ownership.{Numbers, OwnershipCheck}
use enterprise_agentops.PricingCleanup.Program.{
  Action, Reply, Program, return, raise, perform, ◌>>=◌, ◌>>◌,
}
use enterprise_agentops.PricingCleanup.WriteClient.{
  WriteOutcome, Removal, verify, find_override, override_for, read_back, send_removal, guarded,
  remove_override,
}
use enterprise_agentops.PricingCleanup.Runner.{
  switched_off_text, record_audit, announce, resolve, put_down, settle, delete, fence, proceed,
  examine, process_with, process, settle_expired, reconcile, reconcile_all, process_claimed, moment,
  process_all, run_once,
}

-- What a pass holds of the row: nothing, a token that it drew, a claim under the token, or the fence under it
pub data Permit : Type 0 where
  free : Permit
  fresh : (token : String) → Permit
  holding : (token : String) → Permit
  fenced : (token : String) → Permit

module _ (id : String) where
  -- When an action on the row is allowed. Actions on other rows are.
  abbrev pub Allowed : Permit → Action → Type 0
  Allowed p (Action.claim j token now) = str_eq j id ≡ true → p ≡ Permit.fresh token
  Allowed p (Action.begin_delete j token) = str_eq j id ≡ true → p ≡ Permit.holding token
  Allowed p (Action.release j token) =
      str_eq j id ≡ true → (p ≡ Permit.holding token) ⊎ (p ≡ Permit.fenced token)
  Allowed p (Action.resolve j state text token) = is_terminal state ≡ true
  Allowed p (Action.resolve_unclaimed j state text) = is_terminal state ≡ true
  Allowed p (Action.send_delete row body) =
      str_eq row.id id ≡ true → (t : String) × (p ≡ Permit.fenced t)
  Allowed p _ = Unit

  -- What the pass holds afterwards
  abbrev pub after : Permit → (x : Action) → Reply x → Permit
  after p Action.new_token token = Permit.fresh token
  after p (Action.claim j token now) r =
      if str_eq j id && r then Permit.holding token else Permit.free
  after p (Action.begin_delete j token) r =
      if str_eq j id && r then Permit.fenced token else Permit.free
  after p (Action.release j token) r = Permit.free
  after p (Action.resolve j state text token) r = Permit.free
  after p (Action.resolve_unclaimed j state text) r = Permit.free
  after p (Action.send_delete row body) r = if str_eq row.id id then Permit.free else p
  after p _ r = p

  -- Every action of the program is allowed, and where it returns `Q` holds of what it then holds.
  unfoldable pub Obeys : {A : Type 0} → (Permit → A → Type 0) → Permit → Program A → Type 0
  Obeys Q p (return a) = Q p a
  Obeys Q p raise = Unit
  Obeys Q p (perform x k) = Allowed p x × ((r : Reply x) → Obeys Q (after p x r) (k r))

  pub Obeys-bind :
      {A B : Type 0} (R : Permit → A → Type 0) (Q : Permit → B → Type 0) (p : Permit)
      (m : Program A) (f : A → Program B)
      → Obeys R p m
      → ((q : Permit) (a : A) → R q a → Obeys Q q (f a))
      → Obeys Q p (m >>= f)
  unfolding Obeys ◌>>=◌
  Obeys-bind R Q p (return a) f h k = k p a h
  Obeys-bind R Q p raise f h k = tt
  Obeys-bind R Q p (perform x g) f h k = (h.0, λ r. Obeys-bind R Q (after p x r) (g r) f (h.1 r) k)

  -- Nothing is said of the end.
  abbrev pub Anyhow : {A : Type 0} → Permit → A → Type 0
  Anyhow p a = Unit

  found-Obeys :
      {A : Type 0} (Q : Permit → A → Type 0) (p : Permit) (row : Cleanup)
      (f : Option (Option Fields) → Program A) (r : Answer (List Fields))
      → ((o : Option (Option Fields)) → Obeys Q p (f o))
      → Obeys Q p (find_override row r >>= f)
  unfolding Obeys ◌>>=◌
  found-Obeys Q p row f (Answer.answered rows) k = k _
  found-Obeys Q p row f Answer.refused k = k _
  found-Obeys Q p row f Answer.raised k = tt

  override_for-Obeys :
      {A : Type 0} (Q : Permit → A → Type 0) (p : Permit) (row : Cleanup)
      (f : Option (Option Fields) → Program A)
      → ((r : Option (Option Fields)) → Obeys Q p (f r))
      → Obeys Q p (override_for row >>= f)
  unfolding Obeys ◌>>=◌ override_for
  override_for-Obeys Q p row f k = (tt, λ r. found-Obeys Q p row f r k)

  moment-Obeys :
      {A : Type 0} (Q : Permit → A → Type 0) (p : Permit) (now : Option ℕ) (f : ℕ → Program A)
      → ((t : ℕ) → Obeys Q p (f t))
      → Obeys Q p (moment now >>= f)
  unfolding Obeys ◌>>=◌ moment
  moment-Obeys Q p none f k = (tt, k)
  moment-Obeys Q p (some t) f k = k t

  -- The claim that the pass has on the row, if it is the row
  abbrev Claims : (Bool → Permit) → Cleanup → Permit → Type 0
  Claims own row p = p ≡ own (str_eq row.id id)

  abbrev held : String → Bool → Permit
  held token b = if b then Permit.holding token else Permit.free

  abbrev crossed : String → Bool → Permit
  crossed token b = if b then Permit.fenced token else Permit.free

  announce-Obeys :
      {A : Type 0} (Q : Permit → A → Type 0) (p : Permit) (row : Cleanup) (token : String)
      (state : CleanupState) (detail : String) (b c : Bool) (a : A)
      → Q p a
      → Obeys Q p (announce row token state detail b c >> return a)
  unfolding Obeys ◌>>=◌ announce record_audit
  announce-Obeys Q p row token state detail b true a h = (tt, λ _. h)
  announce-Obeys Q p row token state detail b false a h = (tt, λ _. h)

  resolve-Obeys :
      (p : Permit) (row : Cleanup) (token : String) (state : CleanupState) (detail : String)
      (b : Bool)
      → is_terminal state ≡ true
      → Obeys Anyhow p (resolve row token state detail b)
  unfolding Obeys resolve
  resolve-Obeys p row token state detail b h =
      (h, λ r. announce-Obeys Anyhow Permit.free row token state detail b r _ tt)

  put_down-Obeys :
      (p : Permit) (row : Cleanup) (token detail : String)
      → (str_eq row.id id ≡ true → (p ≡ Permit.holding token) ⊎ (p ≡ Permit.fenced token))
      → Obeys Anyhow p (put_down row token detail)
  unfolding Obeys put_down
  put_down-Obeys p row token detail h = (h, λ r. tt)

  -- If the removal was switched off, the fence still stands.
  abbrev Removed : Cleanup → String → Permit → Removal → Type 0
  Removed row token p (Removal.disabled reason) = str_eq row.id id ≡ true → p ≡ Permit.fenced token
  Removed row token p Removal.unavailable = Unit
  Removed row token p (Removal.result outcome message) = Unit

  settle-Obeys :
      (p : Permit) (row : Cleanup) (token : String) (r : Removal)
      → Removed row token p r
      → Obeys Anyhow p (settle row token r)
  unfolding settle
  settle-Obeys p row token (Removal.disabled reason) h =
      put_down-Obeys p row token reason (λ e. inr (h e))
  settle-Obeys p row token Removal.unavailable h = resolve-Obeys p row token _ _ true refl
  settle-Obeys p row token (Removal.result WriteOutcome.confirmed_applied m) h =
      resolve-Obeys p row token _ _ true refl
  settle-Obeys p row token (Removal.result WriteOutcome.unknown_write_state m) h =
      resolve-Obeys p row token _ _ true refl
  settle-Obeys p row token (Removal.result WriteOutcome.confirmed_failed m) h =
      resolve-Obeys p row token _ _ true refl

  -- The removal is sent once the fence is crossed.
  abbrev Crosses : Cleanup → String → Permit → Type 0
  Crosses row token p = str_eq row.id id ≡ true → p ≡ Permit.fenced token

  verify-Removed :
      (row : Cleanup) (token : String) (q : Permit) (b : Bool) (r : Option (Option Fields))
      → Removed row token q (verify b r)
  verify-Removed row token q b none = tt
  verify-Removed row token q b (some none) = tt
  verify-Removed row token q true (some (some o)) = tt
  verify-Removed row token q false (some (some o)) = tt

  read_back-Obeys :
      (p : Permit) (row : Cleanup) (token : String) (r : Answer Bool)
      → Obeys (Removed row token) p (read_back row r)
  unfolding Obeys
  read_back-Obeys p row token (Answer.answered b) =
      override_for-Obeys (Removed row token) p row _ (λ r. verify-Removed row token p b r)
  read_back-Obeys p row token Answer.refused =
      override_for-Obeys (Removed row token) p row _ (λ r. verify-Removed row token p true r)
  read_back-Obeys p row token Answer.raised = tt

  send_removal-Obeys :
      (p : Permit) (row : Cleanup) (token : String) (r : Option (Option Fields))
      → Crosses row token p
      → Obeys (Removed row token) p (send_removal row r)
  unfolding Obeys send_removal override_for ◌>>=◌
  send_removal-Obeys p row token none h = tt
  send_removal-Obeys p row token (some before) h =
      (λ e. (token, h e), λ answer. read_back-Obeys _ row token answer)

  guarded-Obeys :
      (p : Permit) (row : Cleanup) (token : String) (b c : Bool)
      → Crosses row token p
      → Obeys (Removed row token) p (guarded row b c)
  unfolding Obeys guarded
  guarded-Obeys p row token true true h =
      override_for-Obeys (Removed row token) p row _ (λ r. send_removal-Obeys p row token r h)
  guarded-Obeys p row token false true h = h
  guarded-Obeys p row token b false h = h

  remove_override-Obeys :
      (p : Permit) (row : Cleanup) (token : String) (b : Bool)
      → Crosses row token p
      → Obeys (Removed row token) p (remove_override row b)
  unfolding Obeys remove_override
  remove_override-Obeys p row token b h = (tt, λ enabled. guarded-Obeys p row token b enabled h)

  delete-Obeys :
      (p : Permit) (row : Cleanup) (token : String) (b c : Bool)
      → (c ≡ true → Crosses row token p)
      → Obeys Anyhow p (delete row token b c)
  unfolding Obeys delete record_audit ◌>>=◌
  delete-Obeys p row token b false h = (tt, λ _. tt)
  delete-Obeys p row token b true h =
      Obeys-bind (Removed row token) Anyhow p (remove_override row b) _
        (remove_override-Obeys p row token b (h refl)) (λ q r k. settle-Obeys q row token r k)

  -- The pass has claimed the row.
  abbrev Holds : Cleanup → String → Permit → Type 0
  Holds row token p = str_eq row.id id ≡ true → p ≡ Permit.holding token

  fence-Obeys :
      (p : Permit) (row : Cleanup) (token : String) (b c : Bool)
      → Holds row token p
      → Obeys Anyhow p (fence row token b c)
  unfolding Obeys fence
  fence-Obeys p row token true true h =
      (h, λ r. delete-Obeys _ row token true r (λ e f. rw (e, f) refl))
  fence-Obeys p row token true false h =
      put_down-Obeys p row token switched_off_text (λ e. inl (h e))
  fence-Obeys p row token false c h = put_down-Obeys p row token switched_off_text (λ e. inl (h e))

  proceed-Obeys :
      (numbers : Numbers) (p : Permit) (row : Cleanup) (token : String) (b : Bool)
      (c : Option OwnershipCheck)
      → Holds row token p
      → Obeys Anyhow p (proceed numbers row token b c)
  unfolding Obeys proceed
  proceed-Obeys numbers p row token b none h = tt
  proceed-Obeys numbers p row token b (some c) h = elim (Bool-cases c.owned) [
    | inl e ↦ rw e (tt, λ enabled. fence-Obeys p row token b enabled h)
    | inr e ↦ rw e (resolve-Obeys p row token _ _ false refl)
  ]

  examine-Obeys :
      (numbers : Numbers) (p : Permit) (row : Cleanup) (token : String) (b : Bool)
      (r : Option (Option Fields))
      → Holds row token p
      → Obeys Anyhow p (examine numbers row token b r)
  unfolding examine
  examine-Obeys numbers p row token b none h = put_down-Obeys p row token _ (λ e. inl (h e))
  examine-Obeys numbers p row token b (some none) h = resolve-Obeys p row token _ _ false refl
  examine-Obeys numbers p row token b (some (some o)) h = proceed-Obeys numbers p row token b _ h

  process_with-Obeys :
      (numbers : Numbers) (p : Permit) (row : Cleanup) (token : String) (b : Option Bool)
      → Holds row token p
      → Obeys Anyhow p (process_with numbers row token b)
  unfolding process_with
  process_with-Obeys numbers p row token none h = resolve-Obeys p row token _ _ false refl
  process_with-Obeys numbers p row token (some b) h =
      override_for-Obeys Anyhow p row _ (λ r. examine-Obeys numbers p row token b r h)

  process-Obeys :
      (numbers : Numbers) (p : Permit) (row : Cleanup) (token : String)
      → Holds row token p
      → Obeys Anyhow p (process numbers row token)
  unfolding Obeys process
  process-Obeys numbers p row token h = (tt, λ b. process_with-Obeys numbers p row token b h)

  settle_expired-Obeys :
      (numbers : Numbers) (p : Permit) (row : Cleanup) (detail : String) (t : Option String)
      → Obeys Anyhow p (settle_expired numbers row detail t)
  unfolding Obeys settle_expired record_audit ◌>>=◌
  settle_expired-Obeys numbers p row detail (some t) = resolve-Obeys p row t _ detail false refl
  settle_expired-Obeys numbers p row detail none = (refl, λ r. (tt, λ _. tt))

  module _ (numbers : Numbers) (show : Option Value → String) where
    reconcile-Obeys : (p : Permit) (row : Cleanup) → Obeys Anyhow p (reconcile numbers show row)
    unfolding reconcile
    reconcile-Obeys p row =
        override_for-Obeys Anyhow p row _ (λ r. settle_expired-Obeys numbers p row _ _)

    reconcile_all-Obeys :
        (p : Permit) (rows : List Cleanup) → Obeys Anyhow p (reconcile_all numbers show rows)
    unfolding Obeys reconcile_all
    reconcile_all-Obeys p [] = tt
    reconcile_all-Obeys p (row ∷ rows) =
        Obeys-bind Anyhow Anyhow p _ _ (reconcile-Obeys p row)
          (λ q o _. Obeys-bind Anyhow Anyhow q _ _ (reconcile_all-Obeys q rows) (λ _ _ _. tt))

    process_claimed-Obeys :
        (p : Permit) (row : Cleanup) (token : String) (b : Bool)
        → (b ≡ true → Holds row token p)
        → Obeys Anyhow p (process_claimed numbers show row token b)
    unfolding Obeys process_claimed
    process_claimed-Obeys p row token false h = tt
    process_claimed-Obeys p row token true h =
        Obeys-bind Anyhow Anyhow p _ _ (process-Obeys numbers p row token (h refl)) (λ _ _ _. tt)

    process_all-Obeys :
        (p : Permit) (now : Option ℕ) (rows : List Cleanup)
        → Obeys Anyhow p (process_all numbers show now rows)
    unfolding Obeys process_all ◌>>=◌
    process_all-Obeys p now [] = tt
    process_all-Obeys p now (row ∷ rows) = (
      tt,
      λ token. moment-Obeys Anyhow (Permit.fresh token) now _ (λ t. (
        λ _. refl,
        λ r.
            Obeys-bind Anyhow Anyhow _ _ _
              (process_claimed-Obeys _ row token r (λ e f. rw (e, f) refl))
              (λ q o _.
                Obeys-bind Anyhow Anyhow q _ _ (process_all-Obeys q now rows) (λ _ _ _. tt)),
      )),
    )

    -- A pass keeps the discipline on every row.
    pub run_once-Obeys : (p : Permit) (now : Option ℕ) → Obeys Anyhow p (run_once numbers show now)
    unfolding Obeys run_once ◌>>=◌
    run_once-Obeys p now = moment-Obeys Anyhow p now _ (λ t. (
      tt,
      λ expired. Obeys-bind Anyhow Anyhow p _ _ (reconcile_all-Obeys p expired) (λ q o _.
          moment-Obeys Anyhow q now _ (λ t'. (
            tt,
            λ rows. Obeys-bind Anyhow Anyhow q _ _ (process_all-Obeys q now rows) (λ _ _ _. tt),
          ))),
    ))
