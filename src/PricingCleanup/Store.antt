-- ===== src/PricingCleanup/Store.antt =====
-- app/pricing_cleanup.py: `PricingCleanupStore`. Each method is one transaction. An UPDATE with a WHERE clause is a
-- compare and set: it tells whether a row matched, and changes that row alone.
use enterprise_agentops.Base.{
  ℕ, ◌+◌, String, str_eq, Bool, true, false, not, ◌&&◌, Option, none, some, List, [], ◌∷◌, ◌++◌,
  leb, select, sort_by, if◌then◌else◌,
}
use enterprise_agentops.Base.Table.{find, update}
use enterprise_agentops.Storage.{Storage}
use enterprise_agentops.Storage.Host.{Host}
use enterprise_agentops.PricingCleanup.Record.{
  CleanupState, is_manually_resolvable, is_pending_write, is_active, is_claimed, Cleanup,
  cleanup_key, claim_lease,
}

-- The table, the agent's storage, and the ids of the rows for which a DELETE was sent to the provider, as they were sent
pub record World (Outside : Type 0) : Type 0 where
  pub rows : List Cleanup
  pub sent : List String
  pub storage : Storage Outside

abbrev pub same_token : Option String → String → Bool
same_token none t = false
same_token (some s) t = str_eq s t

abbrev pub has_no_token : Cleanup → Bool
has_no_token r = elim r.claim_token [ none ↦ true | some _ ↦ false ]

-- The predicates of the WHERE clauses, and the values that are SET
abbrev pub holds : String → Cleanup → Bool
holds token r = same_token r.claim_token token

abbrev pub claimed_by : String → Cleanup → Bool
claimed_by token r = is_claimed r.state && same_token r.claim_token token

abbrev pub set_claim : String → ℕ → Cleanup → Cleanup
set_claim token now r = record r {
  state = CleanupState.claimed;
  claim_token = some token;
  claimed_at = some now;
  lease_until = some (now + claim_lease);
}

abbrev pub set_delete_started : Cleanup → Cleanup
set_delete_started r = record r { state = CleanupState.delete_started }

abbrev pub set_released : Cleanup → Cleanup
set_released r = record r {
  state = CleanupState.active;
  claim_token = none;
  claimed_at = none;
  lease_until = none;
}

abbrev pub set_resolved : CleanupState → String → ℕ → Cleanup → Cleanup
set_resolved state resolution now r = record r {
  state = state;
  resolution = some resolution;
  resolved_at = some now;
  claim_token = none;
  lease_until = none;
}

abbrev pub set_manual : String → String → ℕ → Cleanup → Cleanup
set_manual text user now r = record r {
  state = CleanupState.manually_resolved;
  manual_resolution = some text;
  resolved_by_user_id = some user;
  manually_resolved_at = some now;
}

abbrev pub set_active : Option String → String → Cleanup → Cleanup
set_active provider_created_at reason_sent r = record r {
  state = CleanupState.active;
  provider_created_at = provider_created_at;
  reason_sent = some reason_sent;
}

abbrev lease_of : Cleanup → ℕ
lease_of r = elim r.lease_until [ none ↦ 0 | some t ↦ t ]

abbrev lapsed : ℕ → Cleanup → Bool
lapsed now r = elim r.lease_until [ none ↦ false | some t ↦ leb t now ]

abbrev pub is_missing : Option String → Bool
is_missing none = true
is_missing (some t) = str_eq t ""

abbrev pub was_modified : Option String → Option String → Bool
was_modified none created = false
was_modified (some t) none = true
was_modified (some t) (some c) = not (str_eq t c)

module _ {Outside : Type 0} where
  abbrev pub row_of : String → World Outside → Option Cleanup
  row_of id w = find cleanup_key id w.rows

  abbrev pub write : String → (Cleanup → Cleanup) → World Outside → World Outside
  write id change w = record w { rows = update cleanup_key id change w.rows }

  abbrev pub set_found :
      String
      → (Cleanup → Bool)
      → (Cleanup → Cleanup)
      → World Outside
      → Option Cleanup
      → Bool × World Outside
  set_found id matches change w none = (false, w)
  set_found id matches change w (some r) =
      if matches r then (true, write id change w) else (false, w)

  -- `UPDATE … SET change WHERE id = … AND matches`, and `rowcount == 1`
  unfoldable pub compare_and_set :
      String → (Cleanup → Bool) → (Cleanup → Cleanup) → World Outside → Bool × World Outside
  compare_and_set id matches change w = set_found id matches change w (row_of id w)

  unfoldable pub claim : String → String → ℕ → World Outside → Bool × World Outside
  claim id token now = compare_and_set id (λ r. is_active r.state) (set_claim token now)

  unfoldable pub begin_delete : String → String → World Outside → Bool × World Outside
  begin_delete id token = compare_and_set id (claimed_by token) set_delete_started

  unfoldable pub release : String → String → World Outside → Bool × World Outside
  release id token = compare_and_set id (holds token) set_released

  unfoldable pub record_reason_sent : String → String → World Outside → Bool × World Outside
  record_reason_sent id reason =
      compare_and_set id (λ r. is_pending_write r.state)
        (λ r. record r { reason_sent = some reason })

  -- `due` and `expired_claims`
  unfoldable pub due : ℕ → World Outside → List Cleanup
  due now w =
      sort_by (λ (r : Cleanup). r.cleanup_at)
        (select (λ (r : Cleanup). is_active r.state && leb r.cleanup_at now) w.rows)

  unfoldable pub expired_claims : ℕ → World Outside → List Cleanup
  expired_claims now w =
      sort_by lease_of (select (λ (r : Cleanup). is_claimed r.state && lapsed now r) w.rows)

module _ {Outside : Type 0} (host : Host) where
  -- `datetime.now(UTC)` and `str(uuid4())`
  abbrev pub tick : World Outside → World Outside
  tick w = record w { storage = record w.storage { clock_readings = w.storage.clock_readings + 1 } }

  abbrev pub draw : World Outside → World Outside
  draw w = record w { storage = record w.storage { uuids = w.storage.uuids + 1 } }

  abbrev pub now_of : World Outside → ℕ
  now_of w = host.now w.storage.clock_readings

  -- `resolve`, with and without the token that is expected
  unfoldable pub resolve :
      String → CleanupState → String → String → World Outside → Bool × World Outside
  resolve id state resolution token w =
      compare_and_set id (holds token) (set_resolved state resolution (now_of w)) (tick w)

  unfoldable pub resolve_anyway : String → CleanupState → String → World Outside → World Outside
  resolve_anyway id state resolution w =
      write id (set_resolved state resolution (now_of w)) (tick w)

  unfoldable pub resolve_unclaimed :
      String → CleanupState → String → World Outside → Bool × World Outside
  resolve_unclaimed id state resolution w =
      compare_and_set id (λ r. is_claimed r.state && has_no_token r)
        (set_resolved state resolution (now_of w)) (tick w)

  -- `record_manual_resolution`, of texts that are not blank
  unfoldable pub record_manual_resolution :
      String → String → String → World Outside → Bool × World Outside
  record_manual_resolution id text user w =
      compare_and_set id (λ r. is_manually_resolvable r.state) (set_manual text user (now_of w))
        (tick w)

  -- `record_intent`
  unfoldable pub record_intent :
      String
      → String
      → String
      → Option String
      → String
      → String
      → ℕ
      → Option String
      → Option String
      → World Outside
      → Cleanup × World Outside
  record_intent listing_id pms stay_date old_price new_price currency cleanup_at approval_id run_id
        w =
      let marker = host.uuid4 w.storage.uuids in
      let row : Cleanup = record {
        id = marker;
        listing_id = listing_id;
        pms = pms;
        stay_date = stay_date;
        old_price = old_price;
        new_price = new_price;
        currency = currency;
        marker = some marker;
        reason_sent = none;
        adopted = false;
        approval_id = approval_id;
        run_id = run_id;
        created_at = now_of w;
        provider_created_at = none;
        cleanup_at = cleanup_at;
        state = CleanupState.pending_write;
        resolved_at = none;
        resolution = none;
        claim_token = none;
        claimed_at = none;
        lease_until = none;
        manual_resolution = none;
        resolved_by_user_id = none;
        manually_resolved_at = none;
      } in
      (row, record (draw (tick w)) { rows = w.rows ++ row ∷ [] })

  unfoldable pub adopt :
      String
      → String
      → String
      → String
      → String
      → ℕ
      → Option String
      → Option String
      → Option String
      → String
      → World Outside
      → Cleanup × World Outside
  adopt listing_id pms stay_date new_price currency cleanup_at provider_created_at approval_id
        run_id resolution w =
      let row : Cleanup = record {
        id = host.uuid4 w.storage.uuids;
        listing_id = listing_id;
        pms = pms;
        stay_date = stay_date;
        old_price = none;
        new_price = new_price;
        currency = currency;
        marker = none;
        reason_sent = none;
        adopted = true;
        approval_id = approval_id;
        run_id = run_id;
        created_at = now_of w;
        provider_created_at = provider_created_at;
        cleanup_at = cleanup_at;
        state = CleanupState.active;
        resolved_at = none;
        resolution = some resolution;
        claim_token = none;
        claimed_at = none;
        lease_until = none;
        manual_resolution = none;
        resolved_by_user_id = none;
        manually_resolved_at = none;
      } in
      (row, record (draw (tick w)) { rows = w.rows ++ row ∷ [] })

  -- `mark_active`, by the row that `get` finds. A row that is gone is not written.
  abbrev confirm :
      String
      → Option String
      → String
      → Option String
      → Bool
      → World Outside
      → CleanupState × World Outside
  confirm id created reason updated ours w =
      if ours && is_missing created
      then (
        CleanupState.needs_review,
        resolve_anyway id CleanupState.needs_review
            "the confirming re-read returned no creation time, so this override cannot be verified as ours later. It is still in place and needs a person."
            w,
      )
      else if ours && was_modified updated created
      then (
        CleanupState.needs_review,
        resolve_anyway id CleanupState.needs_review
            "the override was already present and was modified rather than created, so it cannot be verified as ours later. It is in place and needs a person."
            w,
      )
      else (CleanupState.active, write id (set_active created reason) w)

  unfoldable pub mark_active :
      String → Option String → String → Option String → World Outside → CleanupState × World Outside
  unfolding resolve_anyway
  mark_active id created reason updated w =
      confirm id created reason updated
        (elim (row_of id w) [ none ↦ false | some r ↦ not r.adopted ]) w
