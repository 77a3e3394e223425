-- ===== src/PricingCleanup/Surroundings.antt =====
-- What the passes hold of a row stays where the rest of the program writes it, where uuids are drawn, and where the
-- DELETE is sent.
use mathlib.Core.Path.{subst}
use enterprise_agentops.Base.{
  ℕ, ◌+◌, ◌≤◌, ◌<◌, ◌≡◌, ◌≢◌, refl, sym, ◌∙◌, String, true, false, Option, none, some, arith,
}
use enterprise_agentops.PricingCleanup.Record.{
  CleanupState, is_terminal, is_manually_resolvable, is_pending_write, Cleanup,
}
use enterprise_agentops.PricingCleanup.Store.{set_resolved, set_manual, set_active}
use enterprise_agentops.PricingCleanup.Permits.{Permit}
use enterprise_agentops.PricingCleanup.System.{set_at}
use enterprise_agentops.PricingCleanup.View.{
  View, is_crossed, Crossed, Tidy, terminal_crossed, crossed_not, token_not, Fits, Sound, moved,
  stays, changed, unfenced, settled,
}
use enterprise_agentops.PricingCleanup.Effects.{
  resolvable-is_terminal, pending_uncrossed, pending_unclaimed, owned_once,
}

one_more : {n : ℕ} → n ≡ 0 → n + 1 ≤ 1
one_more e = omega arith

lt_le : {l m n : ℕ} → l < m → m ≤ n → l < n
lt_le h k = omega arith

lt_more : {m n : ℕ} → m < n → m < n + 1
lt_more h = omega arith

lt_self : (n : ℕ) → n < n + 1
lt_self n = omega arith

set_at_self : (n a : ℕ) (f : ℕ → ℕ) → set_at n a f n ≡ a
set_at_self n a f = ground arith

set_at_below : (m n a : ℕ) (f : ℕ → ℕ) → m < n → set_at n a f m ≡ f m
set_at_below m n a f h = ground arith

-- The others see the DELETE of the pass that has the fence.
sent_by :
    (uuid4 : ℕ → String) (v : View) (i k : ℕ) (q : Permit)
    → v.owner ≡ some i
    → k ≢ i
    → Fits uuid4 v k q
    → Fits uuid4 (record v { count = v.count + 1 }) k q
sent_by uuid4 v i k Permit.free o ne h = tt
sent_by uuid4 v i k (Permit.fresh t) o ne h = h
sent_by uuid4 v i k (Permit.holding t) o ne h = h
sent_by uuid4 v i k (Permit.fenced t) o ne h = absurd (ne (owned_once i k o h.2))

new_row :
    (uuid4 : ℕ → String) (v : View) (r : Cleanup) (k : ℕ) (q : Permit)
    → v.row ≡ none
    → r.claim_token ≡ none
    → Fits uuid4 v k q
    → Fits uuid4 (record v { row = some r }) k q
new_row uuid4 v r k Permit.free at n h = tt
new_row uuid4 v r k (Permit.fresh t) at n h = h
new_row uuid4 v r k (Permit.holding t) at n h = (h.0, λ e. absurd (token_not t n e))
new_row uuid4 v r k (Permit.fenced t) at n h = absurd (subst Crossed at h.3)

module _ (uuid4 : ℕ → String) (v : View) (permits : ℕ → Permit)
    (sound : Sound uuid4 v permits) where
  -- A pass gives up its permit, or keeps it.
  pub holds_no_more : (i : ℕ) → Sound uuid4 v (set_at i Permit.free permits)
  holds_no_more i = moved uuid4 v v permits i Permit.free sound.0 tt (λ _ _ _ h. h) sound.1

  pub keeps_its_permit : (i : ℕ) → Sound uuid4 v (set_at i (permits i) permits)
  keeps_its_permit i =
      moved uuid4 v v permits i (permits i) sound.0 (sound.1 i) (λ _ _ _ h. h) sound.1

  module _ (r : Cleanup) (at : v.row ≡ some r) where
    pending_moves :
        (r' : Cleanup)
        → is_pending_write r.state ≡ true
        → is_crossed r'.state ≡ false
        → is_terminal r'.state ≡ false
        → r'.claim_token ≡ r.claim_token
        → Sound uuid4 (changed uuid4 v r r' at v.owner) permits
    pending_moves r' p c n e =
        let u = pending_uncrossed r.state p in
        (
          (
            λ f. absurd (crossed_not n f),
            sound.0.1,
            λ h. absurd (crossed_not u (subst Crossed at (sound.0.2 h))),
          ),
          λ k.
              unfenced uuid4 v r r' at v.owner k (permits k) u
                (λ t _ own f. absurd (pending_unclaimed r.state p (own (sym e ∙ f)))) (sound.1 k),
        )

    -- `record_reason_sent`
    pub noted :
        (reason : String)
        → is_pending_write r.state ≡ true
        → Sound uuid4
            (changed uuid4 v r (record r { reason_sent = some reason }) at v.owner)
            permits
    noted reason p =
        let u = pending_uncrossed r.state p in
        (
          (subst Tidy at sound.0.0, sound.0.1, λ h. subst Crossed at (sound.0.2 h)),
          λ k.
              unfenced uuid4 v r (record r { reason_sent = some reason }) at v.owner k (permits k) u
                (λ _ _ own. own) (sound.1 k),
        )

    -- `mark_active`
    pub confirmed :
        (created : Option String) (reason : String)
        → is_pending_write r.state ≡ true
        → Sound uuid4 (changed uuid4 v r (set_active created reason r) at v.owner) permits
    confirmed created reason p = pending_moves (set_active created reason r) p refl refl refl

    settled_by :
        (r' : Cleanup)
        → is_crossed r'.state ≡ true
        → r'.claim_token ≡ none
        → Sound uuid4 (changed uuid4 v r r' at v.owner) permits
    settled_by r' c n =
        ((λ _. n, sound.0.1, λ _. c), λ k. settled uuid4 v r r' at k (permits k) c n (sound.1 k))

    pub resolved_anyway :
        (state : CleanupState) (text : String) (now : ℕ)
        → is_terminal state ≡ true
        → Sound uuid4 (changed uuid4 v r (set_resolved state text now r) at v.owner) permits
    resolved_anyway state text now h =
        settled_by (set_resolved state text now r) (terminal_crossed state h) refl

    -- `record_manual_resolution`
    pub resolved_manually :
        (text user : String) (now : ℕ)
        → is_manually_resolvable r.state ≡ true
        → Sound uuid4 (changed uuid4 v r (set_manual text user now r) at v.owner) permits
    resolved_manually text user now h =
        settled_by (set_manual text user now r) refl
          (subst Tidy at sound.0.0 (resolvable-is_terminal r.state h))

  -- The pass that crossed the fence sends the DELETE.
  pub sent_once :
      (i : ℕ) (t : String)
      → permits i ≡ Permit.fenced t
      → Sound uuid4 (record v { count = v.count + 1 }) (set_at i Permit.free permits)
  sent_once i t p =
      let own = subst (Fits uuid4 v i) p (sound.1 i) in
      moved uuid4 v (record v { count = v.count + 1 }) permits i Permit.free
        (sound.0.0, one_more own.1, λ _. own.3) tt (λ k q ne h. sent_by uuid4 v i k q own.2 ne h)
        sound.1

  -- More uuids are drawn, by anyone but the passes.
  pub drawn_elsewhere : (n : ℕ) → v.uuids ≤ n → Sound uuid4 (record v { uuids = n }) permits
  drawn_elsewhere n le = (
    sound.0,
    λ k.
        stays uuid4 v (record v { uuids = n }) k (permits k) refl refl refl
          (λ t d. (d.0, lt_le d.1 le, d.2, d.3)) (sound.1 k),
  )

  -- A pass draws a token.
  pub drawn :
      (i : ℕ)
      → Sound uuid4
          (record v { uuids = v.uuids + 1; by = set_at v.uuids i v.by })
          (set_at i (Permit.fresh (uuid4 v.uuids)) permits)
  drawn i =
      let v' = record v { uuids = v.uuids + 1; by = set_at v.uuids i v.by } in
      moved uuid4 v v' permits i (Permit.fresh (uuid4 v.uuids)) sound.0
        (v.uuids, lt_self v.uuids, refl, set_at_self v.uuids i v.by)
        (λ k q _ h.
          stays uuid4 v v' k q refl refl refl
            (λ t d. (d.0, lt_more d.1, d.2, set_at_below d.0 v.uuids i v.by d.1 ∙ d.3)) h)
        sound.1

  -- A row is added.
  pub added :
      (r : Cleanup)
      → v.row ≡ none
      → r.claim_token ≡ none
      → Sound uuid4 (record v { row = some r }) permits
  added r at n = (
    (λ _. n, sound.0.1, λ h. absurd (subst Crossed at (sound.0.2 h))),
    λ k. new_row uuid4 v r k (permits k) at n (sound.1 k),
  )
