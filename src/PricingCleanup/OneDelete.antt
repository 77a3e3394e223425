-- ===== src/PricingCleanup/OneDelete.antt =====
-- At most one DELETE is sent for a cleanup, by all passes of app/pricing_cleanup_runner.py together.
use mathlib.Core.Path.{subst}
use enterprise_agentops.Base.{
  ℕ, ◌≤◌, ◌<◌, ◌≡◌, sym, String, Bool-cases, Option, none, inl, inr, [], ◌==◌, arith,
}
use enterprise_agentops.Values.{Value}
use enterprise_agentops.Storage.Host.{Host}
use enterprise_agentops.PricingCleanup.Ownership.{Numbers}
use enterprise_agentops.PricingCleanup.Store.{row_of}
use enterprise_agentops.PricingCleanup.Program.{return, perform, Provider, act}
use enterprise_agentops.PricingCleanup.Permits.{Permit, after, Obeys, Anyhow, run_once-Obeys}
use enterprise_agentops.PricingCleanup.System.{
  System, set_at, sent_count, Step, acts, starts, stops, elsewhere, intends, adopts, notes,
  confirms, concludes, resolves, Reach, here, next,
}
use enterprise_agentops.PricingCleanup.View.{Crossed, Tidy, Injective}
use enterprise_agentops.PricingCleanup.Surroundings.{holds_no_more, drawn_elsewhere}
use enterprise_agentops.PricingCleanup.Kept.{view_of, Kept}
use enterprise_agentops.PricingCleanup.Acts.{act-Kept}
use enterprise_agentops.PricingCleanup.Outsiders.{
  resolve_anyway-Kept, record_reason_sent-Kept, record_manual_resolution-Kept, mark_active-Kept,
  record_intent-Kept, adopt-Kept,
}

-- A pass and its permit move together.
both_set :
    {A B : Type 0} (P : B → A → Type 0) (i : ℕ) (a : A) (b : B) (f : ℕ → A) (g : ℕ → B)
    → P b a
    → ((j : ℕ) → P (g j) (f j))
    → (j : ℕ) → P (set_at i b g j) (set_at i a f j)
both_set P i a b f g own others j = elim (Bool-cases (j == i)) [
  | inl e ↦ rw e own
  | inr e ↦ rw e (others j)
]

module _ {Outside : Type 0} (host : Host) (provider : Provider Outside) (numbers : Numbers)
    (show : Option Value → String) (id : String) (injective : Injective host.uuid4) where
  -- Each pass keeps the discipline from what it holds, which the world bears out.
  abbrev Safe : System Outside → Type 0
  Safe s =
      (permits : ℕ → Permit) × (Kept host.uuid4 id s.world permits)
      × ((i : ℕ) → Obeys id (Anyhow id) (permits i) (s.passes i))

  Step-Safe : (s u : System Outside) → Safe s → Step host provider numbers show s u → Safe u
  unfolding Obeys
  Step-Safe s u (permits, (by, owner, sound), obeys) (acts i x k at e) =
      let now : Obeys id (Anyhow id) (permits i) (perform x k) =
        subst (Obeys id (Anyhow id) (permits i)) at (obeys i) in
      subst Safe (sym e) (
        set_at i (after id (permits i) x (act host provider x s.world).0) permits,
        act-Kept host provider id injective s.world by owner permits sound i x now.0,
        both_set (Obeys id (Anyhow id)) i _ _ s.passes permits
            (now.1 (act host provider x s.world).0) obeys,
      )
  Step-Safe s u (permits, (by, owner, sound), obeys) (starts i t e) = subst Safe (sym e) (
    set_at i Permit.free permits,
    (by, owner, holds_no_more host.uuid4 (view_of id s.world by owner) permits sound i),
    both_set (Obeys id (Anyhow id)) i _ _ s.passes permits
        (run_once-Obeys id numbers show Permit.free t) obeys,
  )
  Step-Safe s u (permits, (by, owner, sound), obeys) (stops i e) = subst Safe (sym e) (
    set_at i Permit.free permits,
    (by, owner, holds_no_more host.uuid4 (view_of id s.world by owner) permits sound i),
    both_set (Obeys id (Anyhow id)) i _ _ s.passes permits tt obeys,
  )
  Step-Safe s u (permits, (by, owner, sound), obeys) (elsewhere storage le e) = subst Safe (sym e) (
    permits,
    (
      by,
      owner,
      drawn_elsewhere host.uuid4 (view_of id s.world by owner) permits sound storage.uuids le,
    ),
    obeys,
  )
  Step-Safe s u (permits, (by, owner, sound), obeys)
        (intends listing_id pms stay_date old_price new_price currency cleanup_at approval_id run_id
          e) =
      subst Safe (sym e) (
        permits,
        record_intent-Kept host.uuid4 host id s.world by owner permits sound listing_id pms
            stay_date old_price new_price currency cleanup_at approval_id run_id,
        obeys,
      )
  Step-Safe s u (permits, (by, owner, sound), obeys)
        (adopts listing_id pms stay_date new_price currency cleanup_at provider_created_at
          approval_id run_id resolution e) =
      subst Safe (sym e) (
        permits,
        adopt-Kept host.uuid4 host id s.world by owner permits sound listing_id pms stay_date
            new_price currency cleanup_at provider_created_at approval_id run_id resolution,
        obeys,
      )
  Step-Safe s u (permits, (by, owner, sound), obeys) (notes j reason e) = subst Safe (sym e) (
    permits,
    record_reason_sent-Kept host.uuid4 id s.world by owner permits sound j reason,
    obeys,
  )
  Step-Safe s u (permits, (by, owner, sound), obeys) (confirms j created reason updated r at p e) =
      subst Safe (sym e) (
        permits,
        mark_active-Kept host.uuid4 host id s.world by owner permits sound j created reason updated
            r at p,
        obeys,
      )
  Step-Safe s u (permits, (by, owner, sound), obeys) (concludes j state text r at h e) =
      subst Safe (sym e) (
        permits,
        resolve_anyway-Kept host.uuid4 host id s.world by owner permits sound j state text r at h,
        obeys,
      )
  Step-Safe s u (permits, (by, owner, sound), obeys) (resolves j text user e) = subst Safe (sym e) (
    permits,
    record_manual_resolution-Kept host.uuid4 host id s.world by owner permits sound j text user,
    obeys,
  )

  Reach-Safe : (s u : System Outside) → Safe s → Reach host provider numbers show s u → Safe u
  Reach-Safe s u safe here = safe
  Reach-Safe s u safe (next reach step) = Step-Safe _ u (Reach-Safe s _ safe reach) step

  -- No pass is under way, and no DELETE was sent.
  abbrev pub Quiet : System Outside → Type 0
  Quiet s =
      ((i : ℕ) → s.passes i ≡ return []) × (sent_count id s.world ≡ 0) × Tidy (row_of id s.world)

  none_over : {n : ℕ} → n ≡ 0 → n ≤ 1
  none_over e = omega arith

  none_under : {n : ℕ} → n ≡ 0 → 0 < n → ⊥
  none_under e h = omega arith

  Quiet-Safe : (s : System Outside) → Quiet s → Safe s
  unfolding Obeys
  Quiet-Safe s (returned, unsent, tidy) = (
    λ _. Permit.free,
    (λ _. 0, none, ((tidy, none_over unsent, λ h. absurd (none_under unsent h)), λ _. tt)),
    λ i. subst (Obeys id (Anyhow id) Permit.free) (sym (returned i)) tt,
  )

  -- Any number of passes in any number of processes, interleaved in any way, each stopped for good or not at any
  -- point, with new rows, adoptions, confirmations, conclusions and manual resolutions between them, send at most one
  -- DELETE for a cleanup, provided that uuid4 does not repeat, that `mark_active` is called only for rows that are
  -- PENDING_WRITE, as it does not check, that no pass is under way and no DELETE was sent for the cleanup before, and
  -- that its row, if settled, has no claim token. From the moment that it is sent the row is DELETE_STARTED or settled,
  -- so that it is not due again.
  pub one_delete :
      (s u : System Outside)
      → Quiet s
      → Reach host provider numbers show s u
      → (sent_count id u.world ≤ 1) × (0 < sent_count id u.world → Crossed (row_of id u.world))
  one_delete s u quiet reach =
      let (permits, (by, owner, sound), obeys) = Reach-Safe s u (Quiet-Safe s quiet) reach in
      (sound.0.1, sound.0.2)
