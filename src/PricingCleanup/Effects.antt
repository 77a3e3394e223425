-- ===== src/PricingCleanup/Effects.antt =====
-- What each write of app/pricing_cleanup.py to the row does to what the passes hold of it.
use mathlib.Core.Path.{subst}
use mathlib.Core.Option.{some-injective}
use enterprise_agentops.Base.{
  ℕ, ◌<◌, ◌≡◌, ◌≢◌, refl, sym, ap, ◌∙◌, String, Bool, true, false, ◌&&◌, Option, none, some, inl,
  inr, ◌⊎◌, eq_iff, arith,
}
use enterprise_agentops.PricingCleanup.Record.{
  CleanupState, is_terminal, is_manually_resolvable, is_pending_write, is_active, is_claimed,
  Cleanup,
}
use enterprise_agentops.PricingCleanup.Store.{
  same_token, holds, claimed_by, set_claim, set_delete_started, set_released, set_resolved,
}
use enterprise_agentops.PricingCleanup.Permits.{Permit}
use enterprise_agentops.PricingCleanup.System.{set_at}
use enterprise_agentops.PricingCleanup.View.{
  View, is_crossed, Crossed, Tidy, Claim, terminal_crossed, Base, crossed_not, token_not, Drew,
  Fits, Sound, Injective, same_pass, moved, changed, unfenced, settled,
}

active-uncrossed : (s : CleanupState) → is_active s ≡ true → is_crossed s ≡ false
active-uncrossed CleanupState.active h = refl
active-uncrossed _ h = cc

pub pending_uncrossed : (s : CleanupState) → is_pending_write s ≡ true → is_crossed s ≡ false
pending_uncrossed CleanupState.pending_write h = refl
pending_uncrossed _ h = cc

pub pending_unclaimed :
    (s : CleanupState) → is_pending_write s ≡ true → s ≡ CleanupState.claimed → ⊥
pending_unclaimed s h e = cc (h, ap is_pending_write e)

same_token-some : (o : Option String) (t : String) → same_token o t ≡ true → o ≡ some t
same_token-some none t h = cc
same_token-some (some s) t h = ap some ((eq_iff s t).0 h)

state_claimed : (s : CleanupState) → is_claimed s ≡ true → s ≡ CleanupState.claimed
state_claimed CleanupState.claimed h = refl
state_claimed _ h = cc

pub resolvable-is_terminal :
    (s : CleanupState) → is_manually_resolvable s ≡ true → is_terminal s ≡ true
resolvable-is_terminal CleanupState.needs_review h = refl
resolvable-is_terminal CleanupState.unknown_cleanup_state h = refl
resolvable-is_terminal _ h = cc

and_true : (a b : Bool) → (a && b) ≡ true → (a ≡ true) × (b ≡ true)
and_true true b h = (refl, h)
and_true false b h = cc

claimed_by-parts :
    (t : String) (r : Cleanup)
    → claimed_by t r ≡ true
    → (r.state ≡ CleanupState.claimed) × (r.claim_token ≡ some t)
claimed_by-parts t r h =
    let (c, s) = and_true (is_claimed r.state) (same_token r.claim_token t) h in
    (state_claimed r.state c, same_token-some r.claim_token t s)

none_sent : (v : View) → (0 < v.count → ⊥) → v.count ≡ 0
none_sent v h = omega arith

pub none_is : {n : ℕ} → n ≡ 0 → 0 < n → ⊥
none_is e h = omega arith

pub owned_once : {o : Option ℕ} (i k : ℕ) → o ≡ some i → o ≡ some k → k ≡ i
owned_once i k e f = some-injective _ _ (sym f ∙ e)

-- The pass that crossed the fence puts the row back.
put_back :
    (uuid4 : ℕ → String) (v : View) (r : Cleanup) (at : v.row ≡ some r) (i k : ℕ) (q : Permit)
    → v.owner ≡ some i
    → k ≢ i
    → Fits uuid4 v k q
    → Fits uuid4 (changed uuid4 v r (set_released r) at v.owner) k q
put_back uuid4 v r at i k Permit.free o ne h = tt
put_back uuid4 v r at i k (Permit.fresh t) o ne h = h
put_back uuid4 v r at i k (Permit.holding t) o ne h = (h.0, λ e. absurd (token_not t refl e))
put_back uuid4 v r at i k (Permit.fenced t) o ne h = absurd (ne (owned_once i k o h.2))

-- What the passes hold, but for the row
module _ (uuid4 : ℕ → String) (injective : Injective uuid4) (v : View) (permits : ℕ → Permit)
    (sound : Sound uuid4 v permits) (r : Cleanup) (at : v.row ≡ some r) where
  abbrev Next : Cleanup → Option ℕ → ℕ → Permit → Type 0
  Next r' o i p = Sound uuid4 (changed uuid4 v r r' at o) (set_at i p permits)

  Base-uncrossed :
      (r' : Cleanup) (o : Option ℕ)
      → is_crossed r.state ≡ false
      → Tidy (some r')
      → Base (changed uuid4 v r r' at o)
  Base-uncrossed r' o n tidy =
      (tidy, sound.0.1, λ h. absurd (crossed_not n (subst Crossed at (sound.0.2 h))))

  Base-crossed :
      (r' : Cleanup) (o : Option ℕ)
      → is_crossed r'.state ≡ true
      → Tidy (some r')
      → Base (changed uuid4 v r r' at o)
  Base-crossed r' o c tidy = (tidy, sound.0.1, λ h. c)

  -- A pass without a permit on the row moves.
  settles :
      (i : ℕ) (r' : Cleanup)
      → is_crossed r'.state ≡ true
      → r'.claim_token ≡ none
      → Next r' v.owner i Permit.free
  settles i r' c n =
      moved uuid4 v (changed uuid4 v r r' at v.owner) permits i Permit.free
        (Base-crossed r' v.owner c (λ _. n)) tt (λ k q _ h. settled uuid4 v r r' at k q c n h)
        sound.1

  pub resolves :
      (i : ℕ) (state : CleanupState) (text : String) (now : ℕ)
      → is_terminal state ≡ true
      → Next (set_resolved state text now r) v.owner i Permit.free
  resolves i state text now h =
      settles i (set_resolved state text now r) (terminal_crossed state h) refl

  pub claims :
      (i : ℕ) (t : String) (now : ℕ)
      → permits i ≡ Permit.fresh t
      → is_active r.state ≡ true
      → Next (set_claim t now r) v.owner i (Permit.holding t)
  claims i t now p a =
      let n = active-uncrossed r.state a in
      let r' = set_claim t now r in
      moved uuid4 v (changed uuid4 v r r' at v.owner) permits i (Permit.holding t)
        (Base-uncrossed r' v.owner n (λ e. cc)) (subst (Fits uuid4 v i) p (sound.1 i), λ _. refl)
        (λ k q _ h. unfenced uuid4 v r r' at v.owner k q n (λ _ _ _ _. refl) h) sound.1

  pub crosses :
      (i : ℕ) (t : String)
      → permits i ≡ Permit.holding t
      → claimed_by t r ≡ true
      → Next (set_delete_started r) (some i) i (Permit.fenced t)
  crosses i t p m =
      let (c, s) = claimed_by-parts t r m in
      let n : is_crossed r.state ≡ false = ap is_crossed c in
      let own = subst (Fits uuid4 v i) p (sound.1 i) in
      let quiet = none_sent v (λ h. crossed_not n (subst Crossed at (sound.0.2 h))) in
      moved uuid4 v (changed uuid4 v r (set_delete_started r) at (some i)) permits i
        (Permit.fenced t) (Base-crossed (set_delete_started r) (some i) refl (λ e. cc))
        (own.0, quiet, refl, refl)
        (λ k q ne h.
          unfenced uuid4 v r (set_delete_started r) at (some i) k q n
            (λ t' d _ e. absurd (
              ne (
                same_pass uuid4 v k i t injective
                  (subst (Drew uuid4 v k) (some-injective _ _ (sym e ∙ s)) d) own.0)))
            h)
        sound.1

  pub releases :
      (i : ℕ) (t : String)
      → (permits i ≡ Permit.holding t) ⊎ (permits i ≡ Permit.fenced t)
      → holds t r ≡ true
      → Next (set_released r) v.owner i Permit.free
  releases i t (inl p) m =
      let own = subst (Fits uuid4 v i) p (sound.1 i) in
      let c = subst (λ x. Claim x t) at own.1 (same_token-some r.claim_token t m) in
      moved uuid4 v (changed uuid4 v r (set_released r) at v.owner) permits i Permit.free
        (Base-uncrossed (set_released r) v.owner (ap is_crossed c) (λ _. refl)) tt
        (λ k q _ h.
          unfenced uuid4 v r (set_released r) at v.owner k q (ap is_crossed c)
            (λ _ _ _ e. absurd (token_not _ refl e)) h)
        sound.1
  releases i t (inr p) m =
      let own = subst (Fits uuid4 v i) p (sound.1 i) in
      moved uuid4 v (changed uuid4 v r (set_released r) at v.owner) permits i Permit.free
        ((λ _. refl), sound.0.1, λ h. absurd (none_is own.1 h)) tt
        (λ k q ne h. put_back uuid4 v r at i k q own.2 ne h) sound.1
