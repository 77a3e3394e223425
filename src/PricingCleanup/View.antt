-- ===== src/PricingCleanup/View.antt =====
-- One row as the passes see it, and what each kind of write to it does to what they hold.
use mathlib.Core.Path.{subst}
use enterprise_agentops.Base.{
  ℕ, ◌≤◌, ◌<◌, ◌≡◌, ◌≢◌, refl, sym, ap, ◌∙◌, String, Bool, true, false, Option, none, some, ◌==◌,
  Bool-cases, inl, inr, arith,
}
use enterprise_agentops.PricingCleanup.Record.{CleanupState, is_terminal, Cleanup}
use enterprise_agentops.PricingCleanup.Permits.{Permit}
use enterprise_agentops.PricingCleanup.System.{set_at}

-- The row, how many DELETEs were sent for it, how many uuids were drawn, which pass drew each, and which pass
-- crossed the fence last
pub record View : Type 0 where
  pub row : Option Cleanup
  pub count : ℕ
  pub uuids : ℕ
  pub by : ℕ → ℕ
  pub owner : Option ℕ

-- The fence in front of the DELETE is crossed, or the row is settled.
abbrev pub is_crossed : CleanupState → Bool
is_crossed CleanupState.delete_started = true
is_crossed CleanupState.pending_write = false
is_crossed CleanupState.active = false
is_crossed CleanupState.claimed = false
is_crossed _ = true

abbrev pub Crossed : Option Cleanup → Type 0
Crossed none = ⊥
Crossed (some r) = is_crossed r.state ≡ true

-- A settled row has no token.
abbrev pub Tidy : Option Cleanup → Type 0
Tidy none = Unit
Tidy (some r) = is_terminal r.state ≡ true → r.claim_token ≡ none

abbrev pub Claim : Option Cleanup → String → Type 0
Claim none t = Unit
Claim (some r) t = r.claim_token ≡ some t → r.state ≡ CleanupState.claimed

pub terminal_crossed : (s : CleanupState) → is_terminal s ≡ true → is_crossed s ≡ true
terminal_crossed CleanupState.pending_write h = cc
terminal_crossed CleanupState.active h = cc
terminal_crossed CleanupState.claimed h = cc
terminal_crossed CleanupState.delete_started h = refl
terminal_crossed CleanupState.cleaned_up h = refl
terminal_crossed CleanupState.vanished h = refl
terminal_crossed CleanupState.needs_review h = refl
terminal_crossed CleanupState.unknown_cleanup_state h = refl
terminal_crossed CleanupState.manually_resolved h = refl

abbrev pub Base : View → Type 0
Base v = Tidy v.row × (v.count ≤ 1) × (0 < v.count → Crossed v.row)

pub number_eq : (a b : ℕ) → (a == b) ≡ true → a ≡ b
number_eq a b e = ground arith

pub number_ne : (a b : ℕ) → (a == b) ≡ false → a ≢ b
number_ne a b e = ground arith

pub crossed_not : {b : Bool} → b ≡ false → b ≡ true → ⊥
crossed_not f t = cc

pub token_not : {o : Option String} (t : String) → o ≡ none → o ≡ some t → ⊥
token_not t n e = cc

module _ (uuid4 : ℕ → String) where
  -- The pass drew the token itself.
  abbrev pub Drew : View → ℕ → String → Type 0
  Drew v i t = (m : ℕ) × (m < v.uuids) × (t ≡ uuid4 m) × (v.by m ≡ i)

  abbrev pub Fits : View → ℕ → Permit → Type 0
  Fits v i Permit.free = Unit
  Fits v i (Permit.fresh t) = Drew v i t
  Fits v i (Permit.holding t) = Drew v i t × Claim v.row t
  Fits v i (Permit.fenced t) = Drew v i t × (v.count ≡ 0) × (v.owner ≡ some i) × Crossed v.row

  abbrev pub Sound : View → (ℕ → Permit) → Type 0
  Sound v permits = Base v × ((i : ℕ) → Fits v i (permits i))

  abbrev pub Injective : Type 0
  Injective = (m n : ℕ) → uuid4 m ≡ uuid4 n → m ≡ n

  -- Two passes do not draw one token.
  pub same_pass : (v : View) (i j : ℕ) (t : String) → Injective → Drew v i t → Drew v j t → i ≡ j
  same_pass v i j t injective (m, _, e, b) (n, _, f, c) =
      sym b ∙ (ap v.by (injective m n (sym e ∙ f)) ∙ c)

  -- A pass moves, and what the others hold stays.
  pub moved :
      (v v' : View) (permits : ℕ → Permit) (i : ℕ) (p : Permit)
      → Base v'
      → Fits v' i p
      → ((j : ℕ) (q : Permit) → j ≢ i → Fits v j q → Fits v' j q)
      → ((j : ℕ) → Fits v j (permits j))
      → Sound v' (set_at i p permits)
  moved v v' permits i p base own others fits = (
    base,
    λ j. elim (Bool-cases (j == i)) [
      | inl e ↦ rw e (subst (λ x. Fits v' x p) (sym (number_eq j i e)) own)
      | inr e ↦ rw e (others j (permits j) (number_ne j i e) (fits j))
    ],
  )

  -- Nothing that a pass holds of the row is touched where the row and the counts stay.
  pub stays :
      (v v' : View) (j : ℕ) (q : Permit)
      → v'.row ≡ v.row
      → v'.count ≡ v.count
      → v'.owner ≡ v.owner
      → ((t : String) → Drew v j t → Drew v' j t)
      → Fits v j q
      → Fits v' j q
  stays v v' j Permit.free r c o d h = tt
  stays v v' j (Permit.fresh t) r c o d h = d t h
  stays v v' j (Permit.holding t) r c o d h = (d t h.0, subst (λ x. Claim x t) (sym r) h.1)
  stays v v' j (Permit.fenced t) r c o d h = (d t h.0, c ∙ h.1, o ∙ h.2, subst Crossed (sym r) h.3)

  module _ (v : View) (r r' : Cleanup) (at : v.row ≡ some r) where
    abbrev pub changed : Option ℕ → View
    changed owner = record v { row = some r'; owner = owner }

    -- The row gets to a state that no fence stands before, with the token of a pass or none.
    pub unfenced :
        (o : Option ℕ) (j : ℕ) (q : Permit)
        → is_crossed r.state ≡ false
        → ((t : String) → Drew v j t → Claim (some r) t → Claim (some r') t)
        → Fits v j q
        → Fits (changed o) j q
    unfenced o j Permit.free n c h = tt
    unfenced o j (Permit.fresh t) n c h = h
    unfenced o j (Permit.holding t) n c h = (h.0, c t h.0 (subst (λ x. Claim x t) at h.1))
    unfenced o j (Permit.fenced t) n c h = absurd (crossed_not n (subst Crossed at h.3))

    -- Where the row is settled, no claim on it is left.
    pub settled :
        (j : ℕ) (q : Permit)
        → is_crossed r'.state ≡ true
        → r'.claim_token ≡ none
        → Fits v j q
        → Fits (changed v.owner) j q
    settled j Permit.free c n h = tt
    settled j (Permit.fresh t) c n h = h
    settled j (Permit.holding t) c n h = (h.0, λ e. absurd (token_not t n e))
    settled j (Permit.fenced t) c n h = (h.0, h.1, h.2, c)
