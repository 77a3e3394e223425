-- ===== src/PricingSession/Window.antt =====
-- The bounds of a window of app/pricing_session.py, and the slot beside one that no reading touches.
use mathlib.Core.Path.{subst}
use enterprise_agentops.Base.{
  ℕ, ◌+◌, ◌-◌, ◌*◌, ◌/◌, ◌≤◌, ◌<◌, ◌≡◌, refl, sym, ap, String, str_eq, Bool, false, ◌&&◌,
  Bool-cases, inl, inr, ◌⊎◌, Option, none, some, List, [], ◌∷◌, arith,
}
use enterprise_agentops.Exceptions.{Exception}
use enterprise_agentops.Results.{Result, ok, err}
use enterprise_agentops.Access.Security.{ℤ}
use enterprise_agentops.PricingSession.{
  PricingSession, is_live, covers, remaining_seconds, active, minutes_of, open_window, start, close,
  permits,
}

minutes_of-bound : (d : ℤ) (n : ℕ) → minutes_of d ≡ some n → (1 ≤ n) × (n ≤ 30)
minutes_of-bound (ℤ.negsuc k) n e = cc
minutes_of-bound (ℤ.pos k) n e = (ground arith, ground arith)

-- A call on the slot
pub data Call : Type 0 where
  starts :
      (uuid : String) (listing_ids : List String) (user : String) (duration : ℤ) (now : ℕ) → Call
  closes : Call
  reads : (now : ℕ) → Call
  asks : (listing_id : String) (now now' : ℕ) → Call

abbrev expires_of : Result PricingSession → ℕ
expires_of (ok session) = session.expires_at
expires_of (err e) = 0

refused_ok :
    {x : Exception} {slot slot' : Option PricingSession} {session : PricingSession}
    → ◌≡◌ {A = Result PricingSession × Option PricingSession} (err x, slot) (ok session, slot')
    → ⊥
refused_ok e = cc e

past : {now n at : ℕ} → now + n * 60000000 ≡ at → 1 ≤ n → now < at
past e h = omega arith

short : {now n at t : ℕ} → now + n * 60000000 ≡ t → n ≤ 30 → now ≤ at → (t - at) / 1000000 ≤ 1800
short e h le = omega arith

no_later : {a b c : ℕ} → a ≤ b → b ≤ c → a ≤ c
no_later h k = omega arith

module _ (strip : String → String) where
  -- Whether the call permits a listing, and the slot
  unfoldable pub call : Call → Option PricingSession → Bool × Option PricingSession
  call (starts uuid listing_ids user duration now) slot =
      (false, (start strip uuid listing_ids user duration now slot).1)
  call closes slot = (false, (close slot).1)
  call (reads now) slot = (false, (active now slot).1)
  call (asks listing_id now now') slot = permits listing_id now now' slot

  -- What the calls permit, one after the other
  unfoldable pub answers : List Call → Option PricingSession → List Bool
  answers [] slot = []
  answers (x ∷ xs) slot = let (b, slot') = call x slot in b ∷ answers xs slot'

  -- A window that is touched by no reading
  abbrev pub asked : String → ℕ → ℕ → Option PricingSession → Bool
  asked listing_id now now' none = false
  asked listing_id now now' (some session) = is_live now session && covers listing_id now' session

  unfoldable pub untouched : Call → Option PricingSession → Bool × Option PricingSession
  untouched (starts uuid listing_ids user duration now) window =
      (false, (start strip uuid listing_ids user duration now window).1)
  untouched closes window = (false, none)
  untouched (reads now) window = (false, window)
  untouched (asks listing_id now now') window = (asked listing_id now now' window, window)

  -- The slot holds the window, or nothing once the window has lapsed.
  abbrev pub Agree : ℕ → Option PricingSession → Option PricingSession → Type 0
  Agree t slot window =
      (slot ≡ window)
      ⊎ ((slot ≡ none)
          × (session : PricingSession) × (window ≡ some session)
          × (session.expires_at ≤ t))

  -- The moment of the first reading that a call makes of the slot
  abbrev pub moment_of : ℕ → Call → ℕ
  moment_of t (reads now) = now
  moment_of t (asks listing_id now now') = now
  moment_of t _ = t

  -- The clock does not go back from call to call.
  abbrev pub Ascending : ℕ → List Call → Type 0
  Ascending t [] = Unit
  Ascending t (x ∷ xs) = (t ≤ moment_of t x) × Ascending (moment_of t x) xs

  abbrev pub Steps : ℕ → Call → Option PricingSession → Option PricingSession → Type 0
  Steps t x slot window =
      ((call x slot).0 ≡ (untouched x window).0)
      × Agree (moment_of t x) (call x slot).1 (untouched x window).1

  lapsed_by :
      (now : ℕ) (session : PricingSession) → is_live now session ≡ false → session.expires_at ≤ now
  lapsed_by now session e = ground arith

  dead_at :
      (t now : ℕ) (session : PricingSession)
      → session.expires_at ≤ t
      → t ≤ now
      → is_live now session ≡ false
  dead_at t now session e le = ground arith

  same-Steps : (t : ℕ) (x : Call) (window : Option PricingSession) → Steps t x window window
  unfolding call untouched close active permits
  same-Steps t (starts uuid listing_ids user duration now) window = (refl, inl refl)
  same-Steps t closes window = (refl, inl refl)
  same-Steps t (reads now) none = (refl, inl refl)
  same-Steps t (reads now) (some session) = elim (Bool-cases (is_live now session)) [
    | inl e ↦ rw e (refl, inl refl)
    | inr e ↦ rw e (refl, inr (refl, session, refl, lapsed_by now session e))
  ]
  same-Steps t (asks listing_id now now') none = (refl, inl refl)
  same-Steps t (asks listing_id now now') (some session) = elim (Bool-cases (is_live now session)) [
    | inl e ↦ rw e (refl, inl refl)
    | inr e ↦ rw e (refl, inr (refl, session, refl, lapsed_by now session e))
  ]

  opened_same :
      (uuid : String) (listing_ids : List String) (user : String) (o : Option ℕ) (now : ℕ)
      (slot window : Option PricingSession)
      → ((open_window strip uuid listing_ids user o now slot).1
          ≡ (open_window strip uuid listing_ids user o now window).1)
        ⊎ (((open_window strip uuid listing_ids user o now slot).1 ≡ slot)
            × ((open_window strip uuid listing_ids user o now window).1 ≡ window))
  opened_same uuid listing_ids user none now slot window = inr (refl, refl)
  opened_same uuid listing_ids user (some n) now slot window = inl refl

  -- A start puts a new session in place, or leaves what there is.
  refused_same :
      (uuid : String) (listing_ids : List String) (user : String) (duration : ℤ) (now : ℕ)
      (slot window : Option PricingSession)
      → ((start strip uuid listing_ids user duration now slot).1
          ≡ (start strip uuid listing_ids user duration now window).1)
        ⊎ (((start strip uuid listing_ids user duration now slot).1 ≡ slot)
            × ((start strip uuid listing_ids user duration now window).1 ≡ window))
  unfolding start
  refused_same uuid [] user duration now slot window = inr (refl, refl)
  refused_same uuid (l ∷ ls) user duration now slot window =
      elim (Bool-cases (str_eq (strip user) "")) [
        | inl e ↦ rw e (inr (refl, refl))
        | inr e ↦ rw e (opened_same uuid (l ∷ ls) user (minutes_of duration) now slot window)
      ]

  lapsed-Steps :
      (t : ℕ) (x : Call) (session : PricingSession)
      → session.expires_at ≤ t
      → t ≤ moment_of t x
      → Steps t x none (some session)
  unfolding call untouched close active permits
  lapsed-Steps t (starts uuid listing_ids user duration now) session le later =
      elim (refused_same uuid listing_ids user duration now none (some session)) [
        | inl e ↦ (refl, inl e)
        | inr (p, q) ↦ (refl, inr (p, session, q, le))
      ]
  lapsed-Steps t closes session le later = (refl, inl refl)
  lapsed-Steps t (reads now) session le later = (refl, inr (refl, session, refl, no_later le later))
  lapsed-Steps t (asks listing_id now now') session le later =
      (rw (dead_at t now session le later) refl, inr (refl, session, refl, no_later le later))

  pub step-Agree :
      (t : ℕ) (x : Call) (slot window : Option PricingSession)
      → t ≤ moment_of t x
      → Agree t slot window
      → Steps t x slot window
  step-Agree t x slot window later (inl e) =
      subst (λ y. Steps t x y window) (sym e) (same-Steps t x window)
  step-Agree t x slot window later (inr (p, session, q, le)) =
      subst (λ y. Steps t x y window) (sym p)
        (subst (λ y. Steps t x none y) (sym q) (lapsed-Steps t x session le later))

  opened-bounds :
      (uuid : String) (listing_ids : List String) (user : String) (d : ℤ) (o : Option ℕ)
      (now at : ℕ) (slot slot' : Option PricingSession) (session : PricingSession)
      → minutes_of d ≡ o
      → now ≤ at
      → open_window strip uuid listing_ids user o now slot ≡ (ok session, slot')
      → (now < session.expires_at) × (remaining_seconds at session ≤ 1800)
  unfolding remaining_seconds
  opened-bounds uuid listing_ids user d none now at slot slot' session m le e = cc e
  opened-bounds uuid listing_ids user d (some n) now at slot slot' session m le e =
      let (least, most) = minutes_of-bound d n m in
      let expiry : now + n * 60000000 ≡ session.expires_at = ap (λ x. expires_of x.0) e in
      (past expiry least, short expiry most le)

  -- A window that is opened is open for a while, and at no moment after its start does it have more than half an hour
  -- left.
  pub start-bounds :
      (uuid : String) (listing_ids : List String) (user : String) (duration : ℤ) (now at : ℕ)
      (slot slot' : Option PricingSession) (session : PricingSession)
      → now ≤ at
      → start strip uuid listing_ids user duration now slot ≡ (ok session, slot')
      → (now < session.expires_at) × (remaining_seconds at session ≤ 1800)
  unfolding start
  start-bounds uuid [] user duration now at slot slot' session le e = cc e
  start-bounds uuid (l ∷ ls) user duration now at slot slot' session le e =
      elim (Bool-cases (str_eq (strip user) "")) [
        | inl b ↦ absurd (refused_ok (rw b at e))
        | inr b ↦
            opened-bounds uuid (l ∷ ls) user duration (minutes_of duration) now at slot slot'
              session refl le (rw b at e)
      ]
