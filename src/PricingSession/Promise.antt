-- ===== src/PricingSession/Promise.antt =====
-- What a sequence of calls on the slot permits, against a specification that has no sessions in it.
use enterprise_agentops.Base.{
  ℕ, ◌+◌, ◌*◌, ◌≡◌, refl, ap, ◌∙◌, String, str_eq, Bool, true, false, ◌&&◌, ◌||◌, ltb,
  if◌then◌else◌, Bool-cases, inl, inr, Option, none, some, List, [], ◌∷◌, arith,
}
use enterprise_agentops.Access.Security.{ℤ}
use enterprise_agentops.PricingSession.{PricingSession, covers, start, contains}
use enterprise_agentops.PricingSession.Window.{
  Call, starts, closes, reads, asks, call, answers, asked, untouched, Agree, moment_of, Ascending,
  step-Agree,
}

both_cons : {a b : Bool} {xs ys : List Bool} → a ≡ b → xs ≡ ys → a ∷ xs ≡ b ∷ ys
both_cons e f = cc (e, f)

module _ (strip : String → String) where
  -- The specification: the window is its listings and the moment at which it ends.
  abbrev pub named : String → List String → Bool
  named listing_id [] = false
  named listing_id (l ∷ ls) = if str_eq l listing_id then true else named listing_id ls

  abbrev pub is_promised : String → ℕ → ℕ → Option (List String × ℕ) → Bool
  is_promised listing_id now now' none = false
  is_promised listing_id now now' (some (listing_ids, end)) =
      (ltb now end && ltb now' end) && named listing_id listing_ids

  -- Nothing is opened without a listing or a user, or for less than one minute or more than thirty.
  abbrev pub granted : List String → String → ℤ → ℕ → Option (List String × ℕ)
  granted [] user duration now = none
  granted (l ∷ ls) user (ℤ.negsuc n) now = none
  granted (l ∷ ls) user (ℤ.pos n) now =
      if str_eq (strip user) ""
      then none
      else if ltb 0 n && ltb n 31
      then some (l ∷ ls, now + n * 60000000)
      else none

  abbrev pub or_kept : {A : Type 0} → Option A → Option A → Option A
  or_kept none old = old
  or_kept (some a) old = some a

  unfoldable pub promise : Call → Option (List String × ℕ) → Bool × Option (List String × ℕ)
  promise (starts uuid listing_ids user duration now) window =
      (false, or_kept (granted listing_ids user duration now) window)
  promise closes window = (false, none)
  promise (reads now) window = (false, window)
  promise (asks listing_id now now') window = (is_promised listing_id now now' window, window)

  unfoldable pub promises : List Call → Option (List String × ℕ) → List Bool
  promises [] window = []
  promises (x ∷ xs) window = let (b, window') = promise x window in b ∷ promises xs window'

  abbrev view_of : Option PricingSession → Option (List String × ℕ)
  view_of none = none
  view_of (some session) = some (session.listing_ids, session.expires_at)

  contains-named : (k : String) (ls : List String) → contains k ls ≡ named k ls
  contains-named k [] = refl
  contains-named k (l ∷ ls) = ground (arith, contains-named k ls)

  asked-is_promised :
      (listing_id : String) (now now' : ℕ) (o : Option PricingSession)
      → asked strip listing_id now now' o ≡ is_promised listing_id now now' (view_of o)
  unfolding covers
  asked-is_promised listing_id now now' none = refl
  asked-is_promised listing_id now now' (some session) =
      ground (arith, contains-named listing_id session.listing_ids)

  start-granted :
      (uuid : String) (listing_ids : List String) (user : String) (duration : ℤ) (now : ℕ)
      (window : Option PricingSession)
      → view_of (start strip uuid listing_ids user duration now window).1
        ≡ or_kept (granted listing_ids user duration now) (view_of window)
  unfolding start
  start-granted uuid [] user duration now window = refl
  start-granted uuid (l ∷ ls) user (ℤ.negsuc n) now window = ground arith
  start-granted uuid (l ∷ ls) user (ℤ.pos n) now window =
      elim (Bool-cases (str_eq (strip user) "")) [
        | inl e ↦ rw e refl
        | inr e ↦ rw e (elim (Bool-cases (ltb n 1 || ltb 30 n)) [
          | inl f ↦ let g : (ltb 0 n && ltb n 31) ≡ false = ground arith in rw (f, g) refl
          | inr f ↦ let g : (ltb 0 n && ltb n 31) ≡ true = ground arith in rw (f, g) refl
        ])
      ]

  untouched-promise :
      (x : Call) (window : Option PricingSession)
      → ((untouched strip x window).0 ≡ (promise x (view_of window)).0)
        × (view_of (untouched strip x window).1 ≡ (promise x (view_of window)).1)
  unfolding untouched promise
  untouched-promise (starts uuid listing_ids user duration now) window =
      (refl, start-granted uuid listing_ids user duration now window)
  untouched-promise closes window = (refl, refl)
  untouched-promise (reads now) window = (refl, refl)
  untouched-promise (asks listing_id now now') window =
      (asked-is_promised listing_id now now' window, refl)

  answers-Agree :
      (t : ℕ) (xs : List Call) (slot window : Option PricingSession)
      → Ascending strip t xs
      → Agree strip t slot window
      → answers strip xs slot ≡ promises xs (view_of window)
  unfolding answers promises
  answers-Agree t [] slot window up agree = refl
  answers-Agree t (x ∷ xs) slot window up agree =
      let (b, next) = step-Agree strip t x slot window up.0 agree in
      let (c, view) = untouched-promise x window in
      both_cons (b ∙ c) (
        answers-Agree (moment_of strip t x) xs (call strip x slot).1 (untouched strip x window).1
          up.1 next
        ∙ ap (promises xs) view)

  -- From an empty slot, and with a clock that does not go back, any sequence of starts, ends, readings and questions
  -- permits a listing exactly where the last start that was accepted named it, its minutes have not passed, and nothing
  -- has ended it since. A start is accepted where it names a listing and a user that is not blank, for 1 to 30 minutes.
  pub answers-promises :
      (xs : List Call) → Ascending strip 0 xs → answers strip xs none ≡ promises xs none
  answers-promises xs up = answers-Agree 0 xs none none up (inl refl)
