-- ===== src/Exec/Triple.antt =====
-- Hoare triples for actions: what holds after a return and after a raise, with one rule for each
-- way to build an action.
use mathlib.Core.Path.{subst}
use enterprise_agentops.Base.{◌≡◌, Bool, true, false, if◌then◌else◌}
use enterprise_agentops.Exceptions.{Exception}
use enterprise_agentops.Results.{Result, ok, err}
use enterprise_agentops.Exec.{Exec, pure, raise, lift, gets, modify, attempt, ◌>>=◌}

module _ {ℓ} {S A : Type ℓ} where
  abbrev pub Post : (A → S → Type ℓ) → (Exception → S → Type ℓ) → Result A × S → Type ℓ
  Post Q E (ok a, s) = Q a s
  Post Q E (err e, s) = E e s

  -- From a state with `P`, `m` returns into `Q` or raises into `E`.
  pub record Triple (P : S → Type ℓ) (m : Exec S A) (Q : A → S → Type ℓ)
      (E : Exception → S → Type ℓ) : Type ℓ where
    pub at : (s : S) → P s → Post Q E (m s)

  -- `m` keeps `P`, whether it returns or raises.
  pub record Keeps (P : S → Type ℓ) (m : Exec S A) : Type ℓ where
    pub at : (s : S) → P s → P (m s).1

  keeps_Post : (P : S → Type ℓ) (o : Result A × S) → P o.1 → Post (λ _. P) (λ _. P) o
  keeps_Post P (ok a, t) p = p
  keeps_Post P (err e, t) p = p

module _ {ℓ} {S A : Type ℓ} {P : S → Type ℓ} where
  pub Keeps-attempt : (m : Exec S A) → Keeps P m → Keeps P (attempt m)
  unfolding attempt
  Keeps-attempt m kept = record { at = λ s h. kept.at s h }

  pub Keeps-gets : (read : S → A) → Keeps P (gets read)
  unfolding gets
  Keeps-gets read = record { at = λ _ kept. kept }

  pub Keeps-lift : (o : Result A) → Keeps P (lift o)
  unfolding lift
  Keeps-lift o = record { at = λ _ kept. kept }

  pub Keeps-pure : (a : A) → Keeps P (pure a)
  unfolding pure
  Keeps-pure a = record { at = λ _ kept. kept }

  pub Keeps-raise : (e : Exception) → Keeps P (raise {A = A} e)
  unfolding raise
  Keeps-raise e = record { at = λ _ kept. kept }

  pub Keeps-if : (b : Bool) (m n : Exec S A) → Keeps P m → Keeps P n → Keeps P (if b then m else n)
  Keeps-if true m n km kn = km
  Keeps-if false m n km kn = kn

  pub Triple-Keeps : {m : Exec S A} → Keeps P m → Triple P m (λ _. P) (λ _. P)
  Triple-Keeps {m} k = record { at = λ s h. keeps_Post P (m s) (k.at s h) }

module _ {ℓ} {S : Type ℓ} {P : S → Type ℓ} where
  pub Keeps-modify : (f : S → S) → ((s : S) → P s → P (f s)) → Keeps P (modify f)
  unfolding modify
  Keeps-modify f h = record { at = h }

module _ {ℓ} {S A B : Type ℓ} {P : S → Type ℓ} where
  keeps_continue :
      (f : A → Exec S B)
      → ((a : A) → Keeps P (f a))
      → (r : Result A) (s : S) → P s
      → P ((lift r >>= f) s).1
  unfolding ◌>>=◌
  keeps_continue f kf (ok a) s h = (kf a).at s h
  keeps_continue f kf (err e) s h = h

  pub Keeps-bind :
      (first : Exec S A) (rest : A → Exec S B)
      → Keeps P first
      → ((a : A) → Keeps P (rest a))
      → Keeps P (first >>= rest)
  unfolding ◌>>=◌
  Keeps-bind first rest keeps_first keeps_rest = record {
    at = λ s h.
        let (r, after) = first s in keeps_continue rest keeps_rest r after (keeps_first.at s h);
  }

pub ruleset keeps_rules =
    (Keeps-pure, Keeps-raise, Keeps-lift, Keeps-gets, Keeps-attempt, Keeps-if, Keeps-bind)

module _ {ℓ} {S A : Type ℓ} {P : S → Type ℓ} {Q : A → S → Type ℓ} {E : Exception → S → Type ℓ} where
  pub Triple-pure : (a : A) → ((s : S) → P s → Q a s) → Triple P (pure a) Q E
  unfolding pure
  Triple-pure a h = record { at = h }

  pub Triple-raise : (e : Exception) → ((s : S) → P s → E e s) → Triple P (raise {A = A} e) Q E
  unfolding raise
  Triple-raise e h = record { at = h }

  pub Triple-if :
      (b : Bool) (m n : Exec S A)
      → Triple P m Q E
      → Triple P n Q E
      → Triple P (if b then m else n) Q E
  Triple-if true m n tm tn = tm
  Triple-if false m n tm tn = tn

module _ {ℓ} {S A B : Type ℓ} {E : Exception → S → Type ℓ} where
  triple_continue :
      (R : A → S → Type ℓ) (Q : B → S → Type ℓ) (f : A → Exec S B)
      → ((a : A) → Triple (R a) (f a) Q E)
      → (r : Result A) (s : S) → Post R E (r, s)
      → Post Q E ((lift r >>= f) s)
  unfolding ◌>>=◌
  triple_continue R Q f tf (ok a) s h = (tf a).at s h
  triple_continue R Q f tf (err e) s h = h

  -- The state between the two actions satisfies `R`.
  pub Triple-bind :
      {P : S → Type ℓ} (R : A → S → Type ℓ) {Q : B → S → Type ℓ} {m : Exec S A} {f : A → Exec S B}
      → Triple P m R E
      → ((a : A) → Triple (R a) (f a) Q E)
      → Triple P (m >>= f) Q E
  unfolding ◌>>=◌
  Triple-bind R {Q} {m} {f} tm tf = record {
    at = λ s h. let (r, s') = m s in triple_continue R Q f tf r s' (tm.at s h);
  }

module _ {ℓ} {S A : Type ℓ} where
  Post-weaken :
      {Q Q' : A → S → Type ℓ} {E E' : Exception → S → Type ℓ}
      → ((a : A) (s : S) → Q a s → Q' a s)
      → ((e : Exception) (s : S) → E e s → E' e s)
      → (o : Result A × S) → Post Q E o
      → Post Q' E' o
  Post-weaken q e (ok a, s) h = q a s h
  Post-weaken q e (err x, s) h = e x s h

  -- The rule of consequence.
  pub Triple-weaken :
      {P P' : S → Type ℓ} {Q Q' : A → S → Type ℓ} {E E' : Exception → S → Type ℓ} {m : Exec S A}
      → ((s : S) → P' s → P s)
      → ((a : A) (s : S) → Q a s → Q' a s)
      → ((e : Exception) (s : S) → E e s → E' e s)
      → Triple P m Q E
      → Triple P' m Q' E'
  Triple-weaken {m} p q e t = record { at = λ s h. Post-weaken q e (m s) (t.at s (p s h)) }

-- What a triple says of a call that returns
pub Triple-ok {ℓ} :
    {S A : Type ℓ} {P : S → Type ℓ} {m : Exec S A} {Q : A → S → Type ℓ} {E : Exception → S → Type ℓ}
    → Triple P m Q E
    → (s : S) {a : A} → P s
    → (m s).0 ≡ ok a
    → Q a (m s).1
Triple-ok {m} {Q} {E} t s h e = let (r, s') = m s in subst (λ x. Post Q E (x, s')) e (t.at s h)
