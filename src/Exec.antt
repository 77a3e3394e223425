-- ===== src/Exec.antt =====
-- The stores' methods: a result or an exception, and the storage as it is then, which holds what was
-- committed before a raise.
pub mod Triple
use mathlib.Core.Bool.{Bool}
use enterprise_agentops.Base.{if◌then◌else◌}
use enterprise_agentops.Exceptions.{Exception}
use enterprise_agentops.Results.{Result, ok, err}

abbrev pub Exec {ℓ} : Type ℓ → Type ℓ → Type ℓ
Exec S A = S → Result A × S

module _ {ℓ} {S A : Type ℓ} where
  pub raise : Exception → Exec S A
  raise e s = (err e, s)

  pub gets : (S → A) → Exec S A
  gets read s = (ok (read s), s)

  -- `try: … except`: the exception becomes a value that the handler tells apart.
  pub attempt : Exec S A → Exec S (Result A)
  attempt m s = let (r, after) = m s in (ok r, after)

  pub lift : Result A → Exec S A
  lift r s = (r, s)

  pub pure : A → Exec S A
  pure a s = (ok a, s)

module _ {ℓ} {S : Type ℓ} where
  pub modify : (S → S) → Exec S Unit
  modify f s = (ok tt, f s)

module _ {ℓ} {S A B : Type ℓ} where
  -- An exception skips the rest of the block.
  abbrev proceed : (A → Exec S B) → Result A → Exec S B
  proceed rest (err e) s = (err e, s)
  proceed rest (ok a) s = rest a s

  infixl 10 ◌>>=◌ ◌>>◌
  -- An unfolding line for this one opens the basic actions as well.
  unfoldable pub ◌>>=◌ : Exec S A → (A → Exec S B) → Exec S B
  unfolding attempt gets lift modify pure raise
  ◌>>=◌ first rest s = let (r, after) = first s in proceed rest r after

  abbrev pub ◌>>◌ : Exec S A → Exec S B → Exec S B
  first >> second = first >>= λ _. second
