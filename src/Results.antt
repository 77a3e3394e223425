-- ===== src/Results.antt =====
-- What a call gives: a value, or the exception that it raises.
use enterprise_agentops.Exceptions.{Exception}

pub data Result {ℓ} (A : Type ℓ) : Type ℓ where
  ok : A → Result A
  err : Exception → Result A

infixl 10 ◌>>=◌
abbrev pub ◌>>=◌ {ℓ κ} : {A : Type ℓ} {B : Type κ} → Result A → (A → Result B) → Result B
ok a >>= f = f a
err e >>= f = err e

-- What a call gives where its caller catches some exceptions: a value, an exception that is caught, or any other
pub data Answer (A : Type 0) : Type 0 where
  answered : A → Answer A
  refused : Answer A
  raised : Answer A
