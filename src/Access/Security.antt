-- ===== src/Access/Security.antt =====
-- app/security.py: bearer tokens and password hashes. PyJWT, bcrypt and the environment are parameters.
use enterprise_agentops.Base.{
  ℕ, ◌≤◌, String, str_eq, Bool, false, Option, none, some, ltb, Bool-cases, inl, inr, if◌then◌else◌,
  arith,
}
use enterprise_agentops.Exceptions.{Exception}
use enterprise_agentops.Results.{Result, ok, err}
use enterprise_agentops.Values.{Value, Fields, get}

-- Python's integers
pub data ℤ : Type 0 where
  pos : ℕ → ℤ
  negsuc : ℕ → ℤ

pub record Libraries : Type 0 where
  -- `int(raw)`, where it returns
  pub int : String → Option ℤ
  -- the payload of `jwt.decode`, where it accepts the token: signature, issuer, times and required claims
  pub decode : String → Option Fields
  -- `bcrypt.checkpw`, where it returns
  pub checkpw : String → String → Option Bool
  -- `bcrypt.hashpw` with a salt of so many rounds
  pub hashpw : String → ℕ → String
  -- `s.strip()` and `s.lower()`
  pub strip : String → String
  pub lower : String → String

abbrev pub default_bcrypt_rounds : ℕ
default_bcrypt_rounds = 12

abbrev pub min_bcrypt_rounds : ℕ
min_bcrypt_rounds = 4

abbrev pub max_bcrypt_rounds : ℕ
max_bcrypt_rounds = 16

-- `max(MIN_BCRYPT_ROUNDS, min(value, MAX_BCRYPT_ROUNDS))`
abbrev pub clamp : ℤ → ℕ
clamp (ℤ.negsuc n) = min_bcrypt_rounds
clamp (ℤ.pos n) =
    let capped = if ltb max_bcrypt_rounds n then max_bcrypt_rounds else n in
    if ltb capped min_bcrypt_rounds then min_bcrypt_rounds else capped

abbrev rounds_of : Option ℤ → ℕ
rounds_of none = default_bcrypt_rounds
rounds_of (some value) = clamp value

module _ (libraries : Libraries) where
  -- `bcrypt_rounds`, by the environment variable
  unfoldable pub bcrypt_rounds : Option String → ℕ
  bcrypt_rounds none = default_bcrypt_rounds
  bcrypt_rounds (some raw) =
      if str_eq raw "" then default_bcrypt_rounds else rounds_of (libraries.int raw)

  -- `hash_password`
  unfoldable pub hash_password : Option String → String → Result String
  unfolding bcrypt_rounds
  hash_password raw password =
      if str_eq password ""
      then err (Exception.value_error "ValueError" "Password must not be empty.")
      else ok (libraries.hashpw password (bcrypt_rounds raw))

  unfoldable pub verify_password : String → String → Bool
  verify_password password password_hash = elim (libraries.checkpw password password_hash) [
    | none ↦ false
    | some b ↦ b
  ]

  abbrev subject_of : Option Value → Option String
  subject_of (some (Value.text s)) = if str_eq s "" then none else some s
  subject_of _ = none

  -- `read_token`; nothing where it raises `InvalidToken`
  unfoldable pub read_token : String → Option String
  read_token token = elim (libraries.decode token) [
    | none ↦ none
    | some payload ↦ subject_of (get "sub" payload)
  ]

clamp_within : (v : ℤ) → (4 ≤ clamp v) × (clamp v ≤ 16)
clamp_within (ℤ.negsuc n) = (omega arith, omega arith)
clamp_within (ℤ.pos n) = (ground arith, ground arith)

rounds_within : (v : Option ℤ) → (4 ≤ rounds_of v) × (rounds_of v ≤ 16)
rounds_within none = (omega arith, omega arith)
rounds_within (some v) = clamp_within v

-- Whatever the environment variable holds, and whether it is there, the cost of a password hash is between 4 and 16.
pub bcrypt_rounds_bounds :
    (libraries : Libraries) (raw : Option String)
    → (4 ≤ bcrypt_rounds libraries raw) × (bcrypt_rounds libraries raw ≤ 16)
unfolding bcrypt_rounds
bcrypt_rounds_bounds libraries none = (omega arith, omega arith)
bcrypt_rounds_bounds libraries (some raw) = elim (Bool-cases (str_eq raw "")) [
  | inl e ↦ rw e (omega arith, omega arith)
  | inr e ↦ rw e (rounds_within (libraries.int raw))
]
