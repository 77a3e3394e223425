-- ===== src/Base/Lists.antt =====
-- Lists measured by native numbers, and the filters of comprehensions and queries.
use Prim.Native.Nat.{ℕ, zero, suc, ◌+◌, max}
use mathlib.Core.Path.{◌≡◌, refl, ap}
use mathlib.Core.Bool.{Bool}
use mathlib.Core.List.{List, [], ◌∷◌, ◌++◌}
use native.Mathlib.Omega.{arith}
use enterprise_agentops.Base.Tests.{ltb, if◌then◌else◌}

module _ {ℓ} {A : Type ℓ} where
  abbrev pub length : List A → ℕ
  length [] = 0
  length (_ ∷ xs) = suc (length xs)

  abbrev pub take : ℕ → List A → List A
  take zero _ = []
  take (suc _) [] = []
  take (suc n) (x ∷ xs) = x ∷ take n xs

  -- `[x for x in xs if keep(x)]`, or a `WHERE` clause.
  abbrev pub select : (A → Bool) → List A → List A
  select keep [] = []
  select keep (x ∷ xs) = let rest = select keep xs in if keep x then x ∷ rest else rest

  -- A predicate of every element.
  abbrev pub All {κ} : (A → Type κ) → List A → Type κ
  All P [] = Unit
  All P (x ∷ xs) = P x × All P xs

  pub length-append : (xs ys : List A) → length (xs ++ ys) ≡ length xs + length ys
  length-append [] ys = omega arith
  length-append (_ ∷ xs) ys = omega (arith, length-append xs ys)

  pub select-append :
      (keep : A → Bool) (xs ys : List A) → select keep (xs ++ ys) ≡ select keep xs ++ select keep ys
  select-append keep [] ys = refl
  select-append keep (x ∷ xs) ys = ground (arith, select-append keep xs ys)

-- The greatest element, 0 of no elements: `max(used) if used else 0`.
abbrev pub maximum : List ℕ → ℕ
maximum [] = 0
maximum (n ∷ ns) = max n (maximum ns)

-- `ORDER BY key`: insertion after the rows whose key is not greater.
module _ {ℓ} {A : Type ℓ} (key : A → ℕ) where
  abbrev pub insert_by : A → List A → List A
  insert_by x [] = x ∷ []
  insert_by x (y ∷ ys) = if ltb (key x) (key y) then x ∷ y ∷ ys else y ∷ insert_by x ys

  abbrev pub sort_onto : List A → List A → List A
  sort_onto sorted [] = sorted
  sort_onto sorted (x ∷ xs) = sort_onto (insert_by x sorted) xs

  abbrev pub sort_by : List A → List A
  sort_by xs = sort_onto [] xs

-- The numbers from 1 to n
abbrev pub count_up : ℕ → List ℕ
count_up zero = []
count_up (suc n) = count_up n ++ suc n ∷ []

pub maximum-append : (xs ys : List ℕ) → maximum (xs ++ ys) ≡ max (maximum xs) (maximum ys)
maximum-append [] ys = omega arith
maximum-append (x ∷ xs) ys = omega (arith, maximum-append xs ys)

pub maximum-count_up : (n : ℕ) → maximum (count_up n) ≡ n
maximum-count_up zero = refl
maximum-count_up (suc n) =
    omega (arith, maximum-append (count_up n) (suc n ∷ []), maximum-count_up n)

pub length-count_up : (n : ℕ) → length (count_up n) ≡ n
length-count_up zero = refl
length-count_up (suc n) = omega (arith, length-append (count_up n) (suc n ∷ []), length-count_up n)

-- Numbering by the greatest so far plus one counts up.
pub count_up_next :
    (ns : List ℕ)
    → ns ≡ count_up (length ns)
    → ns ++ (maximum ns + 1) ∷ [] ≡ count_up (length (ns ++ (maximum ns + 1) ∷ []))
count_up_next ns h =
    let next : maximum ns + 1 ≡ suc (length ns) =
      omega (arith, ap maximum h, maximum-count_up (length ns)) in
    let longer : length (ns ++ (maximum ns + 1) ∷ []) ≡ suc (length ns) =
      omega (arith, length-append ns ((maximum ns + 1) ∷ [])) in
    rw longer (λ i. h i ++ next i ∷ [])
