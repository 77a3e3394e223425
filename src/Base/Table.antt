-- ===== src/Base/Table.antt =====
-- A database table whose rows have a text key, in the order of insertion.
use Prim.Native.String.{String}
use mathlib.Core.Path.{◌≡◌, refl, subst}
use mathlib.Core.Logic.{inl, inr}
use mathlib.Core.Bool.{false}
use mathlib.Core.Option.{Option, none, some, some-injective}
use mathlib.Core.List.{List, [], ◌∷◌, ◌++◌, map}
use native.Mathlib.Omega.{arith}
use text.Mathlib.TextEquality.{eq_iff}
use enterprise_agentops.Base.Tests.{str_eq, if◌then◌else◌, Bool-cases}
use enterprise_agentops.Base.Lists.{All}

module _ {ℓ} {A : Type ℓ} (key : A → String) where
  -- `session.get(Row, k)`
  unfoldable pub find : String → List A → Option A
  find k [] = none
  find k (r ∷ rs) = if str_eq (key r) k then some r else find k rs

  -- The row with the key is changed and written back; nothing is written where there is none.
  unfoldable pub update : String → (A → A) → List A → List A
  update k f [] = []
  update k f (r ∷ rs) = if str_eq (key r) k then f r ∷ rs else r ∷ update k f rs

  pub find-append :
      (k : String) (rs ss : List A) (r : A) → find k rs ≡ some r → find k (rs ++ ss) ≡ some r
  unfolding find
  find-append k [] ss r h = cc
  find-append k (x ∷ rs) ss r h = ground (arith, find-append k rs ss r)

  pub find-append_none :
      (k : String) (rs ss : List A) → find k rs ≡ none → find k (rs ++ ss) ≡ find k ss
  unfolding find
  find-append_none k [] ss h = refl
  find-append_none k (r ∷ rs) ss h = ground (arith, find-append_none k rs ss)

  -- After a row is added, a row with its key is found.
  pub find-append_self :
      (k : String) (rs : List A) (r : A) → key r ≡ k → (x : A) × (find k (rs ++ r ∷ []) ≡ some x)
  unfolding find
  find-append_self k [] r e = (r, ground (arith, eq_iff (key r) k, e))
  find-append_self k (x ∷ rs) r e = elim (Bool-cases (str_eq (key x) k)) [
    | inl p ↦ (x, rw p refl)
    | inr p ↦ rw p (find-append_self k rs r e)
  ]

  -- A row that is found has the key.
  pub key-find : (k : String) (rs : List A) (r : A) → find k rs ≡ some r → key r ≡ k
  unfolding find
  key-find k [] r h = cc
  key-find k (x ∷ rs) r h = ground (arith, key-find k rs r, eq_iff (key x) k)

  -- An update that keeps the keys is seen at its own key, and nowhere else.
  pub find-update_self :
      (k : String) (f : A → A) (rs : List A) (r : A)
      → key (f r) ≡ key r
      → find k rs ≡ some r
      → find k (update k f rs) ≡ some (f r)
  unfolding find update
  find-update_self k f [] r e h = cc
  find-update_self k f (x ∷ rs) r e h =
      ground (arith, find-update_self k f rs r e, eq_iff (key x) k, eq_iff (key (f x)) k)

  pub find-update_ne :
      (j k : String) (f : A → A) (rs : List A)
      → ((r : A) → key (f r) ≡ key r)
      → str_eq k j ≡ false
      → find j (update k f rs) ≡ find j rs
  unfolding find update
  find-update_ne j k f [] e h = refl
  find-update_ne j k f (r ∷ rs) e h =
      ground (arith, find-update_ne j k f rs e, e r, eq_iff (key r) k, eq_iff (key r) j, eq_iff k j)

  -- An update that keeps the keys keeps the list of keys.
  pub map-update :
      (k : String) (f : A → A) (rs : List A)
      → ((r : A) → key (f r) ≡ key r)
      → map key (update k f rs) ≡ map key rs
  unfolding update
  map-update k f [] e = refl
  map-update k f (r ∷ rs) e = ground (arith, map-update k f rs e, e r)

  -- What all rows have, a row that is found has.
  pub All-find {κ} :
      (P : A → Type κ) (k : String) (rs : List A) (r : A) → All P rs → find k rs ≡ some r → P r
  unfolding find
  All-find P k [] r h e = cc
  All-find P k (x ∷ rs) r h e = elim (Bool-cases (str_eq (key x) k)) [
    | inl p ↦ subst P (some-injective _ _ (rw p at e)) h.0
    | inr p ↦ All-find P k rs r h.1 (rw p at e)
  ]
