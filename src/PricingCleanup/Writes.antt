-- ===== src/PricingCleanup/Writes.antt =====
-- The writes of app/pricing_cleanup.py, by what they do to one row of the table.
use mathlib.Core.Path.{subst}
use enterprise_agentops.Base.{
  ◌≡◌, refl, String, str_eq, Bool, true, false, Option, none, some, Bool-cases, inl, inr, eq_iff,
}
use enterprise_agentops.Base.Table.{find-update_self, find-update_ne}
use enterprise_agentops.PricingCleanup.Record.{Cleanup, cleanup_key}
use enterprise_agentops.PricingCleanup.Store.{World, row_of, write, set_found, compare_and_set}

module _ {κ} {Outside : Type 0} (id j : String) (f : Cleanup → Cleanup) (w : World Outside)
    (keeps : (r : Cleanup) → (f r).id ≡ r.id) where
  -- A write changes the row that has its key.
  pub write-elim :
      (P : World Outside → Type κ) (r : Cleanup)
      → row_of j w ≡ some r
      → (str_eq j id ≡ false → row_of id (write j f w) ≡ row_of id w → P (write j f w))
      → (str_eq j id ≡ true
          → row_of id w ≡ some r
          → row_of id (write j f w) ≡ some (f r)
          → P (write j f w))
      → P (write j f w)
  write-elim P r found other own = elim (Bool-cases (str_eq j id)) [
    | inl e ↦
        let same : j ≡ id = (eq_iff j id).0 e in
        own e (subst (λ x. row_of x w ≡ some r) same found) (
          subst (λ x. row_of x (write j f w) ≡ some (f r)) same
            (find-update_self cleanup_key j f w.rows r (keeps r) found))
    | inr e ↦ other e (find-update_ne cleanup_key id j f w.rows keeps e)
  ]

  set_found-elim :
      (m : Cleanup → Bool) (P : Bool × World Outside → Type κ) (o : Option Cleanup)
      → row_of j w ≡ o
      → P (false, w)
      → (str_eq j id ≡ false → row_of id (write j f w) ≡ row_of id w → P (true, write j f w))
      → ((r : Cleanup)
          → str_eq j id ≡ true
          → m r ≡ true
          → row_of id w ≡ some r
          → row_of id (write j f w) ≡ some (f r)
          → P (true, write j f w))
      → P (set_found j m f w o)
  set_found-elim m P none at missed other own = missed
  set_found-elim m P (some r) at missed other own = elim (Bool-cases (m r)) [
    | inl e ↦ rw e (write-elim (λ x. P (true, x)) r at other (λ s. own r s e))
    | inr e ↦ rw e missed
  ]

  -- A compare and set misses, changes another row, or changes the row where it matches.
  pub compare_and_set-elim :
      (m : Cleanup → Bool) (P : Bool × World Outside → Type κ)
      → P (false, w)
      → (str_eq j id ≡ false → row_of id (write j f w) ≡ row_of id w → P (true, write j f w))
      → ((r : Cleanup)
          → str_eq j id ≡ true
          → m r ≡ true
          → row_of id w ≡ some r
          → row_of id (write j f w) ≡ some (f r)
          → P (true, write j f w))
      → P (compare_and_set j m f w)
  unfolding compare_and_set
  compare_and_set-elim m P = set_found-elim m P (row_of j w) refl
