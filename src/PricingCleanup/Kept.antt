-- ===== src/PricingCleanup/Kept.antt =====
-- What the passes hold of a row, in the world: a compare and set of a pass keeps it sound.
use mathlib.Core.Path.{subst}
use enterprise_agentops.Base.{ℕ, ◌≡◌, sym, String, str_eq, Bool, true, false, Option, some}
use enterprise_agentops.PricingCleanup.Record.{Cleanup}
use enterprise_agentops.PricingCleanup.Store.{World, row_of, write, compare_and_set}
use enterprise_agentops.PricingCleanup.Permits.{Permit}
use enterprise_agentops.PricingCleanup.System.{set_at, sent_count}
use enterprise_agentops.PricingCleanup.View.{View, Sound}
use enterprise_agentops.PricingCleanup.Writes.{compare_and_set-elim}
use enterprise_agentops.PricingCleanup.Surroundings.{holds_no_more}

abbrev pub view_of : {Outside : Type 0} → String → World Outside → (ℕ → ℕ) → Option ℕ → View
view_of id w by owner = record {
  row = row_of id w;
  count = sent_count id w;
  uuids = w.storage.uuids;
  by = by;
  owner = owner;
}

module _ {Outside : Type 0} (uuid4 : ℕ → String) (id : String) where
  -- For some account of who drew which token, and of who crossed the fence last
  abbrev pub Kept : World Outside → (ℕ → Permit) → Type 0
  Kept w permits = (by : ℕ → ℕ) × (owner : Option ℕ) × Sound uuid4 (view_of id w by owner) permits

  -- What an account of the world makes of a row that is now another
  abbrev pub Becomes : World Outside → (ℕ → ℕ) → (ℕ → Permit) → Option Cleanup → Type 0
  Becomes w by permits row =
      (o : Option ℕ) × Sound uuid4 (record (view_of id w by o) { row = row }) permits

  -- A compare and set of a pass, by what it gets where it matches
  pub set_by :
      (w : World Outside) (by : ℕ → ℕ) (owner : Option ℕ) (permits : ℕ → Permit) (i : ℕ)
      (j : String) (m : Cleanup → Bool) (f : Cleanup → Cleanup) (own : Permit)
      (next : Bool → Permit)
      → Sound uuid4 (view_of id w by owner) permits
      → ((r : Cleanup) → (f r).id ≡ r.id)
      → next false ≡ Permit.free
      → (str_eq j id ≡ false → next true ≡ Permit.free)
      → (str_eq j id ≡ true → next true ≡ own)
      → ((r : Cleanup)
          → str_eq j id ≡ true
          → m r ≡ true
          → row_of id w ≡ some r
          → Becomes w by (set_at i own permits) (some (f r)))
      → Kept (compare_and_set j m f w).1 (set_at i (next (compare_and_set j m f w).0) permits)
  set_by w by owner permits i j m f own next sound keeps missed other hit effect =
      compare_and_set-elim id j f w keeps m (λ res. Kept res.1 (set_at i (next res.0) permits))
        (
          by,
          owner,
          subst (λ q. Sound uuid4 (view_of id w by owner) (set_at i q permits)) (sym missed)
              (holds_no_more uuid4 (view_of id w by owner) permits sound i),
        )
        (λ e same. (
          by,
          owner,
          subst (λ q. Sound uuid4 (view_of id (write j f w) by owner) (set_at i q permits))
              (sym (other e))
              (subst
                (λ x.
                  Sound uuid4 (record (view_of id w by owner) { row = x })
                    (set_at i Permit.free permits))
                (sym same) (holds_no_more uuid4 (view_of id w by owner) permits sound i)),
        ))
        (λ r e h at row.
          let (o, s) = effect r e h at in
          (
            by,
            o,
            subst (λ q. Sound uuid4 (view_of id (write j f w) by o) (set_at i q permits))
                (sym (hit e))
                (subst
                  (λ x. Sound uuid4 (record (view_of id w by o) { row = x }) (set_at i own permits))
                  (sym row) s),
          ))
