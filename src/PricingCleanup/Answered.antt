-- ===== src/PricingCleanup/Answered.antt =====
-- What the removal of an override gives, where the calls of the provider are answered or unavailable.
use mathlib.Core.Path.{subst}
use enterprise_agentops.Base.{◌≡◌, refl, Bool, true, false, Option, none, some, ◌≢◌, List}
use enterprise_agentops.Results.{Answer}
use enterprise_agentops.Values.{Fields}
use enterprise_agentops.Storage.Host.{Host}
use enterprise_agentops.PricingCleanup.Record.{Cleanup}
use enterprise_agentops.PricingCleanup.Store.{World}
use enterprise_agentops.PricingCleanup.Program.{
  Program, return, raise, perform, ◌>>=◌, Provider, act, run,
}
use enterprise_agentops.PricingCleanup.WriteClient.{
  Removal, find_override, verify, read_back, override_for, send_removal, guarded, remove_override,
}

-- What follows a program that returned, or raised
abbrev pub resume :
    {Outside A B : Type 0}
    → Host
    → Provider Outside
    → (A → Program B)
    → Option A × World Outside
    → Option B × World Outside
resume host provider f (some a, w) = run host provider (f a) w
resume host provider f (none, w) = (none, w)

pub run-bind :
    {Outside A B : Type 0} (host : Host) (provider : Provider Outside) (m : Program A)
    (f : A → Program B) (w : World Outside)
    → run host provider (m >>= f) w ≡ resume host provider f (run host provider m w)
unfolding run ◌>>=◌
run-bind host provider (return a) f w = refl
run-bind host provider raise f w = refl
run-bind host provider (perform x k) f w =
    run-bind host provider (k (act host provider x w).0) f (act host provider x w).1

module _ {Outside : Type 0} (host : Host) (provider : Provider Outside) (row : Cleanup) where
  -- The provider's calls for the row raise nothing but PriceLabsUnavailable.
  pub record IsAnswered : Type 0 where
    pub reads : (o : Outside) → (provider.overrides row.listing_id row.pms o).0 ≢ Answer.raised
    pub removes :
        (body : Fields) (o : Outside) → (provider.delete row.listing_id body o).0 ≢ Answer.raised

  -- The program returns and leaves the table as `rows`.
  abbrev pub Removes : List Cleanup → Option Removal × World Outside → Type 0
  Removes rows end = (r : Removal) × (end.0 ≡ some r) × (end.1.rows ≡ rows)

  found-Removes :
      (rows : List Cleanup) (f : Option (Option Fields) → Program Removal) (v : World Outside)
      (r : Answer (List Fields))
      → r ≢ Answer.raised
      → ((o : Option (Option Fields)) → Removes rows (run host provider (f o) v))
      → Removes rows (run host provider (find_override row r >>= f) v)
  unfolding ◌>>=◌
  found-Removes rows f v (Answer.answered overrides) ne k = k _
  found-Removes rows f v Answer.refused ne k = k _
  found-Removes rows f v Answer.raised ne k = absurd (ne refl)

  module _ (answers : IsAnswered) where
    override_for-Removes :
        (f : Option (Option Fields) → Program Removal) (w : World Outside)
        → ((o : Option (Option Fields)) (v : World Outside)
            → v.rows ≡ w.rows
            → Removes w.rows (run host provider (f o) v))
        → Removes w.rows (run host provider (override_for row >>= f) w)
    unfolding run override_for ◌>>=◌
    override_for-Removes f w k =
        found-Removes w.rows f _ _ (answers.reads w.storage.outside) (λ o. k o _ refl)

    read_back-Removes :
        (r : Answer Bool) (w : World Outside)
        → r ≢ Answer.raised
        → Removes w.rows (run host provider (read_back row r) w)
    unfolding run
    read_back-Removes (Answer.answered b) w ne =
        override_for-Removes _ w (λ o v e. (verify b o, refl, e))
    read_back-Removes Answer.refused w ne =
        override_for-Removes _ w (λ o v e. (verify true o, refl, e))
    read_back-Removes Answer.raised w ne = absurd (ne refl)

    -- The removal of an override does not write the table.
    send_removal-Removes :
        (before : Option (Option Fields)) (w : World Outside)
        → Removes w.rows (run host provider (send_removal row before) w)
    unfolding run send_removal
    send_removal-Removes none w = (Removal.unavailable, refl, refl)
    send_removal-Removes (some before) w =
        read_back-Removes _ _ (answers.removes _ w.storage.outside)

    guarded-Removes :
        (b c : Bool) (w : World Outside) → Removes w.rows (run host provider (guarded row b c) w)
    unfolding run guarded
    guarded-Removes true true w = override_for-Removes _ w (λ o v e.
        subst (λ rows. Removes rows (run host provider (send_removal row o) v)) e
          (send_removal-Removes o v))
    guarded-Removes false true w = (_, refl, refl)
    guarded-Removes b false w = (_, refl, refl)

    pub remove_override-Removes :
        (b : Bool) (w : World Outside)
        → Removes w.rows (run host provider (remove_override row b) w)
    unfolding run remove_override
    remove_override-Removes b w = guarded-Removes b _ w
