-- ===== src/Tests/Sweeps.antt =====
-- The theorem about the sweep, at a run that a crash left RUNNING and one that is still at work.
use enterprise_agentops.Base.{ℕ, ◌≡◌, refl, String, true, false, none, [], ◌∷◌}
use enterprise_agentops.Values.{nil}
use enterprise_agentops.Storage.{Run, Storage, running}
use enterprise_agentops.RunStore.{stale}
use enterprise_agentops.Reconciliation.{cutoff}
use enterprise_agentops.Tests.Sample.{empty}

abbrev at_work : String → ℕ → Run
at_work id updated_at = record {
  run_id = id;
  status = running;
  requested_by_user_id = none;
  user_message = "Investigate batch 43";
  final_answer = none;
  conversation = nil;
  created_at = 0;
  updated_at = updated_at;
}

abbrev crashed : Storage ℕ
crashed = record empty { runs = at_work "r1" 1999000000 ∷ at_work "r2" 5 ∷ [] }

old_is_stale : stale (cutoff 900 2000000000) (at_work "r2" 5) ≡ true
unfolding stale cutoff
old_is_stale = refl

recent_is_not : stale (cutoff 900 2000000000) (at_work "r1" 1999000000) ≡ false
unfolding stale cutoff
recent_is_not = refl
