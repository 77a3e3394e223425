-- ===== src/PricingCleanup/System.antt =====
-- Passes of app/pricing_cleanup_runner.py in any number of processes, on one table. A pass may stop for good between
-- any two of its actions, and everything else may happen there: other passes, new overrides, manual resolutions, and
-- any change outside.
use enterprise_agentops.Base.{
  ℕ, ◌≤◌, ◌≡◌, String, str_eq, true, Option, some, List, [], length, select, ◌==◌, if◌then◌else◌,
}
use enterprise_agentops.Values.{Value}
use enterprise_agentops.Storage.{Storage}
use enterprise_agentops.Storage.Host.{Host}
use enterprise_agentops.PricingCleanup.Record.{CleanupState, is_terminal, Cleanup}
use enterprise_agentops.PricingCleanup.Ownership.{Numbers}
use enterprise_agentops.PricingCleanup.Store.{
  World, row_of, record_intent, adopt, record_reason_sent, resolve_anyway, mark_active,
  record_manual_resolution,
}
use enterprise_agentops.PricingCleanup.Program.{
  Action, Reply, Program, return, perform, Provider, act,
}
use enterprise_agentops.PricingCleanup.Runner.{CleanupOutcome, run_once}

abbrev pub Pass : Type 0
Pass = Program (List CleanupOutcome)

-- The passes are numbered; one that does nothing has returned.
pub record System (Outside : Type 0) : Type 0 where
  pub world : World Outside
  pub passes : ℕ → Pass

abbrev pub set_at {ℓ} : {A : Type ℓ} → ℕ → A → (ℕ → A) → ℕ → A
set_at i a f j = if j == i then a else f j

-- How many DELETEs were sent for the row
abbrev pub sent_count : {Outside : Type 0} → String → World Outside → ℕ
sent_count id w = length (select (λ j. str_eq j id) w.sent)

module _ {Outside : Type 0} (host : Host) (provider : Provider Outside) (numbers : Numbers)
    (show : Option Value → String) where
  pub data Step (s u : System Outside) : Type 0 where
    acts :
        (i : ℕ) (x : Action) (k : Reply x → Pass)
        → s.passes i ≡ perform x k
        → u ≡ record {
          world = (act host provider x s.world).1;
          passes = set_at i (k (act host provider x s.world).0) s.passes;
        }
        → Step s u
    starts :
        (i : ℕ) (now : Option ℕ)
        → u ≡ record s { passes = set_at i (run_once numbers show now) s.passes }
        → Step s u
    stops : (i : ℕ) → u ≡ record s { passes = set_at i (return []) s.passes } → Step s u
    elsewhere :
        (storage : Storage Outside)
        → s.world.storage.uuids ≤ storage.uuids
        → u ≡ record s { world = record s.world { storage = storage } }
        → Step s u
    intends :
        (listing_id pms stay_date : String) (old_price : Option String)
        (new_price currency : String) (cleanup_at : ℕ) (approval_id run_id : Option String)
        → u ≡ record s {
          world =
              (record_intent host listing_id pms stay_date old_price new_price currency cleanup_at
                approval_id run_id s.world).1;
        }
        → Step s u
    adopts :
        (listing_id pms stay_date new_price currency : String) (cleanup_at : ℕ)
        (provider_created_at approval_id run_id : Option String) (resolution : String)
        → u ≡ record s {
          world =
              (adopt host listing_id pms stay_date new_price currency cleanup_at provider_created_at
                approval_id run_id resolution s.world).1;
        }
        → Step s u
    notes :
        (id reason : String)
        → u ≡ record s { world = (record_reason_sent id reason s.world).1 }
        → Step s u
    -- The write of an override confirms the row that it recorded, which is then still PENDING_WRITE.
    confirms :
        (id : String) (created : Option String) (reason : String) (updated : Option String)
        (r : Cleanup)
        → row_of id s.world ≡ some r
        → r.state ≡ CleanupState.pending_write
        → u ≡ record s { world = (mark_active host id created reason updated s.world).1 }
        → Step s u
    -- The write of an override settles its row where the write cannot be trusted: a `resolve` that compares no token.
    concludes :
        (id : String) (state : CleanupState) (text : String) (r : Cleanup)
        → row_of id s.world ≡ some r
        → is_terminal state ≡ true
        → u ≡ record s { world = resolve_anyway host id state text s.world }
        → Step s u
    resolves :
        (id text user : String)
        → u ≡ record s { world = (record_manual_resolution host id text user s.world).1 }
        → Step s u

  pub data Reach (s : System Outside) : System Outside → Type 0 where
    here : Reach s s
    next : {t u : System Outside} → Reach s t → Step t u → Reach s u
