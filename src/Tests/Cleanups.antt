-- ===== src/Tests/Cleanups.antt =====
-- The theorems about the cleanups, at one override that has come due, over two passes.
use Prim.Native.String.{count}
use mathlib.Core.Path.{subst}
use mathlib.Core.Option.{some-injective}
use package.text.Mathlib.TextLemmas.{length-append}
use enterprise_agentops.Base.{
  ℕ, zero, suc, ◌+◌, ◌≤◌, ◌<◌, ◌≡◌, refl, sym, ap, ◌∙◌, String, ◌<>◌, str_eq, true, false, Option,
  none, some, List, ◌≢◌, [], ◌∷◌, length, ◌==◌, arith,
}
use enterprise_agentops.Results.{Answer}
use enterprise_agentops.Values.{Value, Fields, text, number, end, field, get}
use enterprise_agentops.Storage.Host.{Host}
use enterprise_agentops.PricingCleanup.Record.{CleanupState, Cleanup}
use enterprise_agentops.PricingCleanup.Ownership.{Numbers, check_ownership}
use enterprise_agentops.Base.Table.{find, update}
use enterprise_agentops.PricingCleanup.Store
use enterprise_agentops.PricingCleanup.Store.{World, row_of, due, compare_and_set, begin_delete}
use enterprise_agentops.PricingCleanup.Program.{return, raise, perform, ◌>>=◌, Provider, act, run}
use enterprise_agentops.PricingCleanup.WriteClient.{override_of}
use enterprise_agentops.PricingCleanup.Runner.{CleanupOutcome, process, run_once}
use enterprise_agentops.PricingCleanup.System.{
  Pass, System, set_at, sent_count, acts, starts, Reach, here, next,
}
use enterprise_agentops.PricingCleanup.View.{Crossed, Injective}
use enterprise_agentops.PricingCleanup.OneDelete.{Quiet, one_delete}
use enterprise_agentops.PricingCleanup.Console.{workload}
use enterprise_agentops.PricingCleanup.Answered.{IsAnswered}
use enterprise_agentops.PricingCleanup.Uninterrupted.{IsClaimed, IsDone, IsChecked, process-IsDone}
use enterprise_agentops.PricingCleanup.Proven.{Sends, deletes_proven}
use enterprise_agentops.PricingCleanup.Queue.{workload-due}
use enterprise_agentops.Tests.Sample
use enterprise_agentops.Tests.Sample.{empty}

-- Texts of different lengths
unfoldable marks : ℕ → String
marks zero = "u"
marks (suc n) = "u" <> marks n

counts : (n m : ℕ) → m ≡ 1 + n → 1 + m ≡ 1 + suc n
counts n m e = omega arith

count-marks : (n : ℕ) → count (marks n) ≡ 1 + n
unfolding marks
count-marks zero = refl
count-marks (suc n) = length-append "u" (marks n) ∙ counts n (count (marks n)) (count-marks n)

same_number : (m n : ℕ) → 1 + m ≡ 1 + n → m ≡ n
same_number m n e = omega arith

abbrev host : Host
host = record Sample.host { uuid4 = marks }

marks-Injective : Injective host.uuid4
marks-Injective m n e = same_number m n (sym (count-marks m) ∙ (ap count e ∙ count-marks n))

-- The override is there until it is removed.
abbrev override : Fields
override = field "date" (text "2026-09-10") (
    field "price" (number "246.0") (
      field "reason" (text "AGENTGUARD:m1: lower the night")
        (field "created_at" (text "T1") (field "updated_at" (text "T1") end))))

abbrev overrides_at : ℕ → List Fields
overrides_at zero = override ∷ []
overrides_at (suc n) = []

abbrev provider : Provider ℕ
provider = record {
  writes_enabled = λ o. true;
  bands_for = λ l o. some true;
  overrides = λ l pms o. (Answer.answered (overrides_at o), o);
  delete = λ l body o. (Answer.answered true, o + 1);
}

abbrev numbers : Numbers
numbers = record {
  float = λ v. elim v [ Value.number s ↦ Answer.answered s | _ ↦ Answer.refused ];
  same_round = λ s t. some (str_eq s t);
  whole = λ s. s;
  truth = λ v. true;
  equal = λ v w. false;
}

abbrev show : Option Value → String
show v = "246.0"

abbrev due_row : Cleanup
due_row = record {
  id = "m1";
  listing_id = "listing";
  pms = "lodgify";
  stay_date = "2026-09-10";
  old_price = some "260.0";
  new_price = "246.0";
  currency = "USD";
  marker = some "m1";
  reason_sent = some "AGENTGUARD:m1: lower the night";
  adopted = false;
  approval_id = none;
  run_id = none;
  created_at = 0;
  provider_created_at = some "T1";
  cleanup_at = 5;
  state = CleanupState.active;
  resolved_at = none;
  resolution = none;
  claim_token = none;
  claimed_at = none;
  lease_until = none;
  manual_resolution = none;
  resolved_by_user_id = none;
  manually_resolved_at = none;
}

abbrev before : World ℕ
before = record { rows = due_row ∷ []; sent = []; storage = empty }

-- One pass removes the override, and the next has nothing to do.
one_removed : length (run host provider (run_once numbers show (some 10)) before).1.sent ≡ 1
unfolding run run_once ◌>>=◌ Store.expired_claims due Store.claim compare_and_set find override_of
    get check_ownership begin_delete update marks Store.resolve
one_removed = refl

abbrev quiet_start : System ℕ
quiet_start = record { world = before; passes = λ i. return [] }

eq_self : (i : ℕ) → (i == i) ≡ true
eq_self i = ground arith

-- A pass that nothing interrupts is a sequence of steps.
run-Reach :
    (i : ℕ) (p : Pass) (s t : System ℕ)
    → Reach host provider numbers show s t
    → t.passes i ≡ p
    → (u : System ℕ) × (Reach host provider numbers show s u)
      × (u.world ≡ (run host provider p t.world).1)
unfolding run
run-Reach i (return a) s t reach e = (t, reach, refl)
run-Reach i raise s t reach e = (t, reach, refl)
run-Reach i (perform x k) s t reach e =
    run-Reach i (k (act host provider x t.world).0) s
      (record {
        world = (act host provider x t.world).1;
        passes = set_at i (k (act host provider x t.world).0) t.passes;
      })
      (next reach (acts i x k e refl)) (rw (eq_self i) refl)

-- A pass from its quiet_start to its end
pass :
    (i : ℕ) (now : Option ℕ) (s t : System ℕ)
    → Reach host provider numbers show s t
    → (u : System ℕ) × (Reach host provider numbers show s u)
      × (u.world ≡ (run host provider (run_once numbers show now) t.world).1)
pass i now s t reach =
    run-Reach i (run_once numbers show now) s
      (record t { passes = set_at i (run_once numbers show now) t.passes })
      (next reach (starts i now refl)) (rw (eq_self i) refl)

abbrev first : System ℕ
first = (pass 0 (some 10) quiet_start quiet_start here).0

abbrev second : System ℕ
second = (pass 1 none quiet_start first (pass 0 (some 10) quiet_start quiet_start here).1).0

start_is_Quiet : Quiet host provider numbers show "m1" marks-Injective quiet_start
unfolding find
start_is_Quiet = (λ i. refl, refl, λ e. cc)

one_delete_example :
    (sent_count "m1" second.world ≤ 1)
    × (0 < sent_count "m1" second.world → Crossed (row_of "m1" second.world))
one_delete_example =
    one_delete host provider numbers show "m1" marks-Injective quiet_start second start_is_Quiet
      (pass 1 none quiet_start first (pass 0 (some 10) quiet_start quiet_start here).1).1

workload-due_example : (workload 10 before).0.due_now ≡ length (due 10 before)
workload-due_example = workload-due 10 before

one_is_due : length (due 10 before) ≡ 1
unfolding due
one_is_due = refl

deletes_proven_example : Sends numbers [] (run_once numbers show (some 10))
deletes_proven_example = deletes_proven numbers show (some 10)

abbrev claimed_row : Cleanup
claimed_row = record due_row { state = CleanupState.claimed; claim_token = some "t1" }

abbrev claimed : World ℕ
claimed = record before { rows = claimed_row ∷ [] }

claimed-IsClaimed : IsClaimed host provider due_row "t1" claimed
unfolding find
claimed-IsClaimed = (claimed_row, refl, refl, refl)

always_answers : IsAnswered host provider due_row
always_answers = record { reads = λ o. λ e. cc; removes = λ body o. λ e. cc }

some-none : {A : Type 0} {a : A} → some a ≡ none → ⊥
some-none e = cc e

checks :
    (o : ℕ) (x : Fields)
    → override_of "2026-09-10" (overrides_at o) ≡ some x
    → check_ownership numbers due_row (some x) ≢ none
unfolding check_ownership override_of get
checks zero x e =
    subst (λ y. check_ownership numbers due_row (some y) ≢ none) (some-injective _ _ e)
      (λ h. some-none h)
checks (suc n) x e = λ h. some-none (sym e)

always_checks : IsChecked host provider due_row "t1" always_answers numbers
always_checks o rows x e f = checks o x (answered_with _ rows e f)
  where
    answered_with :
        (a b : List Fields)
        → Answer.answered a ≡ Answer.answered b
        → override_of "2026-09-10" b ≡ some x
        → override_of "2026-09-10" a ≡ some x
    answered_with a b e f = cc

process-IsDone_example :
    (o : CleanupOutcome) × ((run host provider (process numbers due_row "t1") claimed).0 ≡ some o)
    × IsDone host provider due_row "t1" o
        (run host provider (process numbers due_row "t1") claimed).1
process-IsDone_example =
    process-IsDone host provider due_row "t1" always_answers numbers always_checks claimed
      claimed-IsClaimed
