-- ===== src/Tests/Histories.antt =====
-- The theorems about sequences of requests, at a run, a decision and a sweep.
use enterprise_agentops.Base.{refl, true, none, some, List, [], ◌∷◌}
use enterprise_agentops.RunStore.{step_numbers}
use enterprise_agentops.Requests.{Request, serve}
use enterprise_agentops.Requests.History.{Continues, IsNumbered, serve-Continues, serve-IsNumbered}
use enterprise_agentops.Tests.Sample.{agent, empty}

abbrev requests : List Request
requests =
    Request.run (some "olga") "Investigate batch 43"
    ∷ Request.resolve_approval (some "ada") "u4" true
    ∷ Request.resolve_approval (some "olga") "u4" true
    ∷ Request.reconcile none
    ∷ []

empty-IsNumbered : IsNumbered empty
unfolding step_numbers
empty-IsNumbered = (λ _. refl, refl)

serve-Continues_example : Continues empty (serve agent 900 requests empty)
serve-Continues_example = serve-Continues agent 900 requests empty

serve-IsNumbered_example : IsNumbered (serve agent 900 requests empty)
serve-IsNumbered_example = serve-IsNumbered agent 900 requests empty empty-IsNumbered
