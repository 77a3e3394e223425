-- ===== src/Tests/AgentRuns.antt =====
-- The theorems about runs and decisions, at the demo.
use enterprise_agentops.Base.{ℕ, ◌≤◌, ◌≡◌, refl, sym, true, false, none, some, List, [], ◌∷◌, arith}
use mathlib.Core.Path.{subst}
use mathlib.Core.Option.{some-injective}
use enterprise_agentops.ToolRegistry.{Tool, tool_name}
use enterprise_agentops.Base.Table.{find}
use enterprise_agentops.Protocol.{deserialise_conversation, serialise_conversation}
use enterprise_agentops.Protocol.RoundTrip.{deserialise_conversation-serialise_conversation}
use enterprise_agentops.Results.{ok, err}
use enterprise_agentops.Storage.{Storage, Approval, approved}
use enterprise_agentops.ApprovalStore
use enterprise_agentops.Agent.Entry.{request_action, resolve_approval, already_resolved}
use enterprise_agentops.Agent.Settlement.{IsSettled}
use enterprise_agentops.Agent.Governance.{
  ReadsKeep, FunctionKeeps, run_governed, request_action_governed, resolve_approval_governed,
}
use enterprise_agentops.Agent.Decisions.{decided, resolve_approval_recorded}
use enterprise_agentops.Requests.{Request, serve}
use enterprise_agentops.Requests.Decided.{resolve_approval_once}
use enterprise_agentops.Agent.Outcomes.{run_settles, request_action_settles}
use enterprise_agentops.Values.{is_json, is_json_fields}
use enterprise_agentops.Agent.Plain.{PlainCall}
use enterprise_agentops.Agent.SafeCalls.{IsReliable}
use enterprise_agentops.Agent.SafeLoop.{Plain}
use enterprise_agentops.Agent.Service.{Resolution}
use enterprise_agentops.Agent.DecisionCompletion.{Answers, resolve_approval_returns}
use enterprise_agentops.Agent.Completion.{run_returns, request_action_returns}
use enterprise_agentops.Base.{All, Bool-cases, inl, inr, ltb, length}
use enterprise_agentops.Agent.Service.{Outcome}
use enterprise_agentops.Tests.Sample.{
  reply, host, agent, restart_migration, empty, batch, parked_outcome, parked_approval,
  parked_conversation, direct_outcome,
}
use enterprise_agentops.Tests.Demo.{
  asked, read_directly, asked_returns, find-asked, IsReadable-asked, stored-asked,
  read_directly_returns,
}

-- No batch is restarted.
abbrev Untouched : ℕ → Type 0
Untouched o = o ≡ 0

Untouched-reads : ReadsKeep agent Untouched
Untouched-reads = record { model = λ c d o h. h; reads = (λ e a c o h. h, (λ e. cc, tt)) }

run_governed_example : asked.1.outside ≡ 0
run_governed_example =
    run_governed agent Untouched Untouched-reads (some "olga") "Investigate batch 43" empty refl

request_action_governed_example :
    (request_action agent
      (some "olga")
      "restart_migration"
      batch
      "Restart batch 43"
      empty).1.outside
    ≡ 0
request_action_governed_example =
    request_action_governed agent Untouched Untouched-reads (some "olga") "restart_migration" batch
      "Restart batch 43" empty refl

-- At most one restart is undone.
abbrev Restarted : ℕ → Type 0
Restarted o = 3 ≤ o

Restarted-reads : ReadsKeep agent Restarted
Restarted-reads = record { model = λ c d o h. h; reads = (λ e a c o h. h, (λ e. cc, tt)) }

-- The demo's storage, where three batches were restarted before.
abbrev busy : Storage ℕ
busy = record empty { approvals = parked_approval ∷ []; outside = 3 }

find-busy : find ApprovalStore.key "u4" busy.approvals ≡ some parked_approval
unfolding find
find-busy = refl

-- The tool of the approval is the restart, which adds one.
restart_keeps :
    (row : Approval) (t : Tool ℕ)
    → find ApprovalStore.key "u4" busy.approvals ≡ some row
    → find tool_name row.tool agent.tools ≡ some t
    → FunctionKeeps Restarted row.arguments t
unfolding find
restart_keeps row t e f =
    let found : some restart_migration ≡ some t =
      subst (λ r. find tool_name r.tool agent.tools ≡ some t) (sym (some-injective _ _ e)) f in
    subst (FunctionKeeps Restarted row.arguments) (some-injective _ _ found) (λ c o h. omega arith)

resolve_approval_governed_example :
    3 ≤ (resolve_approval agent (some "ada") "u4" true busy).1.outside
resolve_approval_governed_example =
    resolve_approval_governed agent Restarted Restarted-reads (some "ada") "u4" true busy
      restart_keeps (omega arith)

resolve_approval_recorded_example :
    find ApprovalStore.key "u4" (resolve_approval agent (some "ada") "u4" true asked.1).1.approvals
    ≡ some (decided (some "ada") true (host.now asked.1.clock_readings) parked_approval)
resolve_approval_recorded_example =
    resolve_approval_recorded agent (some "ada") "u4" true asked.1 parked_approval find-asked refl
      (λ _. IsReadable-asked)

abbrev meanwhile : List Request
meanwhile =
    Request.run (some "olga") "Investigate batch 44"
    ∷ Request.resolve_approval (some "ada") "u4" true
    ∷ Request.reconcile none
    ∷ []

resolve_approval_once_example :
    let s' = serve agent 900 meanwhile (resolve_approval agent (some "ada") "u4" true asked.1).1 in
    resolve_approval agent (some "olga") "u4" false s' ≡ (err (already_resolved "u4" approved), s')
resolve_approval_once_example =
    resolve_approval_once agent 900 (some "ada") (some "olga") "u4" true false meanwhile asked.1
      parked_approval find-asked refl (λ _. IsReadable-asked)

run_settles_example : IsSettled parked_outcome asked.1
run_settles_example =
    run_settles agent (some "olga") "Investigate batch 43" empty parked_outcome asked_returns

request_action_settles_example : IsSettled direct_outcome read_directly.1
request_action_settles_example =
    request_action_settles agent (some "olga") "get_migration" batch "Look at batch 43" empty
      direct_outcome read_directly_returns

reply_plain : (n : ℕ) → All PlainCall (reply n).tool_calls
unfolding is_json
reply_plain n = elim (Bool-cases (ltb n 2)) [
  | inl e ↦ rw e (refl, tt)
  | inr e ↦ rw e (elim (Bool-cases (ltb n 4)) [ inl f ↦ rw f (refl, tt) | inr f ↦ rw f tt ])
]

agent-IsReliable : IsReliable agent
unfolding is_json
agent-IsReliable = record {
  model = λ c d o. (reply (length c), refl, reply_plain (length c));
  tools = (λ a c o. refl, (λ a c o. refl, tt));
}

conversation-Plain : Plain parked_conversation
unfolding is_json
conversation-Plain = (tt, ((refl, tt), (tt, ((refl, tt), tt))))

run_returns_example : (o : Outcome) × (asked.0 ≡ ok o) × IsSettled o asked.1
run_returns_example = run_returns agent (some "olga") agent-IsReliable "Investigate batch 43" empty

batch_plain : is_json_fields batch ≡ true
unfolding is_json
batch_plain = refl

request_action_returns_example :
    (o : Outcome) × (read_directly.0 ≡ ok o) × IsSettled o read_directly.1
request_action_returns_example =
    request_action_returns agent (some "olga") agent-IsReliable "get_migration" batch
      "Look at batch 43" empty batch_plain

resolve_approval_returns_example :
    (o : Resolution) × ((resolve_approval agent (some "ada") "u4" true asked.1).0 ≡ ok o)
    × Answers "u4" true parked_approval o
resolve_approval_returns_example =
    resolve_approval_returns agent agent-IsReliable (some "ada") "u4" parked_approval batch_plain
      asked.1 find-asked stored-asked.0 parked_conversation stored-asked.1 stored-asked.2
      conversation-Plain true refl

deserialise_conversation-serialise_conversation_example :
    deserialise_conversation (serialise_conversation parked_conversation) ≡ ok parked_conversation
deserialise_conversation-serialise_conversation_example =
    deserialise_conversation-serialise_conversation parked_conversation
