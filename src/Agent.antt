-- ===== src/Agent.antt =====
-- app/agent.py: `AgentService`.
pub mod Service
pub mod Recording
pub mod Loop
pub mod Entry
pub mod Invariants
pub mod Governance
pub mod Decisions
pub mod Settlement
pub mod Outcomes
pub mod Plain
pub mod SafeWrites
pub mod SafeMethods
pub mod SafeCalls
pub mod SafeLoop
pub mod Completion
pub mod DecisionCompletion
