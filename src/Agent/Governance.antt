-- ===== src/Agent/Governance.antt =====
-- What an agent can do with no approval. A predicate on everything outside the agent's tables stands for
-- any effect: it is assumed to survive the model's calls and the functions of READ tools alone.
use enterprise_agentops.Base.{
  ◌≡◌, refl, String, Bool, true, false, Option, none, some, List, All, inl, inr, Bool-cases,
}
use enterprise_agentops.Base.Table.{find, All-find}
use enterprise_agentops.Values.{Fields}
use enterprise_agentops.Protocol.{ModelMessage, ToolDefinition}
use enterprise_agentops.Exec.Triple.{Keeps, keeps_rules, Keeps-raise}
use enterprise_agentops.Storage.{Approval, Storage}
use enterprise_agentops.ApprovalStore
use enterprise_agentops.ToolRegistry.{
  Tool, tool_name, ExecutionContext, is_read, call_function, execute_tool, execute_found, execute,
}
use enterprise_agentops.Agent.Service.{AgentService}
use enterprise_agentops.Agent.Recording.{ask_model}
use enterprise_agentops.Agent.Entry.{run, request_action, resolve_approval}
use enterprise_agentops.Agent.Invariants.Rules.{StoresKeep, CallsKeep}
use enterprise_agentops.Agent.Invariants.Tables.{TablesKeep, TablesKeep-StoresKeep, resolve-Keeps}
use enterprise_agentops.Agent.Invariants.Entry.{
  run-Keeps, request_action-Keeps, resolve_approval-Keeps,
}

module _ {Outside : Type 0} where
  -- The function of the tool keeps `Q` at these arguments, whatever the context.
  abbrev pub FunctionKeeps : (Outside → Type 0) → Fields → Tool Outside → Type 0
  FunctionKeeps Q arguments tool =
      (c : Option ExecutionContext) (o : Outside) → Q o → Q (tool.function arguments c o).1

  -- The model's calls and the functions of the READ tools keep `Q`.
  pub record ReadsKeep (agent : AgentService Outside) (Q : Outside → Type 0) : Type 0 where
    pub model :
        (c : List ModelMessage) (d : List ToolDefinition) (o : Outside)
        → Q o
        → Q (agent.generate_with_tools c d o).1
    pub reads :
        All
          (λ (t : Tool Outside). is_read t.risk ≡ true → (a : Fields) → FunctionKeeps Q a t)
          agent.tools

pub outside-TablesKeep :
    {Outside : Type 0} (Q : Outside → Type 0) → TablesKeep {Outside = Outside} (λ s. Q s.outside)
outside-TablesKeep Q = record {
  logs = record {
    counters = λ s a b c h. h;
    add_step = λ s r e h. h;
    add_event = λ s r e h. h;
    add_model_execution = λ s r h. h;
    add_tool_execution = λ s r h. h;
  };
  add_run = λ s r h. h;
  write_run = λ s k f e h. h;
  add_approval = λ s r e h. h;
}

module _ {Outside : Type 0} (Q : Outside → Type 0) where
  call_function-Keeps :
      (t : Tool Outside) (a : Fields) (c : Option ExecutionContext)
      → FunctionKeeps Q a t
      → Keeps (λ s. Q s.outside) (call_function t a c)
  unfolding call_function
  call_function-Keeps t a c h = record { at = λ s q. h c s.outside q }

  execute_tool-Keeps :
      (n : String) (t : Tool Outside) (a : Fields) (b : Bool) (c : Option ExecutionContext)
      → FunctionKeeps Q a t
      → Keeps (λ s. Q s.outside) (execute_tool n t a b c)
  unfolding execute_tool
  execute_tool-Keeps n t a b c h =
      let called : (x : Option ExecutionContext) → Keeps (λ s. Q s.outside) (call_function t a x) =
        λ x. call_function-Keeps t a x h in
      search (keeps_rules, called)

  -- A tool that is not READ is refused before its function is called.
  unapproved-Keeps :
      (n : String) (t : Tool Outside) (a : Fields) (c : Option ExecutionContext)
      → (is_read t.risk ≡ true → (x : Fields) → FunctionKeeps Q x t)
      → Keeps (λ s. Q s.outside) (execute_tool n t a false c)
  unapproved-Keeps n t a c h = elim (Bool-cases (is_read t.risk)) [
    | inl e ↦ execute_tool-Keeps n t a false c (h e a)
    | inr e ↦ unfold execute_tool in rw e (Keeps-raise _)
  ]

  abbrev OfReads : List (Tool Outside) → Type 0
  OfReads = All (λ t. is_read t.risk ≡ true → (x : Fields) → FunctionKeeps Q x t)

  find-reads :
      (n : String) (ts : List (Tool Outside)) (t : Tool Outside)
      → OfReads ts
      → find tool_name n ts ≡ some t
      → is_read t.risk ≡ true
      → (x : Fields) → FunctionKeeps Q x t
  find-reads n ts t h e = All-find tool_name _ n ts t h e

  execute_found-Keeps :
      (n : String) (o : Option (Tool Outside)) (a : Fields) (b : Bool) (c : Option ExecutionContext)
      → ((t : Tool Outside) → o ≡ some t → Keeps (λ s. Q s.outside) (execute_tool n t a b c))
      → Keeps (λ s. Q s.outside) (execute_found n o a b c)
  unfolding execute_found
  execute_found-Keeps n none a b c h = Keeps-raise _
  execute_found-Keeps n (some t) a b c h = h t refl

module _ {Outside : Type 0} (agent : AgentService Outside) (Q : Outside → Type 0)
    (keep : ReadsKeep agent Q) where
  pub calls-ReadsKeep : CallsKeep agent (λ s. Q s.outside)
  unfolding ask_model execute
  calls-ReadsKeep = record {
    ask_model = λ c. record { at = λ s q. keep.model c _ s.outside q };
    execute = λ n a c.
        execute_found-Keeps Q n _ a false c
          (λ t e. unapproved-Keeps Q n t a c (find-reads Q n agent.tools t keep.reads e));
  }

  stores : StoresKeep agent (λ s. Q s.outside)
  stores = TablesKeep-StoresKeep agent (outside-TablesKeep Q)

  -- Any predicate on what lies outside the agent's tables that the model's calls and the functions of READ tools
  -- keep still holds after a run, whatever the message and however the run ends. Nothing is assumed of the
  -- functions of WRITE and DANGEROUS tools.
  pub run_governed :
      (u : Option String) (m : String) (s : Storage Outside)
      → Q s.outside
      → Q (run agent u m s).1.outside
  run_governed u m s q = (run-Keeps agent stores calls-ReadsKeep u m).at s q

  -- Any such predicate still holds after a request for one action, whatever the action and however it ends.
  -- Nothing is assumed of the functions of WRITE and DANGEROUS tools.
  pub request_action_governed :
      (u : Option String) (t : String) (a : Fields) (m : String) (s : Storage Outside)
      → Q s.outside
      → Q (request_action agent u t a m s).1.outside
  request_action_governed u t a m s q =
      (request_action-Keeps agent stores calls-ReadsKeep u t a m).at s q

  -- Any such predicate that the function of the approval's own tool at the approval's own arguments keeps too still
  -- holds after a decision on the approval, however it ends. Nothing is assumed of the other WRITE and
  -- DANGEROUS tools, nor of that tool at other arguments.
  pub resolve_approval_governed :
      (u : Option String) (id : String) (b : Bool) (s : Storage Outside)
      → ((row : Approval) (t : Tool Outside)
          → find ApprovalStore.key id s.approvals ≡ some row
          → find tool_name row.tool agent.tools ≡ some t
          → FunctionKeeps Q row.arguments t)
      → Q s.outside
      → Q (resolve_approval agent u id b s).1.outside
  unfolding execute
  resolve_approval_governed u id b s own q =
      resolve_approval-Keeps agent stores calls-ReadsKeep u id
        (λ c. resolve-Keeps agent (outside-TablesKeep Q) id (λ t f e h. h) c u) b s
        (λ row e c.
          execute_found-Keeps Q row.tool _ row.arguments true c
            (λ t f. execute_tool-Keeps Q row.tool t row.arguments true c (own row t e f)))
        q
