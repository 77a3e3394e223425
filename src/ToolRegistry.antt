-- ===== src/ToolRegistry.antt =====
-- app/tool_registry.py: the governed tools. A tool's function is code outside this module: it gets
-- the arguments, the execution context where the tool wants it, and everything outside the agent's
-- tables, and it returns or raises.
use enterprise_agentops.Base.{
  String, ◌<>◌, str_eq, Bool, true, false, not, ◌&&◌, Option, none, some, List, [], ◌∷◌, map,
  select, if◌then◌else◌,
}
use enterprise_agentops.Base.Table.{find}
use enterprise_agentops.Values.{Value, Fields, text, dict, end, field, get}
use enterprise_agentops.Protocol.{ToolDefinition}
use enterprise_agentops.Exceptions.{Exception, ToolRisk, read, write, dangerous}
use enterprise_agentops.Results.{Result}
use enterprise_agentops.Exec.{Exec, raise}
use enterprise_agentops.Storage.{Storage}

-- `ToolRisk.value`
unfoldable pub risk_value : ToolRisk → String
risk_value read = "READ"
risk_value write = "WRITE"
risk_value dangerous = "DANGEROUS"

abbrev pub is_read : ToolRisk → Bool
is_read read = true
is_read _ = false

pub record ExecutionContext : Type 0 where
  pub run_id : Option String
  pub approval_id : Option String

pub record Tool (Outside : Type 0) : Type 0 where
  pub name : String
  pub description : String
  pub function : Fields → Option ExecutionContext → Outside → Result Value × Outside
  pub parameters : Fields
  pub risk : ToolRisk
  pub model_callable : Bool
  pub wants_context : Bool

abbrev pub context_argument : String
context_argument = "context"

abbrev pub unknown_tool : String → Exception
unknown_tool name = Exception.value_error "ValueError" ("Unknown tool: " <> name)

abbrev pub context_supplied : Exception
context_supplied =
    Exception.value_error "ValueError"
      "'context' is execution context and cannot be supplied as a tool argument"

-- `context or ExecutionContext()`
abbrev or_empty : Option ExecutionContext → ExecutionContext
or_empty none = record { run_id = none; approval_id = none }
or_empty (some c) = c

abbrev pub has_context_argument : Fields → Bool
has_context_argument arguments = elim (get context_argument arguments) [
  | none ↦ false
  | some _ ↦ true
]

module _ {Outside : Type 0} where
  abbrev pub tool_name : Tool Outside → String
  tool_name t = t.name

  -- `register`: a dict keeps the place of a name that it has.
  unfoldable pub register : Tool Outside → List (Tool Outside) → List (Tool Outside)
  register tool [] = tool ∷ []
  register tool (t ∷ ts) = if str_eq t.name tool.name then tool ∷ ts else t ∷ register tool ts

  -- `tool.function(**arguments)`, with the context beside the arguments
  unfoldable pub call_function :
      Tool Outside → Fields → Option ExecutionContext → Exec (Storage Outside) Value
  call_function tool arguments context s =
      let (r, outside) = tool.function arguments context s.outside in
      (r, record s { outside = outside })

  -- `execute`, from where the tool is found
  unfoldable pub execute_tool :
      String → Tool Outside → Fields → Bool → Option ExecutionContext → Exec (Storage Outside) Value
  execute_tool name tool arguments approved context =
      if not (is_read tool.risk) && not approved
      then raise (Exception.approval_required name arguments tool.risk)
      else if not tool.wants_context
      then call_function tool arguments none
      else if has_context_argument arguments
      then raise context_supplied
      else call_function tool arguments (some (or_empty context))

  unfoldable pub execute_found :
      String
      → Option (Tool Outside)
      → Fields
      → Bool
      → Option ExecutionContext
      → Exec (Storage Outside) Value
  execute_found name none arguments approved context = raise (unknown_tool name)
  execute_found name (some tool) arguments approved context =
      execute_tool name tool arguments approved context

  unfoldable pub execute :
      List (Tool Outside)
      → String
      → Fields
      → Bool
      → Option ExecutionContext
      → Exec (Storage Outside) Value
  unfolding execute_found
  execute tools name arguments approved context =
      execute_found name (find tool_name name tools) arguments approved context

  abbrev definition : Tool Outside → ToolDefinition
  definition t = record { name = t.name; description = t.description; parameters = t.parameters }

  -- `definitions`: what the model is told of
  unfoldable pub definitions : List (Tool Outside) → List ToolDefinition
  definitions tools = map definition (select (λ (t : Tool Outside). t.model_callable) tools)

  describe_tool : Tool Outside → Value
  describe_tool t = dict (
      field "name" (text t.name) (
        field "description" (text t.description)
          (field "risk" (text (risk_value t.risk)) (field "parameters" (dict t.parameters) end))))

  -- `describe`: what the console is told of
  abbrev pub describe : List (Tool Outside) → List Value
  unfolding describe_tool
  describe tools = map describe_tool tools
