-- ===== src/Protocol.antt =====
-- app/protocol.py: the provider-neutral types between the agent and a model.
pub mod RoundTrip
use enterprise_agentops.Base.{
  String, Bool, Option, none, some, List, [], ◌∷◌, ℕ, str_eq, if◌then◌else◌,
}
use enterprise_agentops.Values.{
  Value, Items, Fields, null, text, list, dict, nil, cons, end, field, get, of_option,
}
use enterprise_agentops.Exceptions.{Exception}
use enterprise_agentops.Results.{Result, ok, err, ◌>>=◌}

pub data MessageRole : Type 0 where
  user assistant tool : MessageRole

pub record ToolDefinition : Type 0 where
  pub name : String
  pub description : String
  pub parameters : Fields

pub record ToolCall : Type 0 where
  pub id : String
  pub name : String
  pub arguments : Fields
  pub argument_error : Option String

pub record ModelUsage : Type 0 where
  pub input_tokens : Option ℕ
  pub output_tokens : Option ℕ
  pub total_tokens : Option ℕ
  pub cached_input_tokens : Option ℕ
  pub reasoning_tokens : Option ℕ

pub record ModelResponse : Type 0 where
  -- `text`
  pub content : Option String
  pub tool_calls : List ToolCall
  pub usage : Option ModelUsage
  pub model_name : Option String
  pub provider_request_id : Option String

unfoldable pub first_tool_call : ModelResponse → Option ToolCall
first_tool_call r = elim r.tool_calls [ [] ↦ none | call ∷ _ ↦ some call ]

pub record ModelMessage : Type 0 where
  pub role : MessageRole
  pub content : Option String
  pub tool_calls : List ToolCall
  pub tool_call_id : Option String
  pub tool_name : Option String

abbrev pub user_message : String → ModelMessage
user_message content = record {
  role = user;
  content = some content;
  tool_calls = [];
  tool_call_id = none;
  tool_name = none;
}

abbrev pub assistant_message : Option String → List ToolCall → ModelMessage
assistant_message content tool_calls = record {
  role = assistant;
  content = content;
  tool_calls = tool_calls;
  tool_call_id = none;
  tool_name = none;
}

abbrev pub tool_result_message : String → String → String → ModelMessage
tool_result_message tool_call_id tool_name content = record {
  role = tool;
  content = some content;
  tool_calls = [];
  tool_call_id = some tool_call_id;
  tool_name = some tool_name;
}

-- `ToolDefinition.to_dict`
abbrev pub definition_to_dict : ToolDefinition → Value
definition_to_dict d = dict (
    field "name" (text d.name)
      (field "description" (text d.description) (field "parameters" (dict d.parameters) end)))

-- `ToolCall.to_dict`
unfoldable pub call_to_dict : ToolCall → Value
call_to_dict c = dict (
    field "id" (text c.id) (
      field "name" (text c.name) (
        field "arguments" (dict c.arguments)
          (field "argument_error" (of_option c.argument_error) end))))

abbrev pub role_value : MessageRole → String
role_value user = "user"
role_value assistant = "assistant"
role_value tool = "tool"

unfoldable pub calls_to_dicts : List ToolCall → Items
unfolding call_to_dict
calls_to_dicts [] = nil
calls_to_dicts (c ∷ cs) = cons (call_to_dict c) (calls_to_dicts cs)

-- `ModelMessage.to_dict`
unfoldable pub message_to_dict : ModelMessage → Value
message_to_dict m = dict (
    field "role" (text (role_value m.role)) (
      field "content" (of_option m.content) (
        field "tool_calls" (list (calls_to_dicts m.tool_calls)) (
          field "tool_call_id" (of_option m.tool_call_id)
            (field "tool_name" (of_option m.tool_name) end)))))

unfoldable pub serialise_conversation : List ModelMessage → Items
serialise_conversation [] = nil
serialise_conversation (m ∷ ms) = cons (message_to_dict m) (serialise_conversation ms)

-- The dicts are read at the types that the dataclasses declare. `to_dict` writes no others, and a
-- value of another type is a TypeError here.
abbrev bad_type : Exception
bad_type = Exception.type_error "TypeError" "unexpected type"

-- `data[key]` of a text
required_text : String → Fields → Result String
required_text key fs = elim (get key fs) [
  | none ↦ err (Exception.unexpected "KeyError" key)
  | some v ↦ elim v [ text s ↦ ok s | _ ↦ err bad_type ]
]

-- `data.get(key)` of a text
optional_text : String → Fields → Result (Option String)
optional_text key fs = elim (get key fs) [
  | none ↦ ok none
  | some v ↦ elim v [ text s ↦ ok (some s) | null ↦ ok none | _ ↦ err bad_type ]
]

-- `data.get("arguments") or {}`
dict_or_empty : String → Fields → Result Fields
dict_or_empty key fs = elim (get key fs) [
  | none ↦ ok end
  | some v ↦ elim v [ dict d ↦ ok d | null ↦ ok end | _ ↦ err bad_type ]
]

-- `data.get("tool_calls") or []`
list_or_empty : String → Fields → Result Items
list_or_empty key fs = elim (get key fs) [
  | none ↦ ok nil
  | some v ↦ elim v [ list xs ↦ ok xs | null ↦ ok nil | _ ↦ err bad_type ]
]

-- `ToolCall.from_dict`
call_from_fields : Fields → Result ToolCall
unfolding required_text optional_text dict_or_empty
call_from_fields fs = do
  id ← required_text "id" fs
  name ← required_text "name" fs
  arguments ← dict_or_empty "arguments" fs
  argument_error ← optional_text "argument_error" fs
  ok (record { id = id; name = name; arguments = arguments; argument_error = argument_error })

call_from_dict : Value → Result ToolCall
unfolding call_from_fields
call_from_dict (dict fs) = call_from_fields fs
call_from_dict _ = err bad_type

calls_from_dicts : Items → Result (List ToolCall)
calls_from_dicts nil = ok []
calls_from_dicts (cons v vs) = do c ← call_from_dict v; cs ← calls_from_dicts vs; ok (c ∷ cs)

-- `MessageRole(value)`
role_of : String → Result MessageRole
role_of s =
    if str_eq s "user"
    then ok user
    else if str_eq s "assistant"
    then ok assistant
    else if str_eq s "tool"
    then ok tool
    else err (Exception.value_error "ValueError" "not a valid MessageRole")

-- `ModelMessage.from_dict`
message_from_fields : Fields → Result ModelMessage
unfolding required_text optional_text list_or_empty role_of
message_from_fields fs = do
  role_text ← required_text "role" fs
  role ← role_of role_text
  content ← optional_text "content" fs
  entries ← list_or_empty "tool_calls" fs
  calls ← calls_from_dicts entries
  tool_call_id ← optional_text "tool_call_id" fs
  tool_name ← optional_text "tool_name" fs
  ok (record {
    role = role;
    content = content;
    tool_calls = calls;
    tool_call_id = tool_call_id;
    tool_name = tool_name;
  })

message_from_dict : Value → Result ModelMessage
unfolding message_from_fields
message_from_dict (dict fs) = message_from_fields fs
message_from_dict _ = err bad_type

unfoldable pub deserialise_conversation : Items → Result (List ModelMessage)
unfolding message_from_dict calls_from_dicts call_from_dict
deserialise_conversation nil = ok []
deserialise_conversation (cons v vs) = do
  m ← message_from_dict v
  ms ← deserialise_conversation vs
  ok (m ∷ ms)
