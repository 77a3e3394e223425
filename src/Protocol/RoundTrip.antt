-- ===== src/Protocol/RoundTrip.antt =====
-- What is read back from a stored conversation is the conversation that was stored.
use enterprise_agentops.Base.{◌≡◌, refl, List, [], ◌∷◌, arith}
use enterprise_agentops.Values.{get}
use enterprise_agentops.Results.{ok}
use enterprise_agentops.Protocol.{
  MessageRole, user, assistant, tool, ToolCall, ModelMessage, call_to_dict, calls_to_dicts,
  role_value, message_to_dict, serialise_conversation, call_from_dict, calls_from_dicts, role_of,
  message_from_dict, deserialise_conversation,
}

call_from_dict-call_to_dict : (c : ToolCall) → call_from_dict (call_to_dict c) ≡ ok c
unfolding call_from_dict call_to_dict get
call_from_dict-call_to_dict c = ground arith

calls_from_dicts-calls_to_dicts :
    (cs : List ToolCall) → calls_from_dicts (calls_to_dicts cs) ≡ ok cs
unfolding calls_from_dicts calls_to_dicts
calls_from_dicts-calls_to_dicts [] = refl
calls_from_dicts-calls_to_dicts (c ∷ cs) =
    rw (call_from_dict-call_to_dict c, calls_from_dicts-calls_to_dicts cs)

role_of-role_value : (r : MessageRole) → role_of (role_value r) ≡ ok r
unfolding role_of
role_of-role_value user = refl
role_of-role_value assistant = refl
role_of-role_value tool = refl

message_from_dict-message_to_dict :
    (m : ModelMessage) → message_from_dict (message_to_dict m) ≡ ok m
unfolding message_from_dict message_to_dict get
message_from_dict-message_to_dict m =
    ground (arith, calls_from_dicts-calls_to_dicts m.tool_calls, role_of-role_value m.role)

-- Reading a serialised conversation back gives exactly the messages that were serialised, whatever
-- their roles, contents, calls and arguments.
pub deserialise_conversation-serialise_conversation :
    (ms : List ModelMessage) → deserialise_conversation (serialise_conversation ms) ≡ ok ms
unfolding deserialise_conversation serialise_conversation
deserialise_conversation-serialise_conversation [] = refl
deserialise_conversation-serialise_conversation (m ∷ ms) =
    rw (message_from_dict-message_to_dict m, deserialise_conversation-serialise_conversation ms)
