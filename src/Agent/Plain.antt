-- ===== src/Agent/Plain.antt =====
-- What `json.dumps` accepts of the data that the loop of app/agent.py stores: arguments, responses and conversations.
use enterprise_agentops.Base.{◌≡◌, refl, String, true, Option, none, some, List, [], ◌∷◌, ◌++◌, All}
use enterprise_agentops.Values.{Value, is_json, is_json_fields, is_json_items, of_option}
use enterprise_agentops.Protocol.{
  ToolCall, ModelMessage, calls_to_dicts, call_to_dict, message_to_dict, serialise_conversation,
}
use enterprise_agentops.Exceptions.{Exception}
use enterprise_agentops.Results.{Result, ok, err}

abbrev pub PlainCall : ToolCall → Type 0
PlainCall c = is_json_fields c.arguments ≡ true

abbrev pub PlainMessage : ModelMessage → Type 0
PlainMessage m = All PlainCall m.tool_calls

-- What a tool's function may return or raise: a value that `json.dumps` accepts, or an exception, which
-- names such arguments if it is an `ApprovalRequired`.
abbrev pub PlainResult : Result Value → Type 0
PlainResult (ok v) = is_json v ≡ true
PlainResult (err (Exception.approval_required name arguments risk)) =
    is_json_fields arguments ≡ true
PlainResult (err _) = Unit

pub is_json-of_option : (o : Option String) → is_json (of_option o) ≡ true
unfolding is_json
is_json-of_option none = refl
is_json-of_option (some s) = refl

pub is_json-calls_to_dicts :
    (cs : List ToolCall) → All PlainCall cs → is_json_items (calls_to_dicts cs) ≡ true
unfolding calls_to_dicts call_to_dict is_json
is_json-calls_to_dicts [] h = refl
is_json-calls_to_dicts (c ∷ cs) h =
    rw (h.0, is_json-of_option c.argument_error) (is_json-calls_to_dicts cs h.1)

is_json-message_to_dict : (m : ModelMessage) → PlainMessage m → is_json (message_to_dict m) ≡ true
unfolding message_to_dict is_json
is_json-message_to_dict m h =
    rw
      (
        is_json-of_option m.content,
        is_json-calls_to_dicts m.tool_calls h,
        is_json-of_option m.tool_call_id,
        is_json-of_option m.tool_name,
      )
      refl

pub is_json-serialise_conversation :
    (ms : List ModelMessage)
    → All PlainMessage ms
    → is_json_items (serialise_conversation ms) ≡ true
unfolding serialise_conversation is_json
is_json-serialise_conversation [] h = refl
is_json-serialise_conversation (m ∷ ms) h =
    rw (is_json-message_to_dict m h.0) (is_json-serialise_conversation ms h.1)

pub All-snoc {ℓ κ} :
    {A : Type ℓ} (P : A → Type κ) (xs : List A) (x : A) → All P xs → P x → All P (xs ++ x ∷ [])
All-snoc P [] x h p = (p, tt)
All-snoc P (y ∷ ys) x h p = (h.0, All-snoc P ys x h.1 p)
