-- ===== src/Columns.antt =====
-- `json.dumps` as the stores call it, before a JSON column is written.
use enterprise_agentops.Base.{Option, none, some, if◌then◌else◌}
use enterprise_agentops.Values.{Value, Items, Fields, null, is_json, is_json_items, is_json_fields}
use enterprise_agentops.Exceptions.{Exception}
use enterprise_agentops.Results.{Result, ok, err, ◌>>=◌}

abbrev not_serializable : Exception
not_serializable = Exception.type_error "TypeError" "Object is not JSON serializable"

-- `json.dumps(v)` for a JSON column: the value that the text stands for, or a TypeError.
unfoldable pub to_column : Value → Result Value
to_column v = if is_json v then ok v else err not_serializable

-- `json.dumps` of a dict
unfoldable pub fields_column : Fields → Result Fields
fields_column fs = if is_json_fields fs then ok fs else err not_serializable

-- `json.dumps` of a list
unfoldable pub items_column : Items → Result Items
items_column xs = if is_json_items xs then ok xs else err not_serializable

-- `None if value is None else json.dumps(value)`
unfoldable pub dump : Value → Result (Option Value)
unfolding to_column
dump null = ok none
dump v = do c ← to_column v; ok (some c)
