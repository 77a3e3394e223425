-- ===== src/Values.antt =====
-- The Python values that pass through arguments, results, messages and JSON columns. A JSON column
-- holds the value that its text stands for, since it is written by `json.dumps` and read by
-- `json.loads` alone.
use enterprise_agentops.Base.{String, Bool, true, false, ◌&&◌, Option, none, some, str_eq}
use enterprise_agentops.Base.{if◌then◌else◌}

mutual
  pub data Value : Type 0 where
    null : Value
    bool : Bool → Value
    -- an int or a float, by its literal
    number : String → Value
    text : String → Value
    list : Items → Value
    dict : Fields → Value
    -- an object that `json.dumps` rejects with a TypeError, by its `str()`
    object : String → Value

  pub data Items : Type 0 where
    nil : Items
    cons : Value → Items → Items

  pub data Fields : Type 0 where
    end : Fields
    field : String → Value → Fields → Fields

-- Whether `json.dumps` accepts the value.
unfoldable mutual
  pub is_json : Value → Bool
  is_json (object _) = false
  is_json (list xs) = is_json_items xs
  is_json (dict fs) = is_json_fields fs
  is_json null = true
  is_json (bool _) = true
  is_json (number _) = true
  is_json (text _) = true

  pub is_json_items : Items → Bool
  is_json_items nil = true
  is_json_items (cons v xs) = is_json v && is_json_items xs

  pub is_json_fields : Fields → Bool
  is_json_fields end = true
  is_json_fields (field _ v fs) = is_json v && is_json_fields fs

-- `d.get(k)`
unfoldable pub get : String → Fields → Option Value
get k end = none
get k (field j v fs) = if str_eq j k then some v else get k fs

-- `None` or a text, as a value, and back
abbrev pub of_option : Option String → Value
of_option none = null
of_option (some s) = text s
