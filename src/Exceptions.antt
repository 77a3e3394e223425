-- ===== src/Exceptions.antt =====
-- What a Python call may raise. A class is kept by what the handlers of `app/` tell apart:
-- ValueError and TypeError with their subclasses, `ApprovalRequired` of `app/tool_registry.py`,
-- and any other exception. `type(exc).__name__` and `str(exc)` are kept as text.
use enterprise_agentops.Base.{String, ◌<>◌}
use enterprise_agentops.Values.{Fields}

-- `ToolRisk` of `app/tool_registry.py`
pub data ToolRisk : Type 0 where
  read write dangerous : ToolRisk

pub data Exception : Type 0 where
  value_error type_error unexpected : (type_name message : String) → Exception
  approval_required : (tool_name : String) (arguments : Fields) (risk : ToolRisk) → Exception

-- `type(exc).__name__`
unfoldable pub type_name : Exception → String
type_name (Exception.value_error name _) = name
type_name (Exception.type_error name _) = name
type_name (Exception.unexpected name _) = name
type_name (Exception.approval_required _ _ _) = "ApprovalRequired"

-- `str(exc)`
unfoldable pub message : Exception → String
message (Exception.value_error _ text) = text
message (Exception.type_error _ text) = text
message (Exception.unexpected _ text) = text
message (Exception.approval_required tool _ _) = "Approval required for " <> tool
