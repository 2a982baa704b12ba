-- ===== src/Tools/Registry.antt =====
-- harness/tools/registry.py and the values of harness/tools/contracts.py that pass between the
-- gateway and the executors. An executor is any callable that the registry was given.
use mi_harness.Exec.{Result, or_raise, ok, err, tool_unavailable, tool_conflict, other_error}
use mi_harness.Prelude.{
  String, Bool, not, ◌&&◌, Option, List, [], ◌∷◌, ◌++◌, map, if◌then◌else◌, same, any, find_row,
  delete_rows,
}
use mi_harness.Core.{ExecutionContext, ArtifactRef, InterruptKind}
use mi_harness.Store.Schema.{OperationState, ToolResult, OperationRow, Db}
use mi_harness.Policy.Engine.{ToolSpec}

-- The arguments of a tool call: their JSON text, and the keys that the gateway reads.
pub record ToolArgs : Type 0 where
  pub json : String
  pub path : Option String
  pub cwd : Option String

-- ToolWait
pub record ToolWait : Type 0 where
  pub kind : InterruptKind
  pub interaction_id : Option String
  pub wait_id : Option String
  pub operation_id : Option String

-- The dict that an executor may return instead of a ToolResult.
pub record ToolFields : Type 0 where
  pub status : Option OperationState
  pub summary : String
  pub structured_data : String
  pub artifact_refs : List ArtifactRef
  pub error_code : Option String

pub data Executed : Type 0 where
  waits : ToolWait → Executed
  returns : ToolResult → Executed
  fields : ToolFields → Executed

abbrev pub Call : Type 0
Call = ExecutionContext → OperationRow → ToolArgs → Db Executed

-- A callable, with its `resume_continuation` where it has one.
pub record Executor : Type 0 where
  pub call : Call
  pub resume_continuation : Option Call

pub record Registered : Type 0 where
  pub spec : ToolSpec
  pub executor : Executor

abbrev pub with_tool_key : String → String → Registered → Bool
with_tool_key id version t = same t.spec.id id && same t.spec.version version

-- ToolRegistry.register; `is_schema` says whether both schemas are valid.
unfoldable pub register :
    (ToolSpec → Bool) → Registered → List Registered → Result (List Registered)
register is_schema t items =
    if not (is_schema t.spec)
    then err other_error
    else if any (with_tool_key t.spec.id t.spec.version) items
    then err tool_conflict
    else ok (items ++ t ∷ [])

-- ToolRegistry.unregister
unfoldable pub unregister : String → String → List Registered → List Registered
unregister id version items = delete_rows (with_tool_key id version) items

-- ToolRegistry.get
unfoldable pub registered : String → String → List Registered → Db Registered
registered id version items = or_raise tool_unavailable (find_row (with_tool_key id version) items)

-- ToolRegistry.specs
unfoldable pub specs : List Registered → List ToolSpec
specs items = map (λ t. t.spec) items
