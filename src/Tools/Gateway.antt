-- ===== src/Tools/Gateway.antt =====
-- What the calls of harness/tools/gateway.py are made of: the version of a tool, the fingerprint of
-- the resources that it touches, and the end of an operation that failed before it started.

use Prim.Native.String.{◌++◌ as text_append}
use mi_harness.Prelude.{
  String, Bool, true, false, Option, none, some, List, [], ◌∷◌, if◌then◌else◌, same, is_some,
  contains,
}
use mi_harness.Prelude.Int.{pos}
use mi_harness.Exec.{
  Code, pure, ◌>>=◌, ◌>>◌, require, or_raise, path_denied, capability_denied, tool_not_in_snapshot,
}
use mi_harness.Core.{ExecutionContext, InterruptKind}
use mi_harness.Host.{Effect, Host}
use mi_harness.Store.Schema.{Snapshot, OperationState, ToolResult, OperationRow, Amount, Db}
use mi_harness.Store.Projects.{workspace}
use mi_harness.Store.Records.{get}
use mi_harness.Store.Interactions.{interaction}
use mi_harness.Policy.Engine.{as_snapshot, effective, Decision, ToolSpec}
use mi_harness.Tools.Registry.{ToolArgs, ToolWait}
use mi_harness.Tools.Modes.{is_mcp_origin}
use mi_harness.Tools.Reconcile.{finish_operation}

-- What the gateway takes from libraries and the file system.
pub record ToolHost : Type 0 where
  -- jsonschema.validate of the arguments and of the structured data of a result
  pub accepts_input : ToolSpec → String → Bool
  pub accepts_output : ToolSpec → String → Bool
  -- content_hash of the arguments, and of a tool with its arguments
  pub args_digest : String → String
  pub call_digest : String → String → String
  -- the resolution of a path under the roots of a workspace, none where it is refused
  pub resolve_path : List String → String → Bool → Option String
  -- content_hash of the path, device, inode, size and time of a resolved path
  pub file_stamp : String → String
  -- the portalocker lock of a resource is held by another process
  pub is_locked : String → Bool
  -- the preview of the effect, and the summary of the arguments
  pub preview : String → String → String
  pub input_summary : String → String → String
  -- the decision that the JSON text of a response holds
  pub decision_of : String → Option String
  -- the reason of a denial, and the code and the message of an error
  pub denial : String
  pub error_code : Code → String
  pub message : Code → String

pub data ToolOutcome : Type 0 where
  result : ToolResult → ToolOutcome
  wait : ToolWait → ToolOutcome

abbrev pub waiting : InterruptKind → Option String → String → ToolOutcome
waiting kind interaction operation_id = ToolOutcome.wait (record {
  kind = kind;
  interaction_id = interaction;
  wait_id = none;
  operation_id = some operation_id;
})

abbrev pub plain_result : String → OperationState → String → Option String → ToolResult
plain_result operation_id status summary code = record {
  operation_id = operation_id;
  status = status;
  summary = summary;
  structured_data = "";
  artifact_refs = [];
  error_code = code;
  started_at = none;
  completed_at = none;
}

-- `{x["id"]: x["version"] for x in tools}[name]`: the last entry of a name counts.
unfoldable pub tool_version : String → List (String × String) → Option String
tool_version name [] = none
tool_version name ((id, version) ∷ rest) =
    let later = tool_version name rest in
    if is_some later then later else if same id name then some version else none

abbrev pub tools_of : Option Snapshot → List (String × String)
tools_of none = []
tools_of (some s) = s.tools

abbrev pub is_workspace_write : Effect → Bool
is_workspace_write Effect.workspace_write = true
is_workspace_write _ = false

abbrev pub is_deny : Decision → Bool
is_deny Decision.deny = true
is_deny _ = false

abbrev pub needs_approval : Decision → Bool
needs_approval Decision.approval = true
needs_approval _ = false

abbrev pub is_unknown : OperationState → Bool
is_unknown OperationState.unknown = true
is_unknown _ = false

-- The states in which a saved result is the answer to the same call again.
abbrev pub is_finished : OperationState → Bool
is_finished OperationState.succeeded = true
is_finished OperationState.failed = true
is_finished OperationState.cancelled = true
is_finished _ = false

abbrev pub tool_amount : Amount
tool_amount = ("tool_calls", pos 1) ∷ []

abbrev pub tool_key : OperationRow → String
tool_key o = text_append "tool:" o.id

-- ToolGateway._version
unfoldable pub version_of : ExecutionContext → String → Db String
version_of ctx name = do
  saved ← get "snapshots" ctx.config_snapshot_id
  or_raise tool_not_in_snapshot (tool_version name (tools_of (as_snapshot saved)))

module _ (host : Host) (tools : ToolHost) where
  -- PolicyEngine.path
  unfoldable pub policy_path : ExecutionContext → String → Bool → Db String
  policy_path ctx candidate write = do
    w ← workspace ctx.workspace_id (some ctx.owner_id)
    resolved ← or_raise path_denied (tools.resolve_path w.roots candidate write)
    p ← effective host ctx
    require (contains (if write then "file_write" else "file_read") p.capabilities)
        capability_denied
    pure resolved

  -- The first of the keys "path" and "cwd" that the arguments have.
  abbrev path_or_cwd : ToolArgs → Option String
  path_or_cwd args = if is_some args.path then args.path else args.cwd

  unfoldable pub stamp : ExecutionContext → ToolSpec → ToolArgs → Option String → Db String
  stamp ctx spec args none = pure (tools.call_digest spec.id args.json)
  stamp ctx spec args (some p) = do
    resolved ← policy_path ctx p (is_workspace_write spec.effect)
    pure (tools.file_stamp resolved)

  -- ToolGateway._resources
  unfoldable pub resources : ExecutionContext → ToolSpec → ToolArgs → Db String
  resources ctx spec args =
      stamp ctx spec args (if is_mcp_origin spec.origin then none else path_or_cwd args)

  -- The key of the lock on the resource.
  unfoldable pub lock_of :
      ExecutionContext → ToolSpec → ToolArgs → OperationRow → Option String → Db String
  lock_of ctx spec args o none = pure o.id
  lock_of ctx spec args o (some p) = policy_path ctx p (is_workspace_write spec.effect)

  unfoldable pub finish_failed : ExecutionContext → OperationRow → String → String → Db ToolOutcome
  finish_failed ctx o summary code = do
    r ← finish_operation ctx o (plain_result o.id OperationState.failed summary (some code))
    pure (ToolOutcome.result r)
