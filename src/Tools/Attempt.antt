-- ===== src/Tools/Attempt.antt =====
-- The run of an executor in harness/tools/gateway.py: ToolGateway._valid_protocol_wait, the try
-- statement around the executor in ToolGateway.execute, ToolGateway._resume_protocol, and what
-- follows either. asyncio.wait_for ends a run as the executor's own errors do.
use mi_harness.Prelude.{
  ℕ, String, Bool, true, false, not, ◌&&◌, ◌||◌, Option, none, some, if◌then◌else◌, same, same?,
  get_or_else,
}
use mi_harness.Exec.{
  Code, pure, raise, ◌>>=◌, ◌>>◌, require, rescue, invalid_wait, continuation_policy, other_error,
}
use mi_harness.Core.{ExecutionContext, AccessContext, InterruptKind}
use mi_harness.Host.{Effect, Host}
use mi_harness.Store.Schema.{OperationState, Continuation, ToolResult, OperationRow, Db}
use mi_harness.Store.Operations.{same_state, operation}
use mi_harness.Store.Grants.{verify_consumed_grant}
use mi_harness.Store.Budget.{settle}
use mi_harness.Policy.Engine.{current, ToolSpec, decide}
use mi_harness.Tools.Registry.{ToolArgs, ToolWait, ToolFields, Executed, Call, Executor}
use mi_harness.Tools.Gateway.{
  ToolHost, ToolOutcome, waiting, plain_result, is_deny, is_unknown, is_finished, tool_amount,
  tool_key, resources,
}
use mi_harness.Tools.Reconcile.{finish_operation}

abbrev has_text : Option String → Bool
has_text none = false
has_text (some s) = not (same s "")

-- The continuation of the protocol, `{}` where there is none.
abbrev pub awaits_input : Option Continuation → Bool
awaits_input none = false
awaits_input (some c) = same c.kind "modern_mrtr" && same c.status "awaiting_input"

abbrev registered_for : ToolWait → Option Continuation → Bool
registered_for w none = false
registered_for w (some c) = has_text c.request_state_ref && same? c.interaction_id w.interaction_id

-- ToolGateway._valid_protocol_wait
unfoldable pub valid_protocol_wait : String → ToolWait → Db Bool
valid_protocol_wait operation_id w = do
  o ← operation operation_id
  let continuation : Option Continuation = o.metadata.protocol_continuation
  pure (
      same_state o.state OperationState.running
      && awaits_input continuation
      && registered_for w continuation
      && same? w.operation_id (some operation_id))

-- The exceptions that are no HarnessError.
abbrev pub is_exception : Code → Bool
is_exception Code.value_error = true
is_exception Code.key_error = true
is_exception Code.integrity = true
is_exception Code.other_error = true
is_exception _ = false

abbrev pub is_cancelled_error : Code → Bool
is_cancelled_error Code.cancelled_error = true
is_cancelled_error _ = false

abbrev pub is_exit_unknown : Code → Bool
is_exit_unknown Code.process_exit_unknown = true
is_exit_unknown _ = false

abbrev pub has_outer_effect : Effect → Bool
has_outer_effect Effect.external_write = true
has_outer_effect Effect.process = true
has_outer_effect _ = false

abbrev pub is_read_effect : Effect → Bool
is_read_effect Effect.read = true
is_read_effect _ = false

abbrev is_result_state : OperationState → Bool
is_result_state s = is_finished s || is_unknown s

abbrev pub result_of_fields : OperationRow → ToolFields → ToolResult
result_of_fields o f = record {
  operation_id = o.id;
  status = get_or_else f.status OperationState.succeeded;
  summary = f.summary;
  structured_data = f.structured_data;
  artifact_refs = f.artifact_refs;
  error_code = f.error_code;
  started_at = none;
  completed_at = none;
}

module _ (host : Host) (tools : ToolHost) where
  unfoldable pub checked : ToolSpec → ToolResult → Db ToolOutcome
  checked spec r = do
    require (tools.accepts_output spec r.structured_data) other_error
    pure (ToolOutcome.result r)

  -- What becomes of the value that the executor returned.
  unfoldable pub returned : ToolSpec → OperationRow → Executed → Db ToolOutcome
  returned spec o (Executed.waits w) = do
    valid ← valid_protocol_wait o.id w
    require valid invalid_wait
    pure (ToolOutcome.wait w)
  returned spec o (Executed.returns r) = checked spec r
  returned spec o (Executed.fields f) = do
    require (is_result_state (get_or_else f.status OperationState.succeeded)) other_error
    checked spec (result_of_fields o f)

  -- The three `except` clauses.
  abbrev pub status_of_error : ToolSpec → Code → OperationState
  status_of_error spec c =
      if is_cancelled_error c
      then (if has_outer_effect spec.effect
          then OperationState.unknown
          else OperationState.cancelled)
      else if is_exception c
      then (if is_read_effect spec.effect then OperationState.failed else OperationState.unknown)
      else if is_exit_unknown c
      then OperationState.unknown
      else OperationState.failed

  abbrev pub summary_of_error : Code → String
  summary_of_error c =
      if is_cancelled_error c
      then "执行已中断；已发生的副作用不会自动撤销"
      else if is_exception c
      then "工具执行异常，详细状态需核对"
      else tools.message c

  abbrev pub code_of_error : Code → String
  code_of_error c =
      if is_cancelled_error c
      then "EXECUTION_INTERRUPTED"
      else if is_exception c
      then "TOOL_EXECUTION_ERROR"
      else tools.error_code c

  unfoldable pub failed_run : ToolSpec → OperationRow → Code → Db ToolOutcome
  failed_run spec o c = pure (
      ToolOutcome.result
        (plain_result o.id (status_of_error spec c) (summary_of_error c) (some (code_of_error c))))

  -- The try statement around the executor.
  unfoldable pub run_executor :
      ExecutionContext → OperationRow → ToolSpec → Executor → ToolArgs → Db ToolOutcome
  run_executor ctx o spec executor args =
      rescue (do value ← executor.call ctx o args; returned spec o value) (failed_run spec o)

  -- What follows the run: the ledger first, then the account.
  unfoldable pub conclude : ExecutionContext → OperationRow → ToolOutcome → Db ToolOutcome
  conclude ctx o (ToolOutcome.wait w) = pure (ToolOutcome.wait w)
  conclude ctx o (ToolOutcome.result given) = do
    r ← finish_operation ctx o given
    settle (tool_key o) (if is_unknown r.status then none else some tool_amount)
    pure (
        if is_unknown r.status
        then waiting InterruptKind.review none o.id
        else ToolOutcome.result r)

  abbrev pub uncertain : OperationRow → Code → ToolOutcome
  uncertain o c = ToolOutcome.result (
      if is_cancelled_error c
      then plain_result o.id OperationState.unknown "MCP 续接已中断，副作用需要核对"
          (some "CONTINUATION_INTERRUPTED")
      else plain_result o.id OperationState.unknown "MCP 续接无法确认，原始操作未重发"
          (some "CONTINUATION_UNCERTAIN"))

  abbrev pub resumed : ToolSpec → OperationRow → Executed → Db ToolOutcome
  resumed spec o (Executed.waits w) = returned spec o (Executed.waits w)
  resumed spec o (Executed.returns r) = checked spec r
  resumed spec o (Executed.fields f) = raise other_error

  -- The policy and the resources allow the continuation.
  unfoldable pub may_continue : ExecutionContext → OperationRow → ToolSpec → ToolArgs → Db ℕ
  may_continue ctx o spec args = do
    verdict ← decide host (AccessContext.execution ctx) spec
    let (decision, policy_revision) = verdict
    current ←
        (if is_deny decision
          then pure false
          else (do f ← resources host tools ctx spec args; pure (same f o.resource_fingerprint)))
    require current continuation_policy
    pure policy_revision

  -- ToolGateway._resume_protocol
  unfoldable pub resume_protocol :
      ExecutionContext → OperationRow → ToolSpec → Call → ToolArgs → Db ToolOutcome
  resume_protocol ctx o spec continuation args = do
    outcome ←
        rescue
          (do
            policy_revision ← may_continue ctx o spec args
            verify_consumed_grant ctx o.id policy_revision
            value ← continuation ctx o args
            resumed spec o value)
          (λ c. pure (uncertain o c))
    conclude ctx o outcome
