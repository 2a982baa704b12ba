-- ===== src/Tools/Execute.antt =====
-- ToolGateway.execute of harness/tools/gateway.py: one call of a tool, from the checks of its
-- identity to the end of its operation in the ledger. The asyncio locks, which order the calls of
-- one process, and the fault hooks of the tests are left out.
use mi_harness.Prelude.{
  ℕ, String, Bool, true, false, not, ◌&&◌, ◌||◌, Option, none, some, List, [], ◌∷◌, ◌==◌,
  if◌then◌else◌, same, is_some, find_row,
}
use mi_harness.Exec.{
  pure, raise, transaction, new_id, after_seconds, ◌>>=◌, ◌>>◌, require, operation_conflict,
  tool_identity, resource_busy, other_error,
}
use mi_harness.Tools.Approval.{Verdict, approval_key, approved}
use mi_harness.Store.Runs.{assert_fence}
use mi_harness.Tools.Modes.{is_mcp_origin, enforce}
use mi_harness.Tools.Gateway.{
  ToolHost, ToolOutcome, waiting, plain_result, is_deny, needs_approval, is_finished, tool_amount,
  tool_key, version_of, resources, lock_of, finish_failed,
}
use mi_harness.Core.{ExecutionContext, AccessContext, OperationKey, ApprovalBinding, InterruptKind}
use mi_harness.Host.{Host}
use mi_harness.Store.Schema.{OperationState, ToolResult, OperationRow, InteractionRow, Db, text}
use mi_harness.Store.Operations.{
  same_state, operation_by_key, no_metadata, prepare_operation, OperationField, update_operation,
}
use mi_harness.Store.Grants.{add_grant, consume_grant}
use mi_harness.Store.Interactions.{interactions}
use mi_harness.Store.Records.{get}
use mi_harness.Store.Budget.{reserve, settle}
use mi_harness.Store.Events.{event}
use mi_harness.Policy.Engine.{as_snapshot, Decision, ToolSpec, decide}
use mi_harness.Tools.Registry.{ToolArgs, Executed, Call, Registered, registered}
use mi_harness.Tools.Reconcile.{finish_operation}
use mi_harness.Tools.Attempt.{
  awaits_input, result_of_fields, run_executor, conclude, resume_protocol,
}

-- The `(args_hash, tool_id, tool_revision)` of the saved operation are those of the call.
abbrev pub is_same_call : String → String → String → OperationRow → Bool
is_same_call digest name version o =
    same o.args_hash digest && same o.tool_id name && same o.tool_revision version

abbrev pub is_in_progress : OperationState → Bool
is_in_progress OperationState.running = true
is_in_progress OperationState.unknown = true
is_in_progress _ = false

abbrev pub saved_result : OperationRow → Option ToolResult
saved_result o = if is_finished o.state then o.result else none

abbrev pub is_special : String → Bool
is_special name = same name "request_input" || same name "wait_children"

module _ (host : Host) (tools : ToolHost) where
  -- The transaction that starts the operation under a new grant.
  unfoldable pub start_operation :
      ExecutionContext → OperationRow → ApprovalBinding → ℕ → ToolArgs → Db OperationRow
  start_operation ctx o binding policy_revision args = do
    grant_id ← new_id
    transaction (do
      add_grant grant_id o.id ctx.owner_id ctx.run_id binding none
      authorized ←
          update_operation o.id o.revision (OperationField.state OperationState.authorized ∷ [])
            (some ctx)
      started ← consume_grant ctx grant_id binding policy_revision
      reserve ctx.root_run_id (tool_key o) tool_amount
      event ctx.run_id "tool.started" (
          ("operation_id", text o.id)
          ∷ ("tool_id", text o.tool_id)
          ∷ ("tool_revision", text o.tool_revision)
          ∷ ("input_summary", text (tools.input_summary o.tool_id args.json))
          ∷ [])
      pure started)

  -- The decision of the policy engine, the fingerprint or the revision has changed since.
  unfoldable pub has_changed :
      ExecutionContext → ToolSpec → ToolArgs → ApprovalBinding → String → Decision → ℕ → Db Bool
  has_changed ctx spec args binding fingerprint decision policy_revision =
      if is_deny decision || not (policy_revision == binding.policy_revision)
      then pure true
      else (do f ← resources host tools ctx spec args; pure (not (same f fingerprint)))

  -- What happens under the lock on the resource.
  unfoldable pub run_locked :
      ExecutionContext
      → OperationRow
      → Registered
      → ToolArgs
      → ApprovalBinding
      → String
      → Db ToolOutcome
  run_locked ctx o tool args binding fingerprint = do
    verdict ← decide host (AccessContext.execution ctx) tool.spec
    let (decision, policy_revision) = verdict
    changed ← has_changed ctx tool.spec args binding fingerprint decision policy_revision
    if changed then finish_failed host tools ctx o "执行前权限或资源复验失败" "BINDING_CHANGED" else (do
      started ← start_operation ctx o binding policy_revision args
      outcome ← run_executor host tools ctx started tool.spec tool.executor args
      conclude host tools ctx started outcome)

  -- The result of `request_input` and `wait_children`, which end in a wait or a dict.
  unfoldable pub conclude_special : ExecutionContext → OperationRow → Executed → Db ToolOutcome
  conclude_special ctx o (Executed.waits w) = pure (ToolOutcome.wait w)
  conclude_special ctx o (Executed.returns r) = raise other_error
  conclude_special ctx o (Executed.fields f) = do
    require (not (is_some f.status)) other_error
    r ← finish_operation ctx o (result_of_fields o f)
    settle (tool_key o) (some tool_amount)
    pure (ToolOutcome.result r)

  unfoldable pub run_special :
      ExecutionContext → OperationRow → Registered → ToolArgs → Db ToolOutcome
  run_special ctx o tool args = do
    reserve ctx.root_run_id (tool_key o) tool_amount
    value ← tool.executor.call ctx o args
    conclude_special ctx o value

  unfoldable pub go_on :
      ExecutionContext → OperationRow → Registered → ToolArgs → String → Verdict → Db ToolOutcome
  go_on ctx o tool args fingerprint (Verdict.stop r) = pure r
  go_on ctx o tool args fingerprint (Verdict.proceed binding) =
      if is_special tool.spec.id then run_special ctx o tool args else (do
        key ←
            lock_of host tools ctx tool.spec args o
              (if is_mcp_origin tool.spec.origin then none else args.path)
        require (not (tools.is_locked key)) resource_busy
        run_locked ctx o tool args binding fingerprint)

  -- The binding that a new grant or a new question carries.
  abbrev pub binding_of : OperationRow → ToolSpec → String → String → ℕ → ℕ → ApprovalBinding
  binding_of o spec digest fingerprint policy_revision expires_at = record {
    operation_id = o.id;
    tool_revision = spec.version;
    args_hash = digest;
    resource_fingerprint = fingerprint;
    policy_revision = policy_revision;
    expires_at = expires_at;
  }

  -- After the decision to allow the call or to ask for it.
  unfoldable pub permit :
      ExecutionContext
      → OperationRow
      → Registered
      → ToolArgs
      → String
      → Decision
      → ℕ
      → Db ToolOutcome
  permit ctx o tool args fingerprint decision policy_revision = do
    listed ← interactions ctx.run_id
    expires_at ← after_seconds 900
    let binding : ApprovalBinding =
        binding_of o tool.spec (tools.args_digest args.json) fingerprint policy_revision expires_at
    verdict ←
        (if needs_approval decision
          then approved host tools ctx o tool.spec args binding
              (find_row (λ (i : InteractionRow). same i.request_key (approval_key o)) listed)
          else pure (Verdict.proceed binding))
    go_on ctx o tool args fingerprint verdict

  -- A call whose operation has not started.
  unfoldable pub begin : ExecutionContext → OperationKey → Registered → ToolArgs → Db ToolOutcome
  begin ctx key tool args = do
    fingerprint ← resources host tools ctx tool.spec args
    o ← prepare_operation ctx (record {
      message_id = key.message_id;
      tool_call_id = key.tool_call_id;
      tool_id = tool.spec.id;
      tool_revision = tool.spec.version;
      args_hash = tools.args_digest args.json;
      args = args.json;
      resource_fingerprint = fingerprint;
      input_summary = some (tools.input_summary tool.spec.id args.json);
      metadata = no_metadata;
    })
    verdict ← decide host (AccessContext.execution ctx) tool.spec
    let (decision, policy_revision) = verdict
    if is_deny decision
        then finish_failed host tools ctx o tools.denial "POLICY_DENIED"
        else if not (same fingerprint o.resource_fingerprint)
        then finish_failed host tools ctx o "审批后目标资源已变化，请重新读取并发起新操作" "RESOURCE_CHANGED"
        else permit ctx o tool args fingerprint decision policy_revision

  -- A call whose operation is running or unknown.
  unfoldable pub continue_operation :
      ExecutionContext → OperationRow → Registered → ToolArgs → Option Call → Db ToolOutcome
  continue_operation ctx o tool args none = pure (waiting InterruptKind.review none o.id)
  continue_operation ctx o tool args (some continuation) =
      if same_state o.state OperationState.running && awaits_input o.metadata.protocol_continuation
      then resume_protocol host tools ctx o tool.spec continuation args
      else pure (waiting InterruptKind.review none o.id)

  unfoldable pub again_or_begin :
      ExecutionContext
      → OperationKey
      → Registered
      → ToolArgs
      → OperationRow
      → Option ToolResult
      → Db ToolOutcome
  again_or_begin ctx key tool args o (some r) = pure (ToolOutcome.result r)
  again_or_begin ctx key tool args o none =
      if is_in_progress o.state
      then continue_operation ctx o tool args tool.executor.resume_continuation
      else begin ctx key tool args

  unfoldable pub revisit :
      ExecutionContext → OperationKey → Registered → ToolArgs → Option OperationRow → Db ToolOutcome
  revisit ctx key tool args none = begin ctx key tool args
  revisit ctx key tool args (some o) = do
    require (is_same_call (tools.args_digest args.json) tool.spec.id tool.spec.version o)
        operation_conflict
    again_or_begin ctx key tool args o (saved_result o)

  -- ToolGateway.execute
  unfoldable pub execute :
      List Registered → ExecutionContext → OperationKey → String → ToolArgs → Db ToolOutcome
  execute registry ctx key name args = do
    require (same key.run_id ctx.run_id) tool_identity
    assert_fence ctx false
    version ← version_of ctx name
    tool ← registered name version registry
    saved ← get "snapshots" ctx.config_snapshot_id
    enforce (as_snapshot saved) tool.spec
    if not (tools.accepts_input tool.spec args.json)
        then pure (
            ToolOutcome.result
              (plain_result "" OperationState.failed "工具参数不符合 schema" (some "TOOL_ARGUMENTS")))
        else (do
          existing ← operation_by_key ctx.run_id key.message_id key.tool_call_id
          revisit ctx key tool args existing)
