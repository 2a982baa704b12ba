-- ===== src/Tools/Approval.antt =====
-- The question that ToolGateway.execute of harness/tools/gateway.py asks before a call that needs
-- approval, and what it makes of the answer.
use mi_harness.Prelude.{
  String, Bool, true, false, ◌&&◌, ◌||◌, Option, none, some, if◌then◌else◌, same,
}
use mi_harness.Exec.{pure, ◌>>=◌, or_raise, other_error}
use mi_harness.Core.{ExecutionContext, ApprovalBinding, InterruptKind}
use mi_harness.Host.{Host}
use mi_harness.Store.Schema.{OperationRow, ResolutionOutcome, Resolution, InteractionRow, Db}
use mi_harness.Store.Interactions.{is_pending, prepare_interaction}
use mi_harness.Tools.Registry.{ToolArgs}
use mi_harness.Tools.Gateway.{ToolHost, ToolOutcome, waiting, finish_failed}
use mi_harness.Policy.Engine.{ToolSpec}
use Prim.Native.String.{◌++◌ as text_append}

-- The outcome of the approval: the binding to go on with, or the end of the call.
pub data Verdict : Type 0 where
  proceed : ApprovalBinding → Verdict
  stop : ToolOutcome → Verdict

abbrev pub approval_key : OperationRow → String
approval_key o = text_append "approval:" o.id

abbrev approves : Option String → Bool
approves none = false
approves (some d) = same d "approve_once" || same d "approve_scoped"

abbrev was_answered : ResolutionOutcome → Bool
was_answered ResolutionOutcome.answered = true
was_answered _ = false

abbrev approval_schema : String
approval_schema =
    "{\"type\":\"object\",\"properties\":{\"decision\":{\"enum\":[\"approve_once\",\"approve_scoped\",\"deny\"]}},\"required\":[\"decision\"],\"additionalProperties\":false}"

module _ (host : Host) (tools : ToolHost) where
  abbrev is_approved : Option Resolution → Bool
  is_approved none = false
  is_approved (some r) =
      was_answered r.outcome
      && approves (elim r.response [ none ↦ none | some answer ↦ tools.decision_of answer ])

  unfoldable pub ask :
      ExecutionContext
      → OperationRow
      → ToolSpec
      → ToolArgs
      → ApprovalBinding
      → Option InteractionRow
      → Db InteractionRow
  ask ctx o spec args binding (some i) = pure i
  ask ctx o spec args binding none =
      prepare_interaction ctx (approval_key o) "approval"
        (record {
          prompt = text_append "允许执行 " (text_append spec.id "？");
          response_schema = approval_schema;
          binding_ref = some binding;
          operation_id = none;
          details = tools.preview spec.id args.json;
        })
        (some binding.expires_at)

  -- The branch of a decision that asks for approval.
  unfoldable pub approved :
      ExecutionContext
      → OperationRow
      → ToolSpec
      → ToolArgs
      → ApprovalBinding
      → Option InteractionRow
      → Db Verdict
  approved ctx o spec args binding asked = do
    i ← ask ctx o spec args binding asked
    bound ← or_raise other_error i.payload.binding_ref
    if is_pending i.status
        then pure (Verdict.stop (waiting InterruptKind.user (some i.id) o.id))
        else if is_approved i.resolution
        then pure (Verdict.proceed bound)
        else (do
          r ← finish_failed host tools ctx o "操作未获批准或交互已过期" "APPROVAL_DENIED"
          pure (Verdict.stop r))
