-- ===== src/Tools/Reconcile.antt =====
-- ToolGateway.reconcile and ToolGateway._finish of harness/tools/gateway.py: the end of an
-- operation in the ledger, by its executor or by the user.
use mi_harness.Prelude.{
  ℕ, String, Bool, true, false, not, ◌&&◌, Option, none, some, List, [], ◌∷◌, ◌==◌, same,
}
use mi_harness.Exec.{
  pure, raise, transaction, utc_now, ◌>>=◌, ◌>>◌, require, or_raise, for_each, revision_conflict,
  evidence_required, unverifiable_non_execution, invalid_decision,
}
use mi_harness.Core.{ExecutionContext, ArtifactRef}
use mi_harness.Host.{Host}
use mi_harness.Store.Schema.{OperationState, ToolResult, OperationRow, Db, text}
use mi_harness.Store.Runs.{run}
use mi_harness.Store.Events.{event}
use mi_harness.Store.Operations.{
  same_state, operation, OperationField, update_operation, add_reconciliation,
}
use mi_harness.Store.Grants.{revoke_grants}
use mi_harness.Scheduler.Transition.{result_of}
use mi_harness.Scheduler.Submit.{readable_artifact}

abbrev finished_event : OperationState → String
finished_event OperationState.failed = "tool.failed"
finished_event _ = "tool.completed"

abbrev state_name : OperationState → String
state_name OperationState.prepared = "prepared"
state_name OperationState.authorized = "authorized"
state_name OperationState.running = "running"
state_name OperationState.succeeded = "succeeded"
state_name OperationState.failed = "failed"
state_name OperationState.cancelled = "cancelled"
state_name OperationState.unknown = "unknown"

-- ToolGateway._finish; the summaries in the event are not modelled.
unfoldable pub finish_operation : ExecutionContext → OperationRow → ToolResult → Db ToolResult
finish_operation ctx o given = do
  now ← utc_now
  let result : ToolResult = record given { started_at = some o.created_at; completed_at = some now }
  transaction (do
    current ← operation o.id
    update_operation o.id current.revision
        (OperationField.state result.status ∷ OperationField.result (some result) ∷ []) (some ctx)
    event ctx.run_id (finished_event result.status) (
        ("operation_id", text o.id)
        ∷ ("tool_id", text o.tool_id)
        ∷ ("tool_revision", text o.tool_revision)
        ∷ ("result_status", text (state_name result.status))
        ∷ []))
  pure result

pub data ReviewDecision : Type 0 where
  confirm_completed confirm_not_executed accept_unresolved other : ReviewDecision

pub data AllowedAction : Type 0 where
  resume end_without_success : AllowedAction

-- The request of the user; `note` has been stripped.
pub record ReviewRequest : Type 0 where
  pub expected_revision : ℕ
  pub decision : ReviewDecision
  pub note : String
  pub evidence_refs : List ArtifactRef
  pub result_ref : Option ArtifactRef
  pub details : String

abbrev no_evidence : List ArtifactRef → Bool
no_evidence [] = true
no_evidence (a ∷ as') = false

abbrev decision_name : ReviewDecision → String
decision_name ReviewDecision.confirm_completed = "confirm_completed"
decision_name ReviewDecision.confirm_not_executed = "confirm_not_executed"
decision_name ReviewDecision.accept_unresolved = "accept_unresolved"
decision_name ReviewDecision.other = "other"

pub record Reconciliation : Type 0 where
  pub reconciliation_id : String
  pub operation_id : String
  pub allowed_action : AllowedAction
  pub revision : ℕ

module _ (host : Host) where
  unfoldable pub check_completed : OperationRow → String → ReviewRequest → Db (List OperationField)
  check_completed o actor q = do
    ref ← or_raise evidence_required q.result_ref
    require (not (no_evidence q.evidence_refs)) evidence_required
    readable_artifact host ref.artifact_id (some actor)
    now ← utc_now
    let attested : ToolResult = result_of o.id OperationState.succeeded q.note actor none (some now)
    pure (
        OperationField.state OperationState.succeeded
        ∷ OperationField.result (some (record attested { artifact_refs = ref ∷ [] }))
        ∷ [])

  unfoldable pub check_not_executed : OperationRow → Db (List OperationField)
  check_not_executed o = do
    require o.metadata.proven_not_started unverifiable_non_execution
    pure (
        OperationField.state OperationState.prepared
        ∷ OperationField.result none
        ∷ OperationField.grant_id none
        ∷ [])

  abbrev pub accepted : OperationRow → String → List OperationField
  accepted o actor =
      let m = o.metadata in
      OperationField.metadata (record m { unresolved_accepted = true; accepted_by = some actor })
      ∷ []

  -- The patch that a decision asks for, with what the run may do next.
  unfoldable pub patch_for :
      OperationRow → String → ReviewRequest → Db (List OperationField × AllowedAction)
  unfolding check_completed check_not_executed
  patch_for o actor q = elim q.decision [
    | ReviewDecision.confirm_completed ↦ (do
      patch ← check_completed o actor q
      pure (patch, AllowedAction.resume))
    | ReviewDecision.confirm_not_executed ↦ (do
      patch ← check_not_executed o
      pure (patch, AllowedAction.resume))
    | ReviewDecision.accept_unresolved ↦ pure (accepted o actor, AllowedAction.end_without_success)
    | ReviewDecision.other ↦ raise invalid_decision
  ]

  unfoldable pub check_evidence : String → ArtifactRef → Db Unit
  check_evidence actor a = do readable_artifact host a.artifact_id (some actor); pure tt

  -- ToolGateway.reconcile
  unfoldable pub reconcile_operation : String → String → ReviewRequest → Db Reconciliation
  unfolding check_evidence
  reconcile_operation operation_id actor q = do
    o ← operation operation_id
    run o.run_id (some actor)
    require (o.revision == q.expected_revision && same_state o.state OperationState.unknown)
        revision_conflict
    require (not (same q.note "")) evidence_required
    for_each q.evidence_refs (check_evidence actor)
    planned ← patch_for o actor q
    transaction (do
      recorded ←
          add_reconciliation operation_id o.revision actor (decision_name q.decision) q.details
      updated ← update_operation operation_id o.revision planned.0 none
      revoke_grants o.run_id []
      pure (record {
        reconciliation_id = recorded;
        operation_id = operation_id;
        allowed_action = planned.1;
        revision = updated.revision;
      }))
