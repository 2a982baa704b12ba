-- ===== src/Scheduler/Settle.antt =====
-- Scheduler.settle of harness/scheduler/service.py: what becomes of a run when its runtime reports
-- an outcome.
use mi_harness.Prelude.{
  String, Bool, true, false, not, ◌&&◌, Option, none, some, List, [], ◌∷◌, map, ◌==◌, if◌then◌else◌,
  same, is_some, select, any,
}
use mi_harness.Exec.{
  pure, transaction, new_id, ◌>>=◌, ◌>>◌, require, when, or_raise, for_each, outcome_mismatch,
  checkpoint_required, interrupt_mismatch, final_not_durable, children_unsettled, key_error,
}
use mi_harness.Core.{
  RunStatus, same_status, ExecutionContext, CheckpointRef, InterruptRef, ErrorEnvelope, OutcomeKind,
  RuntimeOutcome, final, waiting, error, cancel_ack, user, children, review,
}
use mi_harness.Host.{Host}
use mi_harness.Store.Schema.{RunRow, OperationState, OperationRow, InteractionStatus, Db, num, text}
use mi_harness.Store.Runs.{run, RunField, assert_fence, update_run, end_attempt}
use mi_harness.Store.Events.{event}
use mi_harness.Store.Operations.{
  same_state, operation, operations, OperationField, update_operation,
}
use mi_harness.Store.Interactions.{
  interaction_code, interaction, InteractionField, update_interaction,
}
use mi_harness.Store.Waits
use mi_harness.Scheduler.Transition.{transition}
use mi_harness.Scheduler.Submit.{readable_artifact}
use mi_harness.Scheduler.Waiting.{wake, refresh_waits_of}
use mi_harness.Scheduler.Cancel.{is_unresolved, all_ended}

-- An interaction is bound to the interrupt and the checkpoint at which its run waits.
unfoldable pub bind_user : RunRow → ExecutionContext → CheckpointRef → InterruptRef → Db Unit
bind_user r ctx checkpoint ref = do
  k ← or_raise key_error ref.interaction_id
  i ← interaction k
  require (same i.run_id r.id && i.input_revision == ctx.input_revision) interrupt_mismatch
  when (interaction_code i.status == interaction_code InteractionStatus.pending_binding) (do
    opened ← update_interaction i.id i.revision (
        InteractionField.interrupt_id ref.interrupt_id
        ∷ InteractionField.checkpoint_ref checkpoint
        ∷ InteractionField.status InteractionStatus.opened
        ∷ [])
    event r.id "interaction.required" (
        ("interaction_id", text opened.id)
        ∷ ("revision", num opened.revision)
        ∷ ("kind", text opened.kind)
        ∷ ("prompt", text opened.payload.prompt)
        ∷ ("response_schema", text opened.payload.response_schema)
        ∷ [])
    pure tt)

unfoldable pub bind_children : CheckpointRef → InterruptRef → Db Unit
bind_children checkpoint ref = do
  k ← or_raise key_error ref.wait_id
  w ← Waits.wait k
  Waits.update_wait w.id w.revision (some ref.interrupt_id) (some checkpoint) w.resolution

unfoldable pub mark_unknown : OperationRow → Db Unit
mark_unknown o = when (same_state o.state OperationState.running) (do
  update_operation o.id o.revision (OperationField.state OperationState.unknown ∷ []) none
  pure tt)

unfoldable pub bind_review : Option String → Db Unit
unfolding mark_unknown
bind_review none = pure tt
bind_review (some k) = do o ← operation k; mark_unknown o

-- The body of the loop over the interrupts of a waiting outcome.
unfoldable pub bind_interrupt : RunRow → ExecutionContext → CheckpointRef → InterruptRef → Db Unit
unfolding bind_user bind_children bind_review
bind_interrupt r ctx checkpoint ref = elim ref.kind [
  | user ↦ bind_user r ctx checkpoint ref
  | children ↦ bind_children checkpoint ref
  | review ↦ bind_review ref.operation_id
]

abbrev is_review : InterruptRef → Bool
is_review ref = elim ref.kind [ review ↦ true | _ ↦ false ]

abbrev is_user : InterruptRef → Bool
is_user ref = elim ref.kind [ user ↦ true | _ ↦ false ]

-- Review comes before the user, and the user before the children.
abbrev pub waiting_status : List InterruptRef → RunStatus
waiting_status refs =
    if any is_review refs
    then RunStatus.needs_review
    else if any is_user refs
    then RunStatus.waiting_user
    else RunStatus.waiting_children

abbrev stopped : String → ErrorEnvelope
stopped id = record {
  code = "RUNTIME_STOPPED";
  message = "stopped";
  retryable = false;
  correlation_id = id;
  details_ref = none;
}

abbrev pub kind_name : OutcomeKind → String
kind_name final = "final"
kind_name waiting = "waiting"
kind_name error = "error"
kind_name cancel_ack = "cancel_ack"

abbrev none_left : List OperationRow → Bool
none_left [] = true
none_left (o ∷ os) = false

unfoldable pub save_checkpoint : Option CheckpointRef → RunRow → ExecutionContext → Db RunRow
save_checkpoint none r ctx = pure r
save_checkpoint (some c) r ctx =
    update_run r.id r.revision (RunField.checkpoint_ref (some c) ∷ []) (some ctx)

unfoldable pub given_error : Option ErrorEnvelope → Db ErrorEnvelope
given_error none = do k ← new_id; pure (stopped k)
given_error (some e) = pure e

module _ (host : Host) where
  unfoldable pub settle_cancelling : RunRow → ExecutionContext → List OperationRow → Db RunRow
  settle_cancelling r ctx unresolved = do
    cs ← Waits.children r.id
    after ←
        (if none_left unresolved && all_ended cs
          then transition host r RunStatus.cancelled (some ctx) (some "executor left") []
          else pure r)
    end_attempt ctx.worker_attempt_id "cancel"
    pure after

  unfoldable pub settle_waiting : RunRow → ExecutionContext → RuntimeOutcome → Db RunRow
  settle_waiting r ctx outcome = do
    checkpoint ← or_raise checkpoint_required outcome.checkpoint_ref
    for_each outcome.interrupt_refs (bind_interrupt r ctx checkpoint)
    transition host r (waiting_status outcome.interrupt_refs) (some ctx) none (
        RunField.required_interrupts
          (map (λ (ref : InterruptRef). ref.interrupt_id) outcome.interrupt_refs)
        ∷ [])
    end_attempt ctx.worker_attempt_id "waiting"
    refresh_waits_of host (some r.id)
    wake host r.id
    run r.id none

  unfoldable pub settle_final : RunRow → ExecutionContext → RuntimeOutcome → Db RunRow
  settle_final r ctx outcome = do
    require (is_some outcome.checkpoint_ref) final_not_durable
    result ← or_raise final_not_durable outcome.result_ref
    readable_artifact host result.artifact_id (some ctx.owner_id)
    cs ← Waits.children ctx.run_id
    require (all_ended cs) children_unsettled
    transition host r RunStatus.completed (some ctx) none (RunField.result_ref (some result) ∷ [])

  unfoldable pub settle_error : RunRow → ExecutionContext → RuntimeOutcome → Db RunRow
  settle_error r ctx outcome = do
    e ← given_error outcome.error
    transition host r RunStatus.failed (some ctx) none (RunField.error (some e) ∷ [])

  unfoldable pub end_with :
      RunRow → ExecutionContext → RuntimeOutcome → List OperationRow → Db RunRow
  end_with r ctx outcome unresolved =
      if not (none_left unresolved)
      then transition host r RunStatus.needs_review (some ctx) (some "unknown operations") []
      else elim outcome.kind [ final ↦ settle_final r ctx outcome | _ ↦ settle_error r ctx outcome ]

  unfoldable pub settle_running :
      RunRow → ExecutionContext → RuntimeOutcome → List OperationRow → Db RunRow
  settle_running r ctx outcome unresolved = elim outcome.kind [
    | waiting ↦ settle_waiting r ctx outcome
    | other ↦ (do
      after ← end_with r ctx outcome unresolved
      end_attempt ctx.worker_attempt_id (kind_name outcome.kind)
      pure after)
  ]

  -- Scheduler.settle
  unfoldable pub settle : ExecutionContext → RuntimeOutcome → Db RunRow
  unfolding save_checkpoint settle_cancelling settle_running settle_waiting end_with settle_final
      settle_error given_error
  settle ctx outcome = do
    require (same outcome.run_id ctx.run_id && outcome.input_revision == ctx.input_revision)
        outcome_mismatch
    transaction (do
      assert_fence ctx true
      read ← run ctx.run_id none
      r ← save_checkpoint outcome.checkpoint_ref read ctx
      ops ← operations ctx.run_id
      let unresolved : List OperationRow = select is_unresolved ops
      if same_status r.status RunStatus.cancelling
          then settle_cancelling r ctx unresolved
          else settle_running r ctx outcome unresolved)
