-- ===== src/Scheduler/Transition.antt =====
-- Scheduler.transition of harness/scheduler/service.py: the table of allowed status changes, and
-- what a run leaves behind when it ends.
use Prim.Native.String.{◌++◌ as text_append}
use mi_harness.Prelude.{
  ℕ, String, Bool, false, Option, none, some, List, [], ◌∷◌, if◌then◌else◌, same?, contains,
}
use mi_harness.Prelude.Int.{pos}
use mi_harness.Exec.{
  pure, transaction, utc_now, ◌>>=◌, ◌>>◌, require, when, for_each, invalid_transition,
}
use mi_harness.Core.{
  RunStatus, is_terminal, status_in, ExecutionContext, ArtifactRef, ErrorEnvelope,
}
use mi_harness.Host.{Host}
use mi_harness.Store.Schema.{
  Value, Document, RunRow, OperationState, ToolResult, OperationRow, InteractionStatus,
  ResolutionOutcome, Resolution, InteractionRow, ReservationRow, Db, num, text, null, status,
  artifact, failure,
}
use mi_harness.Store.Branches.{branch, set_branch_owner}
use mi_harness.Store.Runs.{RunField, update_run}
use mi_harness.Store.Events.{outbox, event}
use mi_harness.Store.Operations.{operations, OperationField, update_operation}
use mi_harness.Store.Grants.{may_start, revoke_grants}
use mi_harness.Store.Interactions.{is_pending, interactions, InteractionField, update_interaction}
use mi_harness.Store.Budget.{reservation, settle}

-- ALLOWED
unfoldable pub allowed_next : RunStatus → RunStatus → Bool
allowed_next RunStatus.queued s = status_in s (RunStatus.running ∷ RunStatus.cancelled ∷ [])
allowed_next RunStatus.running s = status_in s (
    RunStatus.waiting_user ∷ RunStatus.waiting_children ∷ RunStatus.recovering
    ∷ RunStatus.needs_review ∷ RunStatus.completed ∷ RunStatus.failed ∷ RunStatus.cancelling ∷ [])
allowed_next RunStatus.waiting_user s =
    status_in s (RunStatus.queued ∷ RunStatus.cancelled ∷ RunStatus.cancelling ∷ [])
allowed_next RunStatus.waiting_children s =
    status_in s (RunStatus.queued ∷ RunStatus.cancelling ∷ [])
allowed_next RunStatus.recovering s =
    status_in s (RunStatus.queued ∷ RunStatus.needs_review ∷ RunStatus.cancelling ∷ [])
allowed_next RunStatus.needs_review s = status_in s (RunStatus.queued ∷ RunStatus.cancelling ∷ [])
allowed_next RunStatus.cancelling s = status_in s (RunStatus.cancelled ∷ [])
allowed_next _ s = false

abbrev text_or_null : Option String → Value
text_or_null none = null
text_or_null (some t) = text t

abbrev pub artifact_or_null : Option ArtifactRef → Value
artifact_or_null none = null
artifact_or_null (some a) = artifact a

abbrev failure_or_null : Option ErrorEnvelope → Value
failure_or_null none = null
failure_or_null (some e) = failure e

-- Scheduler._event_state
unfoldable pub event_state : RunRow → String → Option String → Db Unit
event_state r kind reason = do
  event r.id kind (
      ("revision", num r.revision)
      ∷ ("status", status r.status)
      ∷ ("reason", text_or_null reason)
      ∷ ("result_ref", artifact_or_null r.result_ref)
      ∷ ("error", failure_or_null r.error)
      ∷ [])
  pure tt

abbrev pub event_name : RunStatus → String
event_name RunStatus.completed = "run.completed"
event_name RunStatus.failed = "run.failed"
event_name RunStatus.cancelled = "run.cancelled"
event_name RunStatus.running = "run.started"
event_name RunStatus.queued = "run.queued"
event_name _ = "run.state_changed"

abbrev cancelled_resolution : InteractionRow → String → Resolution
cancelled_resolution i reason = record {
  interrupt_id = i.interrupt_id;
  outcome = ResolutionOutcome.cancelled;
  response = none;
  reason = reason;
  children = [];
}

abbrev pub resolved_data : InteractionRow → String → Document
resolved_data i how =
    ("interaction_id", text i.id) ∷ ("revision", num i.revision) ∷ ("resolution", text how) ∷ []

-- An open or unbound interaction is closed without an answer.
unfoldable pub close_interaction : String → String → InteractionRow → Db Unit
close_interaction run_id reason i = when (is_pending i.status) (do
  closed ← update_interaction i.id i.revision (
      InteractionField.status InteractionStatus.cancelled
      ∷ InteractionField.resolution (cancelled_resolution i reason)
      ∷ [])
  event run_id "interaction.resolved" (resolved_data closed "cancelled")
  pure tt)

abbrev pub result_of :
    String → OperationState → String → String → Option String → Option ℕ → ToolResult
result_of operation_id state summary data' error_code completed_at = record {
  operation_id = operation_id;
  status = state;
  summary = summary;
  structured_data = data';
  artifact_refs = [];
  error_code = error_code;
  started_at = none;
  completed_at = completed_at;
}

-- A tool call that waits counts as used.
abbrev used_call : String → ℕ
used_call tool_id = if contains tool_id ("request_input" ∷ "wait_children" ∷ []) then 1 else 0

unfoldable pub release_call : Option ReservationRow → OperationRow → Db Unit
release_call none o = pure tt
release_call (some r) o = do
  settle (text_append "tool:" o.id) (some (("tool_calls", pos (used_call o.tool_id)) ∷ []))
  pure tt

abbrev ended_summary : String
ended_summary = "任务已结束，操作不再继续"

-- An operation that has not started is cancelled, and its reserved call is released. The empty
-- list of artifacts in the event is left out.
unfoldable pub close_operation : String → OperationRow → Db Unit
close_operation run_id o = when (may_start o.state) (do
  now ← utc_now
  update_operation o.id o.revision
      (OperationField.state OperationState.cancelled
        ∷ OperationField.result (
            some (
              result_of o.id OperationState.cancelled ended_summary "" (some "RUN_TERMINAL")
                (some now)))
        ∷ [])
      none
  held ← reservation (text_append "tool:" o.id)
  release_call held o
  event run_id "tool.completed" (
      ("operation_id", text o.id)
      ∷ ("tool_id", text o.tool_id)
      ∷ ("tool_revision", text o.tool_revision)
      ∷ ("result_status", text "cancelled")
      ∷ ("result_summary", text ended_summary)
      ∷ [])
  pure tt)

abbrev completed_data : RunRow → RunRow → Document
completed_data r updated =
    ("child_run_id", text r.id)
    ∷ ("goal_summary", text r.input.text)
    ∷ ("status", status updated.status)
    ∷ ("result_ref", artifact_or_null updated.result_ref)
    ∷ []

unfoldable pub tell_parent : Option String → RunRow → RunRow → Db Unit
tell_parent none r updated = pure tt
tell_parent (some parent) r updated = do
  outbox "children" r.id (("child_run_id", text r.id) ∷ ("parent_run_id", text parent) ∷ [])
  event parent "child.completed" (completed_data r updated)
  pure tt

-- Only the run that owns the branch gives it up.
unfoldable pub release_branch : RunRow → Db Unit
release_branch r = do
  b ← branch r.branch_id
  when (same? b.active_run_id (some r.id)) (set_branch_owner b.id (some r.id) none)

module _ (host : Host) where
  -- The block `if status in TERMINAL` of Scheduler.transition.
  unfoldable pub finish : RunRow → RunRow → Db Unit
  finish r updated = do
    release_branch r
    revoke_grants r.id []
    open_interactions ← interactions r.id
    for_each open_interactions (close_interaction r.id "run_terminal")
    unfinished ← operations r.id
    for_each unfinished (close_operation r.id)
    host.terminal_hook updated
    tell_parent r.parent_run_id r updated

  -- Scheduler.transition
  unfoldable pub transition :
      RunRow → RunStatus → Option ExecutionContext → Option String → List RunField → Db RunRow
  transition r next ctx reason extra = do
    require (allowed_next r.status next) invalid_transition
    transaction (do
      updated ← update_run r.id r.revision (RunField.status next ∷ extra) ctx
      when (is_terminal next) (finish r updated)
      event_state updated (event_name next) reason
      pure updated)
