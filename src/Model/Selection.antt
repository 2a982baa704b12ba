-- ===== src/Model/Selection.antt =====
-- The choice of a model for a run in progress, in harness/runtime/model_selection.py: a request
-- (`select`) waits until a logical call takes it (`bind`), refuses it (`reject`) or the run ends
-- (`finish`). A new request supersedes the one that waits.
use mi_harness.Prelude.{
  ℕ, ◌+◌, String, Bool, true, false, not, ◌&&◌, ◌||◌, Option, none, some, [], ◌∷◌, ◌==◌,
  if◌then◌else◌, same, is_some,
}
use mi_harness.Exec.{
  pure, transaction, new_id, utc_now, ◌>>=◌, ◌>>◌, require, when, or_raise, run_stopped,
  revision_conflict, run_branch_conflict, model_selection_disabled, preferences_revision_required,
  value_error,
}
use mi_harness.Core.{RunStatus, status_in, same_status, ExecutionContext}
use mi_harness.Host.{Host}
use mi_harness.Store.Schema.{
  SelectionStatus, ModelControl, ModelCommand, CallBinding, Payload, RunRow, Document, Value, text,
  num, Db,
}
use mi_harness.Store.Records.{get, put, compare_and_set}
use mi_harness.Store.Runs.{run, assert_fence}
use mi_harness.Store.Branches.{branch}
use mi_harness.Store.Events.{event, messages}
use mi_harness.Policy.Engine.{as_snapshot}
use mi_harness.Model.Preferences.{SelectionConfig, have_images, validate, update_preferences}

abbrev as_control : Option Payload → Option ModelControl
as_control (some (Payload.model_control c)) = some c
as_control _ = none

abbrev as_command : Option Payload → Option ModelCommand
as_command (some (Payload.model_command c)) = some c
as_command _ = none

abbrev pub as_binding : Option Payload → Option CallBinding
as_binding (some (Payload.call_binding b)) = some b
as_binding _ = none

abbrev is_requested : SelectionStatus → Bool
is_requested SelectionStatus.requested = true
is_requested _ = false

abbrev status_name : SelectionStatus → String
status_name SelectionStatus.initial = "initial"
status_name SelectionStatus.requested = "requested"
status_name SelectionStatus.superseded = "superseded"
status_name SelectionStatus.applied = "applied"
status_name SelectionStatus.rejected = "rejected"
status_name SelectionStatus.not_applied = "not_applied"

abbrev text? : Option String → Value
text? none = Value.null
text? (some t) = text t

-- The control as the data of an event.
abbrev control_document : ModelControl → Document
control_document c =
    ("run_id", text c.run_id)
    ∷ ("control_revision", num c.control_revision)
    ∷ ("effective_revision", num c.effective_revision)
    ∷ ("desired_profile_ref", text c.desired_profile_ref)
    ∷ ("effective_profile_ref", text c.effective_profile_ref)
    ∷ ("status", text (status_name c.status))
    ∷ ("command_id", text? c.command_id)
    ∷ ("reason", text? c.reason)
    ∷ []

unfoldable pub saved_or_initial : RunRow → Option ModelControl → Db ModelControl
saved_or_initial r (some saved) = pure saved
saved_or_initial r none = do
  found ← get "snapshots" r.snapshot_id
  s ← or_raise value_error (as_snapshot found)
  pure (record {
    run_id = r.id;
    control_revision = 0;
    effective_revision = 0;
    desired_profile_ref = s.model_policy_ref;
    effective_profile_ref = s.model_policy_ref;
    status = SelectionStatus.initial;
    command_id = none;
    reason = none;
  })

-- ModelSelectionService.control
unfoldable pub control : String → Db ModelControl
control run_id = do
  r ← run run_id none
  saved ← get "run_model_controls" run_id
  saved_or_initial r (as_control saved)

-- The command that the control names, changed and written back.
unfoldable pub change_command : Option String → (ModelCommand → ModelCommand) → Db Unit
change_command none change = pure tt
change_command (some id) change = do
  saved ← get "run_model_commands" id
  c ← or_raise value_error (as_command saved)
  put "run_model_commands" id (Payload.model_command (change c))

pub record SelectRequest : Type 0 where
  pub model_profile_ref : String
  pub expected_control_revision : ℕ
  pub persist_for_session : Bool
  pub expected_preferences_revision : Option ℕ

abbrev is_other_owner : Option String → String → Bool
is_other_owner none run_id = false
is_other_owner (some id) run_id = not (same id run_id)

abbrev stopped : RunRow → Bool
stopped r =
    status_in r.status
      (RunStatus.completed ∷ RunStatus.failed ∷ RunStatus.cancelled ∷ RunStatus.cancelling ∷ [])
    || r.cancel_requested

-- The command that waits gives way to the new one.
unfoldable pub supersede : String → ModelControl → Db Unit
supersede run_id old = when (is_some old.command_id && is_requested old.status) (do
  change_command old.command_id (λ c. record c { status = SelectionStatus.superseded })
  event run_id "model.selection.superseded" (("command_id", text? old.command_id) ∷ [])
  pure tt)

module _ (host : Host) (config : SelectionConfig) where
  persist : String → RunRow → SelectRequest → Db Unit
  persist owner r q = when q.persist_for_session (do
    expected ← or_raise preferences_revision_required q.expected_preferences_revision
    update_preferences host config owner r.session_id (some q.model_profile_ref) none expected
    pure tt)

  -- The transaction of `select`.
  unfoldable pub request_model : String → String → SelectRequest → Db ModelControl
  unfolding persist
  request_model owner run_id q = transaction (do
    r ← run run_id (some owner)
    b ← branch r.branch_id
    require (not (stopped r)) run_stopped
    require (not (is_other_owner b.active_run_id run_id) || same_status r.status RunStatus.queued)
        run_branch_conflict
    old ← control run_id
    require (old.control_revision == q.expected_control_revision) revision_conflict
    persist owner r q
    supersede run_id old
    identity ← new_id
    now ← utc_now
    put "run_model_commands" identity (
        Payload.model_command (record {
          command_id = identity;
          run_id = run_id;
          control_revision = old.control_revision + 1;
          profile_ref = q.model_profile_ref;
          owner_id = owner;
          accepted_at = now;
          status = SelectionStatus.requested;
          logical_call_id = none;
          reason = none;
        }))
    let current : ModelControl = record old {
      command_id = some identity;
      control_revision = old.control_revision + 1;
      desired_profile_ref = q.model_profile_ref;
      status = SelectionStatus.requested;
    }
    put "run_model_controls" run_id (Payload.model_control current)
    event run_id "model.selection.requested" (control_document current)
    pure current)

  -- ModelSelectionService.select
  unfoldable pub select_model : String → String → SelectRequest → Db ModelControl
  select_model owner run_id q = do
    require config.hot_model_selection model_selection_disabled
    r ← run run_id (some owner)
    rows ← messages r.branch_id none
    validate host config owner (some q.model_profile_ref) (have_images rows)
    request_model owner run_id q

-- A candidate of a logical call: what the control asks for, or what the call is bound to.
pub record Candidate : Type 0 where
  pub logical_call_id : String
  pub run_id : String
  pub control_revision : ℕ
  pub profile_ref : String

abbrev pub bound_candidate : CallBinding → Candidate
bound_candidate b = record {
  logical_call_id = b.logical_call_id;
  run_id = b.run_id;
  control_revision = b.control_revision;
  profile_ref = b.profile_ref;
}

-- ModelSelectionService.candidate
unfoldable pub candidate : ExecutionContext → String → Db Candidate
candidate ctx logical_id = do
  assert_fence ctx false
  saved ← get "model_call_bindings" logical_id
  c ← control ctx.run_id
  elim (as_binding saved) [
    | some b ↦ pure (bound_candidate b)
    | none ↦ pure (record {
      logical_call_id = logical_id;
      run_id = ctx.run_id;
      control_revision = c.control_revision;
      profile_ref = c.desired_profile_ref;
    })
  ]

-- What `bind` writes for a candidate of the current control.
unfoldable pub apply_candidate :
    ExecutionContext → Candidate → String → ModelControl → Db CallBinding
apply_candidate ctx c view_id current = do
  now ← utc_now
  let b : CallBinding = record {
    logical_call_id = c.logical_call_id;
    run_id = c.run_id;
    control_revision = c.control_revision;
    profile_ref = c.profile_ref;
    input_view_id = view_id;
    fencing_token = ctx.fencing_token;
    bound_at = now;
  }
  compare_and_set "model_call_bindings" c.logical_call_id none (Payload.call_binding b)
  let applied : ModelControl = record current {
    effective_profile_ref = c.profile_ref;
    effective_revision = c.control_revision;
    status = SelectionStatus.applied;
  }
  put "run_model_controls" ctx.run_id (Payload.model_control applied)
  change_command current.command_id
      (λ m. record m { status = SelectionStatus.applied; logical_call_id = some c.logical_call_id })
  event ctx.run_id "model.selection.applied" (control_document applied)
  pure b

unfoldable pub bound_or_apply :
    Option CallBinding → ExecutionContext → Candidate → String → Db (Option CallBinding)
bound_or_apply (some b) ctx c view_id = pure (some b)
bound_or_apply none ctx c view_id = do
  current ← control ctx.run_id
  if not (c.control_revision == current.control_revision)
      then pure none
      else (do b ← apply_candidate ctx c view_id current; pure (some b))

-- ModelSelectionService.bind
unfoldable pub bind : ExecutionContext → Candidate → String → Db (Option CallBinding)
bind ctx c view_id = transaction (do
  assert_fence ctx false
  saved ← get "model_call_bindings" c.logical_call_id
  bound_or_apply (as_binding saved) ctx c view_id)

-- ModelSelectionService.reject
unfoldable pub reject : ExecutionContext → Candidate → String → Db Unit
reject ctx c code = transaction (do
  assert_fence ctx false
  old ← control ctx.run_id
  when (c.control_revision == old.control_revision) (do
    let current : ModelControl = record old {
      status = SelectionStatus.rejected;
      reason = some code;
    }
    put "run_model_controls" ctx.run_id (Payload.model_control current)
    change_command old.command_id
        (λ m. record m { status = SelectionStatus.rejected; reason = some code })
    event ctx.run_id "model.selection.rejected" (control_document current)
    pure tt))

-- ModelSelectionService.finish
unfoldable pub finish : RunRow → Db Unit
finish r = do
  old ← control r.id
  when (is_requested old.status) (do
    let current : ModelControl = record old { status = SelectionStatus.not_applied }
    put "run_model_controls" r.id (Payload.model_control current)
    id ← or_raise value_error old.command_id
    change_command (some id) (λ m. record m { status = SelectionStatus.not_applied })
    event r.id "model.selection.not_applied" (control_document current)
    pure tt)
