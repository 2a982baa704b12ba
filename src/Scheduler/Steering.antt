-- ===== src/Scheduler/Steering.antt =====
-- Scheduler.steer, validate_branch_source and create_branch of harness/scheduler/service.py.
use mi_harness.Prelude.{
  ℕ, ◌+◌, String, Bool, false, not, ◌&&◌, Option, none, some, List, [], ◌∷◌, ltb, ◌==◌,
  if◌then◌else◌, same, is_some, get_or_else, any, find_row,
}
use mi_harness.Exec.{
  pure, transaction, ◌>>=◌, ◌>>◌, require, or_raise, steering_unavailable, revision_conflict,
  side_effect_policy, checkpoint_unavailable,
}
use mi_harness.Core.{RunStatus, status_in, CheckpointRef, same_checkpoint}
use mi_harness.Store.Schema.{Payload, BranchRow, RunRow, InputCommandRow, Db}
use mi_harness.Store.Records
use mi_harness.Store.Branches.{branches, add_branch}
use mi_harness.Store.Runs.{run, runs}
use mi_harness.Store.Commands.{add_input_command, pending_input_commands}
use mi_harness.Store.Projects.{session}

-- max([revision] + [x["input_revision"] for x in pending])
unfoldable pub latest_revision : ℕ → List InputCommandRow → ℕ
latest_revision n [] = n
latest_revision n (c ∷ cs) =
    latest_revision (if ltb n c.input_revision then c.input_revision else n) cs

-- Scheduler.steer
unfoldable pub steer : String → String → String → ℕ → Db InputCommandRow
steer owner run_id text expected = transaction (do
  r ← run run_id (some owner)
  require (status_in r.status (RunStatus.running ∷ RunStatus.queued ∷ []) && not r.cancel_requested)
      steering_unavailable
  pending ← pending_input_commands run_id
  require (latest_revision r.input_revision pending == expected) revision_conflict
  add_input_command run_id (latest_revision r.input_revision pending + 1) text)

abbrev same_checkpoint? : Option CheckpointRef → CheckpointRef → Bool
same_checkpoint? none c = false
same_checkpoint? (some a) c = same_checkpoint a c

abbrev stopped_at : String → CheckpointRef → RunRow → Bool
stopped_at branch_id checkpoint r =
    same r.branch_id branch_id && same_checkpoint? r.checkpoint_ref checkpoint

-- Scheduler.validate_branch_source
unfoldable pub validate_branch_source : String → String → CheckpointRef → ℕ → String → Db BranchRow
validate_branch_source owner session_id checkpoint expected policy = do
  session session_id (some owner)
  require (same policy "preserve_external") side_effect_policy
  bs ← branches session_id
  source ←
      or_raise revision_conflict
        (find_row (λ (b : BranchRow). same b.graph_thread_key checkpoint.graph_thread_key) bs)
  require (source.revision == expected) revision_conflict
  rs ← runs (some session_id) [] none
  require (any (stopped_at source.id checkpoint) rs && not (is_some source.active_run_id))
      checkpoint_unavailable
  pure source

abbrev copied_pins : Option Payload → Option Payload
copied_pins (some (Payload.context_pins revision text)) = some (Payload.context_pins 1 text)
copied_pins _ = none

copy_pins : Option Payload → String → Db Unit
copy_pins none branch_id = pure tt
copy_pins (some p) branch_id = Records.put "context_pins" branch_id p

-- Scheduler.create_branch
unfoldable pub create_branch :
    String
    → String
    → CheckpointRef
    → ℕ
    → String
    → Option String
    → Option CheckpointRef
    → Db BranchRow
unfolding copy_pins
create_branch owner session_id checkpoint expected policy thread copied = transaction (do
  source ← validate_branch_source owner session_id checkpoint expected policy
  b ← add_branch session_id (some source.id) (some (get_or_else copied checkpoint)) thread
  pins ← Records.get "context_pins" source.id
  copy_pins (copied_pins pins) b.id
  pure b)
