-- ===== src/Scheduler/Claim.antt =====
-- Scheduler.claim, context, heartbeat and boundary of harness/scheduler/service.py: a worker takes
-- a queued run under a new fencing token, within the limits of the configuration.
use mi_harness.Prelude.{
  ℕ, ◌+◌, String, Bool, false, not, ◌&&◌, ◌||◌, Option, none, some, List, [], ◌∷◌, leb,
  if◌then◌else◌, same, same?, is_some, length, select,
}
use mi_harness.Exec.{
  pure, transaction, new_id, utc_now, after_seconds, ◌>>=◌, ◌>>◌, require, or_raise,
  deadline_exceeded, key_error,
}
use mi_harness.Core.{RunStatus, ExecutionContext}
use mi_harness.Host.{Host}
use mi_harness.Store.Schema.{BranchRow, RunRow, Db}
use mi_harness.Store.Records
use mi_harness.Store.Branches.{branch, set_branch_owner}
use mi_harness.Store.Runs.{runs, RunField, assert_fence, add_attempt, heartbeat}
use mi_harness.Scheduler.Transition.{transition}
use mi_harness.Scheduler.Submit.{SchedulerConfig, in_maintenance}

-- Scheduler.context; a run without an attempt is no context.
unfoldable pub context : RunRow → Db ExecutionContext
context r = do
  b ← branch r.branch_id
  held ← or_raise key_error r.attempt_id
  pure (record {
    owner_id = r.owner_id;
    workspace_id = r.workspace_id;
    session_id = r.session_id;
    branch_id = r.branch_id;
    run_id = r.id;
    root_run_id = r.root_run_id;
    parent_run_id = r.parent_run_id;
    worker_attempt_id = held;
    fencing_token = r.fencing_token;
    graph_thread_key = b.graph_thread_key;
    input_revision = r.input_revision;
    config_snapshot_id = r.snapshot_id;
    deadline_at = r.deadline_at;
    trace_id = r.root_run_id;
  })

-- The owner of the branch is None or the run itself.
abbrev pub is_free_for : RunRow → BranchRow → Bool
is_free_for r b = not (is_some b.active_run_id) || same? b.active_run_id (some r.id)

abbrev is_sibling : RunRow → RunRow → Bool
is_sibling r x = same x.root_run_id r.root_run_id && is_some x.parent_run_id

-- A child waits while as many children of its root run as are allowed at once.
abbrev pub too_many_siblings : SchedulerConfig → List RunRow → RunRow → Bool
too_many_siblings config busy r =
    is_some r.parent_run_id && leb config.child_concurrency (length (select (is_sibling r) busy))

module _ (host : Host) (config : SchedulerConfig) where
  unfoldable pub take_run : String → ℕ → ℕ → RunRow → BranchRow → Db (Option ExecutionContext)
  take_run worker_id pid process_start r b = do
    set_branch_owner b.id b.active_run_id (some r.id)
    fresh ← new_id
    let fence : ℕ = r.fencing_token + 1
    expiry ← after_seconds config.lease_seconds
    add_attempt fresh r.id worker_id pid process_start expiry fence
    started ←
        transition host r RunStatus.running none none
          (RunField.attempt_id (some fresh) ∷ RunField.fencing_token fence ∷ [])
    ctx ← context started
    pure (some ctx)

  -- The loop of Scheduler.claim over the queued runs.
  unfoldable pub claim_from :
      String → ℕ → ℕ → List RunRow → List RunRow → Db (Option ExecutionContext)
  unfolding take_run
  claim_from worker_id pid process_start busy [] = pure none
  claim_from worker_id pid process_start busy (r ∷ rest) =
      let further = claim_from worker_id pid process_start busy rest in
      do
        b ← branch r.branch_id
        if not (is_free_for r b)
            then further
            else if r.cancel_requested
            then (do transition host r RunStatus.cancelled none (some "cancelled") []; further)
            else if too_many_siblings config busy r
            then further
            else take_run worker_id pid process_start r b

  unfoldable pub within_slots : String → ℕ → ℕ → List RunRow → Db (Option ExecutionContext)
  within_slots worker_id pid process_start busy =
      if leb config.worker_slots (length busy) then pure none else (do
        waiting ← runs none (RunStatus.queued ∷ []) none
        claim_from worker_id pid process_start busy waiting)

  -- Scheduler.claim, for the process `pid` that was started at `process_start`.
  unfoldable pub claim : String → ℕ → ℕ → Db (Option ExecutionContext)
  unfolding within_slots
  claim worker_id pid process_start = do
    saved ← Records.get "system" "maintenance"
    if in_maintenance saved
        then pure none
        else transaction (do
          busy ← runs none (RunStatus.running ∷ RunStatus.cancelling ∷ []) none
          within_slots worker_id pid process_start busy)

  -- Scheduler.heartbeat
  unfoldable pub renew_lease : ExecutionContext → Db Unit
  renew_lease ctx = do expiry ← after_seconds config.lease_seconds; heartbeat ctx expiry

abbrev past : Option ℕ → ℕ → Bool
past none now = false
past (some deadline) now = leb deadline now

-- Scheduler.boundary
unfoldable pub boundary : ExecutionContext → Db Unit
boundary ctx = do
  assert_fence ctx false
  now ← utc_now
  require (not (past ctx.deadline_at now)) deadline_exceeded
