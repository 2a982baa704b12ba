-- ===== src/Safety/Quiet.antt =====
-- What the clean-up of a run in harness/scheduler/service.py leaves alone: a statement of the
-- database that no write to these tables changes.
use mi_harness.Prelude.{String, ℕ, Option, none, some, List, update_rows}
use mi_harness.Exec.{◌>>=◌, ◌>>◌, for_each}
use mi_harness.Exec.Keeps.{Keeps, Keeps-modify, keeps_rules}
use mi_harness.Core.{ExecutionContext, CheckpointRef}
use mi_harness.Store.Schema.{
  Document, RunRow, EventRow, OutboxRow, OperationRow, InteractionRow, BranchRow, Amount,
  AccountRow, ReservationRow, AttemptRow, WaitRow, Resolution, Database, Db,
}
use mi_harness.Store.Runs.{with_run_id, run, attempt, assert_fence, check_fence, end_attempt}
use mi_harness.Store.Branches.{branch, set_branch_owner}
use mi_harness.Store.Budget.{
  account, reservation, set_balance, set_state, settle_open, settle_saved, settle,
}
use mi_harness.Store.Events.{bump_seq, outbox, event}
use mi_harness.Store.Operations.{operation, operations, OperationField, update_operation}
use mi_harness.Store.Interactions.{interaction, interactions, InteractionField, update_interaction}
use mi_harness.Store.Waits.{wait, update_wait}
use mi_harness.Scheduler.Transition.{
  event_state, close_interaction, release_call, close_operation, tell_parent, release_branch,
}

pub record IsQuiet (P : Database → Type 0) : Type 0 where
  pub outbox : (d : Database) (rows : List OutboxRow) → P d → P (record d { outbox = rows })
  pub events : (d : Database) (rows : List EventRow) → P d → P (record d { run_events = rows })
  pub bump :
      (d : Database) (k : String)
      → P d
      → P (record d { runs = update_rows (with_run_id k) bump_seq d.runs })
  pub operations :
      (d : Database) (rows : List OperationRow) → P d → P (record d { tool_executions = rows })
  pub interactions :
      (d : Database) (rows : List InteractionRow) → P d → P (record d { interactions = rows })
  pub branches : (d : Database) (rows : List BranchRow) → P d → P (record d { branches = rows })
  pub accounts :
      (d : Database) (rows : List AccountRow) → P d → P (record d { budget_accounts = rows })
  pub reservations :
      (d : Database) (rows : List ReservationRow)
      → P d
      → P (record d { budget_reservations = rows })
  pub attempts :
      (d : Database) (rows : List AttemptRow) → P d → P (record d { run_attempts = rows })
  pub waits : (d : Database) (rows : List WaitRow) → P d → P (record d { run_waits = rows })

module _ (P : Database → Type 0) (quiet : IsQuiet P) where
  outbox-Keeps : (c k : String) (payload : Document) → Keeps P (outbox c k payload)
  unfolding outbox
  outbox-Keeps c k payload = search (keeps_rules, Keeps-modify, quiet.outbox) depth 12

  pub event-Keeps : (k kind : String) (payload : Document) → Keeps P (event k kind payload)
  unfolding event run
  event-Keeps k kind payload =
      search (keeps_rules, Keeps-modify, outbox-Keeps, quiet.bump, quiet.events) depth 14

  pub check_fence-Keeps : (ctx : Option ExecutionContext) → Keeps P (check_fence ctx)
  unfolding assert_fence run attempt
  check_fence-Keeps none = search keeps_rules
  check_fence-Keeps (some ctx) = search keeps_rules depth 14

  pub update_operation-Keeps :
      (id : String) (n : ℕ) (patch : List OperationField) (ctx : Option ExecutionContext)
      → Keeps P (update_operation id n patch ctx)
  unfolding update_operation operation
  update_operation-Keeps id n patch ctx =
      search (keeps_rules, Keeps-modify, check_fence-Keeps, quiet.operations) depth 16

  pub interaction-Keeps : (id : String) → Keeps P (interaction id)
  unfolding interaction
  interaction-Keeps id = search keeps_rules depth 14

  pub update_interaction-Keeps :
      (id : String) (n : ℕ) (patch : List InteractionField)
      → Keeps P (update_interaction id n patch)
  unfolding update_interaction
  update_interaction-Keeps id n patch =
      search (keeps_rules, Keeps-modify, interaction-Keeps, quiet.interactions) depth 16

  pub branch-Keeps : (id : String) → Keeps P (branch id)
  unfolding branch
  branch-Keeps id = search keeps_rules depth 14

  pub set_branch_owner-Keeps :
      (id : String) (expected owner : Option String) → Keeps P (set_branch_owner id expected owner)
  unfolding set_branch_owner
  set_branch_owner-Keeps id expected owner =
      search (keeps_rules, Keeps-modify, quiet.branches) depth 14

  pub release_branch-Keeps : (r : RunRow) → Keeps P (release_branch r)
  unfolding release_branch
  release_branch-Keeps r = search (keeps_rules, branch-Keeps, set_branch_owner-Keeps) depth 16

  settle_open-Keeps :
      (r : ReservationRow) (k : String) (a : Option Amount) → Keeps P (settle_open r k a)
  unfolding settle_open set_state set_balance account
  settle_open-Keeps r k none = search (keeps_rules, Keeps-modify, quiet.reservations) depth 14
  settle_open-Keeps r k (some a) =
      search (keeps_rules, Keeps-modify, quiet.reservations, quiet.accounts) depth 16

  pub settle-Keeps : (k : String) (a : Option Amount) → Keeps P (settle k a)
  unfolding settle settle_saved reservation
  settle-Keeps k a = search (keeps_rules, settle_open-Keeps) depth 16

  pub close_interaction-Keeps :
      (k reason : String) (i : InteractionRow) → Keeps P (close_interaction k reason i)
  unfolding close_interaction
  close_interaction-Keeps k reason i =
      search (keeps_rules, update_interaction-Keeps, event-Keeps) depth 14

  release_call-Keeps :
      (saved : Option ReservationRow) (o : OperationRow) → Keeps P (release_call saved o)
  unfolding release_call
  release_call-Keeps none o = search keeps_rules
  release_call-Keeps (some r) o = search (keeps_rules, settle-Keeps) depth 14

  pub close_operation-Keeps : (k : String) (o : OperationRow) → Keeps P (close_operation k o)
  unfolding close_operation reservation
  close_operation-Keeps k o =
      search (keeps_rules, update_operation-Keeps, release_call-Keeps, event-Keeps) depth 16

  pub tell_parent-Keeps :
      (p : Option String) (r updated : RunRow) → Keeps P (tell_parent p r updated)
  unfolding tell_parent
  tell_parent-Keeps none r updated = search keeps_rules
  tell_parent-Keeps (some p) r updated = search (keeps_rules, outbox-Keeps, event-Keeps) depth 14

  pub event_state-Keeps :
      (r : RunRow) (kind : String) (reason : Option String) → Keeps P (event_state r kind reason)
  unfolding event_state
  event_state-Keeps r kind reason = search (keeps_rules, event-Keeps) depth 14

  pub interactions-Keeps : (k : String) → Keeps P (interactions k)
  unfolding interactions
  interactions-Keeps k = search keeps_rules

  pub operations-Keeps : (k : String) → Keeps P (operations k)
  unfolding operations
  operations-Keeps k = search keeps_rules

  pub end_attempt-Keeps : (k reason : String) → Keeps P (end_attempt k reason)
  unfolding end_attempt
  end_attempt-Keeps k reason = search (keeps_rules, Keeps-modify, quiet.attempts)

  pub wait-Keeps : (k : String) → Keeps P (wait k)
  unfolding wait
  wait-Keeps k = search keeps_rules

  pub update_wait-Keeps :
      (k : String) (n : ℕ) (i : Option String) (c : Option CheckpointRef) (x : Option Resolution)
      → Keeps P (update_wait k n i c x)
  unfolding update_wait
  update_wait-Keeps k n i c x = search (keeps_rules, Keeps-modify, quiet.waits) depth 14

  -- The part of `finish` after the grants have been revoked.
  pub clean_up-Keeps :
      (r updated : RunRow) (hook : Db Unit)
      → Keeps P hook
      → Keeps P (do
        open_interactions ← interactions r.id
        for_each open_interactions (close_interaction r.id "run_terminal")
        unfinished ← operations r.id
        for_each unfinished (close_operation r.id)
        hook
        tell_parent r.parent_run_id r updated)
  clean_up-Keeps r updated hook k =
      search
        (
          keeps_rules, interactions-Keeps, operations-Keeps, close_interaction-Keeps,
          close_operation-Keeps, tell_parent-Keeps,
        )
        depth 20
