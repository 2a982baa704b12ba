-- ===== src/Examples/Calls.antt =====
-- The theorems on sequences of calls of the scheduler and on its worklist at concrete inputs.
use mi_harness.Prelude.{
  ℕ, suc, ◌+◌, inl, all, select, order_by, update_rows, String, ◌≤◌, ◌≡◌, refl, ◌⊎◌, true, false,
  ◌&&◌, ◌||◌, none, some, List, [], ◌∷◌, arith, find_row, same, contains, any, if◌then◌else◌,
}
use mi_harness.Exec.{Code, ok, err, transaction, ◌>>=◌, require, when, or_raise}
use mi_harness.Store.Records
use mi_harness.Store.Branches.{branch, set_branch_owner}
use mi_harness.Store.Runs.{
  find_run, run, runs, set_field, set_fields, assert_fence, update_run, add_attempt,
}
use mi_harness.Store.Events.{outbox, event}
use mi_harness.Scheduler.Transition.{allowed_next, event_state, transition}
use mi_harness.Scheduler.Claim.{context, take_run, claim_from, within_slots, claim}
use mi_harness.Safety.Takeover.{claim_fences_others}
use mi_harness.Scheduler.Cancel.{descendants}
use mi_harness.Safety.Counting.{occurrences}
use mi_harness.Safety.Children.{ids}
use mi_harness.Safety.Descendants.{IsForest, worklist_complete}
use mi_harness.Exec.Keeps.{Keeps-pure}
use mi_harness.Core.{RunStatus, is_terminal, same_status, status_in, ExecutionContext}
use mi_harness.Store.Schema.{RunRow, DependencyRow, Database}
use mi_harness.Safety.Lifecycle.{Reaches, find, HasKeys}
use mi_harness.Safety.Transitions.{IsLawful}
use mi_harness.Safety.Forward.{SchedulerCall, after_calls, runs_move_forward}
use mi_harness.Examples.Data.{
  worker_one, held, planned, running_run, world_of, fake_host, small_config,
}

fake_host-IsLawful : IsLawful fake_host
fake_host-IsLawful = record {
  terminal = λ r rows. Keeps-pure tt;
  cancels = λ k rows. Keeps-pure tt;
  created = λ r s rows. Keeps-pure tt;
  recovers = λ k rows. Keeps-pure tt;
}

held-HasKeys : HasKeys held.runs
unfolding find_row same
held-HasKeys = (refl, tt)

-- The user cancels the run, its worker is lost, and another one asks for work.
abbrev some_calls : List SchedulerCall
some_calls =
    SchedulerCall.cancel "user" "r1" "stopped"
    ∷ SchedulerCall.elsewhere planned
    ∷ SchedulerCall.recover
    ∷ SchedulerCall.expire_interactions
    ∷ SchedulerCall.claim "worker" 1 0
    ∷ []

runs_move_forward_example :
    (y : RunRow) × (find "r1"
        (after_calls fake_host small_config none some_calls (world_of held)).db.runs
      ≡ some y)
    × Reaches RunStatus.running y.status
    × 2 ≤ y.revision
    × (is_terminal RunStatus.running ≡ false ⊎ y.status ≡ RunStatus.running)
    × (same_status RunStatus.running RunStatus.cancelling ≡ false
        ⊎ status_in y.status (RunStatus.cancelling ∷ RunStatus.cancelled ∷ []) ≡ true)
unfolding find_row same
runs_move_forward_example =
    runs_move_forward fake_host small_config none fake_host-IsLawful tt some_calls (world_of held)
      held-HasKeys "r1" running_run refl

-- The run waits for a worker again, after its first one has been lost.
abbrev requeued : Database
requeued = record held {
  runs = record running_run { status = RunStatus.queued } ∷ [];
  run_attempts = [];
}

abbrev claimed : ExecutionContext
claimed = record worker_one { worker_attempt_id = "id0"; fencing_token = 2 }

claims : (claim fake_host small_config "worker" 1 0 (world_of requeued)).0 ≡ ok (some claimed)
unfolding claim within_slots claim_from take_run context runs Records.get branch set_branch_owner
    add_attempt transition allowed_next update_run set_fields set_field event_state event outbox run
    transaction ◌>>=◌ require when or_raise find_row update_rows select order_by any all same
claims = refl

claim_fences_others_example :
    ((r : RunRow) × (find_run "r1" requeued ≡ some r) × (2 ≡ r.fencing_token + 1))
    × ((assert_fence worker_one true
          (claim fake_host small_config "worker" 1 0 (world_of requeued)).1).0
        ≡ err Code.stale_worker)
unfolding find_row same
claim_fences_others_example =
    claim_fences_others fake_host small_config "worker" 1 0 (world_of requeued)
      (claim fake_host small_config "worker" 1 0 (world_of requeued)).1 claimed worker_one true
      fake_host-IsLawful (refl, tt) claims refl refl (inl (omega arith))

-- A run with a child.
abbrev family : Database
family = record held {
  runs = running_run ∷ record running_run { id = "r2"; parent_run_id = some "r1"; depth = 1 } ∷ [];
  run_dependencies =
      record { parent_id = "r1"; child_id = "r2"; delegation_key = "k"; args_hash = "h" } ∷ [];
}

abbrev depth_of : String → ℕ
depth_of k = if same k "r1" then 0 else 1

family-IsForest : IsForest depth_of family.run_dependencies
unfolding same occurrences
family-IsForest = record { once = λ k. ground arith; up = (omega arith, tt) }

worklist_complete_example :
    (rs : List RunRow) × ((descendants (suc 1) (running_run ∷ []) (world_of family)).0
      ≡ ok (some rs))
    × ((k : String)
        → contains k (ids rs) ≡ (
            same "r1" k
            || any
                (λ (e : DependencyRow). same e.child_id k && contains e.parent_id (ids rs))
                family.run_dependencies))
    × ((k : String) → occurrences k (ids rs) ≤ 1)
unfolding same find_row
worklist_complete_example =
    worklist_complete depth_of running_run (world_of family) family-IsForest (refl, tt)
