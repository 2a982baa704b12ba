-- ===== src/Examples.antt =====
-- The theorems applied to concrete databases of the program.

mod Data
mod Services
mod Calls
mod Models
mod Requests
mod Plugins
use mi_harness.Store.Records
use mi_harness.Prelude.{
  ◌+◌, ◌≡◌, refl, ◌⊎◌, inl, true, false, ◌&&◌, none, some, [], ◌∷◌, arith, same, text_le, select,
  any, all, contains, every_in, find_row, update_rows,
}
use mi_harness.Prelude.Int.{◌+ℤ◌, pos}
use mi_harness.Exec.{Code, transaction, ◌>>=◌, require, when, or_raise, ok, err}
use mi_harness.Exec.Keeps.{Keeps-pure}
use mi_harness.Exec.Atomic.{IsAtomic}
use mi_harness.Exec.Establishes.{Establishes}
use mi_harness.Core.{RunStatus, AccessContext}
use mi_harness.Store.Schema.{Egress, Payload}
use mi_harness.Store.Runs.{
  find_run, run, RunField, attempt, assert_fence, touch, update_run, heartbeat,
}
use mi_harness.Store.Records.{
  upsert, insert_version, find_record, payload_of, revision_of, compare_and_set,
}
use mi_harness.Store.Events.{event}
use mi_harness.Store.Events.Numbering.{numbers, IsNumbered, event-IsNumbered}
use mi_harness.Store.Budget.{get?, get, limit_of, reserve}
use mi_harness.Policy.Documents.{
  Policy, with_defaults, empty_document, stricter, allowed_domains, combine, plan_capabilities,
  narrow,
}
use mi_harness.Policy.Engine.{
  environment_cap, in_workspace, current, for_agent, effective, Purpose, qualified_servers,
  policy_for, model_granted, check_addresses, endpoint,
}
use mi_harness.Scheduler.Transition.{transition}
use mi_harness.Scheduler.Delegate.{limit_policy, child_snapshot}
use mi_harness.Safety.Fencing.{Rejects, stale_worker_writes_nothing}
use mi_harness.Safety.Concurrency.{second_writer_conflicts}
use mi_harness.Safety.Network.{IsReachable, endpoint_reaches}
use mi_harness.Safety.PlanMode.{snapshot_in, child_has_no_more_rights}
use mi_harness.Safety.Balance.{AccountsWithin, reserve-AccountsWithin}
use mi_harness.Safety.Revocation.{GrantsRevoked, transition-revokes}
use mi_harness.Examples.Data.{
  worker_one, running_run, held, taken, world_of, binding, document, fake_host, funded, approved,
  planned, example_url, small_config, child_document, delegated, child_context, started,
}
use mi_harness.Prelude.Sets.{sorted_set, intersect, union}
use mi_harness.Exec.Returns.{Returns}
use mi_harness.Store.Projects.{workspace}
use mi_harness.Safety.Approval.{UsesAtMost, approval_used_once}
use mi_harness.Store.Operations.{
  operation, set_operation_field, set_operation_fields, update_operation,
}
use mi_harness.Store.Grants.{spend, consume_grant}

-- A worker that the run has been taken from.
lease_lost : (assert_fence worker_one true (world_of taken)).0 ≡ err Code.stale_worker
unfolding assert_fence run attempt ◌>>=◌ require or_raise find_row same
lease_lost = refl

stale_worker_writes_nothing_example :
    Rejects (heartbeat worker_one 5000) Code.stale_worker (world_of taken)
stale_worker_writes_nothing_example =
    (stale_worker_writes_nothing worker_one (world_of taken) lease_lost).0 5000

held_run : find_run "r1" held ≡ some running_run
unfolding find_row same
held_run = refl

transition-revokes_example :
    Establishes
      (GrantsRevoked "r1")
      (transition fake_host running_run RunStatus.completed none none [])
transition-revokes_example =
    transition-revokes fake_host running_run RunStatus.completed none none [] refl
      (λ x. Keeps-pure tt)

second_writer_conflicts_example :
    let w' = (update_run "r1" 2 (RunField.input_revision 1 ∷ []) none (world_of held)).1 in
    (find_run "r1" w'.db ≡ some (touch (RunField.input_revision 1 ∷ []) 0 running_run))
    × ((update_run "r1" 2 (RunField.cancel_requested true ∷ []) none w').0
        ≡ err Code.revision_conflict)
    × ((update_run "r1" 2 (RunField.cancel_requested true ∷ []) none w').1.db ≡ w'.db)
second_writer_conflicts_example =
    second_writer_conflicts "r1" (RunField.input_revision 1 ∷ [])
      (RunField.cancel_requested true ∷ []) (world_of held) running_run held_run
      (unfold all in refl) (unfold all in refl) refl refl

held-IsNumbered : IsNumbered held
unfolding find_row same select numbers
held-IsNumbered = record { listed = λ k. ground arith; next = λ k. ground arith }

event-IsNumbered_example : IsNumbered (event "r1" "run.started" [] (world_of held)).1.db
event-IsNumbered_example =
    (event-IsNumbered "r1" "run.started" []).at (world_of held) held-IsNumbered

funded-AccountsWithin : AccountsWithin funded
unfolding find_row same get get? ◌+ℤ◌ limit_of
funded-AccountsWithin = record { at = λ id a known. record { at = λ d whole. ground arith } }

reserve-AccountsWithin_example :
    AccountsWithin (reserve "acc" "k" (("tokens", pos 60) ∷ []) (world_of funded)).1.db
reserve-AccountsWithin_example =
    (reserve-AccountsWithin "acc" "k" (("tokens", pos 60) ∷ [])).at (world_of funded)
      funded-AccountsWithin

base_policy : Policy
base_policy = combine (with_defaults empty_document) (with_defaults empty_document) 1000001

child_made :
    (child_snapshot fake_host small_config worker_one ("file_read" ∷ []) "c2" (world_of planned)).0
    ≡ ok child_document
unfolding child_snapshot Records.get ◌>>=◌ or_raise find_row same
child_made = refl

child_found : snapshot_in "c2" delegated ≡ some child_document
unfolding find_row same
child_found = refl

child_rights :
    (effective fake_host child_context (world_of delegated)).0
    ≡ ok (narrow base_policy (limit_policy document ("file_read" ∷ [])) (some "plan"))
unfolding base_policy effective for_agent current in_workspace workspace environment_cap Records.get
    ◌>>=◌ require or_raise find_row same with_defaults
child_rights = refl

child_reads :
    contains "file_read"
      (narrow base_policy (limit_policy document ("file_read" ∷ [])) (some "plan")).capabilities
    ≡ true
unfolding base_policy with_defaults combine narrow intersect sorted_set select same text_le
child_reads = refl

child_has_no_more_rights_example :
    (contains "file_read" ("file_read" ∷ []) ≡ true)
    × (contains "file_read" (narrow base_policy document (some "plan")).capabilities ≡ true)
child_has_no_more_rights_example =
    child_has_no_more_rights fake_host small_config worker_one child_context ("file_read" ∷ []) "c2"
      "file_read" (narrow base_policy document (some "plan"))
      (narrow base_policy (limit_policy document ("file_read" ∷ [])) (some "plan")) child_document
      (world_of planned) (world_of delegated)
      (unfold base_policy with_defaults combine narrow intersect sorted_set select same text_le in
        refl)
      child_made child_found child_rights child_reads

resolved_address :
    (endpoint fake_host example_url
      (AccessContext.execution worker_one)
      Purpose.other
      false
      none
      none
      (world_of planned)).0
    ≡ ok ("93.184.216.34" ∷ [])
unfolding endpoint check_addresses policy_for model_granted effective for_agent current in_workspace
    workspace environment_cap Records.get with_defaults combine narrow ◌>>=◌ require or_raise
    find_row same intersect union sorted_set select stricter allowed_domains text_le all
resolved_address = refl

endpoint_reaches_example :
    IsReachable fake_host example_url
      (AccessContext.execution worker_one)
      Purpose.other
      false
      none
      none
      planned
      ("93.184.216.34" ∷ [])
endpoint_reaches_example =
    endpoint_reaches fake_host example_url (AccessContext.execution worker_one) Purpose.other false
      none none (world_of planned) ("93.184.216.34" ∷ []) resolved_address

one_use : UsesAtMost 1 "g1" approved.execution_grants
unfolding find_row same
one_use g found = ground arith

consumed : (consume_grant worker_one "g1" binding 1 (world_of approved)).0 ≡ ok started
unfolding consume_grant spend update_operation set_operation_fields set_operation_field operation
    assert_fence run attempt transaction ◌>>=◌ require or_raise find_row update_rows any all same
consumed = refl

approval_used_once_example :
    let w' = (consume_grant worker_one "g1" binding 1 (world_of approved)).1 in
    (consume_grant worker_one "g1" binding 1 w').1.db ≡ w'.db
approval_used_once_example =
    (approval_used_once "g1" worker_one worker_one binding binding 1 1 (world_of approved)
      (consume_grant worker_one "g1" binding 1 (world_of approved)).1 started one_use consumed
      refl).1
