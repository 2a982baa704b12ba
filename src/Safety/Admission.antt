-- ===== src/Safety/Admission.antt =====
-- The steps of Scheduler.submit and Scheduler.delegate over the store and the policies leave the runs
-- as they are, but for the one row that is added under a new identifier.
use mi_harness.Prelude.{
  ℕ, String, ◌≡◌, Bool, true, Option, none, some, List, arith, Bool-cases, inl, inr,
}
use mi_harness.Exec.{Result, Exec, gets, modify, ◌>>=◌, ◌>>◌, require, Code}
use mi_harness.Exec.Keeps.{Keeps, Keeps-modify, Keeps-require, Keeps-pure, keeps_rules}
use mi_harness.Core.{CheckpointRef, ExecutionContext}
use mi_harness.Store.Schema.{
  PlanConfirmation, Snapshot, ContentPart, MessageRow, RunRow, Amount, ReservationRow, Db,
}
use mi_harness.Store.Records
use mi_harness.Store.Runs.{insert_run}
use mi_harness.Store.Branches.{branch, insert_branch, or_new_id, add_branch, advance_branch}
use mi_harness.Store.Events.{add_message, commit_message, commit_or_check, messages}
use mi_harness.Store.Commands.{reference_artifact}
use mi_harness.Store.Projects.{session}
use mi_harness.Store.Budget.{
  account, reservation, lift, set_reserved, new_reservation, saved_or_new, reserve, add_account,
}
use mi_harness.Policy.ReadOnly.{workspace-Keeps, fence-Keeps}
use mi_harness.Scheduler.Submit.{check_plan}
use mi_harness.Scheduler.Claim.{boundary}
use mi_harness.Scheduler.Delegate.{switch_model}
use mi_harness.Prelude.Int.{ℤ}
use mi_harness.Safety.Quiet.{IsQuiet, event-Keeps}
use mi_harness.Safety.Lifecycle.{Evolves-trans, append-Evolves}
use mi_harness.Safety.Advances.{Since}
use mi_harness.Safety.Reading.{since-IsQuiet, run-Keeps}

module _ {D A : Type 0} {P : D → Type 0} where
  -- A write that is made only where a test of the state has passed.
  Keeps-tested :
      (test : D → Bool) (c : Code) (f : D → D) (m : Exec D A)
      → ((d : D) → test d ≡ true → P d → P (f d))
      → Keeps P m
      → Keeps P (do fits ← gets test; require fits c; modify f; m)
  unfolding ◌>>=◌ require
  Keeps-tested test c f m kept rest = record {
    at = λ w h. elim (Bool-cases (test w.db)) [
      | inl y ↦ rw y (rest.at _ (kept w.db y h))
      | inr n ↦ rw n h
    ];
  }

pub insert_run-Keeps : (r : RunRow) (rows : List RunRow) → Keeps (Since rows) (insert_run r)
unfolding insert_run
insert_run-Keeps r rows =
    Keeps-tested _ _ _ _
      (λ d fits h. Evolves-trans rows d.runs _ h (append-Evolves d.runs _ (ground (arith, fits))))
      (run-Keeps r.id none rows)

module _ (rows : List RunRow) where
  abbrev quiet : IsQuiet (Since rows)
  quiet = since-IsQuiet rows

  pub add_branch-Keeps :
      (k : String) (parent : Option String) (c : Option CheckpointRef) (thread : Option String)
      → Keeps (Since rows) (add_branch k parent c thread)
  unfolding add_branch insert_branch branch or_new_id
  add_branch-Keeps k parent c none = search (keeps_rules, Keeps-modify) depth 20
  add_branch-Keeps k parent c (some t) = search (keeps_rules, Keeps-modify) depth 20

  pub advance_branch-Keeps : (k : String) (n : ℕ) → Keeps (Since rows) (advance_branch k n)
  unfolding advance_branch
  advance_branch-Keeps k n = search (keeps_rules, Keeps-modify) depth 14

  pub add_account-Keeps :
      (k scope scope_id : String) (most : List (String × Option ℤ))
      → Keeps (Since rows) (add_account k scope scope_id most)
  unfolding add_account
  add_account-Keeps k scope scope_id most = search (keeps_rules, Keeps-modify) depth 14

  checked_or_committed :
      (saved : Option MessageRow) (payload : String) (commit : Db Unit)
      → Keeps (Since rows) commit
      → Keeps (Since rows) (commit_or_check saved payload commit)
  unfolding commit_or_check
  checked_or_committed none payload commit h = h
  checked_or_committed (some m) payload commit h = Keeps-require _ _

  pub add_message-Keeps :
      (k id role payload : String) (parts : List ContentPart)
      → Keeps (Since rows) (add_message k id role payload parts)
  unfolding add_message commit_message
  add_message-Keeps k id role payload parts =
      search
        (keeps_rules, Keeps-modify, run-Keeps, checked_or_committed, event-Keeps (Since rows) quiet)
        depth 18

  pub reference_artifact-Keeps :
      (k kind target : String) → Keeps (Since rows) (reference_artifact k kind target)
  unfolding reference_artifact
  reference_artifact-Keeps k kind target = search (keeps_rules, Keeps-modify) depth 14

  pub session-Keeps : (k : String) (owner : Option String) → Keeps (Since rows) (session k owner)
  unfolding session
  session-Keeps k owner = search (keeps_rules, workspace-Keeps) depth 14

  pub check_plan-Keeps :
      (c : Option PlanConfirmation) (owner k : String) (s : Snapshot)
      → Keeps (Since rows) (check_plan c owner k s)
  unfolding check_plan Records.get
  check_plan-Keeps none owner k s = Keeps-pure tt
  check_plan-Keeps (some c) owner k s = search (keeps_rules, run-Keeps) depth 12

  pub messages-Keeps : (k : String) (r : Option String) → Keeps (Since rows) (messages k r)
  unfolding messages
  messages-Keeps k r = search keeps_rules

  lift-Keeps : {A : Type 0} (r : Result A) → Keeps (Since rows) (lift r)
  unfolding lift
  lift-Keeps r = record { at = λ w h. h }

  saved_or_new-Keeps :
      (saved : Option ReservationRow) (k key : String) (amount : Amount)
      → Keeps (Since rows) (saved_or_new saved k key amount)
  unfolding saved_or_new new_reservation account set_reserved
  saved_or_new-Keeps none k key amount = search (keeps_rules, Keeps-modify, lift-Keeps) depth 20
  saved_or_new-Keeps (some r) k key amount = search keeps_rules

  pub reserve-Keeps : (k key : String) (amount : Amount) → Keeps (Since rows) (reserve k key amount)
  unfolding reserve reservation
  reserve-Keeps k key amount = search (keeps_rules, saved_or_new-Keeps) depth 12

  pub boundary-Keeps : (ctx : ExecutionContext) → Keeps (Since rows) (boundary ctx)
  unfolding boundary
  boundary-Keeps ctx = search (keeps_rules, fence-Keeps) depth 14

  pub switch_model-Keeps :
      (ref : Option String) (s : Snapshot) → Keeps (Since rows) (switch_model ref s)
  unfolding switch_model Records.get
  switch_model-Keeps none s = search keeps_rules
  switch_model-Keeps (some ref) s = search keeps_rules depth 12
