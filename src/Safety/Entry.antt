-- ===== src/Safety/Entry.antt =====
-- Scheduler.submit and Scheduler.delegate add a run under a new identifier, and leave the other
-- runs as they are.
use mi_harness.Prelude.{ℕ, String, Option, none, some, List}
use mi_harness.Exec.Keeps.{Keeps, Keeps-modify, Keeps-raise, Keeps-pure, keeps_rules}
use mi_harness.Core.{ArtifactRef, ExecutionContext, OperationKey}
use mi_harness.Host.{Host}
use mi_harness.Store.Schema.{Snapshot, SessionRow, ContentPart, RunRow, DependencyRow, Db}
use mi_harness.Store.Records
use mi_harness.Store.Commands.{artifact}
use mi_harness.Store.Waits.{dependency, add_dependency}
use mi_harness.Policy.ReadOnly.{effective-Keeps}
use mi_harness.Scheduler.Submit.{
  SchedulerConfig, RunRequest, given_or_made, check_attachment, check_image, enter, submit,
}
use mi_harness.Scheduler.Delegate.{
  DelegationRequest, child_snapshot, new_child, start_child, saved_or_start, delegate,
}
use mi_harness.Safety.Quiet.{branch-Keeps, event-Keeps, event_state-Keeps, settle-Keeps}
use mi_harness.Safety.Advances.{Since}
use mi_harness.Safety.Bindings.{readable_artifact-Keeps}
use mi_harness.Safety.Reading.{since-IsQuiet, run-Keeps, put-Keeps}
use mi_harness.Safety.Transitions.{IsLawful}
use mi_harness.Safety.Admission.{
  insert_run-Keeps, add_branch-Keeps, advance_branch-Keeps, add_account-Keeps, add_message-Keeps,
  reference_artifact-Keeps, session-Keeps, check_plan-Keeps, messages-Keeps, reserve-Keeps,
  boundary-Keeps, switch_model-Keeps,
}

-- The factory of snapshots leaves the runs as they are.
abbrev pub IsQuietFactory : Option (Db Snapshot) → Type 0
IsQuietFactory none = Unit
IsQuietFactory (some make) = (rows : List RunRow) → Keeps (Since rows) make

module _ (rows : List RunRow) where
  given_or_made-Keeps :
      (given : Option Snapshot) (make : Option (Db Snapshot))
      → IsQuietFactory make
      → Keeps (Since rows) (given_or_made given make)
  unfolding given_or_made
  given_or_made-Keeps (some s) make h = Keeps-pure s
  given_or_made-Keeps none none h = Keeps-raise _
  given_or_made-Keeps none (some m) h = h rows

  module _ (host : Host) (lawful : IsLawful host) where
    check_attachment-Keeps :
        (owner k : String) (a : ArtifactRef) → Keeps (Since rows) (check_attachment host owner k a)
    unfolding check_attachment artifact
    check_attachment-Keeps owner k a = search (keeps_rules, readable_artifact-Keeps host) depth 16

    check_image-Keeps : (p : ContentPart) → Keeps (Since rows) (check_image host p)
    unfolding check_image
    check_image-Keeps p = search keeps_rules depth 12

    enter-Keeps :
        (owner : String) (s : SessionRow) (k : String) (request : RunRequest) (snapshot : Snapshot)
        (rid sid : String) (now deadline : ℕ) (parts : List ContentPart) (refs : List ArtifactRef)
        → Keeps (Since rows) (enter host owner s k request snapshot rid sid now deadline parts refs)
    unfolding enter
    enter-Keeps owner s k request snapshot rid sid now deadline parts refs =
        search
          (
            keeps_rules,
            check_plan-Keeps rows,
            advance_branch-Keeps rows,
            put-Keeps,
            insert_run-Keeps,
            add_account-Keeps rows,
            lawful.created,
            add_message-Keeps rows,
            reference_artifact-Keeps rows,
            event_state-Keeps (Since rows) (since-IsQuiet rows),
          )
          depth 40

    pub submit-Keeps :
        (make : Option (Db Snapshot)) (owner k : String) (request : RunRequest)
        (given : Option Snapshot)
        → IsQuietFactory make
        → Keeps (Since rows) (submit host make owner k request given)
    unfolding submit Records.get
    submit-Keeps make owner k request given made =
        search
          (
            keeps_rules,
            session-Keeps rows,
            branch-Keeps (Since rows) (since-IsQuiet rows),
            given_or_made-Keeps,
            made,
            check_attachment-Keeps,
            messages-Keeps rows,
            check_image-Keeps,
            enter-Keeps,
          )
          depth 50

    module _ (config : SchedulerConfig) where
      child_snapshot-Keeps :
          (ctx : ExecutionContext) (requested : List String) (sid : String)
          → Keeps (Since rows) (child_snapshot host config ctx requested sid)
      unfolding child_snapshot Records.get
      child_snapshot-Keeps ctx requested sid =
          search (keeps_rules, switch_model-Keeps rows) depth 20

      new_child-Keeps :
          (ctx : ExecutionContext) (q : DelegationRequest) (parent : RunRow) (key sid : String)
          (s : Snapshot) (hash : String)
          → Keeps (Since rows) (new_child host config ctx q parent key sid s hash)
      unfolding new_child add_dependency
      new_child-Keeps ctx q parent key sid s hash =
          search
            (
              keeps_rules,
              Keeps-modify,
              add_branch-Keeps rows,
              insert_run-Keeps,
              lawful.created,
              settle-Keeps (Since rows) (since-IsQuiet rows),
              event-Keeps (Since rows) (since-IsQuiet rows),
              event_state-Keeps (Since rows) (since-IsQuiet rows),
            )
            depth 40

      start_child-Keeps :
          (ctx : ExecutionContext) (q : DelegationRequest) (key hash : String)
          → Keeps (Since rows) (start_child host config ctx q key hash)
      unfolding start_child
      start_child-Keeps ctx q key hash =
          search
            (
              keeps_rules,
              run-Keeps,
              effective-Keeps host,
              reserve-Keeps rows,
              child_snapshot-Keeps,
              put-Keeps,
              new_child-Keeps,
            )
            depth 30

      saved_or_start-Keeps :
          (saved : Option DependencyRow) (ctx : ExecutionContext) (q : DelegationRequest)
          (key hash : String)
          → Keeps (Since rows) (saved_or_start host config saved ctx q key hash)
      unfolding saved_or_start
      saved_or_start-Keeps none ctx q key hash = start_child-Keeps ctx q key hash
      saved_or_start-Keeps (some x) ctx q key hash = search (keeps_rules, run-Keeps)

      pub delegate-Keeps :
          (ctx : ExecutionContext) (key : OperationKey) (q : DelegationRequest)
          → Keeps (Since rows) (delegate host config ctx key q)
      unfolding delegate dependency
      delegate-Keeps ctx key q =
          search (keeps_rules, boundary-Keeps rows, saved_or_start-Keeps) depth 16
