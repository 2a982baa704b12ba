-- ===== src/Scheduler/Recover.antt =====
-- Scheduler.recover and Scheduler.reconcile of harness/scheduler/service.py: what happens to a run
-- whose worker is lost, and to one that waits for the review of unknown operations.
use mi_harness.Prelude.{
  String, Bool, true, false, not, ◌&&◌, ◌||◌, Option, none, some, List, [], ◌∷◌, map, leb,
  if◌then◌else◌, same, same?, is_some, get_or_else, select, any, contains, find_row,
}
use mi_harness.Exec.{
  pure, gets, transaction, utc_now, ◌>>=◌, ◌>>◌, require, when, or_raise, for_each,
  run_not_reviewing, tool_unavailable,
}
use mi_harness.Core.{RunStatus, same_status, status_in}
use mi_harness.Host.{Effect, Host}
use mi_harness.Store.Schema.{
  Payload, RunRow, AttemptRow, OperationState, Continuation, OperationRow, InteractionRow, Database,
  Db,
}
use mi_harness.Store.Records
use mi_harness.Store.Runs.{run, runs, RunField, end_attempt}
use mi_harness.Store.Operations.{
  same_state, operation, operations, OperationField, update_operation,
}
use mi_harness.Store.Grants.{revoke_grants}
use mi_harness.Store.Interactions.{find_interaction}
use mi_harness.Scheduler.Transition.{result_of, transition}
use mi_harness.Scheduler.Cancel.{finish_idle_cancellations}
use mi_harness.Tools.Reconcile.{AllowedAction, ReviewRequest, Reconciliation, reconcile_operation}

abbrev given : Option String → Bool
given none = false
given (some k) = not (same k "")

-- A saved exchange that waits for input, with all that is needed to resume it.
abbrev is_resumable : Continuation → Bool
is_resumable c =
    same c.kind "modern_mrtr"
    && same c.status "awaiting_input"
    && given c.request_state_ref
    && given c.interaction_id
    && given c.schema_hash
    && given c.request_hash

abbrev awaits_input : OperationRow → Bool
awaits_input o =
    same_state o.state OperationState.running
    && (elim o.metadata.protocol_continuation [ none ↦ false | some c ↦ is_resumable c ])

-- The interaction belongs to this run and to this operation; a missing one is passed over.
abbrev is_bound_to : Option InteractionRow → String → String → Bool
is_bound_to none run_id operation_id = false
is_bound_to (some i) run_id operation_id =
    same i.run_id run_id && same? i.payload.operation_id (some operation_id)

abbrev continuation_interaction : OperationRow → Option String
continuation_interaction o = elim o.metadata.protocol_continuation [
  | none ↦ none
  | some c ↦ c.interaction_id
]

abbrev find_interaction? : Option String → Database → Option InteractionRow
find_interaction? none d = none
find_interaction? (some k) d = find_interaction k d

abbrev pub is_continuation : String → Database → OperationRow → Bool
is_continuation run_id d o =
    awaits_input o && is_bound_to (find_interaction? (continuation_interaction o) d) run_id o.id

abbrev pub grants_of : List OperationRow → List String
grants_of [] = []
grants_of (o ∷ os) = let rest = grants_of os in elim o.grant_id [ none ↦ rest | some g ↦ g ∷ rest ]

abbrev is_write : String → Bool
is_write tool_id = contains tool_id ("write_file" ∷ "apply_patch" ∷ [])

abbrev is_read : Effect → Bool
is_read Effect.read = true
is_read _ = false

abbrev pub find_attempt : Option String → Database → Option AttemptRow
find_attempt none d = none
find_attempt (some k) d = find_row (λ (a : AttemptRow). same a.id k) d.run_attempts

module _ (host : Host) where
  -- The file that the operation was to write has the content that it was to write.
  abbrev pub is_written : OperationRow → Bool
  is_written o = is_write o.tool_id && (elim o.metadata.path [
    | none ↦ false
    | some p ↦ is_some (host.file_digest p) && same? (host.file_digest p) o.metadata.after_hash
  ])

  -- What the loop does with a running operation that is no continuation; true: it is unknown.
  unfoldable pub recover_running : OperationRow → Db Bool
  recover_running o =
      if is_some o.metadata.protocol_continuation
      then (do
        update_operation o.id o.revision (OperationField.state OperationState.unknown ∷ []) none
        pure true)
      else if is_written o
      then (do
        now ← utc_now
        update_operation o.id o.revision
            (OperationField.state OperationState.succeeded
              ∷ OperationField.result (
                  some (
                    result_of o.id OperationState.succeeded "verified"
                      (get_or_else o.metadata.after_hash "") none (some now)))
              ∷ [])
            none
        pure false)
      else (do
        effect ← or_raise tool_unavailable (host.effect_of o.tool_id o.tool_revision)
        if is_read effect
            then (do
              update_operation o.id o.revision
                  (OperationField.state OperationState.prepared ∷ OperationField.grant_id none ∷ [])
                  none
              pure false)
            else (do
              update_operation o.id o.revision (OperationField.state OperationState.unknown ∷ [])
                  none
              pure true))

  -- The body of the loop over the operations of a lost run.
  unfoldable pub recover_operation : List String → OperationRow → Db Bool
  unfolding recover_running
  recover_operation continuations o =
      if not (same_state o.state OperationState.running)
      then pure (same_state o.state OperationState.unknown)
      else if contains o.id continuations
      then pure false
      else recover_running o

  unfoldable pub recover_operations : List String → List OperationRow → Db Bool
  recover_operations continuations [] = pure false
  recover_operations continuations (o ∷ os) =
      let further = recover_operations continuations os in
      do first ← recover_operation continuations o; rest ← further; pure (first || rest)

  unfoldable pub mark_recovering : RunRow → Db RunRow
  mark_recovering r =
      if same_status r.status RunStatus.running
      then transition host r RunStatus.recovering none (some "lease lost") []
      else pure r

  unfoldable pub resume_lost : RunRow → AttemptRow → List String → Db Unit
  resume_lost r a continuations = do
    end_attempt a.id "worker_lost"
    ops ← operations r.id
    unknown ← recover_operations continuations ops
    when (same_status r.status RunStatus.recovering) (do
      transition host r (if unknown then RunStatus.needs_review else RunStatus.queued) none
          (some "worker lost") []
      pure tt)

  unfoldable pub recover_lost : RunRow → AttemptRow → Db Unit
  recover_lost found a = do
    r ← mark_recovering found
    ops ← operations r.id
    continued ← gets (λ d. select (is_continuation r.id d) ops)
    revoke_grants r.id (grants_of continued)
    when (not (host.is_alive a)) (resume_lost r a (map (λ (o : OperationRow). o.id) continued))

  unfoldable pub recover_attempt : RunRow → AttemptRow → Db Unit
  recover_attempt listed a = do
    when (not (host.is_alive a)) (host.recover_processes listed.id)
    transaction
        (do r ← run listed.id none; when (same? r.attempt_id (some a.id)) (recover_lost r a))

  -- The body of the loop of Scheduler.recover: an attempt whose lease has run out.
  unfoldable pub recover_run : RunRow → Db Unit
  unfolding recover_attempt recover_lost resume_lost mark_recovering
  recover_run listed = do
    held ← gets (λ d. find_attempt listed.attempt_id d)
    elim held [
      | none ↦ pure tt
      | some a ↦ (do now ← utc_now; when (leb a.lease_expiry now) (recover_attempt listed a))
    ]

  -- Scheduler.recover, without its report.
  unfoldable pub recover : Db Unit
  recover = do
    listed ← runs none (RunStatus.running ∷ RunStatus.recovering ∷ RunStatus.cancelling ∷ []) none
    for_each listed recover_run
    finish_idle_cancellations host

  unfoldable pub resume_reviewed : RunRow → Db Unit
  resume_reviewed r = do
    Records.put "review_resolutions" r.id (Payload.review_resolutions r.required_interrupts)
    transition host r RunStatus.queued none (some "reconciled") []
    pure tt

  abbrev pub is_open : OperationRow → Bool
  is_open o = same_state o.state OperationState.unknown && not o.metadata.unresolved_accepted

  unfoldable pub after_review : RunRow → Reconciliation → List OperationRow → Db Unit
  after_review r result ops =
      if same_status r.status RunStatus.needs_review
      then (elim result.allowed_action [
        | AllowedAction.resume ↦ when (not (any is_open ops)) (resume_reviewed r)
        | AllowedAction.end_without_success ↦ (do
          transition host r RunStatus.cancelling none (some "accepted")
              (RunField.cancel_requested true ∷ [])
          pure tt)
      ])
      else pure tt

  -- The transaction of Scheduler.reconcile.
  unfoldable pub review : String → String → ReviewRequest → Db (Reconciliation × String)
  review owner operation_id q = transaction (do
    o ← operation operation_id
    r ← run o.run_id (some owner)
    require (status_in r.status (RunStatus.needs_review ∷ RunStatus.cancelling ∷ []))
        run_not_reviewing
    result ← reconcile_operation host operation_id owner q
    ops ← operations r.id
    after_review r result ops
    pure (result, r.id))

  -- Scheduler.reconcile
  unfoldable pub reconcile : String → String → ReviewRequest → Db (Reconciliation × RunStatus)
  unfolding review after_review resume_reviewed
  reconcile owner operation_id q = do
    done ← review owner operation_id q
    finish_idle_cancellations host
    after ← run done.1 none
    pure (done.0, after.status)
