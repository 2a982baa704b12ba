-- ===== src/Scheduler/Cancel.antt =====
-- Cancellation in harness/scheduler/service.py: the barrier over a run and its descendants, and
-- the end of those whose worker has left.
use mathlib.Core.List.{reverse}
use mi_harness.Prelude.{
  ℕ, zero, suc, String, Bool, true, false, not, ◌&&◌, ◌||◌, Option, none, some, List, [], ◌∷◌, ◌++◌,
  if◌then◌else◌, is_some, length, any, all,
}
use mi_harness.Exec.{pure, raise, gets, transaction, ◌>>=◌, ◌>>◌, when, for_each, value_error}
use mi_harness.Core.{RunStatus, is_terminal, same_status}
use mi_harness.Host.{Host}
use mi_harness.Store.Schema.{RunRow, AttemptRow, OperationState, OperationRow, Db}
use mi_harness.Store.Runs.{run, runs, RunField, attempt, update_run}
use mi_harness.Store.Operations.{same_state, operations}
use mi_harness.Store.Grants.{revoke_grants}
use mi_harness.Store.Interactions.{interactions}
use mi_harness.Store.Waits.{children}
use mi_harness.Scheduler.Transition.{close_interaction, transition}

-- The worklist of Scheduler.cancel: breadth first over the recorded delegations. Each delegation
-- adds one run to the list, so one round for each and one for the root are enough where no run
-- has two parents; `none` means that the rounds were not enough.
unfoldable pub descendants : ℕ → List RunRow → Db (Option (List RunRow))
descendants rounds [] = pure (some [])
descendants zero (r ∷ todo) = pure none
descendants (suc rounds) (r ∷ todo) =
    let further = λ (cs : List RunRow). descendants rounds (todo ++ cs) in
    do
      cs ← children r.id
      rest ← further cs
      pure (elim rest [ none ↦ none | some rs ↦ some (r ∷ rs) ])

abbrev pub is_unknown : OperationRow → Bool
is_unknown o =
    same_state o.state OperationState.running || same_state o.state OperationState.unknown

-- An operation whose outcome is open, and which the user has not accepted as such.
abbrev pub is_unresolved : OperationRow → Bool
is_unresolved o = is_unknown o && not o.metadata.unresolved_accepted

abbrev no_runs : List RunRow → Bool
no_runs [] = true
no_runs (r ∷ rs) = false

abbrev pub all_ended : List RunRow → Bool
all_ended rs = all (λ (r : RunRow). is_terminal r.status) rs

module _ (host : Host) where
  -- A run that no worker can be executing ends at once; any other waits for its worker.
  unfoldable pub settle_cancelled : RunRow → String → Db Unit
  settle_cancelled r reason = do
    cs ← children r.id
    ops ← operations r.id
    if same_status r.status RunStatus.queued
          || same_status r.status RunStatus.waiting_user && no_runs cs && not (any is_unknown ops)
        then (do transition host r RunStatus.cancelled none (some reason) []; pure tt)
        else when (not (same_status r.status RunStatus.cancelling))
            (do transition host r RunStatus.cancelling none (some reason) []; pure tt)

  -- The body of the loop of Scheduler.cancel.
  unfoldable pub cancel_one : String → RunRow → Db Unit
  cancel_one reason r = when (not (is_terminal r.status)) (do
    marked ← update_run r.id r.revision (RunField.cancel_requested true ∷ []) none
    revoke_grants r.id []
    asked ← interactions r.id
    for_each asked (close_interaction r.id reason)
    settle_cancelled marked reason)

  abbrev lives_on : Option AttemptRow → Bool
  lives_on none = false
  lives_on (some a) = not (is_some a.ended_at)

  unfoldable pub attempt_of : Option String → Db (Option AttemptRow)
  attempt_of none = pure none
  attempt_of (some k) = attempt k

  -- The body of the loop of Scheduler.finish_idle_cancellations.
  unfoldable pub finish_idle : RunRow → Db Unit
  unfolding attempt_of
  finish_idle r = do
    held ← attempt_of r.attempt_id
    when (not (lives_on held)) (do
      ops ← operations r.id
      cs ← children r.id
      when (not (any is_unresolved ops) && all_ended cs)
          (do transition host r RunStatus.cancelled none (some "barrier") []; pure tt))

  -- Scheduler.finish_idle_cancellations
  unfoldable pub finish_idle_cancellations : Db Unit
  finish_idle_cancellations = transaction (do
    cancelling ← runs none (RunStatus.cancelling ∷ []) none
    for_each (reverse cancelling) finish_idle)

  unfoldable pub cancel_all : String → Option (List RunRow) → Db (List RunRow)
  cancel_all reason none = raise value_error
  cancel_all reason (some rs) = do for_each rs (cancel_one reason); pure rs

  -- The transaction of Scheduler.cancel.
  unfoldable pub mark_cancelled : String → String → String → Db (List RunRow)
  unfolding cancel_all
  mark_cancelled owner run_id reason = transaction (do
    root ← run run_id (some owner)
    edges ← gets (λ d. length d.run_dependencies)
    found ← descendants (suc edges) (root ∷ [])
    cancel_all reason found)

  -- Scheduler.cancel
  unfoldable pub cancel : String → String → String → Db (RunStatus × ℕ)
  cancel owner run_id reason = do
    marked ← mark_cancelled owner run_id reason
    for_each marked (λ r. host.cancel_processes r.id)
    finish_idle_cancellations
    result ← run run_id none
    pure (result.status, result.revision)
