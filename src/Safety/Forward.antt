-- ===== src/Safety/Forward.antt =====
-- The methods of Scheduler in harness/scheduler/service.py, called in any order, with writes of other
-- parts of the program to other tables in between.
use mi_harness.Prelude.{
  ℕ, String, ◌≤◌, ◌≡◌, sym, ◌⊎◌, inl, inr, true, false, Option, some, List, [], ◌∷◌, Bool-cases,
}
use mi_harness.Exec.{World, pure, modify, ◌>>◌}
use mi_harness.Exec.Keeps.{Keeps-pure}
use mi_harness.Core.{
  RunStatus, is_terminal, same_status, status_in, ExecutionContext, OperationKey, RuntimeOutcome,
}
use mi_harness.Host.{Host}
use mi_harness.Store.Schema.{Snapshot, RunRow, Database, Db}
use mi_harness.Tools.Reconcile.{ReviewRequest}
use mi_harness.Scheduler.Waiting.{Answer}
use mi_harness.Scheduler.Submit.{SchedulerConfig, RunRequest}
use mi_harness.Scheduler.Delegate.{DelegationRequest}
use mi_harness.Scheduler.Submit
use mi_harness.Scheduler.Delegate
use mi_harness.Scheduler.Claim
use mi_harness.Scheduler.Settle
use mi_harness.Scheduler.Waiting
use mi_harness.Scheduler.Cancel
use mi_harness.Scheduler.Recover
use mi_harness.Safety.Lifecycle.{
  Reaches, terminal-Reaches, cancelling-Reaches, find, HasKeys, Evolves, Evolves-refl,
  Evolves-trans,
}
use mi_harness.Safety.Advances.{Advances, nothing, Advances-then, Advances-quiet, Advances-modify}
use mi_harness.Safety.Transitions.{IsLawful}
use mi_harness.Safety.Orderly.{
  respond-Advances, expire_interactions-Advances, refresh_waits-Advances,
}
use mi_harness.Safety.Barrier.{cancel-Advances, finish_idle_cancellations-Advances}
use mi_harness.Safety.Outcomes.{settle-Advances}
use mi_harness.Safety.Dispatch.{claim-Advances}
use mi_harness.Safety.Recovery.{recover-Advances}
use mi_harness.Safety.Review.{reconcile-Advances}
use mi_harness.Safety.Entry.{IsQuietFactory, submit-Keeps, delegate-Keeps}

-- A call of a method with its arguments, or `elsewhere`: the other tables become those of a
-- database, whatever they are.
pub data SchedulerCall : Type 0 where
  submit : String → String → RunRequest → Option Snapshot → SchedulerCall
  delegate : ExecutionContext → OperationKey → DelegationRequest → SchedulerCall
  claim : String → ℕ → ℕ → SchedulerCall
  settle : ExecutionContext → RuntimeOutcome → SchedulerCall
  respond : String → String → Answer → SchedulerCall
  cancel : String → String → String → SchedulerCall
  reconcile : String → String → ReviewRequest → SchedulerCall
  expire_interactions refresh_waits finish_idle_cancellations recover : SchedulerCall
  elsewhere : Database → SchedulerCall

module _ (host : Host) (config : SchedulerConfig) (make : Option (Db Snapshot)) where
  issue : SchedulerCall → Db Unit
  issue (SchedulerCall.submit owner k request given) = do
    Submit.submit host make owner k request given
    pure tt
  issue (SchedulerCall.delegate ctx key q) = do Delegate.delegate host config ctx key q; pure tt
  issue (SchedulerCall.claim worker pid start) = do
    Claim.claim host config worker pid start
    pure tt
  issue (SchedulerCall.settle ctx outcome) = do Settle.settle host ctx outcome; pure tt
  issue (SchedulerCall.respond owner k a) = do Waiting.respond host owner k a; pure tt
  issue (SchedulerCall.cancel owner k reason) = do Cancel.cancel host owner k reason; pure tt
  issue (SchedulerCall.reconcile owner k q) = do Recover.reconcile host owner k q; pure tt
  issue SchedulerCall.expire_interactions = Waiting.expire_interactions host
  issue SchedulerCall.refresh_waits = Waiting.refresh_waits host
  issue SchedulerCall.finish_idle_cancellations = Cancel.finish_idle_cancellations host
  issue SchedulerCall.recover = Recover.recover host
  issue (SchedulerCall.elsewhere other) = modify (λ d. record other { runs = d.runs })

  -- The world after the calls, each of which returns or raises.
  pub after_calls : List SchedulerCall → World Database → World Database
  unfolding issue
  after_calls [] w = w
  after_calls (c ∷ cs) w = after_calls cs (issue c w).1

  module _ (lawful : IsLawful host) (made : IsQuietFactory make) where
    dropped : {A : Type 0} (m : Db A) → Advances [] nothing m → Advances [] nothing (do m; pure tt)
    dropped m h =
        Advances-then [] nothing _ _ h (λ a. Advances-quiet (pure tt) (λ rows. Keeps-pure tt))

    issue-Advances : (c : SchedulerCall) → Advances [] nothing (issue c)
    unfolding issue
    issue-Advances (SchedulerCall.submit owner k request given) =
        dropped _
          (Advances-quiet _ (λ rows. submit-Keeps rows host lawful make owner k request given made))
    issue-Advances (SchedulerCall.delegate ctx key q) =
        dropped _ (Advances-quiet _ (λ rows. delegate-Keeps rows host lawful config ctx key q))
    issue-Advances (SchedulerCall.claim worker pid start) =
        dropped _ (claim-Advances host lawful config worker pid start)
    issue-Advances (SchedulerCall.settle ctx outcome) =
        dropped _ (settle-Advances host lawful ctx outcome)
    issue-Advances (SchedulerCall.respond owner k a) =
        dropped _ (respond-Advances host lawful owner k a)
    issue-Advances (SchedulerCall.cancel owner k reason) =
        dropped _ (cancel-Advances host lawful owner k reason)
    issue-Advances (SchedulerCall.reconcile owner k q) =
        dropped _ (reconcile-Advances host lawful owner k q)
    issue-Advances SchedulerCall.expire_interactions = expire_interactions-Advances host lawful
    issue-Advances SchedulerCall.refresh_waits = refresh_waits-Advances host lawful
    issue-Advances SchedulerCall.finish_idle_cancellations =
        finish_idle_cancellations-Advances host lawful []
    issue-Advances SchedulerCall.recover = recover-Advances host lawful
    issue-Advances (SchedulerCall.elsewhere other) =
        Advances-modify _ (λ d known. Evolves-refl d.runs)

    after_calls-Evolves :
        (cs : List SchedulerCall) (w : World Database)
        → HasKeys w.db.runs
        → Evolves w.db.runs (after_calls cs w).db.runs
    unfolding after_calls
    after_calls-Evolves [] w keys = Evolves-refl w.db.runs
    after_calls-Evolves (c ∷ cs) w keys =
        let first = ((issue-Advances c).at w (record { keys = keys; read = tt })).0 in
        Evolves-trans w.db.runs _ _ first (after_calls-Evolves cs (issue c w).1 (first.keyed keys))

    -- Let the hooks and the factory of snapshots leave the runs as they are or move them along the
    -- table of transitions, and let no two rows of the runs have one identifier. A run of the table is
    -- still there after any sequence of calls, with a status that transitions of the table lead to and
    -- no smaller revision; where its status was terminal, it is the same, and where it was cancelling,
    -- it is cancelling or cancelled.
    pub runs_move_forward :
        (cs : List SchedulerCall) (w : World Database)
        → HasKeys w.db.runs
        → (k : String) (x : RunRow) → find k w.db.runs ≡ some x
        → (y : RunRow) × (find k (after_calls cs w).db.runs ≡ some y)
          × Reaches x.status y.status
          × x.revision ≤ y.revision
          × (is_terminal x.status ≡ false ⊎ y.status ≡ x.status)
          × (same_status x.status RunStatus.cancelling ≡ false
              ⊎ status_in y.status (RunStatus.cancelling ∷ RunStatus.cancelled ∷ []) ≡ true)
    runs_move_forward cs w keys k x found =
        let (y, at, later) = (after_calls-Evolves cs w keys).moves k x found in
        (
          y,
          at,
          later.reaches,
          later.grows,
          elim (Bool-cases (is_terminal x.status)) [
            | inl ended ↦ inr (sym (terminal-Reaches x.status ended later.reaches))
            | inr going ↦ inl going
          ],
          elim (Bool-cases (same_status x.status RunStatus.cancelling)) [
            | inl stopping ↦ inr (cancelling-Reaches x.status stopping later.reaches)
            | inr other ↦ inl other
          ],
        )
