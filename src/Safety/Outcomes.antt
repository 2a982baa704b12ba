-- ===== src/Safety/Outcomes.antt =====
-- Scheduler.settle moves runs only along the table of transitions.
use mi_harness.Prelude.{String, ◌≡◌, refl, true, Option, none, some, List, [], ◌∷◌, ◌++◌, all}
use mi_harness.Exec.{pure, ◌>>=◌, ◌>>◌}
use mi_harness.Exec.Keeps.{Keeps-for_each, Keeps-or_raise, Keeps-require, Keeps-pure}
use mi_harness.Core.{
  RunStatus, ExecutionContext, OutcomeKind, RuntimeOutcome, final, waiting, error, cancel_ack,
}
use mi_harness.Host.{Host}
use mi_harness.Store.Schema.{RunRow, OperationRow, Database}
use mi_harness.Store.Runs.{RunField, end_attempt}
use mi_harness.Scheduler.Transition.{transition}
use mi_harness.Scheduler.Settle.{
  settle_cancelling, settle_waiting, settle_final, settle_error, end_with, settle_running, settle,
  kind_name,
}
use mi_harness.Safety.Quiet.{check_fence-Keeps, operations-Keeps, end_attempt-Keeps}
use mi_harness.Safety.Lifecycle.{IsRead}
use mi_harness.Safety.Advances.{
  Knows, Advances, nothing, Since, Advances-then, Advances-transaction, Advances-quiet,
  Advances-after, Advances-if, Advances-forget, forget,
}
use mi_harness.Safety.Reading.{since-IsQuiet, run-Advances, children-Advances}
use mi_harness.Safety.Transitions.{IsLawful, transition-Advances, keeps_status}
use mi_harness.Safety.Orderly.{wake-Advances, refresh_waits_of-Advances}
use mi_harness.Safety.Bindings.{
  bind_interrupt-Keeps, save_checkpoint-Advances, given_error-Keeps, readable_artifact-Keeps,
}

module _ (host : Host) (lawful : IsLawful host) (rs : List RunRow) (r : RunRow)
    (ctx : ExecutionContext) (read : (d : Database) → Knows rs d → IsRead r d.runs) where
  -- A transition of the run, at which the rows that were read before are known.
  moves_on :
      (cs : List RunRow) (next : RunStatus) (reason : Option String) (extra : List RunField)
      → all keeps_status extra ≡ true
      → Advances (cs ++ rs) nothing (transition host r next (some ctx) reason extra)
  moves_on cs next reason extra plain =
      Advances-forget (λ u. u ∷ []) _
        (transition-Advances host lawful (cs ++ rs) r next (some ctx) reason extra
          (λ d known. read d (forget cs rs d known)) plain)

  settle_cancelling-Advances :
      (open_ops : List OperationRow) → Advances rs nothing (settle_cancelling host r ctx open_ops)
  unfolding settle_cancelling all
  settle_cancelling-Advances open_ops =
      Advances-then rs (λ xs. xs) _ _ (children-Advances rs r.id)
        (λ cs.
          Advances-then (cs ++ rs) nothing _ _
            (Advances-if _ _ _ (moves_on cs RunStatus.cancelled (some "executor left") [] refl)
              (Advances-quiet (pure r) (λ rows. Keeps-pure r)))
            (λ after.
              Advances-after (cs ++ rs) _ _
                (λ rows. end_attempt-Keeps (Since rows) (since-IsQuiet rows) _ _)
                (λ u. Advances-quiet (pure after) (λ rows. Keeps-pure after))))

  settle_waiting-Advances :
      (outcome : RuntimeOutcome) → Advances rs nothing (settle_waiting host r ctx outcome)
  unfolding settle_waiting all
  settle_waiting-Advances outcome =
      Advances-after rs _ _ (λ rows. Keeps-or_raise _ _)
        (λ c.
          Advances-after rs _ _
            (λ rows. Keeps-for_each _ _ (λ ref. bind_interrupt-Keeps r ctx c ref rows))
            (λ u. Advances-then rs nothing _ _ (moves_on [] _ none _ refl) (λ moved.
              Advances-after rs _ _
                (λ rows. end_attempt-Keeps (Since rows) (since-IsQuiet rows) _ _)
                (λ u.
                  Advances-then rs nothing _ _
                    (refresh_waits_of-Advances host lawful rs (some r.id))
                    (λ u.
                      Advances-then rs nothing _ _ (wake-Advances host lawful rs r.id)
                        (λ u. Advances-forget (λ x. x ∷ []) _ (run-Advances rs r.id none)))))))

  settle_final-Advances :
      (outcome : RuntimeOutcome) → Advances rs nothing (settle_final host r ctx outcome)
  unfolding settle_final all
  settle_final-Advances outcome =
      Advances-after rs _ _ (λ rows. Keeps-require _ _)
        (λ u.
          Advances-after rs _ _ (λ rows. Keeps-or_raise _ _)
            (λ result. Advances-after rs _ _ (readable_artifact-Keeps host _ _) (λ a.
              Advances-then rs (λ xs. xs) _ _ (children-Advances rs ctx.run_id)
                (λ cs.
                  Advances-after (cs ++ rs) _ _ (λ rows. Keeps-require _ _)
                    (λ u. moves_on cs RunStatus.completed none _ refl)))))

  settle_error-Advances :
      (outcome : RuntimeOutcome) → Advances rs nothing (settle_error host r ctx outcome)
  unfolding settle_error all
  settle_error-Advances outcome =
      Advances-after rs _ _ (given_error-Keeps outcome.error)
        (λ e. moves_on [] RunStatus.failed none _ refl)

  by_kind-Advances :
      (kind : OutcomeKind) (outcome : RuntimeOutcome)
      → Advances rs nothing (elim kind [
        | final ↦ settle_final host r ctx outcome
        | _ ↦ settle_error host r ctx outcome
      ])
  by_kind-Advances final outcome = settle_final-Advances outcome
  by_kind-Advances waiting outcome = settle_error-Advances outcome
  by_kind-Advances error outcome = settle_error-Advances outcome
  by_kind-Advances cancel_ack outcome = settle_error-Advances outcome

  end_with-Advances :
      (outcome : RuntimeOutcome) (open_ops : List OperationRow)
      → Advances rs nothing (end_with host r ctx outcome open_ops)
  unfolding end_with all
  end_with-Advances outcome open_ops =
      Advances-if _ _ _ (moves_on [] RunStatus.needs_review (some "unknown operations") [] refl)
        (by_kind-Advances outcome.kind outcome)

  ended-Advances :
      (outcome : RuntimeOutcome) (open_ops : List OperationRow) (how : String)
      → Advances rs nothing (do
        after ← end_with host r ctx outcome open_ops
        end_attempt ctx.worker_attempt_id how
        pure after)
  ended-Advances outcome open_ops how =
      Advances-then rs nothing _ _ (end_with-Advances outcome open_ops) (λ after.
        Advances-after rs _ _ (λ rows. end_attempt-Keeps (Since rows) (since-IsQuiet rows) _ _)
          (λ u. Advances-quiet (pure after) (λ rows. Keeps-pure after)))

  settle_running-Advances :
      (outcome : RuntimeOutcome) (open_ops : List OperationRow)
      → Advances rs nothing (settle_running host r ctx outcome open_ops)
  unfolding settle_running
  settle_running-Advances outcome open_ops =
      elim outcome.kind
        as (λ k. Advances rs nothing (elim k [
          | waiting ↦ settle_waiting host r ctx outcome
          | other ↦ (do
            after ← end_with host r ctx outcome open_ops
            end_attempt ctx.worker_attempt_id (kind_name outcome.kind)
            pure after)
        ])) [
          | waiting ↦ settle_waiting-Advances outcome
          | final ↦ ended-Advances outcome open_ops (kind_name outcome.kind)
          | error ↦ ended-Advances outcome open_ops (kind_name outcome.kind)
          | cancel_ack ↦ ended-Advances outcome open_ops (kind_name outcome.kind)
        ]

module _ (host : Host) (lawful : IsLawful host) where
  pub settle-Advances :
      (ctx : ExecutionContext) (outcome : RuntimeOutcome)
      → Advances [] nothing (settle host ctx outcome)
  unfolding settle
  settle-Advances ctx outcome =
      Advances-after [] _ _ (λ rows. Keeps-require _ _)
        (λ u. Advances-transaction _ (
          Advances-after [] _ _
            (λ rows. check_fence-Keeps (Since rows) (since-IsQuiet rows) (some ctx))
            (λ u.
              Advances-then [] (λ x. x ∷ []) _ _ (run-Advances [] ctx.run_id none)
                (λ first.
                  Advances-then (first ∷ []) (λ x. x ∷ []) _ _
                    (save_checkpoint-Advances _ outcome.checkpoint_ref first ctx
                      (λ d known. known.read.0))
                    (λ r.
                      Advances-after (r ∷ first ∷ []) _ _
                        (λ rows. operations-Keeps (Since rows) (since-IsQuiet rows) ctx.run_id)
                        (λ ops.
                          Advances-if _ _ _
                            (settle_cancelling-Advances host lawful _ r ctx
                              (λ d known. known.read.0) _)
                            (settle_running-Advances host lawful _ r ctx (λ d known. known.read.0)
                              outcome _)))))))
