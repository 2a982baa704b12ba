-- ===== src/Safety/Review.antt =====
-- Scheduler.reconcile moves runs only along the table of transitions.
use mi_harness.Prelude.{ℕ, String, refl, true, not, none, some, List, [], ◌∷◌, all, any}
use mi_harness.Exec.{pure, raise, invalid_decision, ◌>>=◌, ◌>>◌, when}
use mi_harness.Exec.Keeps.{Keeps, Keeps-require, Keeps-raise, Keeps-modify, Keeps-pure, keeps_rules}
use mi_harness.Core.{RunStatus}
use mi_harness.Host.{Host}
use mi_harness.Store.Schema.{RunRow, OperationRow, Database}
use mi_harness.Store.Runs.{RunField}
use mi_harness.Store.Operations.{operation, add_reconciliation, OperationField}
use mi_harness.Scheduler.Transition.{transition}
use mi_harness.Tools.Reconcile.{
  AllowedAction, ReviewDecision, ReviewRequest, check_completed, check_not_executed, check_evidence,
  accepted, patch_for, reconcile_operation,
}
use mi_harness.Scheduler.Recover.{resume_reviewed, is_open, after_review, review, reconcile}
use mi_harness.Safety.Quiet.{update_operation-Keeps, operations-Keeps}
use mi_harness.Safety.Lifecycle.{IsRead}
use mi_harness.Safety.Advances.{
  Knows, Advances, nothing, Since, Advances-then, Advances-transaction, Advances-quiet,
  Advances-after, Advances-when, Advances-if,
}
use mi_harness.Safety.Reading.{
  since-IsQuiet, put-Keeps, run-Advances, run-Keeps, revoke_grants-Keeps,
}
use mi_harness.Safety.Transitions.{IsLawful}
use mi_harness.Safety.Orderly.{transition_last}
use mi_harness.Safety.Barrier.{finish_idle_cancellations-Advances}
use mi_harness.Safety.Bindings.{readable_artifact-Keeps}

operation-Keeps : (k : String) (rows : List RunRow) → Keeps (Since rows) (operation k)
unfolding operation
operation-Keeps k rows = search keeps_rules depth 12

module _ (host : Host) where
  patch_for-Keeps :
      (o : OperationRow) (actor : String) (q : ReviewRequest) (rows : List RunRow)
      → Keeps (Since rows) (patch_for host o actor q)
  unfolding patch_for check_completed check_not_executed
  patch_for-Keeps o actor q rows =
      elim q.decision
        as (λ k. Keeps {A = List OperationField × AllowedAction} (Since rows) (elim k [
          | ReviewDecision.confirm_completed ↦ (do
            patch ← check_completed host o actor q
            pure (patch, AllowedAction.resume))
          | ReviewDecision.confirm_not_executed ↦ (do
            patch ← check_not_executed host o
            pure (patch, AllowedAction.resume))
          | ReviewDecision.accept_unresolved ↦
              pure (accepted host o actor, AllowedAction.end_without_success)
          | ReviewDecision.other ↦ raise invalid_decision
        ])) [
          | ReviewDecision.confirm_completed ↦
              search (keeps_rules, readable_artifact-Keeps host) depth 16
          | ReviewDecision.confirm_not_executed ↦ search keeps_rules depth 12
          | ReviewDecision.accept_unresolved ↦ search keeps_rules
          | ReviewDecision.other ↦ Keeps-raise _
        ]

  add_reconciliation-Keeps :
      (k : String) (n : ℕ) (actor decision details : String) (rows : List RunRow)
      → Keeps (Since rows) (add_reconciliation k n actor decision details)
  unfolding add_reconciliation
  add_reconciliation-Keeps k n actor decision details rows =
      search (keeps_rules, Keeps-modify) depth 16

  reconcile_operation-Keeps :
      (k actor : String) (q : ReviewRequest) (rows : List RunRow)
      → Keeps (Since rows) (reconcile_operation host k actor q)
  unfolding reconcile_operation check_evidence
  reconcile_operation-Keeps k actor q rows =
      search
        (
          keeps_rules,
          operation-Keeps,
          run-Keeps,
          readable_artifact-Keeps host,
          patch_for-Keeps,
          add_reconciliation-Keeps,
          revoke_grants-Keeps,
          update_operation-Keeps (Since rows) (since-IsQuiet rows),
        )
        depth 24

module _ (host : Host) (lawful : IsLawful host) where
  resume_reviewed-Advances :
      (rs : List RunRow) (r : RunRow)
      → ((d : Database) → Knows rs d → IsRead r d.runs)
      → Advances rs nothing (resume_reviewed host r)
  unfolding resume_reviewed all
  resume_reviewed-Advances rs r read =
      Advances-after rs _ _ (put-Keeps _ _ _) (λ u.
        transition_last host lawful rs r RunStatus.queued none (some "reconciled") [] read refl)

  decided-Advances :
      (rs : List RunRow) (r : RunRow) (action : AllowedAction) (ops : List OperationRow)
      → ((d : Database) → Knows rs d → IsRead r d.runs)
      → Advances rs nothing (elim action [
        | AllowedAction.resume ↦ when (not (any (is_open host) ops)) (resume_reviewed host r)
        | AllowedAction.end_without_success ↦ (do
          transition host r RunStatus.cancelling none
              (some "accepted")
              (RunField.cancel_requested true ∷ [])
          pure tt)
      ])
  unfolding all
  decided-Advances rs r AllowedAction.resume ops read =
      Advances-when _ _ (resume_reviewed-Advances rs r read)
  decided-Advances rs r AllowedAction.end_without_success ops read =
      transition_last host lawful rs r RunStatus.cancelling none (some "accepted") _ read refl

  review-Advances :
      (owner k : String) (q : ReviewRequest) → Advances [] nothing (review host owner k q)
  unfolding review after_review
  review-Advances owner k q = Advances-transaction _ (
      Advances-after [] _ _ (operation-Keeps k) (λ o.
        Advances-then [] (λ x. x ∷ []) _ _ (run-Advances [] o.run_id (some owner))
          (λ r.
            Advances-after (r ∷ []) _ _ (λ rows. Keeps-require _ _)
              (λ u.
                Advances-after (r ∷ []) _ _ (reconcile_operation-Keeps host k owner q) (λ result.
                  Advances-after (r ∷ []) _ _
                    (λ rows. operations-Keeps (Since rows) (since-IsQuiet rows) r.id)
                    (λ ops.
                      Advances-then (r ∷ []) nothing _ _
                        (Advances-if _ _ _
                          (decided-Advances (r ∷ []) r result.allowed_action ops
                            (λ d known. known.read.0))
                          (Advances-quiet (pure tt) (λ rows. Keeps-pure tt)))
                        (λ u. Advances-quiet (pure _) (λ rows. Keeps-pure _))))))))

  pub reconcile-Advances :
      (owner k : String) (q : ReviewRequest) → Advances [] nothing (reconcile host owner k q)
  unfolding reconcile
  reconcile-Advances owner k q = Advances-then [] nothing _ _ (review-Advances owner k q) (λ done.
      Advances-then [] nothing _ _ (finish_idle_cancellations-Advances host lawful []) (λ u.
        Advances-then [] (λ r. r ∷ []) _ _ (run-Advances [] done.1 none)
          (λ after. Advances-quiet (pure _) (λ rows. Keeps-pure _))))
