-- ===== src/Safety/Dispatch.antt =====
-- Scheduler.claim moves runs only along the table of transitions.
use mi_harness.Prelude.{ℕ, String, refl, none, some, List, [], ◌∷◌, ◌++◌, All, all}
use mi_harness.Exec.{pure}
use mi_harness.Exec.Keeps.{
  Keeps, Keeps-modify, Keeps-new_id, Keeps-after_seconds, Keeps-gets, Keeps-pure, keeps_rules,
}
use mi_harness.Core.{RunStatus}
use mi_harness.Host.{Host}
use mi_harness.Store.Schema.{RunRow, BranchRow, Database}
use mi_harness.Store.Records
use mi_harness.Store.Runs.{add_attempt}
use mi_harness.Scheduler.Submit.{SchedulerConfig}
use mi_harness.Scheduler.Claim.{context, take_run, claim_from, within_slots, claim}
use mi_harness.Safety.Quiet.{branch-Keeps, set_branch_owner-Keeps}
use mi_harness.Safety.Lifecycle.{IsRead}
use mi_harness.Safety.Advances.{
  Knows, Advances, nothing, Since, Advances-then, Advances-transaction, Advances-quiet,
  Advances-after, Advances-if, Advances-forget, All_known,
}
use mi_harness.Safety.Reading.{since-IsQuiet, runs-Advances}
use mi_harness.Safety.Transitions.{IsLawful, transition-Advances}

pub add_attempt-Keeps :
    (k run worker : String) (pid start expiry fence : ℕ) (rows : List RunRow)
    → Keeps (Since rows) (add_attempt k run worker pid start expiry fence)
unfolding add_attempt
add_attempt-Keeps k run worker pid start expiry fence rows =
    search (keeps_rules, Keeps-modify) depth 14

context-Keeps : (r : RunRow) (rows : List RunRow) → Keeps (Since rows) (context r)
unfolding context
context-Keeps r rows = search (keeps_rules, branch-Keeps (Since rows) (since-IsQuiet rows)) depth 12

module _ (host : Host) (lawful : IsLawful host) (config : SchedulerConfig) where
  take_run-Advances :
      (rs : List RunRow) (worker : String) (pid start : ℕ) (r : RunRow) (b : BranchRow)
      → ((d : Database) → Knows rs d → IsRead r d.runs)
      → Advances rs nothing (take_run host config worker pid start r b)
  unfolding take_run all
  take_run-Advances rs worker pid start r b read =
      Advances-after rs _ _
        (λ rows.
          set_branch_owner-Keeps (Since rows) (since-IsQuiet rows) b.id b.active_run_id (some r.id))
        (λ u.
          Advances-after rs _ _ (λ rows. Keeps-new_id)
            (λ fresh.
              Advances-after rs _ _ (λ rows. Keeps-after_seconds _)
                (λ expiry.
                  Advances-after rs _ _ (add_attempt-Keeps fresh r.id worker pid start expiry _)
                    (λ u.
                      Advances-then rs (λ x. x ∷ []) _ _
                        (transition-Advances host lawful rs r RunStatus.running none none _ read
                          refl)
                        (λ started.
                          Advances-after (started ∷ rs) _ _ (context-Keeps started)
                            (λ ctx. Advances-quiet (pure _) (λ rows. Keeps-pure _)))))))

  claim_from-Advances :
      (rs : List RunRow) (worker : String) (pid start : ℕ) (busy queue : List RunRow)
      → All (λ x. (d : Database) → Knows rs d → IsRead x d.runs) queue
      → Advances rs nothing (claim_from host config worker pid start busy queue)
  unfolding claim_from all
  claim_from-Advances rs worker pid start busy [] h =
      Advances-quiet (pure none) (λ rows. Keeps-pure none)
  claim_from-Advances rs worker pid start busy (r ∷ rest) h =
      let further = claim_from-Advances rs worker pid start busy rest h.1 in
      Advances-after rs _ _ (λ rows. branch-Keeps (Since rows) (since-IsQuiet rows) r.branch_id)
        (λ b. Advances-if _ _ _ further (
          Advances-if _ _ _
            (Advances-then rs nothing _ _
              (Advances-forget (λ x. x ∷ []) _
                (transition-Advances host lawful rs r RunStatus.cancelled none (some "cancelled") []
                  h.0 refl))
              (λ u. further))
            (Advances-if _ _ _ further (take_run-Advances rs worker pid start r b h.0))))

  within_slots-Advances :
      (rs : List RunRow) (worker : String) (pid start : ℕ) (busy : List RunRow)
      → Advances rs nothing (within_slots host config worker pid start busy)
  unfolding within_slots
  within_slots-Advances rs worker pid start busy =
      Advances-if _ _ _ (Advances-quiet (pure none) (λ rows. Keeps-pure none)) (
        Advances-then rs (λ xs. xs) _ _ (runs-Advances rs _ _ _)
          (λ queue.
            claim_from-Advances (queue ++ rs) worker pid start busy queue (All_known queue rs)))

  pub claim-Advances :
      (worker : String) (pid start : ℕ) → Advances [] nothing (claim host config worker pid start)
  unfolding claim Records.get
  claim-Advances worker pid start =
      Advances-after [] _ _ (λ rows. Keeps-gets _)
        (λ saved. Advances-if _ _ _ (Advances-quiet (pure none) (λ rows. Keeps-pure none)) (
          Advances-transaction _ (
            Advances-then [] (λ xs. xs) _ _ (runs-Advances [] _ _ _)
              (λ busy. within_slots-Advances (busy ++ []) worker pid start busy))))
