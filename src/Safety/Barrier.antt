-- ===== src/Safety/Barrier.antt =====
-- Scheduler.cancel and Scheduler.finish_idle_cancellations move runs only along the table of
-- transitions.
use mi_harness.Prelude.{
  ℕ, zero, suc, String, refl, subst, sym, true, Option, none, some, List, [], ◌∷◌, ◌++◌, All_of,
  all,
}
use mi_harness.Exec.{pure}
use mi_harness.Exec.Keeps.{
  Keeps, Keeps-bind, Keeps-for_each, Keeps-pure, Keeps-raise, Keeps-gets, keeps_rules,
}
use mi_harness.Core.{RunStatus}
use mi_harness.Host.{Host}
use mi_harness.Store.Schema.{RunRow, Database}
use mi_harness.Store.Runs.{RunField, attempt}
use mi_harness.Scheduler.Cancel.{
  descendants, settle_cancelled, attempt_of, cancel_all, cancel_one, finish_idle,
  finish_idle_cancellations, mark_cancelled, cancel,
}
use mi_harness.Safety.Quiet.{interactions-Keeps, operations-Keeps, close_interaction-Keeps}
use mi_harness.Safety.Lifecycle.{Reaches, IsRead}
use mi_harness.Safety.Advances.{
  Knows, Advances, nothing, Since, Advances-then, Advances-transaction, Advances-quiet,
  Advances-after, Advances-when, Advances-if, Advances-for_each, Advances-back, forget,
}
use mi_harness.Safety.Reading.{
  since-IsQuiet, run-Advances, runs-Advances, children-Keeps, children-Advances,
  revoke_grants-Keeps,
}
use mi_harness.Safety.Transitions.{update_run-Advances, status-set_fields, IsLawful}
use mi_harness.Safety.Orderly.{transition_last}

descendants-Keeps :
    (rounds : ℕ) (todo : List RunRow) (rows : List RunRow)
    → Keeps (Since rows) (descendants rounds todo)
unfolding descendants
descendants-Keeps rounds [] rows = Keeps-pure (some [])
descendants-Keeps zero (r ∷ todo) rows = Keeps-pure none
descendants-Keeps (suc rounds) (r ∷ todo) rows =
    Keeps-bind _ _ (children-Keeps r.id rows)
      (λ cs. Keeps-bind _ _ (descendants-Keeps rounds (todo ++ cs) rows) (λ rest. Keeps-pure _))

module _ (host : Host) (lawful : IsLawful host) where
  attempt_of-Keeps :
      (k : Option String) (rows : List RunRow) → Keeps (Since rows) (attempt_of host k)
  unfolding attempt_of attempt
  attempt_of-Keeps none rows = Keeps-pure none
  attempt_of-Keeps (some k) rows = search keeps_rules depth 12

  settle_cancelled-Advances :
      (rs : List RunRow) (r : RunRow) (reason : String)
      → ((d : Database) → Knows rs d → IsRead r d.runs)
      → Advances rs nothing (settle_cancelled host r reason)
  unfolding settle_cancelled all
  settle_cancelled-Advances rs r reason read =
      Advances-then rs (λ xs. xs) _ _ (children-Advances rs r.id)
        (λ cs.
          let still =
            λ (d : Database) (known : Knows (cs ++ rs) d). read d (forget cs rs d known) in
          Advances-after (cs ++ rs) _ _
            (λ rows. operations-Keeps (Since rows) (since-IsQuiet rows) r.id)
            (λ ops.
              Advances-if _ _ _
                (transition_last host lawful _ r RunStatus.cancelled none (some reason) [] still
                  refl)
                (Advances-when _ _ (
                  transition_last host lawful _ r RunStatus.cancelling none (some reason) [] still
                    refl))))

  cancel_one-Advances :
      (rs : List RunRow) (reason : String) (r : RunRow)
      → Advances rs nothing (cancel_one host reason r)
  unfolding cancel_one all
  cancel_one-Advances rs reason r = Advances-when _ _ (
      Advances-then rs (λ x. x ∷ []) _ _
        (update_run-Advances rs r.id r.revision (RunField.cancel_requested true ∷ []) none
          (λ d x known found at.
            subst (Reaches x.status)
              (sym (status-set_fields (RunField.cancel_requested true ∷ []) x refl)) Reaches.here))
        (λ marked. Advances-after (marked ∷ rs) _ _ (revoke_grants-Keeps r.id []) (λ u.
          Advances-after (marked ∷ rs) _ _
            (λ rows. interactions-Keeps (Since rows) (since-IsQuiet rows) r.id)
            (λ asked.
              Advances-after (marked ∷ rs) _ _
                (λ rows.
                  Keeps-for_each asked _
                    (close_interaction-Keeps (Since rows) (since-IsQuiet rows) r.id reason))
                (λ u.
                  settle_cancelled-Advances (marked ∷ rs) marked reason
                    (λ d known. known.read.0))))))

  finish_idle-Advances :
      (rs : List RunRow) (r : RunRow)
      → ((d : Database) → Knows rs d → IsRead r d.runs)
      → Advances rs nothing (finish_idle host r)
  unfolding finish_idle all
  finish_idle-Advances rs r read = Advances-after rs _ _ (attempt_of-Keeps r.attempt_id) (λ held.
      Advances-when _ _ (
        Advances-after rs _ _ (λ rows. operations-Keeps (Since rows) (since-IsQuiet rows) r.id)
          (λ ops.
            Advances-then rs (λ xs. xs) _ _ (children-Advances rs r.id)
              (λ cs. Advances-when _ _ (
                transition_last host lawful (cs ++ rs) r RunStatus.cancelled none (some "barrier")
                  [] (λ d known. read d (forget cs rs d known)) refl)))))

  pub finish_idle_cancellations-Advances :
      (rs : List RunRow) → Advances rs nothing (finish_idle_cancellations host)
  unfolding finish_idle_cancellations
  finish_idle_cancellations-Advances rs = Advances-transaction _ (
      Advances-then rs (λ xs. xs) _ _ (runs-Advances rs _ _ _)
        (λ xs. Advances-back xs rs _ (λ r read. finish_idle-Advances (xs ++ rs) r read)))

  cancel_all-Advances :
      (rs : List RunRow) (reason : String) (found : Option (List RunRow))
      → Advances rs nothing (cancel_all host reason found)
  unfolding cancel_all
  cancel_all-Advances rs reason none = Advances-quiet _ (λ rows. Keeps-raise _)
  cancel_all-Advances rs reason (some xs) =
      Advances-then rs nothing _ _
        (Advances-for_each xs _ (All_of _ xs (cancel_one-Advances rs reason)))
        (λ u. Advances-quiet (pure xs) (λ rows. Keeps-pure xs))

  mark_cancelled-Advances :
      (owner k reason : String) → Advances [] nothing (mark_cancelled host owner k reason)
  unfolding mark_cancelled
  mark_cancelled-Advances owner k reason = Advances-transaction _ (
      Advances-then [] (λ r. r ∷ []) _ _ (run-Advances [] k (some owner))
        (λ root.
          Advances-after (root ∷ []) _ _ (λ rows. Keeps-gets _)
            (λ edges.
              Advances-after (root ∷ []) _ _
                (λ rows. descendants-Keeps (suc edges) (root ∷ []) rows)
                (λ found. cancel_all-Advances _ reason found))))

  pub cancel-Advances : (owner k reason : String) → Advances [] nothing (cancel host owner k reason)
  unfolding cancel
  cancel-Advances owner k reason =
      Advances-then [] nothing _ _ (mark_cancelled-Advances owner k reason) (λ marked.
        Advances-after [] _ _ (λ rows. Keeps-for_each marked _ (λ r. lawful.cancels r.id rows))
          (λ u. Advances-then [] nothing _ _ (finish_idle_cancellations-Advances []) (λ u.
            Advances-then [] (λ r. r ∷ []) _ _ (run-Advances [] k none)
              (λ after. Advances-quiet (pure _) (λ rows. Keeps-pure _)))))
