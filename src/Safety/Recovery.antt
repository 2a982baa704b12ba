-- ===== src/Safety/Recovery.antt =====
-- Scheduler.recover moves runs only along the table of transitions.
use mi_harness.Prelude.{
  String, refl, All_of, false, Option, none, some, List, [], ◌∷◌, ◌++◌, all, leb,
}
use mi_harness.Exec.{pure, utc_now, ◌>>=◌, when}
use mi_harness.Exec.Keeps.{
  Keeps, Keeps-bind, Keeps-gets, Keeps-utc_now, Keeps-when, Keeps-pure, keeps_rules,
}
use mi_harness.Core.{RunStatus}
use mi_harness.Host.{Host}
use mi_harness.Store.Schema.{RunRow, AttemptRow, OperationRow, Database}
use mi_harness.Scheduler.Recover.{
  recover_running, recover_operation, recover_operations, mark_recovering, resume_lost,
  recover_lost, recover_attempt, recover_run, recover,
}
use mi_harness.Safety.Quiet.{update_operation-Keeps, operations-Keeps, end_attempt-Keeps}
use mi_harness.Safety.Lifecycle.{IsRead}
use mi_harness.Safety.Advances.{
  Knows, Advances, nothing, Since, Advances-then, Advances-transaction, Advances-quiet,
  Advances-pure, Advances-after, Advances-when, Advances-if, Advances-for_each,
}
use mi_harness.Safety.Reading.{since-IsQuiet, run-Advances, runs-Advances, revoke_grants-Keeps}
use mi_harness.Safety.Transitions.{IsLawful, transition-Advances}
use mi_harness.Safety.Orderly.{transition_last}
use mi_harness.Safety.Barrier.{finish_idle_cancellations-Advances}

module _ (host : Host) where
  recover_running-Keeps :
      (o : OperationRow) (rows : List RunRow) → Keeps (Since rows) (recover_running host o)
  unfolding recover_running
  recover_running-Keeps o rows =
      search (keeps_rules, update_operation-Keeps (Since rows) (since-IsQuiet rows)) depth 18

  recover_operation-Keeps :
      (ks : List String) (o : OperationRow) (rows : List RunRow)
      → Keeps (Since rows) (recover_operation host ks o)
  unfolding recover_operation
  recover_operation-Keeps ks o rows = search (keeps_rules, recover_running-Keeps) depth 12

  recover_operations-Keeps :
      (ks : List String) (os : List OperationRow) (rows : List RunRow)
      → Keeps (Since rows) (recover_operations host ks os)
  unfolding recover_operations
  recover_operations-Keeps ks [] rows = Keeps-pure false
  recover_operations-Keeps ks (o ∷ os) rows =
      Keeps-bind _ _ (recover_operation-Keeps ks o rows)
        (λ first. Keeps-bind _ _ (recover_operations-Keeps ks os rows) (λ rest. Keeps-pure _))

module _ (host : Host) (lawful : IsLawful host) where
  mark_recovering-Advances :
      (rs : List RunRow) (r : RunRow)
      → ((d : Database) → Knows rs d → IsRead r d.runs)
      → Advances rs (λ x. x ∷ []) (mark_recovering host r)
  unfolding mark_recovering all
  mark_recovering-Advances rs r read =
      Advances-if _ _ _
        (transition-Advances host lawful rs r RunStatus.recovering none (some "lease lost") [] read
          refl)
        (Advances-pure r (λ d known. (read d known, tt)))

  resume_lost-Advances :
      (rs : List RunRow) (r : RunRow) (a : AttemptRow) (ks : List String)
      → ((d : Database) → Knows rs d → IsRead r d.runs)
      → Advances rs nothing (resume_lost host r a ks)
  unfolding resume_lost all
  resume_lost-Advances rs r a ks read =
      Advances-after rs _ _
        (λ rows. end_attempt-Keeps (Since rows) (since-IsQuiet rows) a.id "worker_lost")
        (λ u.
          Advances-after rs _ _ (λ rows. operations-Keeps (Since rows) (since-IsQuiet rows) r.id)
            (λ ops. Advances-after rs _ _ (recover_operations-Keeps host ks ops) (λ unknown.
              Advances-when _ _
                (transition_last host lawful rs r _ none (some "worker lost") [] read refl))))

  recover_lost-Advances :
      (rs : List RunRow) (found : RunRow) (a : AttemptRow)
      → ((d : Database) → Knows rs d → IsRead found d.runs)
      → Advances rs nothing (recover_lost host found a)
  unfolding recover_lost
  recover_lost-Advances rs found a read =
      Advances-then rs (λ x. x ∷ []) _ _ (mark_recovering-Advances rs found read)
        (λ r.
          Advances-after (r ∷ rs) _ _
            (λ rows. operations-Keeps (Since rows) (since-IsQuiet rows) r.id)
            (λ ops.
              Advances-after (r ∷ rs) _ _ (λ rows. Keeps-gets _)
                (λ continued. Advances-after (r ∷ rs) _ _ (revoke_grants-Keeps r.id _) (λ u.
                  Advances-when _ _
                    (resume_lost-Advances (r ∷ rs) r a _ (λ d known. known.read.0))))))

  recover_attempt-Advances :
      (rs : List RunRow) (listed : RunRow) (a : AttemptRow)
      → Advances rs nothing (recover_attempt host listed a)
  unfolding recover_attempt
  recover_attempt-Advances rs listed a =
      Advances-after rs _ _ (λ rows. Keeps-when _ _ (lawful.recovers listed.id rows))
        (λ u. Advances-transaction _ (
          Advances-then rs (λ x. x ∷ []) _ _ (run-Advances rs listed.id none)
            (λ r.
              Advances-when _ _ (recover_lost-Advances (r ∷ rs) r a (λ d known. known.read.0)))))

  held-Advances :
      (rs : List RunRow) (listed : RunRow) (held : Option AttemptRow)
      → Advances rs nothing (elim held [
        | none ↦ pure tt
        | some a ↦ (do now ← utc_now; when (leb a.lease_expiry now) (recover_attempt host listed a))
      ])
  held-Advances rs listed none = Advances-quiet (pure tt) (λ rows. Keeps-pure tt)
  held-Advances rs listed (some a) =
      Advances-after rs _ _ (λ rows. Keeps-utc_now)
        (λ now. Advances-when _ _ (recover_attempt-Advances rs listed a))

  recover_run-Advances :
      (rs : List RunRow) (listed : RunRow) → Advances rs nothing (recover_run host listed)
  unfolding recover_run
  recover_run-Advances rs listed =
      Advances-after rs _ _ (λ rows. Keeps-gets _) (λ held. held-Advances rs listed held)

  pub recover-Advances : Advances [] nothing (recover host)
  unfolding recover
  recover-Advances =
      Advances-then [] (λ xs. xs) _ _ (runs-Advances [] _ _ _)
        (λ listed.
          Advances-then (listed ++ []) nothing _ _
            (Advances-for_each listed _ (All_of _ listed (recover_run-Advances (listed ++ []))))
            (λ u. finish_idle_cancellations-Advances host lawful (listed ++ [])))
