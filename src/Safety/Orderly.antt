-- ===== src/Safety/Orderly.antt =====
-- The answers, waits and cancellations of harness/scheduler/service.py move runs only along the
-- table of transitions.
use mi_harness.Prelude.{
  String, ◌≡◌, refl, true, Option, none, some, List, [], ◌∷◌, ◌++◌, All_of, all,
}
use mi_harness.Exec.{pure, ◌>>◌}
use mi_harness.Exec.Keeps.{
  Keeps, Keeps-modify, Keeps-pure, Keeps-for_each, Keeps-gets, Keeps-or_raise, keeps_rules,
}
use mi_harness.Core.{RunStatus, ExecutionContext}
use mi_harness.Host.{Host}
use mi_harness.Store.Schema.{RunRow, InteractionRow, WaitRow, Database}
use mi_harness.Store.Records
use mi_harness.Store.Runs.{RunField}
use mi_harness.Store.Events.{pending_outbox, deliver_outbox}
use mi_harness.Store.Interactions.{interactions}
use mi_harness.Store.Waits.{waits}
use mi_harness.Scheduler.Transition.{transition}
use mi_harness.Scheduler.Waiting.{
  resolutions, wake, Answer, check_answer, respond, expire_one, expire_interactions, refresh_wait,
  refresh_waits_of, refresh_waits,
}
use mi_harness.Safety.Quiet.{
  event-Keeps, interaction-Keeps, interactions-Keeps, update_interaction-Keeps, update_wait-Keeps,
}
use mi_harness.Safety.Lifecycle.{IsRead}
use mi_harness.Safety.Advances.{
  Knows, Advances, nothing, Since, Advances-then, Advances-transaction, Advances-quiet,
  Advances-after, Advances-when, Advances-for_each, Advances-over,
}
use mi_harness.Safety.Reading.{since-IsQuiet, run-Advances, runs-Advances, runs_of-Advances}
use mi_harness.Safety.Transitions.{keeps_status, IsLawful, transition-Advances}

module _ (host : Host) (lawful : IsLawful host) where
  -- A transition at the end of a method that returns nothing.
  pub transition_last :
      (rs : List RunRow) (r : RunRow) (next : RunStatus) (ctx : Option ExecutionContext)
      (reason : Option String) (extra : List RunField)
      → ((d : Database) → Knows rs d → IsRead r d.runs)
      → all keeps_status extra ≡ true
      → Advances rs nothing (do transition host r next ctx reason extra; pure tt)
  transition_last rs r next ctx reason extra read plain =
      Advances-then rs (λ u. u ∷ []) _ _
        (transition-Advances host lawful rs r next ctx reason extra read plain)
        (λ u. Advances-quiet (pure tt) (λ rows. Keeps-pure tt))

  resolutions-Keeps : (k : String) (rows : List RunRow) → Keeps (Since rows) (resolutions k)
  unfolding resolutions interactions waits Records.get
  resolutions-Keeps k rows = search keeps_rules depth 12

  pub wake-Advances : (rs : List RunRow) (k : String) → Advances rs nothing (wake host k)
  unfolding wake all
  wake-Advances rs k =
      Advances-then rs (λ r. r ∷ []) _ _ (run-Advances rs k none)
        (λ r. Advances-when _ _ (
          Advances-after (r ∷ rs) _ _ (resolutions-Keeps k) (λ ready. Advances-when _ _ (
            transition_last (r ∷ rs) r RunStatus.queued none (some "resumable") []
              (λ d known. known.read.0) refl))))

  refresh_wait-Advances :
      (rs : List RunRow) (w : WaitRow) → Advances rs nothing (refresh_wait host w)
  unfolding refresh_wait
  refresh_wait-Advances rs w = Advances-when _ _ (
      Advances-then rs (λ xs. xs) _ _ (runs_of-Advances rs w.child_ids)
        (λ cs. Advances-when _ _ (
          Advances-after _ _ _
            (λ rows. update_wait-Keeps (Since rows) (since-IsQuiet rows) _ _ _ _ _)
            (λ u. wake-Advances _ w.parent_id))))

  waits-Keeps : (k : Option String) (rows : List RunRow) → Keeps (Since rows) (waits k)
  unfolding waits
  waits-Keeps k rows = Keeps-gets _

  pub refresh_waits_of-Advances :
      (rs : List RunRow) (k : Option String) → Advances rs nothing (refresh_waits_of host k)
  unfolding refresh_waits_of
  refresh_waits_of-Advances rs k =
      Advances-after rs _ _ (waits-Keeps k)
        (λ ws. Advances-for_each ws _ (All_of _ ws (λ w. refresh_wait-Advances rs w)))

  check_answer-Keeps :
      (i : InteractionRow) (r : RunRow) (a : Answer) (rows : List RunRow)
      → Keeps (Since rows) (check_answer host i r a)
  unfolding check_answer
  check_answer-Keeps i r a rows = search keeps_rules depth 16

  pub respond-Advances :
      (owner k : String) (a : Answer) → Advances [] nothing (respond host owner k a)
  unfolding respond
  respond-Advances owner k a = Advances-transaction _ (
      Advances-after [] _ _ (λ rows. interaction-Keeps (Since rows) (since-IsQuiet rows) k)
        (λ i.
          Advances-then [] (λ r. r ∷ []) _ _ (run-Advances [] i.run_id (some owner))
            (λ r. Advances-after _ _ _ (check_answer-Keeps i r a) (λ u.
              Advances-after _ _ _
                (λ rows. update_interaction-Keeps (Since rows) (since-IsQuiet rows) _ _ _)
                (λ resolved.
                  Advances-after _ _ _ (λ rows. event-Keeps (Since rows) (since-IsQuiet rows) _ _ _)
                    (λ e. Advances-then _ nothing _ _ (wake-Advances _ r.id) (λ u.
                      Advances-then _ (λ x. x ∷ []) _ _ (run-Advances _ r.id none)
                        (λ after. Advances-quiet (pure _) (λ rows. Keeps-pure _)))))))))

  expire_one-Keeps :
      (k : String) (i : InteractionRow) (rows : List RunRow)
      → Keeps (Since rows) (expire_one host k i)
  unfolding expire_one
  expire_one-Keeps k i rows =
      search
        (
          keeps_rules,
          event-Keeps (Since rows) (since-IsQuiet rows),
          update_interaction-Keeps (Since rows) (since-IsQuiet rows),
        )
        depth 16

  pub expire_interactions-Advances : Advances [] nothing (expire_interactions host)
  unfolding expire_interactions
  expire_interactions-Advances = Advances-transaction _ (
      Advances-then [] (λ xs. xs) _ _ (runs-Advances [] _ _ _)
        (λ xs. Advances-over xs [] _ (λ r read.
          Advances-after (xs ++ []) _ _
            (λ rows. interactions-Keeps (Since rows) (since-IsQuiet rows) r.id)
            (λ asked.
              Advances-after (xs ++ []) _ _
                (λ rows. Keeps-for_each asked _ (λ i. expire_one-Keeps r.id i rows))
                (λ u. wake-Advances _ r.id)))))

  pending_outbox-Keeps : (k : String) (rows : List RunRow) → Keeps (Since rows) (pending_outbox k)
  unfolding pending_outbox
  pending_outbox-Keeps k rows = Keeps-gets _

  deliver_outbox-Keeps : (k : String) (rows : List RunRow) → Keeps (Since rows) (deliver_outbox k)
  unfolding deliver_outbox
  deliver_outbox-Keeps k rows = search (keeps_rules, Keeps-modify) depth 12

  pub refresh_waits-Advances : Advances [] nothing (refresh_waits host)
  unfolding refresh_waits
  refresh_waits-Advances = Advances-transaction _ (
      Advances-then [] nothing _ _ (refresh_waits_of-Advances [] none) (λ u.
        Advances-after [] _ _ (pending_outbox-Keeps "children") (λ items.
          Advances-for_each items _ (
            All_of _ items (λ item.
              Advances-after [] _ _ (λ rows. Keeps-or_raise _ _)
                (λ parent.
                  Advances-then [] nothing _ _ (refresh_waits_of-Advances [] (some parent))
                    (λ u. Advances-quiet _ (deliver_outbox-Keeps item.id))))))))
