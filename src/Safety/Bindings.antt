-- ===== src/Safety/Bindings.antt =====
-- What Scheduler.settle does before it moves a run: it binds the interrupts and saves the checkpoint.
use mi_harness.Prelude.{String, refl, subst, sym, Option, none, some, List, [], ◌∷◌, all}
use mi_harness.Exec.Keeps.{Keeps, Keeps-pure, keeps_rules}
use mi_harness.Core.{
  ExecutionContext, CheckpointRef, InterruptRef, ErrorEnvelope, user, children, review,
}
use mi_harness.Host.{Host}
use mi_harness.Store.Schema.{RunRow, Database}
use mi_harness.Store.Runs.{RunField}
use mi_harness.Store.Operations.{operation}
use mi_harness.Store.Commands.{artifact}
use mi_harness.Scheduler.Submit.{readable_artifact}
use mi_harness.Scheduler.Settle.{
  bind_user, bind_children, mark_unknown, bind_review, bind_interrupt, save_checkpoint, given_error,
}
use mi_harness.Safety.Quiet.{
  event-Keeps, interaction-Keeps, update_interaction-Keeps, wait-Keeps, update_wait-Keeps,
  update_operation-Keeps,
}
use mi_harness.Safety.Lifecycle.{Reaches, IsRead}
use mi_harness.Safety.Advances.{Knows, Advances, Since, Advances-pure}
use mi_harness.Safety.Reading.{since-IsQuiet}
use mi_harness.Safety.Transitions.{update_run-Advances, status-set_fields}

bind_user-Keeps :
    (r : RunRow) (ctx : ExecutionContext) (c : CheckpointRef) (ref : InterruptRef)
    (rows : List RunRow)
    → Keeps (Since rows) (bind_user r ctx c ref)
unfolding bind_user
bind_user-Keeps r ctx c ref rows =
    let quiet = since-IsQuiet rows in
    search
      (
        keeps_rules,
        interaction-Keeps (Since rows) quiet,
        update_interaction-Keeps (Since rows) quiet,
        event-Keeps (Since rows) quiet,
      )
      depth 18

bind_review-Keeps : (k : Option String) (rows : List RunRow) → Keeps (Since rows) (bind_review k)
unfolding bind_review mark_unknown operation
bind_review-Keeps none rows = Keeps-pure tt
bind_review-Keeps (some k) rows =
    search (keeps_rules, update_operation-Keeps (Since rows) (since-IsQuiet rows)) depth 16

bind_children-Keeps :
    (c : CheckpointRef) (ref : InterruptRef) (rows : List RunRow)
    → Keeps (Since rows) (bind_children c ref)
unfolding bind_children
bind_children-Keeps c ref rows =
    search
      (
        keeps_rules,
        wait-Keeps (Since rows) (since-IsQuiet rows),
        update_wait-Keeps (Since rows) (since-IsQuiet rows),
      )
      depth 14

pub bind_interrupt-Keeps :
    (r : RunRow) (ctx : ExecutionContext) (c : CheckpointRef) (ref : InterruptRef)
    (rows : List RunRow)
    → Keeps (Since rows) (bind_interrupt r ctx c ref)
unfolding bind_interrupt
bind_interrupt-Keeps r ctx c ref rows =
    elim ref.kind
      as (λ k. Keeps (Since rows) (elim k [
        | user ↦ bind_user r ctx c ref
        | children ↦ bind_children c ref
        | review ↦ bind_review ref.operation_id
      ])) [
        | user ↦ bind_user-Keeps r ctx c ref rows
        | children ↦ bind_children-Keeps c ref rows
        | review ↦ bind_review-Keeps ref.operation_id rows
      ]

pub save_checkpoint-Advances :
    (rs : List RunRow) (c : Option CheckpointRef) (r : RunRow) (ctx : ExecutionContext)
    → ((d : Database) → Knows rs d → IsRead r d.runs)
    → Advances rs (λ x. x ∷ []) (save_checkpoint c r ctx)
unfolding save_checkpoint all
save_checkpoint-Advances rs none r ctx read = Advances-pure r (λ d known. (read d known, tt))
save_checkpoint-Advances rs (some c) r ctx read =
    update_run-Advances rs r.id r.revision (RunField.checkpoint_ref (some c) ∷ []) (some ctx)
      (λ d x known found at.
        subst (Reaches x.status)
          (sym (status-set_fields (RunField.checkpoint_ref (some c) ∷ []) x refl)) Reaches.here)

pub given_error-Keeps :
    (e : Option ErrorEnvelope) (rows : List RunRow) → Keeps (Since rows) (given_error e)
unfolding given_error
given_error-Keeps none rows = search keeps_rules
given_error-Keeps (some e) rows = Keeps-pure e

pub readable_artifact-Keeps :
    (host : Host) (k : String) (owner : Option String) (rows : List RunRow)
    → Keeps (Since rows) (readable_artifact host k owner)
unfolding readable_artifact artifact
readable_artifact-Keeps host k owner rows = search keeps_rules depth 14
