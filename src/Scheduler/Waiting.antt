-- ===== src/Scheduler/Waiting.antt =====
-- Answers, expiry and waits for children in harness/scheduler/service.py: what lets a waiting run
-- go on.
use mi_harness.Prelude.{
  ℕ, String, Bool, true, false, not, ◌&&◌, ◌||◌, Option, none, some, List, [], ◌∷◌, ◌++◌, map, leb,
  ◌==◌, if◌then◌else◌, same, is_some, any, all, every_in,
}
use mi_harness.Exec.{
  pure, transaction, utc_now, ◌>>=◌, ◌>>◌, require, when, or_raise, for_each, revision_conflict,
  interaction_closed, interaction_expired, response_schema, binding_mismatch, wait_scope, key_error,
}
use mi_harness.Core.{
  RunStatus, is_terminal, same_status, status_in, ExecutionContext, ApprovalBinding, same_binding,
}
use mi_harness.Host.{Host}
use mi_harness.Store.Schema.{
  Value, Document, Payload, RunRow, InteractionStatus, ResolutionOutcome, ChildReport, Resolution,
  InteractionRow, WaitMode, WaitRow, Db,
}
use mi_harness.Store.Records
use mi_harness.Store.Runs.{run, runs}
use mi_harness.Store.Events.{event, pending_outbox, deliver_outbox}
use mi_harness.Store.Interactions.{
  interaction_code, interaction, interactions, InteractionField, update_interaction,
}
use mi_harness.Store.Waits.{runs_of, children, add_wait, waits, update_wait}
use mi_harness.Scheduler.Transition.{resolved_data, transition}

-- A dictionary from interrupts to their resolutions.
abbrev pub Resolutions : Type 0
Resolutions = List (String × Resolution)

-- An entry where both the interrupt and the resolution are there.
abbrev resolved_entry : Option String → Option Resolution → Resolutions → Resolutions
resolved_entry (some k) (some x) rest = (k, x) ∷ rest
resolved_entry _ _ rest = rest

abbrev wait_entries : List WaitRow → Resolutions
wait_entries [] = []
wait_entries (w ∷ ws) =
    let rest = wait_entries ws in resolved_entry w.interrupt_id w.resolution rest

abbrev with_interaction : List InteractionRow → Resolutions
with_interaction [] = []
with_interaction (i ∷ is) =
    let rest = with_interaction is in resolved_entry i.interrupt_id i.resolution rest

abbrev review_entry : String → String × Resolution
review_entry k = (
  k,
  record {
    interrupt_id = some k;
    outcome = ResolutionOutcome.answered;
    response = none;
    reason = "operation_reconciled";
    children = [];
  },
)

abbrev review_entries : Option Payload → Resolutions
review_entries (some (Payload.review_resolutions ks)) = map review_entry ks
review_entries _ = []

-- Scheduler.resolutions: later sources come first, and so win where a key stands twice.
unfoldable pub resolutions : String → Db Resolutions
resolutions run_id = do
  asked ← interactions run_id
  waiting ← waits (some run_id)
  saved ← Records.get "review_resolutions" run_id
  pure (review_entries saved ++ wait_entries waiting ++ with_interaction asked)

abbrev pub covers : Resolutions → List String → Bool
covers ready [] = true
covers ready (k ∷ ks) = any (λ (e : String × Resolution). same e.0 k) ready && covers ready ks

abbrev pub is_waiting : RunStatus → Bool
is_waiting s = status_in s (RunStatus.waiting_user ∷ RunStatus.waiting_children ∷ [])

module _ (host : Host) where
  -- Scheduler._wake
  unfoldable pub wake : String → Db Unit
  wake run_id = do
    r ← run run_id none
    when (is_waiting r.status && not r.cancel_requested) (do
      ready ← resolutions run_id
      when (covers ready r.required_interrupts)
          (do transition host r RunStatus.queued none (some "resumable") []; pure tt))

abbrev expired_at : Option ℕ → ℕ → Bool
expired_at none now = false
expired_at (some t) now = leb t now

pub record Answer : Type 0 where
  pub expected_revision : ℕ
  pub response : String
  pub binding_ref : Option ApprovalBinding

abbrev same_binding? : Option ApprovalBinding → Option ApprovalBinding → Bool
same_binding? none none = true
same_binding? (some a) (some b) = same_binding a b
same_binding? _ _ = false

abbrev answered : InteractionRow → String → Resolution
answered i response = record {
  interrupt_id = i.interrupt_id;
  outcome = ResolutionOutcome.answered;
  response = some response;
  reason = "user_response";
  children = [];
}

-- item["payload"]["parent_run_id"]
parent_of : Document → Option String
parent_of [] = none
parent_of ((k, Value.text v) ∷ rest) = if same k "parent_run_id" then some v else parent_of rest
parent_of ((k, _) ∷ rest) = parent_of rest

module _ (host : Host) where
  -- The checks of Scheduler.respond.
  unfoldable pub check_answer : InteractionRow → RunRow → Answer → Db Unit
  check_answer i r a = do
    require (i.revision == a.expected_revision) revision_conflict
    require
        (interaction_code i.status == interaction_code InteractionStatus.opened
          && same_status r.status RunStatus.waiting_user)
        interaction_closed
    now ← utc_now
    require (not (expired_at i.expires_at now)) interaction_expired
    require (host.schema_accepts a.response i.payload.response_schema) response_schema
    require (not (same i.kind "approval") || same_binding? a.binding_ref i.payload.binding_ref)
        binding_mismatch

  -- Scheduler.respond; the status of the run and the revision of the interaction.
  unfoldable pub respond : String → String → Answer → Db (RunStatus × ℕ)
  respond owner interaction_id a = transaction (do
    i ← interaction interaction_id
    r ← run i.run_id (some owner)
    check_answer i r a
    resolved ← update_interaction interaction_id i.revision (
        InteractionField.status InteractionStatus.resolved
        ∷ InteractionField.resolution (answered i a.response)
        ∷ [])
    event r.id "interaction.resolved" (resolved_data resolved "answered")
    wake host r.id
    after ← run r.id none
    pure (after.status, resolved.revision))

  abbrev expiry_resolution : InteractionRow → Resolution
  expiry_resolution i = record {
    interrupt_id = i.interrupt_id;
    outcome = ResolutionOutcome.expired;
    response = none;
    reason = "interaction_deadline";
    children = [];
  }

  -- The body of the inner loop of Scheduler.expire_interactions.
  unfoldable pub expire_one : String → InteractionRow → Db Unit
  expire_one run_id i =
      when
        (interaction_code i.status == interaction_code InteractionStatus.opened
          && is_some i.expires_at)
        (do
          now ← utc_now
          when (expired_at i.expires_at now) (do
            updated ← update_interaction i.id i.revision (
                InteractionField.status InteractionStatus.expired
                ∷ InteractionField.resolution (expiry_resolution i)
                ∷ [])
            event run_id "interaction.resolved" (resolved_data updated "expired")
            pure tt))

  -- Scheduler.expire_interactions
  unfoldable pub expire_interactions : Db Unit
  expire_interactions = transaction (do
    waiting ← runs none (RunStatus.waiting_user ∷ RunStatus.waiting_children ∷ []) none
    for_each waiting
        (λ r. do asked ← interactions r.id; for_each asked (expire_one r.id); wake host r.id))

  abbrev child_report : RunRow → ChildReport
  child_report c = record {
    run_id = c.id;
    status = c.status;
    result_ref = c.result_ref;
    error = c.error;
  }

  abbrev children_resolution : WaitRow → List RunRow → Resolution
  children_resolution w cs = record {
    interrupt_id = w.interrupt_id;
    outcome = ResolutionOutcome.answered;
    response = none;
    reason = "children_ready";
    children = map child_report cs;
  }

  abbrev pub wait_is_over : WaitMode → List RunRow → Bool
  wait_is_over WaitMode.wait_all cs = all (λ (c : RunRow). is_terminal c.status) cs
  wait_is_over WaitMode.wait_any cs = any (λ (c : RunRow). is_terminal c.status) cs

  -- The body of the loop of Scheduler._refresh_waits.
  unfoldable pub refresh_wait : WaitRow → Db Unit
  refresh_wait w = when (is_some w.checkpoint_ref && not (is_some w.resolution)) (do
    cs ← runs_of w.child_ids
    when (wait_is_over w.mode cs) (do
      update_wait w.id w.revision w.interrupt_id w.checkpoint_ref (some (children_resolution w cs))
      wake host w.parent_id))

  -- Scheduler._refresh_waits
  unfoldable pub refresh_waits_of : Option String → Db Unit
  refresh_waits_of parent = do ws ← waits parent; for_each ws refresh_wait

  -- Scheduler.refresh_waits
  unfoldable pub refresh_waits : Db Unit
  unfolding parent_of
  refresh_waits = transaction (do
    refresh_waits_of none
    items ← pending_outbox "children"
    for_each items (λ item. do
      parent ← or_raise key_error (parent_of item.payload)
      refresh_waits_of (some parent)
      deliver_outbox item.id))

abbrev is_nil : List String → Bool
is_nil [] = true
is_nil (k ∷ ks) = false

-- Scheduler.prepare_wait; a mode that is neither "all" nor "any" has no value here.
unfoldable pub prepare_wait : ExecutionContext → String → List String → WaitMode → Db WaitRow
prepare_wait ctx key child_ids mode = do
  known ← children ctx.run_id
  require (every_in child_ids (map (λ (c : RunRow). c.id) known) && not (is_nil child_ids))
      wait_scope
  add_wait ctx.run_id key child_ids mode
