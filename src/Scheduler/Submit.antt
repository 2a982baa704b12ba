-- ===== src/Scheduler/Submit.antt =====
-- Scheduler.submit of harness/scheduler/service.py.
use Prim.Native.String.{◌++◌ as text_append}
use text.Mathlib.Text.{starts_with}
use mi_harness.Prelude.{
  ℕ, String, Bool, true, false, not, ◌&&◌, ◌||◌, Option, none, some, List, [], ◌∷◌, ◌++◌, map, ◌==◌,
  if◌then◌else◌, same, get_or_else, any, contains,
}
use mi_harness.Prelude.Int.{ℤ, pos}
use mi_harness.Exec.{
  pure, raise, transaction, new_id, utc_now, after_seconds, ◌>>=◌, ◌>>◌, require, when, or_raise,
  for_each, maintenance, branch_scope, configuration, revision_conflict, artifact_scope,
  vision_unverified, plan_confirmation_stale, artifact_corrupt, image_invalid,
}
use mi_harness.Core.{RunStatus, same_status, ArtifactRef, same_artifact_ref}
use mi_harness.Host.{Host}
use mi_harness.Store.Schema.{
  BudgetPolicy, PlanConfirmation, Snapshot, Payload, SessionRow, ContentPart, MessageRow,
  ArtifactRow, Db,
}
use mi_harness.Store.Records
use mi_harness.Store.Branches.{branch, advance_branch}
use mi_harness.Store.Runs.{run, insert_run}
use mi_harness.Store.Events.{add_message, messages}
use mi_harness.Store.Commands.{artifact, reference_artifact}
use mi_harness.Store.Projects.{session}
use mi_harness.Store.Budget.{add_account}
use mi_harness.Scheduler.Transition.{event_state}

pub record SchedulerConfig : Type 0 where
  pub worker_slots : ℕ
  pub child_concurrency : ℕ
  pub max_depth : ℕ
  pub lease_seconds : ℕ

abbrev pub default_budget : BudgetPolicy
default_budget = record {
  max_model_calls = 100;
  max_total_tokens = 1000000;
  max_cost = none;
  max_wall_seconds = 3600;
  max_tool_calls = 100;
  max_children = 8;
}

abbrev as_limit : Option ℕ → Option ℤ
as_limit none = none
as_limit (some n) = some (pos n)

-- BudgetPolicy.limits
unfoldable pub limits : BudgetPolicy → List (String × Option ℤ)
limits b =
    ("model_calls", some (pos b.max_model_calls))
    ∷ ("total_tokens", some (pos b.max_total_tokens))
    ∷ ("cost", as_limit b.max_cost)
    ∷ ("tool_calls", some (pos b.max_tool_calls))
    ∷ ("children", some (pos b.max_children))
    ∷ []

pub record RunRequest : Type 0 where
  pub branch_id : Option String
  pub agent_spec_revision : Option ℕ
  pub content_parts : List ContentPart
  pub attachment_refs : List ArtifactRef
  pub expected_branch_revision : ℕ
  pub plan_confirmation : Option PlanConfirmation

pub record Receipt : Type 0 where
  pub run_id : String
  pub branch_id : String
  pub branch_revision : ℕ
  pub status : RunStatus
  pub revision : ℕ

abbrev pub in_maintenance : Option Payload → Bool
in_maintenance (some (Payload.maintenance b)) = b
in_maintenance _ = false

-- "\n".join of the texts of the text parts
unfoldable pub join_texts : List ContentPart → String
join_texts [] = ""
join_texts (p ∷ []) = if same p.kind "text" then get_or_else p.text "" else ""
join_texts (p ∷ q ∷ ps) =
    let rest = join_texts (q ∷ ps) in
    if same p.kind "text"
    then (if any (λ (x : ContentPart). same x.kind "text") (q ∷ ps)
        then text_append (get_or_else p.text "") (text_append "\n" rest)
        else get_or_else p.text "")
    else rest

unfoldable pub inline_refs : List ContentPart → List ArtifactRef
inline_refs [] = []
inline_refs (p ∷ ps) = elim p.artifact_ref [ none ↦ inline_refs ps | some a ↦ a ∷ inline_refs ps ]

abbrev attachment_part : ArtifactRef → ContentPart
attachment_part a = record {
  kind = if starts_with a.mime_type "image/" then "image" else "file_reference";
  text = none;
  artifact_ref = some a;
}

-- The parts, and one more for each attachment that no part shows yet.
unfoldable pub add_parts : List ArtifactRef → List String → List ContentPart → List ContentPart
add_parts [] present parts = parts
add_parts (a ∷ rest) present parts =
    add_parts rest (if contains a.artifact_id present then present else a.artifact_id ∷ present)
      (if contains a.artifact_id present then parts else parts ++ attachment_part a ∷ [])

unfoldable pub put_ref : ArtifactRef → List ArtifactRef → List ArtifactRef
put_ref a [] = a ∷ []
put_ref a (b ∷ bs) =
    let further = put_ref a bs in if same b.artifact_id a.artifact_id then a ∷ bs else b ∷ further

-- list({ref["artifact_id"]: ref for ref in all_refs}.values())
unfoldable pub unique_refs : List ArtifactRef → List ArtifactRef → List ArtifactRef
unfolding put_ref
unique_refs [] seen = seen
unique_refs (a ∷ rest) seen = unique_refs rest (put_ref a seen)

abbrev pub ref_of : ArtifactRow → ArtifactRef
ref_of row = record {
  artifact_id = row.id;
  content_hash = row.content_hash;
  mime_type = row.mime_type;
  size_bytes = row.size_bytes;
  owner_id = row.owner_id;
  workspace_id = row.workspace_id;
  provenance_ref = row.provenance_ref;
}

abbrev shows_image : List ContentPart → Bool
shows_image parts = any (λ (p : ContentPart). same p.kind "image") parts

abbrev snapshot_mode : Snapshot → String
snapshot_mode s = get_or_else s.mode ""

abbrev plan_matches : PlanConfirmation → Option Payload → Bool
plan_matches c (some (Payload.plan p)) =
    c.revision == p.revision && same c.content_hash p.content_hash
plan_matches c _ = false

-- A confirmed plan must be the stored plan of a completed run of this branch.
unfoldable pub check_plan : Option PlanConfirmation → String → String → Snapshot → Db Unit
check_plan none owner branch_id s = pure tt
check_plan (some c) owner branch_id s = do
  source ← run c.plan_id (some owner)
  saved ← Records.get "plans" source.id
  require
      (same source.branch_id branch_id
        && same_status source.status RunStatus.completed
        && same (snapshot_mode s) "react"
        && c.confirmed
        && plan_matches c saved)
      plan_confirmation_stale

abbrev with_confirmation : Option PlanConfirmation → Snapshot → Snapshot
with_confirmation none s = s
with_confirmation (some c) s = record s { plan_confirmation = some c }

abbrev revision_expected : Option ℕ → ℕ → Bool
revision_expected none actual = true
revision_expected (some n) actual = n == actual

abbrev budget_of : Snapshot → BudgetPolicy
budget_of s = get_or_else s.budget (get_or_else s.agent_budget default_budget)

unfoldable pub given_or_made : Option Snapshot → Option (Db Snapshot) → Db Snapshot
given_or_made (some s) make = pure s
given_or_made none none = raise configuration
given_or_made none (some make) = make

module _ (host : Host) where
  -- ArtifactStore.path: the object of the artifact can be read.
  unfoldable pub readable_artifact : String → Option String → Db ArtifactRow
  readable_artifact identity owner = do
    row ← artifact identity owner
    require (host.is_stored row) artifact_corrupt
    pure row

  unfoldable pub check_attachment : String → String → ArtifactRef → Db Unit
  check_attachment owner workspace_id a = do
    row ← artifact a.artifact_id (some owner)
    require (same row.workspace_id workspace_id && same_artifact_ref (ref_of row) a) artifact_scope
    readable_artifact a.artifact_id (some owner)
    pure tt

  unfoldable pub check_image : ContentPart → Db Unit
  check_image p =
      when (same p.kind "image")
        (do a ← or_raise image_invalid p.artifact_ref; require (host.is_image a) image_invalid)

  -- The transaction of Scheduler.submit.
  unfoldable pub enter :
      String
      → SessionRow
      → String
      → RunRequest
      → Snapshot
      → String
      → String
      → ℕ
      → ℕ
      → List ContentPart
      → List ArtifactRef
      → Db Receipt
  enter owner s branch_id request snapshot rid sid now deadline parts attachments = do
    check_plan request.plan_confirmation owner branch_id snapshot
    let final : Snapshot = with_confirmation request.plan_confirmation snapshot
    revision ← advance_branch branch_id request.expected_branch_revision
    Records.put "snapshots" sid (Payload.snapshot (record final { config_snapshot_id = some sid }))
    r ← insert_run (record {
      id = rid;
      owner_id = owner;
      workspace_id = s.workspace_id;
      session_id = s.id;
      branch_id = branch_id;
      root_run_id = rid;
      parent_run_id = none;
      status = RunStatus.queued;
      revision = 1;
      input_revision = revision;
      snapshot_id = sid;
      input = record {
        text = join_texts parts;
        content_parts = parts;
        attachment_refs = attachments;
      };
      checkpoint_ref = none;
      result_ref = none;
      error = none;
      deadline_at = some deadline;
      created_at = now;
      updated_at = now;
      next_event_seq = 1;
      fencing_token = 0;
      attempt_id = none;
      cancel_requested = false;
      required_interrupts = [];
      depth = 0;
    })
    add_account rid "root" rid (limits (budget_of snapshot))
    host.run_created_hook r final
    message_id ← new_id
    add_message rid message_id "user" (host.message_json message_id "user" parts) parts
    for_each attachments (λ a. reference_artifact a.artifact_id "run" rid)
    event_state r "run.queued" none
    pure (record {
      run_id = rid;
      branch_id = branch_id;
      branch_revision = revision;
      status = r.status;
      revision = r.revision;
    })

  -- Scheduler.submit; `make` is the snapshot factory, where one is connected.
  unfoldable pub submit :
      Option (Db Snapshot) → String → String → RunRequest → Option Snapshot → Db Receipt
  unfolding enter check_plan check_attachment check_image given_or_made add_parts unique_refs
      inline_refs join_texts
  submit make owner session_id request given = do
    s ← session session_id (some owner)
    saved ← Records.get "system" "maintenance"
    require (not (in_maintenance saved)) maintenance
    let branch_id : String = get_or_else request.branch_id s.default_branch_id
    b ← branch branch_id
    require (same b.session_id session_id) branch_scope
    snapshot ← given_or_made given make
    require (revision_expected request.agent_spec_revision (get_or_else snapshot.agent_revision 1))
        revision_conflict
    rid ← new_id
    fresh ← new_id
    now ← utc_now
    let sid : String = get_or_else snapshot.config_snapshot_id fresh
    let inline : List ArtifactRef = inline_refs request.content_parts
    let parts : List ContentPart =
        add_parts request.attachment_refs (map (λ (a : ArtifactRef). a.artifact_id) inline)
          request.content_parts
    let all_refs : List ArtifactRef = inline ++ request.attachment_refs
    for_each all_refs (check_attachment owner s.workspace_id)
    history ← messages branch_id none
    require
        (not (shows_image parts || any (λ (m : MessageRow). shows_image m.content_parts) history)
          || snapshot.model_profile.supports_vision)
        vision_unverified
    for_each parts check_image
    deadline ← after_seconds (budget_of snapshot).max_wall_seconds
    transaction (
        enter owner s branch_id request snapshot rid sid now deadline parts
          (unique_refs all_refs []))
