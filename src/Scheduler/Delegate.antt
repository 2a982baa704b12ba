-- ===== src/Scheduler/Delegate.antt =====
-- Scheduler.delegate of harness/scheduler/service.py: a run starts a child with no more rights than
-- it has itself.
use Prim.Native.String.{◌++◌ as text_append}
use mi_harness.Prelude.{
  ◌+◌, String, false, not, ◌&&◌, Option, none, some, List, [], ◌∷◌, ltb, same, get_or_else,
  every_in,
}
use mi_harness.Prelude.Int.{pos}
use mi_harness.Prelude.Sets.{sorted_set}
use mi_harness.Exec.{
  pure, transaction, new_id, utc_now, ◌>>=◌, ◌>>◌, require, or_raise, delegation_conflict,
  delegation_limit, child_permission, key_error,
}
use mi_harness.Core.{RunStatus, ExecutionContext, OperationKey}
use mi_harness.Host.{Host}
use mi_harness.Store.Schema.{
  PolicyDocument, Snapshot, Payload, RunInput, RunRow, DependencyRow, Db, text, status, null,
}
use mi_harness.Store.Records
use mi_harness.Store.Branches.{add_branch}
use mi_harness.Store.Runs.{run, insert_run}
use mi_harness.Store.Events.{event}
use mi_harness.Store.Waits.{dependency, add_dependency}
use mi_harness.Store.Budget.{reserve, settle}
use mi_harness.Policy.Engine.{effective, as_snapshot}
use mi_harness.Scheduler.Transition.{event_state}
use mi_harness.Scheduler.Submit.{SchedulerConfig}
use mi_harness.Scheduler.Claim.{boundary}
use mi_harness.Model.Access.{as_profile}

pub record DelegationRequest : Type 0 where
  pub goal : String
  pub completion_criteria : String
  pub capabilities : Option (List String)

abbrev request_texts : DelegationRequest → List String
request_texts q =
    q.goal
    ∷ q.completion_criteria
    ∷ (elim q.capabilities [ none ↦ [] | some cs ↦ "capabilities" ∷ cs ])

abbrev effective_ref : Option Payload → Option String
effective_ref (some (Payload.model_control c)) = some c.effective_profile_ref
effective_ref _ = none

-- The snapshot of a child uses the model that its parent has switched to.
unfoldable pub switch_model : Option String → Snapshot → Db Snapshot
switch_model none s = pure s
switch_model (some ref) s = do
  saved ← Records.get "model_profiles" ref
  profile ← or_raise key_error (as_profile saved)
  pure (record s { model_policy_ref = ref; model_profile = profile })

-- {**snapshot["policy"], "capabilities": sorted(requested)}
abbrev pub limit_policy : PolicyDocument → List String → PolicyDocument
limit_policy p requested = record p { capabilities = some (sorted_set requested) }

abbrev pub requested_of : DelegationRequest → List String → List String
requested_of q allowed = get_or_else q.capabilities allowed

module _ (host : Host) (config : SchedulerConfig) where
  abbrev pub delegation_key : OperationKey → String
  delegation_key key = host.content_hash (key.run_id ∷ key.message_id ∷ key.tool_call_id ∷ [])

  -- The snapshot of the child, with the rights that were asked for.
  unfoldable pub child_snapshot : ExecutionContext → List String → String → Db Snapshot
  unfolding switch_model
  child_snapshot ctx requested sid = do
    saved ← Records.get "snapshots" ctx.config_snapshot_id
    s ← or_raise key_error (as_snapshot saved)
    control ← Records.get "run_model_controls" ctx.run_id
    switched ← switch_model (effective_ref control) s
    policy ← or_raise key_error switched.policy
    pure (record switched {
      config_snapshot_id = some sid;
      policy = some (limit_policy policy requested);
    })

  abbrev child_input : DelegationRequest → RunInput
  child_input q = record {
    text = text_append q.goal (text_append "\n完成标准：" q.completion_criteria);
    content_parts = record { kind = "text"; text = some q.goal; artifact_ref = none } ∷ [];
    attachment_refs = [];
  }

  unfoldable pub new_child :
      ExecutionContext
      → DelegationRequest
      → RunRow
      → String
      → String
      → Snapshot
      → String
      → Db RunRow
  new_child ctx q parent key sid s args_hash = do
    b ← add_branch parent.session_id none none none
    rid ← new_id
    now ← utc_now
    child ← insert_run (record {
      id = rid;
      owner_id = ctx.owner_id;
      workspace_id = ctx.workspace_id;
      session_id = ctx.session_id;
      branch_id = b.id;
      root_run_id = ctx.root_run_id;
      parent_run_id = some ctx.run_id;
      status = RunStatus.queued;
      revision = 1;
      input_revision = 1;
      snapshot_id = sid;
      input = child_input q;
      checkpoint_ref = none;
      result_ref = none;
      error = none;
      deadline_at = parent.deadline_at;
      created_at = now;
      updated_at = now;
      next_event_seq = 1;
      fencing_token = 0;
      attempt_id = none;
      cancel_requested = false;
      required_interrupts = [];
      depth = parent.depth + 1;
    })
    host.run_created_hook child s
    add_dependency ctx.run_id rid key args_hash
    settle (text_append "child:" key) (some (("children", pos 1) ∷ []))
    event ctx.run_id "child.created" (
        ("child_run_id", text rid)
        ∷ ("goal_summary", text q.goal)
        ∷ ("status", status RunStatus.queued)
        ∷ ("result_ref", null)
        ∷ [])
    event_state child "run.queued" none
    pure child

  unfoldable pub start_child : ExecutionContext → DelegationRequest → String → String → Db RunRow
  unfolding new_child
  start_child ctx q key args_hash = do
    parent ← run ctx.run_id none
    root ← run ctx.root_run_id none
    require
        (not root.cancel_requested
          && not parent.cancel_requested
          && ltb parent.depth config.max_depth)
        delegation_limit
    policy ← effective host ctx
    let requested : List String = requested_of q policy.capabilities
    require (every_in requested policy.capabilities) child_permission
    reserve ctx.root_run_id (text_append "child:" key) (("children", pos 1) ∷ [])
    sid ← new_id
    s ← child_snapshot ctx requested sid
    Records.put "snapshots" sid (Payload.snapshot s)
    new_child ctx q parent key sid s args_hash

  unfoldable pub saved_or_start :
      Option DependencyRow → ExecutionContext → DelegationRequest → String → String → Db RunRow
  saved_or_start none ctx q key args_hash = start_child ctx q key args_hash
  saved_or_start (some x) ctx q key args_hash = do
    require (same x.args_hash args_hash) delegation_conflict
    run x.child_id none

  -- Scheduler.delegate
  unfoldable pub delegate : ExecutionContext → OperationKey → DelegationRequest → Db RunRow
  unfolding saved_or_start start_child
  delegate ctx key q = do
    let hashed : String = delegation_key key
    let args_hash : String = host.content_hash (request_texts q)
    transaction
        (do boundary ctx; saved ← dependency hashed; saved_or_start saved ctx q hashed args_hash)
