-- ===== src/Policy/ReadOnly.antt =====
-- Rules for methods that compute the policy of a run, in harness/policy/engine.py: they keep every
-- statement of the database.
use mi_harness.Prelude.{String, Bool, Option, none, some}
use mi_harness.Exec.Keeps.{Keeps, keeps_rules}
use mi_harness.Policy.Engine.{
  environment_cap, in_workspace, current, named_policy, for_agent, effective,
}
use mi_harness.Policy.Documents.{Policy}
use mi_harness.Store.Schema.{AgentPolicy, Database}
use mi_harness.Core.{ExecutionContext, AccessContext}
use mi_harness.Host.{Host}
use mi_harness.Store.Runs.{run, attempt, assert_fence}
use mi_harness.Store.Projects.{workspace}
use mi_harness.Store.Records.{get}

module _ {P : Database → Type 0} where
  pub fence-Keeps : (ctx : ExecutionContext) (b : Bool) → Keeps P (assert_fence ctx b)
  unfolding assert_fence run attempt
  fence-Keeps ctx b = search keeps_rules depth 14

  pub get-Keeps : (ns k : String) → Keeps P (get ns k)
  unfolding get
  get-Keeps ns k = search keeps_rules

  pub workspace-Keeps : (id : String) (o : Option String) → Keeps P (workspace id o)
  unfolding workspace
  workspace-Keeps id o = search (keeps_rules, get-Keeps) depth 14

  cap-Keeps : (p : Policy) → Keeps P (environment_cap p)
  unfolding environment_cap
  cap-Keeps p = search (keeps_rules, get-Keeps) depth 14

  in_workspace-Keeps :
      (o : Option String) (owner : String) (p : Policy) → Keeps P (in_workspace o owner p)
  unfolding in_workspace
  in_workspace-Keeps none owner p = cap-Keeps p
  in_workspace-Keeps (some id) owner p = search (keeps_rules, cap-Keeps, workspace-Keeps) depth 14

  pub current-Keeps : (ctx : AccessContext) → Keeps P (current ctx)
  unfolding current
  current-Keeps ctx = search (keeps_rules, in_workspace-Keeps, get-Keeps) depth 14

  module _ (host : Host) where
    named-Keeps : (p : Policy) (n : String) → Keeps P (named_policy host p n)
    unfolding named_policy
    named-Keeps p n = search (keeps_rules, get-Keeps) depth 14

    agent-Keeps : (ctx : AccessContext) (a : AgentPolicy) → Keeps P (for_agent host ctx a)
    unfolding for_agent
    agent-Keeps ctx (AgentPolicy.inline p) = search (keeps_rules, current-Keeps) depth 14
    agent-Keeps ctx (AgentPolicy.named n) =
        search (keeps_rules, current-Keeps, named-Keeps) depth 14

    pub effective-Keeps : (ctx : ExecutionContext) → Keeps P (effective host ctx)
    unfolding effective
    effective-Keeps ctx = search (keeps_rules, agent-Keeps, get-Keeps) depth 14
