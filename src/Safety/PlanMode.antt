-- ===== src/Safety/PlanMode.antt =====
-- The rights of a run in PolicyEngine.effective and PolicyEngine.decide of harness/policy/engine.py:
-- what its snapshot and its mode leave of the current policy.
use mi_harness.Exec.Returns.{Returns, Returns-bind, Returns-pure}
use mi_harness.Policy.Engine.{
  as_snapshot, agent_policy_of, frozen_policy, mode_of, for_agent, effective, Decision, ToolSpec,
  needed, qualified_servers,
}
use mi_harness.Policy.Documents.{Policy, plan_capabilities, narrow}
use mi_harness.Exec.{World, pure, ◌>>=◌, ok}
use mi_harness.Prelude.{
  ℕ, String, ◌≡◌, refl, sym, ◌∙◌, ◌⊎◌, true, Option, some, List, [], ◌∷◌, arith, same_refl, same?,
  get_or_else, contains, every_in,
}
use mi_harness.Prelude.Sets.{contains-sorted_set, every_in→contains}
use mi_harness.Store.Schema.{PolicyDocument, Snapshot, Database}
use mi_harness.Core.{ExecutionContext, AccessContext}
use mi_harness.Host.{Host}
use mi_harness.Store.Records.{find_record, payload_of, get}
use mi_harness.Safety.Permissions.{contains-narrow}
use mi_harness.Scheduler.Delegate.{limit_policy, child_snapshot}
use mi_harness.Scheduler.Submit.{SchedulerConfig}

-- What the record of a snapshot says.
abbrev pub snapshot_in : String → Database → Option Snapshot
snapshot_in id d = as_snapshot (payload_of (find_record "snapshots" id d))

-- The policy is a current policy, narrowed by the snapshot.
abbrev Narrowed : Option Snapshot → Policy → Type 0
Narrowed s p = (c : Policy) × (p ≡ narrow c (frozen_policy s c) (mode_of s))

narrows :
    (host : Host) (ctx : ExecutionContext) (w : World Database) (p : Policy)
    → (effective host ctx w).0 ≡ ok p
    → Narrowed (snapshot_in ctx.config_snapshot_id w.db) p
unfolding effective get ◌>>=◌
narrows host ctx w p h =
    let s : Option Snapshot = snapshot_in ctx.config_snapshot_id w.db in
    let rest : Returns (Narrowed s) (
        for_agent host (AccessContext.execution ctx) (agent_policy_of s) >>= λ c.
        pure (narrow c (frozen_policy s c) (mode_of s))) =
      Returns-bind (for_agent host (AccessContext.execution ctx) (agent_policy_of s)) _
        (λ c. Returns-pure _ (c, refl)) in
    rest.at w p h

-- What the snapshot leaves: the capabilities that it froze, and in Plan mode those of its list.
abbrev Allows : Option Snapshot → String → Type 0
Allows s k =
    ((t : Snapshot) (q : PolicyDocument)
      → s ≡ some t
      → t.policy ≡ some q
      → contains k (get_or_else q.capabilities []) ≡ true)
    × (mode_of s ≡ some "plan" → contains k plan_capabilities ≡ true)

narrow-Allows :
    (c : Policy) (s : Option Snapshot) (k : String)
    → contains k (narrow c (frozen_policy s c) (mode_of s)).capabilities ≡ true
    → Allows s k
narrow-Allows c s k h =
    let exact = contains-narrow c (frozen_policy s c) (mode_of s) k in
    (
      (λ t q e f. ground (arith, exact)),
      (λ m.
          let plan : same? (mode_of s) (some "plan") ≡ true = ground (arith, same_refl "plan") in
          ground (arith, exact)),
    )

-- A capability of the effective policy of a run is one that its snapshot froze, where the
-- snapshot holds a policy, and in Plan mode it is one of the list of that mode.
pub effective-Allows :
    (host : Host) (ctx : ExecutionContext) (w : World Database) (p : Policy) (k : String)
    → (effective host ctx w).0 ≡ ok p
    → contains k p.capabilities ≡ true
    → Allows (snapshot_in ctx.config_snapshot_id w.db) k
effective-Allows host ctx w p k h m =
    let (c, e) = narrows host ctx w p h in
    narrow-Allows c (snapshot_in ctx.config_snapshot_id w.db) k (rw e at m)

child_policy :
    (host : Host) (config : SchedulerConfig) (ctx : ExecutionContext) (requested : List String)
    (sid : String)
    → Returns
        (λ (t : Snapshot). (q : PolicyDocument) × (t.policy ≡ some (limit_policy q requested)))
        (child_snapshot host config ctx requested sid)
unfolding child_snapshot
child_policy host config ctx requested sid = Returns-bind _ _ (λ saved. Returns-bind _ _ (λ s.
    Returns-bind _ _ (λ control.
      Returns-bind _ _ (λ switched. Returns-bind _ _ (λ policy. Returns-pure _ (policy, refl))))))

-- A child has no rights that its parent lacks: if the requested capabilities are among those
-- of the parent, and the child runs with the snapshot that was made for it from the request,
-- then every capability that the child's effective policy has at any later time was requested,
-- and is one of the parent's.
pub child_has_no_more_rights :
    (host : Host) (config : SchedulerConfig) (parent child : ExecutionContext)
    (requested : List String) (sid k : String) (rights p : Policy) (t : Snapshot)
    (before after : World Database)
    → every_in requested rights.capabilities ≡ true
    → (child_snapshot host config parent requested sid before).0 ≡ ok t
    → snapshot_in child.config_snapshot_id after.db ≡ some t
    → (effective host child after).0 ≡ ok p
    → contains k p.capabilities ≡ true
    → (contains k requested ≡ true) × (contains k rights.capabilities ≡ true)
child_has_no_more_rights host config parent child requested sid k rights p t before after within
      made found now has =
    let (q, frozen) = (child_policy host config parent requested sid).at before t made in
    let left =
      (effective-Allows host child after p k now has).0 t (limit_policy q requested) found frozen in
    let asked : contains k requested ≡ true = sym (contains-sorted_set k requested) ∙ left in
    (asked, every_in→contains k requested rights.capabilities within asked)

module _ (host : Host) (ctx : ExecutionContext) (spec : ToolSpec) (d : Database) where
  abbrev required : List String
  required =
      needed (qualified_servers (snapshot_in ctx.config_snapshot_id d)) spec.required_capabilities

  abbrev PlannedUnlessDenied : (Decision × ℕ) → Type 0
  PlannedUnlessDenied r = (r.0 ≡ Decision.deny) ⊎ (every_in required plan_capabilities ≡ true)

-- The capabilities by which a tool writes files, runs programs, makes artifacts, or changes the
-- memories or the skills.
abbrev pub writing_capabilities : List String
writing_capabilities = "file_write" ∷ "process" ∷ "artifact" ∷ "memory" ∷ "skills" ∷ []
