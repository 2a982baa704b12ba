-- ===== src/Policy/Engine.antt =====
-- PolicyEngine of harness/policy/engine.py: the policy of a context, and its decisions.
use Prim.Native.String.{◌++◌ as text_append}
use mi_harness.Prelude.{
  ℕ, ◌+◌, ◌*◌, String, Bool, true, false, not, ◌&&◌, ◌||◌, Option, none, some, List, [], ◌∷◌, ◌++◌,
  map, if◌then◌else◌, same, is_some, get_or_else, all, contains, every_in,
}
use mi_harness.Exec.{
  Code, pure, raise, ◌>>=◌, ◌>>◌, require, or_raise, policy_not_found, diagnostic_tool_denied,
  skill_denied, mcp_revoked, mcp_config, process_disabled, mcp_denied, endpoint_denied,
  network_disabled, egress_denied, ssrf_denied, value_error,
}
use mi_harness.Core.{ExecutionContext, AccessContext, execution, diagnostic}
use mi_harness.Host.{Effect, Host}
use mi_harness.Store.Schema.{
  Egress, PolicyDocument, Permissions, AgentPolicy, Snapshot, Payload, Db,
}
use mi_harness.Store.Runs.{assert_fence}
use mi_harness.Store.Records.{get}
use mi_harness.Store.Projects.{workspace}
use mi_harness.Policy.Documents.{
  Policy, with_defaults, as_document, empty_document, combine, cap_policy, narrow,
}

abbrev as_permissions : Option Payload → Option (Permissions × ℕ)
as_permissions (some (Payload.permissions cap revision)) = some (cap, revision)
as_permissions _ = none

abbrev pub as_policy : Option Payload → Option PolicyDocument
as_policy (some (Payload.policy p)) = some p
as_policy _ = none

abbrev pub as_snapshot : Option Payload → Option Snapshot
as_snapshot (some (Payload.snapshot s)) = some s
as_snapshot _ = none

abbrev pub capped : Option (Permissions × ℕ) → Policy → Policy
capped none p = p
capped (some (cap, revision)) p = cap_policy cap revision p

-- PolicyEngine._environment_cap
unfoldable pub environment_cap : Policy → Db Policy
environment_cap p = do
  saved ← get "system" "platform_permissions"
  pure (capped (as_permissions saved) p)

abbrev pub access_owner : AccessContext → String
access_owner (execution c) = c.owner_id
access_owner (diagnostic c) = c.owner_id

-- `ctx.workspace_id`, where it is not empty.
abbrev pub access_workspace : AccessContext → Option String
access_workspace (execution c) = if same c.workspace_id "" then none else some c.workspace_id
access_workspace (diagnostic c) = c.workspace_id

unfoldable pub in_workspace : Option String → String → Policy → Db Policy
in_workspace none owner global = environment_cap global
in_workspace (some id) owner global = do
  w ← workspace id (some owner)
  let local : Policy = with_defaults w.policy
  environment_cap (combine local global (global.revision * 1000000 + local.revision))

-- PolicyEngine.current
unfoldable pub current : AccessContext → Db Policy
current ctx = do
  saved ← get "config/policies" "default"
  in_workspace (access_workspace ctx) (access_owner ctx)
      (with_defaults (get_or_else (as_policy saved) empty_document))

abbrev pub agent_policy_of : Option Snapshot → AgentPolicy
agent_policy_of none = AgentPolicy.named "default"
agent_policy_of (some s) = get_or_else s.agent_policy (AgentPolicy.named "default")

abbrev pub frozen_policy : Option Snapshot → Policy → PolicyDocument
frozen_policy none p = as_document p
frozen_policy (some s) p = get_or_else s.policy (as_document p)

abbrev pub mode_of : Option Snapshot → Option String
mode_of none = none
mode_of (some s) = s.mode

module _ (host : Host) where
  -- The texts whose hash names the combination.
  abbrev combination_texts : Policy → Policy → String → List String
  combination_texts base other policy_ref =
      policy_ref ∷ base.capabilities ++ other.capabilities ++ base.domains ++ other.domains

  abbrev with_named : Policy → Policy → String → Policy
  with_named base other policy_ref =
      let p = combine base other (host.policy_revision (combination_texts base other policy_ref)) in
      record p { agent_policy_ref = some policy_ref }

  unfoldable pub named_policy : Policy → String → Db Policy
  named_policy base policy_ref = do
    saved ← get "config/policies" policy_ref
    other ← or_raise policy_not_found (as_policy saved)
    pure (with_named base (with_defaults other) policy_ref)

  -- PolicyEngine.for_agent. A policy that is a document and no name cannot be looked up: SQLite
  -- refuses to bind it.
  unfoldable pub for_agent : AccessContext → AgentPolicy → Db Policy
  for_agent ctx (AgentPolicy.inline p) = do current ctx; raise value_error
  for_agent ctx (AgentPolicy.named policy_ref) = do
    base ← current ctx
    if same policy_ref "default" then pure base else named_policy base policy_ref

  -- PolicyEngine.effective
  unfoldable pub effective : ExecutionContext → Db Policy
  effective ctx = do
    saved ← get "snapshots" ctx.config_snapshot_id
    let snapshot : Option Snapshot = as_snapshot saved
    p ← for_agent (execution ctx) (agent_policy_of snapshot)
    pure (narrow p (frozen_policy snapshot p) (mode_of snapshot))

pub data Decision : Type 0 where
  allow approval deny : Decision

-- A tool as its specification describes it.
pub record ToolSpec : Type 0 where
  pub id : String
  pub version : String
  pub origin : String
  pub effect : Effect
  pub required_capabilities : List String

abbrev pub effect_name : Effect → String
effect_name Effect.read = "read"
effect_name Effect.workspace_write = "workspace_write"
effect_name Effect.external_write = "external_write"
effect_name Effect.process = "process"

abbrev is_process : Effect → Bool
is_process Effect.process = true
is_process _ = false

-- "mcp:" + server_id, for a server that the snapshot enables, asks for the capability "mcp".
abbrev generalise : List String → String → String
generalise qualified capability = if contains capability qualified then "mcp" else capability

unfoldable pub needed : List String → List String → List String
needed qualified [] = []
needed qualified (c ∷ cs) = generalise qualified c ∷ needed qualified cs

-- The last part of PolicyEngine.decide, over the effective policy.
unfoldable pub judge : Policy → ToolSpec → List String → Decision
judge policy spec required =
    if not (every_in required policy.capabilities)
    then deny
    else if is_process spec.effect && not policy.trusted_local_execution
    then deny
    else if contains (effect_name spec.effect) policy.approval_effects
        || same spec.id "request_approval"
    then approval
    else allow

-- What urlsplit reads from a URL.
pub record Url : Type 0 where
  pub text : String
  pub scheme : String
  pub hostname : Option String
  pub has_credentials : Bool
  pub has_fragment : Bool
  -- `port` does not raise
  pub has_valid_port : Bool

pub data Purpose : Type 0 where
  model mcp other : Purpose

-- ModelSetupGrant
pub record ModelSetupGrant : Type 0 where
  pub owner_id : String
  pub diagnostic_id : String
  pub profile_ref : String
  pub endpoint : String

-- An MCP server as its configuration describes it.
pub record McpProfile : Type 0 where
  pub server_id : String
  pub is_stdio : Bool
  pub endpoint : Url
  pub command : Option String

abbrev pub is_empty : List String → Bool
is_empty [] = true
is_empty (x ∷ xs) = false

abbrev servers_of : Option Snapshot → List String
servers_of none = []
servers_of (some s) = s.mcp_servers

-- "mcp:" + server_id for the enabled servers.
abbrev pub qualified_servers : Option Snapshot → List String
qualified_servers s = map (λ k. text_append "mcp:" k) (servers_of s)

module _ (host : Host) where
  -- PolicyEngine.decide, with the revision of the policy that it applied.
  unfoldable pub decide : AccessContext → ToolSpec → Db (Decision × ℕ)
  decide (diagnostic c) spec = raise diagnostic_tool_denied
  decide (execution ctx) spec = do
    assert_fence ctx false
    policy ← effective host ctx
    saved ← get "snapshots" ctx.config_snapshot_id
    let required : List String =
        needed (qualified_servers (as_snapshot saved)) spec.required_capabilities
    pure (judge policy spec required, policy.revision)

  -- PolicyEngine.authorize_skill
  unfoldable pub authorize_skill : AccessContext → Db Unit
  authorize_skill (diagnostic c) = raise skill_denied
  authorize_skill (execution ctx) = do
    policy ← effective host ctx
    require (contains "skills" policy.capabilities) skill_denied

  -- The policy that PolicyEngine.endpoint applies.
  unfoldable pub policy_for : AccessContext → Db Policy
  policy_for (execution ctx) = effective host ctx
  policy_for (diagnostic c) = current (diagnostic c)

  -- The parts of a URL that urlsplit gives.
  abbrev pub well_formed : Url → Bool
  well_formed u =
      (same u.scheme "http" || same u.scheme "https")
      && is_some u.hostname
      && not u.has_credentials
      && not u.has_fragment

  abbrev pub host_allowed : Option (List String) → String → Bool
  host_allowed none name = true
  host_allowed (some hosts) name = contains name hosts

  abbrev pub grant_matches : AccessContext → String → String → Option Payload → Bool
  grant_matches ctx profile_ref url
        (some (Payload.endpoint_grant enabled owner saved_ref endpoint)) =
      enabled && same owner (access_owner ctx) && same saved_ref profile_ref && same endpoint url
  grant_matches ctx profile_ref url _ = false

  abbrev pub setup_matches : AccessContext → String → String → Option ModelSetupGrant → Bool
  setup_matches (diagnostic c) profile_ref url (some g) =
      same g.owner_id c.owner_id
      && same g.diagnostic_id c.diagnostic_id
      && same g.profile_ref profile_ref
      && same g.endpoint url
  setup_matches _ profile_ref url _ = false

  unfoldable pub model_granted :
      AccessContext → String → Purpose → Bool → Option String → Option ModelSetupGrant → Db Bool
  model_granted ctx url Purpose.model true (some profile_ref) grant = do
    saved ← get "model_endpoint_grants" profile_ref
    pure (setup_matches ctx profile_ref url grant || grant_matches ctx profile_ref url saved)
  model_granted ctx url _ configured profile_ref grant = pure false

  abbrev pub is_local : List String → Bool
  is_local addresses = all host.is_loopback addresses

  -- A proxy's synthetic addresses, for an official HTTPS endpoint that the user has granted.
  abbrev pub is_fake_model : Bool → Url → List String → Bool
  is_fake_model granted u addresses =
      granted
      && same u.scheme "https"
      && host.is_official u.text
      && all (λ a. host.is_global a || host.in_fake_range a) addresses

  abbrev pub may_be_local : Bool → Purpose → Bool
  may_be_local configured Purpose.other = false
  may_be_local configured _ = configured

  abbrev pub egress_allows : Policy → List String → String → Bool
  egress_allows p addresses name = elim p.egress [
    | Egress.local_only ↦ is_local addresses
    | Egress.domain_allowlist ↦ contains name p.domains
    | Egress.cloud_allowed ↦ true
  ]

  -- The checks of PolicyEngine.endpoint after the policy and the grant are known.
  unfoldable pub check_addresses :
      Policy → Url → String → Purpose → Bool → Bool → Option (List String) → Db (List String)
  check_addresses policy u name purpose configured granted resolved = do
    require (get_or_else policy.platform_network true || granted) network_disabled
    require (host_allowed policy.platform_allowed_hosts name) egress_denied
    require u.has_valid_port value_error
    addresses ← or_raise Code.other_error resolved
    require (not (is_empty addresses)) endpoint_denied
    require
        (all host.is_global addresses
          || is_fake_model granted u addresses
          || may_be_local configured purpose && is_local addresses)
        ssrf_denied
    require (egress_allows policy addresses name) egress_denied
    pure addresses

  -- PolicyEngine.endpoint
  unfoldable pub endpoint :
      Url
      → AccessContext
      → Purpose
      → Bool
      → Option String
      → Option ModelSetupGrant
      → Db (List String)
  endpoint u ctx purpose configured profile_ref grant = do
    require (well_formed u) endpoint_denied
    name ← or_raise endpoint_denied u.hostname
    policy ← policy_for ctx
    granted ← model_granted ctx u.text purpose configured profile_ref grant
    check_addresses policy u name purpose configured granted (host.resolve name)

  abbrev is_revoked : Option Payload → Bool
  is_revoked (some (Payload.mcp_revoked b)) = b
  is_revoked _ = false

  unfoldable pub reach_server : McpProfile → AccessContext → Db Unit
  reach_server profile ctx =
      if not profile.is_stdio
      then (do endpoint profile.endpoint ctx Purpose.mcp true none none; pure tt)
      else (do
        require (is_some profile.command) mcp_config
        policy ← current ctx
        require (get_or_else policy.platform_process true) process_disabled)

  unfoldable pub mcp_capability : AccessContext → Db Unit
  mcp_capability (diagnostic c) = pure tt
  mcp_capability (execution ctx) = do
    policy ← effective host ctx
    require (contains "mcp" policy.capabilities) mcp_denied

  -- PolicyEngine.authorize_mcp
  unfoldable pub authorize_mcp : McpProfile → AccessContext → Db Unit
  authorize_mcp profile ctx = do
    revoked ← get "mcp_revoked" profile.server_id
    require (not (is_revoked revoked)) mcp_revoked
    reach_server profile ctx
    mcp_capability ctx
