-- ===== src/Policy/Documents.antt =====
-- The policy documents of harness/policy/engine.py and the ways in which it combines two of them.
use mi_harness.Prelude.{
  ℕ, ◌+◌, ◌*◌, String, Bool, true, false, not, ◌&&◌, Option, none, some, List, [], ◌∷◌,
  if◌then◌else◌, same, same?, get_or_else, select,
}
use mi_harness.Prelude.Sets.{intersect, union, sorted_set}
use mi_harness.Store.Schema.{
  Egress, PolicyDocument, Permissions, local_only, domain_allowlist, cloud_allowed,
}

-- A policy with every key of DEFAULT_POLICY, and the keys that the environment adds.
pub record Policy : Type 0 where
  pub revision : ℕ
  pub egress : Egress
  pub domains : List String
  pub capabilities : List String
  pub approval_effects : List String
  pub trusted_local_execution : Bool
  pub platform_network : Option Bool
  pub platform_process : Option Bool
  pub platform_allowed_hosts : Option (List String)
  pub agent_policy_ref : Option String

abbrev pub all_capabilities : List String
all_capabilities =
    "file_read" ∷ "file_write" ∷ "process" ∷ "network" ∷ "input" ∷ "artifact" ∷ "delegate"
    ∷ "memory" ∷ "skills" ∷ "mcp" ∷ []

-- {**DEFAULT_POLICY, **document}
unfoldable pub with_defaults : PolicyDocument → Policy
with_defaults p = record {
  revision = get_or_else p.revision 1;
  egress = get_or_else p.egress cloud_allowed;
  domains = get_or_else p.domains [];
  capabilities = get_or_else p.capabilities all_capabilities;
  approval_effects =
      get_or_else p.approval_effects ("workspace_write" ∷ "process" ∷ "external_write" ∷ []);
  trusted_local_execution = get_or_else p.trusted_local_execution true;
  platform_network = p.platform_network;
  platform_process = p.platform_process;
  platform_allowed_hosts = p.platform_allowed_hosts;
  agent_policy_ref = none;
}

abbrev pub as_document : Policy → PolicyDocument
as_document p = record {
  revision = some p.revision;
  egress = some p.egress;
  domains = some p.domains;
  capabilities = some p.capabilities;
  approval_effects = some p.approval_effects;
  trusted_local_execution = some p.trusted_local_execution;
  platform_network = p.platform_network;
  platform_process = p.platform_process;
  platform_allowed_hosts = p.platform_allowed_hosts;
}

abbrev pub empty_document : PolicyDocument
empty_document = record {
  revision = none;
  egress = none;
  domains = none;
  capabilities = none;
  approval_effects = none;
  trusted_local_execution = none;
  platform_network = none;
  platform_process = none;
  platform_allowed_hosts = none;
}

-- The stricter of two egress rules.
unfoldable pub stricter : Egress → Egress → Egress
stricter local_only b = local_only
stricter domain_allowlist local_only = local_only
stricter domain_allowlist b = domain_allowlist
stricter cloud_allowed b = b

-- The domains of a combination: where the combined rule is an allow list, those of every
-- allow list that takes part; else those of the first policy.
unfoldable pub allowed_domains : Egress → List String → Egress → List String → List String
allowed_domains local_only ds e es = ds
allowed_domains domain_allowlist ds local_only es = ds
allowed_domains domain_allowlist ds domain_allowlist es = intersect ds es
allowed_domains domain_allowlist ds cloud_allowed es = sorted_set ds
allowed_domains cloud_allowed ds domain_allowlist es = sorted_set es
allowed_domains cloud_allowed ds e es = ds

-- Two policies taken together; what is not said here is as in the first.
unfoldable pub combine : Policy → Policy → ℕ → Policy
combine base other revision = record base {
  revision = revision;
  capabilities = intersect base.capabilities other.capabilities;
  approval_effects = union base.approval_effects other.approval_effects;
  trusted_local_execution = base.trusted_local_execution && other.trusted_local_execution;
  egress = stricter base.egress other.egress;
  domains = allowed_domains base.egress base.domains other.egress other.domains;
}

abbrev remove_name : String → List String → List String
remove_name k xs = select (λ x. not (same x k)) xs

abbrev unless : Bool → String → List String → List String
unless true k xs = xs
unless false k xs = remove_name k xs

abbrev capped_hosts : List String → Policy → Option (List String)
capped_hosts [] p = p.platform_allowed_hosts
capped_hosts (h ∷ hs) p =
    some
      (elim p.egress [ domain_allowlist ↦ intersect (h ∷ hs) p.domains | _ ↦ sorted_set (h ∷ hs) ])

-- PolicyEngine._environment_cap, where the platform has recorded its permissions.
unfoldable pub cap_policy : Permissions → ℕ → Policy → Policy
cap_policy cap revision p = record p {
  capabilities = sorted_set (
      unless cap.workspace_write "file_write"
        (unless cap.process "process" (unless cap.network "network" p.capabilities)));
  trusted_local_execution = p.trusted_local_execution && cap.process;
  platform_network = some cap.network;
  platform_process = some cap.process;
  revision = revision * 1000000000000 + p.revision;
  platform_allowed_hosts = capped_hosts cap.allowed_hosts p;
}

abbrev pub plan_capabilities : List String
plan_capabilities = "file_read" ∷ "network" ∷ "input" ∷ "delegate" ∷ "mcp" ∷ []

abbrev frozen_egress : Egress → List String → PolicyDocument → Egress
frozen_egress e ds frozen = elim frozen.egress [ none ↦ e | some f ↦ stricter e f ]

abbrev frozen_domains : Egress → List String → PolicyDocument → List String
frozen_domains e ds frozen = elim frozen.egress [
  | none ↦ allowed_domains e ds cloud_allowed []
  | some f ↦ allowed_domains e ds f (get_or_else frozen.domains [])
]

-- The intersection of the host lists that there are.
abbrev both_hosts : Option (List String) → Option (List String) → Option (List String)
both_hosts none none = none
both_hosts (some a) none = some (sorted_set a)
both_hosts none (some b) = some (sorted_set b)
both_hosts (some a) (some b) = some (intersect a b)

abbrev pub if_plan : Option String → List String → List String
if_plan mode xs = if same? mode (some "plan") then intersect xs plan_capabilities else xs

-- The body of PolicyEngine.effective: the current policy narrowed to the one that the snapshot
-- froze, and to those of its list in Plan mode.
unfoldable pub narrow : Policy → PolicyDocument → Option String → Policy
narrow current frozen mode = record current {
  capabilities =
      sorted_set
        (if_plan mode (intersect current.capabilities (get_or_else frozen.capabilities [])));
  approval_effects = union current.approval_effects (get_or_else frozen.approval_effects []);
  egress = frozen_egress current.egress current.domains frozen;
  domains = frozen_domains current.egress current.domains frozen;
  platform_network =
      some (get_or_else current.platform_network true && get_or_else frozen.platform_network true);
  platform_process =
      some (get_or_else current.platform_process true && get_or_else frozen.platform_process true);
  trusted_local_execution =
      current.trusted_local_execution && get_or_else frozen.trusted_local_execution true;
  platform_allowed_hosts = both_hosts current.platform_allowed_hosts frozen.platform_allowed_hosts;
}
