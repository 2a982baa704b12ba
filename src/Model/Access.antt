-- ===== src/Model/Access.antt =====
-- What harness/server/composition.py lets a model call use: the diagnostic contexts of `Services`,
-- its boundary, and the endpoint of a model profile under the policy. `register` and `get_profile`
-- are of ModelGateway in harness/model_gateway/gateway.py; its memory of profiles is `known`.
use text.Mathlib.Text.{starts_with}
use mi_harness.Prelude.{
  ℕ, String, Bool, true, false, not, ◌&&◌, ◌||◌, Option, none, some, List, [], ◌∷◌, ltb, ◌==◌,
  if◌then◌else◌, same, same?, find_row,
}
use mi_harness.Prelude.Int.{pos}
use mi_harness.Exec.{
  pure, raise, utc_now, new_id, after_seconds, ◌>>=◌, ◌>>◌, require, or_raise, diagnostic_expired,
  endpoint_missing, immutable_profile, unknown_profile,
}
use mi_harness.Core.{DiagnosticContext, AccessContext}
use mi_harness.Host.{Host}
use mi_harness.Store.Schema.{ModelProfile, Payload, Db}
use mi_harness.Store.Records.{get, put}
use mi_harness.Store.Projects.{workspace}
use mi_harness.Store.Budget.{add_account}
use mi_harness.Policy.Engine.{Url, Purpose, endpoint}
use mi_harness.Scheduler.Claim.{boundary}

abbrev pub as_profile : Option Payload → Option ModelProfile
as_profile (some (Payload.model_profile p)) = some p
as_profile _ = none

abbrev in_workspace? : Option String → String → Db Unit
in_workspace? none owner = pure tt
in_workspace? (some w) owner = if same w "" then pure tt else (do workspace w (some owner); pure tt)

-- Services.diagnostic
unfoldable pub diagnostic : String → String → Option String → ℕ → Db DiagnosticContext
diagnostic owner config_ref workspace_id model_calls = do
  in_workspace? workspace_id owner
  did ← new_id
  add_account did "diagnostic" did (
      ("model_calls", some (pos model_calls))
      ∷ ("total_tokens", some (pos 24000))
      ∷ ("cost", none)
      ∷ ("tool_calls", some (pos 0))
      ∷ ("children", some (pos 0))
      ∷ [])
  deadline ← after_seconds 60
  pure (record {
    diagnostic_id = did;
    owner_id = owner;
    workspace_id = workspace_id;
    config_snapshot_id = config_ref;
    budget_account_id = did;
    deadline_at = deadline;
    trace_id = did;
  })

-- Services.boundary
unfoldable pub services_boundary : AccessContext → Db Unit
services_boundary (AccessContext.execution c) = boundary c
services_boundary (AccessContext.diagnostic c) = do
  now ← utc_now
  require (ltb now c.deadline_at) diagnostic_expired

abbrev is_address : String → Bool
is_address ref =
    starts_with ref "https://" || starts_with ref "http://" || starts_with ref "demo://"

as_endpoint : Option Payload → Db String
as_endpoint (some (Payload.endpoint url)) = pure url
as_endpoint _ = raise endpoint_missing

-- Services.resolve_endpoint
unfoldable pub resolve_endpoint : String → Db String
unfolding as_endpoint
resolve_endpoint ref =
    if is_address ref then pure ref else (do saved ← get "endpoints" ref; as_endpoint saved)

module _ (host : Host) (split_url : String → Url) where
  -- Services.check_model_policy
  unfoldable pub check_model_policy : AccessContext → ModelProfile → Db Unit
  check_model_policy ctx p = do
    services_boundary ctx
    if p.is_demo then pure tt else (do
      url ← resolve_endpoint p.endpoint_ref
      endpoint host (split_url url) ctx Purpose.model true (some p.profile_ref) none
      pure tt)

abbrev with_ref : String → ModelProfile → Bool
with_ref ref p = same p.profile_ref ref

-- ModelGateway.get_profile, for a reference
unfoldable pub get_profile : List ModelProfile → String → Db ModelProfile
get_profile known ref = do
  let full : String = if same ref "demo" then "demo@1" else ref
  saved ← get "model_profiles" full
  elim (as_profile saved) [
    | some p ↦ pure p
    | none ↦ or_raise unknown_profile (find_row (with_ref full) known)
  ]

abbrev same_price : Option ℕ → Option ℕ → Bool
same_price none none = true
same_price (some a) (some b) = a == b
same_price _ _ = false

abbrev same_flag : Bool → Bool → Bool
same_flag true b = b
same_flag false b = not b

abbrev pub same_profile : ModelProfile → ModelProfile → Bool
same_profile p q =
    same p.profile_ref q.profile_ref
    && same p.profile_id q.profile_id
    && same_flag p.is_demo q.is_demo
    && same p.endpoint_ref q.endpoint_ref
    && same? p.credential_ref q.credential_ref
    && same_flag p.supports_text q.supports_text
    && same_flag p.supports_tool_calling q.supports_tool_calling
    && same_flag p.supports_vision q.supports_vision
    && same_price p.input_price_per_million q.input_price_per_million
    && same_price p.output_price_per_million q.output_price_per_million
    && same p.details q.details

abbrev agrees : Option ModelProfile → ModelProfile → Bool
agrees none p = true
agrees (some q) p = same_profile q p

-- ModelGateway.register; the profiles that the gateway knows afterwards
unfoldable pub register : List ModelProfile → ModelProfile → Db (List ModelProfile)
register known p = do
  require (agrees (find_row (with_ref p.profile_ref) known) p) immutable_profile
  saved ← get "model_profiles" p.profile_ref
  require (agrees (as_profile saved) p) immutable_profile
  put "model_profiles" p.profile_ref (Payload.model_profile p)
  pure (p ∷ known)
