-- ===== src/Model/Preferences.antt =====
-- The preferences of sessions, and the models that they may choose, in
-- harness/runtime/model_selection.py. A reference that is empty or missing chooses nothing.
use mi_harness.Prelude.{
  ℕ, ◌+◌, String, Bool, false, not, ◌&&◌, ◌||◌, Option, none, some, List, [], ◌∷◌, map, ◌==◌,
  if◌then◌else◌, same, same?, is_some, any, contains, find_row,
}
use mi_harness.Exec.{
  pure, raise, transaction, rescue, ◌>>=◌, ◌>>◌, require, when, or_raise, revision_conflict,
  model_profile_pinned, model_unavailable, model_reference, model_unverified, vision_unverified,
  value_error,
}
use mi_harness.Core.{AccessContext}
use mi_harness.Host.{Host}
use mi_harness.Store.Schema.{
  ContentPart, ModelProfile, AgentConfig, Preferences, Payload, SessionRow, MessageRow, Db,
}
use mi_harness.Store.Records.{get, list, put, compare_and_set}
use mi_harness.Store.Projects.{session}
use mi_harness.Store.Events.{messages}
use mi_harness.Policy.Documents.{as_document}
use mi_harness.Policy.Engine.{Url, for_agent}
use mi_harness.Model.Access.{diagnostic, check_model_policy, get_profile}

-- What ModelSelectionService takes from the settings and from the gateway of models.
pub record SelectionConfig : Type 0 where
  pub pinned_profile_ref : Option String
  pub hot_model_selection : Bool
  pub known : List ModelProfile
  pub split_url : String → Url

abbrev pub as_agent : Option Payload → Option AgentConfig
as_agent (some (Payload.agent a)) = some a
as_agent _ = none

abbrev as_preferences : Option Payload → Option Preferences
as_preferences (some (Payload.preferences p)) = some p
as_preferences _ = none

-- `a or b`
abbrev pub or_else : Option String → Option String → Option String
or_else none b = b
or_else (some a) b = if same a "" then b else some a

-- `pinned and pinned != ref`
abbrev pub pinned_to_other : Option String → Option String → Bool
pinned_to_other none ref = false
pinned_to_other (some p) ref = not (same p "") && not (same? (some p) ref)

abbrev is_image : ContentPart → Bool
is_image p = contains p.kind ("image" ∷ "image_url" ∷ "input_image" ∷ [])

-- ModelSelectionService.has_images, for any of the messages
abbrev pub have_images : List MessageRow → Bool
have_images rows = any (λ (m : MessageRow). any is_image m.content_parts) rows

-- The context by which the policy of an agent is read: an owner and a workspace.
abbrev reader : String → String → AccessContext
reader owner workspace_id = AccessContext.diagnostic (record {
  diagnostic_id = "";
  owner_id = owner;
  workspace_id = some workspace_id;
  config_snapshot_id = "";
  budget_account_id = "";
  deadline_at = 0;
  trace_id = "";
})

abbrev profile_of : Option AgentConfig → Option String
profile_of none = none
profile_of (some a) = a.profile_ref

abbrev first_preferences : SessionRow → Option AgentConfig → Preferences
first_preferences s found = record {
  session_id = s.id;
  revision = 1;
  mode = "react";
  model_profile_ref = profile_of found;
  legacy_agent_id = s.agent_spec_id;
}

module _ (host : Host) (config : SelectionConfig) where
  freeze_agent : String → SessionRow → Option AgentConfig → Db Unit
  freeze_agent owner s none = pure tt
  freeze_agent owner s (some a) = do
    policy ← for_agent host (reader owner s.workspace_id) a.policy
    put "session_legacy_bounds" s.id (Payload.legacy_bounds a (as_document policy))

  -- The bounds of a session whose agent is not the default one are kept once.
  unfoldable pub keep_bounds : String → SessionRow → Db Unit
  unfolding freeze_agent
  keep_bounds owner s = do
    bounds ← get "session_legacy_bounds" s.id
    when (not (same s.agent_spec_id "default") && not (is_some bounds)) (do
      original ← get "config/agents" s.agent_spec_id
      freeze_agent owner s (as_agent original))

  saved_or_first : SessionRow → Option Preferences → Db Preferences
  saved_or_first s (some saved) = pure saved
  saved_or_first s none = do
    found ← get "config/agents" s.agent_spec_id
    let first : Preferences = first_preferences s (as_agent found)
    compare_and_set "session_preferences" s.id none (Payload.preferences first)
    pure first

  -- ModelSelectionService.preferences
  unfoldable pub preferences : String → String → Db Preferences
  unfolding saved_or_first
  preferences owner session_id = do
    s ← session session_id (some owner)
    transaction (do
      keep_bounds owner s
      saved ← get "session_preferences" session_id
      saved_or_first s (as_preferences saved))

  look_up : Option String → Db ModelProfile
  look_up none = raise model_unavailable
  look_up (some ref) = rescue (get_profile config.known ref) (λ _. raise model_unavailable)

  -- ModelSelectionService.validate
  unfoldable pub validate : String → Option String → Bool → Db ModelProfile
  unfolding look_up
  validate owner ref images = do
    require (not (pinned_to_other config.pinned_profile_ref ref)) model_profile_pinned
    p ← look_up ref
    require (same? (some p.profile_ref) ref) model_reference
    require (p.supports_text && p.supports_tool_calling) model_unverified
    require (not images || p.supports_vision) vision_unverified
    ctx ← diagnostic owner p.profile_ref none 4
    check_model_policy host config.split_url (AccessContext.diagnostic ctx) p
    pure p

  -- ModelSelectionService.update_preferences
  unfoldable pub update_preferences :
      String → String → Option String → Option String → ℕ → Db Preferences
  update_preferences owner session_id profile_ref mode expected = transaction (do
    old ← preferences owner session_id
    require (old.revision == expected) revision_conflict
    let ref : Option String = or_else profile_ref old.model_profile_ref
    validate owner ref false
    let new : Preferences = record old {
      revision = old.revision + 1;
      mode = (elim (or_else mode none) [ none ↦ old.mode | some m ↦ m ]);
      model_profile_ref = ref;
    }
    compare_and_set "session_preferences" session_id (some old.revision) (Payload.preferences new)
    pure new)

-- Why a model cannot be chosen.
pub data DisabledReason : Type 0 where
  pinned unverified no_vision : DisabledReason

pub record CatalogItem : Type 0 where
  pub profile : ModelProfile
  pub disabled_reason : Option DisabledReason

pub record Catalog : Type 0 where
  pub items : List CatalogItem
  pub pinned_profile_ref : Option String
  pub default_profile_ref : Option String

unfoldable pub profiles_in : List Payload → List ModelProfile
profiles_in [] = []
profiles_in (Payload.model_profile p ∷ rest) =
    let more = profiles_in rest in if p.is_demo || same p.profile_id "demo" then more else p ∷ more
profiles_in (_ ∷ rest) = profiles_in rest

abbrev pub reason_of : Option String → Bool → ModelProfile → Option DisabledReason
reason_of pinned_ref images p =
    if pinned_to_other pinned_ref (some p.profile_ref)
    then some DisabledReason.pinned
    else if not (p.supports_text && p.supports_tool_calling)
    then some DisabledReason.unverified
    else if images && not p.supports_vision
    then some DisabledReason.no_vision
    else none

abbrev is_shown : List CatalogItem → Option String → Bool
is_shown items none = false
is_shown items (some ref) = any (λ (i : CatalogItem). same i.profile.profile_ref ref) items

abbrev head_ref : List CatalogItem → Option String
head_ref [] = none
head_ref (i ∷ _) = some i.profile.profile_ref

abbrev first_enabled : List CatalogItem → Option String
first_enabled items = elim (find_row (λ (i : CatalogItem). not (is_some i.disabled_reason)) items) [
  | none ↦ head_ref items
  | some i ↦ some i.profile.profile_ref
]

abbrev pub catalog_of : Option String → Option String → Bool → List ModelProfile → Catalog
catalog_of pinned_ref default_ref images ps =
    let items : List CatalogItem =
      map (λ p. record { profile = p; disabled_reason = reason_of pinned_ref images p }) ps in
    record {
      items = items;
      pinned_profile_ref = if is_shown items pinned_ref then pinned_ref else none;
      default_profile_ref =
          if is_shown items (or_else pinned_ref default_ref)
          then or_else pinned_ref default_ref
          else first_enabled items;
    }

images_in : String → Option String → Db Bool
images_in owner none = pure false
images_in owner (some session_id) = if same session_id "" then pure false else (do
  s ← session session_id (some owner)
  rows ← messages s.default_branch_id none
  pure (have_images rows))

-- ModelSelectionService.available
unfoldable pub available : Option String → String → Option String → Db Catalog
unfolding images_in
available pinned_ref owner session_id = do
  images ← images_in owner session_id
  saved ← list "config/models"
  found ← get "config/agents" "default"
  default ← or_raise value_error (as_agent found)
  pure (catalog_of pinned_ref default.profile_ref images (profiles_in saved))
