-- ===== src/Store/Schema.antt =====
-- The tables of harness/storage/store.py (`SCHEMA`), one record type for the rows of each.
use mi_harness.Prelude.{ℕ, Bool, Option, List, String}
use mi_harness.Prelude.Int.{ℤ}
use mi_harness.Exec.{Code, Exec}
use mi_harness.Core.{RunStatus, ApprovalBinding, ArtifactRef, CheckpointRef, ErrorEnvelope}

-- A value of the flat documents that the program writes as event data.
pub data Value : Type 0 where
  null : Value
  flag : Bool → Value
  num : ℕ → Value
  text : String → Value
  status : RunStatus → Value
  artifact : ArtifactRef → Value
  failure : ErrorEnvelope → Value

abbrev pub Document : Type 0
Document = List (String × Value)

-- A policy document; the keys that a document may leave out are options.
pub data Egress : Type 0 where
  local_only domain_allowlist cloud_allowed : Egress

pub record PolicyDocument : Type 0 where
  pub revision : Option ℕ
  pub egress : Option Egress
  pub domains : Option (List String)
  pub capabilities : Option (List String)
  pub approval_effects : Option (List String)
  pub trusted_local_execution : Option Bool
  pub platform_network : Option Bool
  pub platform_process : Option Bool
  pub platform_allowed_hosts : Option (List String)

-- The permissions of the platform configuration.
pub record Permissions : Type 0 where
  pub network : Bool
  pub process : Bool
  pub workspace_write : Bool
  pub allowed_hosts : List String

pub record BudgetPolicy : Type 0 where
  pub max_model_calls : ℕ
  pub max_total_tokens : ℕ
  -- a float in the source
  pub max_cost : Option ℕ
  pub max_wall_seconds : ℕ
  pub max_tool_calls : ℕ
  pub max_children : ℕ

-- A model profile: its reference with the revision, which abilities are verified, its endpoint and
-- credential, its prices in micro-units per million tokens, and the rest of it as text.
pub record ModelProfile : Type 0 where
  pub profile_ref : String
  pub profile_id : String
  pub is_demo : Bool
  pub endpoint_ref : String
  pub credential_ref : Option String
  pub supports_text : Bool
  pub supports_tool_calling : Bool
  pub supports_vision : Bool
  pub input_price_per_million : Option ℕ
  pub output_price_per_million : Option ℕ
  pub details : String

pub record PlanConfirmation : Type 0 where
  pub plan_id : String
  pub confirmed : Bool
  pub revision : ℕ
  pub content_hash : String

-- `agent_spec["policy"]`: a reference by name, or a document of its own.
pub data AgentPolicy : Type 0 where
  named : String → AgentPolicy
  inline : PolicyDocument → AgentPolicy

-- The configuration snapshot of a run.
pub record Snapshot : Type 0 where
  pub config_snapshot_id : Option String
  pub agent_revision : Option ℕ
  pub agent_policy : Option AgentPolicy
  pub agent_budget : Option BudgetPolicy
  pub model_policy_ref : String
  pub model_profile : ModelProfile
  pub tools : List (String × String)
  pub mcp_servers : List String
  pub policy : Option PolicyDocument
  pub budget : Option BudgetPolicy
  pub mode : Option String
  pub plan_confirmation : Option PlanConfirmation
  pub plan_readonly_tools : List String

pub record Plan : Type 0 where
  pub revision : ℕ
  pub content_hash : String

-- The permit of a model call in progress.
pub record Permit : Type 0 where
  pub key : String
  pub pid : ℕ
  pub process_start : ℕ
  pub account_id : String
  pub expires_at : ℕ
  pub released : Bool

-- A pairing ticket, kept under the hash of its text.
pub record AuthTicket : Type 0 where
  pub owner_id : String
  pub expires_at : ℕ
  pub consumed : Bool

-- A session of a browser, kept under the hash of its token.
pub record AuthSession : Type 0 where
  pub owner_id : String
  pub csrf_hash : String
  pub expires_at : ℕ
  pub revoked : Bool
  pub source : String

-- An agent of the configuration; `profile_ref` is the reference of its model policy.
pub record AgentConfig : Type 0 where
  pub agent_id : String
  pub revision : ℕ
  pub policy : AgentPolicy
  pub profile_ref : Option String
  pub details : String

-- What a session prefers, in harness/runtime/model_selection.py.
pub record Preferences : Type 0 where
  pub session_id : String
  pub revision : ℕ
  pub mode : String
  pub model_profile_ref : Option String
  pub legacy_agent_id : String

pub data SelectionStatus : Type 0 where
  initial requested superseded applied rejected not_applied : SelectionStatus

-- The choice of a model for a run that is in progress.
pub record ModelControl : Type 0 where
  pub run_id : String
  pub control_revision : ℕ
  pub effective_revision : ℕ
  pub desired_profile_ref : String
  pub effective_profile_ref : String
  pub status : SelectionStatus
  pub command_id : Option String
  pub reason : Option String

pub record ModelCommand : Type 0 where
  pub command_id : String
  pub run_id : String
  pub control_revision : ℕ
  pub profile_ref : String
  pub owner_id : String
  pub accepted_at : ℕ
  pub status : SelectionStatus
  pub logical_call_id : Option String
  pub reason : Option String

-- The model that a logical call is bound to.
pub record CallBinding : Type 0 where
  pub logical_call_id : String
  pub run_id : String
  pub control_revision : ℕ
  pub profile_ref : String
  pub input_view_id : String
  pub fencing_token : ℕ
  pub bound_at : ℕ

pub data MemoryScope : Type 0 where
  workspace_scope user_scope : MemoryScope

pub data MemoryKind : Type 0 where
  fact preference procedure pinned : MemoryKind

pub data ReviewState : Type 0 where
  proposed accepted rejected deleted : ReviewState

-- A memory of harness/context/models.py; the confidence is a decimal text.
pub record MemoryRecord : Type 0 where
  pub id : String
  pub revision : ℕ
  pub owner : String
  pub workspace : String
  pub scope : MemoryScope
  pub kind : MemoryKind
  pub content : String
  pub source_refs : List String
  pub created_at : ℕ
  pub expires_at : Option ℕ
  pub confidence : Option String
  pub review_state : ReviewState

-- The documents of the `records` table, a kind for each namespace that the modelled code reads.
pub data Payload : Type 0 where
  maintenance : Bool → Payload
  permissions : Permissions → ℕ → Payload
  snapshot : Snapshot → Payload
  plan : Plan → Payload
  review_resolutions : List String → Payload
  model_control : ModelControl → Payload
  model_command : ModelCommand → Payload
  call_binding : CallBinding → Payload
  preferences : Preferences → Payload
  agent : AgentConfig → Payload
  legacy_bounds : AgentConfig → PolicyDocument → Payload
  endpoint : String → Payload
  model_profile : ModelProfile → Payload
  context_pins : ℕ → String → Payload
  project_roots : List String → Payload
  project_tombstone : ℕ → Payload
  policy : PolicyDocument → Payload
  endpoint_grant : Bool → String → String → String → Payload
  mcp_revoked : Bool → Payload
  permit : Permit → Payload
  auth_ticket : AuthTicket → Payload
  auth_session : AuthSession → Payload
  memory : MemoryRecord → Payload
  opaque : String → Payload

pub record RecordRow : Type 0 where
  pub namespace : String
  pub key : String
  pub revision : ℕ
  pub payload : Payload

pub record WorkspaceRow : Type 0 where
  pub id : String
  pub owner_id : String
  pub name : String
  pub root : String
  pub revision : ℕ
  pub policy : PolicyDocument
  pub created_at : ℕ

pub record SessionRow : Type 0 where
  pub id : String
  pub workspace_id : String
  pub title : String
  pub agent_spec_id : String
  pub default_branch_id : String
  pub revision : ℕ
  pub archived_at : Option ℕ
  pub created_at : ℕ
  pub updated_at : ℕ

pub record BranchRow : Type 0 where
  pub id : String
  pub session_id : String
  pub parent_id : Option String
  pub graph_thread_key : String
  pub checkpoint_ref : Option CheckpointRef
  pub active_run_id : Option String
  pub revision : ℕ
  pub created_at : ℕ

-- A part of a message: text, an image or a file, with the artifact that it refers to.
pub record ContentPart : Type 0 where
  pub kind : String
  pub text : Option String
  pub artifact_ref : Option ArtifactRef

pub record RunInput : Type 0 where
  pub text : String
  pub content_parts : List ContentPart
  pub attachment_refs : List ArtifactRef

pub record RunRow : Type 0 where
  pub id : String
  pub owner_id : String
  pub workspace_id : String
  pub session_id : String
  pub branch_id : String
  pub root_run_id : String
  pub parent_run_id : Option String
  pub status : RunStatus
  pub revision : ℕ
  pub input_revision : ℕ
  pub snapshot_id : String
  pub input : RunInput
  pub checkpoint_ref : Option CheckpointRef
  pub result_ref : Option ArtifactRef
  pub error : Option ErrorEnvelope
  pub deadline_at : Option ℕ
  pub created_at : ℕ
  pub updated_at : ℕ
  pub next_event_seq : ℕ
  pub fencing_token : ℕ
  pub attempt_id : Option String
  pub cancel_requested : Bool
  pub required_interrupts : List String
  pub depth : ℕ

pub record AttemptRow : Type 0 where
  pub id : String
  pub run_id : String
  pub worker_id : String
  pub pid : ℕ
  pub process_start : ℕ
  pub lease_expiry : ℕ
  pub fencing_token : ℕ
  pub ended_at : Option ℕ
  pub end_reason : Option String
  pub created_at : ℕ

pub record MessageRow : Type 0 where
  pub id : String
  pub run_id : String
  pub branch_id : String
  pub role : String
  pub payload : String
  pub content_parts : List ContentPart
  pub created_at : ℕ

pub data OperationState : Type 0 where
  prepared authorized running succeeded failed cancelled unknown : OperationState

pub record Continuation : Type 0 where
  pub kind : String
  pub status : String
  pub request_state_ref : Option String
  pub interaction_id : Option String
  pub schema_hash : Option String
  pub request_hash : Option String

-- The metadata of an operation.
pub record Metadata : Type 0 where
  pub protocol_continuation : Option Continuation
  pub unresolved_accepted : Bool
  pub accepted_by : Option String
  pub proven_not_started : Bool
  pub path : Option String
  pub after_hash : Option String

-- A tool result: its status, summary, error code, attached artifacts, and the digest or the
-- reconciling actor of its structured data.
pub record ToolResult : Type 0 where
  pub operation_id : String
  pub status : OperationState
  pub summary : String
  pub structured_data : String
  pub artifact_refs : List ArtifactRef
  pub error_code : Option String
  pub started_at : Option ℕ
  pub completed_at : Option ℕ

pub record OperationRow : Type 0 where
  pub id : String
  pub run_id : String
  pub message_id : String
  pub tool_call_id : String
  pub tool_id : String
  pub tool_revision : String
  pub args_hash : String
  pub args : String
  pub resource_fingerprint : String
  pub state : OperationState
  pub revision : ℕ
  pub attempt_id : String
  pub fencing_token : ℕ
  pub grant_id : Option String
  pub result : Option ToolResult
  pub metadata : Metadata
  pub created_at : ℕ
  pub updated_at : ℕ

pub record GrantRow : Type 0 where
  pub id : String
  pub operation_id : String
  pub owner_id : String
  pub run_id : String
  pub binding : ApprovalBinding
  pub remaining : ℕ
  pub revoked : Bool
  pub consumed_at : Option ℕ
  pub created_at : ℕ

pub data InteractionStatus : Type 0 where
  pending_binding opened resolved expired cancelled : InteractionStatus

-- What the payload of an interaction holds for the code that reads it back.
pub record InteractionPayload : Type 0 where
  pub prompt : String
  pub response_schema : String
  pub binding_ref : Option ApprovalBinding
  pub operation_id : Option String
  pub details : String

pub data ResolutionOutcome : Type 0 where
  answered expired cancelled : ResolutionOutcome

pub record ChildReport : Type 0 where
  pub run_id : String
  pub status : RunStatus
  pub result_ref : Option ArtifactRef
  pub error : Option ErrorEnvelope

pub record Resolution : Type 0 where
  pub interrupt_id : Option String
  pub outcome : ResolutionOutcome
  pub response : Option String
  pub reason : String
  pub children : List ChildReport

pub record InteractionRow : Type 0 where
  pub id : String
  pub run_id : String
  pub request_key : String
  pub interrupt_id : Option String
  pub checkpoint_ref : Option CheckpointRef
  pub input_revision : ℕ
  pub kind : String
  pub status : InteractionStatus
  pub revision : ℕ
  pub payload : InteractionPayload
  pub resolution : Option Resolution
  pub expires_at : Option ℕ
  pub created_at : ℕ

pub record ReconciliationRow : Type 0 where
  pub id : String
  pub operation_id : String
  pub expected_revision : ℕ
  pub actor : String
  pub decision : String
  pub payload : String
  pub created_at : ℕ

-- Amounts by dimension, a dictionary in the order of insertion. A cost is in micro-units.
abbrev pub Amount : Type 0
Amount = List (String × ℤ)

pub record AccountRow : Type 0 where
  pub id : String
  pub scope : String
  pub scope_id : String
  pub limits : List (String × Option ℤ)
  pub consumed : Amount
  pub reserved : Amount

pub data ReservationState : Type 0 where
  reserved settled unknown : ReservationState

pub record ReservationRow : Type 0 where
  pub key : String
  pub account_id : String
  pub amount : Amount
  pub actual : Option Amount
  pub state : ReservationState
  pub created_at : ℕ

pub record EventRow : Type 0 where
  pub event_id : String
  pub run_id : String
  pub seq : ℕ
  pub kind : String
  pub payload : Document
  pub timestamp : ℕ

pub record OutboxRow : Type 0 where
  pub id : String
  pub consumer : String
  pub business_key : String
  pub payload : Document
  pub delivered_at : Option ℕ
  pub created_at : ℕ

-- The answer of a command: a result, an error, or the process that still works on it.
pub data Response : Type 0 where
  value : String → Response
  failed : Code → Response
  in_progress : ℕ → ℕ → Response

pub record ApiCommandRow : Type 0 where
  pub owner : String
  pub method : String
  pub route : String
  pub key : String
  pub body_hash : String
  pub response : Option Response
  pub status_code : ℕ
  pub expires_at : ℕ

pub record DependencyRow : Type 0 where
  pub parent_id : String
  pub child_id : String
  pub delegation_key : String
  pub args_hash : String

pub data WaitMode : Type 0 where
  wait_all wait_any : WaitMode

pub record WaitRow : Type 0 where
  pub id : String
  pub parent_id : String
  pub request_key : String
  pub child_ids : List String
  pub mode : WaitMode
  pub interrupt_id : Option String
  pub checkpoint_ref : Option CheckpointRef
  pub resolution : Option Resolution
  pub revision : ℕ

pub record ArtifactRow : Type 0 where
  pub id : String
  pub owner_id : String
  pub workspace_id : String
  pub content_hash : String
  pub mime_type : String
  pub size_bytes : ℕ
  pub provenance_ref : String
  pub storage_key : String
  pub display_name : String
  pub created_at : ℕ

pub record ArtifactUse : Type 0 where
  pub artifact_id : String
  pub ref_kind : String
  pub ref_id : String

pub record InputCommandRow : Type 0 where
  pub id : String
  pub run_id : String
  pub input_revision : ℕ
  pub text : String
  pub consumed : Bool
  pub created_at : ℕ

pub record FrameRow : Type 0 where
  pub id : ℕ
  pub run_id : String
  pub payload : String
  pub expires_at : ℕ

pub record Database : Type 0 where
  pub records : List RecordRow
  pub record_versions : List RecordRow
  pub workspaces : List WorkspaceRow
  pub sessions : List SessionRow
  pub branches : List BranchRow
  pub runs : List RunRow
  pub run_attempts : List AttemptRow
  pub messages : List MessageRow
  pub tool_executions : List OperationRow
  pub execution_grants : List GrantRow
  pub interactions : List InteractionRow
  pub operation_reconciliations : List ReconciliationRow
  pub budget_accounts : List AccountRow
  pub budget_reservations : List ReservationRow
  pub run_events : List EventRow
  pub outbox : List OutboxRow
  pub api_commands : List ApiCommandRow
  pub run_dependencies : List DependencyRow
  pub run_waits : List WaitRow
  pub artifacts : List ArtifactRow
  pub artifact_refs : List ArtifactUse
  pub input_commands : List InputCommandRow
  pub ephemeral_frames : List FrameRow
  -- The last number that AUTOINCREMENT gave to a frame.
  pub last_frame : ℕ

-- A method of the store.
abbrev pub Db : Type 0 → Type 0
Db A = Exec Database A
