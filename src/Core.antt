-- ===== src/Core.antt =====
-- harness/core/contracts.py: the values that the parts of the program exchange. Identifiers, hashes
-- and opaque JSON texts are `String`; a time is a number of milliseconds, since the ISO texts
-- of one format and zone are ordered as the times are.
use mi_harness.Prelude.{
  ℕ, Bool, true, false, not, ◌&&◌, ◌||◌, Option, none, some, List, [], ◌∷◌, String, ltb, ◌==◌, same,
  is_some,
}

pub data RunStatus : Type 0 where
  queued running waiting_user waiting_children recovering needs_review cancelling : RunStatus
  completed failed cancelled : RunStatus

-- Membership in TERMINAL_STATUSES.
abbrev pub is_terminal : RunStatus → Bool
is_terminal RunStatus.completed = true
is_terminal RunStatus.failed = true
is_terminal RunStatus.cancelled = true
is_terminal _ = false

abbrev pub status_code : RunStatus → ℕ
status_code RunStatus.queued = 0
status_code RunStatus.running = 1
status_code RunStatus.waiting_user = 2
status_code RunStatus.waiting_children = 3
status_code RunStatus.recovering = 4
status_code RunStatus.needs_review = 5
status_code RunStatus.cancelling = 6
status_code RunStatus.completed = 7
status_code RunStatus.failed = 8
status_code RunStatus.cancelled = 9

abbrev pub same_status : RunStatus → RunStatus → Bool
same_status a b = status_code a == status_code b

abbrev pub status_in : RunStatus → List RunStatus → Bool
status_in s [] = false
status_in s (x ∷ xs) = same_status x s || status_in s xs

pub record ExecutionContext : Type 0 where
  pub owner_id : String
  pub workspace_id : String
  pub session_id : String
  pub branch_id : String
  pub run_id : String
  pub root_run_id : String
  pub parent_run_id : Option String
  pub worker_attempt_id : String
  pub fencing_token : ℕ
  pub graph_thread_key : String
  pub input_revision : ℕ
  pub config_snapshot_id : String
  pub deadline_at : Option ℕ
  pub trace_id : String

pub record DiagnosticContext : Type 0 where
  pub diagnostic_id : String
  pub owner_id : String
  pub workspace_id : Option String
  pub config_snapshot_id : String
  pub budget_account_id : String
  pub deadline_at : ℕ
  pub trace_id : String

pub data AccessContext : Type 0 where
  execution : ExecutionContext → AccessContext
  diagnostic : DiagnosticContext → AccessContext

pub record OperationKey : Type 0 where
  pub run_id : String
  pub message_id : String
  pub tool_call_id : String

pub record ApprovalBinding : Type 0 where
  pub operation_id : String
  pub tool_revision : String
  pub args_hash : String
  pub resource_fingerprint : String
  pub policy_revision : ℕ
  pub expires_at : ℕ

-- `==` of two bindings.
abbrev pub same_binding : ApprovalBinding → ApprovalBinding → Bool
same_binding a b =
    same a.operation_id b.operation_id
    && same a.tool_revision b.tool_revision
    && same a.args_hash b.args_hash
    && same a.resource_fingerprint b.resource_fingerprint
    && a.policy_revision == b.policy_revision
    && a.expires_at == b.expires_at

pub record ArtifactRef : Type 0 where
  pub artifact_id : String
  pub content_hash : String
  pub mime_type : String
  pub size_bytes : ℕ
  pub owner_id : String
  pub workspace_id : String
  pub provenance_ref : String

abbrev pub same_artifact_ref : ArtifactRef → ArtifactRef → Bool
same_artifact_ref a b =
    same a.artifact_id b.artifact_id
    && same a.content_hash b.content_hash
    && same a.mime_type b.mime_type
    && a.size_bytes == b.size_bytes
    && same a.owner_id b.owner_id
    && same a.workspace_id b.workspace_id
    && same a.provenance_ref b.provenance_ref

pub record CheckpointRef : Type 0 where
  pub graph_thread_key : String
  pub checkpoint_ns : String
  pub checkpoint_id : String
  pub runtime_revision : String

abbrev pub same_checkpoint : CheckpointRef → CheckpointRef → Bool
same_checkpoint a b =
    same a.graph_thread_key b.graph_thread_key
    && same a.checkpoint_ns b.checkpoint_ns
    && same a.checkpoint_id b.checkpoint_id
    && same a.runtime_revision b.runtime_revision

pub data InterruptKind : Type 0 where
  user children review : InterruptKind

pub record InterruptRef : Type 0 where
  pub interrupt_id : String
  pub checkpoint_ref : CheckpointRef
  pub kind : InterruptKind
  pub interaction_id : Option String
  pub wait_id : Option String
  pub operation_id : Option String

pub record ErrorEnvelope : Type 0 where
  pub code : String
  pub message : String
  pub retryable : Bool
  pub correlation_id : String
  pub details_ref : Option ArtifactRef

pub data OutcomeKind : Type 0 where
  final waiting error cancel_ack : OutcomeKind

pub record RuntimeOutcome : Type 0 where
  pub kind : OutcomeKind
  pub run_id : String
  pub input_revision : ℕ
  pub checkpoint_ref : Option CheckpointRef
  pub result_ref : Option ArtifactRef
  pub interrupt_refs : List InterruptRef
  pub error : Option ErrorEnvelope

pub data Durability : Type 0 where
  durable ephemeral : Durability

-- EventEnvelope.validate_sequence: true where it returns, false where it raises ValueError.
unfoldable pub validate_sequence : Durability → Option ℕ → Bool
validate_sequence ephemeral seq = not (is_some seq)
validate_sequence durable none = false
validate_sequence durable (some seq) = not (ltb seq 1)
