-- ===== src/Examples/Data.antt =====
-- Small databases, contexts and policies of harness/storage/store.py and harness/policy/engine.py on which the theorems are applied.
use mi_harness.Prelude.{ℕ, zero, suc, String, true, false, none, some, [], ◌∷◌, if◌then◌else◌, same}
use mi_harness.Prelude.Int.{pos}
use mi_harness.Exec.{Code, World, pure, raise}
use mi_harness.Core.{RunStatus, ExecutionContext, OperationKey, ApprovalBinding}
use mi_harness.Host.{Effect, Host}
use mi_harness.Store.Schema.{
  PolicyDocument, ModelProfile, Snapshot, AuthTicket, AuthSession, Payload, RecordRow, WorkspaceRow,
  BranchRow, RunRow, AttemptRow, OperationState, ToolResult, OperationRow, GrantRow, AccountRow,
  ReservationState, ReservationRow, Database,
}
use mi_harness.Store.Operations.{no_metadata}
use mi_harness.Policy.Documents.{empty_document}
use mi_harness.Policy.Engine.{ToolSpec, Url}
use mi_harness.Scheduler.Submit.{SchedulerConfig}
use mi_harness.Scheduler.Delegate.{limit_policy}
use mi_harness.Tools.Registry.{ToolArgs, ToolFields, Executed, Executor, Registered}
use mi_harness.Tools.Gateway.{ToolHost}
use mi_harness.Server.Auth.{AuthState, AuthConfig}

abbrev pub empty : Database
empty = record {
  records = [];
  record_versions = [];
  workspaces = [];
  sessions = [];
  branches = [];
  runs = [];
  run_attempts = [];
  messages = [];
  tool_executions = [];
  execution_grants = [];
  interactions = [];
  operation_reconciliations = [];
  budget_accounts = [];
  budget_reservations = [];
  run_events = [];
  outbox = [];
  api_commands = [];
  run_dependencies = [];
  run_waits = [];
  artifacts = [];
  artifact_refs = [];
  input_commands = [];
  ephemeral_frames = [];
  last_frame = 0;
}

abbrev pub worker_one : ExecutionContext
worker_one = record {
  owner_id = "user";
  workspace_id = "w1";
  session_id = "s1";
  branch_id = "b1";
  run_id = "r1";
  root_run_id = "r1";
  parent_run_id = none;
  worker_attempt_id = "a1";
  fencing_token = 1;
  graph_thread_key = "t1";
  input_revision = 0;
  config_snapshot_id = "c1";
  deadline_at = none;
  trace_id = "r1";
}

abbrev pub running_run : RunRow
running_run = record {
  id = "r1";
  owner_id = "user";
  workspace_id = "w1";
  session_id = "s1";
  branch_id = "b1";
  root_run_id = "r1";
  parent_run_id = none;
  status = RunStatus.running;
  revision = 2;
  input_revision = 0;
  snapshot_id = "c1";
  input = record { text = ""; content_parts = []; attachment_refs = [] };
  checkpoint_ref = none;
  result_ref = none;
  error = none;
  deadline_at = none;
  created_at = 0;
  updated_at = 0;
  next_event_seq = 1;
  fencing_token = 1;
  attempt_id = some "a1";
  cancel_requested = false;
  required_interrupts = [];
  depth = 0;
}

abbrev pub live_attempt : AttemptRow
live_attempt = record {
  id = "a1";
  run_id = "r1";
  worker_id = "worker";
  pid = 0;
  process_start = 0;
  lease_expiry = 1000000;
  fencing_token = 1;
  ended_at = none;
  end_reason = none;
  created_at = 0;
}

abbrev pub main_branch : BranchRow
main_branch = record {
  id = "b1";
  session_id = "s1";
  parent_id = none;
  graph_thread_key = "t1";
  checkpoint_ref = none;
  active_run_id = some "r1";
  revision = 0;
  created_at = 0;
}

-- A run that the first worker holds.
abbrev pub held : Database
held = record empty {
  runs = running_run ∷ [];
  run_attempts = live_attempt ∷ [];
  branches = main_branch ∷ [];
}

-- The same run after another worker has taken it over.
abbrev pub taken : Database
taken = record held { runs = record running_run { fencing_token = 2; attempt_id = some "a2" } ∷ [] }

abbrev name_of : ℕ → String
name_of zero = "id0"
name_of (suc zero) = "id1"
name_of _ = "id2"

abbrev pub world_of : Database → World Database
world_of d = record { db = d; ids = name_of; clock = λ n. n; ticks = 0 }

abbrev pub binding : ApprovalBinding
binding = record {
  operation_id = "o1";
  tool_revision = "1";
  args_hash = "h";
  resource_fingerprint = "f";
  policy_revision = 1;
  expires_at = 1000000;
}

abbrev pub document : PolicyDocument
document = record {
  capabilities = some ("file_read" ∷ "process" ∷ []);
  revision = none;
  egress = none;
  domains = none;
  approval_effects = none;
  trusted_local_execution = none;
  platform_network = none;
  platform_process = none;
  platform_allowed_hosts = none;
}

abbrev pub fake_host : Host
fake_host = record {
  schema_accepts = λ _ _. true;
  content_hash = λ _. "hash";
  policy_revision = λ _. 7;
  is_stored = λ _. true;
  is_image = λ _. true;
  is_alive = λ _. false;
  file_digest = λ _. none;
  effect_of = λ _ _. none;
  resolve = λ name.
      if same name "localhost"
      then some ("127.0.0.1" ∷ [])
      else if same name "intranet"
      then some ("10.0.0.1" ∷ [])
      else some ("93.184.216.34" ∷ []);
  is_loopback = λ a. same a "127.0.0.1";
  is_global = λ a. same a "93.184.216.34";
  in_fake_range = λ _. false;
  is_official = λ _. false;
  message_json = λ _ text _. text;
  recover_processes = λ _. pure tt;
  cancel_processes = λ _. pure tt;
  terminal_hook = λ _. pure tt;
  run_created_hook = λ _ _. pure tt;
}

abbrev pub account_row : AccountRow
account_row = record {
  id = "acc";
  scope = "run";
  scope_id = "r1";
  limits = ("tokens", some (pos 100)) ∷ [];
  consumed = [];
  reserved = [];
}

-- An account with a limit of 100 tokens.
abbrev pub funded : Database
funded = record held { budget_accounts = account_row ∷ [] }

abbrev pub operation_row : OperationRow
operation_row = record {
  id = "o1";
  run_id = "r1";
  message_id = "";
  tool_call_id = "";
  tool_id = "write";
  tool_revision = "1";
  args_hash = "h";
  args = "";
  resource_fingerprint = "f";
  state = OperationState.prepared;
  revision = 1;
  attempt_id = "";
  fencing_token = 0;
  grant_id = none;
  result = none;
  metadata = no_metadata;
  created_at = 0;
  updated_at = 0;
}

abbrev pub grant_row : GrantRow
grant_row = record {
  id = "g1";
  operation_id = "o1";
  owner_id = "user";
  run_id = "r1";
  binding = binding;
  remaining = 1;
  revoked = false;
  consumed_at = none;
  created_at = 0;
}

-- A run with a prepared operation that the user has approved.
abbrev pub approved : Database
approved = record held { tool_executions = operation_row ∷ []; execution_grants = grant_row ∷ [] }

abbrev pub profile : ModelProfile
profile = record {
  profile_ref = "m@1";
  profile_id = "m";
  is_demo = true;
  endpoint_ref = "demo://local";
  credential_ref = none;
  supports_text = true;
  supports_tool_calling = true;
  supports_vision = false;
  input_price_per_million = none;
  output_price_per_million = none;
  details = "";
}

abbrev pub plan_snapshot : Snapshot
plan_snapshot = record {
  config_snapshot_id = some "c1";
  agent_revision = none;
  agent_policy = none;
  agent_budget = none;
  model_policy_ref = "m";
  model_profile = profile;
  tools = [];
  mcp_servers = [];
  policy = some document;
  budget = none;
  mode = some "plan";
  plan_confirmation = none;
  plan_readonly_tools = [];
}

abbrev pub snapshot_row : RecordRow
snapshot_row = record {
  namespace = "snapshots";
  key = "c1";
  revision = 1;
  payload = Payload.snapshot plan_snapshot;
}

-- A workspace without a policy of its own.
abbrev pub workspace_row : WorkspaceRow
workspace_row = record {
  id = "w1";
  owner_id = "user";
  name = "w";
  root = "/";
  revision = 1;
  policy = empty_document;
  created_at = 0;
}

-- The run works in Plan mode.
abbrev pub planned : Database
planned = record held { records = snapshot_row ∷ []; workspaces = workspace_row ∷ [] }

abbrev pub process_tool : ToolSpec
process_tool = record {
  id = "shell";
  version = "1";
  origin = "builtin";
  effect = Effect.process;
  required_capabilities = "process" ∷ [];
}

abbrev pub example_url : Url
example_url = record {
  text = "https://example.org";
  scheme = "https";
  hostname = some "example.org";
  has_credentials = false;
  has_fragment = false;
  has_valid_port = true;
}

abbrev pub small_config : SchedulerConfig
small_config = record { worker_slots = 2; child_concurrency = 2; max_depth = 1; lease_seconds = 30 }

-- What a child of the run gets that asks for reading files.
abbrev pub child_document : Snapshot
child_document = record plan_snapshot {
  config_snapshot_id = some "c2";
  policy = some (limit_policy document ("file_read" ∷ []));
}

abbrev pub delegated : Database
delegated = record planned {
  records =
      snapshot_row
      ∷ record {
        namespace = "snapshots";
        key = "c2";
        revision = 1;
        payload = Payload.snapshot child_document;
      }
      ∷ [];
}

abbrev pub child_context : ExecutionContext
child_context = record worker_one { run_id = "r2"; config_snapshot_id = "c2" }

-- The operation after the grant has been consumed.
abbrev pub started : OperationRow
started = record operation_row {
  state = OperationState.running;
  revision = 2;
  attempt_id = "a1";
  fencing_token = 1;
  grant_id = some "g1";
  updated_at = 4;
}

abbrev pub new_key : OperationKey
new_key = record { run_id = "r1"; message_id = "m1"; tool_call_id = "t1" }

abbrev pub write_args : ToolArgs
write_args = record { json = "{}"; path = none; cwd = none }

abbrev pub write_spec : ToolSpec
write_spec = record {
  id = "write";
  version = "1";
  origin = "builtin";
  effect = Effect.workspace_write;
  required_capabilities = [];
}

abbrev pub written : ToolFields
written = record {
  status = none;
  summary = "done";
  structured_data = "";
  artifact_refs = [];
  error_code = none;
}

-- A tool that answers at once, and one whose run is interrupted.
abbrev pub writer : Registered
writer = record {
  spec = write_spec;
  executor = record { call = λ _ _ _. pure (Executed.fields written); resume_continuation = none };
}

abbrev pub interrupted : Executor
interrupted = record { call = λ _ _ _. raise Code.cancelled_error; resume_continuation = none }

abbrev pub fake_tools : ToolHost
fake_tools = record {
  accepts_input = λ _ _. true;
  accepts_output = λ _ _. true;
  args_digest = λ _. "h";
  call_digest = λ _ _. "f";
  resolve_path = λ _ path _. some path;
  file_stamp = λ path. path;
  is_locked = λ _. false;
  preview = λ _ _. "";
  input_summary = λ tool _. tool;
  decision_of = λ answer. some answer;
  denial = "denied";
  error_code = λ _. "ERROR";
  message = λ _. "error";
}

abbrev pub done_result : ToolResult
done_result = record {
  operation_id = "o1";
  status = OperationState.succeeded;
  summary = "done";
  structured_data = "";
  artifact_refs = [];
  error_code = none;
  started_at = none;
  completed_at = none;
}

abbrev pub done_row : OperationRow
done_row = record operation_row {
  message_id = "m1";
  tool_call_id = "t1";
  state = OperationState.succeeded;
  result = some done_result;
}

-- The run has finished one call of the tool.
abbrev pub equipped : Database
equipped = record held {
  tool_executions = done_row ∷ [];
  records =
      record {
        namespace = "snapshots";
        key = "c1";
        revision = 1;
        payload =
            Payload.snapshot (record plan_snapshot { mode = none; tools = ("write", "1") ∷ [] });
      }
      ∷ [];
}

abbrev pub tool_account : AccountRow
tool_account = record account_row { reserved = ("tool_calls", pos 1) ∷ [] }

abbrev pub tool_reservation : ReservationRow
tool_reservation = record {
  key = "tool:o1";
  account_id = "acc";
  amount = ("tool_calls", pos 1) ∷ [];
  actual = none;
  state = ReservationState.reserved;
  created_at = 0;
}

-- The operation runs, and its call is reserved.
abbrev pub busy : Database
busy = record held {
  tool_executions = started ∷ [];
  budget_accounts = tool_account ∷ [];
  budget_reservations = tool_reservation ∷ [];
}

abbrev pub fake_auth : AuthConfig
fake_auth = record {
  owner_id = "user";
  session_ttl = 60;
  digest = λ s. s;
  is_loopback = λ peer. same peer "127.0.0.1";
}

abbrev pub open_ticket : AuthTicket
open_ticket = record { owner_id = "user"; expires_at = 1000; consumed = false }

abbrev pub open_session : AuthSession
open_session = record {
  owner_id = "user";
  csrf_hash = "csrf";
  expires_at = 1000;
  revoked = false;
  source = "";
}

-- The store with a pairing ticket and a session.
abbrev pub lobby : Database
lobby = record empty {
  records =
      record {
        namespace = "auth_tickets";
        key = "ticket";
        revision = 1;
        payload = Payload.auth_ticket open_ticket;
      }
      ∷ record {
        namespace = "auth_sessions";
        key = "token";
        revision = 1;
        payload = Payload.auth_session open_session;
      }
      ∷ [];
}

abbrev pub door : World AuthState
door = record {
  db = record { store = lobby; attempts = [] };
  ids = name_of;
  clock = λ n. n;
  ticks = 0;
}

-- A snapshot with its first version.
abbrev pub versioned : Database
versioned = record planned { record_versions = snapshot_row ∷ [] }
