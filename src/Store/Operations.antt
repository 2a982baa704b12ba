-- ===== src/Store/Operations.antt =====
-- The ledger of tool operations in harness/storage/store.py: an operation is registered once for
-- its key (run, message, tool call) and changes state under its revision.
use mi_harness.Prelude.{
  has_some, ℕ, ◌+◌, String, Bool, true, false, not, ◌&&◌, ◌||◌, Option, none, some, List, [], ◌∷◌,
  ◌++◌, leb, ◌==◌, same, is_some, get_or_else, select, any, all, find_row, update_rows, order_by,
}
use mi_harness.Exec.{
  Code, pure, gets, transaction, modify, new_id, utc_now, ◌>>=◌, ◌>>◌, require, or_raise, not_found,
  revision_conflict, operation_conflict, integrity, value_error,
}
use mi_harness.Core.{ExecutionContext}
use mi_harness.Store.Schema.{
  OperationState, Metadata, ToolResult, OperationRow, ReconciliationRow, Database, Db, text,
}
use mi_harness.Store.Runs.{assert_fence, check_fence}
use mi_harness.Store.Events.{event}

abbrev pub state_code : OperationState → ℕ
state_code OperationState.prepared = 0
state_code OperationState.authorized = 1
state_code OperationState.running = 2
state_code OperationState.succeeded = 3
state_code OperationState.failed = 4
state_code OperationState.cancelled = 5
state_code OperationState.unknown = 6

abbrev pub same_state : OperationState → OperationState → Bool
same_state a b = state_code a == state_code b

abbrev pub with_operation_id : String → OperationRow → Bool
with_operation_id identity o = same o.id identity

abbrev pub find_operation : String → Database → Option OperationRow
find_operation identity d = find_row (with_operation_id identity) d.tool_executions

-- Store.operation
unfoldable pub operation : String → Db OperationRow
operation identity = do found ← gets (find_operation identity); or_raise not_found found

abbrev pub with_operation_key : String → String → String → OperationRow → Bool
with_operation_key run_id message_id tool_call_id o =
    same o.run_id run_id && same o.message_id message_id && same o.tool_call_id tool_call_id

-- Store.operation_by_key
unfoldable pub operation_by_key : String → String → String → Db (Option OperationRow)
operation_by_key run_id message_id tool_call_id =
    gets (λ d. find_row (with_operation_key run_id message_id tool_call_id) d.tool_executions)

-- The argument of `prepare_operation`.
pub record OperationRequest : Type 0 where
  pub message_id : String
  pub tool_call_id : String
  pub tool_id : String
  pub tool_revision : String
  pub args_hash : String
  pub args : String
  pub resource_fingerprint : String
  pub input_summary : Option String
  pub metadata : Metadata

abbrev pub no_metadata : Metadata
no_metadata = record {
  protocol_continuation = none;
  unresolved_accepted = false;
  accepted_by = none;
  proven_not_started = false;
  path = none;
  after_hash = none;
}

abbrev same_request : OperationRequest → OperationRow → Bool
same_request q o =
    same o.args_hash q.args_hash && same o.tool_revision q.tool_revision && same o.tool_id q.tool_id

-- The INSERT into tool_executions, with its primary key and its unique key.
insert_operation : OperationRow → Db Unit
insert_operation o = do
  taken ← gets (λ d.
      any
        (λ x. with_operation_id o.id x || with_operation_key o.run_id o.message_id o.tool_call_id x)
        d.tool_executions)
  require (not taken) integrity
  modify (λ d. record d { tool_executions = d.tool_executions ++ o ∷ [] })

new_operation : ExecutionContext → OperationRequest → Db OperationRow
new_operation ctx q = do
  oid ← new_id
  now ← utc_now
  insert_operation (record {
    id = oid;
    run_id = ctx.run_id;
    message_id = q.message_id;
    tool_call_id = q.tool_call_id;
    tool_id = q.tool_id;
    tool_revision = q.tool_revision;
    args_hash = q.args_hash;
    args = q.args;
    resource_fingerprint = q.resource_fingerprint;
    state = OperationState.prepared;
    revision = 1;
    attempt_id = ctx.worker_attempt_id;
    fencing_token = ctx.fencing_token;
    grant_id = none;
    result = none;
    metadata = q.metadata;
    created_at = now;
    updated_at = now;
  })
  event ctx.run_id "tool.prepared" (
      ("operation_id", text oid)
      ∷ ("tool_id", text q.tool_id)
      ∷ ("tool_revision", text q.tool_revision)
      ∷ ("input_summary", text (get_or_else q.input_summary q.tool_id))
      ∷ [])
  operation oid

existing_or_new : Option OperationRow → ExecutionContext → OperationRequest → Db OperationRow
existing_or_new none ctx q = new_operation ctx q
existing_or_new (some o) ctx q = do require (same_request q o) operation_conflict; pure o

-- Store.prepare_operation
unfoldable pub prepare_operation : ExecutionContext → OperationRequest → Db OperationRow
unfolding existing_or_new new_operation insert_operation
prepare_operation ctx q = transaction (do
  assert_fence ctx false
  existing ← operation_by_key ctx.run_id q.message_id q.tool_call_id
  existing_or_new existing ctx q)

-- Store.operations
unfoldable pub operations : String → Db (List OperationRow)
operations run_id = gets (λ d.
    order_by (λ (a b : OperationRow). leb a.created_at b.created_at)
      (select (λ (o : OperationRow). same o.run_id run_id) d.tool_executions))

-- The keys of a patch of `update_operation`.
pub data OperationField : Type 0 where
  state : OperationState → OperationField
  result : Option ToolResult → OperationField
  metadata : Metadata → OperationField
  grant_id : Option String → OperationField
  resource_fingerprint : String → OperationField
  attempt_id : String → OperationField
  fencing_token : ℕ → OperationField
  other : String → OperationField

abbrev pub is_operation_field : OperationField → Bool
is_operation_field (OperationField.other k) = false
is_operation_field _ = true

unfoldable pub set_operation_field : OperationField → OperationRow → OperationRow
set_operation_field (OperationField.state s) o = record o { state = s }
set_operation_field (OperationField.result r) o = record o { result = r }
set_operation_field (OperationField.metadata m) o = record o { metadata = m }
set_operation_field (OperationField.grant_id g) o = record o { grant_id = g }
set_operation_field (OperationField.resource_fingerprint f) o = record o {
  resource_fingerprint = f;
}
set_operation_field (OperationField.attempt_id a) o = record o { attempt_id = a }
set_operation_field (OperationField.fencing_token n) o = record o { fencing_token = n }
set_operation_field (OperationField.other k) o = o

unfoldable pub set_operation_fields : List OperationField → OperationRow → OperationRow
unfolding set_operation_field
set_operation_fields [] o = o
set_operation_fields (f ∷ fs) o = set_operation_fields fs (set_operation_field f o)

abbrev pub operation_at : String → ℕ → OperationRow → Bool
operation_at identity expected o = same o.id identity && o.revision == expected

abbrev pub touch_operation : List OperationField → ℕ → OperationRow → OperationRow
touch_operation patch now o =
    let t = set_operation_fields patch o in record t { revision = t.revision + 1; updated_at = now }

-- Store.update_operation
unfoldable pub update_operation :
    String → ℕ → List OperationField → Option ExecutionContext → Db OperationRow
update_operation identity expected patch ctx = do
  require (all is_operation_field patch) value_error
  transaction (do
    check_fence ctx
    now ← utc_now
    require (has_some patch) Code.other_error
    count ← gets (λ d. any (operation_at identity expected) d.tool_executions)
    modify (λ d. record d {
      tool_executions =
          update_rows (operation_at identity expected) (touch_operation patch now)
            d.tool_executions;
    })
    require count revision_conflict
    operation identity)

-- Store.add_reconciliation; the request as text.
unfoldable pub add_reconciliation : String → ℕ → String → String → String → Db String
add_reconciliation operation_id expected_revision actor decision payload = do
  identity ← new_id
  now ← utc_now
  taken ←
      gets (λ d. any (λ (r : ReconciliationRow). same r.id identity) d.operation_reconciliations)
  known ← gets (λ d. is_some (find_operation operation_id d))
  require (not taken && known) integrity
  modify (λ d. record d {
    operation_reconciliations =
        d.operation_reconciliations
        ++ record {
          id = identity;
          operation_id = operation_id;
          expected_revision = expected_revision;
          actor = actor;
          decision = decision;
          payload = payload;
          created_at = now;
        }
          ∷ [];
  })
  pure identity
