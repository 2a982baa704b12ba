-- ===== src/Examples/Services.antt =====
-- The theorems on the store, the budget, the sessions and the tool gateway at concrete inputs.
use mi_harness.Store.Records
use mi_harness.Store.Budget.{
  get, get?, limit_of, reserve, settle, settle_saved, settle_open, set_state, account, reservation,
}
use mi_harness.Store.Records.{upsert, insert_version, compare_and_set, delete, find_record}
use mi_harness.Prelude.{
  String, ◌≡◌, refl, ◌≢◌, true, false, none, some, List, [], ◌∷◌, map, arith, same, any, all,
  find_row, update_rows,
}
use mi_harness.Prelude.Int.{◌+ℤ◌, pos}
use mi_harness.Exec.{
  World, transaction, ◌>>=◌, require, when, or_raise, rescue, ok, err, auth_required, integrity,
}
use mi_harness.Core.{InterruptKind}
use mi_harness.Store.Schema.{
  AuthSession, Payload, Amount, OperationState, OperationRow, ToolResult, Database,
}
use mi_harness.Store.Records.View.{view}
use mi_harness.Store.Runs.{run, attempt, assert_fence}
use mi_harness.Store.Operations.{
  find_operation, operation, with_operation_key, set_operation_field, set_operation_fields,
  update_operation,
}
use mi_harness.Store.Events.{outbox, event}
use mi_harness.Server.Auth.{
  within_store, in_store, Credentials, attempts_of, set_attempts, recent, admit, create_session,
  redeem, exchange, exchange_local, authenticate, check_csrf, logout,
}
use mi_harness.Tools.Registry.{Registered, with_tool_key}
use mi_harness.Tools.Modes.{is_read}
use mi_harness.Tools.Gateway.{ToolOutcome, plain_result, waiting}
use mi_harness.Tools.Attempt.{failed_run, run_executor, conclude}
use mi_harness.Tools.Execute.{execute}
use mi_harness.Tools.Reconcile.{finish_operation}
use mi_harness.Safety.Ledger.{IsLedger, HasKeysOnce, reserve-IsLedger, settle-IsLedger}
use mi_harness.Safety.Documents.{
  HasFreshVersions, Change, apply_all, replay, ErasesUnversioned, apply_all_refines,
  put_after_delete,
}
use mi_harness.Safety.Pairing.{ticket_redeemed_once}
use mi_harness.Safety.Sessions.{logout_ends_session, IsLimited, attempts_bounded}
use mi_harness.Safety.Login.{local_session_serves}
use mi_harness.Safety.Replay.{finished_call-Answers, conflicting_call_refused}
use mi_harness.Safety.Guard.{guarded, executors_run_started_operations}
use mi_harness.Safety.Reported.{conclude_reports_ledger}
use mi_harness.Safety.PlanTools.{plan_mode_calls_no_writer}
use mi_harness.Examples.Data.{
  worker_one, held, world_of, fake_host, funded, planned, process_tool, started, new_key,
  write_args, writer, interrupted, fake_tools, done_result, done_row, equipped, busy, fake_auth,
  lobby, door, versioned,
}

funded-IsLedger : IsLedger funded
unfolding find_row same get get? ◌+ℤ◌ limit_of
funded-IsLedger = record {
  accounts = record { at = λ id a known. record { at = λ d. ground arith } };
  amounts = λ k r known. ground arith;
}

abbrev sixty : Amount
sixty = ("tokens", pos 60) ∷ []

sixty-HasKeysOnce : HasKeysOnce sixty
unfolding HasKeysOnce
sixty-HasKeysOnce = (refl, tt)

abbrev reserved_world : World Database
reserved_world = (reserve "acc" "k" sixty (world_of funded)).1

reserved-IsLedger : IsLedger reserved_world.db
reserved-IsLedger =
    (reserve-IsLedger "acc" "k" sixty sixty-HasKeysOnce).at (world_of funded) funded-IsLedger

settle-IsLedger_example : IsLedger (settle "k" (some (("tokens", pos 40) ∷ [])) reserved_world).1.db
settle-IsLedger_example =
    (settle-IsLedger "k" (some (("tokens", pos 40) ∷ []))).at reserved_world reserved-IsLedger

held-HasFreshVersions : HasFreshVersions held
unfolding find_row
held-HasFreshVersions n k v late = refl

abbrev changes : List Change
changes =
    Change.write "model_permits" "p" (Payload.opaque "one")
    ∷ Change.write "skills" "s" (Payload.opaque "two")
    ∷ Change.erase "model_permits" "p"
    ∷ Change.write "skills" "s" (Payload.opaque "three")
    ∷ []

changes-ErasesUnversioned : ErasesUnversioned changes
unfolding ErasesUnversioned same
changes-ErasesUnversioned = (refl, tt)

apply_all_refines_example :
    ((apply_all changes (world_of held)).0 ≡ ok tt)
    × (view (apply_all changes (world_of held)).1.db ≡ replay changes (view held))
apply_all_refines_example =
    apply_all_refines changes (world_of held) held-HasFreshVersions changes-ErasesUnversioned

put_after_delete_example :
    let w' = (delete "snapshots" "c1" (world_of versioned)).1 in
    ((Records.put "snapshots" "c1" (Payload.opaque "x") w').0 ≡ err integrity)
    × ((Records.put "snapshots" "c1" (Payload.opaque "x") w').1.db ≡ w'.db)
put_after_delete_example =
    put_after_delete "snapshots" "c1" (Payload.opaque "x") (world_of versioned)
      (unfold same in refl) (unfold find_row same in refl)

abbrev session_zero : Credentials
session_zero = record { session = "id1"; csrf = "id2" }

paired : (exchange fake_auth "ticket" "10.0.0.7" door).0 ≡ ok session_zero
unfolding exchange admit in_store redeem create_session Records.get Records.put compare_and_set
    upsert insert_version transaction recent attempts_of set_attempts ◌>>=◌ require when or_raise
    find_row update_rows same
paired = refl

ticket_redeemed_once_example :
    let w' = (exchange fake_auth "ticket" "10.0.0.7" door).1 in
    ((again : Credentials) → (exchange fake_auth "ticket" "10.0.0.8" w').0 ≢ ok again)
    × ((exchange fake_auth "ticket" "10.0.0.8" w').1.db.store ≡ w'.db.store)
ticket_redeemed_once_example =
    ticket_redeemed_once fake_auth "ticket" "10.0.0.7" "10.0.0.8" door
      (exchange fake_auth "ticket" "10.0.0.7" door).1 session_zero paired refl

logged_out : (logout fake_auth "token" (world_of lobby)).0 ≡ ok tt
unfolding logout authenticate Records.get Records.put compare_and_set upsert insert_version
    transaction ◌>>=◌ require when or_raise find_row update_rows same
logged_out = refl

logout_ends_session_example :
    let w' = (logout fake_auth "token" (world_of lobby)).1 in
    ((authenticate fake_auth "token" w').0 ≡ err auth_required)
    × ((authenticate fake_auth "token" w').1.db ≡ w'.db)
logout_ends_session_example =
    logout_ends_session fake_auth "token" (world_of lobby)
      (logout fake_auth "token" (world_of lobby)).1 logged_out refl

door-IsLimited : IsLimited door.db
unfolding attempts_of
door-IsLimited peer = ground arith

attempts_bounded_example : IsLimited (exchange fake_auth "ticket" "10.0.0.7" door).1.db
attempts_bounded_example = (attempts_bounded fake_auth "ticket" "10.0.0.7").0.at door door-IsLimited

let_in : (exchange_local fake_auth "127.0.0.1" door).0 ≡ ok session_zero
unfolding exchange_local admit in_store create_session Records.put compare_and_set upsert
    insert_version transaction recent attempts_of set_attempts ◌>>=◌ require when find_row same
let_in = refl

local_session_serves_example :
    let later = within_store (exchange_local fake_auth "127.0.0.1" door).1 in
    (fake_auth.is_loopback "127.0.0.1" ≡ true)
    × ((s : AuthSession) × ((authenticate fake_auth "id1" later).0 ≡ ok s)
        × (s.owner_id ≡ "user")
        × ((check_csrf fake_auth s "id2" later).0 ≡ ok tt))
local_session_serves_example =
    local_session_serves fake_auth "127.0.0.1" door
      (within_store (exchange_local fake_auth "127.0.0.1" door).1) session_zero let_in refl
      (unfold exchange_local admit in_store create_session Records.put compare_and_set upsert
          insert_version transaction recent attempts_of set_attempts ◌>>=◌ require when find_row
          same in
        refl)
      (unfold same in refl) (unfold same in refl)

finished_call :
    find_row (with_operation_key "r1" "m1" "t1") equipped.tool_executions ≡ some done_row
unfolding find_row same
finished_call = refl

finished_call-Answers_example :
    (execute fake_host fake_tools
      (writer ∷ [])
      worker_one
      new_key
      "write"
      write_args
      (world_of equipped)).1.db
    ≡ equipped
finished_call-Answers_example =
    (finished_call-Answers fake_host fake_tools (writer ∷ []) worker_one new_key "write" write_args
      (world_of equipped) done_row done_result finished_call refl).0

conflicting_call_refused_example :
    (execute fake_host fake_tools
      (writer ∷ [])
      worker_one
      new_key
      "shell"
      write_args
      (world_of equipped)).1.db
    ≡ equipped
conflicting_call_refused_example =
    (conflicting_call_refused fake_host fake_tools (writer ∷ []) worker_one new_key "shell"
      write_args (world_of equipped) done_row finished_call (unfold same in refl)).0

executors_run_started_operations_example :
    execute fake_host fake_tools
      (map guarded (writer ∷ []))
      worker_one
      new_key
      "write"
      write_args
      (world_of held)
    ≡ execute fake_host fake_tools
        (writer ∷ [])
        worker_one
        new_key
        "write"
        write_args
        (world_of held)
executors_run_started_operations_example =
    executors_run_started_operations fake_host fake_tools (writer ∷ []) worker_one new_key "write"
      write_args (world_of held)

only_writer :
    (version : String) (t : Registered)
    → find_row (with_tool_key "write" version) (writer ∷ []) ≡ some t
    → is_read t.spec.effect ≡ false
unfolding find_row
only_writer version t found = ground arith

plan_mode_calls_no_writer_example :
    (execute fake_host fake_tools
      (writer ∷ [])
      worker_one
      new_key
      "write"
      write_args
      (world_of planned)).1.db
    ≡ planned
plan_mode_calls_no_writer_example =
    (plan_mode_calls_no_writer fake_host fake_tools (writer ∷ []) worker_one new_key "write"
      write_args (world_of planned) (unfold find_row same in refl) only_writer).0

broken_off_run :
    ((run_executor fake_host fake_tools worker_one started process_tool interrupted write_args
        >>= conclude fake_host fake_tools worker_one started)
      (world_of busy)).0
    ≡ ok (waiting InterruptKind.review none "o1")
unfolding run_executor rescue failed_run conclude finish_operation operation update_operation
    set_operation_fields set_operation_field event settle settle_saved settle_open set_state account
    reservation outbox assert_fence run attempt transaction ◌>>=◌ require when or_raise find_row
    update_rows any all same
broken_off_run = refl

abbrev lost : ToolResult
lost = plain_result "o1" OperationState.unknown "" none

concluded :
    (conclude fake_host fake_tools worker_one started (ToolOutcome.result lost) (world_of busy)).0
    ≡ ok (waiting InterruptKind.review none "o1")
unfolding conclude finish_operation operation update_operation set_operation_fields
    set_operation_field event settle settle_saved settle_open set_state account reservation outbox
    assert_fence run attempt transaction ◌>>=◌ require when or_raise find_row update_rows any all
    same
concluded = refl

conclude_reports_ledger_example :
    (y : OperationRow) × (r : ToolResult) × (find_operation "o1"
        (conclude fake_host fake_tools worker_one started
          (ToolOutcome.result lost)
          (world_of busy)).1.db
      ≡ some y)
    × (y.state ≡ OperationState.unknown)
    × (y.result ≡ some r)
    × (waiting InterruptKind.review none "o1" ≡ waiting InterruptKind.review none "o1")
conclude_reports_ledger_example =
    conclude_reports_ledger fake_host fake_tools worker_one started lost (world_of busy)
      (waiting InterruptKind.review none "o1") concluded
