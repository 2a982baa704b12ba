-- ===== src/Examples/Models.antt =====
-- The theorems on the calls of models at concrete inputs.
use mi_harness.Prelude.{
  ℕ, String, ◌≤◌, ◌≡◌, refl, true, false, none, some, List, [], ◌∷◌, arith, same, any, All, text_le,
  update_rows, select, find_row, order_by,
}
use mi_harness.Prelude.Int.{pos}
use mi_harness.Exec.{ok, pure, transaction, require, when, or_raise, ◌>>=◌}
use mi_harness.Core.{AccessContext}
use mi_harness.Store.Records.View.{view}
use mi_harness.Model.Protocol.{Message, remove, add_calls, validate_messages, validate_history}
use mi_harness.Model.Permits.{Adapter, ModelReservation, ModelUsage, reserve_round, settle_model}
use mi_harness.Context.Budget.{
  ModelLimits, ContextPolicy, InputBudget, Fits, input_budget, checked_budget, input_budget-Fits,
}
use mi_harness.Safety.History.{calls_of, results_of, history_answers_calls}
use mi_harness.Safety.Permits.{live_permits, settle_model-frees, reserve_round-IsBounded}
use mi_harness.Store.Schema.{
  CallBinding, MemoryScope, MemoryKind, ReviewState, MemoryRecord, Payload, RecordRow, Database, Db,
}
use mi_harness.Store.Records.{get, put, list, compare_and_set, upsert, insert_version}
use mi_harness.Store.Runs.{run, attempt, assert_fence}
use mi_harness.Store.Events.{outbox, event}
use mi_harness.Exec.Reads.{ReadsFrom}
use mi_harness.Exec.Returns.{Returns}
use mi_harness.Context.Memory.{Identity, memories, as_memory, accepted_only, candidates, retrieve}
use mi_harness.Model.Selection.{
  Candidate, bound_candidate, candidate, saved_or_initial, control, change_command, apply_candidate,
  bound_or_apply, bind,
}
use mi_harness.Safety.Selection.{IsBound, call_keeps_model}
use mi_harness.Safety.Memories.{
  readable, candidates_complete, IsOwnAccepted, retrieve-IsOwnAccepted,
}
use mi_harness.Examples.Data.{empty, planned, worker_one, funded, world_of}

abbrev one_permit : Adapter
one_permit = record {
  has_scheduler = true;
  concurrency = 1;
  permit_timeout = 120;
  pid = 7;
  process_start = 1;
  is_running = λ p. true;
  cost_of = λ input incoming output outgoing. pos 0;
}

reserve_round-IsBounded_example :
    live_permits one_permit
      (reserve_round one_permit
        (AccessContext.execution worker_one)
        "a"
        10
        5
        900
        (world_of funded)).1.db.records
    ≤ 1
reserve_round-IsBounded_example =
    reserve_round-IsBounded one_permit "a" (AccessContext.execution worker_one) 10 5 900
      (world_of funded) (unfold find_row in refl) (unfold select order_by in omega arith)

abbrev call_reservation : ModelReservation
call_reservation = record { key = "k"; account_id = "acc"; amount = ("tokens", pos 60) ∷ [] }

abbrev no_usage : ModelUsage
no_usage = record { source = "unknown"; total_tokens = none; cost = none }

settle_model-frees_example :
    view (settle_model (some call_reservation) no_usage (world_of funded)).1.db "model_permits" "k"
    ≡ none
settle_model-frees_example = settle_model-frees call_reservation no_usage (world_of funded)

abbrev one_call : List Message
one_call =
    Message.other
    ∷ Message.assistant (some "c1" ∷ some "c2" ∷ [])
    ∷ Message.tool_result "c2"
    ∷ Message.tool_result "c1"
    ∷ []

valid_history : validate_history one_call false ≡ ok []
unfolding validate_history validate_messages add_calls remove same
valid_history = refl

history_answers_calls_example :
    (results_of "c1" one_call ≡ calls_of "c1" one_call) × (calls_of "c1" one_call ≤ 1)
history_answers_calls_example = history_answers_calls one_call [] valid_history "c1"

abbrev small_limits : ModelLimits
small_limits = record {
  context_window = some 1000;
  input_limit = some 900;
  output_limit = some 100;
}

abbrev small_policy : ContextPolicy
small_policy = record { output_reserve = 200; safety_tokens = 50; soft = λ n. n; target = λ n. n }

abbrev small_budget : InputBudget
small_budget = record {
  input_budget = 850;
  output_reserve = 100;
  safety_tokens = 50;
  context_window = some 1000;
  input_limit = some 900;
  soft_threshold = 850;
  compaction_target = 850;
}

budgeted : input_budget small_limits small_policy ≡ ok small_budget
unfolding input_budget checked_budget
budgeted = refl

input_budget-Fits_example : Fits small_limits small_budget
input_budget-Fits_example = input_budget-Fits small_limits small_policy small_budget budgeted

abbrev first_choice : Candidate
first_choice = record {
  logical_call_id = "l1";
  run_id = "r1";
  control_revision = 0;
  profile_ref = "m@1";
}

abbrev other_choice : Candidate
other_choice = record {
  logical_call_id = "l1";
  run_id = "r1";
  control_revision = 9;
  profile_ref = "n@1";
}

abbrev bound_to_first : CallBinding
bound_to_first = record {
  logical_call_id = "l1";
  run_id = "r1";
  control_revision = 0;
  profile_ref = "m@1";
  input_view_id = "v1";
  fencing_token = 1;
  bound_at = 1;
}

bound_first : (bind worker_one first_choice "v1" (world_of planned)).0 ≡ ok (some bound_to_first)
unfolding bind bound_or_apply apply_candidate control saved_or_initial change_command get put event
    outbox compare_and_set upsert insert_version assert_fence run attempt transaction ◌>>=◌ require
    when or_raise find_row update_rows any same
bound_first = refl

row_stands : IsBound "l1" bound_to_first (bind worker_one first_choice "v1" (world_of planned)).1.db
unfolding bind bound_or_apply apply_candidate control saved_or_initial change_command get put event
    outbox compare_and_set upsert insert_version assert_fence run attempt transaction ◌>>=◌ require
    when or_raise find_row update_rows any same
row_stands = refl

call_keeps_model_example :
    IsBound "l1" bound_to_first (bind worker_one first_choice "v1" (world_of planned)).1.db
    × ReadsFrom
        (bind worker_one first_choice "v1" (world_of planned)).1.db
        (λ found. found ≡ some bound_to_first)
        (bind worker_one other_choice "v2")
    × ReadsFrom
        (bind worker_one first_choice "v1" (world_of planned)).1.db
        (λ found. found ≡ bound_candidate bound_to_first)
        (candidate worker_one "l1")
call_keeps_model_example =
    call_keeps_model worker_one first_choice "v1" (world_of planned) bound_to_first bound_first
      (bind worker_one first_choice "v1" (world_of planned)).1.db row_stands worker_one other_choice
      "v2" refl

abbrev reader : Identity
reader = record { owner_id = "user"; workspace_id = some "w1" }

abbrev remembered : ReviewState → String → MemoryRecord
remembered state id = record {
  id = id;
  revision = 1;
  owner = "user";
  workspace = "w1";
  scope = MemoryScope.workspace_scope;
  kind = MemoryKind.fact;
  content = "x";
  source_refs = [];
  created_at = 0;
  expires_at = none;
  confidence = none;
  review_state = state;
}

abbrev memory_row : MemoryRecord → RecordRow
memory_row r = record { namespace = "memory"; key = r.id; revision = 1; payload = Payload.memory r }

-- An accepted and a proposed memory.
abbrev remembering : Database
remembering = record empty {
  records =
      memory_row (remembered ReviewState.accepted "a")
      ∷ memory_row (remembered ReviewState.proposed "b")
      ∷ [];
}

abbrev open_to_all : Identity → String → Db Unit
open_to_all identity workspace = pure tt

candidates_complete_example : candidates open_to_all 3 reader "w1" (world_of remembering) ≡ (
  ok (
      readable open_to_all reader "w1" accepted_only
        (remembered ReviewState.accepted "a" ∷ remembered ReviewState.proposed "b" ∷ [])),
  world_of remembering,
)
candidates_complete_example =
    candidates_complete open_to_all reader "w1" (unfold ◌>>=◌ in λ w. refl)
      (remembered ReviewState.accepted "a" ∷ remembered ReviewState.proposed "b" ∷ [])
      (world_of remembering)
      (unfold ◌>>=◌ list memories as_memory select order_by same text_le in refl) 3
      (unfold select order_by same in omega arith)

abbrev no_score : String → MemoryRecord → ℕ
no_score query r = 1

retrieve-IsOwnAccepted_example :
    Returns
      (All (IsOwnAccepted reader.owner_id "w1"))
      (retrieve open_to_all no_score 3 reader "w1" "x" 10)
retrieve-IsOwnAccepted_example = retrieve-IsOwnAccepted open_to_all no_score reader "w1" 3 "x" 10
