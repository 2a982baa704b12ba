-- ===== src/Examples/Requests.antt =====
-- The theorem on the commands of clients at a concrete input.
use mi_harness.Prelude.{String, ◌≡◌, refl, true, same, any, find_row, update_rows}
use mi_harness.Exec.{World, ok, err, pure, transaction, require, idempotency_conflict, ◌>>=◌}
use mi_harness.Exec.Keeps.{Keeps-pure}
use mi_harness.Store.Schema.{Database}
use mi_harness.Store.Records.{get}
use mi_harness.Store.Commands.{api_command, save_api_command, complete_api_command}
use mi_harness.Server.Commands.{
  CommandKey, Callback, ServerProcess, saved_text, save, run_first, first_or_again, complete, await,
  answer, mutate,
}
use mi_harness.Safety.Received.{IsRecorded, LeavesRow}
use mi_harness.Safety.Commands.{command_runs_once}
use mi_harness.Examples.Data.{empty, world_of}

abbrev server : ServerProcess
server = record { pid = 7; process_start = 1; is_running = λ p s. true; failure_status = λ c. 422 }

abbrev submission : CommandKey
submission = record { owner = "user"; method = "POST"; route = "/api/runs"; key = "k1" }

abbrev answers : String → Callback
answers r = Callback.awaited (pure r)

abbrev submitted : World Database
submitted = (mutate server submission "h1" (answers "r1") (world_of empty)).1

submitted-answers : (mutate server submission "h1" (answers "r1") (world_of empty)).0 ≡ ok "r1"
unfolding mutate api_command first_or_again run_first answer await complete save save_api_command
    complete_api_command get transaction ◌>>=◌ require find_row update_rows any same
submitted-answers = refl

submitted-IsRecorded : IsRecorded submission "h1" "r1" submitted.db
unfolding mutate api_command first_or_again run_first answer await complete save save_api_command
    complete_api_command get transaction ◌>>=◌ require find_row update_rows any same saved_text
submitted-IsRecorded = record {
  row = _;
  found = refl;
  same_body = refl;
  done = refl;
  response = refl;
}

command_runs_once_example :
    IsRecorded submission "h1" "r1" submitted.db
    × (mutate server submission "h1" (answers "r2") submitted ≡ (ok "r1", submitted))
    × (mutate server submission "h2" (answers "r2") submitted
        ≡ (err idempotency_conflict, submitted))
command_runs_once_example =
    command_runs_once server submission "h1" (answers "r1") (world_of empty) "r1"
      (unfold LeavesRow in Keeps-pure "r1") submitted-answers submitted submitted-IsRecorded server
      (answers "r2") "h2" (unfold same in refl)
