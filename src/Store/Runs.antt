-- ===== src/Store/Runs.antt =====
-- The runs and their execution attempts in harness/storage/store.py. `update_run` writes under the
-- revision that the caller has read; `assert_fence` admits the holder of a live lease only.
pub mod Update
use mi_harness.Prelude.{
  has_some, ℕ, ◌+◌, String, Bool, true, false, not, ◌&&◌, ◌||◌, Option, none, some, List, [], ◌∷◌,
  ◌++◌, ltb, ◌==◌, same, text_le, same?, is_some, select, any, all, find_row, update_rows, order_by,
}
use mi_harness.Exec.{
  Code, pure, gets, transaction, modify, utc_now, ◌>>=◌, ◌>>◌, require, or_raise, not_found,
  revision_conflict, stale_worker, run_stopped, integrity, value_error,
}
use mi_harness.Core.{
  RunStatus, same_status, status_in, ExecutionContext, ArtifactRef, CheckpointRef, ErrorEnvelope,
}
use mi_harness.Store.Schema.{WorkspaceRow, SessionRow, BranchRow, RunRow, AttemptRow, Database, Db}

abbrev pub with_run_id : String → RunRow → Bool
with_run_id identity r = same r.id identity

abbrev pub find_run : String → Database → Option RunRow
find_run identity d = find_row (with_run_id identity) d.runs

abbrev pub owned_by : Option String → String → Bool
owned_by none owner = true
owned_by (some o) owner = same owner o

-- Store.run; the owner is optional.
unfoldable pub run : String → Option String → Db RunRow
run identity owner = do
  found ← gets (find_run identity)
  row ← or_raise not_found found
  require (owned_by owner row.owner_id) not_found
  pure row

-- The primary key and the references of the table.
abbrev pub run_fits : RunRow → Database → Bool
run_fits r d =
    not (is_some (find_run r.id d))
    && is_some (find_row (λ (w : WorkspaceRow). same w.id r.workspace_id) d.workspaces)
    && is_some (find_row (λ (s : SessionRow). same s.id r.session_id) d.sessions)
    && is_some (find_row (λ (b : BranchRow). same b.id r.branch_id) d.branches)
    && (elim r.parent_run_id [ none ↦ true | some p ↦ is_some (find_run p d) ])

-- Store.insert_run: the columns that the caller does not give take their defaults.
unfoldable pub insert_run : RunRow → Db RunRow
insert_run row = do
  let r = record row {
    checkpoint_ref = none;
    result_ref = none;
    error = none;
    next_event_seq = 1;
    fencing_token = 0;
    attempt_id = none;
    cancel_requested = false;
    required_interrupts = [];
  }
  fits ← gets (run_fits r)
  require fits integrity
  modify (λ d. record d { runs = d.runs ++ r ∷ [] })
  run row.id none

-- Store.runs: each of the three conditions is optional.
abbrev pub run_matches : Option String → List RunStatus → Option String → RunRow → Bool
run_matches session_id statuses root_id r =
    owned_by session_id r.session_id
    && owned_by root_id r.root_run_id
    && (elim statuses [ [] ↦ true | s ∷ rest ↦ status_in r.status (s ∷ rest) ])

-- ORDER BY created_at,id
abbrev pub run_before : RunRow → RunRow → Bool
run_before a b = ltb a.created_at b.created_at || a.created_at == b.created_at && text_le a.id b.id

unfoldable pub runs : Option String → List RunStatus → Option String → Db (List RunRow)
runs session_id statuses root_id =
    gets (λ d. order_by run_before (select (run_matches session_id statuses root_id) d.runs))

-- The keys of a patch: the fields of `allowed`, or another key.
pub data RunField : Type 0 where
  status : RunStatus → RunField
  input_revision : ℕ → RunField
  checkpoint_ref : Option CheckpointRef → RunField
  result_ref : Option ArtifactRef → RunField
  error : Option ErrorEnvelope → RunField
  fencing_token : ℕ → RunField
  attempt_id : Option String → RunField
  cancel_requested : Bool → RunField
  required_interrupts : List String → RunField
  other : String → RunField

abbrev pub is_allowed : RunField → Bool
is_allowed (RunField.other k) = false
is_allowed _ = true

unfoldable pub set_field : RunField → RunRow → RunRow
set_field (RunField.status s) r = record r { status = s }
set_field (RunField.input_revision n) r = record r { input_revision = n }
set_field (RunField.checkpoint_ref c) r = record r { checkpoint_ref = c }
set_field (RunField.result_ref a) r = record r { result_ref = a }
set_field (RunField.error e) r = record r { error = e }
set_field (RunField.fencing_token n) r = record r { fencing_token = n }
set_field (RunField.attempt_id a) r = record r { attempt_id = a }
set_field (RunField.cancel_requested b) r = record r { cancel_requested = b }
set_field (RunField.required_interrupts l) r = record r { required_interrupts = l }
set_field (RunField.other k) r = r

unfoldable pub set_fields : List RunField → RunRow → RunRow
unfolding set_field
set_fields [] r = r
set_fields (f ∷ fs) r = set_fields fs (set_field f r)

-- Store.attempt
unfoldable pub attempt : String → Db (Option AttemptRow)
attempt identity = gets (λ d. find_row (λ (a : AttemptRow). same a.id identity) d.run_attempts)

abbrev pub lease_is_live : Option AttemptRow → ℕ → Bool
lease_is_live none now = false
lease_is_live (some a) now = not (is_some a.ended_at) && ltb now a.lease_expiry

abbrev pub accepts_work : Bool → RunRow → Bool
accepts_work allow_cancelling r =
    (same_status r.status RunStatus.running
      || allow_cancelling && same_status r.status RunStatus.cancelling)
    && (not r.cancel_requested || allow_cancelling)

-- Store.assert_fence
unfoldable pub assert_fence : ExecutionContext → Bool → Db Unit
unfolding run attempt
assert_fence ctx allow_cancelling = do
  row ← run ctx.run_id none
  held ← attempt ctx.worker_attempt_id
  now ← utc_now
  require
      (row.fencing_token == ctx.fencing_token
        && same? row.attempt_id (some ctx.worker_attempt_id)
        && lease_is_live held now)
      stale_worker
  require (accepts_work allow_cancelling row) run_stopped

abbrev pub check_fence : Option ExecutionContext → Db Unit
check_fence none = pure tt
check_fence (some ctx) = assert_fence ctx true

abbrev pub at_revision : String → ℕ → RunRow → Bool
at_revision identity expected r = same r.id identity && r.revision == expected

abbrev pub touch : List RunField → ℕ → RunRow → RunRow
touch patch now r =
    let t = set_fields patch r in record t { revision = t.revision + 1; updated_at = now }

-- Store.update_run. Without a field the UPDATE is no SQL, and sqlite3.OperationalError is raised.
unfoldable pub update_run : String → ℕ → List RunField → Option ExecutionContext → Db RunRow
update_run identity expected patch ctx = do
  require (all is_allowed patch) value_error
  transaction (do
    check_fence ctx
    now ← utc_now
    require (has_some patch) Code.other_error
    count ← gets (λ d. any (at_revision identity expected) d.runs)
    modify (λ d. record d {
      runs = update_rows (at_revision identity expected) (touch patch now) d.runs;
    })
    require count revision_conflict
    run identity none)

-- Store.add_attempt
unfoldable pub add_attempt : String → String → String → ℕ → ℕ → ℕ → ℕ → Db Unit
add_attempt id run_id worker_id pid process_start lease_expiry fence = do
  now ← utc_now
  taken ← gets (λ d. any (λ (a : AttemptRow). same a.id id) d.run_attempts)
  known ← gets (λ d. is_some (find_run run_id d))
  require (not taken && known) integrity
  modify (λ d. record d {
    run_attempts =
        d.run_attempts
        ++ record {
          id = id;
          run_id = run_id;
          worker_id = worker_id;
          pid = pid;
          process_start = process_start;
          lease_expiry = lease_expiry;
          fencing_token = fence;
          ended_at = none;
          end_reason = none;
          created_at = now;
        }
          ∷ [];
  })

abbrev open_attempt : String → AttemptRow → Bool
open_attempt identity a = same a.id identity && not (is_some a.ended_at)

-- Store.heartbeat
unfoldable pub heartbeat : ExecutionContext → ℕ → Db Unit
heartbeat ctx expiry = transaction (do
  assert_fence ctx true
  modify (λ d. record d {
    run_attempts =
        update_rows (open_attempt ctx.worker_attempt_id) (λ a. record a { lease_expiry = expiry })
          d.run_attempts;
  }))

-- Store.end_attempt
unfoldable pub end_attempt : String → String → Db Unit
end_attempt identity reason = do
  now ← utc_now
  modify (λ d. record d {
    run_attempts =
        update_rows (open_attempt identity)
          (λ a. record a { ended_at = some now; end_reason = some reason }) d.run_attempts;
  })
