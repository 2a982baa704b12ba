-- ===== src/Server/Commands.antt =====
-- Services.mutate of harness/server/composition.py: a command that the client may send again is run
-- once, under its key. A callback runs at once, inside the transaction, or is awaited after it.
use text.Mathlib.Text.{starts_with}
use mi_harness.Prelude.{
  ℕ, String, Bool, true, false, not, ◌&&◌, ◌||◌, Option, none, some, ◌==◌, if◌then◌else◌, same,
}
use mi_harness.Exec.{
  Code, Result, ok, err, pure, raise, transaction, after_seconds, ◌>>=◌, ◌>>◌, require,
  idempotency_conflict, command_interrupted, command_in_progress, command_failed, maintenance,
}
use mi_harness.Store.Schema.{Payload, Response, ApiCommandRow, Db}
use mi_harness.Store.Records.{get}
use mi_harness.Store.Commands.{api_command, save_api_command, complete_api_command}

pub record CommandKey : Type 0 where
  pub owner : String
  pub method : String
  pub route : String
  pub key : String

pub data Callback : Type 0 where
  immediate : Db String → Callback
  awaited : Db String → Callback

pub record ServerProcess : Type 0 where
  pub pid : ℕ
  pub process_start : ℕ
  -- psutil: the process runs and was started then
  pub is_running : ℕ → ℕ → Bool
  -- the HTTP status of an error
  pub failure_status : Code → ℕ

-- What the transaction of `mutate` has come to.
pub data Begun : Type 0 where
  answered : String → Begun
  begun : Begun

-- `isinstance(exc, HarnessError)`
abbrev pub is_harness_error : Code → Bool
is_harness_error Code.value_error = false
is_harness_error Code.key_error = false
is_harness_error Code.integrity = false
is_harness_error Code.other_error = false
is_harness_error Code.out_of_fuel = false
is_harness_error _ = true

-- asyncio.CancelledError is no Exception.
abbrev pub is_cancellation : Code → Bool
is_cancellation Code.cancelled_error = true
is_cancellation _ = false

abbrev pub error_of : Code → Code
error_of c = if is_harness_error c then c else command_failed

abbrev in_maintenance : Option Payload → Bool
in_maintenance (some (Payload.maintenance b)) = b
in_maintenance _ = false

abbrev changes_configuration : String → Bool
changes_configuration route = starts_with route "/api/config/" || same route "/api/workspaces"

-- The response that stands in a row.
unfoldable pub saved_text : Option Response → Result String
saved_text none = ok "null"
saved_text (some (Response.value r)) = ok r
saved_text (some (Response.failed c)) = err c
-- no such row is written with another status than 102
saved_text (some (Response.in_progress pid start)) = ok "pending"

unfoldable pub reply : Result String → Db Begun
reply (ok r) = pure (answered r)
reply (err c) = raise c

module _ (process : ServerProcess) (k : CommandKey) (digest : String) where
  works_on : Option Response → Bool
  works_on (some (Response.in_progress pid start)) = process.is_running pid start
  works_on _ = false

  pending_error : Option Response → Code
  unfolding works_on
  pending_error saved = if works_on saved then command_in_progress else command_interrupted

  -- A command that has been received before.
  unfoldable pub answer_again : ApiCommandRow → Db Begun
  unfolding pending_error reply
  answer_again saved =
      if not (same saved.body_hash digest)
      then raise idempotency_conflict
      else if saved.status_code == 102
      then raise (pending_error saved.response)
      else reply (saved_text saved.response)

  unfoldable pub save : Response → ℕ → Db Unit
  save response status = do
    expiry ← after_seconds 86400
    save_api_command (record {
      owner = k.owner;
      method = k.method;
      route = k.route;
      key = k.key;
      body_hash = digest;
      response = some response;
      status_code = status;
      expires_at = expiry;
    })

  -- The part of a command's first call that stands in the transaction.
  unfoldable pub run_first : Callback → Db Begun
  run_first (Callback.immediate m) = do r ← m; save (Response.value r) 200; pure (answered r)
  run_first (Callback.awaited m) = do
    save (Response.in_progress process.pid process.process_start) 102
    pure begun

  unfoldable pub first_or_again : Option ApiCommandRow → Callback → Db Begun
  first_or_again (some saved) callback = answer_again saved
  first_or_again none callback = do
    system ← get "system" "maintenance"
    require (not (in_maintenance system && changes_configuration k.route)) maintenance
    run_first callback

  -- What the awaited callback has come to is written down.
  unfoldable pub complete : Result String → Db String
  complete (ok r) = do
    complete_api_command k.owner k.method k.route k.key (Response.value r) 200
    pure r
  complete (err c) = if is_cancellation c then raise c else (do
    complete_api_command k.owner k.method k.route k.key (Response.failed (error_of c))
        (process.failure_status (error_of c))
    raise (error_of c))

  -- `serialize(await result)`, in a `try`
  unfoldable pub await : Db String → Db String
  await m w = complete (m w).0 (m w).1

  unfoldable pub answer : Begun → Callback → Db String
  answer (answered r) callback = pure r
  answer begun (Callback.awaited m) = await m
  -- a callback that has run at once has answered
  answer begun (Callback.immediate m) = raise command_failed

  -- Services.mutate, for a body with this hash
  unfoldable pub mutate : Callback → Db String
  mutate callback = do
    state ←
        transaction
          (do saved ← api_command k.owner k.method k.route k.key; first_or_again saved callback)
    answer state callback
