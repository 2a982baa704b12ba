-- ===== src/Safety/Fencing.antt =====
-- The fencing of workers (Store.assert_fence): what a worker whose lease or token is stale can do.
use mi_harness.Prelude.{ℕ, String, ◌≡◌, Bool, true, false, Option, some, List, arith, all}
use mi_harness.Exec.{
  Code, Result, World, undo, transaction, continue, ◌>>=◌, require, or_raise, ok, err, stale_worker,
}
use mi_harness.Exec.Atomic.{transaction-IsAtomic}
use mi_harness.Core.{ExecutionContext, ApprovalBinding}
use mi_harness.Store.Schema.{InteractionPayload, Database, Db}
use mi_harness.Store.Runs.{RunField, is_allowed, assert_fence, update_run, heartbeat}
use mi_harness.Store.Operations.{
  OperationRequest, prepare_operation, OperationField, is_operation_field, update_operation,
}
use mi_harness.Store.Grants.{consume_grant, verify_consumed_grant}
use mi_harness.Store.Interactions.{prepare_interaction}
use mi_harness.Store.Commands.{consume_input_commands, ack_input_commands}
use mi_harness.Scheduler.Claim.{boundary}

-- The call raises the error and leaves the database as it was.
pub record Rejects {A : Type 0} (m : Db A) (c : Code) (w : World Database) : Type 0 where
  pub raises : (m w).0 ≡ err c
  pub unchanged : (m w).1.db ≡ w.db

first_error :
    {A : Type 0} (r : Result Unit) (w : World Database) (k : Unit → Db A) (c : Code)
    → r ≡ err c
    → (continue r k w).0 ≡ err c
first_error (ok a) w k c h = cc
first_error (err e) w k c h = cc

undo_error :
    {A : Type 0} (before : Database) (r : Result A) (w : World Database) (c : Code)
    → r ≡ err c
    → (undo before (r, w)).0 ≡ err c
undo_error before (ok a) w c h = cc
undo_error before (err e) w c h = cc

-- A transaction whose first action raises.
fenced :
    {A : Type 0} (m : Db Unit) (k : Unit → Db A) (c : Code) (w : World Database)
    → (m w).0 ≡ err c
    → Rejects (transaction (m >>= k)) c w
unfolding transaction ◌>>=◌
fenced m k c w h =
    let raised : (transaction (m >>= k) w).0 ≡ err c =
      undo_error w.db _ _ c (first_error (m w).0 (m w).1 k c h) in
    record { raises = raised; unchanged = (transaction-IsAtomic (m >>= k)).at w c raised }

-- The part of `assert_fence` that finds a worker stale does not look at the status of the run.
stale_for_all :
    (ctx : ExecutionContext) (b c : Bool) (w : World Database)
    → (assert_fence ctx b w).0 ≡ err stale_worker
    → (assert_fence ctx c w).0 ≡ err stale_worker
unfolding assert_fence or_raise require ◌>>=◌
stale_for_all ctx b c w h = ground arith

module _ (ctx : ExecutionContext) (w : World Database) where
  boundary-stale :
      (assert_fence ctx true w).0 ≡ err stale_worker → Rejects (boundary ctx) stale_worker w
  unfolding boundary assert_fence or_raise require ◌>>=◌
  boundary-stale h = record { raises = ground arith; unchanged = ground arith }

  update_run-stale :
      (id : String) (expected : ℕ) (patch : List RunField)
      → all is_allowed patch ≡ true
      → (assert_fence ctx true w).0 ≡ err stale_worker
      → Rejects (update_run id expected patch (some ctx)) stale_worker w
  unfolding update_run require ◌>>=◌
  update_run-stale id expected patch allowed h =
      rw allowed (fenced (assert_fence ctx true) _ stale_worker w h)

  update_operation-stale :
      (id : String) (expected : ℕ) (patch : List OperationField)
      → all is_operation_field patch ≡ true
      → (assert_fence ctx true w).0 ≡ err stale_worker
      → Rejects (update_operation id expected patch (some ctx)) stale_worker w
  unfolding update_operation require ◌>>=◌
  update_operation-stale id expected patch allowed h =
      rw allowed (fenced (assert_fence ctx true) _ stale_worker w h)

-- A worker that `assert_fence` finds stale cannot change anything: renewing its lease,
-- registering an operation or an interaction, consuming or verifying a grant, taking or
-- acknowledging steering commands, passing a boundary, and writing a run or an operation in
-- its own name with supported fields all raise STALE_WORKER and leave the database as it was.
pub stale_worker_writes_nothing :
    (ctx : ExecutionContext) (w : World Database)
    → (assert_fence ctx true w).0 ≡ err stale_worker
    → ((expiry : ℕ) → Rejects (heartbeat ctx expiry) stale_worker w)
      × ((q : OperationRequest) → Rejects (prepare_operation ctx q) stale_worker w)
      × ((g : String) (b : ApprovalBinding) (p : ℕ)
          → Rejects (consume_grant ctx g b p) stale_worker w)
      × ((o : String) (p : ℕ) → Rejects (verify_consumed_grant ctx o p) stale_worker w)
      × ((k kind : String) (x : InteractionPayload) (t : Option ℕ)
          → Rejects (prepare_interaction ctx k kind x t) stale_worker w)
      × Rejects (consume_input_commands ctx) stale_worker w
      × ((ids : List String) → Rejects (ack_input_commands ctx ids) stale_worker w)
      × Rejects (boundary ctx) stale_worker w
      × ((id : String) (n : ℕ) (patch : List RunField)
          → all is_allowed patch ≡ true
          → Rejects (update_run id n patch (some ctx)) stale_worker w)
      × ((id : String) (n : ℕ) (patch : List OperationField)
          → all is_operation_field patch ≡ true
          → Rejects (update_operation id n patch (some ctx)) stale_worker w)
unfolding heartbeat prepare_operation consume_grant verify_consumed_grant prepare_interaction
    consume_input_commands ack_input_commands
stale_worker_writes_nothing ctx w h =
    let strict : (assert_fence ctx false w).0 ≡ err stale_worker =
      stale_for_all ctx true false w h in
    (
      λ expiry. fenced (assert_fence ctx true) _ stale_worker w h,
      λ q. fenced (assert_fence ctx false) _ stale_worker w strict,
      λ g b p. fenced (assert_fence ctx false) _ stale_worker w strict,
      λ o p. fenced (assert_fence ctx false) _ stale_worker w strict,
      λ k kind x t. fenced (assert_fence ctx false) _ stale_worker w strict,
      fenced (assert_fence ctx false) _ stale_worker w strict,
      λ ids. fenced (assert_fence ctx false) _ stale_worker w strict,
      boundary-stale ctx w h,
      λ id n patch allowed. update_run-stale ctx w id n patch allowed h,
      λ id n patch allowed. update_operation-stale ctx w id n patch allowed h,
    )
