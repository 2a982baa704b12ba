-- ===== src/Exec.antt =====
-- A method of the program reads and writes the state and may raise an error. What it wrote before
-- the error stays written, unless a transaction undoes it, so the state stands beside the error.
-- `transaction` is the context manager of harness/storage/store.py: it commits when its body
-- returns and rolls back to the state that it found when the body raises.
pub mod Keeps
pub mod Atomic
pub mod Returns
pub mod Establishes
pub mod Hands
pub mod Reads
pub mod Answers
pub mod Leaves
pub mod Ends
use mi_harness.Prelude.{
  ℕ, suc, ◌+◌, ◌*◌, String, Bool, true, false, Option, none, some, List, [], ◌∷◌,
}

-- The codes of `HarnessError`, and the exceptions of Python and SQLite that the code can meet.
pub data Code : Type 0 where
  not_found revision_conflict branch_busy stale_worker run_stopped message_conflict : Code
  operation_conflict grant_invalid grant_stale operation_state no_budget : Code
  reservation_conflict budget_exhausted settlement_conflict usage_exceeds_reservation : Code
  project_busy invalid_transition maintenance branch_scope configuration : Code
  artifact_scope vision_unverified plan_confirmation_stale deadline_exceeded : Code
  outcome_mismatch checkpoint_required interrupt_mismatch final_not_durable : Code
  children_unsettled interaction_closed interaction_expired response_schema : Code
  binding_mismatch delegation_conflict delegation_limit child_permission wait_scope : Code
  run_not_reviewing evidence_required unverifiable_non_execution invalid_decision : Code
  steering_unavailable side_effect_policy checkpoint_unavailable policy_not_found : Code
  diagnostic_tool_denied path_denied capability_denied endpoint_denied network_disabled : Code
  egress_denied ssrf_denied skill_denied mcp_revoked mcp_config process_disabled : Code
  mcp_denied unknown_model_price diagnostic_expired artifact_corrupt image_invalid : Code
  tool_unavailable : Code
  pairing_rate_limit pairing_invalid local_pairing_denied auth_required csrf_rejected : Code
  tool_identity tool_not_in_snapshot plan_tool_denied resource_busy invalid_wait : Code
  unknown_context_limit context_budget_invalid : Code
  memory_not_found invalid_memory_field immutable_memory_field invalid_memory_state : Code
  invalid_cursor invalid_history model_profile_pinned model_unavailable : Code
  model_selection_disabled run_branch_conflict preferences_revision_required : Code
  tool_conflict process_exit_unknown continuation_policy : Code
  model_reference model_unverified endpoint_missing immutable_profile unknown_profile : Code
  idempotency_conflict command_interrupted command_in_progress command_failed : Code
  cancelled_error other_error : Code
  -- ValueError, KeyError or TypeError, sqlite3.IntegrityError
  value_error key_error integrity : Code
  -- a loop of the model that has too little fuel
  out_of_fuel : Code

pub data Result (A : Type 0) : Type 0 where
  ok : A → Result A
  err : Code → Result A

-- `db` is the database. `new_id` and `utc_now` are read from two streams that the environment
-- chooses, and `ticks` says how far they have been read: no rollback turns it back.
pub record World (D : Type 0) : Type 0 where
  pub db : D
  pub ids : ℕ → String
  pub clock : ℕ → ℕ
  pub ticks : ℕ

abbrev pub Exec : Type 0 → Type 0 → Type 0
Exec D A = World D → Result A × World D

module _ {D A : Type 0} where
  pub pure : A → Exec D A
  pure a w = (ok a, w)

  pub raise : Code → Exec D A
  raise c w = (err c, w)

  pub gets : (D → A) → Exec D A
  gets f w = (ok (f w.db), w)

  abbrev pub undo : D → Result A × World D → Result A × World D
  undo before (ok a, after) = (ok a, after)
  undo before (err c, after) = (err c, record after { db = before })

  unfoldable pub transaction : Exec D A → Exec D A
  transaction m w = undo w.db (m w)

module _ {D : Type 0} where
  pub modify : (D → D) → Exec D Unit
  modify f w = (ok tt, record w { db = f w.db })

  pub new_id : Exec D String
  new_id w = (ok (w.ids w.ticks), record w { ticks = suc w.ticks })

  pub utc_now : Exec D ℕ
  utc_now w = (ok (w.clock w.ticks), record w { ticks = suc w.ticks })

  -- after_seconds of harness/tools/gateway.py
  pub after_seconds : ℕ → Exec D ℕ
  after_seconds n w = (ok (w.clock w.ticks + n * 1000), record w { ticks = suc w.ticks })

module _ {D A B : Type 0} where
  abbrev pub continue : Result A → (A → Exec D B) → Exec D B
  continue (ok a) f w = f a w
  continue (err c) f w = (err c, w)

  infixl 10 ◌>>=◌ ◌>>◌
  -- Opening this opens the other ways to build an action, but `transaction`.
  unfoldable pub ◌>>=◌ : Exec D A → (A → Exec D B) → Exec D B
  unfolding pure raise gets modify new_id utc_now after_seconds
  ◌>>=◌ m f w = let (r, w') = m w in continue r f w'

  abbrev pub ◌>>◌ : Exec D A → Exec D B → Exec D B
  m >> n = m >>= λ _. n

-- `if not test: raise ...`
unfoldable pub require : {D : Type 0} → Bool → Code → Exec D Unit
require true c w = (ok tt, w)
require false c w = (err c, w)

-- `if test: body`
unfoldable pub when : {D : Type 0} → Bool → Exec D Unit → Exec D Unit
unfolding pure
when true body = body
when false body = pure tt

module _ {D A : Type 0} where
  -- A lookup that raises where nothing is found.
  unfoldable pub or_raise : Code → Option A → Exec D A
  unfolding pure raise
  or_raise c none = raise c
  or_raise c (some a) = pure a

  -- `for x in xs: body`
  unfoldable pub for_each : List A → (A → Exec D Unit) → Exec D Unit
  unfolding pure
  for_each [] body = pure tt
  for_each (x ∷ xs) body = let rest = for_each xs body in body x >> rest

  abbrev pub handled : Result A → (Code → Exec D A) → Exec D A
  handled (ok a) handler w = (ok a, w)
  handled (err c) handler w = handler c w

  -- `try: body` with a handler, which finds what the body wrote before it raised.
  unfoldable pub rescue : Exec D A → (Code → Exec D A) → Exec D A
  rescue body handler w = handled (body w).0 handler (body w).1
