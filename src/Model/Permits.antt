-- ===== src/Model/Permits.antt =====
-- ModelBudgetAdapter of harness/scheduler/budget.py: the permits of model calls in progress, and the
-- budget that they reserve. `reserve` repeats a round until one takes a permit, and sleeps between
-- two rounds; a round is modelled. A price is a product in floating point, hence a parameter.
use Prim.Native.String.{◌++◌ as text_append}
use mi_harness.Prelude.{
  ℕ, ◌+◌, String, Bool, false, not, Option, none, some, [], ◌∷◌, ◌++◌, ltb, if◌then◌else◌, same,
  is_some, length, select,
}
use mi_harness.Prelude.Int.{ℤ, pos}
use mi_harness.Exec.{
  pure, transaction, utc_now, ◌>>=◌, ◌>>◌, require, or_raise, unknown_model_price,
  diagnostic_expired,
}
use mi_harness.Core.{AccessContext}
use mi_harness.Store.Schema.{Snapshot, Permit, Payload, Amount, Db}
use mi_harness.Store.Records.{get, list, put, delete}
use mi_harness.Store.Runs.{assert_fence}
use mi_harness.Store.Budget.{get?, limit_of, account, reserve, settle}
use mi_harness.Policy.Engine.{as_snapshot}
use mi_harness.Scheduler.Claim.{boundary}

pub record Adapter : Type 0 where
  pub has_scheduler : Bool
  pub concurrency : ℕ
  pub permit_timeout : ℕ
  pub pid : ℕ
  pub process_start : ℕ
  -- psutil: the process of the permit runs and was started when the permit says
  pub is_running : Permit → Bool
  -- the cost of so many input and output tokens at these prices per million
  pub cost_of : ℕ → ℕ → ℕ → ℕ → ℤ

-- What `reserve` returns.
pub record ModelReservation : Type 0 where
  pub key : String
  pub account_id : String
  pub amount : Amount

pub record ModelUsage : Type 0 where
  pub source : String
  pub total_tokens : Option ℕ
  pub cost : Option ℤ

abbrev account_of : AccessContext → String
account_of (AccessContext.diagnostic c) = c.budget_account_id
account_of (AccessContext.execution c) = c.root_run_id

abbrev snapshot_id_of : AccessContext → String
snapshot_id_of (AccessContext.diagnostic c) = c.config_snapshot_id
snapshot_id_of (AccessContext.execution c) = c.config_snapshot_id

abbrev pub permit_key : String → String
permit_key attempt_id = text_append "model:" attempt_id

abbrev input_price : Option Snapshot → Option ℕ
input_price none = none
input_price (some s) = s.model_profile.input_price_per_million

abbrev output_price : Option Snapshot → Option ℕ
output_price none = none
output_price (some s) = s.model_profile.output_price_per_million

abbrev is_provider : ModelUsage → Bool
is_provider u = same u.source "provider"

-- `try: body finally: cleanup`
unfoldable pub finally_do : {A : Type 0} → Db A → Db Unit → Db A
finally_do body cleanup w = let (r, after) = body w in (r, (cleanup after).1)

module _ (adapter : Adapter) where
  -- ModelBudgetAdapter._boundary
  unfoldable pub model_boundary : AccessContext → Db Unit
  model_boundary (AccessContext.diagnostic c) = do
    now ← utc_now
    require (ltb now c.deadline_at) diagnostic_expired
  model_boundary (AccessContext.execution c) =
      if adapter.has_scheduler then boundary c else assert_fence c false

  -- ModelBudgetAdapter._live
  abbrev pub is_live : Payload → Bool
  is_live (Payload.permit p) = if p.released then false else adapter.is_running p
  is_live _ = false

  -- The amount to reserve, with the cost where the account limits it.
  unfoldable pub amount_of : AccessContext → ℕ → ℕ → Db Amount
  amount_of ctx input output = do
    a ← account (account_of ctx)
    let base : Amount = ("model_calls", pos 1) ∷ ("total_tokens", pos (input + output)) ∷ []
    if not (is_some (limit_of "cost" a.limits)) then pure base else (do
      saved ← get "snapshots" (snapshot_id_of ctx)
      incoming ← or_raise unknown_model_price (input_price (as_snapshot saved))
      outgoing ← or_raise unknown_model_price (output_price (as_snapshot saved))
      pure (base ++ ("cost", adapter.cost_of input incoming output outgoing) ∷ []))

  -- The part of a round that has found a free permit.
  unfoldable pub take_permit : AccessContext → String → ℕ → ℕ → ℕ → Db ModelReservation
  take_permit ctx attempt_id input output expires = do
    amount ← amount_of ctx input output
    reserve (account_of ctx) (permit_key attempt_id) amount
    put "model_permits" (permit_key attempt_id) (
        Payload.permit (record {
          key = permit_key attempt_id;
          pid = adapter.pid;
          process_start = adapter.process_start;
          account_id = account_of ctx;
          expires_at = expires;
          released = false;
        }))
    pure (record { key = permit_key attempt_id; account_id = account_of ctx; amount = amount })

  -- The transaction of a round of ModelBudgetAdapter.reserve.
  unfoldable pub try_permit : AccessContext → String → ℕ → ℕ → ℕ → Db (Option ModelReservation)
  try_permit ctx attempt_id input output expires = transaction (do
    permits ← list "model_permits"
    if ltb (length (select is_live permits)) adapter.concurrency
        then (do taken ← take_permit ctx attempt_id input output expires; pure (some taken))
        else pure none)

  -- A round of ModelBudgetAdapter.reserve; an unknown number of output tokens is 0.
  unfoldable pub reserve_round : AccessContext → String → ℕ → ℕ → ℕ → Db (Option ModelReservation)
  reserve_round ctx attempt_id input output expires = do
    model_boundary ctx
    try_permit ctx attempt_id input output expires

-- The use that the provider has confirmed.
abbrev pub actual_of : ModelReservation → ModelUsage → Option Amount
actual_of r u = elim u.total_tokens [
  | none ↦ none
  | some t ↦
      if not (is_provider u)
      then none
      else if is_some (get? "cost" r.amount)
      then elim u.cost [
        | none ↦ none
        | some c ↦ some (("model_calls", pos 1) ∷ ("total_tokens", pos t) ∷ ("cost", c) ∷ [])
      ]
      else some (("model_calls", pos 1) ∷ ("total_tokens", pos t) ∷ [])
]

-- ModelBudgetAdapter.settle
unfoldable pub settle_model : Option ModelReservation → ModelUsage → Db Unit
settle_model none u = pure tt
settle_model (some r) u =
    finally_do (do settled ← settle r.key (actual_of r u); pure tt) (delete "model_permits" r.key)
