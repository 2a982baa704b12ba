-- ===== src/Safety/Permits.antt =====
-- The permits of harness/scheduler/budget.py.
use mi_harness.Prelude.{
  ℕ, ◌≤◌, ◌<◌, String, ◌≡◌, ap, ◌∙◌, inl, inr, Bool, true, ◌&&◌, Option, none, some, List, [], ◌∷◌,
  ◌++◌, map, arith, same, same_refl, text_le, length, select, order_by, ltb, find_row,
  count-order_by, count-select, count-append, count-map,
}
use mi_harness.Exec.{Result, World, continue, ok, err, ◌>>=◌}
use mi_harness.Exec.Keeps.{Keeps, Keeps-pure, Keeps-modify, keeps_rules}
use mi_harness.Exec.Atomic.{IsAtomic, transaction-IsAtomic}
use mi_harness.Exec.Establishes.{
  EstablishesFrom, EstablishesFrom-then, EstablishesFrom-now, EstablishesFrom-gets,
  EstablishesFrom-if, EstablishesFrom-weaken, EstablishesFrom-kept, atomic_outcome,
  EstablishesFrom-transaction,
}
use mi_harness.Core.{AccessContext}
use mi_harness.Store.Schema.{Payload, RecordRow, Database, Amount, ReservationRow}
use mi_harness.Store.Records.{at_key, find_record, upsert, list, put, delete}
use mi_harness.Store.Records.View.{view, find-delete_rows}
use mi_harness.Store.Budget.{
  account, reservation, lift, set_reserved, new_reservation, saved_or_new, reserve,
}
use mi_harness.Scheduler.Claim.{boundary}
use mi_harness.Policy.ReadOnly.{fence-Keeps, get-Keeps}
use mi_harness.Safety.Documents.{next_row, put_outcome}
use mi_harness.Model.Permits.{
  Adapter, ModelReservation, ModelUsage, permit_key, finally_do, is_live, model_boundary, amount_of,
  take_permit, try_permit, reserve_round, settle_model,
}

pub delete-frees : (n k : String) (w : World Database) → view (delete n k w).1.db n k ≡ none
unfolding delete ◌>>=◌
delete-frees n k w = ground (arith, find-delete_rows n k n k w.db.records, same_refl n, same_refl k)

-- However the settlement of a model call ends, its permit is gone: after `settle` of a reservation,
-- returning or raising, a SELECT of the key of the permit finds nothing.
pub settle_model-frees :
    (r : ModelReservation) (u : ModelUsage) (w : World Database)
    → view (settle_model (some r) u w).1.db "model_permits" r.key ≡ none
unfolding settle_model finally_do
settle_model-frees r u w = delete-frees "model_permits" r.key _

module _ {P : Database → Type 0} where
  account-Keeps : (id : String) → Keeps P (account id)
  unfolding account
  account-Keeps id = search keeps_rules

  boundary-Keeps : (adapter : Adapter) (ctx : AccessContext) → Keeps P (model_boundary adapter ctx)
  unfolding model_boundary boundary
  boundary-Keeps adapter (AccessContext.diagnostic c) = search keeps_rules depth 14
  boundary-Keeps adapter (AccessContext.execution c) = search (keeps_rules, fence-Keeps) depth 14

  amount-Keeps :
      (adapter : Adapter) (ctx : AccessContext) (i o : ℕ) → Keeps P (amount_of adapter ctx i o)
  unfolding amount_of
  amount-Keeps adapter ctx i o = search (keeps_rules, account-Keeps, get-Keeps) depth 16

-- What a statement of the records says is kept by every change of the budget.
module _ (P : List RecordRow → Type 0) where
  abbrev OfRecords : Database → Type 0
  OfRecords d = P d.records

  lift-Keeps : {A : Type 0} (r : Result A) → Keeps OfRecords (lift r)
  unfolding lift
  lift-Keeps r = record { at = λ w h. h }

  new_reservation-Keeps :
      (account_id key : String) (amount : Amount)
      → Keeps OfRecords (new_reservation account_id key amount)
  unfolding new_reservation set_reserved
  new_reservation-Keeps account_id key amount =
      search (keeps_rules, Keeps-modify, account-Keeps, lift-Keeps) depth 16

  saved_or_new-Keeps :
      (found : Option ReservationRow) (account_id key : String) (amount : Amount)
      → Keeps OfRecords (saved_or_new found account_id key amount)
  unfolding saved_or_new
  saved_or_new-Keeps none account_id key amount = new_reservation-Keeps account_id key amount
  saved_or_new-Keeps (some r) account_id key amount = search keeps_rules depth 14

  reserve-Keeps :
      (account_id key : String) (amount : Amount) → Keeps OfRecords (reserve account_id key amount)
  unfolding reserve reservation
  reserve-Keeps account_id key amount = search (keeps_rules, saved_or_new-Keeps) depth 14

upsert_new :
    (r : RecordRow) (rows : List RecordRow)
    → find_row (at_key r.namespace r.key) rows ≡ none
    → upsert r rows ≡ rows ++ r ∷ []
unfolding upsert
upsert_new r rows h = rw h

module _ (adapter : Adapter) where
  -- The live permits, as `list` gives them.
  abbrev pub permits_in : List RecordRow → List Payload
  permits_in rows =
      map (λ r. r.payload)
        (order_by (λ r t. text_le r.key t.key)
          (select (λ r. same r.namespace "model_permits") rows))

  abbrev pub live_permits : List RecordRow → ℕ
  live_permits rows = length (select (is_live adapter) (permits_in rows))

  live_row : RecordRow → Bool
  live_row r = same r.namespace "model_permits" && is_live adapter r.payload

  live_permits_lem : (rows : List RecordRow) → live_permits rows ≡ length (select live_row rows)
  unfolding live_row
  live_permits_lem rows =
      count-map (is_live adapter) (λ r. r.payload) _
      ∙ count-order_by (λ (r : RecordRow). is_live adapter r.payload) _ _
      ∙ count-select (λ (r : RecordRow). is_live adapter r.payload) _ rows

  module _ (attempt_id : String) where
    -- A permit is free for a new attempt.
    abbrev HasRoomIn : List RecordRow → Type 0
    HasRoomIn rows =
        (live_permits rows < adapter.concurrency)
        × (find_row (at_key "model_permits" (permit_key attempt_id)) rows ≡ none)

    abbrev HasRoom : Database → Type 0
    HasRoom d = HasRoomIn d.records

    abbrev pub IsBounded : Database → Type 0
    IsBounded d = live_permits d.records ≤ adapter.concurrency

    put-IsBounded :
        (value : Payload)
        → EstablishesFrom HasRoom IsBounded (put "model_permits" (permit_key attempt_id) value)
    put-IsBounded value = record {
      at = λ w _ room returned. elim (put_outcome "model_permits" (permit_key attempt_id) value w) [
        | inl (_, after) ↦
            let none_known : find_row (at_key "model_permits" (permit_key attempt_id)) w.db.records
                ≡ none =
              ground (arith, room) in
            let r : RecordRow = next_row "model_permits" (permit_key attempt_id) value w.db in
            let appended : (put "model_permits" (permit_key attempt_id) value w).1.db.records
                ≡ w.db.records ++ r ∷ [] =
              ap (λ (d : Database). d.records) after ∙ upsert_new r w.db.records none_known in
            ground (
              arith,
              live_permits_lem w.db.records,
              live_permits_lem (put "model_permits" (permit_key attempt_id) value w).1.db.records,
              count-append live_row w.db.records r,
            )
        | inr (raised, after) ↦ let absurd : ⊥ = ground arith in elim absurd [ ]
      ];
    }

    take-IsBounded :
        (ctx : AccessContext) (input output expires : ℕ)
        → EstablishesFrom HasRoom IsBounded
            (take_permit adapter ctx attempt_id input output expires)
    unfolding take_permit
    take-IsBounded ctx input output expires =
        EstablishesFrom-then _ _ (amount-Keeps adapter ctx input output) (λ amount.
          EstablishesFrom-then _ _ (reserve-Keeps HasRoomIn _ _ amount)
            (λ _. EstablishesFrom-now _ _ (put-IsBounded _) (λ _. Keeps-pure _)))

    room :
        (permits : List Payload) (d : Database)
        → ltb (length (select (is_live adapter) permits)) adapter.concurrency ≡ true
        → permits_in d.records ≡ permits
        → IsBounded d × (find_record "model_permits" (permit_key attempt_id) d ≡ none)
        → HasRoom d
    room permits d free read h =
        let counted = ap (λ (ps : List Payload). length (select (is_live adapter) ps)) read in
        (ground arith, h.1)

    try_permit-IsBounded :
        (ctx : AccessContext) (input output expires : ℕ)
        → EstablishesFrom
            (λ d. IsBounded d × (find_record "model_permits" (permit_key attempt_id) d ≡ none))
            IsBounded
            (try_permit adapter ctx attempt_id input output expires)
    unfolding try_permit list
    try_permit-IsBounded ctx input output expires = EstablishesFrom-transaction _ (
        EstablishesFrom-gets _ _ (λ permits.
          EstablishesFrom-if (ltb (length (select (is_live adapter) permits)) adapter.concurrency) _
            _
            (λ free.
              EstablishesFrom-weaken HasRoom _ (λ d h. room permits d free h.1 h.0)
                (EstablishesFrom-now _ _ (take-IsBounded ctx input output expires)
                  (λ _. Keeps-pure _)))
            (λ full. EstablishesFrom-kept _ (λ d h. h.0.0) (Keeps-pure none))))

    try_permit-IsAtomic :
        (ctx : AccessContext) (input output expires : ℕ)
        → IsAtomic (try_permit adapter ctx attempt_id input output expires)
    unfolding try_permit
    try_permit-IsAtomic ctx input output expires = transaction-IsAtomic _

    after_boundary :
        (ctx : AccessContext) (input output expires : ℕ) (passed : Result Unit) (w : World Database)
        → IsBounded w.db × (find_record "model_permits" (permit_key attempt_id) w.db ≡ none)
        → IsBounded
            (continue passed (λ _. try_permit adapter ctx attempt_id input output expires) w).1.db
    after_boundary ctx input output expires (err code) w h = h.0
    after_boundary ctx input output expires (ok done) w h =
        atomic_outcome _ (try_permit-IsAtomic ctx input output expires)
          (try_permit-IsBounded ctx input output expires) w h h.0

    -- No round of `reserve` puts more live permits in use than the configured concurrency: where at
    -- most so many permits are live and the attempt has none yet, at most so many are live after
    -- the round, whether it returns a permit, finds none free or raises.
    pub reserve_round-IsBounded :
        (ctx : AccessContext) (input output expires : ℕ) (w : World Database)
        → find_record "model_permits" (permit_key attempt_id) w.db ≡ none
        → IsBounded w.db
        → IsBounded (reserve_round adapter ctx attempt_id input output expires w).1.db
    unfolding reserve_round ◌>>=◌
    reserve_round-IsBounded ctx input output expires w fresh bounded =
        after_boundary ctx input output expires (model_boundary adapter ctx w).0 _ (
          (boundary-Keeps
              {P = λ d.
                IsBounded d × (find_record "model_permits" (permit_key attempt_id) d ≡ none)}
              adapter ctx).at
            w (bounded, fresh))
