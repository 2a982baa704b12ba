-- ===== src/Store/Budget.antt =====
-- The budget accounts of harness/storage/store.py. Every amount is reserved before it is spent and
-- settled afterwards; a use that nobody can confirm stays reserved. All values are whole numbers
-- here. Those of the dimension "cost" are floats in the source, whose sums may be rounded: in that
-- dimension the definitions follow the source only as far as floats are exact.
use mi_harness.Prelude.{
  String, Bool, true, false, not, ◌&&◌, ◌||◌, Option, none, some, List, [], ◌∷◌, ◌++◌,
  if◌then◌else◌, same, get_or_else, any, find_row, update_rows,
}
use mi_harness.Prelude.Int.{pos, ℤ, ◌+ℤ◌, ◌-ℤ◌, ltb_ℤ}
use mi_harness.Exec.{
  Result, pure, gets, transaction, modify, utc_now, ◌>>=◌, ◌>>◌, require, or_raise, ok, err,
  not_found, no_budget, reservation_conflict, budget_exhausted, settlement_conflict,
  usage_exceeds_reservation, integrity, value_error,
}
use mi_harness.Store.Schema.{Amount, AccountRow, ReservationState, ReservationRow, Database, Db}

-- dict.get(dim), dict.get(dim, 0) and dict[dim] = value
unfoldable pub get? : String → Amount → Option ℤ
get? dim [] = none
get? dim ((d, v) ∷ rest) = if same d dim then some v else get? dim rest

unfoldable pub get : String → Amount → ℤ
unfolding get?
get dim amount = get_or_else (get? dim amount) (pos 0)

unfoldable pub put : String → ℤ → Amount → Amount
put dim value [] = (dim, value) ∷ []
put dim value ((d, v) ∷ rest) =
    if same d dim then (d, value) ∷ rest else (d, v) ∷ put dim value rest

unfoldable pub limit_of : String → List (String × Option ℤ) → Option ℤ
limit_of dim [] = none
limit_of dim ((d, l) ∷ rest) = if same d dim then l else limit_of dim rest

abbrev same_value : Option ℤ → Option ℤ → Bool
same_value none none = true
same_value (some a) (some b) = not (ltb_ℤ a b) && not (ltb_ℤ b a)
same_value _ _ = false

abbrev included : Amount → Amount → Bool
included [] b = true
included ((d, v) ∷ rest) b = same_value (some v) (get? d b) && included rest b

-- Equality of the canonical JSON texts: the same entries, in any order.
unfoldable pub same_amount : Amount → Amount → Bool
unfolding get?
same_amount a b = included a b && included b a

abbrev pub with_account_id : String → AccountRow → Bool
with_account_id identity a = same a.id identity

abbrev pub find_account : String → Database → Option AccountRow
find_account identity d = find_row (with_account_id identity) d.budget_accounts

-- Store.account
unfoldable pub account : String → Db AccountRow
account identity = do found ← gets (find_account identity); or_raise no_budget found

-- Store.add_account
unfoldable pub add_account : String → String → String → List (String × Option ℤ) → Db Unit
add_account identity scope scope_id limits = do
  taken ← gets (λ d.
      any (λ a. with_account_id identity a || same a.scope scope && same a.scope_id scope_id)
        d.budget_accounts)
  require (not taken) integrity
  modify (λ d. record d {
    budget_accounts =
        d.budget_accounts
        ++ record {
          id = identity;
          scope = scope;
          scope_id = scope_id;
          limits = limits;
          consumed = [];
          reserved = [];
        }
          ∷ [];
  })

abbrev pub with_reservation_key : String → ReservationRow → Bool
with_reservation_key key r = same r.key key

abbrev pub find_reservation : String → Database → Option ReservationRow
find_reservation key d = find_row (with_reservation_key key) d.budget_reservations

-- Store.reservation
unfoldable pub reservation : String → Db (Option ReservationRow)
reservation key = gets (find_reservation key)

abbrev pub exceeds : ℤ → Option ℤ → Bool
exceeds total none = false
exceeds total (some limit) = ltb_ℤ limit total

-- The loop of `reserve` over the items of the amount: the new `reserved`, or the error.
unfoldable pub add_up : Amount → List (String × Option ℤ) → Amount → Amount → Result Amount
add_up [] limits consumed reserved = ok reserved
add_up ((dim, value) ∷ rest) limits consumed reserved =
    let further = add_up rest limits consumed (put dim (get dim reserved +ℤ value) reserved) in
    if ltb_ℤ value (pos 0)
    then err value_error
    else if exceeds (get dim reserved +ℤ get dim consumed +ℤ value) (limit_of dim limits)
    then err budget_exhausted
    else further

unfoldable pub lift : {A : Type 0} → Result A → Db A
lift r w = (r, w)

unfoldable pub set_reserved : String → Amount → Db Unit
set_reserved account_id reserved = modify (λ d. record d {
  budget_accounts =
      update_rows (with_account_id account_id) (λ a. record a { reserved = reserved })
        d.budget_accounts;
})

unfoldable pub set_balance : String → Amount → Amount → Db Unit
set_balance account_id reserved consumed = modify (λ d. record d {
  budget_accounts =
      update_rows (with_account_id account_id)
        (λ a. record a { reserved = reserved; consumed = consumed }) d.budget_accounts;
})

unfoldable pub new_reservation : String → String → Amount → Db ReservationRow
new_reservation account_id key amount = do
  a ← account account_id
  reserved ← lift (add_up amount a.limits a.consumed a.reserved)
  set_reserved account_id reserved
  now ← utc_now
  let r : ReservationRow = record {
    key = key;
    account_id = account_id;
    amount = amount;
    actual = none;
    state = ReservationState.reserved;
    created_at = now;
  }
  modify (λ d. record d { budget_reservations = d.budget_reservations ++ r ∷ [] })
  pure r

unfoldable pub saved_or_new : Option ReservationRow → String → String → Amount → Db ReservationRow
saved_or_new none account_id key amount = new_reservation account_id key amount
saved_or_new (some r) account_id key amount = do
  require (same r.account_id account_id && same_amount r.amount amount) reservation_conflict
  pure r

-- Store.reserve
unfoldable pub reserve : String → String → Amount → Db ReservationRow
reserve account_id key amount =
    transaction (do saved ← reservation key; saved_or_new saved account_id key amount)

abbrev pub is_settled : ReservationState → Bool
is_settled ReservationState.settled = true
is_settled _ = false

abbrev same_actual : Option Amount → Option Amount → Bool
same_actual none none = true
same_actual (some a) (some b) = same_amount a b
same_actual _ _ = false

-- The first loop of `settle`: each actual value is at least 0 and at most what was reserved.
unfoldable pub is_covered : Amount → Amount → Bool
is_covered [] amount = true
is_covered ((dim, value) ∷ rest) amount =
    not (ltb_ℤ value (pos 0)) && not (ltb_ℤ (get dim amount) value) && is_covered rest amount

-- The second loop of `settle`: what remains reserved, and what is consumed now.
unfoldable pub release : Amount → Amount → Amount
release [] reserved = reserved
release ((dim, value) ∷ rest) reserved = release rest (put dim (get dim reserved -ℤ value) reserved)

unfoldable pub consume : Amount → Amount → Amount → Amount
consume [] actual consumed = consumed
consume ((dim, value) ∷ rest) actual consumed =
    consume rest actual (put dim (get dim consumed +ℤ get dim actual) consumed)

unfoldable pub set_state : String → ReservationState → Option Amount → Db Unit
set_state key state actual = modify (λ d. record d {
  budget_reservations =
      update_rows (with_reservation_key key) (λ r. record r { state = state; actual = actual })
        d.budget_reservations;
})

unfoldable pub settle_open : ReservationRow → String → Option Amount → Db ReservationRow
settle_open saved key none = do
  set_state key ReservationState.unknown saved.actual
  pure (record saved { state = ReservationState.unknown })
settle_open saved key (some actual) = do
  a ← account saved.account_id
  require (is_covered actual saved.amount) usage_exceeds_reservation
  set_balance a.id (release saved.amount a.reserved) (consume saved.amount actual a.consumed)
  set_state key ReservationState.settled (some actual)
  pure (record saved { state = ReservationState.settled; actual = some actual })

unfoldable pub settle_saved : ReservationRow → String → Option Amount → Db ReservationRow
settle_saved saved key actual =
    if is_settled saved.state
    then (do require (same_actual saved.actual actual) settlement_conflict; pure saved)
    else settle_open saved key actual

-- Store.settle
unfoldable pub settle : String → Option Amount → Db ReservationRow
settle key actual =
    transaction
      (do found ← reservation key; saved ← or_raise not_found found; settle_saved saved key actual)
