-- ===== src/Safety/Ledger.antt =====
-- Reservations and settlements of harness/storage/store.py together: the accounts, and the amounts
-- that are reserved in them.
use mi_harness.Prelude.{
  String, ◌≡◌, refl, sym, subst, ◌∙◌, ◌≢◌, ◌⊎◌, inl, inr, true, false, Option, none, some, List, [],
  ◌∷◌, ◌++◌, arith, if◌then◌else◌, same, same→eq, is_some, Bool-cases, Option-cases, find_row,
  update_rows, find_row_sound, find_row-update_rows, find_row-append,
}
use mi_harness.Prelude.Int.{ℤ, ◌+ℤ◌, ltb_ℤ, pos}
use mi_harness.Exec.{World, transaction, ◌>>=◌, require, or_raise, ok}
use mi_harness.Exec.Atomic.{Result-cases, IsAtomic, transaction-IsAtomic, IsAtomic-Keeps}
use mi_harness.Exec.Keeps.{Keeps}
use mi_harness.Store.Schema.{Amount, AccountRow, ReservationState, ReservationRow, Database}
use mi_harness.Store.Budget.{
  get, put, limit_of, same_amount, with_account_id, find_account, account, with_reservation_key,
  find_reservation, reservation, exceeds, add_up, lift, set_reserved, set_balance, new_reservation,
  saved_or_new, reserve, is_settled, is_covered, release, consume, set_state, settle_open,
  settle_saved, settle,
}
use mi_harness.Safety.Balance.{
  WithinLimits, AccountsWithin, updated-AccountsWithin, unchanged-AccountsWithin, reserve-IsAtomic,
  reserve-AccountsWithin,
}
use mi_harness.Safety.Amounts.{has_key, IsAmount, settled-WithinLimits}

-- Every account is within its limits, and every reserved amount is one.
pub record IsLedger (d : Database) : Type 0 where
  pub accounts : AccountsWithin d
  pub amounts :
      (k : String) (r : ReservationRow) → find_reservation k d ≡ some r → IsAmount r.amount

-- A dictionary has each key once.
unfoldable pub HasKeysOnce : Amount → Type 0
HasKeysOnce [] = Unit
HasKeysOnce ((k, v) ∷ rest) = (has_key k rest ≡ false) × HasKeysOnce rest

add_up-IsAmount :
    (amount : Amount) (limits : List (String × Option ℤ)) (consumed reserved total : Amount)
    → HasKeysOnce amount
    → add_up amount limits consumed reserved ≡ ok total
    → IsAmount amount
unfolding add_up HasKeysOnce IsAmount
add_up-IsAmount [] limits consumed reserved total once h = tt
add_up-IsAmount ((k, v) ∷ rest) limits consumed reserved total (u, once) h =
    elim (Bool-cases (ltb_ℤ v (pos 0))) [
      | inl negative ↦
          let refused : add_up ((k, v) ∷ rest) limits consumed reserved ≢ ok total = ground arith in
          elim (refused h) [ ]
      | inr n ↦
          elim (Bool-cases (exceeds (get k reserved +ℤ get k consumed +ℤ v) (limit_of k limits))) [
            | inl over ↦
                let refused : add_up ((k, v) ∷ rest) limits consumed reserved ≢ ok total =
                  ground arith in
                elim (refused h) [ ]
            | inr fits ↦ (
              u,
              n,
              add_up-IsAmount rest limits consumed (put k (get k reserved +ℤ v) reserved) total once
                  (ground arith),
            )
          ]
    ]

abbrev Recorded : Amount → Database → Database → Type 0
Recorded amount d d' =
    (d'.budget_reservations ≡ d.budget_reservations)
    ⊎ ((a : AccountRow) × (total : Amount) × (r : ReservationRow) × (add_up amount a.limits
            a.consumed a.reserved
          ≡ ok total)
        × (r.amount ≡ amount)
        × (d'.budget_reservations ≡ d.budget_reservations ++ r ∷ []))

reserve-Recorded :
    (account_id key : String) (amount : Amount) (w : World Database) (r : ReservationRow)
    → (reserve account_id key amount w).0 ≡ ok r
    → Recorded amount w.db (reserve account_id key amount w).1.db
unfolding reserve reservation saved_or_new new_reservation account lift set_reserved transaction
    ◌>>=◌ require or_raise
reserve-Recorded account_id key amount w r h = elim (Option-cases (find_reservation key w.db)) [
  | inl none_yet ↦ elim (Option-cases (find_account account_id w.db)) [
    | inl missing ↦ inl (ground arith)
    | inr (a, found) ↦ elim (Result-cases (add_up amount a.limits a.consumed a.reserved)) [
      | inl (total, fits) ↦ inr (a, total, r, fits, ground arith, ground arith)
      | inr (c, over) ↦ inl (ground arith)
    ]
  ]
  | inr (saved, known) ↦ inl (ground arith)
]

module _ {rows : Option ReservationRow} where
  appended :
      (k : String) (x y : ReservationRow)
      → ((z : ReservationRow) → rows ≡ some z → IsAmount z.amount)
      → IsAmount y.amount
      → (if is_some rows then rows else if with_reservation_key k y then some y else none) ≡ some x
      → IsAmount x.amount
  appended k x y old new h = elim (Option-cases rows) [
    | inl missing ↦
        let same_row : y ≡ x = ground arith in
        subst (λ (z : ReservationRow). IsAmount z.amount) same_row new
    | inr (z, here) ↦
        let same_row : z ≡ x = ground arith in
        subst (λ (u : ReservationRow). IsAmount u.amount) same_row (old z here)
  ]

-- `reserve` keeps the ledger, whether it returns or raises: where every account is within its limits
-- in each dimension but "cost" and every reservation names each dimension once with a value of at least 0, both hold
-- afterwards. The amount to reserve names each dimension once, as a dict does.
pub reserve-IsLedger :
    (account_id key : String) (amount : Amount)
    → HasKeysOnce amount
    → Keeps IsLedger (reserve account_id key amount)
reserve-IsLedger account_id key amount once =
    IsAtomic-Keeps IsLedger _ (reserve-IsAtomic account_id key amount) (λ w r ledger h. record {
      accounts = (reserve-AccountsWithin account_id key amount).at w ledger.accounts;
      amounts = λ k x known. elim (reserve-Recorded account_id key amount w r h) [
        | inl unchanged ↦
            ledger.amounts k x
              (subst (λ t. find_row (with_reservation_key k) t ≡ some x) unchanged known)
        | inr (a, total, y, fits, same_amount, wrote) ↦
            appended k x y (λ z here. ledger.amounts k z here)
              (subst IsAmount (sym same_amount)
                (add_up-IsAmount amount a.limits a.consumed a.reserved total once fits))
              (sym (find_row-append (with_reservation_key k) w.db.budget_reservations y)
                ∙ subst (λ t. find_row (with_reservation_key k) t ≡ some x) wrote known)
      ];
    })

-- What a call of `settle` that returns may have written in the accounts.
abbrev Moved : String → Database → Database → Type 0
Moved key d d' =
    (d'.budget_accounts ≡ d.budget_accounts)
    ⊎ ((saved : ReservationRow) × (a : AccountRow) × (actual : Amount) × (find_reservation key d
          ≡ some saved)
        × (find_account saved.account_id d ≡ some a)
        × (is_covered actual saved.amount ≡ true)
        × (d'.budget_accounts
            ≡ update_rows (with_account_id a.id)
                (λ x. record x {
                  reserved = release saved.amount a.reserved;
                  consumed = consume saved.amount actual a.consumed;
                })
                d.budget_accounts))

settle-Moved :
    (key : String) (actual : Option Amount) (w : World Database) (r : ReservationRow)
    → (settle key actual w).0 ≡ ok r
    → Moved key w.db (settle key actual w).1.db
unfolding settle reservation settle_saved settle_open account set_balance set_state transaction
    ◌>>=◌ require or_raise
settle-Moved key none w r h = inl (ground arith)
settle-Moved key (some actual) w r h = elim (Option-cases (find_reservation key w.db)) [
  | inl missing ↦ inl (ground arith)
  | inr (saved, found) ↦ elim (Bool-cases (is_settled saved.state)) [
    | inl done ↦ inl (ground arith)
    | inr open_still ↦ elim (Option-cases (find_account saved.account_id w.db)) [
      | inl no_account ↦ inl (ground arith)
      | inr (a, here) ↦ elim (Bool-cases (is_covered actual saved.amount)) [
        | inl fits ↦ inr (saved, a, actual, found, here, fits, ground arith)
        | inr over ↦ inl (ground arith)
      ]
    ]
  ]
]

-- In the reservations it changes states and actual uses only.
abbrev Restated : String → Database → Database → Type 0
Restated key d d' =
    (d'.budget_reservations ≡ d.budget_reservations)
    ⊎ ((state : ReservationState) × (actual : Option Amount) × (d'.budget_reservations
          ≡ update_rows (with_reservation_key key)
              (λ x. record x { state = state; actual = actual }) d.budget_reservations))

settle-Restated :
    (key : String) (actual : Option Amount) (w : World Database) (r : ReservationRow)
    → (settle key actual w).0 ≡ ok r
    → Restated key w.db (settle key actual w).1.db
unfolding settle reservation settle_saved settle_open account set_balance set_state transaction
    ◌>>=◌ require or_raise
settle-Restated key none w r h = elim (Option-cases (find_reservation key w.db)) [
  | inl missing ↦ inl (ground arith)
  | inr (saved, found) ↦ elim (Bool-cases (is_settled saved.state)) [
    | inl done ↦ inl (ground arith)
    | inr open_still ↦ inr (ReservationState.unknown, saved.actual, ground arith)
  ]
]
settle-Restated key (some actual) w r h = elim (Option-cases (find_reservation key w.db)) [
  | inl missing ↦ inl (ground arith)
  | inr (saved, found) ↦ elim (Bool-cases (is_settled saved.state)) [
    | inl done ↦ inl (ground arith)
    | inr open_still ↦ inr (ReservationState.settled, some actual, ground arith)
  ]
]

restated_amounts :
    (key k : String) (state : ReservationState) (actual : Option Amount) (d : Database)
    (x : ReservationRow)
    → ((z : ReservationRow) → find_reservation k d ≡ some z → IsAmount z.amount)
    → find_row (with_reservation_key k) (
        update_rows
          (with_reservation_key key)
          (λ x. record x { state = state; actual = actual })
          d.budget_reservations)
      ≡ some x
    → IsAmount x.amount
restated_amounts key k state actual d x old h =
    let after =
      sym (
        find_row-update_rows (with_reservation_key key) (with_reservation_key k)
          (λ x. record x { state = state; actual = actual }) d.budget_reservations (λ x. refl))
      ∙ h in
    elim (Option-cases (find_reservation k d)) [
      | inl missing ↦ (let absurd : ⊥ = ground arith in elim absurd [ ])
      | inr (z, here) ↦
          let same_amount : z.amount ≡ x.amount = ground arith in
          subst IsAmount same_amount (old z here)
    ]

settle-IsAtomic : (key : String) (actual : Option Amount) → IsAtomic (settle key actual)
unfolding settle
settle-IsAtomic key actual = transaction-IsAtomic _

settle_accounts : (key : String) (d d' : Database) → IsLedger d → Moved key d d' → AccountsWithin d'
settle_accounts key d d' ledger (inl unchanged) =
    unchanged-AccountsWithin d d' unchanged ledger.accounts
settle_accounts key d d' ledger (inr (saved, a, actual, found, here, fits, wrote)) =
    let own : same a.id saved.account_id ≡ true =
      find_row_sound (with_account_id saved.account_id) d.budget_accounts a here in
    updated-AccountsWithin a.id _ d d' (λ x. refl)
      (λ x known.
        let at_id : find_account a.id d ≡ some a =
          subst (λ i. find_account i d ≡ some a) (sym (same→eq a.id saved.account_id own)) here in
        let one : a ≡ x = ground arith in
        subst
          (λ (z : AccountRow).
            WithinLimits z.limits (release saved.amount a.reserved)
              (consume saved.amount actual a.consumed))
          one
          (settled-WithinLimits saved.amount actual a.limits a.reserved a.consumed
            (ledger.amounts key saved found) fits (ledger.accounts.at saved.account_id a here)))
      wrote ledger.accounts

-- `settle` keeps the ledger, whether it returns or raises: what is consumed instead of what was
-- reserved leaves every account within its limits in each dimension but "cost", which is not
-- counted in whole numbers, and every reservation names each dimension once with a value of at
-- least 0. It does so for every actual use, known or not.
pub settle-IsLedger : (key : String) (actual : Option Amount) → Keeps IsLedger (settle key actual)
settle-IsLedger key actual = IsAtomic-Keeps IsLedger _ (settle-IsAtomic key actual) (λ w r ledger h.
    record {
      accounts = settle_accounts key w.db _ ledger (settle-Moved key actual w r h);
      amounts = λ k x known. elim (settle-Restated key actual w r h) [
        | inl unchanged ↦
            ledger.amounts k x
              (subst (λ t. find_row (with_reservation_key k) t ≡ some x) unchanged known)
        | inr (state, used, wrote) ↦
            restated_amounts key k state used w.db x (λ z here. ledger.amounts k z here)
              (subst (λ t. find_row (with_reservation_key k) t ≡ some x) wrote known)
      ];
    })
