-- ===== src/Safety/Balance.antt =====
-- The balance of the budget accounts of harness/storage/store.py: reserved and consumed amounts
-- against the limits.
use mi_harness.Prelude.{
  String, ◌≡◌, refl, sym, ap, subst, ◌∙◌, ◌≢◌, ◌⊎◌, inl, inr, true, false, Option, some, List, [],
  ◌∷◌, arith, if◌then◌else◌, same, same→eq, same_refl, Bool-cases, Option-cases, find_row,
  update_rows, find_row_sound, find_row-update_rows,
}
use mi_harness.Prelude.Int.{ℤ, ◌+ℤ◌, int_laws}
use mi_harness.Exec.{World, transaction, ◌>>=◌, require, or_raise, ok}
use mi_harness.Exec.Atomic.{Result-cases, IsAtomic, transaction-IsAtomic, IsAtomic-Keeps}
use mi_harness.Exec.Keeps.{Keeps}
use mi_harness.Store.Schema.{Amount, AccountRow, ReservationRow, Database}
use mi_harness.Store.Budget.{
  get?, get, put, limit_of, with_account_id, find_account, account, find_reservation, reservation,
  exceeds, add_up, lift, set_reserved, new_reservation, saved_or_new, reserve,
}
use mathlib.Core.Option

-- In every dimension that is counted in whole numbers, which is each but "cost".
abbrev pub IsWhole : String → Type 0
IsWhole d = same d "cost" ≡ false

pub record WithinLimits (limits : List (String × Option ℤ)) (reserved consumed : Amount)
    : Type 0 where
  pub at :
      (d : String)
      → IsWhole d
      → exceeds (get d reserved +ℤ get d consumed) (limit_of d limits) ≡ false

pub get-put :
    (k d : String) (v : ℤ) (m : Amount) → get d (put k v m) ≡ (if same k d then v else get d m)
unfolding get get? put
get-put k d v [] = ground arith
get-put k d v ((x, y) ∷ m) =
    ground (arith, get-put k d v m, same→eq x k, same→eq k d, same→eq x d, same_refl x)

reordered : (a b c : ℤ) → a +ℤ b +ℤ c ≡ a +ℤ c +ℤ b
reordered a b c = omega int_laws

raise_one :
    (k : String) (v : ℤ) (limits : List (String × Option ℤ)) (consumed reserved : Amount)
    → WithinLimits limits reserved consumed
    → exceeds (get k reserved +ℤ get k consumed +ℤ v) (limit_of k limits) ≡ false
    → WithinLimits limits (put k (get k reserved +ℤ v) reserved) consumed
raise_one k v limits consumed reserved within h = record {
  at = λ d whole. elim (Bool-cases (same k d)) [
    | inl y ↦
        let value : get d (put k (get k reserved +ℤ v) reserved) ≡ get k reserved +ℤ v =
          rw (get-put k d (get k reserved +ℤ v) reserved, y) refl in
        let goal : exceeds (get k reserved +ℤ v +ℤ get k consumed) (limit_of k limits) ≡ false =
          rw (reordered (get k reserved) v (get k consumed)) h in
        rw (value, sym (same→eq k d y)) goal
    | inr n ↦
        let value : get d (put k (get k reserved +ℤ v) reserved) ≡ get d reserved =
          rw (get-put k d (get k reserved +ℤ v) reserved, n) refl in
        rw value (within.at d whole)
  ];
}

-- The loop of `reserve` stops before a limit is passed.
add_up-WithinLimits :
    (amount : Amount) (limits : List (String × Option ℤ)) (consumed reserved total : Amount)
    → WithinLimits limits reserved consumed
    → add_up amount limits consumed reserved ≡ ok total
    → WithinLimits limits total consumed
unfolding add_up
add_up-WithinLimits [] limits consumed reserved total within h =
    subst (λ x. WithinLimits limits x consumed) (ground arith) within
add_up-WithinLimits ((k, v) ∷ rest) limits consumed reserved total within h =
    elim (Bool-cases (exceeds (get k reserved +ℤ get k consumed +ℤ v) (limit_of k limits))) [
      | inl over ↦
          let refused : add_up ((k, v) ∷ rest) limits consumed reserved ≢ ok total = ground arith in
          elim (refused h) [ ]
      | inr fits ↦
          add_up-WithinLimits rest limits consumed (put k (get k reserved +ℤ v) reserved) total
            (raise_one k v limits consumed reserved within fits) (ground arith)
    ]

-- Every account that a SELECT finds is within its limits.
pub record AccountsWithin (d : Database) : Type 0 where
  pub at :
      (id : String) (a : AccountRow)
      → find_account id d ≡ some a
      → WithinLimits a.limits a.reserved a.consumed

-- What a call of `reserve` that returns may have written.
abbrev ReserveWrote : String → Amount → Database → Database → Type 0
ReserveWrote account_id amount d d' =
    (d'.budget_accounts ≡ d.budget_accounts)
    ⊎ ((a : AccountRow) × (total : Amount) × (find_account account_id d ≡ some a)
        × (add_up amount a.limits a.consumed a.reserved ≡ ok total)
        × (d'.budget_accounts
            ≡ update_rows (with_account_id account_id) (λ x. record x { reserved = total })
                d.budget_accounts))

reserve_wrote :
    (account_id key : String) (amount : Amount) (w : World Database) (r : ReservationRow)
    → (reserve account_id key amount w).0 ≡ ok r
    → ReserveWrote account_id amount w.db (reserve account_id key amount w).1.db
unfolding reserve reservation saved_or_new new_reservation account lift set_reserved transaction
    ◌>>=◌ require or_raise
reserve_wrote account_id key amount w r h = elim (Option-cases (find_reservation key w.db)) [
  | inl none_yet ↦ elim (Option-cases (find_account account_id w.db)) [
    | inl missing ↦ inl (ground arith)
    | inr (a, found) ↦ elim (Result-cases (add_up amount a.limits a.consumed a.reserved)) [
      | inl (total, fits) ↦ inr (a, total, found, fits, ground arith)
      | inr (c, over) ↦ inl (ground arith)
    ]
  ]
  | inr (saved, known) ↦ inl (ground arith)
]

-- An UPDATE of one account keeps the invariant if it brings that account within its limits.
pub updated-AccountsWithin :
    (account_id : String) (f : AccountRow → AccountRow) (d d' : Database)
    → ((x : AccountRow) → (f x).id ≡ x.id)
    → ((a : AccountRow)
        → find_account account_id d ≡ some a
        → WithinLimits (f a).limits (f a).reserved (f a).consumed)
    → d'.budget_accounts ≡ update_rows (with_account_id account_id) f d.budget_accounts
    → AccountsWithin d
    → AccountsWithin d'
updated-AccountsWithin account_id f d d' same_id fits wrote within = record {
  at = λ id b known.
      let found : Option.map (λ x. if with_account_id account_id x then f x else x)
            (find_account id d)
          ≡ some b =
        sym (
          find_row-update_rows (with_account_id account_id) (with_account_id id) f d.budget_accounts
            (λ x. ap (λ i. same i id) (same_id x)))
        ∙ subst (λ t. find_row (with_account_id id) t ≡ some b) wrote known in
      elim (Option-cases (find_account id d)) [
        | inl missing ↦ (let absurd : ⊥ = ground arith in elim absurd [ ])
        | inr (x, here) ↦ elim (Bool-cases (same x.id account_id)) [
          | inl y ↦
              let owner : same x.id id ≡ true =
                find_row_sound (with_account_id id) d.budget_accounts x here in
              let one_id : id ≡ account_id =
                sym (same→eq x.id id owner) ∙ same→eq x.id account_id y in
              let b_is : b ≡ f x = ground arith in
              subst (λ (z : AccountRow). WithinLimits z.limits z.reserved z.consumed) (sym b_is)
                (fits x (subst (λ i. find_account i d ≡ some x) one_id here))
          | inr n ↦
              let b_is : b ≡ x = ground arith in
              subst (λ (z : AccountRow). WithinLimits z.limits z.reserved z.consumed) (sym b_is)
                (within.at id x here)
        ]
      ];
}

pub unchanged-AccountsWithin :
    (d d' : Database)
    → d'.budget_accounts ≡ d.budget_accounts
    → AccountsWithin d
    → AccountsWithin d'
unchanged-AccountsWithin d d' unchanged within = record {
  at = λ id b known.
      within.at id b (subst (λ t. find_row (with_account_id id) t ≡ some b) unchanged known);
}

pub reserve-IsAtomic :
    (account_id key : String) (amount : Amount) → IsAtomic (reserve account_id key amount)
unfolding reserve
reserve-IsAtomic account_id key amount = transaction-IsAtomic _

-- A call of `reserve`, whether it returns or raises, keeps every account within its limits: in
-- each dimension but "cost", which is not counted in whole numbers, what is reserved and what is
-- consumed are together at most the limit, where there is one.
pub reserve-AccountsWithin :
    (account_id key : String) (amount : Amount)
    → Keeps AccountsWithin (reserve account_id key amount)
reserve-AccountsWithin account_id key amount =
    IsAtomic-Keeps AccountsWithin _ (reserve-IsAtomic account_id key amount) (λ w r within h.
      elim (reserve_wrote account_id key amount w r h) [
        | inl unchanged ↦ unchanged-AccountsWithin w.db _ unchanged within
        | inr (a, total, found, fits, wrote) ↦
            updated-AccountsWithin account_id (λ x. record x { reserved = total }) w.db _
              (λ x. refl)
              (λ x here.
                let one : a ≡ x = ground arith in
                subst (λ (z : AccountRow). WithinLimits z.limits total z.consumed) one
                  (add_up-WithinLimits amount a.limits a.consumed a.reserved total
                    (within.at account_id a found) fits))
              wrote within
      ])
