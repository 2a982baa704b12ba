-- ===== src/Safety/Approval.antt =====
-- The uses of a grant in Store.consume_grant of harness/storage/store.py.
use mi_harness.Prelude.{
  ℕ, ◌-◌, ◌≤◌, String, ◌≡◌, refl, sym, subst, ◌∙◌, ◌≢◌, inl, inr, true, false, Option, none, some,
  List, arith, Option-cases, find_row, update_rows, find_row_sound, find_row-update_rows,
}
use mi_harness.Exec.{Code, World, ◌>>=◌, ◌>>◌, require, or_raise, ok}
use mi_harness.Exec.Keeps.{
  Keeps, Keeps-utc_now, Keeps-require, Keeps-gets, Keeps-or_raise, keeps_rules,
}
use mi_harness.Exec.Establishes.{
  EstablishesFrom, EstablishesFrom-then, EstablishesFrom-now, EstablishesFrom-transaction,
  EstablishesFrom-modify,
}
use mi_harness.Exec.Returns.{
  Returns, Returns-require, ReturnsFrom, ReturnsFrom-then, ReturnsFrom-gets, ReturnsFrom-any,
  ReturnsFrom-transaction,
}
use mi_harness.Exec.Atomic.{Result-cases, IsAtomic, transaction-IsAtomic}
use mi_harness.Core.{ExecutionContext, ApprovalBinding}
use mi_harness.Store.Schema.{OperationRow, GrantRow, Database, Db}
use mi_harness.Store.Operations.{operation}
use mi_harness.Store.Grants.{with_grant_id, usable_by, spendable, spend, consume_grant}
use mi_harness.Policy.ReadOnly.{fence-Keeps}
use mi_harness.Safety.Quiet.{update_operation-Keeps}
use mi_harness.Safety.Revocation.{On, grants-IsQuiet}

-- The grant that a SELECT of the key finds, if any, has at most `n` uses left.
abbrev pub UsesAtMost : ℕ → String → List GrantRow → Type 0
UsesAtMost n grant rows =
    (g : GrantRow) → find_row (with_grant_id grant) rows ≡ some g → g.remaining ≤ n

spent_row :
    (grant : String) (now : ℕ) (rows : List GrantRow)
    → UsesAtMost 1 grant rows
    → UsesAtMost 0 grant (
        update_rows
          (spendable grant)
          (λ g. record g { remaining = g.remaining - 1; consumed_at = some now })
          rows)
spent_row grant now rows once g found =
    let after =
      find_row-update_rows (spendable grant) (with_grant_id grant)
        (λ g. record g { remaining = g.remaining - 1; consumed_at = some now }) rows (λ x. refl) in
    elim (Option-cases (find_row (with_grant_id grant) rows)) [
      | inl missing ↦ ground (arith, after)
      | inr (x, known) ↦
          let few : x.remaining ≤ 1 = once x known in
          let kept : with_grant_id grant x ≡ true =
            find_row_sound (with_grant_id grant) rows x known in
          ground (arith, after)
    ]

pub operation-Keeps : {P : Database → Type 0} (id : String) → Keeps P (operation id)
unfolding operation
operation-Keeps id = search keeps_rules depth 14

consumes :
    (ctx : ExecutionContext) (grant : String) (b : ApprovalBinding) (p : ℕ)
    → EstablishesFrom
        (λ d. UsesAtMost 1 grant d.execution_grants)
        (λ d. UsesAtMost 0 grant d.execution_grants)
        (consume_grant ctx grant b p)
unfolding consume_grant spend
consumes ctx grant b p = EstablishesFrom-transaction _ (
    EstablishesFrom-then _ _ (fence-Keeps ctx false) (λ _.
      EstablishesFrom-then _ _ (Keeps-gets _) (λ found.
        EstablishesFrom-then _ _ (Keeps-or_raise _ found) (λ g.
          EstablishesFrom-then _ _ (Keeps-require _ _) (λ _.
            EstablishesFrom-then _ _ Keeps-utc_now (λ now.
              EstablishesFrom-then _ _ (Keeps-require _ _) (λ _.
                EstablishesFrom-then _ _ (operation-Keeps g.operation_id) (λ o.
                  EstablishesFrom-then _ _ (Keeps-require _ _) (λ _.
                    EstablishesFrom-then _ _ Keeps-utc_now (λ now'.
                      EstablishesFrom-now _ _
                        (EstablishesFrom-modify _
                          (λ d once. spent_row grant now' d.execution_grants once))
                        (λ _.
                          update_operation-Keeps (On (UsesAtMost 0 grant))
                            (grants-IsQuiet (UsesAtMost 0 grant)) o.id o.revision _
                            (some ctx))))))))))))

module _ (ctx : ExecutionContext) {B : Type 0} (Q : B → Type 0) (rest : GrantRow → Db B) where
  after_lookup :
      (found : Option GrantRow)
      → ((g : GrantRow) → found ≡ some g → g.remaining ≤ 0)
      → Returns Q (do
        g ← or_raise Code.grant_invalid found
        require (usable_by ctx g) Code.grant_invalid
        rest g)
  unfolding or_raise ◌>>=◌
  after_lookup none few = record { at = λ w b h. cc }
  after_lookup (some g) few = record {
    at =
        (Returns-require (usable_by ctx g) Code.grant_invalid (λ _. rest g)
          (λ usable.
            let none_left : g.remaining ≤ 0 = few g refl in
            let absurd : ⊥ = ground arith in elim absurd [ ])).at;
  }

used_up :
    (ctx : ExecutionContext) (grant : String) (b : ApprovalBinding) (p : ℕ) (d : Database)
    → UsesAtMost 0 grant d.execution_grants
    → ReturnsFrom d (λ _. ⊥) (consume_grant ctx grant b p)
unfolding consume_grant
used_up ctx grant b p d few = ReturnsFrom-transaction d _ (
    ReturnsFrom-then d (λ _. Unit) _ _ (fence-Keeps ctx false) (record { at = λ w a e h. tt })
      (λ _ _.
        ReturnsFrom-then d _ _ _ (Keeps-gets _) (ReturnsFrom-gets d _)
          (λ found e. ReturnsFrom-any d _ (after_lookup ctx _ _ found (λ g h. few g (e ∙ h))))))

consume-IsAtomic :
    (ctx : ExecutionContext) (grant : String) (b : ApprovalBinding) (p : ℕ)
    → IsAtomic (consume_grant ctx grant b p)
unfolding consume_grant
consume-IsAtomic ctx grant b p = transaction-IsAtomic _

-- An approval for one use is used at most once: where the grant has at most one use left and a call
-- of `consume_grant` returns, no further call for that grant from the state that it left returns,
-- whoever calls it, at whatever time and with whatever binding, and none changes the database.
pub approval_used_once :
    (grant : String) (first second : ExecutionContext) (b c : ApprovalBinding) (p q : ℕ)
    (w later : World Database) (o : OperationRow)
    → UsesAtMost 1 grant w.db.execution_grants
    → (consume_grant first grant b p w).0 ≡ ok o
    → later.db ≡ (consume_grant first grant b p w).1.db
    → ((again : OperationRow) → (consume_grant second grant c q later).0 ≢ ok again)
      × ((consume_grant second grant c q later).1.db ≡ later.db)
approval_used_once grant first second b c p q w later o once h start =
    let spent : UsesAtMost 0 grant later.db.execution_grants =
      subst (λ (d : Database). UsesAtMost 0 grant d.execution_grants) (sym start)
        ((consumes first grant b p).at w o once h) in
    let never = (used_up second grant c q later.db spent).at in
    (
      (λ again ok_again. never later again refl ok_again),
      (elim (Result-cases (consume_grant second grant c q later).0) [
        | inl (again, e) ↦ (let absurd : ⊥ = never later again refl e in elim absurd [ ])
        | inr (code, e) ↦ (consume-IsAtomic second grant c q).at later code e
      ]),
    )
