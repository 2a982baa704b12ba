-- ===== src/Safety/Execution.antt =====
-- When ToolGateway.execute of harness/tools/gateway.py calls an executor.
use mi_harness.Prelude.{
  ℕ, String, ◌≡◌, refl, sym, ap, subst, true, false, Option, none, some, List, [], ◌∷◌, arith, same,
  same→eq, find_row, update_rows, find_row_sound, find_row-update_rows,
}
use mi_harness.Exec.{or_raise, not_found}
use mi_harness.Store.Operations.{
  same_state, with_operation_id, find_operation, operation, OperationField, set_operation_field,
  set_operation_fields, operation_at, touch_operation, update_operation,
}
use mi_harness.Exec.Keeps.{Keeps, Keeps-utc_now, Keeps-gets, Keeps-or_raise, keeps_rules}
use mi_harness.Exec.Returns.{
  Returns, Returns-bind, Returns-then, Returns-pure, Returns-transaction, ReturnsFrom,
  ReturnsFrom-then, ReturnsFrom-skip, ReturnsFrom-gets, ReturnsFrom-any, ReturnsFrom-transaction,
  ReturnsFrom-modify, ReturnsFrom-require, Returns-anywhere, Returns-or_raise,
}
use mi_harness.Safety.Approval.{operation-Keeps}
use mi_harness.Store.Schema.{OperationState, OperationRow, Database}
use mi_harness.Tools.Execute.{start_operation}
use mi_harness.Tools.Gateway.{ToolHost}
use mi_harness.Tools.Registry.{ToolArgs}
use mi_harness.Host.{Host}
use mi_harness.Core.{ExecutionContext, ApprovalBinding}
use mi_harness.Store.Grants.{spend, consume_grant}
use mi_harness.Policy.ReadOnly.{fence-Keeps}
use mi_harness.Store.Runs.{check_fence}

abbrev pub IsRunning : OperationRow → Type 0
IsRunning o = same_state o.state OperationState.running ≡ true

pub fence?-Keeps :
    {P : Database → Type 0} (ctx : Option ExecutionContext) → Keeps P (check_fence ctx)
fence?-Keeps none = search keeps_rules depth 14
fence?-Keeps (some ctx) = fence-Keeps ctx true

pub operation_from :
    (d : Database) (id : String) → ReturnsFrom d (λ o. find_operation id d ≡ some o) (operation id)
unfolding operation
operation_from d id = ReturnsFrom-then d _ _ _ (Keeps-gets _) (ReturnsFrom-gets d _) (λ found e.
    ReturnsFrom-any d _ (
      subst
        (λ (f : Option OperationRow).
          Returns {D = Database} (λ o. f ≡ some o) (or_raise not_found found))
        (sym e) (Returns-or_raise not_found found)))

id-set_operation_fields :
    (patch : List OperationField) (o : OperationRow) → (set_operation_fields patch o).id ≡ o.id
unfolding set_operation_fields set_operation_field
id-set_operation_fields [] o = refl
id-set_operation_fields (OperationField.state s ∷ fs) o = id-set_operation_fields fs _
id-set_operation_fields (OperationField.result r ∷ fs) o = id-set_operation_fields fs _
id-set_operation_fields (OperationField.metadata m ∷ fs) o = id-set_operation_fields fs _
id-set_operation_fields (OperationField.grant_id g ∷ fs) o = id-set_operation_fields fs _
id-set_operation_fields (OperationField.resource_fingerprint p ∷ fs) o =
    id-set_operation_fields fs _
id-set_operation_fields (OperationField.attempt_id a ∷ fs) o = id-set_operation_fields fs _
id-set_operation_fields (OperationField.fencing_token n ∷ fs) o = id-set_operation_fields fs _
id-set_operation_fields (OperationField.other k ∷ fs) o = id-set_operation_fields fs _

pub find_operation-updated :
    (d : Database) (x : OperationRow) (id : String) (patch : List OperationField) (now : ℕ)
    → find_operation id d ≡ some x
    → find_row
        (with_operation_id id)
        (update_rows (operation_at id x.revision) (touch_operation patch now) d.tool_executions)
      ≡ some (touch_operation patch now x)
find_operation-updated d x id patch now found =
    let kept : (o : OperationRow)
        → with_operation_id id (touch_operation patch now o) ≡ with_operation_id id o =
      λ o. ap (λ i. same i id) (id-set_operation_fields patch o) in
    let own : with_operation_id id x ≡ true =
      find_row_sound (with_operation_id id) d.tool_executions x found in
    let after =
      find_row-update_rows (operation_at id x.revision) (with_operation_id id)
        (touch_operation patch now) d.tool_executions kept in
    ground (arith, after)

-- An update that names the revision of the row that it finds returns the row that it wrote.
update-Returns :
    (Q : OperationRow → Type 0) (d : Database) (x : OperationRow) (id : String)
    (patch : List OperationField) (ctx : Option ExecutionContext)
    → find_operation id d ≡ some x
    → ((now : ℕ) → Q (touch_operation patch now x))
    → ReturnsFrom d Q (update_operation id x.revision patch ctx)
unfolding update_operation
update-Returns Q d x id patch ctx found k = ReturnsFrom-require d _ _ _ (λ _.
    ReturnsFrom-transaction d _ (
      ReturnsFrom-skip d _ _ (fence?-Keeps ctx) (λ _. ReturnsFrom-skip d _ _ Keeps-utc_now (λ now.
        ReturnsFrom-require d _ _ _ (λ _.
          ReturnsFrom-then d _ _ _ (Keeps-gets _) (ReturnsFrom-gets d _) (λ count _.
            ReturnsFrom-modify d _ _ (
              ReturnsFrom-require _ _ _ _ (λ _. record {
                at = λ w a start h.
                    let read = (operation_from _ id).at w a start h in
                    let same_row : touch_operation patch now x ≡ a =
                      ground (arith, find_operation-updated d x id patch now found) in
                    subst Q same_row (k now);
              }))))))))

found_again :
    (d : Database) (id : String) (o : OperationRow)
    → find_operation id d ≡ some o
    → find_operation o.id d ≡ some o
found_again d id o known =
    let own : same o.id id ≡ true =
      find_row_sound (with_operation_id id) d.tool_executions o known in
    subst (λ (i : String). find_operation i d ≡ some o) (sym (same→eq o.id id own)) known

-- What `consume_grant` returns is running.
consume-Returns :
    (ctx : ExecutionContext) (grant : String) (b : ApprovalBinding) (p : ℕ)
    → Returns IsRunning (consume_grant ctx grant b p)
unfolding consume_grant spend set_operation_fields set_operation_field
consume-Returns ctx grant b p = Returns-anywhere _ (λ d. ReturnsFrom-transaction d _ (
    ReturnsFrom-skip d _ _ (fence-Keeps ctx false) (λ _.
      ReturnsFrom-skip d _ _ (Keeps-gets _) (λ found.
        ReturnsFrom-skip d _ _ (Keeps-or_raise _ found) (λ g. ReturnsFrom-require d _ _ _ (λ _.
          ReturnsFrom-skip d _ _ Keeps-utc_now (λ now. ReturnsFrom-require d _ _ _ (λ _.
            ReturnsFrom-then d _ _ _ (operation-Keeps g.operation_id)
              (operation_from d g.operation_id)
              (λ o known. ReturnsFrom-require d _ _ _ (λ _.
                ReturnsFrom-skip d _ _ Keeps-utc_now (λ now2. ReturnsFrom-modify d _ _ (
                  update-Returns IsRunning _ o o.id _ (some ctx)
                    (found_again d g.operation_id o known) (λ _. refl)))))))))))))

module _ (host : Host) (tools : ToolHost) where
  pub start-Returns :
      (ctx : ExecutionContext) (o : OperationRow) (b : ApprovalBinding) (p : ℕ) (args : ToolArgs)
      → Returns IsRunning (start_operation host tools ctx o b p args)
  unfolding start_operation
  start-Returns ctx o b p args = Returns-bind _ _ (λ grant_id. Returns-transaction _ (
      Returns-bind _ _ (λ _. Returns-bind _ _ (λ _.
        Returns-then IsRunning _ _ (consume-Returns ctx grant_id b p) (λ started running.
          Returns-bind _ _ (λ _. Returns-bind _ _ (λ _. Returns-pure started running)))))))
