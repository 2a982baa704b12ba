-- ===== src/Safety/Reported.antt =====
-- What the end of a tool call in harness/tools/gateway.py writes into the ledger and what it reports.
use mi_harness.Prelude.{String, ◌≡◌, refl, ◌∙◌, Option, none, some, [], ◌∷◌, if◌then◌else◌}
use mi_harness.Exec.{World, ok}
use mi_harness.Exec.Keeps.{Keeps, Keeps-modify, Keeps-gets, Keeps-utc_now, keeps_rules}
use mi_harness.Exec.Hands.{
  Hands, Hands-then, Hands-after, Hands-require, Hands-transaction, Hands-pure, Hands-modify,
}
use mi_harness.Core.{ExecutionContext, InterruptKind}
use mi_harness.Host.{Host}
use mi_harness.Store.Schema.{Document, Amount, ToolResult, OperationRow, Database, ReservationRow}
use mi_harness.Store.Runs.{run}
use mi_harness.Store.Events.{outbox, event}
use mi_harness.Store.Budget.{
  account, reservation, set_balance, set_state, settle_open, settle_saved, settle,
}
use mi_harness.Store.Operations.{
  find_operation, operation, OperationField, set_operation_field, set_operation_fields,
  update_operation,
}
use mi_harness.Tools.Reconcile.{finish_operation}
use mi_harness.Tools.Attempt.{conclude}
use mi_harness.Tools.Gateway.{ToolHost, ToolOutcome, waiting, is_unknown}
use mi_harness.Safety.Approval.{operation-Keeps}
use mi_harness.Safety.Execution.{fence?-Keeps, operation_from, find_operation-updated}

-- The ledger holds the operation in this state, with this result.
abbrev pub IsRecorded : String → ToolResult → Database → Type 0
IsRecorded id r d =
    (y : OperationRow) × (find_operation id d ≡ some y) × (y.state ≡ r.status) × (y.result ≡ some r)

module _ (id : String) (r : ToolResult) where
  outbox-IsRecorded :
      (c k : String) (payload : Document) → Keeps (IsRecorded id r) (outbox c k payload)
  unfolding outbox
  outbox-IsRecorded c k payload = search (keeps_rules, Keeps-modify) depth 12

  event-IsRecorded :
      (k kind : String) (payload : Document) → Keeps (IsRecorded id r) (event k kind payload)
  unfolding event run
  event-IsRecorded k kind payload = search (keeps_rules, Keeps-modify, outbox-IsRecorded) depth 14

  settle_open-IsRecorded :
      (s : ReservationRow) (k : String) (a : Option Amount)
      → Keeps (IsRecorded id r) (settle_open s k a)
  unfolding settle_open set_state set_balance account
  settle_open-IsRecorded s k none = search (keeps_rules, Keeps-modify) depth 14
  settle_open-IsRecorded s k (some a) = search (keeps_rules, Keeps-modify) depth 16

  settle-IsRecorded : (k : String) (a : Option Amount) → Keeps (IsRecorded id r) (settle k a)
  unfolding settle settle_saved reservation
  settle-IsRecorded k a = search (keeps_rules, settle_open-IsRecorded) depth 16

read-Hands :
    (id : String)
    → Hands (λ d. Unit) (λ (x : OperationRow) d. find_operation id d ≡ some x) (operation id)
unfolding operation
read-Hands id = record {
  at = λ w x p h.
      let here : find_operation id w.db ≡ some x = (operation_from w.db id).at w x refl h in
      let kept : Keeps (λ d. find_operation id d ≡ some x) (operation id) =
        search keeps_rules depth 12 in
      kept.at w here;
}

write-Hands :
    (x : OperationRow) (id : String) (r : ToolResult) (ctx : Option ExecutionContext)
    → Hands
        (λ d. find_operation id d ≡ some x)
        (λ _. IsRecorded id r)
        (update_operation id x.revision
          (OperationField.state r.status ∷ OperationField.result (some r) ∷ [])
          ctx)
unfolding update_operation set_operation_fields set_operation_field
write-Hands x id r ctx = Hands-require _ _ _ (λ allowed. Hands-transaction _ (
    Hands-after _ _ (fence?-Keeps ctx) (λ _. Hands-after _ _ Keeps-utc_now (λ now.
      Hands-require _ _ _ (λ _. Hands-after _ _ (Keeps-gets _) (λ count.
        Hands-then (λ _. IsRecorded id r) _ _
          (Hands-modify _ (λ d found. (
            _,
            find_operation-updated d x id
                (OperationField.state r.status ∷ OperationField.result (some r) ∷ []) now found,
            refl,
            refl,
          )))
          (λ _. Hands-require _ _ _ (λ _. record {
            at = λ w a p h. (operation-Keeps {P = IsRecorded id r} id).at w p;
          }))))))))

finish-IsRecorded :
    (ctx : ExecutionContext) (o : OperationRow) (given : ToolResult)
    → Hands
        (λ d. Unit)
        (λ r d. (r.status ≡ given.status) × IsRecorded o.id r d)
        (finish_operation ctx o given)
unfolding finish_operation
finish-IsRecorded ctx o given = Hands-after _ _ Keeps-utc_now (λ now.
    let r : ToolResult = record given { started_at = some o.created_at; completed_at = some now } in
    Hands-then (λ _. IsRecorded o.id r) _ _
      (Hands-transaction _ (
        Hands-then _ _ _ (read-Hands o.id) (λ x.
          Hands-then (λ _. IsRecorded o.id r) _ _ (write-Hands x o.id r (some ctx))
            (λ _. record { at = λ w a p h. (event-IsRecorded o.id r _ _ _).at w p }))))
      (λ _. Hands-pure r (λ d p. (refl, p))))

-- The outcome of a call whose run has ended with the result `given`.
abbrev Told : OperationRow → ToolResult → ToolOutcome → Database → Type 0
Told o given x d =
    (y : OperationRow) × (r : ToolResult) × (find_operation o.id d ≡ some y)
    × (y.state ≡ given.status)
    × (y.result ≡ some r)
    × (x ≡ (
        if is_unknown given.status
        then waiting InterruptKind.review none o.id
        else ToolOutcome.result r))

told :
    (o : OperationRow) (given r : ToolResult) (d : Database)
    → r.status ≡ given.status
    → IsRecorded o.id r d
    → Told o given
        (if is_unknown r.status
          then waiting InterruptKind.review none o.id
          else ToolOutcome.result r)
        d
told o given r d same_status (y, found, state, stored) =
    (y, r, found, state ∙ same_status, stored, rw same_status refl)

conclude-Told :
    (host : Host) (tools : ToolHost) (ctx : ExecutionContext) (o : OperationRow)
    (given : ToolResult)
    → Hands (λ d. Unit) (Told o given) (conclude host tools ctx o (ToolOutcome.result given))
unfolding conclude
conclude-Told host tools ctx o given = Hands-then _ _ _ (finish-IsRecorded ctx o given) (λ r.
    Hands-after _ _ (record { at = λ w p. (p.0, (settle-IsRecorded o.id r _ _).at w p.1) })
      (λ _. Hands-pure _ (λ d p. told o given r d p.0 p.1)))

-- What `conclude` reports is what the ledger holds: where the run of an executor has ended with a
-- result and `conclude` returns, the operation has the state of this result in the store. If that
-- is unknown, the answer is to wait for a review of the operation, and if it is not, the answer is
-- the result that is stored with it.
pub conclude_reports_ledger :
    (host : Host) (tools : ToolHost) (ctx : ExecutionContext) (o : OperationRow)
    (given : ToolResult) (w : World Database) (x : ToolOutcome)
    → (conclude host tools ctx o (ToolOutcome.result given) w).0 ≡ ok x
    → (y : OperationRow) × (r : ToolResult) × (find_operation o.id
          (conclude host tools ctx o (ToolOutcome.result given) w).1.db
        ≡ some y)
      × (y.state ≡ given.status)
      × (y.result ≡ some r)
      × (x ≡ (
          if is_unknown given.status
          then waiting InterruptKind.review none o.id
          else ToolOutcome.result r))
conclude_reports_ledger host tools ctx o given w x h =
    (conclude-Told host tools ctx o given).at w x tt h
