-- ===== src/Safety/Replay.antt =====
-- A second call of ToolGateway.execute, of harness/tools/gateway.py, for an operation that has ended.
use mi_harness.Policy.ReadOnly.{fence-Keeps, get-Keeps}
use mi_harness.Exec.Reads.{
  ReadsFrom, ReadsFrom-then, ReadsFrom-require, ReadsFrom-Keeps, ReadsFrom-gets, ReadsFrom-pure,
  ReadsFrom-if, ReadsFrom-or_raise,
}
use mi_harness.Prelude.{
  String, ◌≡◌, refl, subst, ◌⊎◌, inl, inr, true, false, not, ◌&&◌, Option, none, some, List, arith,
  same, same→eq, find_row, find_row_sound,
}
use mi_harness.Store.Operations.{with_operation_key, operation_by_key}
use mi_harness.Tools.Registry.{ToolArgs, Registered, with_tool_key, registered}
use mi_harness.Exec.{World, ok}
use mi_harness.Exec.Keeps.{Keeps, keeps_rules}
use mi_harness.Core.{ExecutionContext, OperationKey}
use mi_harness.Host.{Host}
use mi_harness.Policy.Engine.{as_snapshot, ToolSpec}
use mi_harness.Store.Schema.{Snapshot, OperationState, ToolResult, OperationRow, Database}
use mi_harness.Tools.Modes.{enforce}
use mi_harness.Tools.Gateway.{ToolHost, ToolOutcome, plain_result, version_of}
use mi_harness.Tools.Execute.{is_same_call, saved_result, again_or_begin, revisit, execute}

module _ {P : Database → Type 0} where
  pub version-Keeps : (ctx : ExecutionContext) (name : String) → Keeps P (version_of ctx name)
  unfolding version_of
  version-Keeps ctx name = search (keeps_rules, get-Keeps) depth 14

  enforce-Keeps : (s : Option Snapshot) (spec : ToolSpec) → Keeps P (enforce s spec)
  unfolding enforce
  enforce-Keeps s spec = search keeps_rules depth 14

-- The registry gives a tool of the name that was asked for.
pub registered_reads :
    (d : Database) (name version : String) (items : List Registered)
    → ReadsFrom d
        (λ (t : Registered). find_row (with_tool_key name version) items ≡ some t)
        (registered name version items)
unfolding registered
registered_reads d name version items = ReadsFrom-or_raise d _ _

-- The call with arguments that the schema refuses.
abbrev pub refused_arguments : ToolOutcome
refused_arguments =
    ToolOutcome.result
      (plain_result "" OperationState.failed "工具参数不符合 schema" (some "TOOL_ARGUMENTS"))

module _ (host : Host) (tools : ToolHost) (registry : List Registered) (ctx : ExecutionContext)
    (key : OperationKey) (name : String) (args : ToolArgs) where
  abbrev pub Answers : ToolResult → ToolOutcome → Type 0
  Answers r x = (x ≡ ToolOutcome.result r) ⊎ (x ≡ refused_arguments)

  again_finished :
      (d : Database) (tool : Registered) (o : OperationRow) (r : ToolResult)
      (saved : Option ToolResult)
      → saved ≡ some r
      → ReadsFrom d (Answers r) (again_or_begin host tools ctx key tool args o saved)
  unfolding again_or_begin
  again_finished d tool o r (some x) same_result =
      ReadsFrom-pure d (ToolOutcome.result x) (inl (ground arith))
  again_finished d tool o r none same_result = let absurd : ⊥ = ground arith in elim absurd [ ]

  revisit_finished :
      (d : Database) (tool : Registered) (o : OperationRow) (r : ToolResult)
      → saved_result o ≡ some r
      → ReadsFrom d (Answers r) (revisit host tools ctx key tool args (some o))
  unfolding revisit
  revisit_finished d tool o r saved =
      ReadsFrom-require d _ _ _ (λ _. again_finished d tool o r (saved_result o) saved)

  named :
      (tool : Registered) (version : String)
      → with_tool_key name version tool ≡ true
      → same tool.spec.id name ≡ true
  named tool version h = ground arith

  revisit_other :
      (d : Database) (tool : Registered) (o : OperationRow)
      → is_same_call (tools.args_digest args.json) tool.spec.id tool.spec.version o ≡ false
      → ReadsFrom d (λ x. x ≡ refused_arguments) (revisit host tools ctx key tool args (some o))
  unfolding revisit
  revisit_other d tool o other =
      ReadsFrom-require d _ _ _ (λ same_call. let absurd : ⊥ = ground arith in elim absurd [ ])

  -- The checks before the lookup of the operation only read.
  execute_reads :
      (d : Database) (Q : ToolOutcome → Type 0)
      → Q refused_arguments
      → ((tool : Registered)
          → same tool.spec.id name ≡ true
          → ReadsFrom d Q (
              revisit host tools ctx key tool args (
                find_row
                  (with_operation_key ctx.run_id key.message_id key.tool_call_id)
                  d.tool_executions)))
      → ReadsFrom d Q (execute host tools registry ctx key name args)
  unfolding execute operation_by_key
  execute_reads d Q refused k = ReadsFrom-require d _ _ _ (λ _.
      ReadsFrom-then d _ _ _ (ReadsFrom-Keeps d _ (fence-Keeps ctx false)) (λ _ _.
        ReadsFrom-then d _ _ _ (ReadsFrom-Keeps d _ (version-Keeps ctx name)) (λ v _.
          ReadsFrom-then d _ _ _ (registered_reads d name v registry) (λ tool known.
            ReadsFrom-then d _ _ _
              (ReadsFrom-Keeps d _ (get-Keeps "snapshots" ctx.config_snapshot_id))
              (λ snapshot _.
                ReadsFrom-then d _ _ _
                  (ReadsFrom-Keeps d _ (enforce-Keeps (as_snapshot snapshot) tool.spec))
                  (λ _ _.
                    ReadsFrom-if d (not (tools.accepts_input tool.spec args.json)) _ _
                      (ReadsFrom-pure d _ refused)
                      (ReadsFrom-then d _ _ _ (ReadsFrom-gets d _) (λ existing same_row.
                        subst
                          (λ (e : Option OperationRow).
                            ReadsFrom d Q (revisit host tools ctx key tool args e))
                          same_row
                          (k tool (
                            named tool v
                              (find_row_sound (with_tool_key name v) registry tool known)))))))))))

  -- A call of an operation that has ended with a result runs no executor and changes nothing: where
  -- the ledger holds, for the run, message and tool call of the key, an operation that has
  -- succeeded, failed or been cancelled with the result `r`, `execute` leaves the database as it
  -- is, and what it returns is `r` itself, or the refusal of arguments that the schema of the tool
  -- does not accept.
  pub finished_call-Answers :
      (w : World Database) (o : OperationRow) (r : ToolResult)
      → find_row
          (with_operation_key ctx.run_id key.message_id key.tool_call_id)
          w.db.tool_executions
        ≡ some o
      → saved_result o ≡ some r
      → ((execute host tools registry ctx key name args w).1.db ≡ w.db)
        × ((x : ToolOutcome)
            → (execute host tools registry ctx key name args w).0 ≡ ok x
            → Answers r x)
  finished_call-Answers w o r found saved =
      (execute_reads w.db (Answers r) (inr refl)
          (λ tool _. rw found (revisit_finished w.db tool o r saved))).at
        w refl

  -- A call that reuses the run, message and tool call of another operation changes nothing: where
  -- the ledger holds an operation under the key of the call with other arguments or for another
  -- tool, `execute` leaves the database as it is and returns nothing but the refusal of arguments
  -- that the schema does not accept.
  pub conflicting_call_refused :
      (w : World Database) (o : OperationRow)
      → find_row
          (with_operation_key ctx.run_id key.message_id key.tool_call_id)
          w.db.tool_executions
        ≡ some o
      → (same o.args_hash (tools.args_digest args.json) && same o.tool_id name) ≡ false
      → ((execute host tools registry ctx key name args w).1.db ≡ w.db)
        × ((x : ToolOutcome)
            → (execute host tools registry ctx key name args w).0 ≡ ok x
            → x ≡ refused_arguments)
  conflicting_call_refused w o found other =
      (execute_reads w.db (λ x. x ≡ refused_arguments) refl
          (λ tool of_name.
            rw found (revisit_other w.db tool o (ground (arith, same→eq tool.spec.id name))))).at
        w refl
