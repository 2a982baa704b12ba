-- ===== src/Safety/PlanTools.antt =====
-- harness/runtime/modes.py in front of ToolGateway.execute: what a run in Plan mode cannot call.
use mi_harness.Prelude.{
  String, ◌≡◌, refl, subst, ◌≢◌, true, false, Option, some, List, arith, same_refl, find_row,
}
use mi_harness.Exec.{World, ◌>>=◌, ok}
use mi_harness.Tools.Modes.{is_read, mode_or_react, permitted, enforce}
use mi_harness.Exec.Reads.{
  ReadsFrom, ReadsFrom-then, ReadsFrom-require, ReadsFrom-Keeps, ReadsFrom-gets,
}
use mi_harness.Core.{ExecutionContext, OperationKey}
use mi_harness.Host.{Host}
use mi_harness.Policy.ReadOnly.{fence-Keeps}
use mi_harness.Policy.Engine.{as_snapshot, ToolSpec}
use mi_harness.Store.Schema.{Snapshot, Payload, Database, Db}
use mi_harness.Store.Records.{get}
use mi_harness.Store.Records.View.{view}
use mi_harness.Tools.Registry.{ToolArgs, Registered, with_tool_key}
use mi_harness.Tools.Gateway.{ToolHost, ToolOutcome}
use mi_harness.Tools.Execute.{execute}
use mi_harness.Safety.Replay.{version-Keeps, registered_reads}

get_reads :
    (d : Database) (n k : String)
    → ReadsFrom d (λ (found : Option Payload). view d n k ≡ found) (get n k)
unfolding get
get_reads d n k = ReadsFrom-gets d _

writer_denied :
    (snapshot : Option Snapshot) (spec : ToolSpec)
    → mode_or_react snapshot ≡ "plan"
    → is_read spec.effect ≡ false
    → permitted (mode_or_react snapshot) spec snapshot ≡ false
unfolding permitted
writer_denied snapshot spec plan writes = ground (arith, same_refl "plan")

enforce_denies :
    {B : Type 0} (d : Database) (snapshot : Option Snapshot) (spec : ToolSpec) (rest : Unit → Db B)
    → mode_or_react snapshot ≡ "plan"
    → is_read spec.effect ≡ false
    → ReadsFrom d (λ (_ : B). ⊥) (enforce snapshot spec >>= rest)
unfolding enforce
enforce_denies d snapshot spec rest plan writes =
    ReadsFrom-require d _ _ _
      (λ (allowed : permitted (mode_or_react snapshot) spec snapshot ≡ true).
        let denied = writer_denied snapshot spec plan writes in
        let absurd : ⊥ = ground arith in elim absurd [ ])

-- A run in Plan mode calls no tool that does more than read: where the snapshot of the run says
-- "plan" and no tool of the name in the registry has the effect "read", `execute` returns nothing
-- and leaves the database as it is.
pub plan_mode_calls_no_writer :
    (host : Host) (tools : ToolHost) (registry : List Registered) (ctx : ExecutionContext)
    (key : OperationKey) (name : String) (args : ToolArgs) (w : World Database)
    → mode_or_react (as_snapshot (view w.db "snapshots" ctx.config_snapshot_id)) ≡ "plan"
    → ((version : String) (t : Registered)
        → find_row (with_tool_key name version) registry ≡ some t
        → is_read t.spec.effect ≡ false)
    → ((execute host tools registry ctx key name args w).1.db ≡ w.db)
      × ((x : ToolOutcome) → (execute host tools registry ctx key name args w).0 ≢ ok x)
unfolding execute
plan_mode_calls_no_writer host tools registry ctx key name args w plan writes =
    let d = w.db in
    (ReadsFrom-require d _ _ _ (λ _.
        ReadsFrom-then d _ _ _ (ReadsFrom-Keeps d _ (fence-Keeps ctx false)) (λ _ _.
          ReadsFrom-then d _ _ _ (ReadsFrom-Keeps d _ (version-Keeps ctx name)) (λ v _.
            ReadsFrom-then d _ _ _ (registered_reads d name v registry) (λ tool known.
              ReadsFrom-then d _ _ _ (get_reads d "snapshots" ctx.config_snapshot_id)
                (λ saved found.
                  enforce_denies d (as_snapshot saved) tool.spec _
                    (subst (λ (f : Option Payload). mode_or_react (as_snapshot f) ≡ "plan") found
                      plan)
                    (writes v tool known))))))).at
      w refl
