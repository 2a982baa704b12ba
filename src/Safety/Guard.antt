-- ===== src/Safety/Guard.antt =====
-- Which operations ToolGateway.execute of harness/tools/gateway.py hands to an executor, seen by a
-- guard around each callable of the registry.
use mi_harness.Prelude.{
  ℕ, String, ◌≡◌, refl, ap, ◌∙◌, inl, inr, Bool, true, false, not, ◌&&◌, ◌||◌, Option, none, some,
  List, [], ◌∷◌, map, arith, if◌then◌else◌, same, Bool-cases, find_row,
}
use mi_harness.Exec.{
  Result, World, pure, continue, ◌>>=◌, ◌>>◌, require, or_raise, rescue, ok, err, tool_unavailable,
  other_error,
}
use mi_harness.Safety.Execution.{IsRunning, start-Returns}
use mi_harness.Tools.Execute.{
  is_in_progress, saved_result, is_special, run_locked, conclude_special, run_special, go_on,
  permit, begin, continue_operation, again_or_begin, revisit, execute,
}
use mi_harness.Tools.Gateway.{ToolHost, ToolOutcome, is_deny, finish_failed}
use mi_harness.Tools.Registry.{ToolArgs, Executed, Call, Registered, with_tool_key, registered}
use mi_harness.Host.{Host}
use mi_harness.Core.{ExecutionContext, OperationKey, ApprovalBinding}
use mi_harness.Tools.Attempt.{
  awaits_input, returned, failed_run, run_executor, conclude, uncertain, resumed, resume_protocol,
}
use mi_harness.Tools.Approval.{Verdict}
use mi_harness.Policy.Engine.{Decision, ToolSpec}
use mathlib.Core.Option
use mathlib.Core.Path.{fun_ext}
use mi_harness.Exec.Returns.{Returns}
use mi_harness.Store.Schema.{OperationState, ToolResult, OperationRow, Database, Db}
use mi_harness.Store.Operations.{same_state}

abbrev pub only_running : Bool → Call → Call
only_running exempt call ctx o args = do
  require (exempt || same_state o.state OperationState.running) other_error
  call ctx o args

-- The tool with callables that raise unless the operation is running.
abbrev pub guarded : Registered → Registered
guarded t = record {
  spec = t.spec;
  executor = record {
    call = only_running (is_special t.spec.id) t.executor.call;
    resume_continuation = Option.map (only_running false) t.executor.resume_continuation;
  };
}

module _ {A B : Type 0} where
  same_rest : (m : Db A) (f g : A → Db B) → ((a : A) → f a ≡ g a) → (m >>= f) ≡ (m >>= g)
  same_rest m f g h = ap (λ (k : A → Db B). m >>= k) (fun_ext h)

  continue_same :
      (R : A → Type 0) (r : Result A) (w : World Database) (f g : A → Db B)
      → ((a : A) → R a → f a ≡ g a)
      → ((a : A) → r ≡ ok a → R a)
      → continue r f w ≡ continue r g w
  continue_same R (ok a) w f g h k = ap (λ (m : Db B). m w) (h a (k a refl))
  continue_same R (err c) w f g h k = refl

  same_rest_after :
      (R : A → Type 0) (m : Db A) (f g : A → Db B)
      → Returns R m
      → ((a : A) → R a → f a ≡ g a)
      → (m >>= f) ≡ (m >>= g)
  unfolding ◌>>=◌
  same_rest_after R m f g k h =
      fun_ext (λ w. continue_same R (m w).0 (m w).1 f g h (λ a e. k.at w a e))

same_choice :
    {A : Type 0} (b : Bool) (m m' n n' : Db A)
    → (b ≡ true → m ≡ m')
    → (b ≡ false → n ≡ n')
    → (if b then m else n) ≡ (if b then m' else n')
same_choice true m m' n n' h k = h refl
same_choice false m m' n n' h k = k refl

passes :
    (exempt : Bool) (call : Call) (ctx : ExecutionContext) (o : OperationRow) (args : ToolArgs)
    → (exempt || same_state o.state OperationState.running) ≡ true
    → only_running exempt call ctx o args ≡ call ctx o args
unfolding ◌>>=◌ require
passes exempt call ctx o args h = rw h

module _ (host : Host) (tools : ToolHost) (ctx : ExecutionContext) (args : ToolArgs) where
  run_executor-guarded :
      (o : OperationRow) (t : Registered)
      → is_special t.spec.id ≡ false
      → IsRunning o
      → run_executor host tools ctx o t.spec (guarded t).executor args
        ≡ run_executor host tools ctx o t.spec t.executor args
  unfolding run_executor
  run_executor-guarded o t ordinary running =
      ap
        (λ (m : Db Executed).
          rescue (m >>= returned host tools t.spec o) (failed_run host tools t.spec o))
        (passes (is_special t.spec.id) t.executor.call ctx o args (rw (ordinary, running)))

  run_locked-guarded :
      (o : OperationRow) (t : Registered) (b : ApprovalBinding) (f : String)
      → is_special t.spec.id ≡ false
      → run_locked host tools ctx o (guarded t) args b f ≡ run_locked host tools ctx o t args b f
  unfolding run_locked
  run_locked-guarded o t b f ordinary = same_rest _ _ _ (λ verdict. same_rest _ _ _ (λ changed.
      ap
        (λ (m : Db ToolOutcome).
          if changed then finish_failed host tools ctx o "执行前权限或资源复验失败" "BINDING_CHANGED" else m)
        (same_rest_after IsRunning _ _ _ (start-Returns host tools ctx o b verdict.1 args)
          (λ started running.
            ap (λ (m : Db ToolOutcome). m >>= conclude host tools ctx started)
              (run_executor-guarded started t ordinary running)))))

  run_special-guarded :
      (o : OperationRow) (t : Registered)
      → is_special t.spec.id ≡ true
      → run_special host tools ctx o (guarded t) args ≡ run_special host tools ctx o t args
  unfolding run_special
  run_special-guarded o t special = same_rest _ _ _ (λ _.
      ap (λ (m : Db Executed). m >>= conclude_special host tools ctx o)
        (passes (is_special t.spec.id) t.executor.call ctx o args (rw special)))

  go_on-guarded :
      (o : OperationRow) (t : Registered) (f : String) (v : Verdict)
      → go_on host tools ctx o (guarded t) args f v ≡ go_on host tools ctx o t args f v
  unfolding go_on
  go_on-guarded o t f (Verdict.stop r) = refl
  go_on-guarded o t f (Verdict.proceed b) =
      same_choice (is_special t.spec.id) _ _ _ _ (λ special. run_special-guarded o t special)
        (λ ordinary.
          same_rest _ _ _ (λ k. same_rest _ _ _ (λ _. run_locked-guarded o t b f ordinary)))

  permit-guarded :
      (o : OperationRow) (t : Registered) (f : String) (d : Decision) (p : ℕ)
      → permit host tools ctx o (guarded t) args f d p ≡ permit host tools ctx o t args f d p
  unfolding permit
  permit-guarded o t f d p =
      same_rest _ _ _
        (λ listed. same_rest _ _ _ (λ expires_at. same_rest _ _ _ (λ v. go_on-guarded o t f v)))

  begin-guarded :
      (key : OperationKey) (t : Registered)
      → begin host tools ctx key (guarded t) args ≡ begin host tools ctx key t args
  unfolding begin
  begin-guarded key t = same_rest _ _ _ (λ f. same_rest _ _ _ (λ o. same_rest _ _ _ (λ verdict.
      same_choice (is_deny verdict.0) _ _ _ _ (λ _. refl)
        (λ _.
          same_choice (not (same f o.resource_fingerprint)) _ _ _ _ (λ _. refl)
            (λ _. permit-guarded o t f verdict.0 verdict.1)))))

  resume_guarded :
      (o : OperationRow) (spec : ToolSpec) (continuation : Call)
      → IsRunning o
      → resume_protocol host tools ctx o spec (only_running false continuation) args
        ≡ resume_protocol host tools ctx o spec continuation args
  unfolding resume_protocol
  resume_guarded o spec continuation running =
      ap
        (λ (m : Db ToolOutcome).
          rescue m (λ c. pure (uncertain host tools o c)) >>= conclude host tools ctx o)
        (same_rest _ _ _ (λ _. same_rest _ _ _ (λ _.
          ap (λ (m : Db Executed). m >>= resumed host tools spec o)
            (passes false continuation ctx o args running))))

  continue_guarded :
      (o : OperationRow) (t : Registered) (c : Option Call)
      → continue_operation host tools ctx o (guarded t) args (Option.map (only_running false) c)
        ≡ continue_operation host tools ctx o t args c
  unfolding continue_operation
  continue_guarded o t none = refl
  continue_guarded o t (some c) =
      same_choice
        (same_state o.state OperationState.running && awaits_input o.metadata.protocol_continuation)
        _ _ _ _ (λ both. resume_guarded o t.spec c (ground arith)) (λ _. refl)

  again_guarded :
      (key : OperationKey) (t : Registered) (o : OperationRow) (r : Option ToolResult)
      → again_or_begin host tools ctx key (guarded t) args o r
        ≡ again_or_begin host tools ctx key t args o r
  unfolding again_or_begin
  again_guarded key t o (some r) = refl
  again_guarded key t o none =
      same_choice (is_in_progress o.state) _ _ _ _
        (λ _. continue_guarded o t t.executor.resume_continuation) (λ _. begin-guarded key t)

  revisit-guarded :
      (key : OperationKey) (t : Registered) (o : Option OperationRow)
      → revisit host tools ctx key (guarded t) args o ≡ revisit host tools ctx key t args o
  unfolding revisit
  revisit-guarded key t none = begin-guarded key t
  revisit-guarded key t (some o) = same_rest _ _ _ (λ _. again_guarded key t o (saved_result o))

find_guarded :
    (name version : String) (registry : List Registered)
    → find_row (with_tool_key name version) (map guarded registry)
      ≡ Option.map guarded (find_row (with_tool_key name version) registry)
unfolding find_row
find_guarded name version [] = refl
find_guarded name version (t ∷ ts) = elim (Bool-cases (with_tool_key name version t)) [
  | inl here ↦ rw here
  | inr elsewhere ↦ rw elsewhere (find_guarded name version ts)
]

found_guarded :
    {A : Type 0} (found : Option Registered) (f : Registered → Db A)
    → ((t : Registered) → f (guarded t) ≡ f t)
    → (or_raise tool_unavailable (Option.map guarded found) >>= f)
      ≡ (or_raise tool_unavailable found >>= f)
unfolding ◌>>=◌ or_raise
found_guarded none f h = refl
found_guarded (some t) f h = h t

lookup_guarded :
    {A : Type 0} (name version : String) (registry : List Registered) (f : Registered → Db A)
    → ((t : Registered) → f (guarded t) ≡ f t)
    → (registered name version (map guarded registry) >>= f)
      ≡ (registered name version registry >>= f)
unfolding registered
lookup_guarded name version registry f h =
    ap (λ (found : Option Registered). or_raise tool_unavailable found >>= f)
      (find_guarded name version registry)
    ∙ found_guarded (find_row (with_tool_key name version) registry) f h

-- An executor is called only for an operation that is running: a registry whose callables raise
-- unless the operation that they are given is running answers every call of `execute` exactly as
-- the registry itself does, in every state. The callables of `request_input` and
-- `wait_children`, which run under no grant, are left as they are; the guard stands around every
-- `resume_continuation` too.
pub executors_run_started_operations :
    (host : Host) (tools : ToolHost) (registry : List Registered) (ctx : ExecutionContext)
    (key : OperationKey) (name : String) (args : ToolArgs) (w : World Database)
    → execute host tools (map guarded registry) ctx key name args w
      ≡ execute host tools registry ctx key name args w
unfolding execute
executors_run_started_operations host tools registry ctx key name args w =
    ap (λ (m : Db ToolOutcome). m w)
      (same_rest _ _ _ (λ _. same_rest _ _ _ (λ _. same_rest _ _ _ (λ version.
        lookup_guarded name version registry _ (λ t. same_rest _ _ _ (λ saved. same_rest _ _ _ (λ _.
          same_choice (not (tools.accepts_input t.spec args.json)) _ _ _ _ (λ _. refl)
            (λ _.
              same_rest _ _ _
                (λ existing. revisit-guarded host tools ctx args key t existing)))))))))
