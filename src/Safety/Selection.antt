-- ===== src/Safety/Selection.antt =====
-- The model of a logical call, in harness/runtime/model_selection.py.
use mi_harness.Prelude.{
  String, ◌≡◌, refl, sym, ap, subst, ◌∙◌, false, not, ◌&&◌, ◌==◌, Option, none, some, same,
  find_row,
}
use mi_harness.Exec.{World, ok}
use mi_harness.Exec.Keeps.{Keeps, keeps_rules, Keeps-utc_now, Keeps-pure}
use mi_harness.Exec.Leaves.{
  Leaves, Leaves-then, Leaves-after, Leaves-transaction, Leaves-pure, Leaves-if, Leaves-gets,
}
use mi_harness.Exec.Reads.{
  ReadsFrom, ReadsFrom-then, ReadsFrom-Keeps, ReadsFrom-gets, ReadsFrom-pure, ReadsFrom-transaction,
}
use mi_harness.Core.{ExecutionContext}
use mi_harness.Store.Schema.{ModelControl, ModelCommand, CallBinding, Payload, RunRow, Database}
use mi_harness.Store.Records.{at_key, payload_of, get}
use mi_harness.Store.Records.View.{view}
use mi_harness.Store.Records.Kept.{put-Keeps, event-Keeps}
use mi_harness.Store.Runs.{run}
use mi_harness.Policy.ReadOnly.{fence-Keeps, get-Keeps}
use mi_harness.Safety.Versions.{compare_and_set_returns}
use mi_harness.Model.Selection.{
  as_binding, saved_or_initial, control, change_command, Candidate, bound_candidate, candidate,
  apply_candidate, bound_or_apply, bind,
}

module _ {P : Database → Type 0} where
  initial-Keeps : (r : RunRow) (found : Option ModelControl) → Keeps P (saved_or_initial r found)
  unfolding saved_or_initial
  initial-Keeps r (some saved) = Keeps-pure saved
  initial-Keeps r none = search (keeps_rules, get-Keeps) depth 14

  control-Keeps : (run_id : String) → Keeps P (control run_id)
  unfolding control run
  control-Keeps run_id = search (keeps_rules, get-Keeps, initial-Keeps) depth 14

commands_apart :
    (key id : String) → (same "run_model_commands" "model_call_bindings" && same key id) ≡ false
unfolding same
commands_apart key id = refl

controls_apart :
    (key id : String) → (same "run_model_controls" "model_call_bindings" && same key id) ≡ false
unfolding same
controls_apart key id = refl

module _ (id : String) (b : CallBinding) where
  -- The call is bound.
  abbrev pub IsBound : Database → Type 0
  IsBound d = view d "model_call_bindings" id ≡ some (Payload.call_binding b)

  command-Keeps :
      (named : Option String) (change : ModelCommand → ModelCommand)
      → Keeps IsBound (change_command named change)
  unfolding change_command
  command-Keeps none change = Keeps-pure tt
  command-Keeps (some key) change =
      search
        (
          keeps_rules,
          get-Keeps,
          λ (v : Payload).
              put-Keeps "model_call_bindings" id (some (Payload.call_binding b))
                "run_model_commands" key v (commands_apart key id),
        )
        depth 14

  -- Every further `bind` of a bound call, and every further candidate, is what it was bound to.
  bind-IsBound :
      (d : Database) (ctx : ExecutionContext) (c : Candidate) (view_id : String)
      → c.logical_call_id ≡ id
      → IsBound d
      → ReadsFrom d (λ found. found ≡ some b) (bind ctx c view_id)
  unfolding bind bound_or_apply get
  bind-IsBound d ctx c view_id same_call bound = ReadsFrom-transaction d _ (
      ReadsFrom-then d (λ _. Unit) _ _ (ReadsFrom-Keeps d _ (fence-Keeps ctx false))
        (λ _ _.
          ReadsFrom-then d (λ saved. view d "model_call_bindings" c.logical_call_id ≡ saved) _ _
            (ReadsFrom-gets d _)
            (λ saved shown.
              let found : saved ≡ some (Payload.call_binding b) =
                sym shown ∙ ap (view d "model_call_bindings") same_call ∙ bound in
              rw found (ReadsFrom-pure d (some b) refl))))

  candidate-IsBound :
      (d : Database) (ctx : ExecutionContext)
      → IsBound d
      → ReadsFrom d (λ c. c ≡ bound_candidate b) (candidate ctx id)
  unfolding candidate get
  candidate-IsBound d ctx bound =
      ReadsFrom-then d (λ _. Unit) _ _ (ReadsFrom-Keeps d _ (fence-Keeps ctx false))
        (λ _ _.
          ReadsFrom-then d (λ saved. view d "model_call_bindings" id ≡ saved) _ _
            (ReadsFrom-gets d _)
            (λ saved shown.
              ReadsFrom-then d (λ _. Unit) _ _ (ReadsFrom-Keeps d _ (control-Keeps ctx.run_id))
                (λ _ _.
                  let found : saved ≡ some (Payload.call_binding b) = sym shown ∙ bound in
                  rw found (ReadsFrom-pure d (bound_candidate b) refl))))

-- What `bind` returns stands in the table.
abbrev Stands : String → CallBinding → Database → Type 0
Stands id b d = IsBound id b d

apply-Stands :
    (ctx : ExecutionContext) (c : Candidate) (view_id : String) (current : ModelControl)
    → Leaves (λ _. Unit) (IsBound c.logical_call_id) (apply_candidate ctx c view_id current)
unfolding apply_candidate
apply-Stands ctx c view_id current = Leaves-after _ _ Keeps-utc_now (λ now.
    let b : CallBinding = record {
      logical_call_id = c.logical_call_id;
      run_id = c.run_id;
      control_revision = c.control_revision;
      profile_ref = c.profile_ref;
      input_view_id = view_id;
      fencing_token = ctx.fencing_token;
      bound_at = now;
    } in
    Leaves-then (λ _. IsBound c.logical_call_id b) _ _
      (record { at = λ w v _ returned. (compare_and_set_returns _ _ _ _ v w returned).1 })
      (λ _.
        Leaves-after _ _
          (put-Keeps "model_call_bindings" c.logical_call_id _ _ _ _
            (controls_apart ctx.run_id c.logical_call_id))
          (λ _. Leaves-after _ _ (command-Keeps c.logical_call_id b _ _) (λ _.
            Leaves-after _ _
              (event-Keeps
                (λ rows.
                  payload_of (find_row (at_key "model_call_bindings" c.logical_call_id) rows)
                  ≡ some (Payload.call_binding b))
                _ _ _)
              (λ _. Leaves-pure b (λ d bound. bound))))))

get_binding : CallBinding → Option CallBinding → CallBinding
get_binding b none = b
get_binding b (some x) = x

as_binding_sound :
    (found : Option Payload) (b : CallBinding)
    → as_binding found ≡ some b
    → found ≡ some (Payload.call_binding b)
as_binding_sound (some (Payload.call_binding x)) b h = cc
as_binding_sound _ b h = cc

bound_or_apply-Stands :
    (found : Option CallBinding) (ctx : ExecutionContext) (c : Candidate) (view_id : String)
    → Leaves
        (λ d. as_binding (view d "model_call_bindings" c.logical_call_id) ≡ found)
        (λ result d. (b : CallBinding) → result ≡ some b → IsBound c.logical_call_id b d)
        (bound_or_apply found ctx c view_id)
unfolding bound_or_apply get_binding
bound_or_apply-Stands (some b) ctx c view_id = Leaves-pure (some b) (λ d shown x one.
    as_binding_sound (view d "model_call_bindings" c.logical_call_id) x (shown ∙ one))
bound_or_apply-Stands none ctx c view_id = Leaves-after _ _ (control-Keeps ctx.run_id) (λ current.
    Leaves-if (not (c.control_revision == current.control_revision)) _ _
      (λ stale. Leaves-pure none (λ d shown x absurd. cc))
      (λ current_choice.
        Leaves-then (λ b d. IsBound c.logical_call_id b d) _ _
          (record { at = λ w a _ e. (apply-Stands ctx c view_id current).at w a tt e })
          (λ b. Leaves-pure (some b) (λ d bound x one.
            subst (λ y. IsBound c.logical_call_id y d) (ap (get_binding b) one) bound))))

bind-Stands :
    (ctx : ExecutionContext) (c : Candidate) (view_id : String)
    → Leaves
        (λ _. Unit)
        (λ result d. (b : CallBinding) → result ≡ some b → IsBound c.logical_call_id b d)
        (bind ctx c view_id)
unfolding bind get
bind-Stands ctx c view_id = Leaves-transaction _ (
    Leaves-after _ _ (fence-Keeps ctx false) (λ _.
      Leaves-then (λ saved d. Unit × (view d "model_call_bindings" c.logical_call_id ≡ saved)) _ _
        (Leaves-gets _)
        (λ saved. record {
          at = λ w a shown e.
              (bound_or_apply-Stands (as_binding saved) ctx c view_id).at w a
                (ap as_binding shown.1) e;
        })))

-- A logical call keeps its model: after a `bind` that has returned a binding, and as long as its row
-- stands, every `bind` and every `candidate` of the same call that returns gives this binding again,
-- whatever has been selected meanwhile and whatever the candidate says, and changes nothing.
pub call_keeps_model :
    (ctx : ExecutionContext) (c : Candidate) (view_id : String) (w : World Database)
    (b : CallBinding)
    → (bind ctx c view_id w).0 ≡ ok (some b)
    → (later : Database) → IsBound c.logical_call_id b later
    → (holder : ExecutionContext) (other : Candidate) (view_id' : String)
    → other.logical_call_id ≡ c.logical_call_id
    → IsBound c.logical_call_id b (bind ctx c view_id w).1.db
      × ReadsFrom later (λ found. found ≡ some b) (bind holder other view_id')
      × ReadsFrom later (λ found. found ≡ bound_candidate b) (candidate holder c.logical_call_id)
call_keeps_model ctx c view_id w b returned later bound holder other view_id' same_call = (
  (bind-Stands ctx c view_id).at w (some b) tt returned b refl,
  bind-IsBound c.logical_call_id b later holder other view_id' same_call bound,
  candidate-IsBound c.logical_call_id b later holder bound,
)
