-- ===== src/Store/Interactions.antt =====
-- The interactions of harness/storage/store.py: questions to the user, one for a request key.
use mi_harness.Prelude.{
  has_some, ℕ, ◌+◌, String, Bool, true, false, not, ◌&&◌, Option, none, some, List, [], ◌∷◌, ◌++◌,
  leb, ◌==◌, same, same?, is_some, select, any, all, find_row, update_rows, order_by,
}
use mi_harness.Exec.{
  Code, pure, gets, transaction, modify, new_id, utc_now, ◌>>=◌, ◌>>◌, require, or_raise, not_found,
  revision_conflict, integrity, value_error,
}
use mi_harness.Core.{ExecutionContext, CheckpointRef}
use mi_harness.Store.Schema.{
  InteractionStatus, InteractionPayload, Resolution, InteractionRow, Database, Db,
}
use mi_harness.Store.Runs.{assert_fence}

abbrev pub interaction_code : InteractionStatus → ℕ
interaction_code InteractionStatus.pending_binding = 0
interaction_code InteractionStatus.opened = 1
interaction_code InteractionStatus.resolved = 2
interaction_code InteractionStatus.expired = 3
interaction_code InteractionStatus.cancelled = 4

-- The status is in {"pending_binding", "open"}.
abbrev pub is_pending : InteractionStatus → Bool
is_pending InteractionStatus.pending_binding = true
is_pending InteractionStatus.opened = true
is_pending _ = false

abbrev pub with_interaction_id : String → InteractionRow → Bool
with_interaction_id identity i = same i.id identity

abbrev pub find_interaction : String → Database → Option InteractionRow
find_interaction identity d = find_row (with_interaction_id identity) d.interactions

-- Store.interaction
unfoldable pub interaction : String → Db InteractionRow
interaction identity = do found ← gets (find_interaction identity); or_raise not_found found

abbrev with_request_key : String → String → InteractionRow → Bool
with_request_key run_id key i = same i.run_id run_id && same i.request_key key

new_interaction :
    ExecutionContext → String → String → InteractionPayload → Option ℕ → Db InteractionRow
new_interaction ctx key kind payload expires_at = do
  identity ← new_id
  now ← utc_now
  taken ← gets (λ d. is_some (find_interaction identity d))
  require (not taken) integrity
  modify (λ d. record d {
    interactions =
        d.interactions
        ++ record {
          id = identity;
          run_id = ctx.run_id;
          request_key = key;
          interrupt_id = none;
          checkpoint_ref = none;
          input_revision = ctx.input_revision;
          kind = kind;
          status = InteractionStatus.pending_binding;
          revision = 1;
          payload = payload;
          resolution = none;
          expires_at = expires_at;
          created_at = now;
        }
          ∷ [];
  })
  interaction identity

known_or_new :
    Option InteractionRow
    → ExecutionContext
    → String
    → String
    → InteractionPayload
    → Option ℕ
    → Db InteractionRow
known_or_new (some i) ctx key kind payload expires_at = pure i
known_or_new none ctx key kind payload expires_at = new_interaction ctx key kind payload expires_at

-- Store.prepare_interaction
unfoldable pub prepare_interaction :
    ExecutionContext → String → String → InteractionPayload → Option ℕ → Db InteractionRow
unfolding known_or_new new_interaction
prepare_interaction ctx key kind payload expires_at = transaction (do
  assert_fence ctx false
  found ← gets (λ d. find_row (with_request_key ctx.run_id key) d.interactions)
  known_or_new found ctx key kind payload expires_at)

-- Store.interactions
unfoldable pub interactions : String → Db (List InteractionRow)
interactions run_id = gets (λ d.
    order_by (λ (a b : InteractionRow). leb a.created_at b.created_at)
      (select (λ (i : InteractionRow). same i.run_id run_id) d.interactions))

-- The keys of a patch of `update_interaction`.
pub data InteractionField : Type 0 where
  interrupt_id : String → InteractionField
  checkpoint_ref : CheckpointRef → InteractionField
  status : InteractionStatus → InteractionField
  resolution : Resolution → InteractionField
  other : String → InteractionField

abbrev pub is_interaction_field : InteractionField → Bool
is_interaction_field (InteractionField.other k) = false
is_interaction_field _ = true

unfoldable pub set_interaction_field : InteractionField → InteractionRow → InteractionRow
set_interaction_field (InteractionField.interrupt_id k) i = record i { interrupt_id = some k }
set_interaction_field (InteractionField.checkpoint_ref c) i = record i { checkpoint_ref = some c }
set_interaction_field (InteractionField.status s) i = record i { status = s }
set_interaction_field (InteractionField.resolution r) i = record i { resolution = some r }
set_interaction_field (InteractionField.other k) i = i

unfoldable pub set_interaction_fields : List InteractionField → InteractionRow → InteractionRow
unfolding set_interaction_field
set_interaction_fields [] i = i
set_interaction_fields (f ∷ fs) i = set_interaction_fields fs (set_interaction_field f i)

abbrev pub interaction_at : String → ℕ → InteractionRow → Bool
interaction_at identity expected i = same i.id identity && i.revision == expected

abbrev pub touch_interaction : List InteractionField → InteractionRow → InteractionRow
touch_interaction patch i =
    let t = set_interaction_fields patch i in record t { revision = t.revision + 1 }

-- The unique triple (run, interrupt, input revision) of the table, where an interrupt is given.
abbrev clashes_with : InteractionRow → InteractionRow → Bool
clashes_with i x =
    not (same x.id i.id)
    && same x.run_id i.run_id
    && is_some x.interrupt_id
    && same? x.interrupt_id i.interrupt_id
    && x.input_revision == i.input_revision

abbrev keeps_unique : Option InteractionRow → List InteractionField → Database → Bool
keeps_unique none patch d = true
keeps_unique (some i) patch d =
    not (any (clashes_with (set_interaction_fields patch i)) d.interactions)

-- Store.update_interaction
unfoldable pub update_interaction : String → ℕ → List InteractionField → Db InteractionRow
update_interaction identity expected patch = do
  require (all is_interaction_field patch) value_error
  require (has_some patch) Code.other_error
  row ← gets (λ d. find_row (interaction_at identity expected) d.interactions)
  unique ← gets (keeps_unique row patch)
  require unique integrity
  modify (λ d. record d {
    interactions =
        update_rows (interaction_at identity expected) (touch_interaction patch) d.interactions;
  })
  require (is_some row) revision_conflict
  interaction identity
