-- ===== src/Store/Waits.antt =====
-- Delegations and the waits of a parent run for its children in harness/storage/store.py.
use mi_harness.Prelude.{
  ℕ, ◌+◌, String, Bool, not, ◌&&◌, ◌||◌, Option, none, some, List, [], ◌∷◌, ◌++◌, map, ◌==◌, same,
  is_some, select, any, find_row, update_rows,
}
use mi_harness.Exec.{
  pure, gets, transaction, modify, new_id, ◌>>=◌, ◌>>◌, require, or_raise, not_found,
  revision_conflict, integrity,
}
use mi_harness.Core.{CheckpointRef}
use mi_harness.Store.Schema.{RunRow, Resolution, DependencyRow, WaitMode, WaitRow, Database, Db}
use mi_harness.Store.Runs.{find_run, owned_by, run}

-- Store.dependency
unfoldable pub dependency : String → Db (Option DependencyRow)
dependency key =
    gets (λ d. find_row (λ (x : DependencyRow). same x.delegation_key key) d.run_dependencies)

abbrev dependency_clashes : String → String → String → DependencyRow → Bool
dependency_clashes parent child key x =
    same x.delegation_key key || same x.parent_id parent && same x.child_id child

-- Store.add_dependency
unfoldable pub add_dependency : String → String → String → String → Db Unit
add_dependency parent child key args_hash = do
  taken ← gets (λ d. any (dependency_clashes parent child key) d.run_dependencies)
  known ← gets (λ d. is_some (find_run parent d) && is_some (find_run child d))
  require (not taken && known) integrity
  modify (λ d. record d {
    run_dependencies =
        d.run_dependencies
        ++ record {
          parent_id = parent;
          child_id = child;
          delegation_key = key;
          args_hash = args_hash;
        }
          ∷ [];
  })

-- The runs of a list of identifiers; a missing one raises.
unfoldable pub runs_of : List String → Db (List RunRow)
runs_of [] = pure []
runs_of (k ∷ ks) = let rest = runs_of ks in do r ← run k none; rs ← rest; pure (r ∷ rs)

abbrev pub child_ids_of : String → Database → List String
child_ids_of parent d =
    map (λ (x : DependencyRow). x.child_id)
      (select (λ (x : DependencyRow). same x.parent_id parent) d.run_dependencies)

-- Store.children
unfoldable pub children : String → Db (List RunRow)
unfolding runs_of
children parent = do ids ← gets (child_ids_of parent); runs_of ids

abbrev pub with_wait_id : String → WaitRow → Bool
with_wait_id identity w = same w.id identity

-- Store.wait
unfoldable pub wait : String → Db WaitRow
wait identity = do
  found ← gets (λ d. find_row (with_wait_id identity) d.run_waits)
  or_raise not_found found

new_wait : String → String → List String → WaitMode → Db WaitRow
new_wait parent key child_ids mode = do
  identity ← new_id
  taken ← gets (λ d. any (with_wait_id identity) d.run_waits)
  known ← gets (λ d. is_some (find_run parent d))
  require (not taken && known) integrity
  modify (λ d. record d {
    run_waits =
        d.run_waits
        ++ record {
          id = identity;
          parent_id = parent;
          request_key = key;
          child_ids = child_ids;
          mode = mode;
          interrupt_id = none;
          checkpoint_ref = none;
          resolution = none;
          revision = 1;
        }
          ∷ [];
  })
  wait identity

known_or_new_wait : Option WaitRow → String → String → List String → WaitMode → Db WaitRow
known_or_new_wait (some w) parent key child_ids mode = pure w
known_or_new_wait none parent key child_ids mode = new_wait parent key child_ids mode

-- Store.add_wait
unfoldable pub add_wait : String → String → List String → WaitMode → Db WaitRow
unfolding known_or_new_wait new_wait
add_wait parent key child_ids mode = transaction (do
  found ← gets (λ d.
      find_row (λ (w : WaitRow). same w.parent_id parent && same w.request_key key) d.run_waits)
  known_or_new_wait found parent key child_ids mode)

-- Store.waits
unfoldable pub waits : Option String → Db (List WaitRow)
waits parent = gets (λ d. select (λ (w : WaitRow). owned_by parent w.parent_id) d.run_waits)

abbrev wait_at : String → ℕ → WaitRow → Bool
wait_at identity expected w = same w.id identity && w.revision == expected

-- Store.update_wait
unfoldable pub update_wait :
    String → ℕ → Option String → Option CheckpointRef → Option Resolution → Db Unit
update_wait identity expected interrupt_id checkpoint resolution = do
  count ← gets (λ d. any (wait_at identity expected) d.run_waits)
  modify (λ d. record d {
    run_waits =
        update_rows (wait_at identity expected)
          (λ w. record w {
            interrupt_id = interrupt_id;
            checkpoint_ref = checkpoint;
            resolution = resolution;
            revision = w.revision + 1;
          })
          d.run_waits;
  })
  require count revision_conflict
