-- ===== src/Store/Branches.antt =====
-- The branches of harness/storage/store.py: threads of a session, each owned by one run at most.
use mi_harness.Prelude.{
  ℕ, ◌+◌, String, Bool, true, not, ◌&&◌, Option, none, some, List, [], ◌∷◌, ◌++◌, leb, ◌==◌, same,
  same?, is_some, select, any, find_row, update_rows, order_by,
}
use mi_harness.Exec.{
  pure, gets, modify, new_id, utc_now, ◌>>=◌, ◌>>◌, require, or_raise, not_found, revision_conflict,
  branch_busy, integrity,
}
use mi_harness.Core.{CheckpointRef}
use mi_harness.Store.Schema.{SessionRow, BranchRow, Database, Db}

abbrev pub with_branch_id : String → BranchRow → Bool
with_branch_id identity b = same b.id identity

-- Store.branch
unfoldable pub branch : String → Db BranchRow
branch identity = do
  row ← gets (λ d. find_row (with_branch_id identity) d.branches)
  or_raise not_found row

-- Store.branches, in the order of creation
unfoldable pub branches : String → Db (List BranchRow)
branches session_id = gets (λ d.
    order_by (λ a b. leb a.created_at b.created_at)
      (select (λ b. same b.session_id session_id) d.branches))

-- The primary key, the unique thread and the two references of the table.
abbrev branch_fits : BranchRow → Database → Bool
branch_fits b d =
    not (is_some (find_row (with_branch_id b.id) d.branches))
    && not (is_some (find_row (λ x. same x.graph_thread_key b.graph_thread_key) d.branches))
    && is_some (find_row (λ (s : SessionRow). same s.id b.session_id) d.sessions)
    && (elim b.parent_id [
      | none ↦ true
      | some p ↦ is_some (find_row (with_branch_id p) d.branches)
    ])

unfoldable pub insert_branch : BranchRow → Db Unit
insert_branch b = do
  fits ← gets (branch_fits b)
  require fits integrity
  modify (λ d. record d { branches = d.branches ++ b ∷ [] })

unfoldable pub or_new_id : Option String → Db String
or_new_id none = new_id
or_new_id (some k) = pure k

-- Store.add_branch
unfoldable pub add_branch :
    String → Option String → Option CheckpointRef → Option String → Db BranchRow
unfolding or_new_id
add_branch session_id parent_id checkpoint graph_thread_key = do
  identity ← new_id
  thread ← or_new_id graph_thread_key
  now ← utc_now
  insert_branch (record {
    id = identity;
    session_id = session_id;
    parent_id = parent_id;
    graph_thread_key = thread;
    checkpoint_ref = checkpoint;
    active_run_id = none;
    revision = 1;
    created_at = now;
  })
  branch identity

-- Store.advance_branch
unfoldable pub advance_branch : String → ℕ → Db ℕ
advance_branch branch_id expected_revision = do
  let test = λ (b : BranchRow). same b.id branch_id && b.revision == expected_revision
  count ← gets (λ d. any test d.branches)
  modify (λ d. record d {
    branches = update_rows test (λ b. record b { revision = b.revision + 1 }) d.branches;
  })
  require count revision_conflict
  pure (expected_revision + 1)

-- Store.set_branch_owner
unfoldable pub set_branch_owner : String → Option String → Option String → Db Unit
set_branch_owner branch_id expected run_id = do
  let test = λ (b : BranchRow). same b.id branch_id && same? b.active_run_id expected
  count ← gets (λ d. any test d.branches)
  modify (λ d. record d {
    branches = update_rows test (λ b. record b { active_run_id = run_id }) d.branches;
  })
  require count branch_busy
