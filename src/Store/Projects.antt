-- ===== src/Store/Projects.antt =====
-- Projects and sessions in harness/storage/store.py. A project is a workspace row, a record of its
-- source folders, and a tombstone once it is removed.
use mi_harness.Prelude.{
  ℕ, ◌+◌, String, Bool, true, false, not, ◌&&◌, Option, none, some, List, [], ◌∷◌, ◌++◌, leb, ◌==◌,
  if◌then◌else◌, same, is_some, get_or_else, select, any, find_row, update_rows, order_by,
}
use mi_harness.Exec.{
  pure, raise, gets, transaction, modify, new_id, utc_now, ◌>>=◌, ◌>>◌, require, or_raise,
  not_found, project_busy, revision_conflict, integrity, key_error,
}
use mi_harness.Core.{is_terminal}
use mi_harness.Store.Schema.{
  PolicyDocument, Payload, WorkspaceRow, SessionRow, RunRow, Database, Db,
}
use mi_harness.Store.Records.{get, put}
use mi_harness.Store.Branches.{insert_branch}
use mi_harness.Store.Runs.{owned_by}

abbrev pub with_workspace_id : String → WorkspaceRow → Bool
with_workspace_id identity w = same w.id identity

-- The row with its source folders and the time of its removal.
pub record Workspace : Type 0 where
  pub row : WorkspaceRow
  pub open row use *
  pub roots : List String
  pub removed_at : Option ℕ

abbrev roots_of : Option Payload → String → List String
roots_of (some (Payload.project_roots roots)) root = roots
roots_of _ root = root ∷ []

abbrev removal_of : Option Payload → Option ℕ
removal_of (some (Payload.project_tombstone t)) = some t
removal_of _ = none

-- Store.workspace
unfoldable pub workspace : String → Option String → Db Workspace
workspace workspace_id owner_id = do
  found ← gets (λ d. find_row (with_workspace_id workspace_id) d.workspaces)
  row ← or_raise not_found found
  require (owned_by owner_id row.owner_id) not_found
  saved ← get "project_roots" row.id
  tombstone ← get "project_tombstones" row.id
  pure (record { row = row; roots = roots_of saved row.root; removed_at = removal_of tombstone })

-- Store.active_workspace
unfoldable pub active_workspace : String → Option String → Db Workspace
active_workspace workspace_id owner_id = do
  w ← workspace workspace_id owner_id
  require (not (is_some w.removed_at)) not_found
  pure w

-- Store.create_workspace
unfoldable pub create_workspace : String → String → String → PolicyDocument → Db Workspace
create_workspace owner name root policy = do
  identity ← new_id
  now ← utc_now
  taken ← gets (λ d. any (with_workspace_id identity) d.workspaces)
  require (not taken) integrity
  modify (λ d. record d {
    workspaces =
        d.workspaces
        ++ record {
          id = identity;
          owner_id = owner;
          name = name;
          root = root;
          revision = 1;
          policy = policy;
          created_at = now;
        }
          ∷ [];
  })
  workspace identity (some owner)

-- A run of the project that has not ended.
abbrev pub is_busy : String → Database → Bool
is_busy identity d =
    any (λ (r : RunRow). same r.workspace_id identity && not (is_terminal r.status)) d.runs

abbrev workspace_at : String → Option ℕ → WorkspaceRow → Bool
workspace_at identity none w = false
workspace_at identity (some expected) w = same w.id identity && w.revision == expected

first_root : List String → Db String
first_root [] = raise key_error
first_root (r ∷ rs) = pure r

change_project : String → String → String → List String → Option ℕ → Db String
change_project identity owner name roots expected = do
  active_workspace identity (some owner)
  active ← gets (is_busy identity)
  require (not active) project_busy
  root ← first_root roots
  changed ← gets (λ d. any (workspace_at identity expected) d.workspaces)
  modify (λ d. record d {
    workspaces =
        update_rows (workspace_at identity expected)
          (λ w. record w { name = name; root = root; revision = w.revision + 1 }) d.workspaces;
  })
  require changed revision_conflict
  pure identity

new_project : String → String → List String → PolicyDocument → Db String
new_project owner name roots policy = do
  root ← first_root roots
  w ← create_workspace owner name root policy
  pure w.id

changed_or_new :
    Option String → String → String → List String → PolicyDocument → Option ℕ → Db String
changed_or_new none owner name roots policy expected = new_project owner name roots policy
changed_or_new (some k) owner name roots policy expected =
    change_project k owner name roots expected

-- Store.save_project
unfoldable pub save_project :
    String → String → List String → PolicyDocument → Option String → Option ℕ → Db Workspace
unfolding changed_or_new new_project change_project first_root
save_project owner name roots policy identity expected = transaction (do
  k ← changed_or_new identity owner name roots policy expected
  put "project_roots" k (Payload.project_roots roots)
  workspace k (some owner))

-- Store.remove_project; the receipt is the time of removal and the new revision.
unfoldable pub remove_project : String → String → ℕ → Db (ℕ × ℕ)
remove_project owner identity expected = transaction (do
  active_workspace identity (some owner)
  active ← gets (is_busy identity)
  require (not active) project_busy
  removed_at ← utc_now
  changed ← gets (λ d. any (workspace_at identity (some expected)) d.workspaces)
  modify (λ d. record d {
    workspaces =
        update_rows (workspace_at identity (some expected))
          (λ w. record w { revision = w.revision + 1 }) d.workspaces;
  })
  require changed revision_conflict
  put "project_tombstones" identity (Payload.project_tombstone removed_at)
  pure (removed_at, expected + 1))

abbrev pub with_session_id : String → SessionRow → Bool
with_session_id identity s = same s.id identity

-- Store.session
unfoldable pub session : String → Option String → Db SessionRow
session identity owner = do
  found ← gets (λ d. find_row (with_session_id identity) d.sessions)
  row ← or_raise not_found found
  workspace row.workspace_id owner
  pure row

-- Store.create_session
unfoldable pub create_session : String → String → String → Db SessionRow
create_session workspace_id title agent = do
  sid ← new_id
  bid ← new_id
  now ← utc_now
  transaction (do
    taken ← gets (λ d. any (with_session_id sid) d.sessions)
    known ← gets (λ d. any (with_workspace_id workspace_id) d.workspaces)
    require (not taken && known) integrity
    modify (λ d. record d {
      sessions =
          d.sessions
          ++ record {
            id = sid;
            workspace_id = workspace_id;
            title = title;
            agent_spec_id = agent;
            default_branch_id = bid;
            revision = 1;
            archived_at = none;
            created_at = now;
            updated_at = now;
          }
            ∷ [];
    })
    thread ← new_id
    insert_branch (record {
      id = bid;
      session_id = sid;
      parent_id = none;
      graph_thread_key = thread;
      checkpoint_ref = none;
      active_run_id = none;
      revision = 1;
      created_at = now;
    }))
  session sid none

-- Store.sessions
unfoldable pub sessions : String → Bool → Db (List SessionRow)
sessions workspace_id archived = gets (λ d.
    order_by (λ (a b : SessionRow). leb b.updated_at a.updated_at)
      (select
        (λ (s : SessionRow).
          same s.workspace_id workspace_id
          && (if archived then is_some s.archived_at else not (is_some s.archived_at)))
        d.sessions))

abbrev session_at : String → ℕ → SessionRow → Bool
session_at identity expected s = same s.id identity && s.revision == expected

archive_time : Option Bool → Option ℕ → Db (Option ℕ)
archive_time none old = pure old
archive_time (some true) old = do now ← utc_now; pure (some now)
archive_time (some false) old = pure none

-- Store.patch_session: a new title, and whether the session is archived, where they are given.
unfoldable pub patch_session : String → ℕ → Option String → Option Bool → Db SessionRow
unfolding archive_time
patch_session identity expected title archived = do
  transaction (do
    row ← session identity none
    archived_at ← archive_time archived row.archived_at
    now ← utc_now
    count ← gets (λ d. any (session_at identity expected) d.sessions)
    modify (λ d. record d {
      sessions =
          update_rows (session_at identity expected)
            (λ s. record s {
              title = get_or_else title row.title;
              archived_at = archived_at;
              updated_at = now;
              revision = s.revision + 1;
            })
            d.sessions;
    })
    require count revision_conflict)
  session identity none
