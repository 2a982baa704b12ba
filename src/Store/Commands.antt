-- ===== src/Store/Commands.antt =====
-- Artifacts, steering commands, idempotent API commands and ephemeral frames in
-- harness/storage/store.py.
use mi_harness.Prelude.{
  ℕ, ◌+◌, String, Bool, true, false, not, ◌&&◌, ◌||◌, Option, none, some, List, [], ◌∷◌, ◌++◌, ltb,
  leb, ◌==◌, if◌then◌else◌, same, is_some, take, select, any, find_row, update_rows, delete_rows,
  order_by,
}
use mi_harness.Exec.{
  pure, gets, transaction, modify, new_id, utc_now, after_seconds, ◌>>=◌, ◌>>◌, require, when,
  or_raise, for_each, not_found, integrity,
}
use mi_harness.Core.{ExecutionContext}
use mi_harness.Store.Schema.{
  Response, WorkspaceRow, ApiCommandRow, ArtifactRow, ArtifactUse, InputCommandRow, FrameRow, Db,
}
use mi_harness.Store.Runs.{find_run, owned_by, run, RunField, assert_fence, update_run}

abbrev pub with_artifact_id : String → ArtifactRow → Bool
with_artifact_id identity a = same a.id identity

-- Store.add_artifact
unfoldable pub add_artifact : ArtifactRow → Db Unit
add_artifact row = do
  taken ← gets (λ d. any (with_artifact_id row.id) d.artifacts)
  known ← gets (λ d. any (λ (w : WorkspaceRow). same w.id row.workspace_id) d.workspaces)
  require (not taken && known) integrity
  modify (λ d. record d { artifacts = d.artifacts ++ row ∷ [] })

-- Store.artifact
unfoldable pub artifact : String → Option String → Db ArtifactRow
artifact identity owner = do
  found ← gets (λ d. find_row (with_artifact_id identity) d.artifacts)
  row ← or_raise not_found found
  require (owned_by owner row.owner_id) not_found
  pure row

-- Store.artifacts
unfoldable pub artifacts : Option String → Db (List ArtifactRow)
artifacts workspace_id =
    gets (λ d. select (λ (a : ArtifactRow). owned_by workspace_id a.workspace_id) d.artifacts)

abbrev same_use : String → String → String → ArtifactUse → Bool
same_use identity kind target u =
    same u.artifact_id identity && same u.ref_kind kind && same u.ref_id target

-- Store.reference_artifact: INSERT OR IGNORE, whose foreign key still raises.
unfoldable pub reference_artifact : String → String → String → Db Unit
reference_artifact identity kind target = do
  taken ← gets (λ d. any (same_use identity kind target) d.artifact_refs)
  known ← gets (λ d. any (with_artifact_id identity) d.artifacts)
  require (taken || known) integrity
  when (not taken) (
      modify (λ d. record d {
        artifact_refs =
            d.artifact_refs
            ++ record { artifact_id = identity; ref_kind = kind; ref_id = target } ∷ [];
      }))

-- Store.run_artifacts
unfoldable pub run_artifacts : String → Db (List ArtifactRow)
run_artifacts run_id = gets (λ d.
    select (λ (a : ArtifactRow). any (same_use a.id "run" run_id) d.artifact_refs) d.artifacts)

-- Store.add_input_command
unfoldable pub add_input_command : String → ℕ → String → Db InputCommandRow
add_input_command run_id revision text = do
  identity ← new_id
  now ← utc_now
  taken ← gets (λ d.
      any
        (λ (c : InputCommandRow).
          same c.id identity || same c.run_id run_id && c.input_revision == revision)
        d.input_commands)
  known ← gets (λ d. is_some (find_run run_id d))
  require (not taken && known) integrity
  let c : InputCommandRow = record {
    id = identity;
    run_id = run_id;
    input_revision = revision;
    text = text;
    consumed = false;
    created_at = now;
  }
  modify (λ d. record d { input_commands = d.input_commands ++ c ∷ [] })
  pure c

abbrev pub is_waiting_command : String → InputCommandRow → Bool
is_waiting_command run_id c = same c.run_id run_id && not c.consumed

abbrev command_before : InputCommandRow → InputCommandRow → Bool
command_before a b = leb a.input_revision b.input_revision

-- Store.pending_input_commands
unfoldable pub pending_input_commands : String → Db (List InputCommandRow)
pending_input_commands run_id =
    gets (λ d. order_by command_before (select (is_waiting_command run_id) d.input_commands))

-- Store.consume_input_commands
unfoldable pub consume_input_commands : ExecutionContext → Db (List InputCommandRow)
consume_input_commands ctx = transaction (do
  assert_fence ctx false
  rows ← pending_input_commands ctx.run_id
  modify (λ d. record d {
    input_commands =
        update_rows (is_waiting_command ctx.run_id) (λ c. record c { consumed = true })
          d.input_commands;
  })
  pure rows)

consume_one : String → String → Db Unit
consume_one run_id identity = modify (λ d. record d {
  input_commands =
      update_rows (λ (c : InputCommandRow). same c.id identity && same c.run_id run_id)
        (λ c. record c { consumed = true }) d.input_commands;
})

-- Store.ack_input_commands
unfoldable pub ack_input_commands : ExecutionContext → List String → Db Unit
unfolding consume_one
ack_input_commands ctx identities = transaction (do
  assert_fence ctx false
  r ← run ctx.run_id none
  when (ltb r.input_revision ctx.input_revision) (do
    update_run ctx.run_id r.revision (RunField.input_revision ctx.input_revision ∷ []) (some ctx)
    pure tt)
  for_each identities (consume_one ctx.run_id))

abbrev pub with_command_key : String → String → String → String → ApiCommandRow → Bool
with_command_key owner method route key c =
    same c.owner owner && same c.method method && same c.route route && same c.key key

-- Store.api_command
unfoldable pub api_command : String → String → String → String → Db (Option ApiCommandRow)
api_command owner method route key =
    gets (λ d. find_row (with_command_key owner method route key) d.api_commands)

-- Store.save_api_command
unfoldable pub save_api_command : ApiCommandRow → Db Unit
save_api_command row = do
  taken ← gets (λ d. any (with_command_key row.owner row.method row.route row.key) d.api_commands)
  require (not taken) integrity
  modify (λ d. record d { api_commands = d.api_commands ++ row ∷ [] })

-- Store.complete_api_command
unfoldable pub complete_api_command : String → String → String → String → Response → ℕ → Db Unit
complete_api_command owner method route key response status = modify (λ d. record d {
  api_commands =
      update_rows (with_command_key owner method route key)
        (λ c. record c { response = some response; status_code = status }) d.api_commands;
})

-- Store.publish_ephemeral: a frame lives for five minutes, and each new one clears the old ones.
unfoldable pub publish_ephemeral : String → String → Db Unit
publish_ephemeral run_id payload = do
  expiry ← after_seconds 300
  transaction (do
    modify (λ d. record d {
      ephemeral_frames =
          d.ephemeral_frames
          ++ record {
            id = d.last_frame + 1;
            run_id = run_id;
            payload = payload;
            expires_at = expiry;
          }
            ∷ [];
      last_frame = d.last_frame + 1;
    })
    now ← utc_now
    modify (λ d. record d {
      ephemeral_frames = delete_rows (λ (f : FrameRow). ltb f.expires_at now) d.ephemeral_frames;
    }))

abbrev max_frame : List FrameRow → ℕ
max_frame [] = 0
max_frame (f ∷ fs) = let m = max_frame fs in if ltb m f.id then f.id else m

-- Store.ephemeral_cursor
unfoldable pub ephemeral_cursor : String → Db ℕ
ephemeral_cursor run_id =
    gets (λ d. max_frame (select (λ (f : FrameRow). same f.run_id run_id) d.ephemeral_frames))

-- Store.read_ephemeral
unfoldable pub read_ephemeral : String → ℕ → ℕ → Db (List FrameRow)
read_ephemeral run_id after limit = do
  now ← utc_now
  gets (λ d. take limit (
      order_by (λ (a b : FrameRow). leb a.id b.id)
        (select (λ (f : FrameRow). same f.run_id run_id && ltb after f.id && ltb now f.expires_at)
          d.ephemeral_frames)))
