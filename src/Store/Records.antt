-- ===== src/Store/Records.antt =====
-- The generic records of harness/storage/store.py: documents with a revision, kept with their
-- earlier versions. `ON CONFLICT ... DO UPDATE` replaces the row of the key.
pub mod View
pub mod Kept
use mi_harness.Prelude.{
  ℕ, ◌+◌, String, Bool, not, ◌&&◌, Option, none, some, List, [], ◌∷◌, ◌++◌, map, ◌==◌,
  if◌then◌else◌, same, text_le, is_some, get_or_else, select, contains, find_row, update_rows,
  delete_rows, order_by,
}
use mi_harness.Exec.{
  pure, gets, transaction, modify, ◌>>=◌, ◌>>◌, require, when, revision_conflict, integrity,
}
use mi_harness.Store.Schema.{Payload, RecordRow, Database, Db}

abbrev pub at_key : String → String → RecordRow → Bool
at_key namespace key r = same r.namespace namespace && same r.key key

abbrev pub find_record : String → String → Database → Option RecordRow
find_record namespace key d = find_row (at_key namespace key) d.records

abbrev pub payload_of : Option RecordRow → Option Payload
payload_of none = none
payload_of (some r) = some r.payload

abbrev pub revision_of : Option RecordRow → ℕ
revision_of none = 0
revision_of (some r) = r.revision

-- Store.get
unfoldable pub get : String → String → Db (Option Payload)
get namespace key = gets (λ d. payload_of (find_record namespace key d))

-- Store.list, in the order of the keys
unfoldable pub list : String → Db (List Payload)
list namespace = gets (λ d.
    map (λ r. r.payload)
      (order_by (λ r t. text_le r.key t.key) (select (λ r. same r.namespace namespace) d.records)))

-- The namespaces whose versions are not kept.
abbrev pub is_unversioned : String → Bool
is_unversioned namespace =
    contains namespace ("system" ∷ "process_sessions" ∷ "model_permits" ∷ "metrics" ∷ [])

unfoldable pub upsert : RecordRow → List RecordRow → List RecordRow
upsert r rows =
    if is_some (find_row (at_key r.namespace r.key) rows)
    then update_rows (at_key r.namespace r.key) (λ _. r) rows
    else rows ++ r ∷ []

abbrev pub at_version : String → String → ℕ → RecordRow → Bool
at_version namespace key revision r = at_key namespace key r && r.revision == revision

unfoldable pub insert_version : RecordRow → Db Unit
insert_version r = do
  taken ← gets (λ d. find_row (at_version r.namespace r.key r.revision) d.record_versions)
  require (not (is_some taken)) integrity
  modify (λ d. record d { record_versions = d.record_versions ++ r ∷ [] })

-- Store.compare_and_set; None as the expected revision is 0.
unfoldable pub compare_and_set : String → String → Option ℕ → Payload → Db Payload
compare_and_set namespace key expected value = transaction (do
  let expected_revision = get_or_else expected 0
  current ← gets (find_record namespace key)
  require (revision_of current == expected_revision) revision_conflict
  let r : RecordRow = record {
    namespace = namespace;
    key = key;
    revision = expected_revision + 1;
    payload = value;
  }
  modify (λ d. record d { records = upsert r d.records })
  when (not (is_unversioned namespace)) (insert_version r)
  pure value)

-- Store.put
unfoldable pub put : String → String → Payload → Db Unit
put namespace key value = transaction (do
  current ← gets (find_record namespace key)
  compare_and_set namespace key (some (revision_of current)) value
  pure tt)

-- Store.get_version
unfoldable pub get_version : String → String → ℕ → Db (Option Payload)
get_version namespace key revision =
    gets (λ d. payload_of (find_row (at_version namespace key revision) d.record_versions))

-- Store.delete
unfoldable pub delete : String → String → Db Unit
delete namespace key =
    modify (λ d. record d { records = delete_rows (at_key namespace key) d.records })
