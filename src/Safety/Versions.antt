-- ===== src/Safety/Versions.antt =====
-- The generic records of harness/storage/store.py: optimistic writes and their versions.
use mi_harness.Store.Records.{
  at_key, find_record, payload_of, revision_of, upsert, insert_version, compare_and_set,
}
use mathlib.Core.Option
use mi_harness.Prelude.{
  ℕ, ◌+◌, String, ◌≡◌, refl, true, Option, some, List, [], ◌∷◌, arith, same_refl, get_or_else,
  find_row, update_rows, find_row-append,
}
use mi_harness.Exec.{World, transaction, ◌>>=◌, require, when, ok}
use mi_harness.Store.Schema.{Payload, RecordRow, Database}

find_record-set :
    (ns key k : String) (r : RecordRow) (rows : List RecordRow)
    → at_key ns key r ≡ true
    → find_row (at_key ns key) (update_rows (at_key ns key) (λ _. r) rows)
      ≡ Option.map (λ _. r) (find_row (at_key ns key) rows)
unfolding find_row update_rows
find_record-set ns key k r [] h = refl
find_record-set ns key k r (x ∷ xs) h = ground (arith, find_record-set ns key k r xs h)

-- A `compare_and_set` that returns gives back the value, which a SELECT of the key then finds
-- under the next revision.
pub compare_and_set_returns :
    (ns key : String) (expected : Option ℕ) (value v : Payload) (w : World Database)
    → (compare_and_set ns key expected value w).0 ≡ ok v
    → let w' = (compare_and_set ns key expected value w).1 in
      (v ≡ value)
      × (payload_of (find_record ns key w'.db) ≡ some value)
      × (revision_of (find_record ns key w'.db) ≡ revision_of (find_record ns key w.db) + 1)
unfolding compare_and_set upsert insert_version transaction ◌>>=◌ require when
compare_and_set_returns ns key expected value v w h =
    let r : RecordRow = record {
      namespace = ns;
      key = key;
      revision = get_or_else expected 0 + 1;
      payload = value;
    } in
    ground (
      arith,
      find_record-set ns key key r w.db.records,
      find_row-append (at_key ns key) w.db.records r,
      same_refl ns,
      same_refl key,
    )
