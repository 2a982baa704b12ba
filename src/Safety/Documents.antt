-- ===== src/Safety/Documents.antt =====
-- The generic records of harness/storage/store.py under sequences of writes and deletions.
use mi_harness.Prelude.{
  ℕ, ◌+◌, String, ◌≡◌, refl, sym, ap, subst, ◌∙◌, ◌⊎◌, inl, inr, Bool, true, false, not, ◌&&◌, ◌||◌,
  none, some, List, [], ◌∷◌, ◌++◌, arith, ltb, ◌==◌, if◌then◌else◌, same, same→eq, same_refl,
  is_some, Bool-cases, find_row, delete_rows, find_row-append,
}
use mi_harness.Exec.{World, pure, transaction, ◌>>=◌, ◌>>◌, require, when, ok, err, integrity}
use mi_harness.Store.Records.{
  at_key, find_record, revision_of, is_unversioned, upsert, at_version, insert_version,
  compare_and_set, put, delete,
}
use mi_harness.Store.Records.View.{
  View, view, assign, find-upsert_other, own_key, find-upsert_same, find-delete_rows,
}
use mathlib.Core.Path.{fun_ext}
use mi_harness.Store.Schema.{Payload, RecordRow, Database, Db}

-- No version of a record is later than the record, and the namespaces whose versions are not kept
-- have none.
abbrev pub HasFreshVersions : Database → Type 0
HasFreshVersions d =
    (n k : String) (v : ℕ)
    → (is_unversioned n || ltb (revision_of (find_record n k d)) v) ≡ true
    → find_row (at_version n k v) d.record_versions ≡ none

abbrev pub next_row : String → String → Payload → Database → RecordRow
next_row n k value d = record {
  namespace = n;
  key = k;
  revision = revision_of (find_record n k d) + 1;
  payload = value;
}

-- The versions after a write.
abbrev with_version : RecordRow → List RecordRow → List RecordRow
with_version r rows = if is_unversioned r.namespace then rows else rows ++ r ∷ []

abbrev pub written : RecordRow → Database → Database
written r d = record d {
  records = upsert r d.records;
  record_versions = with_version r d.record_versions;
}

put-written :
    (n k : String) (value : Payload) (w : World Database)
    → HasFreshVersions w.db
    → ((put n k value w).0 ≡ ok tt)
      × ((put n k value w).1.db ≡ written (next_row n k value w.db) w.db)
unfolding put compare_and_set insert_version transaction ◌>>=◌ require when
put-written n k value w h = elim (Bool-cases (is_unversioned n)) [
  | inl kept ↦ ground arith
  | inr versioned ↦ ground (arith, h n k (revision_of (find_record n k w.db) + 1))
]

pub find_written :
    (n k : String) (r : RecordRow) (d : Database)
    → find_record n k (written r d) ≡ (if at_key n k r then some r else find_record n k d)
find_written n k r d = elim (Bool-cases (at_key n k r)) [
  | inl here ↦
      ground
        (arith, find-upsert_same r d.records, same→eq r.namespace n, same→eq r.key k, own_key r)
  | inr elsewhere ↦ ground (arith, find-upsert_other n k r d.records elsewhere)
]

find_version-with_version :
    (n k : String) (v : ℕ) (r : RecordRow) (rows : List RecordRow)
    → find_row (at_version n k v) rows ≡ none
    → (at_key n k r ≡ true → (is_unversioned r.namespace || not (r.revision == v)) ≡ true)
    → find_row (at_version n k v) (with_version r rows) ≡ none
find_version-with_version n k v r rows old other = elim (Bool-cases (is_unversioned r.namespace)) [
  | inl kept ↦ ground arith
  | inr versioned ↦ ground (arith, find_row-append (at_version n k v) rows r)
]

later :
    (u : Bool) (a v : ℕ)
    → (u || ltb (a + 1) v) ≡ true
    → ((u || ltb a v) ≡ true) × ((u || not (a + 1 == v)) ≡ true)
later true a v h = (refl, refl)
later false a v h = ground arith

pub put-HasFreshVersions :
    (n k : String) (value : Payload) (d : Database)
    → HasFreshVersions d
    → HasFreshVersions (written (next_row n k value d) d)
put-HasFreshVersions n k value d h m j v late =
    let r : RecordRow = next_row n k value d in
    elim (Bool-cases (at_key m j r)) [
      | inl here ↦
          let same_namespace : n ≡ m = ground (arith, same→eq n m) in
          let same_name : k ≡ j = ground (arith, same→eq k j) in
          let after : find_record m j (written r d) ≡ some r = rw (find_written m j r d, here) in
          let after : revision_of (find_record m j (written r d))
              ≡ revision_of (find_record m j d) + 1 =
            rw (find_written m j r d, here, same_namespace, same_name) in
          let late' : (is_unversioned m || ltb (revision_of (find_record m j d) + 1) v) ≡ true =
            rw (sym after, late) in
          let bound = later (is_unversioned m) (revision_of (find_record m j d)) v late' in
          find_version-with_version m j v r d.record_versions (h m j v bound.0)
            (λ _. rw (same_namespace, same_name, bound.1))
      | inr elsewhere ↦
          let after : find_record m j (written r d) ≡ find_record m j d =
            rw (find_written m j r d, elsewhere) in
          find_version-with_version m j v r d.record_versions (h m j v (rw after at late))
            (λ here. ground arith)
    ]

-- A write takes effect as a whole or raises a duplicate version.
pub put_outcome :
    (n k : String) (value : Payload) (w : World Database)
    → (((put n k value w).0 ≡ ok tt)
        × ((put n k value w).1.db ≡ written (next_row n k value w.db) w.db))
      ⊎ (((put n k value w).0 ≡ err integrity) × ((put n k value w).1.db ≡ w.db))
unfolding put compare_and_set insert_version transaction ◌>>=◌ require when
put_outcome n k value w = elim (Bool-cases (is_unversioned n)) [
  | inl kept ↦ inl (ground arith)
  | inr versioned ↦
      elim (Bool-cases (
        is_some (
          find_row (at_version n k (revision_of (find_record n k w.db) + 1))
            w.db.record_versions))) [
              | inl taken ↦ inr (ground arith)
              | inr free ↦ inl (ground arith)
            ]
]

-- The writes and deletions of a client, and the map that they leave.
pub data Change : Type 0 where
  write : String → String → Payload → Change
  erase : String → String → Change

unfoldable pub apply_all : List Change → Db Unit
apply_all [] = pure tt
apply_all (Change.write n k value ∷ rest) = put n k value >> apply_all rest
apply_all (Change.erase n k ∷ rest) = delete n k >> apply_all rest

unfoldable pub replay : List Change → View → View
replay [] v = v
replay (Change.write n k value ∷ rest) v = replay rest (assign v n k (some value))
replay (Change.erase n k ∷ rest) v = replay rest (assign v n k none)

-- Only records of the namespaces without versions are deleted.
unfoldable pub ErasesUnversioned : List Change → Type 0
ErasesUnversioned [] = Unit
ErasesUnversioned (Change.write n k value ∷ rest) = ErasesUnversioned rest
ErasesUnversioned (Change.erase n k ∷ rest) = (is_unversioned n ≡ true) × ErasesUnversioned rest

pub view-written :
    (n k : String) (value : Payload) (d : Database)
    → view (written (next_row n k value d) d) ≡ assign (view d) n k (some value)
view-written n k value d =
    fun_ext (λ m. fun_ext (λ j. ground (arith, find_written m j (next_row n k value d) d)))

erased : String → String → Database → Database
erased n k d = record d { records = delete_rows (at_key n k) d.records }

view-erased : (n k : String) (d : Database) → view (erased n k d) ≡ assign (view d) n k none
unfolding erased
view-erased n k d = fun_ext (λ m. fun_ext (λ j. ground (arith, find-delete_rows m j n k d.records)))

delete-HasFreshVersions :
    (n k : String) (d : Database)
    → is_unversioned n ≡ true
    → HasFreshVersions d
    → HasFreshVersions (erased n k d)
unfolding erased
delete-HasFreshVersions n k d u h m j v late = elim (Bool-cases (same n m && same k j)) [
  | inl here ↦
      let same_namespace : n ≡ m = ground (arith, same→eq n m) in
      h m j v (rw (sym same_namespace, u))
  | inr elsewhere ↦ h m j v (rw (find-delete_rows m j n k d.records, elsewhere) at late)
]

next_step : (m rest : Db Unit) (w : World Database) → (m w).0 ≡ ok tt → (m >> rest) w ≡ rest (m w).1
unfolding ◌>>=◌
next_step m rest w h = rw h

-- The store refines a map from a namespace and a key to a document: from a database in which no
-- version is later than its record, every sequence of `put`s and of `delete`s of records without
-- versions returns, and each SELECT then finds what the same assignments leave in the map.
pub apply_all_refines :
    (changes : List Change) (w : World Database)
    → HasFreshVersions w.db
    → ErasesUnversioned changes
    → ((apply_all changes w).0 ≡ ok tt)
      × (view (apply_all changes w).1.db ≡ replay changes (view w.db))
unfolding apply_all replay ErasesUnversioned ◌>>=◌ delete erased
apply_all_refines [] w h e = (refl, refl)
apply_all_refines (Change.write n k value ∷ rest) w h e =
    let done = put-written n k value w h in
    let fresh : HasFreshVersions (put n k value w).1.db =
      subst HasFreshVersions (sym done.1) (put-HasFreshVersions n k value w.db h) in
    let further = apply_all_refines rest (put n k value w).1 fresh e in
    let step = next_step (put n k value) (apply_all rest) w done.0 in
    (rw (step, further.0), rw (step, further.1, ap view done.1 ∙ view-written n k value w.db))
apply_all_refines (Change.erase n k ∷ rest) w h e =
    let further =
      apply_all_refines rest (delete n k w).1 (delete-HasFreshVersions n k w.db e.0 h) e.1 in
    (further.0, further.1 ∙ ap (replay rest) (view-erased n k w.db))

-- Where the first version of a record is kept, `delete` of the record makes every later `put` of the
-- key raise the error of a duplicate version and leave the database as it was.
pub put_after_delete :
    (n k : String) (value : Payload) (w : World Database)
    → is_unversioned n ≡ false
    → is_some (find_row (at_version n k 1) w.db.record_versions) ≡ true
    → let w' = (delete n k w).1 in
      ((put n k value w').0 ≡ err integrity) × ((put n k value w').1.db ≡ w'.db)
unfolding delete put compare_and_set insert_version transaction ◌>>=◌ require when
put_after_delete n k value w versioned kept =
    ground (arith, find-delete_rows n k n k w.db.records, same_refl n, same_refl k)
