-- ===== src/Store/Records/View.antt =====
-- The generic records of harness/storage/store.py as a map from a namespace and a key to a document,
-- which forgets the order of the rows, their revisions and the earlier versions.
use mi_harness.Prelude.{
  String, ◌≡◌, refl, Bool, true, false, ◌&&◌, Option, none, some, List, [], ◌∷◌, arith,
  if◌then◌else◌, same, same→eq, same_refl, is_some, find_row, update_rows, delete_rows,
  find_row-append,
}
use mi_harness.Store.Records.{at_key, find_record, payload_of, upsert}
use mi_harness.Store.Schema.{Payload, RecordRow, Database}

abbrev pub View : Type 0
View = String → String → Option Payload

abbrev pub view : Database → View
view d namespace key = payload_of (find_record namespace key d)

-- The map changed at one place.
abbrev pub assign : View → String → String → Option Payload → View
assign v namespace key value n k = if same namespace n && same key k then value else v n k

module _ (n k : String) (r : RecordRow) where
  -- Two rows of one key are found by the same keys.
  found_alike : (x : RecordRow) → at_key r.namespace r.key x ≡ true → at_key n k x ≡ at_key n k r
  found_alike x h = ground (arith, same→eq x.namespace r.namespace, same→eq x.key r.key)

  find-update_rows_other :
      (rows : List RecordRow)
      → at_key n k r ≡ false
      → find_row (at_key n k) (update_rows (at_key r.namespace r.key) (λ _. r) rows)
        ≡ find_row (at_key n k) rows
  unfolding find_row update_rows
  find-update_rows_other [] h = refl
  find-update_rows_other (x ∷ xs) h = ground (arith, found_alike x, find-update_rows_other xs h)

  pub find-upsert_other :
      (rows : List RecordRow)
      → at_key n k r ≡ false
      → find_row (at_key n k) (upsert r rows) ≡ find_row (at_key n k) rows
  unfolding upsert
  find-upsert_other rows h =
      ground (arith, find-update_rows_other rows h, find_row-append (at_key n k) rows r)

find-update_rows_same :
    (r : RecordRow) (q : RecordRow → Bool) (rows : List RecordRow)
    → q r ≡ true
    → is_some (find_row q rows) ≡ true
    → find_row q (update_rows q (λ _. r) rows) ≡ some r
unfolding find_row update_rows
find-update_rows_same r q [] h s = ground arith
find-update_rows_same r q (x ∷ xs) h s = ground (arith, find-update_rows_same r q xs h)

pub own_key : (r : RecordRow) → at_key r.namespace r.key r ≡ true
own_key r = ground (arith, same_refl r.namespace, same_refl r.key)

pub find-upsert_same :
    (r : RecordRow) (rows : List RecordRow)
    → find_row (at_key r.namespace r.key) (upsert r rows) ≡ some r
unfolding upsert
find-upsert_same r rows = ground (
  arith,
  own_key r,
  find-update_rows_same r (at_key r.namespace r.key) rows (own_key r),
  find_row-append (at_key r.namespace r.key) rows r,
)

module _ (n k namespace key : String) where
  deleted_alike :
      (x : RecordRow)
      → at_key namespace key x ≡ true
      → at_key n k x ≡ (same namespace n && same key k)
  deleted_alike x h = ground (arith, same→eq x.namespace namespace, same→eq x.key key)

  pub find-delete_rows :
      (rows : List RecordRow)
      → find_row (at_key n k) (delete_rows (at_key namespace key) rows)
        ≡ (if same namespace n && same key k then none else find_row (at_key n k) rows)
  unfolding find_row delete_rows
  find-delete_rows [] = ground arith
  find-delete_rows (x ∷ xs) =
      ground (arith, deleted_alike x, find-delete_rows xs, same→eq namespace n, same→eq key k)
