-- ===== src/Safety/Concurrency.antt =====
-- The optimistic concurrency of Store.update_run: two writers that have read the same revision.
use mi_harness.Prelude.{
  has_some, ℕ, String, ◌≡◌, refl, true, false, none, some, List, [], ◌∷◌, arith, same, any, all,
  update_rows, find_row_sound, any_of_find_row,
}
use mi_harness.Exec.{World, transaction, ◌>>=◌, require, or_raise, err, revision_conflict}
use mi_harness.Store.Schema.{RunRow, Database}
use mi_harness.Store.Runs.{
  with_run_id, find_run, run, RunField, is_allowed, set_field, set_fields, at_revision, touch,
  update_run,
}
use mi_harness.Store.Runs.Update.{
  id-set_fields, find_run-update, update_run_current, update_run_outdated,
}

revision-set_fields :
    (patch : List RunField) (r : RunRow) → (set_fields patch r).revision ≡ r.revision
unfolding set_fields
revision-set_fields [] r = refl
revision-set_fields (f ∷ fs) r = ground (arith, revision-set_fields fs (set_field f r))

-- After the UPDATE no row of that key has the old revision.
none_left :
    (id : String) (n : ℕ) (patch : List RunField) (now : ℕ) (rows : List RunRow)
    → any (at_revision id n) (update_rows (at_revision id n) (touch patch now) rows) ≡ false
unfolding any update_rows
none_left id n patch now [] = refl
none_left id n patch now (x ∷ xs) =
    ground (arith, none_left id n patch now xs, revision-set_fields patch x, id-set_fields patch x)

stored :
    (id : String) (patch : List RunField) (w : World Database) (r : RunRow)
    → find_run id w.db ≡ some r
    → all is_allowed patch ≡ true
    → has_some patch ≡ true
    → (update_run id r.revision patch none w).1.db.runs
      ≡ update_rows (at_revision id r.revision) (touch patch (w.clock w.ticks)) w.db.runs
unfolding update_run transaction ◌>>=◌ require or_raise run
stored id patch w r found allowed named =
    let kept : same r.id id ≡ true = find_row_sound (with_run_id id) w.db.runs r found in
    let here : at_revision id r.revision r ≡ true = ground arith in
    ground (
      arith,
      find_run-update id id r.revision patch (w.clock w.ticks) w.db.runs,
      any_of_find_row (at_revision id r.revision) (with_run_id id) w.db.runs r,
    )

-- Of two writers that have read the same revision of a run, both with supported fields, of
-- which each writes at least one, the first succeeds: its fields are stored under the next revision. The second raises
-- REVISION_CONFLICT and changes nothing.
pub second_writer_conflicts :
    (id : String) (first second : List RunField) (w : World Database) (r : RunRow)
    → find_run id w.db ≡ some r
    → all is_allowed first ≡ true
    → all is_allowed second ≡ true
    → has_some first ≡ true
    → has_some second ≡ true
    → let w' = (update_run id r.revision first none w).1 in
      (find_run id w'.db ≡ some (touch first (w.clock w.ticks) r))
      × ((update_run id r.revision second none w').0 ≡ err revision_conflict)
      × ((update_run id r.revision second none w').1.db ≡ w'.db)
second_writer_conflicts id first second w r found h k some_first some_second =
    let w' : World Database = (update_run id r.revision first none w).1 in
    let none_at : any (at_revision id r.revision) w'.db.runs ≡ false =
      rw (stored id first w r found h some_first)
        (none_left id r.revision first (w.clock w.ticks) w.db.runs) in
    let conflict = update_run_outdated id r.revision second w' r none_at k some_second in
    ((update_run_current id r.revision first w r found refl h some_first).1, conflict.0, conflict.1)
