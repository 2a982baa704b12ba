-- ===== src/Store/Runs/Update.antt =====
-- What Store.update_run does to the row that its caller has read, and to the others.
use mathlib.Core.Option
use mi_harness.Prelude.{
  has_some, ℕ, String, ◌≡◌, refl, ap, true, false, none, some, List, [], ◌∷◌, arith, if◌then◌else◌,
  same, any, all, find_row, update_rows, find_row_sound, find_row-update_rows, any_of_find_row,
}
use mi_harness.Exec.{World, transaction, ◌>>=◌, require, or_raise, ok, err, revision_conflict}
use mi_harness.Store.Schema.{RunRow, Database}
use mi_harness.Store.Runs.{
  with_run_id, find_run, run, RunField, is_allowed, set_fields, at_revision, touch, update_run,
}

pub id-set_fields : (patch : List RunField) (r : RunRow) → (set_fields patch r).id ≡ r.id
unfolding set_fields
id-set_fields [] r = refl
id-set_fields (RunField.status s ∷ fs) r = id-set_fields fs (record r { status = s })
id-set_fields (RunField.input_revision n ∷ fs) r =
    id-set_fields fs (record r { input_revision = n })
id-set_fields (RunField.checkpoint_ref c ∷ fs) r =
    id-set_fields fs (record r { checkpoint_ref = c })
id-set_fields (RunField.result_ref a ∷ fs) r = id-set_fields fs (record r { result_ref = a })
id-set_fields (RunField.error e ∷ fs) r = id-set_fields fs (record r { error = e })
id-set_fields (RunField.fencing_token n ∷ fs) r = id-set_fields fs (record r { fencing_token = n })
id-set_fields (RunField.attempt_id a ∷ fs) r = id-set_fields fs (record r { attempt_id = a })
id-set_fields (RunField.cancel_requested b ∷ fs) r =
    id-set_fields fs (record r { cancel_requested = b })
id-set_fields (RunField.required_interrupts l ∷ fs) r =
    id-set_fields fs (record r { required_interrupts = l })
id-set_fields (RunField.other k ∷ fs) r = id-set_fields fs r

-- The SELECT of a run after the UPDATE of `update_run`.
pub find_run-update :
    (id k : String) (n : ℕ) (patch : List RunField) (now : ℕ) (rows : List RunRow)
    → find_row (with_run_id k) (update_rows (at_revision id n) (touch patch now) rows)
      ≡ Option.map
          (λ x. if at_revision id n x then touch patch now x else x)
          (find_row (with_run_id k) rows)
find_run-update id k n patch now rows =
    find_row-update_rows (at_revision id n) (with_run_id k) (touch patch now) rows
      (λ x. ap (λ i. same i k) (id-set_fields patch x))

module _ (id : String) (n : ℕ) (patch : List RunField) (w : World Database) (r : RunRow) where
  -- With the revision that the row has, the write of a field succeeds: the row has the new fields and the next
  -- revision, and is returned.
  pub update_run_current :
      find_run id w.db ≡ some r
      → r.revision ≡ n
      → all is_allowed patch ≡ true
      → has_some patch ≡ true
      → ((update_run id n patch none w).0 ≡ ok (touch patch (w.clock w.ticks) r))
        × (find_run id (update_run id n patch none w).1.db ≡ some (touch patch (w.clock w.ticks) r))
  unfolding update_run transaction ◌>>=◌ require or_raise run
  update_run_current found current allowed named =
      let kept : same r.id id ≡ true = find_row_sound (with_run_id id) w.db.runs r found in
      let here : at_revision id n r ≡ true = ground arith in
      ground (
        arith,
        find_run-update id id n patch (w.clock w.ticks) w.db.runs,
        any_of_find_row (at_revision id n) (with_run_id id) w.db.runs r,
      )

  -- With another revision it raises REVISION_CONFLICT and leaves the database as it was.
  pub update_run_outdated :
      any (at_revision id n) w.db.runs ≡ false
      → all is_allowed patch ≡ true
      → has_some patch ≡ true
      → ((update_run id n patch none w).0 ≡ err revision_conflict)
        × ((update_run id n patch none w).1.db ≡ w.db)
  unfolding update_run transaction ◌>>=◌ require or_raise run
  update_run_outdated missing allowed named = ground arith
