-- ===== src/Store/Events/Numbering.antt =====
-- The sequence numbers that Store.event of harness/storage/store.py gives to the durable events of a
-- run, and the counter of the run that it takes them from.
use mathlib.Core.Option
use mi_harness.Exec.Keeps.{Keeps}
use mi_harness.Exec.Atomic.{IsAtomic, transaction-IsAtomic, IsAtomic-Keeps}
use native.Mathlib.Numerals.{unary_clauses}
use mi_harness.Prelude.{
  ℕ, zero, suc, ◌+◌, ◌-◌, ◌<◌, String, ◌≡◌, refl, sym, ◌≢◌, inl, inr, true, Option, none, some,
  List, [], ◌∷◌, ◌++◌, map, arith, if◌then◌else◌, same, same→eq, Bool-cases, Option-cases, select,
  find_row, update_rows, find_row_sound, find_row-update_rows,
}
use mi_harness.Exec.{World, transaction, ◌>>=◌, require, when, or_raise, ok}
use mi_harness.Store.Schema.{Document, RunRow, EventRow, Database}
use mi_harness.Store.Runs.{with_run_id, find_run, run, runs}
use mi_harness.Store.Events.{outbox, event}

unfoldable pub numbers : ℕ → List ℕ
numbers zero = []
numbers (suc n) = numbers n ++ suc n ∷ []

abbrev pub seqs : String → List EventRow → List ℕ
seqs k es = map (λ (e : EventRow). e.seq) (select (λ (e : EventRow). same e.run_id k) es)

abbrev bump : RunRow → RunRow
bump r = record r { next_event_seq = r.next_event_seq + 1 }

abbrev pub next_seq : Option RunRow → ℕ
next_seq none = 1
next_seq (some r) = r.next_event_seq

-- The run's counter is one more than the number of its events, which are numbered from 1 in the
-- order in which they were written. A run that does not exist has no events.
pub record IsNumbered (d : Database) : Type 0 where
  pub listed : (k : String) → seqs k d.run_events ≡ numbers (next_seq (find_run k d) - 1)
  pub next : (k : String) → 0 < next_seq (find_run k d)

-- `run` returns the row of its key.
run_returns :
    (k : String) (w w' : World Database) (r : RunRow)
    → run k none w ≡ (ok r, w')
    → (find_run k w.db ≡ some r) × (w' ≡ w)
unfolding run ◌>>=◌ or_raise require
run_returns k w w' r h = ground arith

event_writes :
    (k kind : String) (payload : Document) (w : World Database) (r : RunRow) (e : EventRow)
    → find_run k w.db ≡ some r
    → (event k kind payload w).0 ≡ ok e
    → let d = (event k kind payload w).1.db in
      (d.runs ≡ update_rows (with_run_id k) bump w.db.runs)
      × (d.run_events ≡ w.db.run_events ++ e ∷ [])
      × (e.run_id ≡ k)
      × (e.seq ≡ r.next_event_seq)
unfolding event run outbox transaction ◌>>=◌ or_raise require when
event_writes k kind payload w r e found h = ground arith

seqs-append :
    (k : String) (es : List EventRow) (e : EventRow)
    → seqs k (es ++ e ∷ []) ≡ (if same e.run_id k then seqs k es ++ e.seq ∷ [] else seqs k es)
unfolding select
seqs-append k [] e = ground arith
seqs-append k (x ∷ es) e = ground (arith, seqs-append k es e)

find_run-bump :
    (k j : String) (rows : List RunRow)
    → find_row (with_run_id j) (update_rows (with_run_id k) bump rows)
      ≡ Option.map (λ x. if with_run_id k x then bump x else x) (find_row (with_run_id j) rows)
find_run-bump k j rows = find_row-update_rows _ _ _ rows (λ x. refl)

numbers_step : (n : ℕ) → 0 < n → numbers n ≡ numbers (n - 1) ++ n ∷ []
unfolding numbers
numbers_step zero h = grind arith
numbers_step (suc n) h = simp unary_clauses refl

numbered_after :
    (k j : String) (d d' : Database) (r : RunRow) (e : EventRow)
    → IsNumbered d
    → find_run k d ≡ some r
    → d'.runs ≡ update_rows (with_run_id k) bump d.runs
    → d'.run_events ≡ d.run_events ++ e ∷ []
    → e.run_id ≡ k
    → e.seq ≡ r.next_event_seq
    → (seqs j d'.run_events ≡ numbers (next_seq (find_run j d') - 1))
      × (0 < next_seq (find_run j d'))
numbered_after k j d d' r e n found runs evs at number =
    let events : seqs j d'.run_events
        ≡ (if same k j then seqs j d.run_events ++ e.seq ∷ [] else seqs j d.run_events) =
      rw (evs, seqs-append j d.run_events e, at) refl in
    let row : find_run j d'
        ≡ Option.map (λ x. if with_run_id k x then bump x else x) (find_run j d) =
      rw (runs, find_run-bump k j d.runs) refl in
    elim (Bool-cases (same k j)) [
      | inl y ↦
          let kept : same r.id k ≡ true = find_row_sound (with_run_id k) d.runs r found in
          let here : find_run j d ≡ some r = rw (sym (same→eq k j y)) found in
          ground (arith, n.listed j, n.next j, numbers_step r.next_event_seq)
      | inr m ↦ elim (Option-cases (find_run j d)) [
        | inl missing ↦ ground (arith, n.listed j, n.next j)
        | inr (x, here) ↦
            let kept : same x.id j ≡ true = find_row_sound (with_run_id j) d.runs x here in
            ground (arith, n.listed j, n.next j, same→eq x.id j kept, same→eq x.id k)
      ]
    ]

event-none :
    (k kind : String) (payload : Document) (w : World Database) (e : EventRow)
    → find_run k w.db ≡ none
    → (event k kind payload w).0 ≢ ok e
unfolding event run transaction ◌>>=◌ or_raise
event-none k kind payload w e missing h = ground arith

event-IsAtomic : (k kind : String) (payload : Document) → IsAtomic (event k kind payload)
unfolding event
event-IsAtomic k kind payload = transaction-IsAtomic _

-- Every call of `event`, on whatever run, keeps the numbering: if the events of each run are
-- numbered 1, 2, 3, ... in the order in which they were written, and the counter of the run is
-- one more than their number, then this holds after the call, whether it returns or raises.
pub event-IsNumbered :
    (k kind : String) (payload : Document) → Keeps IsNumbered (event k kind payload)
event-IsNumbered k kind payload =
    IsAtomic-Keeps IsNumbered _ (event-IsAtomic k kind payload) (λ w e n h.
      elim (Option-cases (find_run k w.db)) [
        | inl missing ↦ elim (event-none k kind payload w e missing h) [ ]
        | inr (r, found) ↦
            let (runs, evs, at, number) = event_writes k kind payload w r e found h in
            let after = λ (j : String).
              numbered_after k j w.db (event k kind payload w).1.db r e n found runs evs at
                number in
            record { listed = λ j. (after j).0; next = λ j. (after j).1 }
      ])
