-- ===== src/Safety/Reading.antt =====
-- Methods of harness/storage/store.py that read runs, or write no run but the counter of its events.
use mi_harness.Prelude.{
  String, ◌≡◌, refl, sym, subst, ◌∙◌, Option, none, some, List, [], ◌∷◌, arith, All, All-imp,
  All-order_by, All-select, same→eq, find_row_sound,
}
use mi_harness.Exec.{not_found}
use mi_harness.Exec.Keeps.{Keeps, Keeps-bind, Keeps-modify, Keeps-gets, Keeps-pure, keeps_rules}
use mi_harness.Exec.Reads.{
  ReadsFrom, ReadsFrom-then, ReadsFrom-gets, ReadsFrom-read, ReadsFrom-pure, ReadsFrom-or_raise,
  ReadsFrom-require,
}
use mi_harness.Core.{RunStatus}
use mi_harness.Store.Schema.{Payload, RunRow, Database}
use mi_harness.Store.Records.{put, compare_and_set, insert_version, upsert}
use mi_harness.Store.Runs.{with_run_id, find_run, owned_by, run, runs, run_matches}
use mi_harness.Store.Events.{bump_seq}
use mi_harness.Store.Grants.{revoke_grants}
use mi_harness.Store.Waits.{child_ids_of, runs_of, children}
use mi_harness.Safety.Quiet.{IsQuiet}
use mi_harness.Safety.Lifecycle.{
  Reaches, find, Evolves-trans, update-Evolves, IsRead, stored-IsRead,
}
use mi_harness.Safety.Advances.{Advances, Since, Advances-reads}

-- Only the counter of events changes with an event.
pub since-IsQuiet : (rows : List RunRow) → IsQuiet (Since rows)
since-IsQuiet rows = record {
  outbox = λ d new h. h;
  events = λ d new h. h;
  bump = λ d k h. Evolves-trans rows d.runs _ h (
      update-Evolves (with_run_id k) bump_seq (λ x. refl) d.runs
        (λ x at own. record { reaches = Reaches.here; grows = omega arith; unmoved = λ e. refl }));
  operations = λ d new h. h;
  interactions = λ d new h. h;
  branches = λ d new h. h;
  accounts = λ d new h. h;
  reservations = λ d new h. h;
  attempts = λ d new h. h;
  waits = λ d new h. h;
}

found-IsRead : (k : String) (rows : List RunRow) (r : RunRow) → find k rows ≡ some r → IsRead r rows
found-IsRead k rows r found =
    let own : r.id ≡ k = same→eq r.id k (find_row_sound (with_run_id k) rows r found) in
    stored-IsRead r rows (subst (λ i. find i rows ≡ some r) (sym own) found)

run-Reads :
    (d : Database) (k : String) (owner : Option String)
    → ReadsFrom d (λ r. All (λ x. IsRead x d.runs) (r ∷ [])) (run k owner)
unfolding run
run-Reads d k owner = ReadsFrom-then d _ _ _ (ReadsFrom-gets d (find_run k)) (λ found at.
    ReadsFrom-then d _ _ _ (ReadsFrom-or_raise d not_found found) (λ r is.
      ReadsFrom-require d (owned_by owner r.owner_id) not_found _
        (λ allowed. ReadsFrom-pure d r (found-IsRead k d.runs r (at ∙ is), tt))))

pub run-Advances :
    (rs : List RunRow) (k : String) (owner : Option String)
    → Advances rs (λ r. r ∷ []) (run k owner)
run-Advances rs k owner = Advances-reads (run k owner) (λ d known. run-Reads d k owner)

pub runs-Advances :
    (rs : List RunRow) (session : Option String) (statuses : List RunStatus) (root : Option String)
    → Advances rs (λ xs. xs) (runs session statuses root)
unfolding runs
runs-Advances rs session statuses root = Advances-reads _ (λ d known. ReadsFrom-read d _ (
    All-order_by _ _ _ (
      All-select _ (run_matches session statuses root) d.runs
        (All-imp _ _ (λ x at. stored-IsRead x d.runs at) d.runs known.keys))))

runs_of-Reads :
    (d : Database) (ks : List String) → ReadsFrom d (All (λ x. IsRead x d.runs)) (runs_of ks)
unfolding runs_of
runs_of-Reads d [] = ReadsFrom-pure d [] tt
runs_of-Reads d (k ∷ ks) = ReadsFrom-then d _ _ _ (run-Reads d k none) (λ r read.
    ReadsFrom-then d _ _ _ (runs_of-Reads d ks)
      (λ xs others. ReadsFrom-pure d (r ∷ xs) (read.0, others)))

pub children-Advances : (rs : List RunRow) (k : String) → Advances rs (λ xs. xs) (children k)
unfolding children
children-Advances rs k = Advances-reads _ (λ d known.
    ReadsFrom-then d _ _ _ (ReadsFrom-gets d (child_ids_of k)) (λ ids is. runs_of-Reads d ids))

pub run-Keeps :
    (k : String) (owner : Option String) (rows : List RunRow) → Keeps (Since rows) (run k owner)
unfolding run
run-Keeps k owner rows = search keeps_rules

runs_of-Keeps : (ks : List String) (rows : List RunRow) → Keeps (Since rows) (runs_of ks)
unfolding runs_of
runs_of-Keeps [] rows = Keeps-pure []
runs_of-Keeps (k ∷ ks) rows =
    Keeps-bind _ _ (run-Keeps k none rows)
      (λ r. Keeps-bind _ _ (runs_of-Keeps ks rows) (λ rest. Keeps-pure (r ∷ rest)))

pub children-Keeps : (k : String) (rows : List RunRow) → Keeps (Since rows) (children k)
unfolding children
children-Keeps k rows = Keeps-bind _ _ (Keeps-gets (child_ids_of k)) (λ ids. runs_of-Keeps ids rows)

pub runs_of-Advances : (rs : List RunRow) (ks : List String) → Advances rs (λ xs. xs) (runs_of ks)
runs_of-Advances rs ks = Advances-reads _ (λ d known. runs_of-Reads d ks)

pub revoke_grants-Keeps :
    (k : String) (others : List String) (rows : List RunRow)
    → Keeps (Since rows) (revoke_grants k others)
unfolding revoke_grants
revoke_grants-Keeps k others rows = Keeps-modify _ (λ d h. h)

pub put-Keeps :
    (space k : String) (p : Payload) (rows : List RunRow) → Keeps (Since rows) (put space k p)
unfolding put compare_and_set insert_version upsert
put-Keeps space k p rows = search (keeps_rules, Keeps-modify) depth 20
