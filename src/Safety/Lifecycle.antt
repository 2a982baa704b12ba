-- ===== src/Safety/Lifecycle.antt =====
-- The life of runs in harness/scheduler/service.py: how the table of runs changes from one state of
-- the database to a later one.
use mathlib.Core.Option
use mi_harness.Prelude.{
  String, ◌≤◌, ◌≡◌, refl, sym, ap, subst, ◌∙◌, inl, inr, Bool, true, false, Option, some, List, [],
  ◌∷◌, ◌++◌, arith, All, All-imp, All-append, same, same_refl, same→eq, is_some, get_or_else,
  find_row, update_rows, find_row_sound, find_row-append, find_row-update_rows, Bool-cases,
  if◌then◌else◌,
}
use mi_harness.Core.{RunStatus, is_terminal, same_status, status_in}
use mi_harness.Store.Schema.{RunRow}
use mi_harness.Store.Runs.{with_run_id}
use mi_harness.Scheduler.Transition.{allowed_next}

-- The statuses that a run can have after a sequence of transitions of the table ALLOWED.
pub data Reaches (a : RunStatus) : RunStatus → Type 0 where
  here : Reaches a a
  later : {b c : RunStatus} → Reaches a b → allowed_next b c ≡ true → Reaches a c

pub Reaches-trans : {a b c : RunStatus} → Reaches a b → Reaches b c → Reaches a c
Reaches-trans r here = r
Reaches-trans r (later s h) = later (Reaches-trans r s) h

-- No transition leaves a status of TERMINAL.
pub terminal-Reaches : (a : RunStatus) {b : RunStatus} → is_terminal a ≡ true → Reaches a b → a ≡ b
unfolding allowed_next
terminal-Reaches a t here = refl
terminal-Reaches a t (later {b = b} r h) =
    let same_as : a ≡ b = terminal-Reaches a t r in ground arith

-- A run that is being cancelled is not resumed.
pub cancelling-Reaches :
    (a : RunStatus) {b : RunStatus}
    → same_status a RunStatus.cancelling ≡ true
    → Reaches a b
    → status_in b (RunStatus.cancelling ∷ RunStatus.cancelled ∷ []) ≡ true
unfolding allowed_next
cancelling-Reaches a c here = ground arith
cancelling-Reaches a c (later {b = b} r h) =
    let before : status_in b (RunStatus.cancelling ∷ RunStatus.cancelled ∷ []) ≡ true =
      cancelling-Reaches a c r in
    ground arith

-- What a row of a run can be later: its status has moved along the table, and only together with
-- its revision.
pub record IsLater (x y : RunRow) : Type 0 where
  pub reaches : Reaches x.status y.status
  pub grows : x.revision ≤ y.revision
  pub unmoved : x.revision ≡ y.revision → x.status ≡ y.status

pub IsLater-refl : (x : RunRow) → IsLater x x
IsLater-refl x = record { reaches = Reaches.here; grows = omega arith; unmoved = λ e. refl }

pub IsLater-trans : (x y z : RunRow) → IsLater x y → IsLater y z → IsLater x z
IsLater-trans x y z h k = record {
  reaches = Reaches-trans h.reaches k.reaches;
  grows = omega (arith, h.grows, k.grows);
  unmoved = λ e.
      h.unmoved (omega (arith, e, h.grows, k.grows))
      ∙ k.unmoved (omega (arith, e, h.grows, k.grows));
}

abbrev pub find : String → List RunRow → Option RunRow
find k rows = find_row (with_run_id k) rows

-- A SELECT of the identifier of a row finds this row: the primary key of the table.
abbrev pub HasKeys : List RunRow → Type 0
HasKeys rows = All (λ x. find x.id rows ≡ some x) rows

-- Every run is still there and has only moved along the table of transitions.
pub record Evolves (rows later : List RunRow) : Type 0 where
  pub moves :
      (k : String) (x : RunRow)
      → find k rows ≡ some x
      → (y : RunRow) × (find k later ≡ some y) × IsLater x y
  pub keyed : HasKeys rows → HasKeys later

pub Evolves-refl : (rows : List RunRow) → Evolves rows rows
Evolves-refl rows = record { moves = λ k x h. (x, h, IsLater-refl x); keyed = λ h. h }

pub Evolves-trans : (a b c : List RunRow) → Evolves a b → Evolves b c → Evolves a c
Evolves-trans a b c h k = record {
  moves = λ key x found.
      let (y, at, first) = h.moves key x found in
      let (z, after, second) = k.moves key y at in (z, after, IsLater-trans x y z first second);
  keyed = λ keys. k.keyed (h.keyed keys);
}

-- An UPDATE that leaves the identifiers and makes no row that it selects earlier.
module _ (p : RunRow → Bool) (f : RunRow → RunRow) (own : (x : RunRow) → (f x).id ≡ x.id) where
  abbrev changed : RunRow → RunRow
  changed x = if p x then f x else x

  id_changed : (x : RunRow) → (changed x).id ≡ x.id
  id_changed x = elim (Bool-cases (p x)) [ inl y ↦ rw y (own x) | inr n ↦ rw n refl ]

  find-update :
      (k : String) (rows : List RunRow)
      → find k (update_rows p f rows) ≡ Option.map changed (find k rows)
  find-update k rows =
      find_row-update_rows p (with_run_id k) f rows (λ x. ap (λ i. same i k) (own x))

  All-changed :
      (Q R : RunRow → Type 0) (rows : List RunRow)
      → ((x : RunRow) → Q x → R (changed x))
      → All Q rows
      → All R (update_rows p f rows)
  unfolding update_rows
  All-changed Q R [] imp h = tt
  All-changed Q R (x ∷ xs) imp h = (imp x h.0, All-changed Q R xs imp h.1)

  changed-IsLater :
      (rows : List RunRow)
      → ((x : RunRow) → find x.id rows ≡ some x → p x ≡ true → IsLater x (f x))
      → (x : RunRow) → find x.id rows ≡ some x
      → IsLater x (changed x)
  changed-IsLater rows moved x at = elim (Bool-cases (p x)) [
    | inl y ↦ rw y (moved x at y)
    | inr n ↦ rw n (IsLater-refl x)
  ]

  pub update-Evolves :
      (rows : List RunRow)
      → ((x : RunRow) → find x.id rows ≡ some x → p x ≡ true → IsLater x (f x))
      → Evolves rows (update_rows p f rows)
  update-Evolves rows moved = record {
    moves = λ k x found.
        let own_key : x.id ≡ k = same→eq x.id k (find_row_sound (with_run_id k) rows x found) in
        (
          changed x,
          find-update k rows ∙ ap (Option.map changed) found,
          changed-IsLater rows moved x (subst (λ i. find i rows ≡ some x) (sym own_key) found),
        );
    keyed = λ keys.
        All-changed (λ x. find x.id rows ≡ some x) _ rows
          (λ x at.
            subst (λ i. find i (update_rows p f rows) ≡ some (changed x)) (sym (id_changed x))
              (find-update x.id rows ∙ ap (Option.map changed) at))
          keys;
  }

find-append :
    (k : String) (rows : List RunRow) (r x : RunRow)
    → find k rows ≡ some x
    → find k (rows ++ r ∷ []) ≡ some x
find-append k rows r x found = find_row-append (with_run_id k) rows r ∙ rw found refl

-- An INSERT of a new identifier.
pub append-Evolves :
    (rows : List RunRow) (r : RunRow)
    → is_some (find r.id rows) ≡ false
    → Evolves rows (rows ++ r ∷ [])
append-Evolves rows r new = record {
  moves = λ k x found. (x, find-append k rows r x found, IsLater-refl x);
  keyed = λ keys.
      All-append (λ x. find x.id (rows ++ r ∷ []) ≡ some x) rows (r ∷ [])
        (All-imp _ _ (λ x at. find-append x.id rows r x at) rows keys)
        ((find_row-append (with_run_id r.id) rows r ∙ rw new (rw (same_refl r.id) refl), tt));
}

-- A row that has been read: the run is there, and is this row or a later one.
pub IsRead : RunRow → List RunRow → Type 0
IsRead r rows = (x : RunRow) × (find r.id rows ≡ some x) × IsLater r x

pub stored-IsRead : (r : RunRow) (rows : List RunRow) → find r.id rows ≡ some r → IsRead r rows
unfolding IsRead
stored-IsRead r rows at = (r, at, IsLater-refl r)

pub IsRead-Evolves : (r : RunRow) (a b : List RunRow) → Evolves a b → IsRead r a → IsRead r b
unfolding IsRead
IsRead-Evolves r a b h (x, at, since) =
    let (y, now, moved) = h.moves r.id x at in (y, now, IsLater-trans r x y since moved)

-- Where the run still has the revision that was read, it has the status that was read.
pub IsRead-status :
    (r x : RunRow) (rows : List RunRow)
    → IsRead r rows
    → find r.id rows ≡ some x
    → r.revision ≡ x.revision
    → r.status ≡ x.status
unfolding IsRead
IsRead-status r x rows (y, at, since) found same_revision =
    let one : y ≡ x = ap (λ o. get_or_else o y) (sym at ∙ found) in
    since.unmoved (same_revision ∙ ap (λ (z : RunRow). z.revision) (sym one))
    ∙ ap (λ (z : RunRow). z.status) one
