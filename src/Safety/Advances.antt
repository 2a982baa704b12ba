-- ===== src/Safety/Advances.antt =====
-- Methods of harness/storage/store.py and harness/scheduler/service.py that move runs only along the
-- table of transitions: from a state in which the rows `rs` have been read, every run is still there
-- at the end, as it was or moved along the table, and the rows `out a` of what is returned are read.
use mathlib.Core.List.{reverse, reverse-cons}
use mi_harness.Prelude.{
  ◌≡◌, refl, sym, ap, subst, Bool, true, false, List, [], ◌∷◌, ◌++◌, All, All-append, All-imp,
  if◌then◌else◌,
}
use mi_harness.Exec.{
  Code, Result, World, ok, err, pure, modify, undo, transaction, continue, ◌>>=◌, require, when,
  for_each,
}
use mi_harness.Exec.Keeps.{Keeps, Keeps-modify, Keeps-pure}
use mi_harness.Exec.Reads.{ReadsFrom, ReadsFrom-pure}
use mi_harness.Store.Schema.{RunRow, Database, Db}
use mi_harness.Safety.Lifecycle.{
  HasKeys, Evolves, Evolves-refl, Evolves-trans, IsRead, IsRead-Evolves,
}

pub record Knows (rs : List RunRow) (d : Database) : Type 0 where
  pub keys : HasKeys d.runs
  pub read : All (λ r. IsRead r d.runs) rs

pub later-Knows :
    (rs xs : List RunRow) (d d' : Database)
    → Knows rs d
    → Evolves d.runs d'.runs
    → All (λ r. IsRead r d'.runs) xs
    → Knows (xs ++ rs) d'
later-Knows rs xs d d' k h new = record {
  keys = h.keyed k.keys;
  read =
      All-append (λ r. IsRead r d'.runs) xs rs new
        (All-imp _ _ (λ r read. IsRead-Evolves r d.runs d'.runs h read) rs k.read);
}

pub forget : (xs rs : List RunRow) (d : Database) → Knows (xs ++ rs) d → Knows rs d
forget [] rs d known = known
forget (x ∷ xs) rs d known = forget xs rs d (record { keys = known.keys; read = known.read.1 })

pub record Advances {A : Type 0} (rs : List RunRow) (out : A → List RunRow) (m : Db A)
    : Type 0 where
  pub at :
      (w : World Database)
      → Knows rs w.db
      → Evolves w.db.runs (m w).1.db.runs
        × ((a : A) → (m w).0 ≡ ok a → All (λ r. IsRead r (m w).1.db.runs) (out a))

abbrev pub nothing : {A : Type 0} → A → List RunRow
nothing a = []

module _ {A B : Type 0} {out' : B → List RunRow} where
  continue-Advances :
      (d : Database) (rs : List RunRow) (out : A → List RunRow) (r : Result A) (w : World Database)
      (f : A → Db B)
      → ((a : A) → Advances (out a ++ rs) out' (f a))
      → Knows rs d
      → Evolves d.runs w.db.runs
      → ((a : A) → r ≡ ok a → All (λ x. IsRead x w.db.runs) (out a))
      → Evolves d.runs (continue r f w).1.db.runs
        × ((b : B)
            → (continue r f w).0 ≡ ok b
            → All (λ x. IsRead x (continue r f w).1.db.runs) (out' b))
  continue-Advances d rs out (ok a) w f k known first read =
      let rest = (k a).at w (later-Knows rs (out a) d w.db known first (read a refl)) in
      (Evolves-trans d.runs w.db.runs (f a w).1.db.runs first rest.0, rest.1)
  continue-Advances d rs out (err c) w f k known first read = (first, λ b h. cc)

  pub Advances-then :
      (rs : List RunRow) (out : A → List RunRow) (m : Db A) (f : A → Db B)
      → Advances rs out m
      → ((a : A) → Advances (out a ++ rs) out' (f a))
      → Advances rs out' (m >>= f)
  unfolding ◌>>=◌
  Advances-then rs out m f first k = record {
    at = λ w known.
        let now = first.at w known in
        continue-Advances w.db rs out (m w).0 (m w).1 f k known now.0 now.1;
  }

undone-Advances :
    {A : Type 0} (d : Database) (out : A → List RunRow) (r : Result A) (w : World Database)
    → Evolves d.runs w.db.runs × ((a : A) → r ≡ ok a → All (λ x. IsRead x w.db.runs) (out a))
    → Evolves d.runs (undo d (r, w)).1.db.runs
      × ((a : A) → (undo d (r, w)).0 ≡ ok a → All (λ x. IsRead x (undo d (r, w)).1.db.runs) (out a))
undone-Advances d out (ok a) w h = h
undone-Advances d out (err c) w h = (Evolves-refl d.runs, λ a e. cc)

module _ {A : Type 0} {rs : List RunRow} {out : A → List RunRow} where
  pub Advances-transaction : (m : Db A) → Advances rs out m → Advances rs out (transaction m)
  unfolding transaction
  Advances-transaction m h = record {
    at = λ w known. undone-Advances w.db out (m w).0 (m w).1 (h.at w known);
  }

  pub Advances-if :
      (b : Bool) (m n : Db A)
      → Advances rs out m
      → Advances rs out n
      → Advances rs out (if b then m else n)
  Advances-if true m n h k = h
  Advances-if false m n h k = k

  pub Advances-require :
      (b : Bool) (c : Code) (f : Unit → Db A)
      → (b ≡ true → Advances rs out (f tt))
      → Advances rs out (require b c >>= f)
  unfolding ◌>>=◌ require
  Advances-require true c f h = record { at = (h refl).at }
  Advances-require false c f h = record { at = λ w known. (Evolves-refl w.db.runs, λ a e. cc) }

  -- A method that only reads.
  pub Advances-reads :
      (m : Db A)
      → ((d : Database) → Knows rs d → ReadsFrom d (λ a. All (λ r. IsRead r d.runs) (out a)) m)
      → Advances rs out m
  Advances-reads m h = record {
    at = λ w known.
        let (stays, read) = (h w.db known).at w refl in
        let same_runs : (m w).1.db.runs ≡ w.db.runs = ap (λ (d : Database). d.runs) stays in
        (
          subst (Evolves w.db.runs) (sym same_runs) (Evolves-refl w.db.runs),
          λ a e. subst (λ rows. All (λ r. IsRead r rows) (out a)) (sym same_runs) (read a e),
        );
  }

  pub Advances-pure :
      (a : A)
      → ((d : Database) → Knows rs d → All (λ r. IsRead r d.runs) (out a))
      → Advances rs out (pure a)
  Advances-pure a h = Advances-reads (pure a) (λ d known. ReadsFrom-pure d a (h d known))

abbrev pub Since : List RunRow → Database → Type 0
Since rows d = Evolves rows d.runs

module _ {A : Type 0} {rs : List RunRow} where
  -- A method that keeps the evolution from every state reads nothing that matters.
  pub Advances-quiet :
      (m : Db A) → ((rows : List RunRow) → Keeps (Since rows) m) → Advances rs nothing m
  Advances-quiet m kept = record {
    at = λ w known. ((kept w.db.runs).at w (Evolves-refl w.db.runs), λ a h. tt);
  }

  -- The rows that are returned are forgotten.
  pub Advances-forget :
      (out : A → List RunRow) (m : Db A) → Advances rs out m → Advances rs nothing m
  Advances-forget out m h = record { at = λ w known. ((h.at w known).0, λ a e. tt) }

module _ {A B : Type 0} {out : B → List RunRow} where
  -- A step that reads and writes no run.
  pub Advances-after :
      (rs : List RunRow) (m : Db A) (f : A → Db B)
      → ((rows : List RunRow) → Keeps (Since rows) m)
      → ((a : A) → Advances rs out (f a))
      → Advances rs out (m >>= f)
  Advances-after rs m f kept k = Advances-then rs nothing m f (Advances-quiet m kept) k

module _ {rs : List RunRow} where
  pub Advances-modify :
      (f : Database → Database)
      → ((d : Database) → Knows rs d → Evolves d.runs (f d).runs)
      → Advances rs nothing (modify f)
  Advances-modify f h = record {
    at = λ w known.
        let after =
          (Keeps-modify {P = λ d. Knows rs d × Evolves w.db.runs d.runs} f (λ d p.
              let step = h d p.0 in
              (
                later-Knows rs [] d (f d) p.0 step tt,
                Evolves-trans w.db.runs d.runs (f d).runs p.1 step,
              ))).at
            w (known, Evolves-refl w.db.runs) in
        (after.1, λ a e. tt);
  }

  pub Advances-when :
      (b : Bool) (m : Db Unit) → Advances rs nothing m → Advances rs nothing (when b m)
  unfolding when
  Advances-when true m h = h
  Advances-when false m h = Advances-quiet (pure tt) (λ rows. Keeps-pure tt)

  pub Advances-for_each :
      {A : Type 0} (xs : List A) (body : A → Db Unit)
      → All (λ x. Advances rs nothing (body x)) xs
      → Advances rs nothing (for_each xs body)
  unfolding for_each
  Advances-for_each [] body h = Advances-quiet (pure tt) (λ rows. Keeps-pure tt)
  Advances-for_each (x ∷ xs) body h =
      Advances-then rs nothing (body x) (λ _. for_each xs body) h.0
        (λ u. Advances-for_each xs body h.1)

pub All_known :
    (xs rs : List RunRow) → All (λ x. (d : Database) → Knows (xs ++ rs) d → IsRead x d.runs) xs
All_known [] rs = tt
All_known (x ∷ xs) rs = (
  λ d known. known.read.0,
  All-imp _ _ (λ y h d known. h d (record { keys = known.keys; read = known.read.1 })) xs
      (All_known xs rs),
)

-- A loop over rows that have been read.
pub Advances-over :
    (xs rs : List RunRow) (body : RunRow → Db Unit)
    → ((x : RunRow)
        → ((d : Database) → Knows (xs ++ rs) d → IsRead x d.runs)
        → Advances (xs ++ rs) nothing (body x))
    → Advances (xs ++ rs) nothing (for_each xs body)
Advances-over xs rs body h = Advances-for_each xs body (All-imp _ _ h xs (All_known xs rs))

All-reverse : {A : Type 0} (P : A → Type 0) (xs : List A) → All P xs → All P (reverse xs)
All-reverse P [] h = tt
All-reverse P (x ∷ xs) h =
    subst (All P) (sym (reverse-cons x xs))
      (All-append P (reverse xs) (x ∷ []) (All-reverse P xs h.1) (h.0, tt))

-- The same from the last row to the first.
pub Advances-back :
    (xs rs : List RunRow) (body : RunRow → Db Unit)
    → ((x : RunRow)
        → ((d : Database) → Knows (xs ++ rs) d → IsRead x d.runs)
        → Advances (xs ++ rs) nothing (body x))
    → Advances (xs ++ rs) nothing (for_each (reverse xs) body)
Advances-back xs rs body h =
    Advances-for_each (reverse xs) body (All-reverse _ xs (All-imp _ _ h xs (All_known xs rs)))
