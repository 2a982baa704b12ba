-- ===== src/Exec/Reads.antt =====
-- Actions that only read: from the state `d`, `m` leaves the state as it is, and what it returns is of
-- `Q`. What one step returns is known to the rest.
use mi_harness.Prelude.{
  ◌≡◌, refl, sym, ap, subst, ◌∙◌, Bool, true, false, Option, none, some, if◌then◌else◌,
}
use mi_harness.Exec.{
  Code, Result, World, Exec, pure, raise, gets, undo, transaction, continue, ◌>>=◌, require,
  or_raise, ok, err,
}
use mi_harness.Exec.Keeps.{Keeps}

pub record ReadsFrom {D A : Type 0} (d : D) (Q : A → Type 0) (m : Exec D A) : Type 0 where
  pub at : (w : World D) → w.db ≡ d → ((m w).1.db ≡ d) × ((a : A) → (m w).0 ≡ ok a → Q a)

module _ {D A B : Type 0} {Q : B → Type 0} where
  continue_reads :
      (d : D) (R : A → Type 0) (r : Result A) (w : World D) (f : A → Exec D B)
      → ((a : A) → R a → ReadsFrom d Q (f a))
      → w.db ≡ d
      → ((a : A) → r ≡ ok a → R a)
      → ((continue r f w).1.db ≡ d) × ((b : B) → (continue r f w).0 ≡ ok b → Q b)
  continue_reads d R (ok a) w f k start q = (k a (q a refl)).at w start
  continue_reads d R (err c) w f k start q = (start, λ b h. cc)

  pub ReadsFrom-then :
      (d : D) (R : A → Type 0) (m : Exec D A) (f : A → Exec D B)
      → ReadsFrom d R m
      → ((a : A) → R a → ReadsFrom d Q (f a))
      → ReadsFrom d Q (m >>= f)
  unfolding ◌>>=◌
  ReadsFrom-then d R m f first k = record {
    at =
        λ w start. let now = first.at w start in continue_reads d R (m w).0 (m w).1 f k now.0 now.1;
  }

module _ {D B : Type 0} {Q : B → Type 0} where
  pub ReadsFrom-require :
      (d : D) (b : Bool) (c : Code) (f : Unit → Exec D B)
      → (b ≡ true → ReadsFrom d Q (f tt))
      → ReadsFrom d Q (require b c >>= f)
  unfolding ◌>>=◌ require
  ReadsFrom-require d true c f k = record { at = (k refl).at }
  ReadsFrom-require d false c f k = record { at = λ w start. (start, λ b h. cc) }

undone :
    {D A : Type 0} (Q : A → Type 0) (d before : D) (r : Result A) (w : World D)
    → before ≡ d
    → (w.db ≡ d) × ((a : A) → r ≡ ok a → Q a)
    → ((undo before (r, w)).1.db ≡ d) × ((a : A) → (undo before (r, w)).0 ≡ ok a → Q a)
undone Q d before (ok a) w start h = h
undone Q d before (err c) w start h = (start, λ a e. cc)

value_read : {A : Type 0} → A → Result A → A
value_read x (ok a) = a
value_read x (err c) = x

module _ {D A : Type 0} where
  pub ReadsFrom-Keeps : (d : D) (m : Exec D A) → Keeps (λ x. x ≡ d) m → ReadsFrom d (λ _. Unit) m
  ReadsFrom-Keeps d m k = record { at = λ w start. (k.at w start, λ a h. tt) }

  pub ReadsFrom-gets : (d : D) (f : D → A) → ReadsFrom d (λ a. f d ≡ a) (gets f)
  unfolding gets value_read
  ReadsFrom-gets d f = record {
    at = λ w start. (start, λ a h. sym (ap f start) ∙ ap (value_read (f w.db)) h);
  }

  pub ReadsFrom-read : {Q : A → Type 0} (d : D) (f : D → A) → Q (f d) → ReadsFrom d Q (gets f)
  unfolding gets value_read
  ReadsFrom-read {Q} d f q = record {
    at = λ w start. (start, λ a h. subst Q (sym (ap f start) ∙ ap (value_read (f w.db)) h) q);
  }

  pub ReadsFrom-pure : {Q : A → Type 0} (d : D) (a : A) → Q a → ReadsFrom d Q (pure a)
  unfolding pure value_read
  ReadsFrom-pure {Q} d a q = record {
    at = λ w start. (start, λ x h. subst Q (ap (value_read a) h) q);
  }

  pub ReadsFrom-raise : {Q : A → Type 0} (d : D) (c : Code) → ReadsFrom d Q (raise c)
  unfolding raise
  ReadsFrom-raise d c = record { at = λ w start. (start, λ x h. cc) }

  pub ReadsFrom-if :
      {Q : A → Type 0} (d : D) (b : Bool) (m n : Exec D A)
      → ReadsFrom d Q m
      → ReadsFrom d Q n
      → ReadsFrom d Q (if b then m else n)
  ReadsFrom-if d true m n k l = k
  ReadsFrom-if d false m n k l = l

  pub ReadsFrom-or_raise :
      (d : D) (c : Code) (found : Option A) → ReadsFrom d (λ a. found ≡ some a) (or_raise c found)
  unfolding or_raise
  ReadsFrom-or_raise d c (some a) = ReadsFrom-pure d a refl
  ReadsFrom-or_raise d c none = ReadsFrom-raise d c

  pub ReadsFrom-transaction :
      {Q : A → Type 0} (d : D) (m : Exec D A) → ReadsFrom d Q m → ReadsFrom d Q (transaction m)
  unfolding transaction
  ReadsFrom-transaction {Q} d m k = record {
    at = λ w start. undone Q d w.db (m w).0 (m w).1 start (k.at w start);
  }
