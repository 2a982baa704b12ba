-- ===== src/Exec/Leaves.antt =====
-- What an action leaves behind and returns: called in a state of `P`, where `m` returns `a`, its end
-- state is of `Q a`.
use mi_harness.Prelude.{◌≡◌, refl, ap, subst, Bool, true, false, if◌then◌else◌}
use mi_harness.Exec.{
  Code, Result, World, Exec, pure, raise, require, modify, gets, undo, transaction, continue, ◌>>=◌,
  ok, err,
}
use mi_harness.Exec.Keeps.{Keeps}

pub record Leaves {D A : Type 0} (P : D → Type 0) (Q : A → D → Type 0) (m : Exec D A) : Type 0 where
  pub at : (w : World D) (a : A) → P w.db → (m w).0 ≡ ok a → Q a (m w).1.db

module _ {D A B : Type 0} {Q : B → D → Type 0} where
  continue_leaves :
      (R : A → D → Type 0) (r : Result A) (w : World D) (f : A → Exec D B) (b : B)
      → ((a : A) → Leaves (R a) Q (f a))
      → ((a : A) → r ≡ ok a → R a w.db)
      → (continue r f w).0 ≡ ok b
      → Q b (continue r f w).1.db
  continue_leaves R (ok a) w f b k p h = (k a).at w b (p a refl) h
  continue_leaves R (err c) w f b k p h = cc

module _ {D A B : Type 0} {P : D → Type 0} {Q : B → D → Type 0} where
  -- The rest knows what the first step returned and left.
  pub Leaves-then :
      (R : A → D → Type 0) (m : Exec D A) (f : A → Exec D B)
      → Leaves P R m
      → ((a : A) → Leaves (R a) Q (f a))
      → Leaves P Q (m >>= f)
  unfolding ◌>>=◌
  Leaves-then R m f first k = record {
    at = λ w b p h. continue_leaves R (m w).0 (m w).1 f b k (λ a e. first.at w a p e) h;
  }

  -- The first step keeps what is known.
  pub Leaves-after :
      (m : Exec D A) (f : A → Exec D B)
      → Keeps P m
      → ((a : A) → Leaves P Q (f a))
      → Leaves P Q (m >>= f)
  Leaves-after m f kept k = Leaves-then (λ _. P) m f (record { at = λ w a p h. kept.at w p }) k

undo_leaves :
    {D A : Type 0} (Q : A → D → Type 0) (before : D) (r : Result A) (w : World D) (a : A)
    → ((x : A) → r ≡ ok x → Q x w.db)
    → (undo before (r, w)).0 ≡ ok a
    → Q a (undo before (r, w)).1.db
undo_leaves Q before (ok x) w a k h = k a h
undo_leaves Q before (err c) w a k h = cc

value_left : {A : Type 0} → A → Result A → A
value_left d (ok a) = a
value_left d (err c) = d

module _ {D A : Type 0} {P : D → Type 0} {Q : A → D → Type 0} where
  pub Leaves-transaction : (m : Exec D A) → Leaves P Q m → Leaves P Q (transaction m)
  unfolding transaction
  Leaves-transaction m e = record {
    at = λ w a p h. undo_leaves Q w.db (m w).0 (m w).1 a (λ x y. e.at w x p y) h;
  }

  pub Leaves-pure : (a : A) → ((d : D) → P d → Q a d) → Leaves P Q (pure a)
  unfolding pure value_left
  Leaves-pure a k = record {
    at = λ w b p h. subst (λ x. Q x w.db) (ap (value_left a) h) (k w.db p);
  }

  pub Leaves-read : (f : D → A) → ((d : D) → P d → Q (f d) d) → Leaves P Q (gets f)
  unfolding gets value_left
  Leaves-read f k = record {
    at = λ w b p h. subst (λ x. Q x w.db) (ap (value_left (f w.db)) h) (k w.db p);
  }

  pub Leaves-if :
      (b : Bool) (m n : Exec D A)
      → (b ≡ true → Leaves P Q m)
      → (b ≡ false → Leaves P Q n)
      → Leaves P Q (if b then m else n)
  Leaves-if true m n h k = h refl
  Leaves-if false m n h k = k refl

module _ {D A : Type 0} {P : D → Type 0} where
  pub Leaves-gets : (f : D → A) → Leaves P (λ a d. P d × (f d ≡ a)) (gets f)
  unfolding gets value_left
  Leaves-gets f = record { at = λ w a p h. (p, ap (value_left (f w.db)) h) }

  pub Leaves-raise : {Q : A → D → Type 0} (c : Code) → Leaves P Q (raise c)
  unfolding raise
  Leaves-raise c = record { at = λ w a p h. cc }

  pub Leaves-require :
      {Q : A → D → Type 0} (b : Bool) (c : Code) (f : Unit → Exec D A)
      → (b ≡ true → Leaves P Q (f tt))
      → Leaves P Q (require b c >>= f)
  unfolding ◌>>=◌ require
  Leaves-require true c f k = record { at = (k refl).at }
  Leaves-require false c f k = record { at = λ w a p h. cc }

module _ {D : Type 0} {P : D → Type 0} where
  pub Leaves-modify :
      {Q : D → Type 0} (f : D → D) → ((d : D) → P d → Q (f d)) → Leaves P (λ _. Q) (modify f)
  unfolding modify
  Leaves-modify f k = record { at = λ w a p h. k w.db p }

  pub Leaves-test :
      {Q : Unit → D → Type 0} (b : Bool) (c : Code)
      → (b ≡ true → (d : D) → P d → Q tt d)
      → Leaves P Q (require b c)
  unfolding require
  Leaves-test true c k = record { at = λ w a p h. k refl w.db p }
  Leaves-test false c k = record { at = λ w a p h. cc }

-- What a step keeps is known after it too.
pub Leaves-keeping :
    {D A : Type 0} {P R : D → Type 0} {Q S : A → D → Type 0} (m : Exec D A)
    → Leaves P Q m
    → Keeps R m
    → ((a : A) (d : D) → Q a d → R d → S a d)
    → Leaves (λ d. P d × R d) S m
Leaves-keeping m leaves keeps imp = record {
  at = λ w a p h. imp a (m w).1.db (leaves.at w a p.0 h) (keeps.at w p.1);
}
