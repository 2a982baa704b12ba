-- ===== src/Exec/Establishes.antt =====
-- What an action brings about: `m` establishes `Q` if `Q` holds of the state wherever `m` returns.
use mi_harness.Prelude.{◌≡◌, refl, sym, subst, inl, inr, Bool, true, false, if◌then◌else◌}
use mi_harness.Exec.{Result, World, Exec, gets, undo, transaction, modify, continue, ◌>>=◌, ok, err}
use mi_harness.Exec.Keeps.{Keeps}
use mi_harness.Exec.Atomic.{IsAtomic, Result-cases}

pub record Establishes {D A : Type 0} (Q : D → Type 0) (m : Exec D A) : Type 0 where
  pub at : (w : World D) (a : A) → (m w).0 ≡ ok a → Q (m w).1.db

module _ {D A B : Type 0} {Q : D → Type 0} where
  continue_establishes :
      (r : Result A) (w : World D) (f : A → Exec D B) (b : B)
      → ((a : A) → r ≡ ok a → Establishes Q (f a))
      → (continue r f w).0 ≡ ok b
      → Q (continue r f w).1.db
  continue_establishes (ok a) w f b k h = (k a refl).at w b h
  continue_establishes (err c) w f b k h = cc

  continue_kept :
      (r : Result A) (w : World D) (f : A → Exec D B) (b : B)
      → ((a : A) → r ≡ ok a → Q w.db)
      → ((a : A) → Keeps Q (f a))
      → (continue r f w).0 ≡ ok b
      → Q (continue r f w).1.db
  continue_kept (ok a) w f b q k h = (k a).at w (q a refl)
  continue_kept (err c) w f b q k h = cc

  -- A later step establishes it.
  pub Establishes-later :
      (m : Exec D A) (f : A → Exec D B) → ((a : A) → Establishes Q (f a)) → Establishes Q (m >>= f)
  unfolding ◌>>=◌
  Establishes-later m f k = record {
    at = λ w b h. continue_establishes (m w).0 (m w).1 f b (λ a e. k a) h;
  }

  -- The first step establishes it and the later ones keep it.
  pub Establishes-now :
      (m : Exec D A) (f : A → Exec D B)
      → Establishes Q m
      → ((a : A) → Keeps Q (f a))
      → Establishes Q (m >>= f)
  unfolding ◌>>=◌
  Establishes-now m f now k = record {
    at = λ w b h. continue_kept (m w).0 (m w).1 f b (λ a e. now.at w a e) k h;
  }

undo_establishes :
    {D A : Type 0} (Q : D → Type 0) (before : D) (r : Result A) (w : World D) (a : A)
    → ((x : A) → r ≡ ok x → Q w.db)
    → (undo before (r, w)).0 ≡ ok a
    → Q (undo before (r, w)).1.db
undo_establishes Q before (ok x) w a k h = k x refl
undo_establishes Q before (err c) w a k h = cc

module _ {D A : Type 0} {Q : D → Type 0} where
  pub Establishes-transaction : (m : Exec D A) → Establishes Q m → Establishes Q (transaction m)
  unfolding transaction
  Establishes-transaction m e = record {
    at = λ w a h. undo_establishes Q w.db (m w).0 (m w).1 a (λ x y. e.at w x y) h;
  }

module _ {D : Type 0} {Q : D → Type 0} where
  pub Establishes-modify : (f : D → D) → ((d : D) → Q (f d)) → Establishes Q (modify f)
  unfolding modify
  Establishes-modify f k = record { at = λ w a h. k w.db }

-- The same for calls from a state of `P`.
pub record EstablishesFrom {D A : Type 0} (P Q : D → Type 0) (m : Exec D A) : Type 0 where
  pub at : (w : World D) (a : A) → P w.db → (m w).0 ≡ ok a → Q (m w).1.db

module _ {D A B : Type 0} {P Q : D → Type 0} where
  from_then :
      (r : Result A) (w : World D) (f : A → Exec D B) (b : B)
      → ((a : A) → EstablishesFrom P Q (f a))
      → P w.db
      → (continue r f w).0 ≡ ok b
      → Q (continue r f w).1.db
  from_then (ok a) w f b k p h = (k a).at w b p h
  from_then (err c) w f b k p h = cc

  pub EstablishesFrom-then :
      (m : Exec D A) (f : A → Exec D B)
      → Keeps P m
      → ((a : A) → EstablishesFrom P Q (f a))
      → EstablishesFrom P Q (m >>= f)
  unfolding ◌>>=◌
  EstablishesFrom-then m f keeps k = record {
    at = λ w b p h. from_then (m w).0 (m w).1 f b k (keeps.at w p) h;
  }

  pub EstablishesFrom-now :
      (m : Exec D A) (f : A → Exec D B)
      → EstablishesFrom P Q m
      → ((a : A) → Keeps Q (f a))
      → EstablishesFrom P Q (m >>= f)
  unfolding ◌>>=◌
  EstablishesFrom-now m f now k = record {
    at = λ w b p h. continue_kept {Q = Q} (m w).0 (m w).1 f b (λ a e. now.at w a p e) k h;
  }

module _ {D A : Type 0} {P Q : D → Type 0} where
  pub EstablishesFrom-transaction :
      (m : Exec D A) → EstablishesFrom P Q m → EstablishesFrom P Q (transaction m)
  unfolding transaction
  EstablishesFrom-transaction m e = record {
    at = λ w a p h. undo_establishes Q w.db (m w).0 (m w).1 a (λ x y. e.at w x p y) h;
  }

module _ {D : Type 0} {P Q : D → Type 0} where
  pub EstablishesFrom-modify :
      (f : D → D) → ((d : D) → P d → Q (f d)) → EstablishesFrom P Q (modify f)
  unfolding modify
  EstablishesFrom-modify f k = record { at = λ w a p h. k w.db p }

module _ {D A B : Type 0} {P Q : D → Type 0} where
  -- What a read found is known to the rest.
  pub EstablishesFrom-gets :
      (f : D → A) (k : A → Exec D B)
      → ((a : A) → EstablishesFrom (λ d. P d × (f d ≡ a)) Q (k a))
      → EstablishesFrom P Q (gets f >>= k)
  unfolding ◌>>=◌
  EstablishesFrom-gets f k h = record { at = λ w b p e. (h (f w.db)).at w b (p, refl) e }

module _ {D B : Type 0} {P Q : D → Type 0} where
  pub EstablishesFrom-weaken :
      (R : D → Type 0) (m : Exec D B)
      → ((d : D) → P d → R d)
      → EstablishesFrom R Q m
      → EstablishesFrom P Q m
  EstablishesFrom-weaken R m imp h = record { at = λ w b p e. h.at w b (imp w.db p) e }

  pub EstablishesFrom-if :
      (b : Bool) (m n : Exec D B)
      → (b ≡ true → EstablishesFrom P Q m)
      → (b ≡ false → EstablishesFrom P Q n)
      → EstablishesFrom P Q (if b then m else n)
  EstablishesFrom-if true m n h k = h refl
  EstablishesFrom-if false m n h k = k refl

module _ {D A : Type 0} {P Q : D → Type 0} where
  pub EstablishesFrom-kept :
      (m : Exec D A) → ((d : D) → P d → Q d) → Keeps P m → EstablishesFrom P Q m
  EstablishesFrom-kept m imp kept = record { at = λ w a p h. imp (m w).1.db (kept.at w p) }

  -- What an atomic action establishes where it returns holds at its end in any case, where it held before.
  pub atomic_outcome :
      (m : Exec D A)
      → IsAtomic m
      → EstablishesFrom P Q m
      → (w : World D) → P w.db
      → Q w.db
      → Q (m w).1.db
  atomic_outcome m atomic now w p q = elim (Result-cases (m w).0) [
    | inl (a, e) ↦ now.at w a p e
    | inr (c, e) ↦ subst Q (sym (atomic.at w c e)) q
  ]
