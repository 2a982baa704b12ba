-- ===== src/Exec/Hands.antt =====
-- What an action hands over: from a state of `P`, where `m` returns, `Q` holds of its value and of the
-- state that it leaves.
use mi_harness.Prelude.{◌≡◌, refl, ap, subst, Bool, true, false, if◌then◌else◌}
use mi_harness.Exec.{
  Code, Result, World, Exec, pure, undo, transaction, modify, continue, ◌>>=◌, require, ok, err,
}
use mi_harness.Exec.Keeps.{Keeps}
use mi_harness.Exec.Returns.{Returns}

pub record Hands {D A : Type 0} (P : D → Type 0) (Q : A → D → Type 0) (m : Exec D A) : Type 0 where
  pub at : (w : World D) (a : A) → P w.db → (m w).0 ≡ ok a → Q a (m w).1.db

continue_hands :
    {D A B : Type 0} (R : A → D → Type 0) (Q : B → D → Type 0) (r : Result A) (w : World D)
    (f : A → Exec D B) (b : B)
    → ((a : A) → r ≡ ok a → R a w.db)
    → ((a : A) → Hands (R a) Q (f a))
    → (continue r f w).0 ≡ ok b
    → Q b (continue r f w).1.db
continue_hands R Q (ok a) w f b first k h = (k a).at w b (first a refl) h
continue_hands R Q (err c) w f b first k h = cc

undo_hands :
    {D A : Type 0} (Q : A → D → Type 0) (before : D) (r : Result A) (w : World D) (a : A)
    → ((x : A) → r ≡ ok x → Q x w.db)
    → (undo before (r, w)).0 ≡ ok a
    → Q a (undo before (r, w)).1.db
undo_hands Q before (ok x) w a k h = k a h
undo_hands Q before (err c) w a k h = cc

value_of : {A : Type 0} → A → Result A → A
value_of d (ok a) = a
value_of d (err c) = d

module _ {D A B : Type 0} {P : D → Type 0} {Q : B → D → Type 0} where
  pub Hands-then :
      (R : A → D → Type 0) (m : Exec D A) (f : A → Exec D B)
      → Hands P R m
      → ((a : A) → Hands (R a) Q (f a))
      → Hands P Q (m >>= f)
  unfolding ◌>>=◌
  Hands-then R m f first k = record {
    at = λ w b p h. continue_hands R Q (m w).0 (m w).1 f b (λ a e. first.at w a p e) k h;
  }

  -- A step that keeps what is known.
  pub Hands-after :
      (m : Exec D A) (f : A → Exec D B)
      → Keeps P m
      → ((a : A) → Hands P Q (f a))
      → Hands P Q (m >>= f)
  Hands-after m f kept k = Hands-then (λ _. P) m f (record { at = λ w a p h. kept.at w p }) k

  -- What it returns is known to the rest too.
  pub Hands-known :
      (R : A → Type 0) (m : Exec D A) (f : A → Exec D B)
      → Keeps P m
      → Returns R m
      → ((a : A) → R a → Hands P Q (f a))
      → Hands P Q (m >>= f)
  Hands-known R m f kept known k =
      Hands-then (λ a d. R a × P d) m f (record { at = λ w a p h. (known.at w a h, kept.at w p) })
        (λ a. record { at = λ w b p h. (k a p.0).at w b p.1 h })

module _ {D A : Type 0} {P : D → Type 0} {Q : A → D → Type 0} where
  pub Hands-transaction : (m : Exec D A) → Hands P Q m → Hands P Q (transaction m)
  unfolding transaction
  Hands-transaction m k = record {
    at = λ w a p h. undo_hands Q w.db (m w).0 (m w).1 a (λ x e. k.at w x p e) h;
  }

  pub Hands-if :
      (b : Bool) (m n : Exec D A) → Hands P Q m → Hands P Q n → Hands P Q (if b then m else n)
  Hands-if true m n h k = h
  Hands-if false m n h k = k

  pub Hands-require :
      (b : Bool) (c : Code) (f : Unit → Exec D A)
      → (b ≡ true → Hands P Q (f tt))
      → Hands P Q (require b c >>= f)
  unfolding ◌>>=◌ require
  Hands-require true c f k = record { at = (k refl).at }
  Hands-require false c f k = record { at = λ w b p h. cc }

  pub Hands-pure : (a : A) → ((d : D) → P d → Q a d) → Hands P Q (pure {D = D} a)
  unfolding pure value_of
  Hands-pure a k = record { at = λ w b p h. subst (λ x. Q x w.db) (ap (value_of a) h) (k w.db p) }

module _ {D : Type 0} {P : D → Type 0} {Q : Unit → D → Type 0} where
  pub Hands-modify : (write : D → D) → ((d : D) → P d → Q tt (write d)) → Hands P Q (modify write)
  unfolding modify
  Hands-modify write k = record { at = λ w a p h. k w.db p }
