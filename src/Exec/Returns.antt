-- ===== src/Exec/Returns.antt =====
-- What an action returns: `m` returns only values of `Q` if `Q` holds of its value wherever it raises
-- nothing. Each guard that the action has passed is a hypothesis of the rest.
use mi_harness.Prelude.{◌≡◌, refl, sym, ap, subst, ◌∙◌, Bool, true, false, Option, none, some}
use mi_harness.Exec.{
  Code, Result, World, Exec, pure, gets, undo, transaction, modify, continue, ◌>>=◌, require,
  or_raise, ok, err,
}
use mi_harness.Exec.Keeps.{Keeps}

pub record Returns {D A : Type 0} (Q : A → Type 0) (m : Exec D A) : Type 0 where
  pub at : (w : World D) (a : A) → (m w).0 ≡ ok a → Q a

continue_returns :
    {D A B : Type 0} (Q : B → Type 0) (r : Result A) (w : World D) (f : A → Exec D B) (b : B)
    → ((a : A) → r ≡ ok a → (f a w).0 ≡ ok b → Q b)
    → (continue r f w).0 ≡ ok b
    → Q b
continue_returns Q (ok a) w f b k h = k a refl h
continue_returns Q (err c) w f b k h = cc

undo_ok :
    {D A : Type 0} (before : D) (r : Result A) (w : World D) (a : A)
    → (undo before (r, w)).0 ≡ ok a
    → r ≡ ok a
undo_ok before (ok x) w a h = h
undo_ok before (err c) w a h = cc

value_of : {A : Type 0} → A → Result A → A
value_of d (ok a) = a
value_of d (err c) = d

module _ {D A B : Type 0} {Q : B → Type 0} where
  pub Returns-bind :
      (m : Exec D A) (f : A → Exec D B) → ((a : A) → Returns Q (f a)) → Returns Q (m >>= f)
  unfolding ◌>>=◌
  Returns-bind m f k = record {
    at = λ w b h. continue_returns Q (m w).0 (m w).1 f b (λ a e g. (k a).at (m w).1 b g) h;
  }

  -- What the first step returns is known to the rest.
  pub Returns-then :
      (R : A → Type 0) (m : Exec D A) (f : A → Exec D B)
      → Returns R m
      → ((a : A) → R a → Returns Q (f a))
      → Returns Q (m >>= f)
  unfolding ◌>>=◌
  Returns-then R m f first k = record {
    at = λ w b h.
        continue_returns Q (m w).0 (m w).1 f b (λ a e g. (k a (first.at w a e)).at (m w).1 b g) h;
  }

module _ {D B : Type 0} {Q : B → Type 0} where
  pub Returns-require :
      (b : Bool) (c : Code) (f : Unit → Exec D B)
      → (b ≡ true → Returns Q (f tt))
      → Returns Q (require b c >>= f)
  unfolding ◌>>=◌ require
  Returns-require true c f k = record { at = (k refl).at }
  Returns-require false c f k = record { at = λ w b h. cc }

  pub Returns-pure : (b : B) → Q b → Returns Q (pure {D = D} b)
  unfolding pure value_of
  Returns-pure b q = record { at = λ w a h. subst Q (ap (value_of b) h) q }

  pub Returns-transaction : (m : Exec D B) → Returns Q m → Returns Q (transaction m)
  unfolding transaction
  Returns-transaction m k = record { at = λ w a h. k.at w a (undo_ok w.db (m w).0 (m w).1 a h) }

-- The same from a known state, for actions whose steps only read it.
pub record ReturnsFrom {D A : Type 0} (d : D) (Q : A → Type 0) (m : Exec D A) : Type 0 where
  pub at : (w : World D) (a : A) → w.db ≡ d → (m w).0 ≡ ok a → Q a

module _ {D A B : Type 0} {Q : B → Type 0} where
  pub ReturnsFrom-then :
      (d : D) (R : A → Type 0) (m : Exec D A) (f : A → Exec D B)
      → Keeps (λ x. x ≡ d) m
      → ReturnsFrom d R m
      → ((a : A) → R a → ReturnsFrom d Q (f a))
      → ReturnsFrom d Q (m >>= f)
  unfolding ◌>>=◌
  ReturnsFrom-then d R m f keeps first k = record {
    at = λ w b start h.
        continue_returns Q (m w).0 (m w).1 f b
          (λ a e g. (k a (first.at w a start e)).at (m w).1 b (keeps.at w start) g) h;
  }

  -- Nothing of what the first step returns is needed.
  pub ReturnsFrom-skip :
      (d : D) (m : Exec D A) (f : A → Exec D B)
      → Keeps (λ x. x ≡ d) m
      → ((a : A) → ReturnsFrom d Q (f a))
      → ReturnsFrom d Q (m >>= f)
  ReturnsFrom-skip d m f keeps k =
      ReturnsFrom-then d (λ _. Unit) m f keeps (record { at = λ w a e h. tt }) (λ a _. k a)

module _ {D A : Type 0} where
  pub ReturnsFrom-gets : (d : D) (f : D → A) → ReturnsFrom d (λ a. f d ≡ a) (gets f)
  unfolding gets value_of
  ReturnsFrom-gets d f = record { at = λ w a start h. sym (ap f start) ∙ ap (value_of (f w.db)) h }

  pub ReturnsFrom-any : {Q : A → Type 0} (d : D) (m : Exec D A) → Returns Q m → ReturnsFrom d Q m
  ReturnsFrom-any d m k = record { at = λ w a start h. k.at w a h }

  pub ReturnsFrom-transaction :
      {Q : A → Type 0} (d : D) (m : Exec D A) → ReturnsFrom d Q m → ReturnsFrom d Q (transaction m)
  unfolding transaction
  ReturnsFrom-transaction d m k = record {
    at = λ w a start h. k.at w a start (undo_ok w.db (m w).0 (m w).1 a h);
  }

module _ {D B : Type 0} {Q : B → Type 0} where
  pub ReturnsFrom-modify :
      (d : D) (write : D → D) (rest : Unit → Exec D B)
      → ReturnsFrom (write d) Q (rest tt)
      → ReturnsFrom d Q (modify write >>= rest)
  unfolding ◌>>=◌
  ReturnsFrom-modify d write rest k = record { at = λ w b start h. k.at _ b (ap write start) h }

  pub ReturnsFrom-require :
      (d : D) (b : Bool) (c : Code) (f : Unit → Exec D B)
      → (b ≡ true → ReturnsFrom d Q (f tt))
      → ReturnsFrom d Q (require b c >>= f)
  unfolding ◌>>=◌ require
  ReturnsFrom-require d true c f k = record { at = (k refl).at }
  ReturnsFrom-require d false c f k = record { at = λ w b start h. cc }

  pub Returns-anywhere : (m : Exec D B) → ((d : D) → ReturnsFrom d Q m) → Returns Q m
  Returns-anywhere m k = record { at = λ w b h. (k w.db).at w b refl h }

module _ {D A : Type 0} where
  pub Returns-or_raise :
      (c : Code) (found : Option A) → Returns {D = D} (λ a. found ≡ some a) (or_raise c found)
  unfolding or_raise
  Returns-or_raise c none = record { at = λ w b h. cc }
  Returns-or_raise c (some a) = Returns-pure a refl
