-- ===== src/Exec/Answers.antt =====
-- Methods that read and cannot raise: from the database `d`, `m` returns a value of `Q` and leaves the
-- database as it is.
use mi_harness.Prelude.{◌≡◌, refl, sym, ap, subst, ◌∙◌, Bool, true, Option, some}
use mi_harness.Exec.{Code, World, Exec, ok, pure, gets, ◌>>=◌, continue, require, or_raise}

pub record Answers {D A : Type 0} (d : D) (Q : A → Type 0) (m : Exec D A) : Type 0 where
  pub at :
      (w : World D) → w.db ≡ d → (a : A) × (w' : World D) × (m w ≡ (ok a, w')) × (w'.db ≡ d) × Q a

module _ {D A B : Type 0} {Q : B → Type 0} where
  pub Answers-then :
      (d : D) (R : A → Type 0) (m : Exec D A) (f : A → Exec D B)
      → Answers d R m
      → ((a : A) → R a → Answers d Q (f a))
      → Answers d Q (m >>= f)
  unfolding ◌>>=◌
  Answers-then d R m f first k = record {
    at = λ w start.
        let (a, w', is, stays, r) = first.at w start in
        let (b, w'', rest, still, q) = (k a r).at w' stays in
        (b, w'', ap (λ p. continue p.0 f p.1) is ∙ rest, still, q);
  }

module _ {D B : Type 0} {Q : B → Type 0} where
  pub Answers-require :
      (d : D) (b : Bool) (c : Code) (f : Unit → Exec D B)
      → b ≡ true
      → Answers d Q (f tt)
      → Answers d Q (require b c >>= f)
  unfolding ◌>>=◌ require
  Answers-require d b c f h k = rw h (record { at = k.at })

module _ {D A : Type 0} where
  pub Answers-gets : (d : D) (f : D → A) → Answers d (λ a. f d ≡ a) (gets f)
  unfolding gets
  Answers-gets d f = record { at = λ w start. (f w.db, w, refl, start, sym (ap f start)) }

  pub Answers-pure : {Q : A → Type 0} (d : D) (a : A) → Q a → Answers d Q (pure a)
  unfolding pure
  Answers-pure d a q = record { at = λ w start. (a, w, refl, start, q) }

  pub Answers-or_raise :
      (d : D) (c : Code) (found : Option A) (a : A)
      → found ≡ some a
      → Answers d (λ x. a ≡ x) (or_raise c found)
  unfolding or_raise pure
  Answers-or_raise d c found a h =
      subst (λ o. Answers d (λ x. a ≡ x) (or_raise c o)) (sym h)
        (record { at = λ w start. (a, w, refl, start, refl) })
