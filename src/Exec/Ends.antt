-- ===== src/Exec/Ends.antt =====
-- Actions that do not raise a given error: called in a state of `P`, `m` does not raise `c`, and
-- where it returns, its end state is of `Q`.
use mi_harness.Prelude.{◌≡◌, ◌≢◌, refl, Bool, true, false, List, [], ◌∷◌, All, if◌then◌else◌}
use mi_harness.Exec.{
  Code, Result, World, Exec, pure, raise, gets, modify, continue, ◌>>=◌, require, for_each, ok, err,
}

pub record Ends {D A : Type 0} (c : Code) (P Q : D → Type 0) (m : Exec D A) : Type 0 where
  pub at : (w : World D) → P w.db → ((m w).0 ≢ err c) × ((a : A) → (m w).0 ≡ ok a → Q (m w).1.db)

module _ {D : Type 0} {c : Code} where
  continue-Ends :
      {A B : Type 0} (R Q : D → Type 0) (r : Result A) (w : World D) (f : A → Exec D B)
      → ((a : A) → Ends c R Q (f a))
      → (r ≢ err c) × ((a : A) → r ≡ ok a → R w.db)
      → ((continue r f w).0 ≢ err c)
        × ((b : B) → (continue r f w).0 ≡ ok b → Q (continue r f w).1.db)
  continue-Ends R Q (ok a) w f k h = (k a).at w (h.1 a refl)
  continue-Ends R Q (err e) w f k h = (λ same_error. h.0 cc, λ b returned. cc)

  pub Ends-then :
      {A B : Type 0} {P Q : D → Type 0} (R : D → Type 0) (m : Exec D A) (f : A → Exec D B)
      → Ends c P R m
      → ((a : A) → Ends c R Q (f a))
      → Ends c P Q (m >>= f)
  unfolding ◌>>=◌
  Ends-then {Q = Q} R m f first k = record {
    at = λ w p. continue-Ends R Q (m w).0 (m w).1 f k (first.at w p);
  }

  -- What a read found is known to the rest.
  pub Ends-gets :
      {A B : Type 0} {P Q : D → Type 0} (f : D → A) (k : A → Exec D B)
      → ((a : A) → Ends c (λ d. P d × (f d ≡ a)) Q (k a))
      → Ends c P Q (gets f >>= k)
  unfolding ◌>>=◌
  Ends-gets f k h = record { at = λ w p. (h (f w.db)).at w (p, refl) }

  pub Ends-require :
      {B : Type 0} {P Q : D → Type 0} (b : Bool) (e : Code) (k : Unit → Exec D B)
      → e ≢ c
      → (b ≡ true → Ends c P Q (k tt))
      → Ends c P Q (require b e >>= k)
  unfolding ◌>>=◌ require
  Ends-require true e k other h = record { at = (h refl).at }
  Ends-require false e k other h = record { at = λ w p. (λ x. other cc, λ a x. cc) }

  pub Ends-raise : {A : Type 0} {P Q : D → Type 0} (e : Code) → e ≢ c → Ends c P Q (raise {A = A} e)
  unfolding raise
  Ends-raise e other = record { at = λ w p. (λ x. other cc, λ a x. cc) }

  pub Ends-pure : {A : Type 0} {P : D → Type 0} (a : A) → Ends c P P (pure a)
  unfolding pure
  Ends-pure a = record { at = λ w p. (λ x. cc, λ b x. p) }

  pub Ends-modify :
      {P Q : D → Type 0} (f : D → D) → ((d : D) → P d → Q (f d)) → Ends c P Q (modify f)
  unfolding modify
  Ends-modify f k = record { at = λ w p. (λ x. cc, λ b x. k w.db p) }

  pub Ends-if :
      {A : Type 0} {P Q : D → Type 0} (b : Bool) (m n : Exec D A)
      → (b ≡ true → Ends c P Q m)
      → (b ≡ false → Ends c P Q n)
      → Ends c P Q (if b then m else n)
  Ends-if true m n h k = h refl
  Ends-if false m n h k = k refl

  pub Ends-for_each :
      {A : Type 0} {P : D → Type 0} (xs : List A) (body : A → Exec D Unit)
      → All (λ x. Ends c P P (body x)) xs
      → Ends c P P (for_each xs body)
  unfolding for_each
  Ends-for_each {P = P} [] body h = Ends-pure tt
  Ends-for_each {P = P} (x ∷ xs) body h =
      Ends-then P (body x) (λ _. for_each xs body) h.0 (λ u. Ends-for_each xs body h.1)

  pub Ends-from :
      {A : Type 0} {P Q : D → Type 0} (R : D → Type 0) (m : Exec D A)
      → ((d : D) → P d → R d)
      → Ends c R Q m
      → Ends c P Q m
  Ends-from R m imp h = record { at = λ w p. h.at w (imp w.db p) }

  -- What follows of the state in any case is known.
  pub Ends-knowing :
      {A : Type 0} {P Q : D → Type 0} (X : Type 0) (m : Exec D A)
      → ((d : D) → P d → X)
      → (X → Ends c P Q m)
      → Ends c P Q m
  Ends-knowing X m imp h = record { at = λ w p. (h (imp w.db p)).at w p }

  pub Ends-test : {P : D → Type 0} (b : Bool) (e : Code) → e ≢ c → Ends c P P (require b e)
  unfolding require
  Ends-test true e other = record { at = λ w p. (λ x. cc, λ a x. p) }
  Ends-test false e other = record { at = λ w p. (λ x. other cc, λ a x. cc) }

  pub Ends-read : {A : Type 0} {P : D → Type 0} (f : D → A) → Ends c P (λ d. Unit) (gets f)
  unfolding gets
  Ends-read f = record { at = λ w p. (λ x. cc, λ a x. tt) }
