-- ===== src/Exec/Keeps.antt =====
-- Invariants of methods: `m` keeps `P` where every call of it from a state of `P`, returning or
-- raising, ends in a state of `P`. Each way to build a method has a rule below; a relation to a
-- fixed earlier state is an invariant too, so the rules also prove what a method leaves alone.
use mi_harness.Prelude.{ℕ, Bool, true, false, Option, none, some, List, [], ◌∷◌, if◌then◌else◌}
use mi_harness.Exec.{
  Code, Result, ok, err, Exec, World, new_id, utc_now, after_seconds, pure, raise, gets, modify,
  transaction, undo, ◌>>=◌, continue, require, when, or_raise, for_each, rescue, handled,
}

pub record Keeps {D A : Type 0} (P : D → Type 0) (m : Exec D A) : Type 0 where
  pub at : (w : World D) → P w.db → P (m w).1.db

module _ {D : Type 0} {P : D → Type 0} where
  pub Keeps-utc_now : Keeps P (utc_now {D = D})
  unfolding utc_now
  Keeps-utc_now = record { at = λ w inv. inv }

  pub Keeps-new_id : Keeps P (new_id {D = D})
  unfolding new_id
  Keeps-new_id = record { at = λ w inv. inv }

  pub Keeps-after_seconds : (seconds : ℕ) → Keeps P (after_seconds {D = D} seconds)
  unfolding after_seconds
  Keeps-after_seconds seconds = record { at = λ w inv. inv }

  pub Keeps-modify : (write : D → D) → ((d : D) → P d → P (write d)) → Keeps P (modify write)
  unfolding modify
  Keeps-modify write stays = record { at = λ w inv. stays w.db inv }

  pub Keeps-require : (test : Bool) (code : Code) → Keeps P (require test code)
  unfolding require
  Keeps-require false code = record { at = λ w inv. inv }
  Keeps-require true code = record { at = λ w inv. inv }

  pub Keeps-when : (test : Bool) (body : Exec D Unit) → Keeps P body → Keeps P (when test body)
  unfolding when pure
  Keeps-when false body kept = record { at = λ w inv. inv }
  Keeps-when true body kept = kept

module _ {D A : Type 0} {P : D → Type 0} where
  pub Keeps-gets : (read : D → A) → Keeps P (gets read)
  unfolding gets
  Keeps-gets read = record { at = λ w inv. inv }

  pub Keeps-or_raise : (code : Code) (found : Option A) → Keeps P (or_raise code found)
  unfolding or_raise
  Keeps-or_raise code (some a) = record { at = λ w inv. inv }
  Keeps-or_raise code none = record { at = λ w inv. inv }

  pub Keeps-if :
      (test : Bool) (body other : Exec D A)
      → Keeps P body
      → Keeps P other
      → Keeps P (if test then body else other)
  Keeps-if false body other kept kept_other = kept_other
  Keeps-if true body other kept kept_other = kept

  pub Keeps-raise : (code : Code) → Keeps P (raise {A = A} code)
  unfolding raise
  Keeps-raise code = record { at = λ w inv. inv }

  pub Keeps-pure : (value : A) → Keeps P (pure value)
  unfolding pure
  Keeps-pure value = record { at = λ w inv. inv }

rolled_back :
    {D A : Type 0} (P : D → Type 0) (start : D) (outcome : Result A) (end : World D)
    → P start
    → P end.db
    → P (undo start (outcome, end)).1.db
rolled_back P start (err code) end old new = old
rolled_back P start (ok value) end old new = new

module _ {D A : Type 0} {P : D → Type 0} where
  pub Keeps-transaction : (body : Exec D A) → Keeps P body → Keeps P (transaction body)
  unfolding transaction
  Keeps-transaction body kept = record {
    at = λ w inv. rolled_back P w.db (body w).0 (body w).1 inv (kept.at w inv);
  }

module _ {D A : Type 0} {P : D → Type 0} where
  handled_kept :
      (outcome : Result A) (handler : Code → Exec D A) (w : World D)
      → ((code : Code) → Keeps P (handler code))
      → P w.db
      → P (handled outcome handler w).1.db
  handled_kept (ok value) handler w kept inv = inv
  handled_kept (err code) handler w kept inv = (kept code).at w inv

  pub Keeps-rescue :
      (body : Exec D A) (handler : Code → Exec D A)
      → Keeps P body
      → ((code : Code) → Keeps P (handler code))
      → Keeps P (rescue body handler)
  unfolding rescue
  Keeps-rescue body handler kept kept_handler = record {
    at = λ w inv. handled_kept (body w).0 handler (body w).1 kept_handler (kept.at w inv);
  }

module _ {D A B : Type 0} {P : D → Type 0} where
  carried_on :
      (outcome : Result A) (rest : A → Exec D B) (w : World D)
      → ((value : A) → Keeps P (rest value))
      → P w.db
      → P (continue outcome rest w).1.db
  carried_on (err code) rest w kept inv = inv
  carried_on (ok value) rest w kept inv = (kept value).at w inv

  pub Keeps-bind :
      (m : Exec D A) (rest : A → Exec D B)
      → Keeps P m
      → ((value : A) → Keeps P (rest value))
      → Keeps P (m >>= rest)
  unfolding ◌>>=◌
  Keeps-bind m rest kept kept_rest = record {
    at = λ w inv. carried_on (m w).0 rest (m w).1 kept_rest (kept.at w inv);
  }

module _ {D A : Type 0} {P : D → Type 0} where
  pub Keeps-for_each :
      (items : List A) (body : A → Exec D Unit)
      → ((item : A) → Keeps P (body item))
      → Keeps P (for_each items body)
  unfolding for_each
  Keeps-for_each (item ∷ items) body kept =
      Keeps-bind (body item) (λ _. for_each items body) (kept item)
        (λ _. Keeps-for_each items body kept)
  Keeps-for_each [] body kept = Keeps-pure tt

pub ruleset keeps_rules = (
  Keeps-bind, Keeps-gets, Keeps-require, Keeps-or_raise, Keeps-when, Keeps-if, Keeps-for_each,
  Keeps-rescue, Keeps-transaction, Keeps-utc_now, Keeps-new_id, Keeps-after_seconds, Keeps-raise,
  Keeps-pure,
)
