-- ===== src/Exec/Atomic.antt =====
-- An action is atomic if the database is unchanged wherever it raises an error.
use mi_harness.Prelude.{◌≡◌, refl, sym, subst, ◌⊎◌, inl, inr, Bool, true, false}
use mi_harness.Exec.Keeps.{Keeps}
use mi_harness.Exec.{Code, Result, ok, err, Exec, World, transaction, undo, ◌>>=◌, require}

pub Result-cases : {A : Type 0} (r : Result A) → ((a : A) × (r ≡ ok a)) ⊎ ((c : Code) × (r ≡ err c))
Result-cases (ok a) = inl (a, refl)
Result-cases (err c) = inr (c, refl)

pub record IsAtomic {D A : Type 0} (m : Exec D A) : Type 0 where
  pub at : (w : World D) (c : Code) → (m w).0 ≡ err c → (m w).1.db ≡ w.db

undo_lem :
    {D A : Type 0} (before : D) (r : Result A) (after : World D) (c : Code)
    → (undo before (r, after)).0 ≡ err c
    → (undo before (r, after)).1.db ≡ before
undo_lem before (ok a) after c h = cc
undo_lem before (err e) after c h = refl

pub transaction-IsAtomic : {D A : Type 0} (m : Exec D A) → IsAtomic (transaction m)
unfolding transaction
transaction-IsAtomic m = record { at = λ w c h. undo_lem w.db (m w).0 (m w).1 c h }

-- A guard in front of a transaction keeps it atomic.
pub require-IsAtomic :
    {D A : Type 0} (b : Bool) (c : Code) (m : Exec D A)
    → IsAtomic m
    → IsAtomic (require b c >>= λ _. m)
unfolding ◌>>=◌ require
require-IsAtomic true c m a = record { at = λ w e h. a.at w e h }
require-IsAtomic false c m a = record { at = λ w e h. refl }

-- To keep an invariant, an atomic action must keep it only where it returns.
pub IsAtomic-Keeps :
    {D A : Type 0} (P : D → Type 0) (m : Exec D A)
    → IsAtomic m
    → ((w : World D) (a : A) → P w.db → (m w).0 ≡ ok a → P (m w).1.db)
    → Keeps P m
IsAtomic-Keeps P m atomic k = record {
  at = λ w h. elim (Result-cases (m w).0) [
    | inl (a, e) ↦ k w a h e
    | inr (c, e) ↦ subst P (sym (atomic.at w c e)) h
  ];
}
