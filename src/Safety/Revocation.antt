-- ===== src/Safety/Revocation.antt =====
-- What Scheduler.transition of harness/scheduler/service.py does to the grants of a run that ends.
use mi_harness.Prelude.{
  String, ◌≡◌, refl, inl, inr, true, not, ◌&&◌, Option, List, [], ◌∷◌, arith, same, Bool-cases, All,
  contains, update_rows,
}
use mi_harness.Exec.{when}
use mi_harness.Exec.Establishes.{
  Establishes, Establishes-later, Establishes-now, Establishes-transaction, Establishes-modify,
}
use mi_harness.Exec.Keeps.{Keeps, Keeps-pure, Keeps-bind}
use mi_harness.Core.{RunStatus, is_terminal, ExecutionContext}
use mi_harness.Host.{Host}
use mi_harness.Store.Schema.{RunRow, GrantRow, Database}
use mi_harness.Store.Runs.{RunField}
use mi_harness.Store.Grants.{revoke_grants}
use mi_harness.Safety.Quiet.{IsQuiet, clean_up-Keeps, event_state-Keeps}
use mi_harness.Scheduler.Transition.{event_name, finish, transition}

abbrev pub IsRevokedFor : String → GrantRow → Type 0
IsRevokedFor run_id g = same g.run_id run_id ≡ true → g.revoked ≡ true

-- No grant of the run can be used any more.
abbrev pub GrantsRevoked : String → Database → Type 0
GrantsRevoked run_id d = All (IsRevokedFor run_id) d.execution_grants

-- A statement of the grants of a database.
abbrev pub On : (List GrantRow → Type 0) → Database → Type 0
On P d = P d.execution_grants

-- No write of the clean-up but that of `revoke_grants` changes the grants.
pub grants-IsQuiet : (P : List GrantRow → Type 0) → IsQuiet (On P)
grants-IsQuiet P = record {
  outbox = λ d rows h. h;
  events = λ d rows h. h;
  bump = λ d k h. h;
  operations = λ d rows h. h;
  interactions = λ d rows h. h;
  branches = λ d rows h. h;
  accounts = λ d rows h. h;
  reservations = λ d rows h. h;
  attempts = λ d rows h. h;
  waits = λ d rows h. h;
}

revoked_rows :
    (id : String) (rows : List GrantRow)
    → All (IsRevokedFor id) (
        update_rows
          (λ g. same g.run_id id && not (contains g.id []))
          (λ g. record g { revoked = true })
          rows)
unfolding update_rows
revoked_rows id [] = tt
revoked_rows id (g ∷ gs) = elim (Bool-cases (same g.run_id id)) [
  | inl y ↦ rw y (λ _. refl, revoked_rows id gs)
  | inr n ↦ rw n ((λ y. ground arith), revoked_rows id gs)
]

-- When a run ends, none of its grants can be used any more: after a transition to a terminal
-- status that returns, every grant of the run is revoked. The hook that is called meanwhile
-- must not add or restore a grant of the run.
pub transition-revokes :
    (host : Host) (r : RunRow) (next : RunStatus) (ctx : Option ExecutionContext)
    (reason : Option String) (extra : List RunField)
    → is_terminal next ≡ true
    → ((x : RunRow) → Keeps (GrantsRevoked r.id) (host.terminal_hook x))
    → Establishes (GrantsRevoked r.id) (transition host r next ctx reason extra)
unfolding transition finish revoke_grants when
transition-revokes host r next ctx reason extra ended hook = Establishes-later _ _ (λ _.
    Establishes-transaction _ (
      Establishes-later _ _ (λ updated.
        Establishes-now _ _
          (rw ended (
            Establishes-later _ _ (λ _.
              Establishes-now _ _ (Establishes-modify _ (λ d. revoked_rows r.id d.execution_grants))
                (λ _.
                  clean_up-Keeps (On (All (IsRevokedFor r.id)))
                    (grants-IsQuiet (All (IsRevokedFor r.id))) r updated
                    (host.terminal_hook updated) (hook updated)))))
          (λ _.
            Keeps-bind _ _
              (event_state-Keeps (On (All (IsRevokedFor r.id)))
                (grants-IsQuiet (All (IsRevokedFor r.id))) updated (event_name next) reason)
              (λ _. Keeps-pure updated)))))
