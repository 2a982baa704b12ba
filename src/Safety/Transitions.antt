-- ===== src/Safety/Transitions.antt =====
-- Store.update_run and Scheduler.transition move runs only along the table of transitions.
use mi_harness.Prelude.{
  ℕ, String, ◌≡◌, refl, sym, ap, subst, ◌∙◌, Bool, true, false, Option, none, some, List, [], ◌∷◌,
  arith, same→eq, all, update_rows,
}
use mi_harness.Exec.Keeps.{Keeps, Keeps-bind, Keeps-require, Keeps-utc_now, Keeps-gets}
use mi_harness.Core.{RunStatus, ExecutionContext}
use mi_harness.Host.{Host}
use mi_harness.Store.Schema.{Snapshot, RunRow, Database}
use mi_harness.Store.Runs.{RunField, set_fields, at_revision, touch, update_run}
use mi_harness.Store.Runs.Update.{id-set_fields}
use mi_harness.Scheduler.Transition.{allowed_next, finish, transition}
use mi_harness.Safety.Quiet.{
  check_fence-Keeps, release_branch-Keeps, clean_up-Keeps, event_state-Keeps,
}
use mi_harness.Safety.Lifecycle.{
  Reaches, IsLater, find, Evolves, update-Evolves, IsRead, IsRead-status,
}
use mi_harness.Safety.Advances.{
  Knows, Advances, nothing, Since, Advances-then, Advances-transaction, Advances-quiet,
  Advances-modify, Advances-when, Advances-require, Advances-pure,
}
use mi_harness.Safety.Reading.{since-IsQuiet, run-Advances, revoke_grants-Keeps}

-- A patch that does not name the status.
abbrev pub keeps_status : RunField → Bool
keeps_status (RunField.status s) = false
keeps_status _ = true

revision-set_fields :
    (patch : List RunField) (r : RunRow) → (set_fields patch r).revision ≡ r.revision
unfolding set_fields
revision-set_fields [] r = refl
revision-set_fields (RunField.status s ∷ fs) r = revision-set_fields fs _
revision-set_fields (RunField.input_revision n ∷ fs) r = revision-set_fields fs _
revision-set_fields (RunField.checkpoint_ref c ∷ fs) r = revision-set_fields fs _
revision-set_fields (RunField.result_ref a ∷ fs) r = revision-set_fields fs _
revision-set_fields (RunField.error e ∷ fs) r = revision-set_fields fs _
revision-set_fields (RunField.fencing_token n ∷ fs) r = revision-set_fields fs _
revision-set_fields (RunField.attempt_id a ∷ fs) r = revision-set_fields fs _
revision-set_fields (RunField.cancel_requested b ∷ fs) r = revision-set_fields fs _
revision-set_fields (RunField.required_interrupts l ∷ fs) r = revision-set_fields fs _
revision-set_fields (RunField.other k ∷ fs) r = revision-set_fields fs r

pub status-set_fields :
    (patch : List RunField) (r : RunRow)
    → all keeps_status patch ≡ true
    → (set_fields patch r).status ≡ r.status
unfolding set_fields all
status-set_fields [] r h = refl
status-set_fields (RunField.status s ∷ fs) r h = cc
status-set_fields (RunField.input_revision n ∷ fs) r h = status-set_fields fs _ h
status-set_fields (RunField.checkpoint_ref c ∷ fs) r h = status-set_fields fs _ h
status-set_fields (RunField.result_ref a ∷ fs) r h = status-set_fields fs _ h
status-set_fields (RunField.error e ∷ fs) r h = status-set_fields fs _ h
status-set_fields (RunField.fencing_token n ∷ fs) r h = status-set_fields fs _ h
status-set_fields (RunField.attempt_id a ∷ fs) r h = status-set_fields fs _ h
status-set_fields (RunField.cancel_requested b ∷ fs) r h = status-set_fields fs _ h
status-set_fields (RunField.required_interrupts l ∷ fs) r h = status-set_fields fs _ h
status-set_fields (RunField.other k ∷ fs) r h = status-set_fields fs r h

module _ (rs : List RunRow) (id : String) (n : ℕ) (patch : List RunField) where
  -- What the patch makes of the row under the revision `n` is a status that the row can reach.
  abbrev IsLegal : Type 0
  IsLegal =
      (d : Database) (x : RunRow)
      → Knows rs d
      → find id d.runs ≡ some x
      → x.revision ≡ n
      → Reaches x.status (set_fields patch x).status

  touch-IsLater :
      (now : ℕ) (x : RunRow)
      → Reaches x.status (set_fields patch x).status
      → IsLater x (touch patch now x)
  touch-IsLater now x legal = record {
    reaches = legal;
    grows = omega (arith, revision-set_fields patch x);
    unmoved = λ e. absurd (omega (arith, e, revision-set_fields patch x));
  }

  written-Evolves :
      (now : ℕ) (d : Database)
      → IsLegal
      → Knows rs d
      → Evolves d.runs (update_rows (at_revision id n) (touch patch now) d.runs)
  written-Evolves now d legal known =
      update-Evolves (at_revision id n) (touch patch now) (λ x. id-set_fields patch x) d.runs
        (λ x at here.
          let own : x.id ≡ id = same→eq x.id id (ground (arith, here)) in
          touch-IsLater now x
            (legal d x known (subst (λ i. find i d.runs ≡ some x) own at) (ground (arith, here))))

  pub update_run-Advances :
      (ctx : Option ExecutionContext)
      → IsLegal
      → Advances rs (λ r. r ∷ []) (update_run id n patch ctx)
  unfolding update_run
  update_run-Advances ctx legal =
      Advances-then rs nothing _ _ (Advances-quiet _ (λ rows. Keeps-require _ _)) (λ u.
        Advances-transaction _ (
          Advances-then rs nothing _ _
            (Advances-quiet _ (λ rows. check_fence-Keeps (Since rows) (since-IsQuiet rows) ctx))
            (λ u. Advances-then rs nothing _ _ (Advances-quiet _ (λ rows. Keeps-utc_now)) (λ now.
              Advances-then rs nothing _ _ (Advances-quiet _ (λ rows. Keeps-require _ _)) (λ u.
                Advances-then rs nothing _ _ (Advances-quiet _ (λ rows. Keeps-gets _)) (λ count.
                  Advances-then rs nothing _ _
                    (Advances-modify _ (λ d known. written-Evolves now d legal known))
                    (λ u.
                      Advances-then rs nothing _ _ (Advances-quiet _ (λ rows. Keeps-require _ _))
                        (λ u. run-Advances rs id none))))))))

moved-Reaches :
    (r : RunRow) (next : RunStatus) (extra : List RunField) (rows : List RunRow) (x : RunRow)
    → allowed_next r.status next ≡ true
    → all keeps_status extra ≡ true
    → IsRead r rows
    → find r.id rows ≡ some x
    → x.revision ≡ r.revision
    → Reaches x.status (set_fields (RunField.status next ∷ extra) x).status
unfolding set_fields
moved-Reaches r next extra rows x allowed plain read found at =
    let same_as : r.status ≡ x.status = IsRead-status r x rows read found (sym at) in
    subst (Reaches x.status) (sym (status-set_fields extra _ plain))
      (Reaches.later Reaches.here (ap (λ s. allowed_next s next) (sym same_as) ∙ allowed))

-- The hooks of the composition and the process service leave the runs as they are, or move them
-- along the table.
pub record IsLawful (host : Host) : Type 0 where
  pub terminal : (r : RunRow) (rows : List RunRow) → Keeps (Since rows) (host.terminal_hook r)
  pub cancels : (k : String) (rows : List RunRow) → Keeps (Since rows) (host.cancel_processes k)
  pub created :
      (r : RunRow) (s : Snapshot) (rows : List RunRow)
      → Keeps (Since rows) (host.run_created_hook r s)
  pub recovers : (k : String) (rows : List RunRow) → Keeps (Since rows) (host.recover_processes k)

module _ (host : Host) (lawful : IsLawful host) where
  finish-Keeps :
      (r updated : RunRow) (rows : List RunRow) → Keeps (Since rows) (finish host r updated)
  unfolding finish
  finish-Keeps r updated rows =
      Keeps-bind _ _ (release_branch-Keeps (Since rows) (since-IsQuiet rows) r) (λ u.
        Keeps-bind _ _ (revoke_grants-Keeps r.id [] rows) (λ u.
          clean_up-Keeps (Since rows) (since-IsQuiet rows) r updated (host.terminal_hook updated)
            (lawful.terminal updated rows)))

  -- A transition from a row that has been read moves its run along the table.
  pub transition-Advances :
      (rs : List RunRow) (r : RunRow) (next : RunStatus) (ctx : Option ExecutionContext)
      (reason : Option String) (extra : List RunField)
      → ((d : Database) → Knows rs d → IsRead r d.runs)
      → all keeps_status extra ≡ true
      → Advances rs (λ u. u ∷ []) (transition host r next ctx reason extra)
  unfolding transition
  transition-Advances rs r next ctx reason extra read plain = Advances-require _ _ _ (λ allowed.
      Advances-transaction _ (
        Advances-then rs (λ u. u ∷ []) _ _
          (update_run-Advances rs r.id r.revision (RunField.status next ∷ extra) ctx
            (λ d x known found at.
              moved-Reaches r next extra d.runs x allowed plain (read d known) found at))
          (λ updated.
            Advances-then (updated ∷ rs) nothing _ _
              (Advances-when _ _ (Advances-quiet _ (λ rows. finish-Keeps r updated rows)))
              (λ u.
                Advances-then (updated ∷ rs) nothing _ _
                  (Advances-quiet _
                    (λ rows. event_state-Keeps (Since rows) (since-IsQuiet rows) updated _ reason))
                  (λ u. Advances-pure updated (λ d known. (known.read.0, tt)))))))
