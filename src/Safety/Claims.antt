-- ===== src/Safety/Claims.antt =====
-- What Scheduler.claim of harness/scheduler/service.py writes: the token and the attempt of the worker
-- that has taken a run.
use mi_harness.Prelude.{
  ℕ, String, ◌≡◌, refl, sym, ap, subst, ◌∙◌, ◌≢◌, ◌⊎◌, inl, inr, Bool, true, Option, none, some,
  List, [], ◌∷◌, arith, All, same→eq, Bool-cases, any, all, has_some, find_row-update_rows,
}
use mi_harness.Exec.{World, when, require, or_raise, ◌>>=◌, err, stale_worker}
use mi_harness.Exec.Keeps.{Keeps, Keeps-pure, Keeps-or_raise}
use mi_harness.Exec.Returns.{Returns-or_raise}
use mi_harness.Exec.Hands.{
  Hands, Hands-then, Hands-after, Hands-known, Hands-require, Hands-transaction, Hands-pure,
}
use mi_harness.Core.{RunStatus, ExecutionContext}
use mi_harness.Host.{Host}
use mi_harness.Store.Schema.{RunRow, Database, Db}
use mi_harness.Store.Events.{bump_seq}
use mi_harness.Store.Runs.{
  with_run_id, find_run, RunField, is_allowed, at_revision, touch, set_field, set_fields,
  assert_fence, update_run,
}
use mi_harness.Store.Runs.Update.{update_run_current, update_run_outdated}
use mi_harness.Scheduler.Transition.{transition}
use mi_harness.Scheduler.Claim.{context}
use mi_harness.Safety.Lifecycle.{find, HasKeys}
use mi_harness.Safety.Quiet.{IsQuiet, event_state-Keeps, branch-Keeps}

-- The row of the run has this token and this attempt.
pub record HasToken (id : String) (token : ℕ) (attempt : Option String) (rows : List RunRow)
    : Type 0 where
  pub row : RunRow
  pub found : find id rows ≡ some row
  pub has_token : row.fencing_token ≡ token
  pub has_attempt : row.attempt_id ≡ attempt

abbrev pub Holds : String → ℕ → Option String → Database → Type 0
Holds id token attempt d = HasToken id token attempt d.runs

token-IsQuiet :
    (id : String) (token : ℕ) (attempt : Option String) → IsQuiet (Holds id token attempt)
token-IsQuiet id token attempt = record {
  outbox = λ d new h. h;
  events = λ d new h. h;
  bump = λ d k h.
      let after =
        find_row-update_rows (with_run_id k) (with_run_id id) bump_seq d.runs (λ x. refl) in
      elim (Bool-cases (with_run_id k h.row)) [
        | inl y ↦ record {
          row = bump_seq h.row;
          found = ground (arith, after, h.found);
          has_token = h.has_token;
          has_attempt = h.has_attempt;
        }
        | inr n ↦ record {
          row = h.row;
          found = ground (arith, after, h.found);
          has_token = h.has_token;
          has_attempt = h.has_attempt;
        }
      ];
  operations = λ d new h. h;
  interactions = λ d new h. h;
  branches = λ d new h. h;
  accounts = λ d new h. h;
  reservations = λ d new h. h;
  attempts = λ d new h. h;
  waits = λ d new h. h;
}

-- Every context of the run with another token or another attempt is stale.
pub others_stale :
    (id : String) (token : ℕ) (attempt : String) (c : ExecutionContext) (b : Bool)
    (w : World Database)
    → Holds id token (some attempt) w.db
    → c.run_id ≡ id
    → (c.fencing_token ≢ token) ⊎ (c.worker_attempt_id ≢ attempt)
    → (assert_fence c b w).0 ≡ err stale_worker
unfolding assert_fence or_raise require ◌>>=◌
others_stale id token attempt c b w h e other =
    ground (arith, h.found, h.has_token, h.has_attempt, same→eq attempt c.worker_attempt_id)

found_at :
    (id : String) (n : ℕ) (rows part : List RunRow)
    → All (λ x. find x.id rows ≡ some x) part
    → any (at_revision id n) part ≡ true
    → (y : RunRow) × (find id rows ≡ some y) × (y.revision ≡ n) × (y.id ≡ id)
unfolding any
found_at id n rows [] keys h = cc
found_at id n rows (x ∷ xs) keys h = elim (Bool-cases (at_revision id n x)) [
  | inl y ↦
      let own : x.id ≡ id = same→eq x.id id (ground (arith, y)) in
      (x, subst (λ i. find i rows ≡ some x) own keys.0, ground (arith, y), own)
  | inr m ↦ found_at id n rows xs keys.1 (ground arith)
]

-- The write of a claim: where no two rows have one identifier, a call of `update_run` that returns
-- has put its fields into the row of the run.
update_run-Hands :
    (id : String) (n : ℕ) (patch : List RunField)
    → all is_allowed patch ≡ true
    → has_some patch ≡ true
    → Hands
        (λ d. HasKeys d.runs)
        (λ u d.
          (y : RunRow) × (now : ℕ) × (y.id ≡ id)
          × (u ≡ touch patch now y)
          × (find_run id d ≡ some u))
        (update_run id n patch none)
update_run-Hands id n patch allowed named = record {
  at = λ w u keys h. elim (Bool-cases (any (at_revision id n) w.db.runs)) [
    | inl some_row ↦
        let (y, found, current, own) = found_at id n w.db.runs w.db.runs keys some_row in
        let wrote = update_run_current id n patch w y found current allowed named in
        let both = sym h ∙ wrote.0 in
        let is : u ≡ touch patch (w.clock w.ticks) y = cc in
        (y, w.clock w.ticks, own, is, wrote.1 ∙ ap some (sym is))
    | inr missing ↦
        let refused = update_run_outdated id n patch w u missing allowed named in
        let both = sym h ∙ refused.0 in absurd cc
  ];
}

module _ (id attempt : String) (token : ℕ) where
  -- What is known of the row of the claimed run and of the table.
  abbrev pub IsClaimed : RunRow → Database → Type 0
  IsClaimed u d =
      (u.id ≡ id)
      × (u.fencing_token ≡ token)
      × (u.attempt_id ≡ some attempt)
      × Holds id token (some attempt) d

  still-IsClaimed :
      {A : Type 0} (u : RunRow) (m : Db A)
      → Keeps (Holds id token (some attempt)) m
      → Keeps (IsClaimed u) m
  still-IsClaimed u m kept = record { at = λ w p. (p.0, p.1, p.2, kept.at w p.3) }

  -- What the transition of a claim writes.
  abbrev claim_patch : List RunField
  claim_patch =
      RunField.status RunStatus.running
      ∷ RunField.attempt_id (some attempt)
      ∷ RunField.fencing_token token
      ∷ []

  written-IsClaimed :
      (r : RunRow)
      → r.id ≡ id
      → Hands (λ d. HasKeys d.runs) IsClaimed (update_run r.id r.revision claim_patch none)
  unfolding set_fields set_field
  written-IsClaimed r own = record {
    at = λ w u keys h.
        let (y, now, same_id, is, found) =
          (update_run-Hands r.id r.revision claim_patch (unfold all in refl) refl).at w u keys h in
        (
          ap (λ (x : RunRow). x.id) is ∙ same_id ∙ own,
          ap (λ (x : RunRow). x.fencing_token) is,
          ap (λ (x : RunRow). x.attempt_id) is,
          record {
            row = u;
            found =
                subst
                  (λ i. find i (update_run r.id r.revision claim_patch none w).1.db.runs ≡ some u)
                  own found;
            has_token = ap (λ (x : RunRow). x.fencing_token) is;
            has_attempt = ap (λ (x : RunRow). x.attempt_id) is;
          },
        );
  }

  pub started-IsClaimed :
      (host : Host) (r : RunRow)
      → r.id ≡ id
      → Hands
          (λ d. HasKeys d.runs)
          IsClaimed
          (transition host r RunStatus.running none none
            (RunField.attempt_id (some attempt) ∷ RunField.fencing_token token ∷ []))
  unfolding transition when
  started-IsClaimed host r own = Hands-require _ _ _ (λ may. Hands-transaction _ (
      Hands-then IsClaimed _ _ (written-IsClaimed r own) (λ u. Hands-after _ _ (Keeps-pure _) (λ _.
        Hands-after _ _
          (still-IsClaimed u _ (
            event_state-Keeps (Holds id token (some attempt))
              (token-IsQuiet id token (some attempt)) u _ none))
          (λ _. Hands-pure u (λ d known. known))))))

  -- The context of a claimed run.
  abbrev pub IsHolder : ExecutionContext → Database → Type 0
  IsHolder c d =
      (c.run_id ≡ id)
      × (c.fencing_token ≡ token)
      × (c.worker_attempt_id ≡ attempt)
      × Holds id token (some attempt) d

  pub context-IsHolder : (u : RunRow) → Hands (IsClaimed u) IsHolder (context u)
  unfolding context
  context-IsHolder u =
      Hands-after _ _
        (still-IsClaimed u _ (
          branch-Keeps (Holds id token (some attempt)) (token-IsQuiet id token (some attempt))
            u.branch_id))
        (λ b.
          Hands-known (λ held. u.attempt_id ≡ some held) _ _ (Keeps-or_raise _ _)
            (Returns-or_raise _ _) (λ held is. Hands-pure _ (λ d p. (p.0, p.1, cc, p.3))))
