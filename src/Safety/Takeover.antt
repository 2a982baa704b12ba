-- ===== src/Safety/Takeover.antt =====
-- Scheduler.claim of harness/scheduler/service.py and the fence: who can work on a run that is claimed.
use mi_harness.Prelude.{
  ℕ, ◌+◌, String, ◌≡◌, refl, sym, ap, subst, ◌∙◌, ◌≢◌, ◌⊎◌, Bool, Option, none, some, List, [], ◌∷◌,
  ◌++◌, All, All-append, All-imp, All-select, All-order_by, all,
}
use mi_harness.Exec.{World, ok, err, stale_worker}
use mi_harness.Exec.Keeps.{Keeps, Keeps-gets, Keeps-new_id, Keeps-after_seconds}
use mi_harness.Exec.Returns.{ReturnsFrom-gets}
use mi_harness.Exec.Hands.{Hands, Hands-then, Hands-after, Hands-transaction, Hands-if, Hands-pure}
use mi_harness.Core.{RunStatus, ExecutionContext}
use mi_harness.Host.{Host}
use mi_harness.Store.Schema.{RunRow, BranchRow, Database, Db}
use mi_harness.Store.Records
use mi_harness.Store.Runs.{find_run, run_before, runs, run_matches, assert_fence}
use mi_harness.Scheduler.Submit.{SchedulerConfig}
use mi_harness.Scheduler.Claim.{take_run, claim_from, within_slots, claim}
use mi_harness.Safety.Quiet.{branch-Keeps, set_branch_owner-Keeps}
use mi_harness.Safety.Lifecycle.{find, HasKeys, IsRead, stored-IsRead}
use mi_harness.Safety.Advances.{
  Knows, later-Knows, Advances, nothing, Since, Advances-quiet, All_known,
}
use mi_harness.Safety.Reading.{since-IsQuiet}
use mi_harness.Safety.Transitions.{IsLawful, transition-Advances}
use mi_harness.Safety.Dispatch.{add_attempt-Keeps}
use mi_harness.Safety.Claims.{
  Holds, others_stale, IsClaimed, started-IsClaimed, IsHolder, context-IsHolder,
}

advance-Keeps :
    {A : Type 0} (rs : List RunRow) (out : A → List RunRow) (m : Db A)
    → Advances rs out m
    → Keeps (Knows rs) m
advance-Keeps rs out m h = record {
  at = λ w known. later-Knows rs [] w.db (m w).1.db known (h.at w known).0 tt;
}

quiet-Keeps :
    {A : Type 0} (rs : List RunRow) (m : Db A)
    → ((rows : List RunRow) → Keeps (Since rows) m)
    → Keeps (Knows rs) m
quiet-Keeps rs m kept = advance-Keeps rs nothing m (Advances-quiet m kept)

-- What a claim has taken from the database `d`: a run of it, under the next token.
abbrev pub Taken : Database → Option ExecutionContext → Database → Type 0
Taken d none after = Unit
Taken d (some c) after =
    (r : RunRow) × (find_run c.run_id d ≡ some r)
    × (c.fencing_token ≡ r.fencing_token + 1)
    × Holds c.run_id c.fencing_token (some c.worker_attempt_id) after

holder-Taken :
    (d after : Database) (r : RunRow) (fresh : String) (c : ExecutionContext)
    → find_run r.id d ≡ some r
    → IsHolder r.id fresh (r.fencing_token + 1) c after
    → Taken d (some c) after
holder-Taken d after r fresh c found (own, token, attempt, holds) = (
  r,
  subst (λ i. find_run i d ≡ some r) (sym own) found,
  token,
  record {
    row = holds.row;
    found = subst (λ i. find i after.runs ≡ some holds.row) (sym own) holds.found;
    has_token = holds.has_token ∙ sym token;
    has_attempt = holds.has_attempt ∙ ap some (sym attempt);
  },
)

module _ (host : Host) (lawful : IsLawful host) (config : SchedulerConfig) (worker : String)
    (pid start : ℕ) (d : Database) where
  take_run-Taken :
      (rs : List RunRow) (r : RunRow) (b : BranchRow)
      → find_run r.id d ≡ some r
      → Hands (Knows rs) (Taken d) (take_run host config worker pid start r b)
  unfolding take_run
  take_run-Taken rs r b found =
      Hands-after _ _
        (quiet-Keeps rs _ (λ rows.
          set_branch_owner-Keeps (Since rows) (since-IsQuiet rows) b.id b.active_run_id
            (some r.id)))
        (λ u. Hands-after _ _ Keeps-new_id (λ fresh.
          Hands-after _ _ (Keeps-after_seconds _) (λ expiry.
            Hands-after _ _
              (quiet-Keeps rs _ (add_attempt-Keeps fresh r.id worker pid start expiry _))
              (λ u.
                Hands-then (IsClaimed r.id fresh (r.fencing_token + 1)) _ _
                  (record {
                    at = λ w x known h.
                        (started-IsClaimed r.id fresh (r.fencing_token + 1) host r refl).at w x
                          known.keys h;
                  })
                  (λ started.
                    Hands-then (IsHolder r.id fresh (r.fencing_token + 1)) _ _
                      (context-IsHolder r.id fresh (r.fencing_token + 1) started)
                      (λ ctx.
                        Hands-pure (some ctx)
                          (λ after p. holder-Taken d after r fresh ctx found p)))))))

  claim_from-Taken :
      (rs busy queue : List RunRow)
      → All (λ x. find_run x.id d ≡ some x) queue
      → All (λ x. (e : Database) → Knows rs e → IsRead x e.runs) queue
      → Hands (Knows rs) (Taken d) (claim_from host config worker pid start busy queue)
  unfolding claim_from all
  claim_from-Taken rs busy [] stored read = Hands-pure none (λ after p. tt)
  claim_from-Taken rs busy (r ∷ rest) stored read =
      let further = claim_from-Taken rs busy rest stored.1 read.1 in
      Hands-after _ _
        (quiet-Keeps rs _ (λ rows. branch-Keeps (Since rows) (since-IsQuiet rows) r.branch_id))
        (λ b. Hands-if _ _ _ further (
          Hands-if _ _ _
            (Hands-after _ _
              (advance-Keeps rs (λ x. x ∷ []) _
                (transition-Advances host lawful rs r RunStatus.cancelled none (some "cancelled") []
                  read.0 refl))
              (λ u. further))
            (Hands-if _ _ _ further (take_run-Taken rs r b stored.0))))

  -- The queued runs are those of the table.
  queue-Hands :
      HasKeys d.runs
      → Hands
          (λ e. e ≡ d)
          (λ queue e. All (λ x. find_run x.id d ≡ some x) queue × (e ≡ d))
          (runs none (RunStatus.queued ∷ []) none)
  unfolding runs
  queue-Hands keys = record {
    at = λ w queue from h. (
      subst (All (λ x. find_run x.id d ≡ some x)) ((ReturnsFrom-gets d _).at w queue from h) (
          All-order_by _ run_before _
            (All-select _ (run_matches none (RunStatus.queued ∷ []) none) d.runs keys)),
      (Keeps-gets {P = λ e. e ≡ d} _).at w from,
    );
  }

  queue-Knows :
      (queue : List RunRow)
      → HasKeys d.runs
      → All (λ x. find_run x.id d ≡ some x) queue
      → Knows (queue ++ []) d
  queue-Knows queue keys stored = record {
    keys = keys;
    read =
        All-append (λ x. IsRead x d.runs) queue []
          (All-imp _ _ (λ x at. stored-IsRead x d.runs at) queue stored) tt;
  }

  within_slots-Taken :
      (busy : List RunRow)
      → HasKeys d.runs
      → Hands (λ e. e ≡ d) (Taken d) (within_slots host config worker pid start busy)
  unfolding within_slots
  within_slots-Taken busy keys = Hands-if _ _ _ (Hands-pure none (λ after p. tt)) (
      Hands-then _ _ _ (queue-Hands keys) (λ queue. record {
        at = λ w o p h.
            (claim_from-Taken (queue ++ []) busy queue p.0 (All_known queue [])).at w o
              (subst (Knows (queue ++ [])) (sym p.1) (queue-Knows queue keys p.0)) h;
      }))

  claim-Taken : HasKeys d.runs → Hands (λ e. e ≡ d) (Taken d) (claim host config worker pid start)
  unfolding claim Records.get runs
  claim-Taken keys = Hands-after _ _ (Keeps-gets _) (λ saved.
      Hands-if _ _ _ (Hands-pure none (λ after p. tt)) (
        Hands-transaction _
          (Hands-after _ _ (Keeps-gets _) (λ busy. within_slots-Taken busy keys))))

-- Let no two rows of the runs have one identifier, and the hooks leave the runs as they are or move
-- them along the table of transitions. A call of `claim` that returns a context has taken a run of
-- the table and raised its fencing token by one; from the store that it leaves, whatever the time,
-- `assert_fence` raises STALE_WORKER for every context of that run but one with this new token and
-- the attempt of this claim.
pub claim_fences_others :
    (host : Host) (config : SchedulerConfig) (worker : String) (pid start : ℕ)
    (w later : World Database) (ctx other : ExecutionContext) (allow_cancelling : Bool)
    → IsLawful host
    → HasKeys w.db.runs
    → (claim host config worker pid start w).0 ≡ ok (some ctx)
    → later.db ≡ (claim host config worker pid start w).1.db
    → other.run_id ≡ ctx.run_id
    → (other.fencing_token ≢ ctx.fencing_token) ⊎ (other.worker_attempt_id ≢ ctx.worker_attempt_id)
    → ((r : RunRow) × (find_run ctx.run_id w.db ≡ some r)
        × (ctx.fencing_token ≡ r.fencing_token + 1))
      × ((assert_fence other allow_cancelling later).0 ≡ err stale_worker)
claim_fences_others host config worker pid start w later ctx other allow lawful keys done after own
      differs =
    let (r, found, next, holds) =
      (claim-Taken host lawful config worker pid start w.db keys).at w (some ctx) refl done in
    (
      (r, found, next),
      others_stale ctx.run_id ctx.fencing_token ctx.worker_attempt_id other allow later
          (subst (Holds ctx.run_id ctx.fencing_token (some ctx.worker_attempt_id)) (sym after)
            holds)
          own differs,
    )
