-- ===== src/Safety/Commands.antt =====
-- The commands of clients in harness/server/composition.py: a command is run once.
use mi_harness.Prelude.{
  not-false, String, ◌≡◌, refl, ap, ◌∙◌, true, false, Option, none, some, ◌==◌, same, same_refl,
  same→eq,
}
use mi_harness.Exec.{Result, World, ok, err, idempotency_conflict, transaction, ◌>>=◌}
use mi_harness.Exec.Leaves.{
  Leaves, Leaves-then, Leaves-after, Leaves-transaction, Leaves-pure, Leaves-if, Leaves-require,
  Leaves-raise, Leaves-gets,
}
use mi_harness.Store.Schema.{Response, ApiCommandRow, Database}
use mi_harness.Store.Commands.{api_command}
use mi_harness.Safety.Received.{
  row_of, IsReceived, IsRecorded, LeavesRow, row_with, save-Leaves, complete-Leaves,
}
use mi_harness.Server.Commands.{
  CommandKey, Callback, ServerProcess, Begun, saved_text, reply, answer_again, run_first,
  first_or_again, await, answer, mutate,
}

module _ (k : CommandKey) (digest : String) where
  -- What stands in the database at the end of the transaction.
  abbrev Reached : Begun → Database → Type 0
  Reached (Begun.answered r) = IsRecorded k digest r
  Reached Begun.begun = IsReceived k digest

  reply-Leaves :
      (row : ApiCommandRow) (t : Result String)
      → same row.body_hash digest ≡ true
      → (row.status_code == 102) ≡ false
      → saved_text row.response ≡ t
      → Leaves (λ d. row_of k digest d ≡ some row) Reached (reply t)
  unfolding reply
  reply-Leaves row (ok r) same_body done response = Leaves-pure _ (λ d found. record {
    row = row;
    found = found;
    same_body = same_body;
    done = done;
    response = response;
  })
  reply-Leaves row (err c) same_body done response = Leaves-raise c

  module _ (process : ServerProcess) where
    again-Leaves :
        (row : ApiCommandRow)
        → Leaves (λ d. row_of k digest d ≡ some row) Reached (answer_again process k digest row)
    unfolding answer_again
    again-Leaves row =
        Leaves-if _ _ _ (λ other. Leaves-raise _)
          (λ same_body.
            Leaves-if _ _ _ (λ runs. Leaves-raise _)
              (λ done.
                reply-Leaves row (saved_text row.response) (not-false _ same_body) done refl))

    run-Leaves :
        (callback : Callback) → Leaves (λ d. Unit) Reached (run_first process k digest callback)
    unfolding run_first saved_text
    run-Leaves (Callback.immediate m) =
        Leaves-after _ _ (record { at = λ w p. tt })
          (λ r.
            Leaves-then _ _ _
              (save-Leaves k digest process (IsRecorded k digest r) (Response.value r) 200
                (λ expiry d found. record {
                  row = row_with k digest (Response.value r) 200 expiry;
                  found = found;
                  same_body = same_refl digest;
                  done = refl;
                  response = refl;
                }))
              (λ u. Leaves-pure _ (λ d recorded. recorded)))
    run-Leaves (Callback.awaited m) =
        Leaves-then _ _ _
          (save-Leaves k digest process (IsReceived k digest)
            (Response.in_progress process.pid process.process_start) 102
            (λ expiry d found. record {
              row =
                  row_with k digest (Response.in_progress process.pid process.process_start) 102
                    expiry;
              found = found;
              same_body = same_refl digest;
            }))
          (λ u. Leaves-pure _ (λ d received. received))

    first-Leaves :
        (saved : Option ApiCommandRow) (callback : Callback)
        → Leaves
            (λ d. row_of k digest d ≡ saved)
            Reached
            (first_or_again process k digest saved callback)
    unfolding first_or_again
    first-Leaves (some row) callback = again-Leaves row
    first-Leaves none callback =
        Leaves-then (λ x d. Unit) _ _ (record { at = λ w a p h. tt })
          (λ system. Leaves-require _ _ _ (λ allowed. run-Leaves callback))

    answer-Leaves :
        (state : Begun) (callback : Callback)
        → LeavesRow k digest callback
        → Leaves (Reached state) (IsRecorded k digest) (answer process k digest state callback)
    unfolding answer await LeavesRow
    answer-Leaves (Begun.answered r) callback own = Leaves-pure r (λ d recorded. recorded)
    answer-Leaves Begun.begun (Callback.immediate m) own = Leaves-raise _
    answer-Leaves Begun.begun (Callback.awaited m) own = record {
      at = λ w r received h.
          (complete-Leaves k digest process (m w).0).at (m w).1 r (own.at w received) h;
    }

    mutate-Leaves :
        (callback : Callback)
        → LeavesRow k digest callback
        → Leaves (λ d. Unit) (IsRecorded k digest) (mutate process k digest callback)
    unfolding mutate api_command
    mutate-Leaves callback own =
        Leaves-then _ _ _
          (Leaves-transaction _ (
            Leaves-then _ _ _ (Leaves-gets _)
              (λ saved. record { at = λ w a p h. (first-Leaves saved callback).at w a p.1 h })))
          (λ state. answer-Leaves state callback own)

    again-IsRecorded :
        (r : String) (callback : Callback) (w : World Database)
        → IsRecorded k digest r w.db
        → mutate process k digest callback w ≡ (ok r, w)
    unfolding mutate answer answer_again first_or_again api_command transaction ◌>>=◌ reply
    again-IsRecorded r callback w h = rw h.found (rw h.same_body (rw h.done (rw h.response refl)))

    other-conflicts :
        (r : String) (other : String) (callback : Callback) (w : World Database)
        → same digest other ≡ false
        → IsRecorded k digest r w.db
        → mutate process k other callback w ≡ (err idempotency_conflict, w)
    unfolding mutate answer answer_again first_or_again api_command transaction ◌>>=◌
    other-conflicts r other callback w differs h =
        rw h.found
          (rw (ap (λ x. same x other) (same→eq h.row.body_hash digest h.same_body) ∙ differs) refl)

-- Where a command has returned `r`, its row holds `r` (if what it awaits leaves the row alone); in
-- every later state in which the row does, the same command returns `r` and writes nothing,
-- whatever it would have run and whichever process serves it, and one with the same key and another
-- body is refused and writes nothing.
pub command_runs_once :
    (process : ServerProcess) (k : CommandKey) (digest : String) (callback : Callback)
    (w : World Database) (r : String)
    → LeavesRow k digest callback
    → (mutate process k digest callback w).0 ≡ ok r
    → (later : World Database) → IsRecorded k digest r later.db
    → (server : ServerProcess) (again : Callback) (other : String) → same digest other ≡ false
    → IsRecorded k digest r (mutate process k digest callback w).1.db
      × (mutate server k digest again later ≡ (ok r, later))
      × (mutate server k other again later ≡ (err idempotency_conflict, later))
command_runs_once process k digest callback w r own returned later recorded server again other
      differs =
    (
      (mutate-Leaves k digest process callback own).at w r tt returned,
      again-IsRecorded k digest server r again later recorded,
      other-conflicts k digest server r other again later differs recorded,
    )
