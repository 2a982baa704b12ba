-- ===== src/Safety/Received.antt =====
-- The row of a command of a client (Services.mutate of harness/server/composition.py), as it is
-- inserted and completed.
use mi_harness.Prelude.{
  not-true, ℕ, String, ◌≡◌, refl, ◌∙◌, Bool, true, false, not, Option, some, List, [], ◌∷◌, ◌++◌,
  arith, ◌==◌, same, same_refl, any, find_row, update_rows, find_row-update_rows, find_row_sound,
}
use mi_harness.Exec.{Result, ok, err, raise, ◌>>◌, integrity}
use mi_harness.Exec.Keeps.{Keeps, Keeps-after_seconds}
use mi_harness.Exec.Leaves.{
  Leaves, Leaves-then, Leaves-after, Leaves-pure, Leaves-if, Leaves-require, Leaves-raise,
  Leaves-modify, Leaves-gets,
}
use mi_harness.Store.Schema.{Response, ApiCommandRow, Database}
use mi_harness.Store.Commands.{with_command_key, save_api_command, complete_api_command}
use mi_harness.Server.Commands.{
  CommandKey, Callback, ServerProcess, is_cancellation, error_of, saved_text, save, complete,
}

module _ (k : CommandKey) (digest : String) where
  abbrev pub is_command : ApiCommandRow → Bool
  is_command = with_command_key k.owner k.method k.route k.key

  abbrev pub row_of : Database → Option ApiCommandRow
  row_of d = find_row is_command d.api_commands

  -- The command has been received with this body.
  pub record IsReceived (d : Database) : Type 0 where
    pub row : ApiCommandRow
    pub found : row_of d ≡ some row
    pub same_body : same row.body_hash digest ≡ true

  -- The answer of the command is written down.
  pub record IsRecorded (r : String) (d : Database) : Type 0 where
    pub row : ApiCommandRow
    pub found : row_of d ≡ some row
    pub same_body : same row.body_hash digest ≡ true
    pub done : (row.status_code == 102) ≡ false
    pub response : saved_text row.response ≡ ok r

  -- What is awaited leaves the row of its own command alone.
  unfoldable pub LeavesRow : Callback → Type 0
  LeavesRow (Callback.immediate m) = Unit
  LeavesRow (Callback.awaited m) = Keeps IsReceived m

  appended :
      (row : ApiCommandRow) (rows : List ApiCommandRow)
      → is_command row ≡ true
      → any is_command rows ≡ false
      → find_row is_command (rows ++ row ∷ []) ≡ some row
  unfolding any find_row
  appended row [] own new = ground arith
  appended row (x ∷ xs) own new = ground (arith, appended row xs own)

  abbrev pub row_with : Response → ℕ → ℕ → ApiCommandRow
  row_with response status expiry = record {
    owner = k.owner;
    method = k.method;
    route = k.route;
    key = k.key;
    body_hash = digest;
    response = some response;
    status_code = status;
    expires_at = expiry;
  }

  own_key :
      (response : Response) (status expiry : ℕ)
      → is_command (row_with response status expiry) ≡ true
  own_key response status expiry =
      rw (same_refl k.owner) (rw (same_refl k.method) (rw (same_refl k.route) (same_refl k.key)))

  updated :
      (r : String) (d : Database)
      → IsReceived d
      → IsRecorded r (record d {
        api_commands =
            update_rows is_command
              (λ c. record c { response = some (Response.value r); status_code = 200 })
              d.api_commands;
      })
  unfolding saved_text
  updated r d h = record {
    row = record h.row { response = some (Response.value r); status_code = 200 };
    found =
        find_row-update_rows is_command is_command
          (λ c. record c { response = some (Response.value r); status_code = 200 }) d.api_commands
          (λ c. refl)
        ∙ rw h.found (rw (find_row_sound is_command d.api_commands h.row h.found) refl);
    same_body = h.same_body;
    done = refl;
    response = refl;
  }

  module _ (process : ServerProcess) where
    -- A row that is inserted is the one a SELECT of its key finds.
    pub save-Leaves :
        (Q : Database → Type 0) (response : Response) (status : ℕ)
        → ((expiry : ℕ) (d : Database) → row_of d ≡ some (row_with response status expiry) → Q d)
        → Leaves (λ _. Unit) (λ _. Q) (save process k digest response status)
    unfolding save save_api_command
    save-Leaves Q response status fits = Leaves-after _ _ (Keeps-after_seconds 86400) (λ expiry.
        Leaves-then _ _ _ (Leaves-gets _) (λ taken. Leaves-require (not taken) integrity _ (λ new.
          Leaves-modify _ (λ d known. fits expiry _ (
            appended (row_with response status expiry) d.api_commands
              (own_key response status expiry) (known.1 ∙ not-true taken new))))))

    pub complete-Leaves :
        (o : Result String) → Leaves IsReceived IsRecorded (complete process k digest o)
    unfolding complete complete_api_command
    complete-Leaves (ok r) =
        Leaves-then _ _ _ (Leaves-modify _ (λ d received. updated r d received))
          (λ u. Leaves-pure r (λ d recorded. recorded))
    complete-Leaves (err c) =
        Leaves-if (is_cancellation c) (raise c)
          (complete_api_command k.owner k.method k.route k.key (Response.failed (error_of c))
              (process.failure_status (error_of c))
            >> raise (error_of c))
          (λ cancelled. Leaves-raise c)
          (λ failed.
            Leaves-then (λ x d. Unit) _ _ (record { at = λ w a p h. tt }) (λ u. Leaves-raise _))
