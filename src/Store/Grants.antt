-- ===== src/Store/Grants.antt =====
-- The execution grants of harness/storage/store.py: a grant is bound to the arguments, the
-- resources and the policy that were approved, and is consumed when its operation starts.
use mi_harness.Prelude.{
  ℕ, ◌-◌, String, Bool, true, false, not, ◌&&◌, Option, none, some, List, [], ◌∷◌, ◌++◌, ltb, ◌==◌,
  same, is_some, get_or_else, contains, find_row, update_rows,
}
use mi_harness.Exec.{
  pure, gets, transaction, modify, utc_now, ◌>>=◌, ◌>>◌, require, or_raise, grant_invalid,
  grant_stale, operation_state, integrity,
}
use mi_harness.Core.{ExecutionContext, ApprovalBinding, same_binding}
use mi_harness.Store.Schema.{OperationState, OperationRow, GrantRow, Database, Db}
use mi_harness.Store.Runs.{assert_fence}
use mi_harness.Store.Operations.{find_operation, operation, OperationField, update_operation}

abbrev pub with_grant_id : String → GrantRow → Bool
with_grant_id identity g = same g.id identity

abbrev pub find_grant : String → Database → Option GrantRow
find_grant identity d = find_row (with_grant_id identity) d.execution_grants

-- Store.add_grant; `remaining` is 1 where the caller gives none.
unfoldable pub add_grant : String → String → String → String → ApprovalBinding → Option ℕ → Db Unit
add_grant id operation_id owner_id run_id binding remaining = do
  now ← utc_now
  taken ← gets (λ d. is_some (find_grant id d))
  known ← gets (λ d. is_some (find_operation operation_id d))
  require (not taken && known) integrity
  modify (λ d. record d {
    execution_grants =
        d.execution_grants
        ++ record {
          id = id;
          operation_id = operation_id;
          owner_id = owner_id;
          run_id = run_id;
          binding = binding;
          remaining = get_or_else remaining 1;
          revoked = false;
          consumed_at = none;
          created_at = now;
        }
          ∷ [];
  })

-- The grant belongs to this run and owner, is not revoked, and has a use left.
abbrev pub usable_by : ExecutionContext → GrantRow → Bool
usable_by ctx g =
    same g.owner_id ctx.owner_id
    && same g.run_id ctx.run_id
    && not g.revoked
    && not (ltb g.remaining 1)

abbrev pub is_current : ApprovalBinding → ApprovalBinding → ℕ → ℕ → Bool
is_current saved binding policy_revision now =
    same_binding saved binding
    && ltb now saved.expires_at
    && saved.policy_revision == policy_revision

abbrev pub may_start : OperationState → Bool
may_start OperationState.prepared = true
may_start OperationState.authorized = true
may_start _ = false

abbrev pub spendable : String → GrantRow → Bool
spendable grant_id g = with_grant_id grant_id g && ltb 0 g.remaining

-- UPDATE execution_grants SET remaining=remaining-1, consumed_at=now WHERE id=? AND remaining>0
unfoldable pub spend : String → ℕ → Db Unit
spend grant_id now = modify (λ d. record d {
  execution_grants =
      update_rows (spendable grant_id)
        (λ g. record g { remaining = g.remaining - 1; consumed_at = some now }) d.execution_grants;
})

-- Store.consume_grant
unfoldable pub consume_grant : ExecutionContext → String → ApprovalBinding → ℕ → Db OperationRow
consume_grant ctx grant binding policy_revision = transaction (do
  assert_fence ctx false
  found ← gets (find_grant grant)
  g ← or_raise grant_invalid found
  require (usable_by ctx g) grant_invalid
  now ← utc_now
  require (is_current g.binding binding policy_revision now) grant_stale
  o ← operation g.operation_id
  require (may_start o.state) operation_state
  now' ← utc_now
  spend grant now'
  update_operation o.id o.revision
      (OperationField.state OperationState.running
        ∷ OperationField.grant_id (some grant)
        ∷ OperationField.attempt_id ctx.worker_attempt_id
        ∷ OperationField.fencing_token ctx.fencing_token
        ∷ [])
      (some ctx))

-- Store.revoke_grants
unfoldable pub revoke_grants : String → List String → Db Unit
revoke_grants run_id except_ids = modify (λ d. record d {
  execution_grants =
      update_rows (λ g. same g.run_id run_id && not (contains g.id except_ids))
        (λ g. record g { revoked = true }) d.execution_grants;
})

-- The grant was consumed by this very operation, and has not been revoked since.
abbrev consumed_by : ExecutionContext → String → GrantRow → Bool
consumed_by ctx operation_id g =
    same g.owner_id ctx.owner_id
    && same g.run_id ctx.run_id
    && same g.operation_id operation_id
    && not g.revoked
    && g.remaining == 0
    && is_some g.consumed_at

abbrev still_bound : ApprovalBinding → OperationRow → ℕ → ℕ → Bool
still_bound b o policy_revision now =
    ltb now b.expires_at
    && b.policy_revision == policy_revision
    && same b.args_hash o.args_hash
    && same b.tool_revision o.tool_revision
    && same b.resource_fingerprint o.resource_fingerprint

abbrev pub find_grant? : Option String → Database → Option GrantRow
find_grant? none d = none
find_grant? (some g) d = find_grant g d

-- Store.verify_consumed_grant
unfoldable pub verify_consumed_grant : ExecutionContext → String → ℕ → Db Bool
verify_consumed_grant ctx operation_id policy_revision = transaction (do
  assert_fence ctx false
  o ← operation operation_id
  found ← gets (find_grant? o.grant_id)
  g ← or_raise grant_invalid found
  require (consumed_by ctx operation_id g) grant_invalid
  now ← utc_now
  require (still_bound g.binding o policy_revision now) grant_stale
  pure true)
