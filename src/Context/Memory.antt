-- ===== src/Context/Memory.antt =====
-- MemoryService of harness/context/memory.py over the records of the store. `access` is the check that
-- the service is built with. A page is asked for by scope and review state, as all its callers do.
-- The score of a memory (the words of a query that it contains) is a parameter.
use mi_harness.Prelude.{
  ℕ, zero, suc, ◌+◌, String, Bool, true, false, not, ◌&&◌, ◌||◌, Option, none, some, List, [], ◌∷◌,
  ◌++◌, ltb, leb, ◌==◌, if◌then◌else◌, same, text_le, take, length, select, all, order_by,
}
use mi_harness.Exec.{
  pure, raise, utc_now, new_id, ◌>>=◌, ◌>>◌, require, or_raise, memory_not_found,
  invalid_memory_field, immutable_memory_field, invalid_memory_state, invalid_decision,
  invalid_cursor, revision_conflict, value_error,
}
use mi_harness.Store.Schema.{MemoryScope, MemoryKind, ReviewState, MemoryRecord, Payload, Db}
use mi_harness.Store.Records.{get, list, put, compare_and_set}

-- An identity is a user, or a run with its workspace.
pub record Identity : Type 0 where
  pub owner_id : String
  pub workspace_id : Option String

-- The fields of a proposal or of a patch, by name.
pub data MemoryField : Type 0 where
  scope : MemoryScope → MemoryField
  kind : MemoryKind → MemoryField
  expires_at : Option ℕ → MemoryField
  confidence : Option String → MemoryField
  content : String → MemoryField
  source_refs : List String → MemoryField
  review_state : ReviewState → MemoryField
  another : String → MemoryField

pub data Decision : Type 0 where
  accept reject another_decision : Decision

pub data Cursor : Type 0 where
  start : Cursor
  offset : ℕ → Cursor
  malformed : Cursor

pub record Filters : Type 0 where
  pub scope : Option MemoryScope
  pub review_state : Option ReviewState

pub record Page : Type 0 where
  pub items : List MemoryRecord
  pub next_cursor : Option ℕ

abbrev pub is_user_scope : MemoryScope → Bool
is_user_scope MemoryScope.user_scope = true
is_user_scope MemoryScope.workspace_scope = false

abbrev pub same_scope : MemoryScope → MemoryScope → Bool
same_scope MemoryScope.user_scope b = is_user_scope b
same_scope MemoryScope.workspace_scope b = not (is_user_scope b)

abbrev state_code : ReviewState → ℕ
state_code ReviewState.proposed = 0
state_code ReviewState.accepted = 1
state_code ReviewState.rejected = 2
state_code ReviewState.deleted = 3

abbrev pub same_review : ReviewState → ReviewState → Bool
same_review a b = state_code a == state_code b

abbrev pub is_deleted : ReviewState → Bool
is_deleted s = same_review s ReviewState.deleted

abbrev is_pinned : MemoryKind → Bool
is_pinned MemoryKind.pinned = true
is_pinned _ = false

-- The workspace of the identity, where it has one.
abbrev other_workspace : Option String → MemoryRecord → Bool
other_workspace none r = false
other_workspace (some w) r =
    not (same w "") && not (is_user_scope r.scope) && not (same w r.workspace)

abbrev may_propose : MemoryField → Bool
may_propose (MemoryField.scope s) = true
may_propose (MemoryField.kind k) = true
may_propose (MemoryField.expires_at e) = true
may_propose (MemoryField.confidence c) = true
may_propose _ = false

abbrev may_edit : MemoryField → Bool
may_edit (MemoryField.content c) = true
may_edit (MemoryField.source_refs s) = true
may_edit (MemoryField.expires_at e) = true
may_edit _ = false

unfoldable pub set_memory_field : MemoryField → MemoryRecord → MemoryRecord
set_memory_field (MemoryField.scope s) r = record r { scope = s }
set_memory_field (MemoryField.kind k) r = record r { kind = k }
set_memory_field (MemoryField.expires_at e) r = record r { expires_at = e }
set_memory_field (MemoryField.confidence c) r = record r { confidence = c }
set_memory_field (MemoryField.content c) r = record r { content = c }
set_memory_field (MemoryField.source_refs s) r = record r { source_refs = s }
set_memory_field (MemoryField.review_state s) r = record r { review_state = s }
set_memory_field (MemoryField.another name) r = r

unfoldable pub set_memory_fields : List MemoryField → MemoryRecord → MemoryRecord
unfolding set_memory_field
set_memory_fields [] r = r
set_memory_fields (f ∷ fields) r = set_memory_fields fields (set_memory_field f r)

-- MemoryRecord.model_validate of a document that is there
unfoldable pub as_memory : Payload → Db MemoryRecord
as_memory (Payload.memory r) = pure r
as_memory _ = raise value_error

unfoldable pub memories : List Payload → Db (List MemoryRecord)
memories [] = pure []
memories (p ∷ ps) = let rest = memories ps in do r ← as_memory p; rs ← rest; pure (r ∷ rs)

-- The content of a memory is not empty.
unfoldable pub validated : MemoryRecord → Db MemoryRecord
validated r = do require (not (same r.content "")) value_error; pure r

-- expired
unfoldable pub is_expired : MemoryRecord → Db Bool
is_expired r = elim r.expires_at [
  | none ↦ pure false
  | some e ↦ (do now ← utc_now; pure (leb e now))
]

abbrev fits? : Filters → MemoryRecord → Bool
fits? f r =
    (elim f.scope [ none ↦ true | some s ↦ same_scope r.scope s ])
    && (elim f.review_state [ none ↦ true | some s ↦ same_review r.review_state s ])

-- The records that `list` keeps.
abbrev pub is_visible : Identity → String → Filters → MemoryRecord → Bool
is_visible identity workspace filters r =
    same r.owner identity.owner_id
    && not (is_deleted r.review_state)
    && (is_user_scope r.scope || same r.workspace workspace)
    && fits? filters r

-- The order of (created_at, id)
abbrev pub is_before : MemoryRecord → MemoryRecord → Bool
is_before r s = ltb r.created_at s.created_at || r.created_at == s.created_at && text_le r.id s.id

unfoldable pub offset_of : Cursor → ℕ → Db ℕ
offset_of Cursor.malformed limit = raise invalid_cursor
offset_of Cursor.start limit = do require (leb 1 limit && leb limit 100) invalid_cursor; pure 0
offset_of (Cursor.offset n) limit = do require (leb 1 limit && leb limit 100) invalid_cursor; pure n

abbrev pub drop_first : ℕ → List MemoryRecord → List MemoryRecord
drop_first zero rs = rs
drop_first (suc n) [] = []
drop_first (suc n) (r ∷ rs) = drop_first n rs

abbrev pub page_at : List MemoryRecord → ℕ → ℕ → Page
page_at rs n limit = record {
  items = take limit (drop_first n rs);
  next_cursor = if ltb (n + limit) (length rs) then some (n + limit) else none;
}

unfoldable pub unexpired : List MemoryRecord → Db (List MemoryRecord)
unexpired [] = pure []
unexpired (r ∷ rs) =
    let rest = unexpired rs in
    do gone ← is_expired r; kept ← rest; pure (if gone then kept else r ∷ kept)

abbrev pub accepted_only : Filters
accepted_only = record { scope = none; review_state = some ReviewState.accepted }

module _ (access : Identity → String → Db Unit) where
  -- MemoryService._check
  unfoldable pub check_memory : Identity → MemoryRecord → Db Unit
  check_memory identity r = do
    require (same identity.owner_id r.owner) memory_not_found
    require (not (other_workspace identity.workspace_id r)) memory_not_found
    access identity r.workspace

  -- MemoryService.propose
  unfoldable pub propose :
      Identity → String → String → List String → List MemoryField → Db MemoryRecord
  propose identity workspace text sources fields = do
    access identity workspace
    require (all may_propose fields) invalid_memory_field
    fresh ← new_id
    now ← utc_now
    let r : MemoryRecord = set_memory_fields fields (record {
      id = fresh;
      revision = 1;
      owner = identity.owner_id;
      workspace = workspace;
      scope = MemoryScope.workspace_scope;
      kind = MemoryKind.fact;
      content = text;
      source_refs = sources;
      created_at = now;
      expires_at = none;
      confidence = none;
      review_state = ReviewState.proposed;
    })
    new ← validated r
    put "memory" new.id (Payload.memory new)
    pure new

  -- MemoryService.get
  unfoldable pub get_memory : Identity → String → Db MemoryRecord
  get_memory identity id = do
    found ← get "memory" id
    p ← or_raise memory_not_found found
    r ← as_memory p
    check_memory identity r
    require (not (is_deleted r.review_state)) memory_not_found
    pure r

  -- MemoryService.list
  unfoldable pub list_memories : Identity → String → Filters → Cursor → ℕ → Db Page
  list_memories identity workspace filters cursor limit = do
    access identity workspace
    saved ← list "memory"
    rs ← memories saved
    n ← offset_of cursor limit
    pure (page_at (order_by is_before (select (is_visible identity workspace filters) rs)) n limit)

  -- MemoryService._replace
  unfoldable pub replace_memory : MemoryRecord → List MemoryField → ℕ → Db MemoryRecord
  replace_memory old patch expected = do
    require (old.revision == expected) revision_conflict
    let changed = set_memory_fields patch old
    new ← validated (record changed { revision = old.revision + 1 })
    compare_and_set "memory" old.id (some expected) (Payload.memory new)
    pure new

  abbrev decided : Decision → Option ReviewState
  decided Decision.accept = some ReviewState.accepted
  decided Decision.reject = some ReviewState.rejected
  decided Decision.another_decision = none

  -- MemoryService.review
  unfoldable pub review : Identity → String → Decision → ℕ → Db MemoryRecord
  review identity id decision expected = do
    next ← or_raise invalid_decision (decided decision)
    r ← get_memory identity id
    require (same_review r.review_state ReviewState.proposed) invalid_memory_state
    replace_memory r (MemoryField.review_state next ∷ []) expected

  -- MemoryService.update
  unfoldable pub update_memory : Identity → String → List MemoryField → ℕ → Db MemoryRecord
  update_memory identity id patch expected = do
    require (all may_edit patch) immutable_memory_field
    r ← get_memory identity id
    replace_memory r patch expected

  -- MemoryService.delete
  unfoldable pub delete_memory : Identity → String → ℕ → Db MemoryRecord
  delete_memory identity id expected = do
    r ← get_memory identity id
    replace_memory r (MemoryField.review_state ReviewState.deleted ∷ []) expected

  -- The loop of `retrieve` over the pages, from one that has been read.
  unfoldable pub later_pages : ℕ → Identity → String → Page → Db (List MemoryRecord)
  later_pages zero identity workspace page = pure page.items
  later_pages (suc fuel) identity workspace page = elim page.next_cursor [
    | none ↦ pure page.items
    | some n ↦ (do
      next ← list_memories identity workspace accepted_only (Cursor.offset n) 100
      rest ← later_pages fuel identity workspace next
      pure (page.items ++ rest))
  ]

  -- The candidates of `retrieve`; each page but the last moves on by 100 records.
  unfoldable pub candidates : ℕ → Identity → String → Db (List MemoryRecord)
  candidates fuel identity workspace = do
    page ← list_memories identity workspace accepted_only Cursor.start 100
    later_pages fuel identity workspace page

  module _ (score : String → MemoryRecord → ℕ) where
    -- The keys (pinned, score, created_at) in descending order
    abbrev ranks_before : String → MemoryRecord → MemoryRecord → Bool
    ranks_before query r s =
        let a = is_pinned r.kind in
        let b = is_pinned s.kind in
        if a && not b
        then true
        else if b && not a
        then false
        else if ltb (score query s) (score query r)
        then true
        else if ltb (score query r) (score query s)
        then false
        else leb s.created_at r.created_at

    abbrev is_relevant : String → MemoryRecord → Bool
    is_relevant query r = ltb 0 (score query r) || is_pinned r.kind

    abbrev at_most : ℕ → ℕ
    at_most limit = if leb limit 1 then 1 else if ltb 100 limit then 100 else limit

    -- MemoryService.retrieve
    unfoldable pub retrieve : ℕ → Identity → String → String → ℕ → Db (List MemoryRecord)
    retrieve fuel identity workspace query limit = do
      found ← candidates fuel identity workspace
      fresh ← unexpired found
      pure (take (at_most limit) (select (is_relevant query) (order_by (ranks_before query) fresh)))
