-- ===== src/Safety/Memories.antt =====
-- What MemoryService of harness/context/memory.py gives to a reader.
use Prim.Native.Nat.add
use mathlib.Core.List.{append-nil}
use mi_harness.Prelude.{
  ℕ, zero, suc, ◌+◌, ◌≤◌, String, ◌≡◌, refl, sym, ap, subst, ◌∙◌, ◌⊎◌, inl, inr, ◌||◌, same,
  same→eq, Bool, true, false, List, [], ◌∷◌, ◌++◌, arith, ltb, if◌then◌else◌, take, length, select,
  All, All-imp, All-append, All-order_by, All-select, All-selected, All-take, order_by, Bool-cases,
  Option-cases,
}
use mi_harness.Exec.{World, ok, ◌>>=◌, require}
use mi_harness.Exec.Returns.{Returns, Returns-bind, Returns-then, Returns-pure}
use mi_harness.Store.Schema.{MemoryScope, ReviewState, MemoryRecord, Database, Db}
use mi_harness.Store.Records.{list}
use mi_harness.Context.Memory.{
  Identity, Filters, Page, Cursor, is_user_scope, same_review, memories, is_visible, is_before,
  offset_of, drop_first, page_at, list_memories, accepted_only, later_pages, candidates, unexpired,
  retrieve,
}

take_rest : (k : ℕ) (rs : List MemoryRecord) → take k rs ++ drop_first k rs ≡ rs
take_rest zero rs = refl
take_rest (suc k) [] = refl
take_rest (suc k) (r ∷ rs) = ap (λ (l : List MemoryRecord). r ∷ l) (take_rest k rs)

drop_first-nil : (k : ℕ) → drop_first k [] ≡ []
drop_first-nil zero = refl
drop_first-nil (suc k) = refl

drop_first-add :
    (n k : ℕ) (rs : List MemoryRecord) → drop_first (n + k) rs ≡ drop_first k (drop_first n rs)
drop_first-add zero k rs = rw add.zero
drop_first-add (suc n) k [] = rw (drop_first-nil (suc n + k), drop_first-nil k)
drop_first-add (suc n) k (r ∷ rs) = rw add.suc (drop_first-add n k rs)

drop_all : (n : ℕ) (rs : List MemoryRecord) → length rs ≤ n → drop_first n rs ≡ []
drop_all zero [] h = refl
drop_all zero (r ∷ rs) h = absurd (omega arith)
drop_all (suc n) [] h = refl
drop_all (suc n) (r ∷ rs) h = drop_all n rs (omega arith)

whole_page :
    (n k : ℕ) (rs : List MemoryRecord)
    → take k (drop_first n rs) ++ drop_first (n + k) rs ≡ drop_first n rs
whole_page n k rs = rw (drop_first-add n k rs) (take_rest k (drop_first n rs))

last_page :
    (n k : ℕ) (rs : List MemoryRecord)
    → length rs ≤ n + k
    → take k (drop_first n rs) ≡ drop_first n rs
last_page n k rs h =
    sym (append-nil (take k (drop_first n rs)))
    ∙ subst (λ l. take k (drop_first n rs) ++ l ≡ drop_first n rs) (drop_all (n + k) rs h)
        (whole_page n k rs)

module _ (access : Identity → String → Db Unit) (identity : Identity) (workspace : String) where
  -- The memories that the identity may read in the workspace, in their order.
  abbrev pub readable : Filters → List MemoryRecord → List MemoryRecord
  readable filters rs = order_by is_before (select (is_visible identity workspace filters) rs)

  list_memories_lem :
      (filters : Filters) (cursor : Cursor) (limit n : ℕ) (rs : List MemoryRecord)
      (w : World Database)
      → access identity workspace w ≡ (ok tt, w)
      → (list "memory" >>= memories) w ≡ (ok rs, w)
      → offset_of cursor limit w ≡ (ok n, w)
      → list_memories access identity workspace filters cursor limit w
        ≡ (ok (page_at (readable filters rs) n limit), w)
  unfolding list_memories ◌>>=◌ list
  list_memories_lem filters cursor limit n rs w passes saved known = rw (passes, saved, known)

  module _ (passing : (w : World Database) → access identity workspace w ≡ (ok tt, w))
      (rs : List MemoryRecord) (w : World Database)
      (saved : (list "memory" >>= memories) w ≡ (ok rs, w)) where
    next_page :
        (n : ℕ)
        → list_memories access identity workspace accepted_only (Cursor.offset n) 100 w
          ≡ (ok (page_at (readable accepted_only rs) n 100), w)
    unfolding offset_of ◌>>=◌ require
    next_page n = list_memories_lem _ _ 100 n rs w (passing w) saved refl

    later_pages_lem :
        (fuel n : ℕ)
        → length (readable accepted_only rs) ≤ n + fuel
        → later_pages access fuel identity workspace (page_at (readable accepted_only rs) n 100) w
          ≡ (ok (drop_first n (readable accepted_only rs)), w)
    unfolding later_pages ◌>>=◌
    later_pages_lem zero n enough = rw (last_page n 100 (readable accepted_only rs) (omega arith))
    later_pages_lem (suc fuel) n enough =
        elim (Bool-cases (ltb (n + 100) (length (readable accepted_only rs)))) [
          | inl more ↦
              rw (more, next_page (n + 100))
                (rw (
                  later_pages_lem fuel (n + 100) (omega arith),
                  whole_page n 100 (readable accepted_only rs),
                ))
          | inr last ↦ rw (last, last_page n 100 (readable accepted_only rs) (ground arith))
        ]

    -- `retrieve` reads every page: given fuel for the memories that are there, the candidates are all
    -- accepted memories that the identity may read in the workspace, in their order and each once,
    -- and the database stays as it is. The access check passes, and the records are memories.
    pub candidates_complete :
        (fuel : ℕ)
        → length (readable accepted_only rs) ≤ fuel
        → candidates access fuel identity workspace w ≡ (ok (readable accepted_only rs), w)
    unfolding candidates offset_of ◌>>=◌ require
    candidates_complete fuel enough =
        rw (list_memories_lem accepted_only Cursor.start 100 0 rs w (passing w) saved refl)
          (later_pages_lem fuel 0 (omega (arith, enough)))

module _ (identity : Identity) (workspace : String) where
  -- What `retrieve` has filtered.
  abbrev MayRead : MemoryRecord → Type 0
  MayRead r = is_visible identity workspace accepted_only r ≡ true

  All-drop : (n : ℕ) (rs : List MemoryRecord) → All MayRead rs → All MayRead (drop_first n rs)
  All-drop zero rs h = h
  All-drop (suc n) [] h = tt
  All-drop (suc n) (r ∷ rs) h = All-drop n rs h.1

  unless :
      (gone : Bool) (r : MemoryRecord) (kept : List MemoryRecord)
      → MayRead r
      → All MayRead kept
      → All MayRead (if gone then kept else r ∷ kept)
  unless true r kept may h = h
  unless false r kept may h = (may, h)

  unexpired-MayRead :
      (rs : List MemoryRecord) → All MayRead rs → Returns (All MayRead) (unexpired rs)
  unfolding unexpired
  unexpired-MayRead [] h = Returns-pure [] tt
  unexpired-MayRead (r ∷ rs) h = Returns-bind _ _ (λ gone.
      Returns-then (All MayRead) _ _ (unexpired-MayRead rs h.1)
        (λ kept k. Returns-pure _ (unless gone r kept h.0 k)))

  module _ (access : Identity → String → Db Unit) where
    page-MayRead :
        (cursor : Cursor)
        → Returns
            (λ page. All MayRead page.items)
            (list_memories access identity workspace accepted_only cursor 100)
    unfolding list_memories
    page-MayRead cursor = Returns-bind _ _ (λ _. Returns-bind _ _ (λ saved. Returns-bind _ _ (λ rs.
        Returns-bind _ _ (λ n. Returns-pure _ (
          All-take MayRead 100 _
            (All-drop n _ (All-order_by MayRead is_before _ (All-selected _ rs))))))))

    pages-MayRead :
        (fuel : ℕ) (page : Page)
        → All MayRead page.items
        → Returns (All MayRead) (later_pages access fuel identity workspace page)
    unfolding later_pages
    pages-MayRead zero page h = Returns-pure page.items h
    pages-MayRead (suc fuel) page h = elim (Option-cases page.next_cursor) [
      | inl last ↦ rw last (Returns-pure page.items h)
      | inr (n, more) ↦ rw more (
          Returns-then (λ (p : Page). All MayRead p.items) _ _ (page-MayRead (Cursor.offset n))
            (λ p q.
              Returns-then (All MayRead) _ _ (pages-MayRead fuel p q)
                (λ rest r. Returns-pure _ (All-append MayRead page.items rest h r))))
    ]

    retrieved :
        (score : String → MemoryRecord → ℕ) (fuel : ℕ) (query : String) (limit : ℕ)
        → Returns (All MayRead) (retrieve access score fuel identity workspace query limit)
    unfolding retrieve candidates
    retrieved score fuel query limit =
        Returns-then (All MayRead) _ _
          (Returns-then (λ (p : Page). All MayRead p.items) _ _ (page-MayRead Cursor.start)
            (λ p q. pages-MayRead fuel p q))
          (λ found f. Returns-then (All MayRead) _ _ (unexpired-MayRead found f) (λ fresh g.
            Returns-pure _
              (All-take MayRead _ _ (All-select MayRead _ _ (All-order_by MayRead _ _ g)))))

-- An accepted memory of the owner: one of the user, or one of the workspace.
abbrev pub IsOwnAccepted : String → String → MemoryRecord → Type 0
IsOwnAccepted owner workspace r =
    (r.owner ≡ owner)
    × (r.review_state ≡ ReviewState.accepted)
    × ((r.scope ≡ MemoryScope.user_scope) ⊎ (r.workspace ≡ workspace))

accepted_state :
    (s : ReviewState) → same_review s ReviewState.accepted ≡ true → s ≡ ReviewState.accepted
accepted_state ReviewState.proposed h = cc
accepted_state ReviewState.accepted h = refl
accepted_state ReviewState.rejected h = cc
accepted_state ReviewState.deleted h = cc

own_scope :
    (s : MemoryScope) (w workspace : String)
    → (is_user_scope s || same w workspace) ≡ true
    → (s ≡ MemoryScope.user_scope) ⊎ (w ≡ workspace)
own_scope MemoryScope.user_scope w workspace h = inl refl
own_scope MemoryScope.workspace_scope w workspace h = inr (same→eq w workspace h)

visible-IsOwnAccepted :
    (identity : Identity) (workspace : String) (r : MemoryRecord)
    → MayRead identity workspace r
    → IsOwnAccepted identity.owner_id workspace r
visible-IsOwnAccepted identity workspace r h = (
  same→eq r.owner identity.owner_id (ground (arith, h)),
  accepted_state r.review_state (ground (arith, h)),
  own_scope r.scope r.workspace workspace (ground (arith, h)),
)

-- Every memory that a call of `retrieve` returns, for whatever query, score and fuel, has the
-- review state "accepted", belongs to the owner of the identity, and is a memory of the user or
-- of the workspace that was asked for.
pub retrieve-IsOwnAccepted :
    (access : Identity → String → Db Unit) (score : String → MemoryRecord → ℕ) (identity : Identity)
    (workspace : String) (fuel : ℕ) (query : String) (limit : ℕ)
    → Returns
        (All (IsOwnAccepted identity.owner_id workspace))
        (retrieve access score fuel identity workspace query limit)
retrieve-IsOwnAccepted access score identity workspace fuel query limit = record {
  at = λ w rs h.
      All-imp _ _ (visible-IsOwnAccepted identity workspace) rs
        ((retrieved identity workspace access score fuel query limit).at w rs h);
}
