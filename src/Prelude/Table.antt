-- ===== src/Prelude/Table.antt =====
-- A table is the list of its rows in insertion order. `find_row` is a SELECT of one row,
-- `update_rows` an UPDATE ... WHERE, `delete_rows` a DELETE ... WHERE.
use mathlib.Core.Path.{◌≡◌, refl, subst}
use mathlib.Core.Bool.{false, Bool, true}
use mathlib.Core.Option
use mathlib.Core.Logic.{inl, inr}
use mathlib.Core.Option.{Option, none, some}
use mathlib.Core.List.{List, [], ◌∷◌, ◌++◌, map}
use mathlib.Core.Bool.{◌&&◌}
use Prim.Native.Nat.{ℕ, zero, suc, ◌+◌, ◌≤◌}
use native.Mathlib.Omega.{arith}
use mi_harness.Prelude.Tests.{if◌then◌else◌, is_some, Bool-cases}
use mi_harness.Prelude.Lists.{any, All, length, take, select}

module _ {ℓ} {A : Type ℓ} where
  unfoldable pub find_row : (A → Bool) → List A → Option A
  find_row p [] = none
  find_row p (x ∷ xs) = if p x then some x else find_row p xs

  unfoldable pub update_rows : (A → Bool) → (A → A) → List A → List A
  update_rows p f [] = []
  update_rows p f (x ∷ xs) = (if p x then f x else x) ∷ update_rows p f xs

  unfoldable pub delete_rows : (A → Bool) → List A → List A
  delete_rows p [] = []
  delete_rows p (x ∷ xs) = let rest = delete_rows p xs in if p x then rest else x ∷ rest

  insert_ordered : (A → A → Bool) → A → List A → List A
  insert_ordered le x [] = x ∷ []
  insert_ordered le x (y ∷ ys) =
      let further = insert_ordered le x ys in if le x y then x ∷ y ∷ ys else y ∷ further

  -- ORDER BY: rows that compare equal keep the order of insertion.
  unfoldable pub order_by : (A → A → Bool) → List A → List A
  unfolding insert_ordered
  order_by le [] = []
  order_by le (x ∷ xs) = insert_ordered le x (order_by le xs)

  pub find_row_sound : (p : A → Bool) (xs : List A) (a : A) → find_row p xs ≡ some a → p a ≡ true
  unfolding find_row
  find_row_sound p [] a h = cc
  find_row_sound p (x ∷ xs) a h = ground (arith, find_row_sound p xs a)

  -- An UPDATE that keeps the test of a SELECT changes the row that the SELECT finds.
  pub find_row-update_rows :
      (p q : A → Bool) (f : A → A) (xs : List A)
      → ((x : A) → q (f x) ≡ q x)
      → find_row q (update_rows p f xs) ≡ Option.map (λ x. if p x then f x else x) (find_row q xs)
  unfolding find_row update_rows
  find_row-update_rows p q f [] h = refl
  find_row-update_rows p q f (x ∷ xs) h = ground (arith, h x, find_row-update_rows p q f xs h)

  pub find_row-append :
      (q : A → Bool) (xs : List A) (a : A)
      → find_row q (xs ++ a ∷ [])
        ≡ (if is_some (find_row q xs) then find_row q xs else if q a then some a else none)
  unfolding find_row
  find_row-append q [] a = ground arith
  find_row-append q (x ∷ xs) a = ground (arith, find_row-append q xs a)

  -- A statement of all rows survives an UPDATE that keeps it row by row, and an INSERT.
  pub All-update_rows {κ} :
      (P : A → Type κ) (p : A → Bool) (f : A → A) (xs : List A)
      → ((x : A) → p x ≡ true → P x → P (f x))
      → All P xs
      → All P (update_rows p f xs)
  unfolding update_rows
  All-update_rows P p f [] h a = tt
  All-update_rows P p f (x ∷ xs) h a = elim (Bool-cases (p x)) [
    | inl y ↦ rw y (h x y a.0, All-update_rows P p f xs h a.1)
    | inr n ↦ rw n (a.0, All-update_rows P p f xs h a.1)
  ]

  All-insert_ordered {κ} :
      (P : A → Type κ) (le : A → A → Bool) (x : A) (xs : List A)
      → P x
      → All P xs
      → All P (insert_ordered le x xs)
  unfolding insert_ordered
  All-insert_ordered P le x [] p h = (p, tt)
  All-insert_ordered P le x (y ∷ ys) p h = elim (Bool-cases (le x y)) [
    | inl first ↦ rw first (p, h)
    | inr later ↦ rw later (h.0, All-insert_ordered P le x ys p h.1)
  ]

  pub All-order_by {κ} :
      (P : A → Type κ) (le : A → A → Bool) (xs : List A) → All P xs → All P (order_by le xs)
  unfolding order_by
  All-order_by P le [] h = tt
  All-order_by P le (x ∷ xs) h =
      All-insert_ordered P le x (order_by le xs) h.0 (All-order_by P le xs h.1)

  pub All-select {κ} :
      (P : A → Type κ) (p : A → Bool) (xs : List A) → All P xs → All P (select p xs)
  unfolding select
  All-select P p [] h = tt
  All-select P p (x ∷ xs) h = elim (Bool-cases (p x)) [
    | inl y ↦ rw y (h.0, All-select P p xs h.1)
    | inr n ↦ rw n (All-select P p xs h.1)
  ]

  -- What a SELECT finds has passed its test.
  pub All-selected : (p : A → Bool) (xs : List A) → All (λ x. p x ≡ true) (select p xs)
  unfolding select
  All-selected p [] = tt
  All-selected p (x ∷ xs) = elim (Bool-cases (p x)) [
    | inl y ↦ rw y (y, All-selected p xs)
    | inr n ↦ rw n (All-selected p xs)
  ]

  pub All-take {κ} : (P : A → Type κ) (n : ℕ) (xs : List A) → All P xs → All P (take n xs)
  All-take P zero xs h = tt
  All-take P (suc n) [] h = tt
  All-take P (suc n) (x ∷ xs) h = (h.0, All-take P n xs h.1)

  pub All-find_row {κ} :
      (P : A → Type κ) (q : A → Bool) (xs : List A) (a : A)
      → All P xs
      → find_row q xs ≡ some a
      → P a
  unfolding find_row
  All-find_row P q [] a h e = cc
  All-find_row P q (x ∷ xs) a h e = elim (Bool-cases (q x)) [
    | inl y ↦ let same_row : x ≡ a = ground arith in subst P same_row h.0
    | inr n ↦ All-find_row P q xs a h.1 (rw n at e)
  ]

  -- A row that a SELECT finds and that passes another test makes the count of that test positive.
  pub any_of_find_row :
      (p q : A → Bool) (xs : List A) (a : A) → find_row q xs ≡ some a → p a ≡ true → any p xs ≡ true
  unfolding find_row any
  any_of_find_row p q [] a h k = cc
  any_of_find_row p q (x ∷ xs) a h k = elim (Bool-cases (q x)) [
    | inl y ↦ let same_row : x ≡ a = ground arith in rw (same_row, k)
    | inr n ↦ ground (arith, any_of_find_row p q xs a)
  ]

  -- Where no row passes, an UPDATE changes nothing that a SELECT finds.
  pub find_row-none_of_any : (q : A → Bool) (xs : List A) → any q xs ≡ false → find_row q xs ≡ none
  unfolding find_row any
  find_row-none_of_any q [] h = refl
  find_row-none_of_any q (x ∷ xs) h = ground (arith, find_row-none_of_any q xs)

  count-insert_ordered :
      (p : A → Bool) (le : A → A → Bool) (x : A) (xs : List A)
      → length (select p (insert_ordered le x xs)) ≡ length (select p (x ∷ xs))
  unfolding insert_ordered select
  count-insert_ordered p le x [] = refl
  count-insert_ordered p le x (y ∷ ys) = ground (arith, count-insert_ordered p le x ys)

  -- An ORDER BY changes no count.
  pub count-order_by :
      (p : A → Bool) (le : A → A → Bool) (xs : List A)
      → length (select p (order_by le xs)) ≡ length (select p xs)
  unfolding order_by select
  count-order_by p le [] = refl
  count-order_by p le (x ∷ xs) =
      ground (arith, count-insert_ordered p le x (order_by le xs), count-order_by p le xs)

  pub count-select :
      (p q : A → Bool) (xs : List A)
      → length (select p (select q xs)) ≡ length (select (λ x. q x && p x) xs)
  unfolding select
  count-select p q [] = refl
  count-select p q (x ∷ xs) = ground (arith, count-select p q xs)

  pub count-append :
      (p : A → Bool) (xs : List A) (a : A)
      → length (select p (xs ++ a ∷ [])) ≤ length (select p xs) + 1
  unfolding select
  count-append p [] a = ground arith
  count-append p (x ∷ xs) a = ground (arith, count-append p xs a)

pub count-map {ℓ κ} :
    {A : Type ℓ} {B : Type κ} (p : B → Bool) (f : A → B) (xs : List A)
    → length (select p (map f xs)) ≡ length (select (λ x. p (f x)) xs)
unfolding select
count-map p f [] = refl
count-map p f (x ∷ xs) = ground (arith, count-map p f xs)
