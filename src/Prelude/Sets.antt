-- ===== src/Prelude/Sets.antt =====
-- Python's sets of texts as sorted lists: `sorted(set(xs) & set(ys))` and `sorted(set(xs) | set(ys))`.
use mathlib.Core.Path.{◌≡◌, refl}
use mathlib.Core.Bool.{true, ◌&&◌, ◌||◌}
use mathlib.Core.List.{List, [], ◌∷◌, ◌++◌}
use Prim.Native.String.{String}
use native.Mathlib.Omega.{arith}
use mathlib.Core.Logic.{inl, inr}
use mi_harness.Prelude.Tests.{if◌then◌else◌, same, same→eq, text_le, Bool-cases}
use mi_harness.Prelude.Lists.{contains, select, every_in}

add_to : String → List String → List String
add_to x [] = x ∷ []
add_to x (y ∷ ys) =
    let further = add_to x ys in
    if same y x then y ∷ ys else if text_le x y then x ∷ y ∷ ys else y ∷ further

-- sorted(set(xs))
unfoldable pub sorted_set : List String → List String
unfolding add_to
sorted_set [] = []
sorted_set (x ∷ xs) = add_to x (sorted_set xs)

unfoldable pub intersect : List String → List String → List String
intersect xs ys = sorted_set (select (λ x. contains x ys) xs)

unfoldable pub union : List String → List String → List String
union xs ys = sorted_set (xs ++ ys)

contains-add_to :
    (k x : String) (ys : List String) → contains k (add_to x ys) ≡ (same x k || contains k ys)
unfolding add_to
contains-add_to k x [] = refl
contains-add_to k x (y ∷ ys) = ground (arith, contains-add_to k x ys, same→eq y x, same→eq x y)

pub contains-sorted_set :
    (k : String) (xs : List String) → contains k (sorted_set xs) ≡ contains k xs
unfolding sorted_set
contains-sorted_set k [] = refl
contains-sorted_set k (x ∷ xs) =
    ground (arith, contains-add_to k x (sorted_set xs), contains-sorted_set k xs)

contains-select :
    (k : String) (xs ys : List String)
    → contains k (select (λ x. contains x ys) xs) ≡ (contains k xs && contains k ys)
unfolding select
contains-select k [] ys = refl
contains-select k (x ∷ xs) ys = elim (Bool-cases (same x k)) [
  | inl e ↦ ground (arith, contains-select k xs ys, same→eq x k e)
  | inr n ↦ ground (arith, contains-select k xs ys)
]

contains-append :
    (k : String) (xs ys : List String) → contains k (xs ++ ys) ≡ (contains k xs || contains k ys)
contains-append k [] ys = refl
contains-append k (x ∷ xs) ys = ground (arith, contains-append k xs ys)

pub contains-intersect :
    (k : String) (xs ys : List String)
    → contains k (intersect xs ys) ≡ (contains k xs && contains k ys)
unfolding intersect
contains-intersect k xs ys =
    ground (arith, contains-sorted_set k (select (λ x. contains x ys) xs), contains-select k xs ys)

pub contains-union :
    (k : String) (xs ys : List String) → contains k (union xs ys) ≡ (contains k xs || contains k ys)
unfolding union
contains-union k xs ys = ground (arith, contains-sorted_set k (xs ++ ys), contains-append k xs ys)

-- `<=` of sets by their members.
pub every_in→contains :
    (k : String) (xs ys : List String)
    → every_in xs ys ≡ true
    → contains k xs ≡ true
    → contains k ys ≡ true
every_in→contains k [] ys h m = cc
every_in→contains k (x ∷ xs) ys h m = elim (Bool-cases (same x k)) [
  | inl e ↦ ground (arith, same→eq x k e)
  | inr n ↦ every_in→contains k xs ys (ground arith) (ground arith)
]
