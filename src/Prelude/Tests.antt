-- ===== src/Prelude/Tests.antt =====
-- Boolean tests on numbers, texts and options, and the conditional.
use Prim.Native.Nat.{ℕ, compare, Ordering}
use Prim.Native.String.{String}
use text.Mathlib.Text.{◌==◌ as text_eq, is_le}
use Prim.Native.String.{compare as compare_text}
use text.Mathlib.TextEquality.{eq_iff}
use mathlib.Core.Path.{◌≡◌, refl, sym, ◌∙◌}
use mathlib.Core.Logic.{◌⊎◌, inl, inr}
use mathlib.Core.Bool.{Bool, true, false, not}
use mathlib.Core.Option.{Option, none, some}

abbrev pub ltb : ℕ → ℕ → Bool
ltb a b = elim (compare a b) [ Ordering.lt ↦ true | _ ↦ false ]

abbrev pub leb : ℕ → ℕ → Bool
leb a b = elim (compare a b) [ Ordering.gt ↦ false | _ ↦ true ]

infix 50 ◌==◌
abbrev pub ◌==◌ : ℕ → ℕ → Bool
a == b = elim (compare a b) [ Ordering.eq ↦ true | _ ↦ false ]

infix 1 if◌then◌else◌
abbrev pub if◌then◌else◌ {ℓ} : {A : Type ℓ} → Bool → A → A → A
if true then x else y = x
if false then x else y = y

-- Identifiers, names and hashes are texts that the program compares and never reads.
-- The comparison is shut: proofs use the two laws below it.
unfoldable pub same : String → String → Bool
same s t = text_eq s t

pub same→eq : (s t : String) → same s t ≡ true → s ≡ t
unfolding same
same→eq s t h = (eq_iff s t).0 h

pub same_refl : (s : String) → same s s ≡ true
unfolding same
same_refl s = (eq_iff s s).1 refl

pub eq→same : (s t : String) → s ≡ t → same s t ≡ true
unfolding same
eq→same s t h = (eq_iff s t).1 h

-- The order of texts that an ORDER BY uses.
unfoldable pub text_le : String → String → Bool
text_le s t = is_le (compare_text s t)

-- SQL `IS`, and Python's `==` on a text or None.
abbrev pub same? : Option String → Option String → Bool
same? none none = true
same? (some s) (some t) = same s t
same? _ _ = false

abbrev pub is_some {ℓ} : {A : Type ℓ} → Option A → Bool
is_some none = false
is_some (some a) = true

abbrev pub get_or_else {ℓ} : {A : Type ℓ} → Option A → A → A
get_or_else none d = d
get_or_else (some a) d = a

pub Bool-cases : (b : Bool) → (b ≡ true) ⊎ (b ≡ false)
Bool-cases true = inl refl
Bool-cases false = inr refl

pub Option-cases {ℓ} : {A : Type ℓ} (o : Option A) → (o ≡ none) ⊎ ((a : A) × (o ≡ some a))
Option-cases none = inl refl
Option-cases (some a) = inr (a, refl)

pub not-true : (b : Bool) → not b ≡ true → b ≡ false
not-true false h = refl
not-true true h = cc

pub not-false : (b : Bool) → not b ≡ false → b ≡ true
not-false false h = cc
not-false true h = refl

pub same_sym : (s t : String) → same s t ≡ same t s
same_sym s t = elim (Bool-cases (same s t)) [
  | inl y ↦ y ∙ sym (eq→same t s (sym (same→eq s t y)))
  | inr n ↦ elim (Bool-cases (same t s)) [
    | inl y ↦ n ∙ sym n ∙ eq→same s t (sym (same→eq t s y)) ∙ sym y
    | inr m ↦ n ∙ sym m
  ]
]
