-- ===== src/Safety/Counting.antt =====
-- How often a text occurs in a list, and how often the recorded delegations of
-- harness/storage/store.py lead to a run.
use mi_harness.Prelude.{
  ℕ, suc, ◌+◌, ◌≤◌, ◌<◌, String, ◌≡◌, refl, subst, inl, inr, ◌&&◌, List, [], ◌∷◌, ◌++◌, map, arith,
  length, All, same, same→eq, same_refl, same_sym, ltb, select, any, contains, if◌then◌else◌,
  Bool-cases,
}
use mi_harness.Store.Schema.{DependencyRow}

unfoldable pub occurrences : String → List String → ℕ
occurrences k [] = 0
occurrences k (x ∷ xs) = let rest = occurrences k xs in if same x k then suc rest else rest

pub occurrences-append :
    (k : String) (xs ys : List String)
    → occurrences k (xs ++ ys) ≡ occurrences k xs + occurrences k ys
unfolding occurrences
occurrences-append k [] ys = omega arith
occurrences-append k (x ∷ xs) ys = ground (arith, occurrences-append k xs ys)

-- What a list of runs gives the run `k`: one for each delegation of one of them to `k`.
unfoldable pub led_to : String → List DependencyRow → List String → ℕ
led_to k [] ks = 0
led_to k (e ∷ es) ks =
    let rest = led_to k es ks in
    if same e.child_id k then occurrences e.parent_id ks + rest else rest

abbrev pub children_in : List DependencyRow → List String
children_in es = map (λ (e : DependencyRow). e.child_id) es

abbrev pub children_of : String → List DependencyRow → List String
children_of k es = children_in (select (λ (e : DependencyRow). same e.parent_id k) es)

pub led_to-visit :
    (k r : String) (es : List DependencyRow) (ks : List String)
    → led_to k es (r ∷ ks) ≡ led_to k es ks + occurrences k (children_of r es)
unfolding led_to occurrences select
led_to-visit k r [] ks = omega arith
led_to-visit k r (e ∷ es) ks = elim (Bool-cases (same e.parent_id r)) [
  | inl own ↦ ground (arith, led_to-visit k r es ks, own, same_sym r e.parent_id)
  | inr other ↦ ground (arith, led_to-visit k r es ks, other, same_sym r e.parent_id)
]

-- Where no run occurs twice, each delegation leads at most once.
pub led_to_le :
    (k : String) (es : List DependencyRow) (ks : List String)
    → ((j : String) → occurrences j ks ≤ 1)
    → led_to k es ks ≤ occurrences k (children_in es)
unfolding led_to occurrences
led_to_le k [] ks once = omega arith
led_to_le k (e ∷ es) ks once = ground (arith, led_to_le k es ks once, once e.parent_id)

module _ (rank : String → ℕ) where
  absent :
      (k : String) (n : ℕ) (ks : List String)
      → rank k < n
      → All (λ j. n ≤ rank j) ks
      → occurrences k ks ≡ 0
  unfolding occurrences
  absent k n [] low h = refl
  absent k n (x ∷ xs) low h = elim (Bool-cases (same x k)) [
    | inl e ↦ absurd (omega (arith, low, subst (λ j. n ≤ rank j) (same→eq x k e) h.0))
    | inr e ↦ rw e (absent k n xs low h.1)
  ]

  -- No delegation leads back to a run of the lowest rank.
  pub led_to-lowest :
      (k : String) (es : List DependencyRow) (ks : List String)
      → All (λ (e : DependencyRow). rank e.parent_id < rank e.child_id) es
      → All (λ j. rank k ≤ rank j) ks
      → led_to k es ks ≡ 0
  unfolding led_to
  led_to-lowest k [] ks up h = refl
  led_to-lowest k (e ∷ es) ks up h =
      let others : led_to k es ks ≡ 0 = led_to-lowest k es ks up.1 h in
      elim (Bool-cases (same e.child_id k)) [
        | inl own ↦ rw own (
            omega (
              arith,
              others,
              absent e.parent_id (rank k) ks
                  (subst (λ j. rank e.parent_id < rank j) (same→eq e.child_id k own) up.0) h,
            ))
        | inr other ↦ rw other others
      ]

without : String → List String → List String
without k [] = []
without k (x ∷ xs) = let rest = without k xs in if same x k then xs else x ∷ rest

length-without :
    (k : String) (xs : List String) → 0 < occurrences k xs → suc (length (without k xs)) ≡ length xs
unfolding without occurrences
length-without k [] h = absurd (omega (arith, h))
length-without k (x ∷ xs) h = elim (Bool-cases (same x k)) [
  | inl e ↦ rw e refl
  | inr e ↦ ground (arith, e, length-without k xs)
]

occurrences-without :
    (j k : String) (xs : List String)
    → 0 < occurrences k xs
    → occurrences j (without k xs) + occurrences j (k ∷ []) ≡ occurrences j xs
unfolding without occurrences
occurrences-without j k [] h = absurd (omega (arith, h))
occurrences-without j k (x ∷ xs) h = elim (Bool-cases (same x k)) [
  | inl e ↦ rw (e, same→eq x k e) (ground arith)
  | inr e ↦ ground (arith, e, occurrences-without j k xs)
]

-- A list whose texts occur no more often than in another is no longer.
pub length_le :
    (xs ys : List String)
    → ((k : String) → occurrences k xs ≤ occurrences k ys)
    → length xs ≤ length ys
unfolding occurrences
length_le [] ys h = omega arith
length_le (x ∷ xs) ys h =
    let here : 0 < occurrences x ys = ground (arith, same_refl x, h x) in
    let rest : length xs ≤ length (without x ys) =
      length_le xs (without x ys) (λ k. ground (arith, h k, occurrences-without k x ys here)) in
    omega (arith, rest, length-without x ys here)

pub contains-occurrences :
    (k : String) (xs : List String) → contains k xs ≡ ltb 0 (occurrences k xs)
unfolding occurrences
contains-occurrences k [] = refl
contains-occurrences k (x ∷ xs) = ground (arith, contains-occurrences k xs)

pub any-led_to :
    (k : String) (es : List DependencyRow) (ks : List String)
    → any (λ (e : DependencyRow). same e.child_id k && contains e.parent_id ks) es
      ≡ ltb 0 (led_to k es ks)
unfolding any led_to
any-led_to k [] ks = refl
any-led_to k (e ∷ es) ks = ground (arith, any-led_to k es ks, contains-occurrences e.parent_id ks)

pub led_to-cong :
    (k : String) (es : List DependencyRow) (xs ys : List String)
    → ((j : String) → occurrences j xs ≡ occurrences j ys)
    → led_to k es xs ≡ led_to k es ys
unfolding led_to
led_to-cong k [] xs ys h = refl
led_to-cong k (e ∷ es) xs ys h = ground (arith, led_to-cong k es xs ys h, h e.parent_id)

pub length-children_in : (es : List DependencyRow) → length (children_in es) ≡ length es
length-children_in [] = refl
length-children_in (e ∷ es) = omega (arith, length-children_in es)

pub led_to-none : (k : String) (es : List DependencyRow) → led_to k es [] ≡ 0
unfolding led_to occurrences
led_to-none k [] = refl
led_to-none k (e ∷ es) = ground (arith, led_to-none k es)
