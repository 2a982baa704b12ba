-- ===== src/Safety/Amounts.antt =====
-- What Store.settle of harness/storage/store.py makes of the amounts of an account: the part that is
-- released, and the part that is consumed.
use mi_harness.Prelude.{
  String, ◌≡◌, refl, sym, subst, inl, inr, Bool, true, false, ◌||◌, Option, List, [], ◌∷◌, arith,
  if◌then◌else◌, same, same→eq, Bool-cases,
}
use mi_harness.Prelude.Int.{ℤ, ◌+ℤ◌, ◌-ℤ◌, ◌≤ℤ◌, ltb_ℤ, int_laws, pos}
use mi_harness.Store.Schema.{Amount}
use mi_harness.Store.Budget.{get?, get, put, limit_of, exceeds, is_covered, release, consume}
use mi_harness.Safety.Balance.{WithinLimits, get-put}

abbrev pub has_key : String → Amount → Bool
has_key d [] = false
has_key d ((k, v) ∷ rest) = same k d || has_key d rest

-- An amount is a dictionary, with a key for each dimension at most once, and no negative entry.
unfoldable pub IsAmount : Amount → Type 0
IsAmount [] = Unit
IsAmount ((k, v) ∷ rest) = (has_key k rest ≡ false) × (ltb_ℤ v (pos 0) ≡ false) × IsAmount rest

get-cons :
    (d k : String) (v : ℤ) (rest : Amount)
    → get d ((k, v) ∷ rest) ≡ (if same k d then v else get d rest)
unfolding get get?
get-cons d k v rest = ground arith

get-nil : (d : String) → get d [] ≡ pos 0
unfolding get get?
get-nil d = refl

get-nonneg : (d : String) (m : Amount) → IsAmount m → ltb_ℤ (get d m) (pos 0) ≡ false
unfolding get get? IsAmount
get-nonneg d [] h = refl
get-nonneg d ((k, v) ∷ rest) (u, n, r) = ground (arith, get-nonneg d rest r)

get-release :
    (d : String) (amount reserved : Amount)
    → IsAmount amount
    → get d (release amount reserved)
      ≡ (if has_key d amount then get d reserved -ℤ get d amount else get d reserved)
unfolding release IsAmount
get-release d [] reserved h = refl
get-release d ((k, v) ∷ rest) reserved (u, n, r) = elim (Bool-cases (same k d)) [
  | inl y ↦
      let eq : k ≡ d = same→eq k d y in
      let once : has_key d rest ≡ false = subst (λ x. has_key x rest ≡ false) eq u in
      let after : get d (put k (get k reserved -ℤ v) reserved) ≡ get d reserved -ℤ v =
        rw (get-put k d (get k reserved -ℤ v) reserved, y, eq) refl in
      ground
        (arith, get-release d rest (put k (get k reserved -ℤ v) reserved) r, get-cons d k v rest)
  | inr m ↦
      let after : get d (put k (get k reserved -ℤ v) reserved) ≡ get d reserved =
        rw (get-put k d (get k reserved -ℤ v) reserved, m) refl in
      ground
        (arith, get-release d rest (put k (get k reserved -ℤ v) reserved) r, get-cons d k v rest)
]

get-consume :
    (d : String) (amount actual consumed : Amount)
    → IsAmount amount
    → get d (consume amount actual consumed)
      ≡ (if has_key d amount then get d consumed +ℤ get d actual else get d consumed)
unfolding consume IsAmount
get-consume d [] actual consumed h = refl
get-consume d ((k, v) ∷ rest) actual consumed (u, n, r) = elim (Bool-cases (same k d)) [
  | inl y ↦
      let eq : k ≡ d = same→eq k d y in
      let once : has_key d rest ≡ false = subst (λ x. has_key x rest ≡ false) eq u in
      let after : get d (put k (get k consumed +ℤ get k actual) consumed)
          ≡ get d consumed +ℤ get d actual =
        rw (get-put k d (get k consumed +ℤ get k actual) consumed, y, eq) refl in
      ground (arith, get-consume d rest actual (put k (get k consumed +ℤ get k actual) consumed) r)
  | inr m ↦
      let after : get d (put k (get k consumed +ℤ get k actual) consumed) ≡ get d consumed =
        rw (get-put k d (get k consumed +ℤ get k actual) consumed, m) refl in
      ground (arith, get-consume d rest actual (put k (get k consumed +ℤ get k actual) consumed) r)
]

-- What is used in a dimension is at most what was reserved in it.
covered :
    (d : String) (actual amount : Amount)
    → IsAmount amount
    → is_covered actual amount ≡ true
    → ltb_ℤ (get d amount) (get d actual) ≡ false
unfolding is_covered
covered d [] amount h c =
    subst (λ x. ltb_ℤ (get d amount) x ≡ false) (sym (get-nil d)) (get-nonneg d amount h)
covered d ((k, v) ∷ rest) amount h c = elim (Bool-cases (same k d)) [
  | inl y ↦
      let eq : k ≡ d = same→eq k d y in
      let enough : ltb_ℤ (get k amount) v ≡ false = ground arith in
      rw (get-cons d k v rest, y) (subst (λ x. ltb_ℤ (get x amount) v ≡ false) eq enough)
  | inr m ↦ rw (get-cons d k v rest, m) (covered d rest amount h (ground arith))
]

not_more : (r m c a : ℤ) → ltb_ℤ m a ≡ false → (r -ℤ m) +ℤ (c +ℤ a) ≤ℤ r +ℤ c
not_more r m c a h = let at_most : a ≤ℤ m = ground arith in omega int_laws

exceeds_mono :
    (small large : ℤ) (limit : Option ℤ)
    → small ≤ℤ large
    → exceeds large limit ≡ false
    → exceeds small limit ≡ false
exceeds_mono small large limit le h = ground arith

-- The balance after a settlement is at most what it was.
pub settled-WithinLimits :
    (amount actual : Amount) (limits : List (String × Option ℤ)) (reserved consumed : Amount)
    → IsAmount amount
    → is_covered actual amount ≡ true
    → WithinLimits limits reserved consumed
    → WithinLimits limits (release amount reserved) (consume amount actual consumed)
settled-WithinLimits amount actual limits reserved consumed h c within = record {
  at = λ d whole.
      let less : get d (release amount reserved) +ℤ get d (consume amount actual consumed)
          ≤ℤ get d reserved +ℤ get d consumed =
        elim (Bool-cases (has_key d amount)) [
          | inl y ↦
              rw (get-release d amount reserved h, get-consume d amount actual consumed h, y)
                (not_more (get d reserved) (get d amount) (get d consumed) (get d actual)
                  (covered d actual amount h c))
          | inr n ↦
              rw (get-release d amount reserved h, get-consume d amount actual consumed h, n)
                (omega arith)
        ] in
      exceeds_mono _ _ (limit_of d limits) less (within.at d whole);
}
