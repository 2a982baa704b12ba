-- ===== src/Safety/Resolution.antt =====
-- PluginRegistry.resolve_dependencies of harness/plugins/registry.py comes to an end.
use mi_harness.Prelude.{
  not-true, ℕ, zero, suc, ◌≤◌, ◌<◌, ◌⊎◌, get_or_else, String, ◌≡◌, ◌≢◌, refl, sym, ap, subst, ◌∙◌,
  inl, inr, Bool, true, false, not, Option, none, some, List, [], ◌∷◌, arith, length, All, All-imp,
  All_of, same, same→eq, same_refl, select, any, contains, delete_rows, if◌then◌else◌, Bool-cases,
}
use mi_harness.Exec.{World, Exec, err, pure, value_error, out_of_fuel}
use mi_harness.Exec.Ends.{
  Ends, Ends-then, Ends-gets, Ends-require, Ends-raise, Ends-pure, Ends-modify, Ends-if,
  Ends-for_each, Ends-from, Ends-knowing, Ends-test, Ends-read,
}
use mi_harness.Plugins.Manifest.{PluginManifest, key_of}
use mi_harness.Plugins.Dependencies.{
  Visit, Versions, newest, chosen, is_installed, visit_chosen, visit_required, enter, leave, visit,
  resolve_dependencies,
}

delete_absent :
    (k : String) (v : List String) → contains k v ≡ false → delete_rows (λ x. same x k) v ≡ v
unfolding delete_rows
delete_absent k [] h = refl
delete_absent k (x ∷ xs) h = ground (arith, delete_absent k xs)

delete_first :
    (k : String) (v : List String) → contains k v ≡ false → delete_rows (λ x. same x k) (k ∷ v) ≡ v
unfolding delete_rows
delete_first k v h = rw (same_refl k) (delete_absent k v h)

any-select :
    {A : Type 0} (p q : A → Bool) (xs : List A) → any p (select q xs) ≡ true → any p xs ≡ true
unfolding any select
any-select p q [] h = h
any-select p q (x ∷ xs) h = ground (arith, any-select p q xs)

is_key : String → PluginManifest → Bool
is_key k m = same k (key_of m)

-- The manifests that are not being visited.
remaining : List PluginManifest → List String → ℕ
remaining ms v = length (select (λ m. not (contains (key_of m) v)) ms)

remaining_le :
    (ms : List PluginManifest) (k : String) (v : List String)
    → remaining ms (k ∷ v) ≤ remaining ms v
unfolding remaining select
remaining_le [] k v = omega arith
remaining_le (m ∷ ms) k v = ground (arith, remaining_le ms k v)

remaining_less :
    (ms : List PluginManifest) (k : String) (v : List String)
    → any (is_key k) ms ≡ true
    → contains k v ≡ false
    → remaining ms (k ∷ v) < remaining ms v
unfolding remaining select any is_key
remaining_less [] k v h new = cc
remaining_less (m ∷ ms) k v h new = elim (Bool-cases (same k (key_of m))) [
  | inl own ↦ ground (
    arith,
    own,
    remaining_le ms k v,
    subst (λ x. contains x v ≡ false) (same→eq k (key_of m) own) new,
  )
  | inr other ↦ ground (arith, other, remaining_less ms k v)
]

remaining_bounded : (ms : List PluginManifest) (v : List String) → remaining ms v ≤ length ms
unfolding remaining select
remaining_bounded [] v = omega arith
remaining_bounded (m ∷ ms) v = ground (arith, remaining_bounded ms v)

all_known : (ms : List PluginManifest) → All (λ m. any (is_key (key_of m)) ms ≡ true) ms
unfolding any is_key
all_known [] = tt
all_known (m ∷ ms) = (
  rw (same_refl (key_of m)) refl,
  All-imp _ _ (λ x known. ground (arith, known)) ms (all_known ms),
)

value_error_other : value_error ≢ out_of_fuel
value_error_other h = cc

module _ (versions : Versions) where
  newest_cases :
      (rest : Option PluginManifest) (x m : PluginManifest)
      → (elim rest [
        | none ↦ some x
        | some n ↦ if versions.is_older x.version n.version then some n else some x
      ])
        ≡ some m
      → (x ≡ m) ⊎ (rest ≡ some m)
  newest_cases none x m h = inl (ap (λ o. get_or_else o x) h)
  newest_cases (some n) x m h = elim (Bool-cases (versions.is_older x.version n.version)) [
    | inl older ↦ inr (rw older at h)
    | inr newer ↦ inl (ap (λ o. get_or_else o x) (rw newer at h))
  ]

  newest_is_one :
      (p : PluginManifest → Bool) (ms : List PluginManifest) (m : PluginManifest)
      → p m ≡ true
      → newest versions ms ≡ some m
      → any p ms ≡ true
  unfolding newest any
  newest_is_one p [] m own h = cc
  newest_is_one p (x ∷ xs) m own h = elim (newest_cases (newest versions xs) x m h) [
    | inl e ↦ ground (arith, subst (λ y. p y ≡ true) (sym e) own)
    | inr e ↦ ground (arith, newest_is_one p xs m own e)
  ]

  module _ (installed manifests : List PluginManifest) where
    abbrev IsAt : List String → Visit → Type 0
    IsAt v s = s.visiting ≡ v

    abbrev Terminates : List String → Exec Visit Unit → Type 0
    Terminates v m = Ends out_of_fuel (IsAt v) (IsAt v) m

    chosen-Terminates :
        (v : List String) (go : PluginManifest → Exec Visit Unit)
        → ((m : PluginManifest) → any (is_key (key_of m)) manifests ≡ true → Terminates v (go m))
        → (dependency constraint : String) (found : Option PluginManifest)
        → chosen versions installed manifests dependency constraint ≡ found
        → Terminates v (visit_chosen versions installed manifests go found)
    unfolding visit_chosen is_key
    chosen-Terminates v go ends dependency constraint none h =
        Ends-raise value_error value_error_other
    chosen-Terminates v go ends dependency constraint (some m) h = ends m (
        any-select (is_key (key_of m)) _ manifests (
          any-select (is_key (key_of m)) _ _
            (newest_is_one (is_key (key_of m)) _ m (same_refl (key_of m)) h)))

    required-Terminates :
        (v : List String) (go : PluginManifest → Exec Visit Unit)
        → ((m : PluginManifest) → any (is_key (key_of m)) manifests ≡ true → Terminates v (go m))
        → (r : String × String) → Terminates v (visit_required versions installed manifests go r)
    unfolding visit_required
    required-Terminates v go ends (dependency, constraint) =
        Ends-if _ _ _
          (λ pending.
            chosen-Terminates v go ends dependency constraint
              (chosen versions installed manifests dependency constraint) refl)
          (λ other.
            Ends-test (is_installed versions installed manifests dependency constraint) value_error
              value_error_other)

    visit-Terminates :
        (n : ℕ) (m : PluginManifest) (v : List String)
        → any (is_key (key_of m)) manifests ≡ true
        → remaining manifests v < n
        → Terminates v (visit versions installed manifests n m)
    unfolding visit
    visit-Terminates zero m v own enough = let never : ⊥ = omega (arith, enough) in absurd never
    visit-Terminates (suc n) m v own enough = Ends-gets _ _ (λ s.
        Ends-knowing (s.visiting ≡ v) _ (λ d p. sym (ap (λ (x : Visit). x.visiting) p.1) ∙ p.0)
          (λ at. Ends-require _ value_error _ value_error_other (λ new.
            let absent : contains (key_of m) v ≡ false =
              ap (contains (key_of m)) (sym at) ∙ not-true _ new in
            Ends-from (IsAt v) _ (λ d p. p.0)
              (Ends-if (contains (key_of m) s.visited) (pure tt) _ (λ visited. Ends-pure tt)
                (λ unvisited.
                  Ends-then (IsAt (key_of m ∷ v)) _ _
                    (Ends-modify (enter versions installed manifests (key_of m))
                      (λ d p. ap (λ x. key_of m ∷ x) p))
                    (λ u.
                      Ends-then (IsAt (key_of m ∷ v)) _ _
                        (Ends-for_each _ _ (
                          All_of _ m.requires (
                            required-Terminates (key_of m ∷ v)
                              (visit versions installed manifests n)
                              (λ c known. visit-Terminates n c (key_of m ∷ v) known (
                                omega (
                                  arith,
                                  enough,
                                  remaining_less manifests (key_of m) v own absent,
                                ))))))
                        (λ x. Ends-modify (leave versions installed manifests m) (λ d p.
                          ap (delete_rows (λ k. same k (key_of m))) p
                          ∙ delete_first (key_of m) v absent))))))))

    resolve-Ends :
        Ends out_of_fuel (λ s. Unit) (λ s. Unit) (resolve_dependencies versions installed manifests)
    unfolding resolve_dependencies
    resolve-Ends = Ends-then (IsAt []) _ _ (Ends-modify _ (λ d p. refl)) (λ u.
        Ends-then (IsAt []) _ _
          (Ends-for_each _ _ (
            All-imp _ _
              (λ m known.
                visit-Terminates (suc (length manifests)) m [] known
                  (omega (arith, remaining_bounded manifests [])))
              manifests (all_known manifests)))
          (λ x. Ends-read _))

-- Fuel for one more visit than there are manifests is enough: the resolution of dependencies comes
-- to an end for all manifests, also where they require each other in a cycle.
pub resolve_terminates :
    (versions : Versions) (installed manifests : List PluginManifest) (w : World Visit)
    → (resolve_dependencies versions installed manifests w).0 ≢ err out_of_fuel
resolve_terminates versions installed manifests w =
    ((resolve-Ends versions installed manifests).at w tt).0
