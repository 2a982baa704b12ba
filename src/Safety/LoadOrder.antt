-- ===== src/Safety/LoadOrder.antt =====
-- The order that PluginRegistry.resolve_dependencies of harness/plugins/registry.py returns.
use mi_harness.Prelude.{
  ℕ, zero, suc, String, ◌≡◌, refl, sym, ap, ◌∙◌, inl, inr, Bool, true, false, ◌||◌, Option, none,
  some, List, [], ◌∷◌, ◌++◌, map, arith, length, All, same, same_refl, any, contains, if◌then◌else◌,
  Bool-cases,
}
use mi_harness.Exec.{World, Exec, ok, pure, modify, for_each, value_error}
use mi_harness.Exec.Keeps.{Keeps, Keeps-for_each, Keeps-modify, Keeps-raise, keeps_rules}
use mi_harness.Exec.Leaves.{
  Leaves, Leaves-then, Leaves-pure, Leaves-if, Leaves-require, Leaves-raise, Leaves-modify,
  Leaves-gets, Leaves-test, Leaves-keeping, Leaves-read,
}
use mi_harness.Plugins.Manifest.{PluginManifest, key_of}
use mi_harness.Plugins.Dependencies.{
  Visit, Versions, chosen, is_installed, visit_chosen, visit_required, enter, leave, visit,
  resolve_dependencies,
}

abbrev pub holds : String → List PluginManifest → Bool
holds k order = any (λ m. same (key_of m) k) order

holds-append :
    (k : String) (xs ys : List PluginManifest) → holds k xs ≡ true → holds k (xs ++ ys) ≡ true
unfolding any
holds-append k [] ys h = cc
holds-append k (x ∷ xs) ys h = ground (arith, holds-append k xs ys)

holds_last :
    (xs : List PluginManifest) (m : PluginManifest) → holds (key_of m) (xs ++ m ∷ []) ≡ true
unfolding any
holds_last [] m = rw (same_refl (key_of m)) refl
holds_last (x ∷ xs) m = ground (arith, holds_last xs m)

visited-holds : (k : String) (xs : List PluginManifest) → contains k (map key_of xs) ≡ holds k xs
unfolding any
visited-holds k [] = refl
visited-holds k (x ∷ xs) = ap (λ b. same (key_of x) k || b) (visited-holds k xs)

map-append :
    (xs : List PluginManifest) (m : PluginManifest)
    → map key_of (xs ++ m ∷ []) ≡ map key_of xs ++ key_of m ∷ []
map-append [] m = refl
map-append (x ∷ xs) m = ap (λ ks. key_of x ∷ ks) (map-append xs m)

module _ (versions : Versions) (installed manifests : List PluginManifest) where
  -- A requirement for which the plugin chosen among `manifests` stands in `order`, or which an
  -- installed plugin meets where none of `manifests` has the id.
  found_in : List PluginManifest → Option PluginManifest → Bool
  found_in order none = false
  found_in order (some m) = holds (key_of m) order

  unfoldable pub is_met : List PluginManifest → String × String → Bool
  unfolding found_in
  is_met order (dependency, constraint) =
      if any (λ (m : PluginManifest). same m.id dependency) manifests
      then found_in order (chosen versions installed manifests dependency constraint)
      else is_installed versions installed manifests dependency constraint

  -- What a manifest requires is met by those that stand before it.
  pub data IsOrdered : List PluginManifest → Type 0 where
    nothing : IsOrdered []
    next :
        (xs : List PluginManifest) (m : PluginManifest)
        → IsOrdered xs
        → All (λ r. is_met xs r ≡ true) m.requires
        → IsOrdered (xs ++ m ∷ [])

  abbrev Good : Visit → Type 0
  Good s = IsOrdered s.order × (s.visited ≡ map key_of s.order)

  found-append :
      (found : Option PluginManifest) (xs ys : List PluginManifest)
      → found_in xs found ≡ true
      → found_in (xs ++ ys) found ≡ true
  unfolding found_in
  found-append none xs ys h = h
  found-append (some m) xs ys h = holds-append (key_of m) xs ys h

  met-append :
      (r : String × String) (xs ys : List PluginManifest)
      → is_met xs r ≡ true
      → is_met (xs ++ ys) r ≡ true
  unfolding is_met
  met-append (dependency, constraint) xs ys h =
      elim (Bool-cases (any (λ (m : PluginManifest). same m.id dependency) manifests)) [
        | inl pending ↦ rw pending (
            found-append (chosen versions installed manifests dependency constraint) xs ys
              (rw pending at h))
        | inr other ↦ rw other (rw other at h)
      ]

  -- What stands in the order stays there.
  module _ (test : List PluginManifest → Bool)
      (grows : (xs : List PluginManifest) (m : PluginManifest)
        → test xs ≡ true
        → test (xs ++ m ∷ []) ≡ true) where
    abbrev Passes : Visit → Type 0
    Passes s = test s.order ≡ true

    chosen-Keeps :
        (go : PluginManifest → Exec Visit Unit)
        → ((m : PluginManifest) → Keeps Passes (go m))
        → (found : Option PluginManifest)
        → Keeps Passes (visit_chosen versions installed manifests go found)
    unfolding visit_chosen
    chosen-Keeps go keeps none = Keeps-raise value_error
    chosen-Keeps go keeps (some m) = keeps m

    required-Keeps :
        (go : PluginManifest → Exec Visit Unit)
        → ((m : PluginManifest) → Keeps Passes (go m))
        → (r : String × String) → Keeps Passes (visit_required versions installed manifests go r)
    unfolding visit_required
    required-Keeps go keeps r = search (keeps_rules, chosen-Keeps, keeps)

    leave-Keeps :
        (m : PluginManifest) → Keeps Passes (modify (leave versions installed manifests m))
    leave-Keeps m = Keeps-modify _ (λ s h. grows s.order m h)

    enter-Keeps : (k : String) → Keeps Passes (modify (enter versions installed manifests k))
    enter-Keeps k = Keeps-modify _ (λ s h. h)

    visit-Keeps :
        (n : ℕ) (m : PluginManifest) → Keeps Passes (visit versions installed manifests n m)
    unfolding visit
    visit-Keeps zero m = Keeps-raise _
    visit-Keeps (suc n) m =
        search (keeps_rules, required-Keeps, visit-Keeps n, enter-Keeps, leave-Keeps) depth 14

  -- A loop whose turns establish a test that every turn keeps.
  loop-Leaves :
      {A : Type 0} (test : A → List PluginManifest → Bool) (body : A → Exec Visit Unit)
      → ((x : A) → Leaves Good (λ u s. Good s × (test x s.order ≡ true)) (body x))
      → ((x y : A) → Keeps (λ s. test x s.order ≡ true) (body y))
      → (xs : List A)
      → Leaves Good (λ u s. Good s × All (λ x. test x s.order ≡ true) xs) (for_each xs body)
  unfolding for_each
  loop-Leaves test body first keeps [] = Leaves-pure tt (λ s good. (good, tt))
  loop-Leaves test body first keeps (x ∷ xs) = Leaves-then _ _ _ (first x) (λ u.
      Leaves-keeping _ (loop-Leaves test body first keeps xs) (Keeps-for_each xs body (keeps x))
        (λ a s known kept. (known.0, (kept, known.1))))

  abbrev Holds : PluginManifest → Unit {0} → Visit → Type 0
  Holds m u s = Good s × (holds (key_of m) s.order ≡ true)

  module _ (go : PluginManifest → Exec Visit Unit)
      (goes : (m : PluginManifest) → Leaves Good (Holds m) (go m)) where
    chosen-Leaves :
        (found : Option PluginManifest)
        → Leaves Good
            (λ u s. Good s × (found_in s.order found ≡ true))
            (visit_chosen versions installed manifests go found)
    unfolding visit_chosen found_in
    chosen-Leaves none = Leaves-raise value_error
    chosen-Leaves (some m) = goes m

    required-Leaves :
        (r : String × String)
        → Leaves Good
            (λ u s. Good s × (is_met s.order r ≡ true))
            (visit_required versions installed manifests go r)
    unfolding visit_required is_met
    required-Leaves (dependency, constraint) =
        elim (Bool-cases (any (λ (m : PluginManifest). same m.id dependency) manifests)) [
          | inl pending ↦
              rw pending (chosen-Leaves (chosen versions installed manifests dependency constraint))
          | inr other ↦ rw other (
              Leaves-test (is_installed versions installed manifests dependency constraint)
                value_error (λ met s good. (good, met)))
        ]

  met-Keeps :
      (n : ℕ) (r q : String × String)
      → Keeps
          (λ s. is_met s.order r ≡ true)
          (visit_required versions installed manifests (visit versions installed manifests n) q)
  met-Keeps n r q =
      let stays = λ (xs : List PluginManifest) (m : PluginManifest). met-append r xs (m ∷ []) in
      required-Keeps (λ order. is_met order r) stays _
        (visit-Keeps (λ order. is_met order r) stays n) q

  visit-Leaves :
      (n : ℕ) (m : PluginManifest) → Leaves Good (Holds m) (visit versions installed manifests n m)
  unfolding visit
  visit-Leaves zero m = Leaves-raise _
  visit-Leaves (suc n) m = Leaves-then _ _ _ (Leaves-gets _) (λ s. Leaves-require _ _ _ (λ new.
      Leaves-if (contains (key_of m) s.visited) (pure tt) _
        (λ visited. Leaves-pure tt (λ d known. (
          known.0,
          sym (visited-holds (key_of m) d.order)
              ∙ ap (contains (key_of m)) (sym known.0.1)
              ∙ ap (λ (x : Visit). contains (key_of m) x.visited) known.1
              ∙ visited,
        )))
        (λ unvisited.
          Leaves-then (λ u. Good) _ _
            (Leaves-modify (enter versions installed manifests (key_of m)) (λ d known. known.0))
            (λ u.
              Leaves-then _ _ _
                (loop-Leaves (λ r order. is_met order r)
                  (visit_required versions installed manifests
                    (visit versions installed manifests n))
                  (required-Leaves _ (visit-Leaves n)) (met-Keeps n) m.requires)
                (λ x. Leaves-modify (leave versions installed manifests m) (λ d known. (
                  (
                    IsOrdered.next d.order m known.0.0 known.1,
                    ap (λ ks. ks ++ key_of m ∷ []) known.0.1 ∙ sym (map-append d.order m),
                  ),
                  holds_last d.order m,
                )))))))

  resolve-Leaves :
      Leaves
        (λ s. Unit)
        (λ order s. IsOrdered order × All (λ m. holds (key_of m) order ≡ true) manifests)
        (resolve_dependencies versions installed manifests)
  unfolding resolve_dependencies
  resolve-Leaves =
      Leaves-then (λ u. Good) _ _ (Leaves-modify _ (λ s start. (IsOrdered.nothing, refl)))
        (λ u.
          Leaves-then _ _ _
            (loop-Leaves (λ m order. holds (key_of m) order)
              (visit versions installed manifests (suc (length manifests))) (visit-Leaves _)
              (λ m x.
                visit-Keeps (holds (key_of m)) (λ xs y. holds-append (key_of m) xs (y ∷ [])) _ x)
              manifests)
            (λ u. Leaves-read _ (λ s known. (known.0.0, known.1))))

-- Where the dependencies of `manifests` are resolved, each of them stands in the order, and what a
-- manifest of the order requires is met by those before it.
pub resolve-IsOrdered :
    (versions : Versions) (installed manifests order : List PluginManifest) (w : World Visit)
    → (resolve_dependencies versions installed manifests w).0 ≡ ok order
    → IsOrdered versions installed manifests order
      × All (λ m. holds (key_of m) order ≡ true) manifests
resolve-IsOrdered versions installed manifests order w h =
    (resolve-Leaves versions installed manifests).at w order tt h
