-- ===== src/Plugins/Dependencies.antt =====
-- PluginRegistry.resolve_dependencies of harness/plugins/registry.py: the manifests in an order in
-- which each stands after those it requires.
use mi_harness.Prelude.{
  ℕ, zero, suc, String, Bool, not, ◌&&◌, Option, none, some, List, [], ◌∷◌, ◌++◌, length, same,
  select, any, contains, delete_rows, if◌then◌else◌,
}
use mi_harness.Exec.{
  Exec, pure, raise, gets, modify, ◌>>=◌, ◌>>◌, require, for_each, value_error, out_of_fuel,
}
use mi_harness.Plugins.Manifest.{PluginManifest, key_of}

-- The sets `visiting` and `visited` and the list `order`.
pub record Visit : Type 0 where
  pub visiting : List String
  pub visited : List String
  pub order : List PluginManifest

-- packaging's Version and SpecifierSet
pub record Versions : Type 0 where
  -- `Version(a) < Version(b)`
  pub is_older : String → String → Bool
  -- `Version(version) in SpecifierSet(constraint)`
  pub is_in : String → String → Bool

module _ (versions : Versions) where
  -- `max(candidates, key=...)`: the first of the greatest versions.
  unfoldable pub newest : List PluginManifest → Option PluginManifest
  newest [] = none
  newest (m ∷ ms) = elim (newest ms) [
    | none ↦ some m
    | some n ↦ if versions.is_older m.version n.version then some n else some m
  ]

  -- `manifests` are to be loaded, `installed` are ready.
  module _ (installed manifests : List PluginManifest) where
    -- `pending.get(dependency)`
    abbrev pub pending_for : String → List PluginManifest
    pending_for dependency = select (λ m. same m.id dependency) manifests

    abbrev pub chosen : String → String → Option PluginManifest
    chosen dependency constraint =
        newest (select (λ m. versions.is_in m.version constraint) (pending_for dependency))

    abbrev pub is_installed : String → String → Bool
    is_installed dependency constraint =
        any (λ m. same m.id dependency && versions.is_in m.version constraint) installed

    unfoldable pub visit_chosen :
        (PluginManifest → Exec Visit Unit) → Option PluginManifest → Exec Visit Unit
    visit_chosen visit none = raise value_error
    visit_chosen visit (some m) = visit m

    -- One turn of the loop over `manifest.requires.plugins`
    unfoldable pub visit_required :
        (PluginManifest → Exec Visit Unit) → String × String → Exec Visit Unit
    visit_required visit (dependency, constraint) =
        if any (λ (m : PluginManifest). same m.id dependency) manifests
        then visit_chosen visit (chosen dependency constraint)
        else require (is_installed dependency constraint) value_error

    abbrev pub enter : String → Visit → Visit
    enter key s = record s { visiting = key ∷ s.visiting }

    abbrev pub leave : PluginManifest → Visit → Visit
    leave m s = record {
      visiting = delete_rows (λ k. same k (key_of m)) s.visiting;
      visited = s.visited ++ key_of m ∷ [];
      order = s.order ++ m ∷ [];
    }

    unfoldable pub visit : ℕ → PluginManifest → Exec Visit Unit
    visit zero m = raise out_of_fuel
    visit (suc fuel) m = do
      s ← gets (λ (s : Visit). s)
      require (not (contains (key_of m) s.visiting)) value_error
      if contains (key_of m) s.visited then pure tt else (do
        modify (enter (key_of m))
        for_each m.requires (visit_required (visit fuel))
        modify (leave m))

    -- PluginRegistry.resolve_dependencies; nested calls are of manifests with different keys.
    unfoldable pub resolve_dependencies : Exec Visit (List PluginManifest)
    resolve_dependencies = do
      modify (λ s. record { visiting = []; visited = []; order = [] })
      for_each manifests (visit (suc (length manifests)))
      gets (λ s. s.order)
