-- ===== src/Examples/Plugins.antt =====
-- The theorems on plugins at concrete inputs: two manifests, of which the first requires the second.
use mi_harness.Prelude.{
  String, ◌≡◌, ◌≢◌, refl, true, false, none, List, [], ◌∷◌, All, same, select, any, delete_rows,
}
use mi_harness.Exec.{World, ok, err, for_each, require, out_of_fuel, ◌>>=◌}
use mi_harness.Exec.Keeps.{Keeps}
use mi_harness.Exec.Atomic.{IsAtomic}
use mi_harness.Plugins.Manifest.{Field, Contribution, PluginManifest, key_of}
use mi_harness.Plugins.Extensions.{register_atomic, unregister}
use mi_harness.Safety.Extensions.{IsExclusive, extension_names_exclusive}
use mi_harness.Plugins.Dependencies.{
  Visit, Versions, newest, visit_chosen, visit_required, visit, resolve_dependencies,
}
use mi_harness.Safety.Resolution.{resolve_terminates}
use mi_harness.Safety.LoadOrder.{holds, IsOrdered, resolve-IsOrdered}

abbrev any_version : Versions
any_version = record { is_older = λ a b. false; is_in = λ version constraint. true }

abbrev manifest : String → List (String × String) → PluginManifest
manifest id requires = record {
  id = id;
  version = "1";
  harness_api = ">=1";
  entrypoint = none;
  contributes = [];
  requires = requires;
}

abbrev two_plugins : List PluginManifest
two_plugins = manifest "a" (("b", ">=1") ∷ []) ∷ manifest "b" [] ∷ []

abbrev nothing_visited : World Visit
nothing_visited = record {
  db = record { visiting = []; visited = []; order = [] };
  ids = λ n. "x";
  clock = λ n. n;
  ticks = 0;
}

abbrev other_order : List PluginManifest
other_order = manifest "b" [] ∷ manifest "a" (("b", ">=1") ∷ []) ∷ []

resolved : (resolve_dependencies any_version [] two_plugins nothing_visited).0 ≡ ok other_order
unfolding resolve_dependencies visit visit_required visit_chosen newest delete_rows for_each require
    ◌>>=◌ select any same
resolved = refl

resolve-IsOrdered_example :
    IsOrdered any_version [] two_plugins other_order
    × All (λ m. holds (key_of m) other_order ≡ true) two_plugins
resolve-IsOrdered_example =
    resolve-IsOrdered any_version [] two_plugins other_order nothing_visited resolved

resolve_terminates_example :
    (resolve_dependencies any_version [] two_plugins nothing_visited).0 ≢ err out_of_fuel
resolve_terminates_example = resolve_terminates any_version [] two_plugins nothing_visited

abbrev agent : Contribution
agent = record { id = Field.text "helper"; name = Field.missing; content = "x" }

abbrev contributing : PluginManifest
contributing = record (manifest "a" []) { contributes = ("agent_templates", agent ∷ []) ∷ [] }

extension_names_exclusive_example :
    Keeps IsExclusive (register_atomic ("agent_templates" ∷ []) contributing)
    × Keeps IsExclusive (unregister "a" "1")
    × IsAtomic (register_atomic ("agent_templates" ∷ []) contributing)
extension_names_exclusive_example =
    extension_names_exclusive ("agent_templates" ∷ []) contributing "a" "1"
