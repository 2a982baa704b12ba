-- ===== src/Plugins/Extensions.antt =====
-- ExtensionRegistry of harness/plugins/registry.py: what plugins contribute, under a category and a
-- name that no two plugins share.
use mi_harness.Prelude.{
  String, Bool, not, ◌&&◌, List, [], ◌∷◌, ◌++◌, same, any, contains, delete_rows, update_rows,
  if◌then◌else◌,
}
use mi_harness.Exec.{
  Result, Exec, ok, err, pure, raise, gets, modify, ◌>>=◌, ◌>>◌, require, value_error,
}
use mi_harness.Plugins.Manifest.{Contribution, PluginManifest, name_of}

-- An entry with its key.
pub record Entry : Type 0 where
  pub plugin_id : String
  pub version : String
  pub category : String
  pub name : String
  pub entry : Contribution

abbrev pub same_key : Entry → Entry → Bool
same_key a b =
    same a.plugin_id b.plugin_id
    && same a.version b.version
    && same a.category b.category
    && same a.name b.name

-- The name of `a` is taken by another plugin's `b`.
abbrev pub is_taken_by : Entry → Entry → Bool
is_taken_by a b =
    same b.category a.category && same b.name a.name && not (same b.plugin_id a.plugin_id)

-- `dict.update` with one entry
unfoldable pub put_entry : List Entry → Entry → List Entry
put_entry entries e =
    if any (λ x. same_key x e) entries
    then update_rows (λ x. same_key x e) (λ x. e) entries
    else entries ++ e ∷ []

unfoldable pub put_entries : List Entry → List Entry → List Entry
put_entries entries [] = entries
put_entries entries (e ∷ es) = put_entries (put_entry entries e) es

abbrev pub named : Result String → Exec (List Entry) String
named (ok s) = pure s
named (err c) = raise c

module _ (supported : List String) (m : PluginManifest) where
  -- The inner loop of register_atomic
  unfoldable pub stage : String → List Contribution → List Entry → Exec (List Entry) (List Entry)
  stage category [] staged = pure staged
  stage category (c ∷ cs) staged = do
    name ← named (name_of c)
    let e : Entry = record {
      plugin_id = m.id;
      version = m.version;
      category = category;
      name = name;
      entry = c;
    }
    require (not (any (λ x. same_key x e) staged)) value_error
    taken ← gets (λ entries. any (is_taken_by e) entries)
    require (not taken) value_error
    stage category cs (staged ++ e ∷ [])

  has_any : List Contribution → Bool
  has_any [] = Bool.false
  has_any (c ∷ cs) = Bool.true

  unfoldable pub stage_all :
      List (String × List Contribution) → List Entry → Exec (List Entry) (List Entry)
  unfolding has_any
  stage_all [] staged = pure staged
  stage_all ((category, cs) ∷ rest) staged = do
    require (not (has_any cs && not (contains category supported))) value_error
    more ← stage category cs staged
    stage_all rest more

  -- ExtensionRegistry.register_atomic
  unfoldable pub register_atomic : Exec (List Entry) Unit
  register_atomic = do
    staged ← stage_all m.contributes []
    modify (λ entries. put_entries entries staged)

-- ExtensionRegistry.unregister
unfoldable pub unregister : String → String → Exec (List Entry) Unit
unregister plugin_id version =
    modify (delete_rows (λ (e : Entry). same e.plugin_id plugin_id && same e.version version))
