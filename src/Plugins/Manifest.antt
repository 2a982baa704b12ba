-- ===== src/Plugins/Manifest.antt =====
-- PluginManifest of harness/plugins/manifest.py, as far as the registry reads it.
use Prim.Native.String.{◌++◌ as text_append}
use mi_harness.Prelude.{String, Option, List, same, if◌then◌else◌}
use mi_harness.Exec.{Result, ok, err, value_error}

-- A field of a contribution: `missing` is None or another value that counts as false, `other_value`
-- one that counts as true and is no text.
pub data Field : Type 0 where
  missing : Field
  text : String → Field
  other_value : Field

pub record Contribution : Type 0 where
  pub id : Field
  pub name : Field
  pub content : String

pub record PluginManifest : Type 0 where
  pub id : String
  pub version : String
  pub harness_api : String
  pub entrypoint : Option String
  -- the lists of Contributions, each under its category
  pub contributes : List (String × List Contribution)
  -- Requirements.plugins: the ids with their version constraints
  pub requires : List (String × String)

-- PluginRegistry._key
abbrev pub plugin_key : String → String → String
plugin_key plugin_id version = text_append plugin_id (text_append "@" version)

abbrev pub key_of : PluginManifest → String
key_of m = plugin_key m.id m.version

-- Python's `or`
abbrev or_field : Field → Field → Field
or_field Field.missing other = other
or_field (Field.text s) other = if same s "" then other else Field.text s
or_field Field.other_value other = Field.other_value

abbrev as_name : Field → Result String
as_name Field.missing = err value_error
as_name (Field.text s) = if same s "" then err value_error else ok s
as_name Field.other_value = err value_error

-- `entry.get("id") or entry.get("name")`, with the test that follows it
abbrev pub name_of : Contribution → Result String
name_of c = as_name (or_field c.id c.name)
