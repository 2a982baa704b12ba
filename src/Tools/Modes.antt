-- ===== src/Tools/Modes.antt =====
-- harness/runtime/modes.py: what the mode of a run lets its tools do.
use mi_harness.Exec.{require, plan_tool_denied}
use mi_harness.Prelude.{
  String, Bool, true, false, not, ◌&&◌, Option, none, some, List, [], ◌∷◌, if◌then◌else◌, same,
  get_or_else, contains,
}
use text.Mathlib.Text.{starts_with}
use mi_harness.Host.{Effect}
use mi_harness.Store.Schema.{Snapshot, Db}
use mi_harness.Policy.Engine.{ToolSpec}

-- PLAN_TOOLS
abbrev pub plan_tools : List String
plan_tools =
    "read_file" ∷ "stat_file" ∷ "list_files" ∷ "search_files" ∷ "fetch" ∷ "search_web"
    ∷ "artifact_read" ∷ "artifact_preview" ∷ "archive_search" ∷ "memory_search" ∷ "inspect_child"
    ∷ "request_input" ∷ "plan_update" ∷ "delegate" ∷ "wait_children" ∷ "skill_activate"
    ∷ "skill_read" ∷ []

unfoldable pub is_mcp_origin : String → Bool
is_mcp_origin origin = starts_with origin "mcp:"

abbrev pub is_read : Effect → Bool
is_read Effect.read = true
is_read _ = false

abbrev pub readonly_tools_of : Option Snapshot → List String
readonly_tools_of none = []
readonly_tools_of (some s) = s.plan_readonly_tools

abbrev pub mode_or_react : Option Snapshot → String
mode_or_react none = "react"
mode_or_react (some s) = get_or_else s.mode "react"

-- permitted
unfoldable pub permitted : String → ToolSpec → Option Snapshot → Bool
permitted mode spec snapshot =
    if not (same mode "plan")
    then true
    else if is_mcp_origin spec.origin
    then is_read spec.effect && contains spec.id (readonly_tools_of snapshot)
    else same spec.origin "builtin" && is_read spec.effect && contains spec.id plan_tools

-- enforce
unfoldable pub enforce : Option Snapshot → ToolSpec → Db Unit
enforce snapshot spec = require (permitted (mode_or_react snapshot) spec snapshot) plan_tool_denied
