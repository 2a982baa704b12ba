-- ===== src/Safety/Permissions.antt =====
-- The capabilities that a frozen policy and a mode leave of the current policy
-- (harness/policy/engine.py).
use mi_harness.Prelude.{
  String, ◌≡◌, not, ◌&&◌, ◌||◌, Option, some, [], arith, same?, get_or_else, contains,
}
use mi_harness.Prelude.Sets.{intersect, contains-sorted_set, contains-intersect}
use mi_harness.Store.Schema.{PolicyDocument}
use mi_harness.Policy.Documents.{Policy, plan_capabilities, if_plan, narrow}

-- A capability is left just when both policies have it and, in Plan mode, the list of that mode.
pub contains-narrow :
    (current : Policy) (frozen : PolicyDocument) (mode : Option String) (k : String)
    → contains k (narrow current frozen mode).capabilities ≡ (
        contains k current.capabilities
        && contains k (get_or_else frozen.capabilities [])
        && (not (same? mode (some "plan")) || contains k plan_capabilities))
unfolding narrow
contains-narrow current frozen mode k = ground (
  arith,
  contains-sorted_set k
      (if_plan mode (intersect current.capabilities (get_or_else frozen.capabilities []))),
  contains-intersect k (intersect current.capabilities (get_or_else frozen.capabilities []))
      plan_capabilities,
  contains-intersect k current.capabilities (get_or_else frozen.capabilities []),
)
