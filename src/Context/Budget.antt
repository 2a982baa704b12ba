-- ===== src/Context/Budget.antt =====
-- input_budget of harness/context/budget.py. A difference that the code compares with 0 is cut off at
-- 0 here: either is at most 0 in the same cases. The products with the two floating-point
-- thresholds are parameters.
use mi_harness.Prelude.{
  ℕ, ◌+◌, ◌-◌, ◌≤◌, ◌<◌, ◌≡◌, refl, sym, subst, Option, none, some, arith, ltb, leb, ◌==◌,
  if◌then◌else◌,
}
use mi_harness.Exec.{Result, ok, err, unknown_context_limit, context_budget_invalid}

pub record ModelLimits : Type 0 where
  pub context_window : Option ℕ
  pub input_limit : Option ℕ
  pub output_limit : Option ℕ

pub record ContextPolicy : Type 0 where
  pub output_reserve : ℕ
  pub safety_tokens : ℕ
  -- int(upper * soft_threshold), int(upper * compaction_target)
  pub soft : ℕ → ℕ
  pub target : ℕ → ℕ

pub record InputBudget : Type 0 where
  pub input_budget : ℕ
  pub output_reserve : ℕ
  pub safety_tokens : ℕ
  pub context_window : Option ℕ
  pub input_limit : Option ℕ
  pub soft_threshold : ℕ
  pub compaction_target : ℕ

abbrev pub smaller : ℕ → ℕ → ℕ
smaller a b = if ltb b a then b else a

-- `min(policy.output_reserve, limits.output_limit)`; 0 counts as no limit.
abbrev pub output_of : ModelLimits → ContextPolicy → ℕ
output_of limits policy = elim limits.output_limit [
  | none ↦ policy.output_reserve
  | some l ↦ if l == 0 then policy.output_reserve else smaller policy.output_reserve l
]

-- `min(candidates)`, none where there is no candidate.
abbrev pub least : Option ℕ → ℕ → Option ℕ → Option ℕ
least none output none = none
least none output (some i) = some i
least (some c) output none = some (c - output)
least (some c) output (some i) = some (smaller (c - output) i)

abbrev budget_for : ModelLimits → ContextPolicy → ℕ → ℕ → InputBudget
budget_for limits policy output upper = record {
  input_budget = upper;
  output_reserve = output;
  safety_tokens = policy.safety_tokens;
  context_window = limits.context_window;
  input_limit = limits.input_limit;
  soft_threshold = policy.soft upper;
  compaction_target = policy.target upper;
}

unfoldable pub checked_budget : ModelLimits → ContextPolicy → Option ℕ → Result InputBudget
checked_budget limits policy none = err unknown_context_limit
checked_budget limits policy (some m) =
    if leb (m - policy.safety_tokens) 0
    then err context_budget_invalid
    else ok (budget_for limits policy (output_of limits policy) (m - policy.safety_tokens))

-- input_budget
unfoldable pub input_budget : ModelLimits → ContextPolicy → Result InputBudget
input_budget limits policy =
    checked_budget limits policy
      (least limits.context_window (output_of limits policy) limits.input_limit)

-- The request, the reserved output and the margin fit into the window, and the request with the margin
-- into the input limit.
abbrev pub Fits : ModelLimits → InputBudget → Type 0
Fits limits b =
    (0 < b.input_budget)
    × ((c : ℕ)
        → limits.context_window ≡ some c
        → b.input_budget + b.output_reserve + b.safety_tokens ≤ c)
    × ((i : ℕ) → limits.input_limit ≡ some i → b.input_budget + b.safety_tokens ≤ i)

checked_lem :
    (limits : ModelLimits) (policy : ContextPolicy) (found : Option ℕ) (b : InputBudget)
    → checked_budget limits policy found ≡ ok b
    → (m : ℕ) × (found ≡ some m)
      × (b ≡ budget_for limits policy (output_of limits policy) (m - policy.safety_tokens))
      × (0 < m - policy.safety_tokens)
unfolding checked_budget
checked_lem limits policy none b h = let absurd : ⊥ = ground arith in elim absurd [ ]
checked_lem limits policy (some m) b h = (m, refl, ground arith, ground arith)

least_within :
    (window : Option ℕ) (output m : ℕ) (input : Option ℕ)
    → least window output input ≡ some m
    → ((c : ℕ) → window ≡ some c → m ≤ c - output) × ((i : ℕ) → input ≡ some i → m ≤ i)
least_within none output m none h = (λ c e. ground arith, λ i e. ground arith)
least_within none output m (some x) h = (λ c e. ground arith, λ i e. ground arith)
least_within (some x) output m none h = (λ c e. ground arith, λ i e. ground arith)
least_within (some x) output m (some y) h = (λ c e. ground arith, λ i e. ground arith)

-- Where `input_budget` returns, the input is positive, with the reserved output and the safety margin
-- it fits into the context window, and with the margin into the input limit, for whichever of the
-- two the model has.
pub input_budget-Fits :
    (limits : ModelLimits) (policy : ContextPolicy) (b : InputBudget)
    → input_budget limits policy ≡ ok b
    → Fits limits b
unfolding input_budget
input_budget-Fits limits policy b h =
    let (m, found, same_budget, positive) = checked_lem limits policy _ b h in
    let within =
      least_within limits.context_window (output_of limits policy) m limits.input_limit found in
    subst (Fits limits) (sym same_budget) (
      positive,
      (λ c e. let fits = within.0 c e in ground arith),
      (λ i e. let fits = within.1 i e in ground arith),
    )
