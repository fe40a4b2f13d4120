-- ===== src/Budget/Edited.antt =====
-- `budget-edit.mjs`: what a change makes of one budget, and the checks on it.
-- The keys of `changes` are options, with the names that may not be there in a list of their own. A
-- `BudgetEditRefusedError` is a refusal: its code and its detail, with an empty list for `null`.
use azure_llm_governance_api.Prelude.{
  ℕ, suc, String, ◌<>◌, Bool, true, false, not, ◌&&◌, Option, none, some, List, [], ◌∷◌, str_eq,
  if◌then◌else◌, is_none, or_default, keep, Reply, done, refused, refuse_if, ◌>>◌, ◌==◌,
}
use azure_llm_governance_api.Prelude.Time.{Instant}
use azure_llm_governance_api.Prelude.Sets.{contains}
use azure_llm_governance_api.Budget.{Amount, Tier, Thresholds, Budget, is_positive}
use azure_llm_governance_api.Budget.Snapshot.{budget_counter_identity}

pub record Refusal : Type 0 where
  pub code : String
  pub detail : List String

pub record Changes : Type 0 where
  pub amount : Option ℕ
  pub action : Option String
  pub thresholds : Option Thresholds
  pub model_scope : Option String
  pub model_key : Option String
  pub period : Option String
  pub accounting_basis : Option String
  pub unknown : List String

abbrev pub refusal : String → List String → Refusal
refusal code detail = record { code = code; detail = detail }

-- What the call is given besides the snapshot; `declared` is `declaredTierCodes`.
pub record EditCall : Type 0 where
  pub at : Instant
  pub retention : ℕ
  pub declared : Option (List String)

undeclared_tiers : List String → Option (List Tier) → List Tier
undeclared_tiers declared none = []
undeclared_tiers declared (some tiers) = keep (λ t. not (contains t.tier_code declared)) tiers

refuse_undeclared : List Tier → Reply Refusal Unit
refuse_undeclared [] = done tt
refuse_undeclared (t ∷ _) =
    refused (
      refusal "budget-edit-result-invalid"
        (("throttle tier is not deployed: " <> t.tier_code) ∷ []))

unfoldable pub assert_declared_throttle_tier_codes :
    Budget → Option (List String) → Reply Refusal Unit
unfolding undeclared_tiers refuse_undeclared
assert_declared_throttle_tier_codes b none = done tt
assert_declared_throttle_tier_codes b (some declared) =
    if str_eq b.action "THROTTLE"
    then refuse_undeclared (undeclared_tiers declared b.thresholds.tiers)
    else done tt

-- `.replace(/\|all$/, '|')`
without_all : String → String
without_all String.[] = String.[]
without_all (String.◌∷◌ c s) =
    let rest = without_all s in if str_eq (String.◌∷◌ c s) "|all" then "|" else String.◌∷◌ c rest

unfoldable pub coverage_of : Budget → String
unfolding without_all
coverage_of b = without_all (budget_counter_identity b)

unfoldable pub has_id : String → Budget → Bool
has_id id b = str_eq b.budget_id id

unfoldable pub is_unchanged : Changes → Bool
is_unchanged c =
    is_none c.amount
    && is_none c.action
    && is_none c.thresholds
    && is_none c.model_scope
    && is_none c.model_key
    && is_none c.period
    && is_none c.accounting_basis

is_amount : Option ℕ → Bool
is_amount none = true
is_amount (some n) = is_positive n

needs_thresholds : Budget → Changes → Bool
needs_thresholds b c = not (str_eq (or_default c.action b.action) b.action) && is_none c.thresholds

unfoldable pub check_changes : Budget → Changes → Reply Refusal Unit
unfolding is_amount needs_thresholds
check_changes b c = do
  refuse_if (not (is_amount c.amount))
      (refusal "budget-edit-result-invalid" ("amount must be a positive whole number." ∷ []))
  refuse_if (needs_thresholds b c)
      (refusal "budget-edit-thresholds-required" (or_default c.action b.action ∷ []))
  refuse_if
      (not (str_eq (or_default c.model_scope b.model_scope) "per-model")
        && not (is_none c.model_key))
      (refusal "budget-edit-result-invalid"
        ("modelKey is allowed only for a per-model budget." ∷ []))

unfoldable pub either : Option String → Option String → Option String
either none k = k
either (some k) _ = some k

unfoldable pub edited : Budget → Changes → Budget
unfolding either
edited b c =
    let scope = or_default c.model_scope b.model_scope in
    record {
      budget_id = b.budget_id;
      budget_version = suc b.budget_version;
      scope = b.scope;
      action = or_default c.action b.action;
      model_scope = scope;
      model_key = if str_eq scope "per-model" then either c.model_key b.model_key else none;
      period = or_default c.period b.period;
      accounting_basis = either c.accounting_basis b.accounting_basis;
      limit = record {
        unit = b.limit.unit;
        currency = b.limit.currency;
        amount = or_default c.amount b.limit.amount;
      };
      thresholds = or_default c.thresholds b.thresholds;
    }

unfoldable pub with_version : Budget → ℕ → Budget
with_version b n = record {
  budget_id = b.budget_id;
  budget_version = n;
  scope = b.scope;
  action = b.action;
  model_scope = b.model_scope;
  model_key = b.model_key;
  period = b.period;
  accounting_basis = b.accounting_basis;
  limit = b.limit;
  thresholds = b.thresholds;
}

-- `isDeepStrictEqual`
unfoldable pub same_optional : Option String → Option String → Bool
same_optional none none = true
same_optional (some a) (some b) = str_eq a b
same_optional _ _ = false

unfoldable pub same_number : Option ℕ → Option ℕ → Bool
same_number none none = true
same_number (some a) (some b) = a == b
same_number _ _ = false

unfoldable pub same_ladder : List Tier → List Tier → Bool
same_ladder [] [] = true
same_ladder (t ∷ ts) (u ∷ us) =
    t.at_basis_points == u.at_basis_points && str_eq t.tier_code u.tier_code && same_ladder ts us
same_ladder _ _ = false

unfoldable pub same_tiers : Option (List Tier) → Option (List Tier) → Bool
unfolding same_ladder
same_tiers none none = true
same_tiers (some ts) (some us) = same_ladder ts us
same_tiers _ _ = false

unfoldable pub same_thresholds : Thresholds → Thresholds → Bool
unfolding same_number same_tiers
same_thresholds t u =
    same_number t.warn_at_basis_points u.warn_at_basis_points
    && same_number t.grace_basis_points u.grace_basis_points
    && same_tiers t.tiers u.tiers

unfoldable pub same_limit : Amount → Amount → Bool
unfolding same_optional
same_limit a b = str_eq a.unit b.unit && same_optional a.currency b.currency && a.amount == b.amount

unfoldable pub same_budget : Budget → Budget → Bool
unfolding same_optional same_thresholds same_limit
same_budget a b =
    str_eq a.budget_id b.budget_id
    && a.budget_version == b.budget_version
    && str_eq a.scope b.scope
    && str_eq a.action b.action
    && str_eq a.model_scope b.model_scope
    && same_optional a.model_key b.model_key
    && str_eq a.period b.period
    && same_optional a.accounting_basis b.accounting_basis
    && same_limit a.limit b.limit
    && same_thresholds a.thresholds b.thresholds
