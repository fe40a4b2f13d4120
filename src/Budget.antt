-- ===== src/Budget.antt =====
-- `budget-token-quota.mjs`: what a budget may say, and the token quota that follows from it.
-- A budget here has the fields that `assertExactKeys` asks for, each of the type that the source
-- expects; a key that may be absent is an `Option`. A whole number is a natural one: negative numbers
-- and fractions, which the assertions refuse, are left out.
use azure_llm_governance_api.Prelude.{
  ℕ, String, ◌<>◌, Bool, true, false, not, ◌&&◌, ◌||◌, Option, none, some, List, [], ◌∷◌, str_eq,
  leb, if◌then◌else◌, is_none, Reply, done, ensure, ◌>>=◌, ◌>>◌,
}
use azure_llm_governance_api.Prelude.Text.{is_safe_id, is_alias}
use azure_llm_governance_api.Prelude.Time.{Instant, is_instant}
use azure_llm_governance_api.Prelude.Sets.{contains}
pub use azure_llm_governance_api.Prelude.Tests.{max_safe, is_positive}
pub mod Snapshot
pub mod Legacy
pub mod Publication
pub mod Publish
pub mod Capacity
pub mod Kept
pub mod Caps
pub mod Bounds
pub mod Entries
pub mod Total
pub mod Upgraded
pub mod Edited
pub mod Edit
pub mod Committed
pub mod Swapped
pub mod Changed
pub mod Contents
pub mod Versions
mod Tests

pub record Amount : Type 0 where
  pub unit : String
  pub currency : Option String
  pub amount : ℕ

pub record Tier : Type 0 where
  pub at_basis_points : ℕ
  pub tier_code : String

pub record Thresholds : Type 0 where
  pub warn_at_basis_points : Option ℕ
  pub grace_basis_points : Option ℕ
  pub tiers : Option (List Tier)

pub record Budget : Type 0 where
  pub budget_id : String
  pub budget_version : ℕ
  pub scope : String
  pub action : String
  pub model_scope : String
  pub model_key : Option String
  pub period : String
  pub accounting_basis : Option String
  pub limit : Amount
  pub thresholds : Thresholds

abbrev pub scopes : List String
scopes = "organization" ∷ "team" ∷ "subject" ∷ "application" ∷ []

abbrev pub actions : List String
actions = "HARD_BLOCK" ∷ "SOFT_WARNING" ∷ "THROTTLE" ∷ []

abbrev pub model_scopes : List String
model_scopes = "all-models" ∷ "per-model" ∷ []

abbrev pub periods : List String
periods = "Hourly" ∷ "Daily" ∷ "Weekly" ∷ "Monthly" ∷ "Yearly" ∷ []

abbrev pub accounting_basis_name : String
accounting_basis_name = "apim-estimated-total-tokens"

abbrev pub is_per_model : Budget → Bool
is_per_model b = str_eq b.model_scope "per-model"

abbrev pub is_text : String → Option String → Bool
is_text k none = false
is_text k (some t) = str_eq t k

-- `MODEL_ALIAS.test(modelKey ?? '')`
abbrev pub names_model : Option String → Bool
names_model none = is_alias ""
names_model (some k) = is_alias k

abbrev pub is_principal_scope : Budget → Bool
is_principal_scope b = str_eq b.scope "subject" || str_eq b.scope "application"

unfoldable pub assert_limit : Amount → String → Reply ⊥ Unit
assert_limit a path = do
  ensure (str_eq a.unit "tokens") (path <> ".unit must be tokens.")
  ensure (is_none a.currency) (path <> ".currency must be null for a token budget.")
  ensure (is_positive a.amount) (path <> ".amount must be a positive integer.")

unfoldable pub assert_model_scope : Budget → String → Reply ⊥ Unit
assert_model_scope b path = do
  ensure (not (is_per_model b && not (names_model b.model_key)))
      (path <> ".modelKey is required for a per-model budget.")
  ensure (not (not (is_per_model b) && not (is_none b.model_key)))
      (path <> ".modelKey is allowed only for a per-model budget.")
  ensure (not (is_per_model b && is_principal_scope b))
      (path <> " subject/application per-model budgets are not supported by APIM counters.")

unfoldable pub assert_names : Budget → String → Reply ⊥ Unit
assert_names b path = do
  ensure (is_safe_id b.budget_id) (path <> ".budgetId must be a bounded safe identifier.")
  ensure (is_positive b.budget_version) (path <> ".budgetVersion must be a positive integer.")
  ensure (contains b.scope scopes) (path <> ".scope is unsupported.")
  ensure (contains b.action actions) (path <> ".action is unsupported.")
  ensure (contains b.model_scope model_scopes) (path <> ".modelScope is unsupported.")
  ensure (contains b.period periods) (path <> ".period is unsupported.")
  ensure (is_text accounting_basis_name b.accounting_basis)
      (path <> ".accountingBasis must be " <> accounting_basis_name <> ".")

unfoldable pub assert_enforceable_budget : Budget → String → Reply ⊥ Unit
unfolding assert_names assert_model_scope assert_limit
assert_enforceable_budget b path = do
  assert_names b path
  assert_model_scope b path
  assert_limit b.limit (path <> ".limit")

pub record Derivation : Type 0 where
  pub budget_id : String
  pub budget_version : ℕ
  pub scope : String
  pub action : String
  pub model_scope : String
  pub model_key : Option String
  pub period : String
  pub accounting_basis : Option String
  pub configured_limit : Amount
  pub state : String
  pub reason_code : Option String
  pub token_quota : Option ℕ
  pub derived_at : Instant

-- `...(modelScope === 'per-model' ? { modelKey } : {})`
abbrev pub carried_key : Budget → Option String
carried_key b = if is_per_model b then b.model_key else none

unfoldable pub derivation : Budget → String → Option String → Option ℕ → Instant → Derivation
derivation b state reason quota at = record {
  budget_id = b.budget_id;
  budget_version = b.budget_version;
  scope = b.scope;
  action = b.action;
  model_scope = b.model_scope;
  model_key = carried_key b;
  period = b.period;
  accounting_basis = b.accounting_basis;
  configured_limit = b.limit;
  state = state;
  reason_code = reason;
  token_quota = quota;
  derived_at = at;
}

unfoldable pub unenforceable : Budget → String → Derivation
unfolding derivation
unenforceable b reason = derivation b "unenforceable" (some reason) none none

-- `allowedModels.includes(modelKey)`
abbrev pub includes : List String → Option String → Bool
includes models none = false
includes models (some k) = contains k models

abbrev pub is_empty : List String → Bool
is_empty [] = true
is_empty (_ ∷ _) = false

unfoldable pub derived : Budget → List String → Instant → Derivation
unfolding unenforceable derivation
derived b allowed at =
    if is_per_model b && not (includes allowed b.model_key)
    then unenforceable b "model-not-entitled"
    else if str_eq b.model_scope "all-models" && is_empty allowed
    then unenforceable b "no-entitled-model"
    else derivation b "enforceable" none (some b.limit.amount) at

unfoldable pub derive_token_quota : Budget → List String → Instant → Reply ⊥ Derivation
unfolding assert_enforceable_budget derived
derive_token_quota b allowed at = do
  assert_enforceable_budget b "budget"
  ensure (is_instant at) "evaluationTime must be an ISO-8601 instant."
  done (derived b allowed at)
