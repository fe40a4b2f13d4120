-- ===== src/Budget/Publication.antt =====
-- The records that `publishBudgets` makes, and `unavailable` and `entryFor` of budget-publication.mjs.
use azure_llm_governance_api.Prelude.{ℕ, String, Option, none, List, []}
use azure_llm_governance_api.Prelude.Time.{Instant}
use azure_llm_governance_api.Budget.{Amount, Tier, Thresholds, Budget, Derivation, carried_key}

pub record Entry : Type 0 where
  pub budget_id : String
  pub budget_version : ℕ
  pub scope : String
  pub action : String
  pub model_scope : String
  pub model_key : Option String
  pub period : String
  pub accounting_basis : Option String
  pub thresholds : Thresholds
  pub state : String
  pub reason_code : Option String
  pub configured_limit : Amount
  pub converted_token_quota : Option ℕ
  pub enforced_token_quota : Option ℕ
  pub warn_threshold_percent : Option ℕ
  pub derived_at : Instant

pub record Unenforced : Type 0 where
  pub budget_id : String
  pub scope : String
  pub action : String
  pub reason_code : Option String

pub record ThrottleTier : Type 0 where
  pub scope : String
  pub model_scope : String
  pub model_key : Option String
  pub budget_id : String
  pub budget_version : ℕ
  pub action : String
  pub quota_period : String
  pub accounting_basis : Option String
  pub at_basis_points : ℕ
  pub tier_code : String
  pub against_token_quota : Option ℕ

pub record Limit : Type 0 where
  pub scope : String
  pub model_scope : String
  pub model_key : Option String
  pub token_quota : ℕ
  pub quota_period : String
  pub budget_id : String
  pub budget_version : ℕ
  pub budget_action : String
  pub accounting_basis : Option String
  pub budget_thresholds : Thresholds

-- The variables of the loop.
pub record Publishing : Type 0 where
  pub entries : List Entry
  pub unenforceable : List Unenforced
  pub throttle_tiers : List ThrottleTier
  pub quota_by_key : List (String × Limit)
  pub warn_percent : Option ℕ

pub record Publication : Type 0 where
  pub state : String
  pub reason_code : String
  pub limits : List Limit
  pub warn_threshold_percent : Option ℕ
  pub throttle_tiers : List ThrottleTier
  pub entries : List Entry
  pub unenforceable : List Unenforced

unfoldable pub unavailable : String → Publication
unavailable reason = record {
  state = "unavailable";
  reason_code = reason;
  limits = [];
  warn_threshold_percent = none;
  throttle_tiers = [];
  entries = [];
  unenforceable = [];
}

unfoldable pub entry_for : Budget → Derivation → Option ℕ → Option ℕ → Entry
entry_for b d enforced percent = record {
  budget_id = b.budget_id;
  budget_version = b.budget_version;
  scope = b.scope;
  action = b.action;
  model_scope = b.model_scope;
  model_key = carried_key b;
  period = b.period;
  accounting_basis = b.accounting_basis;
  thresholds = b.thresholds;
  state = d.state;
  reason_code = d.reason_code;
  configured_limit = d.configured_limit;
  converted_token_quota = d.token_quota;
  enforced_token_quota = enforced;
  warn_threshold_percent = percent;
  derived_at = d.derived_at;
}

unfoldable pub tier_of : Budget → Derivation → Tier → ThrottleTier
tier_of b d t = record {
  scope = b.scope;
  model_scope = b.model_scope;
  model_key = carried_key b;
  budget_id = b.budget_id;
  budget_version = b.budget_version;
  action = b.action;
  quota_period = b.period;
  accounting_basis = b.accounting_basis;
  at_basis_points = t.at_basis_points;
  tier_code = t.tier_code;
  against_token_quota = d.token_quota;
}

unfoldable pub limit_of : Budget → ℕ → Limit
limit_of b enforced = record {
  scope = b.scope;
  model_scope = b.model_scope;
  model_key = carried_key b;
  token_quota = enforced;
  quota_period = b.period;
  budget_id = b.budget_id;
  budget_version = b.budget_version;
  budget_action = b.action;
  accounting_basis = b.accounting_basis;
  budget_thresholds = b.thresholds;
}
