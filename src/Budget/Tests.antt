-- ===== src/Budget/Tests.antt =====
-- An organization's soft warning, a team's hard block and a throttle of a subject.
use azure_llm_governance_api.Prelude.{
  All, ℕ, String, Option, none, some, List, [], ◌∷◌, str_eq, if◌then◌else◌, done, ◌≡◌, refl, arith,
  ◌↔◌,
}
use mathlib.Core.List.{Memᴰ}
use azure_llm_governance_api.Prelude.Text.{lt_text, is_code, is_safe_id, is_tier_code}
use azure_llm_governance_api.Prelude.Lists.{sort_by}
use azure_llm_governance_api.Fallback.Compile.{Comparison, less, same, greater}
use azure_llm_governance_api.Budget.{Budget, Thresholds, accounting_basis_name}
use azure_llm_governance_api.Budget.Snapshot.{
  counter_identity, Snapshot, assert_budget_snapshot_v1, assert_counters,
}
use azure_llm_governance_api.Budget.Legacy.{upgrade_legacy_budget_snapshot_v1}
use azure_llm_governance_api.Budget.Publication.{Publication}
use azure_llm_governance_api.Budget.Publish.{Setting, publish_budgets}
use azure_llm_governance_api.Budget.Caps.{
  period_limits_admit, period_budgets_admit, publish_budgets-refines,
}
use azure_llm_governance_api.Budget.Entries.{EachTells, publish_budgets-EachTells}
use azure_llm_governance_api.Budget.Total.{publish_budgets_total}
use azure_llm_governance_api.Budget.Edited.{
  Changes, EditCall, edited, has_id, coverage_of, assert_declared_throttle_tier_codes, same_budget,
  with_version,
}
use azure_llm_governance_api.Budget.Edit.{add_budget, edit_budget, remove_budget}
use azure_llm_governance_api.Budget.Contents.{
  change, enter, withdraw, run, Warranted, Effect, run-Effect,
}
use azure_llm_governance_api.Budget.Versions.{stay, commit, Governed, Commits-Governed}
use azure_llm_governance_api.Budget.Upgraded.{EachSettles, IsUnstated, upgrade-settled}

abbrev by_code : String → String → Comparison
by_code a b = if lt_text a b then less else if str_eq a b then same else greater

abbrev budget : String → String → String → Option String → ℕ → Thresholds → Budget
budget id scope action basis tokens thresholds = record {
  budget_id = id;
  budget_version = 1;
  scope = scope;
  action = action;
  model_scope = "all-models";
  model_key = none;
  period = "Monthly";
  accounting_basis = basis;
  limit = record { unit = "tokens"; currency = none; amount = tokens };
  thresholds = thresholds;
}

abbrev soft : Thresholds
soft = record { warn_at_basis_points = none; grace_basis_points = some 2500; tiers = none }

abbrev hard : Thresholds
hard = record { warn_at_basis_points = some 8050; grace_basis_points = none; tiers = none }

abbrev ladder : Thresholds
ladder = record {
  warn_at_basis_points = none;
  grace_basis_points = none;
  tiers = some (record { at_basis_points = 5000; tier_code = "slow" } ∷ []);
}

abbrev budgets : Option String → List Budget
budgets basis =
    budget "b1" "organization" "SOFT_WARNING" basis 1000 soft
    ∷ budget "b2" "team" "HARD_BLOCK" basis 500 hard
    ∷ budget "b3" "subject" "THROTTLE" basis 100 ladder
    ∷ []

abbrev snapshot : Option String → Snapshot
snapshot basis = record {
  contract_version = "v1";
  snapshot_id = "s1";
  tenant_id = "t1";
  version = 1;
  status = "complete";
  captured_at = some 1000;
  expires_at = some 9000;
  source_revision = "r1";
  reason = none;
  budgets = budgets basis;
}

abbrev current : Snapshot
current = snapshot (some accounting_basis_name)

abbrev setting : Setting
setting = record {
  allowed_models = "large" ∷ [];
  declared_tier_codes = some ("slow" ∷ []);
  evaluation_time = some 2000;
}

accepted : assert_budget_snapshot_v1 by_code current (some 2000) none ≡ done current
unfolding assert_budget_snapshot_v1 lt_text is_safe_id is_tier_code counter_identity sort_by
accepted = refl

published_now : (p : Publication) × (publish_budgets by_code current setting ≡ done p)
published_now =
    publish_budgets_total by_code current none setting accepted
      (omega arith, (omega arith, (tt, tt)))

publish_budgets_total_example :
    (p : Publication) × (publish_budgets by_code current setting ≡ done p)
publish_budgets_total_example =
    publish_budgets_total by_code current none setting accepted
      (omega arith, (omega arith, (tt, tt)))

publish_budgets-refines_example :
    period_limits_admit published_now.0.limits "quota|organization|all-models|all" "Monthly" 1200
    ≡ period_budgets_admit
        ("large" ∷ [])
        (budgets (some accounting_basis_name))
        "quota|organization|all-models|all"
        "Monthly"
        1200
publish_budgets-refines_example =
    publish_budgets-refines by_code current setting (λ k. "Monthly") (refl, (refl, (refl, tt))) refl
      published_now.1 "quota|organization|all-models|all" "Monthly" 1200

publish_budgets-EachTells_example :
    EachTells ("large" ∷ []) (budgets (some accounting_basis_name)) published_now.0.entries
publish_budgets-EachTells_example =
    publish_budgets-EachTells by_code current none setting accepted refl published_now.1

-- The same budgets from before the accounting basis was stated.
abbrev legacy : Snapshot
legacy = snapshot none

upgrade-settled_example :
    EachSettles legacy.budgets current.budgets
    × All (λ b. ¬ IsUnstated b) current.budgets
    × (assert_counters 0 [] current.budgets ≡ done tt)
    × (upgrade_legacy_budget_snapshot_v1 current ≡ done current)
unfolding upgrade_legacy_budget_snapshot_v1 counter_identity
upgrade-settled_example = upgrade-settled legacy refl

-- The team's budget is raised, another is added in front of it, and the first one is removed.
abbrev more_tokens : Changes
more_tokens = record {
  amount = some 700;
  action = none;
  thresholds = none;
  model_scope = none;
  model_key = none;
  period = none;
  accounting_basis = none;
  unknown = [];
}

abbrev call : EditCall
call = record { at = some 2000; retention = 60; declared = some ("slow" ∷ []) }

abbrev added : Budget
added = budget "b11" "application" "HARD_BLOCK" (some accounting_basis_name) 50 hard

abbrev raised : Budget
raised = record {
  budget_id = "b2";
  budget_version = 2;
  scope = "team";
  action = "HARD_BLOCK";
  model_scope = "all-models";
  model_key = none;
  period = "Monthly";
  accounting_basis = some accounting_basis_name;
  limit = record { unit = "tokens"; currency = none; amount = 700 };
  thresholds = hard;
}

-- The snapshot at a later version.
abbrev later : ℕ → List Budget → Snapshot
later version budgets = record {
  contract_version = "v1";
  snapshot_id = "s1";
  tenant_id = "t1";
  version = version;
  status = "complete";
  captured_at = some 2000;
  expires_at = some 62_000;
  source_revision = "r1";
  reason = none;
  budgets = budgets;
}

abbrev own : String → String → String → ℕ → Thresholds → Budget
own id scope action tokens thresholds =
    budget id scope action (some accounting_basis_name) tokens thresholds

abbrev kept_budgets : List Budget
kept_budgets = raised ∷ own "b3" "subject" "THROTTLE" 100 ladder ∷ []

abbrev after_change : Snapshot
after_change = later 2 (own "b1" "organization" "SOFT_WARNING" 1000 soft ∷ kept_budgets)

abbrev after_enter : Snapshot
after_enter = later 3 (own "b1" "organization" "SOFT_WARNING" 1000 soft ∷ added ∷ kept_budgets)

abbrev after_withdraw : Snapshot
after_withdraw = later 4 (added ∷ kept_budgets)

changed_now : run by_code current (change "b2" more_tokens) call ≡ done after_change
unfolding edit_budget assert_budget_snapshot_v1 lt_text is_safe_id is_tier_code counter_identity
    sort_by has_id coverage_of edited assert_declared_throttle_tier_codes same_budget with_version
changed_now = refl

entered_now : run by_code after_change (enter added) call ≡ done after_enter
unfolding add_budget assert_budget_snapshot_v1 lt_text is_safe_id is_tier_code counter_identity
    sort_by has_id coverage_of assert_declared_throttle_tier_codes with_version
entered_now = refl

withdrawn_now : run by_code after_enter (withdraw "b1" "cap-lifted") call ≡ done after_withdraw
unfolding remove_budget assert_budget_snapshot_v1 lt_text is_safe_id is_tier_code counter_identity
    sort_by has_id is_code assert_declared_throttle_tier_codes
withdrawn_now = refl

run-Effect_example :
    Warranted current (change "b2" more_tokens)
    × ((b : Budget) → Memᴰ b after_change.budgets ↔ Effect current (change "b2" more_tokens) b)
run-Effect_example = run-Effect by_code current (change "b2" more_tokens) call changed_now

accepted_first : assert_budget_snapshot_v1 by_code current (some 1000) none ≡ done current
unfolding assert_budget_snapshot_v1 lt_text is_safe_id is_tier_code counter_identity sort_by
accepted_first = refl

Commits-Governed_example : Governed by_code 3 current after_withdraw
Commits-Governed_example = Commits-Governed by_code 3 current after_withdraw accepted_first (
    commit (withdraw "b1" "cap-lifted") call
      (commit (enter added) call (commit (change "b2" more_tokens) call stay changed_now)
        entered_now)
      withdrawn_now)
