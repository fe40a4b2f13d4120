-- ===== src/Usage/Tests.antt =====
-- A budget of a thousand tokens over two hours, read from one roll-up for each hour.
use mathlib.Core.List.{Memᴰ}
use azure_llm_governance_api.Prelude.{
  ℕ, ◌*◌, ◌/◌, ◌≤◌, ◌<◌, String, not, ◌&&◌, none, some, List, [], ◌∷◌, done, ◌≡◌, refl, arith, All,
  inl,
}
use native.Mathlib.Nat.{le-div_iff_mul-le}
use azure_llm_governance_api.Prelude.Lists.{sort_by}
use azure_llm_governance_api.Prelude.Text.{decimal}
use azure_llm_governance_api.Prelude.Sets.{contains, Distinct}
use azure_llm_governance_api.Budget.Publication.{Entry}
use azure_llm_governance_api.Usage.{Watched, Observation, observation_for, Planned, exhausted}
use azure_llm_governance_api.Usage.Period.{
  Rollup, Selector, Span, Consumption, observe_period_consumption,
}
use azure_llm_governance_api.Usage.Accounts.{Accounts, observe-Accounts}
use azure_llm_governance_api.Usage.Planner.{
  Period, Planning, Published, plan_published, base, plan_budget_notifications,
}
use azure_llm_governance_api.Usage.Earned.{keys}
use azure_llm_governance_api.Usage.Once.{due, plan-earned}
use azure_llm_governance_api.Usage.Evidence.{Supported, plan-Supported}
use azure_llm_governance_api.Usage.Exhausted.{exhaustion, exhausted-planned}

abbrev hours : Span
hours = record { period_start = some 0; period_end = some 7200000; window_seconds = 3600 }

abbrev rollup : ℕ → ℕ → ℕ → Rollup
rollup start end tokens = record {
  grain = "team";
  grain_key = some "t1";
  window_start = some start;
  window_end = some end;
  completeness_state = "complete";
  total_tokens = tokens;
  by_model = none;
}

-- The first hour was projected twice.
abbrev rollups : List Rollup
rollups = rollup 0 3600000 400 ∷ rollup 3600000 7200000 700 ∷ rollup 0 3600000 500 ∷ []

abbrev selector : Selector
selector = record { scope = "team"; scope_key = some "t1"; model_scope = none; model_key = none }

abbrev consumption : Consumption
consumption = record {
  scope = "team";
  scope_key = some "t1";
  consumed_tokens = 1200;
  completeness = "complete";
  completeness_reason = none;
  windows_expected = 2;
  windows_covered = 2;
  windows_missing = 0;
  covered_windows = some (rollup 0 3600000 500 ∷ rollup 3600000 7200000 700 ∷ []);
  missing_windows = some [];
  latest_closed_window = some (rollup 3600000 7200000 700);
}

read_period : observe_period_consumption hours rollups (selector ∷ []) ≡ done (consumption ∷ [])
unfolding observe_period_consumption sort_by
read_period = refl

observe-Accounts_example : All (Accounts hours rollups) (consumption ∷ [])
observe-Accounts_example = observe-Accounts hours rollups (selector ∷ []) read_period

abbrev entry : Entry
entry = record {
  budget_id = "b1";
  budget_version = 1;
  scope = "team";
  action = "HARD_BLOCK";
  model_scope = "all-models";
  model_key = none;
  period = "Hourly";
  accounting_basis = none;
  thresholds = record { warn_at_basis_points = some 8000; grace_basis_points = none; tiers = none };
  state = "enforceable";
  reason_code = none;
  configured_limit = record { unit = "tokens"; currency = none; amount = 1000 };
  converted_token_quota = some 1000;
  enforced_token_quota = some 1000;
  warn_threshold_percent = some 80;
  derived_at = some 0;
}

abbrev watched : Watched
watched = record { entry = entry; scope_key = some "t1" }

abbrev observation : Observation
observation = record {
  budget_id = some "b1";
  budget_version = 1;
  scope = "team";
  scope_key = some "t1";
  period = "Hourly";
  model_scope = none;
  model_key = none;
  consumed_tokens = 1200;
  completeness = "complete";
  completeness_reason = none;
}

abbrev period : Period
period = record {
  scope_group_id = "g1";
  period_start = "2026-01-01T00:00:00.000Z";
  starts_at = some 0;
  evaluation_time = some 7200000;
  already_notified = [];
}

abbrev publication : Published
publication = record {
  state = "published";
  reason_code = "budgets-published";
  entries = watched ∷ [];
}

abbrev points : ℕ → ℕ → ℕ
points n q = n * 10_000 / q

abbrev planning : Planning
planning = plan_published points period publication (observation ∷ [])

planned_first :
    plan_budget_notifications points period publication (observation ∷ []) ≡ done planning
unfolding plan_budget_notifications
planned_first = refl

plan-earned_example :
    Distinct (keys planning.planned)
    × ((k : String)
        → contains k (keys planning.planned) ≡ (
            contains k (keys (due points period publication (observation ∷ [])))
            && not (contains k [])))
plan-earned_example = plan-earned points period publication (observation ∷ []) planned_first

found_it : observation_for (observation ∷ []) watched ≡ some observation
unfolding observation_for
found_it = refl

abbrev overrun : Planned
overrun = exhaustion points period watched 12_000

overrun_planned : Memᴰ overrun planning.planned
unfolding plan_published base decimal
overrun_planned = Memᴰ.head refl

is_overrun : overrun.kind ≡ exhausted
unfolding base
is_overrun = refl

plan-Supported_example :
    (w : Watched) × Memᴰ w (watched ∷ []) × Supported points period (observation ∷ []) w overrun
plan-Supported_example =
    plan-Supported points period publication (observation ∷ []) overrun planned_first refl
      overrun_planned (inl is_overrun)

points_full : (n q : ℕ) → 0 < q → q ≤ n → 10_000 ≤ points n q
points_full n q pos le = (le-div_iff_mul-le pos).1 (omega arith)

exhausted-planned_example :
    contains overrun.key (keys planning.planned) ≡ not (contains overrun.key [])
exhausted-planned_example =
    exhausted-planned points period publication (observation ∷ []) watched observation 1000
      points_full planned_first refl (Memᴰ.head refl) refl found_it refl refl (omega arith)
      (omega arith)
