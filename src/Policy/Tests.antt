-- ===== src/Policy/Tests.antt =====
-- A caller of one team, under an organization's entitlement, the team's own and a budget of the team.
use mathlib.Core.List.{Memᴰ}
use azure_llm_governance_api.Prelude.{
  String, true, none, some, [], ◌∷◌, if◌then◌else◌, str_eq, done, ◌≡◌, refl,
}
use azure_llm_governance_api.Prelude.Lists.{sort_by}
use azure_llm_governance_api.Prelude.Sets.{sorted_set}
use azure_llm_governance_api.Prelude.Dict.{insert}
use azure_llm_governance_api.Prelude.Text.{lt_text}
use azure_llm_governance_api.Authorization.{
  Binding, Limits, Target, everyone, of_team, active, daily, monthly, hourly,
}
use azure_llm_governance_api.Fallback.{Edge, Plan}
use azure_llm_governance_api.Fallback.Compile.{
  Comparison, less, same, greater, Registry, Compiled, compiled,
}
use azure_llm_governance_api.Policy.{
  governed_scope, BudgetLimit, collect_limits, merge_budget_limits,
}
use azure_llm_governance_api.Policy.Compose.{Request, Document, compose_document, applied_bindings}
use azure_llm_governance_api.Policy.Merged.{CapAt, budget_caps, budget_identity}
use azure_llm_governance_api.Policy.Listed.{plain}
use azure_llm_governance_api.Policy.Composed.{composed-binding, composed-budget}

abbrev by_code : String → String → Comparison
by_code a b = if lt_text a b then less else if str_eq a b then same else greater

abbrev binding : String → Target → Limits → Binding
binding id target limits = record {
  binding_id = id;
  binding_version = 1;
  state = active;
  target = target;
  model_allowlist = "large" ∷ "small" ∷ [];
  limits = limits;
  valid_from = 0;
  valid_until = none;
}

abbrev for_all : Binding
for_all = binding "e1" everyone (record {
  requests_per_minute = some 60;
  tokens_per_minute = none;
  quota = some (24_000, daily);
})

abbrev for_team : Binding
for_team = binding "e2" (of_team "core") (record {
  requests_per_minute = some 10;
  tokens_per_minute = none;
  quota = some (2000, hourly);
})

abbrev budget : BudgetLimit
budget = record {
  scope = "team";
  model_scope = "all-models";
  model_key = none;
  quota = record { token_quota = 73_000; quota_period = monthly };
  source = record {
    budget_id = "b1";
    budget_version = 1;
    budget_action = "HARD_BLOCK";
    accounting_basis = none;
    budget_thresholds = record {
      warn_at_basis_points = none;
      grace_basis_points = none;
      tiers = none;
    };
  };
}

abbrev hop : Edge
hop = record { from = "large"; to = "small" }

abbrev request : Request
request = record {
  authorization = record {
    decision = "allow";
    model_allowlist = "small" ∷ "large" ∷ [];
    applied_bindings =
        (record { binding_id = "e1"; binding_version = 1 })
        ∷ (record { binding_id = "e2"; binding_version = 1 })
        ∷ [];
  };
  entitlements = record {
    snapshot_id = "s1";
    version = 1;
    status = "complete";
    expires_at = 9000;
    team_catalog = [];
    bindings = for_all ∷ for_team ∷ [];
  };
  models =
      (record { model_key = "small"; provider_deployment_name = some "d-small" })
      ∷ (record { model_key = "large"; provider_deployment_name = some "d-large" })
      ∷ [];
  identifiers = record {
    scope_group_id = "core";
    principal_key = "p1";
    subject_key = "sk1";
    application_key = "ak1";
    team_key = some "core";
  };
  fallback = some (record { enabled = true; max_depth = 1; chain = hop ∷ [] });
  warn_threshold_percent = some 90;
  budget_limits = budget ∷ [];
  budget_warn_threshold_percent = some 80;
  throttle_tiers = [];
  model_pressure = [];
  model_selection_intent = "preferred";
  substitution_notice = "header";
  config_version = 1;
  resolved_at = some 1000;
  expires_at = some 2000;
}

applied :
    applied_bindings request.entitlements.bindings request.authorization.applied_bindings
    ≡ done (for_all ∷ for_team ∷ [])
unfolding applied_bindings
applied = refl

composed : (d : Document) × (compose_document by_code request ≡ done d)
unfolding compose_document merge_budget_limits lt_text sorted_set sort_by collect_limits insert
composed = (_, refl)

composed-binding_example : CapAt (plain "team") for_team.limits composed.0.limits
unfolding governed_scope
composed-binding_example =
    composed-binding by_code request (for_all ∷ for_team ∷ []) for_team composed.1 applied
      (refl, tt) (Memᴰ.tail (Memᴰ.head refl)) refl

composed-budget_example : CapAt (budget_identity budget) (budget_caps budget) composed.0.limits
composed-budget_example =
    composed-budget by_code request budget composed.1 (refl, tt) (Memᴰ.head refl)

abbrev plan : Plan
plan = record {
  plan_id = "plan-1";
  plan_version = 1;
  state = "active";
  target = record { kind = "global"; key = none };
  enabled = true;
  edges = hop ∷ [];
  valid_from = some 1000;
  valid_until = none;
  issued_by = record { kind = "system"; key = some "bootstrap" };
  reason_code = "initial";
  on_exhausted = none;
  model_selection_intent = some "preferred";
  substitution_notice = none;
}

abbrev registry : Registry
registry = record {
  status = "complete";
  snapshot_id = "registry-1";
  version = 1;
  applications = [];
  models =
      (record { model_key = "large"; provider_key = "p"; api_families = "openai-responses" ∷ [] })
      ∷ (record { model_key = "small"; provider_key = "p"; api_families = "openai-responses" ∷ [] })
      ∷ [];
}

abbrev ready : Compiled
ready = record {
  disposition = compiled;
  enabled = true;
  max_depth = 1;
  on_exhausted = "continue-with-requested";
  model_selection_intent = "preferred";
  substitution_notice = "header";
  chain = hop ∷ [];
  rejections = [];
  reason_code = "fallback-compiled";
}
