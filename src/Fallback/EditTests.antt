-- ===== src/Fallback/EditTests.antt =====
-- An empty set of plans gets a plan for a team, which is then switched on.
use azure_llm_governance_api.Prelude.{
  ℕ, ◌+◌, ◌*◌, String, Bool, true, false, none, some, List, [], ◌∷◌, done, ◌≡◌, refl, str_eq,
  if◌then◌else◌,
}
use mathlib.Core.List.Memᴰ
use azure_llm_governance_api.Prelude.Text.{lt_text, is_safe_id, is_alias}
use azure_llm_governance_api.Prelude.Lists.{sort_by}
use azure_llm_governance_api.Fallback.{Edge, Plan}
use azure_llm_governance_api.Fallback.Cycles.{back_edge, next_white}
use azure_llm_governance_api.Fallback.Compile.{
  Comparison, less, same, greater, Registry, resolve_model_descriptor,
}
use azure_llm_governance_api.Fallback.Plans.{assert_plan}
use azure_llm_governance_api.Fallback.Snapshot.{FallbackPolicy, assert_fallback_policy_snapshot_v1}
use azure_llm_governance_api.Fallback.Authored.{Draft, Authoring, PlanChanges}
use azure_llm_governance_api.Fallback.Edit.{add_fallback_plan, edit_fallback_plan}
use azure_llm_governance_api.Fallback.Governed.{IsGoverned}
use azure_llm_governance_api.Fallback.Commits.{stay, add, change, IsReached, PlanSteps-IsReached}

abbrev in_order : String → String → Comparison
in_order a b = if lt_text a b then less else if str_eq a b then same else greater

abbrev hop : Edge
hop = record { from = "large"; to = "small" }

abbrev registry : Registry
registry = record {
  status = "complete";
  snapshot_id = "registry-1";
  version = 1;
  applications = [];
  models =
      (record { model_key = "large"; provider_key = "openai"; api_families = [] })
      ∷ (record { model_key = "small"; provider_key = "openai"; api_families = [] })
      ∷ [];
}

abbrev draft : Draft
draft = record {
  plan_id = "plan-1";
  target = record { kind = "team"; key = some "core" };
  edges = hop ∷ [];
  enabled = none;
  model_selection_intent = some "preferred";
  substitution_notice = some "inline";
  unknown = [];
}

abbrev authoring : Authoring
authoring = record {
  registry = registry;
  team_catalog = "core" ∷ [];
  issued_by = record { kind = "subject"; key = some "s1" };
}

abbrev switch_on : PlanChanges
switch_on = record {
  enabled = some true;
  model_selection_intent = none;
  substitution_notice = none;
  state = none;
  edges = none;
  unknown = [];
}

abbrev policy : ℕ → ℕ → List Plan → FallbackPolicy
policy version at plans = record {
  contract_version = "v1";
  snapshot_id = "s1";
  tenant_id = "t1";
  version = version;
  status = "complete";
  captured_at = some (1000 * at);
  expires_at = some (1000 * (60 + at));
  source_revision = "r1";
  reason = none;
  plans = plans;
}

abbrev first : FallbackPolicy
first = policy 1 0 []

abbrev made : ℕ → Bool → Plan
made version enabled = record {
  plan_id = "plan-1";
  plan_version = version;
  state = "active";
  target = record { kind = "team"; key = some "core" };
  enabled = enabled;
  edges = hop ∷ [];
  valid_from = some 1000;
  valid_until = none;
  issued_by = record { kind = "subject"; key = some "s1" };
  reason_code = "fallback-plan-created";
  on_exhausted = none;
  model_selection_intent = some "preferred";
  substitution_notice = some "inline";
}

abbrev second : FallbackPolicy
second = policy 2 1 (made 1 false ∷ [])

abbrev third : FallbackPolicy
third = policy 3 2 (made 2 true ∷ [])

accepted_first : assert_fallback_policy_snapshot_v1 in_order first (some 0) none ≡ done first
unfolding assert_fallback_policy_snapshot_v1 lt_text is_safe_id sort_by
accepted_first = refl

added_now : add_fallback_plan in_order first draft authoring (some 1000) 60 ≡ done second
unfolding add_fallback_plan assert_fallback_policy_snapshot_v1 lt_text is_safe_id is_alias sort_by
    back_edge next_white assert_plan resolve_model_descriptor
added_now = refl

switched_now : edit_fallback_plan in_order second "plan-1" switch_on (some 2000) 60 ≡ done third
unfolding edit_fallback_plan assert_fallback_policy_snapshot_v1 lt_text is_safe_id is_alias sort_by
    back_edge next_white assert_plan
switched_now = refl

IsGoverned-first : IsGoverned first
IsGoverned-first = record {
  one_each = λ p q m n e. absurd (Memᴰ.not-nil m);
  honest = λ p m. absurd (Memᴰ.not-nil m);
}

PlanSteps-IsReached_example : IsReached in_order 2 first third
PlanSteps-IsReached_example =
    PlanSteps-IsReached in_order 2 first third IsGoverned-first accepted_first (
      change "plan-1" switch_on (some 2000) 60 (add draft authoring (some 1000) 60 stay added_now)
        switched_now)
