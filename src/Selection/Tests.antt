-- ===== src/Selection/Tests.antt =====
-- A request for a large model under a plan that moves it to a small one, with the budget over its share.
use azure_llm_governance_api.Prelude.{
  String, true, false, none, some, List, [], ◌∷◌, some_injective, refl, sym, ap, ◌⊎◌,
}
use azure_llm_governance_api.Prelude.Lists.{sort_by}
use azure_llm_governance_api.Fallback.{Edge, Plan}
use azure_llm_governance_api.Fallback.Compile.{
  Registry, Compiled, compiled, Comparison, same, compile_fallback_plan,
}
use azure_llm_governance_api.Selection.{
  Limit, Remaining, Chain, Policy, Selection, selected, select_effective_model,
}
use azure_llm_governance_api.Selection.Compiled.{Granted, selected-Granted}

abbrev small : Edge
small = record { from = "large"; to = "small" }

abbrev plan : Plan
plan = record {
  plan_id = "plan-1";
  plan_version = 1;
  state = "active";
  target = record { kind = "global"; key = none };
  enabled = true;
  edges = small ∷ [];
  valid_from = some 1000;
  valid_until = none;
  issued_by = record { kind = "system"; key = some "bootstrap" };
  reason_code = "initial";
  on_exhausted = none;
  model_selection_intent = some "preferred";
  substitution_notice = none;
}

abbrev registry : Registry
registry = record {
  status = "complete";
  snapshot_id = "registry-1";
  version = 1;
  applications = [];
  models =
      (record {
        model_key = "large";
        provider_key = "openai";
        api_families = "openai-responses" ∷ [];
      })
      ∷ (record {
        model_key = "small";
        provider_key = "openai";
        api_families = "openai-responses" ∷ [];
      })
      ∷ [];
}

abbrev entitled : List String
entitled = "large" ∷ "small" ∷ []

abbrev ready : Compiled
ready = record {
  disposition = compiled;
  enabled = true;
  max_depth = 1;
  on_exhausted = "continue-with-requested";
  model_selection_intent = "preferred";
  substitution_notice = "header";
  chain = small ∷ [];
  rejections = [];
  reason_code = "fallback-compiled";
}

abbrev limits : List Limit
limits = (record { scope = "team"; model_scope = "all-models"; token_quota = some 1000 }) ∷ []

abbrev left : List Remaining
left = (record { scope = "team"; tokens = some 100 }) ∷ []

abbrev policy : Policy
policy = record {
  warn_threshold_percent = some 80;
  limits = limits;
  model_pressure = none;
  fallback = some (record { enabled = true; chain = small ∷ []; max_depth = some 1 });
  model_selection_intent = some "preferred";
  allowed_models = entitled;
  config_version = some 7;
}

abbrev answer : Selection
answer = record {
  decision = selected;
  effective_model = some "small";
  requested_model = "large";
  hops = 1;
  breached_scopes = "team" ∷ [];
  model_pressure_breached = false;
  reason_code = "fallback-applied";
}

abbrev level : String → String → Comparison
level s t = same

selected-Granted_example :
    (Path String "small" "large") ⊎ Granted registry entitled "openai-responses" "small"
unfolding compile_fallback_plan sort_by select_effective_model
selected-Granted_example =
    selected-Granted level plan registry entitled "openai-responses" (some 2000) ready refl "large"
      "deny" policy left answer "small" (λ h. cc) refl
      (λ c h. ap (λ (x : Chain). x.chain) (some_injective _ _ (sym h))) refl refl
