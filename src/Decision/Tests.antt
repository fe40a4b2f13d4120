-- ===== src/Decision/Tests.antt =====
-- A decision for an unmoved request, and one that a model's own budget moved.
use azure_llm_governance_api.Prelude.{true, none, some, [], ◌∷◌, refl}
use azure_llm_governance_api.Prelude.Text.{is_application_key}
use azure_llm_governance_api.Fallback.Compile.{Registry, resolve_model_descriptor}
use azure_llm_governance_api.Selection.{Policy, select_effective_model}
use azure_llm_governance_api.Decision.{Decision, Query, decide_model_selection, ruled_selected}
use azure_llm_governance_api.Decision.Records.{IsEvidenced, decide-IsEvidenced}

abbrev registry : Registry
registry = record {
  status = "complete";
  snapshot_id = "registry-1";
  version = 3;
  models =
      (record {
        model_key = "large";
        provider_key = "openai";
        api_families = "openai-responses" ∷ [];
      })
      ∷ (record {
        model_key = "small";
        provider_key = "other";
        api_families = "openai-responses" ∷ [];
      })
      ∷ [];
  applications = [];
}

-- The large model has used up its own budget; no scope has.
abbrev pressed : Policy
pressed = record {
  warn_threshold_percent = some 80;
  limits = [];
  model_pressure = some ((record { model = "large"; consumed_basis_points = some 9000 }) ∷ []);
  fallback = some (record {
    enabled = true;
    chain = (record { from = "large"; to = "small" }) ∷ [];
    max_depth = some 1;
  });
  model_selection_intent = some "preferred";
  allowed_models = "large" ∷ "small" ∷ [];
  config_version = some 7;
}

abbrev asked : Query
asked = record {
  requested_model = "large";
  policy = pressed;
  remaining = [];
  registry = registry;
  application_id = "app";
  application_key = "ak1-0123456789abcdef";
  fallback_rejections = [];
  on_exhausted = "deny";
  evaluation_time = some 1000;
}

abbrev moved : Decision
moved = record {
  decision = ruled_selected;
  reason_code = "fallback-applied";
  requested = record { model_key = "large"; provider_key = some "openai" };
  effective = some (record { model_key = "small"; provider_key = some "other" });
  hops = 1;
  model_selection_intent = "preferred";
  trigger = record { kind = "none"; warn_threshold_percent = none; breached_scopes = [] };
  application_attribution = record {
    application_key = "ak1-0123456789abcdef";
    quality = none;
    display_code = none;
    reason_code = "application-unregistered";
  };
  exhausted = none;
  config_version = some 7;
  registry_snapshot_id = "registry-1";
  registry_snapshot_version = 3;
  evaluation_time = some 1000;
}

decide-IsEvidenced_example : IsEvidenced asked moved
unfolding decide_model_selection is_application_key resolve_model_descriptor select_effective_model
decide-IsEvidenced_example = decide-IsEvidenced asked moved refl
