-- ===== src/Fallback/Tests.antt =====
-- A plan with two hops, for a caller who is entitled to three models of which two serve the contract.
use azure_llm_governance_api.Prelude.{
  String, true, none, some, List, [], ◌∷◌, done, ◌≡◌, ◌≢◌, refl, ◌↔◌, inl, arith,
}
use azure_llm_governance_api.Fallback.{Edge, Plan}
use azure_llm_governance_api.Fallback.Cycles.{assert_acyclic, back_edge, next_white}
use azure_llm_governance_api.Fallback.Colouring.{Leads}
use azure_llm_governance_api.Fallback.Acyclic.{assert_acyclic_lem}
use azure_llm_governance_api.Fallback.Plans.{classify_authored_plan}
use azure_llm_governance_api.Fallback.Accepted.{Judged, classify_authored_plan_lem}
use azure_llm_governance_api.Fallback.Compile.{
  Registry, Compiled, compile_fallback_plan, Comparison, same, compiled,
}
use azure_llm_governance_api.Fallback.Select.{select_fallback_plan}
use azure_llm_governance_api.Fallback.Splits.{IsSplit, compile-IsSplit}
use azure_llm_governance_api.Fallback.Choice.{IsChoice, select_fallback_plan-IsChoice}

abbrev small : Edge
small = record { from = "large"; to = "small" }

abbrev other : Edge
other = record { from = "other"; to = "small" }

abbrev authored : Plan
authored = record {
  plan_id = "plan-1";
  plan_version = 1;
  state = "active";
  target = record { kind = "team"; key = some "core" };
  enabled = true;
  edges = small ∷ other ∷ [];
  valid_from = some 1000;
  valid_until = none;
  issued_by = record { kind = "system"; key = some "bootstrap" };
  reason_code = "initial";
  on_exhausted = none;
  model_selection_intent = some "preferred";
  substitution_notice = none;
}

abbrev chat : List String
chat = "openai-chat-completions" ∷ []

abbrev models : Registry
models = record {
  status = "complete";
  snapshot_id = "registry-1";
  version = 1;
  applications = [];
  models =
      (record { model_key = "large"; provider_key = "openai"; api_families = chat })
      ∷ (record { model_key = "small"; provider_key = "openai"; api_families = chat })
      ∷ (record {
        model_key = "other";
        provider_key = "openai";
        api_families = "anthropic-messages" ∷ [];
      })
      ∷ [];
}

abbrev entitled : List String
entitled = "large" ∷ "other" ∷ "small" ∷ []

-- An order for `localeCompare`: nothing comes first.
abbrev level : String → String → Comparison
level s t = same

cyclic : assert_acyclic "plan.edges" (("a", "b") ∷ ("b", "a") ∷ []) ≢ done tt
unfolding assert_acyclic back_edge next_white
cyclic h = cc

assert_acyclic_lem_example :
    (assert_acyclic "plan.edges" (("a", "b") ∷ ("b", "c") ∷ []) ≡ done tt)
    ↔ ((k : String) → ¬ Leads (("a", "b") ∷ ("b", "c") ∷ []) k k)
assert_acyclic_lem_example = assert_acyclic_lem "plan.edges" (("a", "b") ∷ ("b", "c") ∷ [])

classify_authored_plan_lem_example : Judged authored (classify_authored_plan authored)
classify_authored_plan_lem_example = classify_authored_plan_lem authored

compile-IsSplit_example :
    (c : Compiled) × (compile_fallback_plan level authored models entitled
        (some 2000)
        "openai-chat-completions"
      ≡ done c)
    × IsSplit authored models entitled "openai-chat-completions" c
compile-IsSplit_example =
    compile-IsSplit level authored models entitled "openai-chat-completions" 2000 refl refl refl
      (record {
        is_enabled = refl;
        is_active = refl;
        from = 1000;
        from_time = refl;
        from_instant = refl;
        begun = omega arith;
        window = inl refl;
      })

abbrev outcome : Compiled
outcome = record {
  disposition = compiled;
  enabled = true;
  max_depth = 1;
  on_exhausted = "continue-with-requested";
  model_selection_intent = "preferred";
  substitution_notice = "header";
  chain = small ∷ [];
  rejections =
      (record { from = "other"; to = "small"; blocked_by = "fallback-source-api-family-absent" })
      ∷ [];
  reason_code = "fallback-compiled";
}

select_fallback_plan-IsChoice_example :
    IsChoice
      (record { application_id = some "app"; subject_id = none; team_key = some "core" })
      (authored ∷ [])
      (select_fallback_plan
        (authored ∷ [])
        (record { application_id = some "app"; subject_id = none; team_key = some "core" }))
select_fallback_plan-IsChoice_example =
    select_fallback_plan-IsChoice (authored ∷ [])
      (record { application_id = some "app"; subject_id = none; team_key = some "core" })
