-- ===== src/Authorization/Tests.antt =====
-- A caller in one team, under an organization-wide ceiling and a team grant.
use azure_llm_governance_api.Prelude.{
  ℕ, ◌≡◌, refl, true, not, ◌&&◌, ◌||◌, Option, none, some, List, [], ◌∷◌, any, every, done, is_none,
}
use azure_llm_governance_api.Prelude.Lists.{sort_by}
use azure_llm_governance_api.Prelude.Sets.{contains, sorted_set}
use azure_llm_governance_api.Prelude.Text.{lt_text}
use azure_llm_governance_api.Authorization.{
  active, group, team, everyone, of_team, Limits, Binding, Principal, AssignmentSnapshot,
  EntitlementSnapshot, hourly,
}
use azure_llm_governance_api.Authorization.Rules.{
  is_organization, is_grant, resolve_model_allowlist, resolve_read_scopes, resolve_team_keys,
  get_matching_role_assignments, team_keys, validate_team_role_assignments,
}
use azure_llm_governance_api.Authorization.Evaluator.{
  Decision, allow, evaluate_governance_authorization, evaluate_effective_entitlement_bindings,
  applicable_bindings, is_strict_membership_eligible, get_snapshot_authority_reason,
}
use azure_llm_governance_api.Authorization.Allowlist.{grants_model, contains-allowlist}
use azure_llm_governance_api.Authorization.Decisions.{allowed_model}

abbrev rates : ℕ → Limits
rates n = record {
  requests_per_minute = some n;
  tokens_per_minute = none;
  quota = some (1000, hourly);
}

abbrev ceiling_binding : Binding
ceiling_binding = record {
  binding_id = "b-org";
  binding_version = 1;
  state = active;
  target = everyone;
  model_allowlist = "gpt-large" ∷ "gpt-small" ∷ [];
  limits = rates 100;
  valid_from = 0;
  valid_until = none;
}

abbrev team_binding : Binding
team_binding = record {
  binding_id = "b-team";
  binding_version = 1;
  state = active;
  target = of_team "red";
  model_allowlist = "gpt-small" ∷ "other" ∷ [];
  limits = rates 20;
  valid_from = 0;
  valid_until = some 9000;
}

abbrev caller : Principal
caller = record {
  subject_id = "s-1";
  application_id = "app";
  membership_status = "complete";
  membership_expires_at = 5000;
  membership_snapshot_id = "m-1";
  groups = record { group_id = "g-1"; authorization_relevant = true } ∷ [];
}

abbrev roles : AssignmentSnapshot
roles = record {
  snapshot_id = "a-1";
  version = 1;
  status = "complete";
  expires_at = 5000;
  assignments =
      record {
        assignment_id = "r-1";
        assignment_version = 1;
        state = active;
        role_code = "team-viewer";
        assignee = group "g-1";
        scope = team "red";
        valid_from = 0;
        valid_until = none;
      }
      ∷ [];
}

abbrev entitlements : EntitlementSnapshot
entitlements = record {
  snapshot_id = "e-1";
  version = 1;
  status = "complete";
  expires_at = 5000;
  team_catalog = record { membership_group_id = "g-1"; team_key = "red" } ∷ [];
  bindings = ceiling_binding ∷ team_binding ∷ [];
}

evaluated :
    (d : Decision) × (evaluate_governance_authorization caller roles entitlements 1000 ≡ done d)
    × (d.decision ≡ allow)
    × (d.model_allowlist ≡ "gpt-small" ∷ [])
unfolding evaluate_governance_authorization evaluate_effective_entitlement_bindings
    applicable_bindings is_strict_membership_eligible get_snapshot_authority_reason
    resolve_model_allowlist resolve_team_keys resolve_read_scopes get_matching_role_assignments
    team_keys validate_team_role_assignments sorted_set sort_by lt_text
evaluated = (_, refl, refl, refl)

allowed_model_example :
    let bs = applicable_bindings caller entitlements 1000 in
    contains "gpt-small" evaluated.0.model_allowlist ≡ (
      is_strict_membership_eligible caller 1000
      && (is_none (get_snapshot_authority_reason roles.status roles.expires_at 1000 "assignment")
          && (is_none (
                get_snapshot_authority_reason entitlements.status entitlements.expires_at 1000
                  "entitlement")
              && (any is_organization bs
                  && (every (λ b. not (is_organization b) || grants_model "gpt-small" b) bs
                      && any (λ b. is_grant b && grants_model "gpt-small" b) bs)))))
allowed_model_example = allowed_model caller roles entitlements 1000 "gpt-small" evaluated.1

abbrev both : List Binding
both = ceiling_binding ∷ team_binding ∷ []

contains-allowlist_example : contains "gpt-large" (resolve_model_allowlist both) ≡ (
    any is_organization both
    && (every (λ b. not (is_organization b) || grants_model "gpt-large" b) both
        && (not (any is_grant both) || any (λ b. is_grant b && grants_model "gpt-large" b) both)))
contains-allowlist_example = contains-allowlist "gpt-large" both

abbrev requests : Limits → Option ℕ
requests l = l.requests_per_minute
