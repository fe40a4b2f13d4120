-- ===== src/Authorization/Evaluator.antt =====
-- `evaluateEffectiveEntitlementBindings` and `evaluateGovernanceAuthorization`.
use azure_llm_governance_api.Prelude.{
  ℕ, String, ◌<>◌, Bool, true, false, not, ◌&&◌, ◌||◌, Option, none, some, List, [], ◌∷◌, map, leb,
  ltb, str_eq, if◌then◌else◌, any, keep, Reply, done, ◌>>◌,
}
use azure_llm_governance_api.Prelude.Sets.{contains, sorted_set}
use azure_llm_governance_api.Authorization.{
  Scope, Assignment, Binding, Principal, AssignmentSnapshot, EntitlementSnapshot, is_global_scope,
}
use azure_llm_governance_api.Authorization.Rules.{
  AppliedAssignment, AppliedBinding, ReadScope, binding_matches, get_matching_role_assignments,
  is_active_at, is_grant, minimum_limit, project_assignments, project_bindings,
  resolve_model_allowlist, resolve_read_scopes, resolve_team_keys, team_keys, team_values,
  validate_team_role_assignments,
}

pub data Verdict : Type 0 where
  allow deny unavailable : Verdict

pub record Rates : Type 0 where
  pub requests_per_minute : Option ℕ
  pub tokens_per_minute : Option ℕ

abbrev pub no_rates : Rates
no_rates = record { requests_per_minute = none; tokens_per_minute = none }

pub record Effective : Type 0 where
  pub decision : Verdict
  pub reason_code : String
  pub model_allowlist : List String
  pub limits : Rates

effective_of : List Binding → List String → Effective
unfolding minimum_limit
effective_of bindings [] = record {
  decision = deny;
  reason_code = "model-intersection-empty";
  model_allowlist = [];
  limits = no_rates;
}
effective_of bindings (m ∷ ms) = record {
  decision = allow;
  reason_code = "most-restrictive-policy";
  model_allowlist = m ∷ ms;
  limits = record {
    requests_per_minute = minimum_limit (λ l. l.requests_per_minute) bindings;
    tokens_per_minute = minimum_limit (λ l. l.tokens_per_minute) bindings;
  };
}

unfoldable pub evaluate_effective_entitlement_bindings : List Binding → Effective
unfolding effective_of
evaluate_effective_entitlement_bindings [] = record {
  decision = unavailable;
  reason_code = "required-policy-unavailable";
  model_allowlist = [];
  limits = no_rates;
}
evaluate_effective_entitlement_bindings (b ∷ bs) =
    effective_of (b ∷ bs) (resolve_model_allowlist (b ∷ bs))

-- `snapshotEvidence`
pub record Evidence : Type 0 where
  pub assignment_snapshot_id : String
  pub assignment_snapshot_version : ℕ
  pub entitlement_snapshot_id : String
  pub entitlement_snapshot_version : ℕ
  pub membership_snapshot_id : String
  pub evaluation_time : ℕ

pub record Decision : Type 0 where
  pub decision : Verdict
  pub authoritative : Bool
  pub reason_code : String
  pub effective_roles : List String
  pub permitted_read_scopes : List ReadScope
  pub permitted_team_keys : List String
  pub model_allowlist : List String
  pub limits : Rates
  pub applied_assignments : List AppliedAssignment
  pub applied_bindings : List AppliedBinding
  pub evidence : Evidence

snapshot_evidence : Principal → AssignmentSnapshot → EntitlementSnapshot → ℕ → Evidence
snapshot_evidence p a e now = record {
  assignment_snapshot_id = a.snapshot_id;
  assignment_snapshot_version = a.version;
  entitlement_snapshot_id = e.snapshot_id;
  entitlement_snapshot_version = e.version;
  membership_snapshot_id = p.membership_snapshot_id;
  evaluation_time = now;
}

unfoldable pub roles_of : List Assignment → List String → List String
roles_of [] default = default
roles_of (a ∷ others) default = sorted_set (map (λ b. b.role_code) (a ∷ others))

unfoldable pub has_any : List Assignment → Bool
has_any [] = false
has_any (_ ∷ _) = true

unavailable_decision : Evidence → String → List Assignment → Bool → Decision
unfolding roles_of has_any
unavailable_decision evidence reason assignments default_end_user = record {
  decision = unavailable;
  authoritative = default_end_user || has_any assignments;
  reason_code = reason;
  effective_roles = roles_of assignments (if default_end_user then "end-user" ∷ [] else []);
  permitted_read_scopes = resolve_read_scopes assignments;
  permitted_team_keys = resolve_team_keys assignments [];
  model_allowlist = [];
  limits = no_rates;
  applied_assignments = project_assignments assignments;
  applied_bindings = [];
  evidence = evidence;
}

unfoldable pub is_strict_membership_eligible : Principal → ℕ → Bool
is_strict_membership_eligible p now =
    contains p.membership_status ("complete" ∷ "empty-complete" ∷ [])
    && ltb now p.membership_expires_at

unfoldable pub get_snapshot_authority_reason : String → ℕ → ℕ → String → Option String
get_snapshot_authority_reason status expires now prefix =
    if not (str_eq status "complete")
    then some (prefix <> "-snapshot-" <> status)
    else if leb expires now
    then some (prefix <> "-snapshot-expired")
    else none

unfoldable pub applicable_bindings : Principal → EntitlementSnapshot → ℕ → List Binding
unfolding binding_matches is_active_at
applicable_bindings p e now =
    keep (λ b. binding_matches p (team_keys e.team_catalog p.groups) b.target)
      (keep (λ b. is_active_at b.state b.valid_from b.valid_until now) e.bindings)

-- The part of the decision for a caller whose evidence is all there.
decide :
    Principal
    → AssignmentSnapshot
    → EntitlementSnapshot
    → ℕ
    → List Assignment
    → List Binding
    → Decision
unfolding roles_of team_values snapshot_evidence
decide p a e now assignments bindings =
    let effective = evaluate_effective_entitlement_bindings bindings in
    let entitled = any is_grant bindings in
    record {
      decision = if entitled then effective.decision else deny;
      authoritative = true;
      reason_code = if entitled then effective.reason_code else "principal-not-entitled";
      effective_roles = roles_of assignments ("end-user" ∷ []);
      permitted_read_scopes = resolve_read_scopes assignments;
      permitted_team_keys = resolve_team_keys assignments (team_values e.team_catalog);
      model_allowlist = if entitled then effective.model_allowlist else [];
      limits = if entitled then effective.limits else no_rates;
      applied_assignments = project_assignments assignments;
      applied_bindings = if entitled then project_bindings bindings else [];
      evidence = snapshot_evidence p a e now;
    }

is_team_scope : Scope → Bool
is_team_scope s = not (is_global_scope s)

-- Roles that hold whatever team the caller is in.
without_entitlement : Evidence → String → List Assignment → Decision
unfolding unavailable_decision is_team_scope has_any
without_entitlement evidence reason matching =
    let everywhere_roles = keep (λ a. is_global_scope a.scope) matching in
    unavailable_decision evidence reason everywhere_roles
      (has_any everywhere_roles || not (any (λ a. is_team_scope a.scope) matching))

-- `evaluateGovernanceAuthorization` behind its three assertions.
unfoldable pub evaluate_governance_authorization :
    Principal → AssignmentSnapshot → EntitlementSnapshot → ℕ → Reply ⊥ Decision
unfolding unavailable_decision without_entitlement decide snapshot_evidence
evaluate_governance_authorization p a e now =
    let evidence = snapshot_evidence p a e now in
    let matching = get_matching_role_assignments p a.assignments now in
    let settled : Reply ⊥ Decision = (do
      validate_team_role_assignments matching e.team_catalog
      done (decide p a e now matching (applicable_bindings p e now))) in
    if not (is_strict_membership_eligible p now)
    then done
        (unavailable_decision evidence ("membership-evidence-" <> p.membership_status) [] false)
    else elim (get_snapshot_authority_reason a.status a.expires_at now "assignment") [
      | some reason ↦ done (unavailable_decision evidence reason [] false)
      | none ↦ elim (get_snapshot_authority_reason e.status e.expires_at now "entitlement") [
        | some reason ↦ done (without_entitlement evidence reason matching)
        | none ↦ settled
      ]
    ]
