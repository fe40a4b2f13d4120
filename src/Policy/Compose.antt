-- ===== src/Policy/Compose.antt =====
-- `assertCompiledFallback`, `collectModelDeployments` and `composeEffectivePolicyDocument` of
-- effective-policy-composer.mjs, up to `assertEffectivePolicyDocument`, which refuses a document or
-- lets it pass unchanged.
use azure_llm_governance_api.Prelude.{
  ℕ, String, ◌<>◌, Bool, true, false, not, ◌&&◌, Option, none, some, List, [], ◌∷◌, min, str_eq,
  ◌==◌, if◌then◌else◌, is_none, any, keep, Reply, done, ensure, supply, ◌>>◌, ◌>>=◌,
}
use azure_llm_governance_api.Prelude.Lists.{sort_by}
use azure_llm_governance_api.Prelude.Sets.{contains, sorted_set}
use azure_llm_governance_api.Prelude.Time.{Instant, is_instant}
use azure_llm_governance_api.Authorization.{Binding, EntitlementSnapshot}
use azure_llm_governance_api.Budget.{is_positive}
use azure_llm_governance_api.Budget.Publication.{ThrottleTier}
use azure_llm_governance_api.Budget.Snapshot.{precedes}
use azure_llm_governance_api.Fallback.{Edge}
use azure_llm_governance_api.Fallback.Compile.{Comparison}
use azure_llm_governance_api.Policy.{Limit, BudgetLimit, collect_limits, merge_budget_limits}

-- What the composer reads of a decision.
pub record Applied : Type 0 where
  pub binding_id : String
  pub binding_version : ℕ

pub record Authorized : Type 0 where
  pub decision : String
  pub model_allowlist : List String
  pub applied_bindings : List Applied

pub record Identifiers : Type 0 where
  pub scope_group_id : String
  pub principal_key : String
  pub subject_key : String
  pub application_key : String
  pub team_key : Option String

pub record Chain : Type 0 where
  pub enabled : Bool
  pub max_depth : ℕ
  pub chain : List Edge

-- `providerDeploymentName` is `none` where it is no text.
pub record Deployed : Type 0 where
  pub model_key : String
  pub provider_deployment_name : Option String

pub record Deployment : Type 0 where
  pub model_key : String
  pub provider_deployment_name : String

pub record Pressure : Type 0 where
  pub model : String
  pub consumed_basis_points : ℕ

pub record Request : Type 0 where
  pub authorization : Authorized
  pub entitlements : EntitlementSnapshot
  pub models : List Deployed
  pub identifiers : Identifiers
  pub fallback : Option Chain
  pub warn_threshold_percent : Option ℕ
  pub budget_limits : List BudgetLimit
  pub budget_warn_threshold_percent : Option ℕ
  pub throttle_tiers : List ThrottleTier
  pub model_pressure : List Pressure
  pub model_selection_intent : String
  pub substitution_notice : String
  pub config_version : ℕ
  pub resolved_at : Instant
  pub expires_at : Instant

pub record Document : Type 0 where
  pub id : String
  pub identifiers : Identifiers
  pub config_version : ℕ
  pub resolved_at : Instant
  pub expires_at : Instant
  pub resolution : String
  pub allowed_models : List String
  pub model_deployments : List Deployment
  pub limits : List Limit
  pub fallback : Chain
  pub warn_threshold_percent : Option ℕ
  pub throttle_tiers : List ThrottleTier
  pub model_pressure : List Pressure
  pub model_selection_intent : Option String
  pub substitution_notice : Option String

abbrev pub no_chain : Chain
no_chain = record { enabled = false; max_depth = 1; chain = [] }

unfoldable pub assert_hop : List String → Edge → Reply ⊥ Unit
assert_hop allowed e = do
  ensure (contains e.from allowed)
      ("Compiled fallback hop " <> e.from <> "->" <> e.to <> " leaves the caller's allowed models.")
  ensure (contains e.to allowed)
      ("Compiled fallback hop " <> e.from <> "->" <> e.to <> " leaves the caller's allowed models.")

unfoldable pub assert_hops : List String → List Edge → Reply ⊥ Unit
unfolding assert_hop
assert_hops allowed [] = done tt
assert_hops allowed (e ∷ es) = assert_hop allowed e >> assert_hops allowed es

unfoldable pub chain_of_hops : ℕ → List Edge → Chain
chain_of_hops depth [] = no_chain
chain_of_hops depth (e ∷ es) = record { enabled = true; max_depth = depth; chain = e ∷ es }

unfoldable pub assert_compiled_fallback : Option Chain → List String → Reply ⊥ Chain
unfolding assert_hops chain_of_hops
assert_compiled_fallback none allowed = done no_chain
assert_compiled_fallback (some c) allowed =
    if not c.enabled
    then done no_chain
    else assert_hops allowed c.chain >> done (chain_of_hops c.max_depth c.chain)

-- `new Map(entries).get(key)`: the last entry of a key wins.
last_deployed : List Deployed → String → Option Deployed
last_deployed [] key = none
last_deployed (d ∷ ds) key =
    let later = last_deployed ds key in
    elim later [ some e ↦ some e | none ↦ if str_eq d.model_key key then some d else none ]

deployment_name : Option Deployed → Option String
deployment_name none = none
deployment_name (some d) = d.provider_deployment_name

unfoldable pub collect_model_deployments : List Deployed → List String → Reply ⊥ (List Deployment)
unfolding last_deployed deployment_name
collect_model_deployments models [] = done []
collect_model_deployments models (k ∷ ks) = do
  name ←
      supply (deployment_name (last_deployed models k))
        ("Allowed model '" <> k <> "' has no provider deployment mapping.")
  rest ← collect_model_deployments models ks
  done ((record { model_key = k; provider_deployment_name = name }) ∷ rest)

unfoldable pub last_binding : List Binding → String → Option Binding
last_binding [] id = none
last_binding (b ∷ bs) id =
    let later = last_binding bs id in
    elim later [ some c ↦ some c | none ↦ if str_eq b.binding_id id then some b else none ]

unfoldable pub applied_bindings : List Binding → List Applied → Reply ⊥ (List Binding)
unfolding last_binding
applied_bindings bindings [] = done []
applied_bindings bindings (a ∷ more) = do
  b ←
      supply (last_binding bindings a.binding_id)
        ("Applied binding '" <> a.binding_id <> "' is absent from the snapshot.")
  ensure (b.binding_version == a.binding_version)
      ("Applied binding '" <> a.binding_id <> "' changed version during composition.")
  rest ← applied_bindings bindings more
  done (b ∷ rest)

abbrev pub least : Option ℕ → Option ℕ → Option ℕ
least none b = b
least (some n) none = some n
least (some n) (some m) = some (min n m)

unfoldable pub assert_warning : Chain → Option ℕ → Reply ⊥ Unit
assert_warning c none =
    ensure (not c.enabled) "warnThresholdPercent is required when a fallback chain is enabled."
assert_warning c (some n) =
    ensure (is_positive n) "warnThresholdPercent must be a positive integer."

same_team : Option String → String → Bool
same_team none group = true
same_team (some team) group = str_eq team group

abbrev pub has_organization : List Limit → Bool
has_organization limits = any (λ l. str_eq l.scope "organization") limits

is_filled : List String → Bool
is_filled [] = false
is_filled (_ ∷ _) = true

unfoldable pub pressure_for :
    (String → String → Comparison) → List String → List Pressure → List Pressure
pressure_for compare allowed ps =
    sort_by (λ p q. precedes compare p.model q.model) (keep (λ p. contains p.model allowed) ps)

unfoldable pub assert_selection : String → String → Reply ⊥ Unit
assert_selection intent notice = do
  ensure (contains intent ("preferred" ∷ "pinned" ∷ []))
      "modelSelectionIntent must be pinned or preferred."
  ensure (not (str_eq notice "inline" && not (str_eq intent "preferred")))
      "substitutionNotice requires an accepted substitute."
  ensure (contains notice ("inline" ∷ "header" ∷ [])) "substitutionNotice must be header or inline."

unfoldable pub assert_request : Request → List String → Reply ⊥ Unit
unfolding same_team is_filled
assert_request r allowed = do
  ensure (str_eq r.authorization.decision "allow")
      ("Cannot compose a resolved policy from a '" <> r.authorization.decision <> "' decision.")
  ensure (same_team r.identifiers.team_key r.identifiers.scope_group_id)
      "A team-attributed policy must use that team as its scope group."
  ensure (is_filled allowed) "An allowed decision must carry at least one model."

unfoldable pub assert_times : Request → Reply ⊥ Unit
assert_times r = do
  ensure (is_positive r.config_version) "configVersion must be a positive integer."
  ensure (is_instant r.resolved_at) "resolvedAt must be an ISO-8601 instant."
  ensure (is_instant r.expires_at) "expiresAt must be an ISO-8601 instant."

unfoldable pub only : String → String → Option String
only wanted value = if str_eq value wanted then some value else none

unfoldable pub document :
    (String → String → Comparison)
    → Request
    → List String
    → List Deployment
    → List Limit
    → Chain
    → Document
unfolding pressure_for only
document compare r allowed deployments limits chain = record {
  id = "effective-policy|" <> r.identifiers.scope_group_id <> "|" <> r.identifiers.principal_key;
  identifiers = r.identifiers;
  config_version = r.config_version;
  resolved_at = r.resolved_at;
  expires_at = r.expires_at;
  resolution = "resolved";
  allowed_models = allowed;
  model_deployments = deployments;
  limits = limits;
  fallback = chain;
  warn_threshold_percent = least r.warn_threshold_percent r.budget_warn_threshold_percent;
  throttle_tiers = r.throttle_tiers;
  model_pressure = pressure_for compare allowed r.model_pressure;
  model_selection_intent = only "preferred" r.model_selection_intent;
  substitution_notice = only "inline" r.substitution_notice;
}

unfoldable pub limits_for : (String → String → Comparison) → Request → List Binding → List Limit
limits_for compare r bindings =
    merge_budget_limits compare (collect_limits (not (is_none r.identifiers.team_key)) bindings)
      r.budget_limits

unfoldable pub compose_document : (String → String → Comparison) → Request → Reply ⊥ Document
unfolding assert_request applied_bindings limits_for assert_times collect_model_deployments
    assert_compiled_fallback assert_warning assert_selection document
compose_document compare r = do
  let allowed = sorted_set r.authorization.model_allowlist
  assert_request r allowed
  bindings ← applied_bindings r.entitlements.bindings r.authorization.applied_bindings
  let limits = limits_for compare r bindings
  ensure (has_organization limits)
      "No organization-wide token quota is configured, so consumption would be uncapped."
  assert_times r
  deployments ← collect_model_deployments r.models allowed
  chain ← assert_compiled_fallback r.fallback allowed
  assert_warning chain (least r.warn_threshold_percent r.budget_warn_threshold_percent)
  assert_selection r.model_selection_intent r.substitution_notice
  done (document compare r allowed deployments limits chain)
