-- ===== src/Fallback/Snapshot.antt =====
-- `assertFallbackPolicySnapshotV1` of fallback-plan-compiler.mjs. It gives back what it was given.
use azure_llm_governance_api.Prelude.{
  ℕ, suc, String, ◌<>◌, Bool, true, Option, none, some, List, [], ◌∷◌, map, str_eq, leb, ltb,
  is_positive, if◌then◌else◌, length, Reply, done, ensure, ◌>>=◌, ◌>>◌,
}
use azure_llm_governance_api.Prelude.Text.{is_safe_id, decimal}
use azure_llm_governance_api.Prelude.Time.{Instant}
use azure_llm_governance_api.Prelude.Sets.{contains}
use azure_llm_governance_api.Fallback.{Plan}
use azure_llm_governance_api.Fallback.Plans.{parse_time, assert_plan}
use azure_llm_governance_api.Fallback.Compile.{Comparison}
use azure_llm_governance_api.Budget.Snapshot.{
  statuses, ensure_in_range, has_reason, assert_sorted_unique,
}

pub record FallbackPolicy : Type 0 where
  pub contract_version : String
  pub snapshot_id : String
  pub tenant_id : String
  pub version : ℕ
  pub status : String
  pub captured_at : Instant
  pub expires_at : Instant
  pub source_revision : String
  pub reason : Option String
  pub plans : List Plan

abbrev pub max_plans : ℕ
max_plans = 128

unfoldable pub assert_policy_fields : FallbackPolicy → Reply ⊥ Unit
assert_policy_fields s = do
  ensure (str_eq s.contract_version "v1") "fallbackPolicy.contractVersion must be v1."
  ensure (is_safe_id s.snapshot_id) "fallbackPolicy.snapshotId must be a bounded safe identifier."
  ensure (is_safe_id s.tenant_id) "fallbackPolicy.tenantId must be a bounded safe identifier."
  ensure (is_safe_id s.source_revision)
      "fallbackPolicy.sourceRevision must be a bounded safe identifier."
  ensure (is_positive s.version) "fallbackPolicy.version must be a positive integer."
  ensure (contains s.status statuses) "fallbackPolicy.status is unsupported."

unfoldable pub assert_policy_times : FallbackPolicy → Instant → Reply ⊥ Unit
unfolding parse_time
assert_policy_times s at = do
  captured ← parse_time s.captured_at "fallbackPolicy.capturedAt"
  expires ← parse_time s.expires_at "fallbackPolicy.expiresAt"
  now ← parse_time at "evaluationTime"
  ensure_in_range (leb captured now) "fallbackPolicy cannot be captured in the future."
  ensure_in_range (ltb captured expires) "fallbackPolicy capture must precede expiry."
  ensure_in_range (ltb now expires) "fallbackPolicy has expired and carries no authority."

unfoldable pub in_tenant : FallbackPolicy → Option String → Bool
in_tenant s none = true
in_tenant s (some tenant) = str_eq s.tenant_id tenant

unfoldable pub assert_policy_degraded : FallbackPolicy → Reply ⊥ Unit
unfolding has_reason
assert_policy_degraded s =
    if str_eq s.status "complete"
    then done tt
    else ensure (has_reason s.reason) "fallbackPolicy degraded status requires a reason."
      >> ensure (leb (length s.plans) 0) "fallbackPolicy degraded status cannot carry plan records."

-- `decimal`, since an index may have three digits.
unfoldable pub assert_plans : ℕ → List Plan → Reply ⊥ Unit
unfolding assert_plan decimal
assert_plans index [] = done tt
assert_plans index (p ∷ ps) = do
  assert_plan p ("fallbackPolicy.plans[" <> decimal index <> "]")
  assert_plans (suc index) ps

unfoldable pub assert_fallback_policy_snapshot_v1 :
    (String → String → Comparison)
    → FallbackPolicy
    → Instant
    → Option String
    → Reply ⊥ FallbackPolicy
unfolding assert_policy_fields assert_policy_times in_tenant assert_policy_degraded assert_plans
    assert_sorted_unique
assert_fallback_policy_snapshot_v1 compare s at tenant = do
  assert_policy_fields s
  assert_policy_times s at
  ensure (in_tenant s tenant) "fallbackPolicy.tenantId does not match the calling tenant."
  ensure (leb (length s.plans) max_plans) "fallbackPolicy.plans exceeds 128 entries."
  assert_policy_degraded s
  assert_plans 0 s.plans
  assert_sorted_unique compare (map (λ p. p.plan_id) s.plans) "fallbackPolicy.plans"
  done s
