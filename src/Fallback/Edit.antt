-- ===== src/Fallback/Edit.antt =====
-- `addFallbackPlan` and `editFallbackPlan` of fallback-plan-edit.mjs: a fallback plan created or changed,
-- as the next version of the snapshot.
use azure_llm_governance_api.Prelude.{
  ℕ, suc, ◌+◌, ◌*◌, String, Bool, true, false, not, ◌&&◌, Option, none, some, List, [], ◌∷◌, ◌++◌,
  map, str_eq, if◌then◌else◌, is_none, or_default, find, any, keep, Reply, done, refused, thrown,
  Error, type_error, range_error, coded_error, ensure, refuse_if, ◌>>=◌, ◌>>◌,
}
use azure_llm_governance_api.Prelude.Time.{Instant, is_instant, ms, to_iso}
use azure_llm_governance_api.Prelude.Sets.{contains, unique, flat_map}
use azure_llm_governance_api.Prelude.Lists.{sort_by}
use azure_llm_governance_api.Fallback.{Edge, Party, Plan}
use azure_llm_governance_api.Fallback.Compile.{Comparison, Registry, resolve_model_descriptor}
use azure_llm_governance_api.Fallback.Snapshot.{FallbackPolicy, assert_fallback_policy_snapshot_v1}
use azure_llm_governance_api.Budget.Snapshot.{precedes}
use azure_llm_governance_api.Fallback.Authored.{
  Refusal, refusal, PlanChanges, Draft, Authoring, has_plan_id, same_target, promises_in_vain,
  created, edited, no_keys, all_same,
}

message_of : Error → String
message_of (type_error m) = m
message_of (range_error m) = m
message_of (coded_error m _) = m

unfoldable pub accepted_policy : Reply ⊥ FallbackPolicy → Reply Refusal FallbackPolicy
unfolding message_of
accepted_policy (done s) = done s
accepted_policy (refused r) = absurd r
accepted_policy (thrown e) = refused (refusal "fallback-edit-result-invalid" (message_of e ∷ []))

unfoldable pub next_policy : FallbackPolicy → Instant → Instant → List Plan → FallbackPolicy
next_policy s at expires plans = record {
  contract_version = s.contract_version;
  snapshot_id = s.snapshot_id;
  tenant_id = s.tenant_id;
  version = suc s.version;
  status = s.status;
  captured_at = at;
  expires_at = expires;
  source_revision = s.source_revision;
  reason = s.reason;
  plans = plans;
}

unfoldable pub swapped_plan : String → Plan → Plan → Plan
unfolding has_plan_id
swapped_plan id new p = if has_plan_id id p then new else p

unfoldable pub find_plan : String → Option Plan → Reply Refusal Plan
find_plan id none = refused (refusal "fallback-edit-target-unknown" (id ∷ []))
find_plan id (some p) = done p

in_catalog : List String → Option String → Bool
in_catalog teams none = false
in_catalog teams (some key) = contains key teams

unfoldable pub missing_models : Registry → List Edge → List String
missing_models r edges =
    keep (λ k. is_none (resolve_model_descriptor r k)) (flat_map (λ e. e.from ∷ e.to ∷ []) edges)

unfoldable pub names_unknown_team : List String → Party → Bool
unfolding in_catalog
names_unknown_team teams target = str_eq target.kind "team" && not (in_catalog teams target.key)

unfoldable pub check_authored : FallbackPolicy → Plan → Authoring → Reply Refusal Unit
unfolding same_target missing_models names_unknown_team
check_authored s new a = do
  refuse_if (any (λ p. same_target p.target new.target) s.plans)
      (refusal "fallback-add-target-already-governed" [])
  refuse_if (names_unknown_team a.team_catalog new.target)
      (refusal "fallback-add-team-unknown" (or_default new.target.key "" ∷ []))
  refuse_if (any (λ _. true) (missing_models a.registry new.edges))
      (refusal "fallback-add-model-unregistered" (unique (missing_models a.registry new.edges)))

unfoldable pub check_edit : PlanChanges → Instant → Reply Refusal Unit
unfolding no_keys
check_edit c at = do
  ensure (is_instant at) "at must be an ISO-8601 instant."
  refuse_if (any (λ _. true) c.unknown) (refusal "fallback-edit-field-unknown" c.unknown)
  refuse_if (no_keys c) (refusal "fallback-edit-no-change" [])

module _ (compare : String → String → Comparison) where
  unfoldable pub commit_plans :
      FallbackPolicy → List Plan → Instant → ℕ → Reply Refusal FallbackPolicy
  unfolding accepted_policy next_policy
  commit_plans s plans at retention = do
    expires ← to_iso (ms at + retention * 1000)
    accepted_policy
        (assert_fallback_policy_snapshot_v1 compare (next_policy s at expires plans) at none)

  unfoldable pub add_fallback_plan :
      FallbackPolicy → Draft → Authoring → Instant → ℕ → Reply Refusal FallbackPolicy
  unfolding commit_plans created promises_in_vain has_plan_id check_authored
  add_fallback_plan s d a at retention = do
    ensure (is_instant at) "at must be an ISO-8601 instant."
    refuse_if (any (λ _. true) d.unknown) (refusal "fallback-edit-field-unknown" d.unknown)
    refuse_if (any (has_plan_id d.plan_id) s.plans)
        (refusal "fallback-add-plan-exists" (d.plan_id ∷ []))
    refuse_if (promises_in_vain (created compare d a at))
        (refusal "fallback-edit-notice-requires-preferred" [])
    next ←
        commit_plans s
          (sort_by (λ p q. precedes compare p.plan_id q.plan_id)
            (s.plans ++ created compare d a at ∷ []))
          at retention
    check_authored s (created compare d a at) a
    done next

  unfoldable pub edit_fallback_plan :
      FallbackPolicy → String → PlanChanges → Instant → ℕ → Reply Refusal FallbackPolicy
  unfolding check_edit find_plan has_plan_id edited promises_in_vain all_same commit_plans
      swapped_plan
  edit_fallback_plan s id c at retention = do
    check_edit c at
    target ← find_plan id (find (has_plan_id id) s.plans)
    refuse_if (promises_in_vain (edited compare target c))
        (refusal "fallback-edit-notice-requires-preferred" [])
    refuse_if (all_same compare target (edited compare target c) c)
        (refusal "fallback-edit-no-change" [])
    commit_plans s (map (swapped_plan id (edited compare target c)) s.plans) at retention
