-- ===== src/Fallback/Edits.antt =====
-- What each accepted call of fallback-plan-edit.mjs commits.
use azure_llm_governance_api.Prelude.{
  ℕ, ◌+◌, ◌*◌, String, ◌≡◌, ap, ◌∙◌, true, false, Option, none, some, List, [], ◌∷◌, ◌++◌, map,
  find, any, Reply, done, refused, thrown, ensure, refuse_if, >>-done, >>=-eq-done, done_injective,
  refuse_if-false, arith,
}
use azure_llm_governance_api.Prelude.Time.{Instant, is_instant, ms, to_iso}
use azure_llm_governance_api.Prelude.Lists.{sort_by}
use azure_llm_governance_api.Fallback.{Plan}
use azure_llm_governance_api.Fallback.Compile.{Comparison}
use azure_llm_governance_api.Fallback.Snapshot.{
  FallbackPolicy, assert_fallback_policy_snapshot_v1, assert_policy_fields, assert_policy_times,
  in_tenant, max_plans, assert_policy_degraded, assert_plans,
}
use azure_llm_governance_api.Budget.Snapshot.{precedes, assert_sorted_unique}
use azure_llm_governance_api.Fallback.Authored.{
  Refusal, refusal, PlanChanges, Draft, Authoring, has_plan_id, same_target, promises_in_vain,
  created, edited, all_same,
}
use azure_llm_governance_api.Fallback.Edit.{
  accepted_policy, next_policy, swapped_plan, find_plan, check_authored, commit_plans,
  add_fallback_plan, check_edit, edit_fallback_plan,
}
use azure_llm_governance_api.Prelude.{leb, length}

same-assert_fallback_policy :
    (compare : String → String → Comparison) (s : FallbackPolicy) (at : Instant)
    (tenant : Option String) {t : FallbackPolicy}
    → assert_fallback_policy_snapshot_v1 compare s at tenant ≡ done t
    → s ≡ t
unfolding assert_fallback_policy_snapshot_v1
same-assert_fallback_policy compare s at tenant h =
    let (_, h1) = >>-done (assert_policy_fields s) _ h in
    let (_, h2) = >>-done (assert_policy_times s at) _ h1 in
    let (_, h3) = >>-done (ensure (in_tenant s tenant) _) _ h2 in
    let (_, h4) = >>-done (ensure (leb (length s.plans) max_plans) _) _ h3 in
    let (_, h5) = >>-done (assert_policy_degraded s) _ h4 in
    let (_, h6) = >>-done (assert_plans 0 s.plans) _ h5 in
    let (_, h7) =
      >>-done (assert_sorted_unique compare (map (λ p. p.plan_id) s.plans) "fallbackPolicy.plans") _
        h6 in
    done_injective {R = ⊥} _ _ h7

accepted_policy-done :
    (m : Reply ⊥ FallbackPolicy) {t : FallbackPolicy} → accepted_policy m ≡ done t → m ≡ done t
unfolding accepted_policy
accepted_policy-done (done s) h = ap done (done_injective _ _ h)
accepted_policy-done (refused r) h = absurd r
accepted_policy-done (thrown e) h = cc

to_iso-done : (t : ℕ) {at : Instant} → to_iso {R = Refusal} t ≡ done at → some t ≡ at
to_iso-done t h = ground arith

some-find_plan : (id : String) (o : Option Plan) {p : Plan} → find_plan id o ≡ done p → o ≡ some p
unfolding find_plan
some-find_plan id none h = cc
some-find_plan id (some p) h = ap some (done_injective _ _ h)

module _ (compare : String → String → Comparison) (s : FallbackPolicy) (at : Instant)
    (retention : ℕ) where
  pub record Committed (plans : List Plan) (t : FallbackPolicy) : Type 0 where
    pub next : next_policy s at (some (ms at + retention * 1000)) plans ≡ t
    pub valid : assert_fallback_policy_snapshot_v1 compare t at none ≡ done t

  Committed-commit_plans :
      (plans : List Plan) {t : FallbackPolicy}
      → commit_plans compare s plans at retention ≡ done t
      → Committed plans t
  unfolding commit_plans
  Committed-commit_plans plans {t} h =
      let (expires, iso, h1) = >>=-eq-done (to_iso (ms at + retention * 1000)) _ h in
      let ok = accepted_policy-done _ h1 in
      let same = same-assert_fallback_policy compare _ at none ok in
      record { next = rw (to_iso-done _ iso) same; valid = rw same at ok }

  -- What an addition has made sure of.
  pub Committed-add :
      (d : Draft) (a : Authoring) {t : FallbackPolicy}
      → add_fallback_plan compare s d a at retention ≡ done t
      → Committed
          (sort_by
            (λ p q. precedes compare p.plan_id q.plan_id)
            (s.plans ++ created compare d a at ∷ []))
          t
        × (any (λ p. same_target p.target d.target) s.plans ≡ false)
        × (promises_in_vain (created compare d a at) ≡ false)
  unfolding add_fallback_plan created check_authored
  Committed-add d a {t} h =
      let new : Plan = created compare d a at in
      let (_, h1) = >>-done (ensure (is_instant at) _) _ h in
      let (_, h2) =
        >>-done
          (refuse_if (any (λ _. true) d.unknown) (refusal "fallback-edit-field-unknown" d.unknown))
          _ h1 in
      let (_, h3) =
        >>-done
          (refuse_if (any (has_plan_id d.plan_id) s.plans)
            (refusal "fallback-add-plan-exists" (d.plan_id ∷ [])))
          _ h2 in
      let (plain, h4) =
        >>-done
          (refuse_if (promises_in_vain new) (refusal "fallback-edit-notice-requires-preferred" []))
          _ h3 in
      let (u, made, h5) = >>=-eq-done (commit_plans compare s _ at retention) _ h4 in
      let (checked, h6) = >>-done (check_authored s new a) _ h5 in
      let (free, _) =
        >>-done
          (refuse_if (any (λ p. same_target p.target new.target) s.plans)
            (refusal "fallback-add-target-already-governed" []))
          _ checked in
      (Committed-commit_plans _ (made ∙ h6), refuse_if-false _ _ free, refuse_if-false _ _ plain)

  pub Committed-edit :
      (id : String) (c : PlanChanges) {t : FallbackPolicy}
      → edit_fallback_plan compare s id c at retention ≡ done t
      → (target : Plan) × (find (has_plan_id id) s.plans ≡ some target)
        × Committed (map (swapped_plan id (edited compare target c)) s.plans) t
        × (promises_in_vain (edited compare target c) ≡ false)
  unfolding edit_fallback_plan
  Committed-edit id c h =
      let (_, h1) = >>-done (check_edit c at) _ h in
      let (target, found, h2) = >>=-eq-done (find_plan id (find (has_plan_id id) s.plans)) _ h1 in
      let (plain, h3) =
        >>-done
          (refuse_if (promises_in_vain (edited compare target c))
            (refusal "fallback-edit-notice-requires-preferred" []))
          _ h2 in
      let (_, h4) =
        >>-done
          (refuse_if (all_same compare target (edited compare target c) c)
            (refusal "fallback-edit-no-change" []))
          _ h3 in
      (target, some-find_plan id _ found, Committed-commit_plans _ h4, refuse_if-false _ _ plain)
