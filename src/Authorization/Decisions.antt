-- ===== src/Authorization/Decisions.antt =====
-- What a decision of the evaluator means, whatever the evidence.
use azure_llm_governance_api.Prelude.{
  ℕ, String, ◌≡◌, ◌≢◌, Bool, true, not, ◌&&◌, ◌||◌, List, [], ◌∷◌, any, every, arith, done, is_none,
}
use azure_llm_governance_api.Prelude.Sets.{contains}
use azure_llm_governance_api.Authorization.{
  Binding, Principal, AssignmentSnapshot, EntitlementSnapshot,
}
use azure_llm_governance_api.Authorization.Rules.{
  is_organization, is_grant, resolve_model_allowlist,
}
use azure_llm_governance_api.Authorization.Evaluator.{
  allow, no_rates, Decision, evaluate_effective_entitlement_bindings, is_strict_membership_eligible,
  get_snapshot_authority_reason, applicable_bindings, evaluate_governance_authorization,
}
use azure_llm_governance_api.Authorization.Allowlist.{grants_model, contains-allowlist}

-- A decision other than `allow` carries neither a model nor a rate; an `allow` carries a model.
pub record IsConsistent (d : Decision) : Type 0 where
  pub refused_empty : d.decision ≢ allow → (d.model_allowlist ≡ []) × (d.limits ≡ no_rates)
  pub allowed_some : d.decision ≡ allow → d.model_allowlist ≢ []

effective_consistent :
    (bs : List Binding)
    → let e = evaluate_effective_entitlement_bindings bs in
      (e.decision ≢ allow → (e.model_allowlist ≡ []) × (e.limits ≡ no_rates))
      × (e.decision ≡ allow
          → (e.model_allowlist ≢ []) × (e.model_allowlist ≡ resolve_model_allowlist bs))
unfolding evaluate_effective_entitlement_bindings
effective_consistent [] = ground arith
effective_consistent (b ∷ bs) = ground arith

effective-models :
    (bs : List Binding)
    → any is_grant bs ≡ true
    → (evaluate_effective_entitlement_bindings bs).model_allowlist ≡ resolve_model_allowlist bs
unfolding evaluate_effective_entitlement_bindings
effective-models [] h = cc
effective-models (b ∷ bs) h = ground arith

-- Whatever the evaluator returns, an `allow` carries at least one model, and any other decision carries
-- neither a model nor a rate.
pub evaluate-IsConsistent :
    (p : Principal) (a : AssignmentSnapshot) (e : EntitlementSnapshot) (now : ℕ) {d : Decision}
    → evaluate_governance_authorization p a e now ≡ done d
    → IsConsistent d
unfolding evaluate_governance_authorization
evaluate-IsConsistent p a e now h =
    ground (arith, effective_consistent (applicable_bindings p e now))

any-grant :
    (q : Binding → Bool) (bs : List Binding)
    → any (λ b. is_grant b && q b) bs ≡ true
    → any is_grant bs ≡ true
any-grant q [] h = h
any-grant q (b ∷ bs) h = ground (arith, any-grant q bs)

-- A caller may use a model exactly when the membership evidence is complete and current, so are both
-- snapshots, and of the bindings that are active and match the caller some are organization-wide, all
-- of those allow the model, and one that is narrower allows it too.
pub allowed_model :
    (p : Principal) (a : AssignmentSnapshot) (e : EntitlementSnapshot) (now : ℕ) (m : String)
    {d : Decision}
    → evaluate_governance_authorization p a e now ≡ done d
    → let bs = applicable_bindings p e now in
      contains m d.model_allowlist ≡ (
        is_strict_membership_eligible p now
        && (is_none (get_snapshot_authority_reason a.status a.expires_at now "assignment")
            && (is_none (get_snapshot_authority_reason e.status e.expires_at now "entitlement")
                && (any is_organization bs
                    && (every (λ b. not (is_organization b) || grants_model m b) bs
                        && any (λ b. is_grant b && grants_model m b) bs)))))
unfolding evaluate_governance_authorization
allowed_model p a e now m h =
    let bs = applicable_bindings p e now in
    ground (arith, effective-models bs, contains-allowlist m bs, any-grant (grants_model m) bs)
