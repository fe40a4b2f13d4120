-- ===== src/Budget/Committed.antt =====
-- What each accepted call of budget-edit.mjs commits: the next snapshot, as its validator accepted it.
use azure_llm_governance_api.Prelude.{
  ℕ, ◌+◌, ◌*◌, String, ◌≡◌, ap, ◌∙◌, true, false, not, Option, none, some, List, [], ◌∷◌, ◌++◌, map,
  find, any, keep, Reply, done, refused, thrown, ensure, refuse_if, for_each, >>-done, >>=-eq-done,
  done_injective, arith, refuse_if-false, Bool, str_eq, ◌&&◌,
}
use azure_llm_governance_api.Prelude.Text.{is_code}
use azure_llm_governance_api.Prelude.Time.{Instant, is_instant, ms, to_iso}
use azure_llm_governance_api.Prelude.Lists.{sort_by}
use azure_llm_governance_api.Fallback.Compile.{Comparison}
use azure_llm_governance_api.Budget.{Budget}
use azure_llm_governance_api.Budget.Snapshot.{
  Snapshot, precedes, assert_budget_snapshot_v1, assert_snapshot_head, assert_degraded,
  assert_budgets, assert_counters, assert_sorted_unique,
}
use azure_llm_governance_api.Budget.Edited.{
  Refusal, Changes, refusal, EditCall, assert_declared_throttle_tier_codes, coverage_of, has_id,
  check_changes, edited, with_version, same_budget,
}
use azure_llm_governance_api.Budget.Edit.{
  successor, validated, replaced, supply_target, check_call, next_edited, edit_budget,
  next_snapshot, add_budget, remove_budget,
}

-- The validator gives back the snapshot it was given.
pub same-assert_budget_snapshot_v1 :
    (compare : String → String → Comparison) (s : Snapshot) (at : Instant) (tenant : Option String)
    {t : Snapshot}
    → assert_budget_snapshot_v1 compare s at tenant ≡ done t
    → s ≡ t
unfolding assert_budget_snapshot_v1
same-assert_budget_snapshot_v1 compare s at tenant h =
    let (_, h1) = >>-done (assert_snapshot_head s at tenant) _ h in
    let (_, h2) = >>-done (assert_degraded s) _ h1 in
    let (_, h3) = >>-done (assert_budgets 0 s.budgets) _ h2 in
    let (_, h4) = >>-done (assert_counters 0 [] s.budgets) _ h3 in
    let (_, h5) =
      >>-done
        (assert_sorted_unique compare (map (λ b. b.budget_id) s.budgets) "budgetSnapshot.budgets") _
        h4 in
    done_injective {R = ⊥} _ _ h5

validated-done : (m : Reply ⊥ Snapshot) {t : Snapshot} → validated m ≡ done t → m ≡ done t
unfolding validated
validated-done (done s) h = ap done (done_injective _ _ h)
validated-done (refused r) h = absurd r
validated-done (thrown e) h = cc

to_iso-done : (t : ℕ) {at : Instant} → to_iso {R = Refusal} t ≡ done at → some t ≡ at
to_iso-done t h = ground arith

not-false : (b : Bool) → not b ≡ false → b ≡ true
not-false b h = ground arith

some-supply_target :
    (id : String) (o : Option Budget) {b : Budget} → supply_target id o ≡ done b → o ≡ some b
unfolding supply_target
some-supply_target id none h = cc
some-supply_target id (some b) h = ap some (done_injective _ _ h)

module _ (compare : String → String → Comparison) (s : Snapshot) where
  pub record Committed (call : EditCall) (budgets : List Budget) (t : Snapshot) : Type 0 where
    pub next : successor s call.at (some (ms call.at + call.retention * 1000)) budgets ≡ t
    pub valid : assert_budget_snapshot_v1 compare t call.at none ≡ done t

  Committed-validated :
      (call : EditCall) (budgets : List Budget) (expires : Instant) {t : Snapshot}
      → to_iso {R = Refusal} (ms call.at + call.retention * 1000) ≡ done expires
      → validated
          (assert_budget_snapshot_v1 compare (successor s call.at expires budgets) call.at none)
        ≡ done t
      → Committed call budgets t
  Committed-validated call budgets expires {t} iso h =
      let ok = validated-done _ h in
      let same = same-assert_budget_snapshot_v1 compare _ call.at none ok in
      record { next = rw (to_iso-done _ iso) same; valid = rw same at ok }

  pub Committed-next_edited :
      (id : String) (target new : Budget) (call : EditCall) {t : Snapshot}
      → next_edited compare s id target new call ≡ done t
      → Committed call (map (replaced id new) s.budgets) t
        × (any (λ b. not (has_id id b) && str_eq (coverage_of b) (coverage_of new)) s.budgets
            ≡ false)
        × (same_budget (with_version new target.budget_version) target ≡ false)
  unfolding next_edited
  Committed-next_edited id target new call h =
      let (apart, h1) =
        >>-done
          (refuse_if
            (any (λ b. not (has_id id b) && str_eq (coverage_of b) (coverage_of new)) s.budgets)
            (refusal "budget-edit-duplicate-coverage" (coverage_of new ∷ [])))
          _ h in
      let (expires, iso, h2) = >>=-eq-done (to_iso (ms call.at + call.retention * 1000)) _ h1 in
      let (next, ok, h3) = >>=-eq-done (validated _) _ h2 in
      let (_, h4) = >>-done (assert_declared_throttle_tier_codes new call.declared) _ h3 in
      let (differs, h5) =
        >>-done
          (refuse_if (same_budget (with_version new target.budget_version) target)
            (refusal "budget-edit-no-change" ([])))
          _ h4 in
      (
        Committed-validated call _ expires iso (ok ∙ h5),
        refuse_if-false _ _ apart,
        refuse_if-false _ _ differs,
      )

  pub Committed-edit :
      (id : String) (c : Changes) (call : EditCall) {t : Snapshot}
      → edit_budget compare s id c call ≡ done t
      → (target : Budget) × (find (has_id id) s.budgets ≡ some target)
        × (next_edited compare s id target (edited target c) call ≡ done t)
  unfolding edit_budget supply_target
  Committed-edit id c call h =
      let (_, h1) = >>-done (check_call c call.at) _ h in
      let (target, found, h2) = >>=-eq-done (supply_target id (find (has_id id) s.budgets)) _ h1 in
      let (_, h3) = >>-done (check_changes target c) _ h2 in
      (target, some-supply_target id _ found, h3)

  pub Committed-next_snapshot :
      (budgets : List Budget) (call : EditCall) {t : Snapshot}
      → next_snapshot compare s budgets call ≡ done t
      → Committed call (sort_by (λ a b. precedes compare a.budget_id b.budget_id) budgets) t
  unfolding next_snapshot
  Committed-next_snapshot budgets call h =
      let (expires, iso, h1) = >>=-eq-done (to_iso (ms call.at + call.retention * 1000)) _ h in
      let (next, ok, h2) = >>=-eq-done (validated _) _ h1 in
      let (_, h3) = >>-done (for_each _ budgets) _ h2 in
      Committed-validated call _ expires iso (ok ∙ h3)

  pub Committed-add :
      (new : Budget) (call : EditCall) {t : Snapshot}
      → add_budget compare s new call ≡ done t
      → (any (has_id new.budget_id) s.budgets ≡ false)
        × (any (λ b. str_eq (coverage_of b) (coverage_of new)) s.budgets ≡ false)
        × (next_snapshot compare s (s.budgets ++ with_version new 1 ∷ []) call ≡ done t)
  unfolding add_budget
  Committed-add new call h =
      let (_, h1) = >>-done (ensure (is_instant call.at) _) _ h in
      let (fresh, h2) =
        >>-done
          (refuse_if (any (has_id new.budget_id) s.budgets)
            (refusal "budget-edit-duplicate-budget" (new.budget_id ∷ [])))
          _ h1 in
      let (apart, h3) =
        >>-done
          (refuse_if (any (λ b. str_eq (coverage_of b) (coverage_of new)) s.budgets)
            (refusal "budget-edit-duplicate-coverage" (coverage_of new ∷ [])))
          _ h2 in
      (refuse_if-false _ _ fresh, refuse_if-false _ _ apart, h3)

  pub Committed-remove :
      (id reason : String) (call : EditCall) {t : Snapshot}
      → remove_budget compare s id reason call ≡ done t
      → (is_code reason ≡ true)
        × (any (has_id id) s.budgets ≡ true)
        × (next_snapshot compare s
              (keep (λ b. not (has_id id b)) s.budgets)
              record { at = call.at; retention = call.retention; declared = none }
            ≡ done t)
  unfolding remove_budget
  Committed-remove id reason call h =
      let (_, h1) = >>-done (ensure (is_instant call.at) _) _ h in
      let (coded, h2) =
        >>-done (refuse_if (not (is_code reason)) (refusal "budget-edit-reason-required" [])) _
          h1 in
      let (known, h3) =
        >>-done
          (refuse_if (not (any (has_id id) s.budgets))
            (refusal "budget-edit-target-unknown" (id ∷ [])))
          _ h2 in
      (not-false _ (refuse_if-false _ _ coded), not-false _ (refuse_if-false _ _ known), h3)
