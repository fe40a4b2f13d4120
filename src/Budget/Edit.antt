-- ===== src/Budget/Edit.antt =====
-- `editBudget`, `addBudget` and `removeBudget` of budget-edit.mjs: one budget changed, added or removed,
-- as the next version of the whole snapshot.
use azure_llm_governance_api.Prelude.{
  suc, ◌+◌, ◌*◌, String, true, not, ◌&&◌, Option, none, some, List, [], ◌∷◌, ◌++◌, map, str_eq,
  if◌then◌else◌, find, any, keep, Reply, done, refused, thrown, Error, type_error, range_error,
  coded_error, ensure, refuse_if, for_each, ◌>>=◌, ◌>>◌,
}
use azure_llm_governance_api.Prelude.Text.{is_code}
use azure_llm_governance_api.Prelude.Time.{Instant, is_instant, ms, to_iso}
use azure_llm_governance_api.Prelude.Lists.{sort_by}
use azure_llm_governance_api.Fallback.Compile.{Comparison}
use azure_llm_governance_api.Budget.{Budget}
use azure_llm_governance_api.Budget.Snapshot.{Snapshot, precedes, assert_budget_snapshot_v1}
use azure_llm_governance_api.Budget.Edited.{
  Refusal, Changes, refusal, EditCall, assert_declared_throttle_tier_codes, coverage_of, has_id,
  is_unchanged, check_changes, edited, with_version, same_budget,
}

unfoldable pub successor : Snapshot → Instant → Instant → List Budget → Snapshot
successor s at expires budgets = record {
  contract_version = s.contract_version;
  snapshot_id = s.snapshot_id;
  tenant_id = s.tenant_id;
  version = suc s.version;
  status = s.status;
  captured_at = at;
  expires_at = expires;
  source_revision = s.source_revision;
  reason = s.reason;
  budgets = budgets;
}

message_of : Error → String
message_of (type_error m) = m
message_of (range_error m) = m
message_of (coded_error m _) = m

-- `try { assertBudgetSnapshotV1(…) } catch (error) { refuse(…, error.message) }`
unfoldable pub validated : Reply ⊥ Snapshot → Reply Refusal Snapshot
unfolding message_of
validated (done s) = done s
validated (refused r) = absurd r
validated (thrown e) = refused (refusal "budget-edit-result-invalid" (message_of e ∷ []))

unfoldable pub replaced : String → Budget → Budget → Budget
unfolding has_id
replaced id new b = if has_id id b then new else b

unfoldable pub supply_target : String → Option Budget → Reply Refusal Budget
supply_target id none = refused (refusal "budget-edit-target-unknown" (id ∷ []))
supply_target id (some b) = done b

unfoldable pub check_call : Changes → Instant → Reply Refusal Unit
unfolding is_unchanged
check_call c at = do
  ensure (is_instant at) "at must be an ISO-8601 instant."
  refuse_if (any (λ _. true) c.unknown) (refusal "budget-edit-field-unknown" c.unknown)
  refuse_if (is_unchanged c) (refusal "budget-edit-no-change" [])

module _ (compare : String → String → Comparison) where
  unfoldable pub next_edited :
      Snapshot → String → Budget → Budget → EditCall → Reply Refusal Snapshot
  unfolding validated successor replaced coverage_of has_id
  next_edited s id target new call = do
    refuse_if (any (λ b. not (has_id id b) && str_eq (coverage_of b) (coverage_of new)) s.budgets)
        (refusal "budget-edit-duplicate-coverage" (coverage_of new ∷ []))
    expires ← to_iso (ms call.at + call.retention * 1000)
    next ← validated (
        assert_budget_snapshot_v1 compare
          (successor s call.at expires (map (replaced id new) s.budgets)) call.at none)
    assert_declared_throttle_tier_codes new call.declared
    refuse_if (same_budget (with_version new target.budget_version) target)
        (refusal "budget-edit-no-change" [])
    done next

  unfoldable pub edit_budget : Snapshot → String → Changes → EditCall → Reply Refusal Snapshot
  unfolding check_call supply_target check_changes next_edited has_id
  edit_budget s id c call = do
    check_call c call.at
    target ← supply_target id (find (has_id id) s.budgets)
    check_changes target c
    next_edited s id target (edited target c) call

  unfoldable pub next_snapshot : Snapshot → List Budget → EditCall → Reply Refusal Snapshot
  unfolding validated successor assert_declared_throttle_tier_codes
  next_snapshot s budgets call = do
    expires ← to_iso (ms call.at + call.retention * 1000)
    next ← validated (
        assert_budget_snapshot_v1 compare
          (successor s call.at expires
            (sort_by (λ a b. precedes compare a.budget_id b.budget_id) budgets))
          call.at none)
    for_each (λ b. assert_declared_throttle_tier_codes b call.declared) budgets
    done next

  unfoldable pub add_budget : Snapshot → Budget → EditCall → Reply Refusal Snapshot
  unfolding next_snapshot coverage_of has_id with_version
  add_budget s new call = do
    ensure (is_instant call.at) "at must be an ISO-8601 instant."
    refuse_if (any (has_id new.budget_id) s.budgets)
        (refusal "budget-edit-duplicate-budget" (new.budget_id ∷ []))
    refuse_if (any (λ b. str_eq (coverage_of b) (coverage_of new)) s.budgets)
        (refusal "budget-edit-duplicate-coverage" (coverage_of new ∷ []))
    next_snapshot s (s.budgets ++ with_version new 1 ∷ []) call

  -- The call passes no tier codes on.
  unfoldable pub remove_budget : Snapshot → String → String → EditCall → Reply Refusal Snapshot
  unfolding next_snapshot has_id
  remove_budget s id reason call = do
    ensure (is_instant call.at) "at must be an ISO-8601 instant."
    refuse_if (not (is_code reason)) (refusal "budget-edit-reason-required" [])
    refuse_if (not (any (has_id id) s.budgets)) (refusal "budget-edit-target-unknown" (id ∷ []))
    next_snapshot s (keep (λ b. not (has_id id b)) s.budgets)
        record { at = call.at; retention = call.retention; declared = none }
