-- ===== src/Budget/Legacy.antt =====
-- `upgradeLegacyBudgetSnapshotV1` of budget-publication.mjs. Only the budgets of the snapshot are read
-- and written, and each is an object; a requirement keeps the index in place of the path's text.
use azure_llm_governance_api.Prelude.{
  ℕ, suc, String, ◌<>◌, Bool, not, ◌&&◌, Option, none, some, List, [], ◌∷◌, ◌++◌, map, str_eq, ◌==◌,
  if◌then◌else◌, is_none, Reply, done, refused, ◌>>◌,
}
use azure_llm_governance_api.Prelude.Sets.{contains}
use azure_llm_governance_api.Budget.{
  Budget, accounting_basis_name, is_per_model, is_principal_scope,
}
use azure_llm_governance_api.Budget.Snapshot.{
  Snapshot, apim_counter_namespace, budget_counter_identity,
}

-- `legacyShape`, and the index and the end of `path`.
pub record Requirement : Type 0 where
  pub legacy_shape : String
  pub index : ℕ
  pub field : String

abbrev requirement : String → ℕ → String → Requirement
requirement shape index field = record { legacy_shape = shape; index = index; field = field }

unfoldable pub legacy_migration_requirement : Budget → ℕ → Option Requirement
legacy_migration_requirement b index =
    if b.limit.amount == 0
    then some (requirement "zero-token-limit" index ".limit.amount")
    else if is_per_model b && is_principal_scope b
    then some (requirement (b.scope <> "-per-model") index "")
    else if str_eq b.model_scope "all-models" && not (is_none b.model_key)
    then some (requirement "all-models-with-model-key" index ".modelKey")
    else if is_per_model b && is_none b.model_key
    then some (requirement "per-model-without-model-key" index ".modelKey")
    else none

-- A token budget from before the accounting basis was stated.
unfoldable pub is_legacy : Budget → Bool
is_legacy b =
    is_none b.accounting_basis && (str_eq b.limit.unit "tokens" && is_none b.limit.currency)

unfoldable pub upgrade_budget : Budget → Budget
unfolding is_legacy
upgrade_budget b =
    if is_legacy b then record b { accounting_basis = some accounting_basis_name } else b

-- The requirements of the legacy budgets, in their order.
as_list : Option Requirement → List Requirement
as_list none = []
as_list (some r) = r ∷ []

unfoldable pub legacy_requirements : ℕ → List Budget → List Requirement
unfolding legacy_migration_requirement is_legacy as_list
legacy_requirements index [] = []
legacy_requirements index (b ∷ bs) =
    (if is_legacy b then as_list (legacy_migration_requirement b index) else [])
    ++ legacy_requirements (suc index) bs

unfoldable pub counter_requirements : ℕ → List String → List Budget → List Requirement
unfolding budget_counter_identity apim_counter_namespace
counter_requirements index seen [] = []
counter_requirements index seen (b ∷ bs) =
    let k = budget_counter_identity b in
    let rest = counter_requirements (suc index) (if contains k seen then seen else k ∷ seen) bs in
    if contains k seen
    then requirement ("duplicate-" <> apim_counter_namespace b.action <> "-counter") index "" ∷ rest
    else rest

-- `LegacyBudgetMigrationRequiredError` is a refusal with the requirements.
unfoldable pub require_none : List Requirement → Reply (List Requirement) Unit
require_none [] = done tt
require_none (r ∷ rs) = refused (r ∷ rs)

unfoldable pub upgrade_legacy_budget_snapshot_v1 : Snapshot → Reply (List Requirement) Snapshot
unfolding legacy_requirements counter_requirements require_none upgrade_budget
upgrade_legacy_budget_snapshot_v1 s = do
  let budgets = map upgrade_budget s.budgets
  require_none (legacy_requirements 0 s.budgets)
  require_none (counter_requirements 0 [] budgets)
  done (record s { budgets = budgets })
