-- ===== src/Budget/Snapshot.antt =====
-- `assertThresholds`, `assertBudget` and `assertBudgetSnapshotV1` of budget-publication.mjs. The order
-- of `localeCompare` is a parameter.
use azure_llm_governance_api.Prelude.{
  ℕ, suc, ◌*◌, String, ◌<>◌, Bool, true, false, not, ◌&&◌, ◌||◌, Option, none, some, List, [], ◌∷◌,
  map, str_eq, leb, ltb, if◌then◌else◌, is_none, length, Reply, done, thrown, ensure, type_error,
  range_error, ◌>>=◌, ◌>>◌,
}
use azure_llm_governance_api.Prelude.Text.{is_safe_id, is_tier_code, index_text}
use azure_llm_governance_api.Prelude.Time.{Instant}
use azure_llm_governance_api.Prelude.Sets.{contains}
use azure_llm_governance_api.Prelude.Lists.{sort_by}
use azure_llm_governance_api.Fallback.Compile.{Comparison, less}
use azure_llm_governance_api.Fallback.Plans.{parse_time}
use azure_llm_governance_api.Budget.{
  Tier, Thresholds, Budget, is_positive, assert_enforceable_budget,
}

abbrev pub basis_points_full : ℕ
basis_points_full = 10_000

abbrev pub max_tiers : ℕ
max_tiers = 4

abbrev pub max_budgets : ℕ
max_budgets = 16

unfoldable pub assert_basis_points : ℕ → ℕ → ℕ → String → Reply ⊥ Unit
assert_basis_points n low high path =
    ensure (leb low n && leb n high) (path <> " must be a whole number of basis points.")

unfoldable pub assert_warning : Option ℕ → String → Reply ⊥ Unit
unfolding assert_basis_points
assert_warning none path = done tt
assert_warning (some n) path = assert_basis_points n 1 9999 (path <> ".warnAtBasisPoints")

unfoldable pub assert_grace : Option ℕ → String → Reply ⊥ Unit
unfolding assert_basis_points
assert_grace none path = thrown (type_error (path <> ".graceBasisPoints is required."))
assert_grace (some n) path = assert_basis_points n 1 basis_points_full (path <> ".graceBasisPoints")

-- `tiers.forEach(…)`, with the tier before and the codes so far.
unfoldable pub assert_tiers : String → ℕ → ℕ → List String → List Tier → Reply ⊥ Unit
unfolding assert_basis_points index_text
assert_tiers path index previous codes [] = done tt
assert_tiers path index previous codes (t ∷ ts) = do
  let tier_path = path <> ".tiers[" <> index_text index <> "]"
  assert_basis_points t.at_basis_points 1 (2 * basis_points_full) (tier_path <> ".atBasisPoints")
  ensure (ltb previous t.at_basis_points)
      (path <> ".tiers must be strictly ascending by atBasisPoints.")
  ensure (is_tier_code t.tier_code)
      (tier_path <> ".tierCode must be a bounded lower-case tier code.")
  ensure (not (contains t.tier_code codes)) (path <> " repeats tierCode " <> t.tier_code <> ".")
  assert_tiers path (suc index) t.at_basis_points (t.tier_code ∷ codes) ts

unfoldable pub assert_ladder : Option (List Tier) → String → Reply ⊥ Unit
unfolding assert_tiers
assert_ladder none path = thrown (type_error (path <> ".tiers is required."))
assert_ladder (some tiers) path = do
  ensure (leb 1 (length tiers) && leb (length tiers) max_tiers)
      (path <> ".tiers must declare between 1 and 4 entries.")
  assert_tiers path 0 0 [] tiers

-- The three cases of `assertThresholds`, with `assertExactKeys` on the keys that may be there.
unfoldable pub assert_hard_block : Thresholds → String → Reply ⊥ Unit
unfolding assert_warning
assert_hard_block t path = do
  ensure (is_none t.grace_basis_points && is_none t.tiers) (path <> " is not allowed.")
  assert_warning t.warn_at_basis_points path

unfoldable pub assert_soft_warning : Thresholds → String → Reply ⊥ Unit
unfolding assert_grace
assert_soft_warning t path = do
  ensure (is_none t.warn_at_basis_points && is_none t.tiers) (path <> " is not allowed.")
  assert_grace t.grace_basis_points path

unfoldable pub assert_throttle : Thresholds → String → Reply ⊥ Unit
unfolding assert_ladder
assert_throttle t path = do
  ensure (is_none t.warn_at_basis_points && is_none t.grace_basis_points)
      (path <> " is not allowed.")
  assert_ladder t.tiers path

unfoldable pub assert_thresholds : String → Thresholds → String → Reply ⊥ Unit
unfolding assert_hard_block assert_soft_warning assert_throttle
assert_thresholds action t path =
    if str_eq action "HARD_BLOCK"
    then assert_hard_block t path
    else if str_eq action "SOFT_WARNING"
    then assert_soft_warning t path
    else if str_eq action "THROTTLE"
    then assert_throttle t path
    else thrown (type_error (path <> " has no threshold shape for action " <> action <> "."))

unfoldable pub assert_budget : Budget → String → Reply ⊥ Unit
unfolding assert_enforceable_budget assert_thresholds
assert_budget b path = do
  assert_enforceable_budget b path
  assert_thresholds b.action b.thresholds (path <> ".thresholds")

unfoldable pub apim_counter_namespace : String → String
apim_counter_namespace action = if str_eq action "THROTTLE" then "throttle" else "quota"

-- `undefined` is joined as the empty text.
joined_key : Option String → String
joined_key none = ""
joined_key (some k) = k

unfoldable pub counter_identity : String → String → String → Option String → String
unfolding apim_counter_namespace joined_key
counter_identity action scope model_scope model_key =
    apim_counter_namespace action
    <> "|"
    <> scope
    <> "|"
    <> model_scope
    <> "|"
    <> (if str_eq model_scope "per-model" then joined_key model_key else "all")

unfoldable pub budget_counter_identity : Budget → String
budget_counter_identity b = counter_identity b.action b.scope b.model_scope b.model_key

pub record Snapshot : Type 0 where
  pub contract_version : String
  pub snapshot_id : String
  pub tenant_id : String
  pub version : ℕ
  pub status : String
  pub captured_at : Instant
  pub expires_at : Instant
  pub source_revision : String
  pub reason : Option String
  pub budgets : List Budget

abbrev pub statuses : List String
statuses = "complete" ∷ "incomplete" ∷ "stale" ∷ "ambiguous" ∷ "source-unavailable" ∷ []

unfoldable pub budget_path : ℕ → String
unfolding index_text
budget_path index = "budgetSnapshot.budgets[" <> index_text index <> "]"

unfoldable pub assert_budgets : ℕ → List Budget → Reply ⊥ Unit
unfolding assert_budget budget_path
assert_budgets index [] = done tt
assert_budgets index (b ∷ bs) = do
  assert_budget b (budget_path index)
  assert_budgets (suc index) bs

unfoldable pub assert_counters : ℕ → List String → List Budget → Reply ⊥ Unit
unfolding budget_counter_identity budget_path
assert_counters index seen [] = done tt
assert_counters index seen (b ∷ bs) = do
  ensure (not (contains (budget_counter_identity b) seen)) (
      budget_path index <> " duplicates APIM counter identity " <> budget_counter_identity b <> ".")
  assert_counters (suc index) (budget_counter_identity b ∷ seen) bs

abbrev pub precedes : (String → String → Comparison) → String → String → Bool
precedes compare a b = elim (compare a b) [ less ↦ true | _ ↦ false ]

has_duplicate : List String → Bool
has_duplicate [] = false
has_duplicate (x ∷ xs) = contains x xs || has_duplicate xs

same_texts : List String → List String → Bool
same_texts [] [] = true
same_texts (x ∷ xs) (y ∷ ys) = str_eq x y && same_texts xs ys
same_texts _ _ = false

unfoldable pub assert_sorted_unique :
    (String → String → Comparison) → List String → String → Reply ⊥ Unit
unfolding has_duplicate same_texts
assert_sorted_unique compare xs path = do
  ensure (not (has_duplicate xs)) (path <> " contains duplicate entries.")
  ensure (same_texts xs (sort_by (precedes compare) xs)) (path <> " must be sorted.")

abbrev pub ensure_in_range : Bool → String → Reply ⊥ Unit
ensure_in_range true message = done tt
ensure_in_range false message = thrown (range_error message)

unfoldable pub assert_times : Snapshot → Instant → Reply ⊥ Unit
unfolding parse_time
assert_times s at = do
  captured ← parse_time s.captured_at "budgetSnapshot.capturedAt"
  expires ← parse_time s.expires_at "budgetSnapshot.expiresAt"
  now ← parse_time at "evaluationTime"
  ensure_in_range (leb captured now) "budgetSnapshot cannot be captured in the future."
  ensure_in_range (ltb captured expires) "budgetSnapshot capture must precede expiry."
  ensure_in_range (ltb now expires) "budgetSnapshot has expired and carries no authority."

-- A tenant is compared only where the call names one.
tenant_matches : Snapshot → Option String → Bool
tenant_matches s none = true
tenant_matches s (some tenant) = str_eq s.tenant_id tenant

unfoldable pub has_reason : Option String → Bool
has_reason none = false
has_reason (some r) = not (str_eq r "")

unfoldable pub assert_degraded : Snapshot → Reply ⊥ Unit
unfolding has_reason
assert_degraded s =
    if str_eq s.status "complete"
    then done tt
    else ensure (has_reason s.reason) "budgetSnapshot degraded status requires a reason."
      >> ensure (leb (length s.budgets) 0)
          "budgetSnapshot degraded status cannot carry budget records."

unfoldable pub assert_snapshot_fields : Snapshot → Reply ⊥ Unit
assert_snapshot_fields s = do
  ensure (str_eq s.contract_version "v1") "budgetSnapshot.contractVersion must be v1."
  ensure (is_safe_id s.snapshot_id) "budgetSnapshot.snapshotId must be a bounded safe identifier."
  ensure (is_safe_id s.tenant_id) "budgetSnapshot.tenantId must be a bounded safe identifier."
  ensure (is_safe_id s.source_revision)
      "budgetSnapshot.sourceRevision must be a bounded safe identifier."
  ensure (is_positive s.version) "budgetSnapshot.version must be a positive integer."
  ensure (contains s.status statuses) "budgetSnapshot.status is unsupported."

unfoldable pub assert_snapshot_head : Snapshot → Instant → Option String → Reply ⊥ Unit
unfolding assert_snapshot_fields assert_times tenant_matches
assert_snapshot_head s at tenant = do
  assert_snapshot_fields s
  assert_times s at
  ensure (tenant_matches s tenant) "budgetSnapshot.tenantId does not match the calling tenant."
  ensure (leb (length s.budgets) max_budgets) "budgetSnapshot.budgets exceeds 16 entries."

unfoldable pub assert_budget_snapshot_v1 :
    (String → String → Comparison) → Snapshot → Instant → Option String → Reply ⊥ Snapshot
unfolding assert_snapshot_head assert_degraded assert_budgets assert_counters assert_sorted_unique
assert_budget_snapshot_v1 compare s at tenant = do
  assert_snapshot_head s at tenant
  assert_degraded s
  assert_budgets 0 s.budgets
  assert_counters 0 [] s.budgets
  assert_sorted_unique compare (map (λ b. b.budget_id) s.budgets) "budgetSnapshot.budgets"
  done s
