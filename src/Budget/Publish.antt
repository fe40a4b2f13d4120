-- ===== src/Budget/Publish.antt =====
-- `publishBudgets` of budget-publication.mjs: budgets become the quotas, the warning and the rate tiers
-- that the gateway enforces.
use azure_llm_governance_api.Prelude.{
  ℕ, ◌+◌, ◌*◌, ◌/◌, String, ◌<>◌, Bool, true, false, not, ◌&&◌, Option, none, some, List, [], ◌∷◌,
  ◌++◌, map, min, str_eq, leb, ltb, if◌then◌else◌, or_default, any, keep, Reply, done, thrown,
  ensure, type_error, range_error, ◌>>=◌, ◌>>◌,
}
use azure_llm_governance_api.Prelude.Dict.{lookup, insert, values}
use azure_llm_governance_api.Prelude.Time.{Instant}
use azure_llm_governance_api.Prelude.Sets.{contains}
use azure_llm_governance_api.Prelude.Lists.{sort_by}
use azure_llm_governance_api.Fallback.Compile.{Comparison}
use azure_llm_governance_api.Budget.{Tier, Budget, Derivation, derive_token_quota, max_safe, scopes}
use azure_llm_governance_api.Budget.Snapshot.{
  Snapshot, basis_points_full, budget_counter_identity, precedes,
}
use azure_llm_governance_api.Budget.Publication.{
  Limit, Publishing, Publication, unavailable, entry_for, tier_of, limit_of,
}

-- A budget that cannot be enforced is listed and publishes nothing.
unfoldable pub set_aside : Budget → Derivation → Publishing → Publishing
unfolding entry_for
set_aside b d p = record p {
  entries = p.entries ++ entry_for b d none none ∷ [];
  unenforceable =
      p.unenforceable
      ++ (record {
        budget_id = b.budget_id;
        scope = b.scope;
        action = b.action;
        reason_code = d.reason_code;
      })
        ∷ [];
}

-- No tier is undeclared where no codes are declared.
unfoldable pub has_undeclared : Option (List String) → List Tier → Bool
has_undeclared none tiers = false
has_undeclared (some codes) tiers = any (λ t. not (contains t.tier_code codes)) tiers

unfoldable pub undeclared : Derivation → Derivation
undeclared d = record d {
  state = "unenforceable";
  reason_code = some "throttle-tier-undeclared";
  token_quota = none;
}

unfoldable pub publish_throttle :
    Option (List String)
    → Budget
    → Derivation
    → Option (List Tier)
    → Publishing
    → Reply ⊥ Publishing
unfolding has_undeclared undeclared set_aside tier_of entry_for
publish_throttle declared b d none p = thrown (type_error "tiers is not iterable")
publish_throttle declared b d (some tiers) p = done (
    if has_undeclared declared tiers then set_aside b (undeclared d) p else record p {
      entries = p.entries ++ entry_for b d none none ∷ [];
      throttle_tiers = p.throttle_tiers ++ map (tier_of b d) tiers;
    })

-- The quota of a soft warning is the limit and its grace, and the warning stands at the limit.
unfoldable pub soft_quota : String → ℕ → Option ℕ → Reply ⊥ (ℕ × Option ℕ)
soft_quota id configured none =
    thrown (range_error "The number NaN cannot be converted to a BigInt")
soft_quota id configured (some grace) = do
  let enforced = configured * (basis_points_full + grace) / basis_points_full
  ensure (leb enforced max_safe)
      ("budget " <> id <> " soft-warning grace exceeds the maximum token quota.")
  done (enforced, some (configured * 100 / enforced))

unfoldable pub hard_percent : Option ℕ → Option ℕ
hard_percent none = none
hard_percent (some n) = some (n / 100)

unfoldable pub enforced_quota : Budget → ℕ → Reply ⊥ (ℕ × Option ℕ)
unfolding soft_quota hard_percent
enforced_quota b configured =
    if str_eq b.action "SOFT_WARNING"
    then soft_quota b.budget_id configured b.thresholds.grace_basis_points
    else done (configured, hard_percent b.thresholds.warn_at_basis_points)

earlier : ℕ → Option ℕ → Option ℕ
earlier n none = some n
earlier n (some m) = some (min m n)

unfoldable pub warn_at : Option ℕ → Option ℕ → Option ℕ
unfolding earlier
warn_at none warn = warn
warn_at (some n) warn = if leb 1 n && leb n 99 then earlier n warn else warn

-- `incumbent === undefined || enforced < incumbent.tokenQuota`
unfoldable pub is_tighter : ℕ → Option Limit → Bool
is_tighter n none = true
is_tighter n (some l) = ltb n l.token_quota

unfoldable pub keep_tighter : String → Limit → List (String × Limit) → List (String × Limit)
unfolding is_tighter
keep_tighter k l quotas =
    if is_tighter l.token_quota (lookup k quotas) then insert k l quotas else quotas

unfoldable pub publish_quota : Budget → Derivation → ℕ × Option ℕ → Publishing → Publishing
unfolding entry_for warn_at keep_tighter limit_of budget_counter_identity
publish_quota b d (enforced, percent) p = record p {
  entries = p.entries ++ entry_for b d (some enforced) percent ∷ [];
  quota_by_key = keep_tighter (budget_counter_identity b) (limit_of b enforced) p.quota_by_key;
  warn_percent = warn_at percent p.warn_percent;
}

unfoldable pub publish_derived :
    Option (List String) → Budget → Derivation → Publishing → Reply ⊥ Publishing
unfolding publish_throttle publish_quota enforced_quota set_aside
publish_derived declared b d p =
    if not (str_eq d.state "enforceable")
    then done (set_aside b d p)
    else if str_eq b.action "THROTTLE"
    then publish_throttle declared b d b.thresholds.tiers p
    else enforced_quota b (or_default d.token_quota 0) >>= λ q. done (publish_quota b d q p)

pub record Setting : Type 0 where
  pub allowed_models : List String
  pub declared_tier_codes : Option (List String)
  pub evaluation_time : Instant

unfoldable pub publish_budget : Setting → Budget → Publishing → Reply ⊥ Publishing
unfolding derive_token_quota publish_derived
publish_budget c b p = do
  d ← derive_token_quota b c.allowed_models c.evaluation_time
  publish_derived c.declared_tier_codes b d p

unfoldable pub publish_all : Setting → List Budget → Publishing → Reply ⊥ Publishing
unfolding publish_budget
publish_all c [] p = done p
publish_all c (b ∷ bs) p = publish_budget c b p >>= publish_all c bs

abbrev pub nothing_published : Publishing
nothing_published = record {
  entries = [];
  unenforceable = [];
  throttle_tiers = [];
  quota_by_key = [];
  warn_percent = none;
}

-- `SCOPE_ORDER.flatMap(…)`
unfoldable pub in_scope_order :
    (String → String → Comparison) → List String → List Limit → List Limit
in_scope_order compare [] limits = []
in_scope_order compare (s ∷ ss) limits =
    sort_by (λ l m. precedes compare l.model_scope m.model_scope)
      (keep (λ l. str_eq l.scope s) limits)
    ++ in_scope_order compare ss limits

unfoldable pub published : (String → String → Comparison) → Publishing → Publication
unfolding in_scope_order
published compare p = record {
  state = "published";
  reason_code = "budgets-published";
  limits = in_scope_order compare scopes (values p.quota_by_key);
  warn_threshold_percent = p.warn_percent;
  throttle_tiers = p.throttle_tiers;
  entries = p.entries;
  unenforceable = p.unenforceable;
}

unfoldable pub publish_budgets :
    (String → String → Comparison) → Snapshot → Setting → Reply ⊥ Publication
unfolding publish_all published unavailable
publish_budgets compare s c =
    if not (str_eq s.status "complete")
    then done (unavailable ("budget-snapshot-" <> s.status))
    else publish_all c s.budgets nothing_published >>= λ p. done (published compare p)
