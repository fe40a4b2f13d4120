-- ===== src/Budget/Total.antt =====
-- An accepted snapshot is published, unless a grace takes a quota out of the safe integers.
use azure_llm_governance_api.Prelude.{
  ℕ, ◌*◌, ◌/◌, eq_iff, ◌≤◌, String, ◌≡◌, refl, inl, inr, true, false, ◌&&◌, Option, none, some,
  List, [], ◌∷◌, str_eq, if◌then◌else◌, or_default, done, >>-done, Bool-cases, arith, le→leb,
  ensure-true, ensure, All, ◌<>◌, is_none,
}
use azure_llm_governance_api.Prelude.Text.{is_safe_id}
use azure_llm_governance_api.Prelude.Time.{Instant, is_instant}
use azure_llm_governance_api.Prelude.Sets.{contains}
use azure_llm_governance_api.Fallback.Compile.{Comparison}
use azure_llm_governance_api.Budget.{
  Tier, Thresholds, Budget, Derivation, Amount, derive_token_quota, derived, assert_names,
  assert_model_scope, assert_limit, assert_enforceable_budget, is_positive, scopes, actions,
  model_scopes, periods, max_safe,
}
use azure_llm_governance_api.Budget.Snapshot.{
  Snapshot, assert_budget, assert_thresholds, assert_throttle, assert_ladder,
  assert_budget_snapshot_v1, assert_snapshot_head, assert_snapshot_fields, assert_times,
}
use azure_llm_governance_api.Budget.Publication.{Publishing, Publication, unavailable}
use azure_llm_governance_api.Budget.Publish.{
  Setting, publish_budget, publish_all, publish_budgets, publish_derived, publish_throttle,
  publish_quota, hard_percent, set_aside, enforced_quota, soft_quota, nothing_published, published,
}
use azure_llm_governance_api.Budget.Capacity.{capacity, quota_of, quota_of-derived, with_grace}
use azure_llm_governance_api.Fallback.Plans.{parse_time}
use azure_llm_governance_api.Budget.Bounds.{InGrace, grace_bounds, is_soft}
use azure_llm_governance_api.Budget.Entries.{Accepted, Accepted-snapshot}

-- A check passes whatever its path is called.
again_names :
    (b : Budget) (path other : String)
    → assert_names b path ≡ done tt
    → assert_names b other ≡ done tt
unfolding assert_names
again_names b path other h =
    let (e1, h1) = >>-done (ensure (is_safe_id b.budget_id) _) _ h in
    let (e2, h2) = >>-done (ensure (is_positive b.budget_version) _) _ h1 in
    let (e3, h3) = >>-done (ensure (contains b.scope scopes) _) _ h2 in
    let (e4, h4) = >>-done (ensure (contains b.action actions) _) _ h3 in
    let (e5, h5) = >>-done (ensure (contains b.model_scope model_scopes) _) _ h4 in
    let (e6, e7) = >>-done (ensure (contains b.period periods) _) _ h5 in
    rw
      (
        ensure-true _ _ e1,
        ensure-true _ _ e2,
        ensure-true _ _ e3,
        ensure-true _ _ e4,
        ensure-true _ _ e5,
        ensure-true _ _ e6,
        ensure-true _ _ e7,
      )
      refl

again_model_scope :
    (b : Budget) (path other : String)
    → assert_model_scope b path ≡ done tt
    → assert_model_scope b other ≡ done tt
unfolding assert_model_scope
again_model_scope b path other h = ground arith

again_limit :
    (a : Amount) (path other : String)
    → assert_limit a path ≡ done tt
    → assert_limit a other ≡ done tt
unfolding assert_limit
again_limit a path other h = ground arith

again_enforceable :
    (b : Budget) (path other : String)
    → assert_enforceable_budget b path ≡ done tt
    → assert_enforceable_budget b other ≡ done tt
unfolding assert_enforceable_budget
again_enforceable b path other h =
    let (names, rest) = >>-done (assert_names b path) _ h in
    let (scope, limit) = >>-done (assert_model_scope b path) _ rest in
    rw (again_names b path other names, again_model_scope b path other scope)
      (again_limit b.limit (path <> ".limit") (other <> ".limit") limit)

ladder_given :
    (tiers : Option (List Tier)) (path : String)
    → assert_ladder tiers path ≡ done tt
    → (ts : List Tier) × (tiers ≡ some ts)
unfolding assert_ladder
ladder_given none path h = cc
ladder_given (some ts) path h = (ts, refl)

tiers_given :
    (t : Thresholds) (path : String)
    → assert_throttle t path ≡ done tt
    → (tiers : List Tier) × (t.tiers ≡ some tiers)
unfolding assert_throttle
tiers_given t path h =
    ladder_given t.tiers path
      ((>>-done (ensure (is_none t.warn_at_basis_points && is_none t.grace_basis_points) _) _ h).1)

not_other :
    (a : String)
    → str_eq a "THROTTLE" ≡ true
    → (str_eq a "HARD_BLOCK" ≡ false) × (str_eq a "SOFT_WARNING" ≡ false)
not_other a h = rw ((eq_iff a "THROTTLE").0 h) (refl, refl)

throttle_given :
    (b : Budget) (path : String)
    → assert_thresholds b.action b.thresholds path ≡ done tt
    → str_eq b.action "THROTTLE" ≡ true
    → (tiers : List Tier) × (b.thresholds.tiers ≡ some tiers)
unfolding assert_thresholds
throttle_given b path h t =
    let (hard, soft) = not_other b.action t in
    tiers_given b.thresholds path (rw (hard, soft, t) at h)

-- A quota that is a safe integer.
abbrev pub IsSafe : Option ℕ → Type 0
IsSafe none = Unit
IsSafe (some q) = q ≤ max_safe

soft_total :
    (id : String) (n : ℕ) (grace : Option ℕ)
    → InGrace grace
    → with_grace n grace ≤ max_safe
    → (q : ℕ × Option ℕ) × (soft_quota id n grace ≡ done q)
unfolding soft_quota
soft_total id n none g h = absurd g
soft_total id n (some g) (_, _) h = (
  (with_grace n (some g), some (n * 100 / with_grace n (some g))),
  rw (le→leb (with_grace n (some g)) max_safe h) refl,
)

enforced_total :
    (b : Budget) (path : String) (n : ℕ)
    → assert_thresholds b.action b.thresholds path ≡ done tt
    → IsSafe (if is_soft b then some (with_grace n b.thresholds.grace_basis_points) else some n)
    → (q : ℕ × Option ℕ) × (enforced_quota b n ≡ done q)
unfolding enforced_quota
enforced_total b path n ok safe = elim (Bool-cases (is_soft b)) [
  | inl s ↦ rw s (
      soft_total b.budget_id n b.thresholds.grace_basis_points (grace_bounds b path ok s)
        (rw s at safe))
  | inr s ↦ rw s ((n, hard_percent b.thresholds.warn_at_basis_points), refl)
]

throttle_done :
    (declared : Option (List String)) (b : Budget) (d : Derivation) (o : Option (List Tier))
    (p : Publishing) {tiers : List Tier}
    → o ≡ some tiers
    → (p' : Publishing) × (publish_throttle declared b d o p ≡ done p')
unfolding publish_throttle
throttle_done declared b d none p e = cc
throttle_done declared b d (some ts) p e = (_, refl)

derived_total :
    (declared : Option (List String)) (b : Budget) (path : String) (d : Derivation) (p : Publishing)
    → assert_thresholds b.action b.thresholds path ≡ done tt
    → IsSafe (quota_of b d)
    → (p' : Publishing) × (publish_derived declared b d p ≡ done p')
unfolding publish_derived
derived_total declared b path d p ok safe = elim (Bool-cases (str_eq d.state "enforceable")) [
  | inr s ↦ rw s (set_aside b d p, refl)
  | inl s ↦ elim (Bool-cases (str_eq b.action "THROTTLE")) [
    | inl t ↦
        let (tiers, given) = throttle_given b path ok t in
        rw (s, t) (throttle_done declared b d b.thresholds.tiers p given)
    | inr t ↦
        let (q, e) = enforced_total b path (or_default d.token_quota 0) ok (rw (s, t) at safe) in
        rw (s, t, e) (publish_quota b d q p, refl)
  ]
]

budget_total :
    (c : Setting) (b : Budget) (path : String) (p : Publishing)
    → is_instant c.evaluation_time ≡ true
    → assert_budget b path ≡ done tt
    → IsSafe (capacity c.allowed_models b)
    → (p' : Publishing) × (publish_budget c b p ≡ done p')
unfolding publish_budget derive_token_quota assert_budget
budget_total c b path p clock ok safe =
    let (enforceable, thresholds) = >>-done (assert_enforceable_budget b path) _ ok in
    rw (again_enforceable b path "budget" enforceable, clock)
      (derived_total c.declared_tier_codes b (path <> ".thresholds")
        (derived b c.allowed_models c.evaluation_time) p thresholds
        (rw (quota_of-derived b c.allowed_models c.evaluation_time) safe))

each_total :
    (c : Setting) (bs : List Budget) (p : Publishing)
    → is_instant c.evaluation_time ≡ true
    → All Accepted bs
    → All (λ b. IsSafe (capacity c.allowed_models b)) bs
    → (p' : Publishing) × (publish_all c bs p ≡ done p')
unfolding publish_all
each_total c [] p clock a s = (p, refl)
each_total c (b ∷ bs) p clock ((path, ok), a) (safe, s) =
    let (q, first) = budget_total c b path p clock ok safe in rw first (each_total c bs q clock a s)

times_clock : (s : Snapshot) (at : Instant) → assert_times s at ≡ done tt → is_instant at ≡ true
unfolding assert_times parse_time
times_clock s at h = ground arith

head_clock :
    (s : Snapshot) (at : Instant) (tenant : Option String)
    → assert_snapshot_head s at tenant ≡ done tt
    → is_instant at ≡ true
unfolding assert_snapshot_head
head_clock s at tenant h =
    let (_, rest) = >>-done (assert_snapshot_fields s) _ h in
    times_clock s at (>>-done (assert_times s at) _ rest).0

clock_given :
    (compare : String → String → Comparison) (s : Snapshot) (at : Instant) (tenant : Option String)
    {s' : Snapshot}
    → assert_budget_snapshot_v1 compare s at tenant ≡ done s'
    → is_instant at ≡ true
unfolding assert_budget_snapshot_v1
clock_given compare s at tenant h =
    head_clock s at tenant (>>-done (assert_snapshot_head s at tenant) _ h).0

-- An accepted snapshot is published, if what its budgets allow are safe integers.
pub publish_budgets_total :
    (compare : String → String → Comparison) (s : Snapshot) (tenant : Option String) (c : Setting)
    {s' : Snapshot}
    → assert_budget_snapshot_v1 compare s c.evaluation_time tenant ≡ done s'
    → All (λ b. IsSafe (capacity c.allowed_models b)) s.budgets
    → (p : Publication) × (publish_budgets compare s c ≡ done p)
unfolding publish_budgets
publish_budgets_total compare s tenant c ok safe = elim (Bool-cases (str_eq s.status "complete")) [
  | inr e ↦ rw e (unavailable ("budget-snapshot-" <> s.status), refl)
  | inl e ↦
      let (p, ran) =
        each_total c s.budgets nothing_published (clock_given compare s c.evaluation_time tenant ok)
          (Accepted-snapshot compare s c.evaluation_time tenant ok) safe in
      rw (e, ran) (published compare p, refl)
]
