-- ===== src/Budget/Bounds.antt =====
-- The quota and the warning of a budget that has passed `assertBudget`.
use native.Mathlib.Nat.{le-div_iff_mul-le, div-mul-le_self, lt-mul-div-succ, div-le_of_le-mul}
use azure_llm_governance_api.Prelude.{
  ℕ, ◌+◌, ◌*◌, ◌/◌, ◌≤◌, ◌<◌, String, ◌<>◌, ◌≡◌, refl, inl, inr, Bool, true, false, ◌&&◌, Option,
  none, some, str_eq, leb, leb→le, done, ensure, ensure-true, >>-done, done_injective, Bool-cases,
  arith, eq_iff, is_none,
}
use azure_llm_governance_api.Budget.{
  Amount, Thresholds, Budget, assert_enforceable_budget, assert_limit, assert_names,
  assert_model_scope, max_safe,
}
use azure_llm_governance_api.Budget.Snapshot.{
  assert_budget, assert_thresholds, assert_soft_warning, assert_hard_block, assert_throttle,
  assert_warning, assert_grace, assert_basis_points,
}
use azure_llm_governance_api.Budget.Publish.{enforced_quota, soft_quota, hard_percent}
use azure_llm_governance_api.Budget.Capacity.{with_grace}

-- An action has one name.
pub differ : (a : String) → str_eq a "SOFT_WARNING" ≡ true → str_eq a "HARD_BLOCK" ≡ false
differ a h = rw ((eq_iff a "SOFT_WARNING").0 h) refl

abbrev pub is_soft : Budget → Bool
is_soft b = str_eq b.action "SOFT_WARNING"

-- A warning stands at or before the limit that was configured; that of a soft warning stands in the
-- upper half of the quota, and at most one percent of it before the limit.
abbrev pub Warned : Budget → ℕ → Option ℕ → Type 0
Warned b q none = Unit
Warned b q (some w) =
    (w ≤ 100)
    × (w * q ≤ b.limit.amount * 100)
    × (is_soft b ≡ true → (50 ≤ w) × (b.limit.amount * 100 < q * (w + 1)))

abbrev pub Bounded : Budget → Option ℕ → Option ℕ → Type 0
Bounded b none w = w ≡ none
Bounded b (some q) w =
    (b.limit.amount ≤ q) × (q ≤ 2 * b.limit.amount) × (q ≤ max_safe) × Warned b q w

limit_bounds :
    (a : Amount) (path : String)
    → assert_limit a path ≡ done tt
    → (1 ≤ a.amount) × (a.amount ≤ max_safe)
unfolding assert_limit
limit_bounds a path h = ground arith

amount_bounds :
    (b : Budget) (path : String)
    → assert_enforceable_budget b path ≡ done tt
    → (1 ≤ b.limit.amount) × (b.limit.amount ≤ max_safe)
unfolding assert_enforceable_budget
amount_bounds b path h =
    let (_, rest) = >>-done (assert_names b path) _ h in
    limit_bounds b.limit (path <> ".limit") (>>-done (assert_model_scope b path) _ rest).1

abbrev pub InGrace : Option ℕ → Type 0
InGrace none = ⊥
InGrace (some g) = (1 ≤ g) × (g ≤ 10_000)

abbrev InWarning : Option ℕ → Type 0
InWarning none = Unit
InWarning (some n) = n ≤ 9999

in_grace : (grace : Option ℕ) (path : String) → assert_grace grace path ≡ done tt → InGrace grace
unfolding assert_grace
in_grace none path h = cc
in_grace (some g) path h = ground arith

grace_of :
    (t : Thresholds) (path : String)
    → assert_soft_warning t path ≡ done tt
    → InGrace t.grace_basis_points
unfolding assert_soft_warning
grace_of t path h =
    in_grace t.grace_basis_points path
      ((>>-done (ensure (is_none t.warn_at_basis_points && is_none t.tiers) _) _ h).1)

pub grace_bounds :
    (b : Budget) (path : String)
    → assert_thresholds b.action b.thresholds path ≡ done tt
    → is_soft b ≡ true
    → InGrace b.thresholds.grace_basis_points
unfolding assert_thresholds
grace_bounds b path h soft = grace_of b.thresholds path (rw (differ b.action soft, soft) at h)

grace_quota : (n g : ℕ) → g ≤ 10_000 → let q = with_grace n (some g) in (n ≤ q) × (q ≤ 2 * n)
grace_quota n g h = (
  (le-div_iff_mul-le {k = 10_000} (omega arith)).1 (grind arith),
  div-le_of_le-mul 10_000 (grind arith),
)

percent_bounds :
    (n q : ℕ)
    → 1 ≤ n
    → n ≤ q
    → q ≤ 2 * n
    → (n * 100 / q ≤ 100)
      × (n * 100 / q * q ≤ n * 100)
      × (50 ≤ n * 100 / q)
      × (n * 100 < q * (n * 100 / q + 1))
percent_bounds n q p low high =
    let positive : 0 < q = omega arith in
    (
      div-le_of_le-mul q (omega arith),
      div-mul-le_self (n * 100) q,
      (le-div_iff_mul-le positive).1 (omega arith),
      lt-mul-div-succ (n * 100) positive,
    )

grace_arith :
    (n g : ℕ)
    → 1 ≤ n
    → g ≤ 10_000
    → let q = with_grace n (some g) in
      (n ≤ q)
      × (q ≤ 2 * n)
      × (n * 100 / q ≤ 100)
      × (n * 100 / q * q ≤ n * 100)
      × (50 ≤ n * 100 / q)
      × (n * 100 < q * (n * 100 / q + 1))
grace_arith n g p h =
    let (low, high) = grace_quota n g h in
    let (a, b, c, d) = percent_bounds n (with_grace n (some g)) p low high in
    (low, high, a, b, c, d)

quota-InGrace :
    (b : Budget) (id : String) (grace : Option ℕ) {q : ℕ × Option ℕ}
    → 1 ≤ b.limit.amount
    → InGrace grace
    → soft_quota id b.limit.amount grace ≡ done q
    → Bounded b (some q.0) q.1
unfolding soft_quota
quota-InGrace b id none p g h = absurd g
quota-InGrace b id (some g) {q} p (low, high) h =
    let n = b.limit.amount in
    let (fits, e) = >>-done (ensure (leb (with_grace n (some g)) max_safe) _) _ h in
    let (bottom, top, part, below, half, near) = grace_arith n g p high in
    rw (← done_injective _ _ e)
      (bottom, top, leb→le _ _ (ensure-true _ _ fits), (part, below, λ _. (half, near)))

warning_of : (warn : Option ℕ) (path : String) → assert_warning warn path ≡ done tt → InWarning warn
unfolding assert_warning assert_basis_points
warning_of none path h = tt
warning_of (some n) path h = ground arith

no_warning : (warn : Option ℕ) (b : Bool) → (is_none warn && b) ≡ true → InWarning warn
no_warning none b h = tt
no_warning (some n) b h = cc

warning_hard :
    (t : Thresholds) (path : String)
    → assert_hard_block t path ≡ done tt
    → InWarning t.warn_at_basis_points
unfolding assert_hard_block
warning_hard t path h =
    warning_of t.warn_at_basis_points path
      ((>>-done (ensure (is_none t.grace_basis_points && is_none t.tiers) _) _ h).1)

warning_throttle :
    (t : Thresholds) (path : String)
    → assert_throttle t path ≡ done tt
    → InWarning t.warn_at_basis_points
unfolding assert_throttle
warning_throttle t path h = no_warning t.warn_at_basis_points (is_none t.grace_basis_points) (
    ensure-true _ _
      ((>>-done (ensure (is_none t.warn_at_basis_points && is_none t.grace_basis_points) _) _ h).0))

warning_bounds :
    (b : Budget) (path : String)
    → assert_thresholds b.action b.thresholds path ≡ done tt
    → is_soft b ≡ false
    → InWarning b.thresholds.warn_at_basis_points
unfolding assert_thresholds
warning_bounds b path h soft = elim (Bool-cases (str_eq b.action "HARD_BLOCK")) [
  | inl hard ↦ warning_hard b.thresholds path (rw hard at h)
  | inr hard ↦ elim (Bool-cases (str_eq b.action "THROTTLE")) [
    | inl t ↦ warning_throttle b.thresholds path (rw (hard, soft, t) at h)
    | inr t ↦ absurd (cc (let bad = rw (hard, soft, t) at h in bad))
  ]
]

hard-Bounded :
    (b : Budget) (warn : Option ℕ)
    → b.limit.amount ≤ max_safe
    → is_soft b ≡ false
    → InWarning warn
    → Bounded b (some b.limit.amount) (hard_percent warn)
unfolding hard_percent
hard-Bounded b none top soft w = (omega arith, omega arith, top, tt)
hard-Bounded b (some n) top soft w =
    let part : n / 100 ≤ 100 = omega arith in
    (omega arith, omega arith, top, (part, grind arith, λ s. cc))

-- A budget that has passed `assertBudget` gets a quota between its limit and twice its limit.
pub enforced_quota-Bounded :
    (b : Budget) (path : String) {q : ℕ × Option ℕ}
    → assert_budget b path ≡ done tt
    → enforced_quota b b.limit.amount ≡ done q
    → Bounded b (some q.0) q.1
unfolding assert_budget enforced_quota
enforced_quota-Bounded b path {q} ok h =
    let (enforceable, thresholds) = >>-done (assert_enforceable_budget b path) _ ok in
    let (low, top) = amount_bounds b path enforceable in
    elim (Bool-cases (is_soft b)) [
      | inl soft ↦
          quota-InGrace b b.budget_id b.thresholds.grace_basis_points low
            (grace_bounds b (path <> ".thresholds") thresholds soft) (rw soft at h)
      | inr soft ↦
          let e =
            done_injective {R = ⊥} (b.limit.amount, hard_percent b.thresholds.warn_at_basis_points)
              q (rw soft at h) in
          rw (← e) (
            hard-Bounded b b.thresholds.warn_at_basis_points top soft
              (warning_bounds b (path <> ".thresholds") thresholds soft))
    ]
