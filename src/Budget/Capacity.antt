-- ===== src/Budget/Capacity.antt =====
-- What a budget allows, said without the loop of `publishBudgets`, and what the loop makes of it.
use azure_llm_governance_api.Prelude.{
  ℕ, ◌+◌, ◌*◌, ◌/◌, String, ◌≡◌, refl, sym, ap, ensure, inl, inr, Bool, not, ◌&&◌, ◌||◌, Option,
  none, some, List, [], ◌∷◌, str_eq, leb, if◌then◌else◌, or_default, done, ◌>>=◌, >>=-eq-done,
  >>-done, done_injective, Bool-cases, arith,
}
use azure_llm_governance_api.Prelude.Time.{Instant}
use azure_llm_governance_api.Budget.{
  max_safe, Tier, Budget, Derivation, derive_token_quota, derived, is_per_model, includes, is_empty,
  assert_enforceable_budget, unenforceable, derivation,
}
use azure_llm_governance_api.Budget.Snapshot.{basis_points_full, budget_counter_identity}
use azure_llm_governance_api.Budget.Publication.{Limit, Publishing, limit_of}
use azure_llm_governance_api.Budget.Publish.{
  Setting, publish_budget, publish_all, publish_derived, keep_tighter, enforced_quota, soft_quota,
  publish_throttle, publish_quota, set_aside,
}

-- A budget binds if it names a model that the caller may use, or all models and there is one.
abbrev pub binds : List String → Budget → Bool
binds allowed b =
    not (is_per_model b && not (includes allowed b.model_key))
    && not (str_eq b.model_scope "all-models" && is_empty allowed)

abbrev pub with_grace : ℕ → Option ℕ → ℕ
with_grace n grace = n * (basis_points_full + or_default grace 0) / basis_points_full

-- The tokens that a budget allows on its counter; `none` for one that limits nothing.
abbrev pub capacity : List String → Budget → Option ℕ
capacity allowed b =
    if not (binds allowed b) || str_eq b.action "THROTTLE"
    then none
    else if str_eq b.action "SOFT_WARNING"
    then some (with_grace b.limit.amount b.thresholds.grace_basis_points)
    else some b.limit.amount

abbrev pub book_quota : Budget → Option ℕ → List (String × Limit) → List (String × Limit)
book_quota b none quotas = quotas
book_quota b (some n) quotas = keep_tighter (budget_counter_identity b) (limit_of b n) quotas

abbrev pub book_all : List String → List Budget → List (String × Limit) → List (String × Limit)
book_all allowed [] quotas = quotas
book_all allowed (b ∷ bs) quotas = book_all allowed bs (book_quota b (capacity allowed b) quotas)

pub derive_lem :
    (b : Budget) (allowed : List String) (at : Instant) {d : Derivation}
    → derive_token_quota b allowed at ≡ done d
    → (assert_enforceable_budget b "budget" ≡ done tt) × (d ≡ derived b allowed at)
unfolding derive_token_quota
derive_lem b allowed at {d} h =
    let (ok, rest) = >>-done (assert_enforceable_budget b "budget") _ h in
    (ok, ground (arith, rest))

quota-soft_quota :
    (id : String) (n : ℕ) (grace : Option ℕ) {q : ℕ × Option ℕ}
    → soft_quota id n grace ≡ done q
    → q.0 ≡ with_grace n grace
unfolding soft_quota
quota-soft_quota id n none h = cc
quota-soft_quota id n (some grace) {q} h =
    let (ok, e) = >>-done (ensure (leb (with_grace n (some grace)) max_safe) _) _ h in
    sym (ap (λ (p : ℕ × Option ℕ). p.0) (done_injective _ _ e))

pub quota-enforced_quota :
    (b : Budget) (n : ℕ) {q : ℕ × Option ℕ}
    → enforced_quota b n ≡ done q
    → q.0
      ≡ (if str_eq b.action "SOFT_WARNING" then with_grace n b.thresholds.grace_basis_points else n)
unfolding enforced_quota
quota-enforced_quota b n h = elim (Bool-cases (str_eq b.action "SOFT_WARNING")) [
  | inl e ↦ rw e (quota-soft_quota b.budget_id n b.thresholds.grace_basis_points (rw e at h))
  | inr e ↦ rw e (sym (ap (λ (p : ℕ × Option ℕ). p.0) (done_injective _ _ (rw e at h))))
]

quotas-publish_throttle :
    (declared : Option (List String)) (b : Budget) (d : Derivation) (tiers : Option (List Tier))
    (p : Publishing) {p' : Publishing}
    → publish_throttle declared b d tiers p ≡ done p'
    → p'.quota_by_key ≡ p.quota_by_key
unfolding publish_throttle set_aside
quotas-publish_throttle declared b d none p h = cc
quotas-publish_throttle declared b d (some tiers) p h = ground arith

-- What a derivation allows.
abbrev pub quota_of : Budget → Derivation → Option ℕ
quota_of b d =
    if not (str_eq d.state "enforceable") || str_eq b.action "THROTTLE"
    then none
    else if str_eq b.action "SOFT_WARNING"
    then some (with_grace (or_default d.token_quota 0) b.thresholds.grace_basis_points)
    else some (or_default d.token_quota 0)

pub quota_of-derived :
    (b : Budget) (allowed : List String) (at : Instant)
    → quota_of b (derived b allowed at) ≡ capacity allowed b
unfolding derived unenforceable derivation
quota_of-derived b allowed at =
    elim (Bool-cases (is_per_model b && not (includes allowed b.model_key))) [
      | inl p ↦ rw p refl
      | inr p ↦ elim (Bool-cases (str_eq b.model_scope "all-models" && is_empty allowed)) [
        | inl q ↦ rw (p, q) refl
        | inr q ↦ rw (p, q) refl
      ]
    ]

quotas_enforced :
    (b : Budget) (d : Derivation) (n : ℕ) (p : Publishing) {p' : Publishing}
    → (enforced_quota b n >>= λ q. done (publish_quota b d q p)) ≡ done p'
    → p'.quota_by_key
      ≡ book_quota b
          (if str_eq b.action "SOFT_WARNING"
            then some (with_grace n b.thresholds.grace_basis_points)
            else some n)
          p.quota_by_key
unfolding publish_quota
quotas_enforced b d n p h =
    let (q, made, rest) = >>=-eq-done (enforced_quota b n) _ h in
    let same = quota-enforced_quota b n made in
    let made_one = ap (λ (r : Publishing). r.quota_by_key) (sym (done_injective _ _ rest)) in
    elim (Bool-cases (str_eq b.action "SOFT_WARNING")) [
      | inl e ↦
          let q_is : q.0 ≡ with_grace n b.thresholds.grace_basis_points = rw e at same in
          rw e (rw (← q_is) made_one)
      | inr e ↦ let q_is : q.0 ≡ n = rw e at same in rw e (rw (← q_is) made_one)
    ]

quotas-publish_derived :
    (declared : Option (List String)) (b : Budget) (d : Derivation) (p : Publishing)
    {p' : Publishing}
    → publish_derived declared b d p ≡ done p'
    → p'.quota_by_key ≡ book_quota b (quota_of b d) p.quota_by_key
unfolding publish_derived publish_quota set_aside
quotas-publish_derived declared b d p h = elim (Bool-cases (str_eq d.state "enforceable")) [
  | inr e ↦ rw e (sym (ap (λ (r : Publishing). r.quota_by_key) (done_injective _ _ (rw e at h))))
  | inl e ↦ elim (Bool-cases (str_eq b.action "THROTTLE")) [
    | inl t ↦ rw (e, t) (quotas-publish_throttle declared b d b.thresholds.tiers p (rw (e, t) at h))
    | inr t ↦ rw (e, t) (quotas_enforced b d (or_default d.token_quota 0) p (rw (e, t) at h))
  ]
]

pub quotas-publish_budget :
    (c : Setting) (b : Budget) (p : Publishing) {p' : Publishing}
    → publish_budget c b p ≡ done p'
    → p'.quota_by_key ≡ book_quota b (capacity c.allowed_models b) p.quota_by_key
unfolding publish_budget
quotas-publish_budget c b p h =
    let (d, made, rest) =
      >>=-eq-done (derive_token_quota b c.allowed_models c.evaluation_time) _ h in
    let (_, e) = derive_lem b c.allowed_models c.evaluation_time made in
    rw (← quota_of-derived b c.allowed_models c.evaluation_time)
      (rw (← e) (quotas-publish_derived c.declared_tier_codes b d p rest))

pub quotas-publish_all :
    (c : Setting) (bs : List Budget) (p : Publishing) {p' : Publishing}
    → publish_all c bs p ≡ done p'
    → p'.quota_by_key ≡ book_all c.allowed_models bs p.quota_by_key
unfolding publish_all
quotas-publish_all c [] p h = sym (ap (λ (r : Publishing). r.quota_by_key) (done_injective _ _ h))
quotas-publish_all c (b ∷ bs) p h =
    let (q, first, rest) = >>=-eq-done (publish_budget c b p) _ h in
    rw (← quotas-publish_budget c b p first) (quotas-publish_all c bs q rest)
