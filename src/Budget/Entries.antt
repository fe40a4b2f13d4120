-- ===== src/Budget/Entries.antt =====
-- Every budget gets one entry, in the order of the snapshot.
use azure_llm_governance_api.Prelude.{
  ℕ, suc, String, ◌≡◌, refl, sym, ap, ◌∙◌, inl, inr, true, not, Option, none, some, List, [], ◌∷◌,
  ◌++◌, str_eq, if◌then◌else◌, or_default, done, ◌>>=◌, >>=-eq-done, >>-done, done_injective,
  Bool-cases, arith, ◌&&◌, if_some, All,
}
use mathlib.Core.List.{append-nil, append_assoc}
use azure_llm_governance_api.Prelude.Time.{Instant}
use azure_llm_governance_api.Fallback.Compile.{Comparison}
use azure_llm_governance_api.Budget.{
  Tier, Budget, Derivation, derive_token_quota, derived, derivation, unenforceable, is_per_model,
  includes, is_empty,
}
use azure_llm_governance_api.Budget.Snapshot.{
  Snapshot, assert_budget, assert_budgets, budget_path, assert_budget_snapshot_v1,
  assert_snapshot_head, assert_degraded,
}
use azure_llm_governance_api.Budget.Publication.{entry_for, Entry, Publishing, Publication}
use azure_llm_governance_api.Budget.Publish.{
  has_undeclared, undeclared, Setting, publish_budget, publish_all, publish_budgets,
  publish_derived, publish_throttle, publish_quota, set_aside, enforced_quota, nothing_published,
  published,
}
use azure_llm_governance_api.Budget.Capacity.{
  capacity, derive_lem, quota_of, quota_of-derived, with_grace, quota-enforced_quota,
}
use azure_llm_governance_api.Budget.Bounds.{Bounded, enforced_quota-Bounded}

-- An entry tells what its budget allows.
pub record Tells (allowed : List String) (b : Budget) (e : Entry) : Type 0 where
  pub same_budget : e.budget_id ≡ b.budget_id
  pub same_limit : e.configured_limit ≡ b.limit
  pub quota_is : e.enforced_token_quota ≡ capacity allowed b
  pub bounds : Bounded b e.enforced_token_quota e.warn_threshold_percent

abbrev pub EachTells : List String → List Budget → List Entry → Type 0
EachTells allowed [] [] = Unit
EachTells allowed (b ∷ bs) (e ∷ es) = Tells allowed b e × EachTells allowed bs es
EachTells allowed _ _ = ⊥

limit-derived :
    (b : Budget) (allowed : List String) (at : Instant)
    → (derived b allowed at).configured_limit ≡ b.limit
unfolding derived unenforceable derivation
limit-derived b allowed at = ground arith

quota-derived :
    (b : Budget) (allowed : List String) (at : Instant)
    → str_eq (derived b allowed at).state "enforceable" ≡ true
    → or_default (derived b allowed at).token_quota 0 ≡ b.limit.amount
unfolding derived unenforceable derivation
quota-derived b allowed at h =
    elim (Bool-cases (is_per_model b && not (includes allowed b.model_key))) [
      | inl p ↦ absurd (cc (let bad = rw p at h in bad))
      | inr p ↦ elim (Bool-cases (str_eq b.model_scope "all-models" && is_empty allowed)) [
        | inl q ↦ absurd (cc (let bad = rw (p, q) at h in bad))
        | inr q ↦ rw (p, q) refl
      ]
    ]

module _ (allowed : List String) (b : Budget) where
  abbrev pub Added : Publishing → Publishing → Type 0
  Added p p' = (e : Entry) × (p'.entries ≡ p.entries ++ e ∷ []) × Tells allowed b e

  Tells-none :
      (d : Derivation)
      → d.configured_limit ≡ b.limit
      → none ≡ capacity allowed b
      → Tells allowed b (entry_for b d none none)
  unfolding entry_for
  Tells-none d l e = record { same_budget = refl; same_limit = l; quota_is = e; bounds = refl }

  Tells-quota :
      (d : Derivation) (q : ℕ × Option ℕ)
      → d.configured_limit ≡ b.limit
      → some q.0 ≡ capacity allowed b
      → Bounded b (some q.0) q.1
      → Tells allowed b (entry_for b d (some q.0) q.1)
  unfolding entry_for
  Tells-quota d q l e w = record { same_budget = refl; same_limit = l; quota_is = e; bounds = w }

  Added-aside :
      (d : Derivation) (p : Publishing)
      → d.configured_limit ≡ b.limit
      → none ≡ capacity allowed b
      → Added p (set_aside b d p)
  unfolding set_aside
  Added-aside d p l e = (entry_for b d none none, refl, Tells-none d l e)

  Added-throttle :
      (declared : Option (List String)) (d : Derivation) (tiers : Option (List Tier))
      (p : Publishing) {p' : Publishing}
      → d.configured_limit ≡ b.limit
      → none ≡ capacity allowed b
      → publish_throttle declared b d tiers p ≡ done p'
      → Added p p'
  unfolding publish_throttle
  Added-throttle declared d none p l e h = cc
  Added-throttle declared d (some tiers) p l e h =
      elim (Bool-cases (has_undeclared declared tiers)) [
        | inl u ↦
            rw (← done_injective {R = ⊥} _ _ (rw u at h))
              (Added-aside (undeclared d) p (unfold undeclared in l) e)
        | inr u ↦
            rw (← done_injective {R = ⊥} _ _ (rw u at h))
              (entry_for b d none none, refl, Tells-none d l e)
      ]

  Added-quota :
      (d : Derivation) (path : String) (p : Publishing) {p' : Publishing}
      → assert_budget b path ≡ done tt
      → d.configured_limit ≡ b.limit
      → (if str_eq b.action "SOFT_WARNING"
          then some (with_grace b.limit.amount b.thresholds.grace_basis_points)
          else some b.limit.amount)
        ≡ capacity allowed b
      → (enforced_quota b b.limit.amount >>= λ q. done (publish_quota b d q p)) ≡ done p'
      → Added p p'
  unfolding publish_quota
  Added-quota d path p ok l e h =
      let (q, made, rest) = >>=-eq-done (enforced_quota b b.limit.amount) _ h in
      let same = quota-enforced_quota b b.limit.amount made in
      let bound = enforced_quota-Bounded b path ok made in
      let quota : some q.0 ≡ capacity allowed b =
        rw same (if_some (str_eq b.action "SOFT_WARNING") _ _ ∙ e) in
      rw (← done_injective _ _ rest)
        (entry_for b d (some q.0) q.1, refl, Tells-quota d q l quota bound)

  Added-derived :
      (declared : Option (List String)) (at : Instant) (path : String) (p : Publishing)
      {p' : Publishing}
      → assert_budget b path ≡ done tt
      → publish_derived declared b (derived b allowed at) p ≡ done p'
      → Added p p'
  unfolding publish_derived
  Added-derived declared at path p ok h =
      let l = limit-derived b allowed at in
      let e = quota_of-derived b allowed at in
      let d : Derivation = derived b allowed at in
      elim (Bool-cases (str_eq d.state "enforceable")) [
        | inr s ↦
            let lhs : none ≡ quota_of b d = rw s refl in
            rw (← done_injective {R = ⊥} _ _ (rw s at h)) (Added-aside d p l (lhs ∙ e))
        | inl s ↦ elim (Bool-cases (str_eq b.action "THROTTLE")) [
          | inl t ↦
              let lhs : none ≡ quota_of b d = rw (s, t) refl in
              Added-throttle declared d b.thresholds.tiers p l (lhs ∙ e) (rw (s, t) at h)
          | inr t ↦
              let n = quota-derived b allowed at s in
              let lhs : (if str_eq b.action "SOFT_WARNING"
                    then some (with_grace b.limit.amount b.thresholds.grace_basis_points)
                    else some b.limit.amount)
                  ≡ quota_of b d =
                rw (s, t, n) refl in
              Added-quota d path p ok l (lhs ∙ e) (rw (s, t, n) at h)
        ]
      ]

-- One entry is added, and it tells what its budget allows.
entry-publish_budget :
    (c : Setting) (b : Budget) (path : String) (p : Publishing) {p' : Publishing}
    → assert_budget b path ≡ done tt
    → publish_budget c b p ≡ done p'
    → Added c.allowed_models b p p'
unfolding publish_budget
entry-publish_budget c b path p {p'} ok h =
    let (d, made, rest) =
      >>=-eq-done (derive_token_quota b c.allowed_models c.evaluation_time) _ h in
    let (_, e) = derive_lem b c.allowed_models c.evaluation_time made in
    let rest' : publish_derived c.declared_tier_codes b
          (derived b c.allowed_models c.evaluation_time) p
        ≡ done p' =
      rw (← e) rest in
    Added-derived c.allowed_models b c.declared_tier_codes c.evaluation_time path p ok rest'

abbrev pub Accepted : Budget → Type 0
Accepted b = (path : String) × (assert_budget b path ≡ done tt)

Accepted-assert_budgets :
    (index : ℕ) (bs : List Budget) → assert_budgets index bs ≡ done tt → All Accepted bs
unfolding assert_budgets
Accepted-assert_budgets index [] h = tt
Accepted-assert_budgets index (b ∷ bs) h =
    let (ok, rest) = >>-done (assert_budget b (budget_path index)) _ h in
    ((budget_path index, ok), Accepted-assert_budgets (suc index) bs rest)

entries-publish_all :
    (c : Setting) (bs : List Budget) (p : Publishing) {p' : Publishing}
    → All Accepted bs
    → publish_all c bs p ≡ done p'
    → (es : List Entry) × (p'.entries ≡ p.entries ++ es) × EachTells c.allowed_models bs es
unfolding publish_all
entries-publish_all c [] p a h = (
  [],
  ap (λ (r : Publishing). r.entries) (sym (done_injective _ _ h)) ∙ sym (append-nil p.entries),
  tt,
)
entries-publish_all c (b ∷ bs) p ((path, ok), a) h =
    let (q, first, rest) = >>=-eq-done (publish_budget c b p) _ h in
    let (e, grown, tells) = entry-publish_budget c b path p ok first in
    let (es, more, each) = entries-publish_all c bs q a rest in
    (e ∷ es, more ∙ rw grown (append_assoc p.entries (e ∷ []) es), (tells, each))

-- The budgets of a snapshot that was accepted have each passed `assertBudget`.
pub Accepted-snapshot :
    (compare : String → String → Comparison) (s : Snapshot) (at : Instant) (tenant : Option String)
    {s' : Snapshot}
    → assert_budget_snapshot_v1 compare s at tenant ≡ done s'
    → All Accepted s.budgets
unfolding assert_budget_snapshot_v1
Accepted-snapshot compare s at tenant h =
    let (_, h1) = >>-done (assert_snapshot_head s at tenant) _ h in
    let (_, h2) = >>-done (assert_degraded s) _ h1 in
    let (ok, _) = >>-done (assert_budgets 0 s.budgets) _ h2 in
    Accepted-assert_budgets 0 s.budgets ok

-- A publication of a complete, accepted snapshot has one entry for each budget, in their order, with
-- its identifier and limit. It carries the quota that the budget allows, which lies between the
-- configured limit and twice that and is a safe integer. Its warning stands at or before the
-- configured limit; that of a soft warning stands in the upper half of the quota, less than one
-- percent of the quota before the limit.
pub publish_budgets-EachTells :
    (compare : String → String → Comparison) (s : Snapshot) (tenant : Option String) (c : Setting)
    {s' : Snapshot} {p : Publication}
    → assert_budget_snapshot_v1 compare s c.evaluation_time tenant ≡ done s'
    → str_eq s.status "complete" ≡ true
    → publish_budgets compare s c ≡ done p
    → EachTells c.allowed_models s.budgets p.entries
unfolding publish_budgets published
publish_budgets-EachTells compare s tenant c ok complete h =
    let (q, ran, e) =
      >>=-eq-done (publish_all c s.budgets nothing_published) _ (rw complete at h) in
    let (es, grown, each) =
      entries-publish_all c s.budgets nothing_published
        (Accepted-snapshot compare s c.evaluation_time tenant ok) ran in
    rw (← done_injective _ _ e) (rw grown each)
