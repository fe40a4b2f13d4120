-- ===== src/Budget/Swapped.antt =====
-- The comparison of two budgets, and one budget put in place of those with its identifier.
use azure_llm_governance_api.Prelude.{
  ℕ, suc, String, ◌≡◌, refl, ◌≢◌, ◌⊎◌, inl, inr, true, false, Bool, Option, none, some, List, [],
  ◌∷◌, map, find, any, arith, Bool-cases, eq_refl,
}
use mathlib.Core.List.{Memᴰ}
use mathlib.Core.List.Memᴰ
use azure_llm_governance_api.Budget.{Amount, Tier, Thresholds, Budget}
use azure_llm_governance_api.Budget.Edited.{
  has_id, with_version, same_budget, same_optional, same_number, same_ladder, same_tiers,
  same_thresholds, same_limit,
}
use azure_llm_governance_api.Budget.Edit.{replaced}

same_optional_refl : (o : Option String) → same_optional o o ≡ true
unfolding same_optional
same_optional_refl none = refl
same_optional_refl (some t) = eq_refl t

same_number_refl : (o : Option ℕ) → same_number o o ≡ true
unfolding same_number
same_number_refl none = refl
same_number_refl (some n) = ground arith

same_ladder_refl : (ts : List Tier) → same_ladder ts ts ≡ true
unfolding same_ladder
same_ladder_refl [] = refl
same_ladder_refl (t ∷ ts) = ground (arith, eq_refl t.tier_code, same_ladder_refl ts)

same_tiers_refl : (o : Option (List Tier)) → same_tiers o o ≡ true
unfolding same_tiers
same_tiers_refl none = refl
same_tiers_refl (some ts) = same_ladder_refl ts

same_thresholds_refl : (t : Thresholds) → same_thresholds t t ≡ true
unfolding same_thresholds
same_thresholds_refl t =
    rw
      (
        same_number_refl t.warn_at_basis_points,
        same_number_refl t.grace_basis_points,
        same_tiers_refl t.tiers,
      )
      refl

same_limit_refl : (a : Amount) → same_limit a a ≡ true
unfolding same_limit
same_limit_refl a = ground (arith, eq_refl a.unit, same_optional_refl a.currency)

same_budget_refl : (b : Budget) → same_budget b b ≡ true
unfolding same_budget
same_budget_refl b = ground (
  arith,
  eq_refl b.budget_id,
  eq_refl b.scope,
  eq_refl b.action,
  eq_refl b.model_scope,
  same_optional_refl b.model_key,
  eq_refl b.period,
  same_optional_refl b.accounting_basis,
  same_limit_refl b.limit,
  same_thresholds_refl b.thresholds,
)

-- An edit that passes the last comparison does more than count the version up.
pub edited-differs :
    (target new : Budget)
    → same_budget (with_version new target.budget_version) target ≡ false
    → new ≢ with_version target (suc target.budget_version)
unfolding with_version
edited-differs target new h e = cc (rw e at h, same_budget_refl target)

pub any-find :
    (p : Budget → Bool) (xs : List Budget) {b : Budget} → find p xs ≡ some b → any p xs ≡ true
any-find p [] h = cc
any-find p (x ∷ xs) h = elim (Bool-cases (p x)) [
  | inl e ↦ rw e refl
  | inr e ↦ rw e (any-find p xs (rw e at h))
]

abbrev pub Swapped : String → Budget → List Budget → Budget → Type 0
Swapped id new xs b =
    (Memᴰ b xs × (has_id id b ≡ false)) ⊎ ((any (has_id id) xs ≡ true) × (b ≡ new))

pub Swapped-map :
    (id : String) (new b : Budget) (xs : List Budget)
    → Memᴰ b (map (replaced id new) xs)
    → Swapped id new xs b
unfolding replaced
Swapped-map id new b [] m = absurd (Memᴰ.not-nil m)
Swapped-map id new b (x ∷ xs) m = elim (Memᴰ.cases_cons m) [
  | inl same ↦ elim (Bool-cases (has_id id x)) [
    | inl e ↦ inr (rw e refl, rw e at same)
    | inr e ↦ let same' : b ≡ x = rw e at same in inl (Memᴰ.head same', rw same' e)
  ]
  | inr n ↦ elim (Swapped-map id new b xs n) [
    | inl (k, h) ↦ inl (Memᴰ.tail k, h)
    | inr (k, h) ↦ inr (rw k (ground arith), h)
  ]
]

pub Memᴰ-Swapped :
    (id : String) (new b : Budget) (xs : List Budget)
    → Swapped id new xs b
    → Memᴰ b (map (replaced id new) xs)
unfolding replaced
Memᴰ-Swapped id new b [] (inl (m, h)) = absurd (Memᴰ.not-nil m)
Memᴰ-Swapped id new b [] (inr (m, h)) = cc
Memᴰ-Swapped id new b (x ∷ xs) (inl (m, h)) = elim (Memᴰ.cases_cons m) [
  | inl same ↦ let e : has_id id x ≡ false = rw (← same) h in Memᴰ.head (rw e same)
  | inr n ↦ Memᴰ.tail (Memᴰ-Swapped id new b xs (inl (n, h)))
]
Memᴰ-Swapped id new b (x ∷ xs) (inr (m, h)) = elim (Bool-cases (has_id id x)) [
  | inl e ↦ Memᴰ.head (rw e h)
  | inr e ↦ Memᴰ.tail (Memᴰ-Swapped id new b xs (inr (rw e at m, h)))
]
