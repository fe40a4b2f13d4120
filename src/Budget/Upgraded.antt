-- ===== src/Budget/Upgraded.antt =====
-- What a snapshot is after the upgrade of its legacy budgets.
use azure_llm_governance_api.Prelude.{
  ◌⊎◌, Option, none, some, is_none, true, All, arith, eq_iff, ℕ, suc, String, ◌≡◌, refl, inl, inr,
  false, List, [], ◌∷◌, map, if◌then◌else◌, done, >>-done, done_injective, Bool-cases,
}
use azure_llm_governance_api.Prelude.Sets.{contains}
use azure_llm_governance_api.Budget.{Budget}
use azure_llm_governance_api.Budget.Snapshot.{Snapshot, budget_counter_identity, assert_counters}
use azure_llm_governance_api.Budget.Legacy.{
  Requirement, is_legacy, upgrade_budget, legacy_requirements, counter_requirements, require_none,
  upgrade_legacy_budget_snapshot_v1,
}

not_legacy : (b : Budget) → is_legacy (upgrade_budget b) ≡ false
unfolding upgrade_budget is_legacy
not_legacy b = elim (Bool-cases (is_legacy b)) [
  | inl e ↦ rw e refl
  | inr e ↦ rw (e, if◌then◌else◌) e
]

current_stays : (b : Budget) → is_legacy b ≡ false → upgrade_budget b ≡ b
unfolding upgrade_budget
current_stays b h = rw (h, if◌then◌else◌) refl

upgrade_budget_again : (b : Budget) → upgrade_budget (upgrade_budget b) ≡ upgrade_budget b
upgrade_budget_again b = current_stays (upgrade_budget b) (not_legacy b)

upgraded : (bs : List Budget) → map upgrade_budget (map upgrade_budget bs) ≡ map upgrade_budget bs
upgraded [] = refl
upgraded (b ∷ bs) = rw (upgrade_budget_again b, upgraded bs) refl

nothing_left :
    (index : ℕ) (bs : List Budget) → legacy_requirements index (map upgrade_budget bs) ≡ []
unfolding legacy_requirements
nothing_left index [] = refl
nothing_left index (b ∷ bs) = rw (not_legacy b) (nothing_left (suc index) bs)

require-none : (rs : List Requirement) → require_none rs ≡ done tt → rs ≡ []
unfolding require_none
require-none [] h = refl
require-none (r ∷ rs) h = cc

-- Where the upgrade finds no counter twice, neither does the validator.
counters-assert :
    (index other : ℕ) (seen : List String) (bs : List Budget)
    → counter_requirements index seen bs ≡ []
    → assert_counters other seen bs ≡ done tt
unfolding counter_requirements assert_counters
counters-assert index other seen [] h = refl
counters-assert index other seen (b ∷ bs) h =
    elim (Bool-cases (contains (budget_counter_identity b) seen)) [
      | inl e ↦ absurd (cc (let bad = rw e at h in bad))
      | inr e ↦ rw e (
          counters-assert (suc index) (suc other) (budget_counter_identity b ∷ seen) bs (rw e at h))
    ]

-- A token budget without an accounting basis.
abbrev pub IsUnstated : Budget → Type 0
IsUnstated b = (b.accounting_basis ≡ none) × (b.limit.unit ≡ "tokens") × (b.limit.currency ≡ none)

-- What becomes of one budget.
abbrev pub Settles : Budget → Budget → Type 0
Settles b b' =
    (IsUnstated b × (b' ≡ record b { accounting_basis = some "apim-estimated-total-tokens" }))
    ⊎ ((¬ IsUnstated b) × (b' ≡ b))

abbrev pub EachSettles : List Budget → List Budget → Type 0
EachSettles [] [] = Unit
EachSettles (b ∷ bs) (c ∷ cs) = Settles b c × EachSettles bs cs
EachSettles _ _ = ⊥

absent : (o : Option String) → is_none o ≡ true → o ≡ none
absent none h = refl
absent (some t) h = cc

unstated : (b : Budget) → is_legacy b ≡ true → IsUnstated b
unfolding is_legacy
unstated b h = (
  absent b.accounting_basis (ground (arith, h)),
  (eq_iff b.limit.unit "tokens").0 (ground (arith, h)),
  absent b.limit.currency (ground (arith, h)),
)

stated : (b : Budget) → is_legacy b ≡ false → ¬ IsUnstated b
unfolding is_legacy
stated b h (basis, unit, currency) = absurd (cc (let bad = rw (basis, unit, currency) at h in bad))

settles : (b : Budget) → Settles b (upgrade_budget b)
unfolding upgrade_budget
settles b = elim (Bool-cases (is_legacy b)) [
  | inl e ↦ inl (unstated b e, rw e refl)
  | inr e ↦ inr (stated b e, rw e refl)
]

each_settles : (bs : List Budget) → EachSettles bs (map upgrade_budget bs)
each_settles [] = tt
each_settles (b ∷ bs) = (settles b, each_settles bs)

each_stated : (bs : List Budget) → All (λ b. ¬ IsUnstated b) (map upgrade_budget bs)
each_stated [] = tt
each_stated (b ∷ bs) = (stated (upgrade_budget b) (not_legacy b), each_stated bs)

-- An upgrade gives each token budget that states no accounting basis the one of the gateway, and leaves
-- every other budget as it is, in their order. No budget is left without, no two stand on one counter,
-- as the validator asks, and an upgrade of the result changes nothing.
pub upgrade-settled :
    (s : Snapshot) {t : Snapshot}
    → upgrade_legacy_budget_snapshot_v1 s ≡ done t
    → EachSettles s.budgets t.budgets
      × All (λ b. ¬ IsUnstated b) t.budgets
      × (assert_counters 0 [] t.budgets ≡ done tt)
      × (upgrade_legacy_budget_snapshot_v1 t ≡ done t)
unfolding upgrade_legacy_budget_snapshot_v1
upgrade-settled s {t} h =
    let (_, h1) = >>-done (require_none (legacy_requirements 0 s.budgets)) _ h in
    let (counted, e) =
      >>-done (require_none (counter_requirements 0 [] (map upgrade_budget s.budgets))) _ h1 in
    rw (← done_injective _ _ e) (
      each_settles s.budgets,
      each_stated s.budgets,
      counters-assert 0 0 [] (map upgrade_budget s.budgets) (require-none _ counted),
      rw (upgraded s.budgets, nothing_left 0 s.budgets, counted) refl,
    )
