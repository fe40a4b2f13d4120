-- ===== src/Policy/Paired.antt =====
-- The map of limits by their counters, before and after the budgets are merged into it.
use mathlib.Core.List.{Memᴰ}
use mathlib.Core.List.Memᴰ
use azure_llm_governance_api.Prelude.{
  String, ◌≡◌, refl, ◌∙◌, true, false, ◌||◌, some, List, [], ◌∷◌, map, str_eq, eq_refl, arith, All,
}
use azure_llm_governance_api.Prelude.Sets.{contains, Distinct}
use azure_llm_governance_api.Prelude.Dict.{lookup, insert, lookup-insert}
use azure_llm_governance_api.Authorization.{Limits}
use azure_llm_governance_api.Policy.{
  Limit, scope_order, BudgetLimit, limit_identity, by_pair, merge_one, merge_all,
}
use azure_llm_governance_api.Policy.Merged.{
  CapsAt, Keyed, HasScope, budget_caps, budget_identity, Keyed-insert, Keyed-merge_one,
  kept-merge_one, taken-merge_one,
}

pub Keyed-merge_all :
    (cs : List BudgetLimit) (m : List (String × Limit))
    → All HasScope cs
    → Keyed m
    → Keyed (merge_all cs m)
unfolding merge_all
Keyed-merge_all [] m s w = w
Keyed-merge_all (c ∷ cs) m (s, ss) w =
    Keyed-merge_all cs (merge_one c m) ss (Keyed-merge_one c m s w)

pub kept-merge_all :
    (cs : List BudgetLimit) (m : List (String × Limit)) (k : String) (l : Limits)
    → CapsAt l (lookup k m)
    → CapsAt l (lookup k (merge_all cs m))
unfolding merge_all
kept-merge_all [] m k l h = h
kept-merge_all (c ∷ cs) m k l h = kept-merge_all cs (merge_one c m) k l (kept-merge_one c m k l h)

pub taken-merge_all :
    (cs : List BudgetLimit) (m : List (String × Limit))
    → All (λ c. CapsAt (budget_caps c) (lookup (budget_identity c) (merge_all cs m))) cs
unfolding merge_all
taken-merge_all [] m = tt
taken-merge_all (c ∷ cs) m = (
  kept-merge_all cs (merge_one c m) (budget_identity c) (budget_caps c) (taken-merge_one c m),
  taken-merge_all cs (merge_one c m),
)

abbrev pub identities : List Limit → List String
identities ls = map (λ l. limit_identity l) ls

pub Keyed-by_pair :
    (ls : List Limit) (m : List (String × Limit))
    → All (λ l. contains l.scope scope_order ≡ true) ls
    → Keyed m
    → Keyed (by_pair ls m)
unfolding by_pair
Keyed-by_pair [] m s w = w
Keyed-by_pair (l ∷ ls) m (s, ss) w =
    Keyed-by_pair ls (insert (limit_identity l) l m) ss
      (Keyed-insert (limit_identity l) l m (refl, s) w)

pub apart :
    (x k : String) (xs : List String)
    → (str_eq x k || contains k xs) ≡ false
    → (str_eq x k ≡ false) × (contains k xs ≡ false)
apart x k xs h = (ground arith, ground arith)

by_pair_other :
    (k : String) (ls : List Limit) (m : List (String × Limit))
    → contains k (identities ls) ≡ false
    → lookup k (by_pair ls m) ≡ lookup k m
unfolding by_pair
by_pair_other k [] m h = refl
by_pair_other k (l ∷ ls) m h =
    let (a, b) = apart (limit_identity l) k (identities ls) h in
    by_pair_other k ls (insert (limit_identity l) l m) b
    ∙ rw (lookup-insert (limit_identity l) k l m, a) refl

pub by_pair_own :
    (x : Limit) (ls : List Limit) (m : List (String × Limit))
    → Distinct (identities ls)
    → Memᴰ x ls
    → lookup (limit_identity x) (by_pair ls m) ≡ some x
unfolding by_pair
by_pair_own x [] m d h = absurd (Memᴰ.not-nil h)
by_pair_own x (l ∷ ls) m (fresh, d) (Memᴰ.head e) = rw e (
    by_pair_other (limit_identity l) ls (insert (limit_identity l) l m) fresh
    ∙ rw (lookup-insert (limit_identity l) (limit_identity l) l m, eq_refl (limit_identity l)) refl)
by_pair_own x (l ∷ ls) m (fresh, d) (Memᴰ.tail h) =
    by_pair_own x ls (insert (limit_identity l) l m) d h
