-- ===== src/Budget/Caps.antt =====
-- The published limits admit what every budget admits.
use azure_llm_governance_api.Prelude.{
  ℕ, String, ◌≡◌, refl, sym, All, ◌∙◌, ap, inl, inr, Bool, true, false, not, ◌&&◌, ◌||◌, Option,
  none, some, List, [], ◌∷◌, str_eq, leb, every, done, >>=-eq-done, done_injective, Bool-cases,
  Option-cases, &&_assoc, arith, eq_iff,
}
use azure_llm_governance_api.Prelude.Lists.{keep, sort_by}
use azure_llm_governance_api.Prelude.Every.{every-append, every-keep, every-sort_by}
use azure_llm_governance_api.Prelude.Dict.{lookup, insert, lookup-insert, values}
use azure_llm_governance_api.Prelude.Sets.{contains}
use azure_llm_governance_api.Fallback.Compile.{Comparison}
use azure_llm_governance_api.Budget.{Budget, scopes}
use azure_llm_governance_api.Budget.Snapshot.{Snapshot, budget_counter_identity, precedes}
use azure_llm_governance_api.Budget.Publication.{Limit, Publication, limit_of}
use azure_llm_governance_api.Budget.Publish.{
  Setting, publish_all, publish_budgets, published, nothing_published, keep_tighter, is_tighter,
  in_scope_order,
}
use azure_llm_governance_api.Budget.Capacity.{capacity, book_quota, book_all, quotas-publish_all}
use azure_llm_governance_api.Budget.Kept.{
  limit_counter, limits_admit, allows, WellKept, WellKept-book_all, limits_admit-values,
  scopes-publish_all, in_period, every-book_all,
}

-- What passes a limit.
abbrev pub fits : ℕ → Option ℕ → Bool
fits used none = true
fits used (some n) = leb used n

-- A use of a counter passes all that is said of the counter.
abbrev pub budgets_admit : List String → List Budget → String → ℕ → Bool
budgets_admit allowed budgets k used =
    every (λ b. not (str_eq (budget_counter_identity b) k) || fits used (capacity allowed b))
      budgets

-- A tighter limit decides alone, and a looser one decides nothing.
allows_tighter :
    (o : Option Limit) (l : Limit) (used : ℕ)
    → is_tighter l.token_quota o ≡ true
    → leb used l.token_quota ≡ (allows o used && leb used l.token_quota)
unfolding is_tighter
allows_tighter none l used h = refl
allows_tighter (some m) l used h = ground arith

allows_looser :
    (o : Option Limit) (l : Limit) (used : ℕ)
    → is_tighter l.token_quota o ≡ false
    → allows o used ≡ (allows o used && leb used l.token_quota)
unfolding is_tighter
allows_looser none l used h = cc
allows_looser (some m) l used h = ground arith

allows-insert :
    (j k : String) (l : Limit) (quotas : List (String × Limit)) (used : ℕ)
    → is_tighter l.token_quota (lookup j quotas) ≡ true
    → allows (lookup k (insert j l quotas)) used
      ≡ (allows (lookup k quotas) used && (not (str_eq j k) || leb used l.token_quota))
allows-insert j k l quotas used h = elim (Bool-cases (str_eq j k)) [
  | inr e ↦ rw (lookup-insert j k l quotas, e) (ground arith)
  | inl e ↦
      rw (lookup-insert j k l quotas, e)
        (rw (← (eq_iff j k).0 e) (allows_tighter (lookup j quotas) l used h))
]

allows-keep_tighter :
    (j k : String) (l : Limit) (quotas : List (String × Limit)) (used : ℕ)
    → allows (lookup k (keep_tighter j l quotas)) used
      ≡ (allows (lookup k quotas) used && (not (str_eq j k) || leb used l.token_quota))
unfolding keep_tighter
allows-keep_tighter j k l quotas used =
    elim (Bool-cases (is_tighter l.token_quota (lookup j quotas))) [
      | inl e ↦ rw e (allows-insert j k l quotas used e)
      | inr e ↦ rw e (elim (Bool-cases (str_eq j k)) [
        | inl same ↦ rw same (rw (← (eq_iff j k).0 same) (allows_looser (lookup j quotas) l used e))
        | inr other ↦ rw other (ground arith)
      ])
    ]

allows-limit_of :
    (b : Budget) (n : ℕ) (k : String) (quotas : List (String × Limit)) (used : ℕ)
    → allows (lookup k (book_quota b (some n) quotas)) used ≡ (
        allows (lookup k quotas) used
        && (not (str_eq (budget_counter_identity b) k) || fits used (some n)))
unfolding limit_of
allows-limit_of b n k quotas used =
    allows-keep_tighter (budget_counter_identity b) k (limit_of b n) quotas used

allows-book_all :
    (allowed : List String) (bs : List Budget) (quotas : List (String × Limit)) (k : String)
    (used : ℕ)
    → allows (lookup k (book_all allowed bs quotas)) used
      ≡ (allows (lookup k quotas) used && budgets_admit allowed bs k used)
allows-book_all allowed [] quotas k used = ground arith
allows-book_all allowed (b ∷ bs) quotas k used = elim (Option-cases (capacity allowed b)) [
  | inl e ↦ rw e (ground (arith, allows-book_all allowed bs quotas k used))
  | inr (n, e) ↦ rw e (
      allows-book_all allowed bs (book_quota b (some n) quotas) k used
      ∙ ap (λ x. x && budgets_admit allowed bs k used) (allows-limit_of b n k quotas used)
      ∙ &&_assoc (allows (lookup k quotas) used)
          (not (str_eq (budget_counter_identity b) k) || fits used (some n))
          (budgets_admit allowed bs k used))
]

every_split :
    (s : String) (ss : List String) (p : Limit → Bool) (ls : List Limit)
    → (every (λ l. not (str_eq l.scope s) || p l) ls
        && every (λ l. not (contains l.scope ss) || p l) ls)
      ≡ every (λ l. not (contains l.scope (s ∷ ss)) || p l) ls
every_split s ss p [] = refl
every_split s ss p (l ∷ ls) =
    ground (arith, every_split s ss p ls, eq_iff l.scope s, eq_iff s l.scope)

every-in_scope_order :
    (compare : String → String → Comparison) (ss : List String) (p : Limit → Bool) (ls : List Limit)
    → every p (in_scope_order compare ss ls) ≡ every (λ l. not (contains l.scope ss) || p l) ls
unfolding in_scope_order
every-in_scope_order compare [] p [] = refl
every-in_scope_order compare [] p (l ∷ ls) = every-in_scope_order compare [] p ls
every-in_scope_order compare (s ∷ ss) p ls =
    rw
      (
        every-append p
            (sort_by (λ l m. precedes compare l.model_scope m.model_scope)
              (keep (λ l. str_eq l.scope s) ls))
            (in_scope_order compare ss ls),
        every-sort_by p (λ l m. precedes compare l.model_scope m.model_scope)
            (keep (λ l. str_eq l.scope s) ls),
        every-keep p (λ l. str_eq l.scope s) ls,
        every-in_scope_order compare ss p ls,
      )
      (every_split s ss p ls)

every_scoped :
    (p : Limit → Bool) (m : List (String × Limit))
    → WellKept m
    → every (λ l. not (contains l.scope scopes) || p l) (values m) ≡ every p (values m)
every_scoped p [] w = refl
every_scoped p ((j, l) ∷ m) (_, _, s, w) = rw (s, every_scoped p m w) refl

tokens_admitted :
    (compare : String → String → Comparison) (s : Snapshot) (c : Setting) {p : Publication}
    → str_eq s.status "complete" ≡ true
    → publish_budgets compare s c ≡ done p
    → (k : String) (used : ℕ)
    → limits_admit p.limits k used ≡ budgets_admit c.allowed_models s.budgets k used
unfolding publish_budgets published
tokens_admitted compare s c complete h k used =
    let (q, ran, e) =
      >>=-eq-done (publish_all c s.budgets nothing_published) _ (rw complete at h) in
    let quotas = quotas-publish_all c s.budgets nothing_published ran in
    let w : WellKept q.quota_by_key = rw quotas (
      WellKept-book_all c.allowed_models s.budgets []
        (scopes-publish_all c s.budgets nothing_published ran) tt) in
    rw (← done_injective _ _ e) (
      every-in_scope_order compare scopes
        (λ l. not (str_eq (limit_counter l) k) || leb used l.token_quota) (values q.quota_by_key)
      ∙ every_scoped _ q.quota_by_key w
      ∙ limits_admit-values q.quota_by_key k used w
      ∙ rw quotas (allows-book_all c.allowed_models s.budgets [] k used))

weaker :
    (f p : Limit → Bool) (ls : List Limit)
    → every p ls ≡ true
    → every (λ l. not (f l) || p l) ls ≡ true
weaker f p [] h = refl
weaker f p (l ∷ ls) h = ground (arith, weaker f p ls (ground (arith, h)), h)

limits_in_period :
    (compare : String → String → Comparison) (s : Snapshot) (c : Setting)
    (period_of : String → String) {p : Publication}
    → All (λ b. b.period ≡ period_of (budget_counter_identity b)) s.budgets
    → str_eq s.status "complete" ≡ true
    → publish_budgets compare s c ≡ done p
    → every (in_period period_of) p.limits ≡ true
unfolding publish_budgets published
limits_in_period compare s c period_of alike complete h =
    let (q, ran, e) =
      >>=-eq-done (publish_all c s.budgets nothing_published) _ (rw complete at h) in
    let quotas = quotas-publish_all c s.budgets nothing_published ran in
    let kept : every (in_period period_of) (values q.quota_by_key) ≡ true =
      rw quotas (every-book_all period_of c.allowed_models s.budgets [] alike refl) in
    rw (← done_injective _ _ e) (
      every-in_scope_order compare scopes (in_period period_of) (values q.quota_by_key)
      ∙ weaker (λ l. contains l.scope scopes) (in_period period_of) (values q.quota_by_key) kept)

-- The limits and the budgets that bear on the use of a counter in a period.
abbrev pub period_limits_admit : List Limit → String → String → ℕ → Bool
period_limits_admit limits k period used =
    every
      (λ l.
        not (str_eq (limit_counter l) k)
        || (not (str_eq l.quota_period period) || leb used l.token_quota))
      limits

abbrev pub period_budgets_admit : List String → List Budget → String → String → ℕ → Bool
period_budgets_admit allowed budgets k period used =
    every
      (λ b.
        not (str_eq (budget_counter_identity b) k)
        || (not (str_eq b.period period) || fits used (capacity allowed b)))
      budgets

-- Where each counter has one period, the period decides before the limits.
limits_by_period :
    (period_of : String → String) (limits : List Limit) (k period : String) (used : ℕ)
    → every (in_period period_of) limits ≡ true
    → period_limits_admit limits k period used
      ≡ (not (str_eq (period_of k) period) || limits_admit limits k used)
limits_by_period period_of [] k period used h = ground arith
limits_by_period period_of (l ∷ ls) k period used h =
    let rest = limits_by_period period_of ls k period used (ground (arith, h)) in
    elim (Bool-cases (str_eq (limit_counter l) k)) [
      | inr other ↦ rw (other, rest) refl
      | inl same ↦
          let there : l.quota_period ≡ period_of k =
            (eq_iff _ _).0 (ground (arith, h))
            ∙ ap period_of ((eq_iff (limit_counter l) k).0 same) in
          rw (same, there, rest) (ground arith)
    ]

budgets_by_period :
    (period_of : String → String) (allowed : List String) (bs : List Budget) (k period : String)
    (used : ℕ)
    → All (λ b. b.period ≡ period_of (budget_counter_identity b)) bs
    → period_budgets_admit allowed bs k period used
      ≡ (not (str_eq (period_of k) period) || budgets_admit allowed bs k used)
budgets_by_period period_of allowed [] k period used h = ground arith
budgets_by_period period_of allowed (b ∷ bs) k period used (one, h) =
    let rest = budgets_by_period period_of allowed bs k period used h in
    elim (Bool-cases (str_eq (budget_counter_identity b) k)) [
      | inr other ↦ rw (other, rest) refl
      | inl same ↦
          let there : b.period ≡ period_of k =
            one ∙ ap period_of ((eq_iff (budget_counter_identity b) k).0 same) in
          rw (same, there, rest) (ground arith)
    ]

-- Where a snapshot is complete and its budgets on a counter have one period, what the published limits
-- admit on a counter in a period is what every budget on that counter with that period admits, for the
-- allowed models: nothing is lost by keeping one limit for a counter, and no limit is tighter than
-- every budget.
pub publish_budgets-refines :
    (compare : String → String → Comparison) (s : Snapshot) (c : Setting)
    (period_of : String → String) {p : Publication}
    → All (λ b. b.period ≡ period_of (budget_counter_identity b)) s.budgets
    → str_eq s.status "complete" ≡ true
    → publish_budgets compare s c ≡ done p
    → (k period : String) (used : ℕ)
    → period_limits_admit p.limits k period used
      ≡ period_budgets_admit c.allowed_models s.budgets k period used
publish_budgets-refines compare s c period_of alike complete h k period used =
    limits_by_period period_of _ k period used
      (limits_in_period compare s c period_of alike complete h)
    ∙ ap (λ x. not (str_eq (period_of k) period) || x)
        (tokens_admitted compare s c complete h k used)
    ∙ sym (budgets_by_period period_of c.allowed_models s.budgets k period used alike)
