-- ===== src/Budget/Kept.antt =====
-- The quotas that the loop of `publishBudgets` keeps stand under their own counters, once each, with a
-- scope of the list.
use azure_llm_governance_api.Prelude.{
  ℕ, String, ◌≡◌, refl, ◌∙◌, sym, ap, inl, inr, Bool, true, not, ◌||◌, Option, none, some, List, [],
  ◌∷◌, str_eq, leb, every, All, done, ensure, >>=-eq-done, >>-done, Bool-cases, Option-cases,
  ensure-true, arith, eq_iff,
}
use azure_llm_governance_api.Prelude.Dict.{lookup, insert, lookup-insert, values}
use azure_llm_governance_api.Prelude.Sets.{contains}
use azure_llm_governance_api.Budget.{
  Budget, assert_names, assert_enforceable_budget, derive_token_quota, is_per_model, scopes,
  is_positive,
}
use azure_llm_governance_api.Prelude.Text.{is_safe_id}
use azure_llm_governance_api.Budget.Snapshot.{counter_identity, budget_counter_identity}
use azure_llm_governance_api.Budget.Publication.{Limit, Publishing, limit_of}
use azure_llm_governance_api.Budget.Publish.{
  Setting, publish_budget, publish_all, keep_tighter, is_tighter,
}
use azure_llm_governance_api.Budget.Capacity.{capacity, book_all, derive_lem}

abbrev pub limit_counter : Limit → String
limit_counter l = counter_identity l.budget_action l.scope l.model_scope l.model_key

abbrev pub limits_admit : List Limit → String → ℕ → Bool
limits_admit limits k used =
    every (λ l. not (str_eq (limit_counter l) k) || leb used l.token_quota) limits

abbrev pub allows : Option Limit → ℕ → Bool
allows none used = true
allows (some l) used = leb used l.token_quota

-- The quotas stand under their own counters, once each.
abbrev pub WellKept : List (String × Limit) → Type 0
WellKept [] = Unit
WellKept ((j, l) ∷ m) =
    (limit_counter l ≡ j) × (lookup j m ≡ none) × (contains l.scope scopes ≡ true) × WellKept m

WellKept-insert :
    (k : String) (l : Limit) (m : List (String × Limit))
    → limit_counter l ≡ k
    → contains l.scope scopes ≡ true
    → WellKept m
    → WellKept (insert k l m)
unfolding insert
WellKept-insert k l [] e s w = (e, refl, s, tt)
WellKept-insert k l ((j, v) ∷ m) e s (a, b, c, w) = elim (Bool-cases (str_eq j k)) [
  | inl same ↦ rw same (e ∙ sym ((eq_iff j k).0 same), b, s, w)
  | inr other ↦ rw other (
    a,
    lookup-insert k j l m ∙ ground (arith, b, eq_iff j k, eq_iff k j),
    c,
    WellKept-insert k l m e s w,
  )
]

limits_admit-absent :
    (m : List (String × Limit)) (k : String) (used : ℕ)
    → WellKept m
    → lookup k m ≡ none
    → limits_admit (values m) k used ≡ true
limits_admit-absent [] k used w h = refl
limits_admit-absent ((j, l) ∷ m) k used (a, b, c, w) h = elim (Bool-cases (str_eq j k)) [
  | inl e ↦ absurd (ground arith)
  | inr e ↦ rw (a, e) (limits_admit-absent m k used w (rw e at h))
]

pub limits_admit-values :
    (m : List (String × Limit)) (k : String) (used : ℕ)
    → WellKept m
    → limits_admit (values m) k used ≡ allows (lookup k m) used
limits_admit-values [] k used w = refl
limits_admit-values ((j, l) ∷ m) k used (a, b, c, w) = elim (Bool-cases (str_eq j k)) [
  | inl e ↦
      let gone = limits_admit-absent m k used w (rw ((eq_iff j k).0 e) at b) in
      rw (a, e, gone) (ground arith)
  | inr e ↦ rw (a, e) (limits_admit-values m k used w)
]

WellKept-keep_tighter :
    (k : String) (l : Limit) (m : List (String × Limit))
    → limit_counter l ≡ k
    → contains l.scope scopes ≡ true
    → WellKept m
    → WellKept (keep_tighter k l m)
unfolding keep_tighter
WellKept-keep_tighter k l m e s w = elim (Bool-cases (is_tighter l.token_quota (lookup k m))) [
  | inl t ↦ rw t (WellKept-insert k l m e s w)
  | inr t ↦ rw t w
]

-- A limit carries the model key that its counter is named by.
counter-limit_of : (b : Budget) (n : ℕ) → limit_counter (limit_of b n) ≡ budget_counter_identity b
unfolding limit_of budget_counter_identity counter_identity
counter-limit_of b n = elim (Bool-cases (is_per_model b)) [ inl e ↦ rw e refl | inr e ↦ rw e refl ]

scope-assert_names :
    (b : Budget) (path : String) → assert_names b path ≡ done tt → contains b.scope scopes ≡ true
unfolding assert_names
scope-assert_names b path h =
    let (_, h1) = >>-done (ensure (is_safe_id b.budget_id) _) _ h in
    let (_, h2) = >>-done (ensure (is_positive b.budget_version) _) _ h1 in
    let (e, _) = >>-done (ensure (contains b.scope scopes) _) _ h2 in ensure-true _ _ e

scope-enforceable :
    (b : Budget) (path : String)
    → assert_enforceable_budget b path ≡ done tt
    → contains b.scope scopes ≡ true
unfolding assert_enforceable_budget
scope-enforceable b path h =
    let (names, _) = >>-done (assert_names b path) _ h in scope-assert_names b path names

abbrev pub HasScope : Budget → Type 0
HasScope b = contains b.scope scopes ≡ true

pub scopes-publish_all :
    (c : Setting) (bs : List Budget) (p : Publishing) {p' : Publishing}
    → publish_all c bs p ≡ done p'
    → All HasScope bs
unfolding publish_all publish_budget
scopes-publish_all c [] p h = tt
scopes-publish_all c (b ∷ bs) p h =
    let (q, first, rest) = >>=-eq-done (publish_budget c b p) _ h in
    let (d, made, _) =
      >>=-eq-done (derive_token_quota b c.allowed_models c.evaluation_time) _ first in
    let (ok, _) = derive_lem b c.allowed_models c.evaluation_time made in
    (scope-enforceable b "budget" ok, scopes-publish_all c bs q rest)

pub WellKept-book_all :
    (allowed : List String) (bs : List Budget) (m : List (String × Limit))
    → All HasScope bs
    → WellKept m
    → WellKept (book_all allowed bs m)
WellKept-book_all allowed [] m h w = w
WellKept-book_all allowed (b ∷ bs) m (s, h) w = elim (Option-cases (capacity allowed b)) [
  | inl e ↦ rw e (WellKept-book_all allowed bs m h w)
  | inr (n, e) ↦ rw e (
      WellKept-book_all allowed bs (keep_tighter (budget_counter_identity b) (limit_of b n) m) h (
        WellKept-keep_tighter (budget_counter_identity b) (limit_of b n) m (counter-limit_of b n)
          (unfold limit_of in s) w))
]

-- Whether each limit has the period of its counter.
abbrev pub in_period : (String → String) → Limit → Bool
in_period period_of l = str_eq l.quota_period (period_of (limit_counter l))

every-insert :
    (p : Limit → Bool) (k : String) (l : Limit) (m : List (String × Limit))
    → p l ≡ true
    → every p (values m) ≡ true
    → every p (values (insert k l m)) ≡ true
unfolding insert
every-insert p k l [] e h = rw e refl
every-insert p k l ((j, v) ∷ m) e h = elim (Bool-cases (str_eq j k)) [
  | inl same ↦ rw (same, e) (ground (arith, h))
  | inr other ↦ rw other (ground (arith, every-insert p k l m e (ground (arith, h)), h))
]

every-keep_tighter :
    (p : Limit → Bool) (k : String) (l : Limit) (m : List (String × Limit))
    → p l ≡ true
    → every p (values m) ≡ true
    → every p (values (keep_tighter k l m)) ≡ true
unfolding keep_tighter
every-keep_tighter p k l m e h = elim (Bool-cases (is_tighter l.token_quota (lookup k m))) [
  | inl t ↦ rw t (every-insert p k l m e h)
  | inr t ↦ rw t h
]

in_period-limit_of :
    (period_of : String → String) (b : Budget) (n : ℕ)
    → b.period ≡ period_of (budget_counter_identity b)
    → in_period period_of (limit_of b n) ≡ true
in_period-limit_of period_of b n e =
    let same : (limit_of b n).quota_period ≡ b.period = unfold limit_of in refl in
    (eq_iff _ _).1 (same ∙ e ∙ ap period_of (sym (counter-limit_of b n)))

pub every-book_all :
    (period_of : String → String) (allowed : List String) (bs : List Budget)
    (m : List (String × Limit))
    → All (λ b. b.period ≡ period_of (budget_counter_identity b)) bs
    → every (in_period period_of) (values m) ≡ true
    → every (in_period period_of) (values (book_all allowed bs m)) ≡ true
every-book_all period_of allowed [] m h e = e
every-book_all period_of allowed (b ∷ bs) m (same, h) e = elim (Option-cases (capacity allowed b)) [
  | inl c ↦ rw c (every-book_all period_of allowed bs m h e)
  | inr (n, c) ↦ rw c (
      every-book_all period_of allowed bs
        (keep_tighter (budget_counter_identity b) (limit_of b n) m) h
        (every-keep_tighter (in_period period_of) (budget_counter_identity b) (limit_of b n) m
          (in_period-limit_of period_of b n same) e))
]
