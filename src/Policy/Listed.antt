-- ===== src/Policy/Listed.antt =====
-- The caps of bindings and budgets are found in the list of limits.
use mathlib.Core.List.{Memᴰ}
use mathlib.Core.List.Memᴰ
use azure_llm_governance_api.Prelude.{
  ℕ, String, ◌≡◌, refl, sym, ap, inl, inr, Bool, true, false, not, ◌||◌, Option, none, some, List,
  [], ◌∷◌, map, str_eq, eq_iff, is_none, keep, Bool-cases, Option-cases, arith, All, some_injective,
}
use azure_llm_governance_api.Prelude.Lists.{All-mem, Memᴰ-keep, Memᴰ-sort_by}
use azure_llm_governance_api.Prelude.Sets.{contains, Distinct}
use azure_llm_governance_api.Prelude.Dict.{lookup, values}
use azure_llm_governance_api.Fallback.Compile.{Comparison}
use azure_llm_governance_api.Authorization.{
  Binding, Limits, Period, Target, everyone, of_team, of_subject, of_application,
}
use azure_llm_governance_api.Policy.{
  Quota, ScopeEntry, governed_scope, collect, Limit, scope_limit, is_capped, entry_limits,
  limits_of, scope_order, collect_limits, BudgetLimit, identity_of, by_pair, merge_all,
  by_scope_order, merge_budget_limits,
}
use azure_llm_governance_api.Policy.Caps.{
  RateWithin, quota_of, QuotaWithin, EntryCaps, collect-KeepsCaps,
}
use azure_llm_governance_api.Policy.Merged.{
  CapAt, CapsAt, Keyed, HasScope, budget_caps, budget_identity,
}
use azure_llm_governance_api.Policy.Paired.{
  Keyed-merge_all, kept-merge_all, taken-merge_all, Keyed-by_pair, by_pair_own, apart, identities,
}

-- A binding that caps anything.
abbrev pub has_caps : Limits → Bool
has_caps l =
    not (is_none l.quota)
    || (not (is_none l.tokens_per_minute) || not (is_none l.requests_per_minute))

-- The limits of bindings.
abbrev pub plain : String → String
plain s = identity_of s "all-models" none

listed :
    (s : String) (e : ScopeEntry) (ss : List String) (m : List (String × ScopeEntry))
    → lookup s m ≡ some e
    → is_capped e ≡ true
    → contains s ss ≡ true
    → Memᴰ (scope_limit s e) (limits_of ss m)
unfolding limits_of entry_limits
listed s e [] m h c k = cc
listed s e (t ∷ ts) m h c k = elim (Bool-cases (str_eq t s)) [
  | inl same ↦
      let found : lookup t m ≡ some e = rw ((eq_iff t s).0 same) h in
      rw (← (eq_iff t s).0 same) (rw (found, c) (Memᴰ.head refl))
  | inr other ↦
      Memᴰ.append_right (entry_limits t (lookup t m)) (listed s e ts m h c (rw other at k))
]

present_entry : Option ScopeEntry → Bool
present_entry none = false
present_entry (some e) = is_capped e

present : List (String × ScopeEntry) → String → Bool
present m s = present_entry (lookup s m)

identities-limits_of :
    (ss : List String) (m : List (String × ScopeEntry))
    → identities (limits_of ss m) ≡ map plain (keep (present m) ss)
unfolding limits_of entry_limits present present_entry
identities-limits_of [] m = refl
identities-limits_of (s ∷ ss) m = elim (Option-cases (lookup s m)) [
  | inl e ↦ rw e (identities-limits_of ss m)
  | inr (x, e) ↦ elim (Bool-cases (is_capped x)) [
    | inl c ↦ rw (e, c) (ap (λ ks. plain s ∷ ks) (identities-limits_of ss m))
    | inr c ↦ rw (e, c) (identities-limits_of ss m)
  ]
]

absent_still :
    (k : String) (f : String → String) (p : String → Bool) (xs : List String)
    → contains k (map f xs) ≡ false
    → contains k (map f (keep p xs)) ≡ false
absent_still k f p [] h = refl
absent_still k f p (x ∷ xs) h =
    let (a, b) = apart (f x) k (map f xs) h in
    elim (Bool-cases (p x)) [
      | inl e ↦ rw (e, a) (absent_still k f p xs b)
      | inr e ↦ rw e (absent_still k f p xs b)
    ]

Distinct-map-keep :
    (f : String → String) (p : String → Bool) (xs : List String)
    → Distinct (map f xs)
    → Distinct (map f (keep p xs))
Distinct-map-keep f p [] d = tt
Distinct-map-keep f p (x ∷ xs) (fresh, d) = elim (Bool-cases (p x)) [
  | inl e ↦ rw e (absent_still (f x) f p xs fresh, Distinct-map-keep f p xs d)
  | inr e ↦ rw e (Distinct-map-keep f p xs d)
]

plain-Distinct : Distinct (map plain scope_order)
unfolding identity_of
plain-Distinct = (refl, (refl, (refl, (refl, tt))))

limits_of-Distinct :
    (m : List (String × ScopeEntry)) → Distinct (identities (limits_of scope_order m))
limits_of-Distinct m =
    rw (identities-limits_of scope_order m)
      (Distinct-map-keep plain (present m) scope_order plain-Distinct)

limits_of-scoped :
    (ss : List String) (m : List (String × ScopeEntry))
    → All (λ s. contains s scope_order ≡ true) ss
    → All (λ l. contains l.scope scope_order ≡ true) (limits_of ss m)
unfolding limits_of entry_limits
limits_of-scoped [] m a = tt
limits_of-scoped (s ∷ ss) m (k, a) = elim (Option-cases (lookup s m)) [
  | inl e ↦ rw e (limits_of-scoped ss m a)
  | inr (x, e) ↦ elim (Bool-cases (is_capped x)) [
    | inl c ↦ rw (e, c) (k, limits_of-scoped ss m a)
    | inr c ↦ rw (e, c) (limits_of-scoped ss m a)
  ]
]

value_found :
    (k : String) (x : Limit) (m : List (String × Limit)) → lookup k m ≡ some x → Memᴰ x (values m)
value_found k x [] h = cc
value_found k x ((j, y) ∷ m) h = elim (Bool-cases (str_eq j k)) [
  | inl e ↦ Memᴰ.head (sym (some_injective y x (rw e at h)))
  | inr e ↦ Memᴰ.tail (value_found k x m (rw e at h))
]

ordered_mem :
    (compare : String → String → Comparison) (x : Limit) (ss : List String) (ls : List Limit)
    → Memᴰ x ls
    → contains x.scope ss ≡ true
    → Memᴰ x (by_scope_order compare ss ls)
unfolding by_scope_order
ordered_mem compare x [] ls m h = cc
ordered_mem compare x (s ∷ ss) ls m h = elim (Bool-cases (str_eq s x.scope)) [
  | inl e ↦
      let own : str_eq x.scope s ≡ true = (eq_iff x.scope s).1 (sym ((eq_iff s x.scope).0 e)) in
      Memᴰ.append_left _ (
        (Memᴰ-sort_by _ x (keep (λ l. str_eq l.scope s) ls)).1
          (Memᴰ-keep (λ l. str_eq l.scope s) ls m own))
  | inr e ↦ Memᴰ.append_right _ (ordered_mem compare x ss ls m (rw e at h))
]

-- What stands in the merged map is found in the list.
map_listed :
    (compare : String → String → Comparison) (k : String) (l : Limits) (m : List (String × Limit))
    → Keyed m
    → CapsAt l (lookup k m)
    → CapAt k l (by_scope_order compare scope_order (values m))
map_listed compare k l m w h = elim (Option-cases (lookup k m)) [
  | inl e ↦ absurd (rw e at h)
  | inr (x, e) ↦
      let (same, scoped) = rw e at (w k) in
      (
        x,
        ordered_mem compare x scope_order (values m) (value_found k x m e) scoped,
        same,
        rw e at h,
      )
]

-- A cap leaves a trace.
rate_traced :
    (n held : Option ℕ) → RateWithin n held → not (is_none n) ≡ true → not (is_none held) ≡ true
rate_traced none held h c = cc
rate_traced (some n) none h c = absurd h
rate_traced (some n) (some m) h c = refl

quota_traced :
    (q : Option (ℕ × Period)) (held : Option Quota)
    → QuotaWithin (quota_of q) held
    → not (is_none q) ≡ true
    → not (is_none held) ≡ true
quota_traced none held h c = cc
quota_traced (some (n, p)) none h c = absurd h
quota_traced (some (n, p)) (some m) h c = refl

caps_traced : (l : Limits) (e : ScopeEntry) → EntryCaps l e → has_caps l ≡ true → is_capped e ≡ true
caps_traced l e k h = ground (
  arith,
  quota_traced l.quota e.quota k.by_quota,
  rate_traced l.tokens_per_minute e.tokens_per_minute k.by_tokens,
  rate_traced l.requests_per_minute e.requests_per_minute k.by_requests,
)

governed-scoped :
    (attributable : Bool) (t : Target) → contains (governed_scope attributable t) scope_order ≡ true
unfolding governed_scope
governed-scoped attributable everyone = refl
governed-scoped true (of_team k) = refl
governed-scoped false (of_team k) = refl
governed-scoped attributable (of_subject k) = refl
governed-scoped attributable (of_application k) = refl

merged_caps :
    (compare : String → String → Comparison) (m : List (String × ScopeEntry))
    (cs : List BudgetLimit) (s : String) (e : ScopeEntry) (l : Limits)
    → All HasScope cs
    → EntryCaps l e
    → Memᴰ (scope_limit s e) (limits_of scope_order m)
    → CapAt (plain s) l (merge_budget_limits compare (limits_of scope_order m) cs)
unfolding merge_budget_limits
merged_caps compare m [] s e l hs caps there = (scope_limit s e, there, refl, caps)
merged_caps compare m (c ∷ cs) s e l hs caps there =
    let ls = limits_of scope_order m in
    let own = by_pair_own (scope_limit s e) ls [] (limits_of-Distinct m) there in
    let start : CapsAt l (lookup (plain s) (by_pair ls [])) = rw own caps in
    map_listed compare (plain s) l (merge_all (c ∷ cs) (by_pair ls []))
      (Keyed-merge_all (c ∷ cs) (by_pair ls []) hs (
        Keyed-by_pair ls [] (limits_of-scoped scope_order m (refl, (refl, (refl, (refl, tt)))))
          (λ k. tt)))
      (kept-merge_all (c ∷ cs) (by_pair ls []) (plain s) l start)

-- Whatever a binding caps, a limit of its scope caps as tightly at least.
pub binding-CapAt :
    (compare : String → String → Comparison) (attributable : Bool) (bs : List Binding)
    (cs : List BudgetLimit) (b : Binding)
    → All HasScope cs
    → Memᴰ b bs
    → has_caps b.limits ≡ true
    → CapAt
        (plain (governed_scope attributable b.target))
        b.limits
        (merge_budget_limits compare (collect_limits attributable bs) cs)
unfolding collect_limits
binding-CapAt compare attributable bs cs b hs there capped =
    let m = collect attributable bs [] in
    let s = governed_scope attributable b.target in
    let held = All-mem _ bs b (collect-KeepsCaps attributable bs []) there in
    elim (Option-cases (lookup s m)) [
      | inl e ↦ absurd (rw e at held)
      | inr (x, e) ↦
          let caps : EntryCaps b.limits x = rw e at held in
          merged_caps compare m cs s x b.limits hs caps (
            listed s x scope_order m e (caps_traced b.limits x caps capped)
              (governed-scoped attributable b.target))
    ]

-- Whatever a budget caps, a limit of its counter caps as tightly at least.
pub budget-CapAt :
    (compare : String → String → Comparison) (attributable : Bool) (bs : List Binding)
    (cs : List BudgetLimit) (c : BudgetLimit)
    → All HasScope cs
    → Memᴰ c cs
    → CapAt
        (budget_identity c)
        (budget_caps c)
        (merge_budget_limits compare (collect_limits attributable bs) cs)
unfolding collect_limits merge_budget_limits
budget-CapAt compare attributable bs [] c hs there = absurd (Memᴰ.not-nil there)
budget-CapAt compare attributable bs (d ∷ cs) c hs there =
    let m = collect attributable bs [] in
    let pairs = by_pair (limits_of scope_order m) [] in
    map_listed compare (budget_identity c) (budget_caps c) (merge_all (d ∷ cs) pairs)
      (Keyed-merge_all (d ∷ cs) pairs hs (
        Keyed-by_pair (limits_of scope_order m) []
          (limits_of-scoped scope_order m (refl, (refl, (refl, (refl, tt))))) (λ k. tt)))
      (All-mem _ (d ∷ cs) c (taken-merge_all (d ∷ cs) pairs) there)
