-- ===== src/Policy/Merged.antt =====
-- The limits of a policy keep the caps of every binding and of every budget.
use mathlib.Core.List.{Memᴰ}
use azure_llm_governance_api.Prelude.{
  String, ◌≡◌, refl, inl, inr, true, false, Option, none, some, List, str_eq, eq_iff, eq_refl,
  Bool-cases, arith,
}
use azure_llm_governance_api.Prelude.Sets.{contains}
use azure_llm_governance_api.Prelude.Dict.{lookup, insert, lookup-insert}
use azure_llm_governance_api.Authorization.{Limits}
use azure_llm_governance_api.Policy.{
  Quota, more_restrictive, Limit, scope_order, BudgetLimit, identity_of, limit_identity, held_quota,
  with_rates, merge_one,
}
use azure_llm_governance_api.Policy.Caps.{Caps, AtMost-kept, quota_kept_by}

abbrev pub LimitCaps : Limits → Limit → Type 0
LimitCaps l x = Caps l x.quota x.tokens_per_minute x.requests_per_minute

-- A limit of the list that keeps caps on a counter.
abbrev pub CapAt : String → Limits → List Limit → Type 0
CapAt k l ls = (x : Limit) × Memᴰ x ls × (limit_identity x ≡ k) × LimitCaps l x

abbrev pub CapsAt : Limits → Option Limit → Type 0
CapsAt l none = ⊥
CapsAt l (some x) = LimitCaps l x

abbrev pub Sound : String → Option Limit → Type 0
Sound k none = Unit
Sound k (some x) = (limit_identity x ≡ k) × (contains x.scope scope_order ≡ true)

-- Each limit stands under its own identity, with a scope of the list.
abbrev pub Keyed : List (String × Limit) → Type 0
Keyed m = (k : String) → Sound k (lookup k m)

-- A budget caps nothing but the quota.
abbrev pub budget_caps : BudgetLimit → Limits
budget_caps c = record {
  requests_per_minute = none;
  tokens_per_minute = none;
  quota = some (c.quota.token_quota, c.quota.quota_period);
}

abbrev pub budget_identity : BudgetLimit → String
budget_identity c = identity_of c.scope c.model_scope c.model_key

abbrev pub HasScope : BudgetLimit → Type 0
HasScope c = contains c.scope scope_order ≡ true

pub Keyed-insert :
    (k : String) (x : Limit) (m : List (String × Limit))
    → Sound k (some x)
    → Keyed m
    → Keyed (insert k x m)
Keyed-insert k x m s w j = elim (Bool-cases (str_eq k j)) [
  | inl e ↦ rw (lookup-insert k j x m, e) (rw (← (eq_iff k j).0 e) s)
  | inr e ↦ rw (lookup-insert k j x m, e) (w j)
]

pub Keyed-merge_one :
    (c : BudgetLimit) (m : List (String × Limit)) → HasScope c → Keyed m → Keyed (merge_one c m)
unfolding merge_one
Keyed-merge_one c m s w =
    elim (Bool-cases (more_restrictive c.quota (held_quota (lookup (budget_identity c) m)))) [
      | inl e ↦ rw e (
          Keyed-insert (budget_identity c) (with_rates c (lookup (budget_identity c) m)) m
            (unfold with_rates in (refl, s)) w)
      | inr e ↦ rw e w
    ]

with_rates-kept :
    (c : BudgetLimit) (o : Option Limit) (l : Limits)
    → more_restrictive c.quota (held_quota o) ≡ true
    → CapsAt l o
    → LimitCaps l (with_rates c o)
unfolding with_rates
with_rates-kept c none l m h = absurd h
with_rates-kept c (some x) l m h = record {
  by_quota = quota_kept_by _ c.quota x.quota h.by_quota m;
  by_tokens = h.by_tokens;
  by_requests = h.by_requests;
}

pub kept-merge_one :
    (c : BudgetLimit) (m : List (String × Limit)) (k : String) (l : Limits)
    → CapsAt l (lookup k m)
    → CapsAt l (lookup k (merge_one c m))
unfolding merge_one
kept-merge_one c m k l h =
    let j = budget_identity c in
    elim (Bool-cases (more_restrictive c.quota (held_quota (lookup j m)))) [
      | inr e ↦ rw e h
      | inl e ↦ elim (Bool-cases (str_eq j k)) [
        | inr f ↦ rw (e, lookup-insert j k (with_rates c (lookup j m)) m, f) h
        | inl f ↦
            rw (e, lookup-insert j k (with_rates c (lookup j m)) m, f)
              (with_rates-kept c (lookup j m) l e (rw ((eq_iff j k).0 f) h))
      ]
    ]

quota_taken :
    (c : BudgetLimit) (x : Limit) (held : Option Quota)
    → x.quota ≡ held
    → more_restrictive c.quota held ≡ false
    → LimitCaps (budget_caps c) x
unfolding more_restrictive
quota_taken c x none e h = cc
quota_taken c x (some i) e h = record {
  by_quota = rw e (AtMost-kept c.quota i h);
  by_tokens = tt;
  by_requests = tt;
}

none_wins : (c : BudgetLimit) → more_restrictive c.quota none ≡ false → ⊥
unfolding more_restrictive
none_wins c h = cc

held_taken :
    (c : BudgetLimit) (o : Option Limit)
    → more_restrictive c.quota (held_quota o) ≡ false
    → CapsAt (budget_caps c) o
held_taken c none h = absurd (none_wins c h)
held_taken c (some x) h = quota_taken c x x.quota refl h

with_rates-taken : (c : BudgetLimit) (o : Option Limit) → LimitCaps (budget_caps c) (with_rates c o)
unfolding with_rates
with_rates-taken c o = record { by_quota = omega arith; by_tokens = tt; by_requests = tt }

pub taken-merge_one :
    (c : BudgetLimit) (m : List (String × Limit))
    → CapsAt (budget_caps c) (lookup (budget_identity c) (merge_one c m))
unfolding merge_one
taken-merge_one c m =
    let j = budget_identity c in
    elim (Bool-cases (more_restrictive c.quota (held_quota (lookup j m)))) [
      | inr e ↦ rw e (held_taken c (lookup j m) e)
      | inl e ↦
          rw (e, lookup-insert j j (with_rates c (lookup j m)) m, eq_refl j)
            (with_rates-taken c (lookup j m))
    ]
