-- ===== src/Policy/Caps.antt =====
-- Caps that are at least as tight as those of a binding, and how folding keeps them.
use native.Mathlib.Nat.{le_of_mul-le-mul_right, mul-le-mul_right}
use azure_llm_governance_api.Prelude.{
  ℕ, ◌*◌, ◌≤◌, ◌<◌, String, ◌≡◌, inl, inr, Bool, true, false, Option, none, some, List, [], ◌∷◌,
  str_eq, eq_iff, eq_refl, ltb, or_default, Bool-cases, arith, All,
}
use azure_llm_governance_api.Prelude.Dict.{lookup, insert, lookup-insert}
use azure_llm_governance_api.Authorization.{
  Binding, Limits, Period, hourly, daily, weekly, monthly, yearly,
}
use azure_llm_governance_api.Policy.{
  Quota, hours, is_lower, more_restrictive, ScopeEntry, empty_entry, lower_rate, lower_quota,
  absorb, governed_scope, collect,
}

-- The hourly rate of one quota is at most that of another.
abbrev pub AtMost : Quota → Quota → Type 0
AtMost a b = a.token_quota * hours b.quota_period ≤ b.token_quota * hours a.quota_period

hours-pos : (p : Period) → 0 < hours p
hours-pos hourly = omega arith
hours-pos daily = omega arith
hours-pos weekly = omega arith
hours-pos monthly = omega arith
hours-pos yearly = omega arith

regroup : (a h k : ℕ) → a * h * k ≡ a * k * h
regroup a h k = grind arith

pub AtMost-trans : (a b c : Quota) → AtMost a b → AtMost b c → AtMost a c
AtMost-trans a b c p q =
    let ha = hours a.quota_period in
    let hb = hours b.quota_period in
    let hc = hours c.quota_period in
    le_of_mul-le-mul_right {k = hb}
      (omega (
        arith,
        mul-le-mul_right hc p,
        mul-le-mul_right ha q,
        regroup a.token_quota hb hc,
        regroup b.token_quota ha hc,
        regroup c.token_quota hb ha,
      ))
      (hours-pos b.quota_period)

pub AtMost-lower : (a b : Quota) → is_lower a b ≡ true → AtMost a b
unfolding is_lower
AtMost-lower a b h = ground arith

pub AtMost-kept : (a b : Quota) → is_lower a b ≡ false → AtMost b a
unfolding is_lower
AtMost-kept a b h = ground arith

abbrev pub RateWithin : Option ℕ → Option ℕ → Type 0
RateWithin none held = Unit
RateWithin (some n) none = ⊥
RateWithin (some n) (some m) = m ≤ n

abbrev pub QuotaWithin : Option Quota → Option Quota → Type 0
QuotaWithin none held = Unit
QuotaWithin (some q) none = ⊥
QuotaWithin (some q) (some held) = AtMost held q

abbrev pub quota_of : Option (ℕ × Period) → Option Quota
quota_of none = none
quota_of (some (n, p)) = some (record { token_quota = n; quota_period = p })

-- Whatever a binding caps is capped as tightly at least.
pub record Caps (l : Limits) (quota : Option Quota) (tokens requests : Option ℕ) : Type 0 where
  pub by_quota : QuotaWithin (quota_of l.quota) quota
  pub by_tokens : RateWithin l.tokens_per_minute tokens
  pub by_requests : RateWithin l.requests_per_minute requests

abbrev pub EntryCaps : Limits → ScopeEntry → Type 0
EntryCaps l e = Caps l e.quota e.tokens_per_minute e.requests_per_minute

rate_taken : (a held : Option ℕ) → RateWithin a (lower_rate a held)
unfolding lower_rate
rate_taken none held = tt
rate_taken (some n) none = omega arith
rate_taken (some n) (some m) = elim (Bool-cases (ltb n m)) [
  | inl e ↦ rw e (omega arith)
  | inr e ↦ rw e (ground arith)
]

rate_kept : (a b held : Option ℕ) → RateWithin a held → RateWithin a (lower_rate b held)
unfolding lower_rate
rate_kept none b held h = tt
rate_kept (some n) none held h = h
rate_kept (some n) (some k) none h = absurd h
rate_kept (some n) (some k) (some m) h = elim (Bool-cases (ltb k m)) [
  | inl e ↦ rw e (ground arith)
  | inr e ↦ rw e h
]

pub quota_kept_by :
    (a : Option Quota) (c : Quota) (held : Option Quota)
    → QuotaWithin a held
    → more_restrictive c held ≡ true
    → QuotaWithin a (some c)
unfolding more_restrictive
quota_kept_by none c held h m = tt
quota_kept_by (some q) c none h m = absurd h
quota_kept_by (some q) c (some i) h m = AtMost-trans c i q (AtMost-lower c i m) h

AtMost-refl : (a : Quota) → AtMost a a
AtMost-refl a = omega arith

quota_taken :
    (a : Option (ℕ × Period)) (held : Option Quota) → QuotaWithin (quota_of a) (lower_quota a held)
unfolding lower_quota more_restrictive
quota_taken none held = tt
quota_taken (some (n, p)) none = omega arith
quota_taken (some (n, p)) (some i) =
    let c : Quota = record { token_quota = n; quota_period = p } in
    elim (Bool-cases (is_lower c i)) [
      | inl e ↦ rw e (omega arith)
      | inr e ↦ rw e (AtMost-kept c i e)
    ]

quota_kept :
    (a : Option Quota) (b : Option (ℕ × Period)) (held : Option Quota)
    → QuotaWithin a held
    → QuotaWithin a (lower_quota b held)
unfolding lower_quota
quota_kept a none held h = h
quota_kept a (some (n, p)) held h =
    let c : Quota = record { token_quota = n; quota_period = p } in
    elim (Bool-cases (more_restrictive c held)) [
      | inl e ↦ rw e (quota_kept_by a c held h e)
      | inr e ↦ rw e h
    ]

pub absorb-taken : (l : Limits) (e : ScopeEntry) → EntryCaps l (absorb l e)
unfolding absorb
absorb-taken l e = record {
  by_quota = quota_taken l.quota e.quota;
  by_tokens = rate_taken l.tokens_per_minute e.tokens_per_minute;
  by_requests = rate_taken l.requests_per_minute e.requests_per_minute;
}

pub absorb-kept : (l k : Limits) (e : ScopeEntry) → EntryCaps l e → EntryCaps l (absorb k e)
unfolding absorb
absorb-kept l k e c = record {
  by_quota = quota_kept (quota_of l.quota) k.quota e.quota c.by_quota;
  by_tokens = rate_kept l.tokens_per_minute k.tokens_per_minute e.tokens_per_minute c.by_tokens;
  by_requests =
      rate_kept l.requests_per_minute k.requests_per_minute e.requests_per_minute c.by_requests;
}

abbrev pub KeepsCaps : Limits → Option ScopeEntry → Type 0
KeepsCaps l none = ⊥
KeepsCaps l (some e) = EntryCaps l e

held_absorb :
    (l k : Limits) (o : Option ScopeEntry)
    → KeepsCaps l o
    → EntryCaps l (absorb k (or_default o empty_entry))
held_absorb l k none h = absurd h
held_absorb l k (some e) h = absorb-kept l k e h

KeepsCaps-insert :
    (s t : String) (l k : Limits) (m : List (String × ScopeEntry))
    → KeepsCaps l (lookup s m)
    → KeepsCaps l (lookup s (insert t (absorb k (or_default (lookup t m) empty_entry)) m))
KeepsCaps-insert s t l k m h = elim (Bool-cases (str_eq t s)) [
  | inr e ↦ rw (lookup-insert t s (absorb k (or_default (lookup t m) empty_entry)) m, e) h
  | inl e ↦
      rw (lookup-insert t s (absorb k (or_default (lookup t m) empty_entry)) m, e)
        (held_absorb l k (lookup t m) (rw ((eq_iff t s).0 e) h))
]

KeepsCaps-new :
    (t : String) (l : Limits) (m : List (String × ScopeEntry))
    → KeepsCaps l (lookup t (insert t (absorb l (or_default (lookup t m) empty_entry)) m))
KeepsCaps-new t l m =
    rw (lookup-insert t t (absorb l (or_default (lookup t m) empty_entry)) m, eq_refl t)
      (absorb-taken l (or_default (lookup t m) empty_entry))

collect-kept :
    (attributable : Bool) (bs : List Binding) (m : List (String × ScopeEntry)) (s : String)
    (l : Limits)
    → KeepsCaps l (lookup s m)
    → KeepsCaps l (lookup s (collect attributable bs m))
unfolding collect
collect-kept attributable [] m s l h = h
collect-kept attributable (b ∷ bs) m s l h =
    collect-kept attributable bs _ s l
      (KeepsCaps-insert s (governed_scope attributable b.target) l b.limits m h)

-- Every binding is capped in its scope.
pub collect-KeepsCaps :
    (attributable : Bool) (bs : List Binding) (m : List (String × ScopeEntry))
    → All
        (λ b.
          KeepsCaps b.limits
            (lookup (governed_scope attributable b.target) (collect attributable bs m)))
        bs
unfolding collect
collect-KeepsCaps attributable [] m = tt
collect-KeepsCaps attributable (b ∷ bs) m = (
  collect-kept attributable bs _ _ b.limits
      (KeepsCaps-new (governed_scope attributable b.target) b.limits m),
  collect-KeepsCaps attributable bs _,
)
