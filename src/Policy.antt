-- ===== src/Policy.antt =====
-- The limits of an effective policy: `moreRestrictive`, `collectLimits` and `mergeBudgetLimits` of
-- effective-policy-composer.mjs. Hourly rates are compared as exact quotients, which the source's
-- floating-point ones order alike below 2 ^ 44 tokens. The order of `localeCompare` is a parameter.
use azure_llm_governance_api.Prelude.{
  ℕ, ◌*◌, String, ◌<>◌, Bool, true, false, not, ◌&&◌, ◌||◌, Option, none, some, List, [], ◌∷◌, ◌++◌,
  map, str_eq, ltb, ◌==◌, if◌then◌else◌, is_none, or_default, keep,
}
use azure_llm_governance_api.Prelude.Lists.{sort_by}
use azure_llm_governance_api.Prelude.Dict.{lookup, insert, values}
use azure_llm_governance_api.Authorization.{
  Binding, Limits, Target, everyone, of_team, of_subject, of_application, Period, hourly, daily,
  weekly, monthly, yearly,
}
use azure_llm_governance_api.Budget.{Thresholds}
use azure_llm_governance_api.Fallback.Compile.{Comparison}
use azure_llm_governance_api.Budget.Snapshot.{precedes}
pub mod Compose
pub mod Caps
pub mod Merged
pub mod Paired
pub mod Listed
pub mod Composed
pub mod Accepting
mod Tests

pub record Quota : Type 0 where
  pub token_quota : ℕ
  pub quota_period : Period

-- `PERIOD_HOURS`
abbrev pub hours : Period → ℕ
hours hourly = 1
hours daily = 24
hours weekly = 168
hours monthly = 730
hours yearly = 8760

abbrev pub scope_order : List String
scope_order = "organization" ∷ "team" ∷ "subject" ∷ "application" ∷ []

-- `SCOPE_BY_TARGET_KIND`
abbrev pub scope_of : Target → String
scope_of everyone = "organization"
scope_of (of_team _) = "team"
scope_of (of_subject _) = "subject"
scope_of (of_application _) = "application"

-- A lower rate, or at the same rate a lower quota.
unfoldable pub is_lower : Quota → Quota → Bool
is_lower c i =
    let mine = c.token_quota * hours i.quota_period in
    let theirs = i.token_quota * hours c.quota_period in
    if mine == theirs then ltb c.token_quota i.token_quota else ltb mine theirs

unfoldable pub more_restrictive : Quota → Option Quota → Bool
unfolding is_lower
more_restrictive c none = true
more_restrictive c (some i) = is_lower c i

-- What the map `byScope` holds.
pub record ScopeEntry : Type 0 where
  pub quota : Option Quota
  pub tokens_per_minute : Option ℕ
  pub requests_per_minute : Option ℕ

abbrev pub empty_entry : ScopeEntry
empty_entry = record { quota = none; tokens_per_minute = none; requests_per_minute = none }

unfoldable pub lower_rate : Option ℕ → Option ℕ → Option ℕ
lower_rate none held = held
lower_rate (some n) none = some n
lower_rate (some n) (some m) = if ltb n m then some n else some m

unfoldable pub lower_quota : Option (ℕ × Period) → Option Quota → Option Quota
unfolding more_restrictive
lower_quota none held = held
lower_quota (some (n, p)) held =
    let candidate : Quota = record { token_quota = n; quota_period = p } in
    if more_restrictive candidate held then some candidate else held

unfoldable pub absorb : Limits → ScopeEntry → ScopeEntry
unfolding lower_rate lower_quota
absorb l e = record {
  quota = lower_quota l.quota e.quota;
  tokens_per_minute = lower_rate l.tokens_per_minute e.tokens_per_minute;
  requests_per_minute = lower_rate l.requests_per_minute e.requests_per_minute;
}

-- A team's binding counts for the subject where no team can be named.
unfoldable pub governed_scope : Bool → Target → String
governed_scope attributable t =
    if str_eq (scope_of t) "team" && not attributable then "subject" else scope_of t

unfoldable pub collect :
    Bool → List Binding → List (String × ScopeEntry) → List (String × ScopeEntry)
unfolding absorb governed_scope
collect attributable [] by_scope = by_scope
collect attributable (b ∷ bs) by_scope =
    let scope = governed_scope attributable b.target in
    collect attributable bs
      (insert scope (absorb b.limits (or_default (lookup scope by_scope) empty_entry)) by_scope)

-- The budget that a limit was derived from.
pub record Source : Type 0 where
  pub budget_id : String
  pub budget_version : ℕ
  pub budget_action : String
  pub accounting_basis : Option String
  pub budget_thresholds : Thresholds

pub record Limit : Type 0 where
  pub scope : String
  pub model_scope : String
  pub model_key : Option String
  pub quota : Option Quota
  pub tokens_per_minute : Option ℕ
  pub requests_per_minute : Option ℕ
  pub source : Option Source

abbrev pub scope_limit : String → ScopeEntry → Limit
scope_limit s e = record {
  scope = s;
  model_scope = "all-models";
  model_key = none;
  quota = e.quota;
  tokens_per_minute = e.tokens_per_minute;
  requests_per_minute = e.requests_per_minute;
  source = none;
}

abbrev pub is_capped : ScopeEntry → Bool
is_capped e =
    not (is_none e.quota)
    || (not (is_none e.tokens_per_minute) || not (is_none e.requests_per_minute))

unfoldable pub entry_limits : String → Option ScopeEntry → List Limit
entry_limits s none = []
entry_limits s (some e) = if is_capped e then scope_limit s e ∷ [] else []

unfoldable pub limits_of : List String → List (String × ScopeEntry) → List Limit
unfolding entry_limits
limits_of [] by_scope = []
limits_of (s ∷ ss) by_scope = entry_limits s (lookup s by_scope) ++ limits_of ss by_scope

unfoldable pub collect_limits : Bool → List Binding → List Limit
unfolding collect limits_of
collect_limits attributable bindings = limits_of scope_order (collect attributable bindings [])

-- A limit that a budget publishes.
pub record BudgetLimit : Type 0 where
  pub scope : String
  pub model_scope : String
  pub model_key : Option String
  pub quota : Quota
  pub source : Source

abbrev joined : Option String → String
joined none = ""
joined (some k) = k

unfoldable pub identity_of : String → String → Option String → String
identity_of scope model_scope key =
    scope
    <> "|"
    <> model_scope
    <> "|"
    <> (if str_eq model_scope "per-model" then joined key else "all")

abbrev pub limit_identity : Limit → String
limit_identity l = identity_of l.scope l.model_scope l.model_key

-- `new Map(limits.map((limit) => [identityOf(limit), limit]))`
unfoldable pub by_pair : List Limit → List (String × Limit) → List (String × Limit)
by_pair [] m = m
by_pair (l ∷ ls) m = by_pair ls (insert (limit_identity l) l m)

abbrev pub held_quota : Option Limit → Option Quota
held_quota none = none
held_quota (some l) = l.quota

abbrev pub held_tokens : Option Limit → Option ℕ
held_tokens none = none
held_tokens (some l) = l.tokens_per_minute

abbrev pub held_requests : Option Limit → Option ℕ
held_requests none = none
held_requests (some l) = l.requests_per_minute

-- `{ ...candidate, ...rates }`
unfoldable pub with_rates : BudgetLimit → Option Limit → Limit
with_rates c incumbent = record {
  scope = c.scope;
  model_scope = c.model_scope;
  model_key = c.model_key;
  quota = some c.quota;
  tokens_per_minute = held_tokens incumbent;
  requests_per_minute = held_requests incumbent;
  source = some c.source;
}

unfoldable pub merge_one : BudgetLimit → List (String × Limit) → List (String × Limit)
unfolding more_restrictive with_rates identity_of
merge_one c m =
    let key = identity_of c.scope c.model_scope c.model_key in
    if more_restrictive c.quota (held_quota (lookup key m))
    then insert key (with_rates c (lookup key m)) m
    else m

unfoldable pub merge_all : List BudgetLimit → List (String × Limit) → List (String × Limit)
unfolding merge_one
merge_all [] m = m
merge_all (c ∷ cs) m = merge_all cs (merge_one c m)

abbrev sort_key : Limit → String
sort_key l = l.model_scope <> "|" <> joined l.model_key

unfoldable pub by_scope_order :
    (String → String → Comparison) → List String → List Limit → List Limit
by_scope_order compare [] ls = []
by_scope_order compare (s ∷ ss) ls =
    sort_by (λ l m. precedes compare (sort_key l) (sort_key m)) (keep (λ l. str_eq l.scope s) ls)
    ++ by_scope_order compare ss ls

unfoldable pub merge_budget_limits :
    (String → String → Comparison) → List Limit → List BudgetLimit → List Limit
unfolding by_pair merge_all by_scope_order
merge_budget_limits compare limits [] = limits
merge_budget_limits compare limits (c ∷ cs) =
    by_scope_order compare scope_order (values (merge_all (c ∷ cs) (by_pair limits [])))
