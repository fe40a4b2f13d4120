-- ===== src/Selection.antt =====
-- app/governance-domain/policy/effective-model-selector.mjs: the model that a request is served with.
-- Quotas, remainders and shares are natural numbers or absent, and the share that is used up is an exact
-- quotient.
pub mod Over
pub mod Moves
pub mod Compiled
mod Tests
use azure_llm_governance_api.Prelude.{
  ℕ, zero, suc, ◌+◌, ◌*◌, String, Bool, true, false, not, ◌&&◌, ◌||◌, Option, none, some, List, [],
  ◌∷◌, leb, ltb, str_eq, if◌then◌else◌, find, any, or_default, Reply, done, thrown, type_error,
  ensure, ◌>>=◌, ◌>>◌,
}
use azure_llm_governance_api.Prelude.Sets.{contains}
use azure_llm_governance_api.Fallback.{Edge}

-- `tokenQuota` is `none` where it is no finite number.
pub record Limit : Type 0 where
  pub scope : String
  pub model_scope : String
  pub token_quota : Option ℕ

-- An entry of `remainingTokensByScope`; `none` where the value is no finite number.
pub record Remaining : Type 0 where
  pub scope : String
  pub tokens : Option ℕ

pub record Pressure : Type 0 where
  pub model : String
  pub consumed_basis_points : Option ℕ

pub record Chain : Type 0 where
  pub enabled : Bool
  pub chain : List Edge
  pub max_depth : Option ℕ

-- The fields of the effective policy document that the selector and its audit record read.
pub record Policy : Type 0 where
  pub warn_threshold_percent : Option ℕ
  pub limits : List Limit
  pub model_pressure : Option (List Pressure)
  pub fallback : Option Chain
  pub model_selection_intent : Option String
  pub allowed_models : List String
  pub config_version : Option ℕ

abbrev pub scope_order : List String
scope_order = "organization" ∷ "team" ∷ "subject" ∷ "application" ∷ []

-- `((quota - remaining) / quota) * 100 >= threshold`, for a quota above 0.
unfoldable pub over_share : ℕ → ℕ → ℕ → Bool
over_share quota remaining threshold = leb (threshold * quota + remaining * 100) (quota * 100)

-- The tests of the loop, for the limit and the entry of one scope.
unfoldable pub scope_breached : ℕ → Option Limit → Option Remaining → Bool
unfolding over_share
scope_breached threshold (some limit) (some entry) = elim limit.token_quota [
  | none ↦ false
  | some quota ↦ elim entry.tokens [
    | none ↦ false
    | some remaining ↦ ltb 0 quota && over_share quota remaining threshold
  ]
]
scope_breached threshold _ _ = false

unfoldable pub is_breached : List Limit → List Remaining → ℕ → String → Bool
unfolding scope_breached
is_breached limits remaining threshold scope =
    scope_breached threshold
      (find (λ l. str_eq l.scope scope && str_eq l.model_scope "all-models") limits)
      (find (λ r. str_eq r.scope scope) remaining)

unfoldable pub breached_among : List Limit → List Remaining → ℕ → List String → List String
unfolding is_breached
breached_among limits remaining threshold [] = []
breached_among limits remaining threshold (s ∷ ss) =
    let rest = breached_among limits remaining threshold ss in
    if is_breached limits remaining threshold s then s ∷ rest else rest

unfoldable pub breached_scopes : List Limit → List Remaining → ℕ → List String
unfolding breached_among
breached_scopes limits remaining threshold = breached_among limits remaining threshold scope_order

unfoldable pub under_share : ℕ → Option Pressure → Bool
under_share threshold none = false
under_share threshold (some entry) = elim entry.consumed_basis_points [
  | none ↦ false
  | some points ↦ leb (threshold * 100) points
]

unfoldable pub model_under_pressure : Policy → String → ℕ → Bool
unfolding under_share
model_under_pressure p requested threshold = elim p.model_pressure [
  | none ↦ false
  | some entries ↦ under_share threshold (find (λ e. str_eq e.model requested) entries)
]

pub data Verdict : Type 0 where
  selected denied : Verdict

pub record Selection : Type 0 where
  pub decision : Verdict
  pub effective_model : Option String
  pub requested_model : String
  pub hops : ℕ
  pub breached_scopes : List String
  pub model_pressure_breached : Bool
  pub reason_code : String

-- The closure `served`.
unfoldable pub served : String → String → List String → Bool → Selection
served requested reason breached pressed = record {
  decision = selected;
  effective_model = some requested;
  requested_model = requested;
  hops = 0;
  breached_scopes = breached;
  model_pressure_breached = pressed;
  reason_code = reason;
}

pub record Walked : Type 0 where
  pub current : String
  pub hops : ℕ

-- `while (hops < maxDepth)`, on the hops that are left.
unfoldable pub walk_chain : ℕ → List Edge → List String → String → ℕ → Walked
walk_chain zero chain allowed current hops = record { current = current; hops = hops }
walk_chain (suc depth) chain allowed current hops = elim (find (λ e. str_eq e.from current) chain) [
  | none ↦ record { current = current; hops = hops }
  | some e ↦
      let further = walk_chain depth chain allowed e.to (suc hops) in
      if contains e.to allowed then further else record { current = current; hops = hops }
]

-- The answer behind the loop, which ends at a model after some hops.
unfoldable pub after_walk : String → String → List String → Bool → String → ℕ → Selection
unfolding served
after_walk requested on_exhausted breached pressed current zero =
    if str_eq on_exhausted "deny"
    then record {
      decision = denied;
      effective_model = none;
      requested_model = requested;
      hops = 0;
      breached_scopes = breached;
      model_pressure_breached = pressed;
      reason_code = "fallback-exhausted";
    }
    else served requested "fallback-exhausted-served-as-requested" breached pressed
after_walk requested on_exhausted breached pressed current (suc n) = record {
  decision = selected;
  effective_model = some current;
  requested_model = requested;
  hops = suc n;
  breached_scopes = breached;
  model_pressure_breached = pressed;
  reason_code = "fallback-applied";
}

unfoldable pub has_any : List String → Bool
has_any [] = false
has_any (x ∷ xs) = true

-- What follows once the chain is known to be enabled.
unfoldable pub select_enabled :
    String → Policy → String → ℕ → List String → Bool → Chain → Selection
unfolding walk_chain after_walk served has_any
select_enabled requested p on_exhausted threshold breached pressed c =
    let w = walk_chain (or_default c.max_depth 1) c.chain p.allowed_models requested 0 in
    if not (str_eq (or_default p.model_selection_intent "pinned") "preferred")
    then served requested "model-pinned" breached pressed
    else if not (ltb 0 threshold)
    then served requested "fallback-no-threshold" [] false
    else if not (has_any breached) && not pressed
    then served requested "within-budget" [] false
    else after_walk requested on_exhausted breached pressed w.current w.hops

unfoldable pub select_measured :
    String → Policy → String → ℕ → List String → Bool → Option Chain → Selection
unfolding select_enabled served
select_measured requested p on_exhausted threshold breached pressed none =
    served requested "fallback-disabled" breached pressed
select_measured requested p on_exhausted threshold breached pressed (some c) =
    if c.enabled
    then select_enabled requested p on_exhausted threshold breached pressed c
    else served requested "fallback-disabled" breached pressed

unfoldable pub select_effective_model :
    String → Policy → List Remaining → String → Reply ⊥ Selection
unfolding select_measured breached_scopes model_under_pressure
select_effective_model requested p remaining on_exhausted =
    let threshold = or_default p.warn_threshold_percent 0 in
    let measurable = ltb 0 threshold in
    let breached = (if measurable then breached_scopes p.limits remaining threshold else []) in
    let pressed = measurable && model_under_pressure p requested threshold in
    do
      ensure (not (str_eq requested "")) "requestedModel is required."
      ensure (contains on_exhausted ("deny" ∷ "continue-with-requested" ∷ []))
          "onExhausted must be deny or continue-with-requested."
      done (select_measured requested p on_exhausted threshold breached pressed p.fallback)
