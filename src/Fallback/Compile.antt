-- ===== src/Fallback/Compile.antt =====
-- What fallback-plan-compiler.mjs makes of a plan for one caller, and `resolveModelDescriptor` of
-- app/governance-domain/registry/model-registry-validator.mjs. `localeCompare` is a parameter.
use azure_llm_governance_api.Prelude.{
  ℕ, String, ◌<>◌, Bool, true, false, not, Option, none, some, List, [], ◌∷◌, str_eq, leb, ltb,
  if◌then◌else◌, find, is_none, or_default, Reply, done, ensure, ◌>>=◌, ◌>>◌,
}
use azure_llm_governance_api.Prelude.Lists.{sort_by}
use azure_llm_governance_api.Prelude.Time.{Instant}
use azure_llm_governance_api.Prelude.Sets.{contains, sorted_set}
use azure_llm_governance_api.Fallback.{Edge, Plan}
use azure_llm_governance_api.Fallback.Plans.{parse_time}

pub record Descriptor : Type 0 where
  pub model_key : String
  pub provider_key : String
  pub api_families : List String

pub record Application : Type 0 where
  pub application_id : String
  pub attribution_quality : String
  pub display_code : String

pub record Registry : Type 0 where
  pub status : String
  pub snapshot_id : String
  pub version : ℕ
  pub models : List Descriptor
  pub applications : List Application

unfoldable pub resolve_model_descriptor : Registry → String → Option Descriptor
resolve_model_descriptor r key = find (λ d. str_eq d.model_key key) r.models

-- The part of `evaluateHop` behind the two entitlement tests.
unfoldable pub registered_hop : Option Descriptor → Option Descriptor → String → Option String
registered_hop (some source) (some target) family =
    if not (contains family source.api_families)
    then some "fallback-source-api-family-absent"
    else if contains family target.api_families
    then none
    else some "fallback-api-family-narrowed"
registered_hop _ _ family = some "fallback-model-unregistered"

-- `none` for a hop that may be taken, and the reason of one that may not.
unfoldable pub evaluate_hop : Edge → Registry → List String → String → Option String
unfolding registered_hop resolve_model_descriptor
evaluate_hop e registry allowed family =
    if not (contains e.from allowed)
    then some "fallback-source-not-entitled"
    else if not (contains e.to allowed)
    then some "fallback-target-not-entitled"
    else registered_hop (resolve_model_descriptor registry e.from)
        (resolve_model_descriptor registry e.to) family

pub record Refused : Type 0 where
  pub model_key : String
  pub blocked_by : String

pub record Targets : Type 0 where
  pub permitted : List String
  pub refused : List Refused

abbrev pub api_families : List String
api_families = "anthropic-messages" ∷ "openai-chat-completions" ∷ "openai-responses" ∷ []

unfoldable pub add_target : String → Option String → Targets → Targets
add_target t none rest = record rest { permitted = t ∷ rest.permitted }
add_target t (some reason) rest = record rest {
  refused = (record { model_key = t; blocked_by = reason }) ∷ rest.refused;
}

unfoldable pub targets_of : Registry → List String → String → String → List String → Targets
unfolding add_target evaluate_hop
targets_of registry allowed source family [] = record { permitted = []; refused = [] }
targets_of registry allowed source family (t ∷ ts) =
    let rest = targets_of registry allowed source family ts in
    if str_eq t source
    then rest
    else add_target t (evaluate_hop (record { from = source; to = t }) registry allowed family) rest

unfoldable pub derive_permitted_targets : Registry → List String → String → String → Reply ⊥ Targets
unfolding targets_of
derive_permitted_targets registry allowed source family = do
  ensure (not (str_eq source "")) "source must name a model."
  ensure (contains family api_families)
      "apiFamily must name the wire contract the targets are judged for."
  done (
      if str_eq registry.status "complete"
      then targets_of registry allowed source family (sorted_set allowed)
      else record { permitted = []; refused = [] })

pub data Disposition : Type 0 where
  unavailable disabled compiled : Disposition

pub record Rejection : Type 0 where
  pub from : String
  pub to : String
  pub blocked_by : String

pub record Compiled : Type 0 where
  pub disposition : Disposition
  pub enabled : Bool
  pub max_depth : ℕ
  pub on_exhausted : String
  pub model_selection_intent : String
  pub substitution_notice : String
  pub chain : List Edge
  pub rejections : List Rejection
  pub reason_code : String

abbrev pub walk_depth : ℕ
walk_depth = 1

-- `unavailable` and `disabled`, which differ in the disposition.
unfoldable pub without_chain : Disposition → Plan → String → Compiled
without_chain disposition p reason = record {
  disposition = disposition;
  enabled = false;
  max_depth = walk_depth;
  on_exhausted = or_default p.on_exhausted "continue-with-requested";
  model_selection_intent = or_default p.model_selection_intent "pinned";
  substitution_notice = or_default p.substitution_notice "header";
  chain = [];
  rejections = [];
  reason_code = reason;
}

-- The two lists that the loop over `plan.edges` fills.
unfoldable pub chain_of : Registry → List String → String → List Edge → List Edge
unfolding evaluate_hop
chain_of registry allowed family [] = []
chain_of registry allowed family (e ∷ es) =
    let rest = chain_of registry allowed family es in
    if is_none (evaluate_hop e registry allowed family) then e ∷ rest else rest

unfoldable pub rejections_of : Registry → List String → String → List Edge → List Rejection
unfolding evaluate_hop
rejections_of registry allowed family [] = []
rejections_of registry allowed family (e ∷ es) =
    let rest = rejections_of registry allowed family es in
    elim (evaluate_hop e registry allowed family) [
      | none ↦ rest
      | some reason ↦ (record { from = e.from; to = e.to; blocked_by = reason }) ∷ rest
    ]

pub data Comparison : Type 0 where
  less same greater : Comparison

-- `byFrom`, for a `localeCompare`.
unfoldable pub by_from : (String → String → Comparison) → String → String → String → String → Bool
by_from compare from to other_from other_to = elim (compare from other_from) [
  | less ↦ true
  | greater ↦ false
  | same ↦ elim (compare to other_to) [ less ↦ true | _ ↦ false ]
]

unfoldable pub has_hops : List Edge → Bool
has_hops [] = false
has_hops (e ∷ es) = true

unfoldable pub compiled_plan : Plan → List Edge → List Rejection → Compiled
unfolding has_hops
compiled_plan p chain rejections = record {
  disposition = compiled;
  enabled = has_hops chain;
  max_depth = walk_depth;
  on_exhausted = or_default p.on_exhausted "continue-with-requested";
  model_selection_intent = or_default p.model_selection_intent "pinned";
  substitution_notice = or_default p.substitution_notice "header";
  chain = chain;
  rejections = rejections;
  reason_code = if has_hops chain then "fallback-compiled" else "fallback-no-permitted-target";
}

-- `plan.validUntil !== null && parseTime(plan.validUntil) <= now`
unfoldable pub window_closed : Option Instant → ℕ → Reply ⊥ Bool
unfolding parse_time
window_closed none now = done false
window_closed (some until) now = do end ← parse_time until "plan.validUntil"; done (leb end now)

-- The hops of a plan that is in force.
unfoldable pub compile_edges :
    (String → String → Comparison) → Plan → Registry → List String → String → Compiled
unfolding by_from compiled_plan chain_of rejections_of
compile_edges compare p registry allowed family =
    compiled_plan p
      (sort_by (λ e f. by_from compare e.from e.to f.from f.to)
        (chain_of registry allowed family p.edges))
      (sort_by (λ e f. by_from compare e.from e.to f.from f.to)
        (rejections_of registry allowed family p.edges))

unfoldable pub compile_in_time :
    (String → String → Comparison)
    → Plan
    → Registry
    → List String
    → Instant
    → String
    → Reply ⊥ Compiled
unfolding parse_time window_closed compile_edges without_chain
compile_in_time compare p registry allowed evaluation family = do
  now ← parse_time evaluation "evaluationTime"
  from ← parse_time p.valid_from "plan.validFrom"
  (if ltb now from then done (without_chain disabled p "fallback-plan-not-yet-valid") else (do
    closed ← window_closed p.valid_until now
    done (
        if closed
        then without_chain disabled p "fallback-plan-window-closed"
        else compile_edges compare p registry allowed family)))

unfoldable pub compile_fallback_plan :
    (String → String → Comparison)
    → Plan
    → Registry
    → List String
    → Instant
    → String
    → Reply ⊥ Compiled
unfolding compile_in_time without_chain
compile_fallback_plan compare p registry allowed evaluation family =
    let in_time = compile_in_time compare p registry allowed evaluation family in
    do
      ensure (contains family api_families)
          "apiFamily must name the wire contract the chain is compiled for."
      (if not (str_eq registry.status "complete")
          then done (without_chain unavailable p "model-registry-unavailable")
          else if not p.enabled
          then done (without_chain disabled p "fallback-not-opted-in")
          else if not (str_eq p.state "active")
          then done (without_chain disabled p ("fallback-plan-" <> p.state))
          else in_time)
