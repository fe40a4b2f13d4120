-- ===== src/Decision.antt =====
-- app/governance-domain/policy/model-selection-decision.mjs: the record of which model a request was
-- governed onto, and `resolveApplicationAttribution` of
-- app/governance-domain/registry/model-registry-validator.mjs.
pub mod Records
mod Tests
use azure_llm_governance_api.Prelude.{
  ℕ, zero, suc, String, Bool, true, false, not, ◌&&◌, ◌||◌, ◌==◌, Option, none, some, List, [], ◌∷◌,
  str_eq, if◌then◌else◌, find, is_none, or_default, Reply, done, thrown, type_error, ensure, ◌>>=◌,
  ◌>>◌,
}
use azure_llm_governance_api.Prelude.Text.{is_application_key}
use azure_llm_governance_api.Prelude.Time.{Instant}
use azure_llm_governance_api.Fallback.Compile.{
  Descriptor, Registry, Application, Rejection, resolve_model_descriptor,
}
use azure_llm_governance_api.Selection.{
  Policy, Remaining, Selection, selected, denied, Verdict, select_effective_model, has_any,
}

pub record Attribution : Type 0 where
  pub application_key : String
  pub quality : Option String
  pub display_code : Option String
  pub reason_code : String

-- `resolveApplicationAttribution`, with the key that the caller adds.
unfoldable pub resolve_application_attribution : Registry → String → String → Attribution
resolve_application_attribution r application_id key =
    elim (find (λ a. str_eq a.application_id application_id) r.applications) [
      | none ↦ record {
        application_key = key;
        quality = none;
        display_code = none;
        reason_code = "application-unregistered";
      }
      | some a ↦ record {
        application_key = key;
        quality = some a.attribution_quality;
        display_code = some a.display_code;
        reason_code = "application-registered";
      }
    ]

unfoldable pub attribution_for : Registry → String → String → Reply ⊥ Attribution
unfolding resolve_application_attribution
attribution_for r application_id key = do
  ensure (is_application_key key) "applicationKey must be a versioned application pseudonym."
  done (
      if str_eq r.status "complete"
      then resolve_application_attribution r application_id key
      else record {
        application_key = key;
        quality = none;
        display_code = none;
        reason_code = "model-registry-unavailable";
      })

pub data Ruling : Type 0 where
  ruled_selected ruled_denied ruled_unavailable : Ruling

pub record Identity : Type 0 where
  pub model_key : String
  pub provider_key : Option String

pub record Trigger : Type 0 where
  pub kind : String
  pub warn_threshold_percent : Option ℕ
  pub breached_scopes : List String

pub record Exhausted : Type 0 where
  pub model_key : String
  pub provider_key : String
  pub blocked_by : String
  pub unenforced_policy : Option String

pub record Decision : Type 0 where
  pub decision : Ruling
  pub reason_code : String
  pub requested : Identity
  pub effective : Option Identity
  pub hops : ℕ
  pub model_selection_intent : String
  pub trigger : Trigger
  pub application_attribution : Attribution
  pub exhausted : Option Exhausted
  pub config_version : Option ℕ
  pub registry_snapshot_id : String
  pub registry_snapshot_version : ℕ
  pub evaluation_time : Instant

-- The arguments of `decideModelSelection`.
pub record Query : Type 0 where
  pub requested_model : String
  pub policy : Policy
  pub remaining : List Remaining
  pub registry : Registry
  pub application_id : String
  pub application_key : String
  pub fallback_rejections : List Rejection
  pub on_exhausted : String
  pub evaluation_time : Instant

abbrev pub intent_of : Query → String
intent_of q = or_default q.policy.model_selection_intent "pinned"

unfoldable pub unavailable_decision : Query → Attribution → String → Decision
unavailable_decision q attribution reason = record {
  decision = ruled_unavailable;
  reason_code = reason;
  requested = record { model_key = q.requested_model; provider_key = none };
  effective = none;
  hops = 0;
  model_selection_intent = intent_of q;
  trigger = record {
    kind = "evidence-unavailable";
    warn_threshold_percent = none;
    breached_scopes = [];
  };
  application_attribution = attribution;
  exhausted = none;
  config_version = q.policy.config_version;
  registry_snapshot_id = q.registry.snapshot_id;
  registry_snapshot_version = q.registry.version;
  evaluation_time = q.evaluation_time;
}

unfoldable pub trigger_of : Query → Selection → Trigger
unfolding has_any
trigger_of q s = record {
  kind = if has_any s.breached_scopes then "threshold-breach" else "none";
  warn_threshold_percent =
      if has_any s.breached_scopes then q.policy.warn_threshold_percent else none;
  breached_scopes = s.breached_scopes;
}

blocker : Option Rejection → String
blocker none = "fallback-no-configured-target"
blocker (some r) = r.blocked_by

abbrev pub is_selected : Verdict → Bool
is_selected selected = true
is_selected denied = false

-- `exhausted` of a request that was not moved.
exhausted_of : Query → Descriptor → Selection → Option Exhausted
unfolding blocker has_any
exhausted_of q source s =
    let pinned = not (str_eq (intent_of q) "preferred") in
    if has_any s.breached_scopes
    then some (record {
      model_key = q.requested_model;
      provider_key = source.provider_key;
      blocked_by =
          if pinned
          then "model-pinned"
          else blocker (find (λ r. str_eq r.from q.requested_model) q.fallback_rejections);
      unenforced_policy =
          if not pinned && (is_selected s.decision && str_eq q.on_exhausted "deny")
          then some "deny"
          else none;
    })
    else none

unfoldable pub ruling_of : Verdict → Ruling
ruling_of selected = ruled_selected
ruling_of denied = ruled_denied

unfoldable pub unmoved : Query → Attribution → Descriptor → Selection → Decision
unfolding exhausted_of ruling_of trigger_of
unmoved q attribution source s = record {
  decision = ruling_of s.decision;
  reason_code = s.reason_code;
  requested = record { model_key = q.requested_model; provider_key = some source.provider_key };
  effective =
      if is_selected s.decision
      then some (record { model_key = q.requested_model; provider_key = some source.provider_key })
      else none;
  hops = 0;
  model_selection_intent = intent_of q;
  trigger = trigger_of q s;
  application_attribution = attribution;
  exhausted = exhausted_of q source s;
  config_version = q.policy.config_version;
  registry_snapshot_id = q.registry.snapshot_id;
  registry_snapshot_version = q.registry.version;
  evaluation_time = q.evaluation_time;
}

unfoldable pub moved_to : Query → Attribution → Descriptor → Descriptor → Selection → Decision
unfolding trigger_of
moved_to q attribution source target s = record {
  decision = ruled_selected;
  reason_code = s.reason_code;
  requested = record { model_key = q.requested_model; provider_key = some source.provider_key };
  effective =
      some (record { model_key = target.model_key; provider_key = some target.provider_key });
  hops = s.hops;
  model_selection_intent = intent_of q;
  trigger = trigger_of q s;
  application_attribution = attribution;
  exhausted = none;
  config_version = q.policy.config_version;
  registry_snapshot_id = q.registry.snapshot_id;
  registry_snapshot_version = q.registry.version;
  evaluation_time = q.evaluation_time;
}

-- `resolveModelDescriptor(registry, selection.effectiveModel)`
unfoldable pub resolve_effective : Registry → Option String → Option Descriptor
resolve_effective r none = none
resolve_effective r (some key) = resolve_model_descriptor r key

unfoldable pub describe_target :
    Query → Attribution → Descriptor → Selection → Option Descriptor → Decision
unfolding unavailable_decision moved_to
describe_target q attribution source s none =
    unavailable_decision q attribution "effective-model-unregistered"
describe_target q attribution source s (some target) = moved_to q attribution source target s

unfoldable pub describe : Query → Attribution → Descriptor → Selection → Decision
unfolding unmoved describe_target resolve_effective
describe q attribution source s =
    if not (is_selected s.decision) || s.hops == 0
    then unmoved q attribution source s
    else describe_target q attribution source s (resolve_effective q.registry s.effective_model)

unfoldable pub decide_registered : Query → Attribution → Option Descriptor → Reply ⊥ Decision
unfolding unavailable_decision describe
decide_registered q attribution none =
    done (unavailable_decision q attribution "requested-model-unregistered")
decide_registered q attribution (some source) = do
  s ← select_effective_model q.requested_model q.policy q.remaining q.on_exhausted
  done (describe q attribution source s)

unfoldable pub decide_model_selection : Query → Reply ⊥ Decision
unfolding attribution_for decide_registered unavailable_decision
decide_model_selection q =
    let settled : Attribution → Reply ⊥ Decision = λ attribution.
      decide_registered q attribution (resolve_model_descriptor q.registry q.requested_model) in
    do
      attribution ← attribution_for q.registry q.application_id q.application_key
      (if str_eq q.registry.status "complete"
          then settled attribution
          else done (unavailable_decision q attribution "model-registry-unavailable"))
