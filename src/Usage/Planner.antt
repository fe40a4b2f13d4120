-- ===== src/Usage/Planner.antt =====
-- `planBudgetNotifications`: a notification for each crossing, none that was sent before. The rounded
-- quotient `Math.floor((consumedTokens / quota) * 10_000)` of floating-point numbers is a parameter.
use azure_llm_governance_api.Prelude.{
  ℕ, String, not, Option, none, some, List, [], ◌∷◌, ◌++◌, str_eq, ltb, any, if◌then◌else◌,
  or_default, keep, Reply, done, ensure, ◌>>◌,
}
use azure_llm_governance_api.Prelude.Sets.{contains}
use azure_llm_governance_api.Prelude.Time.{Instant, is_instant}
use azure_llm_governance_api.Usage.{
  Watched, Observation, observation_for, Kind, budget_unenforceable, aggregate_stale, severity,
  Extra, Planned, notification_key, Threshold, thresholds_for,
}

-- The arguments that stay the same in one evaluation.
pub record Period : Type 0 where
  pub scope_group_id : String
  pub period_start : String
  pub starts_at : Instant
  pub evaluation_time : Instant
  pub already_notified : List String

pub record Suppressed : Type 0 where
  pub key : Option String
  pub budget_id : Option String
  pub reason_code : String

pub record Planning : Type 0 where
  pub planned : List Planned
  pub suppressed : List Suppressed

unfoldable pub suppress : Suppressed → Planning → Planning
suppress s p = record p { suppressed = p.suppressed ++ s ∷ [] }

-- `emit`
unfoldable pub emit : List String → Planned → Planning → Planning
unfolding suppress
emit already n p =
    if contains n.key already
    then suppress (record { key = some n.key; budget_id = none; reason_code = "already-notified" })
        p
    else if any (λ c. str_eq c.key n.key) p.planned
    then p
    else record p { planned = p.planned ++ n ∷ [] }

abbrev no_extra : Extra
no_extra = record {
  budget_id = none;
  scope = none;
  scope_key = none;
  reason_code = none;
  action = none;
  at_basis_points = none;
  consumed_basis_points = none;
  enforced_token_quota = none;
}

-- `base(kind, entry, extra)`
unfoldable pub base : Period → Kind → Watched → Extra → Planned
unfolding notification_key
base c kind w extra = record {
  key = notification_key (record {
    scope_group_id = c.scope_group_id;
    kind = kind;
    budget_id = some w.entry.budget_id;
    budget_version = some w.entry.budget_version;
    period_start = c.period_start;
    scope = some w.entry.scope;
    scope_key = w.scope_key;
    at_basis_points = extra.at_basis_points;
  });
  kind = kind;
  severity_name = severity kind;
  scope_group_id = c.scope_group_id;
  period_start = c.period_start;
  raised_at = c.evaluation_time;
  extra = extra;
}

-- `base(kind, null, { reasonCode })`
unfoldable pub base_of_none : Period → Kind → String → Planned
unfolding notification_key
base_of_none c kind reason = record {
  key = notification_key (record {
    scope_group_id = c.scope_group_id;
    kind = kind;
    budget_id = none;
    budget_version = none;
    period_start = c.period_start;
    scope = none;
    scope_key = none;
    at_basis_points = none;
  });
  kind = kind;
  severity_name = severity kind;
  scope_group_id = c.scope_group_id;
  period_start = c.period_start;
  raised_at = c.evaluation_time;
  extra = record no_extra { reason_code = some reason };
}

unfoldable pub about : Watched → Option String → Extra
about w reason = record no_extra {
  budget_id = some w.entry.budget_id;
  scope = some w.entry.scope;
  scope_key = w.scope_key;
  reason_code = reason;
}

unfoldable pub crossing : Watched → ℕ → Threshold → Extra
crossing w consumed t = record {
  budget_id = some w.entry.budget_id;
  scope = some w.entry.scope;
  scope_key = w.scope_key;
  reason_code = none;
  action = some w.entry.action;
  at_basis_points = some t.at_basis_points;
  consumed_basis_points = some consumed;
  enforced_token_quota = w.entry.enforced_token_quota;
}

-- The loop over the thresholds of one entry.
unfoldable pub emit_crossings : Period → Watched → ℕ → List Threshold → Planning → Planning
unfolding emit base crossing
emit_crossings c w consumed [] p = p
emit_crossings c w consumed (t ∷ ts) p = emit_crossings c w consumed ts (
    if ltb consumed t.at_basis_points
    then p
    else emit c.already_notified (base c t.kind w (crossing w consumed t)) p)

abbrev no_observation : Watched → Suppressed
no_observation w = record {
  key = none;
  budget_id = some w.entry.budget_id;
  reason_code = "no-observation";
}

abbrev no_quota : Watched → Suppressed
no_quota w = record {
  key = none;
  budget_id = some w.entry.budget_id;
  reason_code = "no-quota-to-measure";
}

-- What the planner reads of a publication.
pub record Published : Type 0 where
  pub state : String
  pub reason_code : String
  pub entries : List Watched

module _ (basis_points : ℕ → ℕ → ℕ) where
  -- `null` for a quota of nothing.
  unfoldable pub consumed_basis_points : ℕ → Option ℕ → Option ℕ
  consumed_basis_points consumed none = none
  consumed_basis_points consumed (some quota) =
      if ltb 0 quota then some (basis_points consumed quota) else none

  unfoldable pub plan_measured : Period → Watched → Option ℕ → Planning → Planning
  unfolding suppress emit_crossings thresholds_for
  plan_measured c w none p = suppress (no_quota w) p
  plan_measured c w (some consumed) p =
      emit_crossings c w consumed
        (thresholds_for w.entry.enforced_token_quota w.entry.warn_threshold_percent) p

  unfoldable pub plan_observed : Period → Watched → Option Observation → Planning → Planning
  unfolding suppress emit base about plan_measured consumed_basis_points
  plan_observed c w none p = suppress (no_observation w) p
  plan_observed c w (some o) p =
      if not (str_eq o.completeness "complete")
      then emit c.already_notified
          (base c aggregate_stale w
            (about w (some (or_default o.completeness_reason "aggregate-incomplete"))))
          p
      else plan_measured c w (consumed_basis_points o.consumed_tokens w.entry.enforced_token_quota)
          p

  unfoldable pub plan_entry : Period → List Observation → Watched → Planning → Planning
  unfolding emit base about plan_observed observation_for
  plan_entry c observations w p =
      if not (str_eq w.entry.state "enforceable")
      then emit c.already_notified (base c budget_unenforceable w (about w w.entry.reason_code)) p
      else plan_observed c w (observation_for observations w) p

  unfoldable pub plan_entries : Period → List Observation → List Watched → Planning → Planning
  unfolding plan_entry
  plan_entries c observations [] p = p
  plan_entries c observations (w ∷ ws) p =
      plan_entries c observations ws (plan_entry c observations w p)

  unfoldable pub plan_published : Period → Published → List Observation → Planning
  unfolding plan_entries base_of_none
  plan_published c publication observations =
      if not (str_eq publication.state "published")
      then record {
        planned =
            keep (λ n. not (contains n.key c.already_notified))
              (base_of_none c budget_unenforceable publication.reason_code ∷ []);
        suppressed = [];
      }
      else plan_entries c observations publication.entries
          (record { planned = []; suppressed = [] })

  unfoldable pub plan_budget_notifications :
      Period → Published → List Observation → Reply ⊥ Planning
  unfolding plan_published
  plan_budget_notifications c publication observations = do
    ensure (not (str_eq c.scope_group_id "")) "scopeGroupId is required."
    ensure (is_instant c.starts_at) "periodStart must be an ISO-8601 instant."
    ensure (is_instant c.evaluation_time) "evaluationTime must be an ISO-8601 instant."
    done (plan_published c publication observations)
