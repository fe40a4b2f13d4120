-- ===== src/Usage.antt =====
-- What the planner of budget notifications reads and writes: `matchesBudgetObservation` of
-- period-consumption.mjs, and `notificationKey` and `thresholdsFor` of budget-notification-planner.mjs.
use azure_llm_governance_api.Prelude.{
  ℕ, ◌*◌, String, ◌<>◌, Bool, true, false, not, ◌&&◌, Option, none, some, List, [], ◌∷◌, str_eq,
  ltb, ◌==◌, if◌then◌else◌, or_default, find,
}
use azure_llm_governance_api.Prelude.Text.{decimal}
use azure_llm_governance_api.Prelude.Time.{Instant}
use azure_llm_governance_api.Budget.Publication.{Entry}
pub mod Planner
pub mod Period
pub mod Coverage
pub mod Accounts
pub mod Earned
pub mod Once
pub mod Evidence
pub mod Exhausted
mod Tests

-- An entry of a publication, for one of the keys of its scope.
pub record Watched : Type 0 where
  pub entry : Entry
  pub scope_key : Option String

pub record Observation : Type 0 where
  pub budget_id : Option String
  pub budget_version : ℕ
  pub scope : String
  pub scope_key : Option String
  pub period : String
  pub model_scope : Option String
  pub model_key : Option String
  pub consumed_tokens : ℕ
  pub completeness : String
  pub completeness_reason : Option String

abbrev pub same_option : Option String → Option String → Bool
same_option none none = true
same_option (some a) (some b) = str_eq a b
same_option _ _ = false

abbrev pub is_text : String → Option String → Bool
is_text k none = false
is_text k (some t) = str_eq t k

unfoldable pub matches_budget_observation : Observation → Watched → Bool
matches_budget_observation o w =
    is_text w.entry.budget_id o.budget_id
    && (o.budget_version == w.entry.budget_version
        && (str_eq o.scope w.entry.scope
            && (same_option o.scope_key w.scope_key
                && (str_eq o.period w.entry.period
                    && (str_eq (or_default o.model_scope "all-models") w.entry.model_scope
                        && same_option o.model_key w.entry.model_key)))))

unfoldable pub observation_for : List Observation → Watched → Option Observation
unfolding matches_budget_observation
observation_for observations w = find (λ o. matches_budget_observation o w) observations

pub data Kind : Type 0 where
  threshold_reached exhausted budget_unenforceable aggregate_stale : Kind

abbrev pub kind_name : Kind → String
kind_name threshold_reached = "budget-threshold-reached"
kind_name exhausted = "budget-exhausted"
kind_name budget_unenforceable = "budget-unenforceable"
kind_name aggregate_stale = "aggregate-stale"

-- `SEVERITY_BY_KIND`
abbrev pub severity : Kind → String
severity exhausted = "critical"
severity threshold_reached = "warning"
severity budget_unenforceable = "warning"
severity aggregate_stale = "warning"

-- What an `extra` object may hold.
pub record Extra : Type 0 where
  pub budget_id : Option String
  pub scope : Option String
  pub scope_key : Option String
  pub reason_code : Option String
  pub action : Option String
  pub at_basis_points : Option ℕ
  pub consumed_basis_points : Option ℕ
  pub enforced_token_quota : Option ℕ

pub record Planned : Type 0 where
  pub key : String
  pub kind : Kind
  pub severity_name : String
  pub scope_group_id : String
  pub period_start : String
  pub raised_at : Instant
  pub extra : Extra

abbrev text_of : Option String → String
text_of none = ""
text_of (some s) = s

abbrev number_of : Option ℕ → String
number_of none = ""
number_of (some n) = decimal n

pub record KeyParts : Type 0 where
  pub scope_group_id : String
  pub kind : Kind
  pub budget_id : Option String
  pub budget_version : Option ℕ
  pub period_start : String
  pub scope : Option String
  pub scope_key : Option String
  pub at_basis_points : Option ℕ

-- A kind that the planner has is never unsupported.
unfoldable pub notification_key : KeyParts → String
notification_key k =
    "notification|"
    <> k.scope_group_id
    <> "|"
    <> kind_name k.kind
    <> "|"
    <> text_of k.budget_id
    <> "|"
    <> number_of k.budget_version
    <> "|"
    <> k.period_start
    <> "|"
    <> text_of k.scope
    <> "|"
    <> text_of k.scope_key
    <> "|"
    <> number_of k.at_basis_points

pub record Threshold : Type 0 where
  pub kind : Kind
  pub at_basis_points : ℕ

abbrev pub exhausted_basis_points : ℕ
exhausted_basis_points = 10_000

abbrev warning_threshold : Option ℕ → List Threshold
warning_threshold none = []
warning_threshold (some percent) =
    if ltb percent 100
    then (record { kind = threshold_reached; at_basis_points = percent * 100 }) ∷ []
    else []

-- The thresholds of a quota and a warning percentage, highest first.
unfoldable pub thresholds_for : Option ℕ → Option ℕ → List Threshold
thresholds_for none percent = []
thresholds_for (some quota) percent =
    (record { kind = exhausted; at_basis_points = exhausted_basis_points })
    ∷ warning_threshold percent
