-- ===== src/Authorization.antt =====
-- app/governance-domain/authorization/governance-authorization-evaluator.mjs: what a caller may use and
-- read, from snapshots that have passed their assertions. So a global scope has no key, times are
-- numbers and limits are natural numbers. The assertions are those of
-- app/governance-domain/authorization/governance-authorization-validator.mjs and of
-- app/governance-domain/principal-context/principal-context-validator.mjs.
pub mod Rules
pub mod Evaluator
pub mod Allowlist
pub mod Decisions
mod Tests
use azure_llm_governance_api.Prelude.{
  ℕ, zero, String, ◌<>◌, Bool, true, false, not, ◌&&◌, ◌||◌, Option, none, some, List, [], ◌∷◌, map,
  min, leb, ltb, str_eq, if◌then◌else◌, any, every, keep, is_none, Reply, done, thrown, type_error,
  ensure, for_each, ◌>>=◌, ◌>>◌,
}
use azure_llm_governance_api.Prelude.Sets.{contains, unique, sorted_set, flat_map}

pub data RecordState : Type 0 where
  active revoked expired : RecordState

pub data Assignee : Type 0 where
  subject application group : String → Assignee

pub data Scope : Type 0 where
  global : Scope
  team : String → Scope

pub record Assignment : Type 0 where
  pub assignment_id : String
  pub assignment_version : ℕ
  pub state : RecordState
  pub role_code : String
  pub assignee : Assignee
  pub scope : Scope
  pub valid_from : ℕ
  pub valid_until : Option ℕ

pub data Target : Type 0 where
  everyone : Target
  of_team of_subject of_application : String → Target

pub data Period : Type 0 where
  hourly daily weekly monthly yearly : Period

-- `tokenQuota` and `quotaPeriod` come together.
pub record Limits : Type 0 where
  pub requests_per_minute : Option ℕ
  pub tokens_per_minute : Option ℕ
  pub quota : Option (ℕ × Period)

pub record Binding : Type 0 where
  pub binding_id : String
  pub binding_version : ℕ
  pub state : RecordState
  pub target : Target
  pub model_allowlist : List String
  pub limits : Limits
  pub valid_from : ℕ
  pub valid_until : Option ℕ

pub record Group : Type 0 where
  pub group_id : String
  pub authorization_relevant : Bool

-- `memberships.status`, and the status of a snapshot, by their names.
pub record Principal : Type 0 where
  pub subject_id : String
  pub application_id : String
  pub membership_status : String
  pub membership_expires_at : ℕ
  pub membership_snapshot_id : String
  pub groups : List Group

pub record AssignmentSnapshot : Type 0 where
  pub snapshot_id : String
  pub version : ℕ
  pub status : String
  pub expires_at : ℕ
  pub assignments : List Assignment

pub record TeamMapping : Type 0 where
  pub membership_group_id : String
  pub team_key : String

pub record EntitlementSnapshot : Type 0 where
  pub snapshot_id : String
  pub version : ℕ
  pub status : String
  pub expires_at : ℕ
  pub team_catalog : List TeamMapping
  pub bindings : List Binding

abbrev pub is_global_scope : Scope → Bool
is_global_scope global = true
is_global_scope (team _) = false
