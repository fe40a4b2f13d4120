-- ===== src/Lifecycle.antt =====
-- app/governance-domain/lifecycle/configuration-lifecycle.mjs: a configuration revision, the tables
-- of its life cycle and how it is created.
pub mod Reducer
pub mod Laws
pub mod Reach
pub mod Progress
pub mod Screen
mod Tests
use azure_llm_governance_api.Prelude.{
  is_positive, ℕ, String, Bool, true, false, not, ◌&&◌, ◌||◌, Option, none, some, List, [], ◌∷◌,
  map, leb, any, is_none, Reply, done, ensure, for_each, ◌>>=◌, ◌>>◌,
}
use azure_llm_governance_api.Prelude.Lists.{sort_by}
use azure_llm_governance_api.Prelude.Text.{is_safe_id, is_code, lt_text}
use azure_llm_governance_api.Prelude.Time.{Instant, is_instant}
use azure_llm_governance_api.Prelude.Tests.{if◌then◌else◌}

pub data State : Type 0 where
  draft approved publishing active failed superseded withdrawn : State

pub data Command : Type 0 where
  edit approve withdraw abandon publish complete fail retry supersede : Command

pub data Outcome : Type 0 where
  pending written verified failed : Outcome

pub record Target : Type 0 where
  pub target_code : String
  pub outcome : Outcome
  pub reason_code : Option String

-- What `from` and `to` of a history entry name: nothing, a state or an outcome.
pub data Label : Type 0 where
  nothing : Label
  of_state : State → Label
  of_outcome : Outcome → Label

pub data Action : Type 0 where
  create : Action
  lifecycle : Command → Action
  target_outcome : Action

pub record Entry : Type 0 where
  pub at : Instant
  pub actor : String
  pub from : Label
  pub to : Label
  pub action : Action
  pub reason_code : String

pub record Failure : Type 0 where
  pub reason_code : String
  pub at : Instant

-- `contractVersion` and `documentType` are constants that no operation reads.
pub record Revision : Type 0 where
  pub revision_id : String
  pub scope_group_id : String
  pub revision_number : ℕ
  pub state : State
  pub authored_by : String
  pub authored_at : Instant
  pub approved_by : Option String
  pub approved_at : Option Instant
  pub published_by : Option String
  pub publish_started_at : Option Instant
  pub publish_completed_at : Option Instant
  pub targets : List Target
  pub failure : Option Failure
  pub superseded_in_favour_of : Option String
  pub history : List Entry

-- `ALLOWED_FROM`
unfoldable pub allowed_from : Command → State → Bool
allowed_from edit draft = true
allowed_from approve draft = true
allowed_from withdraw draft = true
allowed_from withdraw approved = true
allowed_from abandon draft = true
allowed_from abandon approved = true
allowed_from abandon publishing = true
allowed_from abandon State.failed = true
allowed_from publish approved = true
allowed_from complete publishing = true
allowed_from fail publishing = true
allowed_from retry State.failed = true
allowed_from supersede active = true
allowed_from supersede State.failed = true
allowed_from _ _ = false

-- `NEXT_STATE`, with the case of a withdrawal from `draft`.
unfoldable pub next_state : Command → State → State
next_state edit s = draft
next_state approve s = approved
next_state withdraw draft = withdrawn
next_state withdraw s = draft
next_state abandon s = withdrawn
next_state publish s = publishing
next_state complete s = active
next_state fail s = State.failed
next_state retry s = publishing
next_state supersede s = superseded

abbrev pub is_verified : Outcome → Bool
is_verified verified = true
is_verified _ = false

abbrev pub is_pending : Outcome → Bool
is_pending pending = true
is_pending _ = false

abbrev pub is_failed : Outcome → Bool
is_failed Outcome.failed = true
is_failed _ = false

abbrev pub is_publishing : State → Bool
is_publishing publishing = true
is_publishing _ = false

abbrev pub is_reason_code : Option String → Bool
is_reason_code none = false
is_reason_code (some code) = is_code code

unfoldable pub has_publication_activity : Revision → Bool
has_publication_activity r =
    is_publishing r.state
    || (not (is_none r.published_by)
        || (not (is_none r.publish_started_at)
            || (not (is_none r.publish_completed_at)
                || any (λ t. not (is_pending t.outcome)) r.targets)))

pub record Creation : Type 0 where
  pub revision_id : String
  pub scope_group_id : String
  pub revision_number : ℕ
  pub authored_by : String
  pub authored_at : Instant
  pub targets : List String

abbrev pub pending_target : String → Target
pending_target code = record { target_code = code; outcome = pending; reason_code = none }

unfoldable pub initial : Creation → Revision
initial c = record {
  revision_id = c.revision_id;
  scope_group_id = c.scope_group_id;
  revision_number = c.revision_number;
  state = draft;
  authored_by = c.authored_by;
  authored_at = c.authored_at;
  approved_by = none;
  approved_at = none;
  published_by = none;
  publish_started_at = none;
  publish_completed_at = none;
  targets = map pending_target (sort_by lt_text c.targets);
  failure = none;
  superseded_in_favour_of = none;
  history =
      record {
        at = c.authored_at;
        actor = c.authored_by;
        from = nothing;
        to = of_state draft;
        action = create;
        reason_code = "revision-created";
      }
      ∷ [];
}

abbrev assert_id : String → String → Reply ⊥ Unit
assert_id value message = ensure (is_safe_id value) message

is_empty : List String → Bool
is_empty [] = true
is_empty (_ ∷ _) = false

unfoldable pub create_revision : Creation → Reply ⊥ Revision
unfolding initial is_empty
create_revision c = do
  assert_id c.revision_id "revisionId must be a bounded identifier."
  assert_id c.scope_group_id "scopeGroupId must be a bounded identifier."
  assert_id c.authored_by "authoredBy must be a bounded identifier."
  ensure (is_instant c.authored_at) "authoredAt must be an ISO-8601 instant."
  ensure (is_positive c.revision_number) "revisionNumber must be a positive integer."
  ensure (not (is_empty c.targets)) "A revision must declare at least one publication target."
  for_each (λ t. assert_id t "target must be a bounded identifier.") c.targets
  done (initial c)
