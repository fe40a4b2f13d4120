-- ===== src/Lifecycle/Reducer.antt =====
-- `applyLifecycleCommand` and `recordTargetOutcome` of configuration-lifecycle.mjs.
use azure_llm_governance_api.Prelude.{
  ℕ, String, ◌<>◌, Bool, true, false, not, ◌&&◌, ◌||◌, Option, none, some, List, [], ◌∷◌, ◌++◌, map,
  ltb, ◌==◌, str_eq, if◌then◌else◌, or_default, any, find, keep, Reply, done, refused, thrown,
  type_error, ensure, refuse_if, supply, ◌>>=◌, ◌>>◌,
}
use azure_llm_governance_api.Prelude.Text.{is_safe_id}
use azure_llm_governance_api.Lifecycle.{
  State, Command, Outcome, Target, Revision, Entry, edit, approve, withdraw, abandon, publish,
  complete, fail, retry, supersede, pending, written, verified, of_state, of_outcome, lifecycle,
  target_outcome, allowed_from, next_state, is_verified, is_failed, is_publishing, is_reason_code,
  has_publication_activity, pending_target,
}
use azure_llm_governance_api.Prelude.Time.{Instant, is_instant}

-- An argument that the call leaves out, passes as `null`, or gives.
pub data Argument (A : Type 0) : Type 0 where
  undefined : Argument A
  null : Argument A
  given : A → Argument A

-- The arguments of `applyLifecycleCommand` beside the revision. `command` is `none` for a name that
-- is not in `LIFECYCLE_COMMANDS`, `expected_revision_number` where it is no safe integer.
pub record Request : Type 0 where
  pub command : Option Command
  pub actor : String
  pub at : Instant
  pub expected_revision_number : Option ℕ
  pub reason_code : Option String
  pub publishing_revision_id : Argument String
  pub previous_active_revision_id : Option String
  pub self_approval_granted : Argument Bool

pub data Refusal : Type 0 where
  revision_conflict : ℕ → ℕ → Refusal
  transition_not_allowed : State → Command → Refusal
  separation_of_duties : Refusal
  publish_in_progress : String → Refusal
  targets_not_verified : List String → Refusal
  failure_reason_required : Refusal
  no_previous_active : Refusal
  supersede_to_self : Refusal
  abandonment_verified_targets : Refusal
  abandonment_publish_started : Refusal
  not_publishing : State → Refusal
  target_not_declared : String → Refusal
  outcome_regression : String → Outcome → Outcome → Refusal

unfoldable pub own_approval : Argument Bool → Reply Refusal Unit
own_approval undefined =
    thrown (type_error "selfApprovalGranted is required to approve your own change.")
own_approval null = refused separation_of_duties
own_approval (given true) = done tt
own_approval (given false) = refused separation_of_duties

unfoldable pub publish_slot : Argument String → String → Reply Refusal Unit
publish_slot undefined id = thrown (type_error "publishingRevisionId is required on publish.")
publish_slot null id = done tt
publish_slot (given other) id = refuse_if (not (str_eq other id)) (publish_in_progress other)

unfoldable pub supersede_target : Option String → String → Reply Refusal Unit
supersede_target none id = refused no_previous_active
supersede_target (some other) id = do
  ensure (is_safe_id other) "previousActiveRevisionId must be a bounded identifier."
  refuse_if (str_eq other id) supersede_to_self

unfoldable pub unverified : List Target → List Target
unverified = keep (λ t. not (is_verified t.outcome))

unfoldable pub all_verified : List Target → Reply Refusal Unit
unfolding unverified
all_verified targets = elim (unverified targets) [
  | [] ↦ done tt
  | t ∷ ts ↦ refused (targets_not_verified (map (λ u. u.target_code) (t ∷ ts)))
]

-- The conditions of one command, in the order in which the source tests them.
unfoldable pub check : Command → Revision → Request → Reply Refusal Unit
unfolding own_approval publish_slot supersede_target all_verified
check approve r q =
    if str_eq q.actor r.authored_by then own_approval q.self_approval_granted else done tt
check publish r q = publish_slot q.publishing_revision_id r.revision_id
check complete r q = all_verified r.targets
check fail r q = refuse_if (not (is_reason_code q.reason_code)) failure_reason_required
check supersede r q = supersede_target q.previous_active_revision_id r.revision_id
check abandon r q =
    if has_publication_activity r
    then if any (λ t. is_verified t.outcome) r.targets
      then refused abandonment_verified_targets
      else refused abandonment_publish_started
    else done tt
check _ r q = done tt

command_name : Command → String
command_name edit = "edit"
command_name approve = "approve"
command_name withdraw = "withdraw"
command_name abandon = "abandon"
command_name publish = "publish"
command_name complete = "complete"
command_name fail = "fail"
command_name retry = "retry"
command_name supersede = "supersede"

default_reason : Command → Revision → Request → String
unfolding command_name
default_reason approve r q =
    if str_eq q.actor r.authored_by then "self-approval-granted" else "approve-applied"
default_reason c r q = command_name c <> "-applied"

unfoldable pub reset_target : Target → Target
reset_target t = if is_verified t.outcome then t else pending_target t.target_code

unfoldable pub command_entry : Command → Revision → Request → Entry
unfolding default_reason
command_entry c r q = record {
  at = q.at;
  actor = q.actor;
  from = of_state r.state;
  to = of_state (next_state c r.state);
  action = lifecycle c;
  reason_code = or_default q.reason_code (default_reason c r q);
}

-- What each command writes beside the state and the history.
unfoldable pub effects : Command → Request → Revision → Revision
unfolding reset_target
effects approve q r = record r { approved_by = some q.actor; approved_at = some q.at }
effects withdraw q r = record r { approved_by = none; approved_at = none }
effects publish q r = record r {
  published_by = some q.actor;
  publish_started_at = some q.at;
  publish_completed_at = none;
  failure = none;
}
effects retry q r = record r {
  published_by = some q.actor;
  publish_started_at = some q.at;
  publish_completed_at = none;
  failure = none;
  targets = map reset_target r.targets;
}
effects complete q r = record r { publish_completed_at = some q.at; failure = none }
effects fail q r = record r {
  failure = some (record { reason_code = or_default q.reason_code ""; at = q.at });
}
effects supersede q r = record r { superseded_in_favour_of = q.previous_active_revision_id }
effects _ q r = r

unfoldable pub next : Command → Revision → Request → Revision
unfolding effects command_entry
next c r q =
    effects c q
      (record r { state = next_state c r.state; history = r.history ++ command_entry c r q ∷ [] })

unfoldable pub apply_lifecycle_command : Revision → Request → Reply Refusal Revision
apply_lifecycle_command r q = do
  command ← supply q.command "command is unsupported."
  ensure (is_safe_id q.actor) "actor must be a bounded identifier."
  ensure (is_instant q.at) "at must be an ISO-8601 instant."
  expected ←
      supply q.expected_revision_number
        "expectedRevisionNumber is required: state the revision you read."
  refuse_if (not (expected == r.revision_number)) (revision_conflict expected r.revision_number)
  refuse_if (not (allowed_from command r.state)) (transition_not_allowed r.state command)
  check command r q
  done (next command r q)

unfoldable pub rank : Outcome → ℕ
rank pending = 0
rank written = 1
rank verified = 2
rank Outcome.failed = 2

same_outcome : Outcome → Outcome → Bool
same_outcome pending pending = true
same_outcome written written = true
same_outcome verified verified = true
same_outcome Outcome.failed Outcome.failed = true
same_outcome _ _ = false

unfoldable pub regresses : Outcome → Outcome → Bool
unfolding rank same_outcome
regresses old new =
    ltb (rank new) (rank old) || (rank new == rank old && not (same_outcome new old))

outcome_name : Outcome → String
outcome_name pending = "pending"
outcome_name written = "written"
outcome_name verified = "verified"
outcome_name Outcome.failed = "failed"

-- The arguments of `recordTargetOutcome` beside the revision; `outcome` is `none` for a name that is
-- not in `TARGET_OUTCOMES`.
pub record Report : Type 0 where
  pub target_code : String
  pub outcome : Option Outcome
  pub at : Instant
  pub reason_code : Option String

-- `targets[index] = …` at the index that `findIndex` gives.
unfoldable pub replace_first : String → Target → List Target → List Target
replace_first code t [] = []
replace_first code t (u ∷ us) =
    if str_eq u.target_code code then t ∷ us else u ∷ replace_first code t us

unfoldable pub find_target : String → List Target → Option Target
find_target code = find (λ t. str_eq t.target_code code)

unfoldable pub reported : Report → Outcome → Target
reported p o = record {
  target_code = p.target_code;
  outcome = o;
  reason_code = if is_failed o then p.reason_code else none;
}

unfoldable pub outcome_entry : Report → Outcome → Outcome → Entry
unfolding outcome_name
outcome_entry p old new = record {
  at = p.at;
  actor = p.target_code;
  from = of_outcome old;
  to = of_outcome new;
  action = target_outcome;
  reason_code = or_default p.reason_code ("target-" <> outcome_name new);
}

unfoldable pub declared : String → Option Target → Reply Refusal Target
declared code none = refused (target_not_declared code)
declared code (some t) = done t

unfoldable pub record_target_outcome : Revision → Report → Reply Refusal Revision
unfolding regresses replace_first find_target reported outcome_entry declared
record_target_outcome r p = do
  outcome ← supply p.outcome "outcome is unsupported."
  ensure (is_instant p.at) "at must be an ISO-8601 instant."
  refuse_if (not (is_publishing r.state)) (not_publishing r.state)
  current ← declared p.target_code (find_target p.target_code r.targets)
  refuse_if (is_failed outcome && not (is_reason_code p.reason_code)) failure_reason_required
  refuse_if (regresses current.outcome outcome)
      (outcome_regression p.target_code current.outcome outcome)
  done (record r {
    targets = replace_first p.target_code (reported p outcome) r.targets;
    history = r.history ++ outcome_entry p current.outcome outcome ∷ [];
  })
