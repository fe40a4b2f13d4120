-- ===== src/Lifecycle/Tests.antt =====
-- Concrete revisions: a publication from creation to active, and the theorems at its steps.
use azure_llm_governance_api.Prelude.{
  String, ◌≡◌, ◌≢◌, ◌↔◌, refl, true, none, some, [], ◌∷◌, Reply, done, thrown, type_error,
}
use mathlib.Core.List.{Memᴰ}
use azure_llm_governance_api.Prelude.Lists.{sort_by}
use azure_llm_governance_api.Prelude.Text.{is_safe_id, is_code, lt_text}
use azure_llm_governance_api.Lifecycle.{
  Command, Outcome, Revision, Creation, active, approve, publish, complete, verified,
  create_revision, initial, allowed_from, next_state,
}
use azure_llm_governance_api.Lifecycle.Reducer.{
  Request, Report, Refusal, find_target, undefined, null, given, apply_lifecycle_command,
  record_target_outcome, check, next,
}
use azure_llm_governance_api.Lifecycle.Reach.{
  Reach, Step, created, follow, command, report, IsSound, Reach-IsSound,
}
use azure_llm_governance_api.Lifecycle.Progress.{
  NoSelfApproval, outcome_of, Step-verified, separation_of_duties,
}
use azure_llm_governance_api.Lifecycle.Screen.{
  IsPrepared, available_commands, available_iff_accepted,
}

abbrev creation : Creation
creation = record {
  revision_id = "rev-1";
  scope_group_id = "scope";
  revision_number = 1;
  authored_by = "alice";
  authored_at = some 1000;
  targets = "policy" ∷ "gateway" ∷ [];
}

abbrev call : Command → String → Request
call c who = record {
  command = some c;
  actor = who;
  at = some 2000;
  expected_revision_number = some 1;
  reason_code = none;
  publishing_revision_id = null;
  previous_active_revision_id = none;
  self_approval_granted = undefined;
}

abbrev note : String → Outcome → Report
note code o = record { target_code = code; outcome = some o; at = some 3000; reason_code = none }

abbrev after : Revision → Reply Refusal Revision → Revision
after r (done s) = s
after r _ = r

abbrev r0 : Revision
r0 = initial creation

abbrev r1 : Revision
r1 = after r0 (apply_lifecycle_command r0 (call approve "bob"))

abbrev r2 : Revision
r2 = after r1 (apply_lifecycle_command r1 (call publish "bob"))

abbrev r3 : Revision
r3 = after r2 (record_target_outcome r2 (note "gateway" verified))

abbrev r4 : Revision
r4 = after r3 (record_target_outcome r3 (note "policy" verified))

abbrev r5 : Revision
r5 = after r4 (apply_lifecycle_command r4 (call complete "carol"))

r5_active : r5.state ≡ active
unfolding apply_lifecycle_command record_target_outcome initial allowed_from check next next_state
    sort_by lt_text is_safe_id
r5_active = refl

-- The author alone is refused.
own_approval_refused :
    apply_lifecycle_command r0 (call approve "alice")
    ≡ thrown (type_error "selfApprovalGranted is required to approve your own change.")
unfolding apply_lifecycle_command initial allowed_from check is_safe_id
own_approval_refused = refl

path : Reach NoSelfApproval r5
unfolding apply_lifecycle_command record_target_outcome initial allowed_from check next next_state
    sort_by lt_text is_safe_id create_revision
path =
    follow
      (follow
        (follow
          (follow (follow (created creation refl) (command (call approve "bob") (λ e. cc) refl))
            (command (call publish "bob") (λ e. cc) refl))
          (report (note "gateway" verified) refl))
        (report (note "policy" verified) refl))
      (command (call complete "carol") (λ e. cc) refl)

Reach-IsSound_example : IsSound r5
Reach-IsSound_example = Reach-IsSound path

last_report : Step NoSelfApproval r3 r4
unfolding apply_lifecycle_command record_target_outcome initial allowed_from check next next_state
    sort_by lt_text is_safe_id
last_report = report (note "policy" verified) refl

gateway_verified : outcome_of "gateway" r3.targets ≡ some verified
unfolding apply_lifecycle_command record_target_outcome initial allowed_from check next next_state
    sort_by lt_text is_safe_id find_target
gateway_verified = refl

Step-verified_example : outcome_of "gateway" r4.targets ≡ some verified
Step-verified_example = Step-verified "gateway" last_report gateway_verified

separation_of_duties_example : (b : String) × (r5.approved_by ≡ some b) × (b ≢ r5.authored_by)
unfolding apply_lifecycle_command record_target_outcome initial allowed_from check next next_state
    sort_by lt_text is_safe_id
separation_of_duties_example = separation_of_duties path refl

abbrev prepared : Request
prepared = record (call approve "alice") {
  self_approval_granted = given true;
  reason_code = some "own-change";
  previous_active_revision_id = some "rev-0";
}

prepared-IsPrepared : IsPrepared approve true r0 prepared
unfolding is_safe_id is_code initial
prepared-IsPrepared = record {
  named = refl;
  actor_ok = refl;
  instant_ok = refl;
  read = refl;
  authority = refl;
  idle = refl;
  explained = refl;
  other = "rev-0";
  other_ok = refl;
  other_ne = refl;
  previous = refl;
}

available_iff_accepted_example :
    Memᴰ approve (available_commands r0 (some "alice") true)
    ↔ ((s : Revision) × (apply_lifecycle_command r0 prepared ≡ done s))
available_iff_accepted_example = available_iff_accepted approve true r0 prepared prepared-IsPrepared
