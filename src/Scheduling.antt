-- ===== src/Scheduling.antt =====
-- app/governance-domain/scheduling/schedule-recovery.mjs: the checkpoint of a schedule, the plan of a
-- run and its completion.
pub mod Plan
pub mod Holding
mod Tests
use azure_llm_governance_api.Prelude.{
  ℕ, String, ◌<>◌, ◌+◌, ◌-◌, ◌*◌, ◌/◌, zero, suc, min, Bool, true, false, not, ◌&&◌, ◌||◌, Option,
  none, some, List, [], ◌∷◌, ltb, leb, ◌==◌, str_eq, if◌then◌else◌, or_default, Reply, done,
  refused, thrown, type_error, ensure, refuse_if, supply, ◌>>=◌, ◌>>◌,
}
use azure_llm_governance_api.Prelude.Text.{is_code, is_raw_principal}
use azure_llm_governance_api.Prelude.Time.{Instant, is_instant, ms, to_iso}

pub record Lease : Type 0 where
  pub owner_code : String
  pub acquired_at : Instant
  pub expires_at : Instant
  pub planned_through : Instant

pub record Skipped : Type 0 where
  pub count : ℕ
  pub window_start : Instant
  pub window_end : Instant
  pub reason_code : String

pub record Checkpoint : Type 0 where
  pub contract_version : String
  pub document_type : String
  pub id : String
  pub scope_group_id : String
  pub schedule_id : String
  pub interval_seconds : ℕ
  pub started_from : Instant
  pub completed_through : Option Instant
  pub last_completed_at : Option Instant
  pub lease : Option Lease
  pub skipped : Option Skipped

-- `${checkpoint.id}|${windowStart}`, kept as its two parts.
pub record RunId : Type 0 where
  pub checkpoint_id : String
  pub window_start : Instant

pub record Window : Type 0 where
  pub window_start : Instant
  pub window_end : Instant
  pub run_id : RunId

pub data Reason : Type 0 where
  clock_behind_checkpoint lease_held nothing_due lease_not_held lease_expired completion_beyond_plan
        completion_behind_checkpoint :
      Reason

-- A refusal hands a checkpoint back.
pub record Refusal : Type 0 where
  pub reason : Reason
  pub checkpoint : Checkpoint

pub record Planned : Type 0 where
  pub windows : List Window
  pub skipped : Option Skipped
  pub checkpoint : Checkpoint

-- A number that is a safe integer of at least 1; `none` for any other value.
abbrev positive : {R : Type 0} → Option ℕ → String → Reply R ℕ
positive none message = thrown (type_error message)
positive (some n) message = do ensure (leb 1 n) message; done n

abbrev assert_code : {R : Type 0} → String → String → Reply R Unit
assert_code value name = do
  ensure (is_code value) (name <> " must be a bounded lower-case code.")
  ensure (not (is_raw_principal value)) (name <> " must not be a directory object identifier.")

abbrev assert_instant : {R : Type 0} → Instant → String → Reply R Unit
assert_instant value name = ensure (is_instant value) (name <> " must be an ISO-8601 instant.")

abbrev document_id : String → String → String
document_id scope schedule = "schedule-checkpoint|" <> scope <> "|" <> schedule

schedule_checkpoint_document_id : {R : Type 0} → String → String → Reply R String
schedule_checkpoint_document_id scope schedule = do
  ensure (not (str_eq scope "")) "scopeGroupId is required."
  assert_code schedule "scheduleId"
  done (document_id scope schedule)

-- What `createScheduleCheckpoint` freezes.
abbrev fresh : String → String → ℕ → Instant → Checkpoint
fresh scope schedule seconds started = record {
  contract_version = "v1";
  document_type = "schedule-checkpoint";
  id = document_id scope schedule;
  scope_group_id = scope;
  schedule_id = schedule;
  interval_seconds = seconds;
  started_from = started;
  completed_through = none;
  last_completed_at = none;
  lease = none;
  skipped = none;
}

unfoldable pub create_schedule_checkpoint :
    String → String → Option ℕ → Instant → Reply Refusal Checkpoint
unfolding schedule_checkpoint_document_id
create_schedule_checkpoint scope schedule interval started = do
  ensure (not (str_eq scope "")) "scopeGroupId is required."
  assert_code schedule "scheduleId"
  seconds ← positive interval "intervalSeconds must be a positive integer."
  assert_instant started "startedFrom"
  id ← schedule_checkpoint_document_id scope schedule
  done (record (fresh scope schedule seconds started) { id = id })

assert_optional : {R : Type 0} → Option Instant → String → Reply R Unit
assert_optional none name = done tt
assert_optional (some at) name = assert_instant at name

assert_lease : {R : Type 0} → Option Lease → Reply R Unit
assert_lease none = done tt
assert_lease (some l) = do
  assert_code l.owner_code "lease.ownerCode"
  assert_instant l.acquired_at "lease.acquiredAt"
  assert_instant l.expires_at "lease.expiresAt"
  assert_instant l.planned_through "lease.plannedThrough"

assert_skipped : {R : Type 0} → Option Skipped → Reply R Unit
assert_skipped none = done tt
assert_skipped (some s) = do
  ensure (leb 1 s.count) "skipped.count must be a positive integer."
  assert_instant s.window_start "skipped.windowStart"
  assert_instant s.window_end "skipped.windowEnd"
  assert_code s.reason_code "skipped.reasonCode"

-- The fields that no operation changes.
assert_head : {R : Type 0} → Checkpoint → Reply R Unit
unfolding schedule_checkpoint_document_id
assert_head c = do
  ensure (str_eq c.contract_version "v1") "Unsupported checkpoint contract version."
  ensure (str_eq c.document_type "schedule-checkpoint") "documentType must be schedule-checkpoint."
  ensure (not (str_eq c.scope_group_id "")) "scopeGroupId is required."
  assert_code c.schedule_id "scheduleId"
  id ← schedule_checkpoint_document_id c.scope_group_id c.schedule_id
  ensure (str_eq c.id id) "id must be derived from scopeGroupId and scheduleId."
  ensure (leb 1 c.interval_seconds) "intervalSeconds must be a positive integer."
  assert_instant c.started_from "startedFrom"

unfoldable pub assert_schedule_checkpoint : {R : Type 0} → Checkpoint → Reply R Unit
unfolding assert_head assert_optional assert_lease assert_skipped
assert_schedule_checkpoint c = do
  assert_head c
  assert_optional c.completed_through "completedThrough"
  assert_optional c.last_completed_at "lastCompletedAt"
  assert_lease c.lease
  assert_skipped c.skipped

-- How far the work has got: `completedThrough ?? startedFrom`.
abbrev pub floor_of : Checkpoint → Instant
floor_of c = or_default c.completed_through c.started_from

-- A lease of somebody else that has not expired.
abbrev pub held_by_other : Option Lease → String → Instant → Bool
held_by_other none owner now = false
held_by_other (some l) owner now = not (str_eq l.owner_code owner) && ltb (ms now) (ms l.expires_at)

-- `shift`: a number of seconds later.
abbrev pub shift : {R : Type 0} → Instant → ℕ → Reply R Instant
shift at seconds = to_iso (ms at + seconds * 1000)

-- `windows` from an offset on, as many as are left.
pub plan_windows : {R : Type 0} → String → Instant → ℕ → ℕ → ℕ → Reply R (List Window)
plan_windows id from interval index zero = done []
plan_windows id from interval index (suc left) = do
  start ← shift from (index * interval)
  end ← shift start interval
  rest ← plan_windows id from interval (index + 1) left
  done (
      record {
        window_start = start;
        window_end = end;
        run_id = record { checkpoint_id = id; window_start = start };
      }
      ∷ rest)

abbrev first_start : List Window → Instant
first_start [] = none
first_start (w ∷ ws) = w.window_start

-- `windows.at(-1).windowEnd`
abbrev pub last_end : List Window → Instant
last_end [] = none
last_end (w ∷ []) = w.window_end
last_end (w ∷ v ∷ ws) = last_end (v ∷ ws)

abbrev pub closed_windows : Checkpoint → Instant → ℕ
closed_windows c now = (ms now - ms (floor_of c)) / (c.interval_seconds * 1000)

pub skip_report : Checkpoint → ℕ → List Window → Option Skipped
skip_report c zero windows = c.skipped
skip_report c (suc n) windows = some (record {
  count = suc n;
  window_start = floor_of c;
  window_end = first_start windows;
  reason_code = "backfill-limit-reached";
})

-- The arguments of `planScheduleRun` beside the checkpoint; the numbers are `none` where they are no
-- safe integers.
pub record Call : Type 0 where
  pub now : Instant
  pub owner_code : String
  pub lease_seconds : Option ℕ
  pub max_backfill_windows : Option ℕ

-- The plan that is returned, its lease on the checkpoint.
abbrev pub run_of : Checkpoint → String → Instant → Instant → List Window → Option Skipped → Planned
run_of c owner now expires windows skipped = record {
  windows = windows;
  skipped = skipped;
  checkpoint = record c {
    skipped = skipped;
    lease = some (record {
      owner_code = owner;
      acquired_at = now;
      expires_at = expires;
      planned_through = last_end windows;
    });
  };
}

unfoldable pub plan_schedule_run : Checkpoint → Call → Reply Refusal Planned
unfolding skip_report
plan_schedule_run c q = do
  assert_schedule_checkpoint c
  assert_instant q.now "now"
  assert_code q.owner_code "ownerCode"
  lease_seconds ← positive q.lease_seconds "leaseSeconds must be a positive integer."
  limit ← positive q.max_backfill_windows "maxBackfillWindows must be a positive integer."
  refuse_if (ltb (ms q.now) (ms (floor_of c)))
      (record { reason = clock_behind_checkpoint; checkpoint = c })
  refuse_if (held_by_other c.lease q.owner_code q.now)
      (record { reason = lease_held; checkpoint = c })
  refuse_if (ltb (closed_windows c q.now) 1)
      (record { reason = nothing_due; checkpoint = record c { lease = none } })
  let runnable = min (closed_windows c q.now) limit
  let first_index = closed_windows c q.now - runnable
  windows ← plan_windows c.id (floor_of c) c.interval_seconds first_index runnable
  expires ← shift q.now lease_seconds
  done (run_of c q.owner_code q.now expires windows (skip_report c first_index windows))

pub record Completion : Type 0 where
  pub owner_code : String
  pub through : Instant
  pub at : Instant

own_lease : Checkpoint → Option Lease → String → Reply Refusal Lease
own_lease c none owner = refused (record { reason = lease_not_held; checkpoint = c })
own_lease c (some l) owner =
    if str_eq l.owner_code owner
    then done l
    else refused (record { reason = lease_not_held; checkpoint = c })

unfoldable pub complete_schedule_run : Checkpoint → Completion → Reply Refusal Checkpoint
unfolding own_lease
complete_schedule_run c q = do
  assert_schedule_checkpoint c
  assert_code q.owner_code "ownerCode"
  assert_instant q.through "through"
  assert_instant q.at "at"
  lease ← own_lease c c.lease q.owner_code
  refuse_if (leb (ms lease.expires_at) (ms q.at))
      (record { reason = lease_expired; checkpoint = c })
  refuse_if (ltb (ms lease.planned_through) (ms q.through))
      (record { reason = completion_beyond_plan; checkpoint = c })
  refuse_if (ltb (ms q.through) (ms (floor_of c)))
      (record { reason = completion_behind_checkpoint; checkpoint = c })
  done
      (record c { completed_through = some q.through; last_completed_at = some q.at; lease = none })
