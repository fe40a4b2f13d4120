-- ===== src/Scheduling/Tests.antt =====
-- A schedule of one-minute windows after an outage of ten minutes, run five windows at a time.
use azure_llm_governance_api.Prelude.{◌≤◌, ◌<◌, ◌≡◌, refl, none, some, eq_iff, done, refused, arith}
use mathlib.Core.Bool.{false≢true}
use azure_llm_governance_api.Prelude.Text.{is_code, is_raw_principal}
use azure_llm_governance_api.Prelude.Time.{ms}
use azure_llm_governance_api.Scheduling.{
  Lease, Checkpoint, Call, Completion, Planned, lease_held, fresh, assert_schedule_checkpoint,
  floor_of, closed_windows, plan_windows, plan_schedule_run, complete_schedule_run,
  create_schedule_checkpoint, run_of, skip_report, last_end,
}
use azure_llm_governance_api.Scheduling.Plan.{Coverage, plan-Coverage, start_of, spec_windows}
use azure_llm_governance_api.Scheduling.Holding.{
  IsValid, IsCall, create-IsValid, lease_excludes, plan_total, complete-advances, run_completes,
}

abbrev start : Checkpoint
start = fresh "scope" "usage-rollup" 60 (some 0)

abbrev call : Call
call = record {
  now = some 630_000;
  owner_code = "runner-a";
  lease_seconds = some 300;
  max_backfill_windows = some 5;
}

start-created : create_schedule_checkpoint "scope" "usage-rollup" (some 60) (some 0) ≡ done start
unfolding create_schedule_checkpoint is_code is_raw_principal
start-created = refl

start-IsValid : IsValid start
start-IsValid = create-IsValid "scope" "usage-rollup" (some 60) (some 0) start-created

create-IsValid_example : IsValid start
create-IsValid_example = create-IsValid "scope" "usage-rollup" (some 60) (some 0) start-created

call-IsCall : IsCall call 300 5
unfolding is_code is_raw_principal
call-IsCall = record {
  clock = refl;
  owner_ok = refl;
  owner_no_principal = refl;
  seconds_given = refl;
  seconds_positive = omega arith;
  limit_given = refl;
  limit_positive = omega arith;
}

plan_total_example : (p : Planned) × (plan_schedule_run start call ≡ done p)
plan_total_example =
    plan_total start call 300 5 start-IsValid call-IsCall (omega arith) refl (omega arith)
      (omega arith)

abbrev plan : Planned
plan =
    run_of start "runner-a" (some 630_000) (some 930_000) (spec_windows start.id 60_000 300_000 5)
      (skip_report start 5 (spec_windows start.id 60_000 300_000 5))

planned_start : plan_schedule_run start call ≡ done plan
unfolding plan_schedule_run assert_schedule_checkpoint plan_windows spec_windows is_code
    is_raw_principal skip_report
planned_start = refl

plan-Coverage_example : Coverage start call plan
plan-Coverage_example = plan-Coverage start call planned_start

abbrev other_call : Call
other_call = record call { owner_code = "runner-b"; now = some 700_000 }

other_call-IsCall : IsCall other_call 300 5
unfolding is_code is_raw_principal
other_call-IsCall = record {
  clock = refl;
  owner_ok = refl;
  owner_no_principal = refl;
  seconds_given = refl;
  seconds_positive = omega arith;
  limit_given = refl;
  limit_positive = omega arith;
}

lease_excludes_example :
    plan_schedule_run plan.checkpoint other_call
    ≡ refused (record { reason = lease_held; checkpoint = plan.checkpoint })
lease_excludes_example =
    lease_excludes start call other_call 300 300 5 planned_start refl other_call-IsCall
      (λ e. false≢true ((eq_iff "runner-b" "runner-a").1 e)) (omega arith) (omega arith)

abbrev finish : Completion
finish = record { owner_code = "runner-a"; through = last_end plan.windows; at = some 640_000 }

finished :
    (c' : Checkpoint) × (complete_schedule_run plan.checkpoint finish ≡ done c')
    × (floor_of c' ≡ some (start_of start (closed_windows start call.now)))
    × (closed_windows c' call.now ≡ 0)
finished = run_completes start call finish 300 planned_start refl refl refl refl (omega arith)

run_completes_example :
    (c' : Checkpoint) × (complete_schedule_run plan.checkpoint finish ≡ done c')
    × (floor_of c' ≡ some (start_of start (closed_windows start call.now)))
    × (closed_windows c' call.now ≡ 0)
run_completes_example =
    run_completes start call finish 300 planned_start refl refl refl refl (omega arith)

complete-advances_example :
    let c' = finished.0 in
    (floor_of c' ≡ finish.through)
    × (ms (floor_of plan.checkpoint) ≤ ms (floor_of c'))
    × (c'.lease ≡ none)
    × ((l : Lease) × (plan.checkpoint.lease ≡ some l)
        × (ms (floor_of c') ≤ ms l.planned_through)
        × (ms finish.at < ms l.expires_at)
        × (l.owner_code ≡ finish.owner_code))
complete-advances_example = complete-advances plan.checkpoint finish finished.1
