-- ===== src/Scheduling/Holding.antt =====
-- The checkpoints that the operations hand back are valid, a lease keeps every other runner out until
-- it expires, and the work recorded never goes backwards.
use native.Mathlib.Nat.{div-eq_of_lt}
use azure_llm_governance_api.Prelude.{
  sym, ap, ◌/◌, ℕ, String, ◌+◌, ◌-◌, ◌*◌, ◌≤◌, ◌<◌, ◌≡◌, ◌≢◌, refl, inl, inr, ◌∙◌, true, false,
  Option, none, some, str_eq, eq_iff, eq_refl, Option-cases, arith, done, refused,
}
use azure_llm_governance_api.Prelude.Text.{is_code, is_raw_principal}
use azure_llm_governance_api.Prelude.Time.{Instant, is_instant, ms, max_time}
use azure_llm_governance_api.Scheduling.{
  Lease, Checkpoint, Call, Completion, Planned, Refusal, lease_held, run_of, skip_report,
  assert_schedule_checkpoint, floor_of, held_by_other, create_schedule_checkpoint, fresh,
  document_id, closed_windows, plan_schedule_run, complete_schedule_run, last_end,
}
use azure_llm_governance_api.Scheduling.Plan.{
  runnable, spec_windows, plan_windows_total, closed_bounds, interval_positive, planned,
  plan-Coverage, start_of,
}

abbrev pub IsValid : Checkpoint → Type 0
IsValid c = assert_schedule_checkpoint {R = Refusal} c ≡ done tt

created_head :
    (scope schedule : String) (seconds : ℕ) (started : Instant)
    → str_eq scope "" ≡ false
    → is_code schedule ≡ true
    → is_raw_principal schedule ≡ false
    → 1 ≤ seconds
    → is_instant started ≡ true
    → IsValid (fresh scope schedule seconds started)
unfolding assert_schedule_checkpoint
created_head scope schedule seconds started a b c d e =
    ground
      (arith, eq_refl "v1", eq_refl "schedule-checkpoint", eq_refl (document_id scope schedule))

-- A created checkpoint passes the assertions.
pub create-IsValid :
    (scope schedule : String) (interval : Option ℕ) (started : Instant) {c : Checkpoint}
    → create_schedule_checkpoint scope schedule interval started ≡ done c
    → IsValid c
unfolding create_schedule_checkpoint
create-IsValid scope schedule none started h = ground arith
create-IsValid scope schedule (some seconds) started {c} h =
    let e : c ≡ fresh scope schedule seconds started = ground arith in
    rw e (
      created_head scope schedule seconds started (ground arith) (ground arith) (ground arith)
        (ground arith) (ground arith))

floor-instant : (c : Checkpoint) → IsValid c → is_instant (floor_of c) ≡ true
unfolding assert_schedule_checkpoint
floor-instant c h = ground arith

-- An instant up to a time that is in range is in range.
instant-le : (t : ℕ) (at : Instant) → is_instant at ≡ true → t ≤ ms at → is_instant (some t) ≡ true
instant-le t none i h = cc
instant-le t (some s) i h = ground arith

reason_ok :
    (is_code "backfill-limit-reached" ≡ true) × (is_raw_principal "backfill-limit-reached" ≡ false)
unfolding is_code is_raw_principal
reason_ok = (refl, refl)

start_mono : (a k m i : ℕ) → k ≤ m → a + k * i * 1000 ≤ a + m * i * 1000
start_mono a k m i h = grind arith

-- The checkpoint that a plan hands back passes the assertions.
pub plan-IsValid :
    (c : Checkpoint) (q : Call) {p : Planned}
    → plan_schedule_run c q ≡ done p
    → IsValid p.checkpoint
plan-IsValid c q {p} h =
    let (seconds, limit, k) = planned c q h in
    let v = plan-Coverage c q h in
    let last = instant-le (start_of c (closed_windows c q.now)) q.now k.clock v.all_closed in
    let before : start_of c v.left_out ≤ ms q.now = omega (
      arith,
      v.all_closed,
      start_mono (ms (floor_of c)) v.left_out (closed_windows c q.now) c.interval_seconds
          (omega (arith, v.accounted)),
    ) in
    let first = instant-le (start_of c v.left_out) q.now k.clock before in
    rw k.result (
      unfold assert_schedule_checkpoint in
      ground (
        arith,
        k.valid,
        v.plan_end,
        v.reported,
        last,
        first,
        k.owner_ok,
        k.owner_no_principal,
        k.clock,
        k.expiry_ok,
        floor-instant c k.valid,
        reason_ok,
      ))

-- A call that passes the assertions on its own arguments.
pub record IsCall (q : Call) (seconds limit : ℕ) : Type 0 where
  pub clock : is_instant q.now ≡ true
  pub owner_ok : is_code q.owner_code ≡ true
  pub owner_no_principal : is_raw_principal q.owner_code ≡ false
  pub seconds_given : q.lease_seconds ≡ some seconds
  pub seconds_positive : 1 ≤ seconds
  pub limit_given : q.max_backfill_windows ≡ some limit
  pub limit_positive : 1 ≤ limit

plan_held :
    (c : Checkpoint) (q : Call) (seconds limit : ℕ)
    → IsValid c
    → IsCall q seconds limit
    → ms (floor_of c) ≤ ms q.now
    → held_by_other c.lease q.owner_code q.now ≡ true
    → plan_schedule_run c q ≡ refused (record { reason = lease_held; checkpoint = c })
unfolding plan_schedule_run
plan_held c q seconds limit v w ahead held = ground arith

-- While the lease of a plan runs, a plan by any other owner is refused.
pub lease_excludes :
    (c : Checkpoint) (q q' : Call) {p : Planned} (seconds seconds' limit' : ℕ)
    → plan_schedule_run c q ≡ done p
    → q.lease_seconds ≡ some seconds
    → IsCall q' seconds' limit'
    → q'.owner_code ≢ q.owner_code
    → ms q.now ≤ ms q'.now
    → ms q'.now < ms q.now + seconds * 1000
    → plan_schedule_run p.checkpoint q'
      ≡ refused (record { reason = lease_held; checkpoint = p.checkpoint })
lease_excludes c q q' {p} seconds seconds' limit' h s w other after before =
    let (_, _, k) = planned c q h in
    plan_held p.checkpoint q' seconds' limit' (plan-IsValid c q h) w
      (rw k.result (omega (arith, k.ahead)))
      (rw k.result (ground (arith, k.seconds_given, eq_iff q.owner_code q'.owner_code)))

-- An accepted completion never moves the checkpoint backwards, stops at the end of the plan, comes from
-- the owner of the lease before it ends, and gives the lease up.
pub complete-advances :
    (c : Checkpoint) (m : Completion) {c' : Checkpoint}
    → complete_schedule_run c m ≡ done c'
    → (floor_of c' ≡ m.through)
      × (ms (floor_of c) ≤ ms (floor_of c'))
      × (c'.lease ≡ none)
      × ((l : Lease) × (c.lease ≡ some l)
          × (ms (floor_of c') ≤ ms l.planned_through)
          × (ms m.at < ms l.expires_at)
          × (l.owner_code ≡ m.owner_code))
unfolding complete_schedule_run
complete-advances c m h = elim (Option-cases c.lease) [
  | inl e ↦ absurd (ground arith)
  | inr (l, e) ↦ ground (arith, eq_iff l.owner_code m.owner_code)
]

-- With a valid checkpoint, a valid call, the clock ahead, no other holder and a window due, a run is
-- planned: no window is out of the range of dates, only the end of the lease could be.
pub plan_total :
    (c : Checkpoint) (q : Call) (seconds limit : ℕ)
    → IsValid c
    → IsCall q seconds limit
    → ms (floor_of c) ≤ ms q.now
    → held_by_other c.lease q.owner_code q.now ≡ false
    → 1 ≤ closed_windows c q.now
    → ms q.now + seconds * 1000 ≤ max_time
    → (p : Planned) × (plan_schedule_run c q ≡ done p)
unfolding plan_schedule_run
plan_total c q seconds limit v w ahead free due room =
    let closed = closed_windows c q.now in
    let n = runnable c q.now limit in
    let i = c.interval_seconds in
    let ws = spec_windows c.id (i * 1000) (start_of c (closed - n)) n in
    let whole : closed - n + n ≡ closed = omega arith in
    let bounds =
      closed_bounds (ms q.now) (ms (floor_of c)) (i * 1000) (omega (arith, interval_positive c v))
        ahead in
    let fits : start_of c (closed - n + n) ≤ max_time =
      rw whole (ground (arith, bounds, w.clock)) in
    (
      run_of c q.owner_code q.now (some (ms q.now + seconds * 1000)) ws
          (skip_report c (closed - n) ws),
      ground (arith, plan_windows_total c.id (floor_of c) i (closed - n) n fits),
    )

complete_accepted :
    (c : Checkpoint) (l : Lease) (m : Completion)
    → IsValid c
    → c.lease ≡ some l
    → str_eq l.owner_code m.owner_code ≡ true
    → is_code m.owner_code ≡ true
    → is_raw_principal m.owner_code ≡ false
    → is_instant m.at ≡ true
    → is_instant m.through ≡ true
    → ms m.at < ms l.expires_at
    → ms m.through ≤ ms l.planned_through
    → ms (floor_of c) ≤ ms m.through
    → complete_schedule_run c m
      ≡ done (record c {
        completed_through = some m.through;
        last_completed_at = some m.at;
        lease = none;
      })
unfolding complete_schedule_run
complete_accepted c l m v e own code raw at thr late plan back = ground arith

nothing_left : (now b step : ℕ) → b ≤ now → now < b + step → (now - b) / step ≡ 0
nothing_left now b step h k = div-eq_of_lt (omega arith)

-- A completion of a whole run by its owner, before its lease ends, is accepted: the checkpoint then
-- stands at the end of the last planned window and nothing is due any more at the time of the plan.
pub run_completes :
    (c : Checkpoint) (q : Call) (m : Completion) {p : Planned} (seconds : ℕ)
    → plan_schedule_run c q ≡ done p
    → q.lease_seconds ≡ some seconds
    → m.owner_code ≡ q.owner_code
    → m.through ≡ last_end p.windows
    → is_instant m.at ≡ true
    → ms m.at < ms q.now + seconds * 1000
    → (c' : Checkpoint) × (complete_schedule_run p.checkpoint m ≡ done c')
      × (floor_of c' ≡ some (start_of c (closed_windows c q.now)))
      × (closed_windows c' q.now ≡ 0)
run_completes c q m {p} seconds h s own through at before =
    let (_, _, k) = planned c q h in
    let v = plan-Coverage c q h in
    let end = through ∙ v.plan_end in
    let owner = (eq_iff q.owner_code m.owner_code).1 (sym own) in
    let ready =
      complete_accepted p.checkpoint _ m (plan-IsValid c q h)
        (ap (λ (d : Checkpoint). d.lease) k.result) owner (rw own k.owner_ok)
        (rw own k.owner_no_principal) at
        (rw end (instant-le (start_of c (closed_windows c q.now)) q.now k.clock v.all_closed))
        (ground (arith, k.seconds_given)) (rw through (omega arith))
        (rw (k.result, end) (omega arith)) in
    (
      _,
      ready,
      end,
      rw (k.result, end)
          (nothing_left (ms q.now) (start_of c (closed_windows c q.now)) (c.interval_seconds * 1000)
            v.all_closed (omega (arith, v.up_to_date))),
    )
