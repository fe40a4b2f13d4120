-- ===== src/Scheduling/Plan.antt =====
-- What a planned run covers: whole windows, back to back, up to the last one that has closed.
use native.Mathlib.Nat.{div-add-mod, mod-lt}
use mathlib.Core.Path.{subst}
use azure_llm_governance_api.Prelude.{
  ℕ, String, ◌+◌, ◌-◌, ◌*◌, ◌/◌, ◌≤◌, ◌<◌, zero, suc, min, ◌≡◌, refl, inl, inr, ◌∙◌, true, false,
  some, List, [], ◌∷◌, length, Option-cases, arith, ap, le→leb, ◌==◌, if◌then◌else◌, done,
  >>=-eq-done,
}
use azure_llm_governance_api.Prelude.Text.{is_code, is_raw_principal}
use azure_llm_governance_api.Prelude.Time.{Instant, is_instant, ms, max_time, to_iso}
use azure_llm_governance_api.Scheduling.{
  Checkpoint, Window, Call, Planned, Refusal, assert_schedule_checkpoint, floor_of, held_by_other,
  shift, plan_windows, last_end, closed_windows, skip_report, plan_schedule_run,
}

-- Windows of `step` milliseconds that meet end to end, from `a` to `b`.
abbrev pub Chain : ℕ → ℕ → List Window → ℕ → Type 0
Chain step a [] b = a ≡ b
Chain step a (w ∷ ws) b =
    (w.window_start ≡ some a) × (w.window_end ≡ some (a + step)) × Chain step (a + step) ws b

-- The start of the window number `k`.
abbrev pub start_of : Checkpoint → ℕ → ℕ
start_of c k = ms (floor_of c) + k * c.interval_seconds * 1000

-- The windows of a run, from the time `a` on.
unfoldable pub spec_windows : String → ℕ → ℕ → ℕ → List Window
spec_windows id step a zero = []
spec_windows id step a (suc n) =
    record {
      window_start = some a;
      window_end = some (a + step);
      run_id = record { checkpoint_id = id; window_start = some a };
    }
    ∷ spec_windows id step (a + step) n

to_iso-done : (t : ℕ) {at : Instant} → to_iso {R = Refusal} t ≡ done at → at ≡ some t
to_iso-done t h = ground arith

next_base : (a k i : ℕ) → a + (k + 1) * i * 1000 ≡ (a + k * i * 1000) + i * 1000
next_base a k i = omega arith

plan_windows-eq :
    (id : String) (from : Instant) (i k n : ℕ) {ws : List Window}
    → plan_windows {R = Refusal} id from i k n ≡ done ws
    → ws ≡ spec_windows id (i * 1000) (ms from + k * i * 1000) n
unfolding plan_windows spec_windows
plan_windows-eq id from i k zero h = cc
plan_windows-eq id from i k (suc n) h =
    let (start, e, h1) = >>=-eq-done (shift from (k * i)) _ h in
    let (end, f, h2) = >>=-eq-done (shift start i) _ h1 in
    let (rest, g, h3) = >>=-eq-done (plan_windows id from i (k + 1) n) _ h2 in
    let e' = to_iso-done (ms from + k * i * 1000) e in
    let f' = to_iso-done (ms start + i * 1000) f in
    ground (arith, h3, e', f', plan_windows-eq id from i (k + 1) n g, next_base (ms from) k i)

pub plan_windows_total :
    (id : String) (from : Instant) (i k n : ℕ)
    → ms from + (k + n) * i * 1000 ≤ max_time
    → plan_windows {R = Refusal} id from i k n
      ≡ done (spec_windows id (i * 1000) (ms from + k * i * 1000) n)
unfolding plan_windows spec_windows
plan_windows_total id from i k zero h = refl
plan_windows_total id from i k (suc n) h = ground (
  arith,
  plan_windows_total id from i (k + 1) n (omega arith),
  next_base (ms from) k i,
  le→leb (ms from + k * i * 1000) max_time (omega arith),
  le→leb (ms from + k * i * 1000 + i * 1000) max_time (omega arith),
)

spec_windows-Chain :
    (id : String) (step a n : ℕ) → Chain step a (spec_windows id step a n) (a + n * step)
unfolding spec_windows
spec_windows-Chain id step a zero = omega arith
spec_windows-Chain id step a (suc n) =
    (refl, refl, rw (rearrange a n step) (spec_windows-Chain id step (a + step) n))
  where
    rearrange : (a n step : ℕ) → a + suc n * step ≡ (a + step) + n * step
    rearrange a n step = omega arith

length-spec_windows : (id : String) (step a n : ℕ) → length (spec_windows id step a n) ≡ n
unfolding spec_windows
length-spec_windows id step a zero = refl
length-spec_windows id step a (suc n) = ap suc (length-spec_windows id step (a + step) n)

abbrev pub runnable : Checkpoint → Instant → ℕ → ℕ
runnable c now limit = min (closed_windows c now) limit

-- The conditions of a plan, and what it returns.
pub record Made (c : Checkpoint) (q : Call) (p : Planned) (seconds limit : ℕ) : Type 0 where
  pub valid : assert_schedule_checkpoint {R = Refusal} c ≡ done tt
  pub owner_ok : is_code q.owner_code ≡ true
  pub owner_no_principal : is_raw_principal q.owner_code ≡ false
  pub expiry_ok : ms q.now + seconds * 1000 ≤ max_time
  pub seconds_positive : 1 ≤ seconds
  pub clock : is_instant q.now ≡ true
  pub seconds_given : q.lease_seconds ≡ some seconds
  pub limit_given : q.max_backfill_windows ≡ some limit
  pub limit_positive : 1 ≤ limit
  pub ahead : ms (floor_of c) ≤ ms q.now
  pub free : held_by_other c.lease q.owner_code q.now ≡ false
  pub due : 1 ≤ closed_windows c q.now
  pub windows :
      plan_windows {R = Refusal} c.id
        (floor_of c)
        c.interval_seconds
        (closed_windows c q.now - runnable c q.now limit)
        (runnable c q.now limit)
      ≡ done p.windows
  pub skipped :
      p.skipped ≡ skip_report c (closed_windows c q.now - runnable c q.now limit) p.windows
  pub result : p.checkpoint ≡ record c {
    skipped = p.skipped;
    lease = some (record {
      owner_code = q.owner_code;
      acquired_at = q.now;
      expires_at = some (ms q.now + seconds * 1000);
      planned_through = last_end p.windows;
    });
  }

pub planned :
    (c : Checkpoint) (q : Call) {p : Planned}
    → plan_schedule_run c q ≡ done p
    → (seconds : ℕ) × (limit : ℕ) × Made c q p seconds limit
unfolding plan_schedule_run
planned c q h = elim (Option-cases q.lease_seconds) [
  | inl e ↦ absurd (ground arith)
  | inr (seconds, e) ↦ elim (Option-cases q.max_backfill_windows) [
    | inl f ↦ absurd (ground arith)
    | inr (limit, f) ↦ (seconds, limit, ground arith)
  ]
]

pub interval_positive :
    (c : Checkpoint) → assert_schedule_checkpoint {R = Refusal} c ≡ done tt → 1 ≤ c.interval_seconds
unfolding assert_schedule_checkpoint
interval_positive c h = ground arith

-- The whole windows up to `now`, and less than one more.
pub closed_bounds :
    (now a step : ℕ)
    → 1 ≤ step
    → a ≤ now
    → (a + (now - a) / step * step ≤ now) × (now < a + ((now - a) / step + 1) * step)
closed_bounds now a step s h =
    grind (arith, div-add-mod (now - a) step, mod-lt (now - a) {m = step})

-- What a plan says of the windows since the checkpoint: which it leaves out, and which it runs.
pub record Coverage (c : Checkpoint) (q : Call) (p : Planned) : Type 0 where
  pub left_out : ℕ
  pub chain :
      Chain
        (c.interval_seconds * 1000)
        (start_of c left_out)
        p.windows
        (start_of c (closed_windows c q.now))
  pub accounted : left_out + length p.windows ≡ closed_windows c q.now
  pub some_window : 1 ≤ length p.windows
  pub all_closed : start_of c (closed_windows c q.now) ≤ ms q.now
  pub up_to_date : ms q.now < start_of c (closed_windows c q.now + 1)
  pub plan_end : last_end p.windows ≡ some (start_of c (closed_windows c q.now))
  pub reported : p.skipped ≡ (
      if left_out == 0
      then c.skipped
      else some (record {
        count = left_out;
        window_start = floor_of c;
        window_end = some (start_of c left_out);
        reason_code = "backfill-limit-reached";
      }))

pub first_spec :
    (c : Checkpoint) (id : String) (step a n left : ℕ)
    → 1 ≤ n
    → skip_report c left (spec_windows id step a n) ≡ (
        if left == 0
        then c.skipped
        else some (record {
          count = left;
          window_start = floor_of c;
          window_end = some a;
          reason_code = "backfill-limit-reached";
        }))
unfolding skip_report spec_windows
first_spec c id step a zero left h = elim h [ ]
first_spec c id step a (suc n) zero h = refl
first_spec c id step a (suc n) (suc left) h = ground arith

last_spec :
    (id : String) (step a n : ℕ) → 1 ≤ n → last_end (spec_windows id step a n) ≡ some (a + n * step)
unfolding spec_windows
last_spec id step a zero h = elim h [ ]
last_spec id step a (suc zero) h = ap some (omega arith)
last_spec id step a (suc (suc n)) h =
    last_spec id step (a + step) (suc n) (omega arith) ∙ ap some (omega arith)

start_step : (a k n i : ℕ) → (a + k * i * 1000) + n * (i * 1000) ≡ a + (k + n) * i * 1000
start_step a k n i = omega arith

-- Whatever a plan returns, the windows that it leaves out and those that it runs are exactly the
-- whole windows between the checkpoint and `now`: the run's windows meet end to end, the last one
-- ends less than one interval before `now`, what is left out stands before them and is reported.
pub plan-Coverage :
    (c : Checkpoint) (q : Call) {p : Planned} → plan_schedule_run c q ≡ done p → Coverage c q p
plan-Coverage c q {p} h =
    let (_, limit, k) = planned c q h in
    let closed = closed_windows c q.now in
    let n = runnable c q.now limit in
    let first = closed - n in
    let i = c.interval_seconds in
    let sums : first + n ≡ closed = omega (arith, k.due) in
    let some_n : 1 ≤ n = omega (arith, k.due, k.limit_positive) in
    let step_pos : 1 ≤ i * 1000 = omega (arith, interval_positive c k.valid) in
    let ws = plan_windows-eq c.id (floor_of c) i first n k.windows in
    let spec = spec_windows c.id (i * 1000) (start_of c first) n in
    let bounds = closed_bounds (ms q.now) (ms (floor_of c)) (i * 1000) step_pos k.ahead in
    let end = start_step (ms (floor_of c)) first n i in
    record {
      left_out = first;
      chain = rw ws (
          subst (Chain (i * 1000) (start_of c first) spec) (rw sums at end)
            (spec_windows-Chain c.id (i * 1000) (start_of c first) n));
      accounted = rw ws (rw length-spec_windows sums);
      some_window = rw ws (rw length-spec_windows some_n);
      all_closed = omega (arith, bounds);
      up_to_date = omega (arith, bounds);
      plan_end =
          rw ws (last_spec c.id (i * 1000) (start_of c first) n some_n ∙ ap some (rw sums at end));
      reported =
          k.skipped ∙ (rw ws (first_spec c c.id (i * 1000) (start_of c first) n first some_n));
    }
