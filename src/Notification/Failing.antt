-- ===== src/Notification/Failing.antt =====
-- A channel that keeps failing: the attempts end on the record, and not behind a queue.
use azure_llm_governance_api.Prelude.{
  ℕ, zero, suc, ◌+◌, ◌*◌, ◌≤◌, ◌<◌, true, false, none, some, List, [], ◌∷◌, ◌++◌, leb, str_eq,
  if◌then◌else◌, length, length-append, All, Reply, done, for_each, ◌>>=◌, ◌>>◌, >>-done, ◌≡◌, refl,
  ◌∙◌, inl, inr, arith, Bool-cases, Option-cases, le→leb,
}
use azure_llm_governance_api.Prelude.Time.{ms, max_time}
use azure_llm_governance_api.Notification.{
  pending, failed, Attempt, Notification, Refusal, Recorded,
}
use azure_llm_governance_api.Notification.Delivery.{
  max_attempts, assert_notification_record, assert_head, assert_attempt, assert_acknowledger,
  Report, attempt_of, refuse_settled, closed, scheduled, backoff_seconds, retry, settle_attempt,
  assert_report, record_delivery_attempt,
}

-- The attempts of a list, one after the other.
unfoldable pub run : List Report → Notification → Reply Refusal Notification
unfolding record_delivery_attempt
run [] n = done n
run (r ∷ rs) n = do out ← record_delivery_attempt n r; run rs out.notification

-- A report of a failure that the operation takes. The last instant leaves room for the longest wait.
pub record IsFailure (r : Report) : Type 0 where
  pub accepted : assert_report r ≡ done tt
  pub outcome : r.outcome ≡ "failed"
  pub in_range : ms r.at + 480_000 ≤ max_time

-- A pending notification that an attempt can be made on.
pub record IsOpen (n : Notification) : Type 0 where
  pub accepted : Path (Reply Refusal Unit) (assert_notification_record n) (done tt)
  pub is_pending : n.delivery_state ≡ pending
  pub unseen : n.acknowledged_by ≡ none

for_each-append :
    (xs ys : List Attempt)
    → Path (Reply Refusal Unit) (for_each assert_attempt xs) (done tt)
    → Path (Reply Refusal Unit) (for_each assert_attempt ys) (done tt)
    → Path (Reply Refusal Unit) (for_each assert_attempt (xs ++ ys)) (done tt)
for_each-append [] ys h k = k
for_each-append (x ∷ xs) ys h k =
    let (a, rest) = >>-done (assert_attempt x) (for_each assert_attempt xs) h in
    rw a (for_each-append xs ys rest k)

report-attempt :
    (r : Report)
    → assert_report r ≡ done tt
    → Path (Reply Refusal Unit) (assert_attempt (attempt_of r)) (done tt)
unfolding assert_report assert_attempt
report-attempt r h = elim (Option-cases r.reason_code) [
  | inl e ↦ ground (arith, h, e)
  | inr (code, e) ↦ ground (arith, h, e)
]

IsOpen-attempt :
    (n : Notification) (r : Report)
    → IsOpen n
    → IsFailure r
    → record_delivery_attempt n r ≡ settle_attempt n (n.attempts ++ attempt_of r ∷ []) r
unfolding record_delivery_attempt refuse_settled
IsOpen-attempt n r o f = ground (arith, o.accepted, o.is_pending, o.unseen, f.accepted)

-- The record is still accepted with one attempt more.
accepted-longer :
    (n : Notification) (r : Report)
    → IsOpen n
    → IsFailure r
    → Path
        (Reply Refusal Unit)
        (assert_head n
          >> (for_each assert_attempt (n.attempts ++ attempt_of r ∷ [])
              >> assert_acknowledger n.acknowledged_by))
        (done tt)
unfolding assert_notification_record assert_acknowledger
accepted-longer n r o f =
    let (head, rest) =
      >>-done (assert_head n)
        (for_each assert_attempt n.attempts >> assert_acknowledger n.acknowledged_by) o.accepted in
    let (before, last) =
      >>-done (for_each assert_attempt n.attempts) (assert_acknowledger n.acknowledged_by) rest in
    let all_of =
      for_each-append n.attempts (attempt_of r ∷ []) before
        (rw (report-attempt r f.accepted) refl) in
    rw (head, all_of) last

-- What one more failure leaves.
record IsNext (n m : Notification) : Type 0 where
  accepted : Path (Reply Refusal Unit) (assert_notification_record m) (done tt)
  counted : length m.attempts ≡ length n.attempts + 1
  unseen : m.acknowledged_by ≡ none
  state : m.delivery_state ≡ (if leb max_attempts (length m.attempts) then failed else pending)

short_wait : (k : ℕ) → k < max_attempts → backoff_seconds k * 1000 ≤ 480_000
short_wait zero h = omega arith
short_wait (suc zero) h = omega arith
short_wait (suc (suc zero)) h = omega arith
short_wait (suc (suc (suc zero))) h = omega arith
short_wait (suc (suc (suc (suc zero)))) h = omega arith
short_wait (suc (suc (suc (suc (suc k))))) h = absurd (omega (arith, h))

settle_attempt-IsNext :
    (n : Notification) (r : Report)
    → IsOpen n
    → IsFailure r
    → (out : Recorded) × (settle_attempt n (n.attempts ++ attempt_of r ∷ []) r ≡ done out)
      × IsNext n out.notification
unfolding settle_attempt retry closed scheduled assert_notification_record assert_head
settle_attempt-IsNext n r o f =
    let made : List Attempt = n.attempts ++ attempt_of r ∷ [] in
    let longer : length made ≡ length n.attempts + 1 =
      length-append n.attempts (attempt_of r ∷ []) in
    let unsent : str_eq r.outcome "delivered" ≡ false = rw f.outcome refl in
    elim (Bool-cases (leb max_attempts (length made))) [
      | inl spent ↦ (
        record {
          reason_code = "delivery-attempts-exhausted";
          notification = closed n made failed (some "delivery-attempts-exhausted");
        },
        rw (unsent, spent) refl,
        record {
          accepted = accepted-longer n r o f;
          counted = longer;
          unseen = o.unseen;
          state = rw spent refl;
        },
      )
      | inr more_left ↦
          let wait = ms r.at + backoff_seconds (length made) * 1000 in
          let fits : leb wait max_time ≡ true =
            le→leb wait max_time
              (omega (arith, f.in_range, short_wait (length made) (ground (arith, more_left)))) in
          (
            record {
              reason_code = "delivery-retry-scheduled";
              notification = scheduled n made r.reason_code (some wait);
            },
            rw (unsent, more_left, fits) refl,
            record {
              accepted = accepted-longer n r o f;
              counted = longer;
              unseen = o.unseen;
              state = rw more_left refl;
            },
          )
    ]

next-IsOpen :
    (n m : Notification) → IsNext n m → leb max_attempts (length m.attempts) ≡ false → IsOpen m
next-IsOpen n m x below = record {
  accepted = x.accepted;
  is_pending = x.state ∙ rw below refl;
  unseen = x.unseen;
}

-- Failures on a pending notification, as many as are left of its five attempts, are all recorded, and
-- leave it failed with five attempts.
pub run-failed :
    (rs : List Report) (n : Notification)
    → IsOpen n
    → All IsFailure rs
    → 0 < length rs
    → length n.attempts + length rs ≡ max_attempts
    → (m : Notification) × (run rs n ≡ done m)
      × (m.delivery_state ≡ failed)
      × (length m.attempts ≡ max_attempts)
unfolding run
run-failed [] n o fs some_left total = absurd (omega (arith, some_left))
run-failed (r ∷ []) n o (f, _) some_left total =
    let (out, e, x) = settle_attempt-IsNext n r o f in
    let five : length out.notification.attempts ≡ max_attempts = omega (arith, x.counted, total) in
    (out.notification, rw (IsOpen-attempt n r o f ∙ e) refl, x.state ∙ rw five refl, five)
run-failed (r ∷ q ∷ rs) n o (f, fs) some_left total =
    let (out, e, x) = settle_attempt-IsNext n r o f in
    let below : leb max_attempts (length out.notification.attempts) ≡ false =
      ground (arith, x.counted, total) in
    let (m, h, state, five) =
      run-failed (q ∷ rs) out.notification (next-IsOpen n out.notification x below) fs (omega arith)
        (omega (arith, x.counted, total)) in
    (m, rw (IsOpen-attempt n r o f ∙ e) h, state, five)
