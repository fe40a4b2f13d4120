-- ===== src/Notification/Ladder.antt =====
-- That the operations keep what holds of a notification, up to its last attempt.
use mathlib.Core.Path.{subst}
use azure_llm_governance_api.Prelude.{
  ◌+◌, ◌*◌, ◌<◌, String, true, false, not, ◌&&◌, List, [], ◌∷◌, ◌++◌, leb, str_eq, length,
  length-append, is_none, Reply, done, refuse_if, ◌>>◌, >>-done, >>=-eq-done, done_injective,
  if_cases, ◌≡◌, refl, inl, inr, arith, eq_iff, leb→le,
}
use azure_llm_governance_api.Prelude.Time.{Instant, ms, to_iso}
use azure_llm_governance_api.Notification.{
  DeliveryState, pending, delivered, failed, Attempt, Notification, already_acknowledged, Refusal,
  Recorded,
}
use azure_llm_governance_api.Notification.Delivery.{
  max_attempts, assert_notification_record, Report, attempt_of, closed, scheduled, backoff_seconds,
  retry, settle_attempt, assert_report, refuse_pending, acknowledgement, acknowledge_notification,
  assert_instant, assert_actor,
}
use azure_llm_governance_api.Notification.Settled.{
  all_failed, Shape, is_pending, IsSettled, Made, raised, tried, seen, raise-IsSettled, attempt_inv,
}

all_failed-append :
    (made : List Attempt) (a : Attempt)
    → all_failed (made ++ a ∷ []) ≡ (all_failed made && str_eq a.outcome "failed")
all_failed-append [] a = ground arith
all_failed-append (b ∷ made) a = ground (arith, all_failed-append made a)

report_outcome :
    (r : Report)
    → assert_report r ≡ done tt
    → str_eq r.outcome "delivered" ≡ false
    → r.outcome ≡ "failed"
unfolding assert_report
report_outcome r h other = ground (arith, h, other, eq_iff r.outcome "failed")

-- What a pending notification brings into an attempt.
record Open (n : Notification) : Type 0 where
  failures : all_failed n.attempts ≡ true
  below : length n.attempts < max_attempts
  unseen : is_none n.acknowledged_by ≡ true

pending-Open :
    (n : Notification)
    → IsSettled n
    → n.delivery_state ≡ pending
    → is_none n.acknowledged_by ≡ true
    → Open n
unfolding Shape
pending-Open n v e unseen =
    let (f, b, _) = subst (λ s. Shape s n.attempts n.next_attempt_at) e v.shape in
    record { failures = f; below = b; unseen = unseen }

retry-IsSettled :
    (n : Notification) (made : List Attempt) (r : Report) (out : Recorded)
    → all_failed made ≡ true
    → length made < max_attempts
    → is_none n.acknowledged_by ≡ true
    → retry n made r ≡ done out
    → IsSettled out.notification
unfolding retry scheduled Shape
retry-IsSettled n made r out f b unseen h =
    let (next, _, e) =
      >>=-eq-done (to_iso (ms r.at + backoff_seconds (length made) * 1000))
        (λ next. done (record {
          reason_code = "delivery-retry-scheduled";
          notification = scheduled n made r.reason_code next;
        }))
        h in
    subst (λ (o : Recorded). IsSettled o.notification) (done_injective _ _ e)
      (record {
        shape = (f, b, refl);
        seen_later = λ seen_now. ground (arith, unseen, seen_now);
        shown = refl;
      })

settle_attempt-IsSettled :
    (n : Notification) (r : Report) (out : Recorded)
    → Open n
    → assert_report r ≡ done tt
    → settle_attempt n (n.attempts ++ attempt_of r ∷ []) r ≡ done out
    → IsSettled out.notification
unfolding settle_attempt closed Shape
settle_attempt-IsSettled n r out o report h =
    let made = n.attempts ++ attempt_of r ∷ [] in
    let longer : length made ≡ length n.attempts + 1 =
      length-append n.attempts (attempt_of r ∷ []) in
    elim (if_cases (str_eq r.outcome "delivered") _ _ h) [
      | inl (yes_sent, e) ↦
          subst (λ (x : Recorded). IsSettled x.notification) (done_injective _ _ e)
            (record {
              shape = (
                n.attempts,
                attempt_of r,
                refl,
                o.failures,
                (eq_iff r.outcome "delivered").0 yes_sent,
                omega (arith, longer, o.below),
                refl,
              );
              seen_later = λ seen_now. refl;
              shown = refl;
            })
      | inr (unsent, rest) ↦
          let why = report_outcome r report unsent in
          let all_of : all_failed made ≡ true = ground (
            arith,
            all_failed-append n.attempts (attempt_of r),
            o.failures,
            eq_iff r.outcome "failed",
            why,
          ) in
          elim (if_cases (leb max_attempts (length made)) _ _ rest) [
            | inl (spent, e) ↦
                subst (λ (x : Recorded). IsSettled x.notification) (done_injective _ _ e)
                  (record {
                    shape = (
                      all_of,
                      omega (arith, longer, o.below, leb→le max_attempts (length made) spent),
                      refl,
                    );
                    seen_later = λ seen_now. refl;
                    shown = refl;
                  })
            | inr (more_left, e) ↦
                retry-IsSettled n made r out all_of (ground (arith, more_left)) o.unseen e
          ]
    ]

pending_refused :
    (n : Notification) (s : DeliveryState)
    → n.delivery_state ≡ s
    → refuse_pending n ≡ done tt
    → is_pending s ≡ false
unfolding refuse_pending
pending_refused n pending e t = ground (arith, e, t)
pending_refused n delivered e t = refl
pending_refused n failed e t = refl

acknowledge-IsSettled :
    (n : Notification) (actor : String) (at : Instant) (out : Recorded)
    → IsSettled n
    → acknowledge_notification n actor at ≡ done out
    → IsSettled out.notification
unfolding acknowledge_notification acknowledgement
acknowledge-IsSettled n actor at out v h =
    let last : Reply Refusal Recorded = done (record {
      reason_code = "acknowledgement-recorded";
      notification = acknowledgement n actor at;
    }) in
    let settled : Reply Refusal Recorded = (do refuse_pending n; last) in
    let unseen : Reply Refusal Unit =
      refuse_if (not (is_none n.acknowledged_by))
        (record { reason = already_acknowledged; notification = n }) in
    let (_, h1) =
      >>-done (assert_notification_record n)
        (do assert_actor actor "actorCode"; assert_instant at "at"; unseen; settled) h in
    let (_, h2) =
      >>-done (assert_actor actor "actorCode") (do assert_instant at "at"; unseen; settled) h1 in
    let (_, h3) = >>-done (assert_instant at "at") (do unseen; settled) h2 in
    let (_, h4) = >>-done unseen settled h3 in
    let (tested, e) = >>-done (refuse_pending n) last h4 in
    subst (λ (x : Recorded). IsSettled x.notification) (done_injective _ _ e)
      (record {
        shape = v.shape;
        seen_later = λ _. pending_refused n n.delivery_state refl tested;
        shown = refl;
      })

-- Every notification that the operations make has at most five attempts; all of them failed, unless it is
-- delivered, where the last one did not; a next attempt is due exactly while it is pending; and only one
-- that is no longer pending can be acknowledged, which is what its state then shows.
pub Made-IsSettled : (n : Notification) → Made n → IsSettled n
Made-IsSettled n (raised r h) = raise-IsSettled r n h
Made-IsSettled n (tried {n = m} r out made h) =
    let (unseen, e, report, last) = attempt_inv m r out h in
    settle_attempt-IsSettled m r out (pending-Open m (Made-IsSettled m made) e unseen) report last
Made-IsSettled n (seen {n = m} actor at out made h) =
    acknowledge-IsSettled m actor at out (Made-IsSettled m made) h
