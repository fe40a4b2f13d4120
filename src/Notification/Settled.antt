-- ===== src/Notification/Settled.antt =====
-- What holds of a notification, which operations make one, and when an attempt is recorded.
use mathlib.Core.Path.{subst}
use azure_llm_governance_api.Prelude.{
  ◌≤◌, ◌<◌, String, Bool, true, false, not, Option, none, List, [], ◌∷◌, ◌++◌, str_eq,
  if◌then◌else◌, length, every, is_none, Reply, done, refuse_if, ◌>>=◌, ◌>>◌, >>-done, >>=-eq-done,
  done_injective, refuse_if-false, ◌≡◌, refl, arith,
}
use azure_llm_governance_api.Prelude.Time.{Instant}
use azure_llm_governance_api.Notification.{
  DeliveryState, pending, delivered, failed, of_delivery, acknowledged, Attempt, Notification,
  already_acknowledged, Refusal, Recorded,
}
use azure_llm_governance_api.Notification.Delivery.{
  max_attempts, Raised, fresh, raise_notification, assert_notification_record, Report, attempt_of,
  refuse_settled, settle_attempt, assert_report, record_delivery_attempt, acknowledge_notification,
  assert_kind, assert_code, assert_instant, notification_document_id,
}

abbrev pub all_failed : List Attempt → Bool
all_failed as_made = every (λ a. str_eq a.outcome "failed") as_made

-- What the attempts and the next instant are in each delivery state.
unfoldable pub Shape : DeliveryState → List Attempt → Option Instant → Type 0
Shape pending made next =
    (all_failed made ≡ true) × (length made < max_attempts) × (is_none next ≡ false)
Shape delivered made next =
    (earlier : List Attempt) × (last : Attempt) × (made ≡ earlier ++ last ∷ [])
    × (all_failed earlier ≡ true)
    × (last.outcome ≡ "delivered")
    × (length made ≤ max_attempts)
    × (next ≡ none)
Shape failed made next = (all_failed made ≡ true) × (length made ≡ max_attempts) × (next ≡ none)

abbrev pub is_pending : DeliveryState → Bool
is_pending pending = true
is_pending _ = false

pub record IsSettled (n : Notification) : Type 0 where
  pub shape : Shape n.delivery_state n.attempts n.next_attempt_at
  pub seen_later : is_none n.acknowledged_by ≡ false → is_pending n.delivery_state ≡ false
  pub shown :
      n.state ≡ (if is_none n.acknowledged_by then of_delivery n.delivery_state else acknowledged)

-- The notifications that the operations make.
pub data Made : Notification → Type 0 where
  raised : {n : Notification} (r : Raised) → raise_notification r ≡ done n → Made n
  tried :
      {n : Notification} (r : Report) (out : Recorded)
      → Made n
      → record_delivery_attempt n r ≡ done out
      → Made out.notification
  seen :
      {n : Notification} (actor : String) (at : Instant) (out : Recorded)
      → Made n
      → acknowledge_notification n actor at ≡ done out
      → Made out.notification

fresh-IsSettled : (r : Raised) (id : String) → IsSettled (fresh r id)
unfolding fresh Shape
fresh-IsSettled r id = record {
  shape = (refl, omega arith, refl);
  seen_later = λ h. cc;
  shown = refl;
}

pub raise-IsSettled : (r : Raised) (n : Notification) → raise_notification r ≡ done n → IsSettled n
unfolding raise_notification
raise-IsSettled r n h =
    let named : Reply ⊥ Notification = (do
      id ← notification_document_id r.scope_group_id r.key
      done (fresh r id)) in
    let (_, h1) =
      >>-done (assert_kind r.kind)
        (do
          assert_code r.severity "severity"
          assert_code r.scope "scope"
          assert_instant r.period_start "periodStart"
          assert_instant r.raised_at "raisedAt"
          named)
        h in
    let (_, h2) =
      >>-done (assert_code r.severity "severity")
        (do
          assert_code r.scope "scope"
          assert_instant r.period_start "periodStart"
          assert_instant r.raised_at "raisedAt"
          named)
        h1 in
    let (_, h3) =
      >>-done (assert_code r.scope "scope")
        (do
          assert_instant r.period_start "periodStart"
          assert_instant r.raised_at "raisedAt"
          named)
        h2 in
    let (_, h4) =
      >>-done (assert_instant r.period_start "periodStart")
        (do assert_instant r.raised_at "raisedAt"; named) h3 in
    let (_, h5) = >>-done (assert_instant r.raised_at "raisedAt") named h4 in
    let (id, _, e) =
      >>=-eq-done (notification_document_id r.scope_group_id r.key) (λ id. done (fresh r id)) h5 in
    subst IsSettled (done_injective _ _ e) (fresh-IsSettled r id)

settled_cases :
    (n : Notification) (s : DeliveryState)
    → n.delivery_state ≡ s
    → refuse_settled n ≡ done tt
    → s ≡ pending
unfolding refuse_settled
settled_cases n pending e h = refl
settled_cases n delivered e h = ground (arith, e, h)
settled_cases n failed e h = ground (arith, e, h)

-- An attempt that is recorded was made on a pending notification that nobody has acknowledged.
pub attempt_inv :
    (n : Notification) (r : Report) (out : Recorded)
    → record_delivery_attempt n r ≡ done out
    → (is_none n.acknowledged_by ≡ true)
      × (n.delivery_state ≡ pending)
      × (assert_report r ≡ done tt)
      × (settle_attempt n (n.attempts ++ attempt_of r ∷ []) r ≡ done out)
unfolding record_delivery_attempt
attempt_inv n r out h =
    let last : Reply Refusal Recorded = settle_attempt n (n.attempts ++ attempt_of r ∷ []) r in
    let settled : Reply Refusal Recorded = (do refuse_settled n; last) in
    let unseen : Reply Refusal Unit =
      refuse_if (not (is_none n.acknowledged_by))
        (record { reason = already_acknowledged; notification = n }) in
    let (_, h1) = >>-done (assert_notification_record n) (do assert_report r; unseen; settled) h in
    let (report, h2) = >>-done (assert_report r) (do unseen; settled) h1 in
    let (not_seen, h3) = >>-done unseen settled h2 in
    let (open_state, h4) = >>-done (refuse_settled n) last h3 in
    (
      ground (arith, refuse_if-false (not (is_none n.acknowledged_by)) _ not_seen),
      settled_cases n n.delivery_state refl open_state,
      report,
      h4,
    )
