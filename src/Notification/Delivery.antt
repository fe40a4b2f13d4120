-- ===== src/Notification/Delivery.antt =====
-- The operations of notification-delivery.mjs.
use azure_llm_governance_api.Prelude.{
  ℕ, ◌+◌, ◌-◌, ◌*◌, ◌^◌, String, ◌<>◌, not, ◌||◌, Option, none, some, List, [], ◌∷◌, ◌++◌, leb,
  str_eq, if◌then◌else◌, length, is_none, Reply, done, refused, ensure, refuse_if, for_each, ◌>>=◌,
  ◌>>◌,
}
use azure_llm_governance_api.Prelude.Text.{is_code, is_raw_principal}
use azure_llm_governance_api.Prelude.Time.{Instant, is_instant, ms, to_iso}
use azure_llm_governance_api.Prelude.Sets.{contains}
use azure_llm_governance_api.Notification.{
  DeliveryState, pending, delivered, failed, of_delivery, acknowledged, Attempt, Notification,
  already_acknowledged, already_delivered, delivery_attempts_exhausted,
  nothing_delivered_to_acknowledge, Refusal, Recorded,
}

abbrev pub max_attempts : ℕ
max_attempts = 5

abbrev pub first_backoff_seconds : ℕ
first_backoff_seconds = 60

abbrev pub notification_kinds : List String
notification_kinds =
    "budget-threshold-reached" ∷ "budget-exhausted" ∷ "budget-unenforceable" ∷ "aggregate-stale"
    ∷ "publish-failed" ∷ "usage-drift-detected" ∷ "usage-drift-unverifiable"
    ∷ "team-membership-ambiguous" ∷ []

abbrev pub assert_code : {R : Type 0} → String → String → Reply R Unit
assert_code value name = ensure (is_code value) (name <> " must be a bounded lower-case code.")

abbrev pub assert_instant : {R : Type 0} → Instant → String → Reply R Unit
assert_instant value name = ensure (is_instant value) (name <> " must be an ISO-8601 instant.")

abbrev pub assert_optional_code : {R : Type 0} → Option String → String → Reply R Unit
assert_optional_code none name = done tt
assert_optional_code (some code) name = assert_code code name

abbrev pub assert_actor : {R : Type 0} → String → String → Reply R Unit
assert_actor value name = do
  assert_code value name
  ensure (not (is_raw_principal value)) (name <> " must not be a directory object identifier.")

abbrev pub assert_kind : {R : Type 0} → String → Reply R Unit
assert_kind value = do
  assert_code value "kind"
  ensure (contains value notification_kinds)
      ("kind '" <> value <> "' is not a notification kind this product defines.")

abbrev pub notification_document_id : {R : Type 0} → String → String → Reply R String
notification_document_id scope key = do
  ensure (not (str_eq scope "")) "scopeGroupId is required."
  ensure (not (str_eq key "")) "key is required."
  done ("governance-notification|" <> scope <> "|" <> key)

-- `settle`, after the changes have been made.
abbrev pub settle : Notification → Notification
settle n = record n {
  state = if is_none n.acknowledged_by then of_delivery n.delivery_state else acknowledged;
}

-- The `scopeKey` that is stored.
scope_key_of : Option String → Option String
scope_key_of none = none
scope_key_of (some k) = if str_eq k "" then none else some k

pub record Raised : Type 0 where
  pub scope_group_id : String
  pub key : String
  pub kind : String
  pub severity : String
  pub scope : String
  pub scope_key : Option String
  pub period_start : Instant
  pub raised_at : Instant

unfoldable pub fresh : Raised → String → Notification
unfolding scope_key_of
fresh r id = settle (record {
  contract_version = "v1";
  document_type = "governance-notification";
  id = id;
  scope_group_id = r.scope_group_id;
  key = r.key;
  kind = r.kind;
  severity = r.severity;
  scope = r.scope;
  scope_key = scope_key_of r.scope_key;
  period_start = r.period_start;
  raised_at = r.raised_at;
  delivery_state = pending;
  reason_code = none;
  attempts = [];
  next_attempt_at = some r.raised_at;
  acknowledged_by = none;
  acknowledged_at = none;
  state = of_delivery pending;
})

unfoldable pub raise_notification : Raised → Reply ⊥ Notification
unfolding fresh
raise_notification r = do
  assert_kind r.kind
  assert_code r.severity "severity"
  assert_code r.scope "scope"
  assert_instant r.period_start "periodStart"
  assert_instant r.raised_at "raisedAt"
  id ← notification_document_id r.scope_group_id r.key
  done (fresh r id)

-- The checks of one attempt of a stored record.
unfoldable pub assert_attempt : {R : Type 0} → Attempt → Reply R Unit
assert_attempt a = do
  assert_instant a.at "attempt.at"
  assert_code a.channel_code "attempt.channelCode"
  assert_code a.outcome "attempt.outcome"
  assert_optional_code a.reason_code "attempt.reasonCode"

unfoldable pub assert_acknowledger : {R : Type 0} → Option String → Reply R Unit
assert_acknowledger none = done tt
assert_acknowledger (some actor) = assert_actor actor "acknowledgedBy"

-- The fields that an attempt and an acknowledgement leave as they are.
unfoldable pub assert_head : {R : Type 0} → Notification → Reply R Unit
assert_head n = do
  ensure (str_eq n.contract_version "v1") "Unsupported notification contract version."
  ensure (str_eq n.document_type "governance-notification")
      "documentType must be governance-notification."
  id ← notification_document_id n.scope_group_id n.key
  ensure (str_eq n.id id) "id must be derived from scopeGroupId and key."
  assert_kind n.kind
  assert_code n.severity "severity"
  assert_code n.scope "scope"

unfoldable pub assert_notification_record : {R : Type 0} → Notification → Reply R Unit
unfolding assert_head assert_attempt assert_acknowledger
assert_notification_record n = do
  assert_head n
  for_each assert_attempt n.attempts
  assert_acknowledger n.acknowledged_by

-- The arguments of an attempt beside the notification.
pub record Report : Type 0 where
  pub outcome : String
  pub channel_code : String
  pub reason_code : Option String
  pub at : Instant

abbrev pub attempt_of : Report → Attempt
attempt_of r = record {
  at = r.at;
  channel_code = r.channel_code;
  outcome = r.outcome;
  reason_code = r.reason_code;
}

unfoldable pub refuse_settled : Notification → Reply Refusal Unit
refuse_settled n = elim n.delivery_state [
  | pending ↦ done tt
  | delivered ↦ refused (record { reason = already_delivered; notification = n })
  | failed ↦ refused (record { reason = delivery_attempts_exhausted; notification = n })
]

-- What an attempt makes of the attempts with itself at their end.
unfoldable pub closed : Notification → List Attempt → DeliveryState → Option String → Notification
closed n attempts state reason = settle (record n {
  attempts = attempts;
  delivery_state = state;
  reason_code = reason;
  next_attempt_at = none;
})

unfoldable pub scheduled : Notification → List Attempt → Option String → Instant → Notification
scheduled n attempts reason next = settle (record n {
  attempts = attempts;
  delivery_state = pending;
  reason_code = reason;
  next_attempt_at = some next;
})

abbrev pub backoff_seconds : ℕ → ℕ
backoff_seconds attempts = first_backoff_seconds * 2 ^ (attempts - 1)

unfoldable pub retry : Notification → List Attempt → Report → Reply Refusal Recorded
unfolding scheduled
retry n attempts r = do
  next ← to_iso (ms r.at + backoff_seconds (length attempts) * 1000)
  done (record {
    reason_code = "delivery-retry-scheduled";
    notification = scheduled n attempts r.reason_code next;
  })

unfoldable pub settle_attempt : Notification → List Attempt → Report → Reply Refusal Recorded
unfolding closed retry
settle_attempt n attempts r =
    let again = retry n attempts r in
    if str_eq r.outcome "delivered"
    then done (record {
      reason_code = "delivery-recorded";
      notification = closed n attempts delivered none;
    })
    else if leb max_attempts (length attempts)
    then done (record {
      reason_code = "delivery-attempts-exhausted";
      notification = closed n attempts failed (some "delivery-attempts-exhausted");
    })
    else again

unfoldable pub assert_report : Report → Reply Refusal Unit
assert_report r = do
  assert_code r.outcome "outcome"
  assert_code r.channel_code "channelCode"
  assert_instant r.at "at"
  assert_optional_code r.reason_code "reasonCode"
  ensure (str_eq r.outcome "delivered" || str_eq r.outcome "failed")
      "outcome must be delivered or failed."

unfoldable pub record_delivery_attempt : Notification → Report → Reply Refusal Recorded
unfolding assert_notification_record assert_report refuse_settled settle_attempt
record_delivery_attempt n r = do
  assert_notification_record n
  assert_report r
  refuse_if (not (is_none n.acknowledged_by))
      (record { reason = already_acknowledged; notification = n })
  refuse_settled n
  settle_attempt n (n.attempts ++ attempt_of r ∷ []) r

unfoldable pub refuse_pending : Notification → Reply Refusal Unit
refuse_pending n = elim n.delivery_state [
  | pending ↦ refused (record { reason = nothing_delivered_to_acknowledge; notification = n })
  | _ ↦ done tt
]

unfoldable pub acknowledgement : Notification → String → Instant → Notification
acknowledgement n actor at =
    settle (record n { acknowledged_by = some actor; acknowledged_at = some at })

unfoldable pub acknowledge_notification : Notification → String → Instant → Reply Refusal Recorded
unfolding assert_notification_record refuse_pending acknowledgement
acknowledge_notification n actor at = do
  assert_notification_record n
  assert_actor actor "actorCode"
  assert_instant at "at"
  refuse_if (not (is_none n.acknowledged_by))
      (record { reason = already_acknowledged; notification = n })
  refuse_pending n
  done (record {
    reason_code = "acknowledgement-recorded";
    notification = acknowledgement n actor at;
  })
