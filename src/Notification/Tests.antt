-- ===== src/Notification/Tests.antt =====
-- A budget notification whose channel fails five times.
use azure_llm_governance_api.Prelude.{
  String, Option, not, none, some, List, [], ◌∷◌, length, keep, done, ◌≡◌, refl, arith,
}
use azure_llm_governance_api.Prelude.Time.{Instant}
use azure_llm_governance_api.Prelude.Text.{is_code}
use azure_llm_governance_api.Notification.{pending, failed, of_delivery, Notification}
use azure_llm_governance_api.Notification.Delivery.{
  Raised, raise_notification, Report, record_delivery_attempt, attempt_of, max_attempts,
  assert_report, assert_notification_record,
}
use azure_llm_governance_api.Notification.Settled.{IsSettled, Made, raised, tried}
use azure_llm_governance_api.Notification.Ladder.{Made-IsSettled}
use azure_llm_governance_api.Notification.Retention.{
  Closed, Retention, plan_notification_retention, keys, closed_keys, is_over, retention_parts,
}
use azure_llm_governance_api.Notification.Failing.{run, IsFailure, IsOpen, run-failed}

abbrev crossing : Raised
crossing = record {
  scope_group_id = "org";
  key = "team|core|2026-07";
  kind = "budget-exhausted";
  severity = "critical";
  scope = "team";
  scope_key = some "core";
  period_start = some 0;
  raised_at = some 1000;
}

abbrev first : Notification
first = record {
  contract_version = "v1";
  document_type = "governance-notification";
  id = "governance-notification|org|team|core|2026-07";
  scope_group_id = "org";
  key = "team|core|2026-07";
  kind = "budget-exhausted";
  severity = "critical";
  scope = "team";
  scope_key = some "core";
  period_start = some 0;
  raised_at = some 1000;
  delivery_state = pending;
  reason_code = none;
  attempts = [];
  next_attempt_at = some (some 1000);
  acknowledged_by = none;
  acknowledged_at = none;
  state = of_delivery pending;
}

abbrev down : Report
down = record {
  outcome = "failed";
  channel_code = "webhook";
  reason_code = some "channel-down";
  at = some 2000;
}

abbrev after_one : Notification
after_one = record first {
  attempts = attempt_of down ∷ [];
  reason_code = some "channel-down";
  next_attempt_at = some (some 62_000);
}

first-Made : Made first
unfolding raise_notification is_code
first-Made = raised crossing refl

Made-IsSettled_example : IsSettled after_one
unfolding record_delivery_attempt is_code
Made-IsSettled_example = Made-IsSettled after_one (
    tried down (record { reason_code = "delivery-retry-scheduled"; notification = after_one })
      first-Made refl)

down-IsFailure : IsFailure down
unfolding assert_report is_code
down-IsFailure = record { accepted = refl; outcome = refl; in_range = omega arith }

first-IsOpen : IsOpen first
unfolding assert_notification_record is_code
first-IsOpen = record { accepted = refl; is_pending = refl; unseen = refl }

run-failed_example :
    (m : Notification) × (run (down ∷ down ∷ down ∷ down ∷ down ∷ []) first ≡ done m)
    × (m.delivery_state ≡ failed)
    × (length m.attempts ≡ max_attempts)
run-failed_example =
    run-failed (down ∷ down ∷ down ∷ down ∷ down ∷ []) first first-IsOpen
      (down-IsFailure, (down-IsFailure, (down-IsFailure, (down-IsFailure, (down-IsFailure, tt)))))
      (omega arith) refl

-- A record that was closed a hundred days ago, one closed today and one that nobody has seen.
abbrev closed_record : String → Option String → Instant → Closed
closed_record key by at = record {
  key = key;
  state = "delivered";
  acknowledged_by = by;
  acknowledged_at = at;
}

abbrev old_records : List Closed
old_records =
    closed_record "n1" (some "u1") (some 0)
    ∷ closed_record "n2" (some "u1") (some 8_640_000_000)
    ∷ closed_record "n3" none none
    ∷ []

abbrev retention : Retention
retention = record {
  expiring = (record { key = "n1"; state = "delivered"; reason_code = "retention-elapsed" }) ∷ [];
  retained =
      (record { key = "n2"; state = "delivered"; reason_code = "within-retention" })
      ∷ (record { key = "n3"; state = "delivered"; reason_code = "not-acknowledged" })
      ∷ [];
}

retention_planned :
    plan_notification_retention old_records (some 8_640_000_000) (some 90) ≡ done retention
unfolding plan_notification_retention
retention_planned = refl

retention_parts_example :
    (keys retention.expiring ≡ closed_keys (keep (is_over 8_640_000_000 90) old_records))
    × (keys retention.retained
        ≡ closed_keys (keep (λ r. not (is_over 8_640_000_000 90 r)) old_records))
retention_parts_example = retention_parts old_records (some 8_640_000_000) 90 retention_planned
