-- ===== src/Ledger/Tests.antt =====
-- A crossing that is seen twice, and a delivery in between other writes.
use azure_llm_governance_api.Prelude.{true, none, some, [], ◌∷◌, done, ◌≡◌, refl}
use azure_llm_governance_api.Prelude.Text.{is_code}
use azure_llm_governance_api.Notification.{Notification, pending, of_delivery}
use azure_llm_governance_api.Notification.Delivery.{
  Raised, Report, attempt_of, record_delivery_attempt,
}
use azure_llm_governance_api.Store.{
  Store, Held, empty, place, read, governance, write, resolve_write_precondition,
}
use azure_llm_governance_api.Store.Laws.{IsOrdered}
use azure_llm_governance_api.Store.Races.{start, written, Steps-IsOrdered}
use azure_llm_governance_api.Ledger.{group_of, id_of, raise, deliver}
use azure_llm_governance_api.Ledger.Once.{raise_again}
use azure_llm_governance_api.Ledger.Current.{deliver-current}

abbrev crossing : Raised
crossing = record {
  scope_group_id = "org";
  key = "k";
  kind = "budget-exhausted";
  severity = "critical";
  scope = "team";
  scope_key = none;
  period_start = some 0;
  raised_at = some 1000;
}

abbrev first : Notification
first = record {
  contract_version = "v1";
  document_type = "governance-notification";
  id = "governance-notification|org|k";
  scope_group_id = "org";
  key = "k";
  kind = "budget-exhausted";
  severity = "critical";
  scope = "team";
  scope_key = none;
  period_start = some 0;
  raised_at = some 1000;
  delivery_state = pending;
  reason_code = none;
  attempts = [];
  next_attempt_at = some (some 1000);
  acknowledged_by = none;
  acknowledged_at = none;
  state = of_delivery pending;
}

abbrev second : Notification
second = record first { id = "governance-notification|org|other"; key = "other" }

abbrev down : Report
down = record { outcome = "failed"; channel_code = "webhook"; reason_code = none; at = some 2000 }

abbrev after_one : Notification
after_one = record first { attempts = attempt_of down ∷ []; next_attempt_at = some (some 62_000) }

abbrev held_first : Held Notification
held_first = record { document = first; etag = 1 }

abbrev raised_store : Store Notification
raised_store = record {
  held = place empty governance "org" "governance-notification|org|k" (some held_first);
  sequence = 1;
}

abbrev later_store : Store Notification
later_store = record {
  held =
      place raised_store governance "org" "governance-notification|org|other"
        (some (record { document = second; etag = 2 }));
  sequence = 2;
}

abbrev last_store : Store Notification
last_store = record {
  held =
      place later_store governance "org" "governance-notification|org|k"
        (some (record { document = after_one; etag = 3 }));
  sequence = 3;
}

raise_again_example :
    raise (crossing ∷ []) raised_store
    ≡ done (record { store = raised_store; raised = []; already_raised = "k" ∷ [] })
unfolding raise is_code resolve_write_precondition
raise_again_example =
    raise_again (crossing ∷ []) empty
      (record { store = raised_store; raised = "k" ∷ []; already_raised = [] }) refl

raised-IsOrdered : IsOrdered raised_store
unfolding write
raised-IsOrdered =
    Steps-IsOrdered group_of id_of empty raised_store
      (record { bounded = λ c g i h e. cc; apart = λ c c' g i g' i' h h' e. cc })
      (written governance first (record { expect_absent = true; if_match = none })
        (record { store = raised_store; result = held_first }) start refl)

deliver-current_example :
    (record_delivery_attempt first down
      ≡ done (record { reason_code = "delivery-retry-scheduled"; notification = after_one }))
    × (read later_store governance "org" "governance-notification|org|k" ≡ some held_first)
unfolding deliver write is_code record_delivery_attempt resolve_write_precondition
deliver-current_example =
    deliver-current down raised_store later_store held_first
      (record {
        recorded = record { reason_code = "delivery-retry-scheduled"; notification = after_one };
        written = record { store = last_store; result = record { document = after_one; etag = 3 } };
      })
      raised-IsOrdered refl
      (written governance second (record { expect_absent = true; if_match = none })
        (record { store = later_store; result = record { document = second; etag = 2 } }) start
        refl)
      refl
