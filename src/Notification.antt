-- ===== src/Notification.antt =====
-- app/governance-domain/notification/notification-delivery.mjs: a notification, the attempts to deliver
-- it and its acknowledgement.
pub mod Delivery
pub mod Settled
pub mod Retention
pub mod Ladder
pub mod Failing
mod Tests
use azure_llm_governance_api.Prelude.{ℕ, String, Option, none, some, List}
use azure_llm_governance_api.Prelude.Time.{Instant}

pub data DeliveryState : Type 0 where
  pending delivered failed : DeliveryState

pub data State : Type 0 where
  of_delivery : DeliveryState → State
  acknowledged : State

pub record Attempt : Type 0 where
  pub at : Instant
  pub channel_code : String
  pub outcome : String
  pub reason_code : Option String

pub record Notification : Type 0 where
  pub contract_version : String
  pub document_type : String
  pub id : String
  pub scope_group_id : String
  pub key : String
  pub kind : String
  pub severity : String
  pub scope : String
  pub scope_key : Option String
  pub period_start : Instant
  pub raised_at : Instant
  pub delivery_state : DeliveryState
  pub reason_code : Option String
  pub attempts : List Attempt
  pub next_attempt_at : Option Instant
  pub acknowledged_by : Option String
  pub acknowledged_at : Option Instant
  pub state : State

pub data Reason : Type 0 where
  already_acknowledged already_delivered delivery_attempts_exhausted
        nothing_delivered_to_acknowledge :
      Reason

-- A refusal hands the notification back.
pub record Refusal : Type 0 where
  pub reason : Reason
  pub notification : Notification

pub record Recorded : Type 0 where
  pub reason_code : String
  pub notification : Notification
