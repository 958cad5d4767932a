-- ===== src/Models/Webhook.antt =====
-- Webhook subscriptions and deliveries of scenara/platform/models.py. A set of event types is a
-- list, of which only membership is asked.
use scenara.Prelude.{String, ℕ, Bool, Option, List}
use scenara.Models.Common.{Timestamp, JsonObject}

pub record WebhookSubscription : Type 0 where
  pub endpoint_id : String
  pub tenant_id : String
  pub project_id : String
  pub name : String
  pub url : String
  pub secret_ref : String
  pub event_types : List String
  pub enabled : Bool
  pub created_at : Timestamp

pub data DeliveryStatus : Type 0 where
  pending delivering delivered dead_letter : DeliveryStatus

pub record WebhookDeliveryRecord : Type 0 where
  pub delivery_id : String
  pub tenant_id : String
  pub project_id : String
  pub endpoint_id : String
  pub event_id : String
  pub event_type : String
  pub payload : JsonObject
  pub status : DeliveryStatus
  pub attempts : ℕ
  pub next_attempt_at : Timestamp
  pub status_code : Option ℕ
  pub last_error : Option String
  pub created_at : Timestamp
  pub updated_at : Timestamp
  pub delivered_at : Option Timestamp
