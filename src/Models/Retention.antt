-- ===== src/Models/Retention.antt =====
-- Retention records of stored objects, of scenara/platform/models.py, and audit events, of
-- scenara/platform/audit.py.
use scenara.Prelude.{String, Option}
use scenara.Models.Common.{Timestamp, JsonObject}

pub data RetentionCategory : Type 0 where
  raw_media preview structured_result biometric alert_snapshot : RetentionCategory

pub data OwnerType : Type 0 where
  media_asset run_result portrait_enrollment surveillance_alert : OwnerType

pub record ObjectRetentionRecord : Type 0 where
  pub tenant_id : String
  pub project_id : String
  pub object_key : String
  pub category : RetentionCategory
  pub owner_type : OwnerType
  pub owner_id : String
  pub created_at : Timestamp
  pub expires_at : Option Timestamp
  pub deleted_at : Option Timestamp

pub record AuditEvent : Type 0 where
  pub event_id : String
  pub tenant_id : String
  pub project_id : String
  pub principal_id : String
  pub action : String
  pub resource_type : String
  pub resource_id : Option String
  pub outcome : String
  pub request_id : Option String
  pub evidence : JsonObject
  pub created_at : Timestamp
