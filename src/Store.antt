-- ===== src/Store.antt =====
-- The state store: the tables of `MemoryStateStore` in scenara/infrastructure/memory_state.py, which
-- states the contract that scenara/platform/store.py asks of every backend. Each method holds the
-- store's lock from start to end, so it is one step: a function from the store to the new store and
-- a reply.
pub mod Runs
pub mod Webhooks
pub mod Media
pub mod Datasets
pub mod Audit
pub mod Pipelines
pub mod Retention
pub mod Invariant
pub mod Events
pub mod Reach
pub mod Examples
use scenara.Prelude.{String, ℕ, Key, List}
use scenara.Prelude.Dict.{Dict}
use scenara.Models.{Timestamp}
use scenara.Models.Media.{MediaAsset, MediaSource}
use scenara.Models.Dataset.{DatasetRecord, DatasetVersion, SavedSearch}
use scenara.Models.Run.{RunRecord, RunEvent, ResultReference}
use scenara.Models.Webhook.{WebhookSubscription, WebhookDeliveryRecord}
use scenara.Models.Retention.{ObjectRetentionRecord, AuditEvent}
use scenara.Pipeline.Definition.{PipelineDefinition}

pub record MemoryStateStore : Type 0 where
  pub assets : Dict Key MediaAsset
  pub sources : Dict Key MediaSource
  pub datasets : Dict Key DatasetRecord
  pub dataset_versions : Dict Key DatasetVersion
  pub saved_searches : Dict Key SavedSearch
  pub runs : Dict Key RunRecord
  pub events : Dict Key (List RunEvent)
  pub results : Dict Key ResultReference
  -- the hash of the request and the identifier of the run that it made
  pub idempotency : Dict Key (String × String)
  pub audits : List AuditEvent
  pub external_event_hashes : Dict Key String
  pub object_retention : Dict Key ObjectRetentionRecord
  pub pipelines : Dict (String × String) PipelineDefinition
  pub webhook_subscriptions : Dict Key WebhookSubscription
  pub webhook_deliveries : Dict Key WebhookDeliveryRecord

-- How a method ends: it returns, or it raises `StateConflict`, `ValueError` or `KeyError`.
pub data Reply {ℓ} (A : Type ℓ) : Type ℓ where
  ok : A → Reply A
  conflict : String → Reply A
  value_error : String → Reply A
  key_error : Reply A
