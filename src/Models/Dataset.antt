-- ===== src/Models/Dataset.antt =====
-- Datasets, their versions and saved searches, of scenara/platform/models.py.
use scenara.Prelude.{String, ℕ, Option, List}
use scenara.Models.Common.{Timestamp, Float, JsonObject}

pub data DatasetStatus : Type 0 where
  draft active archived : DatasetStatus

pub data DatasetVersionStatus : Type 0 where
  draft validated published retired : DatasetVersionStatus

pub record DatasetRecord : Type 0 where
  pub dataset_id : String
  pub tenant_id : String
  pub project_id : String
  pub name : String
  pub description : String
  pub status : DatasetStatus
  pub metadata : JsonObject
  pub created_at : Timestamp
  pub updated_at : Timestamp

pub record DatasetVersion : Type 0 where
  pub version_id : String
  pub dataset_id : String
  pub tenant_id : String
  pub project_id : String
  pub version : String
  pub status : DatasetVersionStatus
  pub manifest_sha256 : String
  pub asset_ids : List String
  pub item_count : ℕ
  pub quality_score : Option Float
  pub lineage : JsonObject
  pub annotation_summary : JsonObject
  pub created_by : String
  pub created_at : Timestamp
  pub updated_at : Timestamp

pub data SavedSearchMode : Type 0 where
  by_text by_portrait : SavedSearchMode

pub record SavedSearch : Type 0 where
  pub saved_search_id : String
  pub tenant_id : String
  pub project_id : String
  pub name : String
  pub description : String
  pub mode : SavedSearchMode
  pub definition : JsonObject
  pub created_by : String
  pub created_at : Timestamp
  pub updated_at : Timestamp
  pub last_run_at : Option Timestamp
