-- ===== src/Models/Run.antt =====
-- Runs, their events and the references to their results, of scenara/platform/models.py.
use scenara.Prelude.{String, ℕ, Bool, true, false, Option, List}
use scenara.Models.Common.{Timestamp, Float, JsonObject, ℤ, PipelineRef}
use scenara.Models.Media.{MediaKind}

pub data RunStatus : Type 0 where
  queued running pausing paused completed failed cancelling cancelled : RunStatus

-- `status in TERMINAL_RUN_STATUSES`
abbrev pub is_terminal : RunStatus → Bool
is_terminal RunStatus.completed = true
is_terminal RunStatus.failed = true
is_terminal RunStatus.cancelled = true
is_terminal _ = false

pub record RunRecord : Type 0 where
  pub run_id : String
  pub tenant_id : String
  pub project_id : String
  pub principal_id : String
  pub request_id : Option String
  pub trace_id : Option String
  pub domain : String
  pub pipeline : PipelineRef
  pub asset_id : Option String
  pub source_id : Option String
  pub stream_session_id : Option String
  pub stream_segment_index : Option ℕ
  pub previous_run_id : Option String
  pub next_run_id : Option String
  pub parameters : JsonObject
  pub priority : ℤ
  pub status : RunStatus
  pub revision : ℕ
  pub progress : Float
  pub error_code : Option String
  pub termination_reason : Option String
  pub created_at : Timestamp
  pub updated_at : Timestamp
  pub started_at : Option Timestamp
  pub completed_at : Option Timestamp

pub record RunEvent : Type 0 where
  pub run_id : String
  pub event_id : ℕ
  pub event_type : String
  pub event_version : String
  pub occurred_at : Option String
  pub producer : String
  pub tenant_id : Option String
  pub project_id : Option String
  pub request_id : Option String
  pub trace_id : Option String
  pub status : RunStatus
  pub payload : JsonObject
  pub created_at : Timestamp

pub data IndexStatus : Type 0 where
  ready partial : IndexStatus

pub record ResultReference : Type 0 where
  pub run_id : String
  pub object_key : String
  pub sha256 : String
  pub unit_count : ℕ
  pub shard_keys : List String
  pub shard_sha256 : List String
  pub shard_unit_counts : List ℕ
  pub domain : String
  pub created_at : Timestamp
  pub asset_id : Option String
  pub source_id : Option String
  pub media_kind : Option MediaKind
  pub resource_name : Option String
  pub object_count : ℕ
  pub person_count : ℕ
  pub face_count : ℕ
  pub ocr_block_count : ℕ
  pub text_length : ℕ
  pub warning_count : ℕ
  pub index_status : IndexStatus
