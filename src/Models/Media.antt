-- ===== src/Models/Media.antt =====
-- Media assets and sources of scenara/platform/models.py.
use scenara.Prelude.{String, ℕ, Bool, Option}
use scenara.Models.Common.{Timestamp, Float, JsonObject}

pub data MediaKind : Type 0 where
  image video document stream : MediaKind

pub data SourceKind : Type 0 where
  stream_source : SourceKind

pub data SampleStrategy : Type 0 where
  interval keyframe scene_change uniform : SampleStrategy

pub data TimestampSource : Type 0 where
  decoder_pts position_msec monotonic_clock : TimestampSource

pub record MediaTechnicalMetadata : Type 0 where
  pub format : Option String
  pub container : Option String
  pub codec : Option String
  pub width : Option ℕ
  pub height : Option ℕ
  pub fps : Option Float
  pub frame_count : Option ℕ
  pub duration_ms : Option ℕ
  pub page_count : Option ℕ
  pub sampled_units : Option ℕ
  pub frames_read : Option ℕ
  pub sample_interval_ms : Option ℕ
  pub sample_strategy : Option SampleStrategy
  pub sample_start_ms : Option ℕ
  pub sample_end_ms : Option ℕ
  pub keyframe_count : Option ℕ
  pub scene_change_count : Option ℕ
  pub frame_max_edge : Option ℕ
  pub decode_seek_used : Option Bool
  pub reconnect_count : Option ℕ
  pub elapsed_ms : Option ℕ
  pub stream_segment_duration_ms : Option ℕ
  pub stream_segment_index : Option ℕ
  pub timestamp_source : Option TimestampSource
  pub native_text_available : Option Bool

pub record MediaAsset : Type 0 where
  pub asset_id : String
  pub tenant_id : String
  pub project_id : String
  pub kind : MediaKind
  pub domain : Option String
  pub filename : Option String
  pub content_type : String
  pub size_bytes : ℕ
  pub sha256 : String
  pub object_key : String
  pub preview_object_key : Option String
  pub preview_content_type : Option String
  pub preview_sha256 : Option String
  pub metadata : MediaTechnicalMetadata
  pub temporary : Bool
  pub created_at : Timestamp
  pub expires_at : Option Timestamp
  pub original_deleted_at : Option Timestamp
  pub deleted_at : Option Timestamp

pub record MediaSource : Type 0 where
  pub source_id : String
  pub tenant_id : String
  pub project_id : String
  pub kind : SourceKind
  pub name : String
  pub masked_url : String
  pub secret_ref : String
  pub metadata : JsonObject
  pub created_at : Timestamp
