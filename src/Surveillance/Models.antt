-- ===== src/Surveillance/Models.antt =====
-- The records of scenara/platform/surveillance.py. A score is a float that the code stores and
-- compares: it stands for its place in the order of the floats.
use scenara.Prelude.{String, ℕ, Bool, true, false, ◌&&◌, Option, none, some, List, leb, ltb}
use scenara.Prelude.Dict.{Dict}
use scenara.Models.{Timestamp, Float}

abbrev pub Score : Type 0
Score = Float

pub data WatchlistCategory : Type 0 where
  blacklist whitelist custom : WatchlistCategory

pub data WatchlistStatus : Type 0 where
  active paused archived : WatchlistStatus

pub data WatchlistMemberStatus : Type 0 where
  active paused removed : WatchlistMemberStatus

pub data SurveillanceTaskStatus : Type 0 where
  draft active paused expired failed : SurveillanceTaskStatus

pub data MatchPolicy : Type 0 where
  alert_on_match suppress_on_match observe_only : MatchPolicy

pub data AlertLevel : Type 0 where
  critical warning info : AlertLevel

pub data AlertStatus : Type 0 where
  pending confirmed false_positive ignored : AlertStatus

pub data AlertModality : Type 0 where
  face body fused : AlertModality

pub data AlertEventType : Type 0 where
  triggered triaged : AlertEventType

pub record ScheduleWindow : Type 0 where
  pub weekday : ℕ
  pub start : String
  pub end : String

pub record ScheduleException : Type 0 where
  pub date : String
  pub enabled : Bool

pub record SurveillanceSchedule : Type 0 where
  pub timezone : String
  pub weekly : List ScheduleWindow
  pub exceptions : List ScheduleException

pub record ThresholdPolicy : Type 0 where
  pub policy_version : String
  pub face_threshold : Option Score
  pub body_threshold : Option Score
  pub min_face_quality : Float
  pub min_body_quality : Float
  pub face_weight : Float
  pub body_weight : Float

pub record TaskBinding : Type 0 where
  pub binding_id : String
  pub source_id : String
  pub camera_id : String
  pub active_run_id : Option String
  pub stream_session_id : Option String
  pub last_error : Option String

pub record Watchlist : Type 0 where
  pub watchlist_id : String
  pub tenant_id : String
  pub project_id : String
  pub name : String
  pub category : WatchlistCategory
  pub description : String
  pub status : WatchlistStatus
  pub created_by : String
  pub created_at : Timestamp
  pub updated_at : Timestamp
  pub revision : ℕ

pub record WatchlistMember : Type 0 where
  pub member_id : String
  pub tenant_id : String
  pub project_id : String
  pub watchlist_id : String
  pub portrait_identity_id : String
  pub status : WatchlistMemberStatus
  pub display_label : String
  pub valid_from : Option Timestamp
  pub valid_until : Option Timestamp
  pub created_by : String
  pub created_at : Timestamp
  pub updated_at : Timestamp
  pub revision : ℕ

abbrev pub is_active_member : WatchlistMemberStatus → Bool
is_active_member WatchlistMemberStatus.active = true
is_active_member WatchlistMemberStatus.paused = false
is_active_member WatchlistMemberStatus.removed = false

-- `WatchlistMember.active_at`
unfoldable pub active_at : WatchlistMember → Timestamp → Bool
active_at m moment =
    is_active_member m.status
    && (elim m.valid_from [ none ↦ true | some from ↦ leb from moment ]
        && elim m.valid_until [ none ↦ true | some until ↦ ltb moment until ])

-- The check of `WatchlistMember.valid_period`.
unfoldable pub valid_period : WatchlistMember → Bool
valid_period m = elim m.valid_from [
  | none ↦ true
  | some from ↦ elim m.valid_until [ none ↦ true | some until ↦ ltb from until ]
]

pub record SurveillanceTask : Type 0 where
  pub task_id : String
  pub tenant_id : String
  pub project_id : String
  pub name : String
  pub status : SurveillanceTaskStatus
  pub watchlist_ids : List String
  pub bindings : List TaskBinding
  pub schedule : SurveillanceSchedule
  pub match_policy : MatchPolicy
  pub threshold_policy : ThresholdPolicy
  pub cooldown_seconds : ℕ
  pub alert_level : AlertLevel
  pub created_by : String
  pub created_at : Timestamp
  pub updated_at : Timestamp
  pub revision : ℕ

pub record AlertRecord : Type 0 where
  pub alert_id : String
  pub tenant_id : String
  pub project_id : String
  pub task_id : String
  pub binding_id : String
  pub watchlist_id : String
  pub member_id : String
  pub portrait_identity_id : String
  pub source_id : String
  pub camera_id : String
  pub run_id : String
  pub unit_id : String
  pub track_id : String
  pub trajectory_identity_id : Option String
  pub trajectory_segment_id : Option String
  pub match_score : Score
  pub max_score : Score
  pub modality : AlertModality
  pub threshold_policy_version : String
  pub model_bindings : Dict String (Dict String String)
  pub snapshot_artifact_id : Option String
  pub snapshot_retention_expires_at : Option Timestamp
  pub status : AlertStatus
  pub first_seen_at : Timestamp
  pub last_seen_at : Timestamp
  pub triggered_at : Timestamp
  pub occurrence_count : ℕ
  pub idempotency_key : String
  pub created_at : Timestamp
  pub updated_at : Timestamp
  pub revision : ℕ
  pub triaged_by : Option String
  pub triaged_at : Option Timestamp
  pub triage_reason : String
  pub triage_notes : String

pub record AlertEvent : Type 0 where
  pub event_id : String
  pub event_cursor : ℕ
  pub event_type : AlertEventType
  pub occurred_at : String
  pub tenant_id : String
  pub project_id : String
  pub trace_id : Option String
  pub alert_id : String
  pub task_id : String
  pub camera_id : String
  pub portrait_identity_id : String
  pub match_score : Score
  pub modality : AlertModality
  pub snapshot_artifact_id : Option String
  pub deduplication_key : String
  pub status : AlertStatus
  pub created_at : Timestamp

pub record DebounceState : Type 0 where
  pub debounce_key : String
  pub tenant_id : String
  pub project_id : String
  pub task_id : String
  pub binding_id : String
  pub watchlist_id : String
  pub portrait_identity_id : String
  pub first_seen_at : Timestamp
  pub last_seen_at : Timestamp
  pub last_alert_id : Option String
  pub occurrence_count : ℕ
  pub max_score : Score
  pub modality : AlertModality
  pub cooldown_until : Timestamp
  pub revision : ℕ

pub record AlertCandidate : Type 0 where
  pub alert : AlertRecord
  pub event : AlertEvent
  pub debounce : DebounceState

pub record AlertWriteResult : Type 0 where
  pub alert : AlertRecord
  pub event : Option AlertEvent
  pub emitted : Bool
