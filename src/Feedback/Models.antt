-- ===== src/Feedback/Models.antt =====
-- The records and enumerations of scenara/platform/feedback.py, and `ModelPackageManifest` of
-- scenara/platform/model_runtime.py with the fields that feedback reads. A UTC text of a time is a
-- text.
use scenara.Prelude.{String, Bool, Option, List, true, false, ◌↔◌, ◌≡◌, Eq, arith}
use scenara.Models.{Timestamp, JsonObject}

pub data FeedbackKind : Type 0 where
  false_positive false_negative wrong_attribute wrong_identity ocr_correction action_correction
        temporal_correction style_correction character_correction accessory_correction :
      FeedbackKind

pub data FeedbackStatus : Type 0 where
  pending approved rejected : FeedbackStatus

abbrev pub feedback_eqb : FeedbackStatus → FeedbackStatus → Bool
feedback_eqb FeedbackStatus.pending FeedbackStatus.pending = true
feedback_eqb FeedbackStatus.approved FeedbackStatus.approved = true
feedback_eqb FeedbackStatus.rejected FeedbackStatus.rejected = true
feedback_eqb _ _ = false

pub feedback_eqb_iff : (a b : FeedbackStatus) → (feedback_eqb a b ≡ true) ↔ (a ≡ b)
feedback_eqb_iff a b = ground arith

instance abbrev pub feedback_eq : Eq FeedbackStatus
feedback_eq = record { test = feedback_eqb; decides = feedback_eqb_iff }

pub data ModelReleaseStatus : Type 0 where
  candidate validated approved active retired : ModelReleaseStatus

abbrev pub release_eqb : ModelReleaseStatus → ModelReleaseStatus → Bool
release_eqb ModelReleaseStatus.candidate ModelReleaseStatus.candidate = true
release_eqb ModelReleaseStatus.validated ModelReleaseStatus.validated = true
release_eqb ModelReleaseStatus.approved ModelReleaseStatus.approved = true
release_eqb ModelReleaseStatus.active ModelReleaseStatus.active = true
release_eqb ModelReleaseStatus.retired ModelReleaseStatus.retired = true
release_eqb _ _ = false

pub release_eqb_iff : (a b : ModelReleaseStatus) → (release_eqb a b ≡ true) ↔ (a ≡ b)
release_eqb_iff a b = ground arith

instance abbrev pub release_eq : Eq ModelReleaseStatus
release_eq = record { test = release_eqb; decides = release_eqb_iff }

pub record FeedbackRecord : Type 0 where
  pub feedback_id : String
  pub tenant_id : String
  pub project_id : String
  pub kind : FeedbackKind
  pub run_id : String
  pub result_ref : String
  pub media_ref : String
  pub pipeline_id : String
  pub pipeline_version : String
  pub model_id : String
  pub model_version : String
  pub correction : JsonObject
  pub annotation_schema_id : Option String
  pub authorized_for_training : Bool
  pub deidentified : Bool
  pub status : FeedbackStatus
  pub submitted_by : String
  pub reviewed_by : Option String
  pub review_notes : String
  pub created_at : Timestamp
  pub updated_at : Timestamp
  pub domain : Option String

pub record ReviewFeedbackRequest : Type 0 where
  pub status : FeedbackStatus
  pub notes : String

pub data Split : Type 0 where
  train validation test : Split

pub record CreateHardSampleManifestRequest : Type 0 where
  pub dataset_id : String
  pub version : String
  pub label_schema : String
  pub split : Split
  pub feedback_ids : List String

pub record HardSampleItem : Type 0 where
  pub feedback_id : String
  pub kind : FeedbackKind
  pub media_ref : String
  pub result_ref : String
  pub model_id : String
  pub model_version : String
  pub pipeline_id : String
  pub pipeline_version : String
  pub correction : JsonObject
  pub authorized_for_training : Bool
  pub deidentified : Bool
  pub domain : Option String
  pub annotation_schema_id : Option String

pub record HardSampleManifest : Type 0 where
  pub manifest_id : String
  pub tenant_id : String
  pub project_id : String
  pub dataset_id : String
  pub version : String
  pub label_schema : String
  pub split : Split
  pub items : List HardSampleItem
  pub sha256 : String
  pub created_by : String
  pub created_at : String

pub record ModelQualificationEvidence : Type 0 where
  pub evidence_type : String
  pub model_id : String
  pub model_version : String
  pub package_sha256 : String

pub record CreateModelReleaseRequest : Type 0 where
  pub model_id : String
  pub version : String
  pub package_sha256 : String
  pub evidence_refs : List String

pub record ModelRelease : Type 0 where
  pub tenant_id : String
  pub project_id : String
  pub model_id : String
  pub version : String
  pub capability : String
  pub runtime_model_id : String
  pub package_sha256 : String
  pub evidence_refs : List String
  pub status : ModelReleaseStatus
  pub created_by : String
  pub created_at : Timestamp
  pub updated_at : Timestamp
  pub activated_at : Option Timestamp
  pub retired_at : Option Timestamp
  pub domain : Option String

pub record ModelDeploymentEvent : Type 0 where
  pub event_id : String
  pub tenant_id : String
  pub project_id : String
  pub model_id : String
  pub version : String
  pub capability : String
  pub runtime_model_id : String
  pub package_sha256 : String
  pub action : String
  pub from_status : Option ModelReleaseStatus
  pub to_status : ModelReleaseStatus
  pub reason : String
  pub operator_id : String
  pub audit_id : String
  pub created_at : String
  pub domain : Option String

pub record ModelPackageManifest : Type 0 where
  pub model_id : String
  pub version : String
  pub capability : String
  pub adapter : String
  pub runtime_model_id : String
  pub sha256 : String
  pub production_ready : Bool
  pub domain : Option String

-- How a method ends: it returns, or it raises `FeedbackNotFound`, `FeedbackConflict` or
-- `PolicyDenied`.
pub data Answer {ℓ} (A : Type ℓ) : Type ℓ where
  answered : A → Answer A
  not_found : String → Answer A
  refused : String → Answer A
  forbidden : String → Answer A
