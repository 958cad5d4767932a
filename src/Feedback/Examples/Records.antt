-- ===== src/Feedback/Examples/Records.antt =====
-- Witnesses: one feedback record that is reviewed and exported, and a correction that hides a crop.
use scenara.Prelude.{
  String, true, none, some, List, [], ◌∷◌, All, ◌==◌, string_eq, key_eq, key_eqb, pair_eq,
  if◌then◌else◌, ◌≡◌, ◌↔◌, refl, arith,
}
use scenara.Prelude.Dict.{lookup, any_entry}
use scenara.Models.{Json, JsonFields, JsonObject}
use scenara.Policy.{development_policy, require_allowed}
use scenara.Store.Examples.{empty}
use scenara.Feedback.Models.{
  FeedbackKind, FeedbackStatus, FeedbackRecord, Split, CreateHardSampleManifestRequest,
  HardSampleItem, HardSampleManifest, Answer, answered,
}
use scenara.Feedback.Repository.{get_feedback, create_manifest}
use scenara.Feedback.Service.{World}
use scenara.Feedback.Correction.{
  is_sensitive, contains_sensitive, contains_sensitive_correction, ReachesCorrection,
  contains_sensitive_correction_iff,
}
use scenara.Feedback.Review.{AllFit, review, review-AllFit}
use scenara.Feedback.Manifest.{
  IsClean, collect, check_manifest, export_manifest, manifest_of, item_of, export_manifest-IsClean,
}
use scenara.Feedback.Examples.{operator, fresh, env}

abbrev lower : String → String
lower t = if t == "Crop" then "crop" else t

abbrev hidden : JsonObject
hidden = ("box", Json.object (JsonFields.field "Crop" Json.null JsonFields.end)) ∷ []

contains_sensitive_correction_iff_example :
    (contains_sensitive_correction lower hidden ≡ true)
    ↔ ((key : String) × (is_sensitive lower key ≡ true) × ReachesCorrection lower key hidden)
contains_sensitive_correction_iff_example = contains_sensitive_correction_iff lower hidden

abbrev correction_of : FeedbackStatus → FeedbackRecord
correction_of status = record {
  feedback_id = "fbk_1";
  tenant_id = "acme";
  project_id = "demo";
  kind = FeedbackKind.ocr_correction;
  run_id = "run_1";
  result_ref = "result.json";
  media_ref = "asset_1";
  pipeline_id = "ocr";
  pipeline_version = "1.0.0";
  model_id = "reader";
  model_version = "1.0.0";
  correction = ("text", Json.text "A") ∷ [];
  annotation_schema_id = none;
  authorized_for_training = true;
  deidentified = true;
  status = status;
  submitted_by = "ann";
  reviewed_by = none;
  review_notes = "";
  created_at = 10;
  updated_at = 10;
  domain = some "ocr";
}

abbrev feedback_world : FeedbackStatus → World
feedback_world status = record {
  repository = record {
    feedback = (("acme", "demo", "fbk_1"), correction_of status) ∷ [];
    manifests = [];
    releases = [];
    events = [];
  };
  state = empty;
}

pending-AllFit : AllFit lower (feedback_world FeedbackStatus.pending).repository
pending-AllFit = (λ approved. absurd (ground arith), tt)

review-AllFit_example :
    AllFit lower
      (review lower development_policy operator fresh "fbk_1"
        (record { status = FeedbackStatus.approved; notes = "" })
        (feedback_world FeedbackStatus.pending)).0.repository
review-AllFit_example =
    review-AllFit lower development_policy operator "fbk_1"
      (record { status = FeedbackStatus.approved; notes = "" }) fresh
      (feedback_world FeedbackStatus.pending) pending-AllFit

approved-AllFit : AllFit lower (feedback_world FeedbackStatus.approved).repository
unfolding contains_sensitive_correction contains_sensitive is_sensitive
approved-AllFit = (λ approved. (refl, refl, refl), tt)

abbrev request : CreateHardSampleManifestRequest
request = record {
  dataset_id = "hard";
  version = "1.0.0";
  label_schema = "scenara.feedback.correction.v1";
  split = Split.train;
  feedback_ids = "fbk_1" ∷ [];
}

abbrev digest : CreateHardSampleManifestRequest → List HardSampleItem → String
digest body items = "digest"

abbrev exported : World × Answer HardSampleManifest
exported =
    export_manifest development_policy digest env.rfc3339 operator fresh request
      (feedback_world FeedbackStatus.approved)

abbrev exported_manifest : HardSampleManifest
exported_manifest =
    manifest_of development_policy digest env.rfc3339 operator fresh request
      (item_of (correction_of FeedbackStatus.approved) ∷ [])

is_exported : exported.1 ≡ answered exported_manifest
unfolding export_manifest check_manifest require_allowed development_policy collect get_feedback
    lookup create_manifest any_entry key_eqb
is_exported = refl

export_manifest-IsClean_example :
    All
      (IsClean lower "acme" "demo" (feedback_world FeedbackStatus.approved).repository)
      exported_manifest.items
export_manifest-IsClean_example =
    export_manifest-IsClean development_policy digest env.rfc3339 operator request lower fresh
      (feedback_world FeedbackStatus.approved) exported_manifest approved-AllFit is_exported
