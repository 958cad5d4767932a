-- ===== src/Feedback/Examples.antt =====
-- Witnesses: two models of one capability, and evidence whose documents are named by their type.
pub mod Records
use scenara.Prelude.{
  String, ℕ, ◌≤◌, Bool, true, false, Option, none, some, List, [], ◌∷◌, ◌++◌, All, ◌==◌, string_eq,
  key_eq, key_eqb, pair_eq, if◌then◌else◌, ◌≡◌, ◌≢◌, ◌↔◌, refl, arith,
}
use Prim.Native.String.{◌++◌ as append}
use scenara.Prelude.Dict.{lookup, has_key, insert, count_entries, any_entry}
use scenara.Prelude.Sort.{sort}
use scenara.Models.{Timestamp, Json, JsonFields, JsonObject}
use scenara.Policy.{PrincipalContext, development_policy, require_allowed}
use scenara.Store.Examples.{empty, differ}
use scenara.Feedback.Models.{
  FeedbackKind, FeedbackStatus, FeedbackRecord, ReviewFeedbackRequest, Split,
  CreateHardSampleManifestRequest, HardSampleItem, HardSampleManifest, ModelReleaseStatus,
  ModelRelease, ModelPackageManifest, ModelQualificationEvidence, ModelDeploymentEvent, Answer,
  answered, refused,
}
use scenara.Feedback.Answers.{and_then, authorised, or_not_found}
use scenara.Feedback.Repository.{
  ReleaseKey, MemoryFeedbackRepository, append_deployment_event, get_feedback, get_release,
  validate_release_transition, retire_first, moved, retired_at_time, transition_release,
  create_manifest,
}
use scenara.Feedback.Active.{IsSingle, transition_release-IsSingle}
use scenara.Feedback.Evidence.{
  Environment, required_types, find_package, read_evidence, evidence_types,
  validate_qualification_evidence,
}
use scenara.Feedback.Guards.{check_package, check_transition, check_target, check_rollback}
use scenara.Feedback.Service.{
  record_deployment_event, World, Fresh, carry_out, service_create, service_transition, rollback,
}
use scenara.Feedback.Qualified.{IsShown, validate_qualification_evidence-IsShown}
use scenara.Feedback.Activation.{Activation, IsActivated, activate-IsActivated}
use scenara.Feedback.Correction.{
  is_sensitive, contains_sensitive, any_sensitive_field, contains_sensitive_correction,
  ReachesCorrection, contains_sensitive_correction_iff,
}
use scenara.Feedback.Review.{AllFit, review, review-AllFit}
use scenara.Feedback.Manifest.{
  IsClean, collect, check_manifest, export_manifest, manifest_of, item_of, export_manifest-IsClean,
}
use scenara.Feedback.Reach.{Reach, Step, Reach-active_runtime_bindings}
use scenara.Feedback.Bindings.{active_runtime_bindings}

abbrev pub operator : PrincipalContext
operator = record {
  tenant_id = "acme";
  project_id = "demo";
  principal_id = "ann";
  scopes = "*" ∷ [];
  product_ids = "*" ∷ [];
  request_id = none;
  traceparent = none;
}

abbrev pub fresh : Fresh
fresh = record {
  now = 50;
  audit_id = "aud_1";
  event_id = "mde_1";
  other_event_id = "mde_2";
  uuid = λ n. "a";
  other_uuid = λ n. "b";
}

abbrev reader : ModelPackageManifest
reader = record {
  model_id = "reader";
  version = "1.0.0";
  capability = "ocr";
  adapter = "onnx";
  runtime_model_id = "ocr/reader";
  sha256 = "p1";
  production_ready = true;
  domain = some "ocr";
}

abbrev folder : String
folder = "tenants/acme/projects/demo/model-evidence/"

abbrev read_document : String → Option String
read_document key =
    if key == append folder "model_rights"
    then some "model_rights"
    else if key == append folder "ocr_evaluation"
    then some "ocr_evaluation"
    else if key == append folder "regression"
    then some "regression"
    else none

abbrev pub env : Environment String
env = record {
  provider = development_policy;
  packages = reader ∷ [];
  read = read_document;
  sha = λ document. document;
  parse = λ document. some (record {
    evidence_type = document;
    model_id = "reader";
    model_version = "1.0.0";
    package_sha256 = "p1";
  });
  split_reference = λ reference. (append folder reference, reference);
  evaluation_type = λ manifest. some "ocr_evaluation";
  rfc3339 = λ now. "2026-01-01T00:00:00Z";
  epoch = λ text. 50;
  dump = λ event. [];
}

abbrev reader_release : ModelReleaseStatus → ModelRelease
reader_release status = record {
  tenant_id = "acme";
  project_id = "demo";
  model_id = "reader";
  version = "1.0.0";
  capability = "ocr";
  runtime_model_id = "ocr/reader";
  package_sha256 = "p1";
  evidence_refs = "model_rights" ∷ "ocr_evaluation" ∷ "regression" ∷ [];
  status = status;
  created_by = "ann";
  created_at = 10;
  updated_at = 20;
  activated_at = none;
  retired_at = none;
  domain = some "ocr";
}

-- The active release of another model for the same capability.
abbrev scanner : ModelRelease
scanner = record (reader_release ModelReleaseStatus.active) {
  model_id = "scanner";
  version = "2.0.0";
  runtime_model_id = "ocr/scanner";
  package_sha256 = "p2";
}

abbrev reader_key : ReleaseKey
reader_key = (("acme", "demo"), ("reader", "1.0.0"))

abbrev scanner_key : ReleaseKey
scanner_key = (("acme", "demo"), ("scanner", "2.0.0"))

abbrev releases : ModelReleaseStatus → MemoryFeedbackRepository
releases status = record {
  feedback = [];
  manifests = [];
  releases = (reader_key, reader_release status) ∷ (scanner_key, scanner) ∷ [];
  events = [];
}

abbrev world : ModelReleaseStatus → World
world status = record { repository = releases status; state = empty }

qualified :
    validate_qualification_evidence env operator (reader_release ModelReleaseStatus.approved) reader
    ≡ answered tt
unfolding validate_qualification_evidence and_then evidence_types read_evidence sort
qualified = refl

validate_qualification_evidence-IsShown_example :
    (evaluation : String) × (env.evaluation_type reader ≡ some evaluation)
    × All
        (IsShown env operator (reader_release ModelReleaseStatus.approved))
        (required_types evaluation)
validate_qualification_evidence-IsShown_example =
    validate_qualification_evidence-IsShown env operator
      (reader_release ModelReleaseStatus.approved) reader qualified

abbrev activated : World × Answer ModelRelease
activated =
    service_transition env operator fresh "reader" "1.0.0" ModelReleaseStatus.active "go"
      (world ModelReleaseStatus.approved)

is_activated :
    activated.1
    ≡ answered (moved ModelReleaseStatus.active 50 (reader_release ModelReleaseStatus.approved))
unfolding service_transition check_transition authorised require_allowed or_not_found get_release
    lookup validate_release_transition check_package find_package validate_qualification_evidence
    and_then evidence_types read_evidence sort carry_out transition_release moved development_policy
    retire_first
is_activated = refl

two_releases-IsSingle :
    (status : ModelReleaseStatus)
    → (status ≡ ModelReleaseStatus.approved)
    → IsSingle (releases status).releases
unfolding count_entries has_key
two_releases-IsSingle status h =
    rw h (record { unique = (refl, (refl, tt)); single = λ project c. ground arith })

transition_release-IsSingle_example :
    IsSingle
      (transition_release reader_key ModelReleaseStatus.active false 50
        (releases ModelReleaseStatus.approved)).0.releases
transition_release-IsSingle_example =
    transition_release-IsSingle reader_key ModelReleaseStatus.active false 50
      (releases ModelReleaseStatus.approved)
      (two_releases-IsSingle ModelReleaseStatus.approved refl)

may_roll_back :
    check_rollback env operator "reader" "1.0.0" (releases ModelReleaseStatus.retired)
    ≡ answered (reader_release ModelReleaseStatus.retired)
unfolding check_rollback check_target authorised require_allowed or_not_found get_release lookup
    validate_release_transition find_package validate_qualification_evidence and_then evidence_types
    read_evidence sort development_policy
may_roll_back = refl

abbrev rolled_back : World × Answer ModelRelease
rolled_back = rollback env operator fresh "reader" "1.0.0" "gate" (world ModelReleaseStatus.retired)

retires_scanner :
    (transition_release reader_key ModelReleaseStatus.active true 50
      (releases ModelReleaseStatus.retired)).1
    ≡ answered (
      moved ModelReleaseStatus.active 50 (reader_release ModelReleaseStatus.retired),
      some (retired_at_time 50 scanner),
    )
unfolding transition_release lookup validate_release_transition retire_first
retires_scanner = refl

rolled_back_to :
    rolled_back.1
    ≡ answered (moved ModelReleaseStatus.active 50 (reader_release ModelReleaseStatus.retired))
unfolding rollback carry_out
rolled_back_to = rw (may_roll_back, rollback) (rw (retires_scanner, carry_out) refl)

-- Versions whose order does not matter.
abbrev before : String → String → Bool
before a b = false

activate-IsActivated_example :
    IsActivated env before operator fresh
      (world ModelReleaseStatus.retired)
      (moved ModelReleaseStatus.active 50 (reader_release ModelReleaseStatus.retired))
activate-IsActivated_example =
    activate-IsActivated env before operator fresh (Activation.rolls_back "reader" "1.0.0" "gate")
      (world ModelReleaseStatus.retired)
      (moved ModelReleaseStatus.active 50 (reader_release ModelReleaseStatus.retired))
      rolled_back_to

-- The event of the scanner that is retired names the reader.
event_of_retired :
    (events : List ModelDeploymentEvent) × (e : ModelDeploymentEvent)
    × (rolled_back.0.repository.events ≡ events ++ e ∷ [])
    × (e.version ≡ "2.0.0")
    × (e.action ≡ "rollback-retire")
    × (e.model_id ≡ "reader")
unfolding rollback carry_out record_deployment_event append_deployment_event
event_of_retired =
    rw (may_roll_back, rollback) (rw (retires_scanner, carry_out) (_, _, refl, refl, refl, refl))

-- The world after the reader is created as a candidate.
abbrev new_world : World
new_world = record {
  repository = record { feedback = []; manifests = []; releases = []; events = [] };
  state = empty;
}

abbrev created : World
created =
    (service_create env operator fresh
      (record {
        model_id = "reader";
        version = "1.0.0";
        package_sha256 = "p1";
        evidence_refs = "model_rights" ∷ "ocr_evaluation" ∷ "regression" ∷ [];
      })
      new_world).0

abbrev validated : World
validated =
    (service_transition env operator fresh "reader" "1.0.0" ModelReleaseStatus.validated "go"
      created).0

reached : Reach env (λ a b. false) validated
reached =
    Reach.more (Reach.more (Reach.start new_world refl) (Step.create operator fresh _))
      (Step.transition operator fresh "reader" "1.0.0" ModelReleaseStatus.validated "go")

Reach-active_runtime_bindings_example :
    active_runtime_bindings env.packages "acme" "demo" validated.repository
    ≢ refused "multiple active model releases target the same capability"
Reach-active_runtime_bindings_example =
    Reach-active_runtime_bindings env (λ a b. false) "acme" "demo" reached
