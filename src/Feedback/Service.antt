-- ===== src/Feedback/Service.antt =====
-- Releases through `FeedbackService`: `create_release`, `transition_release`, `rollback` and
-- `_record_deployment_event` of scenara/platform/feedback.py. The service acts on the feedback
-- repository and on the state store, which has the audit events and the webhooks. Times and
-- identifiers that are made on the way are arguments.
use scenara.Prelude.{String, ℕ, Bool, true, false, none, some, [], ◌∷◌, string_eq, if◌then◌else◌}
use Prim.Native.String.{◌++◌}
use scenara.Models.{Timestamp, Json, JsonObject}
use scenara.Store.{MemoryStateStore}
use scenara.Store.Audit.{append_audit}
use scenara.Store.Webhooks.{enqueue_webhook_event}
use scenara.Policy.{PrincipalContext, granted, denied, require_allowed}
use scenara.Feedback.Models.{
  ModelReleaseStatus, release_eq, CreateModelReleaseRequest, ModelRelease, ModelPackageManifest,
  ModelDeploymentEvent, Answer, answered, not_found, refused, forbidden,
}
use scenara.Feedback.Repository.{
  MemoryFeedbackRepository, create_release, transition_release, append_deployment_event,
}
use scenara.Feedback.Evidence.{Environment, find_package, is_legacy}
use scenara.Feedback.Guards.{check_transition, check_rollback}

pub record World : Type 0 where
  pub repository : MemoryFeedbackRepository
  pub state : MemoryStateStore

-- What a call makes up: the time, the identifiers of the audit event and of the two deployment
-- events, and the streams of identifiers of the webhook deliveries.
pub record Fresh : Type 0 where
  pub now : Timestamp
  pub audit_id : String
  pub event_id : String
  pub other_event_id : String
  pub uuid : ℕ → String
  pub other_uuid : ℕ → String

abbrev pub status_value : ModelReleaseStatus → String
status_value ModelReleaseStatus.candidate = "candidate"
status_value ModelReleaseStatus.validated = "validated"
status_value ModelReleaseStatus.approved = "approved"
status_value ModelReleaseStatus.active = "active"
status_value ModelReleaseStatus.retired = "retired"

-- `AuditLogger.record` with the outcome that it takes by default.
unfoldable pub record_audit :
    PrincipalContext
    → Fresh
    → String
    → String
    → String
    → JsonObject
    → MemoryStateStore
    → MemoryStateStore
record_audit context fresh action resource_type resource_id evidence state =
    append_audit
      (record {
        event_id = fresh.audit_id;
        tenant_id = context.tenant_id;
        project_id = context.project_id;
        principal_id = context.principal_id;
        action = action;
        resource_type = resource_type;
        resource_id = some resource_id;
        outcome = "success";
        request_id = none;
        evidence = evidence;
        created_at = fresh.now;
      })
      state

abbrev pub release_name : String → String → String
release_name model_id version = model_id ++ ("@" ++ version)

-- The part of an event that its release, or the call, says.
abbrev pub deployment_event :
    PrincipalContext
    → Fresh
    → (Timestamp → String)
    → String
    → String
    → ModelRelease
    → String
    → ModelReleaseStatus
    → ModelReleaseStatus
    → String
    → ModelDeploymentEvent
deployment_event context fresh rfc3339 event_id model_id r action from_status to_status reason =
    record {
      event_id = event_id;
      tenant_id = context.tenant_id;
      project_id = context.project_id;
      model_id = model_id;
      version = r.version;
      capability = r.capability;
      runtime_model_id = r.runtime_model_id;
      package_sha256 = r.package_sha256;
      action = action;
      from_status = some from_status;
      to_status = to_status;
      reason = reason;
      operator_id = context.principal_id;
      audit_id = fresh.audit_id;
      created_at = rfc3339 fresh.now;
      domain = r.domain;
    }

abbrev pub candidate_of :
    PrincipalContext → Fresh → CreateModelReleaseRequest → ModelPackageManifest → ModelRelease
candidate_of context fresh body manifest = record {
  tenant_id = context.tenant_id;
  project_id = context.project_id;
  model_id = body.model_id;
  version = body.version;
  capability = manifest.capability;
  runtime_model_id = manifest.runtime_model_id;
  package_sha256 = body.package_sha256;
  evidence_refs = body.evidence_refs;
  status = ModelReleaseStatus.candidate;
  created_by = context.principal_id;
  created_at = fresh.now;
  updated_at = fresh.now;
  activated_at = none;
  retired_at = none;
  domain = manifest.domain;
}

module _ {D : Type 0} (env : Environment D) where
  unfoldable pub record_deployment_event : (ℕ → String) → ModelDeploymentEvent → World → World
  record_deployment_event uuid event w = record {
    repository = append_deployment_event event w.repository;
    state =
        enqueue_webhook_event uuid
          (record {
            tenant_id = event.tenant_id;
            project_id = event.project_id;
            event_id = event.event_id;
            event_type = "model.deployment.changed";
            payload = env.dump event;
            created_at = env.epoch event.created_at;
          })
          w.state;
  }

  -- `create_release`: a release starts as a candidate.
  unfoldable pub service_create :
      PrincipalContext → Fresh → CreateModelReleaseRequest → World → World × Answer ModelRelease
  service_create context fresh body w =
      elim (require_allowed env.provider context "model-release.create" "model-release" none) [
        | denied m ↦ (w, forbidden m)
        | granted decision ↦
            elim (find_package env.packages body.model_id body.version body.package_sha256) [
              | answered manifest ↦
                  let audited =
                    record_audit context fresh "model-release.create" "model-release"
                      (release_name body.model_id body.version)
                      (("package_sha256", Json.text body.package_sha256) ∷ []) w.state in
                  let (repository, answer) =
                    create_release (candidate_of context fresh body manifest) w.repository in
                  if is_legacy manifest
                  then (w, refused "migrated model packages must be replaced before release")
                  else (record { repository = repository; state = audited }, answer)
              | not_found m ↦ (w, not_found m)
              | refused m ↦ (w, refused m)
              | forbidden m ↦ (w, forbidden m)
            ]
      ]

  -- The audit event, the transition in the repository and the deployment events that follow it.
  -- `other_model` is the model that the event of the release that is retired names.
  unfoldable pub carry_out :
      PrincipalContext
      → Fresh
      → String
      → String
      → (ModelRelease → String)
      → ModelReleaseStatus
      → Bool
      → String × JsonObject
      → (String × String) × (String × String)
      → ModelReleaseStatus
      → World
      → World × Answer ModelRelease
  carry_out context fresh model_id version other_model target rollback (audit_action, evidence)
        ((action, reason), (other_action, other_reason)) from_status w =
      let audited =
        record_audit context fresh audit_action "model-release" (release_name model_id version)
          evidence w.state in
      let (repository, answer) =
        transition_release ((context.tenant_id, context.project_id), (model_id, version)) target
          rollback fresh.now w.repository in
      let moved_world : World = record { repository = repository; state = audited } in
      elim answer [
        | answered (updated, retired) ↦
            let recorded =
              record_deployment_event fresh.uuid
                (deployment_event context fresh env.rfc3339 fresh.event_id model_id updated action
                  from_status target reason)
                moved_world in
            elim retired [
              | none ↦ (recorded, answered updated)
              | some other ↦ (
                record_deployment_event fresh.other_uuid
                    (deployment_event context fresh env.rfc3339 fresh.other_event_id
                      (other_model other) other other_action ModelReleaseStatus.active
                      ModelReleaseStatus.retired other_reason)
                    recorded,
                answered updated,
              )
            ]
        | not_found m ↦ (moved_world, not_found m)
        | refused m ↦ (moved_world, refused m)
        | forbidden m ↦ (moved_world, forbidden m)
      ]

  unfoldable pub service_transition :
      PrincipalContext
      → Fresh
      → String
      → String
      → ModelReleaseStatus
      → String
      → World
      → World × Answer ModelRelease
  service_transition context fresh model_id version target reason w =
      elim (check_transition env context model_id version target w.repository) [
        | answered current ↦
            carry_out context fresh model_id version (λ (other : ModelRelease). other.model_id)
              target false
              (
                "model-release.transition",
                ("from", Json.text (status_value current.status))
                    ∷ ("to", Json.text (status_value target))
                    ∷ ("reason", Json.text reason)
                    ∷ [],
              )
              (
                ("transition", reason),
                ("superseded", "superseded by " ++ release_name model_id version),
              )
              current.status w
        | not_found m ↦ (w, not_found m)
        | refused m ↦ (w, refused m)
        | forbidden m ↦ (w, forbidden m)
      ]

  unfoldable pub rollback :
      PrincipalContext → Fresh → String → String → String → World → World × Answer ModelRelease
  rollback context fresh model_id target_version reason w =
      elim (check_rollback env context model_id target_version w.repository) [
        | answered target ↦
            carry_out context fresh model_id target_version (λ other. model_id)
              ModelReleaseStatus.active true
              ("model-release.rollback", ("reason", Json.text reason) ∷ [])
              (("rollback", reason), ("rollback-retire", reason)) target.status w
        | not_found m ↦ (w, not_found m)
        | refused m ↦ (w, refused m)
        | forbidden m ↦ (w, forbidden m)
      ]
