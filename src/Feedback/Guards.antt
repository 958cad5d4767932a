-- ===== src/Feedback/Guards.antt =====
-- The guards of `transition_release` and `rollback` of `FeedbackService` in
-- scenara/platform/feedback.py: what is read and refused before anything changes.
use scenara.Prelude.{String, Bool, true, false, not, ◌&&◌, none, ◌==◌, string_eq, if◌then◌else◌}
use scenara.Policy.{PrincipalContext, require_allowed}
use scenara.Feedback.Models.{
  ModelReleaseStatus, release_eq, ModelRelease, Answer, answered, refused,
}
use scenara.Feedback.Answers.{and_then, authorised, or_not_found}
use scenara.Feedback.Repository.{MemoryFeedbackRepository, get_release, validate_release_transition}
use scenara.Feedback.Evidence.{
  Environment, find_package, is_legacy, validate_qualification_evidence,
}

-- `{VALIDATED, APPROVED, ACTIVE}`
abbrev pub needs_package : ModelReleaseStatus → Bool
needs_package ModelReleaseStatus.candidate = false
needs_package ModelReleaseStatus.validated = true
needs_package ModelReleaseStatus.approved = true
needs_package ModelReleaseStatus.active = true
needs_package ModelReleaseStatus.retired = false

module _ {D : Type 0} (env : Environment D) (context : PrincipalContext)
    (model_id version : String) where
  -- The package of the release and its evidence.
  unfoldable pub check_package : ModelReleaseStatus → ModelRelease → Answer ModelRelease
  check_package target current =
      and_then (find_package env.packages model_id version current.package_sha256) (λ manifest.
        if is_legacy manifest
        then refused "migrated model packages must be replaced before release"
        else and_then (validate_qualification_evidence env context current manifest) (λ u.
          if (target == ModelReleaseStatus.active) && not manifest.production_ready
          then refused "only a production-ready package can be activated"
          else answered current))

  unfoldable pub check_transition :
      ModelReleaseStatus → MemoryFeedbackRepository → Answer ModelRelease
  check_transition target s =
      and_then
        (authorised
          (require_allowed env.provider context "model-release.transition" "model-release" none))
        (λ decision.
          and_then
            (or_not_found "model release not found"
              (get_release context.tenant_id context.project_id model_id version s))
            (λ current. and_then (validate_release_transition current.status target false) (λ u.
              if needs_package target then check_package target current else answered current)))

  -- The package of the target of a rollback and its evidence.
  unfoldable pub check_target : ModelRelease → Answer ModelRelease
  check_target current =
      and_then (find_package env.packages model_id version current.package_sha256) (λ manifest.
        if is_legacy manifest
        then refused "migrated model packages cannot be rollback targets"
        else if not manifest.production_ready
        then refused "rollback target package is not production-ready"
        else and_then (validate_qualification_evidence env context current manifest)
            (λ u. answered current))

  unfoldable pub check_rollback : MemoryFeedbackRepository → Answer ModelRelease
  check_rollback s =
      and_then
        (authorised
          (require_allowed env.provider context "model-release.rollback" "model-release" none))
        (λ decision.
          and_then
            (or_not_found "rollback target not found"
              (get_release context.tenant_id context.project_id model_id version s))
            (λ current.
              and_then (validate_release_transition current.status ModelReleaseStatus.active true)
                (λ u. check_target current)))
