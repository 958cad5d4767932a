-- ===== src/Feedback/Guarded.antt =====
-- What `FeedbackService.transition_release` and `rollback` ask before they activate a release.
use scenara.Prelude.{
  String, true, false, none, some, string_eq, Bool-cases, ◌≡◌, subst, inl, inr, arith,
}
use scenara.Policy.{PrincipalContext, require_allowed}
use scenara.Feedback.Models.{
  ModelReleaseStatus, release_eq, ModelRelease, ModelPackageManifest, answered,
}
use scenara.Feedback.Answers.{and_then-answered, authorised, or_not_found, or_not_found-answered}
use scenara.Feedback.Repository.{MemoryFeedbackRepository, get_release, validate_release_transition}
use scenara.Feedback.Evidence.{
  Environment, find_package, is_legacy, validate_qualification_evidence,
}
use scenara.Feedback.Guards.{check_package, check_transition, check_target, check_rollback}

module _ {D : Type 0} (env : Environment D) (context : PrincipalContext)
    (model_id version : String) where
  -- The package of a release is listed, its own, ready for production and shown to be qualified.
  abbrev pub IsReady : ModelRelease → Type 0
  IsReady r =
      (p : ModelPackageManifest) × (find_package env.packages model_id version r.package_sha256
        ≡ answered p)
      × (is_legacy p ≡ false)
      × (p.production_ready ≡ true)
      × (validate_qualification_evidence env context r p ≡ answered tt)

  pub check_transition-IsReady :
      (s : MemoryFeedbackRepository) (r : ModelRelease)
      → check_transition env context model_id version ModelReleaseStatus.active s ≡ answered r
      → (get_release context.tenant_id context.project_id model_id version s ≡ some r) × IsReady r
  unfolding check_transition check_package
  check_transition-IsReady s r h =
      let (d, may, after_policy) =
        and_then-answered
          (authorised
            (require_allowed env.provider context "model-release.transition" "model-release" none))
          _ r h in
      let (current, found, after_release) =
        and_then-answered
          (or_not_found "model release not found"
            (get_release context.tenant_id context.project_id model_id version s))
          _ r after_policy in
      let (u, fits, after_status) =
        and_then-answered
          (validate_release_transition current.status ModelReleaseStatus.active false) _ r
          after_release in
      let (p, own, after_package) =
        and_then-answered (find_package env.packages model_id version current.package_sha256) _ r
          after_status in
      elim (Bool-cases (is_legacy p)) [
        | inl legacy ↦ absurd (ground (arith, rw legacy at after_package))
        | inr own_adapter ↦
            let (v, shown, last) =
              and_then-answered (validate_qualification_evidence env context current p) _ r
                (rw own_adapter at after_package) in
            elim (Bool-cases p.production_ready) [
              | inr not_ready ↦ absurd (ground (arith, rw not_ready at last))
              | inl production ↦
                  let same : current ≡ r = cc (rw production at last) in
                  subst
                    (λ q.
                      (get_release context.tenant_id context.project_id model_id version s ≡ some q)
                      × IsReady q)
                    same
                    (
                      or_not_found-answered "model release not found"
                          (get_release context.tenant_id context.project_id model_id version s)
                          current found,
                      (p, own, own_adapter, production, shown),
                    )
            ]
      ]

  check_target-IsReady :
      (current r : ModelRelease)
      → check_target env context model_id version current ≡ answered r
      → IsReady current
  unfolding check_target
  check_target-IsReady current r h =
      let (p, own, after_package) =
        and_then-answered (find_package env.packages model_id version current.package_sha256) _ r
          h in
      elim (Bool-cases (is_legacy p)) [
        | inl legacy ↦ absurd (ground (arith, rw legacy at after_package))
        | inr own_adapter ↦ elim (Bool-cases p.production_ready) [
          | inr not_ready ↦
              absurd (ground (arith, rw not_ready at (rw own_adapter at after_package)))
          | inl production ↦
              let (v, shown, last) =
                and_then-answered (validate_qualification_evidence env context current p) _ r
                  (rw production at (rw own_adapter at after_package)) in
              (p, own, own_adapter, production, shown)
        ]
      ]

  pub check_rollback-IsReady :
      (s : MemoryFeedbackRepository) (r : ModelRelease)
      → check_rollback env context model_id version s ≡ answered r
      → (current : ModelRelease) × (get_release context.tenant_id context.project_id model_id
            version s
          ≡ some current)
        × IsReady current
  unfolding check_rollback
  check_rollback-IsReady s r h =
      let (d, may, after_policy) =
        and_then-answered
          (authorised
            (require_allowed env.provider context "model-release.rollback" "model-release" none))
          _ r h in
      let (current, found, after_release) =
        and_then-answered
          (or_not_found "rollback target not found"
            (get_release context.tenant_id context.project_id model_id version s))
          _ r after_policy in
      let (u, fits, after_status) =
        and_then-answered
          (validate_release_transition current.status ModelReleaseStatus.active true) _ r
          after_release in
      (
        current,
        or_not_found-answered "rollback target not found"
            (get_release context.tenant_id context.project_id model_id version s) current found,
        check_target-IsReady current r after_status,
      )
