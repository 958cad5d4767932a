-- ===== src/Feedback/Automatic.antt =====
-- `FeedbackService.auto_rollback` of scenara/platform/feedback.py. `before` compares the keys that
-- `_release_version_key` gives of two versions.
use scenara.Prelude.{
  String, Bool, not, ◌&&◌, none, some, List, [], ◌∷◌, filter, find, ◌==◌, string_eq, if◌then◌else◌,
}
use scenara.Policy.{PrincipalContext}
use scenara.Feedback.Models.{
  ModelReleaseStatus, release_eq, ModelRelease, Answer, answered, not_found, refused, forbidden,
}
use scenara.Feedback.Repository.{list_releases}
use scenara.Feedback.Evidence.{Environment}
use scenara.Feedback.Service.{World, Fresh, rollback}

-- `max(candidates, key=...)`, the first of the greatest; `before` compares the keys of versions.
abbrev pub greatest : (String → String → Bool) → ModelRelease → List ModelRelease → ModelRelease
greatest before best [] = best
greatest before best (r ∷ rs) =
    greatest before (if before best.version r.version then r else best) rs

-- The newest retired release of the model, where the current one is active.
unfoldable pub rollback_target :
    (String → String → Bool) → String → String → List ModelRelease → Answer ModelRelease
rollback_target before model_id current_version releases =
    let candidates =
      filter
        (λ (r : ModelRelease).
          (r.model_id == model_id)
          && ((r.status == ModelReleaseStatus.retired) && not (r.version == current_version)))
        releases in
    elim (find (λ (r : ModelRelease). (r.model_id == model_id) && (r.version == current_version))
      releases) [
        | none ↦ refused "automatic rollback requires an active current release"
        | some current ↦
            if not (current.status == ModelReleaseStatus.active)
            then refused "automatic rollback requires an active current release"
            else elim candidates [
              | [] ↦ refused "automatic rollback has no retired target"
              | r ∷ rs ↦ answered (greatest before r rs)
            ]
      ]

module _ {D : Type 0} (env : Environment D) (before : String → String → Bool) where
  unfoldable pub auto_rollback :
      PrincipalContext → Fresh → String → String → String → World → World × Answer ModelRelease
  auto_rollback context fresh model_id current_version reason w =
      elim (rollback_target before model_id current_version
        (list_releases context.tenant_id context.project_id w.repository)) [
          | answered target ↦ rollback env context fresh model_id target.version reason w
          | not_found m ↦ (w, not_found m)
          | refused m ↦ (w, refused m)
          | forbidden m ↦ (w, forbidden m)
        ]
