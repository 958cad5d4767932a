-- ===== src/Feedback/Activation.antt =====
-- The three calls of `FeedbackService` that activate a release.
use scenara.Prelude.{
  String, string_eq, pair_eq, Bool, true, false, Option, some, Option-cases, ◌≡◌, ◌∙◌, inl, inr,
  arith,
}
use scenara.Models.{Timestamp, JsonObject}
use scenara.Policy.{PrincipalContext}
use scenara.Feedback.Models.{ModelReleaseStatus, release_eq, ModelRelease, Answer, answered}
use scenara.Feedback.Answers.{Answer-cases}
use scenara.Prelude.Dict.{lookup}
use scenara.Feedback.Repository.{
  MemoryFeedbackRepository, ReleaseKey, get_release, list_releases, validate_release_transition,
  transition_release, moved,
}
use scenara.Feedback.Evidence.{Environment}
use scenara.Feedback.Guards.{check_transition, check_rollback}
use scenara.Feedback.Service.{World, Fresh, carry_out, service_transition, rollback}
use scenara.Feedback.Automatic.{rollback_target, auto_rollback}
use scenara.Feedback.Guarded.{IsReady, check_transition-IsReady, check_rollback-IsReady}

transition_release-moved :
    (key : ReleaseKey) (target : ModelReleaseStatus) (rolls : Bool) (now : Timestamp)
    (s : MemoryFeedbackRepository) (current updated : ModelRelease) (retired : Option ModelRelease)
    → lookup key s.releases ≡ some current
    → (transition_release key target rolls now s).1 ≡ answered (updated, retired)
    → updated ≡ moved target now current
unfolding transition_release
transition_release-moved key target rolls now s current updated retired found h =
    elim (Answer-cases (validate_release_transition current.status target rolls)) [
      | inl (u, fits) ↦ let made = rw fits at (rw (found, transition_release) at h) in cc made
      | inr (inl (m, bad)) ↦ absurd (ground (arith, found, bad, h))
      | inr (inr (inl (m, bad))) ↦ absurd (ground (arith, found, bad, h))
      | inr (inr (inr (m, bad))) ↦ absurd (ground (arith, found, bad, h))
    ]

-- A call that activates a release: of a version, by a rollback to a version, or by the automatic
-- rollback from a version.
pub data Activation : Type 0 where
  transition rolls_back rolls_back_from : String → String → String → Activation

module _ {D : Type 0} (env : Environment D) (before : String → String → Bool)
    (context : PrincipalContext) (fresh : Fresh) where
  abbrev pub activate : Activation → World → World × Answer ModelRelease
  activate (Activation.transition model_id version reason) w =
      service_transition env context fresh model_id version ModelReleaseStatus.active reason w
  activate (Activation.rolls_back model_id version reason) w =
      rollback env context fresh model_id version reason w
  activate (Activation.rolls_back_from model_id version reason) w =
      auto_rollback env before context fresh model_id version reason w

  -- The release is a stored one that was ready, made active.
  abbrev pub IsActivated : World → ModelRelease → Type 0
  IsActivated w r =
      (model_id : String) × (version : String) × (current : ModelRelease) × (get_release
          context.tenant_id context.project_id model_id version w.repository
        ≡ some current)
      × IsReady env context model_id version current
      × (r ≡ moved ModelReleaseStatus.active fresh.now current)

  carry_out-moved :
      (model_id version : String) (other_model : ModelRelease → String) (rolls : Bool)
      (written : String × JsonObject) (told : (String × String) × (String × String))
      (from_status : ModelReleaseStatus) (w : World) (current r : ModelRelease)
      → get_release context.tenant_id context.project_id model_id version w.repository
        ≡ some current
      → (carry_out env context fresh model_id version other_model ModelReleaseStatus.active rolls
          written told from_status w).1
        ≡ answered r
      → r ≡ moved ModelReleaseStatus.active fresh.now current
  unfolding carry_out get_release
  carry_out-moved model_id version other_model rolls written told from_status w current r found h =
      let key : ReleaseKey = ((context.tenant_id, context.project_id), (model_id, version)) in
      elim (Answer-cases
        (transition_release key ModelReleaseStatus.active rolls fresh.now w.repository).1) [
          | inl ((updated, retired), done) ↦
              let same =
                transition_release-moved key ModelReleaseStatus.active rolls fresh.now w.repository
                  current updated retired found done in
              let told_of = rw (done, carry_out) at h in
              elim (Option-cases retired) [
                | inl alone ↦
                    let given : answered updated ≡ answered r = rw alone at told_of in
                    let equal : r ≡ updated = cc given in equal ∙ same
                | inr (other, superseded) ↦
                    let given : answered updated ≡ answered r = rw superseded at told_of in
                    let equal : r ≡ updated = cc given in equal ∙ same
              ]
          | inr (inl (m, bad)) ↦ absurd (ground (arith, rw (bad, carry_out) at h))
          | inr (inr (inl (m, bad))) ↦ absurd (ground (arith, rw (bad, carry_out) at h))
          | inr (inr (inr (m, bad))) ↦ absurd (ground (arith, rw (bad, carry_out) at h))
        ]

  transition-IsActivated :
      (model_id version reason : String) (w : World) (r : ModelRelease)
      → (service_transition env context fresh model_id version ModelReleaseStatus.active reason w).1
        ≡ answered r
      → IsActivated w r
  unfolding service_transition
  transition-IsActivated model_id version reason w r h =
      elim (Answer-cases
        (check_transition env context model_id version ModelReleaseStatus.active w.repository)) [
          | inl (current, passed) ↦
              let (found, ready) =
                check_transition-IsReady env context model_id version w.repository current passed in
              (
                model_id,
                version,
                current,
                found,
                ready,
                carry_out-moved model_id version (λ (other : ModelRelease). other.model_id) false _
                    _ current.status w current r found (rw (passed, service_transition) at h),
              )
          | inr (inl (m, bad)) ↦ absurd (ground (arith, rw (bad, service_transition) at h))
          | inr (inr (inl (m, bad))) ↦ absurd (ground (arith, rw (bad, service_transition) at h))
          | inr (inr (inr (m, bad))) ↦ absurd (ground (arith, rw (bad, service_transition) at h))
        ]

  rollback-IsActivated :
      (model_id version reason : String) (w : World) (r : ModelRelease)
      → (rollback env context fresh model_id version reason w).1 ≡ answered r
      → IsActivated w r
  unfolding rollback
  rollback-IsActivated model_id version reason w r h =
      elim (Answer-cases (check_rollback env context model_id version w.repository)) [
        | inl (target, passed) ↦
            let (current, found, ready) =
              check_rollback-IsReady env context model_id version w.repository target passed in
            (
              model_id,
              version,
              current,
              found,
              ready,
              carry_out-moved model_id version (λ other. model_id) true _ _ target.status w current
                  r found (rw (passed, rollback) at h),
            )
        | inr (inl (m, bad)) ↦ absurd (ground (arith, rw (bad, rollback) at h))
        | inr (inr (inl (m, bad))) ↦ absurd (ground (arith, rw (bad, rollback) at h))
        | inr (inr (inr (m, bad))) ↦ absurd (ground (arith, rw (bad, rollback) at h))
      ]

  -- A release that the service activates, by a transition, a rollback or an automatic rollback, is a
  -- stored one whose package, with its model, version and digest, is listed, is not a migrated one, is
  -- ready for production and is shown to be qualified; it is answered as this one, made active.
  pub activate-IsActivated :
      (a : Activation) (w : World) (r : ModelRelease)
      → (activate a w).1 ≡ answered r
      → IsActivated w r
  unfolding auto_rollback
  activate-IsActivated (Activation.transition model_id version reason) w r h =
      transition-IsActivated model_id version reason w r h
  activate-IsActivated (Activation.rolls_back model_id version reason) w r h =
      rollback-IsActivated model_id version reason w r h
  activate-IsActivated (Activation.rolls_back_from model_id version reason) w r h =
      elim (Answer-cases (
        rollback_target before model_id version
          (list_releases context.tenant_id context.project_id w.repository))) [
            | inl (target, found) ↦
                rollback-IsActivated model_id target.version reason w r
                  (rw (found, auto_rollback) at h)
            | inr (inl (m, bad)) ↦ absurd (ground (arith, rw (bad, auto_rollback) at h))
            | inr (inr (inl (m, bad))) ↦ absurd (ground (arith, rw (bad, auto_rollback) at h))
            | inr (inr (inr (m, bad))) ↦ absurd (ground (arith, rw (bad, auto_rollback) at h))
          ]
