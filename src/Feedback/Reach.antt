-- ===== src/Feedback/Reach.antt =====
-- What the calls of `FeedbackService` that change releases lead to.
use scenara.Prelude.{
  String, Bool, true, false, none, [], ◌≡◌, ◌≢◌, refl, inl, inr, Bool-cases, Option-cases, arith,
}
use scenara.Prelude.Dict.{count_entries}
use scenara.Models.{JsonObject}
use scenara.Policy.{PrincipalContext, Verdict-cases, require_allowed}
use scenara.Feedback.Models.{ModelReleaseStatus, ModelRelease, CreateModelReleaseRequest, refused}
use scenara.Feedback.Answers.{Answer-cases}
use scenara.Feedback.Repository.{
  ReleaseKey, list_releases, transition_release, append_deployment_event,
}
use scenara.Feedback.Active.{IsSingle, transition_release-IsSingle, create_release-IsSingle}
use scenara.Feedback.Evidence.{Environment, find_package, is_legacy}
use scenara.Feedback.Guards.{check_transition, check_rollback}
use scenara.Feedback.Service.{
  World, Fresh, record_deployment_event, candidate_of, carry_out, service_create,
  service_transition, rollback,
}
use scenara.Feedback.Automatic.{rollback_target, auto_rollback}
use scenara.Feedback.Bindings.{active_runtime_bindings, active_runtime_bindings-single}

module _ {D : Type 0} (env : Environment D) (before : String → String → Bool) where
  -- One call, by anyone and at any time.
  pub data Step (w : World) : World → Type 0 where
    create :
        (context : PrincipalContext) (fresh : Fresh) (body : CreateModelReleaseRequest)
        → Step w (service_create env context fresh body w).0
    transition :
        (context : PrincipalContext) (fresh : Fresh) (model_id version : String)
        (target : ModelReleaseStatus) (reason : String)
        → Step w (service_transition env context fresh model_id version target reason w).0
    roll_back :
        (context : PrincipalContext) (fresh : Fresh) (model_id version reason : String)
        → Step w (rollback env context fresh model_id version reason w).0
    roll_back_automatically :
        (context : PrincipalContext) (fresh : Fresh) (model_id version reason : String)
        → Step w (auto_rollback env before context fresh model_id version reason w).0

  -- Calls in a row, from a world without releases.
  pub data Reach : World → Type 0 where
    start : (w : World) → w.repository.releases ≡ [] → Reach w
    more : {v w : World} → Reach v → Step v w → Reach w

  abbrev Holds : World → Type 0
  Holds w = IsSingle w.repository.releases

  carry_out-IsSingle :
      (context : PrincipalContext) (fresh : Fresh) (model_id version : String)
      (other_model : ModelRelease → String) (target : ModelReleaseStatus) (rolls : Bool)
      (audit : String × JsonObject) (texts : (String × String) × (String × String))
      (from : ModelReleaseStatus) (w : World)
      → Holds w
      → Holds
          (carry_out env context fresh model_id version other_model target rolls audit texts from
            w).0
  unfolding carry_out record_deployment_event append_deployment_event
  carry_out-IsSingle context fresh model_id version other_model target rolls audit texts from w h =
      let key : ReleaseKey = ((context.tenant_id, context.project_id), (model_id, version)) in
      let kept = transition_release-IsSingle key target rolls fresh.now w.repository h in
      elim (Answer-cases (transition_release key target rolls fresh.now w.repository).1) [
        | inl ((updated, retired), done) ↦ elim (Option-cases retired) [
          | inl alone ↦ rw (done, carry_out) (rw alone kept)
          | inr (other, superseded) ↦ rw (done, carry_out) (rw superseded kept)
        ]
        | inr (inl (m, bad)) ↦ rw (bad, carry_out) kept
        | inr (inr (inl (m, bad))) ↦ rw (bad, carry_out) kept
        | inr (inr (inr (m, bad))) ↦ rw (bad, carry_out) kept
      ]

  rollback-IsSingle :
      (context : PrincipalContext) (fresh : Fresh) (model_id version reason : String) (w : World)
      → Holds w
      → Holds (rollback env context fresh model_id version reason w).0
  unfolding rollback
  rollback-IsSingle context fresh model_id version reason w h =
      elim (Answer-cases (check_rollback env context model_id version w.repository)) [
        | inl (target, passed) ↦
            rw (passed, rollback)
              (carry_out-IsSingle context fresh model_id version (λ other. model_id)
                ModelReleaseStatus.active true _ _ target.status w h)
        | inr (inl (m, bad)) ↦ rw (bad, rollback) h
        | inr (inr (inl (m, bad))) ↦ rw (bad, rollback) h
        | inr (inr (inr (m, bad))) ↦ rw (bad, rollback) h
      ]

  service_transition-IsSingle :
      (context : PrincipalContext) (fresh : Fresh) (model_id version : String)
      (target : ModelReleaseStatus) (reason : String) (w : World)
      → Holds w
      → Holds (service_transition env context fresh model_id version target reason w).0
  unfolding service_transition
  service_transition-IsSingle context fresh model_id version target reason w h =
      elim (Answer-cases (check_transition env context model_id version target w.repository)) [
        | inl (current, passed) ↦
            rw (passed, service_transition)
              (carry_out-IsSingle context fresh model_id version
                (λ (other : ModelRelease). other.model_id) target false _ _ current.status w h)
        | inr (inl (m, bad)) ↦ rw (bad, service_transition) h
        | inr (inr (inl (m, bad))) ↦ rw (bad, service_transition) h
        | inr (inr (inr (m, bad))) ↦ rw (bad, service_transition) h
      ]

  service_create-IsSingle :
      (context : PrincipalContext) (fresh : Fresh) (body : CreateModelReleaseRequest) (w : World)
      → Holds w
      → Holds (service_create env context fresh body w).0
  unfolding service_create
  service_create-IsSingle context fresh body w h =
      elim (Verdict-cases
        (require_allowed env.provider context "model-release.create" "model-release" none)) [
          | inr (m, deny) ↦ rw (deny, service_create) h
          | inl (d, may) ↦
              elim (Answer-cases
                (find_package env.packages body.model_id body.version body.package_sha256)) [
                  | inr (inl (m, bad)) ↦ rw (may, service_create) (rw bad h)
                  | inr (inr (inl (m, bad))) ↦ rw (may, service_create) (rw bad h)
                  | inr (inr (inr (m, bad))) ↦ rw (may, service_create) (rw bad h)
                  | inl (p, listed) ↦ elim (Bool-cases (is_legacy p)) [
                    | inl legacy ↦ rw (may, service_create) (rw listed (rw legacy h))
                    | inr own ↦
                        rw (may, service_create)
                          (rw listed (
                            rw own (
                              create_release-IsSingle (candidate_of context fresh body p)
                                w.repository refl h)))
                  ]
                ]
        ]

  auto_rollback-IsSingle :
      (context : PrincipalContext) (fresh : Fresh) (model_id version reason : String) (w : World)
      → Holds w
      → Holds (auto_rollback env before context fresh model_id version reason w).0
  unfolding auto_rollback
  auto_rollback-IsSingle context fresh model_id version reason w h =
      let releases = list_releases context.tenant_id context.project_id w.repository in
      elim (Answer-cases (rollback_target before model_id version releases)) [
        | inl (target, found) ↦
            rw (found, auto_rollback)
              (rollback-IsSingle context fresh model_id target.version reason w h)
        | inr (inl (m, bad)) ↦ rw (bad, auto_rollback) h
        | inr (inr (inl (m, bad))) ↦ rw (bad, auto_rollback) h
        | inr (inr (inr (m, bad))) ↦ rw (bad, auto_rollback) h
      ]

  Step-IsSingle : {v w : World} → Step v w → Holds v → Holds w
  Step-IsSingle {v = v} (Step.create context fresh body) h =
      service_create-IsSingle context fresh body v h
  Step-IsSingle {v = v} (Step.transition context fresh model_id version target reason) h =
      service_transition-IsSingle context fresh model_id version target reason v h
  Step-IsSingle {v = v} (Step.roll_back context fresh model_id version reason) h =
      rollback-IsSingle context fresh model_id version reason v h
  Step-IsSingle {v = v} (Step.roll_back_automatically context fresh model_id version reason) h =
      auto_rollback-IsSingle context fresh model_id version reason v h

  pub Reach-IsSingle : {w : World} → Reach w → IsSingle w.repository.releases
  Reach-IsSingle (Reach.start w none_yet) =
      rw none_yet
        (record { unique = tt; single = λ project c. unfold count_entries in omega arith })
  Reach-IsSingle (Reach.more reach step) = Step-IsSingle step (Reach-IsSingle reach)

  -- Whatever releases the service creates, moves and rolls back, from a repository without
  -- releases on, the runtime bindings of a project are never refused because two active releases
  -- target one capability.
  pub Reach-active_runtime_bindings :
      {w : World} (tenant_id project_id : String)
      → Reach w
      → active_runtime_bindings env.packages tenant_id project_id w.repository
        ≢ refused "multiple active model releases target the same capability"
  Reach-active_runtime_bindings {w = w} tenant_id project_id reach =
      active_runtime_bindings-single env.packages tenant_id project_id w.repository
        (Reach-IsSingle reach)
