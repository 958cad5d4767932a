-- ===== src/Feedback/Repository.antt =====
-- `MemoryFeedbackRepository` and `validate_release_transition` of scenara/platform/feedback.py. A
-- method is one step, a function from the repository to the new repository and an answer.
use scenara.Prelude.{
  String, ℕ, Bool, true, false, not, ◌&&◌, Option, none, some, List, [], ◌∷◌, ◌++◌, filter, take,
  ◌==◌, Key, key_eq, string_eq, pair_eq, if◌then◌else◌, ltb,
}
use mathlib.Core.List.{reverse}
use scenara.Prelude.Dict.{Dict, lookup, has_key, insert, select, any_entry}
use scenara.Prelude.Sort.{sort, str_ltb}
use scenara.Models.{Timestamp}
use scenara.Feedback.Models.{
  FeedbackRecord, FeedbackStatus, feedback_eq, HardSampleManifest, ModelRelease, ModelReleaseStatus,
  release_eq, ModelDeploymentEvent, Answer, answered, not_found, refused,
}

-- Tenant, project, model and version.
abbrev pub ReleaseKey : Type 0
ReleaseKey = (String × String) × (String × String)

pub record MemoryFeedbackRepository : Type 0 where
  pub feedback : Dict Key FeedbackRecord
  pub manifests : Dict Key HardSampleManifest
  pub releases : Dict ReleaseKey ModelRelease
  pub events : List ModelDeploymentEvent

abbrev pub feedback_key : FeedbackRecord → Key
feedback_key r = (r.tenant_id, r.project_id, r.feedback_id)

abbrev pub release_key : ModelRelease → ReleaseKey
release_key r = ((r.tenant_id, r.project_id), (r.model_id, r.version))

unfoldable pub create_feedback :
    FeedbackRecord → MemoryFeedbackRepository → MemoryFeedbackRepository × Answer FeedbackRecord
create_feedback r s =
    if has_key (feedback_key r) s.feedback
    then (s, refused "feedback already exists")
    else (record s { feedback = insert (feedback_key r) r s.feedback }, answered r)

unfoldable pub get_feedback :
    String → String → String → MemoryFeedbackRepository → Option FeedbackRecord
get_feedback tenant_id project_id feedback_id s =
    lookup (tenant_id, project_id, feedback_id) s.feedback

abbrev pub in_project : String → String → Key → Bool
in_project tenant_id project_id (tenant, project, i) =
    (tenant == tenant_id) && (project == project_id)

-- Python's `sorted` with `reverse=True` keeps the order of equal records.
unfoldable pub list_feedback : String → String → MemoryFeedbackRepository → List FeedbackRecord
list_feedback tenant_id project_id s =
    sort (λ a b. ltb b.created_at a.created_at)
      (select (λ k r. in_project tenant_id project_id k) s.feedback)

unfoldable pub save_feedback :
    FeedbackRecord
    → FeedbackStatus
    → MemoryFeedbackRepository
    → MemoryFeedbackRepository × Answer FeedbackRecord
save_feedback r expected_status s = elim (lookup (feedback_key r) s.feedback) [
  | none ↦ (s, not_found "feedback not found")
  | some current ↦
      if not (current.status == expected_status)
      then (s, refused "feedback status changed concurrently")
      else (record s { feedback = insert (feedback_key r) r s.feedback }, answered r)
]

unfoldable pub create_manifest :
    HardSampleManifest
    → MemoryFeedbackRepository
    → MemoryFeedbackRepository × Answer HardSampleManifest
create_manifest m s =
    if any_entry
      (λ k v.
        in_project m.tenant_id m.project_id k
        && ((v.dataset_id == m.dataset_id) && (v.version == m.version)))
      s.manifests
    then (s, refused "hard-sample manifest version already exists")
    else (
      record s { manifests = insert (m.tenant_id, m.project_id, m.manifest_id) m s.manifests },
      answered m,
    )

-- The order of the times of creation as texts.
unfoldable pub list_manifests : String → String → MemoryFeedbackRepository → List HardSampleManifest
list_manifests tenant_id project_id s =
    sort (λ a b. str_ltb b.created_at a.created_at)
      (select (λ k m. in_project tenant_id project_id k) s.manifests)

unfoldable pub create_release :
    ModelRelease → MemoryFeedbackRepository → MemoryFeedbackRepository × Answer ModelRelease
create_release r s =
    if has_key (release_key r) s.releases
    then (s, refused "model release already exists")
    else (record s { releases = insert (release_key r) r s.releases }, answered r)

unfoldable pub get_release :
    String → String → String → String → MemoryFeedbackRepository → Option ModelRelease
get_release tenant_id project_id model_id version s =
    lookup ((tenant_id, project_id), (model_id, version)) s.releases

abbrev pub release_ltb : ModelRelease → ModelRelease → Bool
release_ltb a b =
    if str_ltb a.model_id b.model_id
    then true
    else if a.model_id == b.model_id
    then str_ltb a.version b.version
    else false

unfoldable pub list_releases : String → String → MemoryFeedbackRepository → List ModelRelease
list_releases tenant_id project_id s =
    sort release_ltb (select (λ k r. k.0 == (tenant_id, project_id)) s.releases)

-- The table of the transitions that are allowed.
abbrev pub allowed_transition : ModelReleaseStatus → ModelReleaseStatus → Bool
allowed_transition ModelReleaseStatus.candidate ModelReleaseStatus.validated = true
allowed_transition ModelReleaseStatus.validated ModelReleaseStatus.approved = true
allowed_transition ModelReleaseStatus.validated ModelReleaseStatus.candidate = true
allowed_transition ModelReleaseStatus.approved ModelReleaseStatus.active = true
allowed_transition ModelReleaseStatus.approved ModelReleaseStatus.candidate = true
allowed_transition ModelReleaseStatus.active ModelReleaseStatus.retired = true
allowed_transition _ _ = false

unfoldable pub validate_release_transition :
    ModelReleaseStatus → ModelReleaseStatus → Bool → Answer (Unit {0})
validate_release_transition current target rollback =
    if rollback
    then (if (current == ModelReleaseStatus.retired) && (target == ModelReleaseStatus.active)
        then answered tt
        else refused "rollback target must be a retired model release")
    else if allowed_transition current target
    then answered tt
    else refused "invalid model release transition"

abbrev pub is_active_for : ReleaseKey → String → ReleaseKey → ModelRelease → Bool
is_active_for key capability other_key other =
    (other_key.0 == key.0)
    && ((other.capability == capability)
        && ((other.status == ModelReleaseStatus.active) && not (other_key == key)))

abbrev pub retired_at_time : Timestamp → ModelRelease → ModelRelease
retired_at_time now r = record r {
  status = ModelReleaseStatus.retired;
  retired_at = some now;
  updated_at = now;
}

-- The loop that retires the first active release of the capability.
unfoldable pub retire_first :
    ReleaseKey
    → String
    → Timestamp
    → Dict ReleaseKey ModelRelease
    → Dict ReleaseKey ModelRelease × Option ModelRelease
retire_first key capability now [] = ([], none)
retire_first key capability now ((k, r) ∷ d) =
    let (d', previous) = retire_first key capability now d in
    if is_active_for key capability k r
    then ((k, retired_at_time now r) ∷ d, some (retired_at_time now r))
    else ((k, r) ∷ d', previous)

unfoldable pub moved : ModelReleaseStatus → Timestamp → ModelRelease → ModelRelease
moved target now r = record r {
  status = target;
  updated_at = now;
  activated_at = if target == ModelReleaseStatus.active then some now else r.activated_at;
  retired_at = if target == ModelReleaseStatus.retired then some now else none;
}

unfoldable pub transition_release :
    ReleaseKey
    → ModelReleaseStatus
    → Bool
    → Timestamp
    → MemoryFeedbackRepository
    → MemoryFeedbackRepository × Answer (ModelRelease × Option ModelRelease)
transition_release key target rollback now s = elim (lookup key s.releases) [
  | none ↦ (s, not_found "model release not found")
  | some current ↦
      let (releases, previous) =
        if target == ModelReleaseStatus.active
        then retire_first key current.capability now s.releases
        else (s.releases, none) in
      let updated = moved target now current in
      elim (validate_release_transition current.status target rollback) [
        | answered u ↦
            (record s { releases = insert key updated releases }, answered (updated, previous))
        | not_found m ↦ (s, not_found m)
        | refused m ↦ (s, refused m)
        | Answer.forbidden m ↦ (s, Answer.forbidden m)
      ]
]

unfoldable pub append_deployment_event :
    ModelDeploymentEvent → MemoryFeedbackRepository → MemoryFeedbackRepository
append_deployment_event event s = record s { events = s.events ++ event ∷ [] }

unfoldable pub list_deployment_events :
    String → String → ℕ → MemoryFeedbackRepository → List ModelDeploymentEvent
list_deployment_events tenant_id project_id limit s =
    take limit
      (filter (λ e. (e.tenant_id == tenant_id) && (e.project_id == project_id)) (reverse s.events))
