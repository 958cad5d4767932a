-- ===== src/Feedback/Bindings.antt =====
-- `FeedbackService.active_runtime_bindings` of scenara/platform/feedback.py.
use scenara.Prelude.{
  String, ℕ, ◌≤◌, Bool, true, false, not, ◌&&◌, Option, none, some, List, [], ◌∷◌, count, ◌==◌,
  ==-iff, string_eq, pair_eq, if◌then◌else◌, ◌+◌, ◌≡◌, ◌≢◌, refl, inl, inr, Bool-cases,
  Option-cases, arith,
}
use scenara.Prelude.Dict.{Dict, has_key, insert, has_key-insert, select, count_entries}
use scenara.Prelude.Sort.{sort, count-sort}
use scenara.Feedback.Models.{
  ModelRelease, ModelReleaseStatus, release_eq, ModelPackageManifest, Answer, answered, refused,
}
use scenara.Feedback.Repository.{MemoryFeedbackRepository, release_ltb, list_releases, ReleaseKey}
use scenara.Feedback.Evidence.{is_package, is_legacy}
use scenara.Feedback.Active.{IsSingle, is_active_in}

pub record RuntimeModelBinding : Type 0 where
  pub capability : String
  pub model_id : String
  pub version : String
  pub runtime_model_id : String
  pub adapter : String
  pub sha256 : String
  pub package_sha256 : String

-- The last package that is listed with a model, a version and a digest, as a dict keeps it.
abbrev pub last_package :
    String → String → String → List ModelPackageManifest → Option ModelPackageManifest
last_package model_id version sha256 [] = none
last_package model_id version sha256 (p ∷ packages) =
    let later = last_package model_id version sha256 packages in
    elim later [
      | some q ↦ some q
      | none ↦ if is_package model_id version sha256 p then some p else none
    ]

abbrev pub binding_of : ModelRelease → ModelPackageManifest → RuntimeModelBinding
binding_of r p = record {
  capability = r.capability;
  model_id = r.model_id;
  version = r.version;
  runtime_model_id = r.runtime_model_id;
  adapter = p.adapter;
  sha256 = p.sha256;
  package_sha256 = r.package_sha256;
}

-- The loop over the releases, from the bindings so far.
unfoldable pub bind_each :
    List ModelPackageManifest
    → Dict String RuntimeModelBinding
    → List ModelRelease
    → Answer (Dict String RuntimeModelBinding)
bind_each packages bindings [] = answered bindings
bind_each packages bindings (r ∷ releases) =
    let skipped = bind_each packages bindings releases in
    if not (r.status == ModelReleaseStatus.active)
    then skipped
    else elim (last_package r.model_id r.version r.package_sha256 packages) [
      | none ↦ refused "active model release package is unavailable"
      | some p ↦
          let bound = bind_each packages (insert r.capability (binding_of r p) bindings) releases in
          if is_legacy p
          then skipped
          else if has_key r.capability bindings
          then refused "multiple active model releases target the same capability"
          else bound
    ]

unfoldable pub active_runtime_bindings :
    List ModelPackageManifest
    → String
    → String
    → MemoryFeedbackRepository
    → Answer (Dict String RuntimeModelBinding)
active_runtime_bindings packages tenant_id project_id s =
    bind_each packages [] (list_releases tenant_id project_id s)

abbrev multiple : String
multiple = "multiple active model releases target the same capability"

abbrev unavailable : String
unavailable = "active model release package is unavailable"

-- The release is active and for the capability.
abbrev is_bound : String → ModelRelease → Bool
is_bound c r = (r.capability == c) && (r.status == ModelReleaseStatus.active)

abbrev one_if : Bool → ℕ
one_if true = 1
one_if false = 0

apart : unavailable ≢ multiple
apart same =
    let differs : (unavailable == multiple) ≡ false = refl in
    ground (arith, ==-iff unavailable multiple)

refused-apart : {A : Type 0} (m n : String) → m ≢ n → ¬ (Path (Answer A) (refused m) (refused n))
refused-apart m n h same = h cc

bind_each-single :
    (packages : List ModelPackageManifest) (bindings : Dict String RuntimeModelBinding)
    (releases : List ModelRelease)
    → ((c : String) → one_if (has_key c bindings) + count (is_bound c) releases ≤ 1)
    → bind_each packages bindings releases ≢ refused multiple
unfolding bind_each
bind_each-single packages bindings [] h = λ same. cc
bind_each-single packages bindings (r ∷ releases) h =
    elim (Bool-cases (r.status == ModelReleaseStatus.active)) [
      | inr idle ↦ rw idle (bind_each-single packages bindings releases (λ c. ground (arith, h c)))
      | inl active ↦
          elim (Option-cases (last_package r.model_id r.version r.package_sha256 packages)) [
            | inl missing ↦ rw active (rw missing (refused-apart unavailable multiple apart))
            | inr (p, there) ↦ elim (Bool-cases (is_legacy p)) [
              | inl legacy ↦ rw active (
                  rw there (
                    rw legacy
                      (bind_each-single packages bindings releases (λ c. ground (arith, h c)))))
              | inr current ↦ elim (Bool-cases (has_key r.capability bindings)) [
                | inl taken ↦
                    absurd (ground (arith, h r.capability, ==-iff r.capability r.capability))
                | inr free ↦ rw active (
                    rw there (
                      rw current (
                        rw free (
                          bind_each-single packages (insert r.capability (binding_of r p) bindings)
                            releases
                            (λ c. ground (
                              arith,
                              h c,
                              has_key-insert c r.capability (binding_of r p) bindings,
                            ))))))
              ]
            ]
          ]
    ]

count-select :
    (project : String × String) (c : String) (d : Dict ReleaseKey ModelRelease)
    → count (is_bound c) (select (λ k r. k.0 == project) d)
      ≡ count_entries (is_active_in project c) d
unfolding select count_entries
count-select project c [] = refl
count-select project c ((k, r) ∷ d) = ground (arith, count-select project c d)

-- Where the active releases are single, none is refused as a second one.
pub active_runtime_bindings-single :
    (packages : List ModelPackageManifest) (tenant_id project_id : String)
    (s : MemoryFeedbackRepository)
    → IsSingle s.releases
    → active_runtime_bindings packages tenant_id project_id s
      ≢ refused "multiple active model releases target the same capability"
unfolding active_runtime_bindings list_releases has_key
active_runtime_bindings-single packages tenant_id project_id s h =
    bind_each-single packages []
      (sort release_ltb (select (λ k r. k.0 == (tenant_id, project_id)) s.releases))
      (λ c. ground (
        arith,
        count-sort release_ltb (is_bound c)
            (select (λ k r. k.0 == (tenant_id, project_id)) s.releases),
        count-select (tenant_id, project_id) c s.releases,
        h.single (tenant_id, project_id) c,
      ))
