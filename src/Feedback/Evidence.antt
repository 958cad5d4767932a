-- ===== src/Feedback/Evidence.antt =====
-- The checks on a release before it is used: `FeedbackService._package` and
-- `_validate_qualification_evidence` of scenara/platform/feedback.py. What the service asks of others
-- is a record: the policy provider, the packages that the catalogue lists, the object store as
-- `validate_object_key` and `get` that give no document where they raise, SHA-256, the reading of a
-- document by `ModelQualificationEvidence.model_validate_json`, `rsplit("#sha256=", 1)`, the evidence
-- type of a package, the writing and the reading of a UTC text, and `model_dump` of an event.
use scenara.Prelude.{
  String, Bool, not, ◌&&◌, Option, none, some, List, [], ◌∷◌, filter, find, ◌==◌, contains,
  string_eq, if◌then◌else◌,
}
use Prim.Native.String.{◌++◌}
use text.Mathlib.Text.{starts_with}
use scenara.Prelude.Sort.{sort, str_ltb}
use scenara.Models.{Timestamp, JsonObject}
use scenara.Policy.{PrincipalContext, PolicyProvider}
use scenara.Feedback.Answers.{and_then}
use scenara.Feedback.Models.{
  ModelRelease, ModelPackageManifest, ModelQualificationEvidence, ModelDeploymentEvent, Answer,
  answered, refused,
}

pub record Environment (D : Type 0) : Type 0 where
  pub provider : PolicyProvider
  pub packages : List ModelPackageManifest
  pub read : String → Option D
  pub sha : D → String
  pub parse : D → Option ModelQualificationEvidence
  pub split_reference : String → String × String
  pub evaluation_type : ModelPackageManifest → Option String
  pub rfc3339 : Timestamp → String
  pub epoch : String → Timestamp
  pub dump : ModelDeploymentEvent → JsonObject

abbrev pub is_package : String → String → String → ModelPackageManifest → Bool
is_package model_id version sha256 p =
    (p.model_id == model_id) && ((p.version == version) && (p.sha256 == sha256))

-- `_package`
unfoldable pub find_package :
    List ModelPackageManifest → String → String → String → Answer ModelPackageManifest
find_package packages model_id version sha256 =
    elim (find (is_package model_id version sha256) packages) [
      | none ↦ refused "model package is not registered or its checksum does not match"
      | some manifest ↦ answered manifest
    ]

abbrev pub is_legacy : ModelPackageManifest → Bool
is_legacy p = starts_with p.runtime_model_id "legacy/"

-- `", ".join(texts)`
abbrev pub join : List String → String
join [] = ""
join (t ∷ []) = t
join (t ∷ u ∷ ts) = t ++ (", " ++ join (u ∷ ts))

-- The set of the types that are required.
abbrev pub required_types : String → List String
required_types evaluation =
    if contains evaluation ("model_rights" ∷ "regression" ∷ [])
    then "model_rights" ∷ "regression" ∷ []
    else evaluation ∷ "model_rights" ∷ "regression" ∷ []

module _ {D : Type 0} (env : Environment D) (context : PrincipalContext)
    (release : ModelRelease) where
  abbrev pub evidence_prefix : String
  evidence_prefix =
      "tenants/"
      ++ (context.tenant_id ++ ("/projects/" ++ (context.project_id ++ "/model-evidence/")))

  abbrev pub is_about : ModelQualificationEvidence → Bool
  is_about e =
      (e.model_id == release.model_id)
      && ((e.model_version == release.version) && (e.package_sha256 == release.package_sha256))

  -- One turn of the loop over the references: the evidence that a reference gives.
  unfoldable pub read_evidence : String → Answer ModelQualificationEvidence
  read_evidence reference =
      let (object_key, expected_sha256) = env.split_reference reference in
      if not (starts_with object_key evidence_prefix)
      then refused "model qualification evidence is outside the current tenant and project"
      else elim (env.read object_key) [
        | none ↦ refused "model qualification evidence cannot be read"
        | some document ↦
            if not (env.sha document == expected_sha256)
            then refused "model qualification evidence checksum does not match"
            else elim (env.parse document) [
              | none ↦ refused "model qualification evidence is invalid"
              | some evidence ↦
                  if is_about evidence
                  then answered evidence
                  else refused "model qualification evidence does not match the release"
            ]
      ]

  -- The loop, from the types that were seen.
  unfoldable pub evidence_types : List String → List String → Answer (List String)
  evidence_types seen [] = answered seen
  evidence_types seen (reference ∷ references) = and_then (read_evidence reference) (λ evidence.
      let rest = evidence_types (evidence.evidence_type ∷ seen) references in
      if contains evidence.evidence_type seen
      then refused "model qualification evidence types must be unique"
      else rest)

  -- The required types that are missing, in order.
  abbrev pub missing_types : String → List String → List String
  missing_types evaluation types =
      sort str_ltb (filter (λ t. not (contains t types)) (required_types evaluation))

  unfoldable pub validate_qualification_evidence : ModelPackageManifest → Answer (Unit {0})
  validate_qualification_evidence manifest = elim release.evidence_refs [
    | [] ↦ refused "model release qualification requires evidence references"
    | reference ∷ references ↦ and_then (evidence_types [] release.evidence_refs) (λ types.
        elim (env.evaluation_type manifest) [
          | none ↦ refused "model capability has no qualification evidence policy"
          | some evaluation ↦ elim (missing_types evaluation types) [
            | [] ↦ answered tt
            | t ∷ ts ↦ refused ("model qualification evidence is incomplete: " ++ join (t ∷ ts))
          ]
        ])
  ]
