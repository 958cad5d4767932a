-- ===== src/Feedback/Manifest.antt =====
-- `FeedbackService.create_manifest` of scenara/platform/feedback.py. `digest` is the SHA-256 of the
-- JSON text of the request and its items, and `rfc3339` writes a UTC text.
use scenara.Prelude.{
  String, Bool, true, false, not, ◌&&◌, ◌||◌, none, some, List, [], ◌∷◌, All, length, ltb, ◌==◌,
  contains, string_eq, key_eq, if◌then◌else◌, Bool-cases, Option-cases, ◌≡◌, refl, subst, ◌∙◌, inl,
  inr, arith,
}
use Prim.Native.String.{◌++◌}
use scenara.Prelude.Decimal.{decimal}
use scenara.Prelude.Dict.{lookup, AllEntries-lookup}
use scenara.Models.{Timestamp, Json}
use scenara.Policy.{
  PrincipalContext, PolicyProvider, granted, denied, Verdict-cases, require_allowed,
}
use scenara.Feedback.Models.{
  FeedbackRecord, FeedbackStatus, feedback_eq, feedback_eqb_iff, CreateHardSampleManifestRequest,
  HardSampleItem, HardSampleManifest, Answer, answered, not_found, refused, forbidden,
}
use scenara.Feedback.Repository.{MemoryFeedbackRepository, get_feedback, create_manifest}
use scenara.Feedback.Correction.{contains_sensitive_correction}
use scenara.Feedback.Service.{World, Fresh, record_audit}
use scenara.Feedback.Review.{IsFit, AllFit}
use scenara.Feedback.Answers.{Answer-cases}

-- `len(set(xs)) == len(xs)`
abbrev pub is_distinct : List String → Bool
is_distinct [] = true
is_distinct (x ∷ xs) = not (contains x xs) && is_distinct xs

abbrev pub item_of : FeedbackRecord → HardSampleItem
item_of r = record {
  feedback_id = r.feedback_id;
  kind = r.kind;
  media_ref = r.media_ref;
  result_ref = r.result_ref;
  model_id = r.model_id;
  model_version = r.model_version;
  pipeline_id = r.pipeline_id;
  pipeline_version = r.pipeline_version;
  correction = r.correction;
  authorized_for_training = true;
  deidentified = true;
  domain = r.domain;
  annotation_schema_id = r.annotation_schema_id;
}

-- The set of the domains of the items, without `None`.
abbrev pub domains_of : List HardSampleItem → List String
domains_of [] = []
domains_of (item ∷ items) =
    let rest = domains_of items in
    elim item.domain [ none ↦ rest | some d ↦ if contains d rest then rest else d ∷ rest ]

-- The loop over the identifiers.
unfoldable pub collect :
    String → String → List String → MemoryFeedbackRepository → Answer (List HardSampleItem)
collect tenant_id project_id [] s = answered []
collect tenant_id project_id (feedback_id ∷ ids) s =
    let later = collect tenant_id project_id ids s in
    elim (get_feedback tenant_id project_id feedback_id s) [
      | none ↦ not_found ("feedback not found: " ++ feedback_id)
      | some r ↦
          if not (r.status == FeedbackStatus.approved)
            || not (r.authorized_for_training && r.deidentified)
          then refused
              "hard-sample manifest accepts only approved, authorized, deidentified feedback"
          else elim later [
            | answered items ↦ answered (item_of r ∷ items)
            | not_found m ↦ not_found m
            | refused m ↦ refused m
            | forbidden m ↦ forbidden m
          ]
    ]

module _ (provider : PolicyProvider)
    (digest : CreateHardSampleManifestRequest → List HardSampleItem → String)
    (rfc3339 : Timestamp → String) where
  -- The guards and the items.
  unfoldable pub check_manifest :
      PrincipalContext
      → CreateHardSampleManifestRequest
      → MemoryFeedbackRepository
      → Answer (List HardSampleItem)
  check_manifest context body s =
      let collected = collect context.tenant_id context.project_id body.feedback_ids s in
      elim (require_allowed provider context "hard-sample.export" "hard-sample-manifest" none) [
        | denied m ↦ forbidden m
        | granted decision ↦
            if not (is_distinct body.feedback_ids)
            then refused "feedback_ids must be unique"
            else elim collected [
              | answered items ↦
                  if ltb 1 (length (domains_of items))
                  then refused "a hard-sample manifest cannot mix multiple domains"
                  else answered items
              | not_found m ↦ not_found m
              | refused m ↦ refused m
              | forbidden m ↦ forbidden m
            ]
      ]

  abbrev pub manifest_of :
      PrincipalContext
      → Fresh
      → CreateHardSampleManifestRequest
      → List HardSampleItem
      → HardSampleManifest
  manifest_of context fresh body items = record {
    manifest_id = "hsm_" ++ fresh.event_id;
    tenant_id = context.tenant_id;
    project_id = context.project_id;
    dataset_id = body.dataset_id;
    version = body.version;
    label_schema = body.label_schema;
    split = body.split;
    items = items;
    sha256 = digest body items;
    created_by = context.principal_id;
    created_at = rfc3339 fresh.now;
  }

  unfoldable pub export_manifest :
      PrincipalContext
      → Fresh
      → CreateHardSampleManifestRequest
      → World
      → World × Answer HardSampleManifest
  export_manifest context fresh body w = elim (check_manifest context body w.repository) [
    | answered items ↦
        let m = manifest_of context fresh body items in
        let audited =
          record_audit context fresh "hard-sample.export" "hard-sample-manifest" m.manifest_id
            (("sha256", Json.text m.sha256)
              ∷ ("item_count", Json.number (decimal (length items)))
              ∷ [])
            w.state in
        let (repository, answer) = create_manifest m w.repository in
        (record { repository = repository; state = audited }, answer)
    | not_found m ↦ (w, not_found m)
    | refused m ↦ (w, refused m)
    | forbidden m ↦ (w, forbidden m)
  ]

module _ (lower : String → String) (tenant_id project_id : String)
    (s : MemoryFeedbackRepository) where
  -- The item is of an approved record that may be trained on, and has no sensitive key.
  abbrev pub IsClean : HardSampleItem → Type 0
  IsClean item =
      (r : FeedbackRecord) × (i : String) × (lookup (tenant_id, project_id, i) s.feedback ≡ some r)
      × (r.status ≡ FeedbackStatus.approved)
      × (r.authorized_for_training ≡ true)
      × (r.deidentified ≡ true)
      × (item ≡ item_of r)
      × (contains_sensitive_correction lower item.correction ≡ false)

  collect-IsClean :
      (ids : List String) (items : List HardSampleItem)
      → AllFit lower s
      → collect tenant_id project_id ids s ≡ answered items
      → All IsClean items
  unfolding collect
  collect-IsClean [] items fit h =
      let none_left : [] ≡ items = cc h in subst (All IsClean) none_left tt
  collect-IsClean (i ∷ ids) items fit h =
      elim (Option-cases (get_feedback tenant_id project_id i s)) [
        | inl missing ↦ absurd (ground (arith, rw (missing, collect) at h))
        | inr (r, found) ↦
            let taken = rw (found, collect) at h in
            elim (Bool-cases (
              not (r.status == FeedbackStatus.approved)
              || not (r.authorized_for_training && r.deidentified))) [
                | inl unfit ↦ absurd (ground (arith, rw unfit at taken))
                | inr trainable ↦ elim (Answer-cases (collect tenant_id project_id ids s)) [
                  | inl (rest, collected) ↦
                      let same : item_of r ∷ rest ≡ items =
                        cc (rw (trainable, collected) at taken) in
                      let approved : r.status ≡ FeedbackStatus.approved =
                        ground (arith, feedback_eqb_iff r.status FeedbackStatus.approved) in
                      let there : lookup (tenant_id, project_id, i) s.feedback ≡ some r =
                        unfold get_feedback in found in
                      let fits =
                        AllEntries-lookup (λ k r. IsFit lower r) (tenant_id, project_id, i) r
                          s.feedback fit there approved in
                      subst (All IsClean) same (
                        (r, i, there, approved, fits.0, fits.1, refl, fits.2),
                        collect-IsClean ids rest fit collected,
                      )
                  | inr (inl (m, bad)) ↦ absurd (ground (arith, rw (trainable, bad) at taken))
                  | inr (inr (inl (m, bad))) ↦ absurd (ground (arith, rw (trainable, bad) at taken))
                  | inr (inr (inr (m, bad))) ↦ absurd (ground (arith, rw (trainable, bad) at taken))
                ]
              ]
      ]

module _ (provider : PolicyProvider)
    (digest : CreateHardSampleManifestRequest → List HardSampleItem → String)
    (rfc3339 : Timestamp → String) (context : PrincipalContext)
    (body : CreateHardSampleManifestRequest) where
  check_manifest-collect :
      (s : MemoryFeedbackRepository) (items : List HardSampleItem)
      → check_manifest provider digest rfc3339 context body s ≡ answered items
      → collect context.tenant_id context.project_id body.feedback_ids s ≡ answered items
  unfolding check_manifest
  check_manifest-collect s items h =
      elim (Verdict-cases
        (require_allowed provider context "hard-sample.export" "hard-sample-manifest" none)) [
          | inr (m, deny) ↦ absurd (ground (arith, rw (deny, check_manifest) at h))
          | inl (d, may) ↦
              let allowed = rw (may, check_manifest) at h in
              elim (Answer-cases
                (collect context.tenant_id context.project_id body.feedback_ids s)) [
                  | inl (rest, collected) ↦ collected ∙ ground (arith, rw collected at allowed)
                  | inr (inl (m, bad)) ↦ absurd (ground (arith, rw bad at allowed))
                  | inr (inr (inl (m, bad))) ↦ absurd (ground (arith, rw bad at allowed))
                  | inr (inr (inr (m, bad))) ↦ absurd (ground (arith, rw bad at allowed))
                ]
        ]

  create_manifest-answered :
      (m n : HardSampleManifest) (s : MemoryFeedbackRepository)
      → (create_manifest m s).1 ≡ answered n
      → m ≡ n
  unfolding create_manifest
  create_manifest-answered m n s h = ground (arith, h)

  -- Where all approved feedback is fit for training, every item of a hard-sample manifest that is
  -- exported is of an approved record of the project that may be trained on, and its correction
  -- has no sensitive key.
  pub export_manifest-IsClean :
      (lower : String → String) (fresh : Fresh) (w : World) (m : HardSampleManifest)
      → AllFit lower w.repository
      → (export_manifest provider digest rfc3339 context fresh body w).1 ≡ answered m
      → All (IsClean lower context.tenant_id context.project_id w.repository) m.items
  unfolding export_manifest
  export_manifest-IsClean lower fresh w m fit h =
      elim (Answer-cases (check_manifest provider digest rfc3339 context body w.repository)) [
        | inl (items, passed) ↦
            let made =
              create_manifest-answered
                (manifest_of provider digest rfc3339 context fresh body items) m w.repository
                (rw (passed, export_manifest) at h) in
            subst
              (λ (m : HardSampleManifest).
                All (IsClean lower context.tenant_id context.project_id w.repository) m.items)
              made
              (collect-IsClean lower context.tenant_id context.project_id w.repository
                body.feedback_ids items fit (check_manifest-collect w.repository items passed))
        | inr (inl (e, bad)) ↦ absurd (ground (arith, rw (bad, export_manifest) at h))
        | inr (inr (inl (e, bad))) ↦ absurd (ground (arith, rw (bad, export_manifest) at h))
        | inr (inr (inr (e, bad))) ↦ absurd (ground (arith, rw (bad, export_manifest) at h))
      ]
