-- ===== src/Feedback/Qualified.antt =====
-- `FeedbackService._validate_qualification_evidence` of scenara/platform/feedback.py: what it has seen
-- where it raises nothing.
use scenara.Prelude.{
  String, Bool, true, false, not, some, List, [], ◌∷◌, All, filter, count, length, length-filter,
  ◌==◌, ==-iff, contains, string_eq, Bool-cases, Option-cases, List-cases, ◌≡◌, refl, sym, ap,
  subst, ◌∙◌, ◌⊎◌, inl, inr, arith,
}
use text.Mathlib.Text.{starts_with}
use scenara.Prelude.Sort.{str_ltb, length-sort}
use scenara.Policy.{PrincipalContext}
use scenara.Feedback.Models.{
  ModelRelease, ModelPackageManifest, ModelQualificationEvidence, answered,
}
use scenara.Feedback.Answers.{and_then-answered}
use scenara.Feedback.Evidence.{
  Environment, required_types, evidence_prefix, is_about, read_evidence, evidence_types,
  missing_types, validate_qualification_evidence,
}

count-none {ℓ} :
    {A : Type ℓ} (p : A → Bool) (xs : List A) → count p xs ≡ 0 → All (λ x. p x ≡ false) xs
count-none p [] h = tt
count-none p (x ∷ xs) h = (ground (arith, h), count-none p xs (ground (arith, h)))

All-map {ℓ κ ι} :
    {A : Type ℓ} (P : A → Type κ) (Q : A → Type ι) (xs : List A)
    → ((x : A) → P x → Q x)
    → All P xs
    → All Q xs
All-map P Q [] f h = tt
All-map P Q (x ∷ xs) f h = (f x h.0, All-map P Q xs f h.1)

module _ {D : Type 0} (env : Environment D) (context : PrincipalContext)
    (release : ModelRelease) where
  -- The store has a document of the project under one of the release's references, with the digest
  -- that the reference gives, and the document is evidence of the type about the release.
  abbrev pub IsShown : String → Type 0
  IsShown t =
      (reference : String) × (document : D) × (e : ModelQualificationEvidence) × (contains reference
          release.evidence_refs
        ≡ true)
      × (starts_with (env.split_reference reference).0 (evidence_prefix env context release) ≡ true)
      × (env.read (env.split_reference reference).0 ≡ some document)
      × (env.sha document ≡ (env.split_reference reference).1)
      × (env.parse document ≡ some e)
      × (is_about env context release e ≡ true)
      × (e.evidence_type ≡ t)

  read_evidence-IsShown :
      (reference : String) (e : ModelQualificationEvidence)
      → contains reference release.evidence_refs ≡ true
      → read_evidence env context release reference ≡ answered e
      → IsShown e.evidence_type
  unfolding read_evidence
  read_evidence-IsShown reference e within h =
      let object_key = (env.split_reference reference).0 in
      elim (Bool-cases (starts_with object_key (evidence_prefix env context release))) [
        | inr outside ↦ absurd (ground (arith, rw (outside, read_evidence) at h))
        | inl inside ↦
            let h1 = rw (inside, read_evidence) at h in
            elim (Option-cases (env.read object_key)) [
              | inl missing ↦ absurd (ground (arith, rw missing at h1))
              | inr (document, found) ↦
                  let h2 = rw found at h1 in
                  elim (Bool-cases (env.sha document == (env.split_reference reference).1)) [
                    | inr differs ↦ absurd (ground (arith, rw differs at h2))
                    | inl same ↦
                        let h3 = rw same at h2 in
                        elim (Option-cases (env.parse document)) [
                          | inl invalid ↦ absurd (ground (arith, rw invalid at h3))
                          | inr (read, parsed) ↦
                              let h4 = rw parsed at h3 in
                              elim (Bool-cases (is_about env context release read)) [
                                | inr other ↦ absurd (ground (arith, rw other at h4))
                                | inl about ↦
                                    let is_read : read ≡ e = cc (rw about at h4) in
                                    (
                                      reference,
                                      document,
                                      e,
                                      within,
                                      inside,
                                      found,
                                      (==-iff (env.sha document)
                                            (env.split_reference reference).1).0
                                          same,
                                      parsed ∙ ap some is_read,
                                      ap (λ q. is_about env context release q) (sym is_read)
                                          ∙ about,
                                      refl,
                                    )
                              ]
                        ]
                  ]
            ]
      ]

  evidence_types-IsShown :
      (seen references types : List String) (t : String)
      → ((r : String) → contains r references ≡ true → contains r release.evidence_refs ≡ true)
      → evidence_types env context release seen references ≡ answered types
      → contains t types ≡ true
      → (contains t seen ≡ true) ⊎ IsShown t
  unfolding evidence_types
  evidence_types-IsShown seen [] types t within h has = inl (ground (arith, h, has))
  evidence_types-IsShown seen (reference ∷ references) types t within h has =
      let (e, read, later) =
        and_then-answered (read_evidence env context release reference) _ types h in
      elim (Bool-cases (contains e.evidence_type seen)) [
        | inl twice ↦ absurd (ground (arith, rw twice at later))
        | inr new ↦
            elim (evidence_types-IsShown (e.evidence_type ∷ seen) references types t
              (λ r there. within r (ground (arith, there))) (rw new at later) has) [
                | inr shown ↦ inr shown
                | inl listed ↦ elim (Bool-cases (t == e.evidence_type)) [
                  | inr other ↦ inl (rw other at listed)
                  | inl same ↦ inr (
                      subst IsShown (sym ((==-iff t e.evidence_type).0 same)) (
                        read_evidence-IsShown reference e
                          (within reference (ground (arith, ==-iff reference reference))) read))
                ]
              ]
      ]

  missing_types-nil :
      (evaluation : String) (types : List String)
      → missing_types env context release evaluation types ≡ []
      → All (λ t. contains t types ≡ true) (required_types evaluation)
  missing_types-nil evaluation types h =
      let p : String → Bool = λ t. not (contains t types) in
      let required = required_types evaluation in
      All-map (λ t. p t ≡ false) (λ t. contains t types ≡ true) required
        (λ t seen. ground (arith, seen))
        (count-none p required (
          sym (length-filter p required)
          ∙ (sym (length-sort str_ltb (filter p required)) ∙ ap (λ ts. length ts) h)))

  -- Where the check of a release's evidence raises nothing, each required type of evidence is
  -- shown: a document of the project is stored under one of the release's references, has the
  -- digest that the reference gives, and is evidence of that type about the model, the version and
  -- the package of the release.
  pub validate_qualification_evidence-IsShown :
      (manifest : ModelPackageManifest)
      → validate_qualification_evidence env context release manifest ≡ answered tt
      → (evaluation : String) × (env.evaluation_type manifest ≡ some evaluation)
        × All IsShown (required_types evaluation)
  unfolding validate_qualification_evidence
  validate_qualification_evidence-IsShown manifest h = elim (List-cases release.evidence_refs) [
    | inl no_references ↦
        absurd (ground (arith, rw (no_references, validate_qualification_evidence) at h))
    | inr (reference, references, some_references) ↦
        let (types, seen, later) =
          and_then-answered (evidence_types env context release [] release.evidence_refs) _ tt
            (rw (some_references, validate_qualification_evidence) at h) in
        elim (Option-cases (env.evaluation_type manifest)) [
          | inl no_policy ↦ absurd (ground (arith, rw no_policy at later))
          | inr (evaluation, policy) ↦
              elim (List-cases (missing_types env context release evaluation types)) [
                | inr (t, ts, missing) ↦ absurd (ground (arith, rw missing at (rw policy at later)))
                | inl complete ↦ (
                  evaluation,
                  policy,
                  All-map (λ t. contains t types ≡ true) IsShown (required_types evaluation)
                      (λ t has.
                        elim (evidence_types-IsShown [] release.evidence_refs types t
                          (λ r there. there) seen has) [
                            | inl never ↦ absurd (ground (arith, never))
                            | inr shown ↦ shown
                          ])
                      (missing_types-nil evaluation types complete),
                )
              ]
        ]
  ]
