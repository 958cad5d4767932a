-- ===== src/Feedback/Review.antt =====
-- `FeedbackService.review` of scenara/platform/feedback.py. `lower` is Python's `str.lower`.
use scenara.Prelude.{
  String, Bool, true, false, not, ◌&&◌, none, some, [], ◌∷◌, ◌==◌, string_eq, key_eq, if◌then◌else◌,
  Bool-cases, Option-cases, ◌≡◌, inl, inr, arith,
}
use scenara.Prelude.Dict.{lookup, has_key, AllEntries, AllEntries-insert}
use scenara.Models.{Json}
use scenara.Policy.{
  PrincipalContext, PolicyProvider, granted, denied, Verdict-cases, require_allowed,
}
use scenara.Feedback.Models.{
  FeedbackRecord, FeedbackStatus, feedback_eq, feedback_eqb_iff, ReviewFeedbackRequest, Answer,
  answered, not_found, refused, forbidden,
}
use scenara.Feedback.Repository.{
  MemoryFeedbackRepository, feedback_key, create_feedback, get_feedback, save_feedback,
}
use scenara.Feedback.Correction.{contains_sensitive_correction}
use scenara.Feedback.Answers.{Answer-cases}
use scenara.Feedback.Service.{World, Fresh, record_audit}

abbrev pub feedback_value : FeedbackStatus → String
feedback_value FeedbackStatus.pending = "pending"
feedback_value FeedbackStatus.approved = "approved"
feedback_value FeedbackStatus.rejected = "rejected"

abbrev pub is_approval : ReviewFeedbackRequest → Bool
is_approval body = body.status == FeedbackStatus.approved

module _ (lower : String → String) (provider : PolicyProvider) where
  -- The guards of a review; they read only.
  unfoldable pub check_review :
      PrincipalContext
      → String
      → ReviewFeedbackRequest
      → MemoryFeedbackRepository
      → Answer FeedbackRecord
  check_review context feedback_id body s =
      elim (require_allowed provider context "feedback.review" "feedback" none) [
        | denied m ↦ forbidden m
        | granted decision ↦
            elim (get_feedback context.tenant_id context.project_id feedback_id s) [
              | none ↦ not_found "feedback not found"
              | some r ↦
                  if not (r.status == FeedbackStatus.pending)
                  then refused "feedback has already been reviewed"
                  else if is_approval body && not (r.authorized_for_training && r.deidentified)
                  then refused "approved training feedback must be authorized and deidentified"
                  else if is_approval body && contains_sensitive_correction lower r.correction
                  then refused
                      "approved training feedback cannot contain raw media or biometric payloads"
                  else answered r
            ]
      ]

  unfoldable pub review :
      PrincipalContext
      → Fresh
      → String
      → ReviewFeedbackRequest
      → World
      → World × Answer FeedbackRecord
  review context fresh feedback_id body w =
      elim (check_review context feedback_id body w.repository) [
        | answered r ↦
            let updated : FeedbackRecord = record r {
              status = body.status;
              reviewed_by = some context.principal_id;
              review_notes = body.notes;
              updated_at = fresh.now;
            } in
            let audited =
              record_audit context fresh "feedback.review" "feedback" feedback_id
                (("status", Json.text (feedback_value body.status)) ∷ []) w.state in
            let (repository, answer) = save_feedback updated FeedbackStatus.pending w.repository in
            (record { repository = repository; state = audited }, answer)
        | not_found m ↦ (w, not_found m)
        | refused m ↦ (w, refused m)
        | forbidden m ↦ (w, forbidden m)
      ]

module _ (lower : String → String) where
  -- Approved feedback may be trained on, and its correction has no sensitive key.
  abbrev pub IsFit : FeedbackRecord → Type 0
  IsFit r =
      r.status ≡ FeedbackStatus.approved
      → (r.authorized_for_training ≡ true)
        × (r.deidentified ≡ true)
        × (contains_sensitive_correction lower r.correction ≡ false)

  abbrev pub AllFit : MemoryFeedbackRepository → Type 0
  AllFit s = AllEntries (λ k r. IsFit r) s.feedback

  pub create_feedback-AllFit :
      (r : FeedbackRecord) (s : MemoryFeedbackRepository)
      → r.status ≡ FeedbackStatus.pending
      → AllFit s
      → AllFit (create_feedback r s).0
  unfolding create_feedback
  create_feedback-AllFit r s pending h = elim (Bool-cases (has_key (feedback_key r) s.feedback)) [
    | inl taken ↦ rw taken h
    | inr new ↦ rw new (
        AllEntries-insert (λ k r. IsFit r) (feedback_key r) r s.feedback h
          (λ approved. absurd (ground arith)))
  ]

  save_feedback-AllFit :
      (r : FeedbackRecord) (expected : FeedbackStatus) (s : MemoryFeedbackRepository)
      → IsFit r
      → AllFit s
      → AllFit (save_feedback r expected s).0
  unfolding save_feedback
  save_feedback-AllFit r expected s fit h =
      elim (Option-cases (lookup (feedback_key r) s.feedback)) [
        | inl missing ↦ rw (missing, save_feedback) h
        | inr (current, found) ↦ elim (Bool-cases (current.status == expected)) [
          | inl same ↦
              rw (found, save_feedback)
                (rw same (AllEntries-insert (λ k r. IsFit r) (feedback_key r) r s.feedback h fit))
          | inr changed ↦ rw (found, save_feedback) (rw changed h)
        ]
      ]

module _ (lower : String → String) (provider : PolicyProvider) (context : PrincipalContext)
    (feedback_id : String) (body : ReviewFeedbackRequest) where
  -- What the guards have seen of the record that a review approves.
  check_review-approved :
      (s : MemoryFeedbackRepository) (r : FeedbackRecord)
      → check_review lower provider context feedback_id body s ≡ answered r
      → body.status ≡ FeedbackStatus.approved
      → (r.authorized_for_training ≡ true)
        × (r.deidentified ≡ true)
        × (contains_sensitive_correction lower r.correction ≡ false)
  unfolding check_review
  check_review-approved s r passed approved =
      let is_approved : is_approval body ≡ true =
        ground (arith, feedback_eqb_iff body.status FeedbackStatus.approved) in
      elim (Verdict-cases (require_allowed provider context "feedback.review" "feedback" none)) [
        | inr (m, deny) ↦ absurd (ground (arith, rw (deny, check_review) at passed))
        | inl (d, may) ↦
            elim (Option-cases (get_feedback context.tenant_id context.project_id feedback_id s)) [
              | inl missing ↦
                  absurd (ground (arith, rw (missing) at (rw (may, check_review) at passed)))
              | inr (q, found) ↦
                  let guarded = rw (found) at (rw (may, check_review) at passed) in
                  ground (arith, guarded, is_approved)
            ]
      ]

  -- A review keeps all approved feedback fit for training: authorized, deidentified, and with a
  -- correction that has no sensitive key.
  pub review-AllFit :
      (fresh : Fresh) (w : World)
      → AllFit lower w.repository
      → AllFit lower (review lower provider context fresh feedback_id body w).0.repository
  unfolding review
  review-AllFit fresh w h =
      elim (Answer-cases (check_review lower provider context feedback_id body w.repository)) [
        | inl (r, passed) ↦
            rw (passed, review)
              (save_feedback-AllFit lower
                (record r {
                  status = body.status;
                  reviewed_by = some context.principal_id;
                  review_notes = body.notes;
                  updated_at = fresh.now;
                })
                FeedbackStatus.pending w.repository
                (λ approved. check_review-approved w.repository r passed approved) h)
        | inr (inl (m, missing)) ↦ rw (missing, review) h
        | inr (inr (inl (m, not_allowed))) ↦ rw (not_allowed, review) h
        | inr (inr (inr (m, without))) ↦ rw (without, review) h
      ]
