-- ===== src/Feedback/Active.antt =====
-- The active releases of a capability: `create_release` and `transition_release` of
-- `MemoryFeedbackRepository`.
use scenara.Prelude.{
  String, ℕ, ◌+◌, ◌-◌, ◌≤◌, ◌≡◌, refl, sym, ap, ◌∙◌, ◌⊎◌, inl, inr, Bool, true, false, ◌&&◌, some,
  [], ◌∷◌, ◌==◌, ==-iff, string_eq, pair_eq, Bool-cases, Option-cases, arith,
}
use scenara.Prelude.Dict.{Dict, lookup, has_key, insert, count_entries, IsUnique, insert-IsUnique}
use scenara.Models.{Timestamp}
use scenara.Feedback.Models.{
  ModelRelease, ModelReleaseStatus, release_eq, release_eqb_iff, answered, refused,
}
use scenara.Feedback.Repository.{
  ReleaseKey, MemoryFeedbackRepository, release_key, allowed_transition,
  validate_release_transition, is_active_for, retire_first, moved, create_release,
  transition_release,
}

-- The release is active in the project, tenant and project, and for the capability.
abbrev pub is_active_in : String × String → String → ReleaseKey → ModelRelease → Bool
is_active_in project capability k r =
    (k.0 == project) && ((r.capability == capability) && (r.status == ModelReleaseStatus.active))

-- The keys of the releases differ, and a project has at most one active release of a capability.
pub record IsSingle (d : Dict ReleaseKey ModelRelease) : Type 0 where
  pub unique : IsUnique d
  pub single :
      (project : String × String) (capability : String)
      → count_entries (is_active_in project capability) d ≤ 1

-- One where the test holds.
abbrev pub one_if : Bool → ℕ
one_if true = 1
one_if false = 0

module _ (P : ReleaseKey → ModelRelease → Bool) where
  count-insert_new :
      (k : ReleaseKey) (r : ModelRelease) (d : Dict ReleaseKey ModelRelease)
      → has_key k d ≡ false
      → count_entries P (insert k r d) ≡ count_entries P d + one_if (P k r)
  unfolding insert has_key count_entries
  count-insert_new k r [] new = ground arith
  count-insert_new k r ((j, q) ∷ d) new = ground (arith, count-insert_new k r d)

  count-insert :
      (k : ReleaseKey) (r old : ModelRelease) (d : Dict ReleaseKey ModelRelease)
      → lookup k d ≡ some old
      → count_entries P (insert k r d) + one_if (P k old) ≡ count_entries P d + one_if (P k r)
  unfolding insert lookup count_entries
  count-insert k r old [] found = absurd (ground arith)
  count-insert k r old ((j, q) ∷ d) found = elim (Bool-cases (j == k)) [
    | inl same ↦ let at : j ≡ k = (==-iff j k).0 same in rw same (rw at (ground arith))
    | inr other ↦ rw other (ground (arith, count-insert k r old d (rw other at found)))
  ]

module _ (key : ReleaseKey) (capability : String) (now : Timestamp) where
  retire_first-has_key :
      (j : ReleaseKey) (d : Dict ReleaseKey ModelRelease)
      → has_key j (retire_first key capability now d).0 ≡ has_key j d
  unfolding retire_first has_key
  retire_first-has_key j [] = refl
  retire_first-has_key j ((k, r) ∷ d) = ground (arith, retire_first-has_key j d)

  retire_first-IsUnique :
      (d : Dict ReleaseKey ModelRelease)
      → IsUnique d
      → IsUnique (retire_first key capability now d).0
  unfolding retire_first
  retire_first-IsUnique [] h = tt
  retire_first-IsUnique ((k, r) ∷ d) h = elim (Bool-cases (is_active_for key capability k r)) [
    | inl hit ↦ rw hit h
    | inr miss ↦ rw miss (retire_first-has_key k d ∙ h.0, retire_first-IsUnique d h.1)
  ]

  retire_first-lookup :
      (d : Dict ReleaseKey ModelRelease)
      → lookup key (retire_first key capability now d).0 ≡ lookup key d
  unfolding retire_first lookup
  retire_first-lookup [] = refl
  retire_first-lookup ((k, r) ∷ d) = ground (arith, retire_first-lookup d)

  -- No project gets an active release.
  retire_first-le :
      (project : String × String) (c : String) (d : Dict ReleaseKey ModelRelease)
      → count_entries (is_active_in project c) (retire_first key capability now d).0
        ≤ count_entries (is_active_in project c) d
  unfolding retire_first count_entries
  retire_first-le project c [] = omega arith
  retire_first-le project c ((k, r) ∷ d) = ground (arith, retire_first-le project c d)

  -- One of the other active releases of the capability goes.
  retire_first-fewer :
      (d : Dict ReleaseKey ModelRelease)
      → count_entries (is_active_for key capability) (retire_first key capability now d).0
        ≡ count_entries (is_active_for key capability) d - 1
  unfolding retire_first count_entries
  retire_first-fewer [] = omega arith
  retire_first-fewer ((k, r) ∷ d) = ground (arith, retire_first-fewer d)

  others_absent :
      (d : Dict ReleaseKey ModelRelease)
      → has_key key d ≡ false
      → count_entries (is_active_in key.0 capability) d
        ≡ count_entries (is_active_for key capability) d
  unfolding has_key count_entries
  others_absent [] absent = refl
  others_absent ((k, r) ∷ d) absent = ground (arith, others_absent d)

  -- Where the release itself is not active, the active ones are others.
  others :
      (d : Dict ReleaseKey ModelRelease) (r : ModelRelease)
      → IsUnique d
      → lookup key d ≡ some r
      → (r.status == ModelReleaseStatus.active) ≡ false
      → count_entries (is_active_in key.0 capability) d
        ≡ count_entries (is_active_for key capability) d
  unfolding lookup count_entries
  others [] r h found idle = absurd (ground arith)
  others ((k, q) ∷ d) r h found idle = elim (Bool-cases (k == key)) [
    | inl same ↦
        let at : k ≡ key = (==-iff k key).0 same in
        let absent : has_key key d ≡ false = ap (λ j. has_key j d) (sym at) ∙ h.0 in
        ground (arith, others_absent d absent)
    | inr other ↦ ground (arith, others d r h.1 (rw other at found) idle)
  ]

-- A transition that is answered.
validate_release_transition-cases :
    (current target : ModelReleaseStatus) (rollback : Bool)
    → (validate_release_transition current target rollback ≡ answered tt)
      ⊎ ((m : String) × (validate_release_transition current target rollback ≡ refused m))
unfolding validate_release_transition
validate_release_transition-cases current target true =
    elim (Bool-cases
      ((current == ModelReleaseStatus.retired) && (target == ModelReleaseStatus.active))) [
        | inl fits ↦ inl (rw fits)
        | inr not_fit ↦ inr ("rollback target must be a retired model release", rw not_fit)
      ]
validate_release_transition-cases current target false =
    elim (Bool-cases (allowed_transition current target)) [
      | inl fits ↦ inl (rw fits)
      | inr not_fit ↦ inr ("invalid model release transition", rw not_fit)
    ]

-- Only a release that is not active is activated.
activated-idle :
    (current target : ModelReleaseStatus) (rollback : Bool)
    → validate_release_transition current target rollback ≡ answered tt
    → (target == ModelReleaseStatus.active) ≡ true
    → (current == ModelReleaseStatus.active) ≡ false
unfolding validate_release_transition
activated-idle current target rollback fits up = ground arith

module _ (key : ReleaseKey) (r : ModelRelease) (now : Timestamp) (d : Dict ReleaseKey ModelRelease)
    (h : IsSingle d) (found : lookup key d ≡ some r) where
  activate-IsSingle :
      (r.status == ModelReleaseStatus.active) ≡ false
      → IsSingle (
          insert key
            (moved ModelReleaseStatus.active now r)
            (retire_first key r.capability now d).0)
  unfolding moved
  activate-IsSingle idle =
      let d' = (retire_first key r.capability now d).0 in
      let r' = moved ModelReleaseStatus.active now r in
      let found' : lookup key d' ≡ some r = retire_first-lookup key r.capability now d ∙ found in
      let unique' = retire_first-IsUnique key r.capability now d h.unique in
      record {
        unique = insert-IsUnique key r' d' unique';
        single = λ project c. elim (Bool-cases ((key.0 == project) && (r.capability == c))) [
          | inl same ↦ ground (
            arith,
            ==-iff key.0 project,
            ==-iff r.capability c,
            h.single key.0 r.capability,
            others key r.capability now d r h.unique found idle,
            others key r.capability now d' r unique' found' idle,
            retire_first-fewer key r.capability now d,
            count-insert (is_active_in project c) key r' r d' found',
          )
          | inr apart ↦ ground (
            arith,
            h.single project c,
            retire_first-le key r.capability now project c d,
            count-insert (is_active_in project c) key r' r d' found',
          )
        ];
      }

  idle-IsSingle :
      (target : ModelReleaseStatus)
      → (target == ModelReleaseStatus.active) ≡ false
      → IsSingle (insert key (moved target now r) d)
  unfolding moved
  idle-IsSingle target idle = record {
    unique = insert-IsUnique key (moved target now r) d h.unique;
    single = λ project c. ground (
      arith,
      h.single project c,
      count-insert (is_active_in project c) key (moved target now r) r d found,
    );
  }

-- A transition of a release in the repository, a rollback or not, keeps the keys of the releases
-- different and at most one active release of each capability in each project, whether it is
-- answered or refused.
pub transition_release-IsSingle :
    (key : ReleaseKey) (target : ModelReleaseStatus) (rollback : Bool) (now : Timestamp)
    (s : MemoryFeedbackRepository)
    → IsSingle s.releases
    → IsSingle (transition_release key target rollback now s).0.releases
unfolding transition_release
transition_release-IsSingle key target rollback now s h =
    elim (Option-cases (lookup key s.releases)) [
      | inl missing ↦ rw (missing, transition_release) h
      | inr (r, found) ↦ elim (validate_release_transition-cases r.status target rollback) [
        | inr (m, invalid) ↦ rw (found, transition_release) (rw invalid h)
        | inl fits ↦ elim (Bool-cases (target == ModelReleaseStatus.active)) [
          | inl up ↦
              let is_up : target ≡ ModelReleaseStatus.active =
                (release_eqb_iff target ModelReleaseStatus.active).0 up in
              rw (found, transition_release)
                (rw fits (
                  rw is_up (
                    activate-IsSingle key r now s.releases h found
                      (activated-idle r.status target rollback fits up))))
          | inr down ↦
              rw (found, transition_release)
                (rw fits (rw down (idle-IsSingle key r now s.releases h found target down)))
        ]
      ]
    ]

-- A release that is created as a candidate keeps the active releases single.
pub create_release-IsSingle :
    (r : ModelRelease) (s : MemoryFeedbackRepository)
    → r.status ≡ ModelReleaseStatus.candidate
    → IsSingle s.releases
    → IsSingle (create_release r s).0.releases
unfolding create_release
create_release-IsSingle r s fresh h = elim (Bool-cases (has_key (release_key r) s.releases)) [
  | inl taken ↦ rw taken h
  | inr new ↦ rw new (record {
    unique = insert-IsUnique (release_key r) r s.releases h.unique;
    single = λ project c. ground (
      arith,
      h.single project c,
      count-insert_new (is_active_in project c) (release_key r) r s.releases new,
    );
  })
]
