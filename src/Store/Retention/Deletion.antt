-- ===== src/Store/Retention/Deletion.antt =====
-- `expired_object_keys` and `mark_objects_deleted` of `MemoryStateStore`.
use scenara.Prelude.{
  String, ℕ, ◌≡◌, refl, sym, ◌∙◌, ap, ◌⊎◌, ◌↔◌, inl, inr, Bool, true, false, not, ◌&&◌, none, some,
  List, [], ◌∷◌, Key, ◌==◌, key_eq, key_eqb_iff, string_eq, contains, Bool-cases, arith,
  if◌then◌else◌, All, All-take,
}
use scenara.Prelude.Dict.{
  Dict, lookup, erase, update_all, any_entry, select, any_entry-SomeEntry, any_entry-AllEntries,
  AllEntries, SomeEntry, AllEntries-update_all, select-All_with, lookup-erase,
}
use scenara.Prelude.Sort.{str_ltb, All-sort}
use scenara.Models.{Timestamp}
use scenara.Models.Run.{ResultReference}
use scenara.Models.Retention.{OwnerType, ObjectRetentionRecord}
use scenara.Store.{MemoryStateStore}
use scenara.Store.Retention.{
  is_expired, is_none, object_keys_of, expired_object_keys, is_target, owner_eqb, owner_key,
  result_owners, remaining, drop_results, mark_objects_deleted,
}

-- A record of a target carries its time of deletion.
abbrev IsMarked : List String → Key → ObjectRetentionRecord → Type 0
IsMarked targets k r = is_target targets r ≡ true → is_none r.deleted_at ≡ false

all_entries {ℓ κ} : {K : Type ℓ} {V : Type κ} (d : Dict K V) → AllEntries (λ k v. Unit {0}) d
all_entries [] = tt
all_entries ((k, v) ∷ d) = (tt, all_entries d)

All-object_keys_of :
    (P : String → Type 0) (rs : List ObjectRetentionRecord)
    → All (λ (r : ObjectRetentionRecord). P r.object_key) rs
    → All P (object_keys_of rs)
All-object_keys_of P [] h = tt
All-object_keys_of P (r ∷ rs) h = (h.0, All-object_keys_of P rs h.1)

-- What happens to one record.
abbrev marking : List String → Timestamp → Key → ObjectRetentionRecord → ObjectRetentionRecord
marking targets deleted_at k r =
    if is_target targets r then record r { deleted_at = some deleted_at } else r

mark-IsMarked :
    (targets : List String) (deleted_at : Timestamp) (k : Key) (r : ObjectRetentionRecord)
    → IsMarked targets k (marking targets deleted_at k r)
mark-IsMarked targets deleted_at k r = elim (Bool-cases (is_target targets r)) [
  | inl hit ↦ rw hit (λ h. refl)
  | inr miss ↦ rw miss (λ h. absurd (ground arith))
]

-- An object that has been marked as deleted is not found expired again, at any time.
pub expired_object_keys-mark :
    (targets : List String) (deleted_at before : Timestamp) (limit : ℕ) (s : MemoryStateStore)
    → All
        (λ key. contains key targets ≡ false)
        (expired_object_keys before limit (mark_objects_deleted targets deleted_at s))
unfolding expired_object_keys mark_objects_deleted
expired_object_keys-mark targets deleted_at before limit s =
    All-take (λ key. contains key targets ≡ false) limit _
      (All-sort str_ltb (λ key. contains key targets ≡ false) _
        (All-object_keys_of (λ key. contains key targets ≡ false) _
          (select-All_with (λ (r : ObjectRetentionRecord). contains r.object_key targets ≡ false)
            (IsMarked targets) (λ k r. is_expired before r) _
            (λ k r expired marked. ground (arith, marked))
            (AllEntries-update_all (IsMarked targets) (λ k r. Unit {0}) (marking targets deleted_at)
              s.object_retention (λ k r u. mark-IsMarked targets deleted_at k r)
              (all_entries s.object_retention)))))

lookup-drop_results :
    (d : Dict Key ObjectRetentionRecord) (owners : List Key) (results : Dict Key ResultReference)
    (k : Key)
    → lookup k (drop_results d owners results)
      ≡ (if contains k owners && not (remaining d k) then none else lookup k results)
unfolding drop_results
lookup-drop_results d [] results k = refl
lookup-drop_results d (owner ∷ owners) results k = elim (Bool-cases (remaining d owner)) [
  | inl kept ↦ rw kept (
      lookup-drop_results d owners results k ∙ elim (Bool-cases (k == owner)) [
        | inl same ↦ rw same (rw ((key_eqb_iff k owner).0 same) (ground arith))
        | inr other ↦ rw other
      ])
  | inr gone ↦ rw gone (
      lookup-drop_results d owners (erase owner results) k ∙ elim (Bool-cases (k == owner)) [
        | inl same ↦ ground (
          arith,
          lookup-erase k owner results,
          key_eqb_iff k owner,
          key_eqb_iff owner k,
          key_eqb_iff owner owner,
        )
        | inr other ↦
            ground (arith, lookup-erase k owner results, key_eqb_iff k owner, key_eqb_iff owner k)
      ])
]

-- A record of an object of a result.
abbrev IsOf : Key → ObjectRetentionRecord → Type 0
IsOf k r =
    (r.owner_type ≡ OwnerType.run_result)
    × (r.tenant_id ≡ k.0)
    × (r.project_id ≡ k.1)
    × (r.owner_id ≡ k.2)

-- The deletion of the targets leaves a result none of its objects: one of them is a target, and each
-- of them is a target or was deleted before.
abbrev pub LosesAll : List String → Key → Dict Key ObjectRetentionRecord → Type 0
LosesAll targets k d =
    SomeEntry (λ i r. IsOf k r × (contains r.object_key targets ≡ true)) d
    × AllEntries
        (λ i r.
          ¬ IsOf k r ⊎ ((contains r.object_key targets ≡ true) ⊎ (is_none r.deleted_at ≡ false)))
        d

owner_eqb_iff : (a b : OwnerType) → (owner_eqb a b ≡ true) ↔ (a ≡ b)
owner_eqb_iff a b = ground arith

-- The tests of the two loops, as one.
abbrev is_of : Key → ObjectRetentionRecord → Bool
is_of k r = owner_eqb r.owner_type OwnerType.run_result && (owner_key r == k)

is_of_iff : (k : Key) (r : ObjectRetentionRecord) → (is_of k r ≡ true) ↔ IsOf k r
is_of_iff k r = (
  (λ h.
      let result : r.owner_type ≡ OwnerType.run_result =
        (owner_eqb_iff r.owner_type OwnerType.run_result).0 (ground arith) in
      let same : owner_key r ≡ k = (key_eqb_iff (owner_key r) k).0 (ground arith) in
      (result, ap (λ (i : Key). i.0) same, ap (λ (i : Key). i.1) same, ap (λ (i : Key). i.2) same)),
  (λ h.
      let result = (owner_eqb_iff r.owner_type OwnerType.run_result).1 h.0 in
      let own = (key_eqb_iff (owner_key r) k).1 (λ i. (h.1 i, h.2 i, h.3 i)) in ground arith),
)

module _ (targets : List String) (k : Key) where
  any-result_owners :
      (d : Dict Key ObjectRetentionRecord)
      → contains k (result_owners targets d)
        ≡ any_entry (λ i r. is_of k r && contains r.object_key targets) d
  unfolding result_owners any_entry select
  any-result_owners [] = refl
  any-result_owners ((i, r) ∷ d) =
      ground (arith, any-result_owners d, key_eqb_iff (owner_key r) k, key_eqb_iff k (owner_key r))

  any-remaining :
      (deleted_at : Timestamp) (d : Dict Key ObjectRetentionRecord)
      → remaining (update_all (marking targets deleted_at) d) k
        ≡ any_entry
            (λ i r. is_of k r && (not (contains r.object_key targets) && is_none r.deleted_at))
            d
  unfolding update_all any_entry
  any-remaining deleted_at [] = refl
  any-remaining deleted_at ((i, r) ∷ d) =
      let rest = any-remaining deleted_at d in
      elim (Bool-cases (is_target targets r)) [
        | inl hit ↦ rw hit (ground (arith, rest))
        | inr miss ↦ rw miss (ground (arith, rest))
      ]

  one_targeted :
      (r : ObjectRetentionRecord)
      → ((is_of k r && contains r.object_key targets) ≡ true)
        ↔ (IsOf k r × (contains r.object_key targets ≡ true))
  one_targeted r =
      let own = is_of_iff k r in
      (
        (λ h. (own.0 (ground (arith, h)), ground (arith, h))),
        (λ h. let mine = own.1 h.0 in ground (arith, mine, h.1)),
      )

  one_gone :
      (r : ObjectRetentionRecord)
      → ((is_of k r && (not (contains r.object_key targets) && is_none r.deleted_at)) ≡ false)
        ↔ ((¬ IsOf k r) ⊎ ((contains r.object_key targets ≡ true) ⊎ (is_none r.deleted_at ≡ false)))
  one_gone r =
      let own = is_of_iff k r in
      elim (Bool-cases (is_of k r)) [
        | inr other ↦
            rw other (λ h. inl (λ mine. absurd (ground (arith, own.1 mine, other))), λ h. refl)
        | inl mine ↦ rw mine (
          λ h. inr (ground (arith, h)),
          λ h. elim h [ inl other ↦ absurd (other (own.0 mine)) | inr gone ↦ ground (arith, gone) ],
        )
      ]

-- The deletion of objects takes away the reference to a result exactly when it leaves the result none
-- of its objects, one of which it deletes; every other reference stays.
pub lookup-mark_objects_deleted :
    (targets : List String) (deleted_at : Timestamp) (s : MemoryStateStore) (k : Key)
    → let s' = mark_objects_deleted targets deleted_at s in
      (LosesAll targets k s.object_retention × (lookup k s'.results ≡ none))
      ⊎ ((¬ LosesAll targets k s.object_retention) × (lookup k s'.results ≡ lookup k s.results))
unfolding mark_objects_deleted
lookup-mark_objects_deleted targets deleted_at s k =
    let d = s.object_retention in
    let marked = update_all (marking targets deleted_at) d in
    let owners = result_owners targets d in
    let found = lookup-drop_results marked owners s.results k in
    let hit = any_entry-SomeEntry _ _ (λ i r. one_targeted targets k r) d in
    let gone = any_entry-AllEntries _ _ (λ i r. one_gone targets k r) d in
    elim (Bool-cases (contains k owners)) [
      | inr none_hit ↦ inr (
        (λ h. absurd (ground (arith, hit.1 h.0, none_hit, any-result_owners targets k d))),
        rw none_hit at found,
      )
      | inl some_hit ↦ elim (Bool-cases (remaining marked k)) [
        | inl left ↦ inr (
          (λ h. absurd (ground (arith, gone.1 h.1, left, any-remaining targets k deleted_at d))),
          rw (some_hit, left) at found,
        )
        | inr empty ↦ inl (
          (
            hit.0 (sym (any-result_owners targets k d) ∙ some_hit),
            gone.0 (sym (any-remaining targets k deleted_at d) ∙ empty),
          ),
          rw (some_hit, empty) at found,
        )
      ]
    ]
