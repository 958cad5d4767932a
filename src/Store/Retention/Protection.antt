-- ===== src/Store/Retention/Protection.antt =====
-- `protect_object_for_alert` of `MemoryStateStore`, and the time at which an object expires.
use scenara.Prelude.{
  String, ℕ, ◌≤◌, max, ◌≡◌, ◌≢◌, ◌⊎◌, refl, sym, inl, inr, true, false, Option, none, some, Key,
  key_eq, Option-cases, arith,
}
use scenara.Prelude.Dict.{lookup, lookup-insert_self, lookup-insert_ne}
use scenara.Models.{Timestamp}
use scenara.Models.Retention.{OwnerType, ObjectRetentionRecord}
use scenara.Store.{MemoryStateStore}
use scenara.Store.Retention.{protected, or_zero, protect_object_for_alert, is_expired}

le_max_left : (m n : ℕ) → m ≤ max m n
le_max_left m n = ground arith

le_max_right : (m n : ℕ) → n ≤ max m n
le_max_right m n = ground arith

-- The end that a protected object gets: the asked one where it had none, else the later of the two.
abbrev pub EndsAt : Option Timestamp → Timestamp → Timestamp → Type 0
EndsAt none until end = end ≡ until
EndsAt (some old) until end = (until ≤ end) × (old ≤ end) × ((end ≡ until) ⊎ (end ≡ old))

EndsAt-max :
    (old : Option Timestamp) (until : Timestamp) → EndsAt old until (max (or_zero old) until)
EndsAt-max none until = ground arith
EndsAt-max (some old) until = (le_max_right old until, le_max_left old until, ground arith)

-- A protection that is answered with `True` gives the object to the alert and changes no other
-- record. The object then expires at the end that was asked for, or at the end that it had, whichever
-- is later; an object that was to be kept for good expires at the end that was asked for.
pub protect_object_for_alert-true :
    (t p key alert : String) (until : Timestamp) (other : Key) (s : MemoryStateStore)
    {s' : MemoryStateStore}
    → protect_object_for_alert t p key alert until s ≡ (s', true)
    → other ≢ (t, p, key)
    → (old : ObjectRetentionRecord) × (new : ObjectRetentionRecord) × (end : Timestamp) × (lookup
          (t, p, key)
          s.object_retention
        ≡ some old)
      × (lookup (t, p, key) s'.object_retention ≡ some new)
      × (new.owner_type ≡ OwnerType.surveillance_alert)
      × (new.owner_id ≡ alert)
      × (new.expires_at ≡ some end)
      × EndsAt old.expires_at until end
      × (lookup other s'.object_retention ≡ lookup other s.object_retention)
unfolding protect_object_for_alert
protect_object_for_alert-true t p key alert until other s h differs =
    elim (Option-cases (lookup (t, p, key) s.object_retention)) [
      | inl missing ↦ absurd (ground arith)
      | inr (old, found) ↦
          let new = protected old alert until in
          (
            old,
            new,
            max (or_zero old.expires_at) until,
            found,
            ground (arith, lookup-insert_self (t, p, key) new s.object_retention),
            refl,
            refl,
            refl,
            EndsAt-max old.expires_at until,
            ground (
              arith,
              lookup-insert_ne other (t, p, key) new s.object_retention
                  (λ same. differs (sym same)),
            ),
          )
    ]

-- An object that is not deleted and that was to be kept for good, so that it is not expired at any
-- time, is expired from the asked end on once it has been protected.
pub protect_object_for_alert-unlimited :
    (t p key alert : String) (until now : Timestamp) (old : ObjectRetentionRecord)
    (s : MemoryStateStore)
    → lookup (t, p, key) s.object_retention ≡ some old
    → old.expires_at ≡ none
    → old.deleted_at ≡ none
    → (is_expired now old ≡ false)
      × (new : ObjectRetentionRecord) × (lookup
            (t, p, key)
            (protect_object_for_alert t p key alert until s).0.object_retention
          ≡ some new)
      × (is_expired until new ≡ true)
unfolding protect_object_for_alert
protect_object_for_alert-unlimited t p key alert until now old s found unlimited live =
    let new = protected old alert until in
    (
      ground arith,
      new,
      ground (arith, lookup-insert_self (t, p, key) new s.object_retention),
      ground arith,
    )
