-- ===== src/Retention.antt =====
-- Retention: `RetentionPolicy` and `RetentionScheduler` of scenara/platform/retention.py, over the
-- state store and the object stores of scenara/infrastructure/object_store.py. `plus_days` adds days
-- to a time, a parameter, since timestamps stand for their places in the order of the floats.
pub mod Sweep
pub mod Progress
pub mod Examples
use scenara.Prelude.{
  String, ℕ, Bool, true, false, not, ◌&&◌, ◌||◌, Option, none, some, List, [], ◌∷◌, leb, ltb,
  length, string_eq, if◌then◌else◌,
}
use scenara.Prelude.Dict.{Dict, has_key, erase}
use scenara.Models.{Timestamp}
use scenara.Models.Retention.{RetentionCategory}
use scenara.Store.{MemoryStateStore, Reply, ok, value_error}
use scenara.Store.Retention.{expired_object_keys, mark_objects_deleted}

pub record RetentionPolicy : Type 0 where
  pub raw_media_days : ℕ
  pub preview_days : ℕ
  pub structured_result_days : ℕ
  pub biometric_days : Option ℕ
  pub alert_snapshot_days : Option ℕ

-- `1 <= days <= 3650`
abbrev pub in_range : ℕ → Bool
in_range days = leb 1 days && leb days 3650

-- `days is None or 1 <= days <= 3650`
abbrev pub none_or_in_range : Option ℕ → Bool
none_or_in_range none = true
none_or_in_range (some days) = in_range days

unfoldable pub validate : RetentionPolicy → Reply (Unit {0})
validate p =
    if not (in_range p.raw_media_days)
    then value_error "raw_media_days must be between 1 and 3650"
    else if not (in_range p.preview_days)
    then value_error "preview_days must be between 1 and 3650"
    else if not (in_range p.structured_result_days)
    then value_error "structured_result_days must be between 1 and 3650"
    else if not (none_or_in_range p.biometric_days)
    then value_error "biometric_days must be null or between 1 and 3650"
    else if not (none_or_in_range p.alert_snapshot_days)
    then value_error "alert_snapshot_days must be null or between 1 and 3650"
    else ok tt

-- The table of days by category.
abbrev pub days_of : RetentionPolicy → RetentionCategory → Option ℕ
days_of p RetentionCategory.raw_media = some p.raw_media_days
days_of p RetentionCategory.preview = some p.preview_days
days_of p RetentionCategory.structured_result = some p.structured_result_days
days_of p RetentionCategory.biometric = p.biometric_days
days_of p RetentionCategory.alert_snapshot = p.alert_snapshot_days

-- `plus_days base days` is `base + days * 86_400`. An unknown category is no value of the type.
unfoldable pub expires_at :
    (Timestamp → ℕ → Timestamp)
    → RetentionPolicy
    → RetentionCategory
    → Timestamp
    → Reply (Option Timestamp)
unfolding validate
expires_at plus_days p category base = elim (validate p) [
  | ok u ↦ ok (elim (days_of p category) [ none ↦ none | some days ↦ some (plus_days base days) ])
  | value_error m ↦ value_error m
  | Reply.conflict m ↦ Reply.conflict m
  | Reply.key_error ↦ Reply.key_error
]

-- `LocalObjectStore.delete`, where the keys of the dict are the files: a file that is not there is
-- not deleted.
unfoldable pub local_delete {ℓ} : {V : Type ℓ} → String → Dict String V → Dict String V × Bool
local_delete key files = if has_key key files then (erase key files, true) else (files, false)

-- `S3ObjectStore.delete`: the service deletes what there is, and the answer is always `True`.
unfoldable pub s3_delete {ℓ} : {V : Type ℓ} → String → Dict String V → Dict String V × Bool
s3_delete key objects = (erase key objects, true)

module _ {ℓ} {O : Type ℓ} (delete : String → O → O × Bool) where
  -- The loop over the keys, with the keys whose deletion is answered with `True`.
  unfoldable pub delete_each : List String → O → O × List String
  delete_each [] o = (o, [])
  delete_each (key ∷ keys) o =
      let (o', done) = delete key o in
      let (o'', deleted) = delete_each keys o' in (o'', if done then key ∷ deleted else deleted)

  -- `now` is the time at which the objects are marked.
  unfoldable pub sweep :
      Timestamp → ℕ → Timestamp → MemoryStateStore → O → (MemoryStateStore × O) × Reply ℕ
  unfolding delete_each
  sweep before limit now s o =
      if not (leb 1 limit && leb limit 10000)
      then ((s, o), value_error "retention sweep limit must be between 1 and 10000")
      else let (o', deleted) = delete_each (expired_object_keys before limit s) o in
        (
          (elim deleted [ [] ↦ s | key ∷ keys ↦ mark_objects_deleted (key ∷ keys) now s ], o'),
          ok (length deleted),
        )
