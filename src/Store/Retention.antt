-- ===== src/Store/Retention.antt =====
-- Retention of stored objects: `track_object` to `mark_objects_deleted` of `MemoryStateStore` in
-- scenara/infrastructure/memory_state.py.
pub mod Protection
pub mod Deletion
use scenara.Prelude.{
  String, ℕ, Bool, true, false, not, ◌&&◌, ◌||◌, Option, none, some, List, [], ◌∷◌, Key, ◌==◌,
  key_eq, string_eq, option_eq, contains, nat_eq, leb, max, if◌then◌else◌, take, Eq, ◌≡◌, ◌↔◌,
  arith,
}
use scenara.Prelude.Dict.{Dict, lookup, insert, erase, update_all, select, any_entry, values}
use scenara.Prelude.Sort.{sort, str_ltb}
use scenara.Models.{Timestamp}
use scenara.Models.Media.{MediaAsset}
use scenara.Models.Run.{ResultReference}
use scenara.Models.Retention.{RetentionCategory, OwnerType, ObjectRetentionRecord}
use scenara.Store.{MemoryStateStore, Reply, ok, conflict}

abbrev pub category_eqb : RetentionCategory → RetentionCategory → Bool
category_eqb RetentionCategory.raw_media RetentionCategory.raw_media = true
category_eqb RetentionCategory.preview RetentionCategory.preview = true
category_eqb RetentionCategory.structured_result RetentionCategory.structured_result = true
category_eqb RetentionCategory.biometric RetentionCategory.biometric = true
category_eqb RetentionCategory.alert_snapshot RetentionCategory.alert_snapshot = true
category_eqb _ _ = false

abbrev pub owner_eqb : OwnerType → OwnerType → Bool
owner_eqb OwnerType.media_asset OwnerType.media_asset = true
owner_eqb OwnerType.run_result OwnerType.run_result = true
owner_eqb OwnerType.portrait_enrollment OwnerType.portrait_enrollment = true
owner_eqb OwnerType.surveillance_alert OwnerType.surveillance_alert = true
owner_eqb _ _ = false

-- The equality of retention records, field by field.
abbrev pub retention_eqb : ObjectRetentionRecord → ObjectRetentionRecord → Bool
retention_eqb a b =
    (a.tenant_id == b.tenant_id)
    && ((a.project_id == b.project_id)
        && ((a.object_key == b.object_key)
            && (category_eqb a.category b.category
                && (owner_eqb a.owner_type b.owner_type
                    && ((a.owner_id == b.owner_id)
                        && ((a.created_at == b.created_at)
                            && ((a.expires_at == b.expires_at)
                                && (a.deleted_at == b.deleted_at))))))))

abbrev pub retention_key : ObjectRetentionRecord → Key
retention_key r = (r.tenant_id, r.project_id, r.object_key)

unfoldable pub track_object :
    ObjectRetentionRecord → MemoryStateStore → MemoryStateStore × Reply (Unit {0})
track_object r s = elim (lookup (retention_key r) s.object_retention) [
  | some existing ↦
      if not (retention_eqb existing r)
      then (s, conflict "object retention record already exists")
      else (record s { object_retention = insert (retention_key r) r s.object_retention }, ok tt)
  | none ↦ (record s { object_retention = insert (retention_key r) r s.object_retention }, ok tt)
]

-- `value or 0`
abbrev pub or_zero : Option Timestamp → Timestamp
or_zero none = 0
or_zero (some t) = t

-- The update of a record that an alert needs.
abbrev pub protected : ObjectRetentionRecord → String → Timestamp → ObjectRetentionRecord
protected current alert_id expires_at = record current {
  category = RetentionCategory.alert_snapshot;
  owner_type = OwnerType.surveillance_alert;
  owner_id = alert_id;
  expires_at = some (max (or_zero current.expires_at) expires_at);
}

unfoldable pub protect_object_for_alert :
    String → String → String → String → Timestamp → MemoryStateStore → MemoryStateStore × Bool
protect_object_for_alert tenant_id project_id object_key alert_id expires_at s =
    elim (lookup (tenant_id, project_id, object_key) s.object_retention) [
      | none ↦ (s, false)
      | some current ↦ elim current.deleted_at [
        | some deleted ↦ (s, false)
        | none ↦ (
          record s {
            object_retention =
                insert (tenant_id, project_id, object_key) (protected current alert_id expires_at)
                  s.object_retention;
          },
          true,
        )
      ]
    ]

abbrev pub is_none {ℓ} : {A : Type ℓ} → Option A → Bool
is_none none = true
is_none (some a) = false

abbrev pub is_expired : Timestamp → ObjectRetentionRecord → Bool
is_expired before r = elim r.expires_at [
  | none ↦ false
  | some t ↦ leb t before && is_none r.deleted_at
]

abbrev pub object_keys_of : List ObjectRetentionRecord → List String
object_keys_of [] = []
object_keys_of (r ∷ rs) = r.object_key ∷ object_keys_of rs

unfoldable pub expired_object_keys : Timestamp → ℕ → MemoryStateStore → List String
expired_object_keys before limit s =
    take limit
      (sort str_ltb (object_keys_of (select (λ k r. is_expired before r) s.object_retention)))

-- The owners that `mark_objects_deleted` collects.
abbrev pub owner_key : ObjectRetentionRecord → Key
owner_key r = (r.tenant_id, r.project_id, r.owner_id)

abbrev pub owners_of : List ObjectRetentionRecord → List Key
owners_of [] = []
owners_of (r ∷ rs) = owner_key r ∷ owners_of rs

abbrev pub is_target : List String → ObjectRetentionRecord → Bool
is_target targets r = contains r.object_key targets

unfoldable pub result_owners : List String → Dict Key ObjectRetentionRecord → List Key
result_owners targets d =
    owners_of (select (λ k r. is_target targets r && owner_eqb r.owner_type OwnerType.run_result) d)

unfoldable pub asset_owners :
    RetentionCategory → List String → Dict Key ObjectRetentionRecord → List Key
asset_owners category targets d = owners_of (
    select
      (λ k r.
        is_target targets r
        && (owner_eqb r.owner_type OwnerType.media_asset && category_eqb r.category category))
      d)

-- The updates of one asset whose raw object or preview is deleted.
unfoldable pub mark_asset : List Key → List Key → Timestamp → Key → MediaAsset → MediaAsset
mark_asset raw preview deleted_at key asset =
    let marked =
      if contains key raw then record asset { original_deleted_at = some deleted_at } else asset in
    if contains key preview
    then record marked {
      preview_object_key = none;
      preview_content_type = none;
      preview_sha256 = none;
      deleted_at =
          if contains key raw || not (is_none asset.original_deleted_at)
          then some deleted_at
          else asset.deleted_at;
    }
    else marked

abbrev pub remaining : Dict Key ObjectRetentionRecord → Key → Bool
remaining d owner =
    any_entry
      (λ k r.
        owner_eqb r.owner_type OwnerType.run_result
        && ((owner_key r == owner) && is_none r.deleted_at))
      d

-- The loop over the owners: the reference goes once no object of the result remains.
unfoldable pub drop_results :
    Dict Key ObjectRetentionRecord → List Key → Dict Key ResultReference → Dict Key ResultReference
drop_results d [] results = results
drop_results d (owner ∷ owners) results =
    drop_results d owners (if remaining d owner then results else erase owner results)

unfoldable pub mark_objects_deleted : List String → Timestamp → MemoryStateStore → MemoryStateStore
unfolding result_owners asset_owners mark_asset drop_results
mark_objects_deleted targets deleted_at s =
    let retention =
      update_all
        (λ k r. if is_target targets r then record r { deleted_at = some deleted_at } else r)
        s.object_retention in
    record s {
      object_retention = retention;
      assets =
          update_all
            (mark_asset (asset_owners RetentionCategory.raw_media targets s.object_retention)
              (asset_owners RetentionCategory.preview targets s.object_retention) deleted_at)
            s.assets;
      results = drop_results retention (result_owners targets s.object_retention) s.results;
    }
