-- ===== src/Retention/Examples.antt =====
-- Witnesses: a crop that expires at 20, whose file is there or gone.
use scenara.Prelude.{
  String, true, false, some, none, [], ◌∷◌, All, ◌≡◌, refl, string_eq, key_eq, arith,
}
use scenara.Prelude.Dict.{Dict, has_key, select, count_entries}
use scenara.Prelude.Sort.{sort}
use scenara.Models.Retention.{RetentionCategory, OwnerType, ObjectRetentionRecord}
use scenara.Store.{MemoryStateStore, ok}
use scenara.Store.Examples.{empty}
use scenara.Store.Retention.{expired_object_keys}
use scenara.Retention.{local_delete, s3_delete, sweep}
use scenara.Retention.Sweep.{sweep-stuck}
use scenara.Retention.Progress.{expired_count, sweep_all, sweep_all-clears}

abbrev preview : String → ObjectRetentionRecord
preview key = record {
  tenant_id = "acme";
  project_id = "demo";
  object_key = key;
  category = RetentionCategory.preview;
  owner_type = OwnerType.run_result;
  owner_id = "run_1";
  created_at = 10;
  expires_at = some 20;
  deleted_at = none;
}

abbrev two_previews : MemoryStateStore
two_previews = record empty {
  object_retention =
      (("acme", "demo", "a.jpg"), preview "a.jpg")
      ∷ (("acme", "demo", "b.jpg"), preview "b.jpg")
      ∷ [];
}

-- Only the file of the second is there.
abbrev files : Dict String String
files = ("b.jpg", "bytes") ∷ []

first_gone : All (λ key. has_key key files ≡ false) (expired_object_keys 30 1 two_previews)
unfolding expired_object_keys select sort has_key
first_gone = (refl, tt)

sweep-stuck_example : sweep local_delete 30 1 40 two_previews files ≡ ((two_previews, files), ok 0)
sweep-stuck_example = sweep-stuck 30 40 1 two_previews files (omega arith) (omega arith) first_gone

two_expired : expired_count 30 two_previews ≡ 2
unfolding expired_count count_entries
two_expired = refl

s3_delete-true : (key : String) (o : Dict String String) → (s3_delete key o).1 ≡ true
unfolding s3_delete
s3_delete-true key o = refl

sweep_all-clears_example :
    expired_object_keys 30 100 (sweep_all s3_delete 30 1 (40 ∷ 41 ∷ []) two_previews files).0 ≡ []
sweep_all-clears_example =
    sweep_all-clears s3_delete s3_delete-true 30 1 100 (40 ∷ 41 ∷ []) two_previews files
      (omega arith) (omega arith) (omega (arith, two_expired))
