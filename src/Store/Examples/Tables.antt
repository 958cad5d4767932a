-- ===== src/Store/Examples/Tables.antt =====
-- Concrete pipelines, retained objects, saved searches and audit events on which the theorems on
-- these tables apply.
use scenara.Prelude.{
  String, ◌≡◌, ◌≢◌, refl, ap, true, false, none, some, [], ◌∷◌, Key, ◌⊎◌, key_eq, pair_eq,
  string_eq, contains, All, key_eqb, arith,
}
use scenara.Prelude.Dict.{lookup, insert, update_all}
use scenara.Models.{Timestamp, Json}
use scenara.Models.Run.{ResultReference, IndexStatus}
use scenara.Models.Dataset.{SavedSearch, SavedSearchMode}
use scenara.Models.Retention.{RetentionCategory, OwnerType, ObjectRetentionRecord, AuditEvent}
use scenara.Pipeline.Definition.{PipelineStatus, PipelineDefinition, PipelinePayload}
use scenara.Store.{MemoryStateStore, ok, conflict}
use scenara.Store.Pipelines.{
  PipelineKey, pipeline_key, register_pipeline_definition, transition_pipeline_definition,
}
use scenara.Store.Pipelines.Active.{
  IsSingle, transition_pipeline_definition-IsSingle, register_pipeline_definition-IsSingle,
  register_pipeline_definition-two_active,
}
use scenara.Store.Retention.{expired_object_keys, mark_objects_deleted, protect_object_for_alert}
use scenara.Store.Retention.Protection.{EndsAt, protect_object_for_alert-true}
use scenara.Store.Retention.Deletion.{
  LosesAll, expired_object_keys-mark, lookup-mark_objects_deleted,
}
use scenara.Store.Datasets.{create_saved_search}
use scenara.Store.Datasets.Names.{HasUniqueNames, create_saved_search-HasUniqueNames}
use scenara.Store.Audit.{append_external_event_audit, delete_audit_events_before}
use scenara.Store.Audit.External.{
  append_external_event_audit-once, Swept, delete_audit_events_before-Swept,
}
use scenara.Store.Examples.{empty, differ}

abbrev ocr : PipelineDefinition
ocr = record {
  pipeline_id = "ocr";
  version = "1.0.0";
  domain = "ocr";
  status = PipelineStatus.active;
  nodes = [];
  output = "text";
  allowed_parameters = [];
  parameter_schema = [];
  pausable = false;
}

abbrev next_ocr : PipelineDefinition
next_ocr = record ocr { version = "2.0.0"; status = PipelineStatus.approved }

-- A digest of the definition, which the output alone decides.
abbrev output_digest : PipelinePayload → String
output_digest p = p.output

empty-IsSingle : IsSingle empty.pipelines
unfolding lookup
empty-IsSingle = record {
  keyed = λ k p h. ground arith;
  single = λ j k p q hp hq same pa qa. ground arith;
}

-- The store after two registrations.
abbrev one_version : MemoryStateStore
one_version = (register_pipeline_definition output_digest ocr empty).0

abbrev two_versions : MemoryStateStore
two_versions = (register_pipeline_definition output_digest next_ocr one_version).0

unregistered : (old : PipelineDefinition) → lookup (pipeline_key ocr) empty.pipelines ≢ some old
unfolding lookup
unregistered old h = ground arith

one_version-IsSingle : IsSingle one_version.pipelines
one_version-IsSingle =
    register_pipeline_definition-IsSingle output_digest ocr empty empty-IsSingle
      (λ old found. absurd (unregistered old found))

two_versions-IsSingle : IsSingle two_versions.pipelines
two_versions-IsSingle =
    register_pipeline_definition-IsSingle output_digest next_ocr one_version one_version-IsSingle
      (λ old found active. absurd (ground arith))

transition_pipeline_definition-IsSingle_example :
    IsSingle
      (transition_pipeline_definition "ocr" "2.0.0" PipelineStatus.active two_versions).0.pipelines
transition_pipeline_definition-IsSingle_example =
    transition_pipeline_definition-IsSingle "ocr" "2.0.0" PipelineStatus.active two_versions
      two_versions-IsSingle

-- A new version that is active at once.
abbrev third_ocr : PipelineDefinition
third_ocr = record ocr { version = "3.0.0" }

not_third :
    (old : PipelineDefinition) → lookup (pipeline_key third_ocr) two_versions.pipelines ≢ some old
unfolding lookup register_pipeline_definition insert update_all
not_third old h = ground arith

register_pipeline_definition-IsSingle_example :
    IsSingle (register_pipeline_definition output_digest third_ocr two_versions).0.pipelines
register_pipeline_definition-IsSingle_example =
    register_pipeline_definition-IsSingle output_digest third_ocr two_versions two_versions-IsSingle
      (λ old found. absurd (not_third old found))

-- The second version, changed and active at once.
abbrev changed_ocr : PipelineDefinition
changed_ocr = record next_ocr { output = "blocks"; status = PipelineStatus.active }

has_next : lookup (pipeline_key changed_ocr) two_versions.pipelines ≡ some next_ocr
unfolding lookup register_pipeline_definition insert update_all
has_next = refl

has_ocr : lookup ("ocr", "1.0.0") two_versions.pipelines ≡ some ocr
unfolding lookup register_pipeline_definition insert update_all
has_ocr = refl

register_pipeline_definition-two_active_example :
    let s' = (register_pipeline_definition output_digest changed_ocr two_versions).0 in
    (lookup (pipeline_key changed_ocr) s'.pipelines ≡ some changed_ocr)
    × (lookup ("ocr", "1.0.0") s'.pipelines ≡ some ocr)
    × ¬ IsSingle s'.pipelines
register_pipeline_definition-two_active_example =
    register_pipeline_definition-two_active output_digest changed_ocr next_ocr ocr ("ocr", "1.0.0")
      two_versions has_next (differ "text" "blocks" refl) refl has_ocr refl refl
      (λ h. differ "2.0.0" "1.0.0" refl (ap (λ (k : PipelineKey). k.1) h))

abbrev crop : ObjectRetentionRecord
crop = record {
  tenant_id = "acme";
  project_id = "demo";
  object_key = "acme/demo/crop.jpg";
  category = RetentionCategory.structured_result;
  owner_type = OwnerType.run_result;
  owner_id = "run_1";
  created_at = 10;
  expires_at = none;
  deleted_at = none;
}

abbrev crop_result : ResultReference
crop_result = record {
  run_id = "run_1";
  object_key = "acme/demo/crop.jpg";
  sha256 = "00";
  unit_count = 1;
  shard_keys = [];
  shard_sha256 = [];
  shard_unit_counts = [];
  domain = "ocr";
  created_at = 10;
  asset_id = none;
  source_id = none;
  media_kind = none;
  resource_name = none;
  object_count = 0;
  person_count = 0;
  face_count = 0;
  ocr_block_count = 1;
  text_length = 4;
  warning_count = 0;
  index_status = IndexStatus.ready;
}

-- A store with one object, which is the result of a run.
abbrev tracked : MemoryStateStore
tracked = record empty {
  object_retention = (("acme", "demo", "acme/demo/crop.jpg"), crop) ∷ [];
  results = (("acme", "demo", "run_1"), crop_result) ∷ [];
}

has_crop : lookup ("acme", "demo", "acme/demo/crop.jpg") tracked.object_retention ≡ some crop
unfolding lookup key_eqb
has_crop = refl

-- An object that was to expire at 50, and one that is kept for good.
abbrev two_objects : MemoryStateStore
two_objects = record tracked {
  object_retention =
      (("acme", "demo", "acme/demo/crop.jpg"), record crop { expires_at = some 50 })
      ∷ (("acme", "demo", "acme/demo/kept.jpg"), record crop { object_key = "acme/demo/kept.jpg" })
      ∷ [];
}

abbrev protected_store : MemoryStateStore
protected_store =
    (protect_object_for_alert "acme" "demo" "acme/demo/crop.jpg" "alert_1" 90 two_objects).0

was_protected :
    protect_object_for_alert "acme" "demo" "acme/demo/crop.jpg" "alert_1" 90 two_objects
    ≡ (protected_store, true)
unfolding protect_object_for_alert lookup insert key_eqb
was_protected = refl

kept_differs :
    let kept : Key = ("acme", "demo", "acme/demo/kept.jpg") in
    kept ≢ ("acme", "demo", "acme/demo/crop.jpg")
kept_differs h = differ "acme/demo/kept.jpg" "acme/demo/crop.jpg" refl (ap (λ (k : Key). k.2) h)

protect_object_for_alert-true_example :
    (old : ObjectRetentionRecord) × (new : ObjectRetentionRecord) × (end : Timestamp) × (lookup
        ("acme", "demo", "acme/demo/crop.jpg")
        two_objects.object_retention
      ≡ some old)
    × (lookup ("acme", "demo", "acme/demo/crop.jpg") protected_store.object_retention ≡ some new)
    × (new.owner_type ≡ OwnerType.surveillance_alert)
    × (new.owner_id ≡ "alert_1")
    × (new.expires_at ≡ some end)
    × EndsAt old.expires_at 90 end
    × (lookup ("acme", "demo", "acme/demo/kept.jpg") protected_store.object_retention
        ≡ lookup ("acme", "demo", "acme/demo/kept.jpg") two_objects.object_retention)
protect_object_for_alert-true_example =
    protect_object_for_alert-true "acme" "demo" "acme/demo/crop.jpg" "alert_1" 90
      ("acme", "demo", "acme/demo/kept.jpg") two_objects was_protected kept_differs

expired_object_keys-mark_example :
    All
      (λ key. contains key ("acme/demo/crop.jpg" ∷ []) ≡ false)
      (expired_object_keys 100 10 (mark_objects_deleted ("acme/demo/crop.jpg" ∷ []) 95 tracked))
expired_object_keys-mark_example =
    expired_object_keys-mark ("acme/demo/crop.jpg" ∷ []) 95 100 10 tracked

lookup-mark_objects_deleted_example :
    let s' = mark_objects_deleted ("acme/demo/crop.jpg" ∷ []) 95 tracked in
    (LosesAll ("acme/demo/crop.jpg" ∷ []) ("acme", "demo", "run_1") tracked.object_retention
      × (lookup ("acme", "demo", "run_1") s'.results ≡ none))
    ⊎ ((¬ LosesAll ("acme/demo/crop.jpg" ∷ []) ("acme", "demo", "run_1") tracked.object_retention)
        × (lookup ("acme", "demo", "run_1") s'.results
            ≡ lookup ("acme", "demo", "run_1") tracked.results))
lookup-mark_objects_deleted_example =
    lookup-mark_objects_deleted ("acme/demo/crop.jpg" ∷ []) 95 tracked ("acme", "demo", "run_1")

abbrev invoices : SavedSearch
invoices = record {
  saved_search_id = "search_1";
  tenant_id = "acme";
  project_id = "demo";
  name = "invoices";
  description = "";
  mode = SavedSearchMode.by_text;
  definition = [];
  created_by = "alice";
  created_at = 1;
  updated_at = 1;
  last_run_at = none;
}

empty-HasUniqueNames : HasUniqueNames empty.saved_searches
unfolding lookup
empty-HasUniqueNames = record {
  keyed = λ k q h. ground arith;
  unique = λ j k q r hq hr tenant project name. ground arith;
}

abbrev searched : MemoryStateStore
searched = (create_saved_search invoices empty).0

searched-HasUniqueNames : HasUniqueNames searched.saved_searches
searched-HasUniqueNames = create_saved_search-HasUniqueNames invoices empty empty-HasUniqueNames

abbrev pushed : AuditEvent
pushed = record {
  event_id = "aud_1";
  tenant_id = "acme";
  project_id = "demo";
  principal_id = "hub";
  action = "data.event";
  resource_type = "model-release";
  resource_id = none;
  outcome = "accepted";
  request_id = none;
  evidence = ("event_id", Json.text "evt_1") ∷ [];
  created_at = 10;
}

abbrev text_of : Json → String
text_of (Json.text t) = t
text_of _ = ""

abbrev audited : MemoryStateStore
audited = (append_external_event_audit text_of pushed "h1" empty).0

was_audited : append_external_event_audit text_of pushed "h1" empty ≡ (audited, ok true)
unfolding append_external_event_audit lookup insert key_eqb
was_audited = refl

append_external_event_audit-once_example :
    append_external_event_audit text_of (record pushed { event_id = "aud_2" }) "h2" audited
    ≡ (audited, conflict "external event id was reused with different content")
append_external_event_audit-once_example =
    append_external_event_audit-once text_of pushed (record pushed { event_id = "aud_2" }) "h1" "h2"
      empty was_audited refl

delete_audit_events_before-Swept_example :
    let (s', deleted) = delete_audit_events_before "acme" "demo" 50 audited in
    Swept "acme" "demo" 50 audited.audits s'.audits deleted
    × (s' ≡ record audited { audits = s'.audits })
delete_audit_events_before-Swept_example = delete_audit_events_before-Swept "acme" "demo" 50 audited
