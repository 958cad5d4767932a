-- ===== src/Store/Audit.antt =====
-- The audit log and the references to results: `save_result_reference` to
-- `delete_audit_events_before` of `MemoryStateStore` in scenara/infrastructure/memory_state.py.
pub mod External
use scenara.Prelude.{
  String, ℕ, ◌-◌, Bool, true, false, not, ◌&&◌, Option, none, some, List, [], ◌∷◌, ◌++◌, Key, ◌==◌,
  key_eq, string_eq, option_eq, leb, ltb, if◌then◌else◌, filter, length,
}
use scenara.Prelude.Dict.{lookup, insert, select}
use scenara.Prelude.Sort.{sort, stamped_ltb}
use scenara.Models.{Timestamp, Json}
use scenara.Models.Media.{MediaKind}
use scenara.Models.Run.{ResultReference}
use scenara.Models.Retention.{AuditEvent}
use scenara.Store.{MemoryStateStore, Reply, ok, conflict}
use scenara.Store.Runs.{in_scope, page, matches}

unfoldable pub save_result_reference :
    String → String → ResultReference → MemoryStateStore → MemoryStateStore
save_result_reference tenant_id project_id result s = record s {
  results = insert (tenant_id, project_id, result.run_id) result s.results;
}

unfoldable pub get_result_reference :
    String → String → String → MemoryStateStore → Option ResultReference
get_result_reference tenant_id project_id run_id s =
    lookup (tenant_id, project_id, run_id) s.results

-- `item.media_kind.value`
abbrev pub kind_value : MediaKind → String
kind_value MediaKind.image = "image"
kind_value MediaKind.video = "video"
kind_value MediaKind.document = "document"
kind_value MediaKind.stream = "stream"

abbrev pub has_kind : Option String → Option MediaKind → Bool
has_kind none kind = true
has_kind (some wanted) none = false
has_kind (some wanted) (some kind) = kind_value kind == wanted

-- `mentions` tells whether the JSON text of a reference holds the query, without regard to case;
-- pydantic and json write that text.
abbrev pub is_listed_result :
    (String → ResultReference → Bool)
    → String
    → String
    → Option String
    → Option String
    → Option String
    → Key
    → ResultReference
    → Bool
is_listed_result mentions tenant_id project_id domain media_kind query k item =
    in_scope tenant_id project_id k
    && (matches domain item.domain
        && (has_kind media_kind item.media_kind
            && elim query [ none ↦ true | some q ↦ mentions q item ]))

unfoldable pub list_result_references :
    (String → ResultReference → Bool)
    → String
    → String
    → Option String
    → Option String
    → Option String
    → ℕ
    → Option ℕ
    → MemoryStateStore
    → List ResultReference
list_result_references mentions tenant_id project_id domain media_kind query offset limit s =
    page offset limit (
      sort (λ a b. stamped_ltb b.created_at b.run_id a.created_at a.run_id)
        (select (is_listed_result mentions tenant_id project_id domain media_kind query) s.results))

unfoldable pub count_result_references :
    (String → ResultReference → Bool)
    → String
    → String
    → Option String
    → Option String
    → Option String
    → MemoryStateStore
    → ℕ
unfolding list_result_references
count_result_references mentions tenant_id project_id domain media_kind query s =
    length (list_result_references mentions tenant_id project_id domain media_kind query 0 none s)

unfoldable pub append_audit : AuditEvent → MemoryStateStore → MemoryStateStore
append_audit event s = record s { audits = s.audits ++ event ∷ [] }

-- `str(event.evidence.get("event_id", ""))`; `str` writes a value that is no text.
abbrev pub external_id : (Json → String) → AuditEvent → String
external_id str event = elim (lookup "event_id" event.evidence) [ none ↦ "" | some v ↦ str v ]

unfoldable pub append_external_event_audit :
    (Json → String) → AuditEvent → String → MemoryStateStore → MemoryStateStore × Reply Bool
append_external_event_audit str event payload_hash s =
    let key : Key = (event.tenant_id, event.project_id, external_id str event) in
    elim (lookup key s.external_event_hashes) [
      | some previous ↦
          if not (previous == payload_hash)
          then (s, conflict "external event id was reused with different content")
          else (s, ok false)
      | none ↦ (
        record s {
          external_event_hashes = insert key payload_hash s.external_event_hashes;
          audits = s.audits ++ event ∷ [];
        },
        ok true,
      )
    ]

-- The filters of a query of the audit log.
pub record AuditFilter : Type 0 where
  pub action : Option String
  pub resource_type : Option String
  pub principal_id : Option String
  pub outcome : Option String
  pub created_after : Option Timestamp
  pub created_before : Option Timestamp

abbrev pub is_listed_audit : String → String → AuditFilter → AuditEvent → Bool
is_listed_audit tenant_id project_id f item =
    (item.tenant_id == tenant_id)
    && ((item.project_id == project_id)
        && (matches f.action item.action
            && (matches f.resource_type item.resource_type
                && (matches f.principal_id item.principal_id
                    && (matches f.outcome item.outcome
                        && (elim f.created_after [ none ↦ true | some t ↦ leb t item.created_at ]
                            && elim f.created_before [
                              | none ↦ true
                              | some t ↦ leb item.created_at t
                            ]))))))

unfoldable pub audit_events :
    String → String → AuditFilter → ℕ → Option ℕ → MemoryStateStore → List AuditEvent
audit_events tenant_id project_id f offset limit s = page offset limit (
    sort (λ a b. stamped_ltb b.created_at b.event_id a.created_at a.event_id)
      (filter (is_listed_audit tenant_id project_id f) s.audits))

unfoldable pub count_audit_events : String → String → AuditFilter → MemoryStateStore → ℕ
unfolding audit_events
count_audit_events tenant_id project_id f s = length (audit_events tenant_id project_id f 0 none s)

abbrev pub is_outdated : String → String → Timestamp → AuditEvent → Bool
is_outdated tenant_id project_id before item =
    (item.tenant_id == tenant_id) && ((item.project_id == project_id) && ltb item.created_at before)

unfoldable pub delete_audit_events_before :
    String → String → Timestamp → MemoryStateStore → MemoryStateStore × ℕ
delete_audit_events_before tenant_id project_id before s =
    let retained = filter (λ item. not (is_outdated tenant_id project_id before item)) s.audits in
    (record s { audits = retained }, length s.audits - length retained)
