-- ===== src/Surveillance/Alerts.antt =====
-- Alerts of `MemorySurveillanceRepository` in scenara/infrastructure/memory_surveillance.py: what a
-- match becomes, by the debounce window and the idempotency key, triage, and the event log. The
-- log of a project that has none yet is empty, which the source's `defaultdict` makes so.
pub mod Log
pub mod Once
pub mod Debounce
use scenara.Prelude.{
  String, ℕ, ◌+◌, Bool, true, false, not, ◌&&◌, Option, none, some, List, [], ◌∷◌, ◌++◌, Key, ◌==◌,
  key_eq, string_eq, option_eq, pair_eq, nat_eqb, leb, ltb, max, filter, take, slice, length,
  if◌then◌else◌, Eq, ◌≡◌, ◌↔◌, arith,
}
use scenara.Prelude.Dict.{lookup, insert, select}
use scenara.Prelude.Sort.{sort}
use scenara.Models.{Timestamp}
use scenara.Store.{Reply, ok, conflict}
use scenara.Store.Runs.{matches}
use scenara.Surveillance.Models.{
  AlertStatus, AlertRecord, AlertEvent, DebounceState, AlertCandidate, AlertWriteResult,
}
use scenara.Surveillance.Repository.{MemorySurveillanceRepository, alert_key, latest_ltb}

abbrev pub alert_status_eqb : AlertStatus → AlertStatus → Bool
alert_status_eqb AlertStatus.pending AlertStatus.pending = true
alert_status_eqb AlertStatus.confirmed AlertStatus.confirmed = true
alert_status_eqb AlertStatus.false_positive AlertStatus.false_positive = true
alert_status_eqb AlertStatus.ignored AlertStatus.ignored = true
alert_status_eqb _ _ = false

pub alert_status_eqb_iff : (a b : AlertStatus) → (alert_status_eqb a b ≡ true) ↔ (a ≡ b)
alert_status_eqb_iff a b = ground arith

instance abbrev pub alert_status_eq : Eq AlertStatus
alert_status_eq = record { test = alert_status_eqb; decides = alert_status_eqb_iff }

-- `self._events[(tenant_id, project_id)]`
abbrev pub log_of : String × String → MemorySurveillanceRepository → List AlertEvent
log_of k s = elim (lookup k s.events) [ none ↦ [] | some rows ↦ rows ]

abbrev pub scope_of : AlertRecord → String × String
scope_of a = (a.tenant_id, a.project_id)

abbrev pub debounce_key_of : AlertCandidate → Key
debounce_key_of c = (c.alert.tenant_id, c.alert.project_id, c.debounce.debounce_key)

abbrev pub idempotency_key_of : AlertRecord → Key
idempotency_key_of a = (a.tenant_id, a.project_id, a.idempotency_key)

-- The debounce state whose cooldown covers the candidate, with the alert that it counts on.
unfoldable pub cooling :
    AlertCandidate → MemorySurveillanceRepository → Option (DebounceState × AlertRecord)
cooling c s = elim (lookup (debounce_key_of c) s.debounce) [
  | none ↦ none
  | some state ↦
      if not (ltb c.alert.triggered_at state.cooldown_until)
      then none
      else elim state.last_alert_id [
        | none ↦ none
        | some alert_id ↦ elim (lookup (c.alert.tenant_id, c.alert.project_id, alert_id) s.alerts) [
          | none ↦ none
          | some existing ↦ some (state, existing)
        ]
      ]
]

abbrev pub seen_again : AlertRecord → AlertRecord → AlertRecord
seen_again existing alert = record existing {
  last_seen_at = max existing.last_seen_at alert.last_seen_at;
  match_score = alert.match_score;
  max_score = max existing.max_score alert.max_score;
  occurrence_count = existing.occurrence_count + 1;
  updated_at = alert.updated_at;
  revision = existing.revision + 1;
}

abbrev pub counted_again : DebounceState → AlertRecord → DebounceState
counted_again state alert = record state {
  last_seen_at = max state.last_seen_at alert.last_seen_at;
  max_score = max state.max_score alert.max_score;
  occurrence_count = state.occurrence_count + 1;
  revision = state.revision + 1;
}

-- The alert that was stored under the candidate's idempotency key.
unfoldable pub duplicate_of : AlertRecord → MemorySurveillanceRepository → Option AlertRecord
duplicate_of alert s = elim (lookup (idempotency_key_of alert) s.idempotency) [
  | none ↦ none
  | some duplicate_id ↦ lookup (alert.tenant_id, alert.project_id, duplicate_id) s.alerts
]

unfoldable pub record_alert :
    AlertCandidate → MemorySurveillanceRepository → MemorySurveillanceRepository × AlertWriteResult
record_alert c s = elim (cooling c s) [
  | some (state, existing) ↦
      let updated = seen_again existing c.alert in
      (
        record s {
          alerts =
              insert (c.alert.tenant_id, c.alert.project_id, updated.alert_id) updated s.alerts;
          debounce = insert (debounce_key_of c) (counted_again state c.alert) s.debounce;
        },
        record { alert = updated; event = none; emitted = false },
      )
  | none ↦ elim (duplicate_of c.alert s) [
    | some duplicate ↦ (s, record { alert = duplicate; event = none; emitted = false })
    | none ↦
        let rows = log_of (scope_of c.alert) s in
        let event = record c.event { event_cursor = length rows + 1 } in
        (
          record s {
            alerts = insert (alert_key c.alert) c.alert s.alerts;
            idempotency = insert (idempotency_key_of c.alert) c.alert.alert_id s.idempotency;
            events = insert (scope_of c.alert) (rows ++ event ∷ []) s.events;
            debounce =
                insert (debounce_key_of c)
                  (record c.debounce { last_alert_id = some c.alert.alert_id }) s.debounce;
          },
          record { alert = c.alert; event = some event; emitted = true },
        )
  ]
]

unfoldable pub get_alert :
    String → String → String → MemorySurveillanceRepository → Option AlertRecord
get_alert tenant_id project_id alert_id s = lookup (tenant_id, project_id, alert_id) s.alerts

-- The filters of a query of the alerts.
pub record AlertFilter : Type 0 where
  pub status : Option AlertStatus
  pub task_id : Option String
  pub camera_id : Option String
  pub watchlist_id : Option String
  pub portrait_identity_id : Option String
  pub since : Option Timestamp
  pub until : Option Timestamp

abbrev pub is_listed_alert : String → String → AlertFilter → AlertRecord → Bool
is_listed_alert tenant_id project_id f a =
    (a.tenant_id == tenant_id)
    && ((a.project_id == project_id)
        && (matches f.status a.status
            && (matches f.task_id a.task_id
                && (matches f.camera_id a.camera_id
                    && (matches f.watchlist_id a.watchlist_id
                        && (matches f.portrait_identity_id a.portrait_identity_id
                            && (elim f.since [ none ↦ true | some t ↦ leb t a.last_seen_at ]
                                && elim f.until [
                                  | none ↦ true
                                  | some t ↦ leb a.first_seen_at t
                                ])))))))

unfoldable pub list_alerts :
    String → String → AlertFilter → ℕ → ℕ → MemorySurveillanceRepository → List AlertRecord × ℕ
list_alerts tenant_id project_id f offset limit s =
    let rows =
      sort (λ a b. latest_ltb a.triggered_at a.alert_id b.triggered_at b.alert_id)
        (select (λ k. is_listed_alert tenant_id project_id f) s.alerts) in
    (slice offset limit rows, length rows)

unfoldable pub triage_alert :
    AlertRecord
    → AlertEvent
    → ℕ
    → MemorySurveillanceRepository
    → MemorySurveillanceRepository × Reply AlertWriteResult
triage_alert alert event expected_revision s = elim (lookup (alert_key alert) s.alerts) [
  | none ↦ (s, conflict "alert does not exist")
  | some current ↦
      if not (nat_eqb current.revision expected_revision)
      then (s, conflict "alert revision conflict")
      else if not (current.status == AlertStatus.pending)
      then (s, conflict "alert has already been triaged")
      else let stored = record alert { revision = expected_revision + 1 } in
        let rows = log_of (scope_of stored) s in
        let stored_event = record event { event_cursor = length rows + 1 } in
        (
          record s {
            alerts = insert (alert_key alert) stored s.alerts;
            events = insert (scope_of stored) (rows ++ stored_event ∷ []) s.events;
          },
          ok (record { alert = stored; event = some stored_event; emitted = true }),
        )
]

unfoldable pub events_after :
    String → String → ℕ → ℕ → MemorySurveillanceRepository → List AlertEvent
events_after tenant_id project_id cursor limit s =
    take limit (filter (λ e. ltb cursor e.event_cursor) (log_of (tenant_id, project_id) s))
