-- ===== src/Surveillance/Examples.antt =====
-- Concrete alerts on which the theorems on alerts apply.
use scenara.Prelude.{
  ◌+◌, ◌≤◌, ◌≡◌, refl, true, false, none, some, [], ◌∷◌, key_eq, pair_eq, string_eq, slice, All,
  arith,
}
use scenara.Prelude.Dict.{lookup}
use scenara.Surveillance.Models.{
  AlertModality, AlertStatus, AlertEventType, AlertRecord, AlertEvent, DebounceState,
  AlertCandidate,
}
use scenara.Surveillance.Repository.{MemorySurveillanceRepository, alert_key}
use scenara.Surveillance.Alerts.{cooling, duplicate_of, record_alert, events_after, log_of}
use scenara.Surveillance.Alerts.Log.{
  HasNumberedLogs, events_after-eq-slice, record_alert-HasNumberedLogs,
}
use scenara.Surveillance.Alerts.Once.{
  record_command, triage_command, perform_all, record_alert-once,
}
use scenara.Surveillance.Alerts.Debounce.{record_all, seen_all, record_alert-debounced}

abbrev empty : MemorySurveillanceRepository
empty = record {
  watchlists = [];
  members = [];
  tasks = [];
  alerts = [];
  events = [];
  debounce = [];
  idempotency = [];
}

abbrev gate_alert : AlertRecord
gate_alert = record {
  alert_id = "alert_1";
  tenant_id = "acme";
  project_id = "demo";
  task_id = "task_1";
  binding_id = "bind_1";
  watchlist_id = "list_1";
  member_id = "member_1";
  portrait_identity_id = "identity_1";
  source_id = "source_1";
  camera_id = "gate";
  run_id = "run_1";
  unit_id = "unit_1";
  track_id = "track_1";
  trajectory_identity_id = none;
  trajectory_segment_id = none;
  match_score = 80;
  max_score = 80;
  modality = AlertModality.face;
  threshold_policy_version = "1";
  model_bindings = [];
  snapshot_artifact_id = none;
  snapshot_retention_expires_at = none;
  status = AlertStatus.pending;
  first_seen_at = 100;
  last_seen_at = 100;
  triggered_at = 100;
  occurrence_count = 1;
  idempotency_key = "match_1";
  created_at = 100;
  updated_at = 100;
  revision = 1;
  triaged_by = none;
  triaged_at = none;
  triage_reason = "";
  triage_notes = "";
}

abbrev gate_event : AlertEvent
gate_event = record {
  event_id = "evt_1";
  event_cursor = 0;
  event_type = AlertEventType.triggered;
  occurred_at = "1970-01-01T00:01:40Z";
  tenant_id = "acme";
  project_id = "demo";
  trace_id = none;
  alert_id = "alert_1";
  task_id = "task_1";
  camera_id = "gate";
  portrait_identity_id = "identity_1";
  match_score = 80;
  modality = AlertModality.face;
  snapshot_artifact_id = none;
  deduplication_key = "match_1";
  status = AlertStatus.pending;
  created_at = 100;
}

abbrev gate_debounce : DebounceState
gate_debounce = record {
  debounce_key = "gate:identity_1";
  tenant_id = "acme";
  project_id = "demo";
  task_id = "task_1";
  binding_id = "bind_1";
  watchlist_id = "list_1";
  portrait_identity_id = "identity_1";
  first_seen_at = 100;
  last_seen_at = 100;
  last_alert_id = none;
  occurrence_count = 1;
  max_score = 80;
  modality = AlertModality.face;
  cooldown_until = 160;
  revision = 1;
}

abbrev first_match : AlertCandidate
first_match = record { alert = gate_alert; event = gate_event; debounce = gate_debounce }

-- The same person at the gate again, within the cooldown and with a higher score.
abbrev second_match : AlertCandidate
second_match = record first_match {
  alert = record gate_alert {
    alert_id = "alert_2";
    idempotency_key = "match_2";
    triggered_at = 130;
    last_seen_at = 130;
    match_score = 90;
    max_score = 90;
  };
}

-- The same match once more, after the cooldown.
abbrev late_match : AlertCandidate
late_match = record first_match { alert = record gate_alert { triggered_at = 500 } }

abbrev confirmed_alert : AlertRecord
confirmed_alert = record gate_alert { status = AlertStatus.confirmed }

abbrev alerted : MemorySurveillanceRepository
alerted = (record_alert first_match empty).0

first_emitted : (record_alert first_match empty).1.emitted ≡ true
unfolding record_alert cooling duplicate_of lookup
first_emitted = refl

record_alert-once_example :
    (record_alert late_match (
      perform_all
        (triage_command confirmed_alert gate_event 1 ∷ record_command second_match ∷ [])
        alerted)).1.emitted
    ≡ false
record_alert-once_example =
    record_alert-once first_match late_match
      (triage_command confirmed_alert gate_event 1 ∷ record_command second_match ∷ []) empty
      first_emitted refl

record_alert-debounced_example :
    (lookup (alert_key gate_alert) (record_all (second_match ∷ []) alerted).alerts
      ≡ some (seen_all gate_alert (second_match ∷ [])))
    × ((record_all (second_match ∷ []) alerted).events ≡ alerted.events)
    × ((seen_all gate_alert (second_match ∷ [])).occurrence_count ≡ 1 + 1)
    × All
        (λ (d : AlertCandidate).
          d.alert.max_score ≤ (seen_all gate_alert (second_match ∷ [])).max_score)
        (second_match ∷ [])
record_alert-debounced_example =
    record_alert-debounced first_match (second_match ∷ []) empty first_emitted
      ((refl, omega arith), tt)

empty-HasNumberedLogs : HasNumberedLogs empty
empty-HasNumberedLogs = tt

alerted-HasNumberedLogs : HasNumberedLogs alerted
alerted-HasNumberedLogs = record_alert-HasNumberedLogs first_match empty empty-HasNumberedLogs

record_alert-HasNumberedLogs_example : HasNumberedLogs (record_alert second_match alerted).0
record_alert-HasNumberedLogs_example =
    record_alert-HasNumberedLogs second_match alerted alerted-HasNumberedLogs

events_after-eq-slice_example :
    events_after "acme" "demo" 0 5 alerted ≡ slice 0 5 (log_of ("acme", "demo") alerted)
events_after-eq-slice_example =
    events_after-eq-slice "acme" "demo" 0 5 alerted alerted-HasNumberedLogs
