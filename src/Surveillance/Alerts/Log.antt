-- ===== src/Surveillance/Alerts/Log.antt =====
-- The event log of a project's alerts: `record_alert`, `triage_alert` and `events_after` of
-- `MemorySurveillanceRepository`.
use scenara.Prelude.{
  String, ℕ, suc, ◌+◌, ◌-◌, ◌≡◌, sym, ap, ◌∙◌, inl, inr, not, List, [], ◌∷◌, ◌++◌, ◌==◌, key_eq,
  pair_eq, string_eq, nat_eqb, ltb, length, filter, drop, drop-nil, take, slice, Option-cases,
  Bool-cases, arith,
}
use native.Mathlib.Nat.{sub-zero}
use scenara.Prelude.Dict.{lookup, insert, AllEntries, AllEntries-lookup, AllEntries-insert}
use scenara.Surveillance.Models.{AlertStatus, AlertRecord, AlertEvent, AlertCandidate}
use scenara.Surveillance.Repository.{MemorySurveillanceRepository, alert_key}
use scenara.Surveillance.Alerts.{
  alert_status_eq, log_of, scope_of, cooling, duplicate_of, record_alert, triage_alert,
  events_after,
}

-- The events of a log carry the cursors after `n`.
abbrev pub IsNumbered : ℕ → List AlertEvent → Type 0
IsNumbered n [] = Unit
IsNumbered n (e ∷ es) = (e.event_cursor ≡ suc n) × IsNumbered (suc n) es

abbrev pub HasNumberedLogs : MemorySurveillanceRepository → Type 0
HasNumberedLogs s = AllEntries (λ k rows. IsNumbered 0 rows) s.events

IsNumbered-append :
    (m : ℕ) (rows : List AlertEvent) (e : AlertEvent)
    → IsNumbered m rows
    → e.event_cursor ≡ suc (m + length rows)
    → IsNumbered m (rows ++ e ∷ [])
IsNumbered-append m [] e h n = (omega (arith, n), tt)
IsNumbered-append m (x ∷ rows) e h n =
    (h.0, IsNumbered-append (suc m) rows e h.1 (omega (arith, n)))

filter-IsNumbered :
    (m n : ℕ) (rows : List AlertEvent)
    → IsNumbered m rows
    → filter (λ e. ltb n e.event_cursor) rows ≡ drop (n - m) rows
filter-IsNumbered m n [] h = sym (drop-nil (n - m))
filter-IsNumbered m n (e ∷ es) h = elim (Bool-cases (ltb n e.event_cursor)) [
  | inl late ↦
      let start : n - m ≡ 0 = ground (arith, h.0) in
      let stay : n - suc m ≡ 0 = omega (arith, start) in
      rw (late, start) (ap (◌∷◌ e) (filter-IsNumbered (suc m) n es h.1 ∙ rw stay))
  | inr early ↦
      let step : n - m ≡ suc (n - suc m) = ground (arith, h.0) in
      rw (early, step) (filter-IsNumbered (suc m) n es h.1)
]

log_of-IsNumbered :
    (k : String × String) (s : MemorySurveillanceRepository)
    → HasNumberedLogs s
    → IsNumbered 0 (log_of k s)
log_of-IsNumbered k s logs = elim (Option-cases (lookup k s.events)) [
  | inl missing ↦ rw (missing, log_of) tt
  | inr (rows, found) ↦
      rw (found, log_of)
        (AllEntries-lookup (λ k rows. IsNumbered 0 rows) k rows s.events logs found)
]

-- Where the logs are numbered, a reader at a cursor is given the next `limit` events of the log.
pub events_after-eq-slice :
    (t p : String) (cursor limit : ℕ) (s : MemorySurveillanceRepository)
    → HasNumberedLogs s
    → events_after t p cursor limit s ≡ slice cursor limit (log_of (t, p) s)
unfolding events_after
events_after-eq-slice t p cursor limit s logs =
    ap (take limit)
      (filter-IsNumbered 0 cursor (log_of (t, p) s) (log_of-IsNumbered (t, p) s logs) ∙ rw sub-zero)

append_log :
    (k : String × String) (event : AlertEvent) (s : MemorySurveillanceRepository)
    → HasNumberedLogs s
    → AllEntries
        (λ k rows. IsNumbered 0 rows)
        (insert k
          (log_of k s ++ (record event { event_cursor = length (log_of k s) + 1 }) ∷ [])
          s.events)
append_log k event s logs =
    AllEntries-insert (λ k rows. IsNumbered 0 rows) k
      (log_of k s ++ (record event { event_cursor = length (log_of k s) + 1 }) ∷ []) s.events logs
      (IsNumbered-append 0 (log_of k s) (record event { event_cursor = length (log_of k s) + 1 })
        (log_of-IsNumbered k s logs) (omega arith))

-- `record_alert` keeps every log numbered from 1.
pub record_alert-HasNumberedLogs :
    (c : AlertCandidate) (s : MemorySurveillanceRepository)
    → HasNumberedLogs s
    → HasNumberedLogs (record_alert c s).0
record_alert-HasNumberedLogs c s logs = elim (Option-cases (cooling c s)) [
  | inr (found, cool) ↦ unfold record_alert in rw (cool, record_alert) logs
  | inl free ↦ elim (Option-cases (duplicate_of c.alert s)) [
    | inr (old, known) ↦ unfold record_alert in rw (free, record_alert) (rw known logs)
    | inl new ↦
        unfold record_alert in
        rw (free, record_alert) (rw new (append_log (scope_of c.alert) c.event s logs))
  ]
]

-- `triage_alert` keeps every log numbered from 1.
pub triage_alert-HasNumberedLogs :
    (a : AlertRecord) (event : AlertEvent) (n : ℕ) (s : MemorySurveillanceRepository)
    → HasNumberedLogs s
    → HasNumberedLogs (triage_alert a event n s).0
triage_alert-HasNumberedLogs a event n s logs =
    elim (Option-cases (lookup (alert_key a) s.alerts)) [
      | inl missing ↦ unfold triage_alert in rw (missing, triage_alert) logs
      | inr (current, found) ↦ elim (Bool-cases (not (nat_eqb current.revision n))) [
        | inl stale ↦ unfold triage_alert in rw (found, triage_alert) (rw stale logs)
        | inr fresh ↦ elim (Bool-cases (not (current.status == AlertStatus.pending))) [
          | inl done ↦ unfold triage_alert in rw (found, triage_alert) (rw fresh (rw done logs))
          | inr pending ↦
              unfold triage_alert in
              rw (found, triage_alert)
                (rw fresh (rw pending (append_log (scope_of a) event s logs)))
        ]
      ]
    ]
