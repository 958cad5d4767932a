-- ===== src/Surveillance/Alerts/Once.antt =====
-- The idempotency key of `record_alert` of `MemorySurveillanceRepository`, over sequences of alerts
-- recorded and triaged.
use scenara.Prelude.{
  String, ℕ, ◌≡◌, sym, subst, ◌+◌, inl, inr, true, false, not, some, List, [], ◌∷◌, Key, ◌==◌,
  key_eq, key_eqb_iff, nat_eqb, Option-cases, Bool-cases, arith,
}
use scenara.Prelude.Dict.{lookup, has_key, lookup-insert, has_key-insert, lookup_of_has_key}
use scenara.Surveillance.Models.{AlertStatus, AlertRecord, AlertEvent, AlertCandidate}
use scenara.Surveillance.Repository.{MemorySurveillanceRepository, alert_key}
use scenara.Surveillance.Alerts.{
  alert_status_eq, idempotency_key_of, seen_again, cooling, duplicate_of, record_alert,
  triage_alert,
}

-- The key stands for an alert that is stored.
abbrev pub IsKnown : Key → MemorySurveillanceRepository → Type 0
IsKnown (t, p, i) s =
    (id : String) × (lookup (t, p, i) s.idempotency ≡ some id)
    × (has_key (t, p, id) s.alerts ≡ true)

IsKnown-emitted :
    (c : AlertCandidate) (s : MemorySurveillanceRepository)
    → IsKnown (idempotency_key_of c.alert) s
    → (record_alert c s).1.emitted ≡ false
unfolding record_alert duplicate_of
IsKnown-emitted c s (id, found, there) =
    let (old, here) =
      lookup_of_has_key (c.alert.tenant_id, c.alert.project_id, id) s.alerts there in
    ground arith

record_alert-emitted-IsKnown :
    (c : AlertCandidate) (s : MemorySurveillanceRepository)
    → (record_alert c s).1.emitted ≡ true
    → IsKnown (idempotency_key_of c.alert) (record_alert c s).0
record_alert-emitted-IsKnown c s h = elim (Option-cases (cooling c s)) [
  | inr (found, cool) ↦ absurd (unfold record_alert in ground arith)
  | inl free ↦ elim (Option-cases (duplicate_of c.alert s)) [
    | inr (old, known) ↦ absurd (unfold record_alert in ground arith)
    | inl new ↦
        unfold record_alert in
        (
          c.alert.alert_id,
          ground (
            arith,
            lookup-insert (idempotency_key_of c.alert) (idempotency_key_of c.alert) c.alert.alert_id
                s.idempotency,
            key_eqb_iff (idempotency_key_of c.alert) (idempotency_key_of c.alert),
          ),
          ground (
            arith,
            has_key-insert (alert_key c.alert) (alert_key c.alert) c.alert s.alerts,
            key_eqb_iff (alert_key c.alert) (alert_key c.alert),
          ),
        )
  ]
]

record_alert-IsKnown :
    (c : AlertCandidate) (k : Key) (s : MemorySurveillanceRepository)
    → IsKnown k s
    → IsKnown k (record_alert c s).0
record_alert-IsKnown c (t, p, i) s (id, found, there) = elim (Option-cases (cooling c s)) [
  | inr ((state, existing), cool) ↦
      unfold record_alert in
      rw (cool, record_alert)
        (
          id,
          found,
          ground (
            arith,
            has_key-insert (t, p, id) (c.alert.tenant_id, c.alert.project_id, existing.alert_id)
                (seen_again existing c.alert) s.alerts,
          ),
        )
  | inl free ↦ elim (Option-cases (duplicate_of c.alert s)) [
    | inr (old, known) ↦
        unfold record_alert in rw (free, record_alert) (rw known (id, found, there))
    | inl new ↦ elim (Bool-cases (idempotency_key_of c.alert == (t, p, i))) [
      | inl same ↦
          unfold record_alert in
          rw (free, record_alert)
            (rw new (
              c.alert.alert_id,
              ground (
                arith,
                lookup-insert (t, p, i) (idempotency_key_of c.alert) c.alert.alert_id s.idempotency,
              ),
              ground (
                arith,
                has_key-insert (t, p, c.alert.alert_id) (alert_key c.alert) c.alert s.alerts,
                key_eqb_iff (idempotency_key_of c.alert) (t, p, i),
                key_eqb_iff (alert_key c.alert) (t, p, c.alert.alert_id),
              ),
            ))
      | inr other ↦
          unfold record_alert in
          rw (free, record_alert)
            (rw new (
              id,
              ground (
                arith,
                lookup-insert (t, p, i) (idempotency_key_of c.alert) c.alert.alert_id s.idempotency,
              ),
              ground (arith, has_key-insert (t, p, id) (alert_key c.alert) c.alert s.alerts),
            ))
    ]
  ]
]

triage_alert-IsKnown :
    (a : AlertRecord) (event : AlertEvent) (n : ℕ) (k : Key) (s : MemorySurveillanceRepository)
    → IsKnown k s
    → IsKnown k (triage_alert a event n s).0
triage_alert-IsKnown a event n (t, p, i) s (id, found, there) =
    elim (Option-cases (lookup (alert_key a) s.alerts)) [
      | inl missing ↦ unfold triage_alert in rw (missing, triage_alert) (id, found, there)
      | inr (current, here) ↦ elim (Bool-cases (not (nat_eqb current.revision n))) [
        | inl stale ↦ unfold triage_alert in rw (here, triage_alert) (rw stale (id, found, there))
        | inr fresh ↦ elim (Bool-cases (not (current.status == AlertStatus.pending))) [
          | inl done ↦
              unfold triage_alert in rw (here, triage_alert) (rw fresh (rw done (id, found, there)))
          | inr pending ↦
              unfold triage_alert in
              rw (here, triage_alert)
                (rw fresh (
                  rw pending (
                    id,
                    found,
                    ground (
                      arith,
                      has_key-insert (t, p, id) (alert_key a) (record a { revision = n + 1 })
                          s.alerts,
                    ),
                  )))
        ]
      ]
    ]

-- What is done to the alerts of a repository.
pub data Command : Type 0 where
  record_command : AlertCandidate → Command
  triage_command : AlertRecord → AlertEvent → ℕ → Command

abbrev pub perform : Command → MemorySurveillanceRepository → MemorySurveillanceRepository
perform (record_command c) s = (record_alert c s).0
perform (triage_command a event n) s = (triage_alert a event n s).0

unfoldable pub perform_all :
    List Command → MemorySurveillanceRepository → MemorySurveillanceRepository
perform_all [] s = s
perform_all (command ∷ later) s = perform_all later (perform command s)

perform_all-IsKnown :
    (later : List Command) (k : Key) (s : MemorySurveillanceRepository)
    → IsKnown k s
    → IsKnown k (perform_all later s)
unfolding perform_all
perform_all-IsKnown [] k s known = known
perform_all-IsKnown (record_command c ∷ later) k s known =
    perform_all-IsKnown later k (record_alert c s).0 (record_alert-IsKnown c k s known)
perform_all-IsKnown (triage_command a event n ∷ later) k s known =
    perform_all-IsKnown later k (triage_alert a event n s).0
      (triage_alert-IsKnown a event n k s known)

-- Once a candidate has been emitted as an alert, no candidate with its idempotency key is emitted
-- again in that project, after any alerts recorded and triaged in between.
pub record_alert-once :
    (c d : AlertCandidate) (later : List Command) (s : MemorySurveillanceRepository)
    → (record_alert c s).1.emitted ≡ true
    → idempotency_key_of d.alert ≡ idempotency_key_of c.alert
    → (record_alert d (perform_all later (record_alert c s).0)).1.emitted ≡ false
record_alert-once c d later s emitted same =
    IsKnown-emitted d (perform_all later (record_alert c s).0) (
      subst (λ k. IsKnown k (perform_all later (record_alert c s).0)) (sym same)
        (perform_all-IsKnown later (idempotency_key_of c.alert) (record_alert c s).0
          (record_alert-emitted-IsKnown c s emitted)))
