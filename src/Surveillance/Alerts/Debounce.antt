-- ===== src/Surveillance/Alerts/Debounce.antt =====
-- The debounce window of `record_alert` of `MemorySurveillanceRepository`.
use scenara.Prelude.{
  ℕ, ◌+◌, ◌<◌, ◌≤◌, ◌≡◌, refl, sym, subst, inl, inr, true, false, none, some, List, [], ◌∷◌, Key,
  key_eq, length, Option-cases, arith, max, All, ◌∙◌,
}
use native.Mathlib.Nat.{le_trans}
use scenara.Prelude.Dict.{lookup, lookup-insert_self}
use scenara.Surveillance.Models.{AlertRecord, DebounceState, AlertCandidate}
use scenara.Surveillance.Repository.{MemorySurveillanceRepository, alert_key}
use scenara.Surveillance.Alerts.{
  debounce_key_of, seen_again, counted_again, cooling, duplicate_of, record_alert,
}

-- The debounce state under `k` counts on the alert `a`, until `until`.
pub record IsCooling (k : Key) (until : ℕ) (a : AlertRecord) (s : MemorySurveillanceRepository)
    : Type 0 where
  pub state : DebounceState
  pub found : lookup k s.debounce ≡ some state
  pub lasts : state.cooldown_until ≡ until
  pub counts : state.last_alert_id ≡ some a.alert_id
  pub stored : lookup (k.0, k.1, a.alert_id) s.alerts ≡ some a

-- A candidate that falls under the debounce key before the cooldown ends.
abbrev pub IsRepeat : Key → ℕ → AlertCandidate → Type 0
IsRepeat k until d = (debounce_key_of d ≡ k) × (d.alert.triggered_at < until)

cooling-IsCooling :
    (until : ℕ) (a : AlertRecord) (d : AlertCandidate) (s : MemorySurveillanceRepository)
    (h : IsCooling (debounce_key_of d) until a s)
    → d.alert.triggered_at < until
    → cooling d s ≡ some (h.state, a)
unfolding cooling
cooling-IsCooling until a d s h early = ground (arith, h.found, h.lasts, h.counts, h.stored)

-- A repeat counts on the alert, emits nothing, and leaves the cooldown as it was.
repeat-IsCooling :
    (until : ℕ) (a : AlertRecord) (d : AlertCandidate) (s : MemorySurveillanceRepository)
    → IsCooling (debounce_key_of d) until a s
    → d.alert.triggered_at < until
    → IsCooling (debounce_key_of d) until (seen_again a d.alert) (record_alert d s).0
      × ((record_alert d s).1
          ≡ record { alert = seen_again a d.alert; event = none; emitted = false })
      × ((record_alert d s).0.events ≡ s.events)
repeat-IsCooling until a d s h early =
    let cool = cooling-IsCooling until a d s h early in
    unfold record_alert in
    rw (cool, record_alert)
      (
        record {
          state = counted_again h.state d.alert;
          found = lookup-insert_self (debounce_key_of d) (counted_again h.state d.alert) s.debounce;
          lasts = h.lasts;
          counts = h.counts;
          stored =
              lookup-insert_self (d.alert.tenant_id, d.alert.project_id, a.alert_id)
                (seen_again a d.alert) s.alerts;
        },
        refl,
        refl,
      )

record_alert-emitted :
    (c : AlertCandidate) (s : MemorySurveillanceRepository)
    → (record_alert c s).1.emitted ≡ true
    → IsCooling (debounce_key_of c) c.debounce.cooldown_until c.alert (record_alert c s).0
record_alert-emitted c s h = elim (Option-cases (cooling c s)) [
  | inr (found, cool) ↦ absurd (unfold record_alert in ground arith)
  | inl free ↦ elim (Option-cases (duplicate_of c.alert s)) [
    | inr (old, known) ↦ absurd (unfold record_alert in ground arith)
    | inl new ↦
        unfold record_alert in
        rw (free, record_alert)
          (rw new (record {
            state = record c.debounce { last_alert_id = some c.alert.alert_id };
            found =
                lookup-insert_self (debounce_key_of c)
                  (record c.debounce { last_alert_id = some c.alert.alert_id }) s.debounce;
            lasts = refl;
            counts = refl;
            stored = lookup-insert_self (alert_key c.alert) c.alert s.alerts;
          }))
  ]
]

abbrev pub record_all :
    List AlertCandidate → MemorySurveillanceRepository → MemorySurveillanceRepository
record_all [] s = s
record_all (d ∷ ds) s = record_all ds (record_alert d s).0

-- An alert after the repeats that count on it.
abbrev pub seen_all : AlertRecord → List AlertCandidate → AlertRecord
seen_all a [] = a
seen_all a (d ∷ ds) = seen_all (seen_again a d.alert) ds

repeats-IsCooling :
    (k : Key) (until : ℕ) (a : AlertRecord) (ds : List AlertCandidate)
    (s : MemorySurveillanceRepository)
    → IsCooling k until a s
    → All (IsRepeat k until) ds
    → IsCooling k until (seen_all a ds) (record_all ds s) × ((record_all ds s).events ≡ s.events)
repeats-IsCooling k until a [] s h repeats = (h, refl)
repeats-IsCooling k until a (d ∷ ds) s h ((same, early), repeats) =
    let (next, _, quiet) =
      repeat-IsCooling until a d s (subst (λ j. IsCooling j until a s) (sym same) h) early in
    let (last, still) =
      repeats-IsCooling k until (seen_again a d.alert) ds (record_alert d s).0
        (subst (λ j. IsCooling j until (seen_again a d.alert) (record_alert d s).0) same next)
        repeats in
    (last, still ∙ quiet)

alert_id-seen_all :
    (a : AlertRecord) (ds : List AlertCandidate) → (seen_all a ds).alert_id ≡ a.alert_id
alert_id-seen_all a [] = refl
alert_id-seen_all a (d ∷ ds) = alert_id-seen_all (seen_again a d.alert) ds

occurrence_count-seen_all :
    (a : AlertRecord) (ds : List AlertCandidate)
    → (seen_all a ds).occurrence_count ≡ a.occurrence_count + length ds
occurrence_count-seen_all a [] = omega arith
occurrence_count-seen_all a (d ∷ ds) =
    omega (arith, occurrence_count-seen_all (seen_again a d.alert) ds)

max_score-seen_all :
    (a : AlertRecord) (ds : List AlertCandidate)
    → (a.max_score ≤ (seen_all a ds).max_score)
      × All (λ (d : AlertCandidate). d.alert.max_score ≤ (seen_all a ds).max_score) ds
max_score-seen_all a [] = (omega arith, tt)
max_score-seen_all a (d ∷ ds) =
    let (grew, rest) = max_score-seen_all (seen_again a d.alert) ds in
    let le_left : a.max_score ≤ max a.max_score d.alert.max_score = ground arith in
    let le_right : d.alert.max_score ≤ max a.max_score d.alert.max_score = ground arith in
    (le_trans le_left grew, (le_trans le_right grew, rest))

-- After an alert has been emitted, matches of the same debounce key that are recorded directly
-- after it and triggered before the end of its cooldown emit no event; they are all counted on
-- that one alert, whose count grows by their number and whose highest score is at least each of
-- theirs.
pub record_alert-debounced :
    (c : AlertCandidate) (ds : List AlertCandidate) (s : MemorySurveillanceRepository)
    → (record_alert c s).1.emitted ≡ true
    → All (IsRepeat (debounce_key_of c) c.debounce.cooldown_until) ds
    → (lookup (alert_key c.alert) (record_all ds (record_alert c s).0).alerts
        ≡ some (seen_all c.alert ds))
      × ((record_all ds (record_alert c s).0).events ≡ (record_alert c s).0.events)
      × ((seen_all c.alert ds).occurrence_count ≡ c.alert.occurrence_count + length ds)
      × All (λ (d : AlertCandidate). d.alert.max_score ≤ (seen_all c.alert ds).max_score) ds
record_alert-debounced c ds s emitted repeats =
    let (last, quiet) =
      repeats-IsCooling (debounce_key_of c) c.debounce.cooldown_until c.alert ds
        (record_alert c s).0 (record_alert-emitted c s emitted) repeats in
    (
      subst
          (λ i.
            lookup (c.alert.tenant_id, c.alert.project_id, i)
              (record_all ds (record_alert c s).0).alerts
            ≡ some (seen_all c.alert ds))
          (alert_id-seen_all c.alert ds) last.stored,
      quiet,
      occurrence_count-seen_all c.alert ds,
      (max_score-seen_all c.alert ds).1,
    )
