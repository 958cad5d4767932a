-- ===== src/Surveillance/Schedule.antt =====
-- `SurveillanceSchedule.is_active` of scenara/platform/surveillance.py. The time of day at a place
-- and the reading of "HH:MM" are those of Python's datetime and zoneinfo: parameters.
use scenara.Prelude.{
  String, ℕ, Bool, true, false, ◌&&◌, none, some, List, [], ◌∷◌, ◌==◌, string_eq, nat_eq, leb, ltb,
  find, if◌then◌else◌,
}
use scenara.Models.{Timestamp}
use scenara.Surveillance.Models.{ScheduleWindow, ScheduleException, SurveillanceSchedule}

-- A moment on the wall clock of a time zone; `clock` is the time since midnight.
pub record LocalTime : Type 0 where
  pub date : String
  pub isoweekday : ℕ
  pub clock : ℕ

pub record Calendar : Type 0 where
  -- `datetime.fromtimestamp(moment, UTC).astimezone(zone)`
  pub local : String → Timestamp → LocalTime
  -- `clock_time.fromisoformat`
  pub clock_of : String → ℕ
  -- `clock_time.max`
  pub clock_max : ℕ

module _ (c : Calendar) where
  unfoldable pub covers : LocalTime → ScheduleWindow → Bool
  covers now w =
      (w.weekday == now.isoweekday)
      && (leb (c.clock_of w.start) now.clock
          && ltb now.clock (if w.end == "24:00" then c.clock_max else c.clock_of w.end))

  -- The loop over the weekly windows.
  unfoldable pub any_covers : LocalTime → List ScheduleWindow → Bool
  unfolding covers
  any_covers now [] = false
  any_covers now (w ∷ ws) = if covers now w then true else any_covers now ws

  unfoldable pub is_active : SurveillanceSchedule → Timestamp → Bool
  unfolding any_covers
  is_active schedule moment =
      let now = c.local schedule.timezone moment in
      elim (find (λ (x : ScheduleException). x.date == now.date) schedule.exceptions) [
        | some exception ↦ exception.enabled
        | none ↦ elim schedule.weekly [ [] ↦ true | w ∷ ws ↦ any_covers now (w ∷ ws) ]
      ]
