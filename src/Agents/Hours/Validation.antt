-- ===== src/Agents/Hours/Validation.antt =====
-- The commands of app/tools/schedule_agent_tools.py: what they do to the table, and the early check.
use sieshka.Prelude.{
  ℕ, ◌<◌, ◌≡◌, ◌≢◌, refl, sym, true, false, String, Option, none, some, List, arith, ltb,
  Option-cases, inl, inr,
}
use sieshka.Prelude.Table.{delete}
use sieshka.Schedule.{SchedulePeriod, ScheduleWindow, permanents, is_period, first_of, load_windows}
use sieshka.Agents.{Json, Texts, is_done}
use sieshka.Agents.Hours.{
  HoursScope, HoursCommand, set_hours, reset_to_default, today_only, permanent, in_slot, upsert,
  date_of, required_command_shape, times_of, allowed, validate_apply_schedule_command,
  apply_set_hours, apply_reset, run_command, is_today, apply_schedule_command,
}
use sieshka.Agents.Hours.Slots.{
  load_windows_slots, first_of-permanents, delete_apart, deleted_first,
}
use sieshka.Agents.Hours.ReadBack.{
  TodaySet, PermanentSet, upsert-TodaySet, upsert-PermanentSet, same_slots, apart_period, apart_day,
  apart_permanent,
}

abbrev pub HoursSet :
    HoursScope
    → SchedulePeriod
    → (today start finish : ℕ) → (rows after : List ScheduleWindow) → Type 0
HoursSet today_only p today start finish rows after = TodaySet p today start finish rows after
HoursSet permanent p today start finish rows after = PermanentSet p start finish rows after

-- After a reset the permanent window of the period is in effect today, and every other period and every
-- other day is as it was.
pub record TodayReset (p : SchedulePeriod) (today : ℕ) (rows after : List ScheduleWindow)
    : Type 0 where
  pub in_effect : load_windows today after p ≡ first_of p (permanents rows)
  pub other_periods :
      (day : ℕ) (q : SchedulePeriod)
      → is_period p q ≡ false
      → load_windows day after q ≡ load_windows day rows q
  pub other_days :
      (day : ℕ) (q : SchedulePeriod)
      → day ≢ today
      → load_windows day after q ≡ load_windows day rows q

upsert-HoursSet :
    (scope : HoursScope) (p : SchedulePeriod) (today start finish : ℕ) (rows : List ScheduleWindow)
    → HoursSet scope p today start finish rows (upsert p (date_of today scope) start finish rows)
upsert-HoursSet today_only p today start finish rows = upsert-TodaySet p start finish rows today
upsert-HoursSet permanent p today start finish rows = upsert-PermanentSet p start finish rows

delete-TodayReset :
    (p : SchedulePeriod) (today : ℕ) (rows : List ScheduleWindow)
    → TodayReset p today rows (delete (in_slot p (some today)) rows)
delete-TodayReset p today rows = record {
  in_effect =
      rw
        (
          load_windows_slots today (delete (in_slot p (some today)) rows) p,
          deleted_first p (some today) rows,
          delete_apart p (some today) (in_slot p none) (apart_permanent p p today) rows,
        )
        (sym (first_of-permanents p rows));
  other_periods = λ day q h.
      same_slots p 0 0 rows _ day q
        (delete_apart p (some today) (in_slot q (some day))
          (apart_period p q (some today) (some day) h) rows)
        (delete_apart p (some today) (in_slot q none) (apart_period p q (some today) none h) rows);
  other_days = λ day q h.
      same_slots p 0 0 rows _ day q
        (delete_apart p (some today) (in_slot q (some day)) (apart_day p q today day h) rows)
        (delete_apart p (some today) (in_slot q none) (apart_permanent p q today) rows);
}

in_order : (a b : ℕ) → a < b → ltb a b ≡ true
in_order a b h = ground arith

module _ {F : Type 0} (t : Texts) (fromisoformat : String → Option ℕ) (today : ℕ) (command : Json F)
    (rows : List ScheduleWindow) where
  run_set :
      (c : HoursCommand F) (start finish : ℕ)
      → c.action ≡ set_hours
      → times_of t fromisoformat c ≡ some (start, finish)
      → ltb start finish ≡ true
      → (run_command t fromisoformat today c rows).1
        ≡ upsert c.period (date_of today c.scope) start finish rows
  unfolding run_command apply_set_hours
  run_set c start finish sets times ordered = ground arith

  -- A command that sets the hours of a period, with two times in order, is read back by
  -- `_load_windows`: with the scope today they are in effect today, and all other days and periods are as
  -- they were; with the scope permanent they are in effect on every day without an override.
  pub set_hours_read_back :
      (c : HoursCommand F) (start finish : ℕ)
      → required_command_shape command ≡ some c
      → c.action ≡ set_hours
      → times_of t fromisoformat c ≡ some (start, finish)
      → start < finish
      → HoursSet c.scope c.period today start finish rows
          (apply_schedule_command t fromisoformat today command rows).1
  unfolding apply_schedule_command apply_set_hours
  set_hours_read_back c start finish parsed sets times ordered =
      rw
        (
          apply_schedule_command,
          parsed,
          run_set c start finish sets times (in_order start finish ordered),
        )
        (upsert-HoursSet c.scope c.period today start finish rows)

  -- A command that resets a period today brings its permanent window back, with all other days and periods
  -- as they were; it does not raise, whether there was an override or not.
  pub reset_read_back :
      (c : HoursCommand F)
      → required_command_shape command ≡ some c
      → c.action ≡ reset_to_default
      → c.scope ≡ today_only
      → (is_done (apply_schedule_command t fromisoformat today command rows).0 ≡ true)
        × TodayReset c.period today rows
            (apply_schedule_command t fromisoformat today command rows).1
  unfolding apply_schedule_command apply_reset
  reset_read_back c parsed resets scoped =
      rw (apply_schedule_command, parsed, resets, apply_reset, scoped)
        (refl, delete-TodayReset c.period today rows)

  times_agree :
      (c : HoursCommand F)
      → is_done (apply_set_hours t fromisoformat today c rows).0
        ≡ elim (times_of t fromisoformat c) [
          | none ↦ false
          | some (start, finish) ↦ ltb start finish
        ]
  unfolding apply_set_hours
  times_agree c = elim (Option-cases (times_of t fromisoformat c)) [
    | inl nothing ↦ rw (apply_set_hours, nothing) refl
    | inr (times, found) ↦ rw (apply_set_hours, found) ground arith
  ]

  reset_agrees :
      (c : HoursCommand F) → is_done (apply_reset t fromisoformat today c rows).0 ≡ is_today c.scope
  unfolding apply_reset
  reset_agrees c = ground arith

  command_agrees :
      (c : HoursCommand F)
      → is_done (run_command t fromisoformat today c rows).0 ≡ allowed t fromisoformat c
  unfolding run_command allowed
  command_agrees c = ground (arith, times_agree c, reset_agrees c)

  -- For every command and every table: `apply_schedule_command` writes exactly if
  -- `validate_apply_schedule_command` returns 1, and otherwise it raises.
  pub validate_apply_schedule_command_agrees :
      is_done (apply_schedule_command t fromisoformat today command rows).0
      ≡ validate_apply_schedule_command t fromisoformat command
  unfolding apply_schedule_command validate_apply_schedule_command
  validate_apply_schedule_command_agrees = elim (Option-cases (required_command_shape command)) [
    | inl nothing ↦ rw (apply_schedule_command, validate_apply_schedule_command, nothing) refl
    | inr (c, parsed) ↦
        rw (apply_schedule_command, validate_apply_schedule_command, parsed) (command_agrees c)
  ]
