-- ===== src/Agents/Hours.antt =====
-- app/tools/schedule_agent_tools.py: the commands that set the opening hours. A time of day is a number
-- of microseconds, and a date is a number.
pub mod Slots
pub mod ReadBack
pub mod Validation
use sieshka.Prelude.{
  ℕ, suc, Bool, true, false, not, ◌&&◌, ◌||◌, String, Option, none, some, List, [], ◌∷◌, ◌++◌, any,
  length, ltb, ◌==◌, string_eq, nat_eq, if◌then◌else◌,
}
use sieshka.Prelude.Table.{select, update, delete}
use sieshka.Schedule.{
  SchedulePeriod, morning, evening, ScheduleWindow, is_period, is_on, is_permanent,
}
use sieshka.Agents.{
  Json, string, Fields, Texts, malformed, missing_field, out_of_range, not_allowed, Outcome, done,
  value_error, get, as_object,
}

pub data HoursAction : Type 0 where
  set_hours reset_to_default : HoursAction

pub data HoursScope : Type 0 where
  today_only permanent : HoursScope

pub record HoursCommand (F : Type 0) : Type 0 where
  pub period : SchedulePeriod
  pub action : HoursAction
  pub scope : HoursScope
  pub start_time : Json F
  pub end_time : Json F

pub record Applied : Type 0 where
  pub period : SchedulePeriod
  pub action : HoursAction
  pub scope : HoursScope
  pub deleted : ℕ

module _ {F : Type 0} where
  abbrev pub period_of : Json F → Option SchedulePeriod
  period_of (string s) =
      if s == "morning" then some morning else if s == "evening" then some evening else none
  period_of _ = none

  abbrev pub action_of : Json F → Option HoursAction
  action_of (string s) =
      if s == "set_hours"
      then some set_hours
      else if s == "reset_to_default"
      then some reset_to_default
      else none
  action_of _ = none

  abbrev pub scope_of : Json F → Option HoursScope
  scope_of (string s) =
      if s == "today" then some today_only else if s == "permanent" then some permanent else none
  scope_of _ = none

  with_parts :
      Fields F
      → Option SchedulePeriod
      → Option HoursAction
      → Option HoursScope
      → Option (HoursCommand F)
  with_parts fields (some period) (some action) (some scope) = some (record {
    period = period;
    action = action;
    scope = scope;
    start_time = get "start_time" fields;
    end_time = get "end_time" fields;
  })
  with_parts fields _ _ _ = none

  unfoldable pub required_command_shape : Json F → Option (HoursCommand F)
  unfolding with_parts
  required_command_shape command = elim (as_object command) [
    | none ↦ none
    | some fields ↦
        with_parts fields (period_of (get "period" fields)) (action_of (get "action" fields))
          (scope_of (get "scope" fields))
  ]

abbrev both_times : Option ℕ → Option ℕ → Option (ℕ × ℕ)
both_times (some start) (some end_) = some (start, end_)
both_times _ _ = none

abbrev pub is_today : HoursScope → Bool
is_today today_only = true
is_today permanent = false

abbrev pub date_of : ℕ → HoursScope → Option ℕ
date_of today today_only = some today
date_of today permanent = none

-- `fromisoformat` is none where it raises.
module _ {F : Type 0} (t : Texts) (fromisoformat : String → Option ℕ) where
  unfoldable pub parse_time : Json F → Option ℕ
  parse_time (string s) = if t.strip s == "" then none else fromisoformat (t.strip s)
  parse_time _ = none

  -- The two times of a command, if both are times.
  unfoldable pub times_of : HoursCommand F → Option (ℕ × ℕ)
  unfolding parse_time
  times_of c = both_times (parse_time c.start_time) (parse_time c.end_time)

  collectable : HoursCommand F → Bool
  collectable c = elim c.action [
    | set_hours ↦ elim (times_of c) [ none ↦ false | some times ↦ true ]
    | reset_to_default ↦ true
  ]

  -- The collect phase: the sentinel 1 or 0.
  unfoldable pub validate_schedule_command : (loads : String → Option (Json F)) → String → Bool
  unfolding collectable
  validate_schedule_command loads llm_output =
      if llm_output == "" || (t.strip llm_output == "") then false else elim (loads llm_output) [
        | none ↦ false
        | some json ↦ elim (required_command_shape json) [ none ↦ false | some c ↦ collectable c ]
      ]

  unfoldable pub allowed : HoursCommand F → Bool
  allowed c = elim c.action [
    | set_hours ↦ elim (times_of c) [ none ↦ false | some (start, finish) ↦ ltb start finish ]
    | reset_to_default ↦ is_today c.scope
  ]

  -- The early check of the apply phase.
  unfoldable pub validate_apply_schedule_command : Json F → Bool
  unfolding allowed
  validate_apply_schedule_command command = elim (required_command_shape command) [
    | none ↦ false
    | some c ↦ allowed c
  ]

-- The rows of a period that hold for a date, or for no date.
abbrev pub in_slot : SchedulePeriod → Option ℕ → ScheduleWindow → Bool
in_slot period none w = is_period period w.period && is_permanent w.effective_date
in_slot period (some date) w = is_period period w.period && is_on date w.effective_date

abbrev pub window : SchedulePeriod → Option ℕ → ℕ → ℕ → ScheduleWindow
window period date start finish = record {
  period = period;
  start_time = start;
  end_time = finish;
  is_active = true;
  effective_date = date;
}

abbrev pub with_hours : ℕ → ℕ → ScheduleWindow → ScheduleWindow
with_hours start finish w = record w { start_time = start; end_time = finish; is_active = true }

-- `INSERT … ON CONFLICT (…) DO UPDATE`.
unfoldable pub upsert :
    SchedulePeriod → Option ℕ → ℕ → ℕ → List ScheduleWindow → List ScheduleWindow
upsert period date start finish rows =
    if any (in_slot period date) rows
    then update (in_slot period date) (with_hours start finish) rows
    else rows ++ window period date start finish ∷ []

-- `today` is the date in MENU_TIMEZONE.
module _ {F : Type 0} (t : Texts) (fromisoformat : String → Option ℕ) (today : ℕ) where
  unfoldable pub apply_set_hours :
      HoursCommand F → List ScheduleWindow → Outcome Applied × List ScheduleWindow
  apply_set_hours c rows = elim (times_of t fromisoformat c) [
    | none ↦ (value_error missing_field, rows)
    | some (start, finish) ↦
        if ltb start finish
        then (
          done (record { period = c.period; action = set_hours; scope = c.scope; deleted = 0 }),
          upsert c.period (date_of today c.scope) start finish rows,
        )
        else (value_error out_of_range, rows)
  ]

  -- A permanent reset fails the assertion.
  unfoldable pub apply_reset :
      HoursCommand F → List ScheduleWindow → Outcome Applied × List ScheduleWindow
  apply_reset c rows = elim c.scope [
    | today_only ↦ (
      done (record {
        period = c.period;
        action = reset_to_default;
        scope = today_only;
        deleted = length (select (in_slot c.period (some today)) rows);
      }),
      delete (in_slot c.period (some today)) rows,
    )
    | permanent ↦ (value_error malformed, rows)
  ]

  unfoldable pub run_command :
      HoursCommand F → List ScheduleWindow → Outcome Applied × List ScheduleWindow
  unfolding apply_set_hours apply_reset
  run_command c rows = elim c.action [
    | set_hours ↦ apply_set_hours c rows
    | reset_to_default ↦ apply_reset c rows
  ]

  unfoldable pub apply_schedule_command :
      Json F → List ScheduleWindow → Outcome Applied × List ScheduleWindow
  unfolding run_command
  apply_schedule_command command rows = elim (required_command_shape command) [
    | none ↦ (value_error malformed, rows)
    | some c ↦ run_command c rows
  ]
