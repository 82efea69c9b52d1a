-- ===== src/Schedule.antt =====
-- app/services/schedule_service.py: which window is in effect, and what the menu and the checkout are
-- told. A time of day is a number of microseconds, and a date is a number.
pub mod Windows
use sieshka.Prelude.{
  ℕ, ◌-◌, ◌*◌, ◌/◌, Bool, true, false, not, ◌&&◌, ◌||◌, Option, none, some, List, [], ◌∷◌, ◌++◌,
  ltb, leb, ◌==◌, nat_eq, if◌then◌else◌,
}
use sieshka.Fsm.Machines.{BusinessScheduleState, open_state}

pub data SchedulePeriod : Type 0 where
  morning evening : SchedulePeriod

-- A row of `schedule_windows`: permanent without a date, and an override of one day with one.
pub record ScheduleWindow : Type 0 where
  pub period : SchedulePeriod
  pub start_time : ℕ
  pub end_time : ℕ
  pub is_active : Bool
  pub effective_date : Option ℕ

abbrev pub is_on : ℕ → Option ℕ → Bool
is_on today none = false
is_on today (some date) = date == today

abbrev pub is_permanent : Option ℕ → Bool
is_permanent none = true
is_permanent (some date) = false

-- `WHERE effective_date = :today`, and `WHERE effective_date IS NULL`.
unfoldable pub overrides : ℕ → List ScheduleWindow → List ScheduleWindow
overrides today [] = []
overrides today (w ∷ rows) =
    let rest = overrides today rows in if is_on today w.effective_date then w ∷ rest else rest

unfoldable pub permanents : List ScheduleWindow → List ScheduleWindow
permanents [] = []
permanents (w ∷ rows) =
    let rest = permanents rows in if is_permanent w.effective_date then w ∷ rest else rest

abbrev pub is_period : SchedulePeriod → SchedulePeriod → Bool
is_period morning morning = true
is_period evening evening = true
is_period _ _ = false

-- The first row of a period.
unfoldable pub first_of : SchedulePeriod → List ScheduleWindow → Option ScheduleWindow
first_of period [] = none
first_of period (w ∷ rows) = if is_period period w.period then some w else first_of period rows

-- `_load_windows`: `ORDER BY period, effective_date NULLS LAST`, and the first row of each period.
unfoldable pub load_windows : ℕ → List ScheduleWindow → SchedulePeriod → Option ScheduleWindow
unfolding overrides permanents first_of
load_windows today rows period = first_of period (overrides today rows ++ permanents rows)

-- 23:59:59, which stands for the end of the day.
abbrev pub end_of_day : ℕ
end_of_day = 86399 * 1000000

unfoldable pub window_open : ℕ → Option ScheduleWindow → Bool
window_open now none = false
window_open now (some w) =
    if not w.is_active
    then false
    else if w.end_time == end_of_day
    then leb w.start_time now
    else (leb w.start_time now && leb now w.end_time)

abbrev pub is_fsm_open : BusinessScheduleState → Bool
is_fsm_open open_state = true
is_fsm_open _ = false

-- `time_until` is in whole seconds.
pub record PreorderInfo : Type 0 where
  pub time_until : ℕ
  pub opens_at : ℕ

unfoldable pub preorder_of : Bool → ℕ → Option ScheduleWindow → Option PreorderInfo
preorder_of is_open now none = none
preorder_of is_open now (some w) =
    if not is_open && w.is_active && ltb now w.start_time
    then some (record { time_until = (w.start_time - now) / 1000000; opens_at = w.start_time })
    else none

-- Without the four bounds of the windows, which are only passed on. `is_evening_preorder` is whether
-- there is a `preorder_info`.
pub record MenuWindowContext : Type 0 where
  pub is_open : Bool
  pub preorder_info : Option PreorderInfo

unfoldable pub get_menu_window_context :
    BusinessScheduleState → ℕ → ℕ → List ScheduleWindow → MenuWindowContext
unfolding load_windows window_open preorder_of
get_menu_window_context current_state today now rows =
    let in_morning = window_open now (load_windows today rows morning) in
    let in_evening = window_open now (load_windows today rows evening) in
    let is_open = is_fsm_open current_state && (in_morning || in_evening) in
    record {
      is_open = is_open;
      preorder_info = preorder_of is_open now (load_windows today rows evening);
    }
