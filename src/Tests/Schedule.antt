-- ===== src/Tests/Schedule.antt =====
-- The theorems about schedule windows at concrete inputs.
use sieshka.Prelude.{◌≡◌, ◌*◌, refl, true, none, some, List, [], ◌∷◌, nat_eq}
use sieshka.Fsm.Machines.{closing_soon}
use sieshka.Schedule.{
  evening, ScheduleWindow, is_period, overrides, permanents, first_of, load_windows,
  get_menu_window_context,
}
use sieshka.Schedule.Windows.{
  InEffect, load_windows-InEffect, Consistent, get_menu_window_context-Consistent,
}

abbrev permanent_evening : ScheduleWindow
permanent_evening = record {
  period = evening;
  start_time = 64800 * 1000000;
  end_time = 79200 * 1000000;
  is_active = true;
  effective_date = none;
}

abbrev rows : List ScheduleWindow
rows =
    record permanent_evening { effective_date = some 11 }
    ∷ permanent_evening
    ∷ record permanent_evening { effective_date = some 12; start_time = 68400 * 1000000 }
    ∷ []

load_windows-InEffect_example :
    (is_period evening evening ≡ true) × InEffect 13 rows evening permanent_evening
unfolding load_windows overrides permanents first_of
load_windows-InEffect_example = load_windows-InEffect 13 rows evening permanent_evening refl

get_menu_window_context-Consistent_example :
    Consistent closing_soon 3600
      (load_windows 12 rows evening)
      (get_menu_window_context closing_soon 12 3600 rows)
get_menu_window_context-Consistent_example =
    get_menu_window_context-Consistent closing_soon 12 3600 rows
