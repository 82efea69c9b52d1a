-- ===== src/Tests/Agents.antt =====
-- The theorems about the agents' tools at concrete inputs.
use sieshka.Prelude.{
  ℕ, suc, ◌+◌, ◌≡◌, refl, true, false, Option, none, some, String, List, [], ◌∷◌, arith, string_eq,
  nat_eq, ◌==◌, if◌then◌else◌,
}
use sieshka.Prelude.Int.{ℤ, pos, ltb_ℤ, leb_ℤ}
use sieshka.Prelude.Table.{distinct, select}
use sieshka.Agents.{
  Json, string, integer, null, object, empty, field, Texts, is_valid, is_done, get_or,
}
use sieshka.Agents.Zones.{
  ZoneRow, index_holds, required_command_shape, validate_apply_zone_command, validate_action,
}
use sieshka.Agents.Zones.Apply.{zone_fits, apply_zone_command}
use sieshka.Agents.Zones.Agreement.{alone}
use sieshka.Agents.Zones.Steps.{ZoneStep, apply_zone_command-Step}
use sieshka.Agents.Zones.Validation.{validate_apply_zone_command_agrees}
use sieshka.Fsm.Machines.{created}
use sieshka.Agents.Promotions.{Floats, Promotion, percent_discount}
use sieshka.Agents.Promotions.Apply.{apply_promotion_command}
use sieshka.Agents.Promotions.Steps.{Step, apply_promotion_command-Step}
use sieshka.Agents.Promotions.Validation.{validate_apply_promotion_command_agrees}
use sieshka.Agents.Promotions.{validate_apply_promotion_command}
use sieshka.Schedule.{morning, evening, ScheduleWindow}
use sieshka.Agents.Hours.{
  times_of, parse_time, HoursCommand, set_hours, reset_to_default, today_only,
  apply_schedule_command, validate_apply_schedule_command,
}
use sieshka.Agents.Hours.Validation.{HoursSet, TodayReset, set_hours_read_back, reset_read_back}
use sieshka.Agents.Restock.{validate_apply_restock_command, apply_restock_command}
use sieshka.Agents.Restock.Effect.{Outcome, apply_restock_command-Outcome}
use sieshka.Tests.{shop}

-- Texts without blanks around them and in lower case.
abbrev plain : Texts
plain = record { strip = λ s. s; lower = λ s. s }

abbrev centre : ZoneRow
centre = record {
  id = 1;
  name = "centre";
  delivery_time_minutes = pos 30;
  is_active = true;
  delivery_fee_rub = pos 99;
}

abbrev harbour : ZoneRow
harbour = record {
  id = 2;
  name = "harbour";
  delivery_time_minutes = pos 45;
  is_active = false;
  delivery_fee_rub = pos 150;
}

abbrev zones : List ZoneRow
zones = centre ∷ harbour ∷ []

abbrev restore_harbour : Json Unit
restore_harbour =
    object (field "action" (string "activate") (field "target_zone_name" (string "harbour") empty))

abbrev rename_centre : Json Unit
rename_centre = object (
    field "action" (string "update")
      (field "target_zone_name" (string "centre") (field "name" (string "harbour") empty)))

-- More than every key of the table.
abbrev next_id : List ZoneRow → ℕ
next_id [] = 0
next_id (z ∷ rows) = suc (z.id + next_id rows)

apply_zone_command-Step_example :
    ZoneStep plain zones
      (alone zones)
      (apply_zone_command plain alone next_id restore_harbour zones)
apply_zone_command-Step_example = apply_zone_command-Step plain alone next_id zones restore_harbour

validate_apply_zone_command_agrees_example :
    is_done (apply_zone_command plain alone next_id rename_centre zones).0 ≡ true
unfolding index_holds distinct validate_apply_zone_command validate_action select
    required_command_shape get_or zone_fits
validate_apply_zone_command_agrees_example =
    validate_apply_zone_command_agrees plain next_id zones refl refl rename_centre

-- Whole numbers in place of floating-point ones.
abbrev whole : Floats ℤ
whole = record { of_int = λ i. i; less = ltb_ℤ; at_most = leb_ℤ; is_numeric = λ i. true }

abbrev summer : Promotion ℤ
summer = record {
  id = 4;
  name = "summer";
  discount = pos 10;
  state = created;
  effect_type = percent_discount;
  trigger_code = some "sun";
}

abbrev activate_summer : Json ℤ
activate_summer =
    object
      (field "action" (string "activate") (field "target_promotion_name" (string "summer") empty))

abbrev next_promotion : List (Promotion ℤ) → ℕ
next_promotion rows = 5

apply_promotion_command-Step_example :
    Step plain whole
      (summer ∷ [])
      (apply_promotion_command plain whole next_promotion activate_summer (summer ∷ [])).1
unfolding distinct
apply_promotion_command-Step_example =
    apply_promotion_command-Step plain whole next_promotion (summer ∷ []) refl activate_summer

validate_apply_promotion_command_agrees_example :
    is_done (apply_promotion_command plain whole next_promotion activate_summer (summer ∷ [])).0
    ≡ true
unfolding validate_apply_promotion_command sieshka.Agents.Promotions.required_apply_fields get_or
    select sieshka.Fsm.Machines.promotion_transitions
validate_apply_promotion_command_agrees_example =
    validate_apply_promotion_command_agrees plain whole next_promotion (summer ∷ []) activate_summer

abbrev clock : String → Option ℕ
clock s = if s == "18:00" then some 64800 else if s == "22:00" then some 79200 else none

abbrev late_tonight : Json Unit
late_tonight = object (
    field "period" (string "evening") (
      field "action" (string "set_hours") (
        field "scope" (string "today")
          (field "start_time" (string "18:00") (field "end_time" (string "22:00") empty)))))

abbrev late_command : HoursCommand Unit
late_command = record {
  period = evening;
  action = set_hours;
  scope = today_only;
  start_time = string "18:00";
  end_time = string "22:00";
}

abbrev back_to_normal : Json Unit
back_to_normal = object (
    field "period" (string "evening")
      (field "action" (string "reset_to_default") (field "scope" (string "today") empty)))

abbrev normal_command : HoursCommand Unit
normal_command = record {
  period = evening;
  action = reset_to_default;
  scope = today_only;
  start_time = null;
  end_time = null;
}

abbrev windows : List ScheduleWindow
windows =
    record {
      period = evening;
      start_time = 61200;
      end_time = 75600;
      is_active = true;
      effective_date = none;
    }
    ∷ record {
      period = morning;
      start_time = 28800;
      end_time = 43200;
      is_active = true;
      effective_date = none;
    }
    ∷ []

set_hours_read_back_example :
    HoursSet today_only evening 12 64800 79200 windows
      (apply_schedule_command plain clock 12 late_tonight windows).1
unfolding sieshka.Agents.Hours.required_command_shape get_or times_of parse_time
set_hours_read_back_example =
    set_hours_read_back plain clock 12 late_tonight windows late_command 64800 79200 refl refl refl
      (omega arith)

reset_read_back_example :
    (is_done (apply_schedule_command plain clock 12 back_to_normal windows).0 ≡ true)
    × TodayReset evening 12 windows (apply_schedule_command plain clock 12 back_to_normal windows).1
unfolding sieshka.Agents.Hours.required_command_shape get_or
reset_read_back_example =
    reset_read_back plain clock 12 back_to_normal windows normal_command refl refl refl

abbrev ten_more : Json Unit
ten_more = object (field "sku" (string "ramen") (field "quantity" (integer (pos 10)) empty))

apply_restock_command-Outcome_example :
    Outcome
      (is_valid (validate_apply_restock_command plain ten_more shop))
      shop
      (apply_restock_command plain ten_more shop)
apply_restock_command-Outcome_example = apply_restock_command-Outcome plain ten_more shop
