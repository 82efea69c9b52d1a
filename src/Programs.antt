-- ===== src/Programs.antt =====
-- app/programs/order_programs.py and app/programs/kitchen_programs.py: the programs as data, and the
-- registries that map an event to its program. Of the order programs those that the services run.
use sieshka.Prelude.{String, none, some, [], ◌∷◌}
use sieshka.Prelude.Dict.{Dict}
use sieshka.Orders.{
  OrderState, OrderEvent, draft, confirmed, payment_pending, cancelled, confirm, request_payment,
  payment_confirmed, payment_failed, start_cooking, start_packing, assign_courier, pickup, deliver,
  close, cancel,
}
use sieshka.Fsm.Machines.{KitchenEvent, queue, start_prep, mark_ready, hand_off}
use sieshka.Vm.{state, Arg, var, output, literal, at_least, Step, tool, condition, Program}

-- The one step of a simple program.
abbrev pub write_step : String → Arg → OrderState → Step
write_step id from_state to_state =
    tool id "transition_order_state"
      (("order_id", var "order_id")
        ∷ ("from_state", from_state)
        ∷ ("to_state", literal (state to_state))
        ∷ [])
      "write_result" none

unfoldable pub program_confirm : Program
program_confirm = record {
  name = "order_confirm";
  steps = write_step "write_confirmed" (literal (state draft)) confirmed ∷ [];
}

unfoldable pub program_payment_failed : Program
program_payment_failed = record {
  name = "order_payment_failed";
  steps = write_step "write_rollback" (literal (state payment_pending)) confirmed ∷ [];
}

unfoldable pub program_cancel : Program
program_cancel = record {
  name = "order_cancel";
  steps = write_step "write_cancelled" (var "from_state") cancelled ∷ [];
}

abbrev pub order_arg : Dict String Arg
order_arg = ("order_id", var "order_id") ∷ []

abbrev pub ticket_args : Dict String Arg
ticket_args = ("order_id", var "order_id") ∷ ("ticket_id", output "create_kitchen_ticket") ∷ []

unfoldable pub program_start_cooking : Program
program_start_cooking = record {
  name = "order_start_cooking";
  steps =
      tool "reserve_inventory" "reserve_inventory_items" order_arg "inventory_result"
        (some "check_inventory_alert")
      ∷ condition "check_inventory_alert" (at_least "inventory_result" 1)
          "notify_inventory_below_zero" "create_kitchen_ticket"
      ∷ tool "notify_inventory_below_zero" "notify_inventory_insufficient" order_arg "notify_result"
          (some "create_kitchen_ticket")
      ∷ tool "create_kitchen_ticket" "create_kitchen_ticket" order_arg "ticket_id"
          (some "write_cooking_state")
      ∷ tool "write_cooking_state" "write_order_state_cooking" ticket_args "write_result"
          (some "notify_staff_kitchen_ticket")
      ∷ tool "notify_staff_kitchen_ticket" "notify_staff_new_kitchen_ticket" ticket_args
          "notify_staff_result" none
      ∷ [];
}

abbrev pub event_name : OrderEvent → String
event_name confirm = "CONFIRM"
event_name request_payment = "REQUEST_PAYMENT"
event_name payment_confirmed = "PAYMENT_CONFIRMED"
event_name payment_failed = "PAYMENT_FAILED"
event_name start_cooking = "START_COOKING"
event_name start_packing = "START_PACKING"
event_name assign_courier = "ASSIGN_COURIER"
event_name pickup = "PICKUP"
event_name deliver = "DELIVER"
event_name close = "CLOSE"
event_name cancel = "CANCEL"

-- The name is for the trace only; the source lowers the case of the event's.
unfoldable pub build_simple_program : String → OrderState → OrderState → Program
build_simple_program name from_state to_state = record {
  name = name;
  steps = write_step "write_state" (literal (state from_state)) to_state ∷ [];
}

-- `OrderService._select_program`.
unfoldable pub select_program : OrderEvent → OrderState → OrderState → Program
unfolding program_start_cooking program_confirm program_payment_failed program_cancel
    build_simple_program
select_program start_cooking current new_state = program_start_cooking
select_program confirm current new_state = program_confirm
select_program payment_failed current new_state = program_payment_failed
select_program cancel current new_state = program_cancel
select_program event current new_state = build_simple_program (event_name event) current new_state

abbrev kitchen_name : KitchenEvent → String
kitchen_name queue = "kitchen_queue"
kitchen_name start_prep = "kitchen_start_prep"
kitchen_name mark_ready = "kitchen_mark_ready"
kitchen_name hand_off = "kitchen_hand_off"

abbrev pub kitchen_tool : KitchenEvent → String
kitchen_tool queue = "write_kitchen_state_queued"
kitchen_tool start_prep = "write_kitchen_state_preparing"
kitchen_tool mark_ready = "write_kitchen_state_ready"
kitchen_tool hand_off = "write_kitchen_state_handed_off"

-- The four programs of the kitchen: one step with a tool of its own.
unfoldable pub kitchen_program : KitchenEvent → Program
kitchen_program event = record {
  name = kitchen_name event;
  steps =
      tool "write_state" (kitchen_tool event) (("ticket_id", var "ticket_id") ∷ []) "write_result"
        none
      ∷ [];
}
