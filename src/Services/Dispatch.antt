-- ===== src/Services/Dispatch.antt =====
-- app/services/staff_dispatch.py: what each role of the staff may do, over any channel.
pub mod Permitted
use sieshka.Prelude.{
  ℕ, Bool, true, false, ◌||◌, String, Option, none, some, List, [], ◌∷◌, any, ◌==◌, string_eq,
  if◌then◌else◌,
}
use sieshka.Orders.{
  OrderState, OrderEvent, all_events, confirm, request_payment, payment_confirmed, payment_failed,
  start_cooking, start_packing, assign_courier, pickup, deliver, close, cancel,
}
use sieshka.Fsm.{TransitionResult}
use sieshka.Fsm.Machines.{KitchenState, KitchenEvent, queue, start_prep, mark_ready, hand_off}
use sieshka.Database.{Session, pure, ◌>>=◌}
use sieshka.Vm.{Platform}
use sieshka.Programs.{event_name}
use sieshka.Services.Order.{transition_order}
use sieshka.Services.Kitchen.{transition_ticket}

-- `StaffRole`; the role of the kitchen is `cook`.
pub data StaffRole : Type 0 where
  cook courier admin staff : StaffRole

-- `OrderEvent(event_str)`, which raises where no event has the value.
unfoldable pub order_event_of : String → List OrderEvent → Option OrderEvent
order_event_of name [] = none
order_event_of name (e ∷ events) =
    if event_name e == name then some e else order_event_of name events

-- `KitchenEvent(event_str)`.
unfoldable pub kitchen_event_of : String → Option KitchenEvent
kitchen_event_of name =
    if name == "QUEUE"
    then some queue
    else if name == "START_PREP"
    then some start_prep
    else if name == "MARK_READY"
    then some mark_ready
    else if name == "HAND_OFF"
    then some hand_off
    else none

-- `_KITCHEN_ROLE_EVENTS`: every event of the kitchen, or none.
unfoldable pub kitchen_role_events : StaffRole → KitchenEvent → Bool
kitchen_role_events cook event = true
kitchen_role_events staff event = true
kitchen_role_events _ event = false

abbrev is_courier_event : OrderEvent → Bool
is_courier_event assign_courier = true
is_courier_event pickup = true
is_courier_event deliver = true
is_courier_event _ = false

abbrev is_cancel : OrderEvent → Bool
is_cancel cancel = true
is_cancel _ = false

-- `_ORDER_ROLE_EVENTS`.
unfoldable pub order_role_events : StaffRole → OrderEvent → Bool
order_role_events cook event = false
order_role_events courier event = is_courier_event event
order_role_events admin event = is_cancel event
order_role_events staff event = is_courier_event event || is_cancel event

module _ (platform : Platform) where
  -- `none` is "not permitted".
  unfoldable pub dispatch_kitchen :
      StaffRole → ℕ → String → Session (Option (TransitionResult KitchenState KitchenEvent))
  dispatch_kitchen role ticket_id event_str db = elim (kitchen_event_of event_str) [
    | none ↦ pure none db
    | some event ↦
        if kitchen_role_events role event
        then (transition_ticket platform ticket_id event >>= λ result. pure (some result)) db
        else pure none db
  ]

  -- The customer's notification writes nothing and never raises.
  unfoldable pub dispatch_order :
      StaffRole → ℕ → String → Session (Option (TransitionResult OrderState OrderEvent))
  dispatch_order role order_id event_str db = elim (order_event_of event_str all_events) [
    | none ↦ pure none db
    | some event ↦
        if order_role_events role event
        then (transition_order platform order_id event >>= λ result. pure (some result)) db
        else pure none db
  ]
