-- ===== src/Fsm/Machines.antt =====
-- The graphs of app/domains/kitchen, delivery, inventory, promotions, privacy and schedule.
use mathlib.Core.Option.{Option, none, some}

pub data KitchenState : Type 0 where
  new queued preparing ready handed_off : KitchenState

pub data KitchenEvent : Type 0 where
  queue start_prep mark_ready hand_off : KitchenEvent

unfoldable pub kitchen_transitions : KitchenState → KitchenEvent → Option KitchenState
kitchen_transitions new queue = some queued
kitchen_transitions queued start_prep = some preparing
kitchen_transitions preparing mark_ready = some ready
kitchen_transitions ready hand_off = some handed_off
kitchen_transitions _ _ = none

pub data DeliveryState : Type 0 where
  unassigned assigned picked_up on_route delivered failed : DeliveryState

pub data DeliveryEvent : Type 0 where
  assign pickup start_route complete fail : DeliveryEvent

unfoldable pub delivery_transitions : DeliveryState → DeliveryEvent → Option DeliveryState
delivery_transitions unassigned assign = some assigned
delivery_transitions assigned pickup = some picked_up
delivery_transitions assigned fail = some failed
delivery_transitions picked_up start_route = some on_route
delivery_transitions on_route complete = some delivered
delivery_transitions on_route fail = some failed
delivery_transitions _ _ = none

pub data InventoryState : Type 0 where
  available low_stock critical out_of_stock : InventoryState

pub data InventoryEvent : Type 0 where
  stock_decreased stock_low stock_critical stock_depleted stock_replenished : InventoryEvent

unfoldable pub inventory_transitions : InventoryState → InventoryEvent → Option InventoryState
inventory_transitions available stock_decreased = some low_stock
inventory_transitions available stock_low = some low_stock
inventory_transitions available stock_critical = some critical
inventory_transitions low_stock stock_critical = some critical
inventory_transitions low_stock stock_depleted = some out_of_stock
inventory_transitions low_stock stock_replenished = some available
inventory_transitions critical stock_depleted = some out_of_stock
inventory_transitions critical stock_replenished = some available
inventory_transitions out_of_stock stock_replenished = some available
inventory_transitions _ _ = none

pub data PromotionState : Type 0 where
  created active expired archived : PromotionState

pub data PromotionEvent : Type 0 where
  activate expire archive : PromotionEvent

unfoldable pub promotion_transitions : PromotionState → PromotionEvent → Option PromotionState
promotion_transitions created activate = some active
promotion_transitions active expire = some expired
promotion_transitions expired archive = some archived
promotion_transitions _ _ = none

pub data CustomerDataState : Type 0 where
  active retained anonymized deleted : CustomerDataState

pub data CustomerDataEvent : Type 0 where
  retain anonymize gdpr_erase : CustomerDataEvent

unfoldable pub customer_data_transitions :
    CustomerDataState → CustomerDataEvent → Option CustomerDataState
customer_data_transitions active retain = some retained
customer_data_transitions retained anonymize = some anonymized
customer_data_transitions anonymized gdpr_erase = some deleted
customer_data_transitions _ _ = none

pub data BusinessScheduleState : Type 0 where
  open_state closing_soon closed_state : BusinessScheduleState

pub data BusinessScheduleEvent : Type 0 where
  closing_warning close_event open_event : BusinessScheduleEvent

unfoldable pub schedule_transitions :
    BusinessScheduleState → BusinessScheduleEvent → Option BusinessScheduleState
schedule_transitions open_state closing_warning = some closing_soon
schedule_transitions closing_soon close_event = some closed_state
schedule_transitions closed_state open_event = some open_state
schedule_transitions _ _ = none
