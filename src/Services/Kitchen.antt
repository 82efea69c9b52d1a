-- ===== src/Services/Kitchen.antt =====
-- app/services/kitchen_service.py: a ticket's governed transition, and what a hand-off does to the
-- ticket's order.
pub mod Tickets
pub mod Handoff
pub mod Closing
use sieshka.Prelude.{
  ℕ, Bool, true, false, String, Option, none, some, List, [], ◌∷◌, ◌==◌, string_eq, nat_eq,
  if◌then◌else◌,
}
use sieshka.Prelude.Dict.{lookup}
use sieshka.Orders.{OrderState, OrderEvent, start_packing, close}
use sieshka.Fsm.{TransitionResult, rejected, moved}
use sieshka.Fsm.Machines.{KitchenState, KitchenEvent, hand_off, kitchen_transitions}
use sieshka.Database.{
  OrderRow, TicketRow, Db, Failure, no_result, denied, invalid_program, Result, ok, err, Session,
  raise, pure, ◌>>=◌, ◌>>◌,
}
use sieshka.Tools.Kitchen.{
  write_kitchen_state_queued, write_kitchen_state_preparing, write_kitchen_state_ready,
  write_kitchen_state_handed_off,
}
use sieshka.Vm.{Value, ident, text, Values, Registry, Trace, Capabilities, Platform}
use sieshka.Programs.{kitchen_program}
use sieshka.Services.Order.{id_arg, done, transition_order}

-- `KITCHEN_TOOL_CAPABILITIES` of app/policy/policy_snapshot.py.
unfoldable pub kitchen_tool_capabilities : Capabilities
kitchen_tool_capabilities =
    ("write_kitchen_state_queued", "kitchen:write" ∷ [])
    ∷ ("write_kitchen_state_preparing", "kitchen:write" ∷ [])
    ∷ ("write_kitchen_state_ready", "kitchen:write" ∷ [])
    ∷ ("write_kitchen_state_handed_off", "kitchen:write" ∷ [])
    ∷ []

-- `_KITCHEN_TOOLS` by name.
unfoldable pub call_kitchen_tool : String → Values → Session Value
call_kitchen_tool name args = id_arg (lookup "ticket_id" args) λ ticket_id.
    if name == "write_kitchen_state_queued"
    then write_kitchen_state_queued ticket_id >> pure done
    else if name == "write_kitchen_state_preparing"
    then (write_kitchen_state_preparing ticket_id >> pure done)
    else if name == "write_kitchen_state_ready"
    then (write_kitchen_state_ready ticket_id >> pure done)
    else if name == "write_kitchen_state_handed_off"
    then (write_kitchen_state_handed_off ticket_id >> pure done)
    else raise denied

module _ (platform : Platform) where
  unfoldable pub governed_kitchen_tools : Registry
  unfolding call_kitchen_tool
  governed_kitchen_tools name args =
      if platform.check kitchen_tool_capabilities name
      then call_kitchen_tool name args
      else raise denied

  -- The order after START_PACKING: an order that is picked up is closed at once; for any other the
  -- couriers are told, which writes nothing here. An exception is only logged.
  unfoldable pub after_packing :
      String → ℕ → Result (TransitionResult OrderState OrderEvent) → Db → Db
  after_packing delivery_mode order_id (err f) db = db
  after_packing delivery_mode order_id (ok packing) db =
      if packing.success
      then (if delivery_mode == "pickup"
          then (transition_order platform order_id close db).1
          else db)
      else db

  -- `JOIN orders`: nothing is done where the ticket or its order is missing.
  unfoldable pub advance_order : ℕ → Db → Db
  unfolding after_packing
  advance_order ticket_id db = elim (lookup ticket_id db.kitchen_tickets) [
    | none ↦ db
    | some t ↦ elim (lookup t.order_id db.orders) [
      | none ↦ db
      | some o ↦
          let (packing, db') = transition_order platform t.order_id start_packing db in
          after_packing o.delivery_mode t.order_id packing db'
    ]
  ]

  abbrev pub on_hand_off : KitchenEvent → ℕ → Db → Db
  on_hand_off hand_off ticket_id db = advance_order ticket_id db
  on_hand_off _ ticket_id db = db

  -- A failed run is dropped with the session; a success is committed, and a hand-off goes on.
  unfoldable pub settle_ticket :
      ℕ
      → KitchenEvent
      → KitchenState
      → Db
      → Trace
      → Db
      → TransitionResult KitchenState KitchenEvent × Db
  settle_ticket ticket_id event new_state before trace db = elim trace.status [
    | ok _ ↦ (moved new_state, on_hand_off event ticket_id db)
    | err _ ↦ (rejected event, before)
  ]

  unfoldable pub run_ticket :
      ℕ → KitchenEvent → KitchenState → Session (TransitionResult KitchenState KitchenEvent)
  unfolding settle_ticket governed_kitchen_tools
  run_ticket ticket_id event new_state db =
      if platform.is_valid (kitchen_program event)
      then (let (trace, db') =
            platform.run governed_kitchen_tools (kitchen_program event)
              (("ticket_id", ident ticket_id) ∷ []) db in
          let (result, final) = settle_ticket ticket_id event new_state db trace db' in
          (ok result, final))
      else (err invalid_program, db)

  abbrev pub on_kitchen_answer :
      Option KitchenState → ℕ → KitchenEvent → Session (TransitionResult KitchenState KitchenEvent)
  on_kitchen_answer none ticket_id event db = (ok (rejected event), db)
  on_kitchen_answer (some new_state) ticket_id event db = run_ticket ticket_id event new_state db

  unfoldable pub transition_ticket :
      ℕ → KitchenEvent → Session (TransitionResult KitchenState KitchenEvent)
  transition_ticket ticket_id event db = elim (lookup ticket_id db.kitchen_tickets) [
    | none ↦ raise no_result db
    | some t ↦ on_kitchen_answer (kitchen_transitions t.state event) ticket_id event db
  ]
