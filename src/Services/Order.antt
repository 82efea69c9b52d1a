-- ===== src/Services/Order.antt =====
-- OrderService.transition_order of app/services/order_service.py, with the registry of governed
-- tools that it hands to the virtual machine.
pub mod Runs
pub mod Cooking
pub mod Transition
pub mod Histories
pub mod Tickets
pub mod Frames
use sieshka.Prelude.{
  ℕ, Bool, true, false, String, Option, none, some, List, [], ◌∷◌, ◌==◌, string_eq, nat_eq,
  if◌then◌else◌,
}
use sieshka.Prelude.Dict.{Dict, lookup, adjust}
use sieshka.Orders.{
  OrderState, OrderEvent, order_transitions, order_state_eq, cooking, start_cooking, cancel,
}
use sieshka.Fsm.{TransitionResult, rejected, moved}
use sieshka.Database.{
  OrderRow, Db, Failure, no_result, denied, missing_argument, invalid_program, Result, ok, err,
  Session, raise, pure, ◌>>=◌, ◌>>◌, continue,
}
use sieshka.Tools.Inventory.{reserve_inventory_items}
use sieshka.Tools.Orders.{transition_order_state, create_kitchen_ticket, write_order_state_cooking}
use sieshka.Vm.{
  Value, number, ident, state, text, Values, Registry, Program, Trace, Capabilities, Platform,
}
use sieshka.Programs.{select_program}

-- `ORDERS_TOOL_CAPABILITIES` of app/policy/policy_snapshot.py.
unfoldable pub orders_tool_capabilities : Capabilities
orders_tool_capabilities =
    ("validate_order_items", "orders:read" ∷ [])
    ∷ ("transition_order_state", "orders:write" ∷ [])
    ∷ ("write_order_state_payment_pending", "orders:write" ∷ [])
    ∷ ("write_order_state_paid", "orders:write" ∷ [])
    ∷ ("write_order_state_payment_failed", "orders:write" ∷ [])
    ∷ ("write_order_state_cooking", "orders:write" ∷ [])
    ∷ ("reserve_inventory_items", "inventory:write" ∷ [])
    ∷ ("create_kitchen_ticket", "kitchen:write" ∷ [])
    ∷ ("log_validation_failure", "orders:write" ∷ [])
    ∷ ("notify_inventory_insufficient", "notifications:send" ∷ [])
    ∷ ("notify_staff_new_kitchen_ticket", "notifications:send" ∷ [])
    ∷ ("yookassa_create_payment", "payment:write" ∷ [])
    ∷ ("yookassa_verify_payment", "payment:read" ∷ [])
    ∷ []

-- The keyword arguments of a tool; Python raises where one is missing.
abbrev pub id_arg : Option Value → (ℕ → Session Value) → Session Value
id_arg (some (ident n)) k = k n
id_arg _ k = raise missing_argument

abbrev pub state_arg : Option Value → (OrderState → Session Value) → Session Value
state_arg (some (state s)) k = k s
state_arg _ k = raise missing_argument

abbrev pub sentinel : Bool → Value
sentinel true = number 1
sentinel false = number 0

abbrev pub done : Value
done = text "OK"

-- `_ORDER_TOOLS` by name, for the tools that the programs of Programs.antt name. The two notifying
-- tools write no table and do not raise.
unfoldable pub call_tool : (Db → ℕ) → String → Values → Session Value
call_tool new_id name args = id_arg (lookup "order_id" args) λ order_id.
    if name == "transition_order_state"
    then state_arg (lookup "from_state" args) (λ from_state.
      state_arg (lookup "to_state" args)
        (λ to_state. transition_order_state order_id from_state to_state >> pure done))
    else if name == "reserve_inventory_items"
    then (reserve_inventory_items order_id >>= λ any_below_zero. pure (sentinel any_below_zero))
    else if name == "create_kitchen_ticket"
    then (create_kitchen_ticket new_id order_id >>= λ ticket_id. pure (ident ticket_id))
    else if name == "write_order_state_cooking"
    then id_arg (lookup "ticket_id" args)
        (λ ticket_id. write_order_state_cooking order_id ticket_id >> pure done)
    else if name == "notify_inventory_insufficient"
    then pure (text "NOTIFIED")
    else if name == "notify_staff_new_kitchen_ticket"
    then pure (text "NOTIFIED")
    else raise denied

module _ (platform : Platform) where
  open platform use {run, is_valid, check, new_id}

  -- `_governed_tool`: the policy is asked before the tool is called.
  unfoldable pub governed_tools : Registry
  unfolding call_tool
  governed_tools name args =
      if check orders_tool_capabilities name then call_tool new_id name args else raise denied

  -- `context = {"order_id": …}`, and for CANCEL also "from_state".
  abbrev pub context_of : ℕ → OrderEvent → OrderState → Values
  context_of order_id cancel current =
      ("order_id", ident order_id) ∷ ("from_state", state current) ∷ []
  context_of order_id _ current = ("order_id", ident order_id) ∷ []

  -- `UPDATE orders SET trace_id = …`, if the trace has an id.
  unfoldable pub save_trace_id : ℕ → Option ℕ → Db → Db
  save_trace_id order_id none db = db
  save_trace_id order_id (some trace_id) db = record db {
    orders = adjust order_id (λ o. record o { trace_id = some trace_id }) db.orders;
  }

  -- `_on_cooking`, for an event that cooks without PROGRAM_START_COOKING.
  unfoldable pub on_cooking : ℕ → OrderEvent → OrderState → Db → Db
  on_cooking order_id start_cooking new_state db = db
  on_cooking order_id event new_state db =
      if new_state == cooking then (create_kitchen_ticket new_id order_id db).1 else db

  -- After the run: a success is completed and committed; anything else is dropped with the session,
  -- so that the database is what it was at the beginning, `before`. `save_trace`, which writes the trace
  -- to the SQLite store of the runtime and no table of the database, is left out.
  unfoldable pub settle :
      ℕ → OrderEvent → OrderState → Db → Trace → Db → TransitionResult OrderState OrderEvent × Db
  unfolding save_trace_id on_cooking
  settle order_id event new_state before trace db = elim trace.status [
    | ok _ ↦ (
      moved new_state,
      on_cooking order_id event new_state (save_trace_id order_id trace.trace_id db),
    )
    | err _ ↦ (rejected event, before)
  ]

  unfoldable pub run_transition :
      ℕ → OrderEvent → OrderState → OrderState → Session (TransitionResult OrderState OrderEvent)
  unfolding settle governed_tools
  run_transition order_id event current new_state db =
      let program = select_program event current new_state in
      if is_valid program
      then (let (trace, db') = run governed_tools program (context_of order_id event current) db in
          let (result, final) = settle order_id event new_state db trace db' in (ok result, final))
      else (err invalid_program, db)

  abbrev pub on_answer :
      Option OrderState
      → ℕ
      → OrderEvent
      → OrderState
      → Session (TransitionResult OrderState OrderEvent)
  on_answer none order_id event current db = (ok (rejected event), db)
  on_answer (some new_state) order_id event current db =
      run_transition order_id event current new_state db

  -- The policy provider of the source allows every transition. `scalar_one` raises where the order
  -- is missing.
  unfoldable pub transition_order :
      ℕ → OrderEvent → Session (TransitionResult OrderState OrderEvent)
  transition_order order_id event db = elim (lookup order_id db.orders) [
    | none ↦ raise no_result db
    | some o ↦ on_answer (order_transitions o.state event) order_id event o.state db
  ]
