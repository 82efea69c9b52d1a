-- ===== src/Tools/Orders.antt =====
-- The terminal tools of app/tools/order_tools.py: each locks the row, checks the state that it
-- expects, and writes one state; or it raises and writes nothing.
pub mod Governed
use sieshka.Prelude.{
  ℕ, Bool, true, false, ◌||◌, Option, none, some, List, [], ◌∷◌, ◌==◌, nat_eq, if◌then◌else◌,
}
use sieshka.Prelude.Dict.{lookup, insert, adjust}
use sieshka.Orders.{OrderState, order_state_eq, confirmed, payment_pending, paid, cooking}
use sieshka.Fsm.Machines.{new}
use sieshka.Database.{
  ItemJson, OrderRow, TicketRow, Db, order_not_found, invalid_state, Session, Result, ok, err, pure,
  raise, modify, raise_unless, ◌>>=◌, ◌>>◌,
}

-- `SELECT state … FOR UPDATE`, the check for a missing row, and the check of the state.
unfoldable pub require_state : ℕ → (OrderState → Bool) → Session Unit
require_state order_id expected db = elim (lookup order_id db.orders) [
  | none ↦ raise order_not_found db
  | some o ↦ raise_unless (expected o.state) invalid_state db
]

-- `UPDATE orders SET … WHERE id = :id`.
unfoldable pub update_order : ℕ → (OrderRow → OrderRow) → Session Unit
update_order order_id f = modify (λ db. record db { orders = adjust order_id f db.orders })

abbrev pub with_state : OrderState → OrderRow → OrderRow
with_state s o = record o { state = s }

unfoldable pub write_order_state_payment_pending : ℕ → ℕ → Session Unit
unfolding update_order
write_order_state_payment_pending order_id payment_id = do
  require_state order_id (λ s. s == confirmed)
  update_order order_id (λ o. record o { state = payment_pending; payment_id = some payment_id })

unfoldable pub write_order_state_paid : ℕ → Session Unit
unfolding update_order
write_order_state_paid order_id = do
  require_state order_id (λ s. s == payment_pending)
  update_order order_id (with_state paid)

unfoldable pub write_order_state_payment_failed : ℕ → Session Unit
unfolding update_order
write_order_state_payment_failed order_id = do
  require_state order_id (λ s. s == payment_pending)
  update_order order_id (with_state confirmed)

unfoldable pub write_order_state_cooking : ℕ → ℕ → Session Unit
unfolding update_order
write_order_state_cooking order_id ticket_id = do
  require_state order_id (λ s. s == paid || s == confirmed)
  update_order order_id (with_state cooking)
  modify (λ db. record db {
    kitchen_tickets = adjust ticket_id (λ t. record t { order_id = order_id }) db.kitchen_tickets;
  })

unfoldable pub transition_order_state : ℕ → OrderState → OrderState → Session Unit
unfolding update_order
transition_order_state order_id from_state to_state = do
  require_state order_id (λ s. s == from_state)
  update_order order_id (with_state to_state)

-- 1, here `true`, if the order is there and has items.
unfoldable pub validate_order_items : ℕ → Session Bool
validate_order_items order_id db = elim (lookup order_id db.orders) [
  | none ↦ pure false db
  | some o ↦ elim o.items [ [] ↦ pure false db | item ∷ items ↦ pure true db ]
]

-- `INSERT INTO kitchen_tickets … RETURNING id`, the id being the database's choice.
unfoldable pub create_kitchen_ticket : (Db → ℕ) → ℕ → Session ℕ
create_kitchen_ticket new_id order_id db =
    let ticket_id = new_id db in
    (
      ok ticket_id,
      record db {
        kitchen_tickets =
            insert ticket_id (record { order_id = order_id; state = new }) db.kitchen_tickets;
      },
    )

-- The terminal tools among `_ORDER_TOOLS`, with the arguments that each takes besides the order.
pub data TerminalTool : Type 0 where
  payment_pending_tool : ℕ → TerminalTool
  paid_tool payment_failed_tool : TerminalTool
  cooking_tool : ℕ → TerminalTool
  transition : OrderState → OrderState → TerminalTool

pub run_tool : TerminalTool → ℕ → Session Unit
run_tool (payment_pending_tool payment_id) order_id =
    write_order_state_payment_pending order_id payment_id
run_tool paid_tool order_id = write_order_state_paid order_id
run_tool payment_failed_tool order_id = write_order_state_payment_failed order_id
run_tool (cooking_tool ticket_id) order_id = write_order_state_cooking order_id ticket_id
run_tool (transition from_state to_state) order_id =
    transition_order_state order_id from_state to_state
