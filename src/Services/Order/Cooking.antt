-- ===== src/Services/Order/Cooking.antt =====
-- The documented run of PROGRAM_START_COOKING, and what it writes.
use sieshka.Prelude.{
  ℕ, suc, ◌≡◌, refl, ap, ◌∙◌, ◌⊎◌, Bool, true, false, some, List, [], ◌∷◌, arith, nat_eq, string_eq,
}
use sieshka.Prelude.Dict.{lookup, insert, adjust}
use sieshka.Orders.{order_state_eq, state_beq_iff, confirmed, paid, cooking}
use sieshka.Fsm.Machines.{new}
use sieshka.Database.{OrderRow, Db, Failure, ok, err, ◌>>◌, pure}
use sieshka.Tools.Inventory.{reserve_inventory_items}
use sieshka.Tools.Inventory.Sales.{reserve-Reports}
use sieshka.Tools.Orders.{
  require_state, update_order, with_state, create_kitchen_ticket, write_order_state_cooking,
}
use sieshka.Vm.{
  ident, text, Values, Step, Platform, documented_run, execute, resolve, find_step, holds,
}
use sieshka.Vm.Steps.{execute_terminal, execute_next, execute_raise}
use sieshka.Programs.{program_start_cooking, order_arg, ticket_args}
use sieshka.Services.Order.{governed_tools, orders_tool_capabilities, done, sentinel}

module _ (platform : Platform) where
  open platform use {new_id}

  -- The database after the stock has been taken.
  abbrev pub reserved : ℕ → Db → Db
  reserved order_id db = (reserve_inventory_items order_id db).1

  -- The id of the ticket that is opened then.
  abbrev pub ticket_of : ℕ → Db → ℕ
  ticket_of order_id db = new_id (reserved order_id db)

  abbrev opened : ℕ → Db → Db
  opened order_id db = record db {
    kitchen_tickets =
        insert (new_id db) (record { order_id = order_id; state = new }) db.kitchen_tickets;
  }

  abbrev cooked : ℕ → ℕ → Db → Db
  cooked order_id ticket_id db = record db {
    orders = adjust order_id (with_state cooking) db.orders;
    kitchen_tickets = adjust ticket_id (λ t. record t { order_id = order_id }) db.kitchen_tickets;
  }

  abbrev args_of : ℕ → Values
  args_of order_id = ("order_id", ident order_id) ∷ []

  abbrev ticket_args_of : ℕ → ℕ → Values
  ticket_args_of order_id ticket_id =
      ("order_id", ident order_id) ∷ ("ticket_id", ident ticket_id) ∷ []

  reserve_call :
      (order_id : ℕ) (db : Db) (b : Bool)
      → (reserve_inventory_items order_id db).0 ≡ ok b
      → governed_tools platform "reserve_inventory_items" (args_of order_id) db
        ≡ (ok (sentinel b), reserved order_id db)
  unfolding governed_tools lookup orders_tool_capabilities
  reserve_call order_id db b h =
      rw (platform.check_documented orders_tool_capabilities "reserve_inventory_items" refl, h) refl

  notify_call :
      (order_id : ℕ) (db : Db)
      → governed_tools platform "notify_inventory_insufficient" (args_of order_id) db
        ≡ (ok (text "NOTIFIED"), db)
  unfolding governed_tools lookup orders_tool_capabilities
  notify_call order_id db =
      rw (platform.check_documented orders_tool_capabilities "notify_inventory_insufficient" refl)
        refl

  ticket_call :
      (order_id : ℕ) (db : Db)
      → governed_tools platform "create_kitchen_ticket" (args_of order_id) db
        ≡ (ok (ident (new_id db)), opened order_id db)
  unfolding governed_tools lookup orders_tool_capabilities create_kitchen_ticket
  ticket_call order_id db =
      rw (platform.check_documented orders_tool_capabilities "create_kitchen_ticket" refl) refl

  cooking_tool_run :
      (order_id ticket_id : ℕ) (db : Db) {o : OrderRow}
      → lookup order_id db.orders ≡ some o
      → (o.state ≡ paid) ⊎ (o.state ≡ confirmed)
      → (write_order_state_cooking order_id ticket_id >> pure done) db
        ≡ (ok done, cooked order_id ticket_id db)
  unfolding write_order_state_cooking require_state update_order
  cooking_tool_run order_id ticket_id db {o} h e =
      ground (arith, state_beq_iff o.state paid, state_beq_iff o.state confirmed)

  cooking_call :
      (order_id ticket_id : ℕ) (db : Db) {o : OrderRow}
      → lookup order_id db.orders ≡ some o
      → (o.state ≡ paid) ⊎ (o.state ≡ confirmed)
      → governed_tools platform "write_order_state_cooking" (ticket_args_of order_id ticket_id) db
        ≡ (ok done, cooked order_id ticket_id db)
  unfolding governed_tools lookup orders_tool_capabilities
  cooking_call order_id ticket_id db h e =
      rw (platform.check_documented orders_tool_capabilities "write_order_state_cooking" refl)
        (cooking_tool_run order_id ticket_id db h e)

  staff_call :
      (order_id ticket_id : ℕ) (db : Db)
      → governed_tools platform "notify_staff_new_kitchen_ticket"
          (ticket_args_of order_id ticket_id)
          db
        ≡ (ok (text "NOTIFIED"), db)
  unfolding governed_tools lookup orders_tool_capabilities
  staff_call order_id ticket_id db =
      rw (platform.check_documented orders_tool_capabilities "notify_staff_new_kitchen_ticket" refl)
        refl

  abbrev cooking_steps : List Step
  cooking_steps = program_start_cooking.steps

  -- From the ticket on, whatever the outputs of the earlier steps are.
  after_alert :
      (n order_id : ℕ) (outputs : Values) (db : Db) {o : OrderRow}
      → lookup order_id db.orders ≡ some o
      → (o.state ≡ paid) ⊎ (o.state ≡ confirmed)
      → execute
          (suc (suc (suc n)))
          (governed_tools platform)
          cooking_steps
          (args_of order_id)
          outputs
          (find_step "create_kitchen_ticket" cooking_steps)
          db
        ≡ some (ok (text "NOTIFIED"), cooked order_id (new_id db) (opened order_id db))
  unfolding program_start_cooking find_step resolve lookup
  after_alert n order_id outputs db h e =
      execute_next (suc (suc n)) (governed_tools platform) cooking_steps (args_of order_id) outputs
        "create_kitchen_ticket" "create_kitchen_ticket" order_arg "ticket_id" "write_cooking_state"
        (ticket_call order_id db)
        (execute_next (suc n) (governed_tools platform) cooking_steps (args_of order_id) _
          "write_cooking_state" "write_order_state_cooking" ticket_args "write_result"
          "notify_staff_kitchen_ticket" (cooking_call order_id (new_id db) (opened order_id db) h e)
          (execute_terminal n (governed_tools platform) cooking_steps (args_of order_id) _
            "notify_staff_kitchen_ticket" "notify_staff_new_kitchen_ticket" ticket_args
            "notify_staff_result"
            (staff_call order_id (new_id db) (cooked order_id (new_id db) (opened order_id db)))))

  -- Everything that START_COOKING writes.
  abbrev pub started : ℕ → Db → Db
  started order_id db =
      cooked order_id (ticket_of order_id db) (opened order_id (reserved order_id db))

  abbrev sold_outputs : Bool → Values
  sold_outputs b = ("reserve_inventory", sentinel b) ∷ ("inventory_result", sentinel b) ∷ []

  abbrev alert_outputs : Values
  alert_outputs =
      ("notify_inventory_below_zero", text "NOTIFIED")
      ∷ ("notify_result", text "NOTIFIED")
      ∷ sold_outputs true

  -- The condition's two ways meet again at the ticket.
  after_reserve :
      (order_id : ℕ) (b : Bool) (db : Db) {o : OrderRow}
      → lookup order_id db.orders ≡ some o
      → (o.state ≡ paid) ⊎ (o.state ≡ confirmed)
      → execute 5
          (governed_tools platform)
          cooking_steps
          (args_of order_id)
          (sold_outputs b)
          (find_step "check_inventory_alert" cooking_steps)
          db
        ≡ some (ok (text "NOTIFIED"), cooked order_id (new_id db) (opened order_id db))
  unfolding program_start_cooking find_step resolve lookup holds execute
  after_reserve order_id false db h e = after_alert 1 order_id (sold_outputs false) db h e
  after_reserve order_id true db h e =
      execute_next 3 (governed_tools platform) cooking_steps (args_of order_id) (sold_outputs true)
        "notify_inventory_below_zero" "notify_inventory_insufficient" order_arg "notify_result"
        "create_kitchen_ticket" (notify_call order_id db)
        (after_alert 0 order_id alert_outputs db h e)

  -- START_COOKING on an order that is paid, or confirmed for cash, runs to its end if the stock could be taken.
  pub cooking_run :
      (order_id : ℕ) (db : Db) {o : OrderRow} (b : Bool)
      → lookup order_id db.orders ≡ some o
      → (o.state ≡ paid) ⊎ (o.state ≡ confirmed)
      → (reserve_inventory_items order_id db).0 ≡ ok b
      → documented_run (governed_tools platform) program_start_cooking (args_of order_id) db
        ≡ some (ok (text "NOTIFIED"), started order_id db)
  unfolding documented_run program_start_cooking resolve lookup find_step
  cooking_run order_id db b h e returned =
      let sold = reserve-Reports order_id db b h returned in
      execute_next 5 (governed_tools platform) cooking_steps (args_of order_id) []
        "reserve_inventory" "reserve_inventory_items" order_arg "inventory_result"
        "check_inventory_alert" (reserve_call order_id db b returned)
        (after_reserve order_id b (reserved order_id db)
          (ap (λ orders. lookup order_id orders) sold.orders_kept ∙ h) e)

  reserve_raises :
      (order_id : ℕ) (db : Db) (e : Failure)
      → (reserve_inventory_items order_id db).0 ≡ err e
      → governed_tools platform "reserve_inventory_items" (args_of order_id) db
        ≡ (err e, reserved order_id db)
  unfolding governed_tools lookup orders_tool_capabilities
  reserve_raises order_id db e h =
      rw (platform.check_documented orders_tool_capabilities "reserve_inventory_items" refl, h) refl

  -- It ends in a failure at its first step if not.
  pub cooking_stops :
      (order_id : ℕ) (db : Db) (e : Failure)
      → (reserve_inventory_items order_id db).0 ≡ err e
      → documented_run (governed_tools platform) program_start_cooking (args_of order_id) db
        ≡ some (err e, reserved order_id db)
  unfolding documented_run program_start_cooking resolve lookup find_step
  cooking_stops order_id db e h =
      execute_raise 5 (governed_tools platform) cooking_steps (args_of order_id) []
        "reserve_inventory" "reserve_inventory_items" order_arg "inventory_result"
        (some "check_inventory_alert") (reserve_raises order_id db e h)
