-- ===== src/Services/Order/Tickets.antt =====
-- What START_COOKING writes besides the order's state: one kitchen ticket, and the stock.
use sieshka.Prelude.{
  ℕ, Bool, String, ◌≡◌, refl, sym, ap, ◌∙◌, ◌⊎◌, Option, none, some, arith, ◌==◌, nat_eq,
  nat_beq_iff, if◌then◌else◌,
}
use sieshka.Prelude.Dict.{lookup, insert, adjust, lookup-insert, lookup-adjust}
use sieshka.Orders.{OrderState, order_transitions, paid, confirmed, cooking, start_cooking}
use sieshka.Fsm.Machines.{new}
use sieshka.Fsm.{moved}
use sieshka.Database.{OrderRow, TicketRow, Db, Result, ok, err, committed}
use sieshka.Tools.Inventory.{reserve_inventory_items}
use sieshka.Tools.Inventory.Ledger.{opening, reserve_inventory_items-Accounts}
use sieshka.Tools.Inventory.Sales.{reserve-Reports}
use sieshka.Vm.{Platform}
use sieshka.Programs.{select_program}
use sieshka.Services.Order.{save_trace_id, on_cooking, transition_order}
use sieshka.Services.Order.Cooking.{cooking_run, started, reserved, ticket_of}
use sieshka.Services.Order.Transition.{settled, finish, trace_of}

-- A ticket just opened for an order.
abbrev pub new_ticket : ℕ → TicketRow
new_ticket order_id = record { order_id = order_id; state = new }

lookup-opened :
    (k ticket_id order_id : ℕ) (db : Db)
    → lookup k (
        adjust ticket_id
          (λ t. record t { order_id = order_id })
          (insert ticket_id (new_ticket order_id) db.kitchen_tickets))
      ≡ (if ticket_id == k then some (new_ticket order_id) else lookup k db.kitchen_tickets)
lookup-opened k ticket_id order_id db =
    rw (lookup-adjust, lookup-insert) (ground (arith, nat_beq_iff ticket_id k))

pub edge :
    (s : OrderState)
    → (s ≡ paid) ⊎ (s ≡ confirmed)
    → order_transitions s start_cooking ≡ some cooking
unfolding order_transitions
edge s ready = ground arith

committed_ok :
    {A : Type 0} (out : Result A × Db) (before : Db) (a : A)
    → out.0 ≡ ok a
    → committed out before ≡ out.1
committed_ok (ok b, after) before a h = refl
committed_ok (err e, after) before a h = absurd (ground arith)

module _ (platform : Platform) where
  -- What is the same before and after the trace id is saved.
  finish_cooking :
      (order_id : ℕ) (db : Db) (trace_id : Option ℕ)
      → let db' = finish platform order_id start_cooking cooking db trace_id in
        (db'.kitchen_tickets ≡ db.kitchen_tickets)
        × ((sku : String) → opening sku db' ≡ opening sku db)
  unfolding finish on_cooking save_trace_id opening
  finish_cooking order_id db none = (refl, λ sku. refl)
  finish_cooking order_id db (some trace_id) = (refl, λ sku. refl)

  pub cooking_result :
      (order_id : ℕ) (db : Db) {o : OrderRow} (b : Bool)
      → lookup order_id db.orders ≡ some o
      → order_transitions o.state start_cooking ≡ some cooking
      → (o.state ≡ paid) ⊎ (o.state ≡ confirmed)
      → (reserve_inventory_items order_id db).0 ≡ ok b
      → (trace_id : Option ℕ) × (transition_order platform order_id start_cooking db ≡ (
        ok (moved cooking),
        finish platform order_id start_cooking cooking (started platform order_id db) trace_id,
      ))
  unfolding transition_order select_program
  cooking_result order_id db {o} b h g ready returned = (
    (trace_of platform order_id start_cooking o.state cooking db).trace_id,
    rw (transition_order, h, g)
        (settled platform order_id start_cooking o.state cooking db (started platform order_id db)
          (cooking_run platform order_id db b h ready returned)),
  )

  opening-started :
      (order_id : ℕ) (db : Db) (sku : String) (b : Bool)
      → (reserve_inventory_items order_id db).0 ≡ ok b
      → opening sku (started platform order_id db) ≡ opening sku db
  unfolding opening
  opening-started order_id db sku b returned =
      ap (λ d. opening sku d)
        (sym (committed_ok (reserve_inventory_items order_id db) db b returned))
      ∙ reserve_inventory_items-Accounts order_id sku db

  -- START_COOKING of an order that is paid, or confirmed for cash, and whose items can be reserved, succeeds,
  -- also when the stock does not suffice. It opens exactly one kitchen ticket, of that order and new, under an id
  -- that no ticket had, and leaves every other ticket alone; and the ledger accounts for the stock
  -- that it took.
  pub start_cooking_opens_ticket :
      (order_id : ℕ) (db : Db) {o : OrderRow} (b : Bool)
      → lookup order_id db.orders ≡ some o
      → (o.state ≡ paid) ⊎ (o.state ≡ confirmed)
      → (reserve_inventory_items order_id db).0 ≡ ok b
      → (db' : Db) × (transition_order platform order_id start_cooking db
          ≡ (ok (moved cooking), db'))
        × (ticket_id : ℕ) × (lookup ticket_id db.kitchen_tickets ≡ none)
        × ((k : ℕ)
            → lookup k db'.kitchen_tickets ≡ (
                if ticket_id == k then some (new_ticket order_id) else lookup k db.kitchen_tickets))
        × ((sku : String) → opening sku db' ≡ opening sku db)
  start_cooking_opens_ticket order_id db {o} b h ready returned =
      let (trace_id, e) = cooking_result order_id db b h (edge o.state ready) ready returned in
      let (tickets, ledger) = finish_cooking order_id (started platform order_id db) trace_id in
      let kept = (reserve-Reports order_id db b h returned).tickets_kept in
      (
        finish platform order_id start_cooking cooking (started platform order_id db) trace_id,
        e,
        ticket_of platform order_id db,
        ap (λ ts. lookup (ticket_of platform order_id db) ts) (sym kept)
            ∙ platform.new_id_unused (reserved platform order_id db),
        λ k.
            ap (λ ts. lookup k ts) tickets
            ∙ lookup-opened k (ticket_of platform order_id db) order_id
                (reserved platform order_id db)
            ∙ ap
                (λ ts.
                  if ticket_of platform order_id db == k
                  then some (new_ticket order_id)
                  else lookup k ts)
                kept,
        λ sku. ledger sku ∙ opening-started order_id db sku b returned,
      )
