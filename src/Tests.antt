-- ===== src/Tests.antt =====
-- Witnesses: the theorems at concrete inputs, with a platform that does what is documented.
pub mod Orders
pub mod Payments
pub mod Staff
pub mod Schedule
pub mod Agents
pub mod Customers
pub mod Menus
pub mod Checkouts
use mathlib.Core.Option
use sieshka.Prelude.{
  ℕ, zero, suc, ◌≡◌, ◌≤◌, ◌+◌, ◌⊎◌, refl, inl, inr, Bool, true, false, String, Option, none, some,
  List, [], ◌∷◌, arith, ◌==◌, nat_eq, nat_beq_iff, string_eq, is_some, if◌then◌else◌,
}
use sieshka.Prelude.Dict.{Dict, lookup}
use sieshka.Orders.{
  OrderState, OrderEvent, order_transitions, draft, confirmed, payment_pending, paid, cooking,
  closed, confirm, request_payment, payment_confirmed, payment_failed, start_cooking, cancel,
}
use sieshka.Fsm.Machines.{
  KitchenState, KitchenEvent, kitchen_transitions, new, ready, queued, queue, available,
}
use sieshka.Prelude.Int.{pos, ◌-ℤ◌}
use sieshka.Tools.Inventory.{
  reserve_inventory_items, reserve_items, reserve_item, reserve_qty, reserve_known, reserve_sku,
  sell, item_sku, quantity_of, update_quantity, quantity_fits, record_movement,
}
use sieshka.Database.{
  ItemJson, absent, given, dict, other, OrderRow, PaymentRow, pending, StockRow, TicketRow, Db,
  Failure, no_result, Result, ok, err, in_integer,
}
use sieshka.Vm.{
  Value, Values, Registry, Program, Trace, Capabilities, Platform, documented_run, all_resolve,
}

-- More than every id in the table.
pub fresh : Dict ℕ TicketRow → ℕ
fresh [] = 0
fresh ((i, t) ∷ ts) = suc (i + fresh ts)

pub fresh_above : (k : ℕ) (ts : Dict ℕ TicketRow) → fresh ts ≤ k → lookup k ts ≡ none
unfolding fresh lookup
fresh_above k [] h = refl
fresh_above k ((i, t) ∷ ts) h = ground (arith, nat_beq_iff i k, fresh_above k ts)

pub run_test : Registry → Program → Values → Db → Trace × Db
run_test registry p context db = elim (documented_run registry p context db) [
  | none ↦ (record { status = err no_result; trace_id = none }, db)
  | some (r, db') ↦ (record { status = r; trace_id = some 1 }, db')
]

pub run_test_documented :
    (registry : Registry) (p : Program) (context : Values) (db db' : Db) (r : Result Value)
    → documented_run registry p context db ≡ some (r, db')
    → ((run_test registry p context db).0.status ≡ r) × ((run_test registry p context db).1 ≡ db')
unfolding run_test
run_test_documented registry p context db db' r h = rw (h, run_test) (refl, refl)

abbrev pub platform_test : Platform
platform_test = record {
  run = run_test;
  run_documented = run_test_documented;
  is_valid = λ p. all_resolve p.steps p.steps;
  valid_documented = λ p h. h;
  check = λ granted name. is_some (lookup name granted);
  check_documented = λ granted name h. h;
  new_id = λ db. fresh db.kitchen_tickets;
  new_id_unused = λ db. fresh_above (fresh db.kitchen_tickets) db.kitchen_tickets (omega arith);
}

abbrev pub order : OrderState → OrderRow
order s = record {
  state = s;
  items = dict (given "ramen") absent (given (pos 3)) ∷ other ∷ [];
  delivery_mode = "pickup";
  payment_id = none;
  trace_id = none;
}

-- The payment of order 5, which YooKassa knows as number 77.
abbrev pub payment : PaymentRow
payment = record {
  id = 50;
  order_id = 5;
  provider_id = 77;
  amount = 49900;
  currency = "RUB";
  state = pending;
}

-- Order 1 is a draft, 2 is confirmed, 3 is paid and there is less in stock than it takes, 5 waits for
-- its payment, and 9 is cooking, with a new ticket and one that is ready.
abbrev pub shop : Db
shop = record {
  orders =
      (1, order draft)
      ∷ (2, order confirmed)
      ∷ (3, order paid)
      ∷ (5, order payment_pending)
      ∷ (9, order cooking)
      ∷ [];
  kitchen_tickets =
      (4, record { order_id = 9; state = new }) ∷ (6, record { order_id = 9; state = ready }) ∷ [];
  inventory = ("ramen", record { quantity = pos 2; state = available }) ∷ [];
  inventory_movements = [];
  product_skus = [];
  payments = payment ∷ [];
  idempotency_keys = [];
}

-- The items of these orders can be reserved, and the stock does not suffice.
pub reserved_2 : (reserve_inventory_items 2 shop).0 ≡ ok true
unfolding reserve_inventory_items reserve_items reserve_item reserve_qty reserve_known reserve_sku
    sell item_sku quantity_of update_quantity quantity_fits record_movement lookup in_integer ◌-ℤ◌
reserved_2 = refl

pub reserved_3 : (reserve_inventory_items 3 shop).0 ≡ ok true
unfolding reserve_inventory_items reserve_items reserve_item reserve_qty reserve_known reserve_sku
    sell item_sku quantity_of update_quantity quantity_fits record_movement lookup in_integer ◌-ℤ◌
reserved_3 = refl

pub reserved_5 : (reserve_inventory_items 5 shop).0 ≡ ok true
unfolding reserve_inventory_items reserve_items reserve_item reserve_qty reserve_known reserve_sku
    sell item_sku quantity_of update_quantity quantity_fits record_movement lookup in_integer ◌-ℤ◌
reserved_5 = refl
