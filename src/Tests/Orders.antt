-- ===== src/Tests/Orders.antt =====
-- The theorems about orders, their tools and the machines at concrete inputs.
use sieshka.Prelude.{
  ℕ, ◌≡◌, ◌≤◌, ◌+◌, ◌*◌, ◌⊎◌, refl, inl, true, false, String, none, some, [], ◌∷◌, ◌==◌, nat_eq,
  string_eq, if◌then◌else◌,
}
use sieshka.Prelude.Int.{pos, ◌-ℤ◌}
use sieshka.Prelude.Dict.{lookup}
use sieshka.Orders.{
  OrderState, order_transitions, draft, confirmed, payment_pending, cooking, cancelled, closed,
  confirm, request_payment, payment_failed, start_cooking, start_packing, cancel,
}
use sieshka.Orders.Lifecycle
use sieshka.Fsm.{moved}
use sieshka.Database.{Db, ok, in_integer, absent, given, dict, other}
use sieshka.Tools.Inventory.{reserve_inventory_items, set_quantity}
use sieshka.Tools.Inventory.Counts.{Counted, set_quantity_counts}
use sieshka.Tools.Inventory.Calls.{
  decrement, edit, sell_order, recompute, perform_all, ledger_accounts,
}
use sieshka.Tools.Inventory.Ledger.{opening}
use sieshka.Tools.Inventory.Sales.{Ends, reserve-Ends}
use sieshka.Tools.Orders.{run_tool, transition}
use sieshka.Tools.Orders.Governed.{Governed, terminal_tools-Governed}
use sieshka.Services.Order.{transition_order}
use sieshka.Services.Order.Transition.{Outcome, state_of, transition_order-Outcome}
use sieshka.Services.Order.Histories.{transition_all, histories-FollowsGraph}
use sieshka.Services.Order.Tickets.{new_ticket, start_cooking_opens_ticket}
use sieshka.Tests.{platform_test, shop, reserved_3}

transition_order-Outcome_example :
    Outcome
      (order_transitions draft confirm)
      false
      1
      confirm
      shop
      (transition_order platform_test 1 confirm shop)
unfolding lookup
transition_order-Outcome_example = transition_order-Outcome platform_test 1 confirm shop refl

histories-FollowsGraph_example :
    (t : OrderState) × (state_of 1 (
        transition_all platform_test
          ((1, confirm) ∷ (3, start_cooking) ∷ (1, cancel) ∷ (8, cancel) ∷ [])
          shop)
      ≡ some t)
    × Lifecycle.Reach draft t
unfolding lookup
histories-FollowsGraph_example =
    histories-FollowsGraph platform_test
      ((1, confirm) ∷ (3, start_cooking) ∷ (1, cancel) ∷ (8, cancel) ∷ []) shop 1 draft refl

start_cooking_opens_ticket_example :
    (db' : Db) × (transition_order platform_test 3 start_cooking shop ≡ (ok (moved cooking), db'))
    × (ticket_id : ℕ) × (lookup ticket_id shop.kitchen_tickets ≡ none)
    × ((k : ℕ)
        → lookup k db'.kitchen_tickets
          ≡ (if ticket_id == k then some (new_ticket 3) else lookup k shop.kitchen_tickets))
    × ((sku : String) → opening sku db' ≡ opening sku shop)
unfolding lookup
start_cooking_opens_ticket_example =
    start_cooking_opens_ticket platform_test 3 shop true refl (inl refl) reserved_3

reserve-Ends_example :
    Ends 3
      (dict (given "ramen") absent (given (pos 3)) ∷ other ∷ [])
      false
      (reserve_inventory_items 3 shop)
      shop
unfolding lookup
reserve-Ends_example = reserve-Ends 3 shop refl

ledger_accounts_example :
    opening "ramen" (
      perform_all
        (sell_order 3 ∷ edit "ramen" (pos 40) ∷ decrement "ramen" (pos 5) ∷ recompute "tea" ∷ [])
        shop)
    ≡ opening "ramen" shop
ledger_accounts_example =
    ledger_accounts
      (sell_order 3 ∷ edit "ramen" (pos 40) ∷ decrement "ramen" (pos 5) ∷ recompute "tea" ∷ [])
      "ramen" shop

terminal_tools-Governed_example : Governed (run_tool (transition draft confirmed) 1 shop) shop
unfolding order_transitions
terminal_tools-Governed_example =
    terminal_tools-Governed (transition draft confirmed) 1 shop (confirm, refl)

accepted_bounded_example :
    Lifecycle.accepted draft (confirm ∷ request_payment ∷ payment_failed ∷ cancel ∷ [])
      + Lifecycle.stage draft
    ≤ Lifecycle.stage
        (Lifecycle.run draft (confirm ∷ request_payment ∷ payment_failed ∷ cancel ∷ []))
      + 2 * Lifecycle.failures (confirm ∷ request_payment ∷ payment_failed ∷ cancel ∷ [])
accepted_bounded_example =
    Lifecycle.accepted_bounded draft (confirm ∷ request_payment ∷ payment_failed ∷ cancel ∷ [])

can_end_example : (payment_pending ≡ cancelled) ⊎ Lifecycle.Reach payment_pending closed
can_end_example = Lifecycle.can_end payment_pending

started_never_cancelled_example :
    Lifecycle.is_started (Lifecycle.run cooking (cancel ∷ start_packing ∷ cancel ∷ [])) ≡ true
started_never_cancelled_example =
    Lifecycle.started_never_cancelled cooking (cancel ∷ start_packing ∷ cancel ∷ []) refl

set_quantity_counts_example : Counted true "ramen" (pos 4) shop (set_quantity "ramen" (pos 4) shop)
unfolding lookup in_integer ◌-ℤ◌
set_quantity_counts_example = set_quantity_counts "ramen" (pos 4) shop refl
