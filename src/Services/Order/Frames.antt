-- ===== src/Services/Order/Frames.antt =====
-- What transitions of an order leave alone: the payments, and the resume points that have run.
use mathlib.Core.Path.{subst}
use sieshka.Prelude.{
  ℕ, Bool, true, false, ◌≡◌, refl, sym, ap, ◌∙◌, ◌⊎◌, inl, inr, Option, none, some, ◌≢◌, arith,
  Option-cases, nat_eq,
}
use sieshka.Prelude.Dict.{lookup}
use sieshka.Orders.{
  OrderState, OrderEvent, order_transitions, order_state_eq, state_beq_iff, paid, confirmed,
  cooking, start_cooking,
}
use sieshka.Fsm.{TransitionResult, rejected, moved}
use sieshka.Database.{OrderRow, Db, Result, ok, err}
use sieshka.Tools.Inventory.{reserve_inventory_items}
use sieshka.Tools.Inventory.Sales.{reserve-Reports}
use sieshka.Vm.{Platform}
use sieshka.Services.Order.{save_trace_id, on_cooking, run_transition, transition_order}
use sieshka.Services.Order.Runs.{write_run, moved_to}
use sieshka.Services.Order.Cooking.{started}
use sieshka.Services.Order.Transition.{
  settled, finish, MovedOne, Outcome, stops-start_cooking, stops-raised, transition_order-Outcome,
}
use sieshka.Services.Order.Tickets.{cooking_result, edge}

-- The same payments and the same resume points.
pub record SameMoney (db db' : Db) : Type 0 where
  pub payments_same : db'.payments ≡ db.payments
  pub keys_same : db'.idempotency_keys ≡ db.idempotency_keys

pub MovedOne-twice :
    (order_id : ℕ) (t u : OrderState) (db mid db' : Db)
    → MovedOne order_id t db mid
    → MovedOne order_id u mid db'
    → MovedOne order_id u db db'
MovedOne-twice order_id t u db mid db' first second j = second j ∙ rw (first j) (ground arith)

module _ (platform : Platform) where
  finish_cooking-SameMoney :
      (order_id : ℕ) (db : Db) (trace_id : Option ℕ)
      → SameMoney db (finish platform order_id start_cooking cooking db trace_id)
  unfolding finish on_cooking save_trace_id
  finish_cooking-SameMoney order_id db none = record { payments_same = refl; keys_same = refl }
  finish_cooking-SameMoney order_id db (some t) = record { payments_same = refl; keys_same = refl }

  both_known :
      (order_id : ℕ) (db : Db) (out : Result (TransitionResult OrderState OrderEvent) × Db)
      {answer : Option OrderState} {stopped : Bool}
      → answer ≡ some cooking
      → stopped ≡ false
      → Outcome answer stopped order_id start_cooking db out
      → Outcome (some cooking) false order_id start_cooking db out
  both_known order_id db out g h outcome = rw (g, h) at outcome

  outcome_moves :
      (order_id : ℕ) (db db' : Db) {o : OrderRow} (b : Bool)
      → lookup order_id db.orders ≡ some o
      → order_transitions o.state start_cooking ≡ some cooking
      → (reserve_inventory_items order_id db).0 ≡ ok b
      → transition_order platform order_id start_cooking db ≡ (ok (moved cooking), db')
      → MovedOne order_id cooking db db'
  outcome_moves order_id db db' {o} b h g returned e =
      let (d, is_d, moves) =
        both_known order_id db (transition_order platform order_id start_cooking db) g
          (stops-start_cooking order_id db b returned)
          (transition_order-Outcome platform order_id start_cooking db h) in
      λ j. subst (λ (x : Db). MovedOne order_id cooking db x) (ap (λ r. r.1) (sym is_d ∙ e)) moves j

  -- START_COOKING of an order that is ready for it, with what it leaves alone.
  pub start_cooking-SameMoney :
      (order_id : ℕ) (db : Db) {o : OrderRow} (b : Bool)
      → lookup order_id db.orders ≡ some o
      → (o.state ≡ paid) ⊎ (o.state ≡ confirmed)
      → (reserve_inventory_items order_id db).0 ≡ ok b
      → (db' : Db) × (transition_order platform order_id start_cooking db
          ≡ (ok (moved cooking), db'))
        × MovedOne order_id cooking db db'
        × SameMoney db db'
  start_cooking-SameMoney order_id db {o} b h ready returned =
      let (trace_id, e) =
        cooking_result platform order_id db b h (edge o.state ready) ready returned in
      let sold = reserve-Reports order_id db b h returned in
      let same = finish_cooking-SameMoney order_id (started platform order_id db) trace_id in
      (
        finish platform order_id start_cooking cooking (started platform order_id db) trace_id,
        e,
        outcome_moves order_id db _ b h (edge o.state ready) returned e,
        record {
          payments_same = same.payments_same ∙ sold.payments_kept;
          keys_same = same.keys_same ∙ sold.keys_kept;
        },
      )

  cooking_stopped :
      (order_id : ℕ) (db : Db) (out : Result (TransitionResult OrderState OrderEvent) × Db)
      {answer : Option OrderState} {stopped : Bool}
      → answer ≡ some cooking
      → stopped ≡ true
      → Outcome answer stopped order_id start_cooking db out
      → out ≡ (ok (rejected start_cooking), db)
  cooking_stopped order_id db out g h outcome = rw (g, h) at outcome

  ends-SameMoney :
      (order_id : ℕ) (db : Db) {o : OrderRow} (r : Result Bool)
      → lookup order_id db.orders ≡ some o
      → (o.state ≡ paid) ⊎ (o.state ≡ confirmed)
      → (reserve_inventory_items order_id db).0 ≡ r
      → (result : TransitionResult OrderState OrderEvent) × (db' : Db) × (transition_order platform
            order_id start_cooking db
          ≡ (ok result, db'))
        × SameMoney db db'
  ends-SameMoney order_id db (ok b) h ready e =
      let (db', out, moves, same) = start_cooking-SameMoney order_id db b h ready e in
      (moved cooking, db', out, same)
  ends-SameMoney order_id db {o} (err f) h ready e = (
    rejected start_cooking,
    db,
    cooking_stopped order_id db (transition_order platform order_id start_cooking db)
        (edge o.state ready) (stops-raised order_id db f e)
        (transition_order-Outcome platform order_id start_cooking db h),
    record { payments_same = refl; keys_same = refl },
  )

  -- START_COOKING of an order that is ready for it, whether its items can be reserved or not.
  pub start_cooking_ends :
      (order_id : ℕ) (db : Db) {o : OrderRow}
      → lookup order_id db.orders ≡ some o
      → (o.state ≡ paid) ⊎ (o.state ≡ confirmed)
      → (result : TransitionResult OrderState OrderEvent) × (db' : Db) × (transition_order platform
            order_id start_cooking db
          ≡ (ok result, db'))
        × SameMoney db db'
  start_cooking_ends order_id db h ready =
      ends-SameMoney order_id db (reserve_inventory_items order_id db).0 h ready refl

  finish_tickets :
      (order_id : ℕ) (event : OrderEvent) (t : OrderState) (db : Db) (trace_id : Option ℕ)
      → t ≢ cooking
      → (finish platform order_id event t db trace_id).kitchen_tickets ≡ db.kitchen_tickets
  unfolding finish on_cooking save_trace_id
  finish_tickets order_id event t db none n = ground (arith, state_beq_iff t cooking)
  finish_tickets order_id event t db (some trace_id) n = ground (arith, state_beq_iff t cooking)

  not_cooking :
      (s t : OrderState) (event : OrderEvent)
      → order_transitions s event ≡ some t
      → event ≢ start_cooking
      → t ≢ cooking
  unfolding order_transitions
  not_cooking s t event g n = λ e. ground arith

  run_tickets :
      (order_id : ℕ) (event : OrderEvent) (t : OrderState) (db : Db) {o : OrderRow}
      → lookup order_id db.orders ≡ some o
      → order_transitions o.state event ≡ some t
      → event ≢ start_cooking
      → (run_transition platform order_id event o.state t db).1.kitchen_tickets ≡ db.kitchen_tickets
  run_tickets order_id event t db {o} h g n =
      ap (λ (out : Result (TransitionResult OrderState OrderEvent) × Db). out.1.kitchen_tickets)
        (settled platform order_id event o.state t db (moved_to order_id t db)
          (write_run platform order_id event t db h g n))
      ∙ finish_tickets order_id event t (moved_to order_id t db) _ (not_cooking o.state t event g n)

  -- No transition but START_COOKING touches a ticket.
  pub transition_order-tickets :
      (order_id : ℕ) (event : OrderEvent) (db : Db)
      → event ≢ start_cooking
      → (transition_order platform order_id event db).1.kitchen_tickets ≡ db.kitchen_tickets
  unfolding transition_order
  transition_order-tickets order_id event db n = elim (Option-cases (lookup order_id db.orders)) [
    | inl missing ↦ rw (transition_order, missing) refl
    | inr (o, h) ↦ elim (Option-cases (order_transitions o.state event)) [
      | inl refused ↦ rw (transition_order, h, refused) refl
      | inr (t, g) ↦ rw (transition_order, h, g) (run_tickets order_id event t db h g n)
    ]
  ]
