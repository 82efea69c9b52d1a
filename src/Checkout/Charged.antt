-- ===== src/Checkout/Charged.antt =====
-- An online checkout, from the request to the pending payment.
use mathlib.Core.Path.{subst}
use sieshka.Prelude.{
  false, ℕ, ◌≡◌, ◌≢◌, refl, ap, ◌∙◌, Option, some, arith, nat_beq_iff, nat_eq, string_eq,
  Option-cases, inl, inr,
}
use sieshka.Prelude.Dict.{lookup}
use sieshka.Orders.{OrderState, OrderEvent, order_transitions, payment_pending, start_cooking}
use sieshka.Fsm.{moved}
use sieshka.Database.{OrderRow, Db, ok}
use sieshka.Vm.{Platform}
use sieshka.Tools.Orders.{create_kitchen_ticket}
use sieshka.Services.Order.{transition_order, save_trace_id, on_cooking}
use sieshka.Services.Order.Runs.{moved_to, write_run}
use sieshka.Services.Order.Transition.{
  state_of, finish, trace_of, settled, Outcome, stops-other, transition_order-Outcome,
}
use sieshka.Services.Payment.{run_simple_transition}
use sieshka.Services.Payment.Creation.{request_order}

module _ (platform : Platform) where
  finish_payments :
      (order_id : ℕ) (event : OrderEvent) (t : OrderState) (db : Db) (trace_id : Option ℕ)
      → (finish platform order_id event t db trace_id).payments ≡ db.payments
  unfolding finish on_cooking save_trace_id create_kitchen_ticket
  finish_payments order_id event t db trace_id = ground arith

  -- A transition along an edge of the graph keeps the payments.
  edge_payments :
      (order_id : ℕ) (event : OrderEvent) (t : OrderState) (db : Db) {o : OrderRow}
      → lookup order_id db.orders ≡ some o
      → order_transitions o.state event ≡ some t
      → event ≢ start_cooking
      → (transition_order platform order_id event db).1.payments ≡ db.payments
  unfolding transition_order
  edge_payments order_id event t db {o} h g n =
      rw
        (
          transition_order,
          h,
          g,
          settled platform order_id event o.state t db (moved_to order_id t db)
              (write_run platform order_id event t db h g n),
        )
        (finish_payments order_id event t (moved_to order_id t db)
          (trace_of platform order_id event o.state t db).trace_id)

  row_of :
      (order_id : ℕ) (s : OrderState) (db : Db)
      → state_of order_id db ≡ some s
      → (o : OrderRow) × (lookup order_id db.orders ≡ some o) × (o.state ≡ s)
  row_of order_id s db h = elim (Option-cases (lookup order_id db.orders)) [
    | inl nothing ↦ absurd (ground (arith, nothing, h))
    | inr (o, there) ↦ (o, there, ground (arith, there, h))
  ]

  abbrev pub Stepped : ℕ → OrderEvent → OrderState → Db → Type 0
  Stepped order_id event t db =
      let out = transition_order platform order_id event db in
      (out.0 ≡ ok (moved t)) × (state_of order_id out.1 ≡ some t) × (out.1.payments ≡ db.payments)

  pub stepped :
      (order_id : ℕ) (event : OrderEvent) (s t : OrderState) (db : Db)
      → state_of order_id db ≡ some s
      → order_transitions s event ≡ some t
      → event ≢ start_cooking
      → Stepped order_id event t db
  stepped order_id event s t db h g n =
      let (row, there, in_s) = row_of order_id s db h in
      let edge = ap (λ s. order_transitions s event) in_s ∙ g in
      let (db', out, one) =
        subst (λ a. Outcome a false order_id event db (transition_order platform order_id event db))
          edge
          (subst
            (λ b.
              Outcome (order_transitions row.state event) b order_id event db
                (transition_order platform order_id event db))
            (stops-other order_id event db n)
            (transition_order-Outcome platform order_id event db there)) in
      (
        ap (λ r. r.0) out,
        ap (λ r. state_of order_id r.1) out
            ∙ one order_id
            ∙ ground (arith, nat_beq_iff order_id order_id),
        edge_payments order_id event t db there edge n,
      )

  -- After its request an order refuses a second one, so that the payment is added and the state stays.
  pub second_request :
      (provider_id trace_id order_id : ℕ) (before db : Db)
      → state_of order_id db ≡ some payment_pending
      → request_order platform order_id provider_id trace_id before db
        ≡ (ok (record { payment_id = provider_id; trace_id = trace_id }), db)
  unfolding request_order run_simple_transition order_transitions
  second_request provider_id trace_id order_id before db h =
      let (o, there, pending_state) = row_of order_id payment_pending db h in
      rw (request_order, there, run_simple_transition, pending_state) refl
