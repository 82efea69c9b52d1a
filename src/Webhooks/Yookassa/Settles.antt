-- ===== src/Webhooks/Yookassa/Settles.antt =====
-- What a genuine notification of a success does, from the body to the kitchen.
use sieshka.Tools.Inventory.{reserve_inventory_items}
use sieshka.Prelude.{
  ℕ, Bool, ◌≡◌, ◌≢◌, refl, ap, ◌∙◌, true, false, Option, some, List, nat_eq, string_eq,
}
use sieshka.Prelude.Dict.{lookup}
use sieshka.Orders.{payment_pending, cooking, OrderState, OrderEvent}
use sieshka.Fsm.{TransitionResult}
use sieshka.Database.{success, PaymentRow, OrderRow, Db, Result, ok, continue, pure}
use sieshka.Vm.{Platform}
use sieshka.Services.Idempotency.{TraceEvent, get_by_trace_id, is_recorded}
use sieshka.Services.Payment.{get_by_provider_id, RemotePayment, verify_provider_payment}
use sieshka.Services.Payment.Confirmed.{Settled, confirm_payment-Settled}
use sieshka.Webhooks.Yookassa.{
  Notification, accepted, settle_notification, check_provider, with_order, with_ids,
  yookassa_webhook,
}

-- The body that YooKassa posts for a payment that succeeded.
abbrev pub succeeded : ℕ → ℕ → Notification
succeeded trace_id payment_id = record {
  event = "payment.succeeded";
  trace_id = some trace_id;
  payment_id = some payment_id;
}

module _ (platform : Platform) (get_payment : ℕ → Option RemotePayment)
    (traces : List TraceEvent) where
  goes_to_confirm :
      (trace_id payment_id : ℕ) (db : Db) {e : TraceEvent} {remote : RemotePayment}
      → get_by_trace_id trace_id traces ≡ some e
      → get_payment payment_id ≡ some remote
      → verify_provider_payment remote payment_id "succeeded" db ≡ true
      → yookassa_webhook platform get_payment traces (some (succeeded trace_id payment_id)) db
        ≡ settle_notification platform "payment.succeeded" e.entity_id payment_id trace_id db
  unfolding yookassa_webhook with_ids with_order check_provider
  goes_to_confirm trace_id payment_id db known answered verified =
      rw (known, with_order, answered, check_provider, verified) refl

  -- A notification that a payment succeeded, which the provider confirms and whose resume point has not
  -- run, is answered with 200 and settles the payment: the payment is marked as a success, and the order
  -- for which the trace id was recorded, if it waits for a payment and its items can be reserved, ends in the
  -- kitchen, while every other order keeps its state. Which order the payment was made for is not asked.
  pub yookassa_webhook-Settled :
      (trace_id payment_id : ℕ) (db : Db) {e : TraceEvent} {remote : RemotePayment} {o : OrderRow}
      {p : PaymentRow} (b : Bool)
      → get_by_trace_id trace_id traces ≡ some e
      → get_payment payment_id ≡ some remote
      → verify_provider_payment remote payment_id "succeeded" db ≡ true
      → lookup e.entity_id db.orders ≡ some o
      → o.state ≡ payment_pending
      → (reserve_inventory_items e.entity_id db).0 ≡ ok b
      → get_by_provider_id payment_id db.payments ≡ some p
      → p.state ≢ success
      → is_recorded trace_id "payment_confirmation" db ≡ false
      → (db' : Db) × (yookassa_webhook platform get_payment traces
            (some (succeeded trace_id payment_id))
            db
          ≡ (ok accepted, db'))
        × Settled platform "payment_confirmation" success cooking e.entity_id trace_id p db db'
  unfolding settle_notification
  yookassa_webhook-Settled trace_id payment_id db {e} b known answered verified h waits serves paid
        not_yet fresh =
      let (db', confirmed, settled) =
        confirm_payment-Settled platform e.entity_id payment_id trace_id db b h waits serves paid
          not_yet fresh in
      (
        db',
        goes_to_confirm trace_id payment_id db known answered verified
            ∙ ap
                (λ (out : Result (TransitionResult OrderState OrderEvent) × Db).
                  continue out.0 (λ _. pure accepted) out.1)
                confirmed,
        settled,
      )
