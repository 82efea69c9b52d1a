-- ===== src/Webhooks/Yookassa/Paid.antt =====
-- A payment from its creation to the kitchen.
use sieshka.Prelude.{
  ℕ, Bool, ◌≡◌, refl, ap, true, false, String, Option, none, some, List, [], ◌∷◌, ◌++◌, arith,
  nat_eq, nat_beq_iff, eq_iff, string_eq, ◌≢◌,
}
use sieshka.Prelude.Dict.{lookup}
use sieshka.Orders.{confirmed, payment_pending, cooking}
use sieshka.Database.{PaymentRow, pending, success, OrderRow, Db, ok}
use sieshka.Vm.{Platform}
use sieshka.Tools.Orders.{with_state}
use sieshka.Services.Order.Runs.{moved_to}
use sieshka.Services.Order.Transition.{MovedOne, state_of-adjust}
use sieshka.Services.Order.Frames.{MovedOne-twice}
use sieshka.Services.Idempotency.{
  TraceEvent, get_by_trace_id, record_event, recorded_found, is_recorded,
}
use sieshka.Services.Payment.{
  with_provider, only, get_by_provider_id, RemotePayment, verify_provider_payment, amount_matches,
}
use sieshka.Services.Payment.Resume.{lookup_moved}
use sieshka.Services.Payment.Creation.{
  is_refused_method, pending_payment, add_payment, create_payment, created,
}
use sieshka.Tools.Inventory.{reserve_inventory_items}
use sieshka.Services.Payment.Confirmed.{still_serves}
use sieshka.Webhooks.Yookassa.{accepted, yookassa_webhook}
use sieshka.Webhooks.Yookassa.Settles.{succeeded, yookassa_webhook-Settled}

-- YooKassa's record of a payment that succeeded.
abbrev pub paid_remote : ℕ → String → RemotePayment
paid_remote amount currency = record {
  status = "succeeded";
  paid = true;
  amount = some (record { value = some amount; currency = currency });
}

with_provider-append :
    (provider_id : ℕ) (ps : List PaymentRow) (p : PaymentRow)
    → with_provider provider_id ps ≡ []
    → p.provider_id ≡ provider_id
    → with_provider provider_id (ps ++ p ∷ []) ≡ p ∷ []
with_provider-append provider_id [] p h e = ground (arith, nat_beq_iff p.provider_id provider_id)
with_provider-append provider_id (q ∷ ps) p h e =
    ground (arith, with_provider-append provider_id ps p)

found_payment :
    (provider_id : ℕ) (ps : List PaymentRow) (p : PaymentRow)
    → with_provider provider_id ps ≡ []
    → p.provider_id ≡ provider_id
    → get_by_provider_id provider_id (ps ++ p ∷ []) ≡ some p
unfolding get_by_provider_id
found_payment provider_id ps p h e = ap only (with_provider-append provider_id ps p h e)

remote_verified :
    (provider_id : ℕ) (db : Db) (p : PaymentRow)
    → get_by_provider_id provider_id db.payments ≡ some p
    → verify_provider_payment (paid_remote p.amount p.currency) provider_id "succeeded" db ≡ true
unfolding verify_provider_payment amount_matches
remote_verified provider_id db p h =
    ground (arith, nat_beq_iff p.amount p.amount, eq_iff p.currency p.currency)

pending_open : pending ≢ success
pending_open e = cc

module _ (platform : Platform) (get_payment : ℕ → Option RemotePayment) where
  -- A payment from end to end: it is created for a confirmed order whose items can be reserved, under a new trace id and a payment id
  -- that is new to the table; then YooKassa's API says that it succeeded with the amount and the currency
  -- asked for, and the notification arrives. The notification is answered with 200, the order is in the
  -- kitchen, and every other order has the state it had before the payment was created.
  pub created_then_paid :
      (provider_id trace_id row_id order_id amount : ℕ) (currency : String) (method : Option String)
      (traces : List TraceEvent) (db : Db) {o : OrderRow} (b : Bool)
      → is_refused_method method ≡ false
      → get_by_trace_id trace_id traces ≡ none
      → lookup order_id db.orders ≡ some o
      → o.state ≡ confirmed
      → (reserve_inventory_items order_id db).0 ≡ ok b
      → with_provider provider_id db.payments ≡ []
      → is_recorded trace_id "payment_confirmation" db ≡ false
      → get_payment provider_id ≡ some (paid_remote amount currency)
      → (traces' : List TraceEvent) × (waiting : Db) × (db' : Db) × (create_payment platform
            (some provider_id)
            trace_id
            row_id
            order_id
            amount
            currency
            method
            traces
            db
          ≡ (traces', ok (record { payment_id = provider_id; trace_id = trace_id }), waiting))
        × (yookassa_webhook platform get_payment traces'
              (some (succeeded trace_id provider_id))
              waiting
            ≡ (ok accepted, db'))
        × MovedOne order_id cooking db db'
  unfolding is_recorded
  created_then_paid provider_id trace_id row_id order_id amount currency method traces db b allowed
        new_trace h is_confirmed serves new_payment fresh answered =
      let p = pending_payment row_id order_id provider_id amount currency in
      let added = add_payment p db in
      let waiting = moved_to order_id payment_pending added in
      let known = found_payment provider_id db.payments p new_payment refl in
      let (db', go, settled) =
        yookassa_webhook-Settled platform get_payment (record_event trace_id order_id traces)
          trace_id provider_id waiting b (recorded_found trace_id order_id traces new_trace)
          answered (remote_verified provider_id waiting p known)
          (lookup_moved platform order_id payment_pending added h) refl
          (still_serves platform order_id payment_pending added.payments added.idempotency_keys db b
            h serves)
          known pending_open fresh in
      (
        record_event trace_id order_id traces,
        waiting,
        db',
        created platform provider_id trace_id row_id order_id amount currency method traces db
            allowed h is_confirmed,
        go,
        MovedOne-twice order_id payment_pending cooking db waiting db'
            (λ j.
              state_of-adjust order_id j (with_state payment_pending) payment_pending added h
                (λ r. refl))
            settled.1,
      )
