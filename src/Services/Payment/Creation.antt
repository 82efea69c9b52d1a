-- ===== src/Services/Payment/Creation.antt =====
-- PaymentService.create_payment of app/services/payment_service.py: the trace, the provider's payment,
-- the row of `payments`, and the order's request.
use sieshka.Prelude.{
  ℕ, ◌≡◌, refl, Bool, false, not, ◌||◌, String, Option, none, some, List, [], ◌∷◌, ◌++◌, ◌==◌,
  nat_eq, string_eq, if◌then◌else◌,
}
use sieshka.Prelude.Dict.{lookup}
use sieshka.Orders.{order_transitions, confirmed, payment_pending, request_payment}
use sieshka.Database.{
  PaymentRow, pending, OrderRow, Db, no_result, bad_payment_method, provider_unavailable, Result,
  ok, err,
}
use sieshka.Vm.{Platform}
use sieshka.Services.Order.Runs.{moved_to}
use sieshka.Services.Order.Transition.{MovedOne, state_of-adjust}
use sieshka.Tools.Orders.{with_state}
use sieshka.Services.Idempotency.{TraceEvent, get_by_trace_id, record_event, recorded_found}
use sieshka.Services.Payment.{run_simple_transition}
use sieshka.Services.Payment.Resume.{simple_moves}

-- `PaymentInitResult`, without the texts that YooKassa returns.
pub record PaymentInitResult : Type 0 where
  pub payment_id : ℕ
  pub trace_id : ℕ

-- `payment_method_data is not None and its type is none of DEFAULT_PAYMENT_METHOD_TYPES`.
abbrev pub is_refused_method : Option String → Bool
is_refused_method none = false
is_refused_method (some method) = not (method == "sbp" || method == "sberbank")

abbrev pub pending_payment : ℕ → ℕ → ℕ → ℕ → String → PaymentRow
pending_payment row_id order_id provider_id amount currency = record {
  id = row_id;
  order_id = order_id;
  provider_id = provider_id;
  amount = amount;
  currency = currency;
  state = pending;
}

abbrev pub add_payment : PaymentRow → Db → Db
add_payment p db = record db { payments = db.payments ++ p ∷ [] }

module _ (platform : Platform) where
  -- After the provider has answered; where the order is missing the session is dropped.
  unfoldable pub request_order : ℕ → ℕ → ℕ → Db → Db → Result PaymentInitResult × Db
  request_order order_id provider_id trace_id before db = elim (lookup order_id db.orders) [
    | none ↦ (err no_result, before)
    | some o ↦
        let (result, db') = run_simple_transition platform order_id request_payment o.state db in
        (ok (record { payment_id = provider_id; trace_id = trace_id }), db')
  ]

  -- `answer` is the id of the payment that YooKassa made, `none` an error of its API. The new ids of the
  -- trace and of the row are arguments.
  unfoldable pub create_payment :
      (answer : Option ℕ) (trace_id row_id order_id amount : ℕ) (currency : String)
      (method : Option String) (traces : List TraceEvent) (db : Db)
      → List TraceEvent × Result PaymentInitResult × Db
  create_payment answer trace_id row_id order_id amount currency method traces db =
      let traces' = record_event trace_id order_id traces in
      if is_refused_method method then (traces', err bad_payment_method, db) else elim answer [
        | none ↦ (traces', err provider_unavailable, db)
        | some provider_id ↦
            let out =
              request_order order_id provider_id trace_id db
                (add_payment (pending_payment row_id order_id provider_id amount currency) db) in
            (traces', out.0, out.1)
      ]

  requested :
      (order_id provider_id trace_id : ℕ) (before db : Db) {o : OrderRow}
      → lookup order_id db.orders ≡ some o
      → o.state ≡ confirmed
      → request_order order_id provider_id trace_id before db ≡ (
        ok (record { payment_id = provider_id; trace_id = trace_id }),
        moved_to order_id payment_pending db,
      )
  unfolding request_order order_transitions
  requested order_id provider_id trace_id before db {o} h is_confirmed =
      rw
        (
          request_order,
          h,
          simple_moves platform order_id request_payment payment_pending db h
              (rw is_confirmed refl),
        )
        refl

  pub created :
      (provider_id trace_id row_id order_id amount : ℕ) (currency : String) (method : Option String)
      (traces : List TraceEvent) (db : Db) {o : OrderRow}
      → is_refused_method method ≡ false
      → lookup order_id db.orders ≡ some o
      → o.state ≡ confirmed
      → create_payment (some provider_id) trace_id row_id order_id amount currency method traces db
        ≡ (
          record_event trace_id order_id traces,
          ok (record { payment_id = provider_id; trace_id = trace_id }),
          moved_to order_id payment_pending
              (add_payment (pending_payment row_id order_id provider_id amount currency) db),
        )
  unfolding create_payment
  created provider_id trace_id row_id order_id amount currency method traces db allowed h
        is_confirmed =
      rw
        (
          create_payment,
          allowed,
          requested order_id provider_id trace_id db
              (add_payment (pending_payment row_id order_id provider_id amount currency) db) h
              is_confirmed,
        )
        refl

  -- A payment that is created for a confirmed order, by an allowed method and with the provider's answer:
  -- a row is added that is pending, with the amount and the currency asked for; the order waits for its
  -- payment and every other order keeps its state; and the new trace id finds the order.
  pub create_payment_requests :
      (provider_id trace_id row_id order_id amount : ℕ) (currency : String) (method : Option String)
      (traces : List TraceEvent) (db : Db) {o : OrderRow}
      → is_refused_method method ≡ false
      → get_by_trace_id trace_id traces ≡ none
      → lookup order_id db.orders ≡ some o
      → o.state ≡ confirmed
      → (traces' : List TraceEvent) × (db' : Db) × (create_payment
            (some provider_id)
            trace_id
            row_id
            order_id
            amount
            currency
            method
            traces
            db
          ≡ (traces', ok (record { payment_id = provider_id; trace_id = trace_id }), db'))
        × (db'.payments
            ≡ db.payments ++ pending_payment row_id order_id provider_id amount currency ∷ [])
        × MovedOne order_id payment_pending db db'
        × (get_by_trace_id trace_id traces'
            ≡ some (record { trace_id = trace_id; entity_id = order_id }))
  create_payment_requests provider_id trace_id row_id order_id amount currency method traces db
        allowed new_trace h is_confirmed =
      let added = add_payment (pending_payment row_id order_id provider_id amount currency) db in
      (
        record_event trace_id order_id traces,
        moved_to order_id payment_pending added,
        created provider_id trace_id row_id order_id amount currency method traces db allowed h
            is_confirmed,
        refl,
        λ j.
            state_of-adjust order_id j (with_state payment_pending) payment_pending added h
              (λ r. refl),
        recorded_found trace_id order_id traces new_trace,
      )
