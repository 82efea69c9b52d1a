-- ===== src/Checkout/Placing.antt =====
-- app/api/routes/checkout.py: the handler of POST /api/orders.
use mathlib.Core.Option
use sieshka.Prelude.{
  ℕ, not, ltb, length, ◌||◌, ◌*◌, String, Option, none, some, List, ◌==◌, string_eq, if◌then◌else◌,
}
use sieshka.Prelude.Int.{pos_part}
use sieshka.Prelude.Dict.{Dict, lookup, insert}
use sieshka.Orders.{OrderEvent, confirm, request_payment, start_cooking}
use sieshka.Database.{Db, provider_unavailable, Result, ok, err}
use sieshka.Services.Order.{transition_order}
use sieshka.Services.Payment.Creation.{PaymentInitResult, create_payment}
use sieshka.Checkout.{OrderItem}
use sieshka.Database.{varchar}
use sieshka.Checkout.Route.{
  CheckoutRequest, CheckoutOrder, KeyPayload, Shop, Reply, answered, http_error, uncaught, Outside,
  resolve_checkout_items, is_bad_request, order_of, create_order_from_checkout,
}
use sieshka.Customers.{Customer, Checked, value, error, find_or_create_by_phone}

abbrev pub with_db : Db → Shop → Shop
with_db db shop = record shop { db = db }

module _ (out : Outside) where
  -- A transition whose answer is not looked at; an exception ends the request.
  unfoldable pub then_transition : ℕ → OrderEvent → (Shop → Reply × Shop) → Shop → Reply × Shop
  then_transition id event next shop =
      let (result, db) = transition_order out.platform id event shop.db in
      elim result [ ok answer ↦ next (with_db db shop) | err failure ↦ (uncaught, with_db db shop) ]

  abbrev pub method_type : String → String
  method_type payment_method = if payment_method == "yookassa_sbp" then "sbp" else "sberbank"

  abbrev url_of : Option (ℕ × Option String) → Option String
  url_of none = none
  url_of (some (provider_id, url)) = url

  abbrev reply_to : ℕ → Result PaymentInitResult → Reply
  reply_to id (ok payment) = answered id (url_of out.yookassa)
  reply_to id (err provider_unavailable) = http_error 502
  reply_to id (err failure) = uncaught

  unfoldable pub request_yookassa : ℕ → CheckoutRequest → CheckoutOrder → Shop → Reply × Shop
  request_yookassa id body order shop =
      let (traces, result, db) =
        create_payment out.platform (Option.map (λ answer. answer.0) out.yookassa) out.new_trace
          out.new_payment id (pos_part order.total_rub * 100) "RUB"
          (some (method_type body.payment_method)) shop.traces shop.db in
      (reply_to id result, record shop { db = db; traces = traces })

  unfoldable pub pay_online : ℕ → CheckoutRequest → CheckoutOrder → Shop → Reply × Shop
  unfolding then_transition request_yookassa
  pay_online id body order =
      then_transition id confirm
        (then_transition id request_payment (request_yookassa id body order))

  -- The notifications of the staff and of the customer are left out.
  unfoldable pub pay_cash : ℕ → Shop → Reply × Shop
  unfolding then_transition
  pay_cash id =
      then_transition id confirm
        (then_transition id start_cooking (λ shop. (answered id none, shop)))

  abbrev pub pay : ℕ → CheckoutRequest → CheckoutOrder → Shop → Reply × Shop
  pay id body order =
      if body.payment_method == "cash" then pay_cash id else pay_online id body order

  abbrev pub pay_created : ℕ → CheckoutRequest → CheckoutOrder → Shop → Option Shop → Reply × Shop
  pay_created id body order shop none = (uncaught, shop)
  pay_created id body order shop (some created) = pay id body order created

  unfoldable pub place_order : CheckoutRequest → Customer → List OrderItem → Shop → Reply × Shop
  unfolding order_of create_order_from_checkout pay_online pay_cash
  place_order body customer items shop =
      let id = out.new_order shop.db in
      let order = order_of out body customer items shop in
      pay_created id body order shop
        (create_order_from_checkout out body.delivery_mode body.zone_id id order shop)

  abbrev pub with_customers : List Customer → Shop → Shop
  with_customers customers shop = record shop { customers = customers }

  unfoldable pub with_items :
      CheckoutRequest → Customer → Option (List OrderItem) → Shop → Reply × Shop
  unfolding place_order
  with_items body customer none shop = (uncaught, shop)
  with_items body customer (some items) shop = place_order body customer items shop

  unfoldable pub with_customer :
      CheckoutRequest → Checked Customer × List Customer → Shop → Reply × Shop
  unfolding with_items
  with_customer body (error e, customers) shop = (uncaught, with_customers customers shop)
  with_customer body (value customer, customers) shop =
      with_items body customer (resolve_checkout_items body.items shop.products)
        (with_customers customers shop)

  -- The part after the idempotency key; what raises leaves what was committed. The INSERT of a new customer
  -- raises for a name that is too long.
  unfoldable pub place : CheckoutRequest → Shop → Reply × Shop
  unfolding with_customer
  place body shop =
      let found =
        find_or_create_by_phone out.is_digit out.new_customer body.name body.phone shop.customers in
      if varchar 255 body.name || not (ltb (length shop.customers) (length found.1))
      then with_customer body found shop
      else (uncaught, shop)

  -- `_recover_idempotent_result`, and 409 without an order.
  unfoldable pub recover : KeyPayload → Reply
  recover payload = elim payload.order_id [
    | none ↦ http_error 409
    | some id ↦ answered id payload.confirmation_url
  ]

  -- `update_payload`, the last step before both answers.
  unfoldable pub update_payload : String → Reply → Dict String KeyPayload → Dict String KeyPayload
  update_payload key (answered id url) keys =
      insert key (record { order_id = some id; confirmation_url = url }) keys
  update_payload key _ keys = keys

  abbrev pub no_order : KeyPayload
  no_order = record { order_id = none; confirmation_url = none }

  -- The keys stand without their common prefix "checkout:".
  unfoldable pub checkout :
      CheckoutRequest → Dict String KeyPayload × Shop → Reply × (Dict String KeyPayload × Shop)
  unfolding place recover update_payload
  checkout body (keys, shop) =
      if is_bad_request body
      then (http_error 400, (keys, shop))
      else elim (lookup body.idempotency_key keys) [
        | some payload ↦ (recover payload, (keys, shop))
        | none ↦
            let (reply, after) = place body shop in
            (
              reply,
              (
                update_payload body.idempotency_key reply
                    (insert body.idempotency_key no_order keys),
                after,
              ),
            )
      ]
