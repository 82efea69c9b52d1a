-- ===== src/Checkout/Online.antt =====
-- What a checkout with an online payment leaves behind.
use sieshka.Prelude.{
  ℕ, ◌*◌, ◌≡◌, ◌≢◌, refl, ap, ◌∙◌, false, String, Option, some, [], ◌∷◌, ◌++◌, ◌==◌, nat_eq,
  string_eq, Bool-cases, inl, inr,
}
use sieshka.Prelude.Int.{pos_part}
use sieshka.Orders.{
  OrderState, OrderEvent, draft, confirmed, payment_pending, confirm, request_payment,
  start_cooking, order_transitions,
}
use sieshka.Fsm.{TransitionResult, moved}
use sieshka.Database.{ok}
use sieshka.Services.Order.{transition_order}
use sieshka.Services.Order.Transition.{state_of}
use sieshka.Services.Payment.Creation.{
  pending_payment, add_payment, is_refused_method, create_payment,
}
use sieshka.Checkout.Route.{CheckoutRequest, CheckoutOrder, Shop, Reply, answered, Outside}
use sieshka.Checkout.Placing.{with_db, then_transition, method_type, request_yookassa, pay_online}
use sieshka.Checkout.Charged.{stepped, second_request}

module _ (out : Outside) where
  -- The shop after a payment of an order has been requested.
  pub record Requested (id : ℕ) (order : CheckoutOrder) (provider_id : ℕ) (before after : Shop)
      : Type 0 where
    pub state : state_of id after.db ≡ some payment_pending
    pub payments :
        after.db.payments
        ≡ before.db.payments
          ++ pending_payment out.new_payment id provider_id (pos_part order.total_rub * 100) "RUB"
            ∷ []
    pub orders : after.checkout_orders ≡ before.checkout_orders

  abbrev pub Answers : ℕ → Option String → CheckoutOrder → ℕ → Shop → Reply × Shop → Type 0
  Answers id url order provider_id before result =
      (result.0 ≡ answered id url) × Requested id order provider_id before result.1

  known_method : (method : String) → is_refused_method (some (method_type out method)) ≡ false
  known_method method = elim (Bool-cases (method == "yookassa_sbp")) [
    | inl sbp ↦ rw sbp refl
    | inr other ↦ rw other refl
  ]

  module _ (id provider_id : ℕ) (url : Option String) (order : CheckoutOrder)
      (body : CheckoutRequest) (replies : out.yookassa ≡ some (provider_id, url)) where
    request-Answers :
        (shop : Shop)
        → state_of id shop.db ≡ some payment_pending
        → Answers id url order provider_id shop (request_yookassa out id body order shop)
    unfolding request_yookassa create_payment
    request-Answers shop in_state =
        rw
          (
            request_yookassa,
            replies,
            create_payment,
            known_method body.payment_method,
            second_request out.platform provider_id out.new_trace id shop.db
                (add_payment
                  (pending_payment out.new_payment id provider_id (pos_part order.total_rub * 100)
                    "RUB")
                  shop.db)
                in_state,
          )
          (refl, record { state = in_state; payments = refl; orders = refl })

    then_lem :
        (event : OrderEvent) (next : Shop → Reply × Shop) (shop : Shop)
        (a : TransitionResult OrderState OrderEvent)
        → (transition_order out.platform id event shop.db).0 ≡ ok a
        → then_transition out id event next shop
          ≡ next (with_db (transition_order out.platform id event shop.db).1 shop)
    unfolding then_transition
    then_lem event next shop a h = rw (then_transition, h) refl

    -- A transition before the request keeps what the request is about.
    after_transition :
        (event : OrderEvent) (s t : OrderState) (next : Shop → Reply × Shop) (shop : Shop)
        → state_of id shop.db ≡ some s
        → order_transitions s event ≡ some t
        → event ≢ start_cooking
        → ((shop' : Shop)
            → state_of id shop'.db ≡ some t
            → Answers id url order provider_id shop' (next shop'))
        → Answers id url order provider_id shop (then_transition out id event next shop)
    after_transition event s t next shop in_s edge n go =
        let (result, in_t, same) = stepped out.platform id event s t shop.db in_s edge n in
        let (reply, requested) =
          go (with_db (transition_order out.platform id event shop.db).1 shop) in_t in
        rw (then_lem event next shop (moved t) result) (
          reply,
          record {
            state = requested.state;
            payments =
                requested.payments
                ∙ ap
                    (λ ps.
                      ps
                      ++ pending_payment out.new_payment id provider_id
                          (pos_part order.total_rub * 100) "RUB"
                        ∷ [])
                    same;
            orders = requested.orders;
          },
        )

    pub online-Answers :
        (shop : Shop)
        → state_of id shop.db ≡ some draft
        → Answers id url order provider_id shop (pay_online out id body order shop)
    unfolding pay_online order_transitions
    online-Answers shop in_draft =
        after_transition confirm draft confirmed _ shop in_draft refl (λ e. cc)
          λ shop' in_confirmed.
            after_transition request_payment confirmed payment_pending _ shop' in_confirmed refl
              (λ e. cc) (λ shop'' in_pending. request-Answers shop'' in_pending)
