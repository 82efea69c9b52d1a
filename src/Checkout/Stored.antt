-- ===== src/Checkout/Stored.antt =====
-- What an answered online checkout stores.
use sieshka.Prelude.{
  ℕ, ◌*◌, ◌≡◌, refl, ap, ◌∙◌, true, false, String, Option, some, List, [], ◌∷◌, ◌++◌, arith,
  nat_beq_iff, ◌==◌, nat_eq, string_eq,
}
use sieshka.Prelude.{none}
use sieshka.Prelude.Int.{pos, pos_part}
use sieshka.Prelude.Dict.{lookup, lookup-insert}
use sieshka.Orders.{draft, payment_pending}
use sieshka.Services.Order.Transition.{state_of}
use sieshka.Services.Payment.Creation.{pending_payment}
use sieshka.Checkout.{OrderItem, resolve_promo_effect, goods_of, compute_checkout_total}
use sieshka.Services.WebappAuth.{validate_init_data}
use sieshka.Services.WebappAuth.Signed.{Signed, validate_init_data-Signed}
use sieshka.Checkout.Route.{
  launch_user, verified, CheckoutRequest, CheckoutOrder, Shop, answered, Outside, zone_fee,
  order_of, order_fits, create_order_from_checkout, insert_order,
}
use sieshka.Checkout.Placing.{place_order}
use sieshka.Customers.{Customer}
use sieshka.Checkout.Online.{online-Answers}

module _ (out : Outside) where
  draft_there :
      (delivery_mode : String) (id : ℕ) (order : CheckoutOrder) (shop : Shop)
      → state_of id (insert_order out delivery_mode id order shop).db ≡ some draft
  unfolding insert_order
  draft_there delivery_mode id order shop =
      rw (lookup-insert id id) ground (arith, nat_beq_iff id id)

  order_there :
      (delivery_mode : String) (id : ℕ) (order : CheckoutOrder) (shop : Shop)
      → lookup id (insert_order out delivery_mode id order shop).checkout_orders ≡ some order
  unfolding insert_order
  order_there delivery_mode id order shop =
      lookup-insert id id order shop.checkout_orders ∙ ground (arith, nat_beq_iff id id)

  -- A mini app's user as an order has it: none, or one that the app's platform signed for this request.
  pub data UserSigned (token : String) : Option String → Option ℕ → Type 0 where
    no_user : (header : Option String) → UserSigned token header none
    signed :
        (raw : String) (uid : ℕ)
        → Signed out.launch token out.now (pos 86400) raw uid
        → UserSigned token (some raw) (some uid)

  found-UserSigned :
      (token raw : String) (found : Option ℕ)
      → ((uid : ℕ)
          → found ≡ some uid
          → validate_init_data out.launch token out.now (pos 86400) raw ≡ some uid)
      → UserSigned token (some raw) found
  found-UserSigned token raw none h = no_user (some raw)
  found-UserSigned token raw (some uid) h =
      signed raw uid
        (validate_init_data-Signed out.launch token out.now (pos 86400) raw uid (h uid refl))

  verified-UserSigned :
      (token : String) (header : Option String)
      → UserSigned token header (verified (launch_user out token) header)
  verified-UserSigned token none = no_user none
  verified-UserSigned token (some raw) = found-UserSigned token raw _ λ uid h. ground (arith, h)

  -- What an answered online checkout leaves in the shop: the order, its price, and its payment.
  pub record Placed (body : CheckoutRequest) (items : List OrderItem) (id provider_id : ℕ)
      (before after : Shop) : Type 0 where
    pub order : CheckoutOrder
    pub stored : lookup id after.checkout_orders ≡ some order
    pub total :
        order.total_rub
        ≡ compute_checkout_total out.delivery_fee items body.delivery_mode
            (resolve_promo_effect out.strip out.lower out.percent_of before.promotions
              body.promo_code
              (goods_of items))
            (zone_fee body.zone_id before.zones)
    pub max_user : UserSigned out.max_bot_token body.max_init_data order.client_max_uid
    pub telegram_user :
        UserSigned out.telegram_bot_token body.telegram_init_data order.client_telegram_uid
    pub state : state_of id after.db ≡ some payment_pending
    pub payments :
        after.db.payments
        ≡ before.db.payments
          ++ pending_payment out.new_payment id provider_id (pos_part order.total_rub * 100) "RUB"
            ∷ []

  module _ (body : CheckoutRequest) (provider_id : ℕ) (url : Option String)
      (replies : out.yookassa ≡ some (provider_id, url))
      (online : (body.payment_method == "cash") ≡ false) where
    pub place_order_answers :
        (customer : Customer) (items : List OrderItem) (shop : Shop)
        → order_fits body.delivery_mode body.zone_id
            (order_of out body customer items shop)
            shop.zones
          ≡ true
        → ((place_order out body customer items shop).0 ≡ answered (out.new_order shop.db) url)
          × Placed body items
              (out.new_order shop.db)
              provider_id
              shop
              (place_order out body customer items shop).1
    unfolding place_order order_of create_order_from_checkout insert_order
    place_order_answers customer items shop fits =
        let id = out.new_order shop.db in
        let order = order_of out body customer items shop in
        let with_order = insert_order out body.delivery_mode id order shop in
        let (reply, requested) =
          online-Answers out id provider_id url order body replies with_order
            (draft_there body.delivery_mode id order shop) in
        rw (place_order, create_order_from_checkout, fits, online)
          (
            reply,
            record {
              order = order;
              stored =
                  ap (lookup id) requested.orders ∙ order_there body.delivery_mode id order shop;
              total = refl;
              max_user = verified-UserSigned out.max_bot_token body.max_init_data;
              telegram_user = verified-UserSigned out.telegram_bot_token body.telegram_init_data;
              state = requested.state;
              payments = requested.payments;
            },
          )
