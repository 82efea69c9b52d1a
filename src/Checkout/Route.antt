-- ===== src/Checkout/Route.antt =====
-- app/api/routes/checkout.py: the steps of a checkout, and what its idempotency key remembers.
use Prim.Native.Char.{Char}
use sieshka.Prelude.{
  any, ℕ, Bool, true, false, not, ◌&&◌, ◌||◌, String, Option, none, some, List, [], ◌∷◌, map, ◌==◌,
  string_eq, nat_eq, is_some, if◌then◌else◌,
}
use sieshka.Prelude.Int.{ℤ, pos}
use sieshka.Prelude.Dict.{Dict, insert}
use sieshka.Orders.{draft}
use sieshka.Database.{varchar, text_fits, in_integer, ItemJson, absent, given, dict, Db}
use sieshka.Vm.{Platform}
use sieshka.Services.Idempotency.{TraceEvent}
use sieshka.Services.WebappAuth.{Launch, validate_init_data}
use sieshka.Checkout.{
  OrderItem, PromoEffect, PromotionRow, resolve_promo_effect, goods_of, compute_checkout_total,
}
use sieshka.Agents.Menu.{Product}
use sieshka.Agents.Zones.{ZoneRow}
use sieshka.Customers.{Customer}

pub record CheckoutItem : Type 0 where
  pub product_id : ℕ
  pub qty : ℤ

-- The body, and the headers with what the messengers signed. Texts that are only stored are left out,
-- and so are the ids of the body that the route overwrites.
pub record CheckoutRequest : Type 0 where
  pub name : String
  pub phone : String
  pub delivery_mode : String
  pub payment_method : String
  pub zone_id : Option ℕ
  pub items : List CheckoutItem
  pub promo_code : Option String
  pub idempotency_key : String
  pub max_init_data : Option String
  pub zalo_access_token : Option String
  pub telegram_init_data : Option String

-- The columns of a new order that OrderRow does not have.
pub record CheckoutOrder : Type 0 where
  pub customer_id : ℕ
  pub items : List OrderItem
  pub total_rub : ℤ
  pub discount_rub : ℤ
  pub promo_code : Option String
  pub client_max_uid : Option ℕ
  pub client_zalo_uid : Option String
  pub client_telegram_uid : Option ℕ

-- The payload of a key, as far as it is read back: none before there is an order.
pub record KeyPayload : Type 0 where
  pub order_id : Option ℕ
  pub confirmation_url : Option String

pub record Shop : Type 0 where
  pub db : Db
  pub traces : List TraceEvent
  pub customers : List Customer
  pub products : List Product
  pub promotions : List PromotionRow
  pub zones : List ZoneRow
  pub checkout_orders : Dict ℕ CheckoutOrder

-- An answer, an HTTPException, or an exception that the route does not catch.
pub data Reply : Type 0 where
  answered : (order_id : ℕ) (confirmation_url : Option String) → Reply
  http_error : (status : ℕ) → Reply
  uncaught : Reply

-- What is not the repository's: the platform, the classes of characters and texts, floating point,
-- what the checks of the mini apps need, Zalo's answer to a token, YooKassa's answer (the payment's id and its URL, or an error), and the new
-- ids.
pub record Outside : Type 0 where
  pub platform : Platform
  pub is_digit : Char → Bool
  pub strip : String → String
  pub lower : String → String
  pub percent_of : ℤ → ℤ → ℤ
  pub delivery_fee : ℤ
  pub launch : Launch
  pub max_bot_token : String
  pub telegram_bot_token : String
  pub now : ℤ
  pub validate_zalo : String → Option String
  pub yookassa : Option (ℕ × Option String)
  pub new_customer : List Customer → ℕ
  pub new_order : Db → ℕ
  pub new_trace : ℕ
  pub new_payment : ℕ

-- A header that is there and not empty is checked; without one there is no id.
abbrev pub verified : {A : Type 0} → (String → Option A) → Option String → Option A
verified check none = none
verified check (some header) = if header == "" then none else check header

unfoldable pub get_product_snapshot : ℕ → List Product → Option Product
get_product_snapshot id [] = none
get_product_snapshot id (p ∷ products) =
    if p.id == id then some p else get_product_snapshot id products

-- A line with the product's present name and price; it raises, here none, without a product or a price.
abbrev pub priced : CheckoutItem → Option Product → Option OrderItem
priced item none = none
priced item (some p) = elim p.price_rub [
  | none ↦ none
  | some price ↦
      some (record { product_id = p.id; name = p.name; price_rub = price; qty = item.qty })
]

abbrev pub cons_both : Option OrderItem → Option (List OrderItem) → Option (List OrderItem)
cons_both (some i) (some is) = some (i ∷ is)
cons_both _ _ = none

unfoldable pub resolve_checkout_items : List CheckoutItem → List Product → Option (List OrderItem)
resolve_checkout_items [] products = some []
resolve_checkout_items (item ∷ items) products =
    cons_both (priced item (get_product_snapshot item.product_id products))
      (resolve_checkout_items items products)

-- `zone_service.get_by_id`, retired zones included.
unfoldable pub zone_fee : Option ℕ → List ZoneRow → Option ℤ
zone_fee none zones = none
zone_fee (some id) [] = none
zone_fee (some id) (z ∷ zones) =
    if z.id == id then some z.delivery_fee_rub else zone_fee (some id) zones

-- 400 before anything is recorded.
unfoldable pub is_bad_request : CheckoutRequest → Bool
is_bad_request body =
    not (
      body.payment_method == "yookassa_sbp"
      || (body.payment_method == "yookassa_sberbank")
      || (body.payment_method == "cash"))
    || (not (body.delivery_mode == "pickup") && not (is_some body.zone_id))
    || elim body.items [ [] ↦ true | item ∷ items ↦ false ]

-- `orders.zone_id` references `delivery_zones(id)`.
abbrev pub zone_known : Option ℕ → List ZoneRow → Bool
zone_known none zones = true
zone_known (some zone_id) zones = any (λ (z : ZoneRow). z.id == zone_id) zones

abbrev pub uid_fits : Option ℕ → Bool
uid_fits none = true
uid_fits (some uid) = in_integer (pos uid)

-- What the foreign key and the types of the columns of `orders` ask of a new row.
unfoldable pub order_fits : String → Option ℕ → CheckoutOrder → List ZoneRow → Bool
order_fits delivery_mode zone_id order zones =
    varchar 32 delivery_mode
    && zone_known zone_id zones
    && in_integer order.total_rub
    && in_integer order.discount_rub
    && uid_fits order.client_max_uid
    && uid_fits order.client_telegram_uid
    && text_fits 64 order.client_zalo_uid
    && text_fits 64 order.promo_code

module _ (out : Outside) where
  effect_for : CheckoutRequest → List OrderItem → Shop → Option PromoEffect
  effect_for body items shop =
      resolve_promo_effect out.strip out.lower out.percent_of shop.promotions body.promo_code
        (goods_of items)

  -- A launch counts for a day.
  abbrev pub launch_user : String → String → Option ℕ
  launch_user token = validate_init_data out.launch token out.now (pos 86400)

  unfoldable pub order_of : CheckoutRequest → Customer → List OrderItem → Shop → CheckoutOrder
  unfolding effect_for
  order_of body customer items shop =
      let effect = effect_for body items shop in
      record {
        customer_id = customer.id;
        items = items;
        total_rub =
            compute_checkout_total out.delivery_fee items body.delivery_mode effect
              (zone_fee body.zone_id shop.zones);
        discount_rub = elim effect [ none ↦ pos 0 | some e ↦ e.discount_rub ];
        promo_code = elim effect [ none ↦ none | some e ↦ some e.applied_code ];
        client_max_uid = verified (launch_user out.max_bot_token) body.max_init_data;
        client_zalo_uid = verified out.validate_zalo body.zalo_access_token;
        client_telegram_uid = verified (launch_user out.telegram_bot_token) body.telegram_init_data;
      }

  abbrev item_json : OrderItem → ItemJson
  item_json i = dict absent (given i.product_id) (given i.qty)

  -- The row that is committed, in the state DRAFT.
  unfoldable pub insert_order : String → ℕ → CheckoutOrder → Shop → Shop
  insert_order delivery_mode id order shop = record shop {
    db = record shop.db {
      orders =
          insert id
            (record {
              state = draft;
              items = map item_json order.items;
              delivery_mode = delivery_mode;
              payment_id = none;
              trace_id = none;
            })
            shop.db.orders;
    };
    checkout_orders = insert id order shop.checkout_orders;
  }

  -- The INSERT raises, here none, where the row does not fit.
  unfoldable pub create_order_from_checkout :
      String → Option ℕ → ℕ → CheckoutOrder → Shop → Option Shop
  unfolding insert_order order_fits
  create_order_from_checkout delivery_mode zone_id id order shop =
      if order_fits delivery_mode zone_id order shop.zones
      then some (insert_order delivery_mode id order shop)
      else none
