-- ===== src/Checkout/Once.antt =====
-- A repeated checkout.
use sieshka.Prelude.{◌≡◌, refl, false, String, none, string_eq}
use sieshka.Prelude.Dict.{Dict, lookup, insert}
use sieshka.Checkout.Route.{
  CheckoutRequest, KeyPayload, Shop, Reply, answered, http_error, uncaught, Outside, is_bad_request,
}
use sieshka.Checkout.Placing.{update_payload, no_order, place, checkout}

-- What a repetition of a request is told: the answer, if there was one, and otherwise a conflict.
abbrev pub replay : Reply → Reply
replay (answered id url) = answered id url
replay (http_error status) = http_error 409
replay uncaught = http_error 409

module _ (out : Outside) where
  pub first_time :
      (body : CheckoutRequest) (keys : Dict String KeyPayload) (shop : Shop)
      → is_bad_request body ≡ false
      → lookup body.idempotency_key keys ≡ none
      → checkout out body (keys, shop) ≡ (
        (place out body shop).0,
        (
          update_payload out body.idempotency_key
              (place out body shop).0
              (insert body.idempotency_key (no_order out) keys),
          (place out body shop).1,
        ),
      )
  unfolding checkout
  first_time body keys shop good absent = rw (checkout, good, absent) refl
