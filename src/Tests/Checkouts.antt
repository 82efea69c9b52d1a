-- ===== src/Tests/Checkouts.antt =====
-- The theorems about the checkout at concrete inputs.
use Prim.Native.Char.{code}
use sieshka.Prelude.{refl, true, ◌&&◌, leb, none, some, List, [], ◌∷◌, string_eq, nat_eq}
use sieshka.Prelude.Int.{◌-ℤ◌, pos}
use sieshka.Checkout.{OrderItem}
use sieshka.Checkout.Route.{CheckoutRequest, Shop, Outside}
use sieshka.Agents.Menu.{Product}
use sieshka.Prelude.{if◌then◌else◌, ◌==◌, string_eq}
use sieshka.Prelude.Table.{select}
use sieshka.Services.WebappAuth.{Launch, last_of, validate_init_data}
use sieshka.Services.WebappAuth.Signed.{Signed, validate_init_data-Signed}
use sieshka.Tests.{platform_test, shop}

abbrev ramen : Product
ramen = record {
  id = 3;
  name = "ramen";
  category_id = some 1;
  price_rub = some (pos 450);
  description = none;
  image_url = none;
  is_active = true;
  sku = none;
  sort = pos 0;
}

abbrev opened : Shop
opened = record {
  db = shop;
  traces = [];
  customers = [];
  products = ramen ∷ [];
  promotions = [];
  zones = [];
  checkout_orders = [];
}

-- Launches of two forms, one of which is signed.
abbrev launch : Launch
launch = record {
  pairs = λ raw.
      if raw == "signed"
      then ("auth_date", "900") ∷ ("user", "7") ∷ ("hash", "ok") ∷ []
      else ("auth_date", "900") ∷ [];
  unquote = λ s. s;
  sorted = λ ps. ps;
  launch_params = λ ps. "auth_date=900 user=7";
  signature = λ token params. "ok";
  to_int = λ s. some (pos 900);
  user_id = λ s. some 7;
}

validate_init_data-Signed_example : Signed launch "token" (pos 1000) (pos 86400) "signed" 7
unfolding validate_init_data select last_of ◌-ℤ◌
validate_init_data-Signed_example =
    validate_init_data-Signed launch "token" (pos 1000) (pos 86400) "signed" 7 refl

abbrev outside : Outside
outside = record {
  platform = platform_test;
  is_digit = λ c. leb b'0' (code c) && leb (code c) b'9';
  strip = λ s. s;
  lower = λ s. s;
  percent_of = λ a b. pos 0;
  delivery_fee = pos 99;
  launch = launch;
  max_bot_token = "token";
  telegram_bot_token = "";
  now = pos 1000;
  validate_zalo = λ header. none;
  yookassa = some (78, some "https://yookassa.ru/78");
  new_customer = λ rows. 1;
  new_order = λ db. 20;
  new_trace = 8;
  new_payment = 51;
}

abbrev two_ramen : CheckoutRequest
two_ramen = record {
  name = "Anna";
  phone = "8 (999) 123-45-67";
  delivery_mode = "pickup";
  payment_method = "yookassa_sbp";
  zone_id = none;
  items = record { product_id = 3; qty = pos 2 } ∷ [];
  promo_code = none;
  idempotency_key = "a1";
  max_init_data = some "signed";
  zalo_access_token = none;
  telegram_init_data = none;
}

abbrev one_ramen : CheckoutRequest
one_ramen = record two_ramen { items = record { product_id = 3; qty = pos 1 } ∷ [] }

abbrev lines : List OrderItem
lines = record { product_id = 3; name = "ramen"; price_rub = pos 450; qty = pos 2 } ∷ []
