-- ===== src/Checkout/Accepted.antt =====
-- A checkout that nothing speaks against.
use sieshka.Prelude.{String, List, string_eq}
use sieshka.Prelude.Dict.{Dict}
use sieshka.Checkout.Route.{CheckoutRequest, Shop, Outside}
use sieshka.Customers.{Customer, find_or_create}

module _ (out : Outside) where
  abbrev pub customer_for : CheckoutRequest → String → Shop → Customer × List Customer
  customer_for body canonical shop =
      find_or_create out.is_digit out.new_customer body.name canonical shop.customers
