-- ===== src/Checkout/Offered.antt =====
-- What the menu shows and what the checkout takes for it.
use sieshka.Prelude.{
  String, string_eq, if◌then◌else◌, ℕ, ◌≡◌, ◌∙◌, refl, ap, sym, Bool, true, ◌&&◌, Option, none,
  some, List, [], ◌∷◌, map, ◌==◌, nat_eq, nat_beq_iff, any, All, arith, Bool-cases, inl, inr,
}
use sieshka.Prelude.Int.{ℤ, pos, negsuc, ◌+ℤ◌, ◌*ℤ◌, sum}
use sieshka.Prelude.Table.{has_id, distinct, any-Found}
use sieshka.Agents.Zones.{ZoneRow}
use sieshka.Agents.Menu.{Category, Product}
use sieshka.Services.Menu.{
  MenuPeriod, Method, ProductRow, MenuTables, OrderBy, shows, get_menu, get_delivery_fee,
}
use sieshka.Services.Menu.Offers.{costs, offers, for_sale, offers-get_menu}
use sieshka.Checkout.{OrderItem, goods_of, discounted, fee_of, compute_checkout_total}
use sieshka.Checkout.Route.{CheckoutItem, get_product_snapshot, resolve_checkout_items, zone_fee}

abbrev pub product_of : ProductRow → Product
product_of row = row.product

abbrev pub product_id : ProductRow → ℕ
product_id row = row.product.id

-- A line of the cart, with the price that the menu showed.
pub record CartLine : Type 0 where
  pub id : ℕ
  pub price : ℤ
  pub qty : ℤ

abbrev pub checkout_item : CartLine → CheckoutItem
checkout_item l = record { product_id = l.id; qty = l.qty }

abbrev pub line_price : CartLine → ℤ
line_price l = l.price *ℤ l.qty

costs_lem : (price : ℤ) (p : Option ℤ) → costs price p ≡ true → p ≡ some price
costs_lem price none h = absurd (ground arith)
costs_lem (pos n) (some (pos m)) h = ground (arith, h)
costs_lem (pos n) (some (negsuc m)) h = absurd (ground (arith, h))
costs_lem (negsuc n) (some (pos m)) h = absurd (ground (arith, h))
costs_lem (negsuc n) (some (negsuc m)) h = ground (arith, h)

module _ (period : MenuPeriod) (tables : MenuTables) (c : Category) (id : ℕ) (price : ℤ) where
  for_sale_there :
      (rows : List ProductRow)
      → any (for_sale id price period tables c) rows ≡ true
      → any (has_id product_id id) rows ≡ true
  for_sale_there [] h = h
  for_sale_there (row ∷ rows) h = ground (arith, for_sale_there rows, h)

  snapshot_lem :
      (rows : List ProductRow)
      → distinct product_id rows ≡ true
      → any (for_sale id price period tables c) rows ≡ true
      → (p : Product) × (get_product_snapshot id (map product_of rows) ≡ some p)
        × (p.id ≡ id)
        × (p.price_rub ≡ some price)
  unfolding get_product_snapshot distinct
  snapshot_lem [] d h = absurd (ground arith)
  snapshot_lem (row ∷ rows) d h = elim (Bool-cases (row.product.id == id)) [
    | inl here ↦ (
      row.product,
      ground (arith, here),
      ground (arith, here, nat_beq_iff row.product.id id),
      costs_lem price row.product.price_rub ground
          (arith, here, nat_beq_iff row.product.id id, d, h, for_sale_there rows),
    )
    | inr there ↦
        let (p, found, is, has_price) =
          snapshot_lem rows ground (arith, d) ground (arith, there, h) in
        (p, ground (arith, there, found), is, has_price)
  ]

-- A cart that is resolved to items whose goods cost what the menu showed.
abbrev pub ResolvedAt : List CartLine → List ProductRow → Type 0
ResolvedAt cart rows =
    (items : List OrderItem) × (resolve_checkout_items (map checkout_item cart)
        (map product_of rows)
      ≡ some items)
    × (goods_of items ≡ sum (map line_price cart))

ResolvedAt-cons :
    (l : CartLine) (cart : List CartLine) (rows : List ProductRow) (p : Product)
    → get_product_snapshot l.id (map product_of rows) ≡ some p
    → p.price_rub ≡ some l.price
    → ResolvedAt cart rows
    → ResolvedAt (l ∷ cart) rows
unfolding resolve_checkout_items goods_of
ResolvedAt-cons l cart rows p found has_price (items, resolved, costs_same) = (
  record { product_id = p.id; name = p.name; price_rub = l.price; qty = l.qty } ∷ items,
  rw (found, has_price, resolved) refl,
  ap (λ rest. line_price l +ℤ rest) costs_same,
)

-- What the site told: the prices of the cart, and the fee for its zone.
abbrev pub shown_total : ℤ → List CartLine → String → Option ℕ → List ZoneRow → ℤ
shown_total setting cart delivery_mode zone_id zones =
    if delivery_mode == "pickup"
    then sum (map line_price cart)
    else sum (map line_price cart) +ℤ get_delivery_fee setting zone_id zones

quoted_fee :
    (setting : ℤ) (zone_id : Option ℕ) (zones : List ZoneRow)
    → fee_of setting none (zone_fee zone_id zones) ≡ get_delivery_fee setting zone_id zones
unfolding fee_of zone_fee get_delivery_fee
quoted_fee setting none zones = refl
quoted_fee setting (some id) [] = refl
quoted_fee setting (some id) (z ∷ zones) = ground (arith, quoted_fee setting (some id) zones)

module _ (o : OrderBy)
    (keeps_categories : (p : Category → Bool) (rows : List Category)
      → any p (o.categories rows) ≡ any p rows)
    (keeps_products : (p : ProductRow → Bool) (rows : List ProductRow)
      → any p (o.products rows) ≡ any p rows)
    (period : MenuPeriod) (method : Method) (tables : MenuTables)
    (keys : distinct product_id tables.products ≡ true) where
  abbrev pub IsOffered : CartLine → Type 0
  IsOffered l = offers l.id l.price (get_menu o period method tables) ≡ true

  offered_snapshot :
      (l : CartLine)
      → IsOffered l
      → (p : Product) × (get_product_snapshot l.id (map product_of tables.products) ≡ some p)
        × (p.id ≡ l.id)
        × (p.price_rub ≡ some l.price)
  offered_snapshot l offered =
      let (before, after, c, split, there) =
        any-Found
          (λ c.
            shows period method c && any (for_sale l.id l.price period tables c) tables.products)
          tables.categories
          (sym (offers-get_menu o keeps_categories keeps_products l.id l.price period tables method)
            ∙ offered) in
      snapshot_lem period tables c l.id l.price tables.products keys (ground (arith, there))

  offered_resolved : (cart : List CartLine) → All IsOffered cart → ResolvedAt cart tables.products
  unfolding resolve_checkout_items goods_of
  offered_resolved [] offered = ([], refl, refl)
  offered_resolved (l ∷ cart) (first, rest) =
      let (p, found, is, has_price) = offered_snapshot l first in
      ResolvedAt-cons l cart tables.products p found has_price (offered_resolved cart rest)

  -- A cart of products that the menu offers, each at a price, is resolved by the checkout, and without a promotion
  -- its total is what was shown: these prices times the numbers, and for a delivery the fee that the site quotes
  -- for the zone. This is so if ORDER BY keeps the rows and the keys of the products differ.
  pub offered_is_charged :
      (cart : List CartLine) (setting : ℤ) (delivery_mode : String) (zone_id : Option ℕ)
      (zones : List ZoneRow)
      → All IsOffered cart
      → (items : List OrderItem) × (resolve_checkout_items
            (map checkout_item cart)
            (map product_of tables.products)
          ≡ some items)
        × (compute_checkout_total setting items delivery_mode none (zone_fee zone_id zones)
            ≡ shown_total setting cart delivery_mode zone_id zones)
  unfolding compute_checkout_total discounted fee_of
  offered_is_charged cart setting delivery_mode zone_id zones offered =
      let (items, resolved, same) = offered_resolved cart offered in
      (
        items,
        resolved,
        rw (compute_checkout_total, discounted, same)
            (ap
              (λ fee.
                if delivery_mode == "pickup"
                then sum (map line_price cart)
                else sum (map line_price cart) +ℤ fee)
              (quoted_fee setting zone_id zones)),
      )
