-- ===== src/Services/Menu/Offers.antt =====
-- Which products the menu offers, and at which price.
use sieshka.Prelude.{
  ℕ, ◌≡◌, refl, ap, ◌∙◌, Bool, false, not, ◌&&◌, ◌||◌, String, Option, none, some, List, [], ◌∷◌,
  map, ◌==◌, nat_eq, is_some, any, arith,
}
use sieshka.Prelude.Int.{ℤ, leb_ℤ}
use sieshka.Prelude.Dict.{Dict}
use sieshka.Prelude.Table.{select}
use sieshka.Database.{StockRow}
use sieshka.Agents.Menu.{TimePeriod, Category}
use sieshka.Services.Menu.{
  MenuPeriod, Method, ProductRow, MenuProductItem, MenuCategory, MenuTables, OrderBy, covers, shows,
  fetch_categories, inventory_quantity, is_out, effective_period, menu_item, listed, fetch_products,
  is_in, menu_category, get_menu,
}

abbrev pub costs : ℤ → Option ℤ → Bool
costs price none = false
costs price (some p) = leb_ℤ p price && leb_ℤ price p

-- The menu has a product that can be put into the cart at a price.
abbrev pub offers_item : ℕ → ℤ → MenuProductItem → Bool
offers_item id price i = i.product_id == id && i.available && costs price i.price_rub

abbrev pub offers : ℕ → ℤ → List MenuCategory → Bool
offers id price = any (λ m. any (offers_item id price) m.products)

-- A product that is for sale in a category at a price: it is active, now is in its own period or else in the
-- category's, and its stock, where it is counted, is not used up.
abbrev pub for_sale : ℕ → ℤ → MenuPeriod → MenuTables → Category → ProductRow → Bool
for_sale id price period tables c row =
    row.product.id == id
    && is_in c.id row.product.category_id
    && costs price row.product.price_rub
    && row.product.is_active
    && covers period (effective_period row.time_period_override c.time_period)
    && not (is_out (inventory_quantity tables.inventory row.product.sku))

any-same :
    {A : Type 0} → (p q : A → Bool) → ((a : A) → p a ≡ q a) → (xs : List A) → any p xs ≡ any q xs
any-same p q h [] = refl
any-same p q h (x ∷ xs) = ground (arith, h x, any-same p q h xs)

any-map :
    {A B : Type 0}
    → (p : B → Bool) (f : A → B) (xs : List A) → any p (map f xs) ≡ any (λ a. p (f a)) xs
any-map p f [] = refl
any-map p f (x ∷ xs) = ap (λ b. p (f x) || b) (any-map p f xs)

any-select :
    {A : Type 0} → (p q : A → Bool) (xs : List A) → any p (select q xs) ≡ any (λ a. q a && p a) xs
unfolding select
any-select p q [] = refl
any-select p q (x ∷ xs) = ground (arith, any-select p q xs)

priced : (price : ℤ) (p : Option ℤ) → (is_some p && costs price p) ≡ costs price p
priced price none = refl
priced price (some p) = refl

-- What an item tells of its product.
menu_item_lem :
    (period : MenuPeriod) (category_period : TimePeriod) (inventory : Dict String StockRow)
    (row : ProductRow)
    → let i = menu_item period category_period inventory row in
      (i.product_id ≡ row.product.id)
      × (i.price_rub ≡ row.product.price_rub)
      × (i.available ≡ (
          row.product.is_active
          && covers period (effective_period row.time_period_override category_period)
          && not (is_out (inventory_quantity inventory row.product.sku))))
unfolding menu_item
menu_item_lem period category_period inventory row = (ground arith, ground arith, ground arith)

module _ (o : OrderBy)
    (keeps_categories : (p : Category → Bool) (rows : List Category)
      → any p (o.categories rows) ≡ any p rows)
    (keeps_products : (p : ProductRow → Bool) (rows : List ProductRow)
      → any p (o.products rows) ≡ any p rows)
    (id : ℕ) (price : ℤ) (period : MenuPeriod) (tables : MenuTables) where
  item_lem :
      (c : Category) (row : ProductRow)
      → (listed c.id row
          && offers_item id price (menu_item period c.time_period tables.inventory row))
        ≡ for_sale id price period tables c row
  item_lem c row =
      let (same_id, same_price, available) =
        menu_item_lem period c.time_period tables.inventory row in
      rw (same_id, same_price, available) ground (arith, priced price row.product.price_rub)

  products_lem :
      (c : Category)
      → any (offers_item id price) (fetch_products o period tables c)
        ≡ any (for_sale id price period tables c) tables.products
  unfolding fetch_products
  products_lem c =
      any-map (offers_item id price) (menu_item period c.time_period tables.inventory) _
      ∙ keeps_products _ _
      ∙ any-select _ (listed c.id) tables.products
      ∙ any-same _ _ (item_lem c) tables.products

  -- If ORDER BY keeps the rows, the menu offers a product at a price exactly if some category that is active,
  -- of this time of day and for this way of delivery has it for sale at that price.
  pub offers-get_menu :
      (method : Method)
      → offers id price (get_menu o period method tables)
        ≡ any
            (λ c. shows period method c && any (for_sale id price period tables c) tables.products)
            tables.categories
  unfolding get_menu fetch_categories
  offers-get_menu method =
      let offered = λ (m : MenuCategory). any (offers_item id price) m.products in
      any-map offered (menu_category o period tables) _
      ∙ keeps_categories (λ c. offered (menu_category o period tables c)) _
      ∙ any-select _ (shows period method) tables.categories
      ∙ any-same _ _ (λ c. ap (λ b. shows period method c && b) (products_lem c)) tables.categories
