-- ===== src/Services/Menu.antt =====
-- app/services/menu_service.py: what the site shows of the menu, and at which price.
pub mod Offers
use sieshka.Prelude.{
  ℕ, ◌≡◌, Bool, true, false, not, ◌&&◌, String, Option, none, some, List, [], ◌∷◌, map, ◌==◌,
  nat_eq, string_eq, ltb, is_some, any, if◌then◌else◌,
}
use sieshka.Prelude.Int.{ℤ, pos, leb_ℤ}
use sieshka.Prelude.Dict.{Dict, lookup}
use sieshka.Prelude.Table.{select}
use sieshka.Database.{StockRow}
use sieshka.Agents.Zones.{ZoneRow}
use sieshka.Agents.Menu.{
  TimePeriod, all_day, morning, evening, FulfillmentScope, all_orders, delivery, pickup, Category,
  Product,
}

pub data MenuPeriod : Type 0 where
  in_morning in_evening : MenuPeriod

pub data Method : Type 0 where
  for_delivery for_pickup : Method

-- A row of `products` with the column that no command of the agents writes.
pub record ProductRow : Type 0 where
  pub product : Product
  pub time_period_override : Option TimePeriod

pub data CtaType : Type 0 where
  add_to_cart unavailable out_of_stock : CtaType

pub data ReasonCode : Type 0 where
  inactive outside_window no_stock : ReasonCode

-- Without the three fields that are always None.
pub record MenuProductItem : Type 0 where
  pub product_id : ℕ
  pub name : String
  pub price_rub : Option ℤ
  pub image_url : Option String
  pub description : Option String
  pub available : Bool
  pub cta_type : CtaType
  pub reason_code : Option ReasonCode

pub record MenuCategory : Type 0 where
  pub category_id : ℕ
  pub name : String
  pub products : List MenuProductItem

-- The tables that the menu is read from.
pub record MenuTables : Type 0 where
  pub categories : List Category
  pub products : List ProductRow
  pub inventory : Dict String StockRow

-- ORDER BY of the two queries.
pub record OrderBy : Type 0 where
  pub categories : List Category → List Category
  pub products : List ProductRow → List ProductRow

-- The hour is the one in the time zone of the menu.
unfoldable pub current_menu_period : ℕ → ℕ → MenuPeriod
current_menu_period morning_end_hour hour =
    if ltb hour morning_end_hour then in_morning else in_evening

-- `IN ('both', period)`.
abbrev pub covers : MenuPeriod → TimePeriod → Bool
covers period all_day = true
covers in_morning morning = true
covers in_evening evening = true
covers in_morning evening = false
covers in_evening morning = false

abbrev pub serves : Method → FulfillmentScope → Bool
serves method all_orders = true
serves for_delivery delivery = true
serves for_pickup pickup = true
serves for_delivery pickup = false
serves for_pickup delivery = false

abbrev pub shows : MenuPeriod → Method → Category → Bool
shows period method c =
    c.is_active && covers period c.time_period && serves method c.fulfillment_scope

unfoldable pub fetch_categories : OrderBy → MenuPeriod → Method → List Category → List Category
fetch_categories o period method categories = o.categories (select (shows period method) categories)

-- `LEFT JOIN inventory`: none without a sku, or where no row has it.
unfoldable pub inventory_quantity : Dict String StockRow → Option String → Option ℤ
inventory_quantity inventory none = none
inventory_quantity inventory (some sku) = elim (lookup sku inventory) [
  | none ↦ none
  | some row ↦ some row.quantity
]

abbrev pub is_out : Option ℤ → Bool
is_out none = false
is_out (some quantity) = leb_ℤ quantity (pos 0)

abbrev pub effective_period : Option TimePeriod → TimePeriod → TimePeriod
effective_period none category_period = category_period
effective_period (some period) category_period = period

abbrev pub item_of : Product → Bool → CtaType → Option ReasonCode → MenuProductItem
item_of p available cta_type reason_code = record {
  product_id = p.id;
  name = p.name;
  price_rub = p.price_rub;
  image_url = p.image_url;
  description = p.description;
  available = available;
  cta_type = cta_type;
  reason_code = reason_code;
}

unfoldable pub menu_item :
    MenuPeriod → TimePeriod → Dict String StockRow → ProductRow → MenuProductItem
menu_item period category_period inventory row =
    if not row.product.is_active
    then item_of row.product false unavailable (some inactive)
    else if not (covers period (effective_period row.time_period_override category_period))
    then item_of row.product false unavailable (some outside_window)
    else if is_out (inventory_quantity inventory row.product.sku)
    then item_of row.product false out_of_stock (some no_stock)
    else item_of row.product true add_to_cart none

abbrev pub is_in : ℕ → Option ℕ → Bool
is_in category_id none = false
is_in category_id (some id) = id == category_id

abbrev pub listed : ℕ → ProductRow → Bool
listed category_id row = is_in category_id row.product.category_id && is_some row.product.price_rub

unfoldable pub fetch_products : OrderBy → MenuPeriod → MenuTables → Category → List MenuProductItem
unfolding menu_item
fetch_products o period tables c =
    map (menu_item period c.time_period tables.inventory)
      (o.products (select (listed c.id) tables.products))

abbrev pub menu_category : OrderBy → MenuPeriod → MenuTables → Category → MenuCategory
menu_category o period tables c = record {
  category_id = c.id;
  name = c.name;
  products = fetch_products o period tables c;
}

unfoldable pub get_menu : OrderBy → MenuPeriod → Method → MenuTables → List MenuCategory
unfolding fetch_categories
get_menu o period method tables =
    map (menu_category o period tables) (fetch_categories o period method tables.categories)

-- `setting` is `settings.DELIVERY_FEE`.
unfoldable pub get_delivery_fee : ℤ → Option ℕ → List ZoneRow → ℤ
get_delivery_fee setting none zones = setting
get_delivery_fee setting (some zone_id) [] = setting
get_delivery_fee setting (some zone_id) (z ∷ zones) =
    if z.id == zone_id then z.delivery_fee_rub else get_delivery_fee setting (some zone_id) zones
