-- ===== src/Tests/Menus.antt =====
-- The theorems about the menu that is shown at concrete inputs.
use sieshka.Prelude.{◌≡◌, refl, true, none, some, List, [], ◌∷◌, map}
use sieshka.Prelude.Int.{pos}
use sieshka.Prelude.Dict.{lookup}
use sieshka.Prelude.Table.{select, distinct}
use sieshka.Fsm.Machines.{available}
use sieshka.Agents.Menu.{all_day, morning, all_orders}
use sieshka.Services.Menu.{
  MenuTables, OrderBy, in_evening, for_pickup, fetch_categories, fetch_products, inventory_quantity,
  menu_item, get_menu,
}
use sieshka.Services.Menu.Offers.{offers, offers-get_menu}
use sieshka.Agents.Zones.{ZoneRow}
use sieshka.Checkout.{OrderItem, compute_checkout_total}
use sieshka.Checkout.Route.{resolve_checkout_items, zone_fee}
use sieshka.Checkout.Offered.{CartLine, checkout_item, product_of, shown_total, offered_is_charged}

-- Three bowls are left; porridge is for mornings.
abbrev tables : MenuTables
tables = record {
  categories =
      record {
        id = 1;
        name = "soups";
        parent_category_id = none;
        time_period = all_day;
        fulfillment_scope = all_orders;
        sort = pos 0;
        is_active = true;
      }
      ∷ [];
  products =
      record {
        product = record {
          id = 4;
          name = "ramen";
          category_id = some 1;
          price_rub = some (pos 450);
          description = none;
          image_url = none;
          is_active = true;
          sku = some "ramen";
          sort = pos 0;
        };
        time_period_override = none;
      }
      ∷ record {
        product = record {
          id = 5;
          name = "porridge";
          category_id = some 1;
          price_rub = some (pos 200);
          description = none;
          image_url = none;
          is_active = true;
          sku = none;
          sort = pos 1;
        };
        time_period_override = some morning;
      }
      ∷ [];
  inventory = ("ramen", record { quantity = pos 3; state = available }) ∷ [];
}

abbrev as_stored : OrderBy
as_stored = record { categories = λ rows. rows; products = λ rows. rows }

offers-get_menu_example :
    offers 4 (pos 450) (get_menu as_stored in_evening for_pickup tables) ≡ true
unfolding inventory_quantity lookup
offers-get_menu_example =
    offers-get_menu as_stored (λ p rows. refl) (λ p rows. refl) 4 (pos 450) in_evening tables
      for_pickup

abbrev cart : List CartLine
cart = record { id = 4; price = pos 450; qty = pos 2 } ∷ []

abbrev zones : List ZoneRow
zones =
    record {
      id = 2;
      name = "center";
      delivery_time_minutes = pos 40;
      is_active = true;
      delivery_fee_rub = pos 150;
    }
    ∷ []

offered_is_charged_example :
    (items : List OrderItem) × (resolve_checkout_items
        (map checkout_item cart)
        (map product_of tables.products)
      ≡ some items)
    × (compute_checkout_total (pos 200) items "delivery" none (zone_fee (some 2) zones)
        ≡ shown_total (pos 200) cart "delivery" (some 2) zones)
unfolding distinct get_menu fetch_categories fetch_products select menu_item inventory_quantity
    lookup
offered_is_charged_example =
    offered_is_charged as_stored (λ p rows. refl) (λ p rows. refl) in_evening for_pickup tables refl
      cart (pos 200) "delivery" (some 2) zones (refl, tt)
