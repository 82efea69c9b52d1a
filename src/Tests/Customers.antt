-- ===== src/Tests/Customers.antt =====
-- The theorems about customers and the menu at concrete inputs.
use Prim.Native.Char.{Char, code}
use sieshka.Prelude.{
  ℕ, suc, ◌+◌, ◌≡◌, ◌≤◌, refl, Bool, true, false, ◌&&◌, not, Option, none, some, String, List, [],
  ◌∷◌, any, arith, nat_beq_iff, nat_eq, leb, string_eq, ◌==◌, if◌then◌else◌,
}
use sieshka.Prelude.Int.{pos}
use sieshka.Prelude.Table.{has_id, distinct, differ}
use sieshka.Customers.{Customer, digits, normalize_phone, find_or_create_by_phone}
use sieshka.Customers.Phones.{find_or_create_by_phone_once}
use sieshka.Agents.{Json, string, integer, object, empty, field, Texts, is_valid, is_done}
use sieshka.Agents.Menu.{Category, Menu, all_day, all_orders}
use sieshka.Agents.Menu.Fields.{
  required_product_fields, required_category_fields, required_update_category_fields,
  required_update_product_fields,
}
use sieshka.Agents.Menu.Products.{
  product_fits, product_change_fits, validate_apply_command, apply_menu_command,
  validate_update_product_command, apply_update_product_command,
}
use sieshka.Agents.Menu.Categories.{
  category_fits, category_change_fits, category_id, validate_apply_category_command,
  apply_category_command, validate_update_category_command, apply_update_category_command,
}
use sieshka.Agents.Menu.Validation.{all_fit, sku_refused, menu_commands_agree}
use sieshka.Agents.Menu.Tidy.{TidyCategories}
use sieshka.Agents.Menu.Histories.{
  to_add_category, to_change_category, run_calls, run_calls-TidyCategories,
}

abbrev ascii_digit : Char → Bool
ascii_digit c = leb b'0' (code c) && leb (code c) b'9'

abbrev written : String
written = "8 (999) 123-45-67"

abbrev canonical : String
canonical = "+79991234567"

abbrev first_key : List Customer → ℕ
first_key rows = 1

find_or_create_by_phone_once_example :
    (let first = find_or_create_by_phone ascii_digit first_key "Anna" written [] in
      find_or_create_by_phone ascii_digit first_key "A." canonical first.1 ≡ first)
unfolding normalize_phone digits
find_or_create_by_phone_once_example =
    find_or_create_by_phone_once ascii_digit first_key "Anna" written "A." canonical canonical []
      refl refl

abbrev plain : Texts
plain = record { strip = λ s. s; lower = λ s. s }

abbrev soups : Category
soups = record {
  id = 1;
  name = "soups";
  parent_category_id = none;
  time_period = all_day;
  fulfillment_scope = all_orders;
  sort = pos 0;
  is_active = true;
}

abbrev menu : Menu
menu = record { categories = soups ∷ []; products = [] }

abbrev add_ramen : Json Unit
add_ramen = object (
    field "name" (string "ramen")
      (field "category" (string "soups") (field "price_rub" (integer (pos 450)) empty)))

abbrev add_hot : Json Unit
add_hot = object (field "name" (string "hot") (field "parent_category" (string "soups") empty))

abbrev soups_under_hot : Json Unit
soups_under_hot =
    object (field "category_id" (string "1") (field "parent_category" (string "hot") empty))

abbrev key_of : String → Option ℕ
key_of s = if s == "1" then some 1 else none

menu_commands_agree_example :
    (is_done (apply_menu_command plain (λ rows. 5) add_ramen menu).0
      ≡ is_valid (validate_apply_command plain add_ramen menu)
        && all_fit (product_fits plain) (required_product_fields plain add_ramen))
    × (is_done (apply_category_command plain (λ rows. 6) add_ramen menu).0
        ≡ is_valid (validate_apply_category_command plain add_ramen menu)
          && all_fit (category_fits plain) (required_category_fields plain add_ramen))
    × (is_done (apply_update_product_command plain key_of add_ramen menu).0
        ≡ is_valid (validate_update_product_command plain key_of add_ramen menu)
          && not (sku_refused plain (required_update_product_fields plain key_of add_ramen) menu)
          && all_fit
              (product_change_fits plain)
              (required_update_product_fields plain key_of add_ramen))
    × (is_done (apply_update_category_command plain key_of add_ramen menu).0
        ≡ is_valid (validate_update_category_command plain key_of add_ramen menu)
          && all_fit
              (category_change_fits plain)
              (required_update_category_fields plain key_of add_ramen))
menu_commands_agree_example = menu_commands_agree plain key_of add_ramen menu 5 6

-- More than every key of the table.
abbrev next_category : List Category → ℕ
next_category [] = 0
next_category (c ∷ rows) = suc (c.id + next_category rows)

next_category_above :
    (k : ℕ) (rows : List Category)
    → next_category rows ≤ k
    → any (has_id category_id k) rows ≡ false
next_category_above k [] h = refl
next_category_above k (c ∷ rows) h = ground (arith, nat_beq_iff c.id k, next_category_above k rows)

-- Two categories become each other's parent, which the code allows.
run_calls-TidyCategories_example :
    TidyCategories plain
      (run_calls plain key_of
        (λ rows. 0)
        next_category
        (to_add_category add_hot ∷ to_change_category soups_under_hot ∷ [])
        menu).categories
unfolding distinct differ
run_calls-TidyCategories_example =
    run_calls-TidyCategories plain key_of (λ rows. 0) next_category
      (λ rows. next_category_above (next_category rows) rows (omega arith))
      (to_add_category add_hot ∷ to_change_category soups_under_hot ∷ []) menu
      (record { keys = refl; names = refl; parents = refl })
