-- ===== src/Agents/Menu/Products.antt =====
-- app/tools/menu_agent_tools.py: the early checks and the write steps of products.
use sieshka.Database.{JsonField, given, unusable, varchar, text_fits, int_fits, in_integer}
use sieshka.Prelude.{
  ℕ, Bool, true, false, not, ◌&&◌, String, Option, none, some, List, [], ◌∷◌, ◌++◌, any, length,
  ◌==◌, string_eq, nat_eq, if◌then◌else◌,
}
use sieshka.Prelude.Int.{pos}
use sieshka.Prelude.Table.{select, update, is_empty, only, has_id}
use sieshka.Agents.{
  Json, Texts, malformed, name_in_use, unresolved, Verdict, valid, rejected, Outcome, done,
  value_error, database_error, coalesce, text_of,
}
use sieshka.Agents.Menu.{Category, Product, NewProduct, ProductChange, Menu}
use sieshka.Agents.Menu.Fields.{required_product_fields, required_update_product_fields}

abbrev pub product_id : Product → ℕ
product_id p = p.id

module _ (t : Texts) where
  abbrev pub category_named : String → Category → Bool
  category_named name c = t.lower c.name == t.lower name

  abbrev pub product_named : String → Product → Bool
  product_named name p = t.lower p.name == t.lower name

  -- The key of a category that a command may name: none if it names one that is not unique.
  unfoldable pub resolve_category : Option String → List Category → Option (Option ℕ)
  resolve_category none categories = some none
  resolve_category (some name) categories = elim (only (select (category_named name) categories)) [
    | none ↦ none
    | some c ↦ some (some c.id)
  ]

  abbrev pub matches : String → List Category → ℕ
  matches name categories = length (select (category_named name) categories)

  unfoldable pub validate_new_product : NewProduct → Menu → Verdict
  validate_new_product c menu = elim (resolve_category (some c.category) menu.categories) [
    | none ↦ rejected (unresolved c.category (matches c.category menu.categories))
    | some key ↦
        if is_empty (select (product_named c.name) menu.products)
        then valid
        else rejected (name_in_use c.name)
  ]

  -- `sku` is not looked at.
  unfoldable pub validate_product_change : ProductChange → Menu → Verdict
  validate_product_change c menu =
      if any (has_id product_id c.product_id) menu.products
      then elim (resolve_category c.category menu.categories) [
        | none ↦
            rejected
              (unresolved (text_of c.category) (matches (text_of c.category) menu.categories))
        | some key ↦ valid
      ]
      else rejected (unresolved "" 0)

  -- `WHERE sku = :sku AND id != :id`.
  abbrev pub has_sku : String → Product → Bool
  has_sku sku p = elim p.sku [ none ↦ false | some own ↦ own == sku ]

  abbrev pub sku_taken : Option String → ℕ → List Product → Bool
  sku_taken none id products = false
  sku_taken (some sku) id products = any (λ p. has_sku sku p && not (p.id == id)) products

  abbrev text_column : JsonField String → Option String
  text_column (given s) = some s
  text_column _ = none

  abbrev is_usable : JsonField String → Bool
  is_usable unusable = false
  is_usable _ = true

  -- VARCHAR(255), INTEGER, and two columns of texts.
  unfoldable pub product_fits : NewProduct → Bool
  product_fits c =
      varchar 255 c.name
      && in_integer c.price_rub
      && is_usable c.description
      && is_usable c.image_url

  -- The columns that an update gives.
  unfoldable pub product_change_fits : ProductChange → Bool
  product_change_fits c =
      text_fits 255 c.name && int_fits c.price_rub && text_fits 128 c.sku && int_fits c.sort

  -- `new_id` is the key that the database chooses; the columns that are not given have their defaults.
  abbrev pub new_product : ℕ → NewProduct → Option ℕ → Product
  new_product id c key = record {
    id = id;
    name = c.name;
    category_id = key;
    price_rub = some c.price_rub;
    description = text_column c.description;
    image_url = text_column c.image_url;
    is_active = true;
    sku = none;
    sort = pos 0;
  }

  insert_product : (List Product → ℕ) → NewProduct → Option ℕ → Menu → Outcome ℕ × Menu
  insert_product new_id c key menu =
      let id = new_id menu.products in
      (done id, record menu { products = menu.products ++ new_product id c key ∷ [] })

  unfoldable pub add_product : (List Product → ℕ) → NewProduct → Menu → Outcome ℕ × Menu
  unfolding insert_product
  add_product new_id c menu = elim (resolve_category (some c.category) menu.categories) [
    | none ↦ (value_error (unresolved c.category (matches c.category menu.categories)), menu)
    | some key ↦
        if is_empty (select (product_named c.name) menu.products)
        then (if product_fits c then insert_product new_id c key menu else (database_error, menu))
        else (value_error (name_in_use c.name), menu)
  ]

  -- `COALESCE(:column, column)` for a column that may be NULL.
  abbrev kept_or : {A : Type 0} → Option A → Option A → Option A
  kept_or none column = column
  kept_or (some new) column = some new

  abbrev pub changed_product : ProductChange → Option ℕ → Product → Product
  changed_product c key p = record p {
    name = coalesce c.name p.name;
    category_id = kept_or key p.category_id;
    price_rub = kept_or c.price_rub p.price_rub;
    description = kept_or c.description p.description;
    image_url = kept_or c.image_url p.image_url;
    is_active = coalesce c.is_active p.is_active;
    sku = kept_or c.sku p.sku;
    sort = coalesce c.sort p.sort;
  }

  write_product : ProductChange → Option ℕ → Menu → Outcome ℕ × Menu
  write_product c key menu = (
    done c.product_id,
    record menu {
      products = update (has_id product_id c.product_id) (changed_product c key) menu.products;
    },
  )

  in_category : ProductChange → Menu → Outcome ℕ × Menu
  unfolding write_product
  in_category c menu = elim (resolve_category c.category menu.categories) [
    | none ↦ (
      value_error (unresolved (text_of c.category) (matches (text_of c.category) menu.categories)),
      menu,
    )
    | some key ↦
        if sku_taken c.sku c.product_id menu.products
        then (value_error (name_in_use (text_of c.sku)), menu)
        else if product_change_fits c
        then write_product c key menu
        else (database_error, menu)
  ]

  unfoldable pub change_product : ProductChange → Menu → Outcome ℕ × Menu
  unfolding in_category
  change_product c menu =
      if any (has_id product_id c.product_id) menu.products
      then in_category c menu
      else (value_error (unresolved "" 0), menu)

module _ {F : Type 0} (t : Texts) where
  unfoldable pub validate_apply_command : Json F → Menu → Verdict
  validate_apply_command command menu = elim (required_product_fields t command) [
    | none ↦ rejected malformed
    | some c ↦ validate_new_product t c menu
  ]

  unfoldable pub apply_menu_command : (List Product → ℕ) → Json F → Menu → Outcome ℕ × Menu
  apply_menu_command new_id command menu = elim (required_product_fields t command) [
    | none ↦ (value_error malformed, menu)
    | some c ↦ add_product t new_id c menu
  ]

  module _ (uuid : String → Option ℕ) where
    unfoldable pub validate_update_product_command : Json F → Menu → Verdict
    validate_update_product_command command menu =
        elim (required_update_product_fields t uuid command) [
          | none ↦ rejected malformed
          | some c ↦ validate_product_change t c menu
        ]

    unfoldable pub apply_update_product_command : Json F → Menu → Outcome ℕ × Menu
    apply_update_product_command command menu =
        elim (required_update_product_fields t uuid command) [
          | none ↦ (value_error malformed, menu)
          | some c ↦ change_product t c menu
        ]
