-- ===== src/Agents/Menu/Validation.antt =====
-- The early checks of the menu's commands against their write steps.
use sieshka.Prelude.{
  ℕ, ◌≡◌, refl, Bool, true, false, not, ◌&&◌, String, Option, none, some, List, arith, Option-cases,
  inl, inr,
}
use sieshka.Agents.{Json, Texts, is_valid, is_done}
use sieshka.Agents.Menu.{
  Category, Product, NewProduct, NewCategory, ProductChange, CategoryChange, Menu,
}
use sieshka.Agents.Menu.Fields.{
  required_product_fields, required_category_fields, required_update_product_fields,
  required_update_category_fields,
}
use sieshka.Agents.Menu.Products.{
  product_fits, product_change_fits, sku_taken, validate_new_product, validate_product_change,
  add_product, change_product, validate_apply_command, apply_menu_command,
  validate_update_product_command, apply_update_product_command,
}
use sieshka.Agents.Menu.Categories.{
  category_fits, category_change_fits, validate_new_category, validate_category_change,
  add_category, change_category, under_parent, validate_apply_category_command,
  apply_category_command, validate_update_category_command, apply_update_category_command,
}

module _ (t : Texts) (menu : Menu) where
  product_agrees :
      (new_id : List Product → ℕ) (c : NewProduct)
      → is_done (add_product t new_id c menu).0
        ≡ is_valid (validate_new_product t c menu) && product_fits t c
  unfolding add_product validate_new_product
  product_agrees new_id c = ground arith

  category_agrees :
      (new_id : List Category → ℕ) (c : NewCategory)
      → is_done (add_category t new_id c menu).0
        ≡ is_valid (validate_new_category t c menu) && category_fits t c
  unfolding add_category validate_new_category
  category_agrees new_id c = ground arith

  product_change_agrees :
      (c : ProductChange)
      → is_done (change_product t c menu).0
        ≡ is_valid (validate_product_change t c menu)
          && not (sku_taken t c.sku c.product_id menu.products)
          && product_change_fits t c
  unfolding change_product validate_product_change
  product_change_agrees c = ground arith

  category_change_agrees :
      (c : CategoryChange)
      → is_done (change_category t c menu).0
        ≡ is_valid (validate_category_change t c menu) && category_change_fits t c
  unfolding change_category validate_category_change under_parent
  category_change_agrees c = ground arith

-- A sku that an update asks for and another product has, which the early check does not look at.
abbrev pub sku_refused : Texts → Option ProductChange → Menu → Bool
sku_refused t none menu = false
sku_refused t (some c) menu = sku_taken t c.sku c.product_id menu.products

abbrev pub all_fit : {A : Type 0} → (A → Bool) → Option A → Bool
all_fit fits none = true
all_fit fits (some c) = fits c

module _ {F : Type 0} (t : Texts) (uuid : String → Option ℕ) (command : Json F) (menu : Menu) where
  -- For every command and every menu, each of the four write steps writes exactly if its validator
  -- returns 1 on the same menu and what it writes fits the columns, and otherwise raises; an update of a product
  -- also raises if its sku is that of another product.
  pub menu_commands_agree :
      (new_product new_category : ℕ)
      → (is_done (apply_menu_command t (λ rows. new_product) command menu).0
          ≡ is_valid (validate_apply_command t command menu)
            && all_fit (product_fits t) (required_product_fields t command))
        × (is_done (apply_category_command t (λ rows. new_category) command menu).0
            ≡ is_valid (validate_apply_category_command t command menu)
              && all_fit (category_fits t) (required_category_fields t command))
        × (is_done (apply_update_product_command t uuid command menu).0
            ≡ is_valid (validate_update_product_command t uuid command menu)
              && not (sku_refused t (required_update_product_fields t uuid command) menu)
              && all_fit (product_change_fits t) (required_update_product_fields t uuid command))
        × (is_done (apply_update_category_command t uuid command menu).0
            ≡ is_valid (validate_update_category_command t uuid command menu)
              && all_fit (category_change_fits t) (required_update_category_fields t uuid command))
  unfolding apply_menu_command validate_apply_command apply_category_command
      validate_apply_category_command apply_update_product_command validate_update_product_command
      apply_update_category_command validate_update_category_command
  menu_commands_agree new_product new_category = (
    elim (Option-cases (required_product_fields t command)) [
      | inl e ↦ rw (apply_menu_command, validate_apply_command, e) refl
      | inr (c, e) ↦ rw (apply_menu_command, validate_apply_command, e) (product_agrees t menu _ c)
    ],
    elim (Option-cases (required_category_fields t command)) [
      | inl e ↦ rw (apply_category_command, validate_apply_category_command, e) refl
      | inr (c, e) ↦
          rw (apply_category_command, validate_apply_category_command, e)
            (category_agrees t menu _ c)
    ],
    elim (Option-cases (required_update_product_fields t uuid command)) [
      | inl e ↦ rw (apply_update_product_command, validate_update_product_command, e) refl
      | inr (c, e) ↦
          rw (apply_update_product_command, validate_update_product_command, e)
            (product_change_agrees t menu c)
    ],
    elim (Option-cases (required_update_category_fields t uuid command)) [
      | inl e ↦ rw (apply_update_category_command, validate_update_category_command, e) refl
      | inr (c, e) ↦
          rw (apply_update_category_command, validate_update_category_command, e)
            (category_change_agrees t menu c)
    ],
  )
