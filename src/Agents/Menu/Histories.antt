-- ===== src/Agents/Menu/Histories.antt =====
-- The categories of the menu through any sequence of commands.
use sieshka.Prelude.{
  ℕ, ◌≡◌, refl, false, String, Option, none, some, List, [], ◌∷◌, any, arith, nat_beq_iff, nat_eq,
  Option-cases, Bool-cases, inl, inr,
}
use sieshka.Prelude.Table.{select, is_empty, has_id, select-any}
use sieshka.Agents.{Json, Texts}
use sieshka.Agents.Menu.{Category, Product, NewProduct, NewCategory, ProductChange, Menu}
use sieshka.Agents.Menu.Fields.{
  required_product_fields, required_category_fields, required_update_product_fields,
  required_update_category_fields,
}
use sieshka.Agents.Menu.Products.{
  category_named, resolve_category, add_product, change_product, apply_menu_command,
  apply_update_product_command,
}
use sieshka.Agents.Menu.Categories.{
  category_id, is_self, new_category, category_fits, add_category, apply_category_command,
  apply_update_category_command,
}
use sieshka.Agents.Menu.Tidy.{
  TidyCategories, resolved_there, append-TidyCategories, change-TidyCategories,
}

-- The four tools that write, each with its command.
pub data MenuCall (F : Type 0) : Type 0 where
  to_add_product to_add_category to_change_product to_change_category : Json F → MenuCall F

module _ (t : Texts) where
  module _ (new_id : List Category → ℕ)
      (fresh : (rows : List Category) → any (has_id category_id (new_id rows)) rows ≡ false)
      (menu : Menu) (tidy : TidyCategories t menu.categories) where
    fresh_parent :
        (name : Option String) (parent : Option ℕ)
        → resolve_category t name menu.categories ≡ some parent
        → is_self (new_id menu.categories) parent ≡ false
    fresh_parent name none h = refl
    fresh_parent name (some k) h = ground (
      arith,
      resolved_there t name menu.categories k h,
      fresh menu.categories,
      nat_beq_iff k (new_id menu.categories),
    )

    add-TidyCategories :
        (c : NewCategory) → TidyCategories t (add_category t new_id c menu).1.categories
    unfolding add_category
    add-TidyCategories c =
        elim (Option-cases (resolve_category t c.parent_category menu.categories)) [
          | inl nothing ↦ rw (add_category, nothing) tidy
          | inr (parent, found) ↦
              elim (Bool-cases (is_empty (select (category_named t c.name) menu.categories))) [
                | inr taken ↦ rw (add_category, found, taken) tidy
                | inl free ↦ elim (Bool-cases (category_fits t c)) [
                  | inl fits ↦
                      rw (add_category, found, free, fits)
                        (append-TidyCategories t menu.categories
                          (new_category t (new_id menu.categories) c parent) (fresh menu.categories)
                          ground (arith, select-any (category_named t c.name) menu.categories, free)
                          (fresh_parent c.parent_category parent found) tidy)
                  | inr large ↦ rw (add_category, found, free, large) tidy
                ]
              ]
        ]

  products_keep :
      (new_product : List Product → ℕ) (c : NewProduct) (menu : Menu)
      → (add_product t new_product c menu).1.categories ≡ menu.categories
  unfolding add_product
  products_keep new_product c menu = ground arith

  product_changes_keep :
      (c : ProductChange) (menu : Menu) → (change_product t c menu).1.categories ≡ menu.categories
  unfolding change_product
  product_changes_keep c menu = ground arith

module _ {F : Type 0} (t : Texts) (uuid : String → Option ℕ) (new_product : List Product → ℕ)
    (new_id : List Category → ℕ) where
  unfoldable pub run_call : MenuCall F → Menu → Menu
  run_call (to_add_product command) menu = (apply_menu_command t new_product command menu).1
  run_call (to_add_category command) menu = (apply_category_command t new_id command menu).1
  run_call (to_change_product command) menu = (apply_update_product_command t uuid command menu).1
  run_call (to_change_category command) menu = (apply_update_category_command t uuid command menu).1

  unfoldable pub run_calls : List (MenuCall F) → Menu → Menu
  run_calls [] menu = menu
  run_calls (call ∷ calls) menu = run_calls calls (run_call call menu)

  module _
      (fresh : (rows : List Category) → any (has_id category_id (new_id rows)) rows ≡ false) where
    run_call-TidyCategories :
        (call : MenuCall F) (menu : Menu)
        → TidyCategories t menu.categories
        → TidyCategories t (run_call call menu).categories
    unfolding run_call apply_menu_command apply_category_command apply_update_product_command
        apply_update_category_command
    run_call-TidyCategories (to_add_product command) menu tidy =
        elim (Option-cases (required_product_fields t command)) [
          | inl e ↦ rw (run_call, apply_menu_command, e) tidy
          | inr (c, e) ↦
              rw (run_call, apply_menu_command, e, products_keep t new_product c menu) tidy
        ]
    run_call-TidyCategories (to_add_category command) menu tidy =
        elim (Option-cases (required_category_fields t command)) [
          | inl e ↦ rw (run_call, apply_category_command, e) tidy
          | inr (c, e) ↦
              rw (run_call, apply_category_command, e)
                (add-TidyCategories t new_id fresh menu tidy c)
        ]
    run_call-TidyCategories (to_change_product command) menu tidy =
        elim (Option-cases (required_update_product_fields t uuid command)) [
          | inl e ↦ rw (run_call, apply_update_product_command, e) tidy
          | inr (c, e) ↦
              rw (run_call, apply_update_product_command, e, product_changes_keep t c menu) tidy
        ]
    run_call-TidyCategories (to_change_category command) menu tidy =
        elim (Option-cases (required_update_category_fields t uuid command)) [
          | inl e ↦ rw (run_call, apply_update_category_command, e) tidy
          | inr (c, e) ↦
              rw (run_call, apply_update_category_command, e) (change-TidyCategories t c menu tidy)
        ]

    -- Whatever commands the four tools of the menu are given, in whatever order, and if each new key of the
    -- database is new: where the keys and, up to case, the names of the categories differ and no category
    -- is its own parent, this is still so after the last command.
    pub run_calls-TidyCategories :
        (calls : List (MenuCall F)) (menu : Menu)
        → TidyCategories t menu.categories
        → TidyCategories t (run_calls calls menu).categories
    unfolding run_calls
    run_calls-TidyCategories [] menu tidy = tidy
    run_calls-TidyCategories (call ∷ calls) menu tidy =
        run_calls-TidyCategories calls (run_call call menu) (run_call-TidyCategories call menu tidy)
