-- ===== src/Agents/Menu/Categories.antt =====
-- app/tools/menu_agent_tools.py: the early checks and the write steps of categories.
use sieshka.Database.{varchar, text_fits, int_fits, in_integer}
use sieshka.Prelude.{
  ℕ, Bool, true, false, not, ◌&&◌, String, Option, none, some, List, [], ◌∷◌, ◌++◌, any, ◌==◌,
  string_eq, nat_eq, if◌then◌else◌,
}
use sieshka.Prelude.Table.{select, update, is_empty, has_id}
use sieshka.Agents.{
  Json, Texts, malformed, name_in_use, unresolved, not_allowed, Verdict, valid, rejected, Outcome,
  done, value_error, database_error, coalesce, text_of,
}
use sieshka.Agents.Menu.{Category, NewCategory, CategoryChange, Menu}
use sieshka.Agents.Menu.Fields.{required_category_fields, required_update_category_fields}
use sieshka.Agents.Menu.Products.{category_named, resolve_category, matches}

abbrev pub category_id : Category → ℕ
category_id c = c.id

-- `parent_matches[0]._mapping["id"] == category_id`.
abbrev pub is_self : ℕ → Option ℕ → Bool
is_self id none = false
is_self id (some parent) = parent == id

module _ (t : Texts) where
  abbrev no_parent : Option String → List Category → Verdict
  no_parent name categories =
      rejected (unresolved (text_of name) (matches t (text_of name) categories))

  unfoldable pub validate_new_category : NewCategory → Menu → Verdict
  validate_new_category c menu =
      if is_empty (select (category_named t c.name) menu.categories)
      then elim (resolve_category t c.parent_category menu.categories) [
        | none ↦ no_parent c.parent_category menu.categories
        | some parent ↦ valid
      ]
      else rejected (name_in_use c.name)

  -- `WHERE lower(name) = lower(:name) AND id != :id`, for a new name.
  abbrev pub renamed_like : ℕ → String → Category → Bool
  renamed_like id name c = category_named t name c && not (c.id == id)

  abbrev pub name_taken : Option String → ℕ → List Category → Bool
  name_taken none id categories = false
  name_taken (some name) id categories = any (renamed_like id name) categories

  validate_rest : CategoryChange → List Category → Verdict
  validate_rest c categories =
      if name_taken c.name c.category_id categories
      then rejected (name_in_use (text_of c.name))
      else elim (resolve_category t c.parent_category categories) [
        | none ↦ no_parent c.parent_category categories
        | some parent ↦
            if is_self c.category_id parent
            then rejected (not_allowed (text_of c.parent_category))
            else valid
      ]

  unfoldable pub validate_category_change : CategoryChange → Menu → Verdict
  unfolding validate_rest
  validate_category_change c menu =
      if any (has_id category_id c.category_id) menu.categories
      then validate_rest c menu.categories
      else rejected (unresolved "" 0)

  abbrev refuse_parent : Option String → Menu → Outcome ℕ × Menu
  refuse_parent name menu =
      (value_error (unresolved (text_of name) (matches t (text_of name) menu.categories)), menu)

  -- VARCHAR(255) and INTEGER.
  unfoldable pub category_fits : NewCategory → Bool
  category_fits c = varchar 255 c.name && in_integer c.sort

  unfoldable pub category_change_fits : CategoryChange → Bool
  category_change_fits c = text_fits 255 c.name && int_fits c.sort

  -- `new_id` is the key that the database chooses.
  abbrev pub new_category : ℕ → NewCategory → Option ℕ → Category
  new_category id c parent = record {
    id = id;
    name = c.name;
    parent_category_id = parent;
    time_period = c.time_period;
    fulfillment_scope = c.fulfillment_scope;
    sort = c.sort;
    is_active = true;
  }

  abbrev pub insert_category :
      (List Category → ℕ) → NewCategory → Option ℕ → Menu → Outcome ℕ × Menu
  insert_category new_id c parent menu =
      let id = new_id menu.categories in
      (done id, record menu { categories = menu.categories ++ new_category id c parent ∷ [] })

  unfoldable pub add_category : (List Category → ℕ) → NewCategory → Menu → Outcome ℕ × Menu
  add_category new_id c menu = elim (resolve_category t c.parent_category menu.categories) [
    | none ↦ refuse_parent c.parent_category menu
    | some parent ↦
        if is_empty (select (category_named t c.name) menu.categories)
        then (if category_fits c
            then insert_category new_id c parent menu
            else (database_error, menu))
        else (value_error (name_in_use c.name), menu)
  ]

  abbrev pub reparented : Option ℕ → Option ℕ → Option ℕ
  reparented none parent = parent
  reparented (some new) parent = some new

  abbrev pub changed_category : CategoryChange → Option ℕ → Category → Category
  changed_category c parent row = record row {
    name = coalesce c.name row.name;
    parent_category_id = reparented parent row.parent_category_id;
    time_period = coalesce c.time_period row.time_period;
    fulfillment_scope = coalesce c.fulfillment_scope row.fulfillment_scope;
    sort = coalesce c.sort row.sort;
    is_active = coalesce c.is_active row.is_active;
  }

  abbrev pub write_category : CategoryChange → Option ℕ → Menu → Outcome ℕ × Menu
  write_category c parent menu = (
    done c.category_id,
    record menu {
      categories =
          update (has_id category_id c.category_id) (changed_category c parent) menu.categories;
    },
  )

  unfoldable pub under_parent : CategoryChange → Option (Option ℕ) → Menu → Outcome ℕ × Menu
  under_parent c none menu = refuse_parent c.parent_category menu
  under_parent c (some parent) menu =
      if is_self c.category_id parent
      then (value_error (not_allowed (text_of c.parent_category)), menu)
      else if category_change_fits c
      then write_category c parent menu
      else (database_error, menu)

  unfoldable pub change_category : CategoryChange → Menu → Outcome ℕ × Menu
  unfolding under_parent
  change_category c menu =
      if not (any (has_id category_id c.category_id) menu.categories)
      then (value_error (unresolved "" 0), menu)
      else if name_taken c.name c.category_id menu.categories
      then (value_error (name_in_use (text_of c.name)), menu)
      else under_parent c (resolve_category t c.parent_category menu.categories) menu

module _ {F : Type 0} (t : Texts) where
  unfoldable pub validate_apply_category_command : Json F → Menu → Verdict
  validate_apply_category_command command menu = elim (required_category_fields t command) [
    | none ↦ rejected malformed
    | some c ↦ validate_new_category t c menu
  ]

  unfoldable pub apply_category_command : (List Category → ℕ) → Json F → Menu → Outcome ℕ × Menu
  apply_category_command new_id command menu = elim (required_category_fields t command) [
    | none ↦ (value_error malformed, menu)
    | some c ↦ add_category t new_id c menu
  ]

  module _ (uuid : String → Option ℕ) where
    unfoldable pub validate_update_category_command : Json F → Menu → Verdict
    validate_update_category_command command menu =
        elim (required_update_category_fields t uuid command) [
          | none ↦ rejected malformed
          | some c ↦ validate_category_change t c menu
        ]

    unfoldable pub apply_update_category_command : Json F → Menu → Outcome ℕ × Menu
    apply_update_category_command command menu =
        elim (required_update_category_fields t uuid command) [
          | none ↦ (value_error malformed, menu)
          | some c ↦ change_category t c menu
        ]
