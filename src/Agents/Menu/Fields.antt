-- ===== src/Agents/Menu/Fields.antt =====
-- app/tools/menu_agent_tools.py: the fields of the commands.
use sieshka.Prelude.{
  ℕ, Bool, true, false, not, ◌&&◌, ◌||◌, String, Option, none, some, ◌==◌, string_eq, if◌then◌else◌,
}
use sieshka.Prelude.Int.{ℤ, pos, ltb_ℤ, leb_ℤ}
use sieshka.Agents.{
  Json, null, boolean, integer, string, array, Fields, empty, field, Texts, not_object,
  missing_field, Verdict, rejected, reject_unless, get, get_or, non_blank, as_object, optional_text,
  optional_int, with_json,
}
use sieshka.Database.{JsonField, absent, given, unusable}
use sieshka.Agents.Menu.{
  TimePeriod, all_day, morning, evening, FulfillmentScope, all_orders, delivery, pickup, NewProduct,
  NewCategory, ProductChange, CategoryChange,
}

infixl 5 ◌>>=◌
abbrev ◌>>=◌ : {A B : Type 0} → Option A → (A → Option B) → Option B
none >>= f = none
some a >>= f = f a

abbrev pub period_of : String → Option TimePeriod
period_of s =
    if s == "both"
    then some all_day
    else if s == "morning"
    then some morning
    else if s == "evening"
    then some evening
    else none

abbrev pub scope_of : String → Option FulfillmentScope
scope_of s =
    if s == "both"
    then some all_orders
    else if s == "delivery"
    then some delivery
    else if s == "pickup"
    then some pickup
    else none

-- `"true"` and the like, of a text that is stripped and in lower case.
abbrev pub truth_of : String → Option Bool
truth_of s =
    if s == "true" || (s == "1") || (s == "yes") || (s == "on")
    then some true
    else if s == "false" || (s == "0") || (s == "no") || (s == "off") || (s == "")
    then some false
    else none

abbrev any_integer : ℤ → Bool
any_integer n = true

abbrev not_negative : ℤ → Bool
not_negative n = not (ltb_ℤ n (pos 0))

module _ {F : Type 0} where
  abbrev pub required_text : Texts → Json F → Option String
  required_text t json = do s ← non_blank t json; some (t.strip s)

  abbrev pub required_int : (ℤ → Bool) → Json F → Option ℤ
  required_int ok (integer n) = if ok n then some n else none
  required_int ok _ = none

  abbrev pub one_of : {A : Type 0} → (String → Option A) → Json F → Option A
  one_of f (string s) = f s
  one_of f _ = none

  abbrev pub optional_one_of : {A : Type 0} → (String → Option A) → Json F → Option (Option A)
  optional_one_of f null = some none
  optional_one_of f json = do a ← one_of f json; some (some a)

  abbrev pub optional_string : Json F → Option (Option String)
  optional_string null = some none
  optional_string (string s) = some (some s)
  optional_string _ = none

  -- A description or a picture of a new product, which the tool takes as it comes; what is no text, the
  -- database refuses.
  abbrev pub as_text : Json F → JsonField String
  as_text null = absent
  as_text (string s) = given s
  as_text _ = unusable

  unfoldable pub optional_truth : Texts → Json F → Option (Option Bool)
  optional_truth t null = some none
  optional_truth t (boolean b) = some (some b)
  optional_truth t (string s) = do b ← truth_of (t.lower (t.strip s)); some (some b)
  optional_truth t (integer n) =
      if leb_ℤ n (pos 1) && leb_ℤ (pos 1) n
      then some (some true)
      else if leb_ℤ n (pos 0) && leb_ℤ (pos 0) n
      then some (some false)
      else none
  optional_truth t _ = none

  abbrev pub optional_bool : Json F → Option (Option Bool)
  optional_bool null = some none
  optional_bool (boolean b) = some (some b)
  optional_bool _ = none

  unfoldable pub required_product_fields : Texts → Json F → Option NewProduct
  required_product_fields t command = do
    fields ← as_object command
    name ← required_text t (get "name" fields)
    category ← required_text t (get "category" fields)
    price_rub ← required_int not_negative (get "price_rub" fields)
    some (record {
      name = name;
      category = category;
      price_rub = price_rub;
      description = as_text (get "description" fields);
      image_url = as_text (get "image_url" fields);
    })

  unfoldable pub required_category_fields : Texts → Json F → Option NewCategory
  required_category_fields t command = do
    fields ← as_object command
    name ← required_text t (get "name" fields)
    parent_category ← optional_text t (get "parent_category" fields)
    time_period ← one_of period_of (get_or (string "both") "time_period" fields)
    fulfillment_scope ← one_of scope_of (get_or (string "both") "fulfillment_scope" fields)
    sort ← required_int any_integer (get_or (integer (pos 0)) "sort" fields)
    some (record {
      name = name;
      parent_category = parent_category;
      time_period = time_period;
      fulfillment_scope = fulfillment_scope;
      sort = sort;
    })

  -- `uuid` reads a text as a key; it is none for a text that is no UUID, which matches no row.
  unfoldable pub required_update_product_fields :
      Texts → (uuid : String → Option ℕ) → Json F → Option ProductChange
  required_update_product_fields t uuid command = do
    fields ← as_object command
    product_text ← required_text t (get "product_id" fields)
    product_id ← uuid product_text
    name ← optional_text t (get "name" fields)
    category ← optional_text t (get "category" fields)
    price_rub ← optional_int not_negative (get "price_rub" fields)
    description ← optional_string (get "description" fields)
    image_url ← optional_string (get "image_url" fields)
    is_active ← optional_truth t (get "is_active" fields)
    sku ← optional_text t (get "sku" fields)
    sort ← optional_int any_integer (get "sort" fields)
    some (record {
      product_id = product_id;
      name = name;
      category = category;
      price_rub = price_rub;
      description = description;
      image_url = image_url;
      is_active = is_active;
      sku = sku;
      sort = sort;
    })

  unfoldable pub required_update_category_fields :
      Texts → (uuid : String → Option ℕ) → Json F → Option CategoryChange
  required_update_category_fields t uuid command = do
    fields ← as_object command
    category_text ← one_of some (get "category_id" fields)
    category_id ← uuid category_text
    name ← optional_text t (get "name" fields)
    parent_category ← optional_text t (get "parent_category" fields)
    time_period ← optional_one_of period_of (get "time_period" fields)
    fulfillment_scope ← optional_one_of scope_of (get "fulfillment_scope" fields)
    sort ← optional_int any_integer (get "sort" fields)
    is_active ← optional_bool (get "is_active" fields)
    some (record {
      category_id = category_id;
      name = name;
      parent_category = parent_category;
      time_period = time_period;
      fulfillment_scope = fulfillment_scope;
      sort = sort;
      is_active = is_active;
    })

  -- `key in data`.
  unfoldable pub has_key : String → Fields F → Bool
  has_key key empty = false
  has_key key (field k v fields) = (k == key) || has_key key fields

  is_list : Json F → Bool
  is_list (array elements) = true
  is_list _ = false

  is_text : Json F → Bool
  is_text (string s) = true
  is_text _ = false

  check_menu : Json F → Verdict
  unfolding has_key is_list is_text
  check_menu json = elim (as_object json) [
    | none ↦ rejected not_object
    | some fields ↦
        reject_unless
          (has_key "menu_id" fields
            && is_list (get "items" fields)
            && is_text (get "category" fields))
          missing_field
  ]

  -- The collect phase.
  unfoldable pub validate_menu_command :
      Texts → (loads : String → Option (Json F)) → String → Verdict
  unfolding check_menu
  validate_menu_command t loads llm_output = with_json t loads llm_output check_menu
