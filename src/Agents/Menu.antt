-- ===== src/Agents/Menu.antt =====
-- app/tools/menu_agent_tools.py: the tables of the menu, and the commands that change them.
pub mod Fields
pub mod Products
pub mod Categories
pub mod Validation
pub mod Tidy
pub mod Histories
use sieshka.Prelude.{ℕ, Bool, String, Option, List}
use sieshka.Prelude.Int.{ℤ}
use sieshka.Database.{JsonField}

pub data TimePeriod : Type 0 where
  all_day morning evening : TimePeriod

pub data FulfillmentScope : Type 0 where
  all_orders delivery pickup : FulfillmentScope

pub record Category : Type 0 where
  pub id : ℕ
  pub name : String
  pub parent_category_id : Option ℕ
  pub time_period : TimePeriod
  pub fulfillment_scope : FulfillmentScope
  pub sort : ℤ
  pub is_active : Bool

pub record Product : Type 0 where
  pub id : ℕ
  pub name : String
  pub category_id : Option ℕ
  pub price_rub : Option ℤ
  pub description : Option String
  pub image_url : Option String
  pub is_active : Bool
  pub sku : Option String
  pub sort : ℤ

pub record NewProduct : Type 0 where
  pub name : String
  pub category : String
  pub price_rub : ℤ
  pub description : JsonField String
  pub image_url : JsonField String

pub record NewCategory : Type 0 where
  pub name : String
  pub parent_category : Option String
  pub time_period : TimePeriod
  pub fulfillment_scope : FulfillmentScope
  pub sort : ℤ

-- None leaves a column as it is.
pub record ProductChange : Type 0 where
  pub product_id : ℕ
  pub name : Option String
  pub category : Option String
  pub price_rub : Option ℤ
  pub description : Option String
  pub image_url : Option String
  pub is_active : Option Bool
  pub sku : Option String
  pub sort : Option ℤ

pub record CategoryChange : Type 0 where
  pub category_id : ℕ
  pub name : Option String
  pub parent_category : Option String
  pub time_period : Option TimePeriod
  pub fulfillment_scope : Option FulfillmentScope
  pub sort : Option ℤ
  pub is_active : Option Bool

-- The two tables.
pub record Menu : Type 0 where
  pub categories : List Category
  pub products : List Product
