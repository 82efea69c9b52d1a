-- ===== src/Tools/Inventory.antt =====
-- app/tools/inventory_tools.py, app/services/inventory_ledger.py, and `reserve_inventory_items` of
-- app/tools/order_tools.py.

pub mod Ledger
pub mod Calls
pub mod Sales
pub mod Unrelated
pub mod Counts
use sieshka.Prelude.{
  ℕ, Bool, true, false, ◌&&◌, ◌||◌, String, Option, none, some, List, [], ◌∷◌, ◌++◌, ◌==◌,
  string_eq, nat_eq, if◌then◌else◌,
}
use sieshka.Prelude.Int.{ℤ, pos, ◌+ℤ◌, ◌-ℤ◌, ltb_ℤ, leb_ℤ}
use sieshka.Prelude.Dict.{lookup, adjust}
use sieshka.Database.{
  JsonField, absent, given, unusable, ItemJson, dict, other, OrderRow, StockRow, MovementReason,
  restock_manual, restock_agent, sale, adjustment, Movement, Db, Failure, order_not_found,
  sku_not_found, malformed_item, out_of_range, in_integer, raise_unless, Session, Result, ok, err,
  pure, raise, or_raise, modify, ◌>>=◌, ◌>>◌,
}
use sieshka.Fsm.Machines.{InventoryState, available, low_stock, critical, out_of_stock}

unfoldable pub record_movement : Movement → Session Unit
record_movement m = do
  raise_unless (in_integer m.delta) out_of_range
  modify (λ db. record db { inventory_movements = db.inventory_movements ++ m ∷ [] })

-- The parameter of an UPDATE of a quantity, and the quantity that it writes, are INTEGERs.
unfoldable pub quantity_fits : String → ℤ → (ℤ → ℤ) → Db → Bool
quantity_fits sku parameter f db = elim (lookup sku db.inventory) [
  | none ↦ in_integer parameter
  | some s ↦ in_integer parameter && in_integer (f s.quantity)
]

-- `UPDATE inventory SET quantity = … WHERE sku = :sku`.
unfoldable pub update_quantity : String → ℤ → (ℤ → ℤ) → Session Unit
unfolding quantity_fits
update_quantity sku parameter f db =
    if quantity_fits sku parameter f db
    then (
      ok tt,
      record db { inventory = adjust sku (λ s. record s { quantity = f s.quantity }) db.inventory },
    )
    else (err out_of_range, db)

-- `SELECT quantity FROM inventory WHERE sku = :sku FOR UPDATE`.
unfoldable pub quantity_of : String → Db → Option ℤ
quantity_of sku db = elim (lookup sku db.inventory) [ none ↦ none | some s ↦ some s.quantity ]

unfoldable pub check_inventory_stock : String → Session ℤ
check_inventory_stock sku db = elim (quantity_of sku db) [
  | none ↦ pure (pos 0) db
  | some q ↦ pure q db
]

-- A correction of the stock: no source, and no alert.
abbrev pub correction : String → ℤ → Movement
correction sku delta = record {
  sku = sku;
  delta = delta;
  reason = adjustment;
  source_type = none;
  source_id = none;
  below_zero = false;
}

take_stock : String → ℤ → Session Unit
unfolding record_movement update_quantity
take_stock sku quantity = do
  update_quantity sku quantity (λ q. q -ℤ quantity)
  record_movement (correction sku (pos 0 -ℤ quantity))

-- 1 if the stock was there and has been taken, 0 if it was not.
unfoldable pub decrement_inventory : String → ℤ → Session Bool
unfolding take_stock quantity_of
decrement_inventory sku quantity db = elim (quantity_of sku db) [
  | none ↦ pure false db
  | some current ↦
      if ltb_ℤ current quantity then pure false db else (take_stock sku quantity >> pure true) db
]

-- The `reason` that a caller names counts only if it is one of the two restocks.
abbrev pub restock_reason : Option MovementReason → MovementReason
restock_reason (some restock_agent) = restock_agent
restock_reason _ = restock_manual

unfoldable pub increment_inventory :
    String → ℤ → Option MovementReason → Option String → Option ℕ → Session Unit
unfolding record_movement update_quantity
increment_inventory sku quantity reason source_type source_id db = elim (lookup sku db.inventory) [
  | none ↦ raise sku_not_found db
  | some _ ↦
      (do
        update_quantity sku quantity (λ q. q +ℤ quantity)
        record_movement (record {
          sku = sku;
          delta = quantity;
          reason = restock_reason reason;
          source_type = source_type;
          source_id = source_id;
          below_zero = false;
        }))
        db
]

abbrev pub is_zero : ℤ → Bool
is_zero d = leb_ℤ d (pos 0) && leb_ℤ (pos 0) d

unfoldable pub set_inventory_quantity : String → ℤ → Session Unit
unfolding record_movement update_quantity quantity_of
set_inventory_quantity sku quantity db = elim (quantity_of sku db) [
  | none ↦ raise sku_not_found db
  | some current ↦
      let delta = quantity -ℤ current in
      (do
        update_quantity sku quantity (λ _. quantity)
        if is_zero delta then pure tt else record_movement (correction sku delta))
        db
]

unfoldable pub stock_state : ℤ → InventoryState
stock_state qty =
    if leb_ℤ qty (pos 0)
    then out_of_stock
    else if ltb_ℤ qty (pos 5)
    then critical
    else if ltb_ℤ qty (pos 20)
    then low_stock
    else available

unfoldable pub set_inventory_state : String → Session Unit
unfolding stock_state quantity_of
set_inventory_state sku db = elim (quantity_of sku db) [
  | none ↦ raise sku_not_found db
  | some qty ↦
      modify
        (λ db. record db {
          inventory = adjust sku (λ s. record s { state = stock_state qty }) db.inventory;
        })
        db
]

-- `InventoryService.set_quantity`: both writes in one session.
unfoldable pub set_quantity : String → ℤ → Session Unit
unfolding set_inventory_quantity set_inventory_state
set_quantity sku quantity = do set_inventory_quantity sku quantity; set_inventory_state sku

-- `if not sku` is true of a missing and of an empty text.
abbrev pub non_empty : JsonField String → JsonField String
non_empty absent = absent
non_empty unusable = unusable
non_empty (given sku) = if sku == "" then absent else given sku

abbrev pub or_missing : Option String → JsonField String
or_missing none = absent
or_missing (some sku) = given sku

abbrev pub sku_of_product : JsonField ℕ → Db → JsonField String
sku_of_product absent db = absent
sku_of_product unusable db = unusable
sku_of_product (given product_id) db = elim (lookup product_id db.product_skus) [
  | none ↦ absent
  | some sku ↦ non_empty (or_missing sku)
]

-- The sku of an item: its own, or that of its product.
unfoldable pub item_sku : ItemJson → Db → JsonField String
item_sku other db = absent
item_sku (dict sku product_id qty) db = elim (non_empty sku) [
  | given own ↦ given own
  | unusable ↦ unusable
  | absent ↦ sku_of_product product_id db
]

-- `int(item.get("qty", 1))`.
abbrev pub item_qty : ItemJson → JsonField ℤ
item_qty (dict sku product_id absent) = given (pos 1)
item_qty (dict sku product_id qty) = qty
item_qty other = given (pos 1)

-- The movement that a sale of `qty` to an order writes.
abbrev pub sale_movement : ℕ → String → ℤ → ℤ → Movement
sale_movement order_id sku qty resulting = record {
  sku = sku;
  delta = pos 0 -ℤ qty;
  reason = sale;
  source_type = some "order";
  source_id = some order_id;
  below_zero = ltb_ℤ resulting (pos 0);
}

-- One round of the loop for a sku in the table: whether it fell below zero.
unfoldable pub sell : ℕ → String → ℤ → ℤ → Session Bool
unfolding record_movement update_quantity
sell order_id sku qty current = do
  update_quantity sku qty (λ q. q -ℤ qty)
  record_movement (sale_movement order_id sku qty (current -ℤ qty))
  pure (ltb_ℤ (current -ℤ qty) (pos 0))

unfoldable pub reserve_sku : ℕ → String → ℤ → Session Bool
unfolding sell quantity_of
reserve_sku order_id sku qty db = elim (quantity_of sku db) [
  | none ↦ pure false db
  | some current ↦ sell order_id sku qty current db
]

unfoldable pub reserve_known : ℕ → ℤ → JsonField String → Session Bool
unfolding reserve_sku
reserve_known order_id qty absent = pure false
reserve_known order_id qty unusable = raise malformed_item
reserve_known order_id qty (given sku) = reserve_sku order_id sku qty

unfoldable pub reserve_qty : ℕ → ItemJson → JsonField ℤ → Session Bool
unfolding reserve_known item_sku
reserve_qty order_id item (given qty) db = reserve_known order_id qty (item_sku item db) db
reserve_qty order_id item _ db = raise malformed_item db

unfoldable pub reserve_item : ℕ → ItemJson → Session Bool
unfolding reserve_qty
reserve_item order_id item = reserve_qty order_id item (item_qty item)

unfoldable pub reserve_items : ℕ → List ItemJson → Bool → Session Bool
reserve_items order_id [] any_below_zero = pure any_below_zero
reserve_items order_id (item ∷ items) any_below_zero = do
  below_zero ← reserve_item order_id item
  reserve_items order_id items (any_below_zero || below_zero)

-- 1, here `true`, if any item went below zero.
unfoldable pub reserve_inventory_items : ℕ → Session Bool
unfolding reserve_items
reserve_inventory_items order_id db = elim (lookup order_id db.orders) [
  | none ↦ raise order_not_found db
  | some o ↦ reserve_items order_id o.items false db
]
