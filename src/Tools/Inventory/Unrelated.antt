-- ===== src/Tools/Inventory/Unrelated.antt =====
-- A reservation depends on the order's items, the stock and the products' skus only.
use sieshka.Prelude.{
  ℕ, Bool, ◌||◌, String, ◌≡◌, refl, ap, ◌∙◌, some, List, [], ◌∷◌, Option-cases, inl, inr, arith,
  nat_eq, string_eq,
}
use sieshka.Prelude.Int.{ℤ}
use sieshka.Prelude.Dict.{Dict, lookup}
use sieshka.Database.{
  JsonField, absent, given, unusable, ItemJson, OrderRow, TicketRow, PaymentRow, Db, Result, ok,
  err, continue,
}
use sieshka.Tools.Inventory.{
  reserve_item, reserve_items, reserve_sku, reserve_known, reserve_qty, reserve_inventory_items,
  item_sku, item_qty, quantity_of, sell, update_quantity, quantity_fits, record_movement,
}

module _ (orders : Dict ℕ OrderRow) (tickets : Dict ℕ TicketRow) (payments : List PaymentRow)
    (keys : List (ℕ × String)) where
  -- A database with other orders, tickets, payments and resume points.
  abbrev pub over : Db → Db
  over db = record db {
    orders = orders;
    kitchen_tickets = tickets;
    payments = payments;
    idempotency_keys = keys;
  }

  abbrev over_out : {A : Type 0} → Result A × Db → Result A × Db
  over_out out = (out.0, over out.1)

  sell-over :
      (order_id : ℕ) (sku : String) (qty current : ℤ) (db : Db)
      → sell order_id sku qty current (over db) ≡ over_out (sell order_id sku qty current db)
  unfolding sell update_quantity record_movement quantity_fits
  sell-over order_id sku qty current db = ground arith

  reserve_sku-over :
      (order_id : ℕ) (sku : String) (qty : ℤ) (db : Db)
      → reserve_sku order_id sku qty (over db) ≡ over_out (reserve_sku order_id sku qty db)
  unfolding reserve_sku quantity_of
  reserve_sku-over order_id sku qty db = elim (Option-cases (lookup sku db.inventory)) [
    | inl missing ↦ rw (reserve_sku, quantity_of, missing) refl
    | inr (row, found) ↦
        rw (reserve_sku, quantity_of, found) (sell-over order_id sku qty row.quantity db)
  ]

  reserve_known-over :
      (order_id : ℕ) (qty : ℤ) (sku : JsonField String) (db : Db)
      → reserve_known order_id qty sku (over db) ≡ over_out (reserve_known order_id qty sku db)
  unfolding reserve_known
  reserve_known-over order_id qty absent db = refl
  reserve_known-over order_id qty unusable db = refl
  reserve_known-over order_id qty (given sku) db = reserve_sku-over order_id sku qty db

  item_sku-over : (item : ItemJson) (db : Db) → item_sku item (over db) ≡ item_sku item db
  unfolding item_sku
  item_sku-over item db = ground arith

  reserve_qty-over :
      (order_id : ℕ) (item : ItemJson) (qty : JsonField ℤ) (db : Db)
      → reserve_qty order_id item qty (over db) ≡ over_out (reserve_qty order_id item qty db)
  unfolding reserve_qty
  reserve_qty-over order_id item absent db = refl
  reserve_qty-over order_id item unusable db = refl
  reserve_qty-over order_id item (given qty) db =
      ap (λ sku. reserve_known order_id qty sku (over db)) (item_sku-over item db)
      ∙ reserve_known-over order_id qty (item_sku item db) db

  continue-over :
      (order_id : ℕ) (items : List ItemJson) (any_below_zero : Bool) (out : Result Bool × Db)
      → ((b : Bool) (db : Db)
          → reserve_items order_id items b (over db) ≡ over_out (reserve_items order_id items b db))
      → continue out.0 (λ b. reserve_items order_id items (any_below_zero || b)) (over out.1)
        ≡ over_out (continue out.0 (λ b. reserve_items order_id items (any_below_zero || b)) out.1)
  continue-over order_id items any_below_zero (ok b, db) rest = rest (any_below_zero || b) db
  continue-over order_id items any_below_zero (err e, db) rest = refl

  reserve_items-over :
      (order_id : ℕ) (items : List ItemJson) (b : Bool) (db : Db)
      → reserve_items order_id items b (over db) ≡ over_out (reserve_items order_id items b db)
  unfolding reserve_items reserve_item
  reserve_items-over order_id [] b db = refl
  reserve_items-over order_id (item ∷ items) b db =
      ap
        (λ (out : Result Bool × Db).
          continue out.0 (λ c. reserve_items order_id items (b || c)) out.1)
        (reserve_qty-over order_id item (item_qty item) db)
      ∙ continue-over order_id items b (reserve_qty order_id item (item_qty item) db)
          (reserve_items-over order_id items)

  pub reserve-over :
      (order_id : ℕ) (db : Db) {o o' : OrderRow}
      → lookup order_id db.orders ≡ some o
      → lookup order_id orders ≡ some o'
      → o'.items ≡ o.items
      → (reserve_inventory_items order_id (over db)).0 ≡ (reserve_inventory_items order_id db).0
  unfolding reserve_inventory_items
  reserve-over order_id db {o} {o'} h h' same =
      rw (reserve_inventory_items, h, h', same)
        (ap (λ out. out.0) (reserve_items-over order_id o.items _ db))
