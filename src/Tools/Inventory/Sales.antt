-- ===== src/Tools/Inventory/Sales.antt =====
-- What a sale writes: the report of `reserve_inventory_items` against the movements.
use sieshka.Prelude.{
  ℕ, Bool, true, false, ◌&&◌, ◌||◌, String, ◌≡◌, ◌≢◌, ◌⊎◌, refl, ap, sym, ◌∙◌, some, List, [], ◌∷◌,
  ◌++◌, arith, Option-cases, Bool-cases, inl, inr, any, All, nat_eq, string_eq,
}
use mathlib.Core.List.{append-nil, append_assoc}
use sieshka.Prelude.Int.{ℤ, pos, ◌-ℤ◌, ltb_ℤ}
use sieshka.Prelude.Dict.{lookup, adjust}
use sieshka.Database.{
  JsonField, absent, given, unusable, ItemJson, dict, other, OrderRow, StockRow, Movement, Db,
  Failure, malformed_item, out_of_range, in_integer, Session, Result, ok, err, sale, pure, continue,
}
use sieshka.Tools.Inventory.{
  reserve_item, reserve_items, reserve_sku, reserve_known, reserve_qty, reserve_inventory_items,
  item_sku, item_qty, sale_movement, sell, quantity_of, quantity_fits, update_quantity,
  record_movement,
}

-- A movement that an order's sale writes.
pub record IsSaleOf (order_id : ℕ) (m : Movement) : Type 0 where
  pub is_sale : m.reason ≡ sale
  pub from_order : m.source_type ≡ some "order"
  pub by_id : m.source_id ≡ some order_id

abbrev pub below : Movement → Bool
below m = m.below_zero

-- A session that began at `db` returned `before`, or whether one of the movements that it added is
-- flagged; all of these are the order's sales, and no order or ticket was touched.
pub record Reports (order_id : ℕ) (before : Bool) (out : Result Bool × Db) (db : Db) : Type 0 where
  pub added : List Movement
  pub returned : out.0 ≡ ok (before || any below added)
  pub ledger : out.1.inventory_movements ≡ db.inventory_movements ++ added
  pub sales : All (IsSaleOf order_id) added
  pub orders_kept : out.1.orders ≡ db.orders
  pub tickets_kept : out.1.kitchen_tickets ≡ db.kitchen_tickets
  pub payments_kept : out.1.payments ≡ db.payments
  pub keys_kept : out.1.idempotency_keys ≡ db.idempotency_keys

nothing_sold : (order_id : ℕ) (db : Db) → Reports order_id false (pure false db) db
nothing_sold order_id db = record {
  added = [];
  returned = refl;
  ledger = sym (append-nil db.inventory_movements);
  sales = tt;
  orders_kept = refl;
  tickets_kept = refl;
  payments_kept = refl;
  keys_kept = refl;
}

or_false : (b : Bool) → b || false ≡ b
or_false b = ground arith

all_three : (a b c : Bool) → (a && b && c) ≡ true → (a ≡ true) × (b ≡ true) × (c ≡ true)
all_three a b c h = (ground arith, ground arith, ground arith)

not_both : {b : Bool} {e : Failure} → ok b ≢ err e
not_both h = cc

-- Why a reservation stops: at an item whose quantity or sku cannot be read, or whose quantity, or the stock
-- that it would leave, is no INTEGER. The items before it have been taken by then.
pub data Stops (order_id : ℕ) : Failure → List ItemJson → Db → Type 0 where
  no_quantity :
      (item : ItemJson) (items : List ItemJson) (db : Db)
      → item_qty item ≡ unusable
      → Stops order_id malformed_item (item ∷ items) db
  no_sku :
      (item : ItemJson) (items : List ItemJson) (db : Db)
      → item_sku item db ≡ unusable
      → Stops order_id malformed_item (item ∷ items) db
  too_large :
      (item : ItemJson) (items : List ItemJson) (db : Db) (sku : String) (qty current : ℤ)
      → item_qty item ≡ given qty
      → item_sku item db ≡ given sku
      → quantity_of sku db ≡ some current
      → (in_integer qty && in_integer (current -ℤ qty) && in_integer (pos 0 -ℤ qty)) ≡ false
      → Stops order_id out_of_range (item ∷ items) db
  later :
      (e : Failure) (item : ItemJson) (items : List ItemJson) (db : Db)
      → Stops order_id e items (reserve_item order_id item db).1
      → Stops order_id e (item ∷ items) db

-- A reservation reports, or it stops.
abbrev pub Ends : ℕ → List ItemJson → Bool → Result Bool × Db → Db → Type 0
Ends order_id items before out db =
    Reports order_id before out db ⊎ ((e : Failure) × (out.0 ≡ err e) × Stops order_id e items db)

sold :
    (order_id : ℕ) (sku : String) (qty current : ℤ) (db : Db)
    → Reports order_id false
        (
          ok (ltb_ℤ (current -ℤ qty) (pos 0)),
          record db {
            inventory = adjust sku (λ s. record s { quantity = s.quantity -ℤ qty }) db.inventory;
            inventory_movements =
                db.inventory_movements ++ sale_movement order_id sku qty (current -ℤ qty) ∷ [];
          },
        )
        db
sold order_id sku qty current db = record {
  added = sale_movement order_id sku qty (current -ℤ qty) ∷ [];
  returned = ap ok (sym (or_false (ltb_ℤ (current -ℤ qty) (pos 0))));
  ledger = refl;
  sales = (record { is_sale = refl; from_order = refl; by_id = refl }, tt);
  orders_kept = refl;
  tickets_kept = refl;
  payments_kept = refl;
  keys_kept = refl;
}

-- A sale of a sku that is there, by whether everything fits.
sell_fits :
    (order_id : ℕ) (sku : String) (qty : ℤ) (db : Db) (row : StockRow)
    → lookup sku db.inventory ≡ some row
    → (in_integer qty && in_integer (row.quantity -ℤ qty) && in_integer (pos 0 -ℤ qty)) ≡ true
    → Reports order_id false (sell order_id sku qty row.quantity db) db
unfolding sell update_quantity record_movement quantity_fits
sell_fits order_id sku qty db row found fits =
    let (a, b, c) = all_three (in_integer qty) (in_integer (row.quantity -ℤ qty)) _ fits in
    rw (sell, update_quantity, quantity_fits, found, a, b, record_movement, c)
      (sold order_id sku qty row.quantity db)

sell_too_large :
    (order_id : ℕ) (sku : String) (qty : ℤ) (db : Db) (row : StockRow)
    → lookup sku db.inventory ≡ some row
    → (in_integer qty && in_integer (row.quantity -ℤ qty) && in_integer (pos 0 -ℤ qty)) ≡ false
    → (sell order_id sku qty row.quantity db).0 ≡ err out_of_range
unfolding sell update_quantity record_movement quantity_fits
sell_too_large order_id sku qty db row found large = ground (arith, found, large)

reserve_sku-Ends :
    (order_id : ℕ) (item : ItemJson) (items : List ItemJson) (sku : String) (qty : ℤ) (db : Db)
    → item_qty item ≡ given qty
    → item_sku item db ≡ given sku
    → Ends order_id (item ∷ items) false (reserve_sku order_id sku qty db) db
unfolding reserve_sku quantity_of
reserve_sku-Ends order_id item items sku qty db has_qty has_sku =
    elim (Option-cases (lookup sku db.inventory)) [
      | inl missing ↦ rw (missing, reserve_sku) (inl (nothing_sold order_id db))
      | inr (row, found) ↦
          rw (reserve_sku, quantity_of, found)
            (elim (Bool-cases
              (in_integer qty && in_integer (row.quantity -ℤ qty) && in_integer (pos 0 -ℤ qty))) [
                | inl fits ↦ inl (sell_fits order_id sku qty db row found fits)
                | inr large ↦ inr (
                  out_of_range,
                  sell_too_large order_id sku qty db row found large,
                  too_large item items db sku qty row.quantity has_qty has_sku
                      (rw (quantity_of, found) refl) large,
                )
              ])
    ]

reserve_known-Ends :
    (order_id : ℕ) (item : ItemJson) (items : List ItemJson) (qty : ℤ) (sku : JsonField String)
    (db : Db)
    → item_qty item ≡ given qty
    → item_sku item db ≡ sku
    → Ends order_id (item ∷ items) false (reserve_known order_id qty sku db) db
unfolding reserve_known
reserve_known-Ends order_id item items qty absent db has_qty e = inl (nothing_sold order_id db)
reserve_known-Ends order_id item items qty unusable db has_qty e =
    inr (malformed_item, refl, no_sku item items db e)
reserve_known-Ends order_id item items qty (given sku) db has_qty e =
    reserve_sku-Ends order_id item items sku qty db has_qty e

-- `int` of a quantity that is not there is that of 1.
item_qty_given : (item : ItemJson) → item_qty item ≢ absent
item_qty_given other e = cc
item_qty_given (dict sku product_id absent) e = cc
item_qty_given (dict sku product_id (given q)) e = cc
item_qty_given (dict sku product_id unusable) e = cc

reserve_qty-Ends :
    (order_id : ℕ) (item : ItemJson) (items : List ItemJson) (qty : JsonField ℤ) (db : Db)
    → item_qty item ≡ qty
    → Ends order_id (item ∷ items) false (reserve_qty order_id item qty db) db
unfolding reserve_qty
reserve_qty-Ends order_id item items absent db e = absurd (item_qty_given item e)
reserve_qty-Ends order_id item items unusable db e =
    inr (malformed_item, refl, no_quantity item items db e)
reserve_qty-Ends order_id item items (given qty) db e =
    reserve_known-Ends order_id item items qty (item_sku item db) db e refl

reserve_item-Ends :
    (order_id : ℕ) (item : ItemJson) (items : List ItemJson) (db : Db)
    → Ends order_id (item ∷ items) false (reserve_item order_id item db) db
unfolding reserve_item
reserve_item-Ends order_id item items db =
    reserve_qty-Ends order_id item items (item_qty item) db refl

or_assoc : (a b c : Bool) → (a || b) || c ≡ a || (b || c)
or_assoc a b c = ground arith

any-append : (p : Movement → Bool) (xs ys : List Movement) → any p (xs ++ ys) ≡ any p xs || any p ys
any-append p [] ys = refl
any-append p (x ∷ xs) ys = rw (any-append p xs ys) (sym (or_assoc (p x) (any p xs) (any p ys)))

All-append :
    (P : Movement → Type 0) (xs ys : List Movement) → All P xs → All P ys → All P (xs ++ ys)
All-append P [] ys hx hy = hy
All-append P (x ∷ xs) ys hx hy = (hx.0, All-append P xs ys hx.1 hy)

-- Two sessions in a row: the second begins with what the first returned.
then-Reports :
    (order_id : ℕ) (before : Bool) (db : Db) (first : Result Bool × Db) (next : Bool → Session Bool)
    → (one : Reports order_id false first db)
    → Reports order_id (before || any below one.added) (next (any below one.added) first.1) first.1
    → Reports order_id before (continue first.0 next first.1) db
then-Reports order_id before db first next one two = rw (one.returned) (record {
  added = one.added ++ two.added;
  returned =
      two.returned
      ∙ ap ok (
          or_assoc before (any below one.added) (any below two.added)
          ∙ ap (λ b. before || b) (sym (any-append below one.added two.added)));
  ledger =
      two.ledger
      ∙ ap (λ l. l ++ two.added) one.ledger
      ∙ append_assoc db.inventory_movements one.added two.added;
  sales = All-append (IsSaleOf order_id) one.added two.added one.sales two.sales;
  orders_kept = two.orders_kept ∙ one.orders_kept;
  tickets_kept = two.tickets_kept ∙ one.tickets_kept;
  payments_kept = two.payments_kept ∙ one.payments_kept;
  keys_kept = two.keys_kept ∙ one.keys_kept;
})

-- The rest of the items, after one that was taken.
after-Ends :
    (order_id : ℕ) (before : Bool) (item : ItemJson) (items : List ItemJson) (db : Db)
    → (one : Reports order_id false (reserve_item order_id item db) db)
    → Ends order_id items
        (before || any below one.added)
        (reserve_items order_id items
          (before || any below one.added)
          (reserve_item order_id item db).1)
        (reserve_item order_id item db).1
    → Ends order_id (item ∷ items) before (reserve_items order_id (item ∷ items) before db) db
unfolding reserve_items
after-Ends order_id before item items db one (inl two) = inl (
    then-Reports order_id before db (reserve_item order_id item db)
      (λ b. reserve_items order_id items (before || b)) one two)
after-Ends order_id before item items db one (inr (e, stopped, why)) =
    inr (e, rw one.returned stopped, later e item items db why)

stopped_at :
    (order_id : ℕ) (before : Bool) (item : ItemJson) (items : List ItemJson) (db : Db) (e : Failure)
    → (reserve_item order_id item db).0 ≡ err e
    → (reserve_items order_id (item ∷ items) before db).0 ≡ err e
unfolding reserve_items
stopped_at order_id before item items db e stopped = rw stopped refl

reserve_items-Ends :
    (order_id : ℕ) (items : List ItemJson) (before : Bool) (db : Db)
    → Ends order_id items before (reserve_items order_id items before db) db
unfolding reserve_items
reserve_items-Ends order_id [] before db = inl (record {
  added = [];
  returned = ap ok (sym (or_false before));
  ledger = sym (append-nil db.inventory_movements);
  sales = tt;
  orders_kept = refl;
  tickets_kept = refl;
  payments_kept = refl;
  keys_kept = refl;
})
reserve_items-Ends order_id (item ∷ items) before db =
    elim (reserve_item-Ends order_id item items db) [
      | inl one ↦ after-Ends order_id before item items db one (
          reserve_items-Ends order_id items (before || any below one.added)
            (reserve_item order_id item db).1)
      | inr (e, stopped, why) ↦ inr (e, stopped_at order_id before item items db e stopped, why)
    ]

-- For an order that is there, `reserve_inventory_items` does not fail for want of stock: it only adds sales of
-- that order to the ledger, and it returns 1 exactly if one of them is flagged as having taken its sku below
-- zero; or it raises, and then at an item whose quantity or sku cannot be read, or that takes a quantity out
-- of the range of INTEGER.
pub reserve-Ends :
    (order_id : ℕ) (db : Db) {o : OrderRow}
    → lookup order_id db.orders ≡ some o
    → Ends order_id o.items false (reserve_inventory_items order_id db) db
unfolding reserve_inventory_items
reserve-Ends order_id db {o} h =
    rw (h, reserve_inventory_items) (reserve_items-Ends order_id o.items false db)

-- A reservation that returned has reported.
pub reserve-Reports :
    (order_id : ℕ) (db : Db) {o : OrderRow} (b : Bool)
    → lookup order_id db.orders ≡ some o
    → (reserve_inventory_items order_id db).0 ≡ ok b
    → Reports order_id false (reserve_inventory_items order_id db) db
reserve-Reports order_id db b h returned = elim (reserve-Ends order_id db h) [
  | inl reports ↦ reports
  | inr (e, stopped, why) ↦ absurd (not_both (sym returned ∙ stopped))
]
