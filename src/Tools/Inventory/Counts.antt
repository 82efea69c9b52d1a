-- ===== src/Tools/Inventory/Counts.antt =====
-- A manual count of the stock.
use sieshka.Prelude.{
  Bool, true, false, ◌&&◌, ◌||◌, ◌≡◌, refl, String, some, arith, Bool-cases, inl, inr, string_eq,
  eq_iff,
}
use sieshka.Prelude.Int.{ℤ, ◌-ℤ◌}
use sieshka.Prelude.Dict.{lookup, adjust, lookup-adjust}
use sieshka.Database.{StockRow, Db, Result, ok, err, out_of_range, in_integer, committed}
use sieshka.Tools.Inventory.{
  set_inventory_quantity, set_inventory_state, set_quantity, stock_state, quantity_of,
  update_quantity, quantity_fits, record_movement, is_zero,
}

lookup_adjusted :
    (sku : String) (f : StockRow → StockRow) (db : Db) {row : StockRow}
    → lookup sku db.inventory ≡ some row
    → lookup sku (adjust sku f db.inventory) ≡ some (f row)
lookup_adjusted sku f db h = rw lookup-adjust (ground (arith, eq_iff sku sku))

-- What a count needs of the INTEGER columns: the quantity, and the movement that it writes, unless there is none.
abbrev pub count_fits : ℤ → ℤ → Bool
count_fits current quantity =
    in_integer quantity && (is_zero (quantity -ℤ current) || in_integer (quantity -ℤ current))

counted :
    (sku : String) (quantity : ℤ) (db : Db) {row : StockRow}
    → lookup sku db.inventory ≡ some row
    → count_fits row.quantity quantity ≡ true
    → let out = set_inventory_quantity sku quantity db in
      (out.0 ≡ ok tt) × (lookup sku out.1.inventory ≡ some (record row { quantity = quantity }))
unfolding set_inventory_quantity quantity_of update_quantity quantity_fits record_movement
counted sku quantity db {row} h fits =
    let found = lookup_adjusted sku (λ s. record s { quantity = quantity }) db h in
    (ground (arith, h, fits), ground (arith, h, fits, found))

refused :
    (sku : String) (quantity : ℤ) (db : Db) {row : StockRow}
    → lookup sku db.inventory ≡ some row
    → count_fits row.quantity quantity ≡ false
    → (set_inventory_quantity sku quantity db).0 ≡ err out_of_range
unfolding set_inventory_quantity quantity_of update_quantity quantity_fits record_movement
refused sku quantity db {row} h large = ground (arith, h, large)

classified :
    (sku : String) (db : Db) {row : StockRow}
    → lookup sku db.inventory ≡ some row
    → let out = set_inventory_state sku db in
      (out.0 ≡ ok tt)
      × (lookup sku out.1.inventory ≡ some (record row { state = stock_state row.quantity }))
unfolding set_inventory_state quantity_of
classified sku db {row} h =
    rw (set_inventory_state, quantity_of, h)
      (refl, lookup_adjusted sku (λ s. record s { state = stock_state row.quantity }) db h)

-- What a count does, by whether it fits.
abbrev pub Counted : Bool → String → ℤ → Db → Result Unit × Db → Type 0
Counted false sku quantity db out = (out.0 ≡ err out_of_range) × (committed out db ≡ db)
Counted true sku quantity db out =
    (out.0 ≡ ok tt)
    × (lookup sku out.1.inventory
        ≡ some (record { quantity = quantity; state = stock_state quantity }))

fitting :
    (sku : String) (quantity : ℤ) (db : Db) {row : StockRow}
    → lookup sku db.inventory ≡ some row
    → count_fits row.quantity quantity ≡ true
    → Counted true sku quantity db (set_quantity sku quantity db)
unfolding set_quantity
fitting sku quantity db h fits =
    let (done, now) = counted sku quantity db h fits in
    rw (set_quantity, done) (classified sku (set_inventory_quantity sku quantity db).1 now)

too_large :
    (sku : String) (quantity : ℤ) (db : Db) {row : StockRow}
    → lookup sku db.inventory ≡ some row
    → count_fits row.quantity quantity ≡ false
    → Counted false sku quantity db (set_quantity sku quantity db)
unfolding set_quantity
too_large sku quantity db h large = rw (set_quantity, refused sku quantity db h large) (refl, refl)

-- A manual count of a sku that has a row: it raises if the quantity, or the change if there is one, is out of the
-- range of INTEGER, and then nothing is committed; otherwise it succeeds, and afterwards the sku has exactly that
-- quantity and the state that belongs to it.
pub set_quantity_counts :
    (sku : String) (quantity : ℤ) (db : Db) {row : StockRow}
    → lookup sku db.inventory ≡ some row
    → Counted (count_fits row.quantity quantity) sku quantity db (set_quantity sku quantity db)
set_quantity_counts sku quantity db {row} h = elim (Bool-cases (count_fits row.quantity quantity)) [
  | inl fits ↦ rw fits (fitting sku quantity db h fits)
  | inr large ↦ rw large (too_large sku quantity db h large)
]
