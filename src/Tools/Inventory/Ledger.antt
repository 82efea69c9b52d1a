-- ===== src/Tools/Inventory/Ledger.antt =====
-- The stock against its ledger, by the opening balance of a sku.
use sieshka.Prelude.{
  ℕ, Bool, true, false, ◌||◌, String, ◌≡◌, refl, ◌∙◌, Option, none, some, List, [], ◌∷◌, ◌++◌, inl,
  inr, arith, eq_iff, Option-cases, Bool-cases, ◌==◌, string_eq, nat_eq, if◌then◌else◌,
}
use sieshka.Prelude.Int.{ℤ, pos, ◌+ℤ◌, ◌-ℤ◌, int_laws}
use sieshka.Prelude.Dict.{lookup, adjust, lookup-adjust}
use sieshka.Database.{
  ItemJson, StockRow, MovementReason, Movement, Db, Result, ok, err, Session, ◌>>=◌, continue,
  committed, JsonField, absent, given, unusable,
}
use sieshka.Tools.Inventory.{
  quantity_of, correction, decrement_inventory, increment_inventory, set_inventory_quantity,
  set_inventory_state, reserve_item, reserve_items, reserve_sku, reserve_known, reserve_qty,
  reserve_inventory_items, item_sku, item_qty, sale_movement, stock_state, restock_reason, is_zero,
}

-- The sum of the deltas that the ledger holds for a sku.
pub recorded : String → List Movement → ℤ
recorded sku [] = pos 0
recorded sku (m ∷ ms) = (if m.sku == sku then m.delta else pos 0) +ℤ recorded sku ms

recorded-append :
    (sku : String) (ms : List Movement) (m : Movement)
    → recorded sku (ms ++ m ∷ []) ≡ recorded sku ms +ℤ (if m.sku == sku then m.delta else pos 0)
unfolding recorded
recorded-append sku [] m = omega int_laws
recorded-append sku (n ∷ ms) m = rw (recorded-append sku ms m) (omega int_laws)

-- The quantity that a sku had before the first entry of the ledger; none for an unknown sku.
unfoldable pub opening : String → Db → Option ℤ
unfolding quantity_of
opening sku db = elim (quantity_of sku db) [
  | none ↦ none
  | some q ↦ some (q -ℤ recorded sku db.inventory_movements)
]

-- A write of a quantity together with its movement.
abbrev written : String → (ℤ → ℤ) → Movement → Db → Db
written sku f m db = record db {
  inventory = adjust sku (λ s. record s { quantity = f s.quantity }) db.inventory;
  inventory_movements = db.inventory_movements ++ m ∷ [];
}

cancel_sum : (a b r : ℤ) → a +ℤ b -ℤ (r +ℤ b) ≡ a -ℤ r
cancel_sum a b r = omega int_laws

cancel_zero : (a r : ℤ) → a -ℤ (r +ℤ pos 0) ≡ a -ℤ r
cancel_zero a r = omega int_laws

opening-written :
    (sku j : String) (f : ℤ → ℤ) (m : Movement) (db : Db) {row : StockRow}
    → lookup sku db.inventory ≡ some row
    → m.sku ≡ sku
    → f row.quantity ≡ row.quantity +ℤ m.delta
    → opening j (written sku f m db) ≡ opening j db
unfolding opening
opening-written sku j f m db {row} h e g =
    let at_j = lookup-adjust sku j (λ s. record s { quantity = f s.quantity }) db.inventory in
    let more = recorded-append j db.inventory_movements m in
    let r = recorded j db.inventory_movements in
    elim (Option-cases (lookup j db.inventory)) [
      | inl missing ↦ ground (arith, at_j, eq_iff sku j)
      | inr (s, found) ↦ ground (
        arith,
        at_j,
        more,
        eq_iff sku j,
        eq_iff m.sku j,
        cancel_sum row.quantity m.delta r,
        cancel_zero s.quantity r,
      )
    ]

-- The ledger accounts for what the session `m` does, on every branch; if it raises, nothing of it stays.
abbrev pub Accounts : {A : Type 0} → Session A → Type 0
Accounts m = (j : String) (db : Db) → opening j (committed (m db) db) ≡ opening j db

abbrev found_row : String → Db → Option StockRow
found_row sku db = lookup sku db.inventory

minus_as_plus : (a b : ℤ) → a -ℤ b ≡ a +ℤ (pos 0 -ℤ b)
minus_as_plus a b = omega int_laws

plus_difference : (a b : ℤ) → b ≡ a +ℤ (b -ℤ a)
plus_difference a b = omega int_laws

-- Taking stock that is there, and refusing when it is not.
pub decrement_inventory-Accounts : (sku : String) (q : ℤ) → Accounts (decrement_inventory sku q)
unfolding decrement_inventory
decrement_inventory-Accounts sku q j db = elim (Option-cases (found_row sku db)) [
  | inl missing ↦ ground arith
  | inr (row, found) ↦ ground (
    arith,
    opening-written sku j (λ c. c -ℤ q) (correction sku (pos 0 -ℤ q)) db found refl
        (minus_as_plus row.quantity q),
  )
]

pub increment_inventory-Accounts :
    (sku : String) (q : ℤ) (reason : Option MovementReason) (st : Option String) (sid : Option ℕ)
    → Accounts (increment_inventory sku q reason st sid)
unfolding increment_inventory
increment_inventory-Accounts sku q reason st sid j db = elim (Option-cases (found_row sku db)) [
  | inl missing ↦ ground arith
  | inr (row, found) ↦ ground (
    arith,
    opening-written sku j (λ c. c +ℤ q)
        (record {
          sku = sku;
          delta = q;
          reason = restock_reason reason;
          source_type = st;
          source_id = sid;
          below_zero = false;
        })
        db found refl refl,
  )
]

-- A write of a sku's row that keeps its quantity.
opening-same :
    (sku j : String) (f : StockRow → StockRow) (db : Db) {row : StockRow}
    → lookup sku db.inventory ≡ some row
    → (f row).quantity ≡ row.quantity
    → opening j (record db { inventory = adjust sku f db.inventory }) ≡ opening j db
unfolding opening
opening-same sku j f db {row} h keeps = elim (Option-cases (lookup j db.inventory)) [
  | inl missing ↦ ground (arith, lookup-adjust sku j f db.inventory, eq_iff sku j)
  | inr (s, found) ↦ ground (arith, lookup-adjust sku j f db.inventory, eq_iff sku j)
]

zero_difference : (a b : ℤ) → is_zero (a -ℤ b) ≡ true → a ≡ b
zero_difference a b h = grind int_laws

pub set_inventory_quantity-Accounts :
    (sku : String) (q : ℤ) → Accounts (set_inventory_quantity sku q)
unfolding set_inventory_quantity
set_inventory_quantity-Accounts sku q j db = elim (Option-cases (found_row sku db)) [
  | inl missing ↦ ground arith
  | inr (row, found) ↦ elim (Bool-cases (is_zero (q -ℤ row.quantity))) [
    | inl same ↦ ground (
      arith,
      opening-same sku j (λ s. record s { quantity = q }) db found
          (zero_difference q row.quantity same),
    )
    | inr changed ↦ ground (
      arith,
      opening-written sku j (λ _. q) (correction sku (q -ℤ row.quantity)) db found refl
          (plus_difference row.quantity q),
    )
  ]
]

pub set_inventory_state-Accounts : (sku : String) → Accounts (set_inventory_state sku)
unfolding set_inventory_state
set_inventory_state-Accounts sku j db = elim (Option-cases (found_row sku db)) [
  | inl missing ↦ ground arith
  | inr (row, found) ↦
      ground (
        arith,
        opening-same sku j (λ s. record s { state = stock_state row.quantity }) db found refl,
      )
]

reserve_sku-Accounts : (order_id : ℕ) (sku : String) (q : ℤ) → Accounts (reserve_sku order_id sku q)
unfolding reserve_sku
reserve_sku-Accounts order_id sku q j db = elim (Option-cases (found_row sku db)) [
  | inl missing ↦ ground arith
  | inr (row, found) ↦ ground (
    arith,
    opening-written sku j (λ c. c -ℤ q) (sale_movement order_id sku q (row.quantity -ℤ q)) db found
        refl (minus_as_plus row.quantity q),
  )
]

-- A session that ended at `out`, which began where another one had left off.
then_Accounts :
    {B : Type 0} (out : Result B × Db) (j : String) (mid db : Db)
    → opening j (committed out mid) ≡ opening j mid
    → opening j mid ≡ opening j db
    → opening j (committed out db) ≡ opening j db
then_Accounts (ok b, after) j mid db h km = h ∙ km
then_Accounts (err e, after) j mid db h km = refl

reserve_known-Accounts :
    (order_id : ℕ) (q : ℤ) (sku : JsonField String) → Accounts (reserve_known order_id q sku)
unfolding reserve_known
reserve_known-Accounts order_id q absent j db = refl
reserve_known-Accounts order_id q unusable j db = refl
reserve_known-Accounts order_id q (given s) j db = reserve_sku-Accounts order_id s q j db

reserve_qty-Accounts :
    (order_id : ℕ) (item : ItemJson) (qty : JsonField ℤ) → Accounts (reserve_qty order_id item qty)
unfolding reserve_qty
reserve_qty-Accounts order_id item absent j db = refl
reserve_qty-Accounts order_id item unusable j db = refl
reserve_qty-Accounts order_id item (given q) j db =
    reserve_known-Accounts order_id q (item_sku item db) j db

reserve_item-Accounts : (order_id : ℕ) (item : ItemJson) → Accounts (reserve_item order_id item)
unfolding reserve_item
reserve_item-Accounts order_id item = reserve_qty-Accounts order_id item (item_qty item)

-- What the second session commits, it commits on top of what the first one left.
continue-Accounts :
    {A B : Type 0} (r : Result A) (f : A → Session B) (j : String) (mid db : Db)
    → ((a : A) → Accounts (f a))
    → opening j (committed (r, mid) db) ≡ opening j db
    → opening j (committed (continue r f mid) db) ≡ opening j db
continue-Accounts (ok a) f j mid db kf km = then_Accounts (f a mid) j mid db (kf a j mid) km
continue-Accounts (err e) f j mid db kf km = refl

pub Accounts-bind :
    {A B : Type 0} (m : Session A) (f : A → Session B)
    → Accounts m
    → ((a : A) → Accounts (f a))
    → Accounts (m >>= f)
Accounts-bind m f km kf j db = let (r, mid) = m db in continue-Accounts r f j mid db kf (km j db)

reserve_items-Accounts :
    (order_id : ℕ) (items : List ItemJson) (any : Bool)
    → Accounts (reserve_items order_id items any)
unfolding reserve_items
reserve_items-Accounts order_id [] any j db = refl
reserve_items-Accounts order_id (item ∷ items) any j db =
    Accounts-bind (reserve_item order_id item)
      (λ below_zero. reserve_items order_id items (any || below_zero))
      (reserve_item-Accounts order_id item)
      (λ below_zero. reserve_items-Accounts order_id items (any || below_zero)) j db

pub reserve_inventory_items-Accounts : (order_id : ℕ) → Accounts (reserve_inventory_items order_id)
unfolding reserve_inventory_items
reserve_inventory_items-Accounts order_id j db = elim (Option-cases (lookup order_id db.orders)) [
  | inl missing ↦ rw (missing, reserve_inventory_items) refl
  | inr (o, found) ↦
      rw (found, reserve_inventory_items) (reserve_items-Accounts order_id o.items false j db)
]
