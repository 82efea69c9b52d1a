-- ===== src/Tools/Inventory/Calls.antt =====
-- Sequences of calls on the stock.
use sieshka.Prelude.{ℕ, String, ◌≡◌, refl, ◌∙◌, Option, List, [], ◌∷◌}
use sieshka.Prelude.Int.{ℤ}
use sieshka.Database.{MovementReason, Db, Session, ◌>>◌, pure, committed}
use sieshka.Tools.Inventory.{
  decrement_inventory, increment_inventory, set_inventory_quantity, set_inventory_state,
  set_quantity, reserve_inventory_items,
}
use sieshka.Tools.Inventory.Ledger.{
  opening, Accounts, Accounts-bind, decrement_inventory-Accounts, increment_inventory-Accounts,
  set_inventory_quantity-Accounts, set_inventory_state-Accounts, reserve_inventory_items-Accounts,
}

-- The calls that the program makes on the stock: by an admin's edit, by a restock, by a sale.
pub data StockCall : Type 0 where
  decrement : String → ℤ → StockCall
  increment : String → ℤ → Option MovementReason → Option String → Option ℕ → StockCall
  edit : String → ℤ → StockCall
  recompute : String → StockCall
  sell_order : ℕ → StockCall

pub perform : StockCall → Session Unit
perform (decrement sku q) = do decrement_inventory sku q; pure tt
perform (increment sku q reason st sid) = increment_inventory sku q reason st sid
perform (edit sku q) = set_quantity sku q
perform (recompute sku) = set_inventory_state sku
perform (sell_order order_id) = do reserve_inventory_items order_id; pure tt

perform-Accounts : (c : StockCall) → Accounts (perform c)
unfolding perform set_quantity
perform-Accounts (decrement sku q) =
    Accounts-bind (decrement_inventory sku q) (λ _. pure tt) (decrement_inventory-Accounts sku q)
      (λ _ j db. refl)
perform-Accounts (increment sku q reason st sid) = increment_inventory-Accounts sku q reason st sid
perform-Accounts (edit sku q) =
    Accounts-bind (set_inventory_quantity sku q) (λ _. set_inventory_state sku)
      (set_inventory_quantity-Accounts sku q) (λ _. set_inventory_state-Accounts sku)
perform-Accounts (recompute sku) = set_inventory_state-Accounts sku
perform-Accounts (sell_order order_id) =
    Accounts-bind (reserve_inventory_items order_id) (λ _. pure tt)
      (reserve_inventory_items-Accounts order_id) (λ _ j db. refl)

pub perform_all : List StockCall → Db → Db
perform_all [] db = db
perform_all (c ∷ cs) db = perform_all cs (committed (perform c db) db)

-- Whatever calls are made on the stock, in any order, with any arguments and whether they succeed
-- or raise, the quantity of every sku stays its opening quantity plus the movements that the ledger
-- holds for it: the difference of the two never changes, and no sku appears or disappears.
pub ledger_accounts :
    (calls : List StockCall) (sku : String) (db : Db)
    → opening sku (perform_all calls db) ≡ opening sku db
unfolding perform_all
ledger_accounts [] sku db = refl
ledger_accounts (c ∷ cs) sku db =
    ledger_accounts cs sku (committed (perform c db) db) ∙ perform-Accounts c sku db
