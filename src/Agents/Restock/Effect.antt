-- ===== src/Agents/Restock/Effect.antt =====
-- What a restock does to the stock.
use mathlib.Core.Option
use sieshka.Prelude.{
  ◌≡◌, refl, Bool, true, false, String, Option, none, some, ◌&&◌, Bool-cases, ◌++◌, ◌∷◌, [], arith,
  Option-cases, inl, inr, ◌==◌, string_eq, if◌then◌else◌,
}
use sieshka.Prelude.Int.{ℤ, pos, ◌+ℤ◌, leb_ℤ}
use sieshka.Prelude.Dict.{lookup, adjust, lookup-adjust}
use sieshka.Database.{
  Db, Failure, sku_not_found, StockRow, restock_agent, malformed_command, out_of_range, in_integer,
  Result, ok, err,
}
use sieshka.Tools.Inventory.{
  quantity_of, increment_inventory, update_quantity, quantity_fits, record_movement,
}
use sieshka.Agents.{
  Json, null, boolean, integer, float, string, array, object, Texts, is_valid, non_blank, get,
}
use sieshka.Agents.Restock.{
  Restock, restock_of, positive, required_apply_fields, validate_apply_restock_command,
  apply_restock_command,
}

-- A restock by `r`: the stock of its sku is up by its quantity, and that of every other sku is the same.
abbrev pub Restocked : Restock → Db → Db → Type 0
Restocked r before after =
    (j : String)
    → quantity_of j after ≡ (
        if r.sku == j
        then Option.map (λ q. q +ℤ r.quantity) (quantity_of j before)
        else quantity_of j before)

abbrev is_ok : {A : Type 0} → Result A → Bool
is_ok (ok a) = true
is_ok (err e) = false

-- The quantity, and the stock with it, are INTEGERs.
abbrev pub restock_fits : Restock → Db → Bool
restock_fits r db = elim (quantity_of r.sku db) [
  | none ↦ false
  | some q ↦ in_integer r.quantity && in_integer (q +ℤ r.quantity)
]

-- What a restock does: it is applied, or it fails and nothing changes, for a command that is not valid or for
-- a quantity that is too large.
pub data Outcome (valid : Bool) (before : Db) : Result Restock × Db → Type 0 where
  applied :
      (r : Restock) (after : Db)
      → valid ≡ true
      → leb_ℤ r.quantity (pos 0) ≡ false
      → restock_fits r before ≡ true
      → Restocked r before after
      → Outcome valid before (ok r, after)
  too_large :
      (r : Restock)
      → valid ≡ true
      → restock_fits r before ≡ false
      → Outcome valid before (err out_of_range, before)
  refused : (e : Failure) → valid ≡ false → Outcome valid before (err e, before)

-- The database after `quantity` is added to a sku, with its movement.
abbrev added : String → ℤ → Db → Db
added sku quantity db = record db {
  inventory = adjust sku (λ s. record s { quantity = s.quantity +ℤ quantity }) db.inventory;
  inventory_movements =
      db.inventory_movements
      ++ record {
        sku = sku;
        delta = quantity;
        reason = restock_agent;
        source_type = some "agent";
        source_id = none;
        below_zero = false;
      }
        ∷ [];
}

added-Restocked : (r : Restock) (db : Db) → Restocked r db (added r.sku r.quantity db)
unfolding quantity_of
added-Restocked r db j = ground (
  arith,
  lookup-adjust r.sku j (λ (s : StockRow). record s { quantity = s.quantity +ℤ r.quantity })
      db.inventory,
)

increment_lem :
    (sku : String) (quantity : ℤ) (db : Db) (row : StockRow)
    → lookup sku db.inventory ≡ some row
    → (in_integer quantity && in_integer (row.quantity +ℤ quantity)) ≡ true
    → increment_inventory sku quantity (some restock_agent) (some "agent") none db
      ≡ (ok tt, added sku quantity db)
unfolding increment_inventory update_quantity quantity_fits record_movement
increment_lem sku quantity db row h fits = ground (arith, h, fits)

increment_large :
    (sku : String) (quantity : ℤ) (db : Db) (row : StockRow)
    → lookup sku db.inventory ≡ some row
    → (in_integer quantity && in_integer (row.quantity +ℤ quantity)) ≡ false
    → increment_inventory sku quantity (some restock_agent) (some "agent") none db
      ≡ (err out_of_range, db)
unfolding increment_inventory update_quantity quantity_fits record_movement
increment_large sku quantity db row h large = ground (arith, h, large)

increment_none :
    (sku : String) (quantity : ℤ) (db : Db)
    → lookup sku db.inventory ≡ none
    → increment_inventory sku quantity (some restock_agent) (some "agent") none db
      ≡ (err sku_not_found, db)
unfolding increment_inventory
increment_none sku quantity db h = rw (increment_inventory, h) refl

module _ {F : Type 0} (t : Texts) where
  positive_lem : (json : Json F) (n : ℤ) → positive json ≡ some n → leb_ℤ n (pos 0) ≡ false
  positive_lem (integer m) n h = ground arith
  positive_lem null n h = absurd (ground arith)
  positive_lem (boolean b) n h = absurd (ground arith)
  positive_lem (float f) n h = absurd (ground arith)
  positive_lem (string s) n h = absurd (ground arith)
  positive_lem (array a) n h = absurd (ground arith)
  positive_lem (object o) n h = absurd (ground arith)

  restock_of_lem :
      (sku : Option String) (json : Json F) (r : Restock)
      → restock_of t sku (positive json) ≡ some r
      → leb_ℤ r.quantity (pos 0) ≡ false
  restock_of_lem sku json r h = ground (arith, positive_lem json r.quantity)

  fields_positive :
      (command : Json F) (r : Restock)
      → required_apply_fields t command ≡ some r
      → leb_ℤ r.quantity (pos 0) ≡ false
  unfolding required_apply_fields
  fields_positive (object fields) r h =
      restock_of_lem (non_blank t (get "sku" fields)) (get "quantity" fields) r h
  fields_positive null r h = absurd (ground arith)
  fields_positive (boolean b) r h = absurd (ground arith)
  fields_positive (integer m) r h = absurd (ground arith)
  fields_positive (float f) r h = absurd (ground arith)
  fields_positive (string s) r h = absurd (ground arith)
  fields_positive (array a) r h = absurd (ground arith)

  -- For every command and every database: a restock is applied exactly if `validate_apply_restock_command`
  -- returns 1 and its quantity, and the stock with it, are in the range of INTEGER. Then its quantity is positive,
  -- the stock of its sku is up by it, and that of every other sku is the same; otherwise the tool raises and
  -- nothing changes.
  pub apply_restock_command-Outcome :
      (command : Json F) (db : Db)
      → Outcome
          (is_valid (validate_apply_restock_command t command db))
          db
          (apply_restock_command t command db)
  unfolding apply_restock_command validate_apply_restock_command quantity_of
  apply_restock_command-Outcome command db = elim (Option-cases (required_apply_fields t command)) [
    | inl nothing ↦
        rw (apply_restock_command, validate_apply_restock_command, nothing)
          (refused malformed_command refl)
    | inr (r, found) ↦ elim (Option-cases (lookup r.sku db.inventory)) [
      | inl unknown ↦
          rw
            (
              apply_restock_command,
              validate_apply_restock_command,
              found,
              quantity_of,
              unknown,
              increment_none r.sku r.quantity db unknown,
            )
            (refused sku_not_found refl)
      | inr (row, known) ↦
          elim (Bool-cases (in_integer r.quantity && in_integer (row.quantity +ℤ r.quantity))) [
            | inl fits ↦
                rw
                  (
                    apply_restock_command,
                    validate_apply_restock_command,
                    found,
                    quantity_of,
                    known,
                    increment_lem r.sku r.quantity db row known fits,
                  )
                  (applied r (added r.sku r.quantity db) refl (fields_positive command r found)
                    (rw (restock_fits, quantity_of, known) fits) (added-Restocked r db))
            | inr large ↦
                rw
                  (
                    apply_restock_command,
                    validate_apply_restock_command,
                    found,
                    quantity_of,
                    known,
                    increment_large r.sku r.quantity db row known large,
                  )
                  (too_large r refl (rw (restock_fits, quantity_of, known) large))
          ]
    ]
  ]
