-- ===== src/Database.antt =====
-- The tables of migrations/*.sql that the modelled code reads and writes, and what one database
-- session does: a function that returns a result or raises, and the state it leaves behind.
-- UUIDs are numbers, since the code only compares them. Python's integers are unbounded; a write to an
-- INTEGER column raises out of its range.
use Prim.Native.String
use sieshka.Prelude.{ℕ, ◌&&◌, leb, true, Bool, String, Option, none, some, List, if◌then◌else◌}
use sieshka.Prelude.Int.{ℤ, pos, negsuc, leb_ℤ}
use sieshka.Prelude.Dict.{Dict}
use sieshka.Orders.{OrderState}
use sieshka.Fsm.Machines.{KitchenState, InventoryState}

-- VARCHAR(n).
abbrev pub varchar : ℕ → String → Bool
varchar n s = leb (String.count s) n

abbrev pub text_fits : ℕ → Option String → Bool
text_fits n none = true
text_fits n (some s) = varchar n s

-- What the INTEGER columns of PostgreSQL hold.
unfoldable pub in_integer : ℤ → Bool
in_integer n = leb_ℤ (negsuc 2147483647) n && leb_ℤ n (pos 2147483647)

abbrev pub int_fits : Option ℤ → Bool
int_fits none = true
int_fits (some n) = in_integer n

-- A field of a JSON object: missing, with a value that Python can convert, or with one on which the
-- conversion raises (`int(None)`, `UUID("x")`, or a parameter of a query that is no text).
pub data JsonField (A : Type 0) : Type 0 where
  absent : JsonField A
  given : A → JsonField A
  unusable : JsonField A

-- One entry of the JSON column `orders.items`; `other` is an entry that is no object. A sku or product id that
-- is false in Python, such as null, counts as missing; a quantity only if it is not there.
pub data ItemJson : Type 0 where
  dict : (sku : JsonField String) (product_id : JsonField ℕ) (qty : JsonField ℤ) → ItemJson
  other : ItemJson

pub record OrderRow : Type 0 where
  pub state : OrderState
  pub items : List ItemJson
  pub delivery_mode : String
  pub payment_id : Option ℕ
  pub trace_id : Option ℕ

pub record TicketRow : Type 0 where
  pub order_id : ℕ
  pub state : KitchenState

pub record StockRow : Type 0 where
  pub quantity : ℤ
  pub state : InventoryState

pub data MovementReason : Type 0 where
  restock_manual restock_agent sale adjustment sync_init : MovementReason

pub record Movement : Type 0 where
  pub sku : String
  pub delta : ℤ
  pub reason : MovementReason
  pub source_type : Option String
  pub source_id : Option ℕ
  pub below_zero : Bool

-- The values that code writes into `payments.state`.
pub data PaymentState : Type 0 where
  pending success failed : PaymentState

pub record PaymentRow : Type 0 where
  pub id : ℕ
  pub order_id : ℕ
  pub provider_id : ℕ
  pub amount : ℕ
  pub currency : String
  pub state : PaymentState

pub record Db : Type 0 where
  pub orders : Dict ℕ OrderRow
  pub kitchen_tickets : Dict ℕ TicketRow
  pub inventory : Dict String StockRow
  pub inventory_movements : List Movement
  -- `products.sku` by product id.
  pub product_skus : Dict ℕ (Option String)
  pub payments : List PaymentRow
  pub idempotency_keys : List (ℕ × String)

pub data Failure : Type 0 where
  order_not_found ticket_not_found sku_not_found no_result : Failure
  invalid_state denied missing_argument invalid_program : Failure
  bad_payment_method provider_unavailable malformed_command : Failure
  malformed_item out_of_range : Failure

pub data Result (A : Type 0) : Type 0 where
  ok : A → Result A
  err : Failure → Result A

-- What was written before a raise stays written until the session is closed.
abbrev pub Session : Type 0 → Type 0
Session A = Db → Result A × Db

module _ {A : Type 0} where
  abbrev pub pure : A → Session A
  pure a db = (ok a, db)

  abbrev pub raise : Failure → Session A
  raise e db = (err e, db)

  abbrev pub gets : (Db → A) → Session A
  gets f db = (ok (f db), db)

  -- `scalar_one_or_none()` followed by the code's own check for `None`.
  abbrev pub or_raise : Option A → Failure → Session A
  or_raise none e = raise e
  or_raise (some a) e = pure a

abbrev pub continue : {A B : Type 0} → Result A → (A → Session B) → Session B
continue (ok a) f db = f a db
continue (err e) f db = (err e, db)

infixl 5 ◌>>=◌ ◌>>◌
abbrev pub ◌>>=◌ : {A B : Type 0} → Session A → (A → Session B) → Session B
◌>>=◌ m f db = let (r, db') = m db in continue r f db'

abbrev pub ◌>>◌ : {A B : Type 0} → Session A → Session B → Session B
m >> k = m >>= λ _. k

abbrev pub raise_unless : Bool → Failure → Session (Unit {0})
raise_unless c e db = (if c then ok tt else err e, db)

abbrev pub modify : (Db → Db) → Session (Unit {0})
modify f db = (ok tt, f db)

-- The database once the session is closed: nothing stays of a session that raises.
abbrev pub committed : {A : Type 0} → Result A × Db → Db → Db
committed (ok a, after) before = after
committed (err e, after) before = before
