-- ===== src/Tools/Orders/Governed.antt =====
-- The terminal tools against the graph of the order.
use sieshka.Prelude.{
  ℕ, ◌≡◌, refl, ◌⊎◌, inl, inr, Bool, true, Option, none, some, arith, Option-cases, Bool-cases,
  ◌==◌, nat_eq, nat_beq_iff,
}
use sieshka.Prelude.Dict.{lookup, adjust, lookup-adjust}
use sieshka.Orders.{
  OrderState, OrderEvent, order_transitions, order_state_eq, state_beq_iff, confirmed,
  payment_pending, paid, request_payment, payment_confirmed, payment_failed, start_cooking,
}
use sieshka.Database.{
  Failure, OrderRow, Db, Session, Result, ok, err, order_not_found, invalid_state, ◌>>◌,
}
use sieshka.Tools.Orders.{
  require_state, write_order_state_payment_pending, write_order_state_paid,
  write_order_state_payment_failed, write_order_state_cooking, transition_order_state, TerminalTool,
  payment_pending_tool, paid_tool, payment_failed_tool, cooking_tool, transition, run_tool,
}

-- One order before and after: untouched, or moved along one edge of the graph.
abbrev pub OnGraph : Option OrderRow → Option OrderRow → Type 0
OnGraph none none = Unit
OnGraph (some o) (some o') =
    (o' ≡ o) ⊎ ((e : OrderEvent) × (order_transitions o.state e ≡ some o'.state))
OnGraph _ _ = ⊥

pub OnGraph-refl : (o : Option OrderRow) → OnGraph o o
OnGraph-refl none = tt
OnGraph-refl (some o) = inl refl

pub OnGraph-adjust :
    (order_id j : ℕ) (f : OrderRow → OrderRow) (db : Db) {o : OrderRow} (e : OrderEvent)
    → lookup order_id db.orders ≡ some o
    → order_transitions o.state e ≡ some (f o).state
    → OnGraph (lookup j db.orders) (lookup j (adjust order_id f db.orders))
OnGraph-adjust order_id j f db {o} e h g = rw lookup-adjust (elim (Bool-cases (order_id == j)) [
  | inl same ↦ rw (same, ← (nat_beq_iff order_id j).0 same, h) (inr (e, g))
  | inr differs ↦ rw differs (OnGraph-refl (lookup j db.orders))
])

-- How a terminal tool ends: it raises and the database is as it was, or it returns, and every order
-- is untouched or has moved along one edge of the graph.
abbrev pub Governed : Result Unit × Db → Db → Type 0
Governed (err f, db') db = db' ≡ db
Governed (ok _, db') db = (j : ℕ) → OnGraph (lookup j db.orders) (lookup j db'.orders)

require_state_cases :
    (order_id : ℕ) (expected : OrderState → Bool) (db : Db)
    → ((f : Failure) × (require_state order_id expected db ≡ (err f, db)))
      ⊎ ((o : OrderRow) × (lookup order_id db.orders ≡ some o)
          × (expected o.state ≡ true)
          × (require_state order_id expected db ≡ (ok tt, db)))
unfolding require_state
require_state_cases order_id expected db = elim (Option-cases (lookup order_id db.orders)) [
  | inl missing ↦ inl (order_not_found, rw (missing, require_state) refl)
  | inr (o, found) ↦ elim (Bool-cases (expected o.state)) [
    | inl fits ↦ inr (o, found, fits, rw (found, require_state, fits) refl)
    | inr unfit ↦ inl (invalid_state, rw (found, require_state, unfit) refl)
  ]
]

guarded-Governed :
    (order_id : ℕ) (expected : OrderState → Bool) (k : Session Unit) (db : Db)
    → ((o : OrderRow)
        → lookup order_id db.orders ≡ some o
        → expected o.state ≡ true
        → Governed (k db) db)
    → Governed ((require_state order_id expected >> k) db) db
guarded-Governed order_id expected k db h = elim (require_state_cases order_id expected db) [
  | inl (f, refused) ↦ rw refused refl
  | inr (o, found, fits, passed) ↦ rw passed (h o found fits)
]

-- A caller of the generic tool names an edge of the graph; the other tools name their own.
abbrev pub NamesEdge : TerminalTool → Type 0
NamesEdge (transition s t) = (e : OrderEvent) × (order_transitions s e ≡ some t)
NamesEdge _ = Unit

-- Whatever state an order is in, a terminal tool either raises and writes nothing, or returns and
-- has moved orders along edges of the graph only; of the generic tool this holds for every pair of
-- states that is an edge.
pub terminal_tools-Governed :
    (tool : TerminalTool) (order_id : ℕ) (db : Db)
    → NamesEdge tool
    → Governed (run_tool tool order_id db) db
unfolding run_tool write_order_state_payment_pending write_order_state_paid
    write_order_state_payment_failed write_order_state_cooking transition_order_state
    order_transitions
terminal_tools-Governed (payment_pending_tool payment_id) order_id db n =
    guarded-Governed order_id _ _ db λ o found fits j.
      OnGraph-adjust order_id j _ db request_payment found
        (ground (arith, state_beq_iff o.state confirmed))
terminal_tools-Governed paid_tool order_id db n = guarded-Governed order_id _ _ db λ o found fits j.
    OnGraph-adjust order_id j _ db payment_confirmed found
      (ground (arith, state_beq_iff o.state payment_pending))
terminal_tools-Governed payment_failed_tool order_id db n =
    guarded-Governed order_id _ _ db λ o found fits j.
      OnGraph-adjust order_id j _ db payment_failed found
        (ground (arith, state_beq_iff o.state payment_pending))
terminal_tools-Governed (cooking_tool ticket_id) order_id db n =
    guarded-Governed order_id _ _ db λ o found fits j.
      OnGraph-adjust order_id j _ db start_cooking found
        (ground (arith, state_beq_iff o.state paid, state_beq_iff o.state confirmed))
terminal_tools-Governed (transition s t) order_id db (e, edge) =
    guarded-Governed order_id _ _ db λ o found fits j.
      OnGraph-adjust order_id j _ db e found (rw ((state_beq_iff o.state s).0 fits) edge)
